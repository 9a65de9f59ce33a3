-- ===== src/Topo/Fuel.antt =====
-- The recursion of the sort ends (modulex.go: topoSorter.visit): the fuel of `sort_modules` is
-- enough, since each deeper call has marked one more registered module.
use modulex.Prelude.{
  ℕ, zero, suc, ◌+◌, ◌≤◌, ◌<◌, String, ◌≡◌, refl, ◌≢◌, sym, ap, ◌∙◌, subst, Option, none, some,
  List, [], ◌∷◌, inl, inr, arith, lookup, keys, Assoc, test_self, test_of_ne, String-cases, ◌==◌,
  trim_space, In, length, Bool-cases, eq_of_test,
}
use modulex.Module.{Module}
use modulex.Topo.{
  VisitState, TopoSorter, Outcome, ok, err, fuel_out, enter, Visit, finish, visit_dependency,
  and_then, visit_dependencies, visit_module, visit_in, visit, visit_root, visit_roots, new_sorter,
  no_fuel, result_of, sort_fuel, sort_modules,
}
use modulex.Topo.Runs.{Keeps, AllKeep, visit_dependency-eq-ok, visit-Keeps, visit_root-Keeps}

abbrev one_if_unvisited : VisitState → ℕ
one_if_unvisited VisitState.unvisited = 1
one_if_unvisited _ = 0

-- How many of the names are still unvisited.
unseen : (String → VisitState) → List String → ℕ
unseen f [] = 0
unseen f (k ∷ ks) = one_if_unvisited (f k) + unseen f ks

one_le :
    (s t : VisitState)
    → (t ≡ VisitState.unvisited → s ≡ VisitState.unvisited)
    → one_if_unvisited t ≤ one_if_unvisited s
one_le VisitState.unvisited VisitState.unvisited h = omega arith
one_le VisitState.visiting VisitState.unvisited h = let e = h refl in cc
one_le VisitState.visited VisitState.unvisited h = let e = h refl in cc
one_le s VisitState.visiting h = omega arith
one_le s VisitState.visited h = omega arith

module _ (f g : String → VisitState)
    (back : (n : String) → g n ≡ VisitState.unvisited → f n ≡ VisitState.unvisited) where
  unseen_mono : (ks : List String) → unseen g ks ≤ unseen f ks
  unfolding unseen
  unseen_mono [] = omega arith
  unseen_mono (k ∷ ks) = omega (arith, one_le (f k) (g k) (back k), unseen_mono ks)

  unseen_drop :
      (k : String) (ks : List String)
      → In k ks
      → f k ≡ VisitState.unvisited
      → one_if_unvisited (g k) ≡ 0
      → unseen g ks < unseen f ks
  unfolding unseen
  unseen_drop k [] m old new = elim m [ ]
  unseen_drop k (x ∷ ks) (In.here e) old new =
      let p : one_if_unvisited (f x) ≡ 1 =
        ap one_if_unvisited (subst (λ n. f n ≡ VisitState.unvisited) e old) in
      let q : one_if_unvisited (g x) ≡ 0 = subst (λ n. one_if_unvisited (g n) ≡ 0) e new in
      omega (arith, p, q, unseen_mono ks)
  unseen_drop k (x ∷ ks) (In.there m) old new =
      omega (arith, one_le (f x) (g x) (back x), unseen_drop k ks m old new)

pub lookup-In : (k : String) (m : Assoc Module) {md : Module} → lookup k m ≡ some md → In k (keys m)
lookup-In k [] h = cc
lookup-In k ((j, v) ∷ m) h = elim (Bool-cases (j == k)) [
  | inl e ↦ In.here (sym (eq_of_test j k e))
  | inr e ↦ In.there (lookup-In k m (rw e at h))
]

and_then-ne-fuel_out :
    (o : Outcome) (f : TopoSorter → Outcome)
    → o ≢ fuel_out
    → ((ts : TopoSorter) → o ≡ ok ts → f ts ≢ fuel_out)
    → and_then o f ≢ fuel_out
and_then-ne-fuel_out (ok ts) f p q h = q ts refl h
and_then-ne-fuel_out (err e ts) f p q h = cc
and_then-ne-fuel_out fuel_out f p q h = p refl

finish-ne-fuel_out :
    (name : String) (md : Module) (o : Outcome) → o ≢ fuel_out → finish name md o ≢ fuel_out
unfolding finish
finish-ne-fuel_out name md (ok ts) p h = cc
finish-ne-fuel_out name md (err e ts) p h = cc
finish-ne-fuel_out name md fuel_out p h = p refl

visit_dependency-ne-fuel_out :
    (visit : Visit) (name dep : String) (ts : TopoSorter)
    → visit dep ts ≢ fuel_out
    → visit_dependency visit name dep ts ≢ fuel_out
unfolding visit_dependency
visit_dependency-ne-fuel_out visit name dep ts p h = p (ground arith)

visit_root-ne-fuel_out :
    (fuel : ℕ) (s : VisitState) (name : String) (ts : TopoSorter)
    → visit fuel name ts ≢ fuel_out
    → visit_root fuel s name ts ≢ fuel_out
unfolding visit_root
visit_root-ne-fuel_out fuel VisitState.unvisited name ts p h = p h
visit_root-ne-fuel_out fuel VisitState.visiting name ts p h = cc
visit_root-ne-fuel_out fuel VisitState.visited name ts p h = cc

result_of-ne-no_fuel : (o : Outcome) → o ≢ fuel_out → result_of o ≢ no_fuel
result_of-ne-no_fuel (ok ts) p h = cc
result_of-ne-no_fuel (err e ts) p h = cc
result_of-ne-no_fuel fuel_out p h = p refl

module _ (modules : Assoc Module) where
  -- The measure of a call of `visit`.
  abbrev left : TopoSorter → ℕ
  left ts = unseen ts.state (keys modules)

  abbrev Runs : ℕ → Visit → Type 0
  Runs bound visit =
      (name : String) (ts : TopoSorter)
      → ts.modules ≡ modules
      → left ts < bound
      → visit name ts ≢ fuel_out

  visit_dependencies-Runs :
      (bound : ℕ) (visit : Visit)
      → AllKeep visit
      → Runs bound visit
      → (name : String) (deps : List String) (ts : TopoSorter) → ts.modules ≡ modules
      → left ts < bound
      → visit_dependencies visit name deps ts ≢ fuel_out
  unfolding visit_dependencies
  visit_dependencies-Runs bound visit keep runs name [] ts same low = λ h. cc
  visit_dependencies-Runs bound visit keep runs name (dep ∷ deps) ts same low =
      and_then-ne-fuel_out (visit_dependency visit name (trim_space dep) ts) _
        (visit_dependency-ne-fuel_out visit name (trim_space dep) ts
          (runs (trim_space dep) ts same low))
        (λ mid e.
          let k : Keeps ts mid =
            keep (trim_space dep) ts mid
              (visit_dependency-eq-ok visit name (trim_space dep) ts e) in
          visit_dependencies-Runs bound visit keep runs name deps mid (k.modules ∙ same)
            (omega (arith, unseen_mono ts.state mid.state k.unvisited (keys modules))))

  enter-drop :
      (name : String) (ts : TopoSorter)
      → In name (keys modules)
      → ts.state name ≡ VisitState.unvisited
      → left (enter name ts) < left ts
  unfolding enter
  enter-drop name ts reg new =
      unseen_drop ts.state (enter name ts).state
        (λ n h. elim (String-cases name n) [
          | inl e ↦ absurd (impossible n e h)
          | inr d ↦ rw (test_of_ne name n d) at h
        ])
        name (keys modules) reg new (rw (test_self name))
    where
      impossible : (n : String) → name ≡ n → (enter name ts).state n ≡ VisitState.unvisited → ⊥
      impossible n e h = let h' = rw (← e, test_self name) at h in cc

  visit_module-Runs :
      (bound : ℕ) (visit : Visit)
      → AllKeep visit
      → Runs bound visit
      → (name : String) (found : Option Module) (ts : TopoSorter) → lookup name modules ≡ found
      → ts.state name ≡ VisitState.unvisited
      → ts.modules ≡ modules
      → left ts < suc bound
      → visit_module visit name found ts ≢ fuel_out
  unfolding visit_module
  visit_module-Runs bound visit keep runs name none ts reg new same low = λ h. cc
  visit_module-Runs bound visit keep runs name (some md) ts reg new same low =
      finish-ne-fuel_out name md (visit_dependencies visit name md.depends_on (enter name ts)) (
        visit_dependencies-Runs bound visit keep runs name md.depends_on (enter name ts)
          (entered same) (omega (arith, enter-drop name ts (lookup-In name modules reg) new)))
    where
      entered : ts.modules ≡ modules → (enter name ts).modules ≡ modules
      entered e = unfold enter in e

  visit_in-Runs :
      (bound : ℕ) (visit : Visit)
      → AllKeep visit
      → Runs bound visit
      → (s : VisitState) (name : String) (ts : TopoSorter) → ts.state name ≡ s
      → ts.modules ≡ modules
      → left ts < suc bound
      → visit_in visit s name ts ≢ fuel_out
  unfolding visit_in
  visit_in-Runs bound visit keep runs VisitState.visiting name ts e same low = λ h. cc
  visit_in-Runs bound visit keep runs VisitState.visited name ts e same low = λ h. cc
  visit_in-Runs bound visit keep runs VisitState.unvisited name ts e same low =
      visit_module-Runs bound visit keep runs name _ ts (ap (lookup name) (sym same)) e same low

  visit-Runs : (fuel : ℕ) → Runs fuel (visit fuel)
  unfolding visit
  visit-Runs zero name ts same low = elim low [ ]
  visit-Runs (suc fuel) name ts same low =
      visit_in-Runs fuel (visit fuel) (visit-Keeps fuel) (visit-Runs fuel) (ts.state name) name ts
        refl same low

  visit_roots-runs :
      (fuel : ℕ) (todo : List String) (ts : TopoSorter)
      → ts.modules ≡ modules
      → left ts < fuel
      → visit_roots fuel todo ts ≢ fuel_out
  unfolding visit_roots
  visit_roots-runs fuel [] ts same low = λ h. cc
  visit_roots-runs fuel (name ∷ todo) ts same low =
      and_then-ne-fuel_out (visit_root fuel (ts.state name) name ts) _
        (visit_root-ne-fuel_out fuel (ts.state name) name ts (visit-Runs fuel name ts same low))
        (λ mid e.
          let k : Keeps ts mid = visit_root-Keeps fuel (ts.state name) name ts mid e in
          visit_roots-runs fuel todo mid (k.modules ∙ same)
            (omega (arith, unseen_mono ts.state mid.state k.unvisited (keys modules))))

  unseen-le-length : (f : String → VisitState) (m : Assoc Module) → unseen f (keys m) ≤ length m
  unfolding unseen
  unseen-le-length f [] = omega arith
  unseen-le-length f ((k, v) ∷ m) =
      omega (arith, one_le VisitState.unvisited (f k) (λ e. refl), unseen-le-length f m)

-- The sort always ends with an order or an error: its fuel, one more than the number of registered
-- modules, never runs out.
pub sort_modules-ne-no_fuel :
    (modules : Assoc Module) (module_order : List String)
    → sort_modules modules module_order ≢ no_fuel
unfolding sort_modules
sort_modules-ne-no_fuel modules module_order =
    result_of-ne-no_fuel (visit_roots (sort_fuel modules) module_order (new_sorter modules)) (
      visit_roots-runs modules (sort_fuel modules) module_order (new_sorter modules) refl
        (omega (arith, unseen-le-length modules (new_sorter modules).state modules)))
