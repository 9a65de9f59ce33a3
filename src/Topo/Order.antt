-- ===== src/Topo/Order.antt =====
-- The order that the sort returns (modulex.go: sortModules): every module once, each behind the
-- modules that it depends on.
use modulex.Prelude.{
  ℕ, zero, suc, String, ◌≡◌, refl, ◌≢◌, sym, ap, ◌∙◌, subst, Option, none, some, List, [], ◌∷◌,
  ◌++◌, map, inl, inr, append_assoc, append-nil, map-append, snoc, lookup, Assoc, test_self,
  test_of_ne, String-cases, trim_space, In, In-append_left, In-append_right, In-append_cases,
  not-In-nil, Nodup, Nodup-snoc, All, All-append,
}
use modulex.Module.{Module}
use modulex.Topo.{
  VisitState, TopoSorter, Outcome, ok, err, fuel_out, enter, leave, Visit, visit_dependency,
  visit_dependencies, visit_module, visit_in, visit, visit_root, visit_roots, new_sorter, sorted,
  sort_fuel, sort_modules, result_of,
}
use modulex.Topo.Runs.{
  Keeps, Keeps-refl, Keeps-trans, and_then-eq-ok, finish-eq-ok, close, AllKeep,
  visit_dependency-eq-ok, visit_dependencies-Keeps, visit-Keeps,
}

-- The key under which a module is registered.
abbrev pub key_of : Module → String
key_of md = trim_space md.name

-- RegisterModule files each module under its own trimmed name.
abbrev pub IsKeyed : Assoc Module → Type 0
IsKeyed modules = (k : String) (md : Module) → lookup k modules ≡ some md → key_of md ≡ k

abbrev pub names : List Module → List String
names mds = map key_of mds

-- Each module depends only on `seen` and on the modules before it.
abbrev pub IsOrdered : List String → List Module → Type 0
IsOrdered seen [] = Unit
IsOrdered seen (md ∷ mds) =
    All (λ dep. In (trim_space dep) seen) md.depends_on × IsOrdered (snoc seen (key_of md)) mds

IsOrdered-snoc :
    (seen : List String) (mds : List Module) (md : Module)
    → IsOrdered seen mds
    → All (λ dep. In (trim_space dep) (seen ++ names mds)) md.depends_on
    → IsOrdered seen (snoc mds md)
IsOrdered-snoc seen [] md h d = (rw append-nil at d, tt)
IsOrdered-snoc seen (x ∷ mds) md h d = (
  h.0,
  IsOrdered-snoc (snoc seen (key_of x)) mds md h.1
      (rw (append_assoc seen (key_of x ∷ []) (names mds)) d),
)

-- The contract of the sort: the names of the result, without repetition, are names of registered
-- modules and include every listed name, and each module stands behind its dependencies.
pub record IsSortOf (modules : Assoc Module) (module_order : List String) (mds : List Module)
    : Type 0 where
  pub nodup : Nodup (names mds)
  pub is_ordered : IsOrdered [] mds
  pub registered : All (λ md. lookup (key_of md) modules ≡ some md) mds
  pub complete : All (λ n. In n (names mds)) module_order

module _ (modules : Assoc Module) (keyed : IsKeyed modules) where
  -- What holds of the sorter between two visits.
  pub record Inv (ts : TopoSorter) : Type 0 where
    pub same : ts.modules ≡ modules
    pub placed : (n : String) → ts.state n ≡ VisitState.visited → In n (names ts.order)
    pub done : (n : String) → In n (names ts.order) → ts.state n ≡ VisitState.visited
    pub once : Nodup (names ts.order)
    pub ordered : IsOrdered [] ts.order
    pub found : All (λ md. lookup (key_of md) modules ≡ some md) ts.order

  abbrev pub AllSound : Visit → Type 0
  AllSound visit =
      (name : String) (ts ts' : TopoSorter)
      → Inv ts
      → visit name ts ≡ ok ts'
      → Inv ts' × (ts'.state name ≡ VisitState.visited)

  enter-Inv :
      (name : String) (ts : TopoSorter)
      → ts.state name ≡ VisitState.unvisited
      → Inv ts
      → Inv (enter name ts)
  unfolding enter
  enter-Inv name ts new i = record {
    same = i.same;
    placed = λ n h. elim (String-cases name n) [
      | inl e ↦ absurd (impossible n e h)
      | inr d ↦ i.placed n (rw (test_of_ne name n d) at h)
    ];
    done = λ n m. elim (String-cases name n) [
      | inl e ↦ absurd (clash n e (i.done n m))
      | inr d ↦ rw (test_of_ne name n d) (i.done n m)
    ];
    once = i.once;
    ordered = i.ordered;
    found = i.found;
  }
    where
      impossible : (n : String) → name ≡ n → (enter name ts).state n ≡ VisitState.visited → ⊥
      impossible n e h = let h' = rw (← e, test_self name) at h in cc

      clash : (n : String) → name ≡ n → ts.state n ≡ VisitState.visited → ⊥
      clash n e h = cc

  visit_dependencies_sound :
      (visit : Visit)
      → AllKeep visit
      → AllSound visit
      → (name : String) (deps : List String) (ts ts' : TopoSorter) → Inv ts
      → visit_dependencies visit name deps ts ≡ ok ts'
      → Inv ts' × All (λ dep. ts'.state (trim_space dep) ≡ VisitState.visited) deps
  unfolding visit_dependencies
  visit_dependencies_sound visit keep sound name [] ts ts' i h = (subst Inv (cc) i, tt)
  visit_dependencies_sound visit keep sound name (dep ∷ deps) ts ts' i h =
      let (mid, p, q) = and_then-eq-ok (visit_dependency visit name (trim_space dep) ts) _ h in
      let (j, seen) = sound (trim_space dep) ts mid i (visit_dependency-eq-ok visit name _ ts p) in
      let (k, rest) = visit_dependencies_sound visit keep sound name deps mid ts' j q in
      (
        k,
        (
          (visit_dependencies-Keeps visit keep name deps mid ts' q).visited (trim_space dep) seen,
          rest,
        ),
      )

  names-snoc :
      (mds : List Module) (md : Module) → names (snoc mds md) ≡ snoc (names mds) (key_of md)
  names-snoc mds md = map-append key_of mds (md ∷ [])

  All-placed :
      (ts : TopoSorter) (deps : List String)
      → Inv ts
      → All (λ dep. ts.state (trim_space dep) ≡ VisitState.visited) deps
      → All (λ dep. In (trim_space dep) (names ts.order)) deps
  All-placed ts [] i h = tt
  All-placed ts (dep ∷ deps) i h = (i.placed (trim_space dep) h.0, All-placed ts deps i h.1)

  not-In_visiting :
      (ts : TopoSorter) (n : String)
      → Inv ts
      → ts.state n ≡ VisitState.visiting
      → ¬ In n (names ts.order)
  not-In_visiting ts n i h m = let v = i.done n m in cc

  In-last : {x y : String} → In x (y ∷ []) → y ≡ x
  In-last (In.here e) = sym e
  In-last (In.there m) = absurd (not-In-nil m)

  close-Inv :
      (name : String) (md : Module) (ts : TopoSorter)
      → lookup name modules ≡ some md
      → ts.state name ≡ VisitState.visiting
      → Inv ts
      → All (λ dep. ts.state (trim_space dep) ≡ VisitState.visited) md.depends_on
      → Inv (close name md ts)
  unfolding leave
  close-Inv name md ts reg busy i deps =
      let k : key_of md ≡ name = keyed name md reg in
      record {
        same = i.same;
        placed = λ n h. rw (names-snoc ts.order md) (elim (String-cases name n) [
          | inl e ↦ In-append_right (names ts.order) (In.here (sym (k ∙ e)))
          | inr d ↦ In-append_left _ (i.placed n (rw (test_of_ne name n d) at h))
        ]);
        done = λ n m. elim (String-cases name n) [
          | inl e ↦ rw (← e, test_self name)
          | inr d ↦
              rw (test_of_ne name n d)
                (elim (In-append_cases (names ts.order) (rw (names-snoc ts.order md) at m)) [
                  | inl l ↦ i.done n l
                  | inr r ↦ absurd (d (sym k ∙ In-last r))
                ])
        ];
        once = rw (names-snoc ts.order md) (
            Nodup-snoc (names ts.order) (key_of md) i.once (rw k (not-In_visiting ts name i busy)));
        ordered = IsOrdered-snoc [] ts.order md i.ordered (All-placed ts md.depends_on i deps);
        found = All-append _ ts.order (md ∷ []) i.found (rw k reg, tt);
      }

  visit_module_sound :
      (visit : Visit)
      → AllKeep visit
      → AllSound visit
      → (name : String) (found : Option Module) (ts ts' : TopoSorter) → lookup name modules ≡ found
      → ts.state name ≡ VisitState.unvisited
      → Inv ts
      → visit_module visit name found ts ≡ ok ts'
      → Inv ts' × (ts'.state name ≡ VisitState.visited)
  unfolding visit_module
  visit_module_sound visit keep sound name none ts ts' reg new i h = cc
  visit_module_sound visit keep sound name (some md) ts ts' reg new i h =
      let inside = enter name ts in
      let (mid, p, q) =
        finish-eq-ok name md (visit_dependencies visit name md.depends_on inside) h in
      let (j, deps) =
        visit_dependencies_sound visit keep sound name md.depends_on inside mid
          (enter-Inv name ts new i) p in
      let kept = visit_dependencies-Keeps visit keep name md.depends_on inside mid p in
      subst (λ t. Inv t × (t.state name ≡ VisitState.visited)) q
        (close-Inv name md mid reg (kept.visiting name (entered name ts)) j deps, closed mid)
    where
      entered : (n : String) (t : TopoSorter) → (enter n t).state n ≡ VisitState.visiting
      entered n t = unfold enter in rw (test_self n)

      closed : (t : TopoSorter) → (close name md t).state name ≡ VisitState.visited
      closed t = unfold leave in rw (test_self name)

  visit_in_sound :
      (visit : Visit)
      → AllKeep visit
      → AllSound visit
      → (s : VisitState) (name : String) (ts ts' : TopoSorter) → ts.state name ≡ s
      → Inv ts
      → visit_in visit s name ts ≡ ok ts'
      → Inv ts' × (ts'.state name ≡ VisitState.visited)
  unfolding visit_in
  visit_in_sound visit keep sound VisitState.visiting name ts ts' e i h = cc
  visit_in_sound visit keep sound VisitState.visited name ts ts' e i h =
      subst (λ t. Inv t × (t.state name ≡ VisitState.visited)) (cc) (i, e)
  visit_in_sound visit keep sound VisitState.unvisited name ts ts' e i h =
      visit_module_sound visit keep sound name _ ts ts' (ap (lookup name) (sym i.same)) e i h

  visit_sound : (fuel : ℕ) → AllSound (visit fuel)
  unfolding visit
  visit_sound zero name ts ts' i h = cc
  visit_sound (suc fuel) name ts ts' i h =
      visit_in_sound (visit fuel) (visit-Keeps fuel) (visit_sound fuel) (ts.state name) name ts ts'
        refl i h

  visit_root_sound :
      (fuel : ℕ) (s : VisitState) (name : String) (ts ts' : TopoSorter)
      → ts.state name ≡ s
      → s ≢ VisitState.visiting
      → Inv ts
      → visit_root fuel s name ts ≡ ok ts'
      → Inv ts' × (ts'.state name ≡ VisitState.visited) × Keeps ts ts'
  unfolding visit_root
  visit_root_sound fuel VisitState.unvisited name ts ts' e idle i h =
      let (j, v) = visit_sound fuel name ts ts' i h in (j, v, visit-Keeps fuel name ts ts' h)
  visit_root_sound fuel VisitState.visited name ts ts' e idle i h =
      subst (λ t. Inv t × (t.state name ≡ VisitState.visited) × Keeps ts t) (cc)
        (i, e, Keeps-refl ts)
  visit_root_sound fuel VisitState.visiting name ts ts' e idle i h = absurd (idle refl)

  -- What holds between two iterations of the loop over the registered names.
  pub record AtRoot (ts : TopoSorter) : Type 0 where
    pub inv : Inv ts
    pub idle : (n : String) → ts.state n ≢ VisitState.visiting

  pub new_sorter-AtRoot : AtRoot (new_sorter modules)
  new_sorter-AtRoot = record {
    inv = record {
      same = refl;
      placed = λ n h. cc;
      done = λ n m. absurd (not-In-nil m);
      once = tt;
      ordered = tt;
      found = tt;
    };
    idle = λ n h. cc;
  }

  visit_roots_sound :
      (fuel : ℕ) (todo : List String) (ts ts' : TopoSorter)
      → AtRoot ts
      → visit_roots fuel todo ts ≡ ok ts'
      → Inv ts' × Keeps ts ts' × All (λ n. ts'.state n ≡ VisitState.visited) todo
  unfolding visit_roots
  visit_roots_sound fuel [] ts ts' r h =
      subst (λ t. Inv t × Keeps ts t × Unit {0}) (cc) (r.inv, Keeps-refl ts, tt)
  visit_roots_sound fuel (name ∷ todo) ts ts' r h =
      let (mid, p, q) = and_then-eq-ok (visit_root fuel (ts.state name) name ts) _ h in
      let (i, v, k) =
        visit_root_sound fuel (ts.state name) name ts mid refl (r.idle name) r.inv p in
      let r' : AtRoot mid = record { inv = i; idle = λ n b. r.idle n (k.settled n b) } in
      let (j, k', rest) = visit_roots_sound fuel todo mid ts' r' q in
      (j, Keeps-trans k k', (k'.visited name v, rest))

  All-names :
      (ts : TopoSorter) (todo : List String)
      → Inv ts
      → All (λ n. ts.state n ≡ VisitState.visited) todo
      → All (λ n. In n (names ts.order)) todo
  All-names ts [] i h = tt
  All-names ts (n ∷ todo) i h = (i.placed n h.0, All-names ts todo i h.1)

sorted-injective : {a b : List Module} → sorted a ≡ sorted b → a ≡ b
sorted-injective h = cc

-- When the sort returns a list, that list holds every registered name exactly once, only registered
-- modules, and each module after all the modules that its DependsOn names (trimmed).
pub sort_modules-IsSortOf :
    (modules : Assoc Module) (module_order : List String) (mds : List Module)
    → IsKeyed modules
    → sort_modules modules module_order ≡ sorted mds
    → IsSortOf modules module_order mds
unfolding sort_modules
sort_modules-IsSortOf modules module_order mds keyed h =
    go (visit_roots (sort_fuel modules) module_order (new_sorter modules)) refl h
  where
    go :
        (o : Outcome)
        → visit_roots (sort_fuel modules) module_order (new_sorter modules) ≡ o
        → result_of o ≡ sorted mds
        → IsSortOf modules module_order mds
    go (ok ts) e h =
        let (i, k, all) =
          visit_roots_sound modules keyed (sort_fuel modules) module_order (new_sorter modules) ts
            (new_sorter-AtRoot modules keyed) e in
        subst (IsSortOf modules module_order) (sorted-injective h) (record {
          nodup = i.once;
          is_ordered = i.ordered;
          registered = i.found;
          complete = All-names modules keyed ts module_order i all;
        })
    go (err x ts) e h = cc
    go fuel_out e h = cc
