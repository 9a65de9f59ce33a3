-- ===== src/Topo/Failures.antt =====
-- The errors of the sort (modulex.go: topoSorter.visit, cycleError): each one names a defect that
-- the declared dependencies really have.
use modulex.Prelude.{
  ℕ, zero, suc, String, ◌≡◌, refl, sym, ap, ◌∙◌, subst, Option, none, some, List, [], ◌∷◌, map, ◌⊎◌,
  inl, inr, snoc, lookup, Assoc, test_of_ne, String-cases, ◌==◌, trim_space, In, Bool-cases,
  eq_of_test, not-In-nil, All, In-append_right, In-append_left, ◌≢◌, ne_of_test,
}
use modulex.Errors.{Error, Sentinel}
use modulex.Module.{Module}
use modulex.Topo.{
  VisitState, TopoSorter, Outcome, ok, err, fuel_out, path_from, cycle_error, enter, Visit, finish,
  visit_dependency, and_then, visit_dependencies, visit_module, visit_in, visit, visit_root,
  visit_roots, new_sorter, failed, result_of, sort_fuel, sort_modules,
}
use modulex.Topo.Runs.{Keeps, AllKeep, visit_dependency-eq-ok, visit-Keeps, visit_root-Keeps}

and_then-eq-err :
    (o : Outcome) (f : TopoSorter → Outcome) {x : Error} {ts' : TopoSorter}
    → and_then o f ≡ err x ts'
    → ((t : TopoSorter) × (o ≡ err x t)) ⊎ ((ts : TopoSorter) × (o ≡ ok ts) × (f ts ≡ err x ts'))
and_then-eq-err (ok ts) f h = inr (ts, refl, h)
and_then-eq-err (err e ts) f h = inl (ts, cc)
and_then-eq-err fuel_out f h = cc

finish-eq-err :
    (name : String) (md : Module) (o : Outcome) {x : Error} {ts' : TopoSorter}
    → finish name md o ≡ err x ts'
    → (t : TopoSorter) × (o ≡ err x t)
unfolding finish
finish-eq-err name md (ok ts) h = cc
finish-eq-err name md (err e ts) h = (ts, cc)
finish-eq-err name md fuel_out h = cc

module _ (modules : Assoc Module) where
  -- The registered module `a` declares `b`, up to white space around the name.
  pub record DependsOn (a b : String) : Type 0 where
    pub md : Module
    pub registered : lookup a modules ≡ some md
    pub declared : In b (map trim_space md.depends_on)

  abbrev pub IsPath : List String → Type 0
  IsPath [] = Unit
  IsPath (a ∷ []) = Unit
  IsPath (a ∷ b ∷ p) = DependsOn a b × IsPath (b ∷ p)

  -- A dependency path that ends where it begins.
  pub record IsCycle (c : List String) : Type 0 where
    pub origin : String
    pub inner : List String
    pub closes : c ≡ origin ∷ snoc inner origin
    pub is_path : IsPath (origin ∷ snoc inner origin)

  -- What each error of the sort says about the registered modules.
  abbrev pub Explains : Error → Type 0
  Explains (Error.named Sentinel.dependency_not_found d) =
      ((n : String) × DependsOn n d) × (lookup d modules ≡ none)
  Explains (Error.named Sentinel.self_dependency n) = DependsOn n n
  Explains (Error.named Sentinel.invalid_dependency_name n) = DependsOn n ""
  Explains (Error.cycle c) = IsCycle c
  Explains _ = ⊥

  IsPath-snoc :
      (p : List String) (a b : String)
      → IsPath (snoc p a)
      → DependsOn a b
      → IsPath (snoc (snoc p a) b)
  IsPath-snoc [] a b h d = (d, tt)
  IsPath-snoc (x ∷ []) a b h d = (h.0, (d, tt))
  IsPath-snoc (x ∷ y ∷ p) a b h d = (h.0, IsPath-snoc (y ∷ p) a b h.1 d)

  IsPath-tail :
      (x : String) (p : List String) (a : String) → IsPath (x ∷ snoc p a) → IsPath (snoc p a)
  IsPath-tail x [] a h = tt
  IsPath-tail x (y ∷ p) a h = h.1

  path_from-closes :
      (name : String) (whole path : List String)
      → In name path
      → IsPath (snoc path name)
      → (p : List String) × (path_from name whole path ≡ name ∷ p) × IsPath (name ∷ snoc p name)
  unfolding path_from
  path_from-closes name whole [] m h = absurd (not-In-nil m)
  path_from-closes name whole (x ∷ path) m h = elim (Bool-cases (x == name)) [
    | inl e ↦ (
      path,
      rw e (ap (λ n. n ∷ path) (eq_of_test x name e)),
      subst (λ n. IsPath (n ∷ snoc path name)) (eq_of_test x name e) h,
    )
    | inr d ↦ rw d (
        path_from-closes name whole path (later m (ne_of_test x name d))
          (IsPath-tail x path name h))
  ]
    where
      later : In name (x ∷ path) → x ≢ name → In name path
      later (In.here e) d = absurd (d (sym e))
      later (In.there m') d = m'

  cycle_error-Explains :
      (ts : TopoSorter) (name : String)
      → In name ts.path
      → IsPath (snoc ts.path name)
      → Explains (cycle_error ts name)
  unfolding cycle_error
  cycle_error-Explains ts name m h =
      let (p, e, q) = path_from-closes name ts.path ts.path m h in
      record { origin = name; inner = p; closes = ap (λ l. snoc l name) e; is_path = q }

  -- What holds when `visit` is called with `name`.
  record Pre (ts : TopoSorter) (name : String) : Type 0 where
    same : ts.modules ≡ modules
    busy : (n : String) → ts.state n ≡ VisitState.visiting → In n ts.path
    trail : IsPath (snoc ts.path name)
    cause : ((md : Module) × (lookup name modules ≡ some md)) ⊎ ((n : String) × DependsOn n name)

  abbrev AllExplained : Visit → Type 0
  AllExplained visit =
      (name : String) (ts : TopoSorter) (e : Error) (ts' : TopoSorter)
      → Pre ts name
      → visit name ts ≡ err e ts'
      → Explains e

  visit_dependency-Explains :
      (visit : Visit)
      → AllExplained visit
      → (name dep : String) (ts : TopoSorter) (e : Error) (ts' : TopoSorter) → DependsOn name dep
      → Pre ts dep
      → visit_dependency visit name dep ts ≡ err e ts'
      → Explains e
  unfolding visit_dependency
  visit_dependency-Explains visit all name dep ts x ts' d p h = elim (Bool-cases (dep == "")) [
    | inl e ↦ subst Explains (err_inj (rw e at h)) (subst (DependsOn name) (eq_of_test dep "" e) d)
    | inr n ↦ elim (Bool-cases (dep == name)) [
      | inl e ↦
          subst Explains (err_inj (rw (n, e) at h))
            (subst (DependsOn name) (eq_of_test dep name e) d)
      | inr n' ↦ all dep ts x ts' p (rw (n, n') at h)
    ]
  ]
    where
      err_inj : {a b : Error} {s t : TopoSorter} → err a s ≡ err b t → a ≡ b
      err_inj h = cc

  visit_dependencies-Explains :
      (visit : Visit)
      → AllKeep visit
      → AllExplained visit
      → (outer : List String) (name : String) (deps : List String) (ts : TopoSorter) (x : Error)
        (ts' : TopoSorter)
      → All (λ dep. DependsOn name (trim_space dep)) deps
      → IsPath (snoc outer name)
      → ts.modules ≡ modules
      → ts.path ≡ snoc outer name
      → ((n : String) → ts.state n ≡ VisitState.visiting → In n ts.path)
      → visit_dependencies visit name deps ts ≡ err x ts'
      → Explains x
  unfolding visit_dependencies
  visit_dependencies-Explains visit keep all outer name [] ts x ts' ds trail same here busy h = cc
  visit_dependencies-Explains visit keep all outer name (dep ∷ deps) ts x ts' ds trail same here
        busy h =
      elim (and_then-eq-err (visit_dependency visit name (trim_space dep) ts) _ h) [
        | inl (t, p) ↦
            visit_dependency-Explains visit all name (trim_space dep) ts x t ds.0 (pre ds.0) p
        | inr (mid, p, q) ↦
            let k : Keeps ts mid =
              keep (trim_space dep) ts mid
                (visit_dependency-eq-ok visit name (trim_space dep) ts p) in
            visit_dependencies-Explains visit keep all outer name deps mid x ts' ds.1 trail
              (k.modules ∙ same) (k.path ∙ here)
              (λ n b. subst (In n) (sym k.path) (busy n (k.settled n b))) q
      ]
    where
      pre : DependsOn name (trim_space dep) → Pre ts (trim_space dep)
      pre d = record {
        same = same;
        busy = busy;
        trail = rw here (IsPath-snoc outer name (trim_space dep) trail d);
        cause = inr (name, d);
      }

  declared_all :
      (a : String) (md : Module) (before deps : List String)
      → lookup a modules ≡ some md
      → ((d : String) → In d (map trim_space deps) → In d (map trim_space md.depends_on))
      → All (λ dep. DependsOn a (trim_space dep)) deps
  declared_all a md before [] reg all = tt
  declared_all a md before (dep ∷ deps) reg all = (
    record { md = md; registered = reg; declared = all (trim_space dep) (In.here refl) },
    declared_all a md before deps reg (λ d m. all d (In.there m)),
  )

  enter_busy :
      (name : String) (ts : TopoSorter)
      → ((n : String) → ts.state n ≡ VisitState.visiting → In n ts.path)
      → (n : String) → (enter name ts).state n ≡ VisitState.visiting
      → In n (enter name ts).path
  unfolding enter
  enter_busy name ts busy n h = elim (String-cases name n) [
    | inl e ↦ In-append_right ts.path (In.here (sym e))
    | inr d ↦ In-append_left _ (busy n (rw (test_of_ne name n d) at h))
  ]

  visit_module-Explains :
      (visit : Visit)
      → AllKeep visit
      → AllExplained visit
      → (found : Option Module) (name : String) (ts : TopoSorter) (x : Error) (ts' : TopoSorter)
      → lookup name modules ≡ found
      → Pre ts name
      → visit_module visit name found ts ≡ err x ts'
      → Explains x
  unfolding visit_module
  visit_module-Explains visit keep all none name ts x ts' reg p h =
      subst Explains (err_inj h)
        (elim p.cause [ inl (md, e) ↦ absurd (clash md e) | inr (n, d) ↦ ((n, d), reg) ])
    where
      err_inj : {a b : Error} {s t : TopoSorter} → err a s ≡ err b t → a ≡ b
      err_inj h = cc

      clash : (md : Module) → lookup name modules ≡ some md → ⊥
      clash md e = cc
  visit_module-Explains visit keep all (some md) name ts x ts' reg p h =
      let (t, e) =
        finish-eq-err name md (visit_dependencies visit name md.depends_on (enter name ts)) h in
      visit_dependencies-Explains visit keep all ts.path name md.depends_on (enter name ts) x t
        (declared_all name md [] md.depends_on reg (λ d m. m)) p.trail (unfold enter in p.same)
        (unfold enter in refl) (enter_busy name ts p.busy) e

  visit_in-Explains :
      (visit : Visit)
      → AllKeep visit
      → AllExplained visit
      → (s : VisitState) (name : String) (ts : TopoSorter) (x : Error) (ts' : TopoSorter)
      → ts.state name ≡ s
      → Pre ts name
      → visit_in visit s name ts ≡ err x ts'
      → Explains x
  unfolding visit_in
  visit_in-Explains visit keep all VisitState.visiting name ts x ts' e p h =
      subst Explains (err_inj h) (cycle_error-Explains ts name (p.busy name e) p.trail)
    where
      err_inj : {a b : Error} {s t : TopoSorter} → err a s ≡ err b t → a ≡ b
      err_inj h = cc
  visit_in-Explains visit keep all VisitState.visited name ts x ts' e p h = cc
  visit_in-Explains visit keep all VisitState.unvisited name ts x ts' e p h =
      visit_module-Explains visit keep all _ name ts x ts' (ap (lookup name) (sym p.same)) p h

  visit-explains : (fuel : ℕ) → AllExplained (visit fuel)
  unfolding visit
  visit-explains zero name ts x ts' p h = cc
  visit-explains (suc fuel) name ts x ts' p h =
      visit_in-Explains (visit fuel) (visit-Keeps fuel) (visit-explains fuel) (ts.state name) name
        ts x ts' refl p h

  -- Every name of the list is registered, as RegisterModule keeps it.
  abbrev pub AllListed : List String → Type 0
  AllListed todo = All (λ n. (md : Module) × (lookup n modules ≡ some md)) todo

  visit_root-Explains :
      (fuel : ℕ) (s : VisitState) (name : String) (ts : TopoSorter) (x : Error) (ts' : TopoSorter)
      → Pre ts name
      → visit_root fuel s name ts ≡ err x ts'
      → Explains x
  unfolding visit_root
  visit_root-Explains fuel VisitState.unvisited name ts x ts' p h =
      visit-explains fuel name ts x ts' p h
  visit_root-Explains fuel VisitState.visiting name ts x ts' p h = cc
  visit_root-Explains fuel VisitState.visited name ts x ts' p h = cc

  visit_roots-Explains :
      (fuel : ℕ) (todo : List String) (ts : TopoSorter) (x : Error) (ts' : TopoSorter)
      → AllListed todo
      → ts.modules ≡ modules
      → ts.path ≡ []
      → ((n : String) → ts.state n ≢ VisitState.visiting)
      → visit_roots fuel todo ts ≡ err x ts'
      → Explains x
  unfolding visit_roots
  visit_roots-Explains fuel [] ts x ts' reg same root idle h = cc
  visit_roots-Explains fuel (name ∷ todo) ts x ts' reg same root idle h =
      elim (and_then-eq-err (visit_root fuel (ts.state name) name ts) _ h) [
        | inl (t, p) ↦ visit_root-Explains fuel (ts.state name) name ts x t pre p
        | inr (mid, p, q) ↦
            let k : Keeps ts mid = visit_root-Keeps fuel (ts.state name) name ts mid p in
            visit_roots-Explains fuel todo mid x ts' reg.1 (k.modules ∙ same) (k.path ∙ root)
              (λ n b. idle n (k.settled n b)) q
      ]
    where
      pre : Pre ts name
      pre = record {
        same = same;
        busy = λ n b. absurd (idle n b);
        trail = rw root tt;
        cause = inl reg.0;
      }

-- When the sort fails on registered modules, its error is true of them: a missing dependency is
-- declared by a registered module and not registered, a self-dependency and an empty dependency name
-- are declared as reported, and the reported cycle is a path of declared dependencies back to its
-- first module. The sort gives no other error.
pub sort_modules-Explains :
    (modules : Assoc Module) (module_order : List String) (x : Error)
    → AllListed modules module_order
    → sort_modules modules module_order ≡ failed x
    → Explains modules x
unfolding sort_modules
sort_modules-Explains modules module_order x listed h =
    go (visit_roots (sort_fuel modules) module_order (new_sorter modules)) refl h
  where
    failed_inj : {a b : Error} → failed a ≡ failed b → a ≡ b
    failed_inj h = cc

    go :
        (o : Outcome)
        → visit_roots (sort_fuel modules) module_order (new_sorter modules) ≡ o
        → result_of o ≡ failed x
        → Explains modules x
    go (ok ts) e h = cc
    go (err y ts) e h = subst (Explains modules) (failed_inj h) (
        visit_roots-Explains modules (sort_fuel modules) module_order (new_sorter modules) y ts
          listed refl refl (λ n b. cc) e)
    go fuel_out e h = cc
