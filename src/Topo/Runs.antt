-- ===== src/Topo/Runs.antt =====
-- What a visit that ends well leaves as it was (modulex.go: topoSorter.visit).
use modulex.Prelude.{
  ℕ, zero, suc, String, ◌≡◌, refl, ◌≢◌, ap, ◌∙◌, subst, Option, none, some, List, [], ◌∷◌, inl, inr,
  arith, drop_last, snoc, drop_last-snoc, test_self, test_of_ne, String-cases, trim_space,
}
use modulex.Module.{Module}
use modulex.Topo.{
  VisitState, TopoSorter, Outcome, ok, err, fuel_out, update, enter, leave, Visit, finish,
  visit_dependency, and_then, visit_dependencies, visit_module, visit_in, visit, visit_root,
}

pub update_self : (f : String → VisitState) (k : String) (v : VisitState) → update f k v k ≡ v
update_self f k v = rw (test_self k)

pub update_ne :
    (f : String → VisitState) (k j : String) (v : VisitState) → k ≢ j → update f k v j ≡ f j
update_ne f k j v h = rw (test_of_ne k j h)

-- `ts'` comes after `ts` in a run, at the same depth.
pub record Keeps (ts ts' : TopoSorter) : Type 0 where
  pub modules : ts'.modules ≡ ts.modules
  pub path : ts'.path ≡ ts.path
  pub visited : (n : String) → ts.state n ≡ VisitState.visited → ts'.state n ≡ VisitState.visited
  pub visiting : (n : String) → ts.state n ≡ VisitState.visiting → ts'.state n ≡ VisitState.visiting
  pub settled : (n : String) → ts'.state n ≡ VisitState.visiting → ts.state n ≡ VisitState.visiting
  pub unvisited :
      (n : String) → ts'.state n ≡ VisitState.unvisited → ts.state n ≡ VisitState.unvisited

pub Keeps-refl : (ts : TopoSorter) → Keeps ts ts
Keeps-refl ts = record {
  modules = refl;
  path = refl;
  visited = λ n h. h;
  visiting = λ n h. h;
  settled = λ n h. h;
  unvisited = λ n h. h;
}

pub Keeps-trans : {a b c : TopoSorter} → Keeps a b → Keeps b c → Keeps a c
Keeps-trans p q = record {
  modules = q.modules ∙ p.modules;
  path = q.path ∙ p.path;
  visited = λ n h. q.visited n (p.visited n h);
  visiting = λ n h. q.visiting n (p.visiting n h);
  settled = λ n h. p.settled n (q.settled n h);
  unvisited = λ n h. p.unvisited n (q.unvisited n h);
}

pub and_then-eq-ok :
    (o : Outcome) (f : TopoSorter → Outcome) {ts' : TopoSorter}
    → and_then o f ≡ ok ts'
    → (ts : TopoSorter) × (o ≡ ok ts) × (f ts ≡ ok ts')
and_then-eq-ok (ok ts) f h = (ts, refl, h)
and_then-eq-ok (err e ts) f h = cc
and_then-eq-ok fuel_out f h = cc

abbrev pub close : String → Module → TopoSorter → TopoSorter
close name md ts = leave name (record ts { order = snoc ts.order md })

pub finish-eq-ok :
    (name : String) (md : Module) (o : Outcome) {ts' : TopoSorter}
    → finish name md o ≡ ok ts'
    → (ts : TopoSorter) × (o ≡ ok ts) × (close name md ts ≡ ts')
unfolding finish
finish-eq-ok name md (ok ts) h = (ts, refl, cc)
finish-eq-ok name md (err e ts) h = cc
finish-eq-ok name md fuel_out h = cc

pub visit_dependency-eq-ok :
    (visit : Visit) (name dep : String) (ts : TopoSorter) {ts' : TopoSorter}
    → visit_dependency visit name dep ts ≡ ok ts'
    → visit dep ts ≡ ok ts'
unfolding visit_dependency
visit_dependency-eq-ok visit name dep ts h = ground arith

-- Entering, running and closing one module.
close-Keeps :
    (name : String) (md : Module) (ts mid : TopoSorter)
    → ts.state name ≡ VisitState.unvisited
    → Keeps (enter name ts) mid
    → Keeps ts (close name md mid)
unfolding enter leave
close-Keeps name md ts mid new k = record {
  modules = k.modules;
  path = ap drop_last k.path ∙ drop_last-snoc ts.path name;
  visited = λ n h. elim (String-cases name n) [
    | inl e ↦ rw (← e, test_self name)
    | inr d ↦ rw (test_of_ne name n d) (k.visited n (rw (test_of_ne name n d) h))
  ];
  visiting = λ n h. elim (String-cases name n) [
    | inl e ↦ cc
    | inr d ↦ rw (test_of_ne name n d) (k.visiting n (rw (test_of_ne name n d) h))
  ];
  settled = λ n h. elim (String-cases name n) [
    | inl e ↦ absurd (not_visiting n e h)
    | inr d ↦ rw (test_of_ne name n d) at (k.settled n (rw (test_of_ne name n d) at h))
  ];
  unvisited = λ n h. elim (String-cases name n) [
    | inl e ↦ rw (← e) new
    | inr d ↦ rw (test_of_ne name n d) at (k.unvisited n (rw (test_of_ne name n d) at h))
  ];
}
  where
    not_visiting : (n : String) → name ≡ n → (close name md mid).state n ≡ VisitState.visiting → ⊥
    not_visiting n e h = let h' = rw (← e, test_self name) at h in cc

abbrev pub AllKeep : Visit → Type 0
AllKeep visit = (name : String) (ts ts' : TopoSorter) → visit name ts ≡ ok ts' → Keeps ts ts'

pub visit_dependencies-Keeps :
    (visit : Visit)
    → AllKeep visit
    → (name : String) (deps : List String) (ts ts' : TopoSorter)
    → visit_dependencies visit name deps ts ≡ ok ts'
    → Keeps ts ts'
unfolding visit_dependencies
visit_dependencies-Keeps visit keep name [] ts ts' h = subst (Keeps ts) (ok_inj h) (Keeps-refl ts)
  where
    ok_inj : {a b : TopoSorter} → ok a ≡ ok b → a ≡ b
    ok_inj h = cc
visit_dependencies-Keeps visit keep name (dep ∷ deps) ts ts' h =
    let (mid, p, q) = and_then-eq-ok (visit_dependency visit name (trim_space dep) ts) _ h in
    Keeps-trans (keep (trim_space dep) ts mid (visit_dependency-eq-ok visit name _ ts p))
      (visit_dependencies-Keeps visit keep name deps mid ts' q)

visit_module-Keeps :
    (visit : Visit)
    → AllKeep visit
    → (name : String) (found : Option Module) (ts ts' : TopoSorter)
    → ts.state name ≡ VisitState.unvisited
    → visit_module visit name found ts ≡ ok ts'
    → Keeps ts ts'
unfolding visit_module
visit_module-Keeps visit keep name none ts ts' new h = cc
visit_module-Keeps visit keep name (some md) ts ts' new h =
    let (mid, p, q) =
      finish-eq-ok name md (visit_dependencies visit name md.depends_on (enter name ts)) h in
    subst (Keeps ts) q (
      close-Keeps name md ts mid new
        (visit_dependencies-Keeps visit keep name md.depends_on (enter name ts) mid p))

visit_in-Keeps :
    (visit : Visit)
    → AllKeep visit
    → (s : VisitState) (name : String) (ts ts' : TopoSorter) → ts.state name ≡ s
    → visit_in visit s name ts ≡ ok ts'
    → Keeps ts ts'
unfolding visit_in
visit_in-Keeps visit keep VisitState.visiting name ts ts' e h = cc
visit_in-Keeps visit keep VisitState.visited name ts ts' e h = subst (Keeps ts) (cc) (Keeps-refl ts)
visit_in-Keeps visit keep VisitState.unvisited name ts ts' e h =
    visit_module-Keeps visit keep name _ ts ts' e h

pub visit-Keeps : (fuel : ℕ) → AllKeep (visit fuel)
unfolding visit
visit-Keeps zero name ts ts' h = cc
visit-Keeps (suc fuel) name ts ts' h =
    visit_in-Keeps (visit fuel) (visit-Keeps fuel) (ts.state name) name ts ts' refl h

pub visit_root-Keeps :
    (fuel : ℕ) (s : VisitState) (name : String) (ts ts' : TopoSorter)
    → visit_root fuel s name ts ≡ ok ts'
    → Keeps ts ts'
unfolding visit_root
visit_root-Keeps fuel VisitState.unvisited name ts ts' h = visit-Keeps fuel name ts ts' h
visit_root-Keeps fuel VisitState.visiting name ts ts' h = subst (Keeps ts) (cc) (Keeps-refl ts)
visit_root-Keeps fuel VisitState.visited name ts ts' h = subst (Keeps ts) (cc) (Keeps-refl ts)
