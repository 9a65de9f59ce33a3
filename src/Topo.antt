-- ===== src/Topo.antt =====
-- The topological sort of the registered modules (modulex.go: sortModules, topoSorter).
-- The Go recursion of `visit` ends because each call that goes deeper marks one more module; here
-- it takes fuel, and `fuel_out` tells that the fuel ran out.
mod Runs
pub mod Order
pub mod Fuel
pub mod Failures
pub mod Acyclic
use modulex.Prelude.{
  ℕ, zero, suc, String, Option, none, some, List, [], ◌∷◌, ◌==◌, if◌then◌else◌, length, drop_last,
  snoc, Assoc, lookup, trim_space,
}
use modulex.Errors.{Error, Sentinel}
use modulex.Module.{Module}

-- modulex.visitState
pub data VisitState : Type 0 where
  unvisited visiting visited : VisitState

-- modulex.topoSorter; a key that the Go map of states lacks reads as unvisited.
pub record TopoSorter : Type 0 where
  pub modules : Assoc Module
  pub state : String → VisitState
  pub order : List Module
  pub path : List String

pub data Outcome : Type 0 where
  ok : TopoSorter → Outcome
  err : Error → TopoSorter → Outcome
  fuel_out : Outcome

abbrev pub update : (String → VisitState) → String → VisitState → String → VisitState
update f k v j = if k == j then v else f j

-- `ts.path[cycleStart:]`, from the first occurrence of `name`; the whole path if there is none.
pub path_from : String → List String → List String → List String
path_from name whole [] = whole
path_from name whole (n ∷ path) = if n == name then n ∷ path else path_from name whole path

pub cycle_error : TopoSorter → String → Error
unfolding path_from
cycle_error ts name = Error.cycle (snoc (path_from name ts.path ts.path) name)

pub enter : String → TopoSorter → TopoSorter
enter name ts = record ts {
  state = update ts.state name VisitState.visiting;
  path = snoc ts.path name;
}

-- The deferred function of `visit`.
pub leave : String → TopoSorter → TopoSorter
leave name ts = record ts {
  state = update ts.state name VisitState.visited;
  path = drop_last ts.path;
}

abbrev pub Visit : Type 0
Visit = String → TopoSorter → Outcome

-- The end of `visit`: append the module if all went well, and run the deferred function.
pub finish : String → Module → Outcome → Outcome
unfolding leave
finish name md (ok ts) = ok (leave name (record ts { order = snoc ts.order md }))
finish name md (err e ts) = err e (leave name ts)
finish name md fuel_out = fuel_out

-- `switch depName`
pub visit_dependency : Visit → String → String → TopoSorter → Outcome
visit_dependency visit name dep ts =
    if dep == ""
    then err (Error.named Sentinel.invalid_dependency_name name) ts
    else if dep == name
    then err (Error.named Sentinel.self_dependency name) ts
    else visit dep ts

abbrev pub and_then : Outcome → (TopoSorter → Outcome) → Outcome
and_then (ok ts) f = f ts
and_then (err e ts) f = err e ts
and_then fuel_out f = fuel_out

-- The loop over `mod.DependsOn()`.
pub visit_dependencies : Visit → String → List String → TopoSorter → Outcome
unfolding visit_dependency
visit_dependencies visit name [] ts = ok ts
visit_dependencies visit name (dep ∷ deps) ts =
    and_then (visit_dependency visit name (trim_space dep) ts)
      (λ ts'. visit_dependencies visit name deps ts')

pub visit_module : Visit → String → Option Module → TopoSorter → Outcome
unfolding enter finish visit_dependencies
visit_module visit name none ts = err (Error.named Sentinel.dependency_not_found name) ts
visit_module visit name (some md) ts =
    finish name md (visit_dependencies visit name md.depends_on (enter name ts))

-- `switch ts.state[name]`
pub visit_in : Visit → VisitState → String → TopoSorter → Outcome
unfolding visit_module cycle_error
visit_in visit VisitState.visiting name ts = err (cycle_error ts name) ts
visit_in visit VisitState.visited name ts = ok ts
visit_in visit VisitState.unvisited name ts = visit_module visit name (lookup name ts.modules) ts

pub visit : ℕ → String → TopoSorter → Outcome
unfolding visit_in
visit zero name ts = fuel_out
visit (suc fuel) name ts = visit_in (visit fuel) (ts.state name) name ts

-- The body of the loop over `m.moduleOrder`.
pub visit_root : ℕ → VisitState → String → TopoSorter → Outcome
visit_root fuel VisitState.unvisited name ts = visit fuel name ts
visit_root fuel _ name ts = ok ts

pub visit_roots : ℕ → List String → TopoSorter → Outcome
unfolding visit_root
visit_roots fuel [] ts = ok ts
visit_roots fuel (name ∷ names) ts =
    and_then (visit_root fuel (ts.state name) name ts) (λ ts'. visit_roots fuel names ts')

abbrev pub new_sorter : Assoc Module → TopoSorter
new_sorter modules = record {
  modules = modules;
  state = λ name. VisitState.unvisited;
  order = [];
  path = [];
}

pub data Sorted : Type 0 where
  sorted : List Module → Sorted
  failed : Error → Sorted
  no_fuel : Sorted

abbrev result_of : Outcome → Sorted
result_of (ok ts) = sorted ts.order
result_of (err e ts) = failed e
result_of fuel_out = no_fuel

-- Fuel for one visit at each depth: every module on the path, and one name more.
abbrev pub sort_fuel : Assoc Module → ℕ
sort_fuel modules = suc (length modules)

unfoldable pub sort_modules : Assoc Module → List String → Sorted
unfolding visit visit_roots
sort_modules modules module_order =
    result_of (visit_roots (sort_fuel modules) module_order (new_sorter modules))
