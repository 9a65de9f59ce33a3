-- ===== src/Diagnostics.antt =====
-- The machine-readable snapshot of a manager (diagnostics.go: ModuleContract, Diagnostics,
-- taskDiagnostics, serviceNames, sortedCheckNames; modulex.go: lifecycleTimings,
-- sortedModuleTimings). An error stands here for its text, `none` for the empty one.
pub mod Snapshots
use modulex.Prelude.{
  ℕ, String, Bool, false, true, Option, none, some, List, [], ◌∷◌, map, ◌==◌, if◌then◌else◌, Assoc,
  lookup, keys, trim_space, sort_strings, text_leb,
}
use modulex.Errors.{LifecycleState, Error}
use modulex.Module.{Func, Module}
use modulex.Manager.{TaskHandle, Manager}
use modulex.Tasks.{is_done}

-- modulex.ModuleContractEntry
pub record ContractEntry : Type 0 where
  pub name : String
  pub depends_on : List String

abbrev pub nonempty : List String → List String
nonempty [] = []
nonempty (d ∷ ds) = if d == "" then nonempty ds else d ∷ nonempty ds

-- The dependencies of an entry: trimmed, without the empty ones, sorted.
unfoldable pub contract_deps : List String → List String
contract_deps deps = sort_strings (nonempty (map trim_space deps))

-- The entry of a name; a name that is no key does not occur.
abbrev pub contract_entry : Assoc Module → String → ContractEntry
contract_entry modules name = record {
  name = name;
  depends_on = elim (lookup name modules) [ none ↦ [] | some md ↦ contract_deps md.depends_on ];
}

-- Manager.ModuleContract
unfoldable pub module_contract : Manager → List ContractEntry
module_contract m = map (contract_entry m.modules) (sort_strings (keys m.modules))

unfoldable pub service_names : Manager → List String
service_names m = sort_strings (keys m.services)

unfoldable pub sorted_check_names : Assoc Func → List String
sorted_check_names checks = sort_strings (keys checks)

-- modulex.TaskDiagnostic
pub record TaskDiagnostic : Type 0 where
  pub name : String
  pub done : Bool
  pub err : Option Error

abbrev pub task_diagnostic : TaskHandle → TaskDiagnostic
task_diagnostic t = record {
  name = t.name;
  done = is_done t;
  err = if is_done t then t.err else none;
}

abbrev pub insert_by {ℓ} : {A : Type ℓ} → (A → String) → A → List A → List A
insert_by key x [] = x ∷ []
insert_by key x (y ∷ ys) = if text_leb (key x) (key y) then x ∷ y ∷ ys else y ∷ insert_by key x ys

-- `sort.Slice` by a name that no two of the elements share.
abbrev pub sort_by {ℓ} : {A : Type ℓ} → (A → String) → List A → List A
sort_by key [] = []
sort_by key (x ∷ xs) = insert_by key x (sort_by key xs)

-- The loop over the running tasks.
abbrev pub diagnose : Assoc ℕ → (ℕ → TaskHandle) → List String → List TaskDiagnostic
diagnose tasks handles [] = []
diagnose tasks handles (n ∷ ns) = elim (lookup n tasks) [
  | none ↦ diagnose tasks handles ns
  | some h ↦ task_diagnostic (handles h) ∷ diagnose tasks handles ns
]

unfoldable pub task_diagnostics : Manager → List TaskDiagnostic
task_diagnostics m = sort_by (λ d. d.name) (diagnose m.tasks m.handles (keys m.tasks))

-- sortedModuleTimings; nil is `none`.
unfoldable pub sorted_module_timings : Assoc ℕ → Option (List (String × ℕ))
sorted_module_timings [] = none
sorted_module_timings (t ∷ ts) = some (sort_by (λ e. e.0) (t ∷ ts))

-- modulex.LifecycleTimings
pub record LifecycleTimings : Type 0 where
  pub init_modules : ℕ
  pub start_modules : ℕ
  pub module_init : Option (List (String × ℕ))
  pub module_start : Option (List (String × ℕ))

unfoldable pub lifecycle_timings : Manager → LifecycleTimings
lifecycle_timings m = record {
  init_modules = m.init_total;
  start_modules = m.start_total;
  module_init = sorted_module_timings m.init_timings;
  module_start = sorted_module_timings m.start_timings;
}

-- modulex.Diagnostics
pub record Snapshot : Type 0 where
  pub state : LifecycleState
  pub modules : List ContractEntry
  pub services : List String
  pub tasks : List TaskDiagnostic
  pub health_checks : List String
  pub readiness_checks : List String
  pub timings : LifecycleTimings

unfoldable pub diagnostics : Manager → Snapshot
diagnostics m = record {
  state = m.state;
  modules = module_contract m;
  services = service_names m;
  tasks = task_diagnostics m;
  health_checks = sorted_check_names m.health_checks;
  readiness_checks = sorted_check_names m.readiness_checks;
  timings = lifecycle_timings m;
}
