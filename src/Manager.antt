-- ===== src/Manager.antt =====
-- The manager's state, its construction, and the service locator and check registries
-- (modulex.go: Manager, NewManager, RegisterModule, RegisterService, ResolveService,
-- RegisterHealthCheck, RegisterReadinessCheck, GetConfig).
-- Each method holds its locks for its whole body, so it is one function on the state.
pub mod Registry
pub mod Frame
use modulex.Prelude.{
  ℕ, String, Bool, true, false, ◌||◌, Option, none, some, List, [], ◌∷◌, ◌==◌, if◌then◌else◌, ltb,
  snoc, Assoc, lookup, insert, trim_space,
}
use modulex.Errors.{LifecycleState, Error, Sentinel}
use modulex.Module.{Kind, Service, Func, Module}

-- The channel `done` of a task handle.
pub data DoneChan : Type 0 where
  no_chan open_chan closed_chan : DoneChan

-- modulex.TaskHandle
pub record TaskHandle : Type 0 where
  pub name : String
  pub done : DoneChan
  pub err : Option Error

-- An event bus: the no-op one, or a foreign one with what its Close returns.
pub data EventBus : Type 0 where
  noop : EventBus
  foreign : Option String → EventBus

-- What the manager's calls of foreign code were, in their order.
pub data Call : Type 0 where
  init_called start_called stop_called : String → Call
  bus_closed : Call

-- modulex.Manager. Contexts for tasks are numbered, `task_ctx` is the current one. The fields from
-- `handles` on are not fields of the struct: the task handles by their address, the wall clock, the
-- calls of foreign code, and the panic that ended the process.
pub record Manager : Type 0 where
  pub services : Assoc Service
  pub modules : Assoc Module
  pub module_order : List String
  pub ordered_mods : List Module
  pub event_bus : EventBus
  pub config_loader : Option (Option String)
  pub state : LifecycleState
  pub panic_policy : ℕ
  pub tasks : Assoc ℕ
  pub task_errs : List Error
  pub task_ctx : ℕ
  pub cancelled : ℕ → Bool
  pub health_checks : Assoc Func
  pub readiness_checks : Assoc Func
  pub init_total : ℕ
  pub start_total : ℕ
  pub init_timings : Assoc ℕ
  pub start_timings : Assoc ℕ
  pub handles : ℕ → TaskHandle
  pub next_handle : ℕ
  pub clock : ℕ
  pub calls : List Call
  pub crashed : Option String

-- modulex.PanicPolicy is an int; 0 is PanicPolicyLog and 1 PanicPolicyPropagate.
abbrev pub valid_policy : ℕ → Bool
valid_policy p = ltb p 2

-- modulex.ManagerOption, of which WithLogger and WithTracer set nothing that is modelled.
pub data ManagerOption : Type 0 where
  with_event_bus : Option EventBus → ManagerOption
  with_panic_policy : ℕ → ManagerOption
  with_config_loader : Option (Option String) → ManagerOption
  with_logger with_tracer : ManagerOption

-- The fields that the options set, the bus possibly nil.
pub record Config : Type 0 where
  pub bus : Option EventBus
  pub loader : Option (Option String)
  pub policy : ℕ

abbrev pub apply_option : ManagerOption → Config → Config
apply_option (ManagerOption.with_event_bus b) c = record c { bus = b }
apply_option (ManagerOption.with_panic_policy p) c = record c { policy = p }
apply_option (ManagerOption.with_config_loader l) c = record c { loader = l }
apply_option ManagerOption.with_logger c = c
apply_option ManagerOption.with_tracer c = c

abbrev pub apply_options : List ManagerOption → Config → Config
apply_options [] c = c
apply_options (o ∷ os) c = apply_options os (apply_option o c)

abbrev pub bus_or_noop : Option EventBus → EventBus
bus_or_noop none = EventBus.noop
bus_or_noop (some b) = b

abbrev pub zero_handle : TaskHandle
zero_handle = record { name = ""; done = DoneChan.no_chan; err = none }

abbrev pub fresh : Config → Manager
fresh c = record {
  services = [];
  modules = [];
  module_order = [];
  ordered_mods = [];
  event_bus = bus_or_noop c.bus;
  config_loader = c.loader;
  state = LifecycleState.configuring;
  panic_policy = c.policy;
  tasks = [];
  task_errs = [];
  task_ctx = 0;
  cancelled = λ ctx. false;
  health_checks = [];
  readiness_checks = [];
  init_total = 0;
  start_total = 0;
  init_timings = [];
  start_timings = [];
  handles = λ h. zero_handle;
  next_handle = 0;
  clock = 0;
  calls = [];
  crashed = none;
}

abbrev pub defaults : Config
defaults = record { bus = some EventBus.noop; loader = none; policy = 0 }

pub data Created : Type 0 where
  created : Manager → Created
  refused : Error → Created

unfoldable pub new_manager : List ManagerOption → Created
new_manager opts =
    let c = apply_options opts defaults in
    if valid_policy c.policy then created (fresh c) else refused (Error.bad_panic_policy c.policy)

abbrev pub Reply : Type 0
Reply = Manager × Option Error

-- RegisterHealthCheck and RegisterReadinessCheck are this function on their own map, with their own
-- errors for an empty name and a nil check: the map is returned changed or not.
unfoldable pub register_check :
    Sentinel → Sentinel → String → Func → Assoc Func → Assoc Func × Option Error
register_check bad_name nil_check name check checks =
    let key = trim_space name in
    if key == "" then (checks, some (Error.plain bad_name)) else elim check [
      | none ↦ (checks, some (Error.plain nil_check))
      | some f ↦ elim (lookup key checks) [
        | some old ↦ (checks, some (Error.check_exists key))
        | none ↦ (insert key (some f) checks, none)
      ]
    ]

unfoldable pub register_health_check : String → Func → Manager → Reply
unfolding register_check
register_health_check name check m =
    let (checks, e) =
      register_check Sentinel.invalid_health_check_name Sentinel.health_check_nil name check
        m.health_checks in
    (record m { health_checks = checks }, e)

unfoldable pub register_readiness_check : String → Func → Manager → Reply
unfolding register_check
register_readiness_check name check m =
    let (checks, e) =
      register_check Sentinel.invalid_readiness_check_name Sentinel.readiness_check_nil name check
        m.readiness_checks in
    (record m { readiness_checks = checks }, e)

abbrev pub is_configuring : LifecycleState → Bool
is_configuring LifecycleState.configuring = true
is_configuring _ = false

abbrev pub is_initializing : LifecycleState → Bool
is_initializing LifecycleState.initializing = true
is_initializing _ = false

-- RegisterModule past its state check and its nil check.
unfoldable pub add_module : Module → Manager → Reply
add_module md m =
    let name = trim_space md.name in
    if name == ""
    then (m, some (Error.plain Sentinel.invalid_module_name))
    else elim (lookup name m.modules) [
      | some old ↦ (m, some (Error.named Sentinel.duplicate_module name))
      | none ↦ (
        record m { modules = insert name md m.modules; module_order = snoc m.module_order name },
        none,
      )
    ]

unfoldable pub register_module : Option Module → Manager → Reply
unfolding add_module
register_module candidate m =
    if is_configuring m.state
    then elim candidate [
      | none ↦ (m, some (Error.plain Sentinel.module_nil))
      | some md ↦ add_module md m
    ]
    else (m, some (Error.in_state Sentinel.registry_locked m.state))

-- The `switch v.Kind()` of isNilServiceValue.
abbrev pub is_nilable : Kind → Bool
is_nilable Kind.other = false
is_nilable _ = true

abbrev pub is_nil_service_value : Service → Bool
is_nil_service_value none = true
is_nil_service_value (some v) = if is_nilable v.kind then v.is_nil else false

unfoldable pub register_service : String → Service → Manager → Reply
register_service raw svc m =
    let name = trim_space raw in
    if is_configuring m.state || is_initializing m.state
    then if name == ""
      then (m, some (Error.plain Sentinel.invalid_service_name))
      else if is_nil_service_value svc
      then (m, some (Error.plain Sentinel.service_nil))
      else elim (lookup name m.services) [
        | some old ↦ (m, some (Error.named Sentinel.duplicate_service name))
        | none ↦ (record m { services = insert name svc m.services }, none)
      ]
    else (m, some (Error.in_state Sentinel.registry_locked m.state))

unfoldable pub resolve_service : String → Manager → Service × Option Error
resolve_service raw m =
    let name = trim_space raw in
    if name == ""
    then (none, some (Error.plain Sentinel.invalid_service_name))
    else elim (lookup name m.services) [
      | some svc ↦ (svc, none)
      | none ↦ (none, some (Error.named Sentinel.service_not_found name))
    ]

unfoldable pub get_config : Manager → Option Error
get_config m = elim m.config_loader [
  | none ↦ some (Error.plain Sentinel.no_config_loader)
  | some none ↦ none
  | some (some text) ↦ some (Error.foreign text)
]

unfoldable pub set_state : LifecycleState → Manager → Manager
set_state s m = record m { state = s }
