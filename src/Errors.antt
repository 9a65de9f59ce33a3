-- ===== src/Errors.antt =====
-- The errors of the lifecycle manager (modulex.go, apperrors/apperrors.go).
-- A Go `error` of one cause is an `Error`, nil is `none`; what `errors.Join` builds is the list of
-- its causes, nil the empty list. A foreign error (of a module, a task, the bus) is its text.
use modulex.Prelude.{String, ℕ, Option, none, some, List}

-- modulex.LifecycleState
pub data LifecycleState : Type 0 where
  configuring initializing initialized starting running stopping stopped : LifecycleState

-- What a context reports once it is done.
pub data CtxErr : Type 0 where
  canceled deadline_exceeded : CtxErr

-- The lifecycle action named in an error text.
pub data Action : Type 0 where
  init start : Action

pub data StopPhase : Type 0 where
  init_rollback start_rollback stop : StopPhase

-- The exported sentinel errors.
pub data Sentinel : Type 0 where
  circular_dependency service_not_found registry_locked module_nil : Sentinel
  invalid_module_name duplicate_module duplicate_service duplicate_task : Sentinel
  invalid_task_name dependency_not_found self_dependency invalid_dependency_name : Sentinel
  invalid_service_name service_type_mismatch service_nil invalid_lifecycle_state : Sentinel
  no_config_loader invalid_panic_policy invalid_health_check_name : Sentinel
  invalid_readiness_check_name health_check_nil readiness_check_nil : Sentinel
  task_handle_not_started : Sentinel

-- One error value: a sentinel with what `fmt.Errorf` adds to it, or an error with none.
pub data Error : Type 0 where
  plain : Sentinel → Error
  named : Sentinel → String → Error
  cycle : List String → Error
  in_state : Sentinel → LifecycleState → Error
  task_in_state : String → LifecycleState → Error
  task_shutting_down : String → Error
  bad_panic_policy : ℕ → Error
  check_exists : String → Error
  task_fn_nil : Error
  foreign : String → Error
  task_failed : String → Error → Error
  task_panicked : String → String → Error
  phase_cancelled : Action → CtxErr → Error
  module_failed : Action → String → String → Error
  stop_failed : StopPhase → String → String → Error
  bus_close_failed : String → Error
  wait_timed_out : CtxErr → List String → Error
  stop_ctx_done : CtxErr → Error

-- The sentinel that `errors.Is` finds by the `%w` of each error's construction.
abbrev pub sentinel_of : Error → Option Sentinel
sentinel_of (plain s) = some s
sentinel_of (named s x) = some s
sentinel_of (cycle c) = some Sentinel.circular_dependency
sentinel_of (in_state s l) = some s
sentinel_of (task_in_state t l) = some Sentinel.registry_locked
sentinel_of (task_shutting_down t) = some Sentinel.registry_locked
sentinel_of (bad_panic_policy p) = some Sentinel.invalid_panic_policy
sentinel_of (task_failed t e) = sentinel_of e
sentinel_of _ = none
