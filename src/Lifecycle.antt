-- ===== src/Lifecycle.antt =====
-- The lifecycle of the manager (modulex.go: runPhase, InitModules, StartModules, rollback,
-- finalizeFailure, closeEventBus, StopModules). A method that returns an error returns the list of
-- its joined causes, which is empty for nil. What other goroutines do is given for each wait; the
-- tracer and the logger are not modelled.
pub mod Calls
pub mod Phase
pub mod Failure
pub mod Init
pub mod Start
pub mod Stop
pub mod Closed
use modulex.Prelude.{
  ℕ, suc, ◌-◌, String, Bool, true, false, Option, none, some, List, [], ◌∷◌, ◌++◌, if◌then◌else◌,
  ltb, length, take, Assoc, insert,
}
use mathlib.Core.List.{reverse}
use modulex.Errors.{LifecycleState, CtxErr, Action, StopPhase, Error, Sentinel}
use modulex.Module.{Module}
use modulex.Manager.{EventBus, Call, Manager, is_configuring, set_state}
use modulex.Tasks.{Ctx, Meanwhile, cancel_tasks, wait_for_tasks}
use modulex.Runtime.{log_call, init_module, start_module, stop_module}
use modulex.Topo.{Sorted, sorted, failed, no_fuel, sort_modules}

abbrev pub Run : Type 0
Run = Module → Manager → Manager × Option String

-- The results of runPhase, but for the error of the Go signature that ends the list.
pub record PhaseResult : Type 0 where
  pub count : ℕ
  pub timings : Assoc ℕ
  pub attempted : Bool
  pub error : Option Error

unfoldable pub run_phase :
    Action → Ctx → Run → List Module → ℕ → Assoc ℕ → Manager → Manager × PhaseResult
run_phase action ctx run [] count timings m =
    (m, record { count = count; timings = timings; attempted = false; error = none })
run_phase action ctx run (md ∷ mds) count timings m = elim (ctx m.clock) [
  | some c ↦ (
    m,
    record {
      count = count;
      timings = timings;
      attempted = false;
      error = some (Error.phase_cancelled action c);
    },
  )
  | none ↦
      let (m', e) = run md m in
      let timings' = insert md.name (m'.clock - m.clock) timings in
      elim e [
        | some text ↦ (
          m',
          record {
            count = count;
            timings = timings';
            attempted = true;
            error = some (Error.module_failed action md.name text);
          },
        )
        | none ↦ run_phase action ctx run mds (suc count) timings' m'
      ]
]

abbrev pub append_error : Option Error → List Error → List Error
append_error none errs = errs
append_error (some e) errs = errs ++ e ∷ []

-- The loop of rollback and of StopModules, over the modules from the last one on.
unfoldable pub stop_all : StopPhase → List Module → List Error → Manager → Manager × List Error
stop_all phase [] errs m = (m, errs)
stop_all phase (md ∷ mds) errs m =
    let (m', e) = stop_module phase md m in stop_all phase mds (append_error e errs) m'

unfoldable pub rollback : StopPhase → List Module → Manager → Manager × List Error
unfolding stop_all
rollback phase mds m = stop_all phase (reverse mds) [] m

-- What `eb.Close(ctx)` returns, wrapped.
abbrev pub close_error : EventBus → List Error
close_error EventBus.noop = []
close_error (EventBus.foreign none) = []
close_error (EventBus.foreign (some text)) = Error.bus_close_failed text ∷ []

unfoldable pub close_event_bus : Manager → Manager × List Error
close_event_bus m = (log_call Call.bus_closed m, close_error m.event_bus)

-- finalizeFailure, with the modules that its rollback stops and its cleanup of the sorted modules.
unfoldable pub finalize_failure :
    Ctx → Meanwhile → Error → StopPhase → List Module → Bool → Manager → Manager × List Error
unfolding rollback close_event_bus
finalize_failure ctx meanwhile e phase mds cleanup m =
    let (m1, wait_errs) = wait_for_tasks ctx meanwhile m in
    let (m2, stop_errs) = rollback phase mds m1 in
    let (m3, close_errs) = close_event_bus m2 in
    let m4 = record m3 { ordered_mods = if cleanup then [] else m3.ordered_mods } in
    (set_state LifecycleState.stopped m4, e ∷ (wait_errs ++ (stop_errs ++ close_errs)))

abbrev pub finalize_init_failure :
    Ctx → Meanwhile → Error → List Module → Manager → Manager × List Error
finalize_init_failure ctx meanwhile e initialized m =
    finalize_failure ctx meanwhile e StopPhase.init_rollback initialized true m

-- InitModules once the modules are sorted.
unfoldable pub init_sorted : Ctx → Meanwhile → List Module → Manager → Manager × List Error
unfolding run_phase finalize_failure
init_sorted ctx meanwhile mds m =
    let (m', r) = run_phase Action.init ctx init_module mds 0 [] m in
    let timed = record m' { init_total = m'.clock - m.clock; init_timings = r.timings } in
    elim r.error [
      | none ↦ (set_state LifecycleState.initialized timed, [])
      | some e ↦ finalize_init_failure ctx meanwhile e (take r.count mds) timed
    ]

-- InitModules with the result of the sort. The sort never runs out of fuel, so the last case is not
-- reached.
abbrev pub init_order : Ctx → Meanwhile → Manager → Sorted → Manager × List Error
init_order ctx meanwhile m (sorted mds) =
    init_sorted ctx meanwhile mds
      (record m { state = LifecycleState.initializing; ordered_mods = mds })
init_order ctx meanwhile m (failed e) =
    finalize_init_failure ctx meanwhile e []
      (record m { state = LifecycleState.initializing; ordered_mods = [] })
init_order ctx meanwhile m no_fuel = (m, [])

unfoldable pub init_modules : Ctx → Meanwhile → Manager → Manager × List Error
unfolding init_sorted
init_modules ctx meanwhile m =
    if is_configuring m.state
    then init_order ctx meanwhile m (sort_modules m.modules m.module_order)
    else (m, Error.in_state Sentinel.invalid_lifecycle_state m.state ∷ [])

abbrev pub is_initialized : LifecycleState → Bool
is_initialized LifecycleState.initialized = true
is_initialized _ = false

-- How many modules the rollback of a failed start stops: with the one whose Start failed.
abbrev pub stop_count : PhaseResult → List Module → ℕ
stop_count r mds =
    if r.attempted then (if ltb r.count (length mds) then suc r.count else r.count) else r.count

unfoldable pub start_phase : Ctx → Meanwhile → Manager → Manager × List Error
unfolding run_phase finalize_failure
start_phase ctx meanwhile m =
    let mds = m.ordered_mods in
    let (m', r) = run_phase Action.start ctx start_module mds 0 [] m in
    let timed = record m' { start_total = m'.clock - m.clock; start_timings = r.timings } in
    elim r.error [
      | none ↦ (set_state LifecycleState.running timed, [])
      | some e ↦
          finalize_failure ctx meanwhile e StopPhase.start_rollback (take (stop_count r mds) mds)
            false timed
    ]

unfoldable pub start_modules : Ctx → Meanwhile → Manager → Manager × List Error
unfolding start_phase
start_modules ctx meanwhile m =
    if is_initialized m.state
    then start_phase ctx meanwhile (set_state LifecycleState.starting m)
    else (m, Error.in_state Sentinel.invalid_lifecycle_state m.state ∷ [])

abbrev pub ctx_done_error : Option CtxErr → List Error
ctx_done_error none = []
ctx_done_error (some c) = Error.stop_ctx_done c ∷ []

-- StopModules past its state check.
unfoldable pub shut_down : Ctx → Meanwhile → Manager → Manager × List Error
unfolding stop_all close_event_bus cancel_tasks
shut_down ctx meanwhile m =
    let m1 = cancel_tasks (set_state LifecycleState.stopping m) in
    let (m2, wait_errs) = wait_for_tasks ctx meanwhile m1 in
    let (m3, errs) =
      stop_all StopPhase.stop (reverse m2.ordered_mods) (wait_errs ++ ctx_done_error (ctx m2.clock))
        m2 in
    let (m4, close_errs) = close_event_bus m3 in
    (set_state LifecycleState.stopped m4, errs ++ close_errs)

-- What the `switch state` of StopModules decides.
pub data Gate : Type 0 where
  already proceed refuse : Gate

abbrev pub stop_gate : LifecycleState → Gate
stop_gate LifecycleState.stopped = Gate.already
stop_gate LifecycleState.stopping = Gate.already
stop_gate LifecycleState.initializing = Gate.refuse
stop_gate LifecycleState.starting = Gate.refuse
stop_gate _ = Gate.proceed

unfoldable pub stop_modules : Ctx → Meanwhile → Manager → Manager × List Error
unfolding shut_down
stop_modules ctx meanwhile m = elim (stop_gate m.state) [
  | Gate.already ↦ (m, [])
  | Gate.proceed ↦ shut_down ctx meanwhile m
  | Gate.refuse ↦ (m, Error.in_state Sentinel.invalid_lifecycle_state m.state ∷ [])
]
