-- ===== src/Lifecycle/Failure.antt =====
-- What a failed phase leaves behind (modulex.go: finalizeFailure).
use modulex.Prelude.{◌≡◌, refl, ap, Bool, List, [], ◌∷◌, ◌++◌, if◌then◌else◌}
use mathlib.Core.List.{reverse}
use modulex.Errors.{LifecycleState, StopPhase, Error}
use modulex.Module.{Module}
use modulex.Manager.{Manager, Call, set_state}
use modulex.Tasks.{Ctx, Meanwhile, wait_for_tasks}
use modulex.Tasks.Waiting.{wait_for_tasks-SameLifecycle}
use modulex.Lifecycle.{rollback, close_event_bus, finalize_failure}
use modulex.Lifecycle.Calls.{
  Logs, Logs-trans, Logs-same, each, stop_call, rollback-Logs, close_event_bus-Logs,
}

-- The manager is stopped, Stop was called on `mds` from the last one on, then the bus was closed, and
-- the reported errors begin with the cause.
pub record IsUndone (e : Error) (mds : List Module) (kept : List Module) (m : Manager)
    (out : Manager × List Error) : Type 0 where
  pub state : out.0.state ≡ LifecycleState.stopped
  pub calls : out.0.calls ≡ m.calls ++ (each stop_call (reverse mds) ++ Call.bus_closed ∷ [])
  pub ordered_mods : out.0.ordered_mods ≡ kept
  pub more : List Error
  pub errs : out.1 ≡ e ∷ more

pub finalize_failure-IsUndone :
    (ctx : Ctx) (meanwhile : Meanwhile) (e : Error) (phase : StopPhase) (mds : List Module)
    (cleanup : Bool) (m : Manager)
    → IsUndone e mds
        (if cleanup then [] else m.ordered_mods)
        m
        (finalize_failure ctx meanwhile e phase mds cleanup m)
unfolding finalize_failure set_state
finalize_failure-IsUndone ctx meanwhile e phase mds cleanup m =
    let m1 = (wait_for_tasks ctx meanwhile m).0 in
    let m2 = (rollback phase mds m1).0 in
    let stops = each stop_call (reverse mds) in
    let all : Logs m (close_event_bus m2).0 (stops ++ Call.bus_closed ∷ []) =
      Logs-trans [] (stops ++ Call.bus_closed ∷ [])
        (Logs-same (wait_for_tasks-SameLifecycle ctx meanwhile m))
        (Logs-trans stops (Call.bus_closed ∷ []) (rollback-Logs phase mds m1)
          (close_event_bus-Logs m2)) in
    record {
      state = refl;
      calls = all.calls;
      ordered_mods = ap (λ l. if cleanup then [] else l) all.ordered_mods;
      more = _;
      errs = refl;
    }
