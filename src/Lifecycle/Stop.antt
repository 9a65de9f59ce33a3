-- ===== src/Lifecycle/Stop.antt =====
-- StopModules (modulex.go: StopModules).
use modulex.Prelude.{◌≡◌, refl, sym, ◌∙◌, ap, subst, List, [], ◌∷◌, ◌++◌}
use mathlib.Core.List.{reverse}
use modulex.Errors.{LifecycleState, StopPhase, Error}
use modulex.Module.{Module}
use modulex.Manager.{Manager, Call, set_state}
use modulex.Tasks.{Ctx, Meanwhile, cancel_tasks, wait_for_tasks}
use modulex.Tasks.Waiting.{wait_for_tasks-SameLifecycle}
use modulex.Lifecycle.{
  Gate, stop_gate, stop_all, close_event_bus, ctx_done_error, shut_down, stop_modules,
}
use modulex.Lifecycle.Calls.{
  Logs, Logs-trans, Logs-same, each, stop_call, stop_all-Logs, close_event_bus-Logs,
}

-- A manager that was shut down: Stop was called on each sorted module that has one, from the last one
-- on, then the bus was closed.
pub record IsShutDown (m m' : Manager) : Type 0 where
  pub state : m'.state ≡ LifecycleState.stopped
  pub ordered_mods : m'.ordered_mods ≡ m.ordered_mods
  pub calls :
      m'.calls ≡ m.calls ++ (each stop_call (reverse m.ordered_mods) ++ Call.bus_closed ∷ [])

shut_down-IsShutDown :
    (ctx : Ctx) (meanwhile : Meanwhile) (m : Manager) → IsShutDown m (shut_down ctx meanwhile m).0
unfolding shut_down set_state
shut_down-IsShutDown ctx meanwhile m =
    let m1 = cancel_tasks (set_state LifecycleState.stopping m) in
    let (m2, errs) = wait_for_tasks ctx meanwhile m1 in
    let start = errs ++ ctx_done_error (ctx m2.clock) in
    let m3 = (stop_all StopPhase.stop (reverse m2.ordered_mods) start m2).0 in
    let same = wait_for_tasks-SameLifecycle ctx meanwhile m1 in
    let stops = each stop_call (reverse m2.ordered_mods) in
    let all : Logs m1 (close_event_bus m3).0 (stops ++ Call.bus_closed ∷ []) =
      Logs-trans [] (stops ++ Call.bus_closed ∷ []) (Logs-same same) (
        Logs-trans stops (Call.bus_closed ∷ [])
          (stop_all-Logs StopPhase.stop (reverse m2.ordered_mods) start m2)
          (close_event_bus-Logs m3)) in
    record {
      state = refl;
      ordered_mods = all.ordered_mods;
      calls =
          all.calls
          ∙ ap
              (λ (mds : List Module).
                m.calls ++ (each stop_call (reverse mds) ++ Call.bus_closed ∷ []))
              same.ordered_mods;
    }

-- StopModules on a manager that is being configured, is initialized or runs calls Stop on every sorted
-- module that has one, whatever the earlier ones return and whether or not the context is done, in
-- reverse order, closes the bus, and leaves the manager stopped.
pub stop_modules-IsShutDown :
    (ctx : Ctx) (meanwhile : Meanwhile) (m : Manager)
    → stop_gate m.state ≡ Gate.proceed
    → IsShutDown m (stop_modules ctx meanwhile m).0
unfolding stop_modules
stop_modules-IsShutDown ctx meanwhile m open_gate =
    subst (λ (r : Manager × List Error). IsShutDown m r.0) (sym (opened m open_gate))
      (shut_down-IsShutDown ctx meanwhile m)
  where
    opened :
        (m : Manager)
        → stop_gate m.state ≡ Gate.proceed
        → stop_modules ctx meanwhile m ≡ shut_down ctx meanwhile m
    opened m e = unfold stop_modules in rw (e, stop_modules)

already_stopped :
    (ctx : Ctx) (meanwhile : Meanwhile) (m : Manager)
    → m.state ≡ LifecycleState.stopped
    → stop_modules ctx meanwhile m ≡ (m, [])
unfolding stop_modules
already_stopped ctx meanwhile m e = simp (e, stop_modules)

-- StopModules is idempotent: after a shutdown, another call with any context returns nil, calls no
-- module and changes nothing.
pub stop_modules_twice :
    (ctx ctx' : Ctx) (meanwhile meanwhile' : Meanwhile) (m : Manager)
    → stop_gate m.state ≡ Gate.proceed
    → stop_modules ctx' meanwhile' (stop_modules ctx meanwhile m).0
      ≡ ((stop_modules ctx meanwhile m).0, [])
stop_modules_twice ctx ctx' meanwhile meanwhile' m open_gate =
    already_stopped ctx' meanwhile' (stop_modules ctx meanwhile m).0
      (stop_modules-IsShutDown ctx meanwhile m open_gate).state
