-- ===== src/App/Ending.antt =====
-- How an application ends (app/app.go: Run, runStop).
use modulex.Prelude.{
  ℕ, suc, String, ◌≡◌, refl, sym, ◌∙◌, ap, true, Option, none, some, List, [], ◌∷◌, ◌++◌, map,
  append_assoc, append-nil, Option-cases, inl, inr, arith,
}
use modulex.Errors.{LifecycleState, Error}
use modulex.Module.{Module}
use modulex.Manager.{Manager, register_module}
use modulex.Tasks.{Ctx, Meanwhile}
use modulex.Lifecycle.{Gate, stop_gate, init_modules, start_modules, stop_modules}
use modulex.Lifecycle.Stop.{stop_modules-IsShutDown}
use modulex.Traces.{Op, step, run_ops}
use modulex.Traces.Progress.{is_at_rest, step-Advances, run_ops-Advances}
use modulex.App.{
  Hook, AppError, Options, Event, Ran, run_hooks, run_stop, with_timeout, register_all,
  init_and_start, register_and_start, run_setup, start_app, run_manager,
}

run_hooks-state :
    (event : String → Event) (f : String → AppError) (hs : List Hook) (r : Ran)
    → (run_hooks event f hs r).manager.state ≡ r.manager.state
unfolding run_hooks
run_hooks-state event f [] r = refl
run_hooks-state event f (h ∷ hs) r = run_hooks-state event f hs _

run_hooks-events :
    (event : String → Event) (f : String → AppError) (hs : List Hook) (r : Ran)
    → (run_hooks event f hs r).events ≡ r.events ++ map (λ h. event h.name) hs
unfolding run_hooks
run_hooks-events event f [] r = sym (append-nil r.events)
run_hooks-events event f (h ∷ hs) r =
    run_hooks-events event f hs _
    ∙ append_assoc r.events (event h.name ∷ []) (map (λ h. event h.name) hs)

stop_modules-stopped :
    (ctx : Ctx) (w : Meanwhile) (m : Manager)
    → is_at_rest m.state ≡ true
    → (stop_modules ctx w m).0.state ≡ LifecycleState.stopped
stop_modules-stopped ctx w m h = by_state m.state refl h
  where
    proceeds :
        stop_gate m.state ≡ Gate.proceed → (stop_modules ctx w m).0.state ≡ LifecycleState.stopped
    proceeds e = (stop_modules-IsShutDown ctx w m e).state

    by_state :
        (s : LifecycleState)
        → m.state ≡ s
        → is_at_rest s ≡ true
        → (stop_modules ctx w m).0.state ≡ LifecycleState.stopped
    by_state LifecycleState.configuring e r = proceeds (ap stop_gate e)
    by_state LifecycleState.initializing e r = cc
    by_state LifecycleState.initialized e r = proceeds (ap stop_gate e)
    by_state LifecycleState.starting e r = cc
    by_state LifecycleState.running e r = proceeds (ap stop_gate e)
    by_state LifecycleState.stopping e r = cc
    by_state LifecycleState.stopped e r = unfold stop_modules in ground arith

-- The manager is stopped, and every hook and StopModules ran, in this order.
pub record IsEnded (cfg : Options) (r : Ran) : Type 0 where
  pub state : r.manager.state ≡ LifecycleState.stopped
  pub events :
      r.events
      ≡ map (λ h. Event.pre_stop_ran h.name) cfg.pre_stop
        ++ Event.stop_called ∷ map (λ h. Event.post_stop_ran h.name) cfg.post_stop

run_stop-IsEnded :
    (cfg : Options) (w : Meanwhile) (m : Manager)
    → is_at_rest m.state ≡ true
    → IsEnded cfg (run_stop cfg w m)
unfolding run_stop
run_stop-IsEnded cfg w m h = record {
  state =
      run_hooks-state Event.post_stop_ran AppError.post_stop_failed cfg.post_stop _
      ∙ stop_modules-stopped (with_timeout m.clock cfg.shutdown_timeout) w before.manager (
          ap is_at_rest (run_hooks-state Event.pre_stop_ran AppError.pre_stop_failed cfg.pre_stop _)
          ∙ h);
  events =
      run_hooks-events Event.post_stop_ran AppError.post_stop_failed cfg.post_stop _
      ∙ (append_assoc before.events (Event.stop_called ∷ [])
            (map (λ h. Event.post_stop_ran h.name) cfg.post_stop)
          ∙ ap (λ l. l ++ Event.stop_called ∷ map (λ h. Event.post_stop_ran h.name) cfg.post_stop)
              (run_hooks-events Event.pre_stop_ran AppError.pre_stop_failed cfg.pre_stop _));
}
  where
    before : Ran
    before =
        run_hooks Event.pre_stop_ran AppError.pre_stop_failed cfg.pre_stop
          (record { manager = m; errs = []; events = [] })

-- The setup leaves a manager at rest, as every method of the manager does.
abbrev pub SetupRests : Options → Type 0
SetupRests cfg =
    (m : Manager) → is_at_rest m.state ≡ true → is_at_rest (run_setup cfg.setup m).0.state ≡ true

register_all-rests :
    (i : ℕ) (mods : List (Option Module)) (m : Manager)
    → is_at_rest m.state ≡ true
    → is_at_rest (register_all i mods m).0.state ≡ true
unfolding register_all step
register_all-rests i [] m h = h
register_all-rests i (none ∷ mods) m h = h
register_all-rests i (some md ∷ mods) m h = elim (Option-cases (register_module (some md) m).1) [
  | inl e ↦
      rw (e, register_all)
        (register_all-rests (suc i) mods (register_module (some md) m).0
          (step-Advances (Op.add_module (some md)) m h).rests)
  | inr (x, e) ↦ rw (e, register_all) (step-Advances (Op.add_module (some md)) m h).rests
]

init_and_start-rests :
    (ctx : Ctx) (w w' : Meanwhile) (m : Manager)
    → is_at_rest m.state ≡ true
    → is_at_rest (init_and_start ctx w w' m).0.state ≡ true
unfolding init_and_start step
init_and_start-rests ctx w w' m h = by_init (init_modules ctx w m).1 refl
  where
    inited : is_at_rest (init_modules ctx w m).0.state ≡ true
    inited = (step-Advances (Op.init ctx w) m h).rests

    started : is_at_rest (start_modules ctx w' (init_modules ctx w m).0).0.state ≡ true
    started = (step-Advances (Op.start ctx w') (init_modules ctx w m).0 inited).rests

    by_start :
        (es : List Error)
        → (start_modules ctx w' (init_modules ctx w m).0).1 ≡ es
        → (init_modules ctx w m).1 ≡ []
        → is_at_rest (init_and_start ctx w w' m).0.state ≡ true
    by_start [] e i = rw (i, e, init_and_start) started
    by_start (x ∷ more) e i = rw (i, e, init_and_start) started

    by_init :
        (es : List Error)
        → (init_modules ctx w m).1 ≡ es
        → is_at_rest (init_and_start ctx w w' m).0.state ≡ true
    by_init [] e = by_start (start_modules ctx w' (init_modules ctx w m).0).1 refl e
    by_init (x ∷ more) e = rw (e, init_and_start) inited

register_and_start-rests :
    (ctx : Ctx) (w w' : Meanwhile) (mods : List (Option Module)) (m : Manager)
    → is_at_rest m.state ≡ true
    → is_at_rest (register_and_start ctx w w' mods m).0.state ≡ true
unfolding register_and_start
register_and_start-rests ctx w w' mods m h = elim (Option-cases (register_all 0 mods m).1) [
  | inl e ↦
      rw (e, register_and_start)
        (init_and_start-rests ctx w w' (register_all 0 mods m).0 (register_all-rests 0 mods m h))
  | inr (x, e) ↦ rw (e, register_and_start) (register_all-rests 0 mods m h)
]

start_app-rests :
    (cfg : Options) (ctx : Ctx) (w w' : Meanwhile) (mods : List (Option Module)) (m : Manager)
    → SetupRests cfg
    → is_at_rest m.state ≡ true
    → is_at_rest (start_app cfg ctx w w' mods m).0.state ≡ true
unfolding start_app
start_app-rests cfg ctx w w' mods m s h = elim (Option-cases (run_setup cfg.setup m).1) [
  | inl e ↦
      rw (e, start_app) (register_and_start-rests ctx w w' mods (run_setup cfg.setup m).0 (s m h))
  | inr (x, e) ↦ rw (e, start_app) (s m h)
]

-- However Run goes on with a manager at rest, and so with the one that NewManager returns, it ends with
-- the manager stopped and with every pre-stop hook, then StopModules, then every post-stop hook called
-- in their order: after a failed setup, registration, initialization or start as after the signal,
-- provided that the setup hook leaves the manager at rest.
pub run_manager-IsEnded :
    (cfg : Options) (ctx : Ctx) (w w' w'' : Meanwhile) (serving : List Op)
    (mods : List (Option Module)) (m : Manager)
    → SetupRests cfg
    → is_at_rest m.state ≡ true
    → IsEnded cfg (run_manager cfg ctx w w' w'' serving mods m)
unfolding run_manager
run_manager-IsEnded cfg ctx w w' w'' serving mods m s h =
    by_start (start_app cfg ctx w w' mods m).1 refl
  where
    started : is_at_rest (start_app cfg ctx w w' mods m).0.state ≡ true
    started = start_app-rests cfg ctx w w' mods m s h

    by_start :
        (e : Option AppError)
        → (start_app cfg ctx w w' mods m).1 ≡ e
        → IsEnded cfg (run_manager cfg ctx w w' w'' serving mods m)
    by_start none e =
        rw (e, run_manager)
          (run_stop-IsEnded cfg w'' (run_ops serving (start_app cfg ctx w w' mods m).0)
            (run_ops-Advances serving (start_app cfg ctx w w' mods m).0 started).rests)
    by_start (some x) e =
        let r = run_stop-IsEnded cfg w'' (start_app cfg ctx w w' mods m).0 started in
        rw (e, run_manager) (record { state = r.state; events = r.events })
