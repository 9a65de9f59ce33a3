-- ===== src/Lifecycle/Closed.antt =====
-- A property of the manager that all parts of the lifecycle keep is kept by each lifecycle method.
use modulex.Prelude.{
  ℕ, suc, ◌≡◌, Bool, true, false, inl, inr, List, [], ◌∷◌, ◌++◌, Assoc, insert, ◌-◌, Option-cases,
  Bool-cases, take, refl, zero,
}
use mathlib.Core.List.{reverse}
use modulex.Errors.{LifecycleState, Action, StopPhase, Error}
use modulex.Module.{Prog, Module}
use modulex.Manager.{Manager, Call, set_state, is_configuring}
use modulex.Tasks.{Ctx, Meanwhile, cancel_tasks, wait_for_tasks}
use modulex.Runtime.{run_prog, log_call, init_module, start_module, stop_module}
use modulex.Topo.{Sorted, sorted, failed, no_fuel, sort_modules}
use modulex.Lifecycle.{
  Run, run_phase, append_error, stop_all, finalize_failure, init_sorted, init_order, init_modules,
  stop_count, start_phase, start_modules, ctx_done_error, Gate, stop_gate, shut_down, stop_modules,
  is_initialized,
}

-- `P` is kept by module code, by the record of a call, by a wait, and by what the lifecycle assigns.
pub record Closed (P : Manager → Type 0) : Type 0 where
  pub prog : (p : Prog) (m : Manager) → P m → P (run_prog p m).0
  pub call : (c : Call) (m : Manager) → P m → P (log_call c m)
  pub cancel : (m : Manager) → P m → P (cancel_tasks m)
  pub wait :
      (ctx : Ctx) (meanwhile : Meanwhile) (m : Manager) → P m → P (wait_for_tasks ctx meanwhile m).0
  pub state : (s : LifecycleState) (m : Manager) → P m → P (set_state s m)
  pub order : (mds : List Module) (m : Manager) → P m → P (record m { ordered_mods = mds })
  pub init_times :
      (t : ℕ) (ts : Assoc ℕ) (m : Manager)
      → P m
      → P (record m { init_total = t; init_timings = ts })
  pub start_times :
      (t : ℕ) (ts : Assoc ℕ) (m : Manager)
      → P m
      → P (record m { start_total = t; start_timings = ts })

module _ {P : Manager → Type 0} (c : Closed P) where
  start_module-keeps : (md : Module) (m : Manager) → P m → P (start_module md m).0
  unfolding start_module
  start_module-keeps md m h = elim (Option-cases md.start) [
    | inl e ↦ rw (e, start_module) h
    | inr (p, e) ↦ rw (e, start_module) (c.prog p _ (c.call (Call.start_called md.name) m h))
  ]

  stop_module-keeps :
      (phase : StopPhase) (md : Module) (m : Manager) → P m → P (stop_module phase md m).0
  unfolding stop_module
  stop_module-keeps phase md m h = elim (Option-cases md.stop) [
    | inl e ↦ rw (e, stop_module) h
    | inr (p, e) ↦ rw (e, stop_module) (c.prog p _ (c.call (Call.stop_called md.name) m h))
  ]

  init_module-keeps : (md : Module) (m : Manager) → P m → P (init_module md m).0
  unfolding init_module
  init_module-keeps md m h = c.prog md.init _ (c.call (Call.init_called md.name) m h)

  run_phase-keeps :
      (action : Action) (ctx : Ctx) (run : Run)
      → ((md : Module) (m : Manager) → P m → P (run md m).0)
      → (mds : List Module) (count : ℕ) (timings : Assoc ℕ) (m : Manager) → P m
      → P (run_phase action ctx run mds count timings m).0
  unfolding run_phase
  run_phase-keeps action ctx run one [] count timings m h = h
  run_phase-keeps action ctx run one (md ∷ mds) count timings m h =
      elim (Option-cases (ctx m.clock)) [
        | inr (x, e) ↦ rw (e, run_phase) h
        | inl e ↦
            rw (e, run_phase)
              (elim (Option-cases (run md m).1) [
                | inr (text, q) ↦ rw q (one md m h)
                | inl q ↦ rw q (
                    run_phase-keeps action ctx run one mds (suc count)
                      (insert md.name ((run md m).0.clock - m.clock) timings) (run md m).0
                      (one md m h))
              ])
      ]

  stop_all-keeps :
      (phase : StopPhase) (mds : List Module) (errs : List Error) (m : Manager)
      → P m
      → P (stop_all phase mds errs m).0
  unfolding stop_all
  stop_all-keeps phase [] errs m h = h
  stop_all-keeps phase (md ∷ mds) errs m h =
      let (m', e) = stop_module phase md m in
      stop_all-keeps phase mds (append_error e errs) m' (stop_module-keeps phase md m h)

  finalize_failure-keeps :
      (ctx : Ctx) (meanwhile : Meanwhile) (e : Error) (phase : StopPhase) (mds : List Module)
      (cleanup : Bool) (m : Manager)
      → P m
      → P (finalize_failure ctx meanwhile e phase mds cleanup m).0
  unfolding finalize_failure
  finalize_failure-keeps ctx meanwhile e phase mds cleanup m h =
      let m1 = (wait_for_tasks ctx meanwhile m).0 in
      let m2 = (stop_all phase (reverse mds) [] m1).0 in
      c.state LifecycleState.stopped _ (
        c.order _ _ (
          c.call Call.bus_closed m2
            (stop_all-keeps phase (reverse mds) [] m1 (c.wait ctx meanwhile m h))))

  init_sorted-keeps :
      (ctx : Ctx) (meanwhile : Meanwhile) (mds : List Module) (m : Manager)
      → P m
      → P (init_sorted ctx meanwhile mds m).0
  unfolding init_sorted
  init_sorted-keeps ctx meanwhile mds m h =
      let out = run_phase Action.init ctx init_module mds zero [] m in
      let k =
        c.init_times (out.0.clock - m.clock) out.1.timings out.0
          (run_phase-keeps Action.init ctx init_module init_module-keeps mds zero [] m h) in
      elim (Option-cases out.1.error) [
        | inl e ↦ rw (e, init_sorted) (c.state LifecycleState.initialized _ k)
        | inr (x, e) ↦
            rw (e, init_sorted)
              (finalize_failure-keeps ctx meanwhile x StopPhase.init_rollback (take out.1.count mds)
                true _ k)
      ]

  start_phase-keeps :
      (ctx : Ctx) (meanwhile : Meanwhile) (m : Manager) → P m → P (start_phase ctx meanwhile m).0
  unfolding start_phase
  start_phase-keeps ctx meanwhile m h =
      let mds = m.ordered_mods in
      let out = run_phase Action.start ctx start_module mds zero [] m in
      let k =
        c.start_times (out.0.clock - m.clock) out.1.timings out.0
          (run_phase-keeps Action.start ctx start_module start_module-keeps mds zero [] m h) in
      elim (Option-cases out.1.error) [
        | inl e ↦ rw (e, start_phase) (c.state LifecycleState.running _ k)
        | inr (x, e) ↦
            rw (e, start_phase)
              (finalize_failure-keeps ctx meanwhile x StopPhase.start_rollback
                (take (stop_count out.1 mds) mds) false _ k)
      ]

  pub init_modules-keeps :
      (ctx : Ctx) (meanwhile : Meanwhile) (m : Manager) → P m → P (init_modules ctx meanwhile m).0
  unfolding init_modules
  init_modules-keeps ctx meanwhile m h = elim (Bool-cases (is_configuring m.state)) [
    | inr e ↦ rw (e, init_modules) h
    | inl e ↦ rw (e, init_modules) (by_order (sort_modules m.modules m.module_order) refl)
  ]
    where
      begun :
          (mds : List Module)
          → P (record m { state = LifecycleState.initializing; ordered_mods = mds })
      begun mds = unfold set_state in c.order mds _ (c.state LifecycleState.initializing m h)

      by_order :
          (r : Sorted)
          → sort_modules m.modules m.module_order ≡ r
          → P (init_order ctx meanwhile m (sort_modules m.modules m.module_order)).0
      by_order (sorted mds) q = rw q (init_sorted-keeps ctx meanwhile mds _ (begun mds))
      by_order (failed e) q =
          rw q (finalize_failure-keeps ctx meanwhile e StopPhase.init_rollback [] true _ (begun []))
      by_order no_fuel q = rw q h

  pub start_modules-keeps :
      (ctx : Ctx) (meanwhile : Meanwhile) (m : Manager) → P m → P (start_modules ctx meanwhile m).0
  unfolding start_modules
  start_modules-keeps ctx meanwhile m h = elim (Bool-cases (is_initialized m.state)) [
    | inr e ↦ rw (e, start_modules) h
    | inl e ↦
        rw (e, start_modules)
          (start_phase-keeps ctx meanwhile _ (c.state LifecycleState.starting m h))
  ]

  shut_down-keeps :
      (ctx : Ctx) (meanwhile : Meanwhile) (m : Manager) → P m → P (shut_down ctx meanwhile m).0
  unfolding shut_down
  shut_down-keeps ctx meanwhile m h =
      let m1 = cancel_tasks (set_state LifecycleState.stopping m) in
      let (m2, errs) = wait_for_tasks ctx meanwhile m1 in
      let k = c.wait ctx meanwhile m1 (c.cancel _ (c.state LifecycleState.stopping m h)) in
      c.state LifecycleState.stopped _ (
        c.call Call.bus_closed _ (
          stop_all-keeps StopPhase.stop (reverse m2.ordered_mods)
            (errs ++ ctx_done_error (ctx m2.clock)) m2 k))

  pub stop_modules-keeps :
      (ctx : Ctx) (meanwhile : Meanwhile) (m : Manager) → P m → P (stop_modules ctx meanwhile m).0
  unfolding stop_modules
  stop_modules-keeps ctx meanwhile m h = by_gate (stop_gate m.state) refl
    where
      by_gate : (g : Gate) → stop_gate m.state ≡ g → P (stop_modules ctx meanwhile m).0
      by_gate Gate.already e = rw (e, stop_modules) h
      by_gate Gate.proceed e = rw (e, stop_modules) (shut_down-keeps ctx meanwhile m h)
      by_gate Gate.refuse e = rw (e, stop_modules) h
