-- ===== src/Lifecycle/Init.antt =====
-- InitModules on every branch (modulex.go: InitModules, finalizeInitFailure).
use modulex.Prelude.{
  ◌≡◌, refl, sym, ◌∙◌, ap, subst, true, none, some, List, [], ◌∷◌, ◌++◌, append_assoc, append-nil,
  take, zero, ◌+◌, length, arith, ◌-◌,
}
use mathlib.Core.List.{reverse}
use modulex.Errors.{LifecycleState, Action, StopPhase, Error}
use modulex.Module.{Module}
use modulex.Manager.{Manager, Call, set_state}
use modulex.Tasks.{Ctx, Meanwhile}
use modulex.Runtime.{init_module}
use modulex.Topo.{Sorted, sorted, failed, no_fuel, sort_modules}
use modulex.Topo.Fuel.{sort_modules-ne-no_fuel}
use modulex.Lifecycle.{PhaseResult, run_phase, finalize_init_failure, init_sorted, init_modules}
use modulex.Lifecycle.Calls.{Logs, each, init_call, stop_call, init_module-Logs}
use modulex.Lifecycle.Phase.{AllRan, Cause, PhaseEnd, PhaseLog, run_phase-log, take-length-append}
use modulex.Lifecycle.Failure.{finalize_failure-IsUndone}

-- The three ends of InitModules, from the manager `m` it was called on.
pub data InitEnd (ctx : Ctx) (m : Manager) (out : Manager × List Error) : Type 0 where
  -- Every module was initialized, in the sorted order.
  initialized :
      (mds : List Module)
      → sort_modules m.modules m.module_order ≡ sorted mds
      → (m' : Manager)
      → AllRan ctx init_module mds
          (record m { state = LifecycleState.initializing; ordered_mods = mds })
          m'
      → out.1 ≡ []
      → out.0.state ≡ LifecycleState.initialized
      → out.0.ordered_mods ≡ mds
      → out.0.calls ≡ m.calls ++ each init_call mds
      → InitEnd ctx m out
  -- The modules could not be sorted, and none was touched.
  unsorted :
      (e : Error) (more : List Error)
      → sort_modules m.modules m.module_order ≡ failed e
      → out.1 ≡ e ∷ more
      → out.0.state ≡ LifecycleState.stopped
      → out.0.ordered_mods ≡ []
      → out.0.calls ≡ m.calls ++ Call.bus_closed ∷ []
      → InitEnd ctx m out
  -- The modules `done` were initialized and then stopped from the last one on; `tried` is the
  -- module whose Init returned the error, or nothing if the context was done before the next one.
  undone :
      (done tried rest : List Module) (e : Error) (more : List Error)
      → sort_modules m.modules m.module_order ≡ sorted (done ++ (tried ++ rest))
      → Cause Action.init ctx init_module
          (record m { state = LifecycleState.initializing; ordered_mods = done ++ (tried ++ rest) })
          done
          tried
          e
      → out.1 ≡ e ∷ more
      → out.0.state ≡ LifecycleState.stopped
      → out.0.ordered_mods ≡ []
      → out.0.calls
        ≡ m.calls
          ++ (each init_call (done ++ tried)
              ++ (each stop_call (reverse done) ++ Call.bus_closed ∷ []))
      → InitEnd ctx m out

module _ (ctx : Ctx) (meanwhile : Meanwhile) (m : Manager) (mds : List Module)
    (order : sort_modules m.modules m.module_order ≡ sorted mds) where
  abbrev begun : Manager
  begun = record m { state = LifecycleState.initializing; ordered_mods = mds }

  abbrev ran : Manager × PhaseResult
  ran = run_phase Action.init ctx init_module mds zero [] begun

  abbrev timed : Manager
  timed = record (ran.0) { init_total = ran.0.clock - begun.clock; init_timings = ran.1.timings }

  init_sorted-done :
      ran.1.error ≡ none
      → init_sorted ctx meanwhile mds begun ≡ (set_state LifecycleState.initialized timed, [])
  unfolding init_sorted
  init_sorted-done e = rw (e, init_sorted)

  init_sorted-failed :
      (e : Error)
      → ran.1.error ≡ some e
      → init_sorted ctx meanwhile mds begun
        ≡ finalize_init_failure ctx meanwhile e (take ran.1.count mds) timed
  unfolding init_sorted
  init_sorted-failed e h = rw (h, init_sorted)

  undone_of :
      (done tried rest : List Module) (cs : List Call) (e : Error)
      → mds ≡ done ++ (tried ++ rest)
      → Cause Action.init ctx init_module begun done tried e
      → ran.1.error ≡ some e
      → ran.1.count ≡ zero + length done
      → Logs begun ran.0 cs
      → cs ≡ each init_call (done ++ tried)
      → InitEnd ctx m (init_sorted ctx meanwhile mds begun)
  undone_of done tried rest cs e split short h c logs made =
      let prefix : take ran.1.count mds ≡ done =
        ap (λ n. take n mds) (c ∙ zero_add done)
        ∙ ap (λ l. take (length done) l) split
        ∙ take-length-append done (tried ++ rest) in
      subst (InitEnd ctx m) (sym (init_sorted-failed e h)) (
        subst (λ l. InitEnd ctx m (finalize_init_failure ctx meanwhile e l timed)) (sym prefix)
          (let u =
              finalize_failure-IsUndone ctx meanwhile e StopPhase.init_rollback done true timed in
            InitEnd.undone done tried rest e u.more (order ∙ ap sorted split)
              (subst
                (λ l.
                  Cause Action.init ctx init_module
                    (record m { state = LifecycleState.initializing; ordered_mods = l }) done tried
                    e)
                split short)
              u.errs u.state u.ordered_mods
              (u.calls
                ∙ ap (λ l. l ++ (each stop_call (reverse done) ++ Call.bus_closed ∷ []))
                    (logs.calls ∙ ap (λ l. m.calls ++ l) made)
                ∙ append_assoc m.calls (each init_call (done ++ tried)) _)))
    where
      zero_add : (l : List Module) → zero + length l ≡ length l
      zero_add l = omega arith

  each-snoc :
      (done : List Module) (at : Module)
      → each init_call done ++ init_call at ≡ each init_call (done ++ at ∷ [])
  each-snoc [] at = refl
  each-snoc (x ∷ done) at = ap (λ l. init_call x ++ l) (each-snoc done at)

  init_sorted-end : InitEnd ctx m (init_sorted ctx meanwhile mds begun)
  init_sorted-end = by_end (log.end)
    where
      log : PhaseLog Action.init ctx init_module init_call mds zero begun ran
      log = run_phase-log Action.init ctx init_module init_call init_module-Logs mds zero [] begun

      by_end :
          PhaseEnd Action.init ctx init_module begun init_call mds zero ran.1 log.calls
          → InitEnd ctx m (init_sorted ctx meanwhile mds begun)
      by_end (PhaseEnd.finished m' all e a c d) = subst (InitEnd ctx m) (sym (init_sorted-done e)) (
          unfold set_state in
          InitEnd.initialized mds order m' all refl refl log.logs.ordered_mods
            (log.logs.calls ∙ ap (λ l. m.calls ++ l) d))
      by_end (PhaseEnd.cancelled done rest e split why h a c d) =
          undone_of done [] rest log.calls e split why h c log.logs
            (d ∙ ap (λ l. each init_call l) (sym (append-nil done)))
      by_end (PhaseEnd.broke done at rest e split why h a c d) =
          undone_of done (at ∷ []) rest log.calls e split why h c log.logs (d ∙ each-snoc done at)

-- InitModules on a manager that is being configured ends in one of three ways. Either the modules are
-- sorted and each Init is called in that order, with the context not done before it
-- and without an error, and the manager is initialized; or they
-- cannot be sorted, no module is called, and the manager is stopped; or an Init returns an error or the
-- context is done before the next one, that is the error returned first, the modules initialized before, and only those, are stopped in reverse order,
-- the bus is closed, and the manager is stopped. The error is empty exactly in the first case.
pub init_modules-InitEnd :
    (ctx : Ctx) (meanwhile : Meanwhile) (m : Manager)
    → m.state ≡ LifecycleState.configuring
    → InitEnd ctx m (init_modules ctx meanwhile m)
unfolding init_modules
init_modules-InitEnd ctx meanwhile m open_state =
    by_order (sort_modules m.modules m.module_order) refl
  where
    by_order :
        (r : Sorted)
        → sort_modules m.modules m.module_order ≡ r
        → InitEnd ctx m (init_modules ctx meanwhile m)
    by_order (sorted mds) e =
        simp (open_state, e, init_modules) (init_sorted-end ctx meanwhile m mds e)
    by_order (failed x) e =
        simp (open_state, e, init_modules)
          (let u =
              finalize_failure-IsUndone ctx meanwhile x StopPhase.init_rollback [] true
                (record m { state = LifecycleState.initializing; ordered_mods = [] }) in
            InitEnd.unsorted x u.more e u.errs u.state u.ordered_mods u.calls)
    by_order no_fuel e = absurd (sort_modules-ne-no_fuel m.modules m.module_order e)
