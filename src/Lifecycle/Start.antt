-- ===== src/Lifecycle/Start.antt =====
-- StartModules on every branch (modulex.go: StartModules).
use modulex.Prelude.{
  ◌≡◌, refl, sym, ◌∙◌, ap, subst, true, false, none, some, List, [], ◌∷◌, ◌++◌, append_assoc,
  append-nil, take, zero, ◌+◌, length, length-append, arith, ◌-◌,
}
use mathlib.Core.List.{reverse}
use modulex.Errors.{LifecycleState, Action, StopPhase, Error}
use modulex.Module.{Module}
use modulex.Manager.{Manager, Call, set_state}
use modulex.Tasks.{Ctx, Meanwhile}
use modulex.Runtime.{start_module}
use modulex.Lifecycle.{
  PhaseResult, run_phase, finalize_failure, stop_count, start_phase, start_modules,
}
use modulex.Lifecycle.Calls.{Logs, each, start_call, stop_call, start_module-Logs}
use modulex.Lifecycle.Phase.{AllRan, Cause, PhaseEnd, PhaseLog, run_phase-log, take-length-append}
use modulex.Lifecycle.Failure.{finalize_failure-IsUndone}

-- The two ends of StartModules, from the manager `m` it was called on.
pub data StartEnd (ctx : Ctx) (m : Manager) (out : Manager × List Error) : Type 0 where
  running :
      (m' : Manager)
      → AllRan ctx start_module m.ordered_mods (record m { state = LifecycleState.starting }) m'
      → out.1 ≡ []
      → out.0.state ≡ LifecycleState.running
      → out.0.ordered_mods ≡ m.ordered_mods
      → out.0.calls ≡ m.calls ++ each start_call m.ordered_mods
      → StartEnd ctx m out
  -- `done` were started; `tried` is the module whose Start returned the error, or nothing if the
  -- context was done before the next one. Only these are stopped, and not `rest`.
  undone :
      (done tried rest : List Module) (e : Error) (more : List Error)
      → m.ordered_mods ≡ (done ++ tried) ++ rest
      → Cause Action.start ctx start_module
          (record m { state = LifecycleState.starting })
          done
          tried
          e
      → out.1 ≡ e ∷ more
      → out.0.state ≡ LifecycleState.stopped
      → out.0.calls
        ≡ m.calls
          ++ (each start_call (done ++ tried)
              ++ (each stop_call (reverse (done ++ tried)) ++ Call.bus_closed ∷ []))
      → StartEnd ctx m out

module _ (ctx : Ctx) (meanwhile : Meanwhile) (m : Manager) where
  abbrev begun : Manager
  begun = record m { state = LifecycleState.starting }

  abbrev ran : Manager × PhaseResult
  ran = run_phase Action.start ctx start_module m.ordered_mods zero [] begun

  abbrev timed : Manager
  timed = record (ran.0) { start_total = ran.0.clock - begun.clock; start_timings = ran.1.timings }

  start_phase-done :
      ran.1.error ≡ none
      → start_phase ctx meanwhile begun ≡ (set_state LifecycleState.running timed, [])
  unfolding start_phase
  start_phase-done e = rw (e, start_phase)

  start_phase-failed :
      (e : Error)
      → ran.1.error ≡ some e
      → start_phase ctx meanwhile begun
        ≡ finalize_failure ctx meanwhile e StopPhase.start_rollback
            (take (stop_count ran.1 m.ordered_mods) m.ordered_mods)
            false
            timed
  unfolding start_phase
  start_phase-failed e h = rw (h, start_phase)

  undone_of :
      (done tried rest : List Module) (cs : List Call) (e : Error)
      → m.ordered_mods ≡ (done ++ tried) ++ rest
      → Cause Action.start ctx start_module begun done tried e
      → ran.1.error ≡ some e
      → stop_count ran.1 m.ordered_mods ≡ length (done ++ tried)
      → Logs begun ran.0 cs
      → cs ≡ each start_call (done ++ tried)
      → StartEnd ctx m (start_phase ctx meanwhile begun)
  undone_of done tried rest cs e split short h c logs made =
      let prefix : take (stop_count ran.1 m.ordered_mods) m.ordered_mods ≡ done ++ tried =
        ap (λ n. take n m.ordered_mods) c
        ∙ ap (λ l. take (length (done ++ tried)) l) split
        ∙ take-length-append (done ++ tried) rest in
      let stops = each stop_call (reverse (done ++ tried)) ++ Call.bus_closed ∷ [] in
      subst (StartEnd ctx m) (sym (start_phase-failed e h)) (
        subst
          (λ l.
            StartEnd ctx m
              (finalize_failure ctx meanwhile e StopPhase.start_rollback l false timed))
          (sym prefix)
          (let u =
              finalize_failure-IsUndone ctx meanwhile e StopPhase.start_rollback (done ++ tried)
                false timed in
            StartEnd.undone done tried rest e u.more split short u.errs u.state (
              u.calls
              ∙ ap (λ l. l ++ stops) (logs.calls ∙ ap (λ l. m.calls ++ l) made)
              ∙ append_assoc m.calls (each start_call (done ++ tried)) stops)))

  each-snoc :
      (done : List Module) (at : Module)
      → each start_call done ++ start_call at ≡ each start_call (done ++ at ∷ [])
  each-snoc [] at = sym (append-nil (start_call at))
  each-snoc (x ∷ done) at =
      append_assoc (start_call x) (each start_call done) (start_call at)
      ∙ ap (λ l. start_call x ++ l) (each-snoc done at)

  -- The module whose Start failed is stopped too.
  stop_count-attempted :
      (done : List Module) (at : Module) (rest : List Module)
      → m.ordered_mods ≡ done ++ at ∷ rest
      → ran.1.attempted ≡ true
      → ran.1.count ≡ zero + length done
      → stop_count ran.1 m.ordered_mods ≡ length (done ++ at ∷ [])
  stop_count-attempted done at rest split a c =
      let l1 = length-append done (at ∷ rest) in
      let l2 = length-append done (at ∷ []) in
      let l3 = ap (λ (l : List Module). length l) split in ground (arith, l1, l2, l3)

  stop_count-cancelled :
      (done : List Module)
      → ran.1.attempted ≡ false
      → ran.1.count ≡ zero + length done
      → stop_count ran.1 m.ordered_mods ≡ length (done ++ [])
  stop_count-cancelled done a c = let l = length-append {A = Module} done [] in ground (arith, l)

  start_phase-end : StartEnd ctx m (start_phase ctx meanwhile begun)
  start_phase-end = by_end log.end
    where
      log : PhaseLog Action.start ctx start_module start_call m.ordered_mods zero begun ran
      log =
          run_phase-log Action.start ctx start_module start_call start_module-Logs m.ordered_mods
            zero [] begun

      by_end :
          PhaseEnd Action.start ctx start_module begun start_call m.ordered_mods zero ran.1
            log.calls
          → StartEnd ctx m (start_phase ctx meanwhile begun)
      by_end (PhaseEnd.finished m' all e a c d) =
          subst (StartEnd ctx m) (sym (start_phase-done e)) (
            unfold set_state in
            StartEnd.running m' all refl refl log.logs.ordered_mods
              (log.logs.calls ∙ ap (λ l. m.calls ++ l) d))
      by_end (PhaseEnd.cancelled done rest e split why h a c d) =
          undone_of done [] rest log.calls e (split ∙ ap (λ l. l ++ rest) (sym (append-nil done)))
            why h (stop_count-cancelled done a c) log.logs
            (d ∙ ap (λ l. each start_call l) (sym (append-nil done)))
      by_end (PhaseEnd.broke done at rest e split why h a c d) =
          undone_of done (at ∷ []) rest log.calls e (split ∙ sym (append_assoc done (at ∷ []) rest))
            why h (stop_count-attempted done at rest split a c) log.logs (d ∙ each-snoc done at)

-- StartModules on an initialized manager ends in one of two ways. Either Start is called on every
-- sorted module that has one, in that order, each with the context not done before and without an error,
-- and the manager runs; or the Start of a module returns an error or the context is done before the next
-- module, that is the error returned first, and the modules started so far with the failing one, and only those, are stopped in
-- reverse order, the bus is closed, and the manager is stopped: a module behind the failing one gets
-- no Stop, though it was initialized. The error is empty exactly in the first case.
pub start_modules-StartEnd :
    (ctx : Ctx) (meanwhile : Meanwhile) (m : Manager)
    → m.state ≡ LifecycleState.initialized
    → StartEnd ctx m (start_modules ctx meanwhile m)
unfolding start_modules set_state
start_modules-StartEnd ctx meanwhile m ready =
    simp (ready, start_modules) (start_phase-end ctx meanwhile m)
