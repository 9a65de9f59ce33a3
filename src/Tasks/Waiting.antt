-- ===== src/Tasks/Waiting.antt =====
-- What waitForTasks reports and leaves behind (modulex.go: waitForTasks, resetTaskCtx).
use modulex.Prelude.{
  ap, ◌≢◌, trim_space, false, ℕ, ◌+◌, String, ◌≡◌, refl, sym, ◌∙◌, inl, inr, true, none, some, List,
  [], ◌∷◌, ◌++◌, append_assoc, append-nil, if◌then◌else◌, arith, Assoc, lookup, remove, keys,
  Bool-cases, Option-cases,
}
use modulex.Errors.{Error}
use modulex.Module.{Func}
use modulex.Manager.{Manager}
use modulex.Manager.Frame.{SameLifecycle, SameLifecycle-refl, SameLifecycle-trans}
use modulex.Tasks.Invariant.{go-ok_iff}
use modulex.Tasks.{
  reset_task_ctx, drain, let_pass, handle, is_stopping_or_stopped, TaskEnd, Ctx, go, task_err,
  supervise_end, complete, complete_all, Meanwhile, cancel_tasks, wait_for_tasks, is_empty,
  timeout_err,
}

-- The error that one end adds to the record.
abbrev pub err_of_end : String → TaskEnd → List Error
err_of_end name end = elim (task_err name end) [
  | none ↦ []
  | some e ↦ Error.task_failed name e ∷ []
]

-- The errors of the ends that meet a running task, in their order.
abbrev pub errs_of_ends : Assoc ℕ → List (String × TaskEnd) → List Error
errs_of_ends tasks [] = []
errs_of_ends tasks ((name, end) ∷ ends) = elim (lookup name tasks) [
  | none ↦ errs_of_ends tasks ends
  | some h ↦ err_of_end name end ++ errs_of_ends (remove name tasks) ends
]

-- The tasks that are still running after the ends.
abbrev pub survivors : Assoc ℕ → List (String × TaskEnd) → Assoc ℕ
survivors tasks [] = tasks
survivors tasks ((name, end) ∷ ends) = elim (lookup name tasks) [
  | none ↦ survivors tasks ends
  | some h ↦ survivors (remove name tasks) ends
]

supervise_end-errs :
    (name : String) (h : ℕ) (end : TaskEnd) (m : Manager)
    → (supervise_end name h end m).task_errs ≡ m.task_errs ++ err_of_end name end
unfolding supervise_end
supervise_end-errs name h (TaskEnd.returned none) m = sym (append-nil m.task_errs)
supervise_end-errs name h (TaskEnd.returned (some text)) m = refl
supervise_end-errs name h (TaskEnd.panicked value) m = refl

complete_all-effect :
    (ends : List (String × TaskEnd)) (m : Manager)
    → ((complete_all ends m).task_errs ≡ m.task_errs ++ errs_of_ends m.tasks ends)
      × ((complete_all ends m).tasks ≡ survivors m.tasks ends)
unfolding complete_all supervise_end
complete_all-effect [] m = (sym (append-nil m.task_errs), refl)
complete_all-effect ((name, end) ∷ ends) m = elim (Option-cases (lookup name m.tasks)) [
  | inl e ↦ let rest = complete_all-effect ends m in (ground (arith, rest), ground (arith, rest))
  | inr (h, e) ↦
      let rest = complete_all-effect ends (supervise_end name h end m) in
      let first = supervise_end-errs name h end m in
      let assoc =
        append_assoc m.task_errs (err_of_end name end) (errs_of_ends (remove name m.tasks) ends) in
      (ground (arith, rest, first, assoc), ground (arith, rest))
]

-- What the wait is over with: the errors of the timeout, if the context is done by then.
abbrev pub late_errs : Ctx → Meanwhile → Manager → List Error
late_errs ctx meanwhile m =
    if is_empty m.tasks
    then []
    else timeout_err (ctx (m.clock + meanwhile.elapsed)) (keys (survivors m.tasks meanwhile.ends))

abbrev pub awaited_errs : Meanwhile → Manager → List Error
awaited_errs meanwhile m = if is_empty m.tasks then [] else errs_of_ends m.tasks meanwhile.ends

complete_all-clock :
    (ends : List (String × TaskEnd)) (m : Manager) → (complete_all ends m).clock ≡ m.clock
unfolding complete_all
complete_all-clock [] m = refl
complete_all-clock ((name, end) ∷ ends) m = complete_all-clock ends (complete name end m) ∙ same
  where
    same : (complete name end m).clock ≡ m.clock
    same = unfold complete supervise_end in ground arith

-- waitForTasks reports every task error exactly once: those recorded before it, in their order, then
-- those of the running tasks that end while it waits, then at most one timeout that names what still
-- runs. Nothing stays recorded.
pub wait_for_tasks-errs :
    (ctx : Ctx) (meanwhile : Meanwhile) (m : Manager)
    → ((wait_for_tasks ctx meanwhile m).1
        ≡ m.task_errs ++ (awaited_errs meanwhile m ++ late_errs ctx meanwhile m))
      × ((wait_for_tasks ctx meanwhile m).0.task_errs ≡ [])
unfolding wait_for_tasks
wait_for_tasks-errs ctx meanwhile m = elim (Bool-cases (is_empty m.tasks)) [
  | inl e ↦ rw e (refl, refl)
  | inr e ↦ rw e (
      let effect = complete_all-effect meanwhile.ends (cancel_tasks m) in
      let time = complete_all-clock meanwhile.ends (cancel_tasks m) in
      let assoc = append_assoc m.task_errs (errs_of_ends m.tasks meanwhile.ends) (
        timeout_err (ctx (m.clock + meanwhile.elapsed))
          (keys (survivors m.tasks meanwhile.ends))) in
      (ground (arith, effect, time, assoc), refl))
]

pub complete-SameLifecycle :
    (name : String) (end : TaskEnd) (m : Manager) → SameLifecycle m (complete name end m)
unfolding complete supervise_end
complete-SameLifecycle name end m = ground arith

complete_all-SameLifecycle :
    (ends : List (String × TaskEnd)) (m : Manager) → SameLifecycle m (complete_all ends m)
unfolding complete_all
complete_all-SameLifecycle [] m = SameLifecycle-refl m
complete_all-SameLifecycle ((name, end) ∷ ends) m =
    SameLifecycle-trans (complete-SameLifecycle name end m)
      (complete_all-SameLifecycle ends (complete name end m))

pub wait_for_tasks-SameLifecycle :
    (ctx : Ctx) (meanwhile : Meanwhile) (m : Manager)
    → SameLifecycle m (wait_for_tasks ctx meanwhile m).0
unfolding wait_for_tasks
wait_for_tasks-SameLifecycle ctx meanwhile m =
    let rest = complete_all-SameLifecycle meanwhile.ends (cancel_tasks m) in ground (arith, rest)

-- The task contexts of two managers agree.
pub record SameContexts (m m' : Manager) : Type 0 where
  pub current : m'.task_ctx ≡ m.task_ctx
  pub cancelled : m'.cancelled ≡ m.cancelled

complete_all-SameContexts :
    (ends : List (String × TaskEnd)) (m : Manager) → SameContexts m (complete_all ends m)
unfolding complete_all
complete_all-SameContexts [] m = record { current = refl; cancelled = refl }
complete_all-SameContexts ((name, end) ∷ ends) m =
    let rest = complete_all-SameContexts ends (complete name end m) in
    record {
      current = rest.current ∙ (first m).current;
      cancelled = rest.cancelled ∙ (first m).cancelled;
    }
  where
    first : (m : Manager) → SameContexts m (complete name end m)
    first m = unfold complete supervise_end in ground arith

-- While waitForTasks waits, whatever has ended so far, no task can be started.
pub go_refused_while_waiting :
    (raw : String) (fn : Func) (ends : List (String × TaskEnd)) (m : Manager)
    → (go raw fn (complete_all ends (cancel_tasks m))).0 ≡ complete_all ends (cancel_tasks m)
unfolding go
go_refused_while_waiting raw fn ends m =
    let same = complete_all-SameContexts ends (cancel_tasks m) in
    let off = cancelled_now m in ground (arith, same, off)
  where
    cancelled_now : (m : Manager) → (cancel_tasks m).cancelled (cancel_tasks m).task_ctx ≡ true
    cancelled_now m = unfold cancel_tasks in ground arith

reset_live : (m : Manager) → (reset_task_ctx m).cancelled (reset_task_ctx m).task_ctx ≡ false
unfolding reset_task_ctx
reset_live m = ground arith

wait_for_tasks-live :
    (ctx : Ctx) (meanwhile : Meanwhile) (m : Manager)
    → (wait_for_tasks ctx meanwhile m).0.cancelled (wait_for_tasks ctx meanwhile m).0.task_ctx
      ≡ false
unfolding wait_for_tasks drain
wait_for_tasks-live ctx meanwhile m = elim (Bool-cases (is_empty m.tasks)) [
  | inl e ↦ rw (e, wait_for_tasks) (reset_live (record (cancel_tasks m) { task_errs = [] }))
  | inr e ↦
      rw (e, wait_for_tasks)
        (reset_live (record (let_pass meanwhile (cancel_tasks m)) { task_errs = [] }))
]

-- Once waitForTasks has returned, the new task context is live: a manager that is neither stopping nor
-- stopped starts any task again whose trimmed name is not empty and which does not still run.
pub go_accepted_after_wait :
    (raw f : String) (ctx : Ctx) (meanwhile : Meanwhile) (m : Manager)
    → trim_space raw ≢ ""
    → is_stopping_or_stopped m.state ≡ false
    → lookup (trim_space raw) (wait_for_tasks ctx meanwhile m).0.tasks ≡ none
    → (go raw (some f) (wait_for_tasks ctx meanwhile m).0).1
      ≡ handle (wait_for_tasks ctx meanwhile m).0.next_handle
go_accepted_after_wait raw f ctx meanwhile m has open_state free =
    (go-ok_iff raw f (wait_for_tasks ctx meanwhile m).0).1 (record {
      has_name = has;
      going =
          ap is_stopping_or_stopped (wait_for_tasks-SameLifecycle ctx meanwhile m).state
          ∙ open_state;
      live = wait_for_tasks-live ctx meanwhile m;
      unused = free;
    })
