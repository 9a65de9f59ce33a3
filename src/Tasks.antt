-- ===== src/Tasks.antt =====
-- Supervised background tasks (modulex.go: TaskHandle, Go, superviseTask, waitForTasks,
-- resetTaskCtx). Each function is one critical section of the Go code: `go` holds stateMu and taskMu,
-- `complete` is the deferred function that ends a task's goroutine, and the wait is a cancellation,
-- the completions of other goroutines, and a drain.
pub mod Invariant
pub mod Waiting
use modulex.Prelude.{
  ℕ, suc, ◌+◌, String, Bool, true, false, Option, none, some, List, [], ◌∷◌, ◌++◌, ◌==◌,
  if◌then◌else◌, nat_eq, snoc, lookup, insert, remove, keys, trim_space, sort_strings,
}
use modulex.Errors.{LifecycleState, Error, Sentinel, CtxErr}
use modulex.Module.{Func}
use modulex.Manager.{DoneChan, no_chan, open_chan, closed_chan, TaskHandle, Manager}

-- How the function of a task ended: it returned an error or nil, or it panicked.
pub data TaskEnd : Type 0 where
  returned : Option String → TaskEnd
  panicked : String → TaskEnd

-- A context: what `ctx.Err()` is at each instant.
abbrev pub Ctx : Type 0
Ctx = ℕ → Option CtxErr

abbrev pub set_at {ℓ} : {A : Type ℓ} → (ℕ → A) → ℕ → A → ℕ → A
set_at f k v j = if nat_eq k j then v else f j

abbrev pub is_stopping_or_stopped : LifecycleState → Bool
is_stopping_or_stopped LifecycleState.stopping = true
is_stopping_or_stopped LifecycleState.stopped = true
is_stopping_or_stopped _ = false

-- The handle that Go hands out, with the goroutine that it starts registered under `name`.
abbrev start_task : String → Manager → Manager
start_task name m = record m {
  tasks = insert name m.next_handle m.tasks;
  handles =
      set_at m.handles m.next_handle
        (record { name = name; done = DoneChan.open_chan; err = none });
  next_handle = suc m.next_handle;
}

pub data Spawned : Type 0 where
  handle : ℕ → Spawned
  rejected : Error → Spawned

-- Manager.Go
unfoldable pub go : String → Func → Manager → Manager × Spawned
go raw fn m =
    let name = trim_space raw in
    if name == "" then (m, rejected (Error.plain Sentinel.invalid_task_name)) else elim fn [
      | none ↦ (m, rejected Error.task_fn_nil)
      | some f ↦
          if is_stopping_or_stopped m.state
          then (m, rejected (Error.task_in_state name m.state))
          else if m.cancelled m.task_ctx
          then (m, rejected (Error.task_shutting_down name))
          else elim (lookup name m.tasks) [
            | some old ↦ (m, rejected (Error.named Sentinel.duplicate_task name))
            | none ↦ (start_task name m, handle m.next_handle)
          ]
    ]

-- `taskErr` at the end of superviseTask.
abbrev pub task_err : String → TaskEnd → Option Error
task_err name (TaskEnd.returned none) = none
task_err name (TaskEnd.returned (some text)) = some (Error.foreign text)
task_err name (TaskEnd.panicked value) = some (Error.task_panicked name value)

abbrev pub record_err : String → Option Error → List Error → List Error
record_err name none errs = errs
record_err name (some e) errs = snoc errs (Error.task_failed name e)

-- What re-panicking does to the process, under PanicPolicyPropagate.
abbrev pub crash_of : ℕ → TaskEnd → Option String → Option String
crash_of policy (TaskEnd.returned r) old = old
crash_of policy (TaskEnd.panicked value) old = if nat_eq policy 1 then some value else old

-- TaskHandle.finish
unfoldable pub finish : ℕ → Option Error → (ℕ → TaskHandle) → ℕ → TaskHandle
finish h e handles = set_at handles h (record (handles h) { err = e; done = DoneChan.closed_chan })

-- The end of superviseTask for the task with handle `h` and this name.
unfoldable pub supervise_end : String → ℕ → TaskEnd → Manager → Manager
unfolding finish
supervise_end name h end m =
    let e = task_err name end in
    record m {
      task_errs = record_err name e m.task_errs;
      tasks = remove name m.tasks;
      handles = finish h e m.handles;
      crashed = crash_of m.panic_policy end m.crashed;
    }

-- A goroutine ends: the task of that name, if one is running.
unfoldable pub complete : String → TaskEnd → Manager → Manager
unfolding supervise_end
complete name end m = elim (lookup name m.tasks) [ none ↦ m | some h ↦ supervise_end name h end m ]

-- TaskHandle.Done; a handle with no channel is never done.
abbrev pub is_done : TaskHandle → Bool
is_done t = elim t.done [ closed_chan ↦ true | _ ↦ false ]

-- TaskHandle.Wait, once it returns: `none` while it still blocks.
abbrev pub wait : TaskHandle → Option (Option Error)
wait t = elim t.done [
  | no_chan ↦ some (some (Error.plain Sentinel.task_handle_not_started))
  | open_chan ↦ none
  | closed_chan ↦ some t.err
]

-- What other goroutines and the clock do while waitForTasks waits.
pub record Meanwhile : Type 0 where
  pub ends : List (String × TaskEnd)
  pub elapsed : ℕ

unfoldable pub complete_all : List (String × TaskEnd) → Manager → Manager
unfolding complete
complete_all [] m = m
complete_all ((name, end) ∷ ends) m = complete_all ends (complete name end m)

unfoldable pub cancel_tasks : Manager → Manager
cancel_tasks m = record m { cancelled = set_at m.cancelled m.task_ctx true }

-- resetTaskCtx
unfoldable pub reset_task_ctx : Manager → Manager
reset_task_ctx m = record m {
  task_ctx = suc m.task_ctx;
  cancelled = set_at m.cancelled (suc m.task_ctx) false;
}

abbrev pub timeout_err : Option CtxErr → List String → List Error
timeout_err none pending = []
timeout_err (some c) pending = Error.wait_timed_out c (sort_strings pending) ∷ []

-- The drain after the wait, or at once if there was no task to wait for.
unfoldable pub drain : Ctx → Manager → Manager × List Error
unfolding reset_task_ctx
drain ctx m = (
  reset_task_ctx (record m { task_errs = [] }),
  m.task_errs ++ timeout_err (ctx m.clock) (keys m.tasks),
)

abbrev no_timeout : Ctx
no_timeout now = none

abbrev pub is_empty {ℓ} : {A : Type ℓ} → List A → Bool
is_empty [] = true
is_empty (x ∷ xs) = false

-- What happens until the wait for at least one task returns.
unfoldable pub let_pass : Meanwhile → Manager → Manager
unfolding complete_all
let_pass meanwhile m =
    let waited = complete_all meanwhile.ends m in
    record waited { clock = waited.clock + meanwhile.elapsed }

-- waitForTasks
unfoldable pub wait_for_tasks : Ctx → Meanwhile → Manager → Manager × List Error
unfolding cancel_tasks let_pass drain
wait_for_tasks ctx meanwhile m =
    if is_empty m.tasks
    then drain no_timeout (cancel_tasks m)
    else drain ctx (let_pass meanwhile (cancel_tasks m))
