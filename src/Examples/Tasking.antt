-- ===== src/Examples/Tasking.antt =====
-- The supervised tasks on test data (modulex.go: Go, superviseTask, waitForTasks).
use modulex.Prelude.{◌≡◌, refl, none, some, [], ◌++◌, arith, trim_space}
use modulex.Errors.{LifecycleState}
use modulex.Module.{Prog}
use modulex.Manager.{Manager}
use modulex.Tasks.{TaskEnd, handle, go, complete, wait_for_tasks}
use modulex.Tasks.Invariant.{TasksInv, go-TasksInv, complete-TasksInv}
use modulex.Tasks.Waiting.{awaited_errs, late_errs, wait_for_tasks-errs, go_accepted_after_wait}
use modulex.Runtime.{run_prog}
use modulex.Runtime.Keeps.{run_prog-TasksInv}
use modulex.Examples.{quiet, ready, done, going, no_deadline, poll_fails}

-- The manager with one task.
abbrev pub polling : Manager
polling = (go "poll" (some "poll") going).0

abbrev stopped_manager : Manager
stopped_manager = record going { state = LifecycleState.stopped }

going-TasksInv : TasksInv going
going-TasksInv = record { running = λ n k e. cc; gone = λ k low. absurd (omega arith) }

pub polling-TasksInv : TasksInv polling
polling-TasksInv = go-TasksInv "poll" (some "poll") going going-TasksInv

go-TasksInv_example : TasksInv (go "poll" (some "poll") going).0
go-TasksInv_example = go-TasksInv "poll" (some "poll") going going-TasksInv

complete-TasksInv_example : TasksInv (complete "poll" (TaskEnd.panicked "boom") polling)
complete-TasksInv_example =
    complete-TasksInv "poll" (TaskEnd.panicked "boom") polling polling-TasksInv

-- The manager after its task ended.
abbrev ended : Manager
ended = complete "poll" (TaskEnd.returned none) polling

wait_for_tasks-errs_example :
    ((wait_for_tasks no_deadline poll_fails polling).1
      ≡ polling.task_errs
        ++ (awaited_errs poll_fails polling ++ late_errs no_deadline poll_fails polling))
    × ((wait_for_tasks no_deadline poll_fails polling).0.task_errs ≡ [])
wait_for_tasks-errs_example = wait_for_tasks-errs no_deadline poll_fails polling

abbrev spawning : Prog
spawning = Prog.spawn "late" (some "late") (λ e. Prog.sleep 2 done)

run_prog-TasksInv_example : TasksInv (run_prog spawning polling).0
run_prog-TasksInv_example = run_prog-TasksInv spawning polling polling-TasksInv

-- The manager in the rollback of a failed start.
abbrev rolling_back : Manager
rolling_back = record ready { state = LifecycleState.starting }

go_accepted_after_wait_example :
    (go "late" (some "late") (wait_for_tasks no_deadline quiet rolling_back).0).1
    ≡ handle (wait_for_tasks no_deadline quiet rolling_back).0.next_handle
unfolding wait_for_tasks trim_space
go_accepted_after_wait_example =
    go_accepted_after_wait "late" "late" no_deadline quiet rolling_back (λ h. cc) refl refl
