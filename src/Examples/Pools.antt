-- ===== src/Examples/Pools.antt =====
-- The worker pool on test data (workerpool/workerpool.go): one worker, room for one task.
use modulex.Prelude.{◌≡◌, refl, ◌<◌, none, false}
use modulex.WorkerPool.{ℤ, Shutdown, Processor, Action, made, new_processor, started, step}
use modulex.WorkerPool.Accounts.{
  IsBalanced, Reaches, at_start, then_step, IsDone, CanMove, work, Reaches-IsBalanced,
  drained-IsDone, close_progress, own_step-lt-work,
}

abbrev small : Processor
small = started 1 1

small-made : new_processor (ℤ.pos 1) (ℤ.pos 1) ≡ made small
unfolding new_processor
small-made = refl

-- A task is submitted and taken, and Close is called.
abbrev closing_pool : Processor
closing_pool = record small {
  shutdown = Shutdown.closing;
  idle = 0;
  received = 1;
  in_flight = 1;
  sent = 1;
}

to_closing : Reaches small closing_pool
unfolding step
to_closing =
    then_step Action.close
      (then_step Action.hand_over (then_step (Action.submit false none) at_start refl) refl) refl

-- The task has run, and everything is closed.
abbrev closed_pool : Processor
closed_pool = record small {
  shutdown = Shutdown.drained;
  idle = 0;
  exited = 1;
  settled = 1;
  accepted = 1;
  completed = 1;
}

to_closed : Reaches small closed_pool
unfolding step
to_closed =
    then_step Action.close_done
      (then_step Action.exit
        (then_step Action.close_tasks
          (then_step Action.settle
            (then_step (Action.note none)
              (then_step Action.count
                (then_step Action.end
                  (then_step Action.begin
                    (then_step Action.leave (then_step Action.accept to_closing refl) refl) refl)
                  refl)
                refl)
              refl)
            refl)
          refl)
        refl)
      refl

Reaches-IsBalanced_example : IsBalanced closing_pool
Reaches-IsBalanced_example =
    Reaches-IsBalanced (ℤ.pos 1) (ℤ.pos 1) small closing_pool small-made to_closing

drained-IsDone_example : IsDone closed_pool
drained-IsDone_example =
    drained-IsDone (ℤ.pos 1) (ℤ.pos 1) small closed_pool small-made to_closed refl

close_progress_example : CanMove closing_pool
close_progress_example =
    close_progress (ℤ.pos 1) (ℤ.pos 1) small closing_pool small-made to_closing refl (λ h. cc)

-- The Submit call counts the accepted task.
abbrev accepting : Processor
accepting = record closing_pool { sent = 0; leaving = 1; accepted = 1 }

own_step-lt-work_example : work accepting < work closing_pool
unfolding step
own_step-lt-work_example =
    own_step-lt-work (ℤ.pos 1) (ℤ.pos 1) small closing_pool accepting Action.accept small-made
      to_closing refl refl
