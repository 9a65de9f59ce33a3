-- ===== src/WorkerPool.antt =====
-- The worker pool (workerpool/workerpool.go): New, Submit, Close, Stats, worker, runTask and Handle.
-- The goroutines that call Submit and those that work are alike, so the state counts how many stand at
-- each point of the code; one action is one operation on what they share, with the steps of the
-- goroutine's own around it. Two pairs of operations are one action, since no action in between could tell:
-- the refusal under the lock with `rejected.Add(1)`, and the receive on the closed channel with
-- `wg.Done()`. A counter is how often it was added to, and reads as that modulo 2 ^ 64.
pub mod Accounts
use modulex.Prelude.{
  ℕ, suc, ◌+◌, ◌-◌, String, Bool, true, false, ◌&&◌, ◌||◌, not, Option, none, some, if◌then◌else◌,
  ltb, leb, nat_eq,
}
use Prim.Native.Nat.{◌%◌, ◌^◌}
use modulex.Errors.{CtxErr}
use modulex.Tasks.{TaskEnd}

-- A Go int.
pub data ℤ : Type 0 where
  pos : ℕ → ℤ
  negsuc : ℕ → ℤ

-- What the calls return in place of a result.
pub data PoolError : Type 0 where
  err_closed nil_task : PoolError
  ctx_error : CtxErr → PoolError
  workers_not_positive negative_capacity : ℤ → PoolError
  task_error task_panic : String → PoolError

-- How far the shutdown sequence of Close is: not begun; `closing` closed; `tasks` closed; `done` closed.
pub data Shutdown : Type 0 where
  serving closing draining drained : Shutdown

-- workerpool.Processor. `trying` Submit calls are at their select, `sent` ones behind their send, and
-- `leaving` ones at the deferred `inFlight.Done()`;
-- the workers are at the receive (`idle`), at `running.Add(1)` (`received`), in the task (`executing`),
-- at `completed.Add(1)` (`ended`), at `failed.Add(1)`
-- or past it without an error (`counted`), at `setResult` (`noted`), or gone (`exited`). `settled` is the number of
-- handles with a result. `sent_on_closed` is the panic of a send on the closed channel.
pub record Processor : Type 0 where
  pub workers : ℕ
  pub capacity : ℕ
  pub queued : ℕ
  pub shutdown : Shutdown
  pub in_flight : ℕ
  pub trying : ℕ
  pub sent : ℕ
  pub leaving : ℕ
  pub idle : ℕ
  pub received : ℕ
  pub executing : ℕ
  pub ended : ℕ
  pub counted : ℕ
  pub noted : ℕ
  pub exited : ℕ
  pub settled : ℕ
  pub running : ℕ
  pub accepted : ℕ
  pub completed : ℕ
  pub failed : ℕ
  pub rejected : ℕ
  pub sent_on_closed : Bool

-- New, past its checks.
abbrev pub started : ℕ → ℕ → Processor
started workers capacity = record {
  workers = workers;
  capacity = capacity;
  queued = 0;
  shutdown = Shutdown.serving;
  in_flight = 0;
  trying = 0;
  sent = 0;
  leaving = 0;
  idle = workers;
  received = 0;
  executing = 0;
  ended = 0;
  counted = 0;
  noted = 0;
  exited = 0;
  settled = 0;
  running = 0;
  accepted = 0;
  completed = 0;
  failed = 0;
  rejected = 0;
  sent_on_closed = false;
}

pub data Made : Type 0 where
  made : Processor → Made
  not_made : PoolError → Made

unfoldable pub new_processor : ℤ → ℤ → Made
new_processor (ℤ.negsuc n) c = not_made (PoolError.workers_not_positive (ℤ.negsuc n))
new_processor (ℤ.pos n) (ℤ.negsuc c) =
    if nat_eq n 0
    then not_made (PoolError.workers_not_positive (ℤ.pos n))
    else not_made (PoolError.negative_capacity (ℤ.negsuc c))
new_processor (ℤ.pos n) (ℤ.pos c) =
    if nat_eq n 0 then not_made (PoolError.workers_not_positive (ℤ.pos n)) else made (started n c)

-- `p.closed`
abbrev pub is_closed : Shutdown → Bool
is_closed Shutdown.serving = false
is_closed _ = true

-- Whether the channel of tasks is closed.
abbrev pub tasks_closed : Shutdown → Bool
tasks_closed Shutdown.draining = true
tasks_closed Shutdown.drained = true
tasks_closed _ = false

-- The atomic operations: of Submit, with whether the task is nil and what its context says; of its
-- select, where a send either goes to the buffer or to a worker that waits; of Close; of the goroutine
-- that Close starts; and of a worker.
pub data Action : Type 0 where
  submit : Bool → Option CtxErr → Action
  send hand_over give_up turn_away accept leave : Action
  close close_tasks close_done : Action
  receive begin end count settle exit : Action
  note : Option PoolError → Action

abbrev pub when : Bool → Processor → Option Processor
when true p = some p
when false p = none

-- Submit up to its select, and what it returns if it ends there.
unfoldable pub enter_submit : Bool → Option CtxErr → Processor → Processor × Option PoolError
enter_submit is_nil ctx p = if is_nil then (p, some PoolError.nil_task) else elim ctx [
  | some c ↦ (p, some (PoolError.ctx_error c))
  | none ↦
      if is_closed p.shutdown
      then (record p { rejected = suc p.rejected }, some PoolError.err_closed)
      else (record p { in_flight = suc p.in_flight; trying = suc p.trying }, none)
]

-- `close(p.closing)` with `p.closed = true`, the first time.
abbrev pub begin_close : Shutdown → Shutdown
begin_close Shutdown.serving = Shutdown.closing
begin_close s = s

abbrev pub is_closing : Shutdown → Bool
is_closing Shutdown.closing = true
is_closing _ = false

abbrev pub is_draining : Shutdown → Bool
is_draining Shutdown.draining = true
is_draining _ = false

abbrev pub one_if_error : Option PoolError → ℕ
one_if_error none = 0
one_if_error (some e) = 1

-- The state after an action, `none` where no goroutine can take it.
unfoldable pub step : Action → Processor → Option Processor
unfolding enter_submit
step (Action.submit is_nil ctx) p = some (enter_submit is_nil ctx p).0
step Action.send p = when (ltb 0 p.trying && (tasks_closed p.shutdown || ltb p.queued p.capacity)) (
    if tasks_closed p.shutdown
    then record p { sent_on_closed = true }
    else record p { queued = suc p.queued; trying = p.trying - 1; sent = suc p.sent })
step Action.hand_over p =
    when (ltb 0 p.trying && not (tasks_closed p.shutdown) && nat_eq p.queued 0 && ltb 0 p.idle)
      (record p {
        trying = p.trying - 1;
        sent = suc p.sent;
        idle = p.idle - 1;
        received = suc p.received;
      })
step Action.give_up p =
    when (ltb 0 p.trying)
      (record p { trying = p.trying - 1; leaving = suc p.leaving; rejected = suc p.rejected })
step Action.turn_away p =
    when (ltb 0 p.trying && is_closed p.shutdown)
      (record p { trying = p.trying - 1; leaving = suc p.leaving; rejected = suc p.rejected })
step Action.accept p =
    when (ltb 0 p.sent)
      (record p { sent = p.sent - 1; leaving = suc p.leaving; accepted = suc p.accepted })
step Action.leave p =
    when (ltb 0 p.leaving) (record p { leaving = p.leaving - 1; in_flight = p.in_flight - 1 })
step Action.close p = some (record p { shutdown = begin_close p.shutdown })
step Action.close_tasks p =
    when (is_closing p.shutdown && nat_eq p.in_flight 0) (record p { shutdown = Shutdown.draining })
step Action.close_done p =
    when (is_draining p.shutdown && nat_eq p.exited p.workers)
      (record p { shutdown = Shutdown.drained })
step Action.receive p =
    when (ltb 0 p.idle && ltb 0 p.queued)
      (record p { idle = p.idle - 1; queued = p.queued - 1; received = suc p.received })
step Action.begin p =
    when (ltb 0 p.received)
      (record p { received = p.received - 1; executing = suc p.executing; running = suc p.running })
step Action.end p =
    when (ltb 0 p.executing)
      (record p { executing = p.executing - 1; ended = suc p.ended; running = p.running - 1 })
step Action.count p =
    when (ltb 0 p.ended)
      (record p { ended = p.ended - 1; counted = suc p.counted; completed = suc p.completed })
step (Action.note e) p =
    when (ltb 0 p.counted) (record p {
      counted = p.counted - 1;
      noted = suc p.noted;
      failed = p.failed + one_if_error e;
    })
step Action.settle p =
    when (ltb 0 p.noted)
      (record p { noted = p.noted - 1; idle = suc p.idle; settled = suc p.settled })
step Action.exit p =
    when (ltb 0 p.idle && nat_eq p.queued 0 && tasks_closed p.shutdown)
      (record p { idle = p.idle - 1; exited = suc p.exited })

-- runTask: what the task returned, or its panic.
abbrev pub run_task : TaskEnd → Option PoolError
run_task (TaskEnd.returned none) = none
run_task (TaskEnd.returned (some text)) = some (PoolError.task_error text)
run_task (TaskEnd.panicked value) = some (PoolError.task_panic value)

-- What the select at the end of Close may return, by a context: `some none` is nil, `none` while it
-- blocks. If both channels are ready Go takes either one; this is the choice of `done`.
abbrev pub close_result : Option CtxErr → Processor → Option (Option CtxErr)
close_result ctx p = elim p.shutdown [
  | drained ↦ some none
  | _ ↦ elim ctx [ none ↦ none | some c ↦ some (some c) ]
]

-- workerpool.Stats
pub record Stats : Type 0 where
  pub workers : ℕ
  pub queued : ℕ
  pub running : ℕ
  pub accepted : ℕ
  pub completed : ℕ
  pub failed : ℕ
  pub rejected : ℕ

-- The value of an `atomic.Uint64`.
abbrev pub uint64 : ℕ → ℕ
uint64 n = n % 2 ^ 64

-- Processor.Stats, were all its loads at one instant.
abbrev pub stats : Processor → Stats
stats p = record {
  workers = p.workers;
  queued = p.queued;
  running = p.running;
  accepted = uint64 p.accepted;
  completed = uint64 p.completed;
  failed = uint64 p.failed;
  rejected = uint64 p.rejected;
}

-- workerpool.Handle; `done` tells whether its channel is closed.
pub record Handle : Type 0 where
  pub done : Bool
  pub err : Option PoolError

abbrev pub new_handle : Handle
new_handle = record { done = false; err = none }

-- Handle.setResult
abbrev pub set_result : Option PoolError → Handle → Handle
set_result e h = record { done = true; err = e }

-- What Handle.Wait may return: `none` while it blocks. If the task is done and the context too, Go takes
-- either result; this is the choice of the task's.
abbrev pub wait_handle : Option CtxErr → Handle → Option (Option PoolError)
wait_handle ctx h =
    if h.done
    then some h.err
    else elim ctx [ none ↦ none | some c ↦ some (some (PoolError.ctx_error c)) ]
