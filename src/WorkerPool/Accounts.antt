-- ===== src/WorkerPool/Accounts.antt =====
-- What the worker pool keeps, whatever its goroutines do and in whatever order
-- (workerpool/workerpool.go).
use modulex.Prelude.{
  ℕ, ◌+◌, ◌*◌, ◌≤◌, ◌<◌, ◌≡◌, refl, ◌≢◌, ◌⊎◌, inl, inr, Bool, true, false, none, some, arith, ltb,
  nat_eq, Bool-cases, Option-cases,
}
use modulex.WorkerPool.{
  ℤ, Shutdown, Processor, started, made, new_processor, is_closed, tasks_closed, Action, step,
}

-- The accounts of a pool, as equations and bounds between its counts.
pub record IsBalanced (p : Processor) : Type 0 where
  pub in_flight : p.in_flight ≡ p.trying + p.sent + p.leaving
  pub running : p.running ≡ p.executing
  pub staffed : 0 < p.workers
  pub all_workers :
      p.workers ≡ p.idle + p.received + p.executing + p.ended + p.counted + p.noted + p.exited
  pub all_tasks : p.accepted + p.sent ≡ p.queued + p.received + p.executing + p.ended + p.completed
  pub settling : p.completed ≡ p.counted + p.noted + p.settled
  pub failures : p.failed ≤ p.noted + p.settled
  pub bounded : p.queued ≤ p.capacity
  pub no_sender : tasks_closed p.shutdown ≡ true → p.in_flight ≡ 0
  pub exits : 0 < p.exited → (tasks_closed p.shutdown ≡ true) × (p.queued ≡ 0)
  pub gone : p.shutdown ≡ Shutdown.drained → p.exited ≡ p.workers
  pub safe : p.sent_on_closed ≡ false

started-IsBalanced : (workers capacity : ℕ) → 0 < workers → IsBalanced (started workers capacity)
started-IsBalanced workers capacity some_worker = record {
  staffed = some_worker;
  in_flight = refl;
  running = refl;
  all_workers = omega arith;
  all_tasks = refl;
  settling = refl;
  failures = omega arith;
  bounded = omega arith;
  no_sender = λ h. refl;
  exits = λ h. absurd (omega (arith, h));
  gone = λ h. cc;
  safe = refl;
}

step-IsBalanced : (a : Action) (p q : Processor) → IsBalanced p → step a p ≡ some q → IsBalanced q
unfolding step
step-IsBalanced (Action.submit is_nil ctx) p q b h = ground (arith, b)
step-IsBalanced Action.send p q b h = ground (arith, b)
step-IsBalanced Action.hand_over p q b h = ground (arith, b)
step-IsBalanced Action.give_up p q b h = ground (arith, b)
step-IsBalanced Action.turn_away p q b h = ground (arith, b)
step-IsBalanced Action.accept p q b h = ground (arith, b)
step-IsBalanced Action.close p q b h = ground (arith, b)
step-IsBalanced Action.close_tasks p q b h = ground (arith, b)
step-IsBalanced Action.close_done p q b h = ground (arith, b)
step-IsBalanced Action.receive p q b h = ground (arith, b)
step-IsBalanced Action.begin p q b h = ground (arith, b)
step-IsBalanced Action.end p q b h = ground (arith, b)
step-IsBalanced Action.count p q b h = ground (arith, b)
step-IsBalanced Action.leave p q b h = ground (arith, b)
step-IsBalanced (Action.note e) p q b h = ground (arith, b)
step-IsBalanced Action.settle p q b h = ground (arith, b)
step-IsBalanced Action.exit p q b h = ground (arith, b)

-- The states that a pool gets into.
pub data Reaches (p : Processor) : Processor → Type 0 where
  at_start : Reaches p p
  then_step : {q r : Processor} → (a : Action) → Reaches p q → step a q ≡ some r → Reaches p r

Reaches-IsBalanced_from : (p q : Processor) → IsBalanced p → Reaches p q → IsBalanced q
Reaches-IsBalanced_from p q b at_start = b
Reaches-IsBalanced_from p q b (then_step {q = r} a before e) =
    step-IsBalanced a r q (Reaches-IsBalanced_from p r b before) e

new_processor-IsBalanced : (n c : ℤ) (p : Processor) → new_processor n c ≡ made p → IsBalanced p
unfolding new_processor
new_processor-IsBalanced (ℤ.negsuc n) c p h = absurd (ground arith)
new_processor-IsBalanced (ℤ.pos n) (ℤ.negsuc c) p h = absurd (ground arith)
new_processor-IsBalanced (ℤ.pos n) (ℤ.pos c) p h = elim (Bool-cases (nat_eq n 0)) [
  | inl e ↦ absurd (ground arith)
  | inr e ↦ let b = started-IsBalanced n c (ground arith) in ground (arith, b)
]

-- However the goroutines of a pool that New returned interleave, its accounts are balanced: every
-- accepted task is queued, with a worker, or completed, no worker is lost, no more tasks wait than the
-- queue capacity, each completed task but those that a worker is about to report has its result set, a
-- failure is counted only for a task that has its result set or is about to, and no Submit ever sends on
-- the closed channel.
pub Reaches-IsBalanced :
    (n c : ℤ) (p q : Processor) → new_processor n c ≡ made p → Reaches p q → IsBalanced q
Reaches-IsBalanced n c p q h r = Reaches-IsBalanced_from p q (new_processor-IsBalanced n c p h) r

-- Nothing is left to do in the pool.
pub record IsDone (p : Processor) : Type 0 where
  pub all_completed : p.completed ≡ p.accepted
  pub all_settled : p.settled ≡ p.accepted
  pub none_queued : p.queued ≡ 0
  pub none_running : p.running ≡ 0
  pub none_in_flight : p.in_flight ≡ 0

-- When Close has returned nil, so the done channel of a pool that New returned is closed, every accepted
-- task is completed and has its result, and nothing is queued, running or about to be submitted.
pub drained-IsDone :
    (n c : ℤ) (p q : Processor)
    → new_processor n c ≡ made p
    → Reaches p q
    → q.shutdown ≡ Shutdown.drained
    → IsDone q
drained-IsDone n c p q h r d = let b = Reaches-IsBalanced n c p q h r in ground (arith, b)

-- The actions that the goroutines of the pool and of the Submit calls under way take by themselves.
abbrev pub is_own : Action → Bool
is_own (Action.submit is_nil ctx) = false
is_own Action.close = false
is_own _ = true

abbrev pub steps_left : Shutdown → ℕ
steps_left Shutdown.serving = 3
steps_left Shutdown.closing = 2
steps_left Shutdown.draining = 1
steps_left Shutdown.drained = 0

-- How much is left to do.
abbrev pub work : Processor → ℕ
work p =
    9 * p.trying
    + 2 * p.sent
    + p.leaving
    + 6 * p.queued
    + 6 * p.received
    + 5 * p.executing
    + 4 * p.ended
    + 3 * p.counted
    + 2 * p.noted
    + p.idle
    + steps_left p.shutdown

step-lt-work :
    (a : Action) (p q : Processor)
    → IsBalanced p
    → is_own a ≡ true
    → step a p ≡ some q
    → work q < work p
unfolding step
step-lt-work (Action.submit is_nil ctx) p q b own h = ground (arith, b)
step-lt-work Action.send p q b own h = ground (arith, b)
step-lt-work Action.hand_over p q b own h = ground (arith, b)
step-lt-work Action.give_up p q b own h = ground (arith, b)
step-lt-work Action.turn_away p q b own h = ground (arith, b)
step-lt-work Action.accept p q b own h = ground (arith, b)
step-lt-work Action.close p q b own h = ground (arith, b)
step-lt-work Action.close_tasks p q b own h = ground (arith, b)
step-lt-work Action.close_done p q b own h = ground (arith, b)
step-lt-work Action.receive p q b own h = ground (arith, b)
step-lt-work Action.begin p q b own h = ground (arith, b)
step-lt-work Action.end p q b own h = ground (arith, b)
step-lt-work Action.count p q b own h = ground (arith, b)
step-lt-work Action.leave p q b own h = ground (arith, b)
step-lt-work (Action.note e) p q b own h = ground (arith, b)
step-lt-work Action.settle p q b own h = ground (arith, b)
step-lt-work Action.exit p q b own h = ground (arith, b)

-- Some action of the pool itself is possible.
pub record CanMove (p : Processor) : Type 0 where
  pub action : Action
  pub own : is_own action ≡ true
  pub next : Processor
  pub moves : step action p ≡ some next

by_moving : (a : Action) (p : Processor) → is_own a ≡ true → step a p ≢ none → CanMove p
by_moving a p own can = elim (Option-cases (step a p)) [
  | inl e ↦ absurd (can e)
  | inr (q, e) ↦ record { action = a; own = own; next = q; moves = e }
]

CanMove-closing : (p : Processor) → IsBalanced p → p.shutdown ≡ Shutdown.closing → CanMove p
CanMove-closing p b h = elim (Bool-cases (ltb 0 p.trying)) [
  | inl e ↦ by_moving Action.turn_away p refl (λ no. unfold step in ground arith)
  | inr e ↦ elim (Bool-cases (ltb 0 p.sent)) [
    | inl e' ↦ by_moving Action.accept p refl (λ no. unfold step in ground arith)
    | inr e' ↦ elim (Bool-cases (ltb 0 p.leaving)) [
      | inl e2 ↦ by_moving Action.leave p refl (λ no. unfold step in ground arith)
      | inr e2 ↦ by_moving Action.close_tasks p refl (λ no. unfold step in ground (arith, b))
    ]
  ]
]

-- No worker holds a task that it has not counted.
CanMove-counted :
    (p : Processor)
    → IsBalanced p
    → p.shutdown ≡ Shutdown.draining
    → ltb 0 p.received ≡ false
    → ltb 0 p.executing ≡ false
    → ltb 0 p.ended ≡ false
    → ltb 0 p.counted ≡ false
    → CanMove p
CanMove-counted p b h e1 e2 e3 e4 = elim (Bool-cases (ltb 0 p.noted)) [
  | inl e ↦ by_moving Action.settle p refl (λ no. unfold step in ground arith)
  | inr e0 ↦ elim (Bool-cases (ltb 0 p.idle)) [
    | inr e5 ↦ by_moving Action.close_done p refl (λ no. unfold step in ground (arith, b))
    | inl e5 ↦ elim (Bool-cases (ltb 0 p.queued)) [
      | inl e ↦ by_moving Action.receive p refl (λ no. unfold step in ground arith)
      | inr e6 ↦ by_moving Action.exit p refl (λ no. unfold step in ground arith)
    ]
  ]
]

CanMove-draining : (p : Processor) → IsBalanced p → p.shutdown ≡ Shutdown.draining → CanMove p
CanMove-draining p b h = elim (Bool-cases (ltb 0 p.received)) [
  | inl e ↦ by_moving Action.begin p refl (λ no. unfold step in ground arith)
  | inr e1 ↦ elim (Bool-cases (ltb 0 p.executing)) [
    | inl e ↦ by_moving Action.end p refl (λ no. unfold step in ground arith)
    | inr e2 ↦ elim (Bool-cases (ltb 0 p.ended)) [
      | inl e ↦ by_moving Action.count p refl (λ no. unfold step in ground arith)
      | inr e3 ↦ elim (Bool-cases (ltb 0 p.counted)) [
        | inl e ↦ by_moving (Action.note none) p refl (λ no. unfold step in ground arith)
        | inr e4 ↦ CanMove-counted p b h e1 e2 e3 e4
      ]
    ]
  ]
]

CanMove-closed :
    (p : Processor)
    → IsBalanced p
    → is_closed p.shutdown ≡ true
    → p.shutdown ≢ Shutdown.drained
    → CanMove p
CanMove-closed p b h d = elim (which p.shutdown h) [
  | inl e ↦ CanMove-closing p b e
  | inr (inl e) ↦ CanMove-draining p b e
  | inr (inr e) ↦ absurd (d e)
]
  where
    which :
        (s : Shutdown)
        → is_closed s ≡ true
        → (s ≡ Shutdown.closing) ⊎ ((s ≡ Shutdown.draining) ⊎ (s ≡ Shutdown.drained))
    which Shutdown.serving h = cc
    which Shutdown.closing h = inl refl
    which Shutdown.draining h = inr (inl refl)
    which Shutdown.drained h = inr (inr refl)

-- Shutdown does not get stuck: once Close was called on a pool that New returned, and as long as its done
-- channel is not closed, the pool or a Submit call under way can take an action by itself, where a task
-- that runs is taken to return.
pub close_progress :
    (n c : ℤ) (p q : Processor)
    → new_processor n c ≡ made p
    → Reaches p q
    → is_closed q.shutdown ≡ true
    → q.shutdown ≢ Shutdown.drained
    → CanMove q
close_progress n c p q h r closed not_drained =
    CanMove-closed q (Reaches-IsBalanced n c p q h r) closed not_drained

-- Every action that the pool and the Submit calls under way take by themselves leaves less work to do,
-- so that without new calls of Submit and Close there are at most as many of them as there was work.
pub own_step-lt-work :
    (n c : ℤ) (p q r : Processor) (a : Action)
    → new_processor n c ≡ made p
    → Reaches p q
    → is_own a ≡ true
    → step a q ≡ some r
    → work r < work q
own_step-lt-work n c p q r a h reached own e =
    step-lt-work a q r (Reaches-IsBalanced n c p q h reached) own e
