-- ===== src/Tasks/Invariant.antt =====
-- The bookkeeping of supervised tasks (modulex.go: Go, superviseTask, waitForTasks): a task that is
-- gone from the manager's map is done, and one that is in it is not.
use modulex.Prelude.{
  Assoc, ℕ, ◌<◌, String, ◌≡◌, refl, sym, ◌∙◌, subst, ◌≢◌, ◌⊎◌, ◌↔◌, inl, inr, true, false, none,
  some, List, [], ◌∷◌, nat_eq, arith, lookup, lookup-insert, lookup-remove, Bool-cases,
  Option-cases, String-cases, test_self, test_of_ne, trim_space,
}
use text.Mathlib.TextEquality.{eq_iff}
use modulex.Errors.{Error}
use modulex.Module.{Func}
use modulex.Manager.{DoneChan, TaskHandle, Manager}
use modulex.Tasks.{
  TaskEnd, Ctx, set_at, start_task, Spawned, handle, rejected, go, finish, supervise_end, complete,
  complete_all, is_done, Meanwhile, is_stopping_or_stopped, is_empty, wait, cancel_tasks,
  wait_for_tasks,
}

set_at_self {ℓ} : {A : Type ℓ} (f : ℕ → A) (k : ℕ) (v : A) → set_at f k v k ≡ v
set_at_self f k v = rw (eq_self k)
  where
    eq_self : (k : ℕ) → nat_eq k k ≡ true
    eq_self k = ground arith

set_at_ne {ℓ} : {A : Type ℓ} (f : ℕ → A) (k j : ℕ) (v : A) → k ≢ j → set_at f k v j ≡ f j
set_at_ne f k j v d = rw (eq_ne k j d)
  where
    eq_ne : (k j : ℕ) → k ≢ j → nat_eq k j ≡ false
    eq_ne k j d = ground arith

ℕ-cases : (a b : ℕ) → (a ≡ b) ⊎ (a ≢ b)
ℕ-cases a b = elim (Bool-cases (nat_eq a b)) [
  | inl e ↦ inl (ground arith)
  | inr e ↦ inr (λ same. ground arith)
]

-- The handle `h` is that of the running task `name`.
pub record IsRunning (handles : ℕ → TaskHandle) (next : ℕ) (name : String) (h : ℕ) : Type 0 where
  pub spawned : h < next
  pub not_done : (handles h).done ≡ DoneChan.open_chan
  pub named : (handles h).name ≡ name

-- Every task in the map has a handle of its name that is not done, and every handle that was handed
-- out is done or is in the map.
pub record Book (tasks : Assoc ℕ) (handles : ℕ → TaskHandle) (next : ℕ) : Type 0 where
  pub running : (name : String) (h : ℕ) → lookup name tasks ≡ some h → IsRunning handles next name h
  pub gone :
      (h : ℕ)
      → h < next
      → ((handles h).done ≡ DoneChan.closed_chan) ⊎ (lookup (handles h).name tasks ≡ some h)

abbrev pub TasksInv : Manager → Type 0
TasksInv m = Book m.tasks m.handles m.next_handle

some_inj {ℓ} : {A : Type ℓ} {a b : A} → some a ≡ some b → a ≡ b
some_inj h = cc

start_task-TasksInv :
    (name : String) (m : Manager)
    → lookup name m.tasks ≡ none
    → TasksInv m
    → TasksInv (start_task name m)
start_task-TasksInv name m new i = record {
  running = λ n h e. elim (String-cases name n) [
    | inl same ↦
        let at : m.next_handle ≡ h =
          some_inj (sym (rw (← same, lookup-insert, test_self name)) ∙ e) in
        record {
          spawned = omega arith;
          not_done = rw (← at, set_at_self m.handles m.next_handle);
          named = rw (← at, set_at_self m.handles m.next_handle) same;
        }
    | inr d ↦
        let r : IsRunning m.handles m.next_handle n h =
          i.running n h (sym (rw (lookup-insert, test_of_ne name n d)) ∙ e) in
        let other : m.next_handle ≢ h = omega (arith, r.spawned) in
        record {
          spawned = omega (arith, r.spawned);
          not_done = rw (set_at_ne m.handles m.next_handle h _ other) r.not_done;
          named = rw (set_at_ne m.handles m.next_handle h _ other) r.named;
        }
  ];
  gone = λ h low. elim (ℕ-cases m.next_handle h) [
    | inl at ↦
        inr (rw (← at, set_at_self m.handles m.next_handle, lookup-insert) (rw (test_self name)))
    | inr d ↦ rw (set_at_ne m.handles m.next_handle h _ d) (elim (i.gone h (omega arith)) [
      | inl c ↦ inl c
      | inr e ↦ inr (rw (lookup-insert, test_of_ne name _ (λ same. unused h same e)) e)
    ])
  ];
}
  where
    unused : (h : ℕ) → name ≡ (m.handles h).name → lookup (m.handles h).name m.tasks ≢ some h
    unused h same e = let e' = subst (λ n. lookup n m.tasks ≡ none) same new in cc

supervise_end-TasksInv :
    (name : String) (h : ℕ) (end : TaskEnd) (m : Manager)
    → lookup name m.tasks ≡ some h
    → TasksInv m
    → TasksInv (supervise_end name h end m)
unfolding supervise_end finish
supervise_end-TasksInv name h end m at i = record {
  running = λ n k e. elim (String-cases name n) [
    | inl same ↦ let e' : none ≡ some k = sym (rw (← same, lookup-remove, test_self name)) ∙ e in cc
    | inr d ↦
        let old : lookup n m.tasks ≡ some k = sym (rw (lookup-remove, test_of_ne name n d)) ∙ e in
        let r : IsRunning m.handles m.next_handle n k = i.running n k old in
        let other : h ≢ k = distinct n k d old in
        record {
          spawned = r.spawned;
          not_done = rw (set_at_ne m.handles h k _ other) r.not_done;
          named = rw (set_at_ne m.handles h k _ other) r.named;
        }
  ];
  gone = λ k low. elim (ℕ-cases h k) [
    | inl same ↦ inl (rw (← same, set_at_self m.handles h))
    | inr d ↦ rw (set_at_ne m.handles h k _ d) (elim (i.gone k low) [
      | inl c ↦ inl c
      | inr e ↦ inr (rw (lookup-remove, test_of_ne name _ (λ same. clash k d same e)) e)
    ])
  ];
}
  where
    mine : (m.handles h).name ≡ name
    mine = (i.running name h at).named

    distinct : (n : String) (k : ℕ) → name ≢ n → lookup n m.tasks ≡ some k → h ≢ k
    distinct n k d old same =
        d (sym mine ∙ subst (λ j. (m.handles j).name ≡ n) (sym same) (i.running n k old).named)

    clash : (k : ℕ) → h ≢ k → name ≡ (m.handles k).name → lookup (m.handles k).name m.tasks ≢ some k
    clash k d same e = d (some_inj (sym at ∙ subst (λ n. lookup n m.tasks ≡ some k) (sym same) e))

-- Whatever ends, the bookkeeping holds.
pub complete-TasksInv :
    (name : String) (end : TaskEnd) (m : Manager) → TasksInv m → TasksInv (complete name end m)
unfolding complete
complete-TasksInv name end m i = elim (Option-cases (lookup name m.tasks)) [
  | inl e ↦ rw (e, complete) i
  | inr (h, e) ↦ rw (e, complete) (supervise_end-TasksInv name h end m e i)
]

pub complete_all-TasksInv :
    (ends : List (String × TaskEnd)) (m : Manager) → TasksInv m → TasksInv (complete_all ends m)
unfolding complete_all
complete_all-TasksInv [] m i = i
complete_all-TasksInv ((name, end) ∷ ends) m i =
    complete_all-TasksInv ends (complete name end m) (complete-TasksInv name end m i)

-- A task can be started under this name.
pub record IsSpawnable (m : Manager) (raw : String) : Type 0 where
  pub has_name : trim_space raw ≢ ""
  pub going : is_stopping_or_stopped m.state ≡ false
  pub live : m.cancelled m.task_ctx ≡ false
  pub unused : lookup (trim_space raw) m.tasks ≡ none

started_of_handle :
    (raw : String) (fn : Func) (m : Manager) {h : ℕ}
    → (go raw fn m).1 ≡ handle h
    → (go raw fn m ≡ (start_task (trim_space raw) m, handle m.next_handle)) × IsSpawnable m raw
unfolding go
started_of_handle raw fn m e = (
  ground arith,
  record {
    has_name = λ k. ground (arith, eq_iff (trim_space raw) "");
    going = ground arith;
    live = ground arith;
    unused = ground arith;
  },
)

-- A refused task leaves the manager as it was.
pub go_rejected_unchanged :
    (raw : String) (fn : Func) (m : Manager) {e : Error}
    → (go raw fn m).1 ≡ rejected e
    → (go raw fn m).0 ≡ m
unfolding go
go_rejected_unchanged raw fn m h = ground arith

handle_of_spawnable :
    (raw f : String) (m : Manager)
    → IsSpawnable m raw
    → (go raw (some f) m).1 ≡ handle m.next_handle
unfolding go
handle_of_spawnable raw f m s =
    rw (test_of_ne (trim_space raw) "" s.has_name) (rw (s.going, s.live, s.unused) refl)

-- Go starts a task of a non-nil function exactly when its trimmed name is not empty, the manager is
-- neither stopping nor stopped, the current task context is not cancelled, and no running task has
-- that name; the handle is then the next one.
pub go-ok_iff :
    (raw f : String) (m : Manager)
    → ((go raw (some f) m).1 ≡ handle m.next_handle) ↔ IsSpawnable m raw
go-ok_iff raw f m = (λ h. (started_of_handle raw (some f) m h).1, handle_of_spawnable raw f m)

-- Starting a task, or refusing to, keeps the bookkeeping.
pub go-TasksInv : (raw : String) (fn : Func) (m : Manager) → TasksInv m → TasksInv (go raw fn m).0
go-TasksInv raw fn m i = by_answer (go raw fn m).1 refl
  where
    by_answer : (a : Spawned) → (go raw fn m).1 ≡ a → TasksInv (go raw fn m).0
    by_answer (rejected x) e = subst TasksInv (sym (go_rejected_unchanged raw fn m e)) i
    by_answer (handle h) e =
        let (same, s) = started_of_handle raw fn m e in
        subst (λ (r : Manager × Spawned). TasksInv r.0) (sym same)
          (start_task-TasksInv (trim_space raw) m s.unused i)

-- Waiting for the tasks keeps the bookkeeping, whatever ends meanwhile.
pub wait_for_tasks-TasksInv :
    (ctx : Ctx) (meanwhile : Meanwhile) (m : Manager)
    → TasksInv m
    → TasksInv (wait_for_tasks ctx meanwhile m).0
unfolding wait_for_tasks
wait_for_tasks-TasksInv ctx meanwhile m i = elim (Bool-cases (is_empty m.tasks)) [
  | inl e ↦ rw e i
  | inr e ↦ rw e (complete_all-TasksInv meanwhile.ends (cancel_tasks m) (unfold cancel_tasks in i))
]

-- A task that was handed out and is no longer in the manager's map is done: Done reports true, and
-- Wait returns its error at once.
pub done_of_gone :
    (m : Manager) (h : ℕ)
    → TasksInv m
    → h < m.next_handle
    → lookup (m.handles h).name m.tasks ≡ none
    → (is_done (m.handles h) ≡ true) × (wait (m.handles h) ≡ some (m.handles h).err)
done_of_gone m h i low out = elim (i.gone h low) [
  | inl c ↦ (ground arith, ground arith)
  | inr e ↦ absurd (clash e)
]
  where
    clash : lookup (m.handles h).name m.tasks ≢ some h
    clash e = cc
