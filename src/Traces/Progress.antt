-- ===== src/Traces/Progress.antt =====
-- The lifecycle only moves forward (modulex.go: LifecycleState), and between two calls it never rests
-- in a state of transition.
use modulex.Prelude.{
  ℕ, ◌≤◌, ◌≡◌, refl, ◌∙◌, inl, inr, Bool, true, false, none, Option, List, [], ◌∷◌, ap, arith,
  Bool-cases,
}
use modulex.Errors.{LifecycleState}
use modulex.Module.{Module}
use modulex.Manager.{Manager, register_module, is_configuring}
use modulex.Tasks.{Ctx, Meanwhile}
use modulex.Tasks.Waiting.{complete-SameLifecycle}
use modulex.Runtime.Keeps.{register_service-same, health-same, readiness-same, go-same}
use modulex.Lifecycle.{Gate, stop_gate, is_initialized, init_modules, start_modules, stop_modules}
use modulex.Lifecycle.Init.{InitEnd, init_modules-InitEnd}
use modulex.Lifecycle.Start.{StartEnd, start_modules-StartEnd}
use modulex.Lifecycle.Stop.{stop_modules-IsShutDown}
use modulex.Traces.{Op, step, run_ops}

-- The states in the order in which they are passed.
abbrev pub rank : LifecycleState → ℕ
rank LifecycleState.configuring = 0
rank LifecycleState.initializing = 1
rank LifecycleState.initialized = 2
rank LifecycleState.starting = 3
rank LifecycleState.running = 4
rank LifecycleState.stopping = 5
rank LifecycleState.stopped = 6

-- A state that no method is still working in.
abbrev pub is_at_rest : LifecycleState → Bool
is_at_rest LifecycleState.initializing = false
is_at_rest LifecycleState.starting = false
is_at_rest LifecycleState.stopping = false
is_at_rest _ = true

-- From `m` to `m'` the lifecycle is at rest again and did not move back.
pub record Advances (m m' : Manager) : Type 0 where
  pub rests : is_at_rest m'.state ≡ true
  pub forward : rank m.state ≤ rank m'.state

Advances-to :
    (s : LifecycleState) (m m' : Manager)
    → is_at_rest s ≡ true
    → rank m.state ≤ rank s
    → m'.state ≡ s
    → Advances m m'
Advances-to s m m' h low e = record {
  rests = ap is_at_rest e ∙ h;
  forward = let e' : rank m'.state ≡ rank s = ap rank e in omega (arith, e');
}

Advances-same : (m m' : Manager) → is_at_rest m.state ≡ true → m'.state ≡ m.state → Advances m m'
Advances-same m m' h e = Advances-to m.state m m' h (omega arith) e

rank_le : (s : LifecycleState) → rank s ≤ 6
rank_le s = ground arith

Advances-stopped : (m m' : Manager) → m'.state ≡ LifecycleState.stopped → Advances m m'
Advances-stopped m m' e = Advances-to LifecycleState.stopped m m' refl (rank_le m.state) e

init-Advances :
    (ctx : Ctx) (meanwhile : Meanwhile) (m : Manager)
    → is_at_rest m.state ≡ true
    → Advances m (init_modules ctx meanwhile m).0
init-Advances ctx meanwhile m h = elim (Bool-cases (is_configuring m.state)) [
  | inr e ↦ Advances-same m _ h (refused m e)
  | inl e ↦ by_end (is_open m e) (init_modules-InitEnd ctx meanwhile m (is_open m e))
]
  where
    refused :
        (m : Manager)
        → is_configuring m.state ≡ false
        → (init_modules ctx meanwhile m).0.state ≡ m.state
    refused m e = unfold init_modules in rw (e, init_modules)

    is_open : (m : Manager) → is_configuring m.state ≡ true → m.state ≡ LifecycleState.configuring
    is_open m e = ground arith

    low : (m : Manager) → m.state ≡ LifecycleState.configuring → rank m.state ≤ 2
    low m e = ground arith

    by_end :
        m.state ≡ LifecycleState.configuring
        → InitEnd ctx m (init_modules ctx meanwhile m)
        → Advances m (init_modules ctx meanwhile m).0
    by_end e (InitEnd.initialized mds o m1 all a s p c) =
        Advances-to LifecycleState.initialized m _ refl (low m e) s
    by_end e (InitEnd.unsorted x more o a s p c) = Advances-stopped m _ s
    by_end e (InitEnd.undone done tried rest x more o l a s p c) = Advances-stopped m _ s

start-Advances :
    (ctx : Ctx) (meanwhile : Meanwhile) (m : Manager)
    → is_at_rest m.state ≡ true
    → Advances m (start_modules ctx meanwhile m).0
start-Advances ctx meanwhile m h = elim (Bool-cases (is_initialized m.state)) [
  | inr e ↦ Advances-same m _ h (refused m e)
  | inl e ↦ by_end (ready m e) (start_modules-StartEnd ctx meanwhile m (ready m e))
]
  where
    refused :
        (m : Manager)
        → is_initialized m.state ≡ false
        → (start_modules ctx meanwhile m).0.state ≡ m.state
    refused m e = unfold start_modules in rw (e, start_modules)

    ready : (m : Manager) → is_initialized m.state ≡ true → m.state ≡ LifecycleState.initialized
    ready m e = ground arith

    low : (m : Manager) → m.state ≡ LifecycleState.initialized → rank m.state ≤ 4
    low m e = ground arith

    by_end :
        m.state ≡ LifecycleState.initialized
        → StartEnd ctx m (start_modules ctx meanwhile m)
        → Advances m (start_modules ctx meanwhile m).0
    by_end e (StartEnd.running m1 all a s p c) =
        Advances-to LifecycleState.running m _ refl (low m e) s
    by_end e (StartEnd.undone done tried rest x more split l a s c) = Advances-stopped m _ s

stop-Advances :
    (ctx : Ctx) (meanwhile : Meanwhile) (m : Manager)
    → is_at_rest m.state ≡ true
    → Advances m (stop_modules ctx meanwhile m).0
stop-Advances ctx meanwhile m h = by_gate (stop_gate m.state) refl
  where
    nothing :
        (m : Manager)
        → stop_gate m.state ≡ Gate.already
        → (stop_modules ctx meanwhile m).0.state ≡ m.state
    nothing m e = unfold stop_modules in rw (e, stop_modules)

    refused :
        (m : Manager)
        → stop_gate m.state ≡ Gate.refuse
        → (stop_modules ctx meanwhile m).0.state ≡ m.state
    refused m e = unfold stop_modules in rw (e, stop_modules)

    by_gate : (g : Gate) → stop_gate m.state ≡ g → Advances m (stop_modules ctx meanwhile m).0
    by_gate Gate.already e = Advances-same m _ h (nothing m e)
    by_gate Gate.refuse e = Advances-same m _ h (refused m e)
    by_gate Gate.proceed e = Advances-stopped m _ (stop_modules-IsShutDown ctx meanwhile m e).state

pub step-Advances : (op : Op) (m : Manager) → is_at_rest m.state ≡ true → Advances m (step op m)
unfolding step
step-Advances (Op.add_module md) m h = Advances-same m _ h (added md m)
  where
    added : (md : Option Module) (m : Manager) → (register_module md m).0.state ≡ m.state
    added md m = unfold register_module in ground arith
step-Advances (Op.add_service name svc) m h =
    Advances-same m _ h (register_service-same name none svc m).state
step-Advances (Op.add_health_check name f) m h =
    Advances-same m _ h (health-same name f none m).state
step-Advances (Op.add_readiness_check name f) m h =
    Advances-same m _ h (readiness-same name f none m).state
step-Advances (Op.spawn name fn) m h = Advances-same m _ h (go-same name fn none m).state
step-Advances (Op.task_ends name end) m h =
    Advances-same m _ h (complete-SameLifecycle name end m).state
step-Advances (Op.init ctx meanwhile) m h = init-Advances ctx meanwhile m h
step-Advances (Op.start ctx meanwhile) m h = start-Advances ctx meanwhile m h
step-Advances (Op.stop ctx meanwhile) m h = stop-Advances ctx meanwhile m h

-- However a manager at rest is used, the lifecycle never moves back, and after each call it is at rest
-- again: configuring, initialized, running or stopped. So a stopped manager stays stopped.
pub run_ops-Advances :
    (ops : List Op) (m : Manager) → is_at_rest m.state ≡ true → Advances m (run_ops ops m)
unfolding run_ops
run_ops-Advances [] m h = Advances-same m m h refl
run_ops-Advances (op ∷ ops) m h =
    let a = step-Advances op m h in
    let b = run_ops-Advances ops (step op m) a.rests in
    record { rests = b.rests; forward = omega (arith, a.forward, b.forward) }
