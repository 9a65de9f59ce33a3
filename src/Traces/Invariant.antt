-- ===== src/Traces/Invariant.antt =====
-- What holds of a manager however it is used (modulex.go).
use modulex.Prelude.{◌≡◌, refl, sym, subst, List, [], ◌∷◌, arith, Assoc, none, Nodup, Option}
use modulex.Module.{Module}
use modulex.Manager.{
  fresh, apply_options, defaults, Manager, ManagerOption, created, new_manager, register_module,
  set_state,
}
use modulex.Manager.Registry.{IsRegistered, register_module-IsRegistered, new_manager-IsRegistered}
use modulex.Manager.Frame.{SameLifecycle}
use modulex.Tasks.{cancel_tasks}
use modulex.Tasks.Invariant.{TasksInv, go-TasksInv, complete-TasksInv, wait_for_tasks-TasksInv}
use modulex.Tasks.Waiting.{wait_for_tasks-SameLifecycle, complete-SameLifecycle}
use modulex.Runtime.Keeps.{
  run_prog-SameLifecycle, run_prog-TasksInv, register_service-same, register_service-book,
  health-same, health-book, readiness-same, readiness-book, go-same, TasksInv-same, SameBook,
}
use modulex.Topo.Acyclic.{IsListed}
use modulex.Lifecycle.Closed.{Closed, init_modules-keeps, start_modules-keeps, stop_modules-keeps}
use modulex.Traces.{Op, step, run_ops}

IsRegistered-again :
    {m m' : Manager}
    → m'.modules ≡ m.modules
    → m'.module_order ≡ m.module_order
    → IsRegistered m
    → IsRegistered m'
IsRegistered-again {m} {m'} p q r = record {
  is_listed =
      subst (λ o. IsListed m'.modules o) (sym q)
        (subst (λ (t : Assoc Module). IsListed t m.module_order) (sym p) r.is_listed);
  nodup = subst (λ o. Nodup o) (sym q) r.nodup;
}

IsRegistered-same : {m m' : Manager} → SameLifecycle m m' → IsRegistered m → IsRegistered m'
IsRegistered-same s r = IsRegistered-again s.modules s.module_order r

tasks_closed : Closed TasksInv
unfolding cancel_tasks set_state
tasks_closed = record {
  prog = run_prog-TasksInv;
  call = λ c m i. i;
  cancel = λ m i. i;
  wait = wait_for_tasks-TasksInv;
  state = λ s m i. i;
  order = λ mds m i. i;
  init_times = λ t ts m i. i;
  start_times = λ t ts m i. i;
}

registry_closed : Closed IsRegistered
unfolding cancel_tasks set_state
registry_closed = record {
  prog = λ p m r. IsRegistered-same (run_prog-SameLifecycle p m) r;
  call = λ c m r. IsRegistered-again refl refl r;
  cancel = λ m r. IsRegistered-again refl refl r;
  wait = λ ctx meanwhile m r. IsRegistered-same (wait_for_tasks-SameLifecycle ctx meanwhile m) r;
  state = λ s m r. IsRegistered-again refl refl r;
  order = λ mds m r. IsRegistered-again refl refl r;
  init_times = λ t ts m r. IsRegistered-again refl refl r;
  start_times = λ t ts m r. IsRegistered-again refl refl r;
}

step-TasksInv : (op : Op) (m : Manager) → TasksInv m → TasksInv (step op m)
unfolding step
step-TasksInv (Op.add_module md) m i = TasksInv-same m _ (added md m) i
  where
    added : (md : Option Module) (m : Manager) → SameBook m (register_module md m).0
    added md m = unfold register_module in ground arith
step-TasksInv (Op.add_service name svc) m i =
    TasksInv-same m _ (register_service-book name none svc m) i
step-TasksInv (Op.add_health_check name f) m i = TasksInv-same m _ (health-book name f none m) i
step-TasksInv (Op.add_readiness_check name f) m i =
    TasksInv-same m _ (readiness-book name f none m) i
step-TasksInv (Op.spawn name fn) m i = go-TasksInv name fn m i
step-TasksInv (Op.task_ends name end) m i = complete-TasksInv name end m i
step-TasksInv (Op.init ctx meanwhile) m i = init_modules-keeps tasks_closed ctx meanwhile m i
step-TasksInv (Op.start ctx meanwhile) m i = start_modules-keeps tasks_closed ctx meanwhile m i
step-TasksInv (Op.stop ctx meanwhile) m i = stop_modules-keeps tasks_closed ctx meanwhile m i

step-IsRegistered : (op : Op) (m : Manager) → IsRegistered m → IsRegistered (step op m)
unfolding step
step-IsRegistered (Op.add_module md) m r = register_module-IsRegistered md m r
step-IsRegistered (Op.add_service name svc) m r =
    IsRegistered-same (register_service-same name none svc m) r
step-IsRegistered (Op.add_health_check name f) m r = IsRegistered-same (health-same name f none m) r
step-IsRegistered (Op.add_readiness_check name f) m r =
    IsRegistered-same (readiness-same name f none m) r
step-IsRegistered (Op.spawn name fn) m r = IsRegistered-same (go-same name fn none m) r
step-IsRegistered (Op.task_ends name end) m r =
    IsRegistered-same (complete-SameLifecycle name end m) r
step-IsRegistered (Op.init ctx meanwhile) m r = init_modules-keeps registry_closed ctx meanwhile m r
step-IsRegistered (Op.start ctx meanwhile) m r =
    start_modules-keeps registry_closed ctx meanwhile m r
step-IsRegistered (Op.stop ctx meanwhile) m r = stop_modules-keeps registry_closed ctx meanwhile m r

-- What a manager satisfies between two calls: its registry and its tasks are in order.
pub record IsSound (m : Manager) : Type 0 where
  pub registry : IsRegistered m
  pub tasks : TasksInv m

run_ops-IsSound_from : (ops : List Op) (m : Manager) → IsSound m → IsSound (run_ops ops m)
unfolding run_ops
run_ops-IsSound_from [] m s = s
run_ops-IsSound_from (op ∷ ops) m s =
    run_ops-IsSound_from ops (step op m)
      (record { registry = step-IsRegistered op m s.registry; tasks = step-TasksInv op m s.tasks })

new_manager-TasksInv :
    (opts : List ManagerOption) (m : Manager) → new_manager opts ≡ created m → TasksInv m
unfolding new_manager
new_manager-TasksInv opts m h =
    TasksInv-same (fresh (apply_options opts defaults)) m (ground arith)
      (record { running = λ n k e. cc; gone = λ k low. absurd (omega arith) })

-- However a manager that NewManager returned is used, registering, spawning, initializing, starting and
-- stopping in any order, with any module code and any ends of tasks: its registry stays in order (each
-- registered name listed once, each module under its own trimmed name), and a task handle that was
-- handed out is done exactly when its task is no longer in the manager's map.
pub run_ops-IsSound :
    (opts : List ManagerOption) (ops : List Op) (m : Manager)
    → new_manager opts ≡ created m
    → IsSound (run_ops ops m)
run_ops-IsSound opts ops m h = run_ops-IsSound_from ops m (record {
  registry = (new_manager-IsRegistered opts m h).0;
  tasks = new_manager-TasksInv opts m h;
})
