-- ===== src/Runtime/Keeps.antt =====
-- Whatever code a module runs, it leaves the manager's lifecycle as it is and the bookkeeping of
-- tasks in order.
use modulex.Prelude.{◌+◌, String, ◌≡◌, sym, subst, none, arith}
use modulex.Module.{Prog}
use modulex.Manager.{
  Manager, register_service, resolve_service, register_health_check, register_readiness_check,
  get_config,
}
use modulex.Module.{Service, Func}
use modulex.Manager.Frame.{SameLifecycle, SameLifecycle-refl, SameLifecycle-trans}
use modulex.Tasks.{go}
use modulex.Tasks.Invariant.{TasksInv, Book, go-TasksInv}
use modulex.Runtime.{run_prog, go_error}

-- The map of tasks and the handles agree.
pub record SameBook (m m' : Manager) : Type 0 where
  pub tasks : m'.tasks ≡ m.tasks
  pub handles : m'.handles ≡ m.handles
  pub next : m'.next_handle ≡ m.next_handle

pub TasksInv-same : (m m' : Manager) → SameBook m m' → TasksInv m → TasksInv m'
TasksInv-same m m' s i =
    subst (λ t. Book t m'.handles m'.next_handle) (sym s.tasks)
      (subst (λ h. Book m.tasks h m'.next_handle) (sym s.handles)
        (subst (λ n. Book m.tasks m.handles n) (sym s.next) i))

module _ (name : String) (f : Func) (svc : Service) (m : Manager) where
  pub register_service-same : SameLifecycle m (register_service name svc m).0
  unfolding register_service
  register_service-same = ground arith

  pub register_service-book : SameBook m (register_service name svc m).0
  unfolding register_service
  register_service-book = ground arith

  pub health-same : SameLifecycle m (register_health_check name f m).0
  unfolding register_health_check
  health-same = ground arith

  pub health-book : SameBook m (register_health_check name f m).0
  unfolding register_health_check
  health-book = ground arith

  pub readiness-same : SameLifecycle m (register_readiness_check name f m).0
  unfolding register_readiness_check
  readiness-same = ground arith

  pub readiness-book : SameBook m (register_readiness_check name f m).0
  unfolding register_readiness_check
  readiness-book = ground arith

  pub go-same : SameLifecycle m (go name f m).0
  unfolding go
  go-same = ground arith

-- No code of a module changes the lifecycle state, the registered or sorted modules, the bus or the
-- record of the manager's calls.
pub run_prog-SameLifecycle : (p : Prog) (m : Manager) → SameLifecycle m (run_prog p m).0
unfolding run_prog
run_prog-SameLifecycle (Prog.return e) m = SameLifecycle-refl m
run_prog-SameLifecycle (Prog.sleep n p) m =
    SameLifecycle-trans (later m) (run_prog-SameLifecycle p (record m { clock = m.clock + n }))
  where
    later : (m : Manager) → SameLifecycle m (record m { clock = m.clock + n })
    later m = ground arith
run_prog-SameLifecycle (Prog.register_service name svc k) m =
    let (m', e) = register_service name svc m in
    SameLifecycle-trans (register_service-same name none svc m) (run_prog-SameLifecycle (k e) m')
run_prog-SameLifecycle (Prog.resolve_service name k) m =
    let (svc, e) = resolve_service name m in run_prog-SameLifecycle (k svc e) m
run_prog-SameLifecycle (Prog.register_health_check name f k) m =
    let (m', e) = register_health_check name f m in
    SameLifecycle-trans (health-same name f none m) (run_prog-SameLifecycle (k e) m')
run_prog-SameLifecycle (Prog.register_readiness_check name f k) m =
    let (m', e) = register_readiness_check name f m in
    SameLifecycle-trans (readiness-same name f none m) (run_prog-SameLifecycle (k e) m')
run_prog-SameLifecycle (Prog.spawn name f k) m =
    let (m', a) = go name f m in
    SameLifecycle-trans (go-same name f none m) (run_prog-SameLifecycle (k (go_error a)) m')
run_prog-SameLifecycle (Prog.get_config k) m = run_prog-SameLifecycle (k (get_config m)) m

-- Whatever code a module runs, each task that is gone is done and each one in the map is not.
pub run_prog-TasksInv : (p : Prog) (m : Manager) → TasksInv m → TasksInv (run_prog p m).0
unfolding run_prog
run_prog-TasksInv (Prog.return e) m i = i
run_prog-TasksInv (Prog.sleep n p) m i = run_prog-TasksInv p (record m { clock = m.clock + n }) i
run_prog-TasksInv (Prog.register_service name svc k) m i =
    let (m', e) = register_service name svc m in
    run_prog-TasksInv (k e) m' (TasksInv-same m m' (register_service-book name none svc m) i)
run_prog-TasksInv (Prog.resolve_service name k) m i =
    let (svc, e) = resolve_service name m in run_prog-TasksInv (k svc e) m i
run_prog-TasksInv (Prog.register_health_check name f k) m i =
    let (m', e) = register_health_check name f m in
    run_prog-TasksInv (k e) m' (TasksInv-same m m' (health-book name f none m) i)
run_prog-TasksInv (Prog.register_readiness_check name f k) m i =
    let (m', e) = register_readiness_check name f m in
    run_prog-TasksInv (k e) m' (TasksInv-same m m' (readiness-book name f none m) i)
run_prog-TasksInv (Prog.spawn name f k) m i =
    let (m', a) = go name f m in run_prog-TasksInv (k (go_error a)) m' (go-TasksInv name f m i)
run_prog-TasksInv (Prog.get_config k) m i = run_prog-TasksInv (k (get_config m)) m i
