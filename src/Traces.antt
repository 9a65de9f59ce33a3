-- ===== src/Traces.antt =====
-- Any use of a manager: a sequence of calls of its methods and of ends of its tasks (modulex.go). Each
-- one is atomic here, as each holds the locks of what it reads and writes, except that the lifecycle
-- methods meet other goroutines only where they wait.
pub mod Invariant
pub mod Progress
use modulex.Prelude.{
  ℕ, ◌≤◌, ◌<◌, ◌≡◌, refl, sym, ◌∙◌, subst, ◌⊎◌, inl, inr, String, Bool, true, false, Option, none,
  some, List, [], ◌∷◌, arith, Assoc, Bool-cases,
}
use modulex.Errors.{LifecycleState, Error}
use modulex.Module.{Prog, Module, Service, Func}
use modulex.Manager.{
  Manager, ManagerOption, created, new_manager, Call, register_module, register_service,
  register_health_check, register_readiness_check, set_state, is_configuring,
}
use modulex.Manager.Registry.{IsRegistered, register_module-IsRegistered, new_manager-IsRegistered}
use modulex.Manager.Frame.{SameLifecycle}
use modulex.Tasks.{TaskEnd, Ctx, Meanwhile, go, complete}
use modulex.Tasks.Invariant.{TasksInv}
use modulex.Lifecycle.{Gate, stop_gate, is_initialized, init_modules, start_modules, stop_modules}

pub data Op : Type 0 where
  add_module : Option Module → Op
  add_service : String → Service → Op
  add_health_check add_readiness_check : String → Func → Op
  spawn : String → Func → Op
  task_ends : String → TaskEnd → Op
  init start stop : Ctx → Meanwhile → Op

unfoldable pub step : Op → Manager → Manager
step (Op.add_module md) m = (register_module md m).0
step (Op.add_service name svc) m = (register_service name svc m).0
step (Op.add_health_check name f) m = (register_health_check name f m).0
step (Op.add_readiness_check name f) m = (register_readiness_check name f m).0
step (Op.spawn name fn) m = (go name fn m).0
step (Op.task_ends name end) m = complete name end m
step (Op.init ctx meanwhile) m = (init_modules ctx meanwhile m).0
step (Op.start ctx meanwhile) m = (start_modules ctx meanwhile m).0
step (Op.stop ctx meanwhile) m = (stop_modules ctx meanwhile m).0

unfoldable pub run_ops : List Op → Manager → Manager
run_ops [] m = m
run_ops (op ∷ ops) m = run_ops ops (step op m)
