-- ===== src/Examples/Lifecycles.antt =====
-- The lifecycle on test data (modulex.go: InitModules, StartModules, StopModules).
use modulex.Prelude.{refl, some, List, [], ◌∷◌}
use modulex.Manager.{new_manager}
use modulex.Lifecycle.{init_modules, start_modules, stop_modules}
use modulex.Lifecycle.Init.{InitEnd, init_modules-InitEnd}
use modulex.Lifecycle.Start.{StartEnd, start_modules-StartEnd}
use modulex.Lifecycle.Stop.{IsShutDown, stop_modules-IsShutDown}
use modulex.Traces.{Op, run_ops}
use modulex.Traces.Invariant.{IsSound, run_ops-IsSound}
use modulex.Traces.Progress.{Advances, run_ops-Advances}
use modulex.Tasks.{TaskEnd}
use modulex.Examples.{
  db, api, empty_manager, configured, ready, going, no_deadline, gone, quiet, poll_fails,
}

init_modules-InitEnd_example :
    InitEnd no_deadline configured (init_modules no_deadline quiet configured)
init_modules-InitEnd_example = init_modules-InitEnd no_deadline quiet configured refl

start_modules-StartEnd_example :
    StartEnd no_deadline ready (start_modules no_deadline poll_fails ready)
start_modules-StartEnd_example = start_modules-StartEnd no_deadline poll_fails ready refl

stop_modules-IsShutDown_example : IsShutDown going (stop_modules gone quiet going).0
stop_modules-IsShutDown_example = stop_modules-IsShutDown gone quiet going refl

abbrev whole_run : List Op
whole_run =
    Op.add_module (some api)
    ∷ Op.add_module (some db)
    ∷ Op.init no_deadline quiet
    ∷ Op.start no_deadline poll_fails
    ∷ Op.task_ends "poll" (TaskEnd.panicked "boom")
    ∷ Op.stop gone quiet
    ∷ []

run_ops-IsSound_example : IsSound (run_ops whole_run empty_manager)
unfolding new_manager
run_ops-IsSound_example = run_ops-IsSound [] whole_run empty_manager refl

run_ops-Advances_example : Advances empty_manager (run_ops whole_run empty_manager)
run_ops-Advances_example = run_ops-Advances whole_run empty_manager refl
