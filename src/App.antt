-- ===== src/App.antt =====
-- The application runner (app/app.go): Run, runStop, startModules and the options. What other code does
-- while the application runs is a sequence of operations on its manager. Hooks are calls of foreign
-- code, each with what it returns and how long it takes.
pub mod Ending
use modulex.Prelude.{
  ℕ, suc, ◌+◌, String, Option, none, some, List, [], ◌∷◌, ◌++◌, if◌then◌else◌, ltb,
}
use modulex.Errors.{CtxErr, Error}
use modulex.Module.{Module}
use modulex.Manager.{Manager, ManagerOption, created, refused, new_manager, register_module}
use modulex.Tasks.{Ctx, Meanwhile}
use modulex.Lifecycle.{init_modules, start_modules, stop_modules}
use modulex.Traces.{Op, run_ops}

pub record Hook : Type 0 where
  pub name : String
  pub takes : ℕ
  pub result : Option String

pub data AppError : Type 0 where
  no_manager : Error → AppError
  setup_failed pre_stop_failed post_stop_failed : String → AppError
  nil_module : ℕ → AppError
  register_failed : String → Error → AppError
  init_failed start_failed stop_failed : List Error → AppError

-- The setup hook, which may do anything with the manager.
abbrev pub Setup : Type 0
Setup = Manager → Manager × Option String

-- app.options, but for the context and the signals, which only say when the application is to stop.
pub record Options : Type 0 where
  pub shutdown_timeout : ℕ
  pub manager_opts : List ManagerOption
  pub setup : Option Setup
  pub pre_stop : List Hook
  pub post_stop : List Hook

-- app.Option
pub data AppOption : Type 0 where
  with_context with_signals : AppOption
  with_shutdown_timeout : ℕ → AppOption
  with_manager_options : List ManagerOption → AppOption
  with_setup : Option Setup → AppOption
  with_pre_stop with_post_stop : Hook → AppOption

abbrev pub apply_app_option : AppOption → Options → Options
apply_app_option AppOption.with_context o = o
apply_app_option AppOption.with_signals o = o
apply_app_option (AppOption.with_shutdown_timeout d) o = record o { shutdown_timeout = d }
apply_app_option (AppOption.with_manager_options opts) o = record o {
  manager_opts = o.manager_opts ++ opts;
}
apply_app_option (AppOption.with_setup s) o = record o { setup = s }
apply_app_option (AppOption.with_pre_stop h) o = record o { pre_stop = o.pre_stop ++ h ∷ [] }
apply_app_option (AppOption.with_post_stop h) o = record o { post_stop = o.post_stop ++ h ∷ [] }

-- 15 seconds, in nanoseconds.
abbrev pub default_shutdown_timeout : ℕ
default_shutdown_timeout = 15000000000

abbrev pub apply_app_options : List AppOption → Options → Options
apply_app_options [] o = o
apply_app_options (opt ∷ opts) o = apply_app_options opts (apply_app_option opt o)

abbrev pub new_options : List AppOption → Options
new_options opts = apply_app_options opts (record {
  shutdown_timeout = default_shutdown_timeout;
  manager_opts = [];
  setup = none;
  pre_stop = [];
  post_stop = [];
})

-- The application: its manager, and the calls of the shutdown sequence.
pub data Event : Type 0 where
  pre_stop_ran post_stop_ran : String → Event
  stop_called : Event

pub record Ran : Type 0 where
  pub manager : Manager
  pub errs : List AppError
  pub events : List Event

abbrev pub add_failure : (String → AppError) → Option String → List AppError → List AppError
add_failure f none errs = errs
add_failure f (some text) errs = errs ++ f text ∷ []

-- The loop over the hooks.
unfoldable pub run_hooks : (String → Event) → (String → AppError) → List Hook → Ran → Ran
run_hooks event f [] r = r
run_hooks event f (h ∷ hs) r = run_hooks event f hs (record {
  manager = record r.manager { clock = r.manager.clock + h.takes };
  errs = add_failure f h.result r.errs;
  events = r.events ++ event h.name ∷ [];
})

-- `context.WithTimeout` at the instant `t`, free of the signal.
abbrev pub with_timeout : ℕ → ℕ → Ctx
with_timeout t d now = if ltb now (t + d) then none else some CtxErr.deadline_exceeded

abbrev pub stop_failure : List Error → List AppError
stop_failure [] = []
stop_failure (e ∷ es) = AppError.stop_failed (e ∷ es) ∷ []

unfoldable pub run_stop : Options → Meanwhile → Manager → Ran
unfolding run_hooks
run_stop cfg meanwhile m =
    let ctx = with_timeout m.clock cfg.shutdown_timeout in
    let r =
      run_hooks Event.pre_stop_ran AppError.pre_stop_failed cfg.pre_stop
        (record { manager = m; errs = []; events = [] }) in
    let (m', es) = stop_modules ctx meanwhile r.manager in
    run_hooks Event.post_stop_ran AppError.post_stop_failed cfg.post_stop (record {
      manager = m';
      errs = r.errs ++ stop_failure es;
      events = r.events ++ Event.stop_called ∷ [];
    })

-- The loop over the modules, from the index `i` on.
unfoldable pub register_all : ℕ → List (Option Module) → Manager → Manager × Option AppError
register_all i [] m = (m, none)
register_all i (none ∷ mods) m = (m, some (AppError.nil_module i))
register_all i (some md ∷ mods) m =
    let (m', e) = register_module (some md) m in
    elim e [
      | none ↦ register_all (suc i) mods m'
      | some x ↦ (m', some (AppError.register_failed md.name x))
    ]

-- startModules behind its loop.
unfoldable pub init_and_start : Ctx → Meanwhile → Meanwhile → Manager → Manager × Option AppError
init_and_start ctx w w' m =
    let (m', es) = init_modules ctx w m in
    elim es [
      | e ∷ more ↦ (m', some (AppError.init_failed (e ∷ more)))
      | [] ↦
          let (m'', fs) = start_modules ctx w' m' in
          elim fs [ e ∷ more ↦ (m'', some (AppError.start_failed (e ∷ more))) | [] ↦ (m'', none) ]
    ]

unfoldable pub register_and_start :
    Ctx → Meanwhile → Meanwhile → List (Option Module) → Manager → Manager × Option AppError
unfolding register_all init_and_start
register_and_start ctx w w' mods m =
    let (m', e) = register_all 0 mods m in
    elim e [ some x ↦ (m', some x) | none ↦ init_and_start ctx w w' m' ]

abbrev pub run_setup : Option Setup → Manager → Manager × Option String
run_setup none m = (m, none)
run_setup (some f) m = f m

-- startModules
unfoldable pub start_app :
    Options
    → Ctx
    → Meanwhile
    → Meanwhile
    → List (Option Module)
    → Manager
    → Manager × Option AppError
unfolding register_and_start
start_app cfg ctx w w' mods m =
    let (m', e) = run_setup cfg.setup m in
    elim e [
      | some text ↦ (m', some (AppError.setup_failed text))
      | none ↦ register_and_start ctx w w' mods m'
    ]

abbrev pub add_first : AppError → Ran → Ran
add_first e r = record r { errs = e ∷ r.errs }

-- Run once the manager exists. The waits are those of the initialization, of the start and of the stop.
unfoldable pub run_manager :
    Options
    → Ctx
    → Meanwhile
    → Meanwhile
    → Meanwhile
    → List Op
    → List (Option Module)
    → Manager
    → Ran
unfolding start_app run_stop
run_manager cfg ctx w w' w'' serving mods m =
    let (m', e) = start_app cfg ctx w w' mods m in
    elim e [
      | some x ↦ add_first x (run_stop cfg w'' m')
      | none ↦ run_stop cfg w'' (run_ops serving m')
    ]

pub data RunResult : Type 0 where
  not_run : AppError → RunResult
  ran : Ran → RunResult

unfoldable pub run :
    Option (Option String)
    → List (Option Module)
    → List AppOption
    → Ctx
    → Meanwhile
    → Meanwhile
    → Meanwhile
    → List Op
    → RunResult
unfolding run_manager
run loader mods opts ctx w w' w'' serving =
    let cfg = new_options opts in
    elim (new_manager
      (ManagerOption.with_logger ∷ ManagerOption.with_config_loader loader ∷ cfg.manager_opts)) [
        | created m ↦ ran (run_manager cfg ctx w w' w'' serving mods m)
        | refused e ↦ not_run (AppError.no_manager e)
      ]
