-- ===== src/Runtime.antt =====
-- Running the code of a module against the manager (modulex.go: the calls `mod.Init(ctx, m)`,
-- `s.Start(ctx)` and `s.Stop(ctx)`, and the Registry methods that this code may call).
pub mod Keeps
use modulex.Prelude.{ℕ, ◌+◌, String, Option, none, some, List, [], ◌∷◌, snoc}
use modulex.Errors.{Error, StopPhase}
use modulex.Module.{Prog, Module}
use modulex.Manager.{
  Manager, Call, register_service, resolve_service, register_health_check, register_readiness_check,
  get_config,
}
use modulex.Tasks.{Spawned, handle, rejected, go}

abbrev pub go_error : Spawned → Option Error
go_error (handle h) = none
go_error (rejected e) = some e

unfoldable pub run_prog : Prog → Manager → Manager × Option String
run_prog (Prog.return e) m = (m, e)
run_prog (Prog.sleep n p) m = run_prog p (record m { clock = m.clock + n })
run_prog (Prog.register_service name svc k) m =
    let (m', e) = register_service name svc m in run_prog (k e) m'
run_prog (Prog.resolve_service name k) m =
    let (svc, e) = resolve_service name m in run_prog (k svc e) m
run_prog (Prog.register_health_check name f k) m =
    let (m', e) = register_health_check name f m in run_prog (k e) m'
run_prog (Prog.register_readiness_check name f k) m =
    let (m', e) = register_readiness_check name f m in run_prog (k e) m'
run_prog (Prog.spawn name f k) m = let (m', a) = go name f m in run_prog (k (go_error a)) m'
run_prog (Prog.get_config k) m = run_prog (k (get_config m)) m

abbrev pub log_call : Call → Manager → Manager
log_call c m = record m { calls = snoc m.calls c }

-- `mod.Init(ctx, m)`
unfoldable pub init_module : Module → Manager → Manager × Option String
init_module md m = run_prog md.init (log_call (Call.init_called md.name) m)

-- startModule
unfoldable pub start_module : Module → Manager → Manager × Option String
start_module md m = elim md.start [
  | none ↦ (m, none)
  | some p ↦ run_prog p (log_call (Call.start_called md.name) m)
]

abbrev stop_error : StopPhase → String → Option String → Option Error
stop_error phase name none = none
stop_error phase name (some text) = some (Error.stop_failed phase name text)

-- stopModule
unfoldable pub stop_module : StopPhase → Module → Manager → Manager × Option Error
stop_module phase md m = elim md.stop [
  | none ↦ (m, none)
  | some p ↦
      let (m', e) = run_prog p (log_call (Call.stop_called md.name) m) in
      (m', stop_error phase md.name e)
]
