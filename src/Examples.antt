-- ===== src/Examples.antt =====
-- Test data for the lifecycle manager, and the properties applied to it (modulex.go). A database
-- module, and an interface module that depends on it and whose Start fails.
mod Sorting
mod Registering
mod Tasking
mod Lifecycles
mod Approvals
mod Pools
mod Snapshots
mod Applications
mod Deliveries
mod Reviews
mod Patches
mod Checks
use modulex.Prelude.{ℕ, String, true, false, Option, none, some, List, [], ◌∷◌, Assoc}
use modulex.Errors.{LifecycleState, CtxErr}
use modulex.Module.{Kind, Service, Prog, Module}
use modulex.Manager.{Manager, EventBus, fresh, defaults, Config}
use modulex.Tasks.{Ctx, Meanwhile, TaskEnd}

abbrev pub connection : Service
connection = some (record { kind = Kind.pointer; is_nil = false; ident = "connection" })

abbrev pub done : Prog
done = Prog.return none

abbrev pub db : Module
db = record {
  name = "db";
  depends_on = [];
  init = Prog.register_service "db" connection (λ e. done);
  start = some (Prog.spawn "poll" (some "poll") (λ e. done));
  stop = some done;
}

abbrev pub api : Module
api = record {
  name = " api";
  depends_on = "db " ∷ [];
  init = Prog.resolve_service "db" (λ svc e. Prog.sleep 3 done);
  start = some (Prog.return (some "address in use"));
  stop = some done;
}

abbrev pub lone : Module
lone = record { name = "lone"; depends_on = []; init = done; start = none; stop = none }

abbrev pub registered : Assoc Module
registered = ("api", api) ∷ ("db", db) ∷ []

abbrev pub in_order : List String
in_order = "api" ∷ "db" ∷ []

abbrev pub empty_manager : Manager
empty_manager = fresh defaults

abbrev pub configured : Manager
configured = record empty_manager { modules = registered; module_order = in_order }

abbrev pub ready : Manager
ready = record configured {
  state = LifecycleState.initialized;
  ordered_mods = db ∷ api ∷ lone ∷ [];
}

abbrev pub going : Manager
going = record ready { state = LifecycleState.running; event_bus = EventBus.foreign (some "lost") }

abbrev pub no_deadline : Ctx
no_deadline now = none

abbrev pub gone : Ctx
gone now = some CtxErr.canceled

abbrev pub quiet : Meanwhile
quiet = record { ends = []; elapsed = 0 }

abbrev pub poll_fails : Meanwhile
poll_fails = record { ends = ("poll", TaskEnd.returned (some "reset")) ∷ []; elapsed = 5 }
