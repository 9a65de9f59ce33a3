-- ===== src/Lifecycle/Calls.antt =====
-- Which foreign code a part of the lifecycle calls, and what else it leaves as it is.
use modulex.Prelude.{
  ◌≡◌, refl, sym, ◌∙◌, ap, none, some, List, [], ◌∷◌, ◌++◌, append_assoc, append-nil, Option-cases,
  inl, inr,
}
use mathlib.Core.List.{reverse}
use modulex.Errors.{StopPhase, Error}
use modulex.Module.{Module, Prog}
use modulex.Manager.{Manager, Call}
use modulex.Manager.Frame.{SameLifecycle, SameLifecycle-refl}
use modulex.Runtime.{init_module, start_module, stop_module, run_prog, log_call}
use modulex.Runtime.Keeps.{run_prog-SameLifecycle}
use modulex.Lifecycle.{append_error, stop_all, rollback, close_event_bus}

-- From `m` to `m'` these calls were made; the state, the modules, the sorted modules and the bus are
-- the same.
pub record Logs (m m' : Manager) (cs : List Call) : Type 0 where
  pub state : m'.state ≡ m.state
  pub modules : m'.modules ≡ m.modules
  pub module_order : m'.module_order ≡ m.module_order
  pub ordered_mods : m'.ordered_mods ≡ m.ordered_mods
  pub event_bus : m'.event_bus ≡ m.event_bus
  pub calls : m'.calls ≡ m.calls ++ cs

pub Logs-trans :
    {a b c : Manager} (xs ys : List Call) → Logs a b xs → Logs b c ys → Logs a c (xs ++ ys)
Logs-trans {a} xs ys p q = record {
  state = q.state ∙ p.state;
  modules = q.modules ∙ p.modules;
  module_order = q.module_order ∙ p.module_order;
  ordered_mods = q.ordered_mods ∙ p.ordered_mods;
  event_bus = q.event_bus ∙ p.event_bus;
  calls = q.calls ∙ ap (λ l. l ++ ys) p.calls ∙ append_assoc a.calls xs ys;
}

pub Logs-same : {m m' : Manager} → SameLifecycle m m' → Logs m m' []
Logs-same {m} s = record {
  state = s.state;
  modules = s.modules;
  module_order = s.module_order;
  ordered_mods = s.ordered_mods;
  event_bus = s.event_bus;
  calls = s.calls ∙ sym (append-nil m.calls);
}

pub Logs-nil : (m : Manager) → Logs m m []
Logs-nil m = Logs-same (SameLifecycle-refl m)

pub Logs-call : (c : Call) (m : Manager) → Logs m (log_call c m) (c ∷ [])
Logs-call c m = record {
  state = refl;
  modules = refl;
  module_order = refl;
  ordered_mods = refl;
  event_bus = refl;
  calls = refl;
}

called_prog : (c : Call) (p : Prog) (m : Manager) → Logs m (run_prog p (log_call c m)).0 (c ∷ [])
called_prog c p m =
    Logs-trans (c ∷ []) [] (Logs-call c m) (Logs-same (run_prog-SameLifecycle p (log_call c m)))

-- The calls of an action on one module, and on each of a list of modules.
abbrev pub init_call : Module → List Call
init_call md = Call.init_called md.name ∷ []

abbrev pub start_call : Module → List Call
start_call md = elim md.start [ none ↦ [] | some p ↦ Call.start_called md.name ∷ [] ]

abbrev pub stop_call : Module → List Call
stop_call md = elim md.stop [ none ↦ [] | some p ↦ Call.stop_called md.name ∷ [] ]

abbrev pub each : (Module → List Call) → List Module → List Call
each f [] = []
each f (md ∷ mds) = f md ++ each f mds

pub init_module-Logs : (md : Module) (m : Manager) → Logs m (init_module md m).0 (init_call md)
unfolding init_module
init_module-Logs md m = called_prog (Call.init_called md.name) md.init m

pub start_module-Logs : (md : Module) (m : Manager) → Logs m (start_module md m).0 (start_call md)
unfolding start_module
start_module-Logs md m = elim (Option-cases md.start) [
  | inl e ↦ rw (e, start_module) (Logs-nil m)
  | inr (p, e) ↦ rw (e, start_module) (called_prog (Call.start_called md.name) p m)
]

pub stop_module-Logs :
    (phase : StopPhase) (md : Module) (m : Manager)
    → Logs m (stop_module phase md m).0 (stop_call md)
unfolding stop_module
stop_module-Logs phase md m = elim (Option-cases md.stop) [
  | inl e ↦ rw (e, stop_module) (Logs-nil m)
  | inr (p, e) ↦ rw (e, stop_module) (called_prog (Call.stop_called md.name) p m)
]

pub stop_all-Logs :
    (phase : StopPhase) (mds : List Module) (errs : List Error) (m : Manager)
    → Logs m (stop_all phase mds errs m).0 (each stop_call mds)
unfolding stop_all
stop_all-Logs phase [] errs m = Logs-nil m
stop_all-Logs phase (md ∷ mds) errs m =
    let (m', e) = stop_module phase md m in
    Logs-trans (stop_call md) (each stop_call mds) (stop_module-Logs phase md m)
      (stop_all-Logs phase mds (append_error e errs) m')

pub rollback-Logs :
    (phase : StopPhase) (mds : List Module) (m : Manager)
    → Logs m (rollback phase mds m).0 (each stop_call (reverse mds))
unfolding rollback
rollback-Logs phase mds m = stop_all-Logs phase (reverse mds) [] m

pub close_event_bus-Logs : (m : Manager) → Logs m (close_event_bus m).0 (Call.bus_closed ∷ [])
unfolding close_event_bus
close_event_bus-Logs m = Logs-call Call.bus_closed m
