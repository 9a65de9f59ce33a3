-- ===== src/Manager/Frame.antt =====
-- What the code of modules and tasks leaves as it is in the manager.
use modulex.Prelude.{◌≡◌, refl, ◌∙◌}
use modulex.Manager.{Manager}

-- The lifecycle state, the registered and the sorted modules, the bus and the record of calls agree.
pub record SameLifecycle (m m' : Manager) : Type 0 where
  pub state : m'.state ≡ m.state
  pub modules : m'.modules ≡ m.modules
  pub module_order : m'.module_order ≡ m.module_order
  pub ordered_mods : m'.ordered_mods ≡ m.ordered_mods
  pub event_bus : m'.event_bus ≡ m.event_bus
  pub calls : m'.calls ≡ m.calls

pub SameLifecycle-refl : (m : Manager) → SameLifecycle m m
SameLifecycle-refl m = record {
  state = refl;
  modules = refl;
  module_order = refl;
  ordered_mods = refl;
  event_bus = refl;
  calls = refl;
}

pub SameLifecycle-trans :
    {a b c : Manager} → SameLifecycle a b → SameLifecycle b c → SameLifecycle a c
SameLifecycle-trans p q = record {
  state = q.state ∙ p.state;
  modules = q.modules ∙ p.modules;
  module_order = q.module_order ∙ p.module_order;
  ordered_mods = q.ordered_mods ∙ p.ordered_mods;
  event_bus = q.event_bus ∙ p.event_bus;
  calls = q.calls ∙ p.calls;
}
