-- ===== src/Module.antt =====
-- The interfaces that a module implements, and the code of a module as the manager meets it:
-- the calls that its Init, Start or Stop makes on the Registry, with the answers that it gets
-- (modulex.go: Module, Starter, Stopper, Registry).
use modulex.Prelude.{String, ℕ, Bool, Option, List}
use modulex.Errors.{Error}

-- The kinds of `reflect.Kind` that `isNilServiceValue` tells apart.
pub data Kind : Type 0 where
  chan func interface map_kind pointer slice unsafe_pointer other : Kind

-- A value held in a non-nil interface: its kind, whether it is nil inside, and which one it is.
pub record Value : Type 0 where
  pub kind : Kind
  pub is_nil : Bool
  pub ident : String

-- A service is an `interface{}`, `none` a nil one.
abbrev pub Service : Type 0
Service = Option Value

-- A check or task function, by its identity; nil is `none`.
abbrev pub Func : Type 0
Func = Option String

-- Code of a module: it returns an error or nil, lets time pass, or calls the registry.
pub data Prog : Type 0 where
  return : Option String → Prog
  sleep : ℕ → Prog → Prog
  register_service : String → Service → (Option Error → Prog) → Prog
  resolve_service : String → (Service → Option Error → Prog) → Prog
  register_health_check : String → Func → (Option Error → Prog) → Prog
  register_readiness_check : String → Func → (Option Error → Prog) → Prog
  spawn : String → Func → (Option Error → Prog) → Prog
  get_config : (Option Error → Prog) → Prog

-- modulex.Module; `none` where the module is no Starter or no Stopper.
pub record Module : Type 0 where
  pub name : String
  pub depends_on : List String
  pub init : Prog
  pub start : Option Prog
  pub stop : Option Prog
