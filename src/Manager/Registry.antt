-- ===== src/Manager/Registry.antt =====
-- The registration of modules, services and checks (modulex.go: RegisterModule, RegisterService,
-- ResolveService, RegisterHealthCheck, RegisterReadinessCheck).
use modulex.Prelude.{
  String, ◌≡◌, refl, sym, ◌∙◌, subst, ◌≢◌, ◌↔◌, ◌⊎◌, inl, inr, true, false, Option, none, some,
  List, [], ◌∷◌, ◌==◌, if◌then◌else◌, snoc, Assoc, lookup, insert, lookup-insert, trim_space, In,
  not-In-nil, In-append_left, In-append_right, All-append, Nodup, Nodup-snoc, arith, Bool-cases,
  Option-cases, String-cases, test_self, test_of_ne,
}
use text.Mathlib.TextEquality.{eq_iff}
use modulex.Errors.{LifecycleState, Error, Sentinel}
use modulex.Module.{Module, Service, Func}
use modulex.Topo.Order.{key_of}
use modulex.Topo.Acyclic.{IsListed}
use modulex.Topo.Failures.{AllListed}
use modulex.Manager.{
  Manager, ManagerOption, Config, Reply, created, refused, fresh, defaults, apply_options,
  valid_policy, new_manager, register_check, add_module, register_module, is_nil_service_value,
  register_service, resolve_service,
}

-- A module can be added to the manager.
pub record IsAddable (m : Manager) (md : Module) : Type 0 where
  pub open_state : m.state ≡ LifecycleState.configuring
  pub has_name : trim_space md.name ≢ ""
  pub is_new : lookup (trim_space md.name) m.modules ≡ none

IsAddable-of_ok :
    (md : Module) (m : Manager) → (register_module (some md) m).1 ≡ none → IsAddable m md
unfolding register_module
IsAddable-of_ok md m h = record {
  open_state = ground arith;
  has_name = λ e. ground (arith, eq_iff (trim_space md.name) "");
  is_new = ground (arith, eq_iff (trim_space md.name) "");
}

ok_of_addable :
    (md : Module) (m : Manager) → IsAddable m md → (register_module (some md) m).1 ≡ none
unfolding register_module
ok_of_addable md m a =
    rw a.open_state (rw (test_of_ne (trim_space md.name) "" a.has_name) (rw a.is_new refl))

-- Registering a module succeeds exactly when the manager is still being configured, the module is not
-- nil, its trimmed name is not empty and no registered module has that name.
pub register_module-ok_iff :
    (c : Option Module) (m : Manager)
    → ((register_module c m).1 ≡ none) ↔ ((md : Module) × (c ≡ some md) × IsAddable m md)
register_module-ok_iff none m = (λ h. absurd (nil_refused m h), λ (md, e, a). cc)
  where
    nil_refused : (m : Manager) → (register_module none m).1 ≢ none
    nil_refused m h = unfold register_module in ground arith
register_module-ok_iff (some md) m = (
  λ h. (md, refl, IsAddable-of_ok md m h),
  λ (md', e, a). ok_of_addable md m (subst (IsAddable m) (some_inj e) a),
)
  where
    some_inj : {a b : Module} → some a ≡ some b → b ≡ a
    some_inj e = cc

-- A refused registration leaves the whole manager as it was, whatever the reason.
pub register_module_error_unchanged :
    (c : Option Module) (m : Manager) {e : Error}
    → (register_module c m).1 ≡ some e
    → (register_module c m).0 ≡ m
unfolding register_module
register_module_error_unchanged c m h = ground arith

-- Registering modules keeps what the sort of the modules needs: the order lists the registered names,
-- each once, and every module is filed under its own trimmed name, which is not empty.
pub record IsRegistered (m : Manager) : Type 0 where
  pub is_listed : IsListed m.modules m.module_order
  pub nodup : Nodup m.module_order

module _ (md : Module) (modules : Assoc Module) (order : List String) (h : IsListed modules order)
    (new : lookup (key_of md) modules ≡ none) where
  at_self : lookup (key_of md) (insert (key_of md) md modules) ≡ some md
  at_self = rw (lookup-insert, test_self (key_of md))

  at_other :
      (n : String) → key_of md ≢ n → lookup n (insert (key_of md) md modules) ≡ lookup n modules
  at_other n d = rw (lookup-insert, test_of_ne (key_of md) n d)

  some_inj : {a b : Module} → some a ≡ some b → a ≡ b
  some_inj e = cc

  listed_insert :
      (n : String) (x : Module)
      → lookup n (insert (key_of md) md modules) ≡ some x
      → In n (snoc order (key_of md)) × (key_of x ≡ n)
  listed_insert n x e = elim (String-cases (key_of md) n) [
    | inl same ↦ (
      In-append_right order (In.here (sym same)),
      subst (λ y. key_of y ≡ n)
          (some_inj (
            sym at_self
            ∙ subst (λ k. lookup k (insert (key_of md) md modules) ≡ some x) (sym same) e))
          same,
    )
    | inr d ↦
        let old : lookup n modules ≡ some x = sym (at_other n d) ∙ e in
        (In-append_left _ (h.listed n x old), h.keyed n x old)
  ]

  still_found :
      (n : String) (x : Module)
      → lookup n modules ≡ some x
      → lookup n (insert (key_of md) md modules) ≡ some x
  still_found n x e = at_other n (λ same. clash same) ∙ e
    where
      clash : key_of md ≡ n → ⊥
      clash same = let e' = subst (λ k. lookup k modules ≡ none) same new in cc

  AllListed-insert :
      (l : List String) → AllListed modules l → AllListed (insert (key_of md) md modules) l
  AllListed-insert [] all = tt
  AllListed-insert (n ∷ l) all =
      ((all.0.0, still_found n all.0.0 all.0.1), AllListed-insert l all.1)

  IsListed-insert :
      key_of md ≢ "" → IsListed (insert (key_of md) md modules) (snoc order (key_of md))
  IsListed-insert has = record {
    listed = λ n x e. (listed_insert n x e).0;
    registered =
        All-append _ order (key_of md ∷ []) (AllListed-insert order h.registered)
          ((md, at_self), tt);
    keyed = λ n x e. (listed_insert n x e).1;
    named = λ x e. h.named x (sym (at_other "" has) ∙ e);
  }

  not-In_order : (l : List String) → AllListed modules l → ¬ In (key_of md) l
  not-In_order [] all m = not-In-nil m
  not-In_order (n ∷ l) all (In.here e) =
      let e' = subst (λ k. lookup k modules ≡ none) e new in
      let e'' : lookup n modules ≡ some all.0.0 = all.0.1 in cc
  not-In_order (n ∷ l) all (In.there m) = not-In_order l all.1 m

add_module-IsRegistered :
    (md : Module) (m : Manager) → IsAddable m md → IsRegistered m → IsRegistered (add_module md m).0
unfolding add_module
add_module-IsRegistered md m a r = rw (test_of_ne (trim_space md.name) "" a.has_name) (
    rw a.is_new (record {
      is_listed = IsListed-insert md m.modules m.module_order r.is_listed a.is_new a.has_name;
      nodup = Nodup-snoc m.module_order (key_of md) r.nodup (
          not-In_order md m.modules m.module_order r.is_listed a.is_new m.module_order
            r.is_listed.registered);
    }))

register_module-add_module :
    (md : Module) (m : Manager)
    → m.state ≡ LifecycleState.configuring
    → register_module (some md) m ≡ add_module md m
unfolding register_module
register_module-add_module md m e = rw e

-- Registering a module, whether it is accepted or refused, keeps the registry in order: the list of
-- names holds every registered name once and no other, each module is filed under its own trimmed
-- name, and no module is filed under the empty name.
pub register_module-IsRegistered :
    (c : Option Module) (m : Manager) → IsRegistered m → IsRegistered (register_module c m).0
register_module-IsRegistered c m r = elim (Option-cases (register_module c m).1) [
  | inr (e, bad) ↦ subst IsRegistered (sym (register_module_error_unchanged c m bad)) r
  | inl good ↦
      let (md, same, a) = (register_module-ok_iff c m).0 good in
      subst (λ o. IsRegistered (register_module o m).0) (sym same)
        (subst (λ (reply : Reply). IsRegistered reply.0)
          (sym (register_module-add_module md m a.open_state)) (add_module-IsRegistered md m a r))
]

-- A service registered under a name is what that name resolves to, and every other name resolves as
-- before; names are compared without the white space around them.
pub resolve_service-register_service :
    (raw other : String) (svc : Service) (m : Manager)
    → (register_service raw svc m).1 ≡ none
    → resolve_service other (register_service raw svc m).0
      ≡ (if trim_space raw == trim_space other then (svc, none) else resolve_service other m)
unfolding register_service resolve_service
resolve_service-register_service raw other svc m h = ground (
  arith,
  eq_iff (trim_space raw) (trim_space other),
  eq_iff (trim_space raw) "",
  eq_iff (trim_space other) "",
  lookup-insert (trim_space raw) (trim_space other) svc m.services,
)

-- A service can be registered.
pub record IsAcceptable (m : Manager) (raw : String) (svc : Service) : Type 0 where
  pub unlocked : (m.state ≡ LifecycleState.configuring) ⊎ (m.state ≡ LifecycleState.initializing)
  pub has_name : trim_space raw ≢ ""
  pub not_nil : is_nil_service_value svc ≡ false
  pub is_new : lookup (trim_space raw) m.services ≡ none

IsAcceptable-of_ok :
    (raw : String) (svc : Service) (m : Manager)
    → (register_service raw svc m).1 ≡ none
    → IsAcceptable m raw svc
unfolding register_service
IsAcceptable-of_ok raw svc m h = record {
  unlocked = ground arith;
  has_name = λ e. ground (arith, eq_iff (trim_space raw) "");
  not_nil = ground arith;
  is_new = ground arith;
}

ok_of_acceptable :
    (raw : String) (svc : Service) (m : Manager)
    → IsAcceptable m raw svc
    → (register_service raw svc m).1 ≡ none
unfolding register_service
ok_of_acceptable raw svc m a =
    rw (test_of_ne (trim_space raw) "" a.has_name)
      (rw a.not_nil (rw a.is_new (elim a.unlocked [ inl e ↦ rw e | inr e ↦ rw e ])))

-- A service is accepted exactly when the manager is being configured or initialized, its trimmed name
-- is not empty and not in use, and its value is not nil, neither as an interface nor inside one.
pub register_service-ok_iff :
    (raw : String) (svc : Service) (m : Manager)
    → ((register_service raw svc m).1 ≡ none) ↔ IsAcceptable m raw svc
register_service-ok_iff raw svc m = (IsAcceptable-of_ok raw svc m, ok_of_acceptable raw svc m)

-- Once initialization is over, every registration of a service or of a module fails with
-- ErrRegistryLocked and changes nothing.
pub register_locked :
    (m : Manager) (raw : String) (svc : Service) (c : Option Module)
    → m.state ≢ LifecycleState.configuring
    → m.state ≢ LifecycleState.initializing
    → (register_service raw svc m ≡ (m, some (Error.in_state Sentinel.registry_locked m.state)))
      × (register_module c m ≡ (m, some (Error.in_state Sentinel.registry_locked m.state)))
unfolding register_service register_module
register_locked m raw svc c h k = (ground arith, ground arith)

-- No registration of a check, accepted or refused, takes away or replaces a check that is registered.
pub register_check_keeps :
    (bad nil_check : Sentinel) (name other : String) (check f : Func) (checks : Assoc Func)
    → lookup other checks ≡ some f
    → lookup other (register_check bad nil_check name check checks).0 ≡ some f
unfolding register_check
register_check_keeps bad nil_check name other check f checks h = ground (
  arith,
  eq_iff (trim_space name) "",
  eq_iff (trim_space name) other,
  lookup-insert (trim_space name) other check checks,
)

fresh-IsRegistered : (c : Config) → IsRegistered (fresh c)
fresh-IsRegistered c = record {
  is_listed = record {
    listed = λ n x e. cc;
    registered = tt;
    keyed = λ n x e. cc;
    named = λ x e. cc;
  };
  nodup = tt;
}

-- A manager that NewManager returns has its registry in order, is being configured, and has a panic
-- policy of the enumeration.
pub new_manager-IsRegistered :
    (opts : List ManagerOption) (m : Manager)
    → new_manager opts ≡ created m
    → IsRegistered m × (m.state ≡ LifecycleState.configuring) × (valid_policy m.panic_policy ≡ true)
unfolding new_manager
new_manager-IsRegistered opts m h = elim (Bool-cases (valid_policy c.policy)) [
  | inl e ↦
      subst
        (λ k.
          IsRegistered k
          × (k.state ≡ LifecycleState.configuring)
          × (valid_policy k.panic_policy ≡ true))
        (created_inj (rw e at h)) (fresh-IsRegistered c, refl, e)
  | inr e ↦ absurd (clash (rw e at h))
]
  where
    c : Config
    c = apply_options opts defaults

    created_inj : {a b : Manager} → created a ≡ created b → a ≡ b
    created_inj h = cc

    clash : {e : Error} {b : Manager} → refused e ≡ created b → ⊥
    clash h = cc
