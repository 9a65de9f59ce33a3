-- ===== src/Approval/Decisions.antt =====
-- When a check passes (approval/broker.go: Check, CheckToken, DryRunCheck, DryRunCheckToken).
use modulex.Prelude.{
  ℕ, ◌<◌, String, ◌≡◌, refl, subst, ◌≢◌, ◌↔◌, inl, inr, false, Option, none, some, [], ◌∷◌, ◌==◌,
  if◌then◌else◌, arith, Assoc, lookup, Bool-cases, Option-cases, eq_of_test,
}
use text.Mathlib.TextEquality.{eq_iff}
use modulex.Approval.{
  Scope, Grant, Broker, Status, is_dead, expired, prune, matches_scope, find_match, consume, look,
  check, check_token, dry_run_check, dry_run_check_token, best_match,
}

-- The broker files each grant under its own token, once.
abbrev pub IsFiled : Assoc Grant → Type 0
IsFiled m = (t : String) (g : Grant) → lookup t m ≡ some g → g.token ≡ t

-- Every key occurs once, so that a lookup sees every grant.
abbrev pub KeysOnce : Assoc Grant → Type 0
KeysOnce [] = Unit
KeysOnce ((t, g) ∷ m) = (lookup t m ≡ none) × KeysOnce m

pub lookup-prune-none :
    (t : String) (now : ℕ) (m : Assoc Grant) → lookup t m ≡ none → lookup t (prune now m) ≡ none
unfolding prune
lookup-prune-none t now [] h = refl
lookup-prune-none t now ((k, g) ∷ m) h = ground (arith, lookup-prune-none t now m)

-- The grant that survives the pruning.
abbrev pub alive : ℕ → Option Grant → Option Grant
alive now none = none
alive now (some g) = if is_dead now g then none else some g

pub lookup-prune :
    (t : String) (now : ℕ) (m : Assoc Grant)
    → KeysOnce m
    → lookup t (prune now m) ≡ alive now (lookup t m)
unfolding prune
lookup-prune t now [] once = refl
lookup-prune t now ((k, g) ∷ m) once = elim (Bool-cases (k == t)) [
  | inl e ↦
      let gone =
        lookup-prune-none t now m (subst (λ n. lookup n m ≡ none) (eq_of_test k t e) once.0) in
      ground (arith, gone)
  | inr e ↦ let rest = lookup-prune t now m once.1 in ground (arith, rest)
]

-- The token authorizes the scope at this time.
pub record IsCovered (m : Assoc Grant) (now : ℕ) (t : String) (s : Scope) (g : Grant) : Type 0 where
  pub stored : lookup t m ≡ some g
  pub unused : g.used ≡ false
  pub unexpired : now < g.expires_at
  pub same_action : g.scope.action ≡ s.action
  pub same_resource : g.scope.resource ≡ s.resource

pub IsCovered-of_pass :
    (t : String) (s : Scope) (now : ℕ) (b : Broker)
    → KeysOnce b.grants
    → (check_token t s now b).1 ≡ Status.pass
    → (t ≢ "") × ((g : Grant) × IsCovered b.grants now t s g)
unfolding check_token matches_scope expired
IsCovered-of_pass t s now b once h = elim (Option-cases (lookup t b.grants)) [
  | inl e ↦ let p = lookup-prune t now b.grants once in absurd (ground (arith, p))
  | inr (g, e) ↦
      let p = lookup-prune t now b.grants once in
      let q1 = eq_iff g.scope.action s.action in
      let q2 = eq_iff g.scope.resource s.resource in
      (
        λ empty. ground (arith, eq_iff t ""),
        (
          g,
          record {
            stored = e;
            unused = ground (arith, p, q1, q2);
            unexpired = ground (arith, p, q1, q2);
            same_action = ground (arith, p, q1, q2);
            same_resource = ground (arith, p, q1, q2);
          },
        ),
      )
]

pub pass_of_covered :
    (t : String) (s : Scope) (now : ℕ) (b : Broker) (g : Grant)
    → KeysOnce b.grants
    → t ≢ ""
    → IsCovered b.grants now t s g
    → (check_token t s now b).1 ≡ Status.pass
unfolding check_token matches_scope expired
pass_of_covered t s now b g once has c =
    let p = lookup-prune t now b.grants once in
    let q1 = eq_iff g.scope.action s.action in
    let q2 = eq_iff g.scope.resource s.resource in
    let q3 = eq_iff t "" in ground (arith, p, q1, q2, q3, c)

-- CheckToken passes exactly when the token is not empty and is that of a stored grant which is unused
-- and unexpired and covers exactly the action and the resource asked for.
pub check_token-pass_iff :
    (t : String) (s : Scope) (now : ℕ) (b : Broker)
    → KeysOnce b.grants
    → ((check_token t s now b).1 ≡ Status.pass)
      ↔ ((t ≢ "") × ((g : Grant) × IsCovered b.grants now t s g))
check_token-pass_iff t s now b once =
    (IsCovered-of_pass t s now b once, λ (has, (g, c)). pass_of_covered t s now b g once has c)

-- A dry run answers what the check of the same arguments answers, and marks no grant: its broker is
-- the old one, with at most the dead grants removed.
pub dry_run-check :
    (t : String) (s : Scope) (now : ℕ) (b : Broker)
    → ((dry_run_check s now b).1 ≡ (check s now b).1)
      × ((dry_run_check_token t s now b).1 ≡ (check_token t s now b).1)
      × ((dry_run_check s now b).0.grants ≡ prune now b.grants)
unfolding dry_run_check dry_run_check_token check check_token
dry_run-check t s now b = (
  same (find_match "" s now b),
  ground (arith, same (find_match t s now b)),
  kept (prune now b.grants) (best_match s none (prune now b.grants)),
)
  where
    same : (r : Assoc Grant × Option Grant) → (look r).1 ≡ (consume r).1
    same (m, none) = refl
    same (m, some g) = refl

    kept : (m : Assoc Grant) (o : Option Grant) → (look (m, o)).0.grants ≡ m
    kept m none = refl
    kept m (some g) = refl
