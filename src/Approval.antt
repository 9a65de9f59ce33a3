-- ===== src/Approval.antt =====
-- The approval broker and its file store (approval/approval.go, approval/broker.go,
-- approval/store.go). Instants are numbers, the zero time is 0. A grant is reached through the map of
-- the broker only, under its token, so the map holds the grants themselves.
pub mod Decisions
pub mod Kept
pub mod Spending
pub mod SingleUse
pub mod Storing
use modulex.Prelude.{
  ℕ, ◌+◌, String, Bool, true, false, not, ◌&&◌, ◌||◌, Option, none, some, List, [], ◌∷◌, ◌==◌,
  if◌then◌else◌, ltb, nat_eq, text_leb, Assoc, lookup, insert,
}

-- approval.Scope
pub record Scope : Type 0 where
  pub action : String
  pub resource : String

-- approval.Grant
pub record Grant : Type 0 where
  pub token : String
  pub token_hash : String
  pub scope : Scope
  pub approved_by : String
  pub approved_at : ℕ
  pub expires_at : ℕ
  pub used : Bool

-- Grant.expired
unfoldable pub expired : ℕ → Grant → Bool
expired now g = if nat_eq g.expires_at 0 then true else not (ltb now g.expires_at)

-- Grant.matchesScope
unfoldable pub matches_scope : Scope → Grant → Bool
matches_scope s g = g.scope.action == s.action && g.scope.resource == s.resource

-- approval.Broker; its clock is an argument of each operation.
pub record Broker : Type 0 where
  pub grants : Assoc Grant

unfoldable pub new_broker : Broker
new_broker = record { grants = [] }

-- provenance.StatusPass and provenance.StatusApprovalRequired
pub data Status : Type 0 where
  pass approval_required : Status

pub data GrantError : Type 0 where
  empty_action empty_approver non_positive_ttl no_random : GrantError

-- A time.Duration: so much, or less than nothing.
pub data Duration : Type 0 where
  lasting : ℕ → Duration
  negative : Duration

abbrev pub is_dead : ℕ → Grant → Bool
is_dead now g = g.used || expired now g

-- pruneLocked on the map.
unfoldable pub prune : ℕ → Assoc Grant → Assoc Grant
unfolding expired
prune now [] = []
prune now ((t, g) ∷ m) = let rest = prune now m in if is_dead now g then rest else (t, g) ∷ rest

-- The grant that Broker.Grant stores. The token and its hash come from generateToken.
abbrev pub new_grant : String → String → Scope → String → ℕ → ℕ → Grant
new_grant token hash scope approved_by now ttl = record {
  token = token;
  token_hash = hash;
  scope = scope;
  approved_by = approved_by;
  approved_at = now;
  expires_at = now + ttl;
  used = false;
}

pub data Granted : Type 0 where
  granted : Grant → Granted
  refused : GrantError → Granted

-- A positive duration.
abbrev pub positive : Duration → Option ℕ
positive Duration.negative = none
positive (Duration.lasting n) = if nat_eq n 0 then none else some n

module _ (hash_token : String → String) where
  -- Broker.Grant; `random` is the hex text of the random bytes, if they could be read.
  unfoldable pub grant : Scope → String → Duration → Option String → ℕ → Broker → Broker × Granted
  unfolding prune
  grant scope approved_by ttl random now b =
      if scope.action == ""
      then (b, refused GrantError.empty_action)
      else if approved_by == ""
      then (b, refused GrantError.empty_approver)
      else elim (positive ttl) [
        | none ↦ (b, refused GrantError.non_positive_ttl)
        | some n ↦ elim random [
          | none ↦ (b, refused GrantError.no_random)
          | some token ↦
              let g = new_grant token (hash_token token) scope approved_by now n in
              (record { grants = insert token g (prune now b.grants) }, granted g)
        ]
      ]

-- `a < b` on token hashes.
abbrev pub text_lt : String → String → Bool
text_lt a b = text_leb a b && not (a == b)

-- The test by which findMatch prefers `g` to the best grant so far.
unfoldable pub is_better : Grant → Grant → Bool
is_better g best =
    ltb g.approved_at best.approved_at
    || (nat_eq g.approved_at best.approved_at && text_lt g.token_hash best.token_hash)

unfoldable pub better : Grant → Option Grant → Option Grant
unfolding is_better
better g none = some g
better g (some best) = if is_better g best then some g else some best

-- The loop of findMatch over the grants, in the order in which the map gives them.
unfoldable pub best_match : Scope → Option Grant → Assoc Grant → Option Grant
unfolding better matches_scope
best_match s best [] = best
best_match s best ((t, g) ∷ m) = best_match s (if matches_scope s g then better g best else best) m

-- findMatch on the pruned map, by token.
unfoldable pub match_token : String → Scope → Assoc Grant → Option Grant
unfolding matches_scope
match_token token s m = elim (lookup token m) [
  | none ↦ none
  | some g ↦ if matches_scope s g then some g else none
]

-- findMatch: the pruned map and the grant found.
unfoldable pub find_match : String → Scope → ℕ → Broker → Assoc Grant × Option Grant
unfolding prune match_token best_match
find_match token s now b =
    let m = prune now b.grants in
    (m, if token == "" then best_match s none m else match_token token s m)

-- `g.Used = true` on the grant found.
abbrev pub mark_used : Grant → Assoc Grant → Assoc Grant
mark_used g m = insert g.token (record g { used = true }) m

-- What Check and CheckToken do with the grant found.
abbrev pub consume : Assoc Grant × Option Grant → Broker × Status
consume (m, none) = (record { grants = m }, Status.approval_required)
consume (m, some g) = (record { grants = mark_used g m }, Status.pass)

abbrev pub look : Assoc Grant × Option Grant → Broker × Status
look (m, none) = (record { grants = m }, Status.approval_required)
look (m, some g) = (record { grants = m }, Status.pass)

-- Broker.Check
unfoldable pub check : Scope → ℕ → Broker → Broker × Status
unfolding find_match
check s now b = consume (find_match "" s now b)

-- Broker.CheckToken
unfoldable pub check_token : String → Scope → ℕ → Broker → Broker × Status
unfolding find_match
check_token token s now b =
    if token == "" then (b, Status.approval_required) else consume (find_match token s now b)

-- Broker.DryRunCheck
unfoldable pub dry_run_check : Scope → ℕ → Broker → Broker × Status
unfolding find_match
dry_run_check s now b = look (find_match "" s now b)

-- Broker.DryRunCheckToken
unfoldable pub dry_run_check_token : String → Scope → ℕ → Broker → Broker × Status
unfolding find_match
dry_run_check_token token s now b =
    if token == "" then (b, Status.approval_required) else look (find_match token s now b)
