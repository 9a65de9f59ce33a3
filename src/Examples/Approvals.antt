-- ===== src/Examples/Approvals.antt =====
-- The approval broker on test data (approval/broker.go).
use modulex.Prelude.{
  ◌==◌, ◌≤◌, String, ◌≡◌, refl, Option, none, ◌↔◌, ◌≢◌, false, some, List, [], ◌∷◌, lookup,
  String-cases, inl, inr, sym, ◌∙◌, subst, test_of_ne, arith,
}
use modulex.Approval.{Scope, Grant, Broker, Status, Duration, check_token}
use modulex.Approval.Decisions.{IsCovered, check_token-pass_iff}
use modulex.Approval.Storing.{StoredGrant, stored_grants, Disk, Files, save, load, found, load-save}
use modulex.Approval.Kept.{IsKept}
use modulex.Approval.SingleUse.{Request, serve_all, fresh_tally, passed-le-given}

abbrev deploy : Scope
deploy = record { action = "deploy"; resource = "prod" }

abbrev secret : String
secret = "c0ffee"

abbrev held : Grant
held = record {
  token = secret;
  token_hash = "h";
  scope = deploy;
  approved_by = "ann";
  approved_at = 10;
  expires_at = 70;
  used = false;
}

abbrev holding : Broker
holding = record { grants = (secret, held) ∷ [] }

holding-IsKept : IsKept holding.grants
holding-IsKept = record { once = (refl, tt); filed = filed }
  where
    some_token : {x y : Grant} → some x ≡ some y → x.token ≡ y.token
    some_token e = cc

    filed : (t : String) (g : Grant) → lookup t holding.grants ≡ some g → g.token ≡ t
    filed t g e = elim (String-cases secret t) [
      | inl same ↦
          some_token (sym e ∙ subst (λ n. lookup n holding.grants ≡ some held) same refl) ∙ same
      | inr d ↦ absurd (missed t d e)
    ]
      where
        missed : (t : String) → secret ≢ t → lookup t holding.grants ≢ some g
        missed t d e = let p = test_of_ne secret t d in ground (arith, p)

check_token-pass_iff_example :
    ((check_token secret deploy 20 holding).1 ≡ Status.pass)
    ↔ ((secret ≢ "") × ((g : Grant) × IsCovered holding.grants 20 secret deploy g))
check_token-pass_iff_example = check_token-pass_iff secret deploy 20 holding (refl, tt)

abbrev asked : List Request
asked =
    Request.ask_grant deploy "ann" (Duration.lasting 60) (some secret) 10
    ∷ Request.ask_token secret deploy 20
    ∷ Request.ask deploy 30
    ∷ []

passed-le-given_example :
    (serve_all (λ t. t) (λ t. t == secret) asked fresh_tally).passed
    ≤ (serve_all (λ t. t) (λ t. t == secret) asked fresh_tally).given
passed-le-given_example = passed-le-given (λ t. t) (λ t. t == secret) asked

-- A codec that knows one list, and a hash that is the token.
abbrev write_all : List StoredGrant → Option String
write_all gs = some "all"

abbrev read_all : String → Option (List StoredGrant)
read_all text = some (stored_grants holding.grants)

abbrev plain_hash : String → String
plain_hash t = "h"

abbrev healthy : Disk
healthy = record {
  mkdir_err = none;
  write_err = none;
  partial = none;
  rename_err = none;
  read_err = none;
}

abbrev no_files : Files
no_files = record { file = none; tmp = none }

abbrev failing : Disk
failing = record healthy { write_err = some "no space"; partial = some "a" }

load-save_example :
    ((load write_all read_all plain_hash healthy
        (save write_all read_all plain_hash healthy holding no_files).0).1
      ≡ none)
    × ((t : String)
        → found write_all read_all plain_hash t (
            load write_all read_all plain_hash healthy
              (save write_all read_all plain_hash healthy holding no_files).0)
          ≡ lookup t holding.grants)
unfolding save
load-save_example =
    load-save write_all read_all plain_hash healthy healthy holding no_files (λ text e. refl)
      (refl, tt) ((refl, refl), tt) refl refl
