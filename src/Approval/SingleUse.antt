-- ===== src/Approval/SingleUse.antt =====
-- A grant is used once (approval/broker.go): the checks that pass on a grant are no more than those given.
use modulex.Prelude.{
  ℕ, Bool, ◌≤◌, ◌+◌, String, ◌≡◌, refl, ◌∙◌, ap, ◌≢◌, inl, inr, true, false, Option, none, some,
  List, [], ◌∷◌, ◌==◌, arith, Assoc, lookup, insert, lookup-insert, Option-cases, test_of_ne,
}
use text.Mathlib.TextEquality.{eq_iff}
use modulex.Approval.{
  Scope, Grant, Broker, new_broker, Status, Duration, Granted, GrantError, prune, match_token,
  find_match, check, check_token, dry_run_check, dry_run_check_token, mark_used, grant,
}
use modulex.Approval.Decisions.{IsCovered-of_pass}
use modulex.Approval.Kept.{IsKept, prune-IsKept, insert-IsKept, match_token-lookup}
use modulex.Approval.Spending.{
  one_if, one_if_unused_le, spent_on, spent_token, unused, unused-prune, unused-insert,
  consume-Spends, look-Spends, check_token-Spends, dry_run_check_token-IsKept,
}

-- The calls that a broker receives, each with the broker's clock.
pub data Request : Type 0 where
  ask_grant : Scope → String → Duration → Option String → ℕ → Request
  ask : Scope → ℕ → Request
  ask_token : String → Scope → ℕ → Request
  preview : Scope → ℕ → Request
  preview_token : String → Scope → ℕ → Request

abbrev pub grants_given : (String → Bool) → Granted → ℕ
grants_given within (Granted.granted g) = one_if (within g.token)
grants_given within (Granted.refused e) = 0

-- A broker with how many grants it gave with a token in a set and how many checks passed on such a one.
pub record Tally : Type 0 where
  pub broker : Broker
  pub given : ℕ
  pub passed : ℕ

module _ (hash_token : String → String) (within : String → Bool) where
  pub serve : Request → Tally → Tally
  serve (ask_grant s who ttl random now) t =
      let (b, r) = grant hash_token s who ttl random now t.broker in
      record t { broker = b; given = t.given + grants_given within r }
  serve (ask s now) t =
      let (b, r) = check s now t.broker in
      record t {
        broker = b;
        passed = t.passed + spent_on within r (find_match "" s now t.broker).1;
      }
  serve (ask_token token s now) t =
      let (b, r) = check_token token s now t.broker in
      record t { broker = b; passed = t.passed + spent_token within r token }
  serve (preview s now) t = record t { broker = (dry_run_check s now t.broker).0 }
  serve (preview_token token s now) t = record t {
    broker = (dry_run_check_token token s now t.broker).0;
  }

  pub serve_all : List Request → Tally → Tally
  serve_all [] t = t
  serve_all (r ∷ rs) t = serve_all rs (serve r t)

  -- The unused grants and the checks that passed are covered by the grants given.
  pub record IsCovering (t : Tally) : Type 0 where
    pub kept : IsKept t.broker.grants
    pub covered : unused within t.broker.grants + t.passed ≤ t.given

  grant_refused :
      (s : Scope) (who : String) (ttl : Duration) (random : Option String) (now : ℕ) (b : Broker)
      (e : GrantError)
      → (grant hash_token s who ttl random now b).1 ≡ Granted.refused e
      → (grant hash_token s who ttl random now b).0 ≡ b
  unfolding grant
  grant_refused s who ttl random now b e h = ground arith

  grant_given :
      (s : Scope) (who : String) (ttl : Duration) (random : Option String) (now : ℕ) (b : Broker)
      (g : Grant)
      → (grant hash_token s who ttl random now b).1 ≡ Granted.granted g
      → (grant hash_token s who ttl random now b).0
        ≡ record { grants = insert g.token g (prune now b.grants) }
  unfolding grant
  grant_given s who ttl random now b g h = ground arith

  grant-IsCovering :
      (s : Scope) (who : String) (ttl : Duration) (random : Option String) (now : ℕ) (t : Tally)
      → IsCovering t
      → IsCovering (serve (ask_grant s who ttl random now) t)
  unfolding serve
  grant-IsCovering s who ttl random now t c =
      go (grant hash_token s who ttl random now t.broker).1 refl
    where
      go :
          (r : Granted)
          → (grant hash_token s who ttl random now t.broker).1 ≡ r
          → IsCovering (serve (ask_grant s who ttl random now) t)
      go (Granted.refused e) q =
          rw (q, grant_refused s who ttl random now t.broker e q)
            (record { kept = c.kept; covered = omega (arith, c.covered) })
      go (Granted.granted g) q =
          let k = prune-IsKept now t.broker.grants c.kept in
          let low = unused-prune within now t.broker.grants in
          let one = unused-insert within g.token g (prune now t.broker.grants) in
          rw (q, grant_given s who ttl random now t.broker g q)
            (record {
              kept = insert-IsKept g (prune now t.broker.grants) k;
              covered = omega (arith, c.covered, low, one, one_if_unused_le within g);
            })

  serve-IsCovering : (r : Request) (t : Tally) → IsCovering t → IsCovering (serve r t)
  unfolding serve
  serve-IsCovering (ask_grant s who ttl random now) t c = grant-IsCovering s who ttl random now t c
  serve-IsCovering (ask s now) t c =
      unfold check in
      let p = consume-Spends within "" s now t.broker c.kept in
      record { kept = p.kept; covered = omega (arith, p.spent, c.covered) }
  serve-IsCovering (ask_token token s now) t c =
      let p = check_token-Spends within token s now t.broker c.kept in
      record { kept = p.kept; covered = omega (arith, p.spent, c.covered) }
  serve-IsCovering (preview s now) t c =
      unfold dry_run_check in
      let (k, low) = look-Spends within "" s now t.broker c.kept in
      record { kept = k; covered = omega (arith, low, c.covered) }
  serve-IsCovering (preview_token token s now) t c =
      let (k, low) = dry_run_check_token-IsKept within token s now t.broker c.kept in
      record { kept = k; covered = omega (arith, low, c.covered) }

  serve_all-IsCovering :
      (rs : List Request) (t : Tally) → IsCovering t → IsCovering (serve_all rs t)
  unfolding serve_all
  serve_all-IsCovering [] t c = c
  serve_all-IsCovering (r ∷ rs) t c = serve_all-IsCovering rs (serve r t) (serve-IsCovering r t c)

abbrev pub fresh_tally : Tally
fresh_tally = record { broker = new_broker; given = 0; passed = 0 }

-- From a new broker, in any sequence of requests at any times and for any set of tokens, the checks that
-- pass on a grant with a token of the set are never more than the grants that were given with one: for
-- the set of all tokens, nothing is approved by default, and for a single token, its grant is not used
-- twice. CheckToken passes on the token that it is given and Check on the grant that findMatch returns; a
-- pass without a grant counts for every set.
pub passed-le-given :
    (hash_token : String → String) (within : String → Bool) (rs : List Request)
    → (serve_all hash_token within rs fresh_tally).passed
      ≤ (serve_all hash_token within rs fresh_tally).given
passed-le-given hash_token within rs =
    let c = serve_all-IsCovering hash_token within rs fresh_tally start in omega (arith, c.covered)
  where
    start : IsCovering hash_token within fresh_tally
    start =
        unfold new_broker in
        record { kept = record { once = tt; filed = λ t g e. cc }; covered = omega arith }

not_pass : (x : Status) → x ≢ Status.pass → x ≡ Status.approval_required
not_pass Status.pass h = absurd (h refl)
not_pass Status.approval_required h = refl

marked_state :
    (t : String) (s : Scope) (now : ℕ) (b : Broker) (g : Grant)
    → (t == "") ≡ false
    → match_token t s (prune now b.grants) ≡ some g
    → (check_token t s now b).0.grants ≡ mark_used g (prune now b.grants)
unfolding check_token
marked_state t s now b g e q = rw (e, q) refl

unmatched :
    (t : String) (s : Scope) (now : ℕ) (b : Broker)
    → match_token t s (prune now b.grants) ≡ none
    → (check_token t s now b).1 ≢ Status.pass
unfolding check_token
unmatched t s now b q h = ground arith

-- After a pass the token names a used grant.
used_after_pass :
    (t : String) (s : Scope) (now : ℕ) (b : Broker)
    → IsKept b.grants
    → (check_token t s now b).1 ≡ Status.pass
    → (g : Grant) × (lookup t (check_token t s now b).0.grants ≡ some (record g { used = true }))
used_after_pass t s now b k h = elim (Option-cases (match_token t s (prune now b.grants))) [
  | inl q ↦ absurd (unmatched t s now b q h)
  | inr (g, q) ↦
      let has = (IsCovered-of_pass t s now b k.once h).0 in
      let own =
        (prune-IsKept now b.grants k).filed t g (match_token-lookup t s (prune now b.grants) g q) in
      (
        g,
        ap (lookup t) (marked_state t s now b g (test_of_ne t "" has) q)
            ∙ marked_lookup t g (prune now b.grants) own,
      )
]
  where
    marked_lookup :
        (t : String) (g : Grant) (m : Assoc Grant)
        → g.token ≡ t
        → lookup t (mark_used g m) ≡ some (record g { used = true })
    marked_lookup t g m own =
        let p = lookup-insert g.token t (record g { used = true }) m in
        ground (arith, p, own, eq_iff g.token t)

-- A token passes once: after CheckToken passed for it, no later CheckToken with it passes, for any scope
-- and at any time, while the broker has done nothing else.
pub check_token_once :
    (t : String) (s s' : Scope) (now now' : ℕ) (b : Broker)
    → IsKept b.grants
    → (check_token t s now b).1 ≡ Status.pass
    → (check_token t s' now' (check_token t s now b).0).1 ≡ Status.approval_required
check_token_once t s s' now now' b k h =
    not_pass (check_token t s' now' (check_token t s now b).0).1 again
  where
    again : (check_token t s' now' (check_token t s now b).0).1 ≢ Status.pass
    again h' =
        let (g, e) = used_after_pass t s now b k h in
        let (x, c) =
          (IsCovered-of_pass t s' now' (check_token t s now b).0
            (check_token-Spends (λ x. true) t s now b k).kept.once h').1 in
        clash g x e c.stored c.unused
      where
        clash :
            {o : Option Grant} (g x : Grant)
            → o ≡ some (record g { used = true })
            → o ≡ some x
            → x.used ≢ false
        clash g x e f u = cc
