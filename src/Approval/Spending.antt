-- ===== src/Approval/Spending.antt =====
-- What a check takes from the unused grants of the broker (approval/broker.go: Check, CheckToken and their
-- dry runs).
use modulex.Prelude.{
  ℕ, Bool, ◌≤◌, ◌+◌, String, ◌≡◌, refl, sym, ap, subst, inl, inr, true, false, Option, none, some,
  [], ◌∷◌, ◌==◌, if◌then◌else◌, arith, Assoc, lookup, insert, Bool-cases,
}
use modulex.Approval.{
  Scope, Grant, Broker, Status, is_dead, prune, find_match, consume, look, check_token,
  dry_run_check_token,
}
use modulex.Approval.Kept.{
  IsKept, prune-IsKept, insert-IsKept, IsFound, match_token-lookup, IsFound-of_match,
}

-- One for a token of the set.
abbrev pub one_if : Bool → ℕ
one_if b = if b then 1 else 0

-- How many grants are unused, of those with a token in the set.
abbrev pub one_if_unused : (String → Bool) → Grant → ℕ
one_if_unused within g = if g.used then 0 else one_if (within g.token)

abbrev pub unused : (String → Bool) → Assoc Grant → ℕ
unused within [] = 0
unused within ((t, g) ∷ m) = one_if_unused within g + unused within m

-- A check that passed on the grant found, if its token is in the set; a pass without a grant always counts.
abbrev pub spent_on : (String → Bool) → Status → Option Grant → ℕ
spent_on within Status.approval_required o = 0
spent_on within Status.pass none = 1
spent_on within Status.pass (some g) = one_if (within g.token)

-- A check of a token that passed, if the token is in the set.
abbrev pub spent_token : (String → Bool) → Status → String → ℕ
spent_token within Status.approval_required token = 0
spent_token within Status.pass token = one_if (within token)

pub one_if_unused_le :
    (within : String → Bool) (g : Grant) → one_if_unused within g ≤ one_if (within g.token)
one_if_unused_le within g = ground arith

module _ (within : String → Bool) where
  pub unused-prune : (now : ℕ) (m : Assoc Grant) → unused within (prune now m) ≤ unused within m
  unfolding prune
  unused-prune now [] = omega arith
  unused-prune now ((t, g) ∷ m) = let rest = unused-prune now m in ground (arith, rest)

  pub unused-insert :
      (k : String) (g : Grant) (m : Assoc Grant)
      → unused within (insert k g m) ≤ unused within m + one_if_unused within g
  unused-insert k g [] = ground arith
  unused-insert k g ((t, x) ∷ m) = let rest = unused-insert k g m in ground (arith, rest)

  -- Marking a stored grant as used takes it from the count.
  unused-mark :
      (k : String) (g x : Grant) (m : Assoc Grant)
      → lookup k m ≡ some g
      → g.used ≡ false
      → x.used ≡ true
      → unused within (insert k x m) + one_if (within g.token) ≡ unused within m
  unused-mark k g x [] e u v = cc
  unused-mark k g x ((t, y) ∷ m) e u v = elim (Bool-cases (t == k)) [
    | inl same ↦ let y_is_g : some y ≡ some g = rw same at e in rw same (marked y (some_inj y_is_g))
    | inr d ↦ let rest = unused-mark k g x m (rw d at e) u v in ground (arith, rest)
  ]
    where
      some_inj : {a b : Grant} → some a ≡ some b → a ≡ b
      some_inj h = cc

      marked :
          (y : Grant)
          → y ≡ g
          → one_if_unused within x + unused within m + one_if (within g.token)
            ≡ one_if_unused within y + unused within m
      marked y same = rw (same, u, v) (omega arith)

  -- A check keeps the map in order, and takes what it spends from the unused grants.
  pub record Spends (n : ℕ) (b : Broker) (r : Broker × Status) : Type 0 where
    pub kept : IsKept r.0.grants
    pub spent : unused within r.0.grants + n ≤ unused within b.grants

  Spends-found :
      (now : ℕ) (b : Broker) (m : Assoc Grant) (o : Option Grant)
      → IsKept m
      → unused within m ≤ unused within b.grants
      → ((g : Grant) → o ≡ some g → IsFound now m g)
      → Spends (spent_on within (consume (m, o)).1 o) b (consume (m, o))
  Spends-found now b m none k low found = record { kept = k; spent = omega (arith, low) }
  Spends-found now b m (some g) k low found =
      let f = found g refl in
      let off = live_unused g f.not_dead in
      record {
        kept = insert-IsKept (record g { used = true }) m k;
        spent =
            omega
              (arith, low, unused-mark g.token g (record g { used = true }) m f.stored off refl);
      }
    where
      live_unused : (g : Grant) → is_dead now g ≡ false → g.used ≡ false
      live_unused g h = ground arith

  pub consume-Spends :
      (t : String) (s : Scope) (now : ℕ) (b : Broker)
      → IsKept b.grants
      → Spends
          (spent_on within (consume (find_match t s now b)).1 (find_match t s now b).1)
          b
          (consume (find_match t s now b))
  unfolding find_match
  consume-Spends t s now b k =
      Spends-found now b (prune now b.grants) (find_match t s now b).1 (prune-IsKept now b.grants k)
        (unused-prune now b.grants) (λ g e. IsFound-of_match t s now b g k e)

  pub look-Spends :
      (t : String) (s : Scope) (now : ℕ) (b : Broker)
      → IsKept b.grants
      → IsKept (look (find_match t s now b)).0.grants
        × (unused within (look (find_match t s now b)).0.grants ≤ unused within b.grants)
  unfolding find_match
  look-Spends t s now b k = go (find_match t s now b).1
    where
      go :
          (o : Option Grant)
          → IsKept (look (prune now b.grants, o)).0.grants
            × (unused within (look (prune now b.grants, o)).0.grants ≤ unused within b.grants)
      go none = (prune-IsKept now b.grants k, unused-prune now b.grants)
      go (some g) = (prune-IsKept now b.grants k, unused-prune now b.grants)

check_token_named :
    (t : String) (s : Scope) (now : ℕ) (b : Broker)
    → (t == "") ≡ false
    → check_token t s now b ≡ consume (find_match t s now b)
unfolding check_token
check_token_named t s now b e = rw e refl

check_token_empty :
    (t : String) (s : Scope) (now : ℕ) (b : Broker)
    → (t == "") ≡ true
    → check_token t s now b ≡ (b, Status.approval_required)
unfolding check_token
check_token_empty t s now b e = rw e refl

-- The grant that findMatch returns for a token has the token.
find_match-token :
    (t : String) (s : Scope) (now : ℕ) (b : Broker) (g : Grant)
    → (t == "") ≡ false
    → IsKept b.grants
    → (find_match t s now b).1 ≡ some g
    → g.token ≡ t
unfolding find_match
find_match-token t s now b g e k h =
    (prune-IsKept now b.grants k).filed t g
      (match_token-lookup t s (prune now b.grants) g (rw e at h))

module _ (within : String → Bool) where
  spent_on-token :
      (t : String) (r : Assoc Grant × Option Grant)
      → ((g : Grant) → r.1 ≡ some g → g.token ≡ t)
      → spent_on within (consume r).1 r.1 ≡ spent_token within (consume r).1 t
  spent_on-token t (m, none) h = refl
  spent_on-token t (m, some g) h = ap (λ x. one_if (within x)) (h g refl)

  pub check_token-Spends :
      (t : String) (s : Scope) (now : ℕ) (b : Broker)
      → IsKept b.grants
      → Spends within (spent_token within (check_token t s now b).1 t) b (check_token t s now b)
  check_token-Spends t s now b k = elim (Bool-cases (t == "")) [
    | inl e ↦
        subst (λ r. Spends within (spent_token within r.1 t) b r)
          (sym (check_token_empty t s now b e)) (record { kept = k; spent = omega arith })
    | inr e ↦
        subst (λ r. Spends within (spent_token within r.1 t) b r)
          (sym (check_token_named t s now b e))
          (subst (λ n. Spends within n b (consume (find_match t s now b)))
            (spent_on-token t (find_match t s now b) (λ g h. find_match-token t s now b g e k h))
            (consume-Spends within t s now b k))
  ]

  pub dry_run_check_token-IsKept :
      (t : String) (s : Scope) (now : ℕ) (b : Broker)
      → IsKept b.grants
      → IsKept (dry_run_check_token t s now b).0.grants
        × (unused within (dry_run_check_token t s now b).0.grants ≤ unused within b.grants)
  dry_run_check_token-IsKept t s now b k = elim (Bool-cases (t == "")) [
    | inl e ↦ subst Keeps (sym (empty e)) (k, omega arith)
    | inr e ↦ subst Keeps (sym (named e)) (look-Spends within t s now b k)
  ]
    where
      Keeps : Broker × Status → Type 0
      Keeps r = IsKept r.0.grants × (unused within r.0.grants ≤ unused within b.grants)

      empty : (t == "") ≡ true → dry_run_check_token t s now b ≡ (b, Status.approval_required)
      empty e = unfold dry_run_check_token in rw e refl

      named : (t == "") ≡ false → dry_run_check_token t s now b ≡ look (find_match t s now b)
      named e = unfold dry_run_check_token in rw e refl
