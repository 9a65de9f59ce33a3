-- ===== src/Approval/Kept.antt =====
-- What the map of the approval broker keeps (approval/broker.go: pruneLocked, findMatch).
use modulex.Prelude.{
  ℕ, String, ◌≡◌, refl, sym, ◌∙◌, ap, subst, ◌≢◌, ◌⊎◌, inl, inr, true, false, Option, none, some,
  [], ◌∷◌, ◌==◌, if◌then◌else◌, arith, Assoc, lookup, insert, lookup-insert, Bool-cases, test_self,
  test_of_ne, eq_of_test, String-cases,
}
use text.Mathlib.TextEquality.{eq_iff}
use modulex.Approval.{
  Scope, Grant, Broker, is_dead, prune, matches_scope, match_token, find_match, best_match, better,
  is_better,
}
use modulex.Approval.Decisions.{IsFiled, KeysOnce, alive, lookup-prune, lookup-prune-none}

-- What holds of a broker's map.
pub record IsKept (m : Assoc Grant) : Type 0 where
  pub once : KeysOnce m
  pub filed : IsFiled m

KeysOnce-prune : (now : ℕ) (m : Assoc Grant) → KeysOnce m → KeysOnce (prune now m)
unfolding prune
KeysOnce-prune now [] h = tt
KeysOnce-prune now ((t, g) ∷ m) h = elim (Bool-cases (is_dead now g)) [
  | inl e ↦ rw (e, prune) (KeysOnce-prune now m h.1)
  | inr e ↦ rw (e, prune) (lookup-prune-none t now m h.0, KeysOnce-prune now m h.1)
]

KeysOnce-insert : (k : String) (g : Grant) (m : Assoc Grant) → KeysOnce m → KeysOnce (insert k g m)
KeysOnce-insert k g [] h = (refl, tt)
KeysOnce-insert k g ((t, x) ∷ m) h = elim (Bool-cases (t == k)) [
  | inl e ↦ rw e (subst (λ n. lookup n m ≡ none) (eq_of_test t k e) h.0, h.1)
  | inr e ↦ rw e (rw (lookup-insert, swap e) h.0, KeysOnce-insert k g m h.1)
]
  where
    swap : (t == k) ≡ false → (k == t) ≡ false
    swap e = ground (arith, eq_iff t k, eq_iff k t)

pub prune-IsKept : (now : ℕ) (m : Assoc Grant) → IsKept m → IsKept (prune now m)
prune-IsKept now m k = record {
  once = KeysOnce-prune now m k.once;
  filed = λ t g e. k.filed t g (survived t g (sym (lookup-prune t now m k.once) ∙ e));
}
  where
    survived : (t : String) (g : Grant) → alive now (lookup t m) ≡ some g → lookup t m ≡ some g
    survived t g e = ground arith

pub insert-IsKept : (g : Grant) (m : Assoc Grant) → IsKept m → IsKept (insert g.token g m)
insert-IsKept g m k = record {
  once = KeysOnce-insert g.token g m k.once;
  filed = λ t x e. elim (String-cases g.token t) [
    | inl same ↦ some_token (sym (rw (lookup-insert, ← same, test_self g.token)) ∙ e) same
    | inr d ↦ k.filed t x (sym (rw (lookup-insert, test_of_ne g.token t d)) ∙ e)
  ];
}
  where
    some_token : {x : Grant} {t : String} → some g ≡ some x → g.token ≡ t → x.token ≡ t
    some_token e same = cc

-- A grant that a search returns is stored, under its token, and alive.
pub record IsFound (now : ℕ) (m : Assoc Grant) (g : Grant) : Type 0 where
  pub stored : lookup g.token m ≡ some g
  pub not_dead : is_dead now g ≡ false

better_cases :
    (g : Grant) (o : Option Grant) (x : Grant) → better g o ≡ some x → (x ≡ g) ⊎ (o ≡ some x)
unfolding better
better_cases g none x h = inl (cc)
better_cases g (some b) x h = elim (Bool-cases (is_better g b)) [
  | inl e ↦ inl (sym (some_inj (rw (e, better) at h)))
  | inr e ↦ inr (rw (e, better) at h)
]
  where
    some_inj : {a b : Grant} → some a ≡ some b → a ≡ b
    some_inj h = cc

best_match_cases :
    (s : Scope) (o : Option Grant) (m : Assoc Grant) (x : Grant)
    → KeysOnce m
    → best_match s o m ≡ some x
    → (o ≡ some x) ⊎ ((t : String) × (lookup t m ≡ some x))
unfolding best_match
best_match_cases s o [] x once h = inl h
best_match_cases s o ((t, g) ∷ m) x once h =
    elim (best_match_cases s (if matches_scope s g then better g o else o) m x once.1 h) [
      | inr (k, e) ↦ inr (k, later k e)
      | inl e ↦ elim (Bool-cases (matches_scope s g)) [
        | inr no_match ↦ inl (rw no_match at e)
        | inl yes_match ↦ elim (better_cases g o x (rw yes_match at e)) [
          | inl same ↦ inr (t, rw (test_self t) (ap some (sym same)))
          | inr old ↦ inl old
        ]
      ]
    ]
  where
    later : (k : String) → lookup k m ≡ some x → lookup k ((t, g) ∷ m) ≡ some x
    later k e = rw (test_of_ne t k (λ same. clash k same e)) e
      where
        clash : (k : String) → t ≡ k → lookup k m ≢ some x
        clash k same e = let e' = subst (λ n. lookup n m ≡ none) same once.0 in cc

-- Every grant of a pruned map is alive.
alive_of_lookup :
    (t : String) (now : ℕ) (m : Assoc Grant) (x : Grant)
    → KeysOnce m
    → lookup t (prune now m) ≡ some x
    → is_dead now x ≡ false
alive_of_lookup t now m x once e = go (lookup t m) (sym (lookup-prune t now m once) ∙ e)
  where
    go : (o : Option Grant) → alive now o ≡ some x → is_dead now x ≡ false
    go none h = cc
    go (some g) h = elim (Bool-cases (is_dead now g)) [
      | inl d ↦ absurd (clash g d h)
      | inr d ↦ live g d h
    ]
      where
        clash : (g : Grant) → is_dead now g ≡ true → alive now (some g) ≢ some x
        clash g d h = ground arith

        live :
            (g : Grant)
            → is_dead now g ≡ false
            → alive now (some g) ≡ some x
            → is_dead now x ≡ false
        live g d h = ground arith

IsFound-of_lookup :
    (t : String) (now : ℕ) (m : Assoc Grant) (x : Grant)
    → IsKept m
    → lookup t (prune now m) ≡ some x
    → IsFound now (prune now m) x
IsFound-of_lookup t now m x k e = record {
  stored =
      subst (λ n. lookup n (prune now m) ≡ some x) (sym ((prune-IsKept now m k).filed t x e)) e;
  not_dead = alive_of_lookup t now m x k.once e;
}

pub match_token-lookup :
    (t : String) (s : Scope) (m : Assoc Grant) (x : Grant)
    → match_token t s m ≡ some x
    → lookup t m ≡ some x
unfolding match_token
match_token-lookup t s m x h = ground arith

-- Whatever findMatch finds is a stored grant that is alive.
pub IsFound-of_match :
    (t : String) (s : Scope) (now : ℕ) (b : Broker) (x : Grant)
    → IsKept b.grants
    → (find_match t s now b).1 ≡ some x
    → IsFound now (prune now b.grants) x
unfolding find_match
IsFound-of_match t s now b x k h = elim (Bool-cases (t == "")) [
  | inl e ↦
      elim (best_match_cases s none (prune now b.grants) x (prune-IsKept now b.grants k).once
        (rw e at h)) [
          | inl bad ↦ absurd (clash bad)
          | inr (u, q) ↦ IsFound-of_lookup u now b.grants x k q
        ]
  | inr e ↦
      IsFound-of_lookup t now b.grants x k
        (match_token-lookup t s (prune now b.grants) x (rw e at h))
]
  where
    clash : none ≢ some x
    clash bad = cc
