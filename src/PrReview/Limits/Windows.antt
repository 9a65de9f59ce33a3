-- ===== src/PrReview/Limits/Windows.antt =====
-- What the rate limiter grants (services/prreview/ratelimit/ratelimit.go): as a limiter that never sweeps.
use modulex.Prelude.{
  ℕ, suc, ◌-◌, ◌≤◌, ◌≡◌, refl, sym, ◌∙◌, ap, subst, Bool, true, false, Option, none, some, List, [],
  ◌∷◌, if◌then◌else◌, ltb, leb, nat_eq, arith, Bool-cases, inl, inr,
}
use modulex.PrReview.Limits.{
  WindowCount, Limiter, new_limiter, drop_over, sweep, current, put, count_call, allow, allow_all,
}

-- The calls come in the order of time, from the instant `t` on.
abbrev pub IsTimed : ℕ → List (ℕ × ℕ) → Type 0
IsTimed t [] = Unit
IsTimed t ((id, now) ∷ calls) = (t ≤ now) × IsTimed now calls

-- The specification: the limiter without its sweeps.
abbrev pub spec_allow : ℕ → ℕ → Limiter → Limiter × Bool
spec_allow id now l = if nat_eq l.limit 0 then (l, true) else count_call id now l

abbrev pub spec_all : List (ℕ × ℕ) → Limiter → List Bool
spec_all [] l = []
spec_all ((id, now) ∷ calls) l = let (l', ok) = spec_allow id now l in ok ∷ spec_all calls l'

-- From the instant `t` on, the limiters count alike: they have the same settings, and the same windows
-- but for those that are over.
pub record Agrees (t : ℕ) (l s : Limiter) : Type 0 where
  pub limit : l.limit ≡ s.limit
  pub window : l.window ≡ s.window
  pub counts : (id : ℕ) → drop_over t l.window (l.counts id) ≡ drop_over t l.window (s.counts id)

drop_over_later :
    (t now w : ℕ) (a b : Option WindowCount)
    → t ≤ now
    → drop_over t w a ≡ drop_over t w b
    → drop_over now w a ≡ drop_over now w b
drop_over_later t now w none none low e = refl
drop_over_later t now w none (some b) low e = ground arith
drop_over_later t now w (some a) none low e = ground arith
drop_over_later t now w (some a) (some b) low e = ground arith

current-drop_over :
    (now w : ℕ) (o : Option WindowCount) → current now w (drop_over now w o) ≡ current now w o
current-drop_over now w none = refl
current-drop_over now w (some wc) = ground arith

drop_over_twice :
    (now w : ℕ) (o : Option WindowCount) → drop_over now w (drop_over now w o) ≡ drop_over now w o
drop_over_twice now w none = refl
drop_over_twice now w (some wc) = ground arith

Agrees-later : (t now : ℕ) (l s : Limiter) → t ≤ now → Agrees t l s → Agrees now l s
Agrees-later t now l s low a = record {
  limit = a.limit;
  window = a.window;
  counts = λ id. drop_over_later t now l.window (l.counts id) (s.counts id) low (a.counts id);
}

sweep-Agrees : (now : ℕ) (l s : Limiter) → Agrees now l s → Agrees now (sweep now l) s
unfolding sweep
sweep-Agrees now l s a = elim (Bool-cases (ltb (now - l.last_sweep) l.window)) [
  | inl e ↦ rw (e, sweep) a
  | inr e ↦
      rw (e, sweep)
        (record {
          limit = a.limit;
          window = a.window;
          counts = λ id. drop_over_twice now l.window (l.counts id) ∙ a.counts id;
        })
]

same_window :
    (id now : ℕ) (l s : Limiter)
    → Agrees now l s
    → current now l.window (l.counts id) ≡ current now s.window (s.counts id)
same_window id now l s a =
    sym (current-drop_over now l.window (l.counts id))
    ∙ (ap (current now l.window) (a.counts id)
        ∙ (current-drop_over now l.window (s.counts id)
            ∙ ap (λ w. current now w (s.counts id)) a.window))

-- The limiter with one window stored.
abbrev stored : ℕ → WindowCount → Limiter → Limiter
stored id wc l = record l { counts = put l.counts id wc }

stored-Agrees :
    (id now : ℕ) (wc : WindowCount) (l s : Limiter)
    → Agrees now l s
    → Agrees now (stored id wc l) (stored id wc s)
stored-Agrees id now wc l s a = record {
  limit = a.limit;
  window = a.window;
  counts = λ j. elim (Bool-cases (nat_eq id j)) [ inl e ↦ rw e refl | inr e ↦ rw e (a.counts j) ];
}

-- count_call by the window in which it counts.
abbrev count_in : ℕ → WindowCount → Limiter → Limiter × Bool
count_in id wc l =
    if leb l.limit wc.count
    then (stored id wc l, false)
    else (stored id (record wc { count = suc wc.count }) l, true)

-- The answers are the same, and the limiters agree after them.
pub record SameStep (now : ℕ) (a b : Limiter × Bool) : Type 0 where
  pub answer : a.1 ≡ b.1
  pub agrees : Agrees now a.0 b.0

count_in-SameStep :
    (id now : ℕ) (wc : WindowCount) (l s : Limiter)
    → Agrees now l s
    → SameStep now (count_in id wc l) (count_in id wc s)
count_in-SameStep id now wc l s a = elim (Bool-cases (leb l.limit wc.count)) [
  | inl e ↦
      rw (e, subst (λ n. leb n wc.count ≡ true) a.limit e)
        (record { answer = refl; agrees = stored-Agrees id now wc l s a })
  | inr e ↦
      rw (e, subst (λ n. leb n wc.count ≡ false) a.limit e)
        (record {
          answer = refl;
          agrees = stored-Agrees id now (record wc { count = suc wc.count }) l s a;
        })
]

count_call-SameStep :
    (id now : ℕ) (l s : Limiter)
    → Agrees now l s
    → SameStep now (count_call id now l) (count_call id now s)
unfolding count_call
count_call-SameStep id now l s a =
    subst
      (λ wc. SameStep now (count_in id (current now l.window (l.counts id)) l) (count_in id wc s))
      (same_window id now l s a)
      (count_in-SameStep id now (current now l.window (l.counts id)) l s a)

allow-SameStep :
    (id now : ℕ) (l s : Limiter)
    → Agrees now l s
    → SameStep now (allow id now l) (spec_allow id now s)
unfolding allow
allow-SameStep id now l s a = elim (Bool-cases (nat_eq l.limit 0)) [
  | inl e ↦
      rw (e, subst (λ n. nat_eq n 0 ≡ true) a.limit e, allow) (record { answer = refl; agrees = a })
  | inr e ↦
      rw (e, subst (λ n. nat_eq n 0 ≡ false) a.limit e, allow)
        (count_call-SameStep id now (sweep now l) s (sweep-Agrees now l s a))
]

pub allow_all-eq_from :
    (t : ℕ) (calls : List (ℕ × ℕ)) (l s : Limiter)
    → IsTimed t calls
    → Agrees t l s
    → (allow_all calls l).1 ≡ spec_all calls s
unfolding allow_all
allow_all-eq_from t [] l s timed a = refl
allow_all-eq_from t ((id, now) ∷ calls) l s timed a =
    let p = allow-SameStep id now l s (Agrees-later t now l s timed.0 a) in
    let rest =
      allow_all-eq_from now calls (allow id now l).0 (spec_allow id now s).0 timed.1 p.agrees in
    ap (λ ok. ok ∷ (allow_all calls (allow id now l).0).1) p.answer
    ∙ ap (λ oks. (spec_allow id now s).1 ∷ oks) rest

-- The sweeps are not seen: for calls that come in the order of time, a new limiter gives every
-- installation the answers that it would give without ever sweeping an entry.
pub allow_all_refines :
    (limit window : ℕ) (calls : List (ℕ × ℕ))
    → IsTimed 0 calls
    → (allow_all calls (new_limiter limit window)).1 ≡ spec_all calls (new_limiter limit window)
allow_all_refines limit window calls timed =
    allow_all-eq_from 0 calls (new_limiter limit window) (new_limiter limit window) timed
      (record { limit = refl; window = refl; counts = λ id. refl })
