-- ===== src/PrReview/Limits/Quota.antt =====
-- How many calls of an installation the rate limiter grants
-- (services/prreview/ratelimit/ratelimit.go: Allow).
use modulex.Prelude.{
  ℕ, suc, ◌+◌, ◌-◌, ◌*◌, ◌≤◌, ◌<◌, ◌≡◌, refl, sym, ◌∙◌, subst, Bool, true, false, Option, none,
  some, List, [], ◌∷◌, if◌then◌else◌, ltb, leb, nat_eq, arith, Bool-cases, inl, inr, All,
}
use modulex.PrReview.Limits.{
  WindowCount, Limiter, new_limiter, drop_over, sweep, current, put, count_call, allow, allow_all,
}
use modulex.PrReview.Limits.Windows.{IsTimed, spec_all, allow_all-eq_from}

-- No stored window counts more than the limit.
abbrev pub IsCounted : Limiter → Type 0
IsCounted l = (id : ℕ) (wc : WindowCount) → l.counts id ≡ some wc → wc.count ≤ l.limit

some_inj : {a b : WindowCount} → some a ≡ some b → a ≡ b
some_inj e = cc

put-IsCounted :
    (id : ℕ) (wc : WindowCount) (l : Limiter)
    → wc.count ≤ l.limit
    → IsCounted l
    → IsCounted (record l { counts = put l.counts id wc })
put-IsCounted id wc l low h j w e = elim (Bool-cases (nat_eq id j)) [
  | inl q ↦ subst (λ (x : WindowCount). x.count ≤ l.limit) (some_inj (rw q at e)) low
  | inr q ↦ h j w (rw q at e)
]

current-le :
    (now w : ℕ) (o : Option WindowCount) (limit : ℕ)
    → ((wc : WindowCount) → o ≡ some wc → wc.count ≤ limit)
    → (current now w o).count ≤ limit
current-le now w none limit h = omega arith
current-le now w (some wc) limit h = let p = h wc refl in ground arith

count_call-IsCounted : (id now : ℕ) (l : Limiter) → IsCounted l → IsCounted (count_call id now l).0
unfolding count_call
count_call-IsCounted id now l h =
    let wc = current now l.window (l.counts id) in
    let low = current-le now l.window (l.counts id) l.limit (h id) in
    elim (Bool-cases (leb l.limit wc.count)) [
      | inl e ↦ rw (e, count_call) (put-IsCounted id wc l low h)
      | inr e ↦
          rw (e, count_call) (put-IsCounted id (record wc { count = suc wc.count }) l (below e) h)
    ]
  where
    below : {a b : ℕ} → leb a b ≡ false → suc b ≤ a
    below e = ground arith

count_call-limit : (id now : ℕ) (l : Limiter) → (count_call id now l).0.limit ≡ l.limit
unfolding count_call
count_call-limit id now l = ground arith

count_call-window : (id now : ℕ) (l : Limiter) → (count_call id now l).0.window ≡ l.window
unfolding count_call
count_call-window id now l = ground arith

-- How many calls of the installation are granted.
abbrev pub granted : ℕ → List (ℕ × ℕ) → List Bool → ℕ
granted id [] oks = 0
granted id (c ∷ calls) [] = 0
granted id ((j, now) ∷ calls) (ok ∷ oks) =
    (if nat_eq id j then (if ok then 1 else 0) else 0) + granted id calls oks

-- How many more calls may be granted in an interval that begins at `t`.
abbrev left : ℕ → ℕ → Option WindowCount → ℕ
left t limit none = 2 * limit
left t limit (some wc) = if leb t wc.window_start then limit - wc.count else 2 * limit - wc.count

one_call :
    (t e now limit window : ℕ) (o : Option WindowCount)
    → t ≤ now
    → now ≤ e
    → e < t + window
    → ((wc : WindowCount) → o ≡ some wc → wc.count ≤ limit)
    → leb limit (current now window o).count ≡ false
    → left t limit
          (some (record (current now window o) { count = suc (current now window o).count }))
        + 1
      ≤ left t limit o
one_call t e now limit window none low high short h ok = ground arith
one_call t e now limit window (some wc) low high short h ok = let p = h wc refl in ground arith

refused_call :
    (t e now limit window : ℕ) (o : Option WindowCount)
    → t ≤ now
    → now ≤ e
    → e < t + window
    → ((wc : WindowCount) → o ≡ some wc → wc.count ≤ limit)
    → left t limit (some (current now window o)) ≤ left t limit o
refused_call t e now limit window none low high short h = ground arith
refused_call t e now limit window (some wc) low high short h = let p = h wc refl in ground arith

-- Every call of the list is made until the instant `e`.
abbrev pub IsUntil : ℕ → List (ℕ × ℕ) → Type 0
IsUntil e calls = All (λ c. c.1 ≤ e) calls

step_left :
    (id j t e now : ℕ) (l : Limiter)
    → t ≤ now
    → now ≤ e
    → e < t + l.window
    → IsCounted l
    → (if nat_eq id j then (if (count_call j now l).1 then 1 else 0) else 0)
        + left t l.limit ((count_call j now l).0.counts id)
      ≤ left t l.limit (l.counts id)
unfolding count_call
step_left id j t e now l low high short h = elim (Bool-cases (nat_eq id j)) [
  | inl q ↦
      let same : j ≡ id = ground arith in
      elim (Bool-cases (leb l.limit (current now l.window (l.counts j)).count)) [
        | inl full ↦
            at_full same q full
              (refused_call t e now l.limit l.window (l.counts j) low high short (h j))
        | inr some_left ↦
            at_left same q some_left
              (one_call t e now l.limit l.window (l.counts j) low high short (h j) some_left)
      ]
  | inr q ↦ at_other q (other_window q)
]
  where
    wc : WindowCount
    wc = current now l.window (l.counts j)

    found : (j ≡ id) → nat_eq j id ≡ true
    found same = ground arith

    at_full :
        j ≡ id
        → nat_eq id j ≡ true
        → leb l.limit wc.count ≡ true
        → left t l.limit (some wc) ≤ left t l.limit (l.counts j)
        → (if nat_eq id j then (if (count_call j now l).1 then 1 else 0) else 0)
            + left t l.limit ((count_call j now l).0.counts id)
          ≤ left t l.limit (l.counts id)
    at_full same q full p =
        rw (full, q, found same, count_call)
          (omega
            (arith, subst (λ i. left t l.limit (some wc) ≤ left t l.limit (l.counts i)) same p))

    at_left :
        j ≡ id
        → nat_eq id j ≡ true
        → leb l.limit wc.count ≡ false
        → left t l.limit (some (record wc { count = suc wc.count })) + 1
          ≤ left t l.limit (l.counts j)
        → (if nat_eq id j then (if (count_call j now l).1 then 1 else 0) else 0)
            + left t l.limit ((count_call j now l).0.counts id)
          ≤ left t l.limit (l.counts id)
    at_left same q e p =
        rw (e, q, found same, count_call)
          (omega (
            arith,
            subst
                (λ i.
                  left t l.limit (some (record wc { count = suc wc.count })) + 1
                  ≤ left t l.limit (l.counts i))
                same p,
          ))

    other_window : nat_eq id j ≡ false → (count_call j now l).0.counts id ≡ l.counts id
    other_window q = ground arith

    at_other :
        nat_eq id j ≡ false
        → (count_call j now l).0.counts id ≡ l.counts id
        → (if nat_eq id j then (if (count_call j now l).1 then 1 else 0) else 0)
            + left t l.limit ((count_call j now l).0.counts id)
          ≤ left t l.limit (l.counts id)
    at_other q e = rw (q, e) (omega arith)

granted-le-left :
    (id t e : ℕ) (calls : List (ℕ × ℕ)) (l : Limiter)
    → nat_eq l.limit 0 ≡ false
    → IsTimed t calls
    → IsUntil e calls
    → e < t + l.window
    → IsCounted l
    → granted id calls (spec_all calls l) ≤ left t l.limit (l.counts id)
granted-le-left id t e [] l some_limit timed until short h = omega arith
granted-le-left id t e ((j, now) ∷ calls) l some_limit timed until short h =
    let next = (count_call j now l).0 in
    let same = count_call-limit j now l in
    let rest =
      granted-le-left id t e calls next (subst (λ n. nat_eq n 0 ≡ false) (sym same) some_limit)
        (IsTimed_earlier t now calls timed.0 timed.1) until.1
        (subst (λ w. e < t + w) (sym (count_call-window j now l)) short)
        (count_call-IsCounted j now l h) in
    let first = step_left id j t e now l timed.0 until.0 short h in
    rw some_limit (
      omega (
        arith,
        first,
        subst (λ n. granted id calls (spec_all calls next) ≤ left t n (next.counts id)) same rest,
      ))
  where
    IsTimed_earlier :
        (t now : ℕ) (calls : List (ℕ × ℕ)) → t ≤ now → IsTimed now calls → IsTimed t calls
    IsTimed_earlier t now [] low timed = tt
    IsTimed_earlier t now ((k, n) ∷ calls) low timed = (omega (arith, timed.0), timed.1)

drop_over-counted :
    (now w : ℕ) (o : Option WindowCount) (wc : WindowCount)
    → drop_over now w o ≡ some wc
    → o ≡ some wc
drop_over-counted now w none wc h = h
drop_over-counted now w (some x) wc h = ground arith

-- The settings are kept, and the counts stay within the limit.
record IsKept (limit window : ℕ) (l : Limiter) : Type 0 where
  limit_kept : l.limit ≡ limit
  window_kept : l.window ≡ window
  counted : IsCounted l

sweep-IsKept :
    (limit window now : ℕ) (l : Limiter) → IsKept limit window l → IsKept limit window (sweep now l)
unfolding sweep
sweep-IsKept limit window now l k = elim (Bool-cases (ltb (now - l.last_sweep) l.window)) [
  | inl e ↦ rw (e, sweep) k
  | inr e ↦
      rw (e, sweep)
        (record {
          limit_kept = k.limit_kept;
          window_kept = k.window_kept;
          counted = λ id wc h. k.counted id wc (drop_over-counted now l.window (l.counts id) wc h);
        })
]

allow-IsKept :
    (limit window id now : ℕ) (l : Limiter)
    → IsKept limit window l
    → IsKept limit window (allow id now l).0
unfolding allow
allow-IsKept limit window id now l k = elim (Bool-cases (nat_eq l.limit 0)) [
  | inl e ↦ rw (e, allow) k
  | inr e ↦
      let s = sweep-IsKept limit window now l k in
      rw (e, allow)
        (record {
          limit_kept = count_call-limit id now (sweep now l) ∙ s.limit_kept;
          window_kept = count_call-window id now (sweep now l) ∙ s.window_kept;
          counted = count_call-IsCounted id now (sweep now l) s.counted;
        })
]

allow_all-IsKept :
    (limit window : ℕ) (calls : List (ℕ × ℕ)) (l : Limiter)
    → IsKept limit window l
    → IsKept limit window (allow_all calls l).0
unfolding allow_all
allow_all-IsKept limit window [] l k = k
allow_all-IsKept limit window ((id, now) ∷ calls) l k =
    allow_all-IsKept limit window calls (allow id now l).0 (allow-IsKept limit window id now l k)

left-le : (t limit : ℕ) (o : Option WindowCount) → left t limit o ≤ 2 * limit
left-le t limit none = omega arith
left-le t limit (some wc) = ground arith

-- The blast radius of an installation: whatever calls a limiter with a positive limit had before, of all
-- the calls that come in the order of time within any interval shorter than the window, at most twice
-- the limit are granted to one installation.
pub granted_le :
    (limit window id t e : ℕ) (before calls : List (ℕ × ℕ))
    → 0 < limit
    → IsTimed t calls
    → IsUntil e calls
    → e < t + window
    → granted id calls (allow_all calls (allow_all before (new_limiter limit window)).0).1
      ≤ 2 * limit
granted_le limit window id t e before calls positive timed until short =
    let l = (allow_all before (new_limiter limit window)).0 in
    let k =
      allow_all-IsKept limit window before (new_limiter limit window)
        (record { limit_kept = refl; window_kept = refl; counted = λ i wc h. cc }) in
    let same =
      allow_all-eq_from t calls l l timed
        (record { limit = refl; window = refl; counts = λ i. refl }) in
    let some_limit = subst (λ n. nat_eq n 0 ≡ false) (sym k.limit_kept) (ground arith) in
    let p =
      granted-le-left id t e calls l some_limit timed until
        (subst (λ w. e < t + w) (sym k.window_kept) short) k.counted in
    let q = left-le t l.limit (l.counts id) in
    subst (λ oks. granted id calls oks ≤ 2 * limit) (sym same)
      (subst (λ n. granted id calls (spec_all calls l) ≤ 2 * n) k.limit_kept (omega (arith, p, q)))
