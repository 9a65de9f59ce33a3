-- ===== src/PrReview/Limits.antt =====
-- The fixed-window rate limiter (services/prreview/ratelimit/ratelimit.go). Installations are numbers,
-- the map of windows a function on them; the window is a number of instants, and the clock is an
-- argument of each call.
pub mod Windows
pub mod Quota
use modulex.Prelude.{
  ℕ, suc, ◌-◌, Bool, true, false, Option, none, some, List, [], ◌∷◌, if◌then◌else◌, ltb, leb,
  nat_eq,
}

-- ratelimit.windowCount
pub record WindowCount : Type 0 where
  pub window_start : ℕ
  pub count : ℕ

-- ratelimit.Limiter; a limit of 0 stands for every limit that is not positive.
pub record Limiter : Type 0 where
  pub limit : ℕ
  pub window : ℕ
  pub counts : ℕ → Option WindowCount
  pub last_sweep : ℕ

abbrev pub new_limiter : ℕ → ℕ → Limiter
new_limiter limit window = record {
  limit = limit;
  window = window;
  counts = λ id. none;
  last_sweep = 0;
}

-- `now.Sub(wc.windowStart) >= l.window`
abbrev pub is_over : ℕ → ℕ → WindowCount → Bool
is_over now window wc = leb window (now - wc.window_start)

abbrev pub drop_over : ℕ → ℕ → Option WindowCount → Option WindowCount
drop_over now window none = none
drop_over now window (some wc) = if is_over now window wc then none else some wc

-- sweepLocked
unfoldable pub sweep : ℕ → Limiter → Limiter
sweep now l =
    if ltb (now - l.last_sweep) l.window
    then l
    else record l { last_sweep = now; counts = λ id. drop_over now l.window (l.counts id) }

abbrev pub fresh_window : ℕ → WindowCount
fresh_window now = record { window_start = now; count = 0 }

-- The window in which a call counts: the stored one, or a new one.
abbrev pub current : ℕ → ℕ → Option WindowCount → WindowCount
current now window none = fresh_window now
current now window (some wc) = if is_over now window wc then fresh_window now else wc

abbrev pub put : (ℕ → Option WindowCount) → ℕ → WindowCount → ℕ → Option WindowCount
put counts id wc j = if nat_eq id j then some wc else counts j

-- Allow past its first test: the windows after it, and its answer.
unfoldable pub count_call : ℕ → ℕ → Limiter → Limiter × Bool
count_call id now l =
    let wc = current now l.window (l.counts id) in
    if leb l.limit wc.count
    then (record l { counts = put l.counts id wc }, false)
    else (record l { counts = put l.counts id (record wc { count = suc wc.count }) }, true)

-- Limiter.Allow
unfoldable pub allow : ℕ → ℕ → Limiter → Limiter × Bool
unfolding sweep count_call
allow id now l = if nat_eq l.limit 0 then (l, true) else count_call id now (sweep now l)

-- A sequence of calls of installations, at their instants, with the answers.
unfoldable pub allow_all : List (ℕ × ℕ) → Limiter → Limiter × List Bool
allow_all [] l = (l, [])
allow_all ((id, now) ∷ calls) l =
    let (l', ok) = allow id now l in let (l'', oks) = allow_all calls l' in (l'', ok ∷ oks)
