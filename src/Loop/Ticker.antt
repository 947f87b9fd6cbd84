-- ===== src/Loop/Ticker.antt =====
-- The tickers of the loops: time.NewTicker of an interval in milliseconds, as Go documents it.
use strimzi_canary.Common.{
  ℕ, ◌*◌, ◌^◌, ◌<◌, ◌≡◌, Outcome, ok, crash, panicked, if◌then◌else◌, lt→ltb, arith,
}
use strimzi_canary.Common.Int.{ℤ, pos, mul64, ltb_ℤ}
use strimzi_canary.Backoff.{millisecond}
use native.Mathlib.Nat.{mod-eq_of_lt}

-- A ticker whose period is not positive panics.
abbrev pub new_ticker : ℤ → Outcome (Unit {0})
new_ticker d = if ltb_ℤ (pos 0) d then ok tt else crash panicked

abbrev pub new_ticker_of : ℤ → Outcome (Unit {0})
new_ticker_of interval = new_ticker (mul64 interval (pos millisecond))

-- An interval that is positive and fits an int64 in nanoseconds.
pub record IsPeriod (interval : ℤ) : Type 0 where
  pub count : ℕ
  pub count_is : interval ≡ pos count
  pub count_pos : 0 < count
  pub in_reach : count * millisecond < 2 ^ 63

pub new_ticker_of-IsPeriod : (interval : ℤ) → IsPeriod interval → new_ticker_of interval ≡ ok tt
new_ticker_of-IsPeriod interval p =
    rw
      (
        p.count_is,
        mod-eq_of_lt {n = p.count} {m = 2 ^ 64} (omega (arith, p.in_reach)),
        mod-eq_of_lt {n = p.count * millisecond} {m = 2 ^ 64} (omega (arith, p.in_reach)),
        lt→ltb (p.count * millisecond) (2 ^ 63) p.in_reach,
      )
      (ground (arith, p.count_pos))
