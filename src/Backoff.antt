-- ===== src/Backoff.antt =====
-- internal/services/backoff.go: the delays of an exponential back-off. A time.Duration is an int64
-- number of nanoseconds, whose left shift wraps.
pub mod Schedule
pub mod Retry
pub mod Attempts
mod Tests
use strimzi_canary.Common.{ℕ, zero, suc, ◌+◌, ◌*◌, if◌then◌else◌, Result, value, error}
use strimzi_canary.Common.Int.{ℤ, pos, eqb_ℤ, ltb_ℤ, shl64}

abbrev pub millisecond : ℕ
millisecond = 1_000_000

abbrev pub scale_default : ℤ
scale_default = pos (200 * millisecond)

abbrev pub max_default : ℤ
max_default = pos (5 * 60 * 1000 * millisecond)

pub record Backoff : Type 0 where
  pub max_attempts : ℤ
  pub scale : ℤ
  pub max : ℤ
  pub attempt : ℕ

pub data BackoffError : Type 0 where
  max_attempts_exceeded delay_overflow : BackoffError

-- what a duration argument comes to: the default if it is not positive
abbrev or_default : ℤ → ℤ → ℤ
or_default d default = if ltb_ℤ (pos 0) d then d else default

unfoldable pub new_backoff : ℤ → ℤ → ℤ → Backoff
new_backoff max_attempts scale max = record {
  max_attempts = max_attempts;
  scale = or_default scale scale_default;
  max = or_default max max_default;
  attempt = 0;
}

-- The attempt is counted only when a delay is returned.
unfoldable pub delay : Backoff → Result BackoffError ℤ × Backoff
delay b =
    let d = shl64 b.scale b.attempt in
    if eqb_ℤ (pos b.attempt) b.max_attempts
    then (error max_attempts_exceeded, b)
    else if ltb_ℤ d (pos 0)
    then (error delay_overflow, b)
    else (value (if ltb_ℤ b.max d then b.max else d), record b { attempt = b.attempt + 1 })

-- the back-off after `n` calls of `delay`
unfoldable pub after : ℕ → Backoff → Backoff
after zero b = b
after (suc n) b = (delay (after n b)).1
