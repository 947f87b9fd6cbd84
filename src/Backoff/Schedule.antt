-- ===== src/Backoff/Schedule.antt =====
-- The delays that a back-off returns are those of exact arithmetic, although the shift wraps.
use strimzi_canary.Common.{
  ℕ, zero, suc, ◌+◌, ◌*◌, ◌^◌, ◌≤◌, ◌<◌, min, ◌≡◌, refl, ap, ◌∙◌, if◌then◌else◌, ltb, lt→ltb, ◌-◌,
  arith, Result, value, error,
}
use strimzi_canary.Common.Int.{ℤ, pos, negsuc, shl64, eqb_ℤ}
use strimzi_canary.Backoff.{
  Backoff, BackoffError, max_attempts_exceeded, delay_overflow, new_backoff, delay, after,
}
use native.Mathlib.Decide.{dec_lt}
use native.Mathlib.Nat.{pow-suc, mod-eq_of_lt}
use native.Mathlib.Numerals.{add-one}
use native.Mathlib.Nat.{zero-add, suc-add}
use mathlib.Core.Path.{ap₂}

-- A back-off with a scale of `s` and a limit of `m` nanoseconds, whose last shift did not overflow.
pub record IsValid (s m : ℕ) (b : Backoff) : Type 0 where
  pub scale_is : b.scale ≡ pos s
  pub max_is : b.max ≡ pos m
  pub scale_fits : s < 2 ^ 63
  pub max_fits : m < 2 ^ 63
  pub in_reach : s * 2 ^ b.attempt < 2 ^ 64

double : (s n : ℕ) → s * 2 ^ (n + 1) ≡ 2 * (s * 2 ^ n)
double s n = rw (add-one, pow-suc) (omega arith)

shl64-small : (s n : ℕ) → s < 2 ^ 63 → s * 2 ^ n < 2 ^ 63 → shl64 (pos s) n ≡ pos (s * 2 ^ n)
shl64-small s n h k = rw (
  mod-eq_of_lt {n = s} {m = 2 ^ 64} (omega arith),
  mod-eq_of_lt {n = s * 2 ^ n} {m = 2 ^ 64} (omega arith),
  lt→ltb (s * 2 ^ n) (2 ^ 63) k,
)

shl64-large :
    (s n : ℕ)
    → s < 2 ^ 63
    → 2 ^ 63 ≤ s * 2 ^ n
    → s * 2 ^ n < 2 ^ 64
    → shl64 (pos s) n ≡ negsuc (2 ^ 64 - s * 2 ^ n - 1)
shl64-large s n h k l =
    rw
      (mod-eq_of_lt {n = s} {m = 2 ^ 64} (omega arith), mod-eq_of_lt {n = s * 2 ^ n} {m = 2 ^ 64} l)
      (ground arith)

-- what a call returns in exact arithmetic, with no wrap
unfoldable pub exact_delay : ℕ → ℕ → ℤ → ℕ → Result BackoffError ℤ
exact_delay s m max_attempts n =
    if eqb_ℤ (pos n) max_attempts
    then error max_attempts_exceeded
    else if ltb (s * 2 ^ n) (2 ^ 63)
    then value (pos (min (s * 2 ^ n) m))
    else error delay_overflow

pub delay-exact :
    (s m : ℕ) (b : Backoff) → IsValid s m b → (delay b).0 ≡ exact_delay s m b.max_attempts b.attempt
unfolding delay exact_delay
delay-exact s m b v = elim (dec_lt (s * 2 ^ b.attempt) (2 ^ 63)) [
  | yes h ↦ rw (v.scale_is, v.max_is, shl64-small s b.attempt v.scale_fits h) (ground arith)
  | no h ↦
      rw (v.scale_is, v.max_is, shl64-large s b.attempt v.scale_fits (omega arith) v.in_reach)
        (ground arith)
]

pub delay-IsValid : (s m : ℕ) (b : Backoff) → IsValid s m b → IsValid s m (delay b).1
unfolding delay
delay-IsValid s m b v = elim (dec_lt (s * 2 ^ b.attempt) (2 ^ 63)) [
  | yes h ↦
      rw (v.scale_is, v.max_is, shl64-small s b.attempt v.scale_fits h)
        (ground (arith, double s b.attempt))
  | no h ↦
      rw (v.scale_is, v.max_is, shl64-large s b.attempt v.scale_fits (omega arith) v.in_reach)
        (ground arith)
]

-- a call that is within the attempts and does not overflow
delay-counts :
    (s m N : ℕ) (b : Backoff)
    → IsValid s m b
    → b.max_attempts ≡ pos N
    → b.attempt < N
    → s * 2 ^ (b.attempt + 1) < 2 ^ 64
    → ((delay b).1.attempt ≡ b.attempt + 1) × ((delay b).1.max_attempts ≡ pos N)
unfolding delay
delay-counts s m N b v e lt h =
    rw
      (
        v.scale_is,
        v.max_is,
        e,
        shl64-small s b.attempt v.scale_fits (omega (arith, double s b.attempt)),
      )
      (ground arith)

module _ (s m N : ℕ) (s_pos : 0 < s) (s_fits : s < 2 ^ 63) (m_pos : 0 < m)
    (m_fits : m < 2 ^ 63) where
  -- the back-off that `n` calls leave when none of them fails
  record Reached (n : ℕ) (b : Backoff) : Type 0 where
    valid : IsValid s m b
    limit : b.max_attempts ≡ pos N
    calls : b.attempt ≡ n

  abbrev pub fresh : Backoff
  fresh = new_backoff (pos N) (pos s) (pos m)

  fresh-Reached : Reached 0 fresh
  unfolding new_backoff
  fresh-Reached = record {
    valid = record {
      scale_is = ground arith;
      max_is = ground arith;
      scale_fits = s_fits;
      max_fits = m_fits;
      in_reach = omega arith;
    };
    limit = refl;
    calls = refl;
  }

  step-Reached :
      (n : ℕ) (b : Backoff)
      → Reached n b
      → suc n ≤ N
      → s * 2 ^ suc n < 2 ^ 64
      → Reached (suc n) (delay b).1
  step-Reached n b r le h =
      let more =
        delay-counts s m N b r.valid r.limit (omega (arith, r.calls)) (rw (r.calls, add-one) h) in
      record {
        valid = delay-IsValid s m b r.valid;
        limit = more.1;
        calls = omega (arith, more.0, r.calls);
      }

  after-Reached : (n : ℕ) → n ≤ N → s * 2 ^ n < 2 ^ 64 → Reached n (after n fresh)
  unfolding after
  after-Reached zero le h = fresh-Reached
  after-Reached (suc n) le h =
      step-Reached n (after n fresh)
        (after-Reached n (omega arith)
          (omega (arith, add-one n, double s n, ap (λ (k : ℕ). s * 2 ^ k) (add-one n))))
        le h

  -- The back-off of `NewBackoff(N, s, m)`, for a scale `s` and a limit `m` that are positive and fit an int64,
  -- answers its call number `n` (from 0), when at most `N` calls were made and no earlier one
  -- overflowed, as exact arithmetic does: with the error on the attempts at `n = N`, with
  -- `min(s * 2^n, m)` if `s * 2^n` fits an int64, and else with the overflow error.
  pub delay-schedule :
      (n : ℕ) → n ≤ N → s * 2 ^ n < 2 ^ 64 → (delay (after n fresh)).0 ≡ exact_delay s m (pos N) n
  delay-schedule n le h =
      let r = after-Reached n le h in
      delay-exact s m (after n fresh) r.valid ∙ ap₂ (exact_delay s m) r.limit r.calls

  stop : (b : Backoff) → Reached N b → delay b ≡ (error max_attempts_exceeded, b)
  unfolding delay
  stop b r = rw (r.limit, r.calls) (ground arith)

  after-stop : (k : ℕ) → s * 2 ^ N < 2 ^ 64 → after (k + N) fresh ≡ after N fresh
  unfolding after
  after-stop zero h = rw zero-add
  after-stop (suc k) h = rw suc-add (
      ap (λ (b : Backoff). (delay b).1) (after-stop k h)
      ∙ ap (λ (r : Result BackoffError ℤ × Backoff). r.1)
          (stop (after N fresh) (after-Reached N (omega arith) h)))

  -- From call number `N` on, every call fails with the error on the attempts, if the scale is such
  -- that `s * 2^N` fits a word of 64 bits.
  pub delay_gives_up :
      (k : ℕ) → s * 2 ^ N < 2 ^ 64 → (delay (after (k + N) fresh)).0 ≡ error max_attempts_exceeded
  delay_gives_up k h = rw (after-stop k h, stop (after N fresh) (after-Reached N (omega arith) h))
