-- ===== src/Backoff/Tests.antt =====
-- The canary's own back-offs, run: ten attempts from five seconds when it connects, three when its
-- consumer joins the group.
use strimzi_canary.Common.{ℕ, ◌*◌, ◌≡◌, refl, arith, Result, value, error}
use strimzi_canary.Common.Int.{ℤ, pos}
use strimzi_canary.Backoff.{
  Backoff, BackoffError, max_attempts_exceeded, delay_overflow, new_backoff, delay, after,
  millisecond, max_default,
}
use strimzi_canary.Backoff.Schedule.{exact_delay, delay-schedule}

abbrev five_seconds : ℕ
five_seconds = 5000 * millisecond

abbrev five_minutes : ℕ
five_minutes = 300_000 * millisecond

abbrev at_call : Backoff → ℕ → Result BackoffError ℤ
at_call b n = (delay (after n b)).0

connecting :
    at_call (new_backoff (pos 10) (pos five_seconds) max_default) 5
    ≡ value (pos (160_000 * millisecond))
unfolding delay after new_backoff
connecting = refl

capped : at_call (new_backoff (pos 10) (pos five_seconds) max_default) 9 ≡ value (pos five_minutes)
unfolding delay after new_backoff
capped = refl

exhausted :
    at_call (new_backoff (pos 3) (pos five_seconds) max_default) 3 ≡ error max_attempts_exceeded
unfolding delay after new_backoff
exhausted = refl

overflows : at_call (new_backoff (pos 100) (pos five_seconds) max_default) 31 ≡ error delay_overflow
unfolding delay after new_backoff
overflows = refl

delay-schedule_example :
    at_call (new_backoff (pos 10) (pos five_seconds) (pos five_minutes)) 7
    ≡ exact_delay five_seconds five_minutes (pos 10) 7
delay-schedule_example =
    delay-schedule five_seconds five_minutes 10 (omega arith) (omega arith) (omega arith)
      (omega arith) 7 (omega arith) (omega arith)
