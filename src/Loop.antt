-- ===== src/Loop.antt =====
-- The loop that Open starts and Close stops, as internal/services/status_check.go and
-- internal/services/connection_check.go have it: a goroutine that checks at each tick of a ticker until the channel
-- `stop` is closed, and a wait group that Close waits for. Open of
-- a loop that is open is a step too, and starts one more goroutine; a series of steps without any is tidy.
pub mod Quiet
pub mod Ending
pub mod Ticker
mod Tests
use strimzi_canary.Common.{
  Outcome, ok, crash, panicked, close_of_closed_channel, ℕ, suc, ◌+◌, ◌<◌, ◌≡◌, ◌≢◌,
}

-- A channel that is never written to; `unmade` is nil.
pub data Channel : Type 0 where
  unmade opened closed : Channel

-- Closing a channel that is nil or closed panics.
abbrev pub close_channel : Channel → Outcome (Unit {0})
close_channel unmade = crash panicked
close_channel opened = ok tt
close_channel closed = crash close_of_closed_channel

-- Where the caller of Open and Close stands: in neither, or in Close at the wait group.
pub data Caller : Type 0 where
  free waiting : Caller

-- `goroutines` is the counter of the wait group.
pub record Looped (S : Type 0) : Type 0 where
  pub stop : Channel
  pub goroutines : ℕ
  pub caller : Caller
  pub state : S

abbrev pub new_looped : {S : Type 0} → S → Looped S
new_looped s = record { stop = unmade; goroutines = 0; caller = free; state = s }

-- `before` is what Open does before it starts the goroutine, `checks` what a tick does. A select takes
-- any of its cases that is ready: a tick may still come after the channel is closed.
module _ {S : Type 0} (before checks : S → S → Type 0) where
  pub data LoopStep (l : Looped S) : Looped S → Type 0 where
    opens :
        (s : S)
        → l.caller ≡ free
        → before l.state s
        → LoopStep l
            (record { stop = opened; goroutines = suc l.goroutines; caller = free; state = s })
    ticks : (s : S) → 0 < l.goroutines → checks l.state s → LoopStep l (record l { state = s })
    ends :
        (n : ℕ) → l.goroutines ≡ suc n → l.stop ≡ closed → LoopStep l (record l { goroutines = n })
    closes :
        l.caller ≡ free
        → l.stop ≡ opened
        → LoopStep l (record l { stop = closed; caller = waiting })
    returns : l.caller ≡ waiting → l.goroutines ≡ 0 → LoopStep l (record l { caller = free })

  pub data Reach (start : S) : Looped S → Type 0 where
    here : Reach start (new_looped start)
    next : {l m : Looped S} → Reach start l → LoopStep l m → Reach start m

  -- no Open of a loop that is open
  abbrev pub IsFresh : {l m : Looped S} → LoopStep l m → Type 0
  IsFresh {l} (opens s f b) = l.stop ≢ opened
  IsFresh (ticks s h c) = Unit {0}
  IsFresh (ends n e c) = Unit {0}
  IsFresh (closes f c) = Unit {0}
  IsFresh (returns w z) = Unit {0}

  abbrev pub IsTidy : {start : S} {l : Looped S} → Reach start l → Type 0
  IsTidy here = Unit {0}
  IsTidy (next r step) = IsTidy r × IsFresh step
