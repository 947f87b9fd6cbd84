-- ===== src/Consumer/Tests.antt =====
-- A group that is joined at the third attempt or never, the leaders of three partitions, a claim of three
-- messages, and a goroutine that joins.
use strimzi_canary.Common.{
  ℕ, suc, ◌+◌, ◌≤◌, ◌≡◌, refl, Bool, true, false, List, [], ◌∷◌, ok, crash, fatal, nil_dereference,
  none, some, Result, value, error, ◌==◌, if◌then◌else◌, arith,
}
use strimzi_canary.Common.Int.{ℤ, pos}
use strimzi_canary.Backoff.{delay, new_backoff}
use strimzi_canary.Common.Maps.{insert}
use strimzi_canary.Producer.{CanaryMessage}
use strimzi_canary.Consumer.{
  start_consuming, cancel_context, timeout_join_group, close_consumer_group, sleep, consume, close,
  leaders, Message,
}
use strimzi_canary.Consumer.Race.{Claims, ReachClaims, increments-lost}
use strimzi_canary.Consumer.Session.{
  claiming, Goroutine, new_goroutine, Session, first_session, setup, consumed, SessionStep, joins,
  returns, Reach, here, next, failed, Reach-panicked,
}

abbrev third_joins : ℕ → Bool
third_joins n = if n == 2 then false else true

joined_at_third : consume 4 third_joins ≡ (
  start_consuming
      ∷ cancel_context
      ∷ timeout_join_group
      ∷ sleep (pos 5_000_000_000)
      ∷ start_consuming
      ∷ cancel_context
      ∷ timeout_join_group
      ∷ sleep (pos 10_000_000_000)
      ∷ start_consuming
      ∷ [],
  ok tt,
)
unfolding consume delay new_backoff
joined_at_third = refl

closed_before_consume : close {E = Bool} false none ≡ ([], crash nil_dereference)
unfolding close
closed_before_consume = refl

not_closed : close true (some true) ≡ (cancel_context ∷ close_consumer_group ∷ [], crash fatal)
unfolding close
not_closed = refl

abbrev led_by : ℕ → Result Bool ℤ
led_by n = if n == 7 then error true else value (pos (suc n))

three_leaders :
    leaders Bool (value (0 ∷ 1 ∷ 2 ∷ [])) led_by ≡ value ((0, pos 1) ∷ (1, pos 2) ∷ (2, pos 3) ∷ [])
unfolding leaders insert
three_leaders = refl

no_leader : leaders Bool (value (0 ∷ 7 ∷ [])) led_by ≡ error true
unfolding leaders
no_leader = refl

-- The bytes of a message are its id, and its time of sending is 100.
abbrev sent_at : ℕ → CanaryMessage
sent_at n = record { producer_id = "canary"; message_id = pos n; timestamp = pos 100 }

abbrev clock : ℕ → ℤ
clock n = pos 130

abbrev claim : List (Message ℕ)
claim = record { partition = 0; contents = 4 } ∷ record { partition = 2; contents = 5 } ∷ []

-- Consume fails once, and then the group is joined.
abbrev joined : Session
joined = record {
  goroutines = record new_goroutine { phase = claiming } ∷ [];
  ready_closed = true;
  panicked = false;
}

joined-Reach : Reach first_session joined
unfolding setup consumed
joined-Reach =
    next (next here (returns true [] new_goroutine [] refl refl (λ e. cc e)))
      (joins [] new_goroutine [] refl refl refl)

abbrev claiming_goroutine : Goroutine
claiming_goroutine = record new_goroutine { phase = claiming }

Reach-panicked_example :
    (t : Session) × (t ≡ consumed true [] claiming_goroutine [] joined)
    × SessionStep joined t
    × SessionStep t (setup [] (failed claiming_goroutine) [] t)
    × ((setup [] (failed claiming_goroutine) [] t).panicked ≡ true)
Reach-panicked_example = Reach-panicked joined claiming_goroutine [] joined-Reach refl refl refl

increments-lost_example :
    ((s : Claims) → ReachClaims 5 s → s.counter ≤ 5 + s.increments)
    × ((s : Claims) × ReachClaims 5 s × (s.increments ≡ 3) × (s.counter ≡ 6))
increments-lost_example = increments-lost 5 2 (omega arith)
