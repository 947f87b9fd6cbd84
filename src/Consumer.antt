-- ===== src/Consumer.antt =====
-- internal/services/consumer.go: joining the group, the leaders, and the messages of a claim. What
-- Sarama answers, the clock and the JSON of a message are parameters; tracing and logging are left out.
-- Consumer/Session is the goroutines that Consume starts.
pub mod Join
pub mod Claim
pub mod Leaders
pub mod Session
pub mod Race
mod Tests
use strimzi_canary.Common.{
  ℕ, suc, ◌+◌, ◌*◌, ◌%◌, ◌^◌, Bool, true, false, List, [], ◌∷◌, ◌++◌, Option, none, some,
  if◌then◌else◌, Outcome, ok, crash, fatal, nil_dereference, Result, value, error,
}
use strimzi_canary.Common.Int.{ℤ, pos, sub64}
use strimzi_canary.Common.Maps.{insert, nat_eq}
use strimzi_canary.Backoff.{new_backoff, millisecond, max_default, BackoffError}
use strimzi_canary.Backoff.Retry.{Attempt, finished, again, Retried, retry}
use strimzi_canary.Producer.{CanaryMessage}

-- The metrics are labelled by the partition, but for those on the group and the metadata.
pub data Event : Type 0 where
  start_consuming cancel_context timeout_join_group refresh_metadata refresh_metadata_error : Event
  close_consumer_group : Event
  sleep : ℤ → Event
  mark_message : ℕ → CanaryMessage → Event
  observe_latency : ℕ → ℤ → Event
  add_consumed : ℕ → Event

abbrev pub max_consume_attempts : ℕ
max_consume_attempts = 3

abbrev pub consume_scale : ℕ
consume_scale = 5000 * millisecond

-- Attempt `i` starts the goroutine and waits for it to be ready.
unfoldable pub consume_attempt : (ℕ → Bool) → ℕ → Attempt Event ℕ (Unit {0})
consume_attempt times_out i =
    if times_out i
    then again (start_consuming ∷ cancel_context ∷ timeout_join_group ∷ []) (suc i)
    else finished (start_consuming ∷ []) tt

abbrev pub waiting : ℤ → List Event
waiting d = sleep d ∷ []

-- An error of the back-off ends the program.
abbrev pub or_exit : Outcome (Result BackoffError (Unit {0})) → Outcome (Unit {0})
or_exit (ok (value a)) = ok tt
or_exit (ok (error e)) = crash fatal
or_exit (crash c) = crash c

abbrev pub exiting : Retried Event (Unit {0}) → List Event × Outcome (Unit {0})
exiting (t, end) = (t, or_exit end)

unfoldable pub consume : ℕ → (ℕ → Bool) → List Event × Outcome (Unit {0})
unfolding consume_attempt retry
consume fuel times_out = exiting (
    retry (consume_attempt times_out) waiting fuel 0
      (new_backoff (pos max_consume_attempts) (pos consume_scale) max_default))

unfoldable pub refresh {ℓ} : {E : Type ℓ} → Option E → List Event
refresh none = refresh_metadata ∷ []
refresh (some e) = refresh_metadata ∷ refresh_metadata_error ∷ []

-- `cancel` is whether there is a function to cancel with: Consume sets it.
unfoldable pub close {ℓ} : {E : Type ℓ} → Bool → Option E → List Event × Outcome (Unit {0})
close false answer = ([], crash nil_dereference)
close true none = (cancel_context ∷ close_consumer_group ∷ [], ok tt)
close true (some e) = (cancel_context ∷ close_consumer_group ∷ [], crash fatal)

module _ (E : Type 0) where
  -- `leader p` is the id of the broker that leads the partition.
  unfoldable pub leaders_from : (ℕ → Result E ℤ) → List ℕ → List (ℕ × ℤ) → Result E (List (ℕ × ℤ))
  leaders_from leader [] m = value m
  leaders_from leader (p ∷ ps) m = elim (leader p) [
    | error e ↦ error e
    | value id ↦ leaders_from leader ps (insert p id m)
  ]

  unfoldable pub leaders : Result E (List ℕ) → (ℕ → Result E ℤ) → Result E (List (ℕ × ℤ))
  unfolding leaders_from
  leaders (error e) leader = error e
  leaders (value partitions) leader = leaders_from leader partitions []

pub record Message (Bytes : Type 0) : Type 0 where
  pub partition : ℕ
  pub contents : Bytes

-- The global counter of the records consumed, a uint64.
module _ {Bytes : Type 0} (decode : Bytes → CanaryMessage) (now : ℕ → ℤ) where
  -- Message `i` of the claim is read at `now i`.
  unfoldable pub consume_from : ℕ → List (Message Bytes) → ℕ → List Event × ℕ
  consume_from i [] consumed = ([], consumed)
  consume_from i (message ∷ messages) consumed =
      let cm = decode message.contents in
      let (rest, last) = consume_from (i + 1) messages ((consumed + 1) % 2 ^ 64) in
      (
        mark_message message.partition cm
            ∷ observe_latency message.partition (sub64 (now i) cm.timestamp)
            ∷ add_consumed message.partition
            ∷ rest,
        last,
      )

  unfoldable pub consume_claim : List (Message Bytes) → ℕ → List Event × ℕ
  unfolding consume_from
  consume_claim messages consumed = consume_from 0 messages consumed
