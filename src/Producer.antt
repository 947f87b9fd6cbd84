-- ===== src/Producer.antt =====
-- internal/services/producer.go: the messages of a Send, Refresh and Close. What Sarama answers and the
-- clock are parameters; the messages and the metrics are the events. Tracing and logging are left out.
pub mod Sent
mod Tests
use strimzi_canary.Common.{
  ℕ, zero, suc, ◌+◌, ◌%◌, ◌^◌, List, [], ◌∷◌, ◌++◌, Option, none, some, length, String, Outcome, ok,
  crash, fatal,
}
use strimzi_canary.Common.Int.{ℤ, pos, inc64, sub64}
use strimzi_canary.Assign.{Assignments}

-- internal/services/canary_message.go
pub record CanaryMessage : Type 0 where
  pub producer_id : String
  pub message_id : ℤ
  pub timestamp : ℤ

-- The index of the last message, and the global counter of the records produced, a uint64.
pub record ProducerService : Type 0 where
  pub index : ℤ
  pub records_produced : ℕ

-- The metrics are labelled by the partition, but for the last.
pub data Event : Type 0 where
  send_message : ℕ → CanaryMessage → Event
  add_produced add_produced_failed : ℕ → ℕ → Event
  observe_latency : ℕ → ℤ → Event
  refresh_metadata refresh_metadata_error close_producer : Event

module _ (E : Type 0) (client_id : String) where
  -- The answer to the message for a partition, and the clock before and after it.
  pub record Answers : Type 0 where
    pub sent : ℕ → Option E
    pub before : ℕ → ℤ
    pub later : ℕ → ℤ

  abbrev pub new_canary_message : ℤ → ProducerService → CanaryMessage × ProducerService
  new_canary_message now ps = (
    record { producer_id = client_id; message_id = inc64 ps.index; timestamp = now },
    record ps { index = inc64 ps.index },
  )

  -- the metrics after an answer
  abbrev pub answer_metrics : ℕ → ℤ → Option E → List Event
  answer_metrics i duration (some e) = add_produced_failed i 1 ∷ []
  answer_metrics i duration none = observe_latency i duration ∷ add_produced_failed i 0 ∷ []

  -- the messages for the partitions from `i` on, `count` of them
  unfoldable pub send_from : Answers → ℕ → ℕ → ProducerService → List Event × ProducerService
  send_from ans zero i ps = ([], ps)
  send_from ans (suc count) i ps =
      let (cm, ps') = new_canary_message (ans.before i) ps in
      let produced = record ps' { records_produced = (ps'.records_produced + 1) % 2 ^ 64 } in
      let (rest, last) = send_from ans count (i + 1) produced in
      (
        send_message i cm
            ∷ add_produced i 1
            ∷ (answer_metrics i (sub64 (ans.later i) cm.timestamp) (ans.sent i) ++ rest),
        last,
      )

  unfoldable pub send : Answers → Assignments → ProducerService → List Event × ProducerService
  unfolding send_from
  send ans partitions_assignments ps = send_from ans (length partitions_assignments) 0 ps

  unfoldable pub refresh : Option E → List Event
  refresh none = refresh_metadata ∷ []
  refresh (some e) = refresh_metadata ∷ refresh_metadata_error ∷ []

  unfoldable pub close : Option E → List Event × Outcome (Unit {0})
  close none = (close_producer ∷ [], ok tt)
  close (some e) = (close_producer ∷ [], crash fatal)
