-- ===== src/Messages/Tests.antt =====
-- A Send to three partitions, of which one loses its message.
use strimzi_canary.Common.{ℕ, ◌≡◌, refl, Bool, [], ◌∷◌, none, some, ◌==◌, not, arith}
use strimzi_canary.Common.Int.{ℤ, pos}
use strimzi_canary.Assign.{Assignments}
use strimzi_canary.Producer.{CanaryMessage, ProducerService}
use strimzi_canary.Producer
use strimzi_canary.Consumer.{mark_message, observe_latency, add_consumed, consume_claim}
use strimzi_canary.Messages.{Json, IsJson, json, new_canary_message}
use strimzi_canary.Messages.Log.{sent_to}
use strimzi_canary.Messages.Delivery.{
  claim, consume_claims, IsDelivered, consume_claims-IsDelivered,
}

-- messages as they are
abbrev plain : Json
plain = record {
  Bytes = CanaryMessage;
  no_bytes = record { producer_id = ""; message_id = pos 0; timestamp = pos 0 };
  marshal = λ cm. some cm;
  unmarshal = λ b start. b;
}

plain-IsJson : IsJson plain
plain-IsJson = record { reads_back = λ cm start h k. (cm, refl, refl) }

abbrev acknowledged : Producer.Answers Bool "client"
acknowledged = record { sent = λ i. none; before = λ i. pos 100; later = λ i. pos 103 }

abbrev three_partitions : Assignments
three_partitions = (0, 1 ∷ []) ∷ (1, 1 ∷ []) ∷ (2, 1 ∷ []) ∷ []

abbrev sent_before : ProducerService
sent_before = record { index = pos 6; records_produced = 6 }

abbrev but_one : ℕ → Bool
but_one p = not (p == 1)

abbrev claims_read : ℕ → ℕ → ℤ
claims_read p i = pos 110

consume_claims-but_one :
    consume_claims plain Bool "client" acknowledged but_one claims_read
      (claim plain Bool "client" acknowledged but_one claims_read three_partitions sent_before)
      3
      0
      5
    ≡ (
      mark_message 0 (record { producer_id = "client"; message_id = pos 7; timestamp = pos 100 })
          ∷ observe_latency 0 (pos 10)
          ∷ add_consumed 0
          ∷ mark_message 2
              (record { producer_id = "client"; message_id = pos 9; timestamp = pos 100 })
          ∷ observe_latency 2 (pos 10)
          ∷ add_consumed 2
          ∷ [],
      7,
    )
unfolding consume_claims consume_claim sent_to json new_canary_message Producer.send
consume_claims-but_one = refl

consume_claims-IsDelivered_example :
    IsDelivered plain Bool "client" acknowledged but_one claims_read three_partitions sent_before 5
      (consume_claims plain Bool "client" acknowledged but_one claims_read
        (claim plain Bool "client" acknowledged but_one claims_read three_partitions sent_before)
        3
        0
        5)
consume_claims-IsDelivered_example =
    consume_claims-IsDelivered plain Bool "client" acknowledged but_one claims_read three_partitions
      sent_before 5 plain-IsJson (λ p. omega arith) (omega arith) (omega arith)
