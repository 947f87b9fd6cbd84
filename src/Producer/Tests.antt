-- ===== src/Producer/Tests.antt =====
-- A Send to three partitions, of which the second refuses its message, run.
use strimzi_canary.Common.{
  ◌*◌, ℕ, ◌+◌, ◌%◌, ◌^◌, ◌≡◌, refl, arith, Bool, true, List, [], ◌∷◌, none, some, if◌then◌else◌,
  ◌==◌,
}
use strimzi_canary.Common.Int.{ℤ, pos}
use strimzi_canary.Assign.{Assignments}
use strimzi_canary.Producer.{CanaryMessage, ProducerService, Answers, send}
use strimzi_canary.Producer.Sent.{messages, advance, Numbered, send-Numbered}

abbrev second_refused : Answers Bool "canary"
second_refused = record {
  sent = λ i. if i == 1 then some true else none;
  before = λ i. pos (100 * i);
  later = λ i. pos (100 * i + 7);
}

abbrev three : Assignments
three = (0, 1 ∷ []) ∷ (1, 2 ∷ []) ∷ (2, 0 ∷ []) ∷ []

abbrev producer : ProducerService
producer = record { index = pos 41; records_produced = 12 }

abbrev numbers : List (ℕ × CanaryMessage) → List (ℕ × ℤ)
numbers [] = []
numbers ((i, cm) ∷ ms) = (i, cm.message_id) ∷ numbers ms

sent_in_order :
    numbers (messages (send Bool "canary" second_refused three producer).0)
    ≡ (0, pos 42) ∷ (1, pos 43) ∷ (2, pos 44) ∷ []
unfolding send
sent_in_order = refl

send-Numbered_example :
    Numbered Bool "canary" second_refused 0 3
      (pos 41)
      (messages (send Bool "canary" second_refused three producer).0)
    × ((send Bool "canary" second_refused three producer).1.index ≡ advance 3 (pos 41))
    × ((send Bool "canary" second_refused three producer).1.records_produced ≡ (12 + 3) % 2 ^ 64)
send-Numbered_example = send-Numbered Bool "canary" second_refused three producer (omega arith)
