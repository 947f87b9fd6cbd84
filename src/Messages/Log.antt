-- ===== src/Messages/Log.antt =====
-- The log of each partition, of the messages of a Send.
use strimzi_canary.Common.{
  ℕ, zero, suc, ◌+◌, ◌%◌, ◌^◌, ◌<◌, ◌≡◌, ◌≢◌, refl, ap, ◌∙◌, List, [], ◌∷◌, if◌then◌else◌, ◌==◌,
  ==_iff, String, arith,
}
use mathlib.Core.Path.{subst}
use strimzi_canary.Common.Int.{ℤ, inc64, sub64}
use strimzi_canary.Producer.{CanaryMessage, ProducerService, answer_metrics, send_from, send}
use strimzi_canary.Producer
use strimzi_canary.Producer.Sent.{messages, advance, messages-answer_metrics}
use strimzi_canary.Consumer.{Message}
use strimzi_canary.Messages.{Json, json}

module _ (j : Json) where
  -- the log of a partition, of the messages that are sent
  unfoldable pub sent_to : ℕ → List (ℕ × CanaryMessage) → List (Message j.Bytes)
  sent_to p [] = []
  sent_to p ((i, cm) ∷ ms) =
      let rest = sent_to p ms in
      if i == p then record { partition = p; contents = json j cm } ∷ rest else rest

  module _ (E : Type 0) (client_id : String) (ans : Producer.Answers E client_id) where
    abbrev pub message : ℕ → ℤ → CanaryMessage
    message p id = record { producer_id = client_id; message_id = id; timestamp = ans.before p }

    abbrev produced : ProducerService → ProducerService
    produced ps = record {
      index = inc64 ps.index;
      records_produced = (ps.records_produced + 1) % 2 ^ 64;
    }

    unfoldable pub sent_from : ℕ → ℕ → ProducerService → List (ℕ × CanaryMessage)
    sent_from n i ps = messages (send_from E client_id ans n i ps).0

    sent_from-suc :
        (n i : ℕ) (ps : ProducerService)
        → sent_from (suc n) i ps
          ≡ (i, message i (inc64 ps.index)) ∷ sent_from n (i + 1) (produced ps)
    unfolding sent_from send_from
    sent_from-suc n i ps =
        ap (λ (l : List (ℕ × CanaryMessage)). (i, message i (inc64 ps.index)) ∷ l)
          (messages-answer_metrics E client_id ans i (sub64 (ans.later i) (ans.before i))
            (ans.sent i) (send_from E client_id ans n (i + 1) (produced ps)).0)

    sent_from-zero : (i : ℕ) (ps : ProducerService) → sent_from 0 i ps ≡ []
    unfolding sent_from send_from
    sent_from-zero i ps = refl

    -- The log of a partition, where the message for another or for itself comes first.
    sent_to_other :
        (p i : ℕ) (cm : CanaryMessage) (ms : List (ℕ × CanaryMessage))
        → i ≢ p
        → sent_to p ((i, cm) ∷ ms) ≡ sent_to p ms
    unfolding sent_to
    sent_to_other p i cm ms ne = ground (arith, ==_iff i p)

    sent_to_self :
        (p : ℕ) (cm : CanaryMessage) (ms : List (ℕ × CanaryMessage))
        → sent_to p ((p, cm) ∷ ms) ≡ record { partition = p; contents = json j cm } ∷ sent_to p ms
    unfolding sent_to
    sent_to_self p cm ms = rw ((==_iff p p).1 refl) refl

    sent_to_nothing : (p : ℕ) → sent_to p [] ≡ []
    unfolding sent_to
    sent_to_nothing p = refl

    sent_to_later : (p n i : ℕ) (ps : ProducerService) → p < i → sent_to p (sent_from n i ps) ≡ []
    sent_to_later p zero i ps h = ap (sent_to p) (sent_from-zero i ps) ∙ sent_to_nothing p
    sent_to_later p (suc n) i ps h =
        ap (sent_to p) (sent_from-suc n i ps)
        ∙ sent_to_other p i (message i (inc64 ps.index)) (sent_from n (i + 1) (produced ps))
            (omega arith)
        ∙ sent_to_later p n (i + 1) (produced ps) (omega arith)

    -- The log of a partition of a Send has its message.
    pub sent_to_one :
        (k n i : ℕ) (ps : ProducerService)
        → k < n
        → sent_to (i + k) (sent_from n i ps)
          ≡ record {
            partition = i + k;
            contents = json j (message (i + k) (advance (suc k) ps.index));
          }
            ∷ []
    sent_to_one k zero i ps h = absurd (omega arith)
    sent_to_one zero (suc n) i ps h =
        let here : i ≡ i + 0 = omega arith in
        subst
          (λ (p : ℕ).
            sent_to p (sent_from (suc n) i ps)
            ≡ record { partition = p; contents = json j (message p (inc64 ps.index)) } ∷ [])
          here
          (ap (sent_to i) (sent_from-suc n i ps)
            ∙ sent_to_self i (message i (inc64 ps.index)) (sent_from n (i + 1) (produced ps))
            ∙ ap
                (λ (l : List (Message j.Bytes)).
                  record { partition = i; contents = json j (message i (inc64 ps.index)) } ∷ l)
                (sent_to_later i n (i + 1) (produced ps) (omega arith)))
    sent_to_one (suc k) (suc n) i ps h =
        let shifted : i + 1 + k ≡ i + suc k = omega arith in
        ap (sent_to (i + suc k)) (sent_from-suc n i ps)
        ∙ sent_to_other (i + suc k) i (message i (inc64 ps.index))
            (sent_from n (i + 1) (produced ps)) (omega arith)
        ∙ subst
            (λ (p : ℕ).
              sent_to p (sent_from n (i + 1) (produced ps))
              ≡ record {
                partition = p;
                contents = json j (message p (advance (suc k) (inc64 ps.index)));
              }
                ∷ [])
            shifted (sent_to_one k n (i + 1) (produced ps) (omega arith))
