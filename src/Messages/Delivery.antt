-- ===== src/Messages/Delivery.antt =====
-- internal/services/producer.go and internal/services/consumer.go together: the messages of a Send, as the claims of
-- their partitions deliver them.
use strimzi_canary.Common.{
  ℕ, zero, suc, ◌+◌, ◌%◌, ◌^◌, ◌≤◌, ◌<◌, ◌≡◌, refl, ap, Bool, Bool-cases, inl, inr, List, [], ◌∷◌,
  ◌++◌, if◌then◌else◌, length, String, arith,
}
use mathlib.Core.Path.{subst}
use strimzi_canary.Common.Int.{ℤ, inc64, sub64}
use strimzi_canary.Assign.{Assignments}
use strimzi_canary.Config.Bounds.{IsInt64}
use strimzi_canary.Producer.{CanaryMessage, ProducerService, answer_metrics, send_from, send}
use strimzi_canary.Producer
use strimzi_canary.Producer.Sent.{messages, advance, send-Numbered}
use strimzi_canary.Consumer.{
  Event, mark_message, observe_latency, add_consumed, Message, consume_from, consume_claim,
}
use strimzi_canary.Messages.{Json, IsJson, json, new_canary_message, new_canary_message-json}
use strimzi_canary.Messages.Log.{sent_to, message, sent_from, sent_to_one}

module _ (j : Json) (E : Type 0) (client_id : String) (ans : Producer.Answers E client_id) where
  module _ (arrives : ℕ → Bool) (now : ℕ → ℕ → ℤ) where
    -- What the claim of a partition is given after a Send: its messages, if they arrive.
    abbrev pub claim : Assignments → ProducerService → ℕ → List (Message j.Bytes)
    claim m ps p = if arrives p then sent_to j p (messages (send E client_id ans m ps).0) else []

    -- The claims of `n` partitions from `p` on, one after the other, from a counter on. Message `i` of the claim
    -- of `p` is read at `now p i`.
    unfoldable pub consume_claims : (ℕ → List (Message j.Bytes)) → ℕ → ℕ → ℕ → List Event × ℕ
    consume_claims of zero p consumed = ([], consumed)
    consume_claims of (suc n) p consumed =
        let (t, mid) = consume_claim (new_canary_message j) (now p) (of p) consumed in
        let (u, last) = consume_claims of n (p + 1) mid in (t ++ u, last)

    -- how many of `n` partitions from `p` on have their message arrive
    abbrev pub arrivals : ℕ → ℕ → ℕ
    arrivals zero p = 0
    arrivals (suc n) p = (if arrives p then 1 else 0) + arrivals n (p + 1)

    -- what consuming the message of a partition does
    abbrev pub reads : ProducerService → ℕ → List Event
    reads ps p =
        if arrives p
        then mark_message p (message j E client_id ans p (advance (suc p) ps.index))
          ∷ observe_latency p (sub64 (now p 0) (ans.before p))
          ∷ add_consumed p
          ∷ []
        else []

    abbrev pub reads_from : ProducerService → ℕ → ℕ → List Event
    reads_from ps zero p = []
    reads_from ps (suc n) p = reads ps p ++ reads_from ps n (p + 1)

    advance-IsInt64 : (k : ℕ) (x : ℤ) → IsInt64 (advance (suc k) x)
    advance-IsInt64 zero x = ground arith
    advance-IsInt64 (suc k) x = advance-IsInt64 k (inc64 x)

    module _ (doc : IsJson j) (m : Assignments) (ps : ProducerService)
        (clock : (p : ℕ) → IsInt64 (ans.before p)) where
      claim_lem :
          (p consumed : ℕ)
          → p < length m
          → consume_claim (new_canary_message j) (now p) (claim m ps p) consumed
            ≡ (reads ps p, if arrives p then (consumed + 1) % 2 ^ 64 else consumed)
      unfolding consume_claim consume_from send sent_from
      claim_lem p consumed h = elim (Bool-cases (arrives p)) [
        | inl comes ↦
            let cm = message j E client_id ans p (advance (suc p) ps.index) in
            let from_zero : 0 + p ≡ p = omega arith in
            let log : sent_to j p (messages (send E client_id ans m ps).0)
                ≡ record { partition = p; contents = json j cm } ∷ [] =
              subst
                (λ (q : ℕ).
                  sent_to j q (sent_from j E client_id ans (length m) 0 ps)
                  ≡ record {
                    partition = q;
                    contents = json j (message j E client_id ans q (advance (suc p) ps.index));
                  }
                    ∷ [])
                from_zero (sent_to_one j E client_id ans p (length m) 0 ps h) in
            let back : new_canary_message j (json j cm) ≡ cm =
              new_canary_message-json j cm doc (advance-IsInt64 p ps.index) (clock p) in
            rw (comes, log, back) refl
        | inr lost ↦ rw lost refl
      ]

      consume_claims_lem :
          (n p consumed : ℕ)
          → p + n ≤ length m
          → consumed < 2 ^ 64
          → consume_claims (claim m ps) n p consumed
            ≡ (reads_from ps n p, (consumed + arrivals n p) % 2 ^ 64)
      unfolding consume_claims
      consume_claims_lem zero p consumed h small =
          ap (λ (k : ℕ). (reads_from ps 0 p, k)) (omega arith)
      consume_claims_lem (suc n) p consumed h small = elim (Bool-cases (arrives p)) [
        | inl comes ↦
            let rest =
              consume_claims_lem n (p + 1) ((consumed + 1) % 2 ^ 64) (omega arith) (omega arith) in
            let total : ((consumed + 1) % 2 ^ 64 + arrivals n (p + 1)) % 2 ^ 64
                ≡ (consumed + (1 + arrivals n (p + 1))) % 2 ^ 64 =
              omega arith in
            rw (claim_lem p consumed (omega arith), comes, rest, total) refl
        | inr lost ↦
            let rest = consume_claims_lem n (p + 1) consumed (omega arith) small in
            let total : (consumed + arrivals n (p + 1)) % 2 ^ 64
                ≡ (consumed + (0 + arrivals n (p + 1))) % 2 ^ 64 =
              omega arith in
            rw (claim_lem p consumed (omega arith), lost, rest, total) refl
      ]

    -- A Send, and the claims of its partitions.
    pub record IsDelivered (m : Assignments) (ps : ProducerService) (consumed : ℕ)
        (run : List Event × ℕ) : Type 0 where
      pub reading : run.0 ≡ reads_from ps (length m) 0
      pub consumed_total : run.1 ≡ (consumed + arrivals (length m) 0) % 2 ^ 64
      pub produced_total :
          (send E client_id ans m ps).1.records_produced ≡ (ps.records_produced + length m) % 2 ^ 64

    -- A Send whose messages reach the claims of their partitions, or are lost, and whose claims are consumed one after
    -- the other, when JSON gives back what it was made of and the clock is an int64: of every partition with
    -- an assignment whose message arrives, exactly that message is marked, with the number and the client
    -- that Send gave it, the latency observed is the time from the clock that Send read to that of the
    -- claim, and one record is counted; of the others nothing is. The counter of the records produced goes up
    -- by the number of the assignments, that of the records consumed by the number that arrives, modulo 2^64.
    pub consume_claims-IsDelivered :
        (m : Assignments) (ps : ProducerService) (consumed : ℕ)
        → IsJson j
        → ((p : ℕ) → IsInt64 (ans.before p))
        → consumed < 2 ^ 64
        → ps.records_produced < 2 ^ 64
        → IsDelivered m ps consumed (consume_claims (claim m ps) (length m) 0 consumed)
    consume_claims-IsDelivered m ps consumed doc clock small few =
        let run = consume_claims_lem doc m ps clock (length m) 0 consumed (omega arith) small in
        record {
          reading = ap (λ (r : List Event × ℕ). r.0) run;
          consumed_total = ap (λ (r : List Event × ℕ). r.1) run;
          produced_total = (send-Numbered E client_id ans m ps few).2;
        }
