-- ===== src/Consumer/Claim.antt =====
-- ConsumeClaim: every message is marked and counted.
use strimzi_canary.Common.{
  ℕ, ◌+◌, ◌%◌, ◌^◌, ◌<◌, ◌≡◌, refl, ap, Bool, false, List, [], ◌∷◌, map, ◌==◌, length, count, arith,
}
use strimzi_canary.Common.Int.{ℤ}
use strimzi_canary.Producer.{CanaryMessage}
use strimzi_canary.Consumer.{
  Event, mark_message, add_consumed, Message, consume_from, consume_claim,
}

-- the messages that are marked, with their partitions
abbrev pub marked : List Event → List (ℕ × CanaryMessage)
marked [] = []
marked (mark_message p cm ∷ es) = (p, cm) ∷ marked es
marked (e ∷ es) = marked es

abbrev pub is_consumed_of : ℕ → Event → Bool
is_consumed_of p (add_consumed q) = q == p
is_consumed_of p e = false

module _ {Bytes : Type 0} (decode : Bytes → CanaryMessage) (now : ℕ → ℤ) where
  abbrev pub decoded : Message Bytes → ℕ × CanaryMessage
  decoded m = (m.partition, decode m.contents)

  -- what consuming the messages, from a counter on, does
  pub record Consumes (messages : List (Message Bytes)) (consumed : ℕ) (run : List Event × ℕ)
      : Type 0 where
    pub marks : marked run.0 ≡ map decoded messages
    pub counts :
        (p : ℕ)
        → count (is_consumed_of p) run.0 ≡ count (λ (m : Message Bytes). m.partition == p) messages
    pub total : run.1 ≡ (consumed + length messages) % 2 ^ 64

  consume_from-Consumes :
      (i : ℕ) (messages : List (Message Bytes)) (consumed : ℕ)
      → consumed < 2 ^ 64
      → Consumes messages consumed (consume_from decode now i messages consumed)
  unfolding consume_from
  consume_from-Consumes i [] consumed h = record {
    marks = refl;
    counts = λ p. refl;
    total = omega arith;
  }
  consume_from-Consumes i (m ∷ messages) consumed h =
      let rest = consume_from-Consumes (i + 1) messages ((consumed + 1) % 2 ^ 64) (omega arith) in
      record {
        marks = ap (λ (l : List (ℕ × CanaryMessage)). decoded m ∷ l) rest.marks;
        counts = λ p. omega (arith, rest.counts p);
        total = omega (arith, rest.total);
      }

  -- ConsumeClaim marks the messages of the claim, each once and in their order, adds to the records consumed of
  -- every partition how many of them are of it, and to the counter of the records consumed their
  -- number, modulo 2^64.
  pub consume_claim-Consumes :
      (messages : List (Message Bytes)) (consumed : ℕ)
      → consumed < 2 ^ 64
      → Consumes messages consumed (consume_claim decode now messages consumed)
  unfolding consume_claim
  consume_claim-Consumes messages consumed h = consume_from-Consumes 0 messages consumed h
