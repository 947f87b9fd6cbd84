-- ===== src/Producer/Sent.antt =====
-- Which messages a Send makes, and what it counts.
use strimzi_canary.Common.{
  ℕ, zero, suc, ◌+◌, ◌%◌, ◌^◌, ◌<◌, ◌≡◌, refl, ap, ◌∙◌, List, [], ◌∷◌, ◌++◌, Option, none, some,
  length, get_elem?, String, arith,
}
use strimzi_canary.Common.Int.{ℤ, inc64, sub64}
use strimzi_canary.Assign.{Assignments}
use strimzi_canary.Producer.{
  CanaryMessage, ProducerService, Event, send_message, add_produced, add_produced_failed,
  observe_latency, refresh_metadata, refresh_metadata_error, close_producer, Answers,
  answer_metrics, send_from, send,
}

-- the messages among the events, with their partitions
abbrev pub messages : List Event → List (ℕ × CanaryMessage)
messages [] = []
messages (send_message i cm ∷ es) = (i, cm) ∷ messages es
messages (add_produced i k ∷ es) = messages es
messages (add_produced_failed i k ∷ es) = messages es
messages (observe_latency i d ∷ es) = messages es
messages (refresh_metadata ∷ es) = messages es
messages (refresh_metadata_error ∷ es) = messages es
messages (close_producer ∷ es) = messages es

-- the `n`-th index after another
abbrev pub advance : ℕ → ℤ → ℤ
advance zero x = x
advance (suc n) x = advance n (inc64 x)

module _ (E : Type 0) (client_id : String) (ans : Answers E client_id) where
  pub messages-answer_metrics :
      (i : ℕ) (d : ℤ) (a : Option E) (es : List Event)
      → messages (answer_metrics E client_id i d a ++ es) ≡ messages es
  messages-answer_metrics i d none es = refl
  messages-answer_metrics i d (some e) es = refl

  -- the messages for the partitions from `i` on, after an index
  pub record Numbered (i count : ℕ) (x : ℤ) (ms : List (ℕ × CanaryMessage)) : Type 0 where
    pub total : length ms ≡ count
    pub each :
        (j : ℕ)
        → j < count
        → get_elem? ms j
          ≡ some (
            i + j,
            record {
              producer_id = client_id;
              message_id = advance (suc j) x;
              timestamp = ans.before (i + j);
            },
          )

  Numbered-cons :
      (i count : ℕ) (x : ℤ) (ms : List (ℕ × CanaryMessage))
      → Numbered (i + 1) count (inc64 x) ms
      → Numbered i (suc count) x (
          (i, record { producer_id = client_id; message_id = inc64 x; timestamp = ans.before i })
          ∷ ms)
  Numbered-cons i count x ms r = record { total = ap suc r.total; each = at }
    where
      message : ℕ → ℤ → Option (ℕ × CanaryMessage)
      message k y =
          some (k, record { producer_id = client_id; message_id = y; timestamp = ans.before k })

      at :
          (j : ℕ)
          → j < suc count
          → get_elem?
              ((
                i,
                record { producer_id = client_id; message_id = inc64 x; timestamp = ans.before i },
              )
                ∷ ms)
              j
            ≡ some (
              i + j,
              record {
                producer_id = client_id;
                message_id = advance (suc j) x;
                timestamp = ans.before (i + j);
              },
            )
      at zero h = let here : i ≡ i + 0 = omega arith in ap (λ (k : ℕ). message k (inc64 x)) here
      at (suc j) h =
          let shifted : i + 1 + j ≡ i + suc j = omega arith in
          r.each j (omega arith) ∙ ap (λ (k : ℕ). message k (advance (suc j) (inc64 x))) shifted

  abbrev produced : ProducerService → ProducerService
  produced ps = record {
    index = inc64 ps.index;
    records_produced = (ps.records_produced + 1) % 2 ^ 64;
  }

  send_from-Numbered :
      (count i : ℕ) (ps : ProducerService)
      → Numbered i count ps.index (messages (send_from E client_id ans count i ps).0)
  unfolding send_from
  send_from-Numbered zero i ps = record { total = refl; each = λ j h. absurd (omega arith) }
  send_from-Numbered (suc count) i ps =
      let rest = (send_from E client_id ans count (i + 1) (produced ps)).0 in
      rw (messages-answer_metrics i (sub64 (ans.later i) (ans.before i)) (ans.sent i) rest) (
        Numbered-cons i count ps.index (messages rest)
          (send_from-Numbered count (i + 1) (produced ps)))

  send_from-index :
      (count i : ℕ) (ps : ProducerService)
      → (send_from E client_id ans count i ps).1.index ≡ advance count ps.index
  unfolding send_from
  send_from-index zero i ps = refl
  send_from-index (suc count) i ps = send_from-index count (i + 1) (produced ps)

  send_from-records_produced :
      (count i : ℕ) (ps : ProducerService)
      → ps.records_produced < 2 ^ 64
      → (send_from E client_id ans count i ps).1.records_produced
        ≡ (ps.records_produced + count) % 2 ^ 64
  unfolding send_from
  send_from-records_produced zero i ps h = omega arith
  send_from-records_produced (suc count) i ps h =
      omega (send_from-records_produced count (i + 1) (produced ps) (omega arith), arith)

  -- A Send makes one message for each partition, from 0 on and in that order, whether or not those before it
  -- fail; their numbers go on from the index of the last message, which is then that of the last of
  -- them, and the counter of the records produced goes up by their number, modulo 2^64.
  pub send-Numbered :
      (m : Assignments) (ps : ProducerService)
      → ps.records_produced < 2 ^ 64
      → Numbered 0 (length m) ps.index (messages (send E client_id ans m ps).0)
        × ((send E client_id ans m ps).1.index ≡ advance (length m) ps.index)
        × ((send E client_id ans m ps).1.records_produced
            ≡ (ps.records_produced + length m) % 2 ^ 64)
  unfolding send
  send-Numbered m ps h = (
    send_from-Numbered (length m) 0 ps,
    send_from-index (length m) 0 ps,
    send_from-records_produced (length m) 0 ps h,
  )
