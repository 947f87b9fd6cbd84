-- ===== src/Manager/Events.antt =====
-- The events of the producer and of the consumer among those of the manager.
use strimzi_canary.Common.{
  ℕ, zero, suc, ◌+◌, ◌%◌, ◌^◌, length, ◌≡◌, refl, ap, List, [], ◌∷◌, ◌++◌, map, count, Bool, true,
  false, if◌then◌else◌, Option, none, some, String, count-append, arith,
}
use strimzi_canary.Common.Int.{ℤ, sub64}
use strimzi_canary.Assign.{Assignments}
use strimzi_canary.Topic
use strimzi_canary.Producer
use strimzi_canary.Producer.{ProducerService, answer_metrics, send_from, send}
use strimzi_canary.Consumer
use strimzi_canary.Manager.{Event, topic, producer, consumer, sleep}

abbrev pub of_producer : List Event → List Producer.Event
of_producer [] = []
of_producer (producer e ∷ es) = e ∷ of_producer es
of_producer (e ∷ es) = of_producer es

abbrev pub of_consumer : List Event → List Consumer.Event
of_consumer [] = []
of_consumer (consumer e ∷ es) = e ∷ of_consumer es
of_consumer (e ∷ es) = of_consumer es

abbrev pub is_sleep : Event → Bool
is_sleep (sleep d) = true
is_sleep e = false

pub of_producer-append :
    (xs ys : List Event) → of_producer (xs ++ ys) ≡ of_producer xs ++ of_producer ys
of_producer-append [] ys = refl
of_producer-append (producer e ∷ xs) ys =
    ap (λ (l : List Producer.Event). e ∷ l) (of_producer-append xs ys)
of_producer-append (e ∷ xs) ys = of_producer-append xs ys

pub of_consumer-append :
    (xs ys : List Event) → of_consumer (xs ++ ys) ≡ of_consumer xs ++ of_consumer ys
of_consumer-append [] ys = refl
of_consumer-append (consumer e ∷ xs) ys =
    ap (λ (l : List Consumer.Event). e ∷ l) (of_consumer-append xs ys)
of_consumer-append (e ∷ xs) ys = of_consumer-append xs ys

pub of_producer-topic : (t : List Topic.Types.Event) → of_producer (map topic t) ≡ []
of_producer-topic [] = refl
of_producer-topic (e ∷ t) = of_producer-topic t

pub of_consumer-topic : (t : List Topic.Types.Event) → of_consumer (map topic t) ≡ []
of_consumer-topic [] = refl
of_consumer-topic (e ∷ t) = of_consumer-topic t

pub of_producer-producer : (t : List Producer.Event) → of_producer (map producer t) ≡ t
of_producer-producer [] = refl
of_producer-producer (e ∷ t) = ap (λ (l : List Producer.Event). e ∷ l) (of_producer-producer t)

pub of_consumer-producer : (t : List Producer.Event) → of_consumer (map producer t) ≡ []
of_consumer-producer [] = refl
of_consumer-producer (e ∷ t) = of_consumer-producer t

pub of_producer-consumer : (t : List Consumer.Event) → of_producer (map consumer t) ≡ []
of_producer-consumer [] = refl
of_producer-consumer (e ∷ t) = of_producer-consumer t

pub of_consumer-consumer : (t : List Consumer.Event) → of_consumer (map consumer t) ≡ t
of_consumer-consumer [] = refl
of_consumer-consumer (e ∷ t) = ap (λ (l : List Consumer.Event). e ∷ l) (of_consumer-consumer t)

-- No service's event is a sleep of the manager.
pub count-map {ℓ} :
    {A : Type ℓ} (f : A → Event) (t : List A)
    → ((x : A) → is_sleep (f x) ≡ false)
    → count is_sleep (map f t) ≡ 0
count-map f [] quiet = refl
count-map f (x ∷ t) quiet =
    omega (arith, ap {B = ℕ} (λ (b : Bool). if b then 1 else 0) (quiet x), count-map f t quiet)

abbrev pub is_refresh : Producer.Event → Bool
is_refresh Producer.refresh_metadata = true
is_refresh e = false

module _ (E : Type 0) (client_id : String) (ans : Producer.Answers E client_id) where
  quiet_answer :
      (i : ℕ) (d : ℤ) (a : Option E) → count is_refresh (answer_metrics E client_id i d a) ≡ 0
  quiet_answer i d none = refl
  quiet_answer i d (some e) = refl

  quiet_from :
      (n i : ℕ) (ps : ProducerService) → count is_refresh (send_from E client_id ans n i ps).0 ≡ 0
  unfolding send_from
  quiet_from zero i ps = refl
  quiet_from (suc n) i ps =
      let (cm, ps') = Producer.new_canary_message E client_id (ans.before i) ps in
      let produced = record ps' { records_produced = (ps'.records_produced + 1) % 2 ^ 64 } in
      let answer = answer_metrics E client_id i (sub64 (ans.later i) cm.timestamp) (ans.sent i) in
      omega (
        arith,
        count-append is_refresh answer (send_from E client_id ans n (i + 1) produced).0,
        quiet_answer i (sub64 (ans.later i) cm.timestamp) (ans.sent i),
        quiet_from n (i + 1) produced,
      )

  -- A Send refreshes nothing.
  pub count-send :
      (m : Assignments) (ps : ProducerService) → count is_refresh (send E client_id ans m ps).0 ≡ 0
  unfolding send
  count-send m ps = quiet_from (length m) 0 ps
