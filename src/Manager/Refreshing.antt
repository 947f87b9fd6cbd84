-- ===== src/Manager/Refreshing.antt =====
-- The events of a tick, by the producer's and by the consumer's part in them.
use strimzi_canary.Common.{
  ◌+◌, ◌≡◌, refl, ◌↔◌, List, [], ◌++◌, map, count, Bool, true, false, if◌then◌else◌, Option, none,
  some, String, append-nil, arith,
}
use strimzi_canary.Common.Maps.{nat_eq}
use strimzi_canary.Topic.Types.{
  Errors, TopicSettings, TopicService, TopicReconcileResult, ReconcileError, Run, done,
}
use strimzi_canary.Topic
use strimzi_canary.Producer.{ProducerService, CanaryMessage}
use strimzi_canary.Producer
use strimzi_canary.Producer.Sent.{messages}
use strimzi_canary.Consumer
use strimzi_canary.Manager.{topic, producer, consumer, Answers, have_changed, refreshes}
use strimzi_canary.Manager.Events.{
  of_producer, of_consumer, of_producer-append, of_consumer-append, of_producer-topic,
  of_consumer-topic, of_producer-producer, of_consumer-producer, of_producer-consumer,
  of_consumer-consumer, is_refresh,
}

module _ (er : Errors) (cfg : TopicSettings) (client_id : String)
    (ans : Answers er cfg client_id) where
  pub producer_refresh : Bool → List Producer.Event
  producer_refresh b = if b then Producer.refresh er.E client_id ans.producer_refreshed else []

  pub consumer_refresh : Bool → List Consumer.Event
  consumer_refresh b = if b then Consumer.refresh ans.consumer_refreshed else []

  refreshed_by :
      (b : Bool)
      → of_producer
          (if b then map producer (Producer.refresh er.E client_id ans.producer_refreshed) else [])
        ≡ producer_refresh b
  unfolding producer_refresh
  refreshed_by true = of_producer-producer _
  refreshed_by false = refl

  refreshed_by_none :
      (b : Bool)
      → of_producer (if b then map consumer (Consumer.refresh ans.consumer_refreshed) else []) ≡ []
  refreshed_by_none true = of_producer-consumer (Consumer.refresh ans.consumer_refreshed)
  refreshed_by_none false = refl

  joined_by :
      (b : Bool)
      → of_consumer (if b then map consumer (Consumer.refresh ans.consumer_refreshed) else [])
        ≡ consumer_refresh b
  unfolding consumer_refresh
  joined_by true = of_consumer-consumer _
  joined_by false = refl

  joined_by_none :
      (b : Bool)
      → of_consumer
          (if b then map producer (Producer.refresh er.E client_id ans.producer_refreshed) else [])
        ≡ []
  joined_by_none true =
      of_consumer-producer (Producer.refresh er.E client_id ans.producer_refreshed)
  joined_by_none false = refl

  abbrev pub changed : TopicReconcileResult → Bool
  changed r =
      have_changed er cfg client_id r.leaders
        (Consumer.leaders er.E ans.leaders_found ans.leader_found)

  pub producer_events :
      (t : List Topic.Types.Event) (r : TopicReconcileResult) (u : List Producer.Event)
      → of_producer (map topic t ++ (refreshes er cfg client_id ans r ++ map producer u))
        ≡ producer_refresh r.refresh_producer_metadata ++ u
  unfolding refreshes producer_refresh
  producer_events t r u =
      rw
        (
          of_producer-append, of_producer-append, of_producer-append, of_producer-topic,
          refreshed_by, refreshed_by_none, of_producer-producer, append-nil,
        )
        refl

  pub consumer_events :
      (t : List Topic.Types.Event) (r : TopicReconcileResult) (u : List Producer.Event)
      → of_consumer (map topic t ++ (refreshes er cfg client_id ans r ++ map producer u))
        ≡ consumer_refresh (changed r)
  unfolding refreshes consumer_refresh
  consumer_events t r u =
      rw
        (
          of_consumer-append, of_consumer-append, of_consumer-append, of_consumer-topic, joined_by,
          joined_by_none, of_consumer-producer, append-nil,
        )
        refl

  -- A refresh of the producer sends no message and is one request.
  messages-refresh :
      (a : Option er.E) (u : List Producer.Event)
      → (messages (Producer.refresh er.E client_id a ++ u) ≡ messages u)
        × (count is_refresh (Producer.refresh er.E client_id a ++ u) ≡ 1 + count is_refresh u)
  unfolding Producer.refresh
  messages-refresh none u = (refl, refl)
  messages-refresh (some e) u = (refl, omega arith)

  pub messages_by :
      (b : Bool) (u : List Producer.Event)
      → (messages (producer_refresh b ++ u) ≡ messages u)
        × (count is_refresh (producer_refresh b ++ u) ≡ (if b then 1 else 0) + count is_refresh u)
  unfolding producer_refresh
  messages_by true u = messages-refresh ans.producer_refreshed u
  messages_by false u = (refl, omega arith)

  not_refreshed : (a : Option er.E) → Consumer.refresh a ≡ [] → ⊥
  unfolding Consumer.refresh
  not_refreshed none h = cc h
  not_refreshed (some e) h = cc h

  pub consumer_refresh_iff : (b : Bool) → (consumer_refresh b ≡ []) ↔ (b ≡ false)
  unfolding consumer_refresh
  consumer_refresh_iff true =
      (λ h. absurd (not_refreshed ans.consumer_refreshed h), λ h. absurd (cc h))
  consumer_refresh_iff false = (λ h. refl, λ h. refl)
