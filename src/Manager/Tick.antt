-- ===== src/Manager/Tick.antt =====
-- What a tick of the manager does.
use strimzi_canary.Common.{
  ℕ, ◌+◌, ◌%◌, ◌^◌, ◌<◌, ◌≡◌, refl, sym, ap, ◌∙◌, ◌↔◌, List, [], count, length, if◌then◌else◌,
  Option, none, some, value, String, Outcome, ok, arith,
}
use mathlib.Core.Path.{subst}
use strimzi_canary.Common.Int.{ℤ}
use strimzi_canary.Common.Maps.{lookup, nat_eq}
use strimzi_canary.Topic.Types.{
  Errors, TopicSettings, TopicService, TopicReconcileResult, ReconcileError, Run, done,
}
use strimzi_canary.Topic
use strimzi_canary.Topic.Cooperation.{Cooperates}
use strimzi_canary.Topic.Total.{reconcile-Replied}
use strimzi_canary.Producer.{ProducerService, CanaryMessage}
use strimzi_canary.Producer
use strimzi_canary.Producer.Sent.{messages, advance, Numbered, send-Numbered}
use strimzi_canary.Consumer
use strimzi_canary.Manager.{Event, CanaryManager, Answers, reconciled, reconcile}
use strimzi_canary.Manager.Leaders.{have_changed_iff}
use strimzi_canary.Manager.Events.{
  of_producer, of_consumer, of_producer-topic, of_consumer-topic, is_refresh, count-send,
}
use strimzi_canary.Manager.Refreshing.{
  producer_events, consumer_events, messages_by, consumer_refresh_iff, changed,
}

module _ (er : Errors) (cfg : TopicSettings) (client_id : String)
    (ans : Answers er cfg client_id) where
  -- The leaders that the consumer's client knows are those of the result.
  abbrev pub HasLeaders : TopicReconcileResult → Type 0
  HasLeaders r =
      (n : List (ℕ × ℤ)) × (Consumer.leaders er.E ans.leaders_found ans.leader_found ≡ value n)
      × ((k : ℕ) → lookup k r.leaders ≡ lookup k n)

  -- A tick after a reconcile with a result.
  pub record Sends (cm : CanaryManager) (svc : TopicService) (r : TopicReconcileResult)
      (run : List Event × Outcome CanaryManager) : Type 0 where
    pub later : ProducerService
    pub ends : run.1 ≡ ok (record cm { topic_service = svc; producer_service = later })
    pub counted :
        later.records_produced
        ≡ (cm.producer_service.records_produced + length r.assignments) % 2 ^ 64
    pub indexed : later.index ≡ advance (length r.assignments) cm.producer_service.index
    pub sent :
        Numbered er.E client_id ans.producer_answers 0
          (length r.assignments)
          cm.producer_service.index
          (messages (of_producer run.0))
    pub refreshed :
        count is_refresh (of_producer run.0) ≡ (if r.refresh_producer_metadata then 1 else 0)
    pub joined : (of_consumer run.0 ≡ []) ↔ HasLeaders r

  -- A tick after a reconcile with an error.
  pub record Skips (cm : CanaryManager) (svc : TopicService)
      (run : List Event × Outcome CanaryManager) : Type 0 where
    pub ends : run.1 ≡ ok (record cm { topic_service = svc })
    pub no_producer : of_producer run.0 ≡ []
    pub no_consumer : of_consumer run.0 ≡ []

  abbrev pub Ticks :
      CanaryManager
      → TopicService
      → TopicReconcileResult
      → Option (ReconcileError er)
      → List Event × Outcome CanaryManager
      → Type 0
  Ticks cm svc r none run = Sends cm svc r run
  Ticks cm svc r (some e) run = Skips cm svc run

  pub reconciled-Ticks :
      (cm : CanaryManager) (t : List Topic.Types.Event) (svc : TopicService)
      (r : TopicReconcileResult) (e : Option (ReconcileError er))
      → cm.producer_service.records_produced < 2 ^ 64
      → Ticks cm svc r e (reconciled er cfg client_id ans cm (done t (svc, r, e)))
  reconciled-Ticks cm t svc r none h =
      let (u, later) =
        Producer.send er.E client_id ans.producer_answers r.assignments cm.producer_service in
      let sends =
        send-Numbered er.E client_id ans.producer_answers r.assignments cm.producer_service h in
      let by = messages_by er cfg client_id ans r.refresh_producer_metadata u in
      let leaders =
        have_changed_iff er cfg client_id r.leaders
          (Consumer.leaders er.E ans.leaders_found ans.leader_found) in
      record {
        later = later;
        indexed = sends.1;
        ends = refl;
        counted = sends.2;
        sent =
            subst
              (λ (ms : List (ℕ × CanaryMessage)).
                Numbered er.E client_id ans.producer_answers 0 (length r.assignments)
                  cm.producer_service.index ms)
              (sym (ap messages (producer_events er cfg client_id ans t r u) ∙ by.0)) sends.0;
        refreshed =
            ap (λ (es : List Producer.Event). count is_refresh es)
              (producer_events er cfg client_id ans t r u)
            ∙ omega (
              arith,
              by.1,
              count-send er.E client_id ans.producer_answers r.assignments cm.producer_service,
            );
        joined = (
          λ none_of. leaders.0 (
              (consumer_refresh_iff er cfg client_id ans (changed er cfg client_id ans r)).0
                (sym (consumer_events er cfg client_id ans t r u) ∙ none_of)),
          λ known.
              consumer_events er cfg client_id ans t r u
              ∙ (consumer_refresh_iff er cfg client_id ans (changed er cfg client_id ans r)).1
                  (leaders.1 known),
        );
      }
  reconciled-Ticks cm t svc r (some e) h = record {
    ends = refl;
    no_producer = of_producer-topic t;
    no_consumer = of_consumer-topic t;
  }

  -- A tick, when the cluster describes the topic when it is asked for it, lets the admin client be closed, and ends
  -- its reassignment within the fuel: it does not panic. With a result it sends a message for each of its
  -- assignments, from partition 0 on, refreshes the producer just if the result says so, and the consumer
  -- unless its client knows the leaders of the result; with an error it sends and refreshes nothing.
  pub reconcile-Ticks :
      (fuel : ℕ) (cm : CanaryManager)
      → Cooperates er cfg ans.topic_answers fuel
      → cm.producer_service.records_produced < 2 ^ 64
      → (t : List Topic.Types.Event) × (svc : TopicService) × (r : TopicReconcileResult)
        × (e : Option (ReconcileError er)) × (Topic.reconcile er cfg ans.topic_answers fuel
              cm.topic_service
            ≡ done t (svc, r, e))
        × Ticks cm svc r e (reconcile er cfg client_id fuel ans cm)
  unfolding reconcile
  reconcile-Ticks fuel cm co h =
      let (t, (svc, r, e), run, settled) =
        reconcile-Replied er cfg ans.topic_answers fuel co cm.topic_service in
      (
        t,
        svc,
        r,
        e,
        run,
        subst
            (λ (q : Run er (TopicService × TopicReconcileResult × Option (ReconcileError er))).
              Ticks cm svc r e (reconciled er cfg client_id ans cm q))
            (sym run) (reconciled-Ticks cm t svc r e h),
      )
