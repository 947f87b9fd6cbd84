-- ===== src/Manager/Running/Closing.antt =====
-- That the closing of the services sends no message, and what it keeps.
use strimzi_canary.Common.{
  ℕ, ◌^◌, ◌<◌, ◌≡◌, refl, sym, ap, ap₂, ◌∙◌, List, [], ◌++◌, true, none, some, Option, Outcome, ok,
  crash, HoldsIn,
}
use mathlib.Core.Path.{subst}
use strimzi_canary.Common.Trace.{Traced, ◌>>=◌, of_service}
use strimzi_canary.Topic.Types.{Errors, TopicSettings, TopicService, Run, done, failed, crashed}
use strimzi_canary.Topic
use strimzi_canary.Connection.{ConnectionService}
use strimzi_canary.Connection
use strimzi_canary.Producer.{ProducerService, CanaryMessage}
use strimzi_canary.Producer
use strimzi_canary.Producer.Sent.{messages}
use strimzi_canary.Consumer
use strimzi_canary.Manager.{Event, producer, consumer, connection, CanaryManager}
use strimzi_canary.Manager.Events.{
  of_producer, of_producer-append, of_producer-topic, of_producer-consumer,
}
use strimzi_canary.Manager.Numbers.{Adds, Adds-nothing, messages-append}
use strimzi_canary.Manager.Stop.{Closings, of_topic, close_services}
use strimzi_canary.Manager.Running.Steps.{of_producer-connection, Between}

-- A piece of the closing: it sends nothing, and something holds of its value.
record Quiet {A : Type 0} (P : A → Type 0) (m : Traced Event A) : Type 0 where
  pub quiet : messages (of_producer m.0) ≡ []
  pub holds : HoldsIn P m.1

bind-Quiet :
    {A B : Type 0} (P : A → Type 0) (Q : B → Type 0) (m : Traced Event A) (f : A → Traced Event B)
    → Quiet P m
    → ((a : A) → P a → Quiet Q (f a))
    → Quiet Q (m >>= f)
bind-Quiet P Q (t, ok a) f h k =
    let r = k a h.holds in
    record {
      quiet =
          ap messages (of_producer-append t (f a).0)
          ∙ messages-append (of_producer t) (of_producer (f a).0)
          ∙ ap₂ (λ (x y : List (ℕ × CanaryMessage)). x ++ y) h.quiet r.quiet;
      holds = r.holds;
    }
bind-Quiet P Q (t, crash c) f h k = record { quiet = h.quiet; holds = tt }

abbrev Any : {A : Type 0} → A → Type 0
Any a = Unit {0}

HoldsIn-Any : {A : Type 0} (m : Outcome A) → HoldsIn Any m
HoldsIn-Any (ok a) = tt
HoldsIn-Any (crash c) = tt

module _ (er : Errors) (cfg : TopicSettings) where
  closed_producer : (a : Option er.E) → Quiet Any (of_service producer (Producer.close er.E "" a))
  unfolding Producer.close
  closed_producer none = record { quiet = refl; holds = tt }
  closed_producer (some e) = record { quiet = refl; holds = tt }

  of_service-consumer :
      {A : Type 0} (run : List Consumer.Event × Outcome A) → Quiet Any (of_service consumer run)
  of_service-consumer (t, end) = record {
    quiet = ap messages (of_producer-consumer t);
    holds = HoldsIn-Any end;
  }

  of_service-connection :
      {A : Type 0} (run : List Connection.Event × Outcome A) → Quiet Any (of_service connection run)
  of_service-connection (t, end) = record {
    quiet = ap messages (of_producer-connection t);
    holds = HoldsIn-Any end;
  }

  of_topic-Quiet : (run : Run er TopicService) → Quiet Any (of_topic er cfg run)
  of_topic-Quiet (done t svc) = record { quiet = ap messages (of_producer-topic t); holds = tt }
  of_topic-Quiet (failed t f) = record { quiet = ap messages (of_producer-topic t); holds = tt }
  of_topic-Quiet (crashed t c) = record { quiet = ap messages (of_producer-topic t); holds = tt }

  -- the manager as its services are closed
  abbrev Keeps : CanaryManager → CanaryManager → Type 0
  Keeps cm m = (m.producer_service ≡ cm.producer_service) × (m.stop ≡ cm.stop)

  close_services-Quiet :
      (ans : Closings er cfg) (cm : CanaryManager) → Quiet (Keeps cm) (close_services er cfg ans cm)
  unfolding close_services
  close_services-Quiet ans cm =
      bind-Quiet Any (Keeps cm) (of_service producer (Producer.close er.E "" ans.producer_closed)) _
        (closed_producer ans.producer_closed)
        λ _ any.
          bind-Quiet Any (Keeps cm) (of_service consumer (Consumer.close true ans.consumer_closed))
            _ (of_service-consumer (Consumer.close true ans.consumer_closed))
            λ _ any'.
              bind-Quiet Any (Keeps cm)
                (of_topic er cfg (Topic.close er cfg ans.topic_answers 0 cm.topic_service)) _
                (of_topic-Quiet (Topic.close er cfg ans.topic_answers 0 cm.topic_service))
                λ svc any''.
                  bind-Quiet Any (Keeps cm)
                    (of_service connection (
                      Connection.close er cfg.expected_cluster_size ans.connection_answers
                        cm.connection_service))
                    _
                    (of_service-connection (
                      Connection.close er cfg.expected_cluster_size ans.connection_answers
                        cm.connection_service))
                    λ cs closes. record { quiet = refl; holds = (refl, refl) }

  pub close_services-Between :
      (ans : Closings er cfg) (cm : CanaryManager) (t : List Event) (cm' : CanaryManager)
      → cm.producer_service.records_produced < 2 ^ 64
      → close_services er cfg ans cm ≡ (t, ok cm')
      → Between cm t cm' × (cm'.stop ≡ cm.stop)
  close_services-Between ans cm t cm' small h =
      let r = subst (Quiet (Keeps cm)) h (close_services-Quiet ans cm) in
      (
        subst (λ (ps : ProducerService). Adds cm.producer_service t ps) (sym r.holds.0)
            (Adds-nothing cm.producer_service t small r.quiet),
        r.holds.1,
      )
