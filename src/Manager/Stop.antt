-- ===== src/Manager/Stop.antt =====
-- internal/workers/canary_manager.go: Stop, which closes the services in turn.
use strimzi_canary.Common.{
  ◌≡◌, refl, inl, inr, Bool, Bool-cases, true, false, List, [], ◌∷◌, map, Option, none, ok, crash,
  nil_dereference, close_of_closed_channel,
}
use strimzi_canary.Topic.Types.{Errors, TopicSettings, TopicService, Run, done, failed, crashed}
use strimzi_canary.Topic
use strimzi_canary.Connection.{ConnectionService}
use strimzi_canary.Connection
use strimzi_canary.Producer
use strimzi_canary.Consumer
use strimzi_canary.Manager.{
  Event, topic, connection, producer, consumer, close_status_service, CanaryManager,
}
use strimzi_canary.Common.Trace.{Traced, ◌>>=◌, ◌>>◌, lift, tell, of_service}
use strimzi_canary.Loop.{opened, closed, close_channel}

abbrev pub Closing : Type 0 → Type 0
Closing A = Traced Event A

module _ (er : Errors) (cfg : TopicSettings) where
  -- What answers to the closing of the services.
  pub record Closings : Type 0 where
    pub producer_closed : Option er.E
    pub consumer_closed : Option er.E
    pub topic_answers : Topic.Types.Answers er
    pub connection_answers : Connection.Answers er

  abbrev pub of_topic : Run er TopicService → Closing TopicService
  of_topic (done t svc) = (map topic t, ok svc)
  of_topic (failed t f) = (map topic t, ok f.service)
  of_topic (crashed t c) = (map topic t, crash c)

  -- The services, closed in turn. Start has called Consume, so the consumer has a function to cancel with.
  unfoldable pub close_services : Closings → CanaryManager → Closing CanaryManager
  unfolding Producer.close Consumer.close Topic.close Connection.close
  close_services ans cm = do
    of_service producer (Producer.close er.E "" ans.producer_closed)
    of_service consumer (Consumer.close true ans.consumer_closed)
    svc ← of_topic (Topic.close er cfg ans.topic_answers 0 cm.topic_service)
    cs ←
        of_service connection (
          Connection.close er cfg.expected_cluster_size ans.connection_answers
            cm.connection_service)
    tell close_status_service
    lift (ok (record cm { topic_service = svc; connection_service = cs }))

  -- The goroutine of the ticker is gone before the services are closed.
  unfoldable pub stop : Closings → CanaryManager → Closing CanaryManager
  unfolding close_services
  stop ans cm = do lift (close_channel cm.stop); close_services ans (record cm { stop = closed })

  -- no service has a client left, and the loop is stopped
  abbrev pub stopped : CanaryManager → CanaryManager
  stopped cm = record cm {
    stop = closed;
    topic_service = record cm.topic_service { admin = false };
    connection_service = record cm.connection_service { admin = false };
  }

  topic_closes :
      (ans : Topic.Types.Answers er) (svc : TopicService)
      → ans.admin_closed ≡ none
      → (t : List Event) × (of_topic (Topic.close er cfg ans 0 svc)
          ≡ (t, ok (record svc { admin = false })))
  unfolding Topic.close
  topic_closes ans svc closes = elim (Bool-cases svc.admin) [
    | inl has ↦ (topic Topic.Types.close_admin ∷ [], rw (has, closes) refl)
    | inr lacks ↦ ([], rw lacks refl)
  ]

  -- What Stop makes of a manager that runs, if its connection service has a client, and if it has none.
  abbrev pub StopsAs : Bool → Closings → CanaryManager → Type 0
  StopsAs true ans cm =
      ((stop ans cm).1 ≡ ok (stopped cm))
      × ((stop ans (stopped cm)).1 ≡ crash close_of_closed_channel)
  StopsAs false ans cm = (stop ans cm).1 ≡ crash nil_dereference

  -- Stop, of a manager that runs, when nothing that it closes answers with an error: if the connection service
  -- has its admin client, Stop leaves the loop stopped and no service with a client, and a second Stop
  -- panics; if it has none, Stop panics.
  pub stop-StopsAs :
      (ans : Closings) (cm : CanaryManager)
      → cm.stop ≡ opened
      → ans.producer_closed ≡ none
      → ans.consumer_closed ≡ none
      → ans.topic_answers.admin_closed ≡ none
      → ans.connection_answers.admin_closed ≡ none
      → StopsAs cm.connection_service.admin ans cm
  unfolding stop Producer.close Consumer.close Connection.close
  stop-StopsAs ans cm opens produces consumes topics connects =
      let (t, run) = topic_closes ans.topic_answers cm.topic_service topics in
      elim (Bool-cases cm.connection_service.admin) [
        | inl has ↦ rw has (
          rw (stop, opens, close_services, produces, consumes, run, Connection.close, connects)
              refl,
          refl,
        )
        | inr lacks ↦
            rw lacks
              (rw (stop, opens, close_services, produces, consumes, run, Connection.close) refl)
      ]
