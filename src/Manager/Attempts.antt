-- ===== src/Manager/Attempts.antt =====
-- The attempts of Start's loop: which ends it, and what comes of it.
use strimzi_canary.Common.{
  ℕ, suc, ◌<◌, ◌≡◌, refl, ap, ◌⊎◌, inl, inr, List, ◌++◌, map, count, Bool, Option, none, some,
  Outcome, ok, crash, fatal, String, count-append, arith,
}
use strimzi_canary.Backoff.Retry.{finished}
use strimzi_canary.Backoff.Attempts.{AgainTo}
use strimzi_canary.Topic.Types.{
  Errors, TopicSettings, TopicService, TopicReconcileResult, ReconcileError, sarama, topic_error,
  expected_cluster_size_error, Run, done,
}
use strimzi_canary.Topic
use strimzi_canary.Producer.{ProducerService}
use strimzi_canary.Producer
use strimzi_canary.Consumer
use strimzi_canary.Consumer.{max_consume_attempts}
use strimzi_canary.Consumer.Join.{Joins, GivesUp, consume-Joins}
use strimzi_canary.Manager.{
  Event, topic, producer, consumer, CanaryManager, Answers, Sending, consume_and_send, started,
  start_attempt,
}
use strimzi_canary.Manager.Events.{is_sleep, count-map}

module _ (er : Errors) (cfg : TopicSettings) (client_id : String) (fuel : ℕ)
    (answers : ℕ → Answers er cfg client_id) (times_out : ℕ → Bool) (cm : CanaryManager) where
  -- The first reconciles, `k` of them, found a cluster of another size than the expected one.
  pub data Waited : ℕ → TopicService → Type 0 where
    first : Waited 0 cm.topic_service
    later :
        {k : ℕ} {svc svc' : TopicService} (t : List Topic.Types.Event) (r : TopicReconcileResult)
        → Waited k svc
        → Topic.reconcile er cfg (answers k).topic_answers fuel svc
          ≡ done t (svc', r, some expected_cluster_size_error)
        → Waited (suc k) svc'

  -- What a reconcile that ends the loop leads to: the producer sends if the consumer joins the group.
  abbrev pub Decides :
      ℕ
      → TopicService
      → TopicReconcileResult
      → Option (ReconcileError er)
      → Sending er cfg client_id
      → Type 0
  Decides k svc r none s =
      ((j : ℕ) × Joins times_out j (Consumer.consume fuel times_out)
        × (s
            ≡ ok (
              svc,
              (Producer.send er.E client_id (answers k).producer_answers r.assignments
                  cm.producer_service).1,
            )))
      ⊎ (GivesUp times_out (Consumer.consume fuel times_out) × (s ≡ crash fatal))
  Decides k svc r (some expected_cluster_size_error) s = ⊥
  Decides k svc r (some e) s = s ≡ crash fatal

  -- a reconcile that ends the loop, after `k` that did not
  pub record Decided (k : ℕ) (s : Sending er cfg client_id) : Type 0 where
    pub before : TopicService
    pub waited : Waited k before
    pub events : List Topic.Types.Event
    pub service : TopicService
    pub result : TopicReconcileResult
    pub cause : Option (ReconcileError er)
    pub replies :
        Topic.reconcile er cfg (answers k).topic_answers fuel before
        ≡ done events (service, result, cause)
    pub decides : Decides k service result cause s

  -- the attempt of Start that it is
  abbrev pub Attempts : ℕ → Sending er cfg client_id → Type 0
  Attempts k s =
      (es : List Event) × (svc : TopicService) × (start_attempt er cfg client_id fuel answers
          times_out cm.producer_service (k, svc)
        ≡ finished es s)
      × (count is_sleep es ≡ 0)
      × AgainTo (start_attempt er cfg client_id fuel answers times_out cm.producer_service) is_sleep
          k (0, cm.topic_service) (k, svc)

  pub Waited-AgainTo :
      {k : ℕ} {svc : TopicService}
      → Waited k svc
      → AgainTo
          (start_attempt er cfg client_id fuel answers times_out cm.producer_service)
          is_sleep
          k
          (0, cm.topic_service)
          (k, svc)
  unfolding start_attempt
  Waited-AgainTo first = AgainTo.here
  Waited-AgainTo (later {k} t r w run) =
      AgainTo.later (map topic t) (Waited-AgainTo w)
        (ap (started er cfg client_id fuel answers times_out k cm.producer_service) run)
        (count-map topic t (λ x. refl))

  quiet_sends :
      (t : List Topic.Types.Event) (u : List Consumer.Event) (v : List Producer.Event)
      → count is_sleep (map topic t ++ (map consumer u ++ map producer v)) ≡ 0
  quiet_sends t u v = omega (
    arith,
    count-append is_sleep (map topic t) (map consumer u ++ map producer v),
    count-append is_sleep (map consumer u) (map producer v),
    count-map topic t (λ x. refl),
    count-map consumer u (λ x. refl),
    count-map producer v (λ x. refl),
  )

  -- what a Consume that joined, and one that gave up, lead to
  sent_if_joined :
      (ans : Answers er cfg client_id) (t : List Event) (svc : TopicService)
      (r : TopicReconcileResult) (c : List Consumer.Event × Outcome (Unit {0}))
      → c.1 ≡ ok tt
      → consume_and_send er cfg client_id ans cm.producer_service t svc r c
        ≡ finished
            (t
              ++ (map consumer c.0
                  ++ map producer
                      (Producer.send er.E client_id ans.producer_answers r.assignments
                        cm.producer_service).0))
            (ok (
              svc,
              (Producer.send er.E client_id ans.producer_answers r.assignments
                  cm.producer_service).1,
            ))
  sent_if_joined ans t svc r (u, ok a) h = refl
  sent_if_joined ans t svc r (u, crash c) h = absurd (cc h)

  ended_if_not :
      (ans : Answers er cfg client_id) (t : List Event) (svc : TopicService)
      (r : TopicReconcileResult) (c : List Consumer.Event × Outcome (Unit {0}))
      → c.1 ≡ crash fatal
      → consume_and_send er cfg client_id ans cm.producer_service t svc r c
        ≡ finished (t ++ map consumer c.0) (crash fatal)
  ended_if_not ans t svc r (u, ok a) h = absurd (cc h)
  ended_if_not ans t svc r (u, crash c) h = let e : c ≡ fatal = cc h in rw e refl

  -- An attempt that has a reply is tried again, or ends the loop.
  abbrev Answered :
      ℕ
      → List Topic.Types.Event
      → TopicService
      → TopicReconcileResult
      → Option (ReconcileError er)
      → Type 0
  Answered k t svc r e =
      (e ≡ some expected_cluster_size_error)
      ⊎ ((es : List Event) × (s : Sending er cfg client_id) × (started er cfg client_id fuel answers
              times_out k cm.producer_service (done t (svc, r, e))
            ≡ finished es s)
          × (count is_sleep es ≡ 0)
          × Decides k svc r e s)

  pub answered :
      max_consume_attempts < fuel
      → (k : ℕ) (t : List Topic.Types.Event) (svc : TopicService) (r : TopicReconcileResult)
        (e : Option (ReconcileError er))
      → Answered k t svc r e
  answered lt k t svc r (some expected_cluster_size_error) = inl refl
  answered lt k t svc r (some (sarama e)) =
      inr (map topic t, crash fatal, refl, count-map topic t (λ x. refl), refl)
  answered lt k t svc r (some (topic_error e)) =
      inr (map topic t, crash fatal, refl, count-map topic t (λ x. refl), refl)
  answered lt k t svc r none =
      let u : List Consumer.Event = (Consumer.consume fuel times_out).0 in
      let (v, ps) =
        Producer.send er.E client_id (answers k).producer_answers r.assignments
          cm.producer_service in
      elim (consume-Joins times_out fuel lt) [
        | inl (j, joins) ↦ inr (
          map topic t ++ (map consumer u ++ map producer v),
          ok (svc, ps),
          sent_if_joined (answers k) (map topic t) svc r (Consumer.consume fuel times_out)
              joins.ends,
          quiet_sends t u v,
          inl (j, joins, refl),
        )
        | inr gives_up ↦ inr (
          map topic t ++ map consumer u,
          crash fatal,
          ended_if_not (answers k) (map topic t) svc r (Consumer.consume fuel times_out)
              gives_up.ends,
          omega (
            arith,
            count-append is_sleep (map topic t) (map consumer u),
            count-map topic t (λ x. refl),
            count-map consumer u (λ x. refl),
          ),
          inr (gives_up, refl),
        )
      ]
