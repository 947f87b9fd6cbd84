-- ===== src/Manager/Running/Sends.antt =====
-- What Start, a tick and the closing of the services, if they do not end the program, send and keep.
use strimzi_canary.Common.{
  ℕ, zero, suc, ◌^◌, ◌<◌, ◌≡◌, refl, ap, ◌⊎◌, inl, inr, List, [], ◌∷◌, ◌++◌, map, Bool, none, some,
  String, Outcome, ok, crash, value, error, Result-cases, append-nil,
}
use mathlib.Core.Path.{subst}
use strimzi_canary.Common.Int.{ℤ}
use strimzi_canary.Backoff.{Backoff, delay}
use strimzi_canary.Backoff.Retry.{Attempt, finished, again, Retried, after_events, retry}
use strimzi_canary.Topic.Types.{
  Errors, TopicSettings, TopicService, TopicReconcileResult, ReconcileError, sarama, topic_error,
  expected_cluster_size_error, Run, done, failed, crashed,
}
use strimzi_canary.Topic
use strimzi_canary.Producer.{ProducerService}
use strimzi_canary.Producer
use strimzi_canary.Producer.Sent.{messages}
use strimzi_canary.Consumer
use strimzi_canary.Manager.{
  Event, topic, producer, consumer, add_expected_cluster_size_error, sleep, Answers, Reply, Sending,
  StartAttempt, waiting, consume_and_send, started, start_attempt,
}
use strimzi_canary.Manager.Events.{
  of_producer, of_producer-append, of_producer-topic, of_producer-consumer, of_producer-producer,
}
use strimzi_canary.Manager.Numbers.{Adds, Adds-nothing, Adds-append, Adds-send}

started_events :
    (t : List Topic.Types.Event) (u : List Consumer.Event) (v : List Producer.Event)
    → of_producer (map topic t ++ (map consumer u ++ map producer v)) ≡ v
started_events t u v =
    rw
      (
        of_producer-append, of_producer-append, of_producer-topic, of_producer-consumer,
        of_producer-producer,
      )
      refl

Attempt-cases :
    {Ev S A : Type 0} (a : Attempt Ev S A)
    → ((t : List Ev) × (x : A) × (a ≡ finished t x)) ⊎ ((t : List Ev) × (s : S) × (a ≡ again t s))
Attempt-cases (finished t x) = inl (t, x, refl)
Attempt-cases (again t s) = inr (t, s, refl)

-- Events that send nothing, and a wait, before others.
quiet_wait :
    (t : List Event) (d : ℤ)
    → messages (of_producer t) ≡ []
    → messages (of_producer (t ++ (add_expected_cluster_size_error ∷ sleep d ∷ []))) ≡ []
quiet_wait t d h = rw (of_producer-append, append-nil) h

module _ (er : Errors) (cfg : TopicSettings) (client_id : String) (fuel : ℕ)
    (answers : ℕ → Answers er cfg client_id) (times_out : ℕ → Bool) (ps : ProducerService)
    (small : ps.records_produced < 2 ^ 64) where
  -- what the attempts of Start's loop, and the loop, send
  abbrev pub AddsIn : List Event → Sending er cfg client_id → Type 0
  AddsIn t (ok (svc, ps')) = Adds ps t ps'
  AddsIn t (crash c) = Unit {0}

  abbrev AttemptAdds : StartAttempt er cfg client_id → Type 0
  AttemptAdds (finished t s) = AddsIn t s
  AttemptAdds (again t s) = messages (of_producer t) ≡ []

  abbrev pub LoopAdds : Retried Event (Sending er cfg client_id) → Type 0
  LoopAdds (t, ok (value s)) = AddsIn t s
  LoopAdds (t, ok (error e)) = Unit {0}
  LoopAdds (t, crash c) = Unit {0}

  consume_and_send-Adds :
      (ans : Answers er cfg client_id) (t : List Topic.Types.Event) (svc : TopicService)
      (r : TopicReconcileResult) (c : List Consumer.Event × Outcome (Unit {0}))
      → AttemptAdds (consume_and_send er cfg client_id ans ps (map topic t) svc r c)
  consume_and_send-Adds ans t svc r (u, crash c) = tt
  consume_and_send-Adds ans t svc r (u, ok joined) =
      let v = (Producer.send er.E client_id ans.producer_answers r.assignments ps).0 in
      Adds-send er.E client_id ans.producer_answers r.assignments ps
        (map topic t ++ (map consumer u ++ map producer v)) small
        (ap messages (started_events t u v))

  started-Adds :
      (i : ℕ) (q : Run er (Reply er cfg client_id))
      → AttemptAdds (started er cfg client_id fuel answers times_out i ps q)
  started-Adds i (done t (svc, r, none)) =
      consume_and_send-Adds (answers i) t svc r (Consumer.consume fuel times_out)
  started-Adds i (done t (svc, r, some expected_cluster_size_error)) =
      ap messages (of_producer-topic t)
  started-Adds i (done t (svc, r, some (sarama e))) = tt
  started-Adds i (done t (svc, r, some (topic_error e))) = tt
  started-Adds i (failed t f) = tt
  started-Adds i (crashed t c) = tt

  start_attempt-Adds :
      (s : ℕ × TopicService)
      → AttemptAdds (start_attempt er cfg client_id fuel answers times_out ps s)
  unfolding start_attempt
  start_attempt-Adds (i, svc) =
      started-Adds i (Topic.reconcile er cfg (answers i).topic_answers fuel svc)

  after_wait :
      (t : List Event) (run : Retried Event (Sending er cfg client_id))
      → messages (of_producer t) ≡ []
      → LoopAdds run
      → LoopAdds (after_events t run)
  after_wait t (u, ok (value (ok (svc, ps')))) quiet a =
      Adds-append ps ps ps' t u (Adds-nothing ps t small quiet) a
  after_wait t (u, ok (value (crash c))) quiet a = tt
  after_wait t (u, ok (error e)) quiet a = tt
  after_wait t (u, crash c) quiet a = tt

  -- the loop after one attempt
  abbrev pub attempts : ℕ → (ℕ × TopicService) → Backoff → Retried Event (Sending er cfg client_id)
  attempts n s b =
      retry (start_attempt er cfg client_id fuel answers times_out ps) (waiting er cfg client_id) n
        s b

  pub retry-Adds : (n : ℕ) (s : ℕ × TopicService) (b : Backoff) → LoopAdds (attempts n s b)
  unfolding retry
  retry-Adds zero s b = tt
  retry-Adds (suc n) s b =
      elim (Attempt-cases (start_attempt er cfg client_id fuel answers times_out ps s)) [
        | inl (t, a, e) ↦
            let adds : AddsIn t a = subst AttemptAdds e (start_attempt-Adds s) in rw (retry, e) adds
        | inr (t, s', e) ↦
            let quiet : messages (of_producer t) ≡ [] =
              subst AttemptAdds e (start_attempt-Adds s) in
            elim (Result-cases (delay b).0) [
              | inl (reason, d) ↦ rw (retry, e, d) tt
              | inr (d, w) ↦
                  rw (retry, e, w)
                    (after_wait (t ++ waiting er cfg client_id d) (attempts n s' (delay b).1)
                      (quiet_wait t d quiet) (retry-Adds n s' (delay b).1))
            ]
      ]
