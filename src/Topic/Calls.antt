-- ===== src/Topic/Calls.antt =====
-- The calls of a reconcile that make no request of some kind.
use strimzi_canary.Common.{
  ℕ, String, ◌≡◌, refl, Bool, true, false, List, [], ◌∷◌, Option, none, some, if◌then◌else◌,
  Outcome, ok, crash, Result, value, error, count, inl, inr, Option-cases,
}
use strimzi_canary.Topic.Types.{
  Errors, TopicSettings, TopicService, TopicReconcileResult, Event, add, describe_topic_error,
  describe_topics, close_admin, TopicMetadata, Answers, Run, done, failed, crashed, lift,
  is_disconnection,
}
use strimzi_canary.Topic.Runs.{IsQuiet, after-IsQuiet, if-IsQuiet, bind-IsQuiet}
use strimzi_canary.Topic.{
  answered, acknowledged, initial_counters, describe_canary_topic, close, reply,
}

pub lift-IsQuiet {ℓ} :
    {er : Errors} {A : Type ℓ} (p : Event → Bool) (o : Outcome A) → IsQuiet p (lift er o)
lift-IsQuiet p (ok a) = record { silent = refl }
lift-IsQuiet p (crash c) = record { silent = refl }

module _ (er : Errors) (cfg : TopicSettings) (ans : Answers er) (fuel : ℕ) (p : Event → Bool) where
  pub answered-IsQuiet {ℓ} :
      {A : Type ℓ} (call : Event) (t : List Event) (svc : TopicService) (r : TopicReconcileResult)
      (a : Result er.E A)
      → count p (call ∷ []) ≡ 0
      → count p (call ∷ t) ≡ 0
      → IsQuiet p (answered er cfg ans fuel call t svc r a)
  answered-IsQuiet call t svc r (value a) h k = record { silent = h }
  answered-IsQuiet call t svc r (error e) h k = record { silent = k }

  pub acknowledged-IsQuiet :
      (call : Event) (t : List Event) (svc : TopicService) (r : TopicReconcileResult)
      (a : Option er.E)
      → count p (call ∷ []) ≡ 0
      → count p (call ∷ t) ≡ 0
      → IsQuiet p (acknowledged er cfg ans fuel call t svc r a)
  acknowledged-IsQuiet call t svc r none h k = record { silent = h }
  acknowledged-IsQuiet call t svc r (some e) h k = record { silent = k }

  pub describe_canary_topic-IsQuiet :
      count p (describe_topics cfg.topic ∷ []) ≡ 0
      → count p (describe_topics cfg.topic ∷ add (describe_topic_error cfg.topic) 1 ∷ []) ≡ 0
      → (svc : TopicService) (r : TopicReconcileResult)
        (answer : Result er.E (List (TopicMetadata er)))
      → IsQuiet p (describe_canary_topic er cfg ans fuel svc r answer)
  unfolding describe_canary_topic
  describe_canary_topic-IsQuiet h k svc r (error e) = record { silent = k }
  describe_canary_topic-IsQuiet h k svc r (value []) = record { silent = h }
  describe_canary_topic-IsQuiet h k svc r (value (m ∷ ms)) = record { silent = h }

  pub counters-IsQuiet :
      (name : String)
      → count p (initial_counters er cfg ans fuel name) ≡ 0
      → (b : Bool) → count p (if b then [] else initial_counters er cfg ans fuel name) ≡ 0
  counters-IsQuiet name h true = refl
  counters-IsQuiet name h false = h

  module _ (quiet : count p (close_admin ∷ []) ≡ 0) where
    close-IsQuiet : (svc : TopicService) → IsQuiet p (close er cfg ans fuel svc)
    unfolding close
    close-IsQuiet svc = elim (Option-cases ans.admin_closed) [
      | inl closed ↦
          rw closed
            (if-IsQuiet p svc.admin _ _ (record { silent = quiet }) (record { silent = refl }))
      | inr (e, open_still) ↦
          rw open_still
            (if-IsQuiet p svc.admin _ _ (record { silent = quiet }) (record { silent = refl }))
    ]

    pub reply-IsQuiet :
        (m : Run er (TopicService × TopicReconcileResult))
        → IsQuiet p m
        → IsQuiet p (reply er cfg ans fuel m)
    unfolding reply
    reply-IsQuiet (done t (svc, r)) h = record { silent = h.silent }
    reply-IsQuiet (failed t f) h =
        if-IsQuiet p (is_disconnection er f.cause) _ _
          (after-IsQuiet p t _ h.silent
            (bind-IsQuiet p _ _ (close-IsQuiet f.service) λ _. record { silent = refl }))
          (record { silent = h.silent })
    reply-IsQuiet (crashed t c) h = record { silent = h.silent }
