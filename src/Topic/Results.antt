-- ===== src/Topic/Results.antt =====
-- What a reconcile of the topic without an error has in its result, and which changes it asked the cluster for.
use strimzi_canary.Common.{
  ℕ, String, ◌≡◌, refl, Bool, Bool-cases, inl, inr, true, false, List, [], none, some,
  if◌then◌else◌, value,
}
use mathlib.Core.Path.{subst}
use strimzi_canary.Assign.{Broker}
use strimzi_canary.Topic.Types.{
  Errors, TopicSettings, TopicService, TopicReconcileResult, Event, new_cluster_admin,
  describe_cluster, TopicError, no_error, unknown_topic_or_partition, other_error, TopicMetadata,
  Answers, ReconcileError, Run, done, failed, crashed, after, bind, is_disconnection,
}
use strimzi_canary.Topic.{
  empty_result, logged, initial_counters, ensure_admin, reconcile_described, reconcile_topic, close,
  Reconciled, Reply, reply, reconcile,
}
use strimzi_canary.Topic.Gives.{changes, Gives, Quietly, if-Gives, map-Gives, quiet-Gives}
use strimzi_canary.Topic.Altered.{Any, answered-Gives, acknowledged-Gives}
use strimzi_canary.Topic.Found.{
  Describes, describe-Gives, Created, Kept, create_missing-Gives, reconcile_existing-Gives,
}

module _ (er : Errors) (cfg : TopicSettings) (ans : Answers er) (fuel : ℕ) where
  -- What a reconcile found, and what came of it by the state of the topic.
  abbrev pub Found :
      Bool
      → List Broker
      → TopicMetadata er
      → TopicError er
      → List Event
      → TopicReconcileResult
      → Type 0
  Found initialized brokers md unknown_topic_or_partition asked r =
      Created er cfg ans fuel brokers asked r
  Found initialized brokers md no_error asked r =
      Kept er cfg ans fuel initialized brokers (logged er cfg ans fuel md) asked r
  Found initialized brokers md (other_error e) asked r = ⊥

  reconcile_described-Gives :
      (svc : TopicService) (brokers : List Broker) (md : TopicMetadata er) (err : TopicError er)
      → Gives
          (λ c (svc', r). Found svc.initialized brokers md err c r)
          (reconcile_described er cfg ans fuel svc brokers md err)
  unfolding reconcile_described
  reconcile_described-Gives svc brokers md unknown_topic_or_partition =
      create_missing-Gives er cfg ans fuel svc brokers md
  reconcile_described-Gives svc brokers md no_error =
      reconcile_existing-Gives er cfg ans fuel svc brokers md
  reconcile_described-Gives svc brokers md (other_error e) = record { gives = tt }

  ensure_admin-Gives :
      (start : TopicService)
      → Gives
          (Quietly (λ svc. svc.initialized ≡ start.initialized))
          (ensure_admin er cfg ans fuel start)
  unfolding ensure_admin
  ensure_admin-Gives start =
      if-Gives (Quietly (λ svc. svc.initialized ≡ start.initialized)) start.admin _ _
        (λ has. record { gives = (refl, refl) })
        (λ lacks.
          quiet-Gives Any (Quietly (λ svc. svc.initialized ≡ start.initialized)) _ _
            (map-Gives (λ c _. c ≡ []) (Quietly Any) _ (λ c _ e. (e, tt))
              (acknowledged-Gives er cfg ans fuel new_cluster_admin [] start empty_result
                ans.admin_created))
            λ _ any. record { gives = (refl, refl) })

  -- The result of a reconcile with no error.
  pub record ResultOf (start : TopicService) (asked : List Event) (r : TopicReconcileResult)
      : Type 0 where
    pub brokers : List Broker
    pub listed : ans.brokers ≡ value brokers
    pub md : TopicMetadata er
    pub described : Describes er cfg ans fuel ans.described md
    pub found : Found start.initialized brokers md md.err asked r

  counters_quiet :
      (b : Bool) (name : String)
      → changes (if b then [] else initial_counters er cfg ans fuel name) ≡ []
  counters_quiet true name = refl
  counters_quiet false name = refl

  reconcile_topic-Gives :
      (start : TopicService)
      → Gives (λ c (svc, r). ResultOf start c r) (reconcile_topic er cfg ans fuel start)
  unfolding reconcile_topic
  reconcile_topic-Gives start =
      let Q : List Event → Reconciled er cfg ans fuel → Type 0 = λ c (svc, r). ResultOf start c r in
      quiet-Gives (λ svc. svc.initialized ≡ start.initialized) Q _ _ (ensure_admin-Gives start)
        λ svc same.
          quiet-Gives (λ brokers. ans.brokers ≡ value brokers) Q _ _
            (answered-Gives er cfg ans fuel describe_cluster _ svc empty_result ans.brokers refl)
            λ brokers listed.
              quiet-Gives (Describes er cfg ans fuel ans.described) Q _ _
                (describe-Gives er cfg ans fuel svc empty_result ans.described)
                λ md described.
                  quiet-Gives (λ (u : Unit {0}). Unit {0}) Q
                    (done (if svc.initialized then [] else initial_counters er cfg ans fuel md.name)
                      tt)
                    _ (record { gives = (counters_quiet svc.initialized md.name, tt) })
                    λ _ any.
                      map-Gives (λ c (svc', r). Found svc.initialized brokers md md.err c r) Q _
                        (λ c (svc', r) found. record {
                          brokers = brokers;
                          listed = listed;
                          md = md;
                          described = described;
                          found = subst (λ (b : Bool). Found b brokers md md.err c r) same found;
                        })
                        (reconcile_described-Gives svc brokers md md.err)

  closed_with :
      (u : List Event) (m : Run er TopicService) (found : TopicReconcileResult)
      (cause : ReconcileError er) (t : List Event) (svc : TopicService) (r : TopicReconcileResult)
      → after er {A = Reply er cfg ans fuel} u (bind er m (λ s. done [] (s, found, some cause)))
        ≡ done t (svc, r, none)
      → ⊥
  closed_with u (done v s) found cause t svc r h = cc h
  closed_with u (failed v f) found cause t svc r h = cc h
  closed_with u (crashed v c) found cause t svc r h = cc h

  replied_none :
      (m : Run er (Reconciled er cfg ans fuel)) (t : List Event) (svc : TopicService)
      (r : TopicReconcileResult)
      → reply er cfg ans fuel m ≡ done t (svc, r, none)
      → m ≡ done t (svc, r)
  unfolding reply
  replied_none (done u (svc', r')) t svc r h = cc h
  replied_none (failed u f) t svc r h = elim (Bool-cases (is_disconnection er f.cause)) [
    | inl lost ↦
        absurd
          (closed_with u (close er cfg ans fuel f.service) f.result f.cause t svc r (rw lost at h))
    | inr other ↦ absurd (cc (rw other at h))
  ]
  replied_none (crashed u c) t svc r h = absurd (cc h)

  -- A reconcile that replies with no error had the list of the brokers and a description of the topic. If the
  -- topic was missing, it was to be created: the only change asked for is its creation, with the assignments
  -- that are requested for the brokers, which the result has, and the leaders are those of the description
  -- that follows. If it was there, the leaders are those that its description has, and a first reconcile with
  -- a configuration asks for it to be altered. If then its partitions are to be moved, the result has the
  -- assignments requested for the brokers and for as many partitions, says to refresh the producer unless
  -- there are as many brokers as partitions, and those that are there are asked to be moved to them and, for
  -- more brokers, the others to be created; if not, the result has the assignments as they are, and no other
  -- change is asked for.
  pub reconcile-ResultOf :
      (start svc : TopicService) (t : List Event) (r : TopicReconcileResult)
      → reconcile er cfg ans fuel start ≡ done t (svc, r, none)
      → ResultOf start (changes t) r
  unfolding reconcile
  reconcile-ResultOf start svc t r h =
      let run : reconcile_topic er cfg ans fuel start ≡ done t (svc, r) =
        replied_none (reconcile_topic er cfg ans fuel start) t svc r h in
      (subst (λ (m : Run er (Reconciled er cfg ans fuel)). Gives (λ c (s, x). ResultOf start c x) m)
        run (reconcile_topic-Gives start)).gives
