-- ===== src/Topic/Branches.antt =====
-- Which requests a reconcile makes of the cluster.
use strimzi_canary.Common.{
  ℕ, ◌≡◌, refl, Bool, true, false, not, ◌&&◌, ◌||◌, List, [], ◌∷◌, if◌then◌else◌, length, ◌==◌,
  Result, value,
}
use strimzi_canary.Assign.{Broker}
use strimzi_canary.Topic.Types.{
  Errors, TopicSettings, TopicService, TopicReconcileResult, Event, add, describe_cluster_error,
  new_cluster_admin, describe_cluster, create_topic, alter_partition_reassignments,
  create_partitions, TopicError, no_error, unknown_topic_or_partition, other_error, TopicMetadata,
  Answers, Run, bind,
}
use strimzi_canary.Topic.Runs.{IsQuiet, after-IsQuiet, if-IsQuiet, bind-IsQuiet}
use strimzi_canary.Topic.Calls.{
  acknowledged-IsQuiet, describe_canary_topic-IsQuiet, counters-IsQuiet, reply-IsQuiet,
}
use strimzi_canary.Topic.{
  logged, is_dynamic_reassignment_enabled, has_expected_size, answered, ensure_admin,
  create_missing, alter_topic_configuration, reconcile_existing, reconcile_described,
  reconcile_topic, reconcile,
}

-- a request that creates the topic or changes its partitions
abbrev pub assigns : Event → Bool
assigns (create_topic name assignments entries) = true
assigns (alter_partition_reassignments name assignments) = true
assigns (create_partitions name partitions assignments) = true
assigns e = false

module _ (er : Errors) (cfg : TopicSettings) (ans : Answers er) (fuel : ℕ) where
  ensure_admin-IsQuiet : (svc : TopicService) → IsQuiet assigns (ensure_admin er cfg ans fuel svc)
  unfolding ensure_admin
  ensure_admin-IsQuiet svc =
      if-IsQuiet assigns svc.admin _ _ (record { silent = refl })
        (bind-IsQuiet assigns _ _
          (acknowledged-IsQuiet er cfg ans fuel assigns new_cluster_admin [] svc _ ans.admin_created
            refl refl)
          λ _. record { silent = refl })

  alter_topic_configuration-IsQuiet :
      (svc : TopicService) (md : TopicMetadata er)
      → IsQuiet assigns (alter_topic_configuration er cfg ans fuel svc md)
  unfolding alter_topic_configuration
  alter_topic_configuration-IsQuiet svc md =
      if-IsQuiet assigns (length cfg.topic_config == 0) _ _ (record { silent = refl })
        (acknowledged-IsQuiet er cfg ans fuel assigns _ _ svc _ ans.config_altered refl refl)

  else-IsQuiet {ℓ} :
      {A : Type ℓ} (b : Bool) (x y : Run er A)
      → b ≡ false
      → IsQuiet assigns y
      → IsQuiet assigns (if b then x else y)
  else-IsQuiet true x y h k = absurd (cc h)
  else-IsQuiet false x y h k = k

  and_false : (a : Bool) → (a && false) ≡ false
  and_false true = refl
  and_false false = refl

  module _ (brokers : List Broker) (fixed : is_dynamic_reassignment_enabled er cfg ans fuel ≡ false)
      (unmet : has_expected_size er cfg ans fuel brokers ≡ false) where
    create_missing-IsQuiet :
        (svc : TopicService) (md : TopicMetadata er)
        → IsQuiet assigns (create_missing er cfg ans fuel svc brokers md)
    unfolding create_missing
    create_missing-IsQuiet svc md = rw (fixed, unmet) (record { silent = refl })

    reconcile_existing-IsQuiet :
        (svc : TopicService) (md : TopicMetadata er)
        → IsQuiet assigns (reconcile_existing er cfg ans fuel svc brokers md)
    unfolding reconcile_existing
    reconcile_existing-IsQuiet svc md =
        bind-IsQuiet assigns _ _
          (if-IsQuiet assigns svc.initialized _ _ (record { silent = refl })
            (alter_topic_configuration-IsQuiet svc (logged er cfg ans fuel md)))
          λ _.
            else-IsQuiet
              (is_dynamic_reassignment_enabled er cfg ans fuel
                || (not svc.initialized && has_expected_size er cfg ans fuel brokers))
              _ _ (rw (fixed, unmet) (and_false (not svc.initialized))) (record { silent = refl })

    reconcile_described-IsQuiet :
        (svc : TopicService) (md : TopicMetadata er) (err : TopicError er)
        → IsQuiet assigns (reconcile_described er cfg ans fuel svc brokers md err)
    unfolding reconcile_described
    reconcile_described-IsQuiet svc md unknown_topic_or_partition = create_missing-IsQuiet svc md
    reconcile_described-IsQuiet svc md no_error = reconcile_existing-IsQuiet svc md
    reconcile_described-IsQuiet svc md (other_error e) = record { silent = refl }

    described_cluster {ℓ} :
        {B : Type ℓ} (svc : TopicService) (r : TopicReconcileResult) (a : Result er.E (List Broker))
        (k : List Broker → Run er B)
        → a ≡ value brokers
        → IsQuiet assigns (k brokers)
        → IsQuiet assigns (
            bind er
              (answered er cfg ans fuel describe_cluster
                (add describe_cluster_error 1 ∷ [])
                svc
                r
                a)
              k)
    described_cluster svc r a k answer h =
        rw answer (after-IsQuiet assigns (describe_cluster ∷ []) (k brokers) refl h)

    reconcile_topic-IsQuiet :
        (start : TopicService)
        → ans.brokers ≡ value brokers
        → IsQuiet assigns (reconcile_topic er cfg ans fuel start)
    unfolding reconcile_topic
    reconcile_topic-IsQuiet start answer =
        bind-IsQuiet assigns _ _ (ensure_admin-IsQuiet start) λ svc.
          described_cluster svc _ ans.brokers _ answer (
            bind-IsQuiet assigns _ _
              (describe_canary_topic-IsQuiet er cfg ans fuel assigns refl refl svc _ ans.described)
              λ md.
                after-IsQuiet assigns _ _
                  (counters-IsQuiet er cfg ans fuel assigns md.name refl svc.initialized)
                  (reconcile_described-IsQuiet svc md md.err))

    -- If the expected cluster size is set and the cluster answers with another number of brokers, a
    -- reconcile neither creates the topic nor changes its partitions or their replicas, whatever else the
    -- cluster answers and whether or not it is the first.
    pub reconcile-IsQuiet :
        (start : TopicService)
        → ans.brokers ≡ value brokers
        → IsQuiet assigns (reconcile er cfg ans fuel start)
    unfolding reconcile
    reconcile-IsQuiet start answer =
        reply-IsQuiet er cfg ans fuel assigns refl _ (reconcile_topic-IsQuiet start answer)
