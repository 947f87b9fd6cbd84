-- ===== src/Topic/Alters.antt =====
-- When a reconcile alters the configuration of the topic.
use strimzi_canary.Common.{
  ℕ, zero, suc, String, ◌≡◌, refl, sym, ◌∙◌, Bool, true, false, not, ◌&&◌, ◌||◌, List, [], ◌∷◌,
  Option, none, some, if◌then◌else◌, length, ltb, inl, inr, Bool-cases, Result-cases,
}
use mathlib.Core.Path.{subst}
use strimzi_canary.Assign.{Broker, requested_assignments}
use strimzi_canary.Topic.Metadata.{rows, slice_to, slice_from, current_assignments}
use strimzi_canary.Topic.Types.{
  Errors, TopicSettings, TopicService, TopicReconcileResult, Event, add, describe_cluster_error,
  alter_topic_assignments_error, new_cluster_admin, describe_cluster, alter_config,
  list_partition_reassignments, sleep_two_seconds, TopicError, no_error, unknown_topic_or_partition,
  other_error, TopicMetadata, Answers, Run, done, bind,
}
use strimzi_canary.Topic.Runs.{IsQuiet, after-IsQuiet, if-IsQuiet, bind-IsQuiet}
use strimzi_canary.Topic.Calls.{
  lift-IsQuiet, answered-IsQuiet, acknowledged-IsQuiet, describe_canary_topic-IsQuiet,
  counters-IsQuiet, reply-IsQuiet,
}
use strimzi_canary.Topic.{
  empty_result, finish, logged, refreshing, is_dynamic_reassignment_enabled, has_expected_size,
  acknowledged, any_ongoing, wait_reassigned, alter_assignments, alter_topic_assignments,
  ensure_admin, create_missing, reconcile_existing, reconcile_described, reconcile_topic, reconcile,
}

abbrev pub alters : Event → Bool
alters (alter_config name entries) = true
alters e = false

module _ (er : Errors) (cfg : TopicSettings) (ans : Answers er) (fuel : ℕ) where
  wait_reassigned-IsQuiet :
      (left round : ℕ) → IsQuiet alters (wait_reassigned er cfg ans fuel left round)
  unfolding wait_reassigned
  wait_reassigned-IsQuiet zero round = record { silent = refl }
  wait_reassigned-IsQuiet (suc left) round = elim (Result-cases (ans.reassignments round)) [
    | inl (e, unknown) ↦ rw (wait_reassigned, unknown) (record { silent = refl })
    | inr (statuses, known) ↦
        rw (wait_reassigned, known)
          (if-IsQuiet alters (any_ongoing er cfg ans fuel statuses) _
            (done (list_partition_reassignments cfg.topic ∷ []) tt)
            (after-IsQuiet alters (list_partition_reassignments cfg.topic ∷ sleep_two_seconds ∷ [])
              _ refl (wait_reassigned-IsQuiet left (suc round)))
            (record { silent = refl }))
  ]

  alter_assignments-IsQuiet :
      (name : String) (svc : TopicService) (r : TopicReconcileResult) (assignments : List (List ℕ))
      → IsQuiet alters (
          alter_assignments er cfg ans fuel
            (add (alter_topic_assignments_error name) 1 ∷ [])
            svc
            r
            assignments)
  unfolding alter_assignments
  alter_assignments-IsQuiet name svc r assignments =
      bind-IsQuiet alters _ _
        (acknowledged-IsQuiet er cfg ans fuel alters _ _ svc r ans.reassigned refl refl)
        λ _. wait_reassigned-IsQuiet fuel 0

  alter_topic_assignments-IsQuiet :
      (name : String) (svc : TopicService) (r : TopicReconcileResult) (n : ℕ)
      (brokers : List Broker)
      → IsQuiet alters (
          alter_topic_assignments er cfg ans fuel
            (add (alter_topic_assignments_error name) 1 ∷ [])
            svc
            r
            n
            brokers)
  unfolding alter_topic_assignments
  alter_topic_assignments-IsQuiet name svc r n brokers =
      bind-IsQuiet alters _ _ (lift-IsQuiet alters (requested_assignments n brokers)) λ asked.
        bind-IsQuiet alters _ _ (lift-IsQuiet alters (slice_to (rows asked.0 0 (length asked.0)) n))
          λ present. bind-IsQuiet alters _ _ (alter_assignments-IsQuiet name svc _ present) λ _.
            if-IsQuiet alters (ltb n (length brokers)) _ _
              (bind-IsQuiet alters _ _
                (lift-IsQuiet alters (slice_from (rows asked.0 0 (length asked.0)) n))
                λ missing.
                  bind-IsQuiet alters _ _
                    (acknowledged-IsQuiet er cfg ans fuel alters _ _ svc _ ans.partitions_created
                      refl refl)
                    λ _. record { silent = refl })
              (record { silent = refl })

  create_missing-IsQuiet :
      (svc : TopicService) (brokers : List Broker) (md : TopicMetadata er)
      → IsQuiet alters (create_missing er cfg ans fuel svc brokers md)
  unfolding create_missing
  create_missing-IsQuiet svc brokers md =
      if-IsQuiet alters
        (is_dynamic_reassignment_enabled er cfg ans fuel
          || has_expected_size er cfg ans fuel brokers)
        _ _
        (bind-IsQuiet alters _ _ (lift-IsQuiet alters (requested_assignments 0 brokers)) λ asked.
          bind-IsQuiet alters _ _
            (acknowledged-IsQuiet er cfg ans fuel alters _ _ svc _ ans.topic_created refl refl)
            λ _.
              bind-IsQuiet alters _ _
                (describe_canary_topic-IsQuiet er cfg ans fuel alters refl refl svc _
                  ans.described_created)
                λ md'. record { silent = refl })
        (record { silent = refl })

  reconcile_existing-IsQuiet :
      (svc : TopicService) (brokers : List Broker) (md : TopicMetadata er)
      → svc.initialized ≡ true
      → IsQuiet alters (reconcile_existing er cfg ans fuel svc brokers md)
  unfolding reconcile_existing
  reconcile_existing-IsQuiet svc brokers md known =
      let md' = logged er cfg ans fuel md in
      let ends = λ (r : TopicReconcileResult). finish er cfg ans fuel svc r md' in
      bind-IsQuiet alters _ _ (rw known (record { silent = refl })) λ _.
        if-IsQuiet alters
          (is_dynamic_reassignment_enabled er cfg ans fuel
            || (not svc.initialized && has_expected_size er cfg ans fuel brokers))
          _ (ends (record empty_result { assignments = current_assignments md'.partitions [] }))
          (bind-IsQuiet alters _ ends
            (alter_topic_assignments-IsQuiet md'.name svc (refreshing er cfg ans fuel brokers md')
              (length md'.partitions) brokers)
            λ altered. record { silent = refl })
          (record { silent = refl })

  reconcile_described-IsQuiet :
      (svc : TopicService) (brokers : List Broker) (md : TopicMetadata er) (err : TopicError er)
      → svc.initialized ≡ true
      → IsQuiet alters (reconcile_described er cfg ans fuel svc brokers md err)
  unfolding reconcile_described
  reconcile_described-IsQuiet svc brokers md unknown_topic_or_partition known =
      create_missing-IsQuiet svc brokers md
  reconcile_described-IsQuiet svc brokers md no_error known =
      reconcile_existing-IsQuiet svc brokers md known
  reconcile_described-IsQuiet svc brokers md (other_error e) known = record { silent = refl }

  -- what follows on the admin client, of a service with the same mark
  after_admin {ℓ} :
      {B : Type ℓ} (start : TopicService) (k : TopicService → Run er B)
      → ((svc : TopicService) → svc.initialized ≡ start.initialized → IsQuiet alters (k svc))
      → IsQuiet alters (bind er (ensure_admin er cfg ans fuel start) k)
  unfolding ensure_admin
  after_admin start k h = elim (Bool-cases start.admin) [
    | inl has ↦
        subst (λ b. IsQuiet alters (bind er (if b then done [] start else absent) k)) (sym has)
          (after-IsQuiet alters [] (k start) refl (h start refl))
    | inr lacks ↦
        subst (λ b. IsQuiet alters (bind er (if b then done [] start else absent) k)) (sym lacks)
          (asked ans.admin_created)
  ]
    where
      absent : Run er TopicService
      absent =
          bind er
            (acknowledged er cfg ans fuel new_cluster_admin [] start empty_result ans.admin_created)
            λ _. done [] (record start { admin = true })

      asked :
          (a : Option er.E)
          → IsQuiet alters (
              bind er
                (bind er
                  (acknowledged er cfg ans fuel new_cluster_admin [] start empty_result a)
                  λ _. done [] (record start { admin = true }))
                k)
      asked none =
          after-IsQuiet alters (new_cluster_admin ∷ []) (k (record start { admin = true })) refl
            (h (record start { admin = true }) refl)
      asked (some e) = record { silent = refl }

  reconcile_topic-IsQuiet :
      (start : TopicService)
      → start.initialized ≡ true
      → IsQuiet alters (reconcile_topic er cfg ans fuel start)
  unfolding reconcile_topic
  reconcile_topic-IsQuiet start known = after_admin start _ λ svc same.
      bind-IsQuiet alters _ _
        (answered-IsQuiet er cfg ans fuel alters describe_cluster
          (add describe_cluster_error 1 ∷ []) svc _ ans.brokers refl refl)
        λ brokers.
          bind-IsQuiet alters _ _
            (describe_canary_topic-IsQuiet er cfg ans fuel alters refl refl svc _ ans.described)
            λ md.
              after-IsQuiet alters _ _
                (counters-IsQuiet er cfg ans fuel alters md.name refl svc.initialized)
                (reconcile_described-IsQuiet svc brokers md md.err (same ∙ known))

  -- After a first reconcile that had no error, a reconcile never alters the configuration of the topic, whatever
  -- the cluster answers.
  pub initialized-IsQuiet :
      (start : TopicService)
      → start.initialized ≡ true
      → IsQuiet alters (reconcile er cfg ans fuel start)
  unfolding reconcile
  initialized-IsQuiet start known =
      reply-IsQuiet er cfg ans fuel alters refl _ (reconcile_topic-IsQuiet start known)
