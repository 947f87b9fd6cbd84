-- ===== src/Topic.antt =====
-- internal/services/topic.go: the reconcile of the canary topic. The Sarama admin client is what
-- answers; what the service asks of it, its sleeps and its counters are the events of a run. Logging
-- is left out, but for the sort of the partitions that it makes. `fuel` bounds the rounds of the loop that
-- waits for a reassignment.
pub mod Types
pub mod Metadata
pub mod Runs
pub mod Gives
pub mod Altered
pub mod Found
pub mod Results
pub mod Cooperation
pub mod Total
pub mod Calls
pub mod Branches
pub mod Alters
mod Tests
use strimzi_canary.Common.{
  ℕ, zero, suc, ◌+◌, ◌-◌, Bool, true, false, not, ◌&&◌, ◌||◌, List, [], ◌∷◌, ◌++◌, map, Option,
  none, some, if◌then◌else◌, ltb, leb, ◌==◌, length, take, drop, String, Outcome, ok, crash, Crash,
  index_out_of_range, fatal, no_fuel, Result, value, error,
}
use strimzi_canary.Common.Int.{ℤ, pos, negsuc, eqb_ℤ}
use strimzi_canary.Common.Maps.{lookup, insert, nat_eq, string_eq}
use strimzi_canary.Assign.{Broker, Assignments, requested_assignments, or_nil}
use Metadata.{
  sort_partitions, current_assignments, current_leaders, rows, slice_to, slice_from,
  creation_config,
}
use Types.{
  Errors, PartitionMetadata, TopicSettings, TopicService, TopicReconcileResult, Metric,
  topic_creation_failed, describe_topic_error, alter_topic_assignments_error,
  alter_topic_configuration_error, describe_cluster_error, Text, literal, decimal, Event,
  new_cluster_admin, describe_cluster, close_admin, sleep_two_seconds, describe_topics,
  list_partition_reassignments, create_topic, alter_config, alter_partition_reassignments,
  create_partitions, add, TopicError, no_error, unknown_topic_or_partition, other_error,
  TopicMetadata, Reassignment, Answers, ReconcileError, sarama, topic_error,
  expected_cluster_size_error, Failure, Run, done, failed, crashed, after, bind, lift,
  is_disconnection,
}

abbrev pub new_topic_service : TopicService
new_topic_service = record { admin = false; initialized = false }

abbrev pub empty_result : TopicReconcileResult
empty_result = record { assignments = []; leaders = []; refresh_producer_metadata = false }

module _ (er : Errors) (cfg : TopicSettings) (ans : Answers er) (fuel : ℕ) where
  infixl 5 ◌>>=◌ ◌>>◌
  abbrev ◌>>=◌ {ℓ κ} : {A : Type ℓ} {B : Type κ} → Run er A → (A → Run er B) → Run er B
  m >>= f = bind er m f

  abbrev ◌>>◌ {ℓ} : {B : Type ℓ} → Run er (Unit {0}) → Run er B → Run er B
  m >> k = bind er m (λ _. k)

  abbrev tell : List Event → Run er (Unit {0})
  tell t = done t tt

  -- A call that answers: an error ends the reconcile, with the events that follow it.
  abbrev answered {ℓ} :
      {A : Type ℓ}
      → Event
      → List Event
      → TopicService
      → TopicReconcileResult
      → Result er.E A
      → Run er A
  answered call after_error svc r (value a) = done (call ∷ []) a
  answered call after_error svc r (error e) =
      failed (call ∷ after_error) (record { cause = sarama e; service = svc; result = r })

  abbrev acknowledged :
      Event → List Event → TopicService → TopicReconcileResult → Option er.E → Run er (Unit {0})
  acknowledged call after_error svc r none = done (call ∷ []) tt
  acknowledged call after_error svc r (some e) =
      failed (call ∷ after_error) (record { cause = sarama e; service = svc; result = r })

  unfoldable pub is_dynamic_reassignment_enabled : Bool
  is_dynamic_reassignment_enabled = eqb_ℤ cfg.expected_cluster_size (negsuc 0)

  abbrev pub has_expected_size : List Broker → Bool
  has_expected_size brokers = eqb_ℤ cfg.expected_cluster_size (pos (length brokers))

  unfoldable pub ensure_admin : TopicService → Run er TopicService
  ensure_admin svc = if svc.admin then done [] svc else do
    acknowledged new_cluster_admin [] svc empty_result ans.admin_created
    done [] (record svc { admin = true })

  abbrev first_of_metadata : List (TopicMetadata er) → Run er (TopicMetadata er)
  first_of_metadata [] = crashed [] index_out_of_range
  first_of_metadata (m ∷ ms) = done [] m

  unfoldable pub describe_canary_topic :
      TopicService
      → TopicReconcileResult
      → Result er.E (List (TopicMetadata er))
      → Run er (TopicMetadata er)
  describe_canary_topic svc r answer = do
    metadata ←
        answered (describe_topics cfg.topic) (add (describe_topic_error cfg.topic) 1 ∷ []) svc r
          answer
    first_of_metadata metadata

  -- the counters with a first value of 0
  abbrev initial_counters : String → List Event
  initial_counters name =
      add (topic_creation_failed name) 0
      ∷ add describe_cluster_error 0
      ∷ add (describe_topic_error name) 0
      ∷ add (alter_topic_assignments_error name) 0
      ∷ add (alter_topic_configuration_error name) 0
      ∷ []

  -- whether some partition is adding or removing replicas
  abbrev pub any_ongoing : List (Reassignment er) → Bool
  any_ongoing [] = false
  any_ongoing (s ∷ ss) =
      not (s.adding_replicas == 0) || (not (s.removing_replicas == 0) || any_ongoing ss)

  -- One round of the loop has `round` rounds before it. An error of the query ends the wait.
  unfoldable pub wait_reassigned : ℕ → ℕ → Run er (Unit {0})
  wait_reassigned zero round = crashed [] no_fuel
  wait_reassigned (suc left) round =
      let more = wait_reassigned left (suc round) in
      elim (ans.reassignments round) [
        | error e ↦ done (list_partition_reassignments cfg.topic ∷ []) tt
        | value statuses ↦
            if any_ongoing statuses
            then after er (list_partition_reassignments cfg.topic ∷ sleep_two_seconds ∷ []) more
            else done (list_partition_reassignments cfg.topic ∷ []) tt
      ]

  unfoldable pub alter_assignments :
      List Event → TopicService → TopicReconcileResult → List (List ℕ) → Run er (Unit {0})
  unfolding wait_reassigned
  alter_assignments after_error svc r assignments =
      acknowledged (alter_partition_reassignments cfg.topic assignments) after_error svc r
        ans.reassigned
      >> wait_reassigned fuel 0

  -- The assignments are in the result also when a call fails.
  unfoldable pub alter_topic_assignments :
      List Event
      → TopicService
      → TopicReconcileResult
      → ℕ
      → List Broker
      → Run er TopicReconcileResult
  unfolding alter_assignments
  alter_topic_assignments after_error svc r current_partitions brokers = do
    asked ← lift er (requested_assignments current_partitions brokers)
    let altered = record r { assignments = asked.0 }
    let all = rows asked.0 0 (length asked.0)
    present ← lift er (slice_to all current_partitions)
    alter_assignments after_error svc altered present
    if ltb current_partitions (length brokers)
        then (do
          missing ← lift er (slice_from all current_partitions)
          acknowledged (create_partitions cfg.topic (length brokers) missing) after_error svc
              altered ans.partitions_created
          done [] altered)
        else done [] altered

  abbrev Reconciled : Type 0
  Reconciled = TopicService × TopicReconcileResult

  abbrev finish : TopicService → TopicReconcileResult → TopicMetadata er → Run er Reconciled
  finish svc r md =
      done []
        (record svc { initialized = true }, record r { leaders = current_leaders md.partitions [] })

  unfoldable pub create_missing : TopicService → List Broker → TopicMetadata er → Run er Reconciled
  unfolding describe_canary_topic
  create_missing svc brokers md =
      if is_dynamic_reassignment_enabled || has_expected_size brokers
      then (do
        asked ← lift er (requested_assignments 0 brokers)
        let created = record empty_result { assignments = asked.0 }
        acknowledged (create_topic cfg.topic asked.0 (creation_config cfg.topic_config asked.1))
            (add (topic_creation_failed md.name) 1 ∷ []) svc created ans.topic_created
        md' ← describe_canary_topic svc created ans.described_created
        finish svc created md')
      else failed []
          (record { cause = expected_cluster_size_error; service = svc; result = empty_result })

  unfoldable pub alter_topic_configuration : TopicService → TopicMetadata er → Run er (Unit {0})
  alter_topic_configuration svc md =
      if length cfg.topic_config == 0
      then done [] tt
      else acknowledged (alter_config cfg.topic cfg.topic_config)
          (add (alter_topic_configuration_error md.name) 1 ∷ []) svc empty_result ans.config_altered

  -- the same metadata with its partitions in order
  abbrev logged : TopicMetadata er → TopicMetadata er
  logged md = record md { partitions = sort_partitions md.partitions }

  -- the result, with whether the producer has to refresh its metadata
  abbrev refreshing : List Broker → TopicMetadata er → TopicReconcileResult
  refreshing brokers md = record empty_result {
    refresh_producer_metadata = not (length brokers == length md.partitions);
  }

  unfoldable pub reconcile_existing :
      TopicService → List Broker → TopicMetadata er → Run er Reconciled
  unfolding alter_topic_configuration alter_topic_assignments
  reconcile_existing svc brokers described = do
    let md = logged described
    if svc.initialized then done [] tt else alter_topic_configuration svc md
    if is_dynamic_reassignment_enabled || (not svc.initialized && has_expected_size brokers)
        then (do
          let refreshed = refreshing brokers md
          altered ←
              alter_topic_assignments (add (alter_topic_assignments_error md.name) 1 ∷ []) svc
                refreshed (length md.partitions) brokers
          finish svc altered md)
        else finish svc (record empty_result { assignments = current_assignments md.partitions [] })
            md

  unfoldable pub reconcile_described :
      TopicService → List Broker → TopicMetadata er → TopicError er → Run er Reconciled
  unfolding create_missing reconcile_existing
  reconcile_described svc brokers md unknown_topic_or_partition = create_missing svc brokers md
  reconcile_described svc brokers md no_error = reconcile_existing svc brokers md
  reconcile_described svc brokers md (other_error e) =
      failed (add (describe_topic_error cfg.topic) 1 ∷ [])
        (record { cause = topic_error (other_error e); service = svc; result = empty_result })

  unfoldable pub reconcile_topic : TopicService → Run er Reconciled
  unfolding ensure_admin describe_canary_topic reconcile_described
  reconcile_topic start = do
    svc ← ensure_admin start
    brokers ←
        answered describe_cluster (add describe_cluster_error 1 ∷ []) svc empty_result ans.brokers
    md ← describe_canary_topic svc empty_result ans.described
    tell (if svc.initialized then [] else initial_counters md.name)
    reconcile_described svc brokers md md.err

  unfoldable pub close : TopicService → Run er TopicService
  close svc =
      if svc.admin
      then elim ans.admin_closed [
        | none ↦ done (close_admin ∷ []) (record svc { admin = false })
        | some e ↦ crashed (close_admin ∷ []) fatal
      ]
      else done [] svc

  abbrev pub Reply : Type 0
  Reply = TopicService × TopicReconcileResult × Option (ReconcileError er)

  unfoldable pub reply : Run er Reconciled → Run er Reply
  unfolding close
  reply (done t (svc, r)) = done t (svc, r, none)
  reply (failed t f) =
      if is_disconnection er f.cause
      then after er t (bind er (close f.service) (λ svc. done [] (svc, f.result, some f.cause)))
      else done t (f.service, f.result, some f.cause)
  reply (crashed t c) = crashed t c

  unfoldable pub reconcile : TopicService → Run er Reply
  unfolding reply reconcile_topic
  reconcile svc = reply (reconcile_topic svc)
