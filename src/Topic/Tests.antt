-- ===== src/Topic/Tests.antt =====
-- A reconcile of a topic of one partition in a cluster of two brokers, run.
use strimzi_canary.Common.{
  ℕ, zero, suc, ◌≡◌, refl, Bool, true, false, List, [], ◌∷◌, Option, none, some, Result, value,
  arith,
}
use strimzi_canary.Common.Int.{ℤ, pos, negsuc}
use strimzi_canary.Common.Maps.{nat_eq, insert, lookup}
use strimzi_canary.Assign.{
  Broker, requested_assignments, alternate, sort_by_id, insert_by_id, group, group_broker,
  assign_partitions, replicas,
}
use strimzi_canary.Topic.Metadata.{sort_partitions, insert_partition, current_leaders, rows}
use strimzi_canary.Topic.Types.{
  Event, new_cluster_admin, describe_cluster, describe_topics, add, topic_creation_failed,
  describe_cluster_error, describe_topic_error, alter_topic_assignments_error,
  alter_topic_configuration_error, alter_partition_reassignments, list_partition_reassignments,
  sleep_two_seconds, create_partitions, TopicReconcileResult, ReconcileError, Sentinel, eof, Errors,
  TopicSettings, TopicService, no_error, TopicMetadata, Reassignment, Answers, Run, done, failed,
  crashed,
}
use strimzi_canary.Topic.{new_topic_service, reconcile, is_dynamic_reassignment_enabled}
use strimzi_canary.Topic.Gives.{changes}
use strimzi_canary.Topic.Results.{ResultOf, reconcile-ResultOf}
use strimzi_canary.Topic.Runs.{IsQuiet}
use strimzi_canary.Topic.Cooperation.{Cooperates, Replied}
use strimzi_canary.Topic.Total.{reconcile-Replied}
use strimzi_canary.Topic.Branches.{assigns, reconcile-IsQuiet}

-- the end of a file, or anything else
abbrev is_eof : Bool → Sentinel → Bool
is_eof true eof = true
is_eof e s = false

abbrev plain : Errors
plain = record { E = Bool; is = is_eof }

abbrev two_brokers : List Broker
two_brokers = record { id = 1; rack = "" } ∷ record { id = 0; rack = "" } ∷ []

abbrev one_partition : TopicMetadata plain
one_partition = record {
  name = "canary";
  err = no_error;
  partitions = record { id = 0; leader = pos 1; replicas = 1 ∷ [] } ∷ [];
}

abbrev adding : Reassignment plain
adding = record { adding_replicas = 1; removing_replicas = 0 }

-- The first query finds a reassignment going on, the second one finds none.
abbrev two_rounds : ℕ → Result Bool (List (Reassignment plain))
two_rounds zero = value (adding ∷ [])
two_rounds (suc n) = value []

abbrev cluster : Answers plain
cluster = record {
  admin_created = none;
  brokers = value two_brokers;
  described = value (one_partition ∷ []);
  described_created = value (one_partition ∷ []);
  topic_created = none;
  config_altered = none;
  reassigned = none;
  partitions_created = none;
  reassignments = two_rounds;
  admin_closed = none;
}

-- the same cluster, with a lost connection when it creates partitions
abbrev lossy : Answers plain
lossy = record cluster { partitions_created = some true }

abbrev config : ℤ → TopicSettings
config size = record { topic = "canary"; topic_config = []; expected_cluster_size = size }

abbrev dynamic : TopicSettings
dynamic = config (negsuc 0)

abbrev three : TopicSettings
three = config (pos 3)

lossy-Cooperates : Cooperates plain dynamic lossy 2
lossy-Cooperates = record {
  query = 1;
  in_time = omega arith;
  settles = refl;
  describes = λ h. cc h;
  describes_created = λ h. cc h;
  closes = refl;
}

abbrev left_by :
    Run plain (TopicService × TopicReconcileResult × Option (ReconcileError plain))
    → Option TopicService
left_by (done t (svc, r, e)) = some svc
left_by (failed t f) = none
left_by (crashed t c) = none

reconcile_scale_up :
    left_by (reconcile plain dynamic cluster 2 new_topic_service)
    ≡ some (record { admin = true; initialized = true })
unfolding reconcile is_dynamic_reassignment_enabled requested_assignments alternate sort_by_id
    insert_by_id group group_broker assign_partitions sort_partitions insert_partition replicas rows
    insert
reconcile_scale_up = refl

reconcile-lossy :
    left_by (reconcile plain dynamic lossy 2 new_topic_service)
    ≡ some (record { admin = false; initialized = false })
unfolding reconcile is_dynamic_reassignment_enabled requested_assignments alternate sort_by_id
    insert_by_id group group_broker assign_partitions sort_partitions insert_partition replicas rows
    insert
reconcile-lossy = refl

reconcile-Replied_example :
    Replied plain dynamic lossy 2 new_topic_service
      (reconcile plain dynamic lossy 2 new_topic_service)
reconcile-Replied_example =
    reconcile-Replied plain dynamic lossy 2 lossy-Cooperates new_topic_service

reconcile-IsQuiet_example : IsQuiet assigns (reconcile plain three cluster 2 new_topic_service)
unfolding is_dynamic_reassignment_enabled
reconcile-IsQuiet_example =
    reconcile-IsQuiet plain three cluster 2 two_brokers refl refl new_topic_service refl

abbrev after_first : TopicService
after_first = record { admin = false; initialized = true }

-- The topic has its one partition moved to two replicas, and a second one created.
abbrev scaled_up : TopicReconcileResult
scaled_up = record {
  assignments = (0, 0 ∷ 1 ∷ []) ∷ (1, 1 ∷ 0 ∷ []) ∷ [];
  leaders = (0, pos 1) ∷ [];
  refresh_producer_metadata = true;
}

abbrev scaling : List Event
scaling =
    new_cluster_admin
    ∷ describe_cluster
    ∷ describe_topics "canary"
    ∷ add (topic_creation_failed "canary") 0
    ∷ add describe_cluster_error 0
    ∷ add (describe_topic_error "canary") 0
    ∷ add (alter_topic_assignments_error "canary") 0
    ∷ add (alter_topic_configuration_error "canary") 0
    ∷ alter_partition_reassignments "canary" ((0 ∷ 1 ∷ []) ∷ [])
    ∷ list_partition_reassignments "canary"
    ∷ sleep_two_seconds
    ∷ list_partition_reassignments "canary"
    ∷ create_partitions "canary" 2 ((1 ∷ 0 ∷ []) ∷ [])
    ∷ []

scales_up :
    reconcile plain dynamic cluster 2 new_topic_service
    ≡ done scaling (record { admin = true; initialized = true }, scaled_up, none)
unfolding reconcile is_dynamic_reassignment_enabled requested_assignments alternate sort_by_id
    insert_by_id group group_broker assign_partitions sort_partitions insert_partition replicas rows
    insert lookup current_leaders
scales_up = refl

reconcile-ResultOf_example :
    ResultOf plain dynamic cluster 2 new_topic_service (changes scaling) scaled_up
reconcile-ResultOf_example =
    reconcile-ResultOf plain dynamic cluster 2 new_topic_service
      (record { admin = true; initialized = true }) scaling scaled_up scales_up
