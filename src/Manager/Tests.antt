-- ===== src/Manager/Tests.antt =====
-- A manager whose cluster has two of three brokers at first and the topic later, started, ticked and stopped.
use strimzi_canary.Common.{
  ◌≡◌, refl, ◌⊎◌, true, List, [], ◌∷◌, Option, crash, nil_dereference, arith,
}
use strimzi_canary.Common.Int.{pos}
use strimzi_canary.Common.Maps.{nat_eq, lookup}
use strimzi_canary.Topic.Types.{
  Errors, TopicSettings, TopicService, TopicReconcileResult, ReconcileError,
  unknown_topic_or_partition, no_error, TopicMetadata, Reassignment, Run, done,
}
use strimzi_canary.Topic
use strimzi_canary.Topic.{new_topic_service, is_dynamic_reassignment_enabled}
use strimzi_canary.Connection.{ConnectionService, new_connection_service}
use strimzi_canary.Connection
use strimzi_canary.Manager.{deep_equal, start, reconcile}
use strimzi_canary.Manager.Start.{Starts, NeverStarts, start-Starts}
use strimzi_canary.Manager.Tick.{Ticks, reconcile-Ticks}
use strimzi_canary.Manager.Sample.{
  plain, one_partition, described_as, connected, settings, answering, answers, closings,
  described_as-Cooperates, answers-Cooperates, at_once, new_manager, with_admin, connects,
  running_manager, every, every-IsTicking,
}
use strimzi_canary.Manager.Stop.{stop, StopsAs, stop-StopsAs}

start-Starts_example :
    Starts plain settings "client" 4 answers at_once new_manager with_admin 3 (
      start plain settings "client" 4 answers at_once every
        (pos 3)
        (pos 5000)
        connected
        new_manager)
    ⊎ NeverStarts plain settings "client" 4 answers at_once new_manager 3 (
        start plain settings "client" 4 answers at_once every
          (pos 3)
          (pos 5000)
          connected
          new_manager)
start-Starts_example =
    start-Starts plain settings "client" 4 answers at_once new_manager every 3 5000 connected
      (Connection.new_cluster_admin ∷ Connection.describe_cluster ∷ []) with_admin every-IsTicking
      (omega arith) (omega arith) (omega arith) (omega arith) answers-Cooperates connects

reconcile-Ticks_example :
    (t : List Topic.Types.Event) × (svc : TopicService) × (r : TopicReconcileResult) × (e : Option
      (ReconcileError plain))
    × (Topic.reconcile plain settings (described_as one_partition) 4 running_manager.topic_service
        ≡ done t (svc, r, e))
    × Ticks plain settings "client"
        (answering one_partition)
        running_manager
        svc
        r
        e
        (reconcile plain settings "client" 4 (answering one_partition) running_manager)
reconcile-Ticks_example =
    reconcile-Ticks plain settings "client" (answering one_partition) 4 running_manager
      (described_as-Cooperates one_partition) (omega arith)

stop-StopsAs_example : StopsAs plain settings true closings running_manager
stop-StopsAs_example = stop-StopsAs plain settings closings running_manager refl refl refl refl refl

stopped_without_client :
    (stop plain settings closings
      (record running_manager { connection_service = new_connection_service })).1
    ≡ crash nil_dereference
unfolding stop
stopped_without_client = refl

other_order : deep_equal ((0, pos 1) ∷ (1, pos 2) ∷ []) ((1, pos 2) ∷ (0, pos 1) ∷ []) ≡ true
unfolding deep_equal lookup
other_order = refl
