-- ===== src/Topic/Types.antt =====
-- internal/services/topic.go: what the topic service and the Kafka cluster tell each other. The
-- errors of Sarama are a parameter type, with errors.Is against the errors of a lost connection.
use strimzi_canary.Common.{
  ℕ, Bool, false, ◌||◌, List, [], ◌++◌, Option, String, Outcome, ok, crash, Crash, Result,
}
use strimzi_canary.Common.Int.{ℤ}
use strimzi_canary.Assign.{Broker, Assignments}

-- the errors that util.IsDisconnection looks for
pub data Sentinel : Type 0 where
  eof econnreset epipe etimedout deadline_exceeded : Sentinel

pub record Errors : Type 1 where
  pub E : Type 0
  pub is : E → Sentinel → Bool

pub record PartitionMetadata : Type 0 where
  pub id : ℕ
  pub leader : ℤ
  pub replicas : List ℕ

pub record TopicSettings : Type 0 where
  pub topic : String
  pub topic_config : List (String × String)
  pub expected_cluster_size : ℤ

pub record TopicService : Type 0 where
  pub admin : Bool
  pub initialized : Bool

pub record TopicReconcileResult : Type 0 where
  pub assignments : Assignments
  pub leaders : List (ℕ × ℤ)
  pub refresh_producer_metadata : Bool

-- The counters, by their topic label, if they have one.
pub data Metric : Type 0 where
  topic_creation_failed describe_topic_error alter_topic_assignments_error : String → Metric
  alter_topic_configuration_error : String → Metric
  describe_cluster_error : Metric

-- A text of the topic's configuration: a given one, or the decimal digits of a number.
pub data Text : Type 0 where
  literal : String → Text
  decimal : ℕ → Text

-- What the service does to the world, in order.
pub data Event : Type 0 where
  new_cluster_admin describe_cluster close_admin sleep_two_seconds : Event
  describe_topics list_partition_reassignments : String → Event
  create_topic : String → Assignments → List (String × Text) → Event
  alter_config : String → List (String × String) → Event
  alter_partition_reassignments : String → List (List ℕ) → Event
  create_partitions : String → ℕ → List (List ℕ) → Event
  add : Metric → ℕ → Event

module _ (er : Errors) where
  -- topicMetadata.Err
  pub data TopicError : Type 0 where
    no_error unknown_topic_or_partition : TopicError
    other_error : er.E → TopicError

  pub record TopicMetadata : Type 0 where
    pub name : String
    pub err : TopicError
    pub partitions : List PartitionMetadata

  -- The numbers of replicas that a reassignment is adding and removing.
  pub record Reassignment : Type 0 where
    pub adding_replicas : ℕ
    pub removing_replicas : ℕ

  -- What the cluster answers to the calls of one reconcile; `none` is a nil error.
  pub record Answers : Type 0 where
    pub admin_created : Option er.E
    pub brokers : Result er.E (List Broker)
    pub described : Result er.E (List TopicMetadata)
    pub described_created : Result er.E (List TopicMetadata)
    pub topic_created : Option er.E
    pub config_altered : Option er.E
    pub reassigned : Option er.E
    pub partitions_created : Option er.E
    pub reassignments : ℕ → Result er.E (List Reassignment)
    pub admin_closed : Option er.E

  pub data ReconcileError : Type 0 where
    sarama : er.E → ReconcileError
    topic_error : TopicError → ReconcileError
    expected_cluster_size_error : ReconcileError

  -- A reconcile that fails returns what it had put in the result so far.
  pub record Failure : Type 0 where
    pub cause : ReconcileError
    pub service : TopicService
    pub result : TopicReconcileResult

  -- A run of the service: the events so far, and a value, an error or a crash.
  pub data Run {ℓ} (A : Type ℓ) : Type ℓ where
    done : List Event → A → Run A
    failed : List Event → Failure → Run A
    crashed : List Event → Crash → Run A

  abbrev pub after {ℓ} : {A : Type ℓ} → List Event → Run A → Run A
  after t (done u a) = done (t ++ u) a
  after t (failed u f) = failed (t ++ u) f
  after t (crashed u c) = crashed (t ++ u) c

  abbrev pub bind {ℓ κ} : {A : Type ℓ} {B : Type κ} → Run A → (A → Run B) → Run B
  bind (done t a) f = after t (f a)
  bind (failed t e) f = failed t e
  bind (crashed t c) f = crashed t c

  abbrev pub lift {ℓ} : {A : Type ℓ} → Outcome A → Run A
  lift (ok a) = done [] a
  lift (crash c) = crashed [] c

  abbrev pub is_disconnection : ReconcileError → Bool
  is_disconnection (sarama e) =
      er.is e eof
      || (er.is e econnreset || (er.is e epipe || (er.is e etimedout || er.is e deadline_exceeded)))
  is_disconnection (topic_error e) = false
  is_disconnection expected_cluster_size_error = false
