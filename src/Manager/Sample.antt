-- ===== src/Manager/Sample.antt =====
-- A cluster of two brokers that answers the manager, with the topic there from the second reconcile on, for the tests.
use Prim.Native.String.{String}
use strimzi_canary.Common.{
  ℕ, zero, suc, ◌≡◌, refl, Bool, true, false, List, [], ◌∷◌, none, value, ok, arith,
}
use strimzi_canary.Backoff.{delay, new_backoff}
use strimzi_canary.Common.Maps.{nat_eq, insert}
use strimzi_canary.Loop.{unmade, opened}
use strimzi_canary.Topic.{new_topic_service, is_dynamic_reassignment_enabled}
use strimzi_canary.Topic.Metadata.{current_assignments, sort_partitions, insert_partition}
use strimzi_canary.Topic.Cooperation.{Cooperates}
use strimzi_canary.Connection.{ConnectionService, new_connection_service}
use strimzi_canary.Common.Int.{pos}
use strimzi_canary.Assign.{Broker}
use strimzi_canary.Topic.Types.{
  Errors, TopicSettings, unknown_topic_or_partition, no_error, TopicMetadata,
}
use strimzi_canary.Topic
use strimzi_canary.Connection
use strimzi_canary.Manager.{Intervals, CanaryManager, Answers, start}
use strimzi_canary.Manager.Start.{IsTicking}
use strimzi_canary.Manager.Stop.{Closings}

-- no error is of a lost connection
abbrev pub plain : Errors
plain = record { E = Bool; is = λ e s. false }

abbrev pub two_brokers : List Broker
two_brokers = record { id = 1; rack = "" } ∷ record { id = 0; rack = "" } ∷ []

abbrev pub no_topic : TopicMetadata plain
no_topic = record { name = "canary"; err = unknown_topic_or_partition; partitions = [] }

abbrev pub one_partition : TopicMetadata plain
one_partition = record {
  name = "canary";
  err = no_error;
  partitions = record { id = 0; leader = pos 1; replicas = 1 ∷ [] } ∷ [];
}

abbrev pub described_as : TopicMetadata plain → Topic.Types.Answers plain
described_as md = record {
  admin_created = none;
  brokers = value two_brokers;
  described = value (md ∷ []);
  described_created = value (md ∷ []);
  topic_created = none;
  config_altered = none;
  reassigned = none;
  partitions_created = none;
  reassignments = λ i. value [];
  admin_closed = none;
}

abbrev pub connected : Connection.Answers plain
connected = record {
  admin_created = none;
  described = ([], none);
  admin_closed = none;
  connected = λ i. true;
  elapsed = λ i. pos 1;
}

module _ (cfg : TopicSettings) (client_id : String) where
  abbrev pub answering_as : TopicMetadata plain → Answers plain cfg client_id
  answering_as md = record {
    topic_answers = described_as md;
    producer_answers = record { sent = λ i. none; before = λ i. pos 100; later = λ i. pos 105 };
    producer_refreshed = none;
    consumer_refreshed = none;
    leaders_found = value (0 ∷ []);
    leader_found = λ p. value (pos 1);
  }

  abbrev pub answers_as : ℕ → Answers plain cfg client_id
  answers_as zero = answering_as no_topic
  answers_as (suc i) = answering_as one_partition

  abbrev pub closings_as : Closings plain cfg
  closings_as = record {
    producer_closed = none;
    consumer_closed = none;
    topic_answers = described_as one_partition;
    connection_answers = connected;
  }

abbrev pub settings : TopicSettings
settings = record { topic = "canary"; topic_config = []; expected_cluster_size = pos 3 }

abbrev pub answering : TopicMetadata plain → Answers plain settings "client"
answering = answering_as settings "client"

abbrev pub answers : ℕ → Answers plain settings "client"
answers = answers_as settings "client"

abbrev pub closings : Closings plain settings
closings = closings_as settings "client"

pub described_as-Cooperates :
    (md : TopicMetadata plain) → Cooperates plain settings (described_as md) 4
described_as-Cooperates md = record {
  query = 0;
  in_time = omega arith;
  settles = refl;
  describes = λ h. cc h;
  describes_created = λ h. cc h;
  closes = refl;
}

pub answers-Cooperates : (i : ℕ) → Cooperates plain settings (answers i).topic_answers 4
answers-Cooperates zero = described_as-Cooperates no_topic
answers-Cooperates (suc i) = described_as-Cooperates one_partition

abbrev pub at_once : ℕ → Bool
at_once i = false

abbrev pub new_manager : CanaryManager
new_manager = record {
  stop = unmade;
  topic_service = new_topic_service;
  producer_service = record { index = pos 0; records_produced = 0 };
  connection_service = new_connection_service;
}

abbrev pub with_admin : ConnectionService
with_admin = record { admin = true; brokers = [] }

pub connects :
    Connection.connection_check plain (pos 3) connected new_connection_service
    ≡ (Connection.new_cluster_admin ∷ Connection.describe_cluster ∷ [], ok with_admin)
unfolding Connection.connection_check Connection.check_brokers
connects = refl

-- The manager after its start, with one message sent.
abbrev pub running_manager : CanaryManager
running_manager = record {
  stop = opened;
  topic_service = record { admin = true; initialized = true };
  producer_service = record { index = pos 1; records_produced = 1 };
  connection_service = with_admin;
}

-- The intervals by default.
abbrev pub every : Intervals
every = record { connection_check = pos 120_000; status_check = pos 30_000; reconcile = pos 30_000 }

pub every-IsTicking : IsTicking every
every-IsTicking = record {
  connections = record {
    count = 120_000;
    count_is = refl;
    count_pos = omega arith;
    in_reach = omega arith;
  };
  statuses = record {
    count = 30_000;
    count_is = refl;
    count_pos = omega arith;
    in_reach = omega arith;
  };
  reconciles = record {
    count = 30_000;
    count_is = refl;
    count_pos = omega arith;
    in_reach = omega arith;
  };
}

pub starts :
    (start plain settings "client" 4 answers at_once every
      (pos 3)
      (pos 5000)
      connected
      new_manager).1
    ≡ ok running_manager
unfolding start is_dynamic_reassignment_enabled delay new_backoff current_assignments
    sort_partitions insert_partition insert
starts = refl
