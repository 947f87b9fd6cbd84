-- ===== src/Metrics.antt =====
-- The metrics that the program registers with Prometheus, in the constructors of the services, in RegisterMetrics of
-- internal/workers/canary_manager.go, and in cmd/main.go. The registry of Prometheus is a parameter.
pub mod Names
pub mod Sample
mod Tests
use Prim.Native.String.{String}
use strimzi_canary.Common.{
  Bool, true, false, ◌||◌, List, [], ◌∷◌, ◌++◌, Option, none, some, Outcome, ok, crash, ◌>>=◌,
}
use strimzi_canary.Common.Maps.{str_eq}
use strimzi_canary.Config.{Floats, CanaryConfig}
use strimzi_canary.Config.Pairs.{StringMap}

module _ (fl : Floats) where
  -- The options of a collector: `buckets` for a histogram, and the names of the labels that a use gives.
  pub record Opts : Type 0 where
    pub namespace : String
    pub name : String
    pub help : String
    pub const_labels : Option StringMap
    pub buckets : Option (List fl.Float)
    pub labels : List String

  abbrev counter : Option StringMap → String → String → List String → Opts
  counter const_labels name help labels = record {
    namespace = "strimzi_canary";
    name = name;
    help = help;
    const_labels = const_labels;
    buckets = none;
    labels = labels;
  }

  abbrev pub client_metrics : List Opts
  client_metrics =
      counter none "client_creation_error_total"
        "Total number of errors while creating Sarama client" ([])
      ∷ []

  abbrev pub topic_metrics : CanaryConfig fl → List Opts
  topic_metrics c =
      counter c.prometheus_constant_labels "topic_creation_failed_total"
        "Total number of errors while creating the canary topic" ("topic" ∷ [])
      ∷ counter c.prometheus_constant_labels "topic_describe_cluster_error_total"
          "Total number of errors while describing cluster" ([])
      ∷ counter c.prometheus_constant_labels "topic_describe_error_total"
          "Total number of errors while getting canary topic metadata" ("topic" ∷ [])
      ∷ counter c.prometheus_constant_labels "topic_alter_assignments_error_total"
          "Total number of errors while altering partitions assignments for the canary topic"
          ("topic" ∷ [])
      ∷ counter c.prometheus_constant_labels "topic_alter_configuration_error_total"
          "Total number of errors while altering configuration for the canary topic" ("topic" ∷ [])
      ∷ []

  abbrev pub producer_metrics : CanaryConfig fl → List Opts
  producer_metrics c =
      counter c.prometheus_constant_labels "records_produced_total"
        "The total number of records produced" ("clientid" ∷ "partition" ∷ [])
      ∷ counter c.prometheus_constant_labels "records_produced_failed_total"
          "The total number of records failed to produce" ("clientid" ∷ "partition" ∷ [])
      ∷ record (counter c.prometheus_constant_labels "records_produced_latency"
          "Records produced latency in milliseconds" ("clientid" ∷ "partition" ∷ [])) {
            buckets = some c.producer_latency_buckets;
          }
      ∷ counter c.prometheus_constant_labels "producer_refresh_metadata_error_total"
          "Total number of errors while refreshing producer metadata" ("clientid" ∷ [])
      ∷ []

  abbrev pub consumer_metrics : CanaryConfig fl → List Opts
  consumer_metrics c =
      counter c.prometheus_constant_labels "records_consumed_total"
        "The total number of records consumed" ("clientid" ∷ "partition" ∷ [])
      ∷ counter c.prometheus_constant_labels "consumer_error_total"
          "Total number of errors reported by the consumer" ("clientid" ∷ [])
      ∷ record (counter c.prometheus_constant_labels "records_consumed_latency"
          "Records end-to-end latency in milliseconds" ("clientid" ∷ "partition" ∷ [])) {
            buckets = some c.end_to_end_latency_buckets;
          }
      ∷ counter c.prometheus_constant_labels "consumer_timeout_join_group_total"
          "The total number of consumers not joining the group within the timeout" ("clientid" ∷ [])
      ∷ counter c.prometheus_constant_labels "consumer_refresh_metadata_error_total"
          "Total number of errors while refreshing consumer metadata" ("clientid" ∷ [])
      ∷ []

  abbrev pub connection_metrics : CanaryConfig fl → List Opts
  connection_metrics c =
      counter c.prometheus_constant_labels "connection_error_total"
        "Total number of errors while checking the connection to Kafka brokers"
        ("brokerid" ∷ "connected" ∷ [])
      ∷ counter c.prometheus_constant_labels "connection_total"
          "Total number of connections to Kafka brokers (connection may have succeeded or failed)"
          ("brokerid" ∷ "connected" ∷ [])
      ∷ record (counter c.prometheus_constant_labels "connection_latency"
          "Latency in milliseconds for established or failed connections"
          ("brokerid" ∷ "connected" ∷ [])) { buckets = some c.connection_check_latency_buckets }
      ∷ []

  abbrev pub manager_metrics : CanaryConfig fl → List Opts
  manager_metrics c =
      counter c.prometheus_constant_labels "expected_cluster_size_error_total"
        "Total number of errors while waiting the Kafka cluster having the expected size" ([])
      ∷ []

  -- The registry of Prometheus: the full name of a collector (BuildFQName with no subsystem), the full names of those
  -- that a registry has, and a registration, which may panic. `default` is the default registry as the program
  -- finds it, with whatever the libraries have registered.
  pub record Registry : Type 1 where
    pub R : Type 0
    pub default : R
    pub full_name : Opts → String
    pub names : R → List String
    pub is_acceptable : Opts → Bool
    pub register : Opts → R → Outcome R

  module _ (reg : Registry) where
    unfoldable pub register_all : List Opts → reg.R → Outcome reg.R
    register_all [] r = ok r
    register_all (o ∷ os) r = reg.register o r >>= register_all os

  -- All of them, in the order in which main registers them.
  abbrev pub all_metrics : CanaryConfig fl → List Opts
  all_metrics c =
      client_metrics
      ++ (topic_metrics c
          ++ (producer_metrics c
              ++ (consumer_metrics c ++ (connection_metrics c ++ manager_metrics c))))
