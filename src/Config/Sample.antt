-- ===== src/Config/Sample.antt =====
-- The configuration of the defaults but for a topic configuration and a size of 0, for the tests.
use strimzi_canary.Common.{false, [], ◌∷◌, none, some}
use strimzi_canary.Common.Int.{ℤ, pos}
use strimzi_canary.Config.Numbers.{atoi}
use strimzi_canary.Config.{SaslTypes, Floats, CanaryConfig}

abbrev pub whole : Floats
whole = record { Float = ℤ; parse_float = λ s. some (atoi s) }

abbrev pub sasl : SaslTypes
sasl = record {
  plaintext = "PLAIN";
  scram_sha256 = "SCRAM-SHA-256";
  scram_sha512 = "SCRAM-SHA-512";
}

abbrev pub read_config : CanaryConfig whole
read_config = record {
  dynamic_canary_config = record {
    sarama_log_enabled = some false;
    verbosity_log_level = some (pos 0);
  };
  bootstrap_servers = "localhost:9092" ∷ [];
  bootstrap_backoff_max_attempts = pos 10;
  bootstrap_backoff_scale = pos 5000;
  topic = "__strimzi_canary";
  topic_config = some (("retention.ms", "70") ∷ ("segment.ms", "5") ∷ []);
  reconcile_interval = pos 30000;
  client_id = "strimzi-canary-client";
  consumer_group_id = "strimzi-canary-group";
  producer_latency_buckets =
      pos 2 ∷ pos 5 ∷ pos 10 ∷ pos 20 ∷ pos 50 ∷ pos 100 ∷ pos 200 ∷ pos 400 ∷ [];
  end_to_end_latency_buckets =
      pos 5 ∷ pos 10 ∷ pos 20 ∷ pos 50 ∷ pos 100 ∷ pos 200 ∷ pos 400 ∷ pos 800 ∷ [];
  expected_cluster_size = pos 0;
  kafka_version = "3.2.0";
  dynamic_config_file = "";
  tls_enabled = false;
  tls_ca_cert = "";
  tls_client_cert = "";
  tls_client_key = "";
  tls_insecure_skip_verify = false;
  sasl_mechanism = "";
  sasl_user = "";
  sasl_password = "";
  connection_check_interval = pos 120000;
  connection_check_latency_buckets = pos 100 ∷ pos 200 ∷ pos 400 ∷ pos 800 ∷ pos 1600 ∷ [];
  status_check_interval = pos 30000;
  status_time_window = pos 300000;
  dynamic_config_watcher_interval = pos 30000;
  exporter_type_tracing = "";
  prometheus_constant_labels = none;
}
