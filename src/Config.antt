-- ===== src/Config.antt =====
-- internal/config/canary_config.go: the configuration from the environment, and what of it is printed.
-- Floating point numbers, with their reading from text, are a parameter.
pub mod Variables
pub mod Numbers
pub mod Pairs
pub mod Bounds
pub mod Grammar
pub mod Accepts
pub mod Secrets
pub mod Sample
mod Tests
use Prim.Native.String.{String}
use strimzi_canary.Common.{
  ℕ, Bool, true, false, not, ◌&&◌, List, [], ◌∷◌, ◌++◌, Option, none, some, if◌then◌else◌, length,
  ◌==◌, Outcome, ok, crash, panicked, fatal, ◌>>=◌,
}
use strimzi_canary.Common.Maps.{str_eq}
use strimzi_canary.Common.Int.{ℤ, pos, negsuc}
use strimzi_canary.Common.Text.{split}
use Variables
use Numbers.{atoi, parse_bool}
use Pairs.{StringMap, convert_kv_pairs_to_map, convert_kv_pairs_to_prometheus_labels}

pub record DynamicCanaryConfig : Type 0 where
  pub sarama_log_enabled : Option Bool
  pub verbosity_log_level : Option ℤ

-- os.LookupEnv
abbrev pub Env : Type 0
Env = String → Option String

abbrev pub or_else : Option String → String → String
or_else none default = default
or_else (some v) default = v

unfoldable pub lookup_string_env : Env → String → String → String
lookup_string_env env env_var default = or_else (env env_var) default

abbrev read {ℓ} : {A : Type ℓ} → (String → A) → A → Option String → A
read parse default none = default
read parse default (some v) = parse v

unfoldable pub lookup_int_env : Env → String → ℤ → ℤ
lookup_int_env env env_var default = read atoi default (env env_var)

unfoldable pub lookup_bool_env : Env → String → Bool → Bool
lookup_bool_env env env_var default = read parse_bool default (env env_var)

unfoldable pub new_dynamic_canary_config : Env → DynamicCanaryConfig
new_dynamic_canary_config env = record {
  sarama_log_enabled = some (
      lookup_bool_env env Variables.sarama_log_enabled_env_var
        Variables.sarama_log_enabled_default);
  verbosity_log_level = some (
      lookup_int_env env Variables.verbosity_log_level_env_var
        Variables.verbosity_log_level_default);
}

unfoldable pub exporter_type_tracing : Env → Outcome String
exporter_type_tracing env =
    let exporter_type =
      lookup_string_env env Variables.exporter_type_tracing_env_var
        Variables.exporter_type_tracing_default in
    if not (str_eq exporter_type "jaeger")
      && (not (str_eq exporter_type "otlp") && not (str_eq exporter_type ""))
    then crash panicked
    else ok exporter_type

-- the names that Sarama gives to the mechanisms
pub record SaslTypes : Type 0 where
  pub plaintext : String
  pub scram_sha256 : String
  pub scram_sha512 : String

-- strconv.ParseFloat with 64 bits
pub record Floats : Type 1 where
  pub Float : Type 0
  pub parse_float : String → Option Float

module _ (fl : Floats) where
  open fl use {Float, parse_float}

  -- Durations are int64 numbers, of milliseconds where the names of the variables say so.
  pub record CanaryConfig : Type 0 where
    pub dynamic_canary_config : DynamicCanaryConfig
    pub bootstrap_servers : List String
    pub bootstrap_backoff_max_attempts : ℤ
    pub bootstrap_backoff_scale : ℤ
    pub topic : String
    pub topic_config : Option StringMap
    pub reconcile_interval : ℤ
    pub client_id : String
    pub consumer_group_id : String
    pub producer_latency_buckets : List Float
    pub end_to_end_latency_buckets : List Float
    pub expected_cluster_size : ℤ
    pub kafka_version : String
    pub dynamic_config_file : String
    pub tls_enabled : Bool
    pub tls_ca_cert : String
    pub tls_client_cert : String
    pub tls_client_key : String
    pub tls_insecure_skip_verify : Bool
    pub sasl_mechanism : String
    pub sasl_user : String
    pub sasl_password : String
    pub connection_check_interval : ℤ
    pub connection_check_latency_buckets : List Float
    pub status_check_interval : ℤ
    pub status_time_window : ℤ
    pub dynamic_config_watcher_interval : ℤ
    pub exporter_type_tracing : String
    pub prometheus_constant_labels : Option StringMap

  abbrev parsed_or_fatal : Option Float → Outcome Float
  parsed_or_fatal none = crash fatal
  parsed_or_fatal (some f) = ok f

  unfoldable pub parse_buckets : List String → Outcome (List Float)
  parse_buckets [] = ok []
  parse_buckets (s ∷ ss) = do
    f ← parsed_or_fatal (parse_float s)
    fs ← parse_buckets ss
    ok (f ∷ fs)

  unfoldable pub latency_buckets : String → Outcome (List Float)
  unfolding parse_buckets
  latency_buckets buckets_config = parse_buckets (split buckets_config b',')

  -- The calls that can panic or exit stand first, in the order of the source.
  unfoldable pub new_canary_config : Env → Outcome CanaryConfig
  unfolding latency_buckets
  new_canary_config env = do
    topic_config ←
        convert_kv_pairs_to_map
          (lookup_string_env env Variables.topic_config_env_var Variables.topic_config_default)
    producer_latency_buckets ← latency_buckets (
        lookup_string_env env Variables.producer_latency_buckets_env_var
          Variables.producer_latency_buckets_default)
    end_to_end_latency_buckets ← latency_buckets (
        lookup_string_env env Variables.end_to_end_latency_buckets_env_var
          Variables.end_to_end_latency_buckets_default)
    connection_check_latency_buckets ← latency_buckets (
        lookup_string_env env Variables.connection_check_latency_buckets_env_var
          Variables.connection_check_latency_buckets_default)
    exporter ← exporter_type_tracing env
    prometheus_constant_labels ← convert_kv_pairs_to_prometheus_labels (
        lookup_string_env env Variables.prometheus_consant_labels_env_var
          Variables.prometheus_consant_labels_default)
    ok (record {
      dynamic_canary_config = new_dynamic_canary_config env;
      bootstrap_servers =
          split
            (lookup_string_env env Variables.bootstrap_servers_env_var
              Variables.bootstrap_servers_default)
            b',';
      bootstrap_backoff_max_attempts =
          lookup_int_env env Variables.bootstrap_backoff_max_attempts_env_var
            Variables.bootstrap_backoff_max_attempts_default;
      bootstrap_backoff_scale =
          lookup_int_env env Variables.bootstrap_backoff_scale_env_var
            Variables.bootstrap_backoff_scale_default;
      topic = lookup_string_env env Variables.topic_env_var Variables.topic_default;
      topic_config = topic_config;
      reconcile_interval =
          lookup_int_env env Variables.reconcile_interval_env_var
            Variables.reconcile_interval_default;
      client_id = lookup_string_env env Variables.client_id_env_var Variables.client_id_default;
      consumer_group_id =
          lookup_string_env env Variables.consumer_group_id_env_var
            Variables.consumer_group_id_default;
      producer_latency_buckets = producer_latency_buckets;
      end_to_end_latency_buckets = end_to_end_latency_buckets;
      expected_cluster_size =
          lookup_int_env env Variables.expected_cluster_size_env_var
            Variables.expected_cluster_size_default;
      kafka_version =
          lookup_string_env env Variables.kafka_version_env_var Variables.kafka_version_default;
      tls_enabled = lookup_bool_env env Variables.tls_enabled_env_var Variables.tls_enabled_default;
      tls_ca_cert =
          lookup_string_env env Variables.tls_ca_cert_env_var Variables.tls_ca_cert_default;
      tls_client_cert =
          lookup_string_env env Variables.tls_client_cert_env_var Variables.tls_client_cert_default;
      tls_client_key =
          lookup_string_env env Variables.tls_client_key_env_var Variables.tls_client_key_default;
      tls_insecure_skip_verify =
          lookup_bool_env env Variables.tls_insecure_skip_verify_env_var
            Variables.tls_insecure_skip_verify_default;
      sasl_mechanism =
          lookup_string_env env Variables.sasl_mechanism_env_var Variables.sasl_mechanism_default;
      sasl_user = lookup_string_env env Variables.sasl_user_env_var Variables.sasl_user_default;
      sasl_password =
          lookup_string_env env Variables.sasl_password_env_var Variables.sasl_password_default;
      connection_check_interval =
          lookup_int_env env Variables.connection_check_interval_env_var
            Variables.connection_check_interval_default;
      connection_check_latency_buckets = connection_check_latency_buckets;
      status_check_interval =
          lookup_int_env env Variables.status_check_interval_env_var
            Variables.status_check_interval_default;
      status_time_window =
          lookup_int_env env Variables.status_time_window_env_var
            Variables.status_time_window_default;
      dynamic_config_file =
          lookup_string_env env Variables.dynamic_config_file_env_var
            Variables.dynamic_config_file_default;
      dynamic_config_watcher_interval =
          lookup_int_env env Variables.dynamic_config_watcher_interval_env_var
            Variables.dynamic_config_watcher_interval_default;
      exporter_type_tracing = exporter;
      prometheus_constant_labels = prometheus_constant_labels;
    })

  -- what a placeholder of a format is given
  pub data Piece : Type 0 where
    literal : String → Piece
    truth : Bool → Piece
    number : ℤ → Piece
    strings : List String → Piece
    string_map : Option StringMap → Piece
    floats : List Float → Piece

  abbrev comma_pad : List Piece → List Piece
  comma_pad str = if length str == 0 then str else str ++ literal ", " ∷ []

  abbrev with_log : Option Bool → List Piece → List Piece
  with_log none str = str
  with_log (some b) str = str ++ literal "SaramaLogEnabled:" ∷ truth b ∷ []

  abbrev with_level : Option ℤ → List Piece → List Piece
  with_level none str = str
  with_level (some n) str = comma_pad str ++ literal "VerbosityLogLevel:" ∷ number n ∷ []

  unfoldable pub dynamic_to_string : DynamicCanaryConfig → List Piece
  dynamic_to_string c =
      with_level c.verbosity_log_level (with_log c.sarama_log_enabled (literal "{" ∷ []))
      ++ literal "}" ∷ []

  -- the placeholder in the place of a text that is not empty
  abbrev hidden : String → String → String
  hidden secret placeholder = if str_eq secret "" then "" else placeholder

  abbrev hidden_if : Bool → String → String → String
  hidden_if uses secret placeholder = if uses then hidden secret placeholder else ""

  -- The pieces of the configuration's text, each behind its label.
  unfoldable pub to_string : SaslTypes → CanaryConfig → List (String × List Piece)
  unfolding dynamic_to_string
  to_string sasl c =
      let plain = str_eq c.sasl_mechanism sasl.plaintext in
      ("BootstrapServers", strings c.bootstrap_servers ∷ [])
      ∷ ("BootstrapBackoffMaxAttempts", number c.bootstrap_backoff_max_attempts ∷ [])
      ∷ ("BootstrapBackoffScale", number c.bootstrap_backoff_scale ∷ [])
      ∷ ("Topic", literal c.topic ∷ [])
      ∷ ("TopicConfig", string_map c.topic_config ∷ [])
      ∷ ("ReconcileInterval", number c.reconcile_interval ∷ [])
      ∷ ("ClientID", literal c.client_id ∷ [])
      ∷ ("ConsumerGroupID", literal c.consumer_group_id ∷ [])
      ∷ ("ProducerLatencyBuckets", floats c.producer_latency_buckets ∷ [])
      ∷ ("EndToEndLatencyBuckets", floats c.end_to_end_latency_buckets ∷ [])
      ∷ ("ExpectedClusterSize", number c.expected_cluster_size ∷ [])
      ∷ ("KafkaVersion", literal c.kafka_version ∷ [])
      ∷ ("TLSEnabled", truth c.tls_enabled ∷ [])
      ∷ ("TLSCACert", literal (hidden c.tls_ca_cert "[CA cert]") ∷ [])
      ∷ ("TLSClientCert", literal (hidden c.tls_client_cert "[Client cert]") ∷ [])
      ∷ ("TLSClientKey", literal (hidden c.tls_client_key "[Client key]") ∷ [])
      ∷ ("TLSInsecureSkipVerify", truth c.tls_insecure_skip_verify ∷ [])
      ∷ ("SASLMechanism", literal c.sasl_mechanism ∷ [])
      ∷ ("SASLUser", literal (hidden_if plain c.sasl_user "[SASL user]") ∷ [])
      ∷ ("SASLPassword", literal (hidden_if plain c.sasl_password "[SASL password]") ∷ [])
      ∷ ("ConnectionCheckInterval", number c.connection_check_interval ∷ [])
      ∷ ("ConnectionCheckLatencyBuckets", floats c.connection_check_latency_buckets ∷ [])
      ∷ ("StatusCheckInterval", number c.status_check_interval ∷ [])
      ∷ ("StatusTimeWindow", number c.status_time_window ∷ [])
      ∷ ("DynamicConfigFile", literal c.dynamic_config_file ∷ [])
      ∷ ("DynamicCanaryConfig", dynamic_to_string c.dynamic_canary_config)
      ∷ ("DynamicConfigWatcherInterval", number c.dynamic_config_watcher_interval ∷ [])
      ∷ []
