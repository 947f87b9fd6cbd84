-- ===== src/Config/Variables.antt =====
-- internal/config/canary_config.go: the names of the environment variables, and their defaults.
use Prim.Native.String.{String}
use mathlib.Core.Bool.{Bool, false}
use strimzi_canary.Common.Int.{ℤ, pos, negsuc}

abbrev pub bootstrap_servers_env_var : String
bootstrap_servers_env_var = "KAFKA_BOOTSTRAP_SERVERS"

abbrev pub bootstrap_backoff_max_attempts_env_var : String
bootstrap_backoff_max_attempts_env_var = "KAFKA_BOOTSTRAP_BACKOFF_MAX_ATTEMPTS"

abbrev pub bootstrap_backoff_scale_env_var : String
bootstrap_backoff_scale_env_var = "KAFKA_BOOTSTRAP_BACKOFF_SCALE"

abbrev pub topic_env_var : String
topic_env_var = "TOPIC"

abbrev pub topic_config_env_var : String
topic_config_env_var = "TOPIC_CONFIG"

abbrev pub reconcile_interval_env_var : String
reconcile_interval_env_var = "RECONCILE_INTERVAL_MS"

abbrev pub client_id_env_var : String
client_id_env_var = "CLIENT_ID"

abbrev pub consumer_group_id_env_var : String
consumer_group_id_env_var = "CONSUMER_GROUP_ID"

abbrev pub producer_latency_buckets_env_var : String
producer_latency_buckets_env_var = "PRODUCER_LATENCY_BUCKETS"

abbrev pub end_to_end_latency_buckets_env_var : String
end_to_end_latency_buckets_env_var = "ENDTOEND_LATENCY_BUCKETS"

abbrev pub expected_cluster_size_env_var : String
expected_cluster_size_env_var = "EXPECTED_CLUSTER_SIZE"

abbrev pub kafka_version_env_var : String
kafka_version_env_var = "KAFKA_VERSION"

abbrev pub sarama_log_enabled_env_var : String
sarama_log_enabled_env_var = "SARAMA_LOG_ENABLED"

abbrev pub verbosity_log_level_env_var : String
verbosity_log_level_env_var = "VERBOSITY_LOG_LEVEL"

abbrev pub tls_enabled_env_var : String
tls_enabled_env_var = "TLS_ENABLED"

abbrev pub tls_ca_cert_env_var : String
tls_ca_cert_env_var = "TLS_CA_CERT"

abbrev pub tls_client_cert_env_var : String
tls_client_cert_env_var = "TLS_CLIENT_CERT"

abbrev pub tls_client_key_env_var : String
tls_client_key_env_var = "TLS_CLIENT_KEY"

abbrev pub tls_insecure_skip_verify_env_var : String
tls_insecure_skip_verify_env_var = "TLS_INSECURE_SKIP_VERIFY"

abbrev pub sasl_mechanism_env_var : String
sasl_mechanism_env_var = "SASL_MECHANISM"

abbrev pub sasl_user_env_var : String
sasl_user_env_var = "SASL_USER"

abbrev pub sasl_password_env_var : String
sasl_password_env_var = "SASL_PASSWORD"

abbrev pub connection_check_interval_env_var : String
connection_check_interval_env_var = "CONNECTION_CHECK_INTERVAL_MS"

abbrev pub connection_check_latency_buckets_env_var : String
connection_check_latency_buckets_env_var = "CONNECTION_CHECK_LATENCY_BUCKETS"

abbrev pub status_check_interval_env_var : String
status_check_interval_env_var = "STATUS_CHECK_INTERVAL_MS"

abbrev pub status_time_window_env_var : String
status_time_window_env_var = "STATUS_TIME_WINDOW_MS"

abbrev pub dynamic_config_file_env_var : String
dynamic_config_file_env_var = "DYNAMIC_CONFIG_FILE"

abbrev pub dynamic_config_watcher_interval_env_var : String
dynamic_config_watcher_interval_env_var = "DYNAMIC_CONFIG_WATCHER_INTERVAL"

abbrev pub exporter_type_tracing_env_var : String
exporter_type_tracing_env_var = "EXPORTER_TYPE_TRACING"

abbrev pub prometheus_consant_labels_env_var : String
prometheus_consant_labels_env_var = "PROMETHEUS_CONSTANT_LABELS"

abbrev pub bootstrap_servers_default : String
bootstrap_servers_default = "localhost:9092"

abbrev pub bootstrap_backoff_max_attempts_default : ℤ
bootstrap_backoff_max_attempts_default = pos 10

abbrev pub bootstrap_backoff_scale_default : ℤ
bootstrap_backoff_scale_default = pos 5000

abbrev pub topic_default : String
topic_default = "__strimzi_canary"

abbrev pub topic_config_default : String
topic_config_default = ""

abbrev pub reconcile_interval_default : ℤ
reconcile_interval_default = pos 30000

abbrev pub client_id_default : String
client_id_default = "strimzi-canary-client"

abbrev pub consumer_group_id_default : String
consumer_group_id_default = "strimzi-canary-group"

abbrev pub producer_latency_buckets_default : String
producer_latency_buckets_default = "2,5,10,20,50,100,200,400"

abbrev pub end_to_end_latency_buckets_default : String
end_to_end_latency_buckets_default = "5,10,20,50,100,200,400,800"

abbrev pub expected_cluster_size_default : ℤ
expected_cluster_size_default = negsuc 0

abbrev pub kafka_version_default : String
kafka_version_default = "3.2.0"

abbrev pub sarama_log_enabled_default : Bool
sarama_log_enabled_default = false

abbrev pub verbosity_log_level_default : ℤ
verbosity_log_level_default = pos 0

abbrev pub tls_enabled_default : Bool
tls_enabled_default = false

abbrev pub tls_ca_cert_default : String
tls_ca_cert_default = ""

abbrev pub tls_client_cert_default : String
tls_client_cert_default = ""

abbrev pub tls_client_key_default : String
tls_client_key_default = ""

abbrev pub tls_insecure_skip_verify_default : Bool
tls_insecure_skip_verify_default = false

abbrev pub sasl_mechanism_default : String
sasl_mechanism_default = ""

abbrev pub sasl_user_default : String
sasl_user_default = ""

abbrev pub sasl_password_default : String
sasl_password_default = ""

abbrev pub connection_check_interval_default : ℤ
connection_check_interval_default = pos 120000

abbrev pub connection_check_latency_buckets_default : String
connection_check_latency_buckets_default = "100,200,400,800,1600"

abbrev pub status_check_interval_default : ℤ
status_check_interval_default = pos 30000

abbrev pub status_time_window_default : ℤ
status_time_window_default = pos 300000

abbrev pub dynamic_config_file_default : String
dynamic_config_file_default = ""

abbrev pub dynamic_config_watcher_interval_default : ℤ
dynamic_config_watcher_interval_default = pos 30000

abbrev pub exporter_type_tracing_default : String
exporter_type_tracing_default = ""

abbrev pub prometheus_consant_labels_default : String
prometheus_consant_labels_default = ""
