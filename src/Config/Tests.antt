-- ===== src/Config/Tests.antt =====
-- Configurations from small environments, run.
use Prim.Native.String.{String}
use strimzi_canary.Common.{
  ◌-◌, ◌^◌, ◌≡◌, ◌≢◌, ◌⊎◌, refl, true, false, [], ◌∷◌, none, some, if◌then◌else◌, ok, crash,
  panicked, All,
}
use strimzi_canary.Common.Int.{pos}
use strimzi_canary.Common.Maps.{insert, string_eq, str_eq}
use strimzi_canary.Common.Text.{split}
use strimzi_canary.Config.Numbers.{atoi, parse_bool}
use strimzi_canary.Config.Pairs.{
  StringMap, convert_kv_pairs_to_map, convert_kv_pairs_to_prometheus_labels,
}
use strimzi_canary.Config.Grammar.{
  IsPair, print_pairs, print_terminated, insert_all, convert_kv_pairs_to_map-print_pairs,
}
use strimzi_canary.Config.Accepts.{ReadsOrPanics, convert_kv_pairs_to_map-Reads}
use strimzi_canary.Config.Secrets.{Secrets, with_secrets, to_string-with_secrets}
use strimzi_canary.Config.Sample.{whole, sasl, read_config}
use strimzi_canary.Config.{
  Env, CanaryConfig, new_canary_config, to_string, lookup_int_env, lookup_string_env,
  lookup_bool_env, new_dynamic_canary_config, exporter_type_tracing, dynamic_to_string, literal,
  number,
}

-- A topic configuration with a key twice, and a size that is no number.
abbrev env : Env
env v =
    if str_eq v "TOPIC_CONFIG"
    then some "retention.ms=60;segment.ms=5;retention.ms=70;"
    else if str_eq v "EXPECTED_CLUSTER_SIZE"
    then some "3x"
    else none

env_read : new_canary_config whole env ≡ ok read_config
unfolding new_canary_config split atoi convert_kv_pairs_to_map insert lookup_string_env
    exporter_type_tracing convert_kv_pairs_to_prometheus_labels new_dynamic_canary_config
    lookup_int_env lookup_bool_env
env_read = refl

no_key : convert_kv_pairs_to_map "=v" ≡ crash panicked
unfolding convert_kv_pairs_to_map split
no_key = refl

overflowed : atoi "99999999999999999999x" ≡ pos (2 ^ 63 - 1)
unfolding atoi
overflowed = refl

truths : (parse_bool "True" ≡ true) × (parse_bool "tRue" ≡ false)
unfolding parse_bool
truths = (refl, refl)

-- With no Sarama setting the text has a comma too many.
no_sarama :
    dynamic_to_string whole
      (record { sarama_log_enabled = none; verbosity_log_level = some (pos 1) })
    ≡ literal "{" ∷ literal ", " ∷ literal "VerbosityLogLevel:" ∷ number (pos 1) ∷ literal "}" ∷ []
unfolding dynamic_to_string
no_sarama = refl

abbrev two_pairs : StringMap
two_pairs = ("a", "1") ∷ ("a", "2") ∷ []

two_pairs-IsPair : All IsPair two_pairs
two_pairs-IsPair = (
  record {
    key = cc;
    plain_key = (refl, tt);
    plain_value = (refl, tt);
    whole_key = (refl, tt);
    whole_value = (refl, tt);
  },
  (
    record {
      key = cc;
      plain_key = (refl, tt);
      plain_value = (refl, tt);
      whole_key = (refl, tt);
      whole_value = (refl, tt);
    },
    tt,
  ),
)

convert_kv_pairs_to_map-print_pairs_example :
    (convert_kv_pairs_to_map (print_pairs two_pairs) ≡ ok (some (insert_all two_pairs [])))
    × (convert_kv_pairs_to_map (print_terminated two_pairs) ≡ ok (some (insert_all two_pairs [])))
convert_kv_pairs_to_map-print_pairs_example =
    convert_kv_pairs_to_map-print_pairs two_pairs (cc) two_pairs-IsPair

abbrev one_pair : String
one_pair = "k=v;"

convert_kv_pairs_to_map-Reads_example :
    ((one_pair ≢ "") × ReadsOrPanics one_pair (convert_kv_pairs_to_map one_pair))
    ⊎ ((one_pair ≡ "") × (convert_kv_pairs_to_map one_pair ≡ ok none))
convert_kv_pairs_to_map-Reads_example = convert_kv_pairs_to_map-Reads one_pair

abbrev one : Secrets
one = record {
  tls_ca_cert = "ca";
  tls_client_cert = "";
  tls_client_key = "";
  sasl_user = "u";
  sasl_password = "p";
}

abbrev other : Secrets
other = record {
  tls_ca_cert = "CA2";
  tls_client_cert = "";
  tls_client_key = "";
  sasl_user = "v";
  sasl_password = "q";
}

abbrev secretive : CanaryConfig whole
secretive = with_secrets whole one (record read_config { sasl_mechanism = "PLAIN" })

to_string-with_secrets_example :
    to_string whole sasl (with_secrets whole other secretive) ≡ to_string whole sasl secretive
to_string-with_secrets_example =
    to_string-with_secrets whole sasl secretive other refl refl refl refl refl
