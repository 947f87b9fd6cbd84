-- ===== src/Main/Sample.antt =====
-- Versions and a new configuration of Sarama, for the tests.
use strimzi_canary.Common.{Bool, false, none, value}
use Prim.Native.String.{String}
use strimzi_canary.Config.Sample.{whole, sasl}
use strimzi_canary.Security.Sample.{unset, files}
use strimzi_canary.Main.{Versions, SaramaConfig}

-- Every text is a version.
abbrev pub any_version : Versions
any_version = record { E = Bool; Version = String; parse_kafka_version = λ s. value s }

abbrev pub Created : Type 0
Created = SaramaConfig whole sasl files any_version

abbrev pub fresh : Created
fresh = record {
  version = "1.0.0";
  client_id = "sarama";
  manual_partitioner = false;
  return_successes = false;
  wait_for_all = false;
  retry_max = 3;
  return_errors = false;
  tls_enable = false;
  tls_config = none;
  sasl = unset;
}
