-- ===== src/Main/Tests.antt =====
-- Sarama configurations with and without SASL, run.
use strimzi_canary.Common.{◌≡◌, refl, true, false, none, some, ok, value}
use strimzi_canary.Common.Int.{pos}
use strimzi_canary.Config.{CanaryConfig}
use strimzi_canary.Config.Sample.{whole, sasl, read_config}
use strimzi_canary.Security.{set_auth_config, load_cert_key}
use strimzi_canary.Security.Sample.{unset, files}
use strimzi_canary.Main.Sample.{any_version, Created, fresh}
use strimzi_canary.Main.{create_sarama_config, apply_dynamic_config}
use strimzi_canary.Main.Settings.{
  Secure, create_sarama_config-Secure, create_sarama_config_drops_ca,
}

abbrev with_password : CanaryConfig whole
with_password = record read_config {
  sasl_mechanism = "PLAIN";
  sasl_user = "u";
  sasl_password = "p";
}

abbrev expected : Created
expected = record fresh {
  version = "3.2.0";
  client_id = "strimzi-canary-client";
  manual_partitioner = true;
  return_successes = true;
  wait_for_all = true;
  retry_max = 0;
  return_errors = true;
  sasl = record unset {
    enable = true;
    handshake_v1 = true;
    mechanism = "PLAIN";
    user = "u";
    password = "p";
  };
}

with_password_set :
    create_sarama_config whole sasl files any_version fresh with_password ≡ ok (value expected)
unfolding create_sarama_config set_auth_config
with_password_set = refl

create_sarama_config-Secure_example :
    Secure whole sasl files any_version with_password fresh expected
create_sarama_config-Secure_example =
    create_sarama_config-Secure whole sasl files any_version fresh with_password expected
      with_password_set

abbrev broken_ca : CanaryConfig whole
broken_ca = record read_config { tls_enabled = true; tls_ca_cert = "broken" }

create_sarama_config_drops_ca_example :
    (k : Created) × (create_sarama_config whole sasl files any_version fresh broken_ca
      ≡ ok (value k))
    × (k.tls_enable ≡ true)
    × (k.tls_config ≡ none)
unfolding load_cert_key
create_sarama_config_drops_ca_example =
    create_sarama_config_drops_ca whole sasl files any_version fresh broken_ca "3.2.0" "broken" refl
      refl refl refl refl refl

logs_set :
    apply_dynamic_config
      (λ v. v)
      (record { sarama_log_enabled = some true; verbosity_log_level = some (pos 2) })
      (record { verbosity = pos 0; sarama_to_stdout = false })
    ≡ record { verbosity = pos 2; sarama_to_stdout = true }
unfolding apply_dynamic_config
logs_set = refl
