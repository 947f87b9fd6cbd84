-- ===== src/Main.antt =====
-- cmd/main.go: the Sarama configuration, and the effect of a dynamic configuration on the logs. What Sarama
-- makes of a version's text, and its new configuration, are parameters.
pub mod Settings
pub mod Sample
mod Tests
use Prim.Native.String.{String}
use strimzi_canary.Common.{
  ℕ, Bool, true, false, List, [], ◌∷◌, Option, none, some, if◌then◌else◌, Outcome, ok, crash, fatal,
  ◌>>=◌, Result, value, error,
}
use strimzi_canary.Common.Maps.{str_eq}
use strimzi_canary.Common.Int.{ℤ}
use strimzi_canary.Config.{SaslTypes, Floats, CanaryConfig, DynamicCanaryConfig}
use strimzi_canary.Security.{
  Sasl, AuthError, set_auth_config, Certificates, TlsConfig, new_tls_config,
}

pub record Versions : Type 1 where
  pub E : Type 0
  pub Version : Type 0
  pub parse_kafka_version : String → Result E Version

module _ (fl : Floats) (types : SaslTypes) (ce : Certificates) (vs : Versions) where
  -- the fields of a Sarama configuration that the program sets
  pub record SaramaConfig : Type 0 where
    pub version : vs.Version
    pub client_id : String
    pub manual_partitioner : Bool
    pub return_successes : Bool
    pub wait_for_all : Bool
    pub retry_max : ℕ
    pub return_errors : Bool
    pub tls_enable : Bool
    pub tls_config : Option (TlsConfig ce)
    pub sasl : Sasl

  -- An error of the two settings ends the program.
  abbrev pub or_exit : Option (TlsConfig ce) × Option ce.E → Outcome (Option (TlsConfig ce))
  or_exit (t, none) = ok t
  or_exit (t, some e) = crash fatal

  abbrev pub with_tls_if : Bool → CanaryConfig fl → SaramaConfig → Outcome SaramaConfig
  with_tls_if false c k = ok k
  with_tls_if true c k = do
    t ← or_exit (new_tls_config ce c)
    ok (record k { tls_enable = true; tls_config = t })

  unfoldable pub with_tls : CanaryConfig fl → SaramaConfig → Outcome SaramaConfig
  with_tls c k = with_tls_if c.tls_enabled c k

  abbrev pub authenticated : SaramaConfig → Option AuthError × Sasl → Outcome SaramaConfig
  authenticated k (none, s) = ok (record k { sasl = s })
  authenticated k (some e, s) = crash fatal

  unfoldable pub with_sasl : CanaryConfig fl → SaramaConfig → Outcome SaramaConfig
  with_sasl c k =
      if str_eq c.sasl_mechanism ""
      then ok k
      else authenticated k (set_auth_config fl types c k.sasl)

  abbrev pub with_version : CanaryConfig fl → SaramaConfig → vs.Version → SaramaConfig
  with_version c k v = record k {
    version = v;
    client_id = c.client_id;
    manual_partitioner = true;
    return_successes = true;
    wait_for_all = true;
    retry_max = 0;
    return_errors = true;
  }

  abbrev pub created :
      SaramaConfig → CanaryConfig fl → Result vs.E vs.Version → Outcome (Result vs.E SaramaConfig)
  created k c (error e) = ok (error e)
  created k c (value v) = do
    secured ← with_tls c (with_version c k v)
    k' ← with_sasl c secured
    ok (value k')

  -- `k` is Sarama's new configuration.
  unfoldable pub create_sarama_config :
      SaramaConfig → CanaryConfig fl → Outcome (Result vs.E SaramaConfig)
  unfolding with_tls with_sasl
  create_sarama_config k c = created k c (vs.parse_kafka_version c.kafka_version)

-- The verbosity of the logs, and whether Sarama's go to the standard output.
pub record Logs : Type 0 where
  pub verbosity : ℤ
  pub sarama_to_stdout : Bool

abbrev pub parsed_again : (ℤ → ℤ) → Option ℤ → ℤ → ℤ
parsed_again parse none v = v
parsed_again parse (some level) v = parse level

abbrev pub is_on : Option Bool → Bool
is_on none = false
is_on (some b) = b

-- `parse level` is the verbosity after the flags were parsed again, when `level` was set.
unfoldable pub apply_dynamic_config : (ℤ → ℤ) → DynamicCanaryConfig → Logs → Logs
apply_dynamic_config parse c l = record {
  verbosity = parsed_again parse c.verbosity_log_level l.verbosity;
  sarama_to_stdout = is_on c.sarama_log_enabled;
}
