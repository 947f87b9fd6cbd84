-- ===== src/Security/Tests.antt =====
-- Settings with a password, with certificates in a file, and with a certificate that is none.
use strimzi_canary.Common.{◌≡◌, refl, true, false, [], ◌∷◌, none, some}
use strimzi_canary.Config.{CanaryConfig}
use strimzi_canary.Config.Sample.{whole, sasl, read_config}
use strimzi_canary.Security.{sha256, password_not_specified, set_auth_config, new_tls_config}
use strimzi_canary.Security.Sample.{unset, files}
use strimzi_canary.Security.Auth.{Authenticates, set_auth_config-Authenticates}
use strimzi_canary.Security.Tls.{Configured, new_tls_config-Configured}

abbrev scram : CanaryConfig whole
scram = record read_config {
  sasl_mechanism = "SCRAM-SHA-256";
  sasl_user = "u";
  sasl_password = "p";
}

scram_set : (set_auth_config whole sasl scram unset).1 ≡ record {
  enable = true;
  handshake_v1 = true;
  mechanism = "SCRAM-SHA-256";
  user = "u";
  password = "p";
  scram = some sha256;
}
unfolding set_auth_config
scram_set = refl

no_password :
    (set_auth_config whole sasl (record scram { sasl_password = "" }) unset).0
    ≡ some password_not_specified
unfolding set_auth_config
no_password = refl

set_auth_config-Authenticates_example :
    Authenticates whole sasl scram unset (set_auth_config whole sasl scram unset)
set_auth_config-Authenticates_example = set_auth_config-Authenticates whole sasl scram unset

abbrev in_file : CanaryConfig whole
in_file = record read_config {
  tls_ca_cert = "ca.crt";
  tls_client_cert = "cert";
  tls_client_key = "key";
}

in_file_trusted : new_tls_config files in_file ≡ (
  some (record {
    root_cas = some ("authority" ∷ []);
    certificates = ("cert", "key") ∷ [];
    insecure_skip_verify = false;
  }),
  none,
)
unfolding new_tls_config
in_file_trusted = refl

broken_returns_nothing :
    new_tls_config files (record in_file { tls_ca_cert = "broken" }) ≡ (none, none)
unfolding new_tls_config
broken_returns_nothing = refl

new_tls_config-Configured_example : Configured files in_file (new_tls_config files in_file)
new_tls_config-Configured_example = new_tls_config-Configured files in_file
