-- ===== src/Config/Secrets.antt =====
-- What the text of a configuration tells of its secrets.
use Prim.Native.String.{String}
use strimzi_canary.Common.{◌≡◌}
use strimzi_canary.Common.Maps.{str_eq}
use strimzi_canary.Config.{SaslTypes, Floats, CanaryConfig, to_string}

pub record Secrets : Type 0 where
  pub tls_ca_cert : String
  pub tls_client_cert : String
  pub tls_client_key : String
  pub sasl_user : String
  pub sasl_password : String

module _ (fl : Floats) where
  abbrev pub with_secrets : Secrets → CanaryConfig fl → CanaryConfig fl
  with_secrets s c = record c {
    tls_ca_cert = s.tls_ca_cert;
    tls_client_cert = s.tls_client_cert;
    tls_client_key = s.tls_client_key;
    sasl_user = s.sasl_user;
    sasl_password = s.sasl_password;
  }

  abbrev pub SameEmpty : String → String → Type 0
  SameEmpty s t = str_eq s "" ≡ str_eq t ""

  -- The text of a configuration tells of its certificates, its key, its user and its password only
  -- which of them are empty: with others in their places, empty where these are, it is the same.
  pub to_string-with_secrets :
      (sasl : SaslTypes) (c : CanaryConfig fl) (s : Secrets)
      → SameEmpty s.tls_ca_cert c.tls_ca_cert
      → SameEmpty s.tls_client_cert c.tls_client_cert
      → SameEmpty s.tls_client_key c.tls_client_key
      → SameEmpty s.sasl_user c.sasl_user
      → SameEmpty s.sasl_password c.sasl_password
      → to_string fl sasl (with_secrets s c) ≡ to_string fl sasl c
  unfolding to_string
  to_string-with_secrets sasl c s ca cert key user password = simp (ca, cert, key, user, password)
