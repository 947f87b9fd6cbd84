-- ===== src/Security.antt =====
-- internal/security/auth.go and internal/security/security.go: SASL and TLS settings from the configuration.
-- Files, certificates and their pools are of Go's libraries, and parameters.
pub mod Auth
pub mod Tls
pub mod Sample
mod Tests
use Prim.Native.String.{String}
use strimzi_canary.Common.{
  Bool, true, false, not, ◌&&◌, ◌||◌, List, [], ◌∷◌, Option, none, some, if◌then◌else◌, Result,
  value, error,
}
use strimzi_canary.Common.Maps.{str_eq}
use strimzi_canary.Config.{SaslTypes, Floats, CanaryConfig}
use strimzi_canary.Config.Variables

pub data Hash : Type 0 where
  sha256 sha512 : Hash

-- Net.SASL of a Sarama configuration; `scram` is the hash of the client that the generator makes.
pub record Sasl : Type 0 where
  pub enable : Bool
  pub handshake_v1 : Bool
  pub mechanism : String
  pub user : String
  pub password : String
  pub scram : Option Hash

pub data AuthError : Type 0 where
  user_not_specified password_not_specified : AuthError
  mechanism_not_supported : String → AuthError

module _ (fl : Floats) (types : SaslTypes) where
  abbrev pub is_supported : String → Bool
  is_supported m =
      str_eq m types.plaintext || (str_eq m types.scram_sha256 || str_eq m types.scram_sha512)

  abbrev pub scram_client : String → Option Hash → Option Hash
  scram_client m before =
      if str_eq m types.scram_sha256
      then some sha256
      else if str_eq m types.scram_sha512
      then some sha512
      else before

  -- the error, if any, and the configuration as it is after the call
  unfoldable pub set_auth_config : CanaryConfig fl → Sasl → Option AuthError × Sasl
  set_auth_config c s =
      if is_supported c.sasl_mechanism
      then (if str_eq c.sasl_user ""
          then (some user_not_specified, s)
          else if str_eq c.sasl_password ""
          then (some password_not_specified, s)
          else (
            none,
            record {
              enable = true;
              handshake_v1 = true;
              mechanism = c.sasl_mechanism;
              user = c.sasl_user;
              password = c.sasl_password;
              scram = scram_client c.sasl_mechanism s.scram;
            },
          ))
      else (some (mechanism_not_supported c.sasl_mechanism), s)

-- What the operating system and Go's packages tls and x509 answer. `is_file` is whether os.Stat has no error.
pub record Certificates : Type 1 where
  pub E : Type 0
  pub Bytes : Type 0
  pub Pool : Type 0
  pub Certificate : Type 0
  pub is_file : String → Bool
  pub read_file : String → Result E Bytes
  pub bytes_of : String → Bytes
  pub system_cert_pool : Option Pool
  pub new_cert_pool : Pool
  pub append_certs_from_pem : Pool → Bytes → Option Pool
  pub x509_key_pair : Bytes → Bytes → Result E Certificate

module _ (ce : Certificates) where
  open ce use {E, Bytes, Pool, Certificate}

  pub record TlsConfig : Type 0 where
    pub root_cas : Option Pool
    pub certificates : List Certificate
    pub insecure_skip_verify : Bool

  -- An early return has no configuration, and an error that may be nil.
  pub data Returned {ℓ} (A : Type ℓ) : Type ℓ where
    going : A → Returned A
    returned : Option E → Returned A

  infixl 5 ◌>>=◌
  abbrev ◌>>=◌ {ℓ κ} : {A : Type ℓ} {B : Type κ} → Returned A → (A → Returned B) → Returned B
  going a >>= f = f a
  returned e >>= f = returned e

  abbrev pub if_no_error {ℓ} : {A : Type ℓ} → Result E A → Returned A
  if_no_error (value a) = going a
  if_no_error (error e) = returned (some e)

  -- The setting is a path or the text itself.
  unfoldable pub load_cert_key : String → Result E Bytes
  load_cert_key setting =
      if ce.is_file setting then ce.read_file setting else value (ce.bytes_of setting)

  abbrev pub or_new_pool : Option Pool → Pool
  or_new_pool none = ce.new_cert_pool
  or_new_pool (some p) = p

  -- Certificates that cannot be appended return the error of the load, which is nil.
  abbrev pub if_appended : Option Pool → Returned (Option Pool)
  if_appended none = returned none
  if_appended (some p) = going (some p)

  unfoldable pub add_ca_cert : String → Option Pool → Returned (Option Pool)
  unfolding load_cert_key
  add_ca_cert ca_cert pool = if str_eq ca_cert "" then going pool else do
    bytes ← if_no_error (load_cert_key ca_cert)
    if_appended (ce.append_certs_from_pem (or_new_pool pool) bytes)

  unfoldable pub client_certificates : String → String → Returned (List Certificate)
  unfolding load_cert_key
  client_certificates client_cert client_key =
      if not (str_eq client_cert "") && not (str_eq client_key "")
      then (do
        cert ← if_no_error (load_cert_key client_cert)
        key ← if_no_error (load_cert_key client_key)
        pair ← if_no_error (ce.x509_key_pair cert key)
        going (pair ∷ []))
      else going []

  -- both results: a configuration, if any, and an error, if any
  abbrev pub both : Returned TlsConfig → Option TlsConfig × Option E
  both (going t) = (some t, none)
  both (returned e) = (none, e)

  abbrev pub steps :
      {fl : Floats}
      → CanaryConfig fl
      → Returned (Option Pool)
      → Returned (List Certificate)
      → Returned TlsConfig
  steps c cas own = do
    pool ← cas
    certificates ← own
    going (record {
      root_cas = pool;
      certificates = certificates;
      insecure_skip_verify = c.tls_insecure_skip_verify;
    })

  unfoldable pub tls_steps : {fl : Floats} → CanaryConfig fl → Returned TlsConfig
  unfolding add_ca_cert client_certificates
  tls_steps c =
      steps c (add_ca_cert c.tls_ca_cert ce.system_cert_pool)
        (client_certificates c.tls_client_cert c.tls_client_key)

  unfoldable pub new_tls_config : {fl : Floats} → CanaryConfig fl → Option TlsConfig × Option E
  unfolding tls_steps
  new_tls_config c = both (tls_steps c)
