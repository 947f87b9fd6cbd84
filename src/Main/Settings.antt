-- ===== src/Main/Settings.antt =====
-- What the settings of the security become in the Sarama configuration.
use strimzi_canary.Common.{
  ◌≡◌, refl, sym, ap, ◌∙◌, Bool, true, false, Option, none, some, if◌then◌else◌, Bool-cases, inl,
  inr, ok, Ensures, >>=-Ensures, Ensures-ok, Result, value, error,
}
use strimzi_canary.Common.Maps.{str_eq}
use mathlib.Core.Path.{subst}
use strimzi_canary.Config.{SaslTypes, Floats, CanaryConfig}
use strimzi_canary.Security.{
  Sasl, AuthError, set_auth_config, Certificates, TlsConfig, load_cert_key, or_new_pool,
  new_tls_config,
}
use strimzi_canary.Security.Auth.{Authenticates, set_auth_config-Authenticates}
use strimzi_canary.Security.Tls.{Configured, new_tls_config-Configured}
use strimzi_canary.Main.{
  Versions, SaramaConfig, or_exit, with_tls_if, with_tls, created, authenticated, with_sasl,
  with_version, create_sarama_config,
}

module _ (fl : Floats) (types : SaslTypes) (ce : Certificates) (vs : Versions) where
  -- with a mechanism, SASL as SetAuthConfig accepts it, and as it was with none
  pub record Secured (c : CanaryConfig fl) (before after : Sasl) : Type 0 where
    pub chosen :
        if str_eq c.sasl_mechanism ""
        then after ≡ before
        else Authenticates fl types c before (none, after)

  abbrev OnlySasl :
      CanaryConfig fl → SaramaConfig fl types ce vs → SaramaConfig fl types ce vs → Type 0
  OnlySasl c k k' = Secured c k.sasl k'.sasl × (k' ≡ record k { sasl = k'.sasl })

  with_sasl-OnlySasl :
      (c : CanaryConfig fl) (k : SaramaConfig fl types ce vs)
      → Ensures (OnlySasl c k) (with_sasl fl types ce vs c k)
  unfolding with_sasl
  with_sasl-OnlySasl c k = elim (Bool-cases (str_eq c.sasl_mechanism "")) [
    | inl unset ↦ rw unset (record { holds = (record { chosen = rw unset refl }, refl) })
    | inr set ↦ rw set (
        go set (set_auth_config fl types c k.sasl)
          (set_auth_config-Authenticates fl types c k.sasl))
  ]
    where
      go :
          str_eq c.sasl_mechanism "" ≡ false
          → (r : Option AuthError × Sasl) → Authenticates fl types c k.sasl r
          → Ensures (OnlySasl c k) (authenticated fl types ce vs k r)
      go set (none, s) h = record { holds = (record { chosen = rw set h }, refl) }
      go set (some e, s) h = record { holds = tt }

  -- with TLS a configuration as NewTLSConfig gives it, and as it was without
  abbrev pub Enabled :
      Bool → CanaryConfig fl → Bool × Option (TlsConfig ce) → Bool × Option (TlsConfig ce) → Type 0
  Enabled true c before after = (after.0 ≡ true) × Configured ce c (after.1, none)
  Enabled false c before after = after ≡ before

  abbrev pub tls_of : SaramaConfig fl types ce vs → Bool × Option (TlsConfig ce)
  tls_of k = (k.tls_enable, k.tls_config)

  abbrev SetIf :
      Bool → CanaryConfig fl → SaramaConfig fl types ce vs → SaramaConfig fl types ce vs → Type 0
  SetIf b c before after =
      Enabled b c (tls_of before) (tls_of after)
      × (after.sasl ≡ before.sasl)
      × (after.version ≡ before.version)
      × (after.wait_for_all ≡ before.wait_for_all)

  with_tls-SetIf :
      (b : Bool) (c : CanaryConfig fl) (k : SaramaConfig fl types ce vs)
      → Ensures (SetIf b c k) (with_tls_if fl types ce vs b c k)
  with_tls-SetIf false c k = record { holds = (refl, refl, refl, refl) }
  with_tls-SetIf true c k =
      >>=-Ensures (SetIf true c k) (or_exit fl types ce vs (new_tls_config ce c)) _ λ t run.
        record {
          holds = (
            (refl, ended (new_tls_config ce c) t (new_tls_config-Configured ce c) run),
            refl,
            refl,
            refl,
          );
        }
    where
      ended :
          (r : Option (TlsConfig ce) × Option ce.E) (t : Option (TlsConfig ce))
          → Configured ce c r
          → or_exit fl types ce vs r ≡ ok t
          → Configured ce c (t, none)
      ended (t', none) t h run = subst (λ u. Configured ce c (u, none)) (cc run) h
      ended (t', some e) t h run = absurd (cc run)

  -- what holds of a Sarama configuration that the program goes on with
  pub record Secure (c : CanaryConfig fl) (before after : SaramaConfig fl types ce vs)
      : Type 0 where
    pub sasl : Secured c before.sasl after.sasl
    pub tls : Enabled c.tls_enabled c (tls_of before) (tls_of after)
    pub version : vs.parse_kafka_version c.kafka_version ≡ value after.version
    pub waits : after.wait_for_all ≡ true

  abbrev IfValue :
      CanaryConfig fl
      → SaramaConfig fl types ce vs
      → Result vs.E (SaramaConfig fl types ce vs)
      → Type 0
  IfValue c k (value k') = Secure c k k'
  IfValue c k (error e) = vs.parse_kafka_version c.kafka_version ≡ error e

  create_sarama_config-IfValue :
      (k : SaramaConfig fl types ce vs) (c : CanaryConfig fl)
      → Ensures (IfValue c k) (create_sarama_config fl types ce vs k c)
  unfolding create_sarama_config
  create_sarama_config-IfValue k c = go (vs.parse_kafka_version c.kafka_version) refl
    where
      go :
          (r : Result vs.E vs.Version)
          → vs.parse_kafka_version c.kafka_version ≡ r
          → Ensures (IfValue c k) (created fl types ce vs k c r)
      go (error e) parses = record { holds = parses }
      go (value v) parses =
          let k₁ = with_version fl types ce vs c k v in
          >>=-Ensures (IfValue c k) (with_tls fl types ce vs c k₁) _ λ k₂ tls.
            >>=-Ensures (IfValue c k) (with_sasl fl types ce vs c k₂) _ λ k₃ sasl.
              let (tls_set, same_sasl, same_version, same_waits) =
                Ensures-ok (SetIf c.tls_enabled c k₁) _ (with_tls-SetIf c.tls_enabled c k₁) k₂
                  tls in
              let (chosen, kept) = Ensures-ok (OnlySasl c k₂) _ (with_sasl-OnlySasl c k₂) k₃ sasl in
              record {
                holds = record {
                  sasl = subst (λ s. Secured c s k₃.sasl) same_sasl chosen;
                  tls = subst (Enabled c.tls_enabled c (tls_of k)) (sym (ap tls_of kept)) tls_set;
                  version = parses ∙ ap value (sym (ap (λ j. j.version) kept ∙ same_version));
                  waits = ap (λ j. j.wait_for_all) kept ∙ same_waits;
                };
              }

  -- If createSaramaConfig returns a configuration, it is of the version that was asked for, waits for all replicas,
  -- has SASL as SetAuthConfig accepts it if a mechanism is given, and with TLS what NewTLSConfig returns
  -- with no error; without, it has what it had.
  pub create_sarama_config-Secure :
      (k : SaramaConfig fl types ce vs) (c : CanaryConfig fl) (k' : SaramaConfig fl types ce vs)
      → create_sarama_config fl types ce vs k c ≡ ok (value k')
      → Secure c k k'
  create_sarama_config-Secure k c k' h =
      Ensures-ok (IfValue c k) _ (create_sarama_config-IfValue k c) (value k') h

  new_tls_config_unappended :
      (c : CanaryConfig fl) (bytes : ce.Bytes)
      → str_eq c.tls_ca_cert "" ≡ false
      → load_cert_key ce c.tls_ca_cert ≡ value bytes
      → ce.append_certs_from_pem (or_new_pool ce ce.system_cert_pool) bytes ≡ none
      → new_tls_config ce c ≡ (none, none)
  unfolding new_tls_config
  new_tls_config_unappended c bytes given loaded refused = rw (given, loaded, refused) refl

  -- With TLS and no SASL, a certificate of an authority that is loaded but cannot be appended does not
  -- stop the program: the Sarama configuration has TLS enabled and no TLS settings at all.
  pub create_sarama_config_drops_ca :
      (k : SaramaConfig fl types ce vs) (c : CanaryConfig fl) (v : vs.Version) (bytes : ce.Bytes)
      → c.tls_enabled ≡ true
      → vs.parse_kafka_version c.kafka_version ≡ value v
      → str_eq c.sasl_mechanism "" ≡ true
      → str_eq c.tls_ca_cert "" ≡ false
      → load_cert_key ce c.tls_ca_cert ≡ value bytes
      → ce.append_certs_from_pem (or_new_pool ce ce.system_cert_pool) bytes ≡ none
      → (k' : SaramaConfig fl types ce vs) × (create_sarama_config fl types ce vs k c
          ≡ ok (value k'))
        × (k'.tls_enable ≡ true)
        × (k'.tls_config ≡ none)
  unfolding create_sarama_config
  create_sarama_config_drops_ca k c v bytes on parses unset given loaded refused =
      let k₁ = with_version fl types ce vs c k v in
      let k₂ : SaramaConfig fl types ce vs = record k₁ { tls_enable = true; tls_config = none } in
      let tls : with_tls fl types ce vs c k₁ ≡ ok k₂ =
        ap (λ b. with_tls_if fl types ce vs b c k₁) on
        ∙ rw (new_tls_config_unappended c bytes given loaded refused) refl in
      let sasl : with_sasl fl types ce vs c k₂ ≡ ok k₂ = rw unset refl in
      (k₂, ap (created fl types ce vs k c) parses ∙ rw (tls, sasl) refl, refl, refl)
