-- ===== src/Security/Auth.antt =====
-- SetAuthConfig: what it accepts, and what it changes.
use Prim.Native.String.{String}
use strimzi_canary.Common.{
  ◌≡◌, ◌≢◌, refl, true, false, ◌⊎◌, Option, none, some, Bool-cases, inl, inr,
}
use strimzi_canary.Common.Maps.{str_eq, string_eq}
use strimzi_canary.Config.{SaslTypes, Floats, CanaryConfig}
use strimzi_canary.Security.{
  Hash, sha256, sha512, Sasl, AuthError, user_not_specified, password_not_specified,
  mechanism_not_supported, is_supported, scram_client, set_auth_config,
}

module _ (fl : Floats) (types : SaslTypes) where
  -- the mechanisms that are supported
  abbrev pub IsMechanism : String → Type 0
  IsMechanism m = (m ≡ types.plaintext) ⊎ (m ≡ types.scram_sha256) ⊎ (m ≡ types.scram_sha512)

  -- the hash of the client's generator after the call, from the one before it: each SCRAM mechanism has its own,
  -- and a plain text leaves it
  abbrev pub Hashes : String → Option Hash → Option Hash → Type 0
  Hashes m before after =
      ((m ≡ types.scram_sha256) × (after ≡ some sha256))
      ⊎ ((m ≢ types.scram_sha256) × (m ≡ types.scram_sha512) × (after ≡ some sha512))
      ⊎ ((m ≢ types.scram_sha256)
          × (m ≢ types.scram_sha512)
          × (m ≡ types.plaintext)
          × (after ≡ before))

  -- what the result says of the configuration and of the settings before and after
  abbrev pub Authenticates : CanaryConfig fl → Sasl → Option AuthError × Sasl → Type 0
  Authenticates c s (none, t) =
      (c.sasl_user ≢ "")
      × (c.sasl_password ≢ "")
      × (t.enable ≡ true)
      × (t.handshake_v1 ≡ true)
      × (t.mechanism ≡ c.sasl_mechanism)
      × (t.user ≡ c.sasl_user)
      × (t.password ≡ c.sasl_password)
      × Hashes c.sasl_mechanism s.scram t.scram
  Authenticates c s (some user_not_specified, t) =
      IsMechanism c.sasl_mechanism × (c.sasl_user ≡ "") × (t ≡ s)
  Authenticates c s (some password_not_specified, t) =
      IsMechanism c.sasl_mechanism × (c.sasl_user ≢ "") × (c.sasl_password ≡ "") × (t ≡ s)
  Authenticates c s (some (mechanism_not_supported m), t) =
      (IsMechanism c.sasl_mechanism → ⊥) × (m ≡ c.sasl_mechanism) × (t ≡ s)

  ne_of : (s t : String) → str_eq s t ≡ false → s ≢ t
  ne_of s t h e = cc (h, (string_eq.beq_iff s t).1 e)

  eq_of : (s t : String) → str_eq s t ≡ true → s ≡ t
  eq_of s t h = (string_eq.beq_iff s t).0 h

  is_supported-IsMechanism : (m : String) → is_supported fl types m ≡ true → IsMechanism m
  is_supported-IsMechanism m h = elim (Bool-cases (str_eq m types.plaintext)) [
    | inl plain ↦ inl (eq_of m types.plaintext plain)
    | inr other ↦ elim (Bool-cases (str_eq m types.scram_sha256)) [
      | inl first ↦ inr (inl (eq_of m types.scram_sha256 first))
      | inr neither ↦ inr (inr (eq_of m types.scram_sha512 (rw (other, neither) at h)))
    ]
  ]

  no_mechanism : (m : String) → is_supported fl types m ≡ false → IsMechanism m → ⊥
  no_mechanism m h (inl e) = cc (rw ((string_eq.beq_iff m types.plaintext).1 e) at h)
  no_mechanism m h (inr (inl e)) = elim (Bool-cases (str_eq m types.plaintext)) [
    | inl plain ↦ cc (rw plain at h)
    | inr other ↦ cc (rw (other, (string_eq.beq_iff m types.scram_sha256).1 e) at h)
  ]
  no_mechanism m h (inr (inr e)) = elim (Bool-cases (str_eq m types.plaintext)) [
    | inl plain ↦ cc (rw plain at h)
    | inr other ↦ elim (Bool-cases (str_eq m types.scram_sha256)) [
      | inl first ↦ cc (rw (other, first) at h)
      | inr neither ↦ cc (rw (other, neither, (string_eq.beq_iff m types.scram_sha512).1 e) at h)
    ]
  ]

  scram_client-Hashes :
      (m : String) (before : Option Hash)
      → IsMechanism m
      → Hashes m before (scram_client fl types m before)
  scram_client-Hashes m before h = elim (Bool-cases (str_eq m types.scram_sha256)) [
    | inl first ↦ rw first (inl (eq_of m types.scram_sha256 first, refl))
    | inr other ↦ elim (Bool-cases (str_eq m types.scram_sha512)) [
      | inl second ↦
          rw (other, second)
            (inr (inl (ne_of m types.scram_sha256 other, eq_of m types.scram_sha512 second, refl)))
      | inr neither ↦
          rw (other, neither)
            (inr (
              inr (
                ne_of m types.scram_sha256 other,
                ne_of m types.scram_sha512 neither,
                left_over other neither h,
                refl,
              )))
    ]
  ]
    where
      left_over :
          str_eq m types.scram_sha256 ≡ false
          → str_eq m types.scram_sha512 ≡ false
          → IsMechanism m
          → m ≡ types.plaintext
      left_over a b (inl e) = e
      left_over a b (inr (inl e)) = absurd (ne_of m types.scram_sha256 a e)
      left_over a b (inr (inr e)) = absurd (ne_of m types.scram_sha512 b e)

  -- SetAuthConfig has no error exactly when the mechanism is one of PLAIN and the two SCRAM ones, and a user and a
  -- password are given: then SASL is enabled with them, and the generator makes clients of the hash of the
  -- SCRAM mechanism, or is left as it was for PLAIN. With an error, which names what is missing or not
  -- supported, it changes nothing.
  pub set_auth_config-Authenticates :
      (c : CanaryConfig fl) (s : Sasl) → Authenticates c s (set_auth_config fl types c s)
  unfolding set_auth_config
  set_auth_config-Authenticates c s = elim (Bool-cases (is_supported fl types c.sasl_mechanism)) [
    | inr unknown ↦ rw unknown (no_mechanism c.sasl_mechanism unknown, refl, refl)
    | inl known ↦
        let mechanism = is_supported-IsMechanism c.sasl_mechanism known in
        elim (Bool-cases (str_eq c.sasl_user "")) [
          | inl no_user ↦ rw (known, no_user) (mechanism, eq_of c.sasl_user "" no_user, refl)
          | inr user ↦ elim (Bool-cases (str_eq c.sasl_password "")) [
            | inl no_password ↦
                rw (known, user, no_password)
                  (mechanism, ne_of c.sasl_user "" user, eq_of c.sasl_password "" no_password, refl)
            | inr password ↦
                rw (known, user, password)
                  (
                    ne_of c.sasl_user "" user,
                    ne_of c.sasl_password "" password,
                    refl,
                    refl,
                    refl,
                    refl,
                    refl,
                    scram_client-Hashes c.sasl_mechanism s.scram mechanism,
                  )
          ]
        ]
  ]
