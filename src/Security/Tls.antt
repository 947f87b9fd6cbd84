-- ===== src/Security/Tls.antt =====
-- NewTLSConfig: which certificates a configuration has, and when there is none.
use strimzi_canary.Common.{
  ◌≡◌, ◌≢◌, refl, sym, ◌⊎◌, inl, inr, true, false, not, ◌&&◌, List, [], ◌∷◌, Option, none, some,
  Bool-cases, Option-cases, Result-cases, value, error,
}
use Prim.Native.String.{String}
use strimzi_canary.Common.Maps.{str_eq, string_eq}
use strimzi_canary.Config.{Floats, CanaryConfig}
use strimzi_canary.Security.{
  Certificates, TlsConfig, Returned, going, returned, load_cert_key, or_new_pool, add_ca_cert,
  client_certificates, both, steps, tls_steps, new_tls_config,
}

module _ (ce : Certificates) {fl : Floats} (c : CanaryConfig fl) where
  -- the system's pool, with the authority's certificates if they are given
  abbrev pub Trusts : Option ce.Pool → Type 0
  Trusts pool =
      ((c.tls_ca_cert ≡ "") × (pool ≡ ce.system_cert_pool))
      ⊎ ((c.tls_ca_cert ≢ "")
          × (bytes : ce.Bytes) × (load_cert_key ce c.tls_ca_cert ≡ value bytes)
          × (pool ≡ ce.append_certs_from_pem (or_new_pool ce ce.system_cert_pool) bytes)
          × (pool ≢ none))

  abbrev pub GivesOwn : Type 0
  GivesOwn = (c.tls_client_cert ≢ "") × (c.tls_client_key ≢ "")

  -- the client's certificate, if both it and its key are given
  abbrev pub Presents : List ce.Certificate → Type 0
  Presents certificates =
      (((c.tls_client_cert ≡ "") ⊎ (c.tls_client_key ≡ "")) × (certificates ≡ []))
      ⊎ (GivesOwn
          × (cert : ce.Bytes) × (key : ce.Bytes) × (pair : ce.Certificate) × (load_cert_key ce
                c.tls_client_cert
              ≡ value cert)
          × (load_cert_key ce c.tls_client_key ≡ value key)
          × (ce.x509_key_pair cert key ≡ value pair)
          × (certificates ≡ pair ∷ []))

  -- what an early return comes from
  abbrev pub Refused : Option ce.E → Type 0
  Refused none =
      (c.tls_ca_cert ≢ "")
      × (bytes : ce.Bytes) × (load_cert_key ce c.tls_ca_cert ≡ value bytes)
      × (ce.append_certs_from_pem (or_new_pool ce ce.system_cert_pool) bytes ≡ none)
  Refused (some e) =
      ((c.tls_ca_cert ≢ "") × (load_cert_key ce c.tls_ca_cert ≡ error e))
      ⊎ (GivesOwn × (load_cert_key ce c.tls_client_cert ≡ error e))
      ⊎ (GivesOwn
          × (cert : ce.Bytes) × (load_cert_key ce c.tls_client_cert ≡ value cert)
          × (load_cert_key ce c.tls_client_key ≡ error e))
      ⊎ (GivesOwn
          × (cert : ce.Bytes) × (key : ce.Bytes) × (load_cert_key ce c.tls_client_cert ≡ value cert)
          × (load_cert_key ce c.tls_client_key ≡ value key)
          × (ce.x509_key_pair cert key ≡ error e))

  abbrev Tells {ℓ} : {A : Type ℓ} → (A → Type 0) → Returned ce A → Type 0
  Tells Q (going a) = Q a
  Tells Q (returned e) = Refused e

  ne_of : (s t : String) → str_eq s t ≡ false → s ≢ t
  ne_of s t h e = cc (h, (string_eq.beq_iff s t).1 e)

  add_ca_cert-Tells : Tells Trusts (add_ca_cert ce c.tls_ca_cert ce.system_cert_pool)
  unfolding add_ca_cert
  add_ca_cert-Tells = elim (Bool-cases (str_eq c.tls_ca_cert "")) [
    | inl empty ↦ rw empty (inl ((string_eq.beq_iff c.tls_ca_cert "").0 empty, refl))
    | inr given ↦
        let is_given = ne_of c.tls_ca_cert "" given in
        elim (Result-cases (load_cert_key ce c.tls_ca_cert)) [
          | inl (e, unread) ↦ rw (given, unread) (inl (is_given, unread))
          | inr (bytes, loaded) ↦
              elim (Option-cases
                (ce.append_certs_from_pem (or_new_pool ce ce.system_cert_pool) bytes)) [
                  | inl refused ↦ rw (given, loaded, refused) (is_given, bytes, loaded, refused)
                  | inr (pool, appended) ↦
                      rw (given, loaded, appended)
                        (inr (is_given, bytes, loaded, sym appended, λ h. cc h))
                ]
        ]
  ]

  -- what the test of the two settings decides
  own-cases :
      (((not (str_eq c.tls_client_cert "") && not (str_eq c.tls_client_key "")) ≡ true) × GivesOwn)
      ⊎ (((not (str_eq c.tls_client_cert "") && not (str_eq c.tls_client_key "")) ≡ false)
          × ((c.tls_client_cert ≡ "") ⊎ (c.tls_client_key ≡ "")))
  own-cases = elim (Bool-cases (str_eq c.tls_client_cert "")) [
    | inl no_cert ↦ inr (rw no_cert refl, inl ((string_eq.beq_iff c.tls_client_cert "").0 no_cert))
    | inr cert ↦ elim (Bool-cases (str_eq c.tls_client_key "")) [
      | inl no_key ↦
          inr (rw (cert, no_key) refl, inr ((string_eq.beq_iff c.tls_client_key "").0 no_key))
      | inr key ↦
          inl
            (rw (cert, key) refl, (ne_of c.tls_client_cert "" cert, ne_of c.tls_client_key "" key))
    ]
  ]

  client_certificates-Tells :
      Tells Presents (client_certificates ce c.tls_client_cert c.tls_client_key)
  unfolding client_certificates
  client_certificates-Tells = elim own-cases [
    | inr (absent, which) ↦ rw absent (inl (which, refl))
    | inl (given, own) ↦ elim (Result-cases (load_cert_key ce c.tls_client_cert)) [
      | inl (e, unread) ↦ rw (given, unread) (inr (inl (own, unread)))
      | inr (cert, cert_loaded) ↦ elim (Result-cases (load_cert_key ce c.tls_client_key)) [
        | inl (e, unread) ↦
            rw (given, cert_loaded, unread) (inr (inr (inl (own, cert, cert_loaded, unread))))
        | inr (key, key_loaded) ↦ elim (Result-cases (ce.x509_key_pair cert key)) [
          | inl (e, unpaired) ↦
              rw (given, cert_loaded, key_loaded, unpaired)
                (inr (inr (inr (own, cert, key, cert_loaded, key_loaded, unpaired))))
          | inr (pair, paired) ↦
              rw (given, cert_loaded, key_loaded, paired)
                (inr (own, cert, key, pair, cert_loaded, key_loaded, paired, refl))
        ]
      ]
    ]
  ]

  abbrev pub Configured : Option (TlsConfig ce) × Option ce.E → Type 0
  Configured (some t, none) =
      Trusts t.root_cas
      × Presents t.certificates
      × (t.insecure_skip_verify ≡ c.tls_insecure_skip_verify)
  Configured (some t, some e) = ⊥
  Configured (none, e) = Refused e

  both-Configured :
      (cas : Returned ce (Option ce.Pool)) (own : Returned ce (List ce.Certificate))
      → Tells Trusts cas
      → Tells Presents own
      → Configured (both ce (steps ce c cas own))
  both-Configured (going pool) (going certificates) h k = (h, k, refl)
  both-Configured (going pool) (returned none) h k = k
  both-Configured (going pool) (returned (some e)) h k = k
  both-Configured (returned none) own h k = h
  both-Configured (returned (some e)) own h k = h

  -- NewTLSConfig returns either a configuration and no error, which trusts the system's authorities and the given
  -- one, if one is, presents a certificate exactly if it and its key are given, and skips the
  -- verification as it is told to; or the error of loading a setting that is given or of pairing the
  -- certificate with its key; or neither, if a certificate of an authority is given, was loaded and
  -- could not be appended.
  pub new_tls_config-Configured : Configured (new_tls_config ce c)
  unfolding new_tls_config tls_steps
  new_tls_config-Configured =
      both-Configured (add_ca_cert ce c.tls_ca_cert ce.system_cert_pool)
        (client_certificates ce c.tls_client_cert c.tls_client_key) add_ca_cert-Tells
        client_certificates-Tells
