-- ===== src/Connection/Tally.antt =====
-- What a check of the connections adds to the metrics.
use strimzi_canary.Common.{
  ℕ, ◌+◌, ◌≡◌, refl, Bool, true, false, not, ◌&&◌, List, [], ◌∷◌, ◌++◌, none, some, if◌then◌else◌,
  length, ok, crash, nil_dereference, ◌==◌, arith,
}
use strimzi_canary.Common.Int.{ℤ, pos, eqb_ℤ}
use strimzi_canary.Topic.Types.{Errors, sarama, is_disconnection}
use strimzi_canary.Connection.{
  ConnectionService, Metric, connection, deprecated_connection_error, Event, describe_cluster,
  close_admin, add, Answers, check_brokers, check_broker, is_dynamic_scaling_enabled, close,
  connection_check,
}

abbrev same_bool : Bool → Bool → Bool
same_bool true b = b
same_bool false b = not b

abbrev same_metric : Metric → Metric → Bool
same_metric connection connection = true
same_metric deprecated_connection_error deprecated_connection_error = true
same_metric m n = false

abbrev amount : Metric → ℕ → Bool → Event → ℕ
amount m id c (add n j d k) = if same_metric m n && (id == j && same_bool c d) then k else 0
amount m id c e = 0

-- what the events add to a counter
abbrev pub total : Metric → ℕ → Bool → List Event → ℕ
total m id c [] = 0
total m id c (e ∷ es) = amount m id c e + total m id c es

total-append :
    (m : Metric) (id : ℕ) (c : Bool) (xs ys : List Event)
    → total m id c (xs ++ ys) ≡ total m id c xs + total m id c ys
total-append m id c [] ys = omega arith
total-append m id c (x ∷ xs) ys = omega (arith, total-append m id c xs ys)

module _ (er : Errors) (expected_cluster_size : ℤ) (ans : Answers er) where
  -- how many of the brokers, from place `i` on, have the id and answered so
  abbrev pub answering : ℕ → Bool → ℕ → List ℕ → ℕ
  answering id c i [] = 0
  answering id c i (j ∷ js) =
      (if id == j && same_bool c (ans.connected i) then 1 else 0) + answering id c (i + 1) js

  total-check_broker_connection :
      (id : ℕ) (c : Bool) (j : ℕ) (d : Bool) (t : ℤ)
      → total connection id c (check_broker er expected_cluster_size ans j d t)
        ≡ (if id == j && same_bool c d then 1 else 0)
  total-check_broker_connection id true j true t = ground arith
  total-check_broker_connection id true j false t = ground arith
  total-check_broker_connection id false j true t = ground arith
  total-check_broker_connection id false j false t = ground arith

  total-check_broker_error :
      (id : ℕ) (j : ℕ) (d : Bool) (t : ℤ)
      → total deprecated_connection_error id false (check_broker er expected_cluster_size ans j d t)
        ≡ (if id == j && same_bool false d then 1 else 0)
  total-check_broker_error id j true t = ground arith
  total-check_broker_error id j false t = ground arith

  total-check_brokers :
      (id : ℕ) (c : Bool) (i : ℕ) (js : List ℕ)
      → total connection id c (check_brokers er expected_cluster_size ans i js)
        ≡ answering id c i js
  unfolding check_brokers
  total-check_brokers id c i [] = refl
  total-check_brokers id c i (j ∷ js) =
      let this = check_broker er expected_cluster_size ans j (ans.connected i) (ans.elapsed i) in
      let rest = check_brokers er expected_cluster_size ans (i + 1) js in
      omega (
        total-append connection id c this rest,
        total-check_broker_connection id c j (ans.connected i) (ans.elapsed i),
        total-check_brokers id c (i + 1) js,
        arith,
      )

  total-check_brokers_error :
      (id i : ℕ) (js : List ℕ)
      → total deprecated_connection_error id false (check_brokers er expected_cluster_size ans i js)
        ≡ answering id false i js
  unfolding check_brokers
  total-check_brokers_error id i [] = refl
  total-check_brokers_error id i (j ∷ js) =
      let this = check_broker er expected_cluster_size ans j (ans.connected i) (ans.elapsed i) in
      let rest = check_brokers er expected_cluster_size ans (i + 1) js in
      omega (
        total-append deprecated_connection_error id false this rest,
        total-check_broker_error id j (ans.connected i) (ans.elapsed i),
        total-check_brokers_error id (i + 1) js,
        arith,
      )

  -- the counters that a check of these brokers leaves, from no count at all
  pub record Accounted (brokers : List ℕ) (es : List Event) : Type 0 where
    pub connections : (id : ℕ) (c : Bool) → total connection id c es ≡ answering id c 0 brokers
    pub errors :
        (id : ℕ) → total deprecated_connection_error id false es ≡ answering id false 0 brokers

  -- A check with an admin client, when the expected number of brokers is known, asks the cluster for
  -- nothing, leaves the service as it was, and adds to the connections of every id and outcome how many
  -- of the brokers have that id and that outcome, and to the connection errors how many failed.
  pub connection_check-Accounted :
      (cs : ConnectionService)
      → cs.admin ≡ true
      → is_dynamic_scaling_enabled er expected_cluster_size ans ≡ false
      → eqb_ℤ expected_cluster_size (pos (length cs.brokers)) ≡ true
      → (es : List Event) × (connection_check er expected_cluster_size ans cs ≡ (es, ok cs))
        × Accounted cs.brokers es
  unfolding connection_check
  connection_check-Accounted cs opened fixed met = (
    check_brokers er expected_cluster_size ans 0 cs.brokers,
    rw (opened, fixed, met) refl,
    record {
      connections = λ id c. total-check_brokers id c 0 cs.brokers;
      errors = λ id. total-check_brokers_error id 0 cs.brokers;
    },
  )

  -- When the scaling is dynamic and a check with an admin client loses its connection as it asks for the
  -- brokers, it closes the client without a panic, and Close panics after it.
  pub connection_check-close :
      (cs : ConnectionService) (brokers : List ℕ) (e : er.E)
      → cs.admin ≡ true
      → is_dynamic_scaling_enabled er expected_cluster_size ans ≡ true
      → ans.described ≡ (brokers, some e)
      → is_disconnection er (sarama e) ≡ true
      → ans.admin_closed ≡ none
      → (cs' : ConnectionService) × (connection_check er expected_cluster_size ans cs
          ≡ (describe_cluster ∷ close_admin ∷ [], ok cs'))
        × (close er expected_cluster_size ans cs' ≡ ([], crash nil_dereference))
  unfolding connection_check close
  connection_check-close cs brokers e opened dynamic lost disconnected closed = (
    record { admin = false; brokers = brokers },
    rw (opened, dynamic, lost, disconnected, closed) refl,
    refl,
  )
