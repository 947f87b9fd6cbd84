-- ===== src/Topic/Found.antt =====
-- What becomes of a topic that is missing, and of one that is there.
use strimzi_canary.Common.{
  ℕ, ◌≡◌, refl, sym, ap, ◌∙◌, Bool, true, false, not, ◌&&◌, ◌||◌, List, [], ◌∷◌, ◌++◌,
  if◌then◌else◌, ◌==◌, length, ok, Result, value, append-nil,
}
use mathlib.Core.Path.{subst}
use strimzi_canary.Assign.{Broker, requested_assignments}
use strimzi_canary.Topic.Metadata.{current_assignments, current_leaders, creation_config}
use strimzi_canary.Topic.Types.{
  Errors, TopicSettings, TopicService, TopicReconcileResult, Event, describe_topics, create_topic,
  alter_config, TopicMetadata, Answers, done,
}
use strimzi_canary.Topic.{
  empty_result, logged, refreshing, is_dynamic_reassignment_enabled, has_expected_size,
  first_of_metadata, describe_canary_topic, create_missing, alter_topic_configuration,
  reconcile_existing, Reconciled,
}
use strimzi_canary.Topic.Gives.{
  Gives, Quietly, if-Gives, map-Gives, bind-Gives, quiet-Gives, lift-Gives,
}
use strimzi_canary.Topic.Altered.{
  answered-Gives, acknowledged-Gives, moves, Altered, alter_topic_assignments-Gives,
}

module _ (er : Errors) (cfg : TopicSettings) (ans : Answers er) (fuel : ℕ) where
  -- The answer to a request that describes the topic.
  abbrev pub Describes : Result er.E (List (TopicMetadata er)) → TopicMetadata er → Type 0
  Describes answer md = (rest : List (TopicMetadata er)) × (answer ≡ value (md ∷ rest))

  first-Gives :
      (answer : Result er.E (List (TopicMetadata er))) (ms : List (TopicMetadata er))
      → answer ≡ value ms
      → Gives (Quietly (Describes answer)) (first_of_metadata er cfg ans fuel ms)
  first-Gives answer [] e = record { gives = tt }
  first-Gives answer (m ∷ ms) e = record { gives = (refl, (ms, e)) }

  pub describe-Gives :
      (svc : TopicService) (r : TopicReconcileResult)
      (answer : Result er.E (List (TopicMetadata er)))
      → Gives (Quietly (Describes answer)) (describe_canary_topic er cfg ans fuel svc r answer)
  unfolding describe_canary_topic
  describe-Gives svc r answer =
      quiet-Gives (λ ms. answer ≡ value ms) (Quietly (Describes answer)) _ _
        (answered-Gives er cfg ans fuel (describe_topics cfg.topic) _ svc r answer refl)
        λ ms e. first-Gives answer ms e

  -- A topic that was missing is created with the assignments for the brokers, and described again.
  pub record Created (brokers : List Broker) (asked : List Event) (r : TopicReconcileResult)
      : Type 0 where
    pub allowed :
        (is_dynamic_reassignment_enabled er cfg ans fuel
          || has_expected_size er cfg ans fuel brokers)
        ≡ true
    pub min_isr : ℕ
    pub requested : requested_assignments 0 brokers ≡ ok (r.assignments, min_isr)
    pub changed :
        asked ≡ create_topic cfg.topic r.assignments (creation_config cfg.topic_config min_isr) ∷ []
    pub now : TopicMetadata er
    pub described : Describes ans.described_created now
    pub leaders_are : r.leaders ≡ current_leaders now.partitions []
    pub no_refresh : r.refresh_producer_metadata ≡ false

  -- whether the partitions of a topic that is there are moved
  abbrev pub reassigns : Bool → List Broker → Bool
  reassigns initialized brokers =
      is_dynamic_reassignment_enabled er cfg ans fuel
      || (not initialized && has_expected_size er cfg ans fuel brokers)

  -- the change of the configuration, of a first reconcile with one
  abbrev pub configures : Bool → List Event
  configures initialized =
      if initialized
      then []
      else if length cfg.topic_config == 0
      then []
      else alter_config cfg.topic cfg.topic_config ∷ []

  abbrev pub Assigned :
      Bool → ℕ → List Broker → TopicMetadata er → List Event → TopicReconcileResult → Type 0
  Assigned true n brokers md asked r =
      (isr : ℕ) × (requested_assignments n brokers ≡ ok (r.assignments, isr))
      × (asked ≡ moves er cfg ans fuel n brokers r.assignments)
      × (r.refresh_producer_metadata ≡ not (length brokers == n))
  Assigned false n brokers md asked r =
      (r.assignments ≡ current_assignments md.partitions [])
      × (asked ≡ [])
      × (r.refresh_producer_metadata ≡ false)

  -- A topic that is there keeps its partitions, or is moved to the assignments for the brokers.
  pub record Kept (initialized : Bool) (brokers : List Broker) (md : TopicMetadata er)
      (asked : List Event) (r : TopicReconcileResult) : Type 0 where
    pub moved : List Event
    pub changed : asked ≡ configures initialized ++ moved
    pub assigned :
        Assigned (reassigns initialized brokers) (length md.partitions) brokers md moved r
    pub leaders_are : r.leaders ≡ current_leaders md.partitions []

  pub create_missing-Gives :
      (svc : TopicService) (brokers : List Broker) (md : TopicMetadata er)
      → Gives (λ c (svc', r). Created brokers c r) (create_missing er cfg ans fuel svc brokers md)
  unfolding create_missing
  create_missing-Gives svc brokers md =
      if-Gives (λ c (svc', r). Created brokers c r)
        (is_dynamic_reassignment_enabled er cfg ans fuel
          || has_expected_size er cfg ans fuel brokers)
        _ _
        (λ allowed.
          quiet-Gives (λ asked. requested_assignments 0 brokers ≡ ok asked)
            (λ c (svc', r). Created brokers c r) _ _
            (lift-Gives (requested_assignments 0 brokers) _ (λ a e. e))
            λ asked requested.
              bind-Gives
                (λ c _.
                  c
                  ≡ create_topic cfg.topic asked.0 (creation_config cfg.topic_config asked.1) ∷ [])
                (λ c (svc', r). Created brokers c r) _ _
                (acknowledged-Gives er cfg ans fuel _ _ svc _ ans.topic_created)
                λ c _ changed.
                  quiet-Gives (Describes ans.described_created)
                    (λ d (svc', r). Created brokers (c ++ d) r) _ _
                    (describe-Gives svc _ ans.described_created)
                    λ now described. record {
                      gives = record {
                        allowed = allowed;
                        min_isr = asked.1;
                        requested = requested;
                        changed = rw changed refl;
                        now = now;
                        described = described;
                        leaders_are = refl;
                        no_refresh = refl;
                      };
                    })
        (λ other. record { gives = tt })

  configuration-Gives :
      (svc : TopicService) (md : TopicMetadata er)
      → Gives
          (λ c _. c ≡ configures svc.initialized)
          (if svc.initialized then done [] tt else alter_topic_configuration er cfg ans fuel svc md)
  unfolding alter_topic_configuration
  configuration-Gives svc md =
      let Q : List Event → Unit {0} → Type 0 = λ c _. c ≡ configures svc.initialized in
      if-Gives Q svc.initialized _ _ (λ again. record { gives = rw again refl })
        (λ first.
          if-Gives Q (length cfg.topic_config == 0) _ _
            (λ none_given. record { gives = rw (first, none_given) refl })
            (λ given.
              let all : alter_config cfg.topic cfg.topic_config ∷ [] ≡ configures svc.initialized =
                rw (first, given) refl in
              map-Gives (λ c _. c ≡ alter_config cfg.topic cfg.topic_config ∷ []) Q _
                (λ c _ e. e ∙ all)
                (acknowledged-Gives er cfg ans fuel _ _ svc empty_result ans.config_altered)))

  pub reconcile_existing-Gives :
      (svc : TopicService) (brokers : List Broker) (md : TopicMetadata er)
      → Gives
          (λ c (svc', r). Kept svc.initialized brokers (logged er cfg ans fuel md) c r)
          (reconcile_existing er cfg ans fuel svc brokers md)
  unfolding reconcile_existing
  reconcile_existing-Gives svc brokers described =
      let md = logged er cfg ans fuel described in
      let Q : List Event → Reconciled er cfg ans fuel → Type 0 =
        λ c (svc', r). Kept svc.initialized brokers md c r in
      let asks = reassigns svc.initialized brokers in
      let n = length md.partitions in
      bind-Gives (λ c _. c ≡ configures svc.initialized) Q _ _ (configuration-Gives svc md)
        λ c _ configured.
          if-Gives (λ d a. Q (c ++ d) a) asks _ _
            (λ moves_now.
              bind-Gives (Altered er cfg ans fuel n brokers (refreshing er cfg ans fuel brokers md))
                (λ d a. Q (c ++ d) a) _ _
                (alter_topic_assignments-Gives er cfg ans fuel _ svc
                  (refreshing er cfg ans fuel brokers md) n brokers)
                λ d altered (isr, requested, same, moved). record {
                  gives = record {
                    moved = d ++ [];
                    changed = rw configured refl;
                    assigned =
                        subst
                          (λ (b : Bool).
                            Assigned b n brokers md (d ++ [])
                              (record altered { leaders = current_leaders md.partitions [] }))
                          (sym moves_now)
                          (
                            isr,
                            requested,
                            append-nil d ∙ moved,
                            ap (λ (x : TopicReconcileResult). x.refresh_producer_metadata) same,
                          );
                    leaders_are = refl;
                  };
                })
            (λ stays. record {
              gives = record {
                moved = [];
                changed = rw configured refl;
                assigned =
                    subst
                      (λ (b : Bool). Assigned b n brokers md [] (record empty_result {
                        assignments = current_assignments md.partitions [];
                        leaders = current_leaders md.partitions [];
                      }))
                      (sym stays) (refl, refl, refl);
                leaders_are = refl;
              };
            })
