-- ===== src/Topic/Total.antt =====
-- A reconcile comes to an end, with a result or an error.
use strimzi_canary.Common.{
  ℕ, ◌≡◌, refl, sym, ◌∙◌, Bool, true, false, not, ◌&&◌, ◌||◌, List, [], ◌∷◌, ◌++◌, none, some,
  if◌then◌else◌, length, ◌==◌, Bool-cases, inl, inr,
}
use mathlib.Core.Path.{subst}
use strimzi_canary.Assign.{Broker}
use strimzi_canary.Assign.Requested.{requested_assignments-Requested}
use strimzi_canary.Topic.Types.{
  Errors, TopicSettings, TopicService, TopicReconcileResult, Event, close_admin, TopicError,
  no_error, unknown_topic_or_partition, other_error, TopicMetadata, Answers, Run, done, failed,
  crashed, is_disconnection,
}
use strimzi_canary.Topic.Runs.{Ends, after-Ends, if-Ends, bind-Ends}
use strimzi_canary.Topic.{
  logged, refreshing, is_dynamic_reassignment_enabled, has_expected_size, ensure_admin,
  create_missing, alter_topic_configuration, reconcile_existing, reconcile_described,
  reconcile_topic, close, reply, reconcile,
}
use strimzi_canary.Topic.Cooperation.{
  Cooperates, Replied, Any, opening, answered-Ends, acknowledged-Ends, alter_topic_assignments-Ends,
  describe_canary_topic-Ends,
}

module _ (er : Errors) (cfg : TopicSettings) (ans : Answers er) (fuel : ℕ)
    (co : Cooperates er cfg ans fuel) where
  -- a reconcile that succeeds
  abbrev Reconciled : TopicService × TopicReconcileResult → Type 0
  Reconciled (svc, r) = (svc.admin ≡ true) × (svc.initialized ≡ true)

  create_missing-Ends :
      (svc : TopicService) (brokers : List Broker) (md : TopicMetadata er)
      → svc.admin ≡ true
      → Ends Reconciled svc.initialized (create_missing er cfg ans fuel svc brokers md)
  unfolding create_missing
  create_missing-Ends svc brokers md h =
      let (ordered, m, run, asked) = requested_assignments-Requested 0 brokers in
      let i = svc.initialized in
      if-Ends Reconciled i
        (is_dynamic_reassignment_enabled er cfg ans fuel
          || has_expected_size er cfg ans fuel brokers)
        _ _
        (rw run (
          after-Ends Reconciled i [] _ (
            bind-Ends Any Reconciled i _ _
              (acknowledged-Ends er cfg ans fuel co _ _ svc _ ans.topic_created)
              λ _ _.
                bind-Ends Any Reconciled i _ _
                  (describe_canary_topic-Ends er cfg ans fuel co svc _ ans.described_created
                    co.describes_created)
                  λ md' _. record { ends = (h, refl) })))
        (record { ends = refl })

  alter_topic_configuration-Ends :
      (svc : TopicService) (md : TopicMetadata er)
      → Ends Any svc.initialized (alter_topic_configuration er cfg ans fuel svc md)
  unfolding alter_topic_configuration
  alter_topic_configuration-Ends svc md =
      if-Ends Any svc.initialized (length cfg.topic_config == 0) _ _ (record { ends = tt })
        (acknowledged-Ends er cfg ans fuel co _ _ svc _ ans.config_altered)

  reconcile_existing-Ends :
      (svc : TopicService) (brokers : List Broker) (md : TopicMetadata er)
      → svc.admin ≡ true
      → Ends Reconciled svc.initialized (reconcile_existing er cfg ans fuel svc brokers md)
  unfolding reconcile_existing
  reconcile_existing-Ends svc brokers md h =
      let i = svc.initialized in
      bind-Ends Any Reconciled i _ _
        (if-Ends Any i svc.initialized _ _ (record { ends = tt })
          (alter_topic_configuration-Ends svc (logged er cfg ans fuel md)))
        λ _ _.
          if-Ends Reconciled i
            (is_dynamic_reassignment_enabled er cfg ans fuel
              || (not svc.initialized && has_expected_size er cfg ans fuel brokers))
            _ _
            (bind-Ends Any Reconciled i _ _
              (alter_topic_assignments-Ends er cfg ans fuel co _ svc
                (refreshing er cfg ans fuel brokers (logged er cfg ans fuel md)) _ brokers)
              λ r _. record { ends = (h, refl) })
            (record { ends = (h, refl) })

  reconcile_described-Ends :
      (svc : TopicService) (brokers : List Broker) (md : TopicMetadata er) (err : TopicError er)
      → svc.admin ≡ true
      → Ends Reconciled svc.initialized (reconcile_described er cfg ans fuel svc brokers md err)
  unfolding reconcile_described
  reconcile_described-Ends svc brokers md unknown_topic_or_partition h =
      create_missing-Ends svc brokers md h
  reconcile_described-Ends svc brokers md no_error h = reconcile_existing-Ends svc brokers md h
  reconcile_described-Ends svc brokers md (other_error e) h = record { ends = refl }

  -- a service with its admin client, and the mark that it had before
  abbrev Opened : Bool → TopicService → Type 0
  Opened i svc = (svc.admin ≡ true) × (svc.initialized ≡ i)

  ensure_admin-Ends :
      (svc : TopicService)
      → Ends (Opened svc.initialized) svc.initialized (ensure_admin er cfg ans fuel svc)
  unfolding ensure_admin
  ensure_admin-Ends svc = elim (Bool-cases svc.admin) [
    | inl open_already ↦
        subst
          (λ b.
            Ends (Opened svc.initialized) svc.initialized
              (if b then done [] svc else opening er cfg ans fuel co svc))
          (sym open_already) (record { ends = (open_already, refl) })
    | inr closed ↦
        subst
          (λ b.
            Ends (Opened svc.initialized) svc.initialized
              (if b then done [] svc else opening er cfg ans fuel co svc))
          (sym closed)
          (bind-Ends Any (Opened svc.initialized) svc.initialized _ _
            (acknowledged-Ends er cfg ans fuel co _ _ svc _ ans.admin_created)
            λ _ _. record { ends = (refl, refl) })
  ]

  reconcile_topic-Ends :
      (start : TopicService)
      → Ends Reconciled start.initialized (reconcile_topic er cfg ans fuel start)
  unfolding reconcile_topic
  reconcile_topic-Ends start =
      let i = start.initialized in
      bind-Ends (Opened i) Reconciled i _ _ (ensure_admin-Ends start) λ svc opened.
        rw (← opened.1) (
          bind-Ends Any Reconciled svc.initialized _ _
            (answered-Ends er cfg ans fuel co _ _ svc _ ans.brokers)
            λ brokers _.
              bind-Ends Any Reconciled svc.initialized _ _
                (describe_canary_topic-Ends er cfg ans fuel co svc _ ans.described co.describes)
                λ md _.
                  after-Ends Reconciled svc.initialized _ _
                    (reconcile_described-Ends svc brokers md md.err opened.0))

  close_closes :
      (svc : TopicService)
      → (t : List Event) × (after : TopicService) × (close er cfg ans fuel svc ≡ done t after)
        × (after.admin ≡ false)
        × (after.initialized ≡ svc.initialized)
  unfolding close
  close_closes svc = elim (Bool-cases svc.admin) [
    | inl on ↦ (close_admin ∷ [], record svc { admin = false }, rw (on, co.closes) refl, refl, refl)
    | inr off ↦ ([], svc, rw off refl, off, refl)
  ]

  reply-Replied :
      (start : TopicService) (m : Run er (TopicService × TopicReconcileResult))
      → Ends Reconciled start.initialized m
      → Replied er cfg ans fuel start (reply er cfg ans fuel m)
  unfolding reply
  reply-Replied start (done t (svc, r)) h = (t, (svc, r, none), refl, h.ends)
  reply-Replied start (failed t f) h = elim (Bool-cases (is_disconnection er f.cause)) [
    | inl lost ↦
        let (u, svc, run, shut, same) = close_closes f.service in
        (
          t ++ (u ++ []),
          (svc, f.result, some f.cause),
          rw (lost, run) refl,
          (same ∙ h.ends, rw (lost, shut) refl),
        )
    | inr other ↦ (t, (f.service, f.result, some f.cause), rw other refl, (h.ends, rw other refl))
  ]
  reply-Replied start (crashed t c) h = absurd h.ends

  -- A reconcile ends without a panic and with an answer, if the cluster describes the topic when it is
  -- asked for it, lets the admin client be closed, and ends its reassignment within the fuel. Without an
  -- error the service has its admin client and the mark of the first reconcile; with one the mark is as it
  -- was, and on a lost connection the client is closed, so that the next reconcile makes a new one.
  pub reconcile-Replied :
      (start : TopicService) → Replied er cfg ans fuel start (reconcile er cfg ans fuel start)
  unfolding reconcile
  reconcile-Replied start =
      reply-Replied start (reconcile_topic er cfg ans fuel start) (reconcile_topic-Ends start)
