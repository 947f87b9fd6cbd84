-- ===== src/Topic/Cooperation.antt =====
-- What the cluster does for a reconcile to end, and that the calls of a reconcile end then.
use strimzi_canary.Common.{
  ℕ, zero, suc, ◌+◌, ◌≤◌, ◌<◌, ◌≡◌, ◌≢◌, refl, Bool, true, false, not, ◌&&◌, List, [], ◌∷◌, Option,
  none, some, length, ltb, Result, value, error, arith, Bool-cases, Result-cases, inl, inr,
}
use native.Mathlib.Decide.{ℕ_discrete}
use strimzi_canary.Assign.{Broker}
use strimzi_canary.Assign.Requested.{requested_assignments-Requested}
use strimzi_canary.Topic.Types.{
  Errors, TopicSettings, TopicService, TopicReconcileResult, Event, new_cluster_admin,
  list_partition_reassignments, sleep_two_seconds, TopicMetadata, Reassignment, Answers, Run, done,
  bind, is_disconnection,
}
use strimzi_canary.Topic.Metadata.{rows, length-rows, slice_to_in_bounds, slice_from_in_bounds}
use strimzi_canary.Topic.Runs.{Ends, after-Ends, if-Ends, bind-Ends}
use strimzi_canary.Topic.{
  empty_result, answered, acknowledged, describe_canary_topic, any_ongoing, wait_reassigned,
  alter_assignments, alter_topic_assignments, Reply,
}

module _ (er : Errors) (cfg : TopicSettings) (ans : Answers er) (fuel : ℕ) where
  -- a query that finds no reassignment going on, or fails
  abbrev pub settled : Result er.E (List (Reassignment er)) → Bool
  settled (error e) = true
  settled (value statuses) = not (any_ongoing er cfg ans fuel statuses)

  -- The cluster ends every reassignment within `fuel` queries, describes the topic that it is asked
  -- for, and lets the admin client be closed.
  pub record Cooperates : Type 0 where
    pub query : ℕ
    pub in_time : query < fuel
    pub settles : settled (ans.reassignments query) ≡ true
    pub describes : ans.described ≢ value []
    pub describes_created : ans.described_created ≢ value []
    pub closes : ans.admin_closed ≡ none

  -- what a reconcile that ended says of the service it leaves
  abbrev pub Settled : TopicService → Reply er cfg ans fuel → Type 0
  Settled start (svc, r, none) = (svc.admin ≡ true) × (svc.initialized ≡ true)
  Settled start (svc, r, some e) =
      (svc.initialized ≡ start.initialized) × ((is_disconnection er e && svc.admin) ≡ false)

  abbrev pub Replied : TopicService → Run er (Reply er cfg ans fuel) → Type 0
  Replied start m =
      (t : List Event) × (answer : Reply er cfg ans fuel) × (m ≡ done t answer)
      × Settled start answer

-- any value at all
abbrev pub Any {ℓ} : {A : Type ℓ} → A → Type 0
Any a = Unit {0}

module _ (er : Errors) (cfg : TopicSettings) (ans : Answers er) (fuel : ℕ)
    (co : Cooperates er cfg ans fuel) where
  abbrev pub opening : TopicService → Run er TopicService
  opening svc =
      bind er (acknowledged er cfg ans fuel new_cluster_admin [] svc empty_result ans.admin_created)
        (λ _. done [] (record svc { admin = true }))

  pub answered-Ends {ℓ} :
      {A : Type ℓ} (call : Event) (t : List Event) (svc : TopicService) (r : TopicReconcileResult)
      (a : Result er.E A)
      → Ends Any svc.initialized (answered er cfg ans fuel call t svc r a)
  answered-Ends call t svc r (value a) = record { ends = tt }
  answered-Ends call t svc r (error e) = record { ends = refl }

  pub acknowledged-Ends :
      (call : Event) (t : List Event) (svc : TopicService) (r : TopicReconcileResult)
      (a : Option er.E)
      → Ends Any svc.initialized (acknowledged er cfg ans fuel call t svc r a)
  acknowledged-Ends call t svc r none = record { ends = tt }
  acknowledged-Ends call t svc r (some e) = record { ends = refl }

  wait_reassigned-Ends :
      (i : Bool) (left round : ℕ)
      → round ≤ co.query
      → co.query < round + left
      → Ends Any i (wait_reassigned er cfg ans fuel left round)
  unfolding wait_reassigned
  wait_reassigned-Ends i zero round le lt = absurd (omega arith)
  wait_reassigned-Ends i (suc left) round le lt = elim (Result-cases (ans.reassignments round)) [
    | inl (e, answer) ↦ rw (answer, wait_reassigned) (record { ends = tt })
    | inr (statuses, answer) ↦ elim (Bool-cases (any_ongoing er cfg ans fuel statuses)) [
      | inl on ↦
          rw (answer, wait_reassigned, on)
            (after-Ends Any i (list_partition_reassignments cfg.topic ∷ sleep_two_seconds ∷ [])
              (wait_reassigned er cfg ans fuel left (suc round))
              (wait_reassigned-Ends i left (suc round) (later statuses answer on) (omega arith)))
      | inr off ↦ rw (answer, wait_reassigned, off) (record { ends = tt })
    ]
  ]
    where
      later :
          (statuses : List (Reassignment er))
          → ans.reassignments round ≡ value statuses
          → any_ongoing er cfg ans fuel statuses ≡ true
          → suc round ≤ co.query
      later statuses answer on = elim (ℕ_discrete round co.query) [
        | yes same ↦ absurd (cc (rw (← same, answer, on) at co.settles))
        | no other ↦ omega arith
      ]

  alter_assignments-Ends :
      (t : List Event) (svc : TopicService) (r : TopicReconcileResult) (assignments : List (List ℕ))
      → Ends Any svc.initialized (alter_assignments er cfg ans fuel t svc r assignments)
  unfolding alter_assignments
  alter_assignments-Ends t svc r assignments =
      bind-Ends Any Any svc.initialized _ _ (acknowledged-Ends _ t svc r ans.reassigned) (λ _ _.
        wait_reassigned-Ends svc.initialized fuel 0 (omega arith) (omega (arith, co.in_time)))

  -- The slices of the assignments are in bounds, since there are as many as partitions now.
  pub alter_topic_assignments-Ends :
      (t : List Event) (svc : TopicService) (r : TopicReconcileResult) (current : ℕ)
      (brokers : List Broker)
      → Ends Any svc.initialized (alter_topic_assignments er cfg ans fuel t svc r current brokers)
  unfolding alter_topic_assignments
  alter_topic_assignments-Ends t svc r current brokers =
      let (ordered, m, run, asked) = requested_assignments-Requested current brokers in
      let all = rows m 0 (length m) in
      let i = svc.initialized in
      let enough : current ≤ length all =
        omega (arith, length-rows m 0 (length m), asked.partitions) in
      rw (run, slice_to_in_bounds all current enough, slice_from_in_bounds all current enough)
        (after-Ends Any i [] _ (
          after-Ends Any i [] _ (
            bind-Ends Any Any i _ _ (alter_assignments-Ends t svc _ _) λ _ _.
              if-Ends Any i (ltb current (length brokers)) _ _
                (after-Ends Any i [] _ (
                  bind-Ends Any Any i _ _ (acknowledged-Ends _ t svc _ ans.partitions_created)
                    λ _ _. record { ends = tt }))
                (record { ends = tt }))))

  pub describe_canary_topic-Ends :
      (svc : TopicService) (r : TopicReconcileResult)
      (answer : Result er.E (List (TopicMetadata er)))
      → answer ≢ value []
      → Ends Any svc.initialized (describe_canary_topic er cfg ans fuel svc r answer)
  unfolding describe_canary_topic
  describe_canary_topic-Ends svc r (error e) h = record { ends = refl }
  describe_canary_topic-Ends svc r (value []) h = absurd (h refl)
  describe_canary_topic-Ends svc r (value (m ∷ ms)) h = record { ends = tt }
