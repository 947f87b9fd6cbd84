-- ===== src/Topic/Altered.antt =====
-- What the calls of the cluster's admin client give, if they do not fail, and how the partitions are moved.
use strimzi_canary.Common.{
  ℕ, zero, suc, ◌≡◌, refl, ap, Bool, Bool-cases, inl, inr, true, false, List, [], ◌∷◌, ◌++◌, Option,
  none, some, if◌then◌else◌, ltb, leb, length, take, drop, ok, crash, index_out_of_range, Result,
  value, error, Result-cases,
}
use strimzi_canary.Assign.{Broker, Assignments, requested_assignments}
use strimzi_canary.Topic.Metadata.{rows, slice_to, slice_from}
use strimzi_canary.Topic.Types.{
  Errors, TopicSettings, TopicService, TopicReconcileResult, Event, list_partition_reassignments,
  sleep_two_seconds, alter_partition_reassignments, create_partitions, Answers,
}
use strimzi_canary.Topic.{
  answered, acknowledged, any_ongoing, wait_reassigned, alter_assignments, alter_topic_assignments,
}
use strimzi_canary.Topic.Gives.{
  changes, Gives, Quietly, after-Gives, if-Gives, map-Gives, lift-Gives, bind-Gives, quiet-Gives,
}

abbrev pub Any {ℓ} : {A : Type ℓ} → A → Type 0
Any a = Unit {0}

sliced_to :
    (xs ys : List (List ℕ)) (n : ℕ) (b : Bool)
    → (if b then ok (take n xs) else crash index_out_of_range) ≡ ok ys
    → ys ≡ take n xs
sliced_to xs ys n true h = cc h
sliced_to xs ys n false h = absurd (cc h)

sliced_from :
    (xs ys : List (List ℕ)) (n : ℕ) (b : Bool)
    → (if b then ok (drop n xs) else crash index_out_of_range) ≡ ok ys
    → ys ≡ drop n xs
sliced_from xs ys n true h = cc h
sliced_from xs ys n false h = absurd (cc h)

module _ (er : Errors) (cfg : TopicSettings) (ans : Answers er) (fuel : ℕ) where
  pub answered-Gives :
      {A : Type 0} (call : Event) (t : List Event) (svc : TopicService) (r : TopicReconcileResult)
      (a : Result er.E A)
      → changes (call ∷ []) ≡ []
      → Gives (Quietly (λ x. a ≡ value x)) (answered er cfg ans fuel call t svc r a)
  answered-Gives call t svc r (value x) quiet = record { gives = (quiet, refl) }
  answered-Gives call t svc r (error e) quiet = record { gives = tt }

  pub acknowledged-Gives :
      (call : Event) (t : List Event) (svc : TopicService) (r : TopicReconcileResult)
      (a : Option er.E)
      → Gives (λ c _. c ≡ changes (call ∷ [])) (acknowledged er cfg ans fuel call t svc r a)
  acknowledged-Gives call t svc r none = record { gives = refl }
  acknowledged-Gives call t svc r (some e) = record { gives = tt }

  wait_reassigned-Gives :
      (left round : ℕ) → Gives (Quietly Any) (wait_reassigned er cfg ans fuel left round)
  unfolding wait_reassigned
  wait_reassigned-Gives zero round = record { gives = tt }
  wait_reassigned-Gives (suc left) round = elim (Result-cases (ans.reassignments round)) [
    | inl (e, answer) ↦ rw (answer, wait_reassigned) (record { gives = (refl, tt) })
    | inr (statuses, answer) ↦ elim (Bool-cases (any_ongoing er cfg ans fuel statuses)) [
      | inl on ↦
          rw (answer, wait_reassigned, on)
            (after-Gives (Quietly Any)
              (list_partition_reassignments cfg.topic ∷ sleep_two_seconds ∷ [])
              (wait_reassigned er cfg ans fuel left (suc round))
              (wait_reassigned-Gives left (suc round)))
      | inr off ↦ rw (answer, wait_reassigned, off) (record { gives = (refl, tt) })
    ]
  ]

  alter_assignments-Gives :
      (t : List Event) (svc : TopicService) (r : TopicReconcileResult) (assignments : List (List ℕ))
      → Gives
          (λ c _. c ≡ alter_partition_reassignments cfg.topic assignments ∷ [])
          (alter_assignments er cfg ans fuel t svc r assignments)
  unfolding alter_assignments
  alter_assignments-Gives t svc r assignments =
      bind-Gives (λ c _. c ≡ alter_partition_reassignments cfg.topic assignments ∷ [])
        (λ c _. c ≡ alter_partition_reassignments cfg.topic assignments ∷ []) _ _
        (acknowledged-Gives _ t svc r ans.reassigned)
        λ c _ asked. rw asked (
          map-Gives (Quietly Any) _ (wait_reassigned er cfg ans fuel fuel 0)
            (λ d _ quiet.
              ap (λ (l : List Event). alter_partition_reassignments cfg.topic assignments ∷ l)
                quiet.0)
            (wait_reassigned-Gives fuel 0))

  -- The requests that move a topic of `n` partitions to the assignments.
  abbrev pub moves : ℕ → List Broker → Assignments → List Event
  moves n brokers m =
      alter_partition_reassignments cfg.topic (take n (rows m 0 (length m)))
      ∷ (if ltb n (length brokers)
          then create_partitions cfg.topic (length brokers) (drop n (rows m 0 (length m))) ∷ []
          else [])

  -- the result with the assignments that are requested for the brokers, and the moves to them
  abbrev pub Altered :
      ℕ → List Broker → TopicReconcileResult → List Event → TopicReconcileResult → Type 0
  Altered n brokers r c r' =
      (isr : ℕ) × (requested_assignments n brokers ≡ ok (r'.assignments, isr))
      × (r' ≡ record r { assignments = r'.assignments })
      × (c ≡ moves n brokers r'.assignments)

  pub alter_topic_assignments-Gives :
      (t : List Event) (svc : TopicService) (r : TopicReconcileResult) (n : ℕ)
      (brokers : List Broker)
      → Gives (Altered n brokers r) (alter_topic_assignments er cfg ans fuel t svc r n brokers)
  unfolding alter_topic_assignments
  alter_topic_assignments-Gives t svc r n brokers =
      quiet-Gives (λ asked. requested_assignments n brokers ≡ ok asked) (Altered n brokers r) _ _
        (lift-Gives (requested_assignments n brokers) _ (λ a e. e))
        λ asked requested.
          let altered = record r { assignments = asked.0 } in
          let all = rows asked.0 0 (length asked.0) in
          let first = alter_partition_reassignments cfg.topic (take n all) in
          quiet-Gives (λ present. present ≡ take n all) (Altered n brokers r) _ _
            (lift-Gives (slice_to all n) _ (λ ys e. sliced_to all ys n (leb n (length all)) e))
            λ present is_present.
              bind-Gives (λ c _. c ≡ alter_partition_reassignments cfg.topic present ∷ [])
                (Altered n brokers r) _ _ (alter_assignments-Gives t svc altered present)
                λ c _ moved.
                  if-Gives (λ d r'. Altered n brokers r (c ++ d) r') (ltb n (length brokers)) _ _
                    (λ fewer.
                      quiet-Gives (λ missing. missing ≡ drop n all)
                        (λ d r'. Altered n brokers r (c ++ d) r') _ _
                        (lift-Gives (slice_from all n) _
                          (λ ys e. sliced_from all ys n (leb n (length all)) e))
                        λ missing is_missing.
                          bind-Gives
                            (λ d _. d ≡ create_partitions cfg.topic (length brokers) missing ∷ [])
                            (λ d r'. Altered n brokers r (c ++ d) r') _ _
                            (acknowledged-Gives _ t svc altered ans.partitions_created)
                            λ d _ made. record {
                              gives = (
                                asked.1,
                                requested,
                                refl,
                                rw (moved, made, is_present, is_missing, fewer) refl,
                              );
                            })
                    (λ enough. record {
                      gives = (asked.1, requested, refl, rw (moved, is_present, enough) refl);
                    })
