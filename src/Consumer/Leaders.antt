-- ===== src/Consumer/Leaders.antt =====
-- Leaders: the map of the partitions to the brokers that lead them.
use strimzi_canary.Common.{
  ℕ, ◌≡◌, refl, ◌∙◌, Bool, true, false, ◌||◌, List, [], ◌∷◌, some, if◌then◌else◌, ◌==◌, ==_iff,
  ==_refl, Bool-cases, Result, value, error, Result-cases, inl, inr, arith,
}
use strimzi_canary.Common.Int.{ℤ}
use strimzi_canary.Common.Maps.{lookup, insert, nat_eq, lookup-insert}
use strimzi_canary.Consumer.{leaders_from, leaders}

abbrev pub is_among : ℕ → List ℕ → Bool
is_among p [] = false
is_among p (q ∷ qs) = q == p || is_among p qs

module _ (E : Type 0) (leader : ℕ → Result E ℤ) where
  -- the leader of each partition in the list, over what the map had
  abbrev pub LeadersOver : List ℕ → List (ℕ × ℤ) → Result E (List (ℕ × ℤ)) → Type 0
  LeadersOver ps m (error e) = (p : ℕ) × (is_among p ps ≡ true) × (leader p ≡ error e)
  LeadersOver ps m (value n) =
      (p : ℕ)
      → if is_among p ps
        then ((id : ℤ) × (leader p ≡ value id) × (lookup p n ≡ some id))
        else (lookup p n ≡ lookup p m)

  -- the result for the answer to the list of the partitions
  abbrev pub Knows : Result E (List ℕ) → Result E (List (ℕ × ℤ)) → Type 0
  Knows (error e) r = r ≡ error e
  Knows (value ps) r = LeadersOver ps [] r

  leaders_from-LeadersOver :
      (ps : List ℕ) (m : List (ℕ × ℤ)) → LeadersOver ps m (leaders_from E leader ps m)
  unfolding leaders_from
  leaders_from-LeadersOver [] m = λ p. refl
  leaders_from-LeadersOver (q ∷ ps) m = elim (Result-cases (leader q)) [
    | inl (e, unknown) ↦ rw (leaders_from, unknown) (q, rw (==_refl q) refl, unknown)
    | inr (id, known) ↦
        rw (leaders_from, known)
          (over (leaders_from E leader ps (insert q id m)) id known
            (leaders_from-LeadersOver ps (insert q id m)))
  ]
    where
      over :
          (r : Result E (List (ℕ × ℤ))) (id : ℤ)
          → leader q ≡ value id
          → LeadersOver ps (insert q id m) r
          → LeadersOver (q ∷ ps) m r
      over (error e) id known (p, among, unknown) = (p, ground (arith, among), unknown)
      over (value n) id known h = λ p. elim (Bool-cases (q == p)) [
        | inl same ↦ elim (Bool-cases (is_among p ps)) [
          | inl among ↦ rw same (rw among at (h p))
          | inr absent ↦
              let e : q ≡ p = (==_iff q p).0 same in
              rw same
                (id, rw (← e) known, (rw absent at (h p)) ∙ lookup-insert q p id m ∙ rw same refl)
        ]
        | inr other ↦ elim (Bool-cases (is_among p ps)) [
          | inl among ↦ rw (other, among) (rw among at (h p))
          | inr absent ↦
              rw (other, absent) ((rw absent at (h p)) ∙ lookup-insert q p id m ∙ rw other refl)
        ]
      ]

  -- Leaders gives every partition of the topic the broker that leads it, and no other partition one; if it has
  -- an error, the list of the partitions has it, or one of the partitions.
  pub leaders-LeadersOver : (answer : Result E (List ℕ)) → Knows answer (leaders E answer leader)
  unfolding leaders
  leaders-LeadersOver (error e) = refl
  leaders-LeadersOver (value ps) = leaders_from-LeadersOver ps []
