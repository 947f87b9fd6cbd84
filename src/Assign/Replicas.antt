-- ===== src/Assign/Replicas.antt =====
-- Which brokers a partition is assigned to, and which partitions are assigned.
use strimzi_canary.Common.{
  ℕ, zero, suc, ◌+◌, ◌%◌, ◌≤◌, ◌<◌, ◌≡◌, ◌≢◌, ◌⊎◌, inr, refl, ap, List, [], ◌∷◌, some, ◌==◌, length,
  get_elem?, get_elem?-some, count, arith, ok, rem,
}
use strimzi_canary.Common.Maps.{nat_eq}
use strimzi_canary.Assign.{Broker, replicas}
use native.Mathlib.Nat.{mod-lt, add-zero}

-- The replica number `r` of a partition at place `k` is on the broker at place `k + r`, round the
-- list.
pub record AreReplicas (bs : List Broker) (k rounds : ℕ) (ids : List ℕ) : Type 0 where
  pub length_is : length ids ≡ rounds
  pub place :
      (r : ℕ)
      → r < rounds
      → (b : Broker) × (get_elem? bs ((k + r) % length bs) ≡ some b) × (get_elem? ids r ≡ some b.id)

rem_pos : (a b : ℕ) → 0 < b → rem a b ≡ ok (a % b)
rem_pos a b h = ground arith

replicas-cons :
    (bs : List Broker) (k rounds : ℕ) (b : Broker) (ids : List ℕ)
    → get_elem? bs (k % length bs) ≡ some b
    → AreReplicas bs (k + 1) rounds ids
    → AreReplicas bs k (suc rounds) (b.id ∷ ids)
replicas-cons bs k rounds b ids e h = record {
  length_is = ap suc h.length_is;
  place = λ r lt. at r lt;
}
  where
    at :
        (r : ℕ)
        → r < suc rounds
        → (c : Broker) × (get_elem? bs ((k + r) % length bs) ≡ some c)
          × (get_elem? (b.id ∷ ids) r ≡ some c.id)
    at zero lt = (b, rw add-zero e, refl)
    at (suc r) lt =
        let (c, there, id) = h.place r (omega arith) in
        let step : k + suc r ≡ k + 1 + r = omega arith in (c, rw step there, id)

pub replicas-AreReplicas :
    (bs : List Broker) (k rounds : ℕ)
    → rounds ≡ 0 ⊎ 0 < length bs
    → (ids : List ℕ) × (replicas bs k rounds ≡ ok ids) × AreReplicas bs k rounds ids
unfolding replicas
replicas-AreReplicas bs k zero h =
    ([], refl, record { length_is = refl; place = λ r lt. absurd (omega arith) })
replicas-AreReplicas bs k (suc rounds) h =
    let some_broker : 0 < length bs = omega arith in
    let (b, here) = get_elem?-some bs (k % length bs) (mod-lt k some_broker) in
    let (ids, run, are) = replicas-AreReplicas bs (k + 1) rounds (inr some_broker) in
    (
      b.id ∷ ids,
      rw (rem_pos k (length bs) some_broker, here, run),
      replicas-cons bs k rounds b ids here are,
    )

-- No two brokers of the list have the same id.
abbrev pub DistinctIds : List Broker → Type 0
DistinctIds bs = (x : ℕ) → count (λ b. b.id == x) bs ≤ 1

count_at :
    (bs : List Broker) (i : ℕ) (a : Broker)
    → get_elem? bs i ≡ some a
    → 0 < count (λ b. b.id == a.id) bs
count_at [] i a e = absurd (cc)
count_at (b ∷ bs) zero a e = ground arith
count_at (b ∷ bs) (suc i) a e = omega (arith, count_at bs i a e)

pub ids_ne :
    (bs : List Broker) (i j : ℕ) (a b : Broker)
    → DistinctIds bs
    → get_elem? bs i ≡ some a
    → get_elem? bs j ≡ some b
    → i ≢ j
    → a.id ≢ b.id
ids_ne [] i j a b d ea eb ne = absurd (cc)
ids_ne (c ∷ cs) zero zero a b d ea eb ne = absurd (ne refl)
ids_ne (c ∷ cs) zero (suc j) a b d ea eb ne = λ e. ground (arith, count_at cs j b eb, d b.id)
ids_ne (c ∷ cs) (suc i) zero a b d ea eb ne = λ e. ground (arith, count_at cs i a ea, d a.id)
ids_ne (c ∷ cs) (suc i) (suc j) a b d ea eb ne =
    ids_ne cs i j a b (λ x. omega (arith, d x)) ea eb (λ e. ne (ap suc e))
