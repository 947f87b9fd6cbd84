-- ===== src/Assign/Tests.antt =====
-- Assignments of small clusters, run.
use strimzi_canary.Common.{
  ℕ, ◌≡◌, ◌≢◌, ◌⊎◌, inl, inr, refl, Bool-cases, List, [], ◌∷◌, get_elem?, count, String, arith, ok,
}
use mathlib.Core.Path.{subst}
use text.Mathlib.Text.{◌==◌ as str_eq}
use text.Mathlib.TextEquality.{eq_iff}
use strimzi_canary.Assign.Spread.{racks-distinct}
use strimzi_canary.Common.Maps.{lookup, insert, nat_eq, string_eq}
use strimzi_canary.Assign.{
  Broker, Assignments, alternate, sort_by_id, requested_assignments, group, group_broker, deal_all,
  deal_round, replicas, assign_partitions, insert_by_id,
}
use strimzi_canary.Assign.Order.{Alternated, alternate-Alternated}
use strimzi_canary.Assign.Requested.{
  Requested, requested_assignments-Requested, replicas-distinct, leaders-distinct,
}
use mathlib.Core.List.{Perm, Permᴰ}
use strimzi_canary.Assign.Sort.{IsSorted}
use strimzi_canary.Assign.Listing.{requested_assignments-Perm}
use strimzi_canary.Assign.Replicas.{DistinctIds}

-- The six brokers of the comment in the code, which gives their order as 0, 3, 1, 5, 4, 2. The
-- racks take their turns in the order of their first brokers: rack1, rack3, rack2.
abbrev commented : List Broker
commented =
    record { id = 0; rack = "rack1" }
    ∷ record { id = 1; rack = "rack3" }
    ∷ record { id = 2; rack = "rack3" }
    ∷ record { id = 3; rack = "rack2" }
    ∷ record { id = 4; rack = "rack2" }
    ∷ record { id = 5; rack = "rack1" }
    ∷ []

alternate-commented :
    alternate commented
    ≡ ok (
        record { id = 0; rack = "rack1" }
        ∷ record { id = 1; rack = "rack3" }
        ∷ record { id = 3; rack = "rack2" }
        ∷ record { id = 5; rack = "rack1" }
        ∷ record { id = 2; rack = "rack3" }
        ∷ record { id = 4; rack = "rack2" }
        ∷ [])
unfolding alternate group group_broker deal_all deal_round lookup insert
alternate-commented = refl

-- Two brokers out of order, and a topic of three partitions.
abbrev two_brokers : List Broker
two_brokers = record { id = 7; rack = "" } ∷ record { id = 4; rack = "" } ∷ []

abbrev two_ordered : List Broker
two_ordered = record { id = 4; rack = "" } ∷ record { id = 7; rack = "" } ∷ []

abbrev three_partitions : Assignments
three_partitions = (0, 4 ∷ 7 ∷ []) ∷ (1, 7 ∷ 4 ∷ []) ∷ (2, 4 ∷ 7 ∷ []) ∷ []

requested-two : requested_assignments 3 two_brokers ≡ ok (three_partitions, 1)
unfolding requested_assignments alternate group group_broker sort_by_id insert_by_id replicas
    assign_partitions insert
requested-two = refl

two-DistinctIds : DistinctIds two_brokers
two-DistinctIds x = ground arith

alternate-Alternated_example :
    (os : List Broker) × (alternate commented ≡ ok os) × Alternated commented os
alternate-Alternated_example = alternate-Alternated commented

requested_assignments-Requested_example :
    (ordered : List Broker) × (m : Assignments) × (requested_assignments 3 two_brokers ≡ ok (m, 1))
    × Requested 3 two_brokers ordered m
requested_assignments-Requested_example = requested_assignments-Requested 3 two_brokers

abbrev on_4_7 : List ℕ
on_4_7 = 4 ∷ 7 ∷ []

abbrev on_7_4 : List ℕ
on_7_4 = 7 ∷ 4 ∷ []

replicas-distinct_example : get_elem? on_4_7 0 ≢ get_elem? on_4_7 1
unfolding lookup
replicas-distinct_example =
    replicas-distinct 3 two_brokers three_partitions 1 two-DistinctIds requested-two 2 on_4_7 0 1
      refl (omega arith) (omega arith) (omega arith)

leaders-distinct_example : get_elem? on_7_4 0 ≢ get_elem? on_4_7 0
unfolding lookup
leaders-distinct_example =
    leaders-distinct 3 two_brokers three_partitions 1 two-DistinctIds requested-two 1 2 on_7_4
      on_4_7 refl refl (omega arith) (omega arith) (omega arith)

abbrev six_partitions : Assignments
six_partitions =
    (0, 0 ∷ 1 ∷ 3 ∷ [])
    ∷ (1, 1 ∷ 3 ∷ 5 ∷ [])
    ∷ (2, 3 ∷ 5 ∷ 2 ∷ [])
    ∷ (3, 5 ∷ 2 ∷ 4 ∷ [])
    ∷ (4, 2 ∷ 4 ∷ 0 ∷ [])
    ∷ (5, 4 ∷ 0 ∷ 1 ∷ [])
    ∷ []

requested-commented : requested_assignments 1 commented ≡ ok (six_partitions, 2)
unfolding requested_assignments alternate group group_broker deal_all deal_round lookup sort_by_id
    insert_by_id replicas assign_partitions insert
requested-commented = refl

commented-DistinctIds : DistinctIds commented
commented-DistinctIds x = ground arith

abbrev on_rack : String → ℕ
on_rack name = count (λ (b : Broker). str_eq b.rack name) commented

commented_even : (name : String) → (on_rack name ≡ 0) ⊎ (on_rack name ≡ 2)
commented_even name = elim (Bool-cases (str_eq "rack1" name)) [
  | inl e ↦ subst (λ n. (on_rack n ≡ 0) ⊎ (on_rack n ≡ 2)) ((eq_iff "rack1" name).0 e) (inr refl)
  | inr ne ↦ elim (Bool-cases (str_eq "rack2" name)) [
    | inl e ↦ subst (λ n. (on_rack n ≡ 0) ⊎ (on_rack n ≡ 2)) ((eq_iff "rack2" name).0 e) (inr refl)
    | inr ne' ↦ ground (arith, ne, ne')
  ]
]

abbrev broker_0 : Broker
broker_0 = record { id = 0; rack = "rack1" }

abbrev broker_3 : Broker
broker_3 = record { id = 3; rack = "rack2" }

racks-distinct_example : broker_0.rack ≢ broker_3.rack
unfolding lookup
racks-distinct_example =
    racks-distinct 2 1 commented six_partitions 2 commented-DistinctIds
      (record { placed = refl; filled = omega arith; even = commented_even; three = omega arith })
      requested-commented 0 0 2 (0 ∷ 1 ∷ 3 ∷ []) 0 3 broker_0 broker_3 refl (omega arith)
      (omega arith) (omega arith) refl refl refl refl

-- the two brokers in the order of their ids
abbrev two_swapped : Perm two_brokers two_ordered
two_swapped = ∣ Permᴰ.swap refl refl ∣₁

requested_assignments-Perm_example :
    (IsSorted two_ordered → sort_by_id two_brokers ≡ two_ordered)
    × (requested_assignments 3 two_brokers ≡ requested_assignments 3 two_ordered)
requested_assignments-Perm_example =
    requested_assignments-Perm 3 two_brokers two_ordered two-DistinctIds two_swapped
