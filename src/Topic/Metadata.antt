-- ===== src/Topic/Metadata.antt =====
-- internal/services/topic.go: partitions, assignments and configurations, as the reconcile reads and
-- writes them.
use strimzi_canary.Common.{
  ℕ, zero, suc, ◌+◌, ◌≤◌, ◌≡◌, refl, ap, List, [], ◌∷◌, map, if◌then◌else◌, ltb, leb, length, take,
  drop, String, Outcome, ok, crash, index_out_of_range, arith,
}
use strimzi_canary.Common.Int.{ℤ}
use strimzi_canary.Common.Maps.{lookup, insert, nat_eq, string_eq}
use strimzi_canary.Assign.{Assignments, or_nil}
use strimzi_canary.Topic.Types.{PartitionMetadata, Text, literal, decimal}

-- The partitions in the order of their ids, as the log of the metadata leaves them.
unfoldable pub insert_partition :
    PartitionMetadata → List PartitionMetadata → List PartitionMetadata
insert_partition p [] = p ∷ []
insert_partition p (q ∷ qs) = if ltb q.id p.id then q ∷ insert_partition p qs else p ∷ q ∷ qs

unfoldable pub sort_partitions : List PartitionMetadata → List PartitionMetadata
sort_partitions [] = []
sort_partitions (p ∷ ps) = insert_partition p (sort_partitions ps)

unfoldable pub current_assignments : List PartitionMetadata → Assignments → Assignments
current_assignments [] m = m
current_assignments (p ∷ ps) m = current_assignments ps (insert p.id p.replicas m)

unfoldable pub current_leaders : List PartitionMetadata → List (ℕ × ℤ) → List (ℕ × ℤ)
current_leaders [] m = m
current_leaders (p ∷ ps) m = current_leaders ps (insert p.id p.leader m)

-- The replicas of the partitions `i`, …, `i + count - 1`.
unfoldable pub rows : Assignments → ℕ → ℕ → List (List ℕ)
rows m i zero = []
rows m i (suc count) = or_nil (lookup i m) ∷ rows m (i + 1) count

-- xs[:n] and xs[n:] of a slice without spare capacity
abbrev pub slice_to {ℓ} : {A : Type ℓ} → List A → ℕ → Outcome (List A)
slice_to xs n = if leb n (length xs) then ok (take n xs) else crash index_out_of_range

abbrev pub slice_from {ℓ} : {A : Type ℓ} → List A → ℕ → Outcome (List A)
slice_from xs n = if leb n (length xs) then ok (drop n xs) else crash index_out_of_range

-- the configuration of a new topic
unfoldable pub creation_config : List (String × String) → ℕ → List (String × Text)
creation_config given min_isr =
    insert "cleanup.policy" (literal "delete")
      (insert "min.insync.replicas" (decimal min_isr) (map (λ kv. (kv.0, literal kv.1)) given))

pub length-rows : (m : Assignments) (i count : ℕ) → length (rows m i count) ≡ count
unfolding rows
length-rows m i zero = refl
length-rows m i (suc count) = ap suc (length-rows m (i + 1) count)

module _ {ℓ} {A : Type ℓ} where
  pub slice_to_in_bounds : (xs : List A) (n : ℕ) → n ≤ length xs → slice_to xs n ≡ ok (take n xs)
  slice_to_in_bounds xs n h = ground arith

  pub slice_from_in_bounds :
      (xs : List A) (n : ℕ) → n ≤ length xs → slice_from xs n ≡ ok (drop n xs)
  slice_from_in_bounds xs n h = ground arith
