-- ===== src/Assign.antt =====
-- internal/services/topic.go, `requestedAssignments`: which brokers hold the replicas of each
-- partition. Broker and partition ids are non-negative int32 numbers. `sort.Slice` is an insertion
-- sort by id.
pub mod Sort
pub mod Columns
pub mod Racks
pub mod Rounds
pub mod Rotation
pub mod Order
pub mod Replicas
pub mod Requested
pub mod Cycles
pub mod Even
pub mod Spread
pub mod Listing
mod Tests
use strimzi_canary.Common.{
  ℕ, zero, suc, ◌+◌, ◌-◌, min, max, Bool, true, false, not, List, [], ◌∷◌, ◌++◌, Option, none, some,
  if◌then◌else◌, ltb, ◌==◌, length, String, Outcome, ok, crash, no_fuel, ◌>>=◌, rem, index, assign,
}
use strimzi_canary.Common.Maps.{lookup, insert, string_eq, nat_eq}
use text.Mathlib.Text.{◌==◌ as str_eq}

pub record Broker : Type 0 where
  pub id : ℕ
  pub rack : String

unfoldable pub insert_by_id : Broker → List Broker → List Broker
insert_by_id b [] = b ∷ []
insert_by_id b (c ∷ cs) = if ltb c.id b.id then c ∷ insert_by_id b cs else b ∷ c ∷ cs

unfoldable pub sort_by_id : List Broker → List Broker
sort_by_id [] = []
sort_by_id (b ∷ bs) = insert_by_id b (sort_by_id bs)

-- `rackMap`, `rackNames` and `brokersWithRack`
pub record Grouping : Type 0 where
  pub rack_map : List (String × List Broker)
  pub rack_names : List String
  pub with_rack : ℕ

-- A read at a key that a map lacks gives a nil slice.
abbrev pub or_nil {ℓ} : {A : Type ℓ} → Option (List A) → List A
or_nil none = []
or_nil (some xs) = xs

abbrev pub brokers_at : String → List (String × List Broker) → List Broker
brokers_at name m = or_nil (lookup name m)

abbrev no_brokers : List Broker
no_brokers = []

abbrev pub is_present {ℓ} : {A : Type ℓ} → Option A → Bool
is_present none = false
is_present (some a) = true

-- `rackMap` and `rackNames` with an entry for the rack
unfoldable pub with_entry : String → Grouping → Grouping
with_entry name g = if is_present (lookup name g.rack_map) then g else record g {
  rack_map = insert name no_brokers g.rack_map;
  rack_names = g.rack_names ++ name ∷ [];
}

abbrev append_at : Broker → Grouping → Grouping
append_at b g = record g {
  rack_map = insert b.rack (brokers_at b.rack g.rack_map ++ b ∷ []) g.rack_map;
  with_rack = g.with_rack + 1;
}

unfoldable pub group_broker : Grouping → Broker → Grouping
unfolding with_entry
group_broker g b = if str_eq b.rack "" then g else append_at b (with_entry b.rack g)

unfoldable pub group : Grouping → List Broker → Grouping
group g [] = g
group g (b ∷ bs) = group (group_broker g b) bs

abbrev pub no_racks : Grouping
no_racks = record { rack_map = []; rack_names = []; with_rack = 0 }

-- The variables of the loop that deals the racks out.
pub record Deal : Type 0 where
  pub rack_map : List (String × List Broker)
  pub brokers : List Broker
  pub index : ℕ
  pub again : Bool

-- One rack gives its first broker, if it has one left.
unfoldable pub deal_from : String → List Broker → Deal → Outcome Deal
deal_from name [] d = ok d
deal_from name (head ∷ rest) d = do
  brokers ← assign d.brokers d.index head
  ok (record {
    rack_map = insert name rest d.rack_map;
    brokers = brokers;
    index = d.index + 1;
    again = true;
  })

unfoldable pub deal_round : List String → Deal → Outcome Deal
unfolding deal_from
deal_round [] d = ok d
deal_round (name ∷ names) d = deal_from name (brokers_at name d.rack_map) d >>= deal_round names

-- Rounds until one finds every rack empty.
unfoldable pub deal_all : ℕ → List String → Deal → Outcome (List Broker)
deal_all zero names d = crash no_fuel
deal_all (suc fuel) names d = do
  done ← deal_round names (record d { again = false })
  let more = deal_all fuel names done
  if done.again then more else ok done.brokers

-- The order of the brokers, alternated by rack if every broker has one.
unfoldable pub alternate : List Broker → Outcome (List Broker)
alternate brokers =
    let g = group no_racks brokers in
    if length brokers == g.with_rack
    then deal_all (suc (length brokers)) g.rack_names
        (record { rack_map = g.rack_map; brokers = brokers; index = 0; again = false })
    else ok brokers

-- `rounds` replicas of a partition from place `k` on
unfoldable pub replicas : List Broker → ℕ → ℕ → Outcome (List ℕ)
replicas brokers k zero = ok []
replicas brokers k (suc rounds) = do
  i ← rem k (length brokers)
  b ← index brokers i
  ids ← replicas brokers (k + 1) rounds
  ok (b.id ∷ ids)

abbrev pub Assignments : Type 0
Assignments = List (ℕ × List ℕ)

-- the partitions from `p` on, `count` of them
unfoldable pub assign_partitions : List Broker → ℕ → ℕ → ℕ → Assignments → Outcome Assignments
assign_partitions brokers factor p zero m = ok m
assign_partitions brokers factor p (suc count) m = do
  ids ← replicas brokers p factor
  assign_partitions brokers factor (p + 1) count (insert p ids m)

-- `replicationFactor - 1` is -1 without brokers, and the maximum 1 all the same.
unfoldable pub requested_assignments : ℕ → List Broker → Outcome (Assignments × ℕ)
requested_assignments current_partitions brokers = do
  let brokers_number = length brokers
  let partitions = max current_partitions brokers_number
  let replication_factor = min brokers_number 3
  let min_isr = max 1 (replication_factor - 1)
  ordered ← alternate (sort_by_id brokers)
  m ← assign_partitions ordered replication_factor 0 partitions []
  ok (m, min_isr)
