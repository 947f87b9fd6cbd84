-- ===== src/Assign/Sort.antt =====
-- The order by broker id.
use strimzi_canary.Common.{
  ℕ, ◌≤◌, ◌≡◌, refl, Bool, List, [], ◌∷◌, length, count, count-true, All, arith, sym, ◌∙◌,
}
use strimzi_canary.Assign.{Broker, insert_by_id, sort_by_id}

-- Every id is at most those that follow it.
abbrev pub IsSorted : List Broker → Type 0
IsSorted [] = Unit {0}
IsSorted (b ∷ bs) = All (λ c. b.id ≤ c.id) bs × IsSorted bs

All-le : (a b : ℕ) (cs : List Broker) → a ≤ b → All (λ c. b ≤ c.id) cs → All (λ c. a ≤ c.id) cs
All-le a b [] h k = tt
All-le a b (c ∷ cs) h k = (omega arith, All-le a b cs h k.1)

insert_by_id-All :
    (a : ℕ) (b : Broker) (cs : List Broker)
    → a ≤ b.id
    → All (λ c. a ≤ c.id) cs
    → All (λ c. a ≤ c.id) (insert_by_id b cs)
unfolding insert_by_id
insert_by_id-All a b [] h k = (h, tt)
insert_by_id-All a b (c ∷ cs) h k = ground (arith, insert_by_id-All a b cs)

insert_by_id-IsSorted : (b : Broker) (cs : List Broker) → IsSorted cs → IsSorted (insert_by_id b cs)
unfolding insert_by_id
insert_by_id-IsSorted b [] s = (tt, tt)
insert_by_id-IsSorted b (c ∷ cs) s =
    ground (arith, insert_by_id-IsSorted b cs s.1, insert_by_id-All c.id b cs, All-le b.id c.id cs)

pub sort_by_id-IsSorted : (bs : List Broker) → IsSorted (sort_by_id bs)
unfolding sort_by_id
sort_by_id-IsSorted [] = tt
sort_by_id-IsSorted (b ∷ bs) = insert_by_id-IsSorted b (sort_by_id bs) (sort_by_id-IsSorted bs)

count-insert_by_id :
    (p : Broker → Bool) (b : Broker) (cs : List Broker)
    → count p (insert_by_id b cs) ≡ count p (b ∷ cs)
unfolding insert_by_id
count-insert_by_id p b [] = refl
count-insert_by_id p b (c ∷ cs) = ground (arith, count-insert_by_id p b cs)

pub count-sort_by_id : (p : Broker → Bool) (bs : List Broker) → count p (sort_by_id bs) ≡ count p bs
unfolding sort_by_id
count-sort_by_id p [] = refl
count-sort_by_id p (b ∷ bs) =
    omega (arith, count-insert_by_id p b (sort_by_id bs), count-sort_by_id p bs)

pub length-sort_by_id : (bs : List Broker) → length (sort_by_id bs) ≡ length bs
length-sort_by_id bs =
    sym (count-true (sort_by_id bs)) ∙ count-sort_by_id (λ _. Bool.true) bs ∙ count-true bs
