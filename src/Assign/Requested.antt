-- ===== src/Assign/Requested.antt =====
-- The assignments that a reconcile asks for, for any brokers and any number of partitions.
use strimzi_canary.Common.{
  ℕ, zero, suc, ◌+◌, ◌-◌, ◌≤◌, ◌<◌, min, max, ◌≡◌, ◌≢◌, refl, sym, ◌∙◌, ◌⊎◌, inl, inr, Bool, List,
  [], none, some, ◌==◌, ==_refl, length, get_elem?, count, count-true, arith, ok,
}
use strimzi_canary.Common.Maps.{lookup, insert, lookup-insert, length-insert_new, nat_eq}
use strimzi_canary.Common.Modular.{mod-ne}
use native.Mathlib.Decide.{dec_lt}
use strimzi_canary.Assign.{
  Broker, sort_by_id, Assignments, assign_partitions, requested_assignments,
}
use strimzi_canary.Assign.Sort.{count-sort_by_id}
use strimzi_canary.Assign.Order.{Alternated, alternate-Alternated}
use strimzi_canary.Assign.Replicas.{AreReplicas, replicas-AreReplicas, DistinctIds, ids_ne}

-- `m'` is `m` with the `partitions` partitions from `p` on.
record Assigned (bs : List Broker) (factor p partitions : ℕ) (m m' : Assignments) : Type 0 where
  entries : length m' ≡ length m + partitions
  before : (q : ℕ) → q < p → lookup q m' ≡ lookup q m
  within :
      (q : ℕ)
      → p ≤ q
      → q < p + partitions
      → (ids : List ℕ) × (lookup q m' ≡ some ids) × AreReplicas bs q factor ids
  beyond : (q : ℕ) → p + partitions ≤ q → lookup q m' ≡ none

first_partition :
    (bs : List Broker) (factor p partitions : ℕ) (ids : List ℕ) (m m' : Assignments)
    → ((q : ℕ) → p ≤ q → lookup q m ≡ none)
    → AreReplicas bs p factor ids
    → Assigned bs factor (p + 1) partitions (insert p ids m) m'
    → Assigned bs factor p (suc partitions) m m'
first_partition bs factor p partitions ids m m' free are h = record {
  entries = omega (arith, h.entries, length-insert_new p ids m (free p (omega arith)));
  before = λ q lt. h.before q (omega arith) ∙ lookup-insert p q ids m ∙ ground arith;
  within = λ q le lt. elim (dec_lt p q) [
    | yes later ↦ h.within q (omega arith) (omega arith)
    | no first ↦
        let here : p ≡ q = omega arith in
        rw (← here)
          (ids, h.before p (omega arith) ∙ lookup-insert p p ids m ∙ ground (arith, ==_refl p), are)
  ];
  beyond = λ q le. h.beyond q (omega arith);
}

assign_partitions-Assigned :
    (bs : List Broker) (factor p partitions : ℕ) (m : Assignments)
    → (factor ≡ 0) ⊎ (0 < length bs)
    → ((q : ℕ) → p ≤ q → lookup q m ≡ none)
    → (m' : Assignments) × (assign_partitions bs factor p partitions m ≡ ok m')
      × Assigned bs factor p partitions m m'
unfolding assign_partitions
assign_partitions-Assigned bs factor p zero m some_broker free = (
  m,
  refl,
  record {
    entries = omega arith;
    before = λ q lt. refl;
    within = λ q le lt. absurd (omega arith);
    beyond = λ q le. free q (omega arith);
  },
)
assign_partitions-Assigned bs factor p (suc partitions) m some_broker free =
    let (ids, run, are) = replicas-AreReplicas bs p factor some_broker in
    let (m', rest, assigned) =
      assign_partitions-Assigned bs factor (p + 1) partitions (insert p ids m) some_broker
        (λ q le. lookup-insert p q ids m ∙ ground (arith, free q)) in
    (m', rw (run, rest), first_partition bs factor p partitions ids m m' free are assigned)

-- What is asked of `n` brokers whose topic has `current` partitions.
pub record Requested (current : ℕ) (brokers : List Broker) (ordered : List Broker) (m : Assignments)
    : Type 0 where
  -- the order in which the brokers are used: by id, alternated by rack
  pub order : Alternated (sort_by_id brokers) ordered
  -- it has each broker once
  pub same_brokers : (p : Broker → Bool) → count p ordered ≡ count p brokers
  -- a partition for each current one and for each broker, and no other
  pub partitions : length m ≡ max current (length brokers)
  pub assigned :
      (q : ℕ)
      → q < max current (length brokers)
      → (ids : List ℕ) × (lookup q m ≡ some ids)
        × AreReplicas ordered q (min (length brokers) 3) ids
  pub unassigned : (q : ℕ) → max current (length brokers) ≤ q → lookup q m ≡ none

pub same_length :
    (brokers ordered : List Broker)
    → ((p : Broker → Bool) → count p ordered ≡ count p brokers)
    → length ordered ≡ length brokers
same_length brokers ordered same =
    sym (count-true ordered) ∙ same (λ _. Bool.true) ∙ count-true brokers

factor_or_broker :
    (brokers ordered : List Broker)
    → length ordered ≡ length brokers
    → (min (length brokers) 3 ≡ 0) ⊎ (0 < length ordered)
factor_or_broker brokers ordered e = elim (dec_lt 0 (length brokers)) [
  | yes h ↦ inr (omega arith)
  | no h ↦ inl (omega arith)
]

-- The assignments are computed without a panic for any number of brokers and partitions: as many
-- partitions as there are now or brokers, whichever is more, each on the brokers from its own place
-- on in one order of all brokers, with three replicas or as many as there are brokers, and a
-- min.insync.replicas of one less, but at least one.
pub requested_assignments-Requested :
    (current : ℕ) (brokers : List Broker)
    → (ordered : List Broker) × (m : Assignments) × (requested_assignments current brokers
        ≡ ok (m, max 1 (min (length brokers) 3 - 1)))
      × Requested current brokers ordered m
unfolding requested_assignments lookup
requested_assignments-Requested current brokers =
    let (ordered, run, order) = alternate-Alternated (sort_by_id brokers) in
    let same : (p : Broker → Bool) → count p ordered ≡ count p brokers =
      λ p. order.same_brokers p ∙ count-sort_by_id p brokers in
    let (m, all, assigned) =
      assign_partitions-Assigned ordered (min (length brokers) 3) 0 (max current (length brokers))
        [] (factor_or_broker brokers ordered (same_length brokers ordered same)) (λ q le. refl) in
    (
      ordered,
      m,
      rw (run, all),
      record {
        order = order;
        same_brokers = same;
        partitions = assigned.entries ∙ omega arith;
        assigned = λ q lt. assigned.within q (omega arith) (omega arith);
        unassigned = λ q le. assigned.beyond q (omega arith);
      },
    )

module _ (current : ℕ) (brokers ordered : List Broker) (m : Assignments)
    (distinct : DistinctIds brokers) (asked : Requested current brokers ordered m) where
  ordered-DistinctIds : DistinctIds ordered
  ordered-DistinctIds x = omega (arith, asked.same_brokers (λ b. b.id == x), distinct x)

  ordered-length : length ordered ≡ length brokers
  ordered-length = same_length brokers ordered asked.same_brokers

  -- two replicas at different places of the ring are on different brokers
  places_ne :
      (q r s t : ℕ) (ids ids' : List ℕ)
      → q + r < s + t
      → s + t < q + r + length ordered
      → AreReplicas ordered q (min (length brokers) 3) ids
      → AreReplicas ordered s (min (length brokers) 3) ids'
      → r < min (length brokers) 3
      → t < min (length brokers) 3
      → get_elem? ids r ≢ get_elem? ids' t
  places_ne q r s t ids ids' lt le h h' hr ht e =
      let (b, there, id) = h.place r hr in
      let (c, there', id') = h'.place t ht in
      ids_ne ordered _ _ b c ordered-DistinctIds there there'
        (mod-ne (length ordered) (q + r) (s + t) lt le) (cc (sym id ∙ e ∙ id'))

  asked_replicas-distinct :
      (q : ℕ) (ids : List ℕ) (r s : ℕ)
      → lookup q m ≡ some ids
      → q < max current (length brokers)
      → r < s
      → s < length ids
      → get_elem? ids r ≢ get_elem? ids s
  asked_replicas-distinct q ids r s at lt rs sl =
      let (ids', at', are) = asked.assigned q lt in
      let same : ids' ≡ ids = cc in
      let are' = rw same at are in
      places_ne q r q s ids ids (omega arith) (omega (arith, ordered-length, are'.length_is)) are'
        are' (omega (arith, are'.length_is)) (omega (arith, are'.length_is))

  asked_leaders-distinct :
      (q s : ℕ) (ids ids' : List ℕ)
      → lookup q m ≡ some ids
      → lookup s m ≡ some ids'
      → s < max current (length brokers)
      → q < s
      → s < q + length brokers
      → get_elem? ids 0 ≢ get_elem? ids' 0
  asked_leaders-distinct q s ids ids' at at' lt qs sl =
      let (xs, found, are) = asked.assigned q (omega arith) in
      let (ys, found', are') = asked.assigned s lt in
      let same : xs ≡ ids = cc in
      let same' : ys ≡ ids' = cc in
      places_ne q 0 s 0 ids ids' (omega arith) (omega (arith, ordered-length)) (rw same at are)
        (rw same' at are') (omega arith) (omega arith)

module _ (current : ℕ) (brokers : List Broker) (m : Assignments) (min_isr : ℕ)
    (distinct : DistinctIds brokers)
    (run : requested_assignments current brokers ≡ ok (m, min_isr)) where
  pub asked_of_run : (ordered : List Broker) × Requested current brokers ordered m
  asked_of_run =
      let (ordered, m', run', asked) = requested_assignments-Requested current brokers in
      let same : m' ≡ m = cc in (ordered, rw same at asked)

  -- The replicas of an assigned partition are on different brokers, if no two brokers have the
  -- same id.
  pub replicas-distinct :
      (q : ℕ) (ids : List ℕ) (r s : ℕ)
      → lookup q m ≡ some ids
      → q < max current (length brokers)
      → r < s
      → s < length ids
      → get_elem? ids r ≢ get_elem? ids s
  replicas-distinct =
      let (ordered, asked) = asked_of_run in
      asked_replicas-distinct current brokers ordered m distinct asked

  -- Of as many partitions in a row as there are brokers no two have the same preferred leader, if
  -- no two brokers have the same id.
  pub leaders-distinct :
      (q s : ℕ) (ids ids' : List ℕ)
      → lookup q m ≡ some ids
      → lookup s m ≡ some ids'
      → s < max current (length brokers)
      → q < s
      → s < q + length brokers
      → get_elem? ids 0 ≢ get_elem? ids' 0
  leaders-distinct =
      let (ordered, asked) = asked_of_run in
      asked_leaders-distinct current brokers ordered m distinct asked
