-- ===== src/Assign/Rounds.antt =====
-- One round that deals the racks out writes their heads over the list of brokers.
use strimzi_canary.Common.{
  ◌+◌, ◌≤◌, ◌≡◌, refl, sym, ap, ◌∙◌, Bool, true, false, ◌||◌, List, [], ◌∷◌, ◌++◌, map,
  if◌then◌else◌, length, set-append, String, arith, ◌⊎◌, inl, inr, append_assoc, append-nil, ok,
  assign_in_bounds, length-append,
}
use mathlib.Core.Path.{ap₂}
use strimzi_canary.Common.Maps.{insert, lookup-insert, string_eq}
use strimzi_canary.Assign.{Broker, Deal, deal_from, deal_round, brokers_at}
use strimzi_canary.Assign.Columns.{tail, heads}
use strimzi_canary.Assign.Racks.{contains, Distinct}
use text.Mathlib.Text.{◌==◌ as str_eq}
use text.Mathlib.TextEquality.{eq_iff}
use text.Mathlib.TextPositions.{eq_refl}

abbrev pub Map : Type 0
Map = List (String × List Broker)

-- the brokers that the racks have left
abbrev pub held : List String → Map → List (List Broker)
held names m = map (λ name. brokers_at name m) names

List-cases {ℓ} : {A : Type ℓ} (l : List A) → (l ≡ []) ⊎ ((x : A) × (xs : List A) × (l ≡ x ∷ xs))
List-cases [] = inl refl
List-cases (x ∷ xs) = inr (x, xs, refl)

brokers_at-insert :
    (name x : String) (v : List Broker) (m : Map)
    → brokers_at x (insert name v m) ≡ (if str_eq name x then v else brokers_at x m)
brokers_at-insert name x v m = rw lookup-insert (ground arith)

held-insert :
    (names : List String) (name : String) (v : List Broker) (m : Map)
    → contains name names ≡ false
    → held names (insert name v m) ≡ held names m
held-insert [] name v m h = refl
held-insert (x ∷ xs) name v m h =
    ground
      (arith, held-insert xs name v m, brokers_at-insert name x v m, eq_iff name x, eq_iff x name)

abbrev pub nonempty : List Broker → Bool
nonempty [] = false
nonempty (b ∷ bs) = true

-- What a round over `names` makes of a deal whose list is `front ++ rest`, with `front` dealt.
pub record Dealt (names : List String) (front rest : List Broker) (d d' : Deal) : Type 0 where
  pub left : List Broker
  pub brokers_are : d'.brokers ≡ (front ++ heads (held names d.rack_map)) ++ left
  pub index_is : d'.index ≡ length (front ++ heads (held names d.rack_map))
  pub length-left : length left + length (heads (held names d.rack_map)) ≡ length rest
  pub again_is : d'.again ≡ (d.again || nonempty (heads (held names d.rack_map)))
  pub others :
      (x : String) → contains x names ≡ false → brokers_at x d'.rack_map ≡ brokers_at x d.rack_map
  pub taken : held names d'.rack_map ≡ map tail (held names d.rack_map)

abbrev pub At : List Broker → List Broker → Deal → Type 0
At front rest d = (d.brokers ≡ front ++ rest) × (d.index ≡ length front)

-- the deal after a rack gave its head
abbrev given : String → List Broker → List Broker → Broker → List Broker → Deal → Deal
given name front left head others d = record {
  rack_map = insert name others d.rack_map;
  brokers = front ++ head ∷ left;
  index = d.index + 1;
  again = true;
}

deal_from-given :
    (name : String) (front left : List Broker) (next head : Broker) (others : List Broker)
    (d : Deal)
    → At front (next ∷ left) d
    → deal_from name (head ∷ others) d ≡ ok (given name front left head others d)
unfolding deal_from
deal_from-given name front left next head others d h = rw (
  h.0,
  h.1,
  assign_in_bounds (front ++ next ∷ left) (length front) head
      (omega (arith, length-append front (next ∷ left))),
  set-append front next head left,
)

-- A rack with nothing left changes nothing.
Dealt-skip :
    (name : String) (names : List String) (front rest : List Broker) (d d' : Deal)
    → contains name names ≡ false
    → brokers_at name d.rack_map ≡ []
    → Dealt names front rest d d'
    → Dealt (name ∷ names) front rest d d'
Dealt-skip name names front rest d d' absent empty h = record {
  left = h.left;
  brokers_are = rw empty h.brokers_are;
  index_is = rw empty h.index_is;
  length-left = rw empty h.length-left;
  again_is = rw empty h.again_is;
  others = λ x nx. h.others x (ground arith);
  taken = rw empty (ap₂ ◌∷◌ (h.others name absent ∙ empty) h.taken);
}

-- A rack that gives its head comes before the heads of the racks that follow it.
Dealt-give :
    (name : String) (names : List String) (front left : List Broker) (next head : Broker)
    (others : List Broker) (d d' : Deal)
    → contains name names ≡ false
    → brokers_at name d.rack_map ≡ head ∷ others
    → Dealt names (front ++ head ∷ []) left (given name front left head others d) d'
    → Dealt (name ∷ names) front (next ∷ left) d d'
Dealt-give name names front left next head others d d' absent full h = record {
  left = h.left;
  brokers_are = rw full (h.brokers_are ∙ ap (λ (bs : List Broker). bs ++ h.left) regroup);
  index_is = rw full (h.index_is ∙ ap (length {A = Broker}) regroup);
  length-left = rw full (omega (arith, rw same at h.length-left));
  again_is = rw full (ground arith);
  others =
      λ x nx. h.others x (ground arith) ∙ brokers_at-insert name x others d.rack_map ∙ ground arith;
  taken = rw full (
      ap₂ ◌∷◌
        (h.others name absent
          ∙ brokers_at-insert name name others d.rack_map
          ∙ ground (arith, eq_refl name))
        (h.taken ∙ ap (map tail) same));
}
  where
    same : held names (insert name others d.rack_map) ≡ held names d.rack_map
    same = held-insert names name others d.rack_map absent

    regroup :
        (front ++ head ∷ []) ++ heads (held names (insert name others d.rack_map))
        ≡ front ++ head ∷ heads (held names d.rack_map)
    regroup =
        append_assoc front (head ∷ []) _
        ∙ ap (λ (ls : List (List Broker)). front ++ head ∷ heads ls) same

-- A round over `names` from a deal `d` gives what `Dealt` says.
abbrev pub RoundsTo : List String → List Broker → List Broker → Deal → Type 0
RoundsTo names front rest d =
    (d' : Deal) × (deal_round names d ≡ ok d') × Dealt names front rest d d'

skip_rack :
    (name : String) (names : List String) (front rest : List Broker) (d : Deal)
    → contains name names ≡ false
    → brokers_at name d.rack_map ≡ []
    → RoundsTo names front rest d
    → RoundsTo (name ∷ names) front rest d
unfolding deal_round
skip_rack name names front rest d absent empty (d', run, dealt) =
    (d', rw (empty, deal_from) run, Dealt-skip name names front rest d d' absent empty dealt)

give_rack :
    (name : String) (names : List String) (front left : List Broker) (next head : Broker)
    (others : List Broker) (d : Deal)
    → contains name names ≡ false
    → brokers_at name d.rack_map ≡ head ∷ others
    → At front (next ∷ left) d
    → RoundsTo names (front ++ head ∷ []) left (given name front left head others d)
    → RoundsTo (name ∷ names) front (next ∷ left) d
unfolding deal_round
give_rack name names front left next head others d absent full h (d', run, dealt) = (
  d',
  rw (full, deal_from-given name front left next head others d h) run,
  Dealt-give name names front left next head others d d' absent full dealt,
)

pub deal_round-Dealt :
    (names : List String) (front rest : List Broker) (d : Deal)
    → Distinct names
    → At front rest d
    → length (heads (held names d.rack_map)) ≤ length rest
    → RoundsTo names front rest d
unfolding deal_round
deal_round-Dealt [] front rest d u h room = (
  d,
  refl,
  record {
    left = rest;
    brokers_are = rw append-nil h.0;
    index_is = rw append-nil h.1;
    length-left = omega arith;
    again_is = ground arith;
    others = λ x _. refl;
    taken = refl;
  },
)
deal_round-Dealt (name ∷ names) front [] d u h room =
    elim (List-cases (brokers_at name d.rack_map)) [
      | inl empty ↦
          skip_rack name names front [] d u.0 empty
            (deal_round-Dealt names front [] d u.1 h (rw empty at room))
      | inr (head, others, full) ↦ absurd (omega (arith, rw full at room))
    ]
deal_round-Dealt (name ∷ names) front (next ∷ left) d u h room =
    elim (List-cases (brokers_at name d.rack_map)) [
      | inl empty ↦
          skip_rack name names front (next ∷ left) d u.0 empty
            (deal_round-Dealt names front (next ∷ left) d u.1 h (rw empty at room))
      | inr (head, others, full) ↦ give_rack name names front left next head others d u.0 full h (
          deal_round-Dealt names (front ++ head ∷ []) left (given name front left head others d) u.1
            (
              sym (append_assoc front (head ∷ []) left),
              omega (arith, h.1, length-append front (head ∷ [])),
            )
            (rw (held-insert names name others d.rack_map u.0) (omega (arith, rw full at room))))
    ]
