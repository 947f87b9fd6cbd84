-- ===== src/Assign/Rotation.antt =====
-- The rounds that deal the racks out write the columns of the racks over the list of brokers.
use strimzi_canary.Common.{
  ℕ, zero, suc, ◌+◌, ◌≤◌, ◌<◌, ◌≡◌, refl, ap, ◌∙◌, true, false, List, [], ◌∷◌, ◌++◌, map, length,
  String, arith, inl, inr, Bool-cases, if_true, append_assoc, ok,
}
use strimzi_canary.Common.Maps.{string_eq}
use strimzi_canary.Assign.{Broker, Deal, deal_all}
use strimzi_canary.Assign.Columns.{
  tail, heads, columns, length_all, length-heads-tail, length_all-no_heads, columns-no_entries,
}
use strimzi_canary.Assign.Racks.{Distinct}
use strimzi_canary.Assign.Rounds.{held, nonempty, At, RoundsTo, deal_round-Dealt}

-- A round whose heads are nothing found every rack empty.
no_heads : (bs : List Broker) → nonempty bs ≡ false → bs ≡ []
no_heads [] h = refl
no_heads (b ∷ bs) h = absurd (cc)

some_heads : (bs : List Broker) → nonempty bs ≡ true → 0 < length bs
some_heads [] h = absurd (cc)
some_heads (b ∷ bs) h = omega arith

-- What the rounds write over a list `front ++ rest`.
abbrev pub DealsColumns : ℕ → List String → List Broker → List Broker → Deal → Type 0
DealsColumns fuel names front rest d =
    (left : List Broker) × (deal_all fuel names d
      ≡ ok ((front ++ columns fuel (held names d.rack_map)) ++ left))
    × (length left + length_all (held names d.rack_map) ≡ length rest)

stop_dealing :
    (fuel : ℕ) (names : List String) (front rest : List Broker) (d : Deal)
    → RoundsTo names front rest (record d { again = false })
    → nonempty (heads (held names d.rack_map)) ≡ false
    → DealsColumns (suc fuel) names front rest d
unfolding deal_all
stop_dealing fuel names front rest d (d', run, dealt) e =
    let none = no_heads (heads (held names d.rack_map)) e in
    let empty = length_all-no_heads (held names d.rack_map) (ap (length {A = Broker}) none) in
    (
      dealt.left,
      rw (run, dealt.again_is, e, columns-no_entries (suc fuel) (held names d.rack_map) empty)
          (ap ok (dealt.brokers_are ∙ ap (λ (bs : List Broker). (front ++ bs) ++ dealt.left) none)),
      omega (arith, dealt.length-left, empty, ap (length {A = Broker}) none),
    )

deal_on :
    (fuel : ℕ) (names : List String) (front rest : List Broker) (d : Deal)
    → (round : RoundsTo names front rest (record d { again = false }))
    → nonempty (heads (held names d.rack_map)) ≡ true
    → DealsColumns fuel names (front ++ heads (held names d.rack_map)) (round.2).left round.0
    → DealsColumns (suc fuel) names front rest d
unfolding deal_all
deal_on fuel names front rest d (d', run, dealt) e (left, all, fits) = (
  left,
  rw run (
      if_true d'.again _ _ (dealt.again_is ∙ e)
      ∙ all
      ∙ ap
          (λ (ls : List (List Broker)).
            ok (((front ++ heads (held names d.rack_map)) ++ columns fuel ls) ++ left))
          dealt.taken
      ∙ ap (λ (bs : List Broker). ok (bs ++ left))
          (append_assoc front (heads (held names d.rack_map))
            (columns fuel (map tail (held names d.rack_map))))),
  omega (
    arith,
    dealt.length-left,
    fits,
    ap length_all dealt.taken,
    length-heads-tail (held names d.rack_map),
  ),
)

first_round :
    (names : List String) (front rest : List Broker) (d : Deal)
    → Distinct names
    → At front rest d
    → length_all (held names d.rack_map) ≤ length rest
    → RoundsTo names front rest (record d { again = false })
first_round names front rest d u h room =
    deal_round-Dealt names front rest (record d { again = false }) u h
      (omega (arith, length-heads-tail (held names d.rack_map)))

-- With fuel above the brokers that are left, the rounds end, and write the columns.
pub deal_all-columns :
    (fuel : ℕ) (names : List String) (front rest : List Broker) (d : Deal)
    → Distinct names
    → At front rest d
    → length_all (held names d.rack_map) ≤ fuel
    → length_all (held names d.rack_map) ≤ length rest
    → DealsColumns (suc fuel) names front rest d
deal_all-columns zero names front rest d u h fits room =
    elim (Bool-cases (nonempty (heads (held names d.rack_map)))) [
      | inl more ↦ absurd (
          omega (
            arith,
            some_heads (heads (held names d.rack_map)) more,
            length-heads-tail (held names d.rack_map),
          ))
      | inr done ↦
          stop_dealing zero names front rest d (first_round names front rest d u h room) done
    ]
deal_all-columns (suc fuel) names front rest d u h fits room =
    elim (Bool-cases (nonempty (heads (held names d.rack_map)))) [
      | inl more ↦
          let round = first_round names front rest d u h room in
          let (d', run, dealt) = round in
          deal_on (suc fuel) names front rest d round more (
            deal_all-columns fuel names (front ++ heads (held names d.rack_map)) dealt.left d' u
              (dealt.brokers_are, dealt.index_is)
              (omega (
                arith,
                ap length_all dealt.taken,
                some_heads (heads (held names d.rack_map)) more,
                length-heads-tail (held names d.rack_map),
              ))
              (omega (
                arith,
                ap length_all dealt.taken,
                dealt.length-left,
                length-heads-tail (held names d.rack_map),
              )))
      | inr done ↦
          stop_dealing (suc fuel) names front rest d (first_round names front rest d u h room) done
    ]
