-- ===== src/Assign/Spread.antt =====
-- Replicas on different racks, when the racks are of the same size.
use strimzi_canary.Common.{
  ℕ, zero, suc, ◌+◌, ◌≤◌, ◌<◌, min, max, ◌≡◌, ◌≢◌, sym, ap, ◌∙◌, inl, inr, Bool, Bool-cases, true,
  false, ◌&&◌, List, [], ◌∷◌, some, length, get_elem?, count, arith, ok, ◌==◌, ==_refl,
}
use strimzi_canary.Common.Maps.{lookup, nat_eq}
use strimzi_canary.Common.Modular.{mod-ne}
use text.Mathlib.Text.{◌==◌ as str_eq}
use text.Mathlib.TextEquality.{eq_iff}
use text.Mathlib.TextPositions.{eq_refl}
use strimzi_canary.Assign.{Broker, Assignments, requested_assignments}
use strimzi_canary.Assign.Replicas.{DistinctIds}
use strimzi_canary.Assign.Requested.{same_length, asked_of_run}
use strimzi_canary.Assign.Even.{AreEven, same_place, ordered-Cycled, rack_at}

module _ (p : Broker → Bool) where
  count-passes :
      (bs : List Broker) (i : ℕ) (b : Broker)
      → get_elem? bs i ≡ some b
      → p b ≡ true
      → 0 < count p bs
  count-passes [] i b e h = absurd (cc e)
  count-passes (x ∷ bs) zero b e h = ground arith
  count-passes (x ∷ bs) (suc i) b e h = omega (arith, count-passes bs i b e h)

  count-le :
      (q : Broker → Bool) (bs : List Broker)
      → ((b : Broker) → p b ≡ true → q b ≡ true)
      → count p bs ≤ count q bs
  count-le q [] h = omega arith
  count-le q (x ∷ bs) h = ground (arith, count-le q bs h, h x)

  -- A test that passes on less than another one counts less.
  count-lt :
      (q : Broker → Bool) (bs : List Broker) (i : ℕ) (b : Broker)
      → ((b : Broker) → p b ≡ true → q b ≡ true)
      → get_elem? bs i ≡ some b
      → p b ≡ false
      → q b ≡ true
      → count p bs < count q bs
  count-lt q [] i b h e np nq = absurd (cc e)
  count-lt q (x ∷ bs) zero b h e np nq =
      let same : x ≡ b = cc e in ground (arith, count-le q bs h, ap p same, ap q same)
  count-lt q (x ∷ bs) (suc i) b h e np nq = ground (arith, count-lt q bs i b h e np nq, h x)

-- Brokers of two lists with the same entries, that have the same id, are on the same rack.
same_rack :
    (brokers ordered : List Broker) (i k : ℕ) (b c : Broker)
    → DistinctIds brokers
    → ((p : Broker → Bool) → count p ordered ≡ count p brokers)
    → get_elem? brokers i ≡ some b
    → get_elem? ordered k ≡ some c
    → b.id ≡ c.id
    → b.rack ≡ c.rack
same_rack brokers ordered i k b c distinct same at there id =
    let both : Broker → Bool = λ x. (x.id == c.id) && str_eq x.rack c.rack in
    elim (Bool-cases (str_eq b.rack c.rack)) [
      | inl e ↦ (eq_iff b.rack c.rack).0 e
      | inr ne ↦
          let some_one : 0 < count both ordered =
            count-passes both ordered k c there (ground (arith, eq_refl c.rack, ==_refl c.id)) in
          let less : count both brokers < count (λ x. x.id == c.id) brokers =
            count-lt both (λ x. x.id == c.id) brokers i b (λ x h. ground (arith, h)) at
              (ground (arith, ne)) (ground (arith, id)) in
          absurd (omega (arith, some_one, less, same both, distinct c.id))
    ]

module _ (size current : ℕ) (brokers : List Broker) (m : Assignments) (min_isr : ℕ)
    (distinct : DistinctIds brokers) (even : AreEven size brokers)
    (run : requested_assignments current brokers ≡ ok (m, min_isr)) where
  -- When every broker is on a rack, no two brokers have the same id, and there are three racks or more, all with
  -- as many brokers, the replicas of an assigned partition are on brokers of different racks.
  pub racks-distinct :
      (q r s : ℕ) (ids : List ℕ) (i j : ℕ) (b c : Broker)
      → lookup q m ≡ some ids
      → q < max current (length brokers)
      → r < s
      → s < length ids
      → get_elem? brokers i ≡ some b
      → get_elem? brokers j ≡ some c
      → get_elem? ids r ≡ some b.id
      → get_elem? ids s ≡ some c.id
      → b.rack ≢ c.rack
  racks-distinct q r s ids i j b c at lt rs sl is_b is_c first second e =
      let (ordered, asked) = asked_of_run current brokers m min_isr distinct run in
      let cycled = ordered-Cycled size current brokers ordered m even asked in
      let (found, at', are) = asked.assigned q lt in
      let same : found ≡ ids = cc (sym at' ∙ at) in
      let whole : length ids ≡ min (length brokers) 3 = ap length (sym same) ∙ are.length_is in
      let some_one : 0 < length ordered =
        omega (arith, same_length brokers ordered asked.same_brokers, even.three, even.filled) in
      let (x, there, id) = are.place r (omega (arith, whole)) in
      let (y, there', id') = are.place s (omega (arith, whole)) in
      let rack =
        same_rack brokers ordered i _ b x distinct asked.same_brokers is_b there
          (cc (sym first ∙ ap (λ l. get_elem? l r) (sym same) ∙ id)) in
      let rack' =
        same_rack brokers ordered j _ c y distinct asked.same_brokers is_c there'
          (cc (sym second ∙ ap (λ l. get_elem? l s) (sym same) ∙ id')) in
      mod-ne (length cycled.names) (q + r) (q + s) (omega arith)
        (omega (arith, cycled.three, whole))
        (same_place cycled.names _ _ x.rack cycled.distinct
          (rack_at size ordered (q + r) x cycled some_one there)
          (rack_at size ordered (q + s) y cycled some_one there'
            ∙ ap some (sym rack' ∙ sym e ∙ rack)))
