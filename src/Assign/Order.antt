-- ===== src/Assign/Order.antt =====
-- The order that the brokers are alternated in.
use strimzi_canary.Common.{
  suc, ◌≡◌, ◌≢◌, refl, sym, ap, ◌∙◌, ap₂, Bool, true, false, List, [], ◌∷◌, ◌++◌, if◌then◌else◌,
  ◌==◌, ==_iff, length, count, count-true, count-le-length, All, String, arith, ◌⊎◌, append-nil, ok,
  if_true, if_false,
}
use native.Mathlib.Decide.{ℕ_discrete}
use strimzi_canary.Assign.{Broker, Grouping, group, no_racks, alternate, brokers_at}
use strimzi_canary.Assign.Columns.{columns, count_all, length_all, count-columns}
use strimzi_canary.Assign.Racks.{
  Distinct, contains, select, selections, racked, Groups, no_racks-Groups, count-selections,
}
use strimzi_canary.Assign.Rounds.{held}
use strimzi_canary.Assign.Rotation.{deal_all-columns}
use text.Mathlib.Text.{◌==◌ as str_eq}
use text.Mathlib.TextEquality.{eq_iff}

-- The brokers `os` are `bs`, or, if each of these has a rack, the columns of the racks.
pub record Alternated (bs os : List Broker) : Type 0 where
  pub plain : length bs ≢ racked bs → os ≡ bs
  pub by_rack :
      length bs ≡ racked bs
      → (names : List String) × Distinct names
        × All (λ b. contains b.rack names ≡ true) bs
        × (os ≡ columns (suc (length bs)) (selections names bs))
  pub same_brokers : (p : Broker → Bool) → count p os ≡ count p bs

length_all-count : (ls : List (List Broker)) → length_all ls ≡ count_all (λ _. true) ls
length_all-count [] = refl
length_all-count (l ∷ ls) = omega (arith, count-true l, length_all-count ls)

each_in_names :
    (names : List String) (bs : List Broker)
    → length bs ≡ racked bs
    → All (λ b. (b.rack ≡ "") ⊎ (contains b.rack names ≡ true)) bs
    → All (λ b. contains b.rack names ≡ true) bs
each_in_names names [] e h = tt
each_in_names names (b ∷ bs) e h = ground (
  arith,
  each_in_names names bs,
  h.0,
  h.1,
  eq_iff b.rack "",
  count-le-length (λ c. if str_eq c.rack "" then false else true) bs,
)

held-select :
    (names : List String) (bs : List Broker) (m : List (String × List Broker))
    → ((name : String) → name ≢ "" → brokers_at name m ≡ select name bs)
    → All (λ name. name ≢ "") names
    → held names m ≡ selections names bs
held-select [] bs m at h = refl
held-select (name ∷ names) bs m at h = ap₂ ◌∷◌ (at name h.0) (held-select names bs m at h.1)

nil_of_length : (l : List Broker) → length l ≡ 0 → l ≡ []
nil_of_length [] h = refl
nil_of_length (x ∷ xs) h = absurd (omega arith)

module _ (bs : List Broker) where
  abbrev grouping : Grouping
  grouping = group no_racks bs

  abbrev names : List String
  names = grouping.rack_names

  groups : Groups bs grouping
  groups = no_racks-Groups bs

  length-selections : length bs ≡ racked bs → length_all (selections names bs) ≡ length bs
  length-selections e =
      length_all-count (selections names bs)
      ∙ count-selections (λ _. true) names bs groups.distinct
          (each_in_names names bs e groups.covered)
      ∙ count-true bs

  alternate-racked :
      length bs ≡ racked bs → alternate bs ≡ ok (columns (suc (length bs)) (selections names bs))
  unfolding alternate
  alternate-racked e =
      let shown = held-select names bs grouping.rack_map groups.at groups.named in
      let total = ap length_all shown ∙ length-selections e in
      let (left, run, fits) =
        deal_all-columns (length bs) names [] bs
          (record { rack_map = grouping.rack_map; brokers = bs; index = 0; again = false })
          groups.distinct (refl, refl) (omega (arith, total)) (omega (arith, total)) in
      if_true (length bs == grouping.with_rack) _ _ ((==_iff _ _).1 (e ∙ sym groups.counted))
      ∙ run
      ∙ ap₂ (λ (ls : List (List Broker)) (l : List Broker). ok (columns (suc (length bs)) ls ++ l))
          shown (nil_of_length left (omega (arith, total)))
      ∙ ap ok (append-nil (columns (suc (length bs)) (selections names bs)))

  alternate_plain : length bs ≢ racked bs → alternate bs ≡ ok bs
  unfolding alternate
  alternate_plain ne =
      if_false (length bs == grouping.with_rack) _ _ (ground (arith, groups.counted))

  -- Alternating the brokers by rack never panics and always ends. It gives each broker once, in
  -- the order of the columns of the racks if every broker has a rack, and as they were if not.
  pub alternate-Alternated : (os : List Broker) × (alternate bs ≡ ok os) × Alternated bs os
  alternate-Alternated = elim (ℕ_discrete (length bs) (racked bs)) [
    | yes e ↦ (
      columns (suc (length bs)) (selections names bs),
      alternate-racked e,
      record {
        plain = λ ne. absurd (ne e);
        by_rack = λ _. (names, groups.distinct, each_in_names names bs e groups.covered, refl);
        same_brokers = λ p.
            count-columns p (suc (length bs)) (selections names bs)
              (omega (arith, length-selections e))
            ∙ count-selections p names bs groups.distinct (each_in_names names bs e groups.covered);
      },
    )
    | no ne ↦ (
      bs,
      alternate_plain ne,
      record { plain = λ _. refl; by_rack = λ e. absurd (ne e); same_brokers = λ p. refl },
    )
  ]
