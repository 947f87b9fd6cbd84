-- ===== src/Manager/Leaders.antt =====
-- When the manager takes the leaders to have changed.
use strimzi_canary.Common.{
  ℕ, ◌≡◌, refl, sym, ap, ◌∙◌, ◌↔◌, String, Bool, true, false, not, ◌&&◌, List, [], ◌∷◌, Option,
  none, some, ◌==◌, ==_iff, ==_refl, Bool-cases, inl, inr, Result, value, error, arith,
}
use strimzi_canary.Common.Int.{ℤ, pos, negsuc, eqb_ℤ}
use strimzi_canary.Common.Maps.{lookup, nat_eq}
use strimzi_canary.Topic.Types.{Errors, TopicSettings}
use strimzi_canary.Manager.{same_value, same_at, all_keys, deep_equal, have_changed}

eqb_ℤ-sound : (a b : ℤ) → eqb_ℤ a b ≡ true → a ≡ b
eqb_ℤ-sound (pos a) (pos b) h = ap pos (omega (arith, (==_iff _ _).0 h))
eqb_ℤ-sound (pos a) (negsuc b) h = absurd (omega (arith, (==_iff _ _).0 h))
eqb_ℤ-sound (negsuc a) (pos b) h = absurd (omega (arith, (==_iff _ _).0 h))
eqb_ℤ-sound (negsuc a) (negsuc b) h = ap negsuc (omega (arith, (==_iff _ _).0 h))

eqb_ℤ-refl : (a : ℤ) → eqb_ℤ a a ≡ true
eqb_ℤ-refl a = ==_refl _

same_value_sound : (a b : Option ℤ) → same_value a b ≡ true → a ≡ b
same_value_sound none none h = refl
same_value_sound (some a) (some b) h = ap some (eqb_ℤ-sound a b h)
same_value_sound none (some b) h = absurd (cc h)
same_value_sound (some a) none h = absurd (cc h)

same_value_refl : (a : Option ℤ) → same_value a a ≡ true
same_value_refl none = refl
same_value_refl (some a) = eqb_ℤ-refl a

unnegated : (b : Bool) → not b ≡ false → b ≡ true
unnegated true h = refl
unnegated false h = absurd (cc h)

and_true : (a b : Bool) → (a && b) ≡ true → (a ≡ true) × (b ≡ true)
and_true true b h = (refl, h)
and_true false b h = absurd (cc h)

-- A test that all keys pass is passed by each key that has a value.
all_keys-lookup :
    (test : ℕ → Bool) (m : List (ℕ × ℤ)) (k : ℕ) (v : ℤ)
    → all_keys test m ≡ true
    → lookup k m ≡ some v
    → test k ≡ true
unfolding lookup
all_keys-lookup test [] k v h found = absurd (cc found)
all_keys-lookup test ((j, w) ∷ m) k v h found =
    let (first, rest) = and_true (test j) (all_keys test m) h in
    elim (Bool-cases (j == k)) [
      | inl same ↦ let e : j ≡ k = (==_iff j k).0 same in rw (← e) first
      | inr other ↦ all_keys-lookup test m k v rest (rw other at found)
    ]

all_keys-all :
    (test : ℕ → Bool) (m : List (ℕ × ℤ)) → ((k : ℕ) → test k ≡ true) → all_keys test m ≡ true
all_keys-all test [] h = refl
all_keys-all test ((k, v) ∷ m) h = rw (h k) (all_keys-all test m h)

-- Two maps are equal to DeepEqual just if they have the same value, or none, at every key.
pub deep_equal_iff :
    (m n : List (ℕ × ℤ)) → (deep_equal m n ≡ true) ↔ ((k : ℕ) → lookup k m ≡ lookup k n)
unfolding deep_equal
deep_equal_iff m n = (same, equal)
  where
    same : deep_equal m n ≡ true → (k : ℕ) → lookup k m ≡ lookup k n
    same h k =
        let (left, right) = and_true (all_keys (same_at m n) m) (all_keys (same_at m n) n) h in
        at (lookup k m) (lookup k n) refl refl left right
      where
        at :
            (x y : Option ℤ)
            → lookup k m ≡ x
            → lookup k n ≡ y
            → all_keys (same_at m n) m ≡ true
            → all_keys (same_at m n) n ≡ true
            → lookup k m ≡ lookup k n
        at none none hm hn left right = hm ∙ sym hn
        at (some v) y hm hn left right =
            same_value_sound (lookup k m) (lookup k n) (all_keys-lookup (same_at m n) m k v left hm)
        at none (some v) hm hn left right =
            same_value_sound (lookup k m) (lookup k n)
              (all_keys-lookup (same_at m n) n k v right hn)

    equal : ((k : ℕ) → lookup k m ≡ lookup k n) → deep_equal m n ≡ true
    equal h =
        let all : (k : ℕ) → same_at m n k ≡ true = λ k. rw (h k) (same_value_refl (lookup k n)) in
        rw (all_keys-all (same_at m n) m all, all_keys-all (same_at m n) n all) refl

module _ (er : Errors) (cfg : TopicSettings) (client_id : String) where
  -- The leaders have not changed just if the consumer's client knows them, and they are those of the topic.
  pub have_changed_iff :
      (m : List (ℕ × ℤ)) (found : Result er.E (List (ℕ × ℤ)))
      → (have_changed er cfg client_id m found ≡ false)
        ↔ ((n : List (ℕ × ℤ)) × (found ≡ value n) × ((k : ℕ) → lookup k m ≡ lookup k n))
  unfolding have_changed
  have_changed_iff m (error e) = (λ h. absurd (cc h), λ (n, h, same). absurd (cc h))
  have_changed_iff m (value n) = (
    λ h. (n, refl, (deep_equal_iff m n).0 (unnegated (deep_equal m n) h)),
    λ (n', h, same).
        let e : n' ≡ n = cc h in
        rw ((deep_equal_iff m n).1 (λ k. same k ∙ ap (λ (l : List (ℕ × ℤ)). lookup k l) e)) refl,
  )
