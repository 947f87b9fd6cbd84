-- ===== src/Assign/Cycles.antt =====
-- The racks of the brokers in the order of the columns, when all racks are of the same size: they follow each other
-- in the same cycle again and again.
use strimzi_canary.Common.{
  ℕ, zero, suc, ◌-◌, ◌*◌, ◌%◌, ◌≤◌, ◌<◌, ◌≡◌, refl, sym, ap, ap₂, ◌∙◌, List, [], ◌∷◌, ◌++◌, map,
  length, length-append, get_elem?, All, String, arith,
}
use mathlib.Core.List.{map-append}
use native.Mathlib.Decide.{dec_lt}
use native.Mathlib.Nat.{mod-eq_of_lt, mod-eq-sub-mod}
use strimzi_canary.Assign.{Broker}
use strimzi_canary.Assign.Columns.{tail, heads, columns, length_all, columns-no_entries}

module _ {ℓ} {A : Type ℓ} where
  -- the lists that are not empty
  abbrev pub live : List (List A) → List (List A)
  live [] = []
  live ([] ∷ ls) = live ls
  live ((x ∷ xs) ∷ ls) = (x ∷ xs) ∷ live ls

  heads-live : (ls : List (List A)) → heads (live ls) ≡ heads ls
  heads-live [] = refl
  heads-live ([] ∷ ls) = heads-live ls
  heads-live ((x ∷ xs) ∷ ls) = ap (λ l. x ∷ l) (heads-live ls)

  live_tails : (ls : List (List A)) → live (map tail (live ls)) ≡ live (map tail ls)
  live_tails [] = refl
  live_tails ([] ∷ ls) = live_tails ls
  live_tails ((x ∷ []) ∷ ls) = live_tails ls
  live_tails ((x ∷ (y ∷ ys)) ∷ ls) = ap (λ l. (y ∷ ys) ∷ l) (live_tails ls)

  -- Lists that are empty add nothing to the columns.
  pub columns-live : (k : ℕ) (ls : List (List A)) → columns k (live ls) ≡ columns k ls
  columns-live zero ls = refl
  columns-live (suc k) ls = ap₂ ◌++◌ (heads-live ls) (
      sym (columns-live k (map tail (live ls)))
      ∙ ap (columns k) (live_tails ls)
      ∙ columns-live k (map tail ls))

  -- a list, `n` times over
  abbrev pub cycles : ℕ → List A → List A
  cycles zero xs = []
  cycles (suc n) xs = xs ++ cycles n xs

  pub length-cycles : (n : ℕ) (xs : List A) → length (cycles n xs) ≡ n * length xs
  length-cycles zero xs = omega arith
  length-cycles (suc n) xs = omega (arith, length-append xs (cycles n xs), length-cycles n xs)

  get_elem?-append_left :
      (xs ys : List A) (i : ℕ) → i < length xs → get_elem? (xs ++ ys) i ≡ get_elem? xs i
  get_elem?-append_left [] ys i h = absurd (omega arith)
  get_elem?-append_left (x ∷ xs) ys zero h = refl
  get_elem?-append_left (x ∷ xs) ys (suc i) h = get_elem?-append_left xs ys i (omega arith)

  get_elem?-append_right :
      (xs ys : List A) (i : ℕ)
      → length xs ≤ i
      → get_elem? (xs ++ ys) i ≡ get_elem? ys (i - length xs)
  get_elem?-append_right [] ys i h = ap (get_elem? ys) (omega arith)
  get_elem?-append_right (x ∷ xs) ys zero h = absurd (omega arith)
  get_elem?-append_right (x ∷ xs) ys (suc i) h =
      get_elem?-append_right xs ys i (omega arith) ∙ ap (get_elem? ys) (omega arith)

  -- The entries of a cycle come again after each turn.
  pub get_elem?-cycles :
      (n : ℕ) (xs : List A) (i : ℕ)
      → i < n * length xs
      → get_elem? (cycles n xs) i ≡ get_elem? xs (i % length xs)
  get_elem?-cycles zero xs i h = absurd (omega arith)
  get_elem?-cycles (suc n) xs i h = elim (dec_lt i (length xs)) [
    | yes here ↦
        get_elem?-append_left xs (cycles n xs) i here
        ∙ ap (get_elem? xs) (sym (mod-eq_of_lt {n = i} {m = length xs} here))
    | no later ↦
        get_elem?-append_right xs (cycles n xs) i (omega arith)
        ∙ get_elem?-cycles n xs (i - length xs) (omega arith)
        ∙ ap (get_elem? xs) (sym (mod-eq-sub-mod {n = i} {m = length xs} (omega arith)))
  ]

-- Lists of `n` brokers each, of these racks.
abbrev pub OfRacks : ℕ → List String → List (List Broker) → Type 0
OfRacks n [] [] = Unit {0}
OfRacks n [] (l ∷ ls) = ⊥
OfRacks n (name ∷ names) [] = ⊥
OfRacks n (name ∷ names) (l ∷ ls) = (length l ≡ n) × All (λ b. b.rack ≡ name) l × OfRacks n names ls

abbrev pub racks : List Broker → List String
racks bs = map (λ b. b.rack) bs

racks-heads :
    (n : ℕ) (names : List String) (ls : List (List Broker))
    → OfRacks (suc n) names ls
    → racks (heads ls) ≡ names
racks-heads n [] [] h = refl
racks-heads n [] (l ∷ ls) h = absurd h
racks-heads n (name ∷ names) [] h = absurd h
racks-heads n (name ∷ names) ([] ∷ ls) h = absurd (omega (arith, h.0))
racks-heads n (name ∷ names) ((b ∷ l) ∷ ls) h = ap₂ ◌∷◌ h.1.0 (racks-heads n names ls h.2)

tails-OfRacks :
    (n : ℕ) (names : List String) (ls : List (List Broker))
    → OfRacks (suc n) names ls
    → OfRacks n names (map tail ls)
tails-OfRacks n [] [] h = tt
tails-OfRacks n [] (l ∷ ls) h = absurd h
tails-OfRacks n (name ∷ names) [] h = absurd h
tails-OfRacks n (name ∷ names) ([] ∷ ls) h = absurd (omega (arith, h.0))
tails-OfRacks n (name ∷ names) ((b ∷ l) ∷ ls) h =
    (omega (arith, h.0), h.1.1, tails-OfRacks n names ls h.2)

no_entries :
    (names : List String) (ls : List (List Broker)) → OfRacks 0 names ls → length_all ls ≡ 0
no_entries [] [] h = refl
no_entries [] (l ∷ ls) h = absurd h
no_entries (name ∷ names) [] h = absurd h
no_entries (name ∷ names) (l ∷ ls) h = omega (arith, h.0, no_entries names ls h.2)

-- The racks of the columns are those of the lists, in turn.
pub racks-columns :
    (n k : ℕ) (names : List String) (ls : List (List Broker))
    → OfRacks n names ls
    → n ≤ k
    → racks (columns k ls) ≡ cycles n names
racks-columns zero k names ls h le = ap racks (columns-no_entries k ls (no_entries names ls h))
racks-columns (suc n) zero names ls h le = absurd (omega arith)
racks-columns (suc n) (suc k) names ls h le =
    map-append (λ (b : Broker). b.rack) (heads ls) (columns k (map tail ls))
    ∙ ap₂ ◌++◌ (racks-heads n names ls h)
        (racks-columns n k names (map tail ls) (tails-OfRacks n names ls h) (omega arith))
