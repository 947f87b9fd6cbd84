-- ===== src/Assign/Columns.antt =====
-- Lists read by columns: the first entries of all, then the second ones, and so on.
use strimzi_canary.Common.{
  ℕ, zero, suc, ◌+◌, ◌≤◌, ◌≡◌, refl, Bool, List, [], ◌∷◌, ◌++◌, map, length, count, count-append,
  arith,
}
use native.Mathlib.Decide.{dec_lt}

module _ {ℓ} {A : Type ℓ} where
  abbrev pub tail : List A → List A
  tail [] = []
  tail (x ∷ xs) = xs

  -- the first entries of the lists that have one
  abbrev pub heads : List (List A) → List A
  heads [] = []
  heads ([] ∷ ls) = heads ls
  heads ((x ∷ xs) ∷ ls) = x ∷ heads ls

  -- at most `n` columns
  abbrev pub columns : ℕ → List (List A) → List A
  columns zero ls = []
  columns (suc n) ls = heads ls ++ columns n (map tail ls)

  -- the entries of all lists that pass a test
  abbrev pub count_all : (A → Bool) → List (List A) → ℕ
  count_all p [] = 0
  count_all p (l ∷ ls) = count p l + count_all p ls

  abbrev pub length_all : List (List A) → ℕ
  length_all [] = 0
  length_all (l ∷ ls) = length l + length_all ls

module _ {ℓ} {A : Type ℓ} where
  count-heads-tail :
      (p : A → Bool) (ls : List (List A))
      → count p (heads ls) + count_all p (map tail ls) ≡ count_all p ls
  count-heads-tail p [] = omega arith
  count-heads-tail p ([] ∷ ls) = omega (arith, count-heads-tail p ls)
  count-heads-tail p ((x ∷ xs) ∷ ls) = omega (arith, count-heads-tail p ls)

  pub length-heads-tail :
      (ls : List (List A)) → length (heads ls) + length_all (map tail ls) ≡ length_all ls
  length-heads-tail [] = omega arith
  length-heads-tail ([] ∷ ls) = omega (arith, length-heads-tail ls)
  length-heads-tail ((x ∷ xs) ∷ ls) = omega (arith, length-heads-tail ls)

  -- A round that finds nothing leaves nothing.
  pub length_all-no_heads : (ls : List (List A)) → length (heads ls) ≡ 0 → length_all ls ≡ 0
  length_all-no_heads [] h = refl
  length_all-no_heads ([] ∷ ls) h = omega (arith, length_all-no_heads ls h)
  length_all-no_heads ((x ∷ xs) ∷ ls) h = absurd (omega arith)

  count-no_entries : (p : A → Bool) (ls : List (List A)) → length_all ls ≡ 0 → count_all p ls ≡ 0
  count-no_entries p [] h = refl
  count-no_entries p ([] ∷ ls) h = omega (arith, count-no_entries p ls (omega arith))
  count-no_entries p ((x ∷ xs) ∷ ls) h = absurd (omega arith)

  heads-no_entries : (ls : List (List A)) → length_all ls ≡ 0 → heads ls ≡ []
  heads-no_entries [] h = refl
  heads-no_entries ([] ∷ ls) h = heads-no_entries ls (omega arith)
  heads-no_entries ((x ∷ xs) ∷ ls) h = absurd (omega arith)

  pub columns-no_entries : (n : ℕ) (ls : List (List A)) → length_all ls ≡ 0 → columns n ls ≡ []
  columns-no_entries zero ls h = refl
  columns-no_entries (suc n) ls h =
      rw (heads-no_entries ls h)
        (columns-no_entries n (map tail ls) (omega (arith, length-heads-tail ls)))

  -- Enough columns hold the entries of all lists.
  pub count-columns :
      (p : A → Bool) (n : ℕ) (ls : List (List A))
      → length_all ls ≤ n
      → count p (columns n ls) ≡ count_all p ls
  count-columns p zero ls h = omega (arith, count-no_entries p ls (omega arith))
  count-columns p (suc n) ls h = elim (dec_lt 0 (length (heads ls))) [
    | yes some_left ↦ omega (
      arith,
      count-append p (heads ls) (columns n (map tail ls)),
      count-columns p n (map tail ls) (omega (arith, length-heads-tail ls)),
      count-heads-tail p ls,
    )
    | no none_left ↦
        let empty = length_all-no_heads ls (omega arith) in
        rw (columns-no_entries (suc n) ls empty) (omega (arith, count-no_entries p ls empty))
  ]
