-- ===== src/Assign/Even.antt =====
-- Racks of the same size: in which cycle their brokers are ordered.
use strimzi_canary.Common.{
  ℕ, zero, suc, ◌*◌, ◌%◌, ◌≤◌, ◌<◌, ◌≡◌, refl, sym, ap, ◌∙◌, ◌⊎◌, inl, inr, Bool-cases, true, false,
  List, [], ◌∷◌, some, if◌then◌else◌, length, get_elem?, count, All, String, arith,
}
use strimzi_canary.Common.Maps.{nat_eq}
use mathlib.Core.Path.{subst}
use native.Mathlib.Nat.{le_of_mul-le-mul_left, mod-mod_of_dvd, dvd-mul_left, mod-lt}
use text.Mathlib.Text.{◌==◌ as str_eq}
use text.Mathlib.TextEquality.{eq_iff}
use strimzi_canary.Assign.{Broker, Assignments, sort_by_id}
use strimzi_canary.Assign.Sort.{count-sort_by_id, length-sort_by_id}
use strimzi_canary.Assign.Racks.{select, selections, contains, Distinct, racked}
use strimzi_canary.Assign.Requested.{Requested, same_length}
use strimzi_canary.Assign.Cycles.{
  live, columns-live, cycles, length-cycles, get_elem?-cycles, OfRacks, racks, racks-columns,
}

select-racks : (name : String) (bs : List Broker) → All (λ b. b.rack ≡ name) (select name bs)
select-racks name [] = tt
select-racks name (b ∷ bs) = elim (Bool-cases (str_eq b.rack name)) [
  | inl here ↦ rw here ((eq_iff b.rack name).0 here, select-racks name bs)
  | inr other ↦ rw other (select-racks name bs)
]

length-select :
    (name : String) (bs : List Broker)
    → length (select name bs) ≡ count (λ b. str_eq b.rack name) bs
length-select name [] = refl
length-select name (b ∷ bs) = ground (arith, length-select name bs)

-- The names of the lists that are not empty.
abbrev Named : ℕ → List String → List (List Broker) → Type 0
Named size names ls =
    (kept : List String) × Distinct kept
    × ((x : String) → contains x names ≡ false → contains x kept ≡ false)
    × OfRacks size kept (live ls)

cons-Named :
    (size : ℕ) (name : String) (names : List String) (l : List Broker) (ls : List (List Broker))
    → contains name names ≡ false
    → All (λ b. b.rack ≡ name) l
    → (length l ≡ 0) ⊎ (length l ≡ size)
    → Named size names ls
    → Named size (name ∷ names) (l ∷ ls)
cons-Named size name names [] ls new all even (kept, d, lacks, of) =
    (kept, d, λ x h. lacks x (ground arith), of)
cons-Named size name names (b ∷ l) ls new all (inl empty) n = absurd (omega arith)
cons-Named size name names (b ∷ l) ls new all (inr full) (kept, d, lacks, of) =
    (name ∷ kept, (lacks name new, d), λ x h. ground (arith, lacks x), (full, all, of))

selections-Named :
    (size : ℕ) (names : List String) (bs : List Broker)
    → Distinct names
    → ((name : String) → (length (select name bs) ≡ 0) ⊎ (length (select name bs) ≡ size))
    → Named size names (selections names bs)
selections-Named size [] bs d even = ([], tt, λ x h. refl, tt)
selections-Named size (name ∷ names) bs d even =
    cons-Named size name names (select name bs) (selections names bs) d.0 (select-racks name bs)
      (even name) (selections-Named size names bs d.1 even)

contains_at :
    (names : List String) (i : ℕ) (a : String)
    → get_elem? names i ≡ some a
    → contains a names ≡ true
contains_at [] i a e = absurd (cc e)
contains_at (x ∷ xs) zero a e = let same : x ≡ a = cc e in ground (arith, (eq_iff x a).1 same)
contains_at (x ∷ xs) (suc i) a e = ground (arith, contains_at xs i a e)

pub same_place :
    (names : List String) (i j : ℕ) (a : String)
    → Distinct names
    → get_elem? names i ≡ some a
    → get_elem? names j ≡ some a
    → i ≡ j
same_place [] i j a d e f = absurd (cc e)
same_place (x ∷ xs) zero zero a d e f = refl
same_place (x ∷ xs) zero (suc j) a d e f =
    let same : x ≡ a = cc e in
    absurd (cc (sym d.0 ∙ ap (λ n. contains n xs) same ∙ contains_at xs j a f))
same_place (x ∷ xs) (suc i) zero a d e f =
    let same : x ≡ a = cc f in
    absurd (cc (sym d.0 ∙ ap (λ n. contains n xs) same ∙ contains_at xs i a e))
same_place (x ∷ xs) (suc i) (suc j) a d e f = ap suc (same_place xs i j a d.1 e f)

get_elem?-racks :
    (bs : List Broker) (i : ℕ) (b : Broker)
    → get_elem? bs i ≡ some b
    → get_elem? (racks bs) i ≡ some b.rack
get_elem?-racks [] i b e = absurd (cc e)
get_elem?-racks (x ∷ bs) zero b e = let same : x ≡ b = cc e in ap (λ (y : Broker). some y.rack) same
get_elem?-racks (x ∷ bs) (suc i) b e = get_elem?-racks bs i b e

length-racks : (bs : List Broker) → length (racks bs) ≡ length bs
length-racks [] = refl
length-racks (x ∷ bs) = ap suc (length-racks bs)

-- Every broker is on a rack, there are three racks or more, and each has `size` brokers.
pub record AreEven (size : ℕ) (brokers : List Broker) : Type 0 where
  pub placed : length brokers ≡ racked brokers
  pub filled : 0 < size
  pub even :
      (name : String)
      → (count (λ b. str_eq b.rack name) brokers ≡ 0)
        ⊎ (count (λ b. str_eq b.rack name) brokers ≡ size)
  pub three : 3 * size ≤ length brokers

-- The racks of the order follow each other in a cycle of three or more.
pub record Cycled (size : ℕ) (ordered : List Broker) : Type 0 where
  pub names : List String
  pub distinct : Distinct names
  pub cycle : racks ordered ≡ cycles size names
  pub total : length ordered ≡ size * length names
  pub three : 3 ≤ length names

even_sorted :
    (size : ℕ) (brokers : List Broker)
    → AreEven size brokers
    → (name : String)
    → (length (select name (sort_by_id brokers)) ≡ 0)
      ⊎ (length (select name (sort_by_id brokers)) ≡ size)
even_sorted size brokers even name =
    subst (λ n. (n ≡ 0) ⊎ (n ≡ size))
      (sym (
        length-select name (sort_by_id brokers)
        ∙ count-sort_by_id (λ b. str_eq b.rack name) brokers))
      (even.even name)

three_names : (size n total : ℕ) → 0 < size → 3 * size ≤ total → size * n ≡ total → 3 ≤ n
three_names size n total filled enough e =
    le_of_mul-le-mul_left {m = 3} {n = n} {k = size} (omega (arith, enough, e)) filled

pub ordered-Cycled :
    (size current : ℕ) (brokers ordered : List Broker) (m : Assignments)
    → AreEven size brokers
    → Requested current brokers ordered m
    → Cycled size ordered
ordered-Cycled size current brokers ordered m even asked =
    let sorted = sort_by_id brokers in
    let (names, distinct, covered, columned) = asked.order.by_rack (
      length-sort_by_id brokers
      ∙ even.placed
      ∙ sym (count-sort_by_id (λ b. if str_eq b.rack "" then false else true) brokers)) in
    let (kept, d, lacks, of) =
      selections-Named size names sorted distinct (even_sorted size brokers even) in
    let cycle : racks ordered ≡ cycles size kept =
      ap racks (columned ∙ sym (columns-live (suc (length sorted)) (selections names sorted)))
      ∙ racks-columns size (suc (length sorted)) kept (live (selections names sorted)) of
          (omega (arith, length-sort_by_id brokers, even.three, even.filled)) in
    let total : length ordered ≡ size * length kept =
      sym (length-racks ordered) ∙ ap length cycle ∙ length-cycles size kept in
    record {
      names = kept;
      distinct = d;
      cycle = cycle;
      total = total;
      three =
          three_names size (length kept) (length brokers) even.filled even.three
            (sym total ∙ same_length brokers ordered asked.same_brokers);
    }

pub rack_at :
    (size : ℕ) (ordered : List Broker) (k : ℕ) (b : Broker)
    → (c : Cycled size ordered) → 0 < length ordered
    → get_elem? ordered (k % length ordered) ≡ some b
    → get_elem? c.names (k % length c.names) ≡ some b.rack
rack_at size ordered k b c some_one at =
    let turn : k % length ordered % length c.names ≡ k % length c.names =
      ap (λ n. k % n % length c.names) c.total
      ∙ mod-mod_of_dvd (length c.names) k (dvd-mul_left (length c.names) size) in
    ap (get_elem? c.names) (sym turn)
    ∙ sym (
        get_elem?-cycles size c.names (k % length ordered)
          (omega (arith, mod-lt k some_one, c.total)))
    ∙ ap (λ l. get_elem? l (k % length ordered)) (sym c.cycle)
    ∙ get_elem?-racks ordered (k % length ordered) b at
