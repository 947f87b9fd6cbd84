-- ===== src/Consumer/Race.antt =====
-- internal/services/consumer.go: the counter of the records consumed, which the goroutines of the claims, one for each
-- partition, all increment: an increment is a load and a store, with no lock.
use strimzi_canary.Common.{
  ℕ, zero, suc, ◌+◌, ◌%◌, ◌^◌, ◌≤◌, ◌<◌, ◌≡◌, refl, ap, Bool-cases, inl, inr, ◌==◌, ==_iff, Option,
  none, some, if◌then◌else◌, arith,
}
use native.Mathlib.Nat.{mod-le, mod-eq_of_lt}

-- What claim number `i` has loaded and not yet stored, and how many increments there were.
pub record Claims : Type 0 where
  pub counter : ℕ
  pub loaded : ℕ → Option ℕ
  pub increments : ℕ

abbrev pub start_claims : ℕ → Claims
start_claims c = record { counter = c; loaded = λ i. none; increments = 0 }

abbrev pub set_loaded : ℕ → Option ℕ → (ℕ → Option ℕ) → ℕ → Option ℕ
set_loaded i v f j = if i == j then v else f j

pub data ClaimStep (s : Claims) : Claims → Type 0 where
  loads :
      (i : ℕ)
      → s.loaded i ≡ none
      → ClaimStep s (record s { loaded = set_loaded i (some s.counter) s.loaded })
  stores :
      (i v : ℕ)
      → s.loaded i ≡ some v
      → ClaimStep s (record {
        counter = (v + 1) % 2 ^ 64;
        loaded = set_loaded i none s.loaded;
        increments = suc s.increments;
      })

pub data ReachClaims (c : ℕ) : Claims → Type 0 where
  here : ReachClaims c (start_claims c)
  next : {s s' : Claims} → ReachClaims c s → ClaimStep s s' → ReachClaims c s'

-- Neither the counter nor what a claim has loaded is more than the increments account for.
record IsBounded (c : ℕ) (s : Claims) : Type 0 where
  counted : s.counter ≤ c + s.increments
  held : (i v : ℕ) → s.loaded i ≡ some v → v ≤ c + s.increments

ClaimStep-IsBounded : {s s' : Claims} (c : ℕ) → ClaimStep s s' → IsBounded c s → IsBounded c s'
ClaimStep-IsBounded {s} c (loads i e) b = record {
  counted = b.counted;
  held = λ j v h. elim (Bool-cases (i == j)) [
    | inl same ↦ let now : s.counter ≡ v = cc (rw same at h) in omega (arith, b.counted)
    | inr other ↦ b.held j v (rw other at h)
  ];
}
ClaimStep-IsBounded {s} c (stores i v e) b = record {
  counted = omega (arith, b.held i v e, mod-le (v + 1) (2 ^ 64));
  held = λ j u h. elim (Bool-cases (i == j)) [
    | inl same ↦ absurd (cc (rw same at h))
    | inr other ↦ omega (arith, b.held j u (rw other at h))
  ];
}

Reach-IsBounded : {c : ℕ} {s : Claims} → ReachClaims c s → IsBounded c s
Reach-IsBounded here = record { counted = omega arith; held = λ i v h. absurd (cc h) }
Reach-IsBounded {c} (next r step) = ClaimStep-IsBounded c step (Reach-IsBounded r)

-- The first `k` claims have loaded the counter, and no other one.
record AreLoaded (c k : ℕ) (s : Claims) : Type 0 where
  reached : ReachClaims c s
  same : s.counter ≡ c
  none_yet : s.increments ≡ 0
  first : (i : ℕ) → i < k → s.loaded i ≡ some c
  rest : (i : ℕ) → k ≤ i → s.loaded i ≡ none

load_all : (c k : ℕ) → (s : Claims) × AreLoaded c k s
load_all c zero = (
  start_claims c,
  record {
    reached = here;
    same = refl;
    none_yet = refl;
    first = λ i l. absurd (omega arith);
    rest = λ i l. refl;
  },
)
load_all c (suc k) =
    let (s, a) = load_all c k in
    (
      record s { loaded = set_loaded k (some s.counter) s.loaded },
      record {
        reached = next a.reached (loads k (a.rest k (omega arith)));
        same = a.same;
        none_yet = a.none_yet;
        first = λ i l. elim (Bool-cases (k == i)) [
          | inl same ↦ rw same (ap some a.same)
          | inr other ↦ rw other (a.first i (ground (arith, other, ==_iff k i)))
        ];
        rest = λ i l. elim (Bool-cases (k == i)) [
          | inl same ↦ absurd (ground (arith, same, ==_iff k i))
          | inr other ↦ rw other (a.rest i (omega arith))
        ];
      },
    )

-- The first `m` of them have stored what they loaded, one more than at the start.
record AreStored (c k m : ℕ) (s : Claims) : Type 0 where
  reached : ReachClaims c s
  counted : 0 < m → s.counter ≡ c + 1
  total : s.increments ≡ m
  left : (i : ℕ) → m ≤ i → i < k → s.loaded i ≡ some c

store_all : (c k m : ℕ) → c + 1 < 2 ^ 64 → m ≤ k → (s : Claims) × AreStored c k m s
store_all c k zero fits le =
    let (s, a) = load_all c k in
    (
      s,
      record {
        reached = a.reached;
        counted = λ l. absurd (omega arith);
        total = a.none_yet;
        left = λ i l h. a.first i h;
      },
    )
store_all c k (suc m) fits le =
    let (s, a) = store_all c k m fits (omega arith) in
    (
      record {
        counter = (c + 1) % 2 ^ 64;
        loaded = set_loaded m none s.loaded;
        increments = suc s.increments;
      },
      record {
        reached = next a.reached (stores m c (a.left m (omega arith) (omega arith)));
        counted = λ l. mod-eq_of_lt {n = c + 1} {m = 2 ^ 64} fits;
        total = ap suc a.total;
        left = λ i l h. elim (Bool-cases (m == i)) [
          | inl same ↦ absurd (ground (arith, same, ==_iff m i))
          | inr other ↦ rw other (a.left i (omega arith) h)
        ];
      },
    )

-- Whatever the interleaving of the claims, the counter of the records consumed goes up by the number of the
-- increments at most; and it can go up by one only while any number of claims increment it, if it stays below
-- 2^64: then all increments but one are lost.
pub increments-lost :
    (c n : ℕ)
    → c + 1 < 2 ^ 64
    → ((s : Claims) → ReachClaims c s → s.counter ≤ c + s.increments)
      × ((s : Claims) × ReachClaims c s × (s.increments ≡ suc n) × (s.counter ≡ c + 1))
increments-lost c n fits =
    let (s, a) = store_all c (suc n) (suc n) fits (omega arith) in
    (λ r reach. (Reach-IsBounded reach).counted, (s, a.reached, a.total, a.counted (omega arith)))
