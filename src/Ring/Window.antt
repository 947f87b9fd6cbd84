-- ===== src/Ring/Window.antt =====
-- A ring of `n` buckets after `k` samples: the head is the last of them, the tail the first of the
-- last `n`, and no operation panics.
use strimzi_canary.Common.{
  ℕ, zero, suc, ◌+◌, ◌-◌, ◌%◌, ◌≤◌, ◌<◌, min, ◌≡◌, refl, sym, ◌∙◌, some, if◌then◌else◌, ltb, length,
  get_elem?, get_elem?-set_self, get_elem?-set_ne, assign_in_bounds, set, length-set, ok, arith,
}
use strimzi_canary.Common.Int.{ℤ, pos, negsuc, inc64, rem64, eqb_ℤ}
use strimzi_canary.Common.Modular.{mod-ne}
use strimzi_canary.Ring.{TimeWindowRing, put, sampled, max_buffer_buckets}
use native.Mathlib.Decide.{dec_lt}
use native.Mathlib.Nat.{mod-eq_of_lt, mod-eq-sub-mod, mod-lt, mod-add-mod}
use native.Mathlib.Numerals.{add-one}

sub-mod : (n k : ℕ) → n ≤ k → (k - n) % n ≡ k % n
sub-mod n k l = sym (mod-eq-sub-mod l)

next-mod : (n k : ℕ) → (k % n + 1) % n ≡ (k + 1) % n
next-mod n k = mod-add-mod k n 1

inc64-pos : (a : ℕ) → a < 1000 → inc64 (pos a) ≡ pos (a + 1)
inc64-pos a h = ground arith

rem64-pos : (a n : ℕ) → 0 < n → rem64 (pos a) n ≡ ok (pos (a % n))
rem64-pos a zero h = absurd (omega arith)
rem64-pos a (suc n) h = refl

-- where the head and the tail stand: at -1 before the first sample
abbrev pub head_at : ℕ → ℕ → ℤ
head_at n zero = negsuc 0
head_at n (suc k) = pos (k % n)

abbrev pub tail_at : ℕ → ℕ → ℤ
tail_at n zero = negsuc 0
tail_at n (suc k) = pos ((suc k - n) % n)

-- the ring of `n` buckets after the samples `v 0`, …, `v (k - 1)`
pub record Holds (n : ℕ) (v : ℕ → ℕ) (k : ℕ) (rb : TimeWindowRing) : Type 0 where
  pub buckets : length rb.buffer ≡ n
  pub head_is : rb.head ≡ head_at n k
  pub tail_is : rb.tail ≡ tail_at n k
  pub count_is : rb.count ≡ min k n
  pub kept : (i : ℕ) → i < k → k ≤ i + n → get_elem? rb.buffer (i % n) ≡ some (v i)

module _ (n : ℕ) (n_pos : 0 < n) (n_small : n ≤ max_buffer_buckets) where
  next_head : (k : ℕ) → rem64 (inc64 (head_at n k)) n ≡ ok (pos (k % n))
  next_head zero = rem64-pos 0 n n_pos
  next_head (suc k) = rw (
    inc64-pos (k % n) (omega (arith, mod-lt k n_pos)),
    rem64-pos (k % n + 1) n n_pos,
    next-mod n k,
    add-one,
  )

  -- where `Put` moves the tail, before it looks for -1
  abbrev moved_at : ℕ → ℤ
  moved_at zero = negsuc 0
  moved_at (suc k) = tail_at n (suc (suc k))

  wrapped_tail :
      (k : ℕ)
      → (if eqb_ℤ (pos (suc k % n)) (pos ((suc k - n) % n))
          then rem64 (inc64 (pos ((suc k - n) % n))) n
          else ok (pos ((suc k - n) % n)))
        ≡ ok (pos ((suc (suc k) - n) % n))
  wrapped_tail k = elim (dec_lt (suc k) n) [
    | yes p ↦
        rw
          (
            mod-eq_of_lt p,
            mod-eq_of_lt {n = suc k - n} {m = n} (omega arith),
            mod-eq_of_lt {n = suc (suc k) - n} {m = n} (omega arith),
          )
          (ground arith)
    | no p ↦
        rw
          (
            sub-mod n (suc k) (omega arith),
            sub-mod n (suc (suc k)) (omega arith),
            inc64-pos (suc k % n) (omega (arith, mod-lt (suc k) n_pos)),
            rem64-pos (suc k % n + 1) n n_pos,
            next-mod n (suc k),
            add-one,
          )
          (ground arith)
  ]

  next_tail :
      (k : ℕ)
      → (if eqb_ℤ (pos (k % n)) (tail_at n k)
          then rem64 (inc64 (tail_at n k)) n
          else ok (tail_at n k))
        ≡ ok (moved_at k)
  next_tail zero = ground arith
  next_tail (suc k) = wrapped_tail k

  final_tail :
      (k : ℕ) → (if eqb_ℤ (moved_at k) (negsuc 0) then pos 0 else moved_at k) ≡ tail_at n (suc k)
  final_tail zero = rw (mod-eq_of_lt {n = 1 - n} {m = n} (omega arith)) (ground arith)
  final_tail (suc k) = ground arith

  next_count : (k : ℕ) → (if ltb (min k n) n then min k n + 1 else min k n) ≡ min (suc k) n
  next_count k = ground arith

  kept_after :
      (v : ℕ → ℕ) (k : ℕ) (rb : TimeWindowRing)
      → Holds n v k rb
      → (i : ℕ) → i < suc k
      → suc k ≤ i + n
      → get_elem? (set rb.buffer (k % n) (v k)) (i % n) ≡ some (v i)
  kept_after v k rb h i lt le = elim (dec_lt i k) [
    | yes p ↦
        get_elem?-set_ne rb.buffer (k % n) (i % n) (v k) (λ e. mod-ne n i k p (omega arith) (sym e))
        ∙ h.kept i p (omega arith)
    | no p ↦
        let e : i ≡ k = omega arith in
        rw e (get_elem?-set_self rb.buffer (k % n) (v k) (omega (arith, h.buckets, mod-lt k n_pos)))
  ]

  module _ (v : ℕ → ℕ) where
    pub put-Holds :
        (k : ℕ) (rb : TimeWindowRing)
        → Holds n v k rb
        → (rb' : TimeWindowRing) × (put (v k) rb ≡ ok rb') × Holds n v (suc k) rb'
    unfolding put
    put-Holds k rb h = (
      record rb {
        buffer = set rb.buffer (k % n) (v k);
        head = pos (k % n);
        tail = tail_at n (suc k);
        count = min (suc k) n;
      },
      rw (h.head_is, h.tail_is, h.buckets, next_head k, h.count_is)
          (rw (
            assign_in_bounds rb.buffer (k % n) (v k) (omega (arith, h.buckets, mod-lt k n_pos)),
            next_tail k,
            final_tail k,
            next_count k,
          )),
      record {
        buckets = length-set rb.buffer (k % n) (v k) ∙ h.buckets;
        head_is = refl;
        tail_is = refl;
        count_is = refl;
        kept = kept_after v k rb h;
      },
    )

    pub sampled-Holds :
        (k : ℕ) (rb : TimeWindowRing)
        → Holds n v 0 rb
        → (rb' : TimeWindowRing) × (sampled v k rb ≡ ok rb') × Holds n v k rb'
    unfolding sampled
    sampled-Holds zero rb h = (rb, refl, h)
    sampled-Holds (suc k) rb h =
        let (now, run, held) = sampled-Holds k rb h in
        let (next, step, holds) = put-Holds k now held in (next, rw (run, step), holds)
