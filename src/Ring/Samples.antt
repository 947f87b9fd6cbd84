-- ===== src/Ring/Samples.antt =====
-- What a client of a new ring sees after a series of samples.
use strimzi_canary.Common.{
  ℕ, suc, ◌-◌, ◌/◌, ◌≤◌, ◌<◌, min, ◌≡◌, refl, false, ok, crash, divide_by_zero, arith, length,
  length-replicate, replicate, if◌then◌else◌, ◌∙◌, ap,
}
use strimzi_canary.Common.Int.{pos, negsuc, ltb_ℤ, mul64}
use native.Mathlib.Nat.{div-eq_of_lt, le-div_iff_mul-le}
use strimzi_canary.Ring.{
  TimeWindowRing, new_time_window_ring, put, sampled, head_sample, tail_sample, is_empty,
  max_buffer_buckets,
}
use strimzi_canary.Ring.Window.{Holds, sampled-Holds}

-- the buckets of a window of `a` sampled every `b`
abbrev pub buckets : ℕ → ℕ → ℕ
buckets a b = min (a / b) max_buffer_buckets

capped :
    (q : ℕ)
    → (if ltb_ℤ (pos max_buffer_buckets) (pos q) then pos max_buffer_buckets else pos q)
      ≡ pos (min q max_buffer_buckets)
capped q = ground arith

pub new-Holds :
    (a b : ℕ)
    → (rb : TimeWindowRing) × (new_time_window_ring (pos a) (pos (suc b)) ≡ ok rb)
      × ((v : ℕ → ℕ) → Holds (buckets a (suc b)) v 0 rb)
unfolding new_time_window_ring
new-Holds a b = (
  record {
    buffer = replicate n 0;
    tail = negsuc 0;
    head = negsuc 0;
    count = 0;
    size = mul64 (pos n) (pos (suc b));
    sampling = pos (suc b);
  },
  rw (capped (a / suc b)),
  λ v. record {
    buckets = length-replicate n 0;
    head_is = refl;
    tail_is = refl;
    count_is = omega arith;
    kept = λ i lt le. absurd (omega arith);
  },
)
  where
    n : ℕ
    n = buckets a (suc b)

pub buckets_pos : (a b : ℕ) → suc b ≤ a → 0 < buckets a (suc b)
buckets_pos a b h =
    omega (arith, (le-div_iff_mul-le {k = suc b} {x = 1} {y = a} (omega arith)).1 (omega arith))

-- What the ring of `n` buckets answers after the samples `v 0`, …, `v k`.
pub record Answers (n : ℕ) (v : ℕ → ℕ) (k : ℕ) (rb : TimeWindowRing) : Type 0 where
  pub head_is : head_sample rb ≡ ok (v k)
  pub tail_is : tail_sample rb ≡ ok (v (suc k - n))
  pub count_is : rb.count ≡ min (suc k) n
  pub not_empty : is_empty rb ≡ false

pub Holds-Answers :
    (n : ℕ) (v : ℕ → ℕ) (k : ℕ) (rb : TimeWindowRing)
    → 0 < n
    → Holds n v (suc k) rb
    → Answers n v k rb
unfolding head_sample tail_sample is_empty
Holds-Answers n v k rb h r = record {
  head_is = rw (r.head_is, r.kept k (omega arith) (omega arith));
  tail_is = rw (r.tail_is, r.kept (suc k - n) (omega arith) (omega arith));
  count_is = r.count_is;
  not_empty = rw (r.tail_is, r.head_is) (ground arith);
}

-- A window of at least one sampling interval makes a ring of `min (size / sampling) 384` buckets
-- that never panics: after any samples `v 0`, …, `v k` its head is the last of them, its tail is
-- the oldest of the last so many, its count is their number, and it is not empty.
pub new-sampled :
    (a b : ℕ) (v : ℕ → ℕ) (k : ℕ)
    → suc b ≤ a
    → (rb : TimeWindowRing) × (last : TimeWindowRing) × (new_time_window_ring (pos a) (pos (suc b))
        ≡ ok rb)
      × (sampled v (suc k) rb ≡ ok last)
      × Answers (buckets a (suc b)) v k last
new-sampled a b v k h =
    let (rb, made, fresh) = new-Holds a b in
    let (last, run, holds) =
      sampled-Holds (buckets a (suc b)) (buckets_pos a b h) (omega arith) v (suc k) rb (fresh v) in
    (rb, last, made, run, Holds-Answers (buckets a (suc b)) v k last (buckets_pos a b h) holds)

no_buckets : (x : ℕ) (rb : TimeWindowRing) → length rb.buffer ≡ 0 → put x rb ≡ crash divide_by_zero
unfolding put
no_buckets x rb h = rw h

-- A window shorter than its sampling interval makes a ring whose first sample panics.
pub put_no_buckets :
    (a b x : ℕ)
    → a < suc b
    → (rb : TimeWindowRing) × (new_time_window_ring (pos a) (pos (suc b)) ≡ ok rb)
      × (put x rb ≡ crash divide_by_zero)
put_no_buckets a b x h =
    let (rb, made, fresh) = new-Holds a b in
    (
      rb,
      made,
      no_buckets x rb
          ((fresh (λ _. 0)).buckets ∙ ap (λ (q : ℕ). min q max_buffer_buckets) (div-eq_of_lt h)),
    )
