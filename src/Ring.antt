-- ===== src/Ring.antt =====
-- internal/util/time_window_ring.go: samples of the last buckets of a sliding time window. A
-- time.Duration is an int64, an int is an int64, and a sample is a uint64.
pub mod Window
pub mod Samples
mod Tests
use strimzi_canary.Common.{
  ℕ, zero, suc, ◌+◌, ◌≡◌, Bool, ◌&&◌, List, [], ◌∷◌, if◌then◌else◌, ltb, length, replicate, Outcome,
  ok, crash, ◌>>=◌,
}
use strimzi_canary.Common.Int.{
  ℤ, pos, negsuc, eqb_ℤ, ltb_ℤ, inc64, mul64, quot64, rem64, index64, assign64, make64,
}

abbrev pub max_buffer_buckets : ℕ
max_buffer_buckets = 384

pub record TimeWindowRing : Type 0 where
  pub buffer : List ℕ
  pub tail : ℤ
  pub head : ℤ
  pub count : ℕ
  pub size : ℤ
  pub sampling : ℤ

unfoldable pub new_time_window_ring : ℤ → ℤ → Outcome TimeWindowRing
new_time_window_ring size sampling = do
  wanted ← quot64 size sampling
  let buffer_size = if ltb_ℤ (pos max_buffer_buckets) wanted then pos max_buffer_buckets else wanted
  buckets ← make64 buffer_size
  ok (record {
    buffer = replicate buckets 0;
    tail = negsuc 0;
    head = negsuc 0;
    count = 0;
    size = mul64 buffer_size sampling;
    sampling = sampling;
  })

unfoldable pub put : ℕ → TimeWindowRing → Outcome TimeWindowRing
put v rb = do
  head ← rem64 (inc64 rb.head) (length rb.buffer)
  buffer ← assign64 rb.buffer head v
  moved ← if eqb_ℤ head rb.tail then rem64 (inc64 rb.tail) (length rb.buffer) else ok rb.tail
  ok (record rb {
    buffer = buffer;
    head = head;
    tail = if eqb_ℤ moved (negsuc 0) then pos 0 else moved;
    count = if ltb rb.count (length rb.buffer) then rb.count + 1 else rb.count;
  })

unfoldable pub head_sample : TimeWindowRing → Outcome ℕ
head_sample rb = index64 rb.buffer rb.head

unfoldable pub tail_sample : TimeWindowRing → Outcome ℕ
tail_sample rb = index64 rb.buffer rb.tail

unfoldable pub is_empty : TimeWindowRing → Bool
is_empty rb = eqb_ℤ rb.tail (negsuc 0) && eqb_ℤ rb.head (negsuc 0)

-- the ring after the samples `v 0`, …, `v (k - 1)`
pub sampled : (ℕ → ℕ) → ℕ → TimeWindowRing → Outcome TimeWindowRing
sampled v zero rb = ok rb
sampled v (suc k) rb = sampled v k rb >>= put (v k)
