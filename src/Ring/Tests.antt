-- ===== src/Ring/Tests.antt =====
-- Rings of a few buckets, run.
use strimzi_canary.Common.{
  ℕ, ◌+◌, ◌*◌, ◌≡◌, refl, List, [], ◌∷◌, arith, Outcome, ok, crash, divide_by_zero, ◌>>=◌,
}
use strimzi_canary.Common.Int.{pos, negsuc}
use strimzi_canary.Ring.{TimeWindowRing, new_time_window_ring, put, sampled}
use strimzi_canary.Ring.Samples.{Answers, new-sampled, put_no_buckets}

abbrev tens : ℕ → ℕ
tens i = 10 * i

-- five samples in three buckets
wrapped :
    (new_time_window_ring (pos 30) (pos 10) >>= sampled tens 5)
    ≡ ok (record {
      buffer = 30 ∷ 40 ∷ 20 ∷ [];
      tail = pos 2;
      head = pos 1;
      count = 3;
      size = pos 30;
      sampling = pos 10;
    })
unfolding new_time_window_ring sampled put
wrapped = refl

-- A negative interval asks for a negative number of buckets.
negative_interval :
    (new_time_window_ring (pos 30) (negsuc 9)) ≡ crash strimzi_canary.Common.make_out_of_range
unfolding new_time_window_ring
negative_interval = refl

new-sampled_example :
    (rb : TimeWindowRing) × (last : TimeWindowRing) × (new_time_window_ring (pos 30) (pos 10)
      ≡ ok rb)
    × (sampled tens 5 rb ≡ ok last)
    × Answers 3 tens 4 last
new-sampled_example = new-sampled 30 9 tens 4 (omega arith)

put_no_buckets_example :
    (rb : TimeWindowRing) × (new_time_window_ring (pos 9) (pos 10) ≡ ok rb)
    × (put 7 rb ≡ crash divide_by_zero)
put_no_buckets_example = put_no_buckets 9 9 7 (omega arith)
