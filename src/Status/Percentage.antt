-- ===== src/Status/Percentage.antt =====
-- What the status endpoint reports after a series of checks.
use strimzi_canary.Common.{
  ℕ, zero, suc, ◌-◌, ◌^◌, ◌≤◌, ◌<◌, min, ◌≡◌, refl, if◌then◌else◌, ◌==◌, ok, value, error, arith,
  Bool-cases, inl, inr,
}
use strimzi_canary.Common.Int.{ℤ, pos, negsuc, mul64}
use strimzi_canary.Ring.{max_buffer_buckets}
use strimzi_canary.Ring.Window.{Holds, put-Holds}
use strimzi_canary.Ring.Samples.{Answers, Holds-Answers, new-Holds, buckets, buckets_pos}
use strimzi_canary.Status.{
  Floats, StatusService, no_data_samples, new_status_service, status_check, sub_uint64,
  rounded_percentage, reported, status_handler, checked,
}

pub record Watched (n : ℕ) (p c : ℕ → ℕ) (interval : ℤ) (k : ℕ) (ss : StatusService) : Type 0 where
  pub produced : Holds n p k ss.produced_samples
  pub consumed : Holds n c k ss.consumed_samples
  pub interval_is : ss.check_interval ≡ interval

module _ (n : ℕ) (n_pos : 0 < n) (n_small : n ≤ max_buffer_buckets) (p c : ℕ → ℕ)
    (interval : ℤ) where
  pub check-Watched :
      (k : ℕ) (ss : StatusService)
      → Watched n p c interval k ss
      → (ss' : StatusService) × (status_check (p k) (c k) ss ≡ ok ss')
        × Watched n p c interval (suc k) ss'
  unfolding status_check
  check-Watched k ss w =
      let (rp, put_p, hp) = put-Holds n n_pos n_small p k ss.produced_samples w.produced in
      let (rc, put_c, hc) = put-Holds n n_pos n_small c k ss.consumed_samples w.consumed in
      let ap = Holds-Answers n p k rp n_pos hp in
      let ac = Holds-Answers n c k rc n_pos hc in
      (
        record ss { produced_samples = rp; consumed_samples = rc },
        rw (put_p, put_c, ap.head_is, ap.tail_is, ac.head_is, ac.tail_is),
        record { produced = hp; consumed = hc; interval_is = w.interval_is },
      )

  -- A series of checks does not panic, and fills both rings.
  pub checked-Watched :
      (k : ℕ) (ss : StatusService)
      → Watched n p c interval 0 ss
      → (ss' : StatusService) × (checked p c k ss ≡ ok ss') × Watched n p c interval k ss'
  unfolding checked
  checked-Watched zero ss w = (ss, refl, w)
  checked-Watched (suc k) ss w =
      let (now, run, held) = checked-Watched k ss w in
      let (next, step, holds) = check-Watched k now held in (next, rw (run, step), holds)

-- The percentage of exact differences over the last `n` samples, or the report of no data.
abbrev pub expected {ℓ} : {A : Type ℓ} → (ℕ → ℕ → A) → A → ℕ → ℕ → A
expected ratio no_data consumed produced =
    if produced == 0 then no_data else ratio consumed produced

sub_uint64_exact : (a b : ℕ) → a < 2 ^ 64 → b ≤ a → sub_uint64 a b ≡ a - b
sub_uint64_exact a b h l = omega arith

-- the report of `status_handler` on the tests that it makes
reported-expected :
    (fl : Floats) (consumed produced : ℕ)
    → reported fl (
        if produced == 0
        then error no_data_samples
        else value (rounded_percentage fl consumed produced))
      ≡ expected (rounded_percentage fl) (fl.of_int (negsuc 0)) consumed produced
reported-expected fl consumed produced = elim (Bool-cases (produced == 0)) [
  | inl e ↦ rw e
  | inr e ↦ rw e
]

-- The last sample of the producer is number `i`, and that of the consumer number `j`.
pub status_handler-Answers :
    (fl : Floats) (n : ℕ) (p c : ℕ → ℕ) (i j : ℕ) (interval : ℤ) (ss : StatusService)
    → ss.check_interval ≡ interval
    → Answers n p i ss.produced_samples
    → Answers n c j ss.consumed_samples
    → p i < 2 ^ 64
    → c j < 2 ^ 64
    → p (suc i - n) ≤ p i
    → c (suc j - n) ≤ c j
    → status_handler fl ss
      ≡ ok (record {
        time_window = mul64 interval (pos (min (suc j) n));
        percentage =
            expected
              (rounded_percentage fl)
              (fl.of_int (negsuc 0))
              (c j - c (suc j - n))
              (p i - p (suc i - n));
      })
unfolding status_handler
status_handler-Answers fl n p c i j interval ss e ap ac hp hc lp lc = rw (
  e,
  ap.not_empty,
  ac.head_is,
  ac.tail_is,
  ap.head_is,
  ap.tail_is,
  ac.count_is,
  sub_uint64_exact (p i) (p (suc i - n)) hp lp,
  sub_uint64_exact (c j) (c (suc j - n)) hc lc,
  reported-expected fl (c j - c (suc j - n)) (p i - p (suc i - n)),
)

module _ (fl : Floats) (a b : ℕ) (p c : ℕ → ℕ) (k : ℕ) where
  abbrev n : ℕ
  n = buckets a (suc b)

  -- the sample that the tail holds
  abbrev pub oldest : ℕ
  oldest = suc k - n

  -- After any series of checks of a service whose window is at least the check interval, the status
  -- handler does not panic. It reports a time window of the interval times the number of samples
  -- kept, and, for counters that have not fallen nor passed 2^64 since the oldest sample kept, the
  -- rounded percentage of the records consumed to those produced since that sample, or -1 if none
  -- was produced.
  pub status_handler-checked :
      suc b ≤ a
      → p k < 2 ^ 64
      → c k < 2 ^ 64
      → p oldest ≤ p k
      → c oldest ≤ c k
      → (ss : StatusService) × (last : StatusService) × (new_status_service (pos a) (pos (suc b))
          ≡ ok ss)
        × (checked p c (suc k) ss ≡ ok last)
        × (status_handler fl last
            ≡ ok (record {
              time_window = mul64 (pos (suc b)) (pos (min (suc k) n));
              percentage =
                  expected
                    (rounded_percentage fl)
                    (fl.of_int (negsuc 0))
                    (c k - c oldest)
                    (p k - p oldest);
            }))
  unfolding new_status_service
  status_handler-checked h hp hc lp lc =
      let (rb, made, fresh) = new-Holds a b in
      let n_pos = buckets_pos a b h in
      let ss : StatusService = record {
        check_interval = pos (suc b);
        produced_samples = rb;
        consumed_samples = rb;
      } in
      let (last, run, w) =
        checked-Watched n n_pos (omega arith) p c (pos (suc b)) (suc k) ss
          (record { produced = fresh p; consumed = fresh c; interval_is = refl }) in
      (
        ss,
        last,
        rw made,
        run,
        status_handler-Answers fl n p c k k (pos (suc b)) last w.interval_is
            (Holds-Answers n p k last.produced_samples n_pos w.produced)
            (Holds-Answers n c k last.consumed_samples n_pos w.consumed) hp hc lp lc,
      )
