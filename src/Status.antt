-- ===== src/Status.antt =====
-- internal/services/status_check.go: the percentage of produced records that were consumed in a
-- sliding time window. The float64 operations are parameters; the counters are uint64.
pub mod Percentage
pub mod Loop
pub mod Sample
mod Tests
use strimzi_canary.Common.{
  ℕ, zero, suc, ◌+◌, ◌-◌, ◌*◌, ◌%◌, ◌^◌, Bool, true, false, if◌then◌else◌, ◌==◌, Outcome, ok, crash,
  ◌>>=◌, Result, value, error,
}
use strimzi_canary.Common.Int.{ℤ, pos, mul64}
use strimzi_canary.Ring.{
  TimeWindowRing, new_time_window_ring, put, head_sample, tail_sample, is_empty,
}

-- What the percentage uses of float64: the value of an integer, `/`, `*` and math.Round.
pub record Floats : Type 1 where
  pub Float : Type 0
  pub of_int : ℤ → Float
  pub div : Float → Float → Float
  pub mul : Float → Float → Float
  pub round : Float → Float

pub record StatusService : Type 0 where
  pub check_interval : ℤ
  pub produced_samples : TimeWindowRing
  pub consumed_samples : TimeWindowRing

pub data NoDataSamples : Type 0 where
  no_data_samples : NoDataSamples

unfoldable pub new_status_service : ℤ → ℤ → Outcome StatusService
new_status_service time_window check_interval = do
  produced ← new_time_window_ring time_window check_interval
  consumed ← new_time_window_ring time_window check_interval
  ok (record {
    check_interval = check_interval;
    produced_samples = produced;
    consumed_samples = consumed;
  })

-- The arguments of the log line are read whatever the log level.
log_samples : TimeWindowRing → Outcome ℕ
log_samples rb = do _ ← head_sample rb; _ ← tail_sample rb; ok rb.count

-- One check reads the two global counters of records.
unfoldable pub status_check : ℕ → ℕ → StatusService → Outcome StatusService
unfolding log_samples
status_check produced_counter consumed_counter ss = do
  produced ← put produced_counter ss.produced_samples
  consumed ← put consumed_counter ss.consumed_samples
  _ ← log_samples produced
  _ ← log_samples consumed
  ok (record ss { produced_samples = produced; consumed_samples = consumed })

-- `a - b` and `a * b` on uint64, which wrap.
abbrev pub sub_uint64 : ℕ → ℕ → ℕ
sub_uint64 a b = (a + 2 ^ 64 - b) % 2 ^ 64

abbrev pub mul_uint64 : ℕ → ℕ → ℕ
mul_uint64 a b = a * b % 2 ^ 64

module _ (fl : Floats) where
  open fl use {Float, of_int, div, mul, round}

  -- the percentage to two decimal digits
  abbrev pub rounded_percentage : ℕ → ℕ → Float
  rounded_percentage consumed produced =
      div
        (round (
          mul (div (of_int (pos (mul_uint64 consumed 100))) (of_int (pos produced)))
            (of_int (pos 100))))
        (of_int (pos 100))

  unfoldable pub consumed_percentage : StatusService → Outcome (Result NoDataSamples Float)
  consumed_percentage ss = if is_empty ss.produced_samples then ok (error no_data_samples) else do
    consumed_head ← head_sample ss.consumed_samples
    consumed_tail ← tail_sample ss.consumed_samples
    produced_head ← head_sample ss.produced_samples
    produced_tail ← tail_sample ss.produced_samples
    let consumed = sub_uint64 consumed_head consumed_tail
    let produced = sub_uint64 produced_head produced_tail
    ok (
        if produced == 0
        then error no_data_samples
        else value (rounded_percentage consumed produced))

  pub record ConsumingStatus : Type 0 where
    pub time_window : ℤ
    pub percentage : Float

  -- An error is reported as -1.
  abbrev pub reported : Result NoDataSamples Float → Float
  reported (value p) = p
  reported (error e) = of_int (ℤ.negsuc 0)

  -- The status that the handler writes as JSON.
  unfoldable pub status_handler : StatusService → Outcome ConsumingStatus
  unfolding consumed_percentage
  status_handler ss = do
    result ← consumed_percentage ss
    ok (record {
      time_window = mul64 ss.check_interval (pos ss.consumed_samples.count);
      percentage = reported result;
    })

-- the service after checks that read the counters `p 0`, `c 0`, …, `p (k - 1)`, `c (k - 1)`
pub checked : (ℕ → ℕ) → (ℕ → ℕ) → ℕ → StatusService → Outcome StatusService
checked p c zero ss = ok ss
checked p c (suc k) ss = checked p c k ss >>= status_check (p k) (c k)
