-- ===== src/Status/Sample.antt =====
-- A status service whose floats are the integers, with a state that its loop reaches.
use strimzi_canary.Common.{ℕ, ◌*◌, min, ◌≡◌, refl, arith, Outcome, ok, [], ◌∷◌}
use strimzi_canary.Common.Int.{ℤ, pos, negsuc, mul64, quot64}
use strimzi_canary.Status.{Floats, StatusService, new_status_service, status_check}
use strimzi_canary.Ring.{TimeWindowRing}
use strimzi_canary.Loop.{opened, free, Looped, opens, ticks, here, next, IsTidy}
use strimzi_canary.Status.Loop.{Sampled, IsCounter, Opens, Checks, ReachStatus}

-- the quotient, or zero where there is none
abbrev pub quotient : Outcome ℤ → ℤ
quotient (Outcome.ok q) = q
quotient (Outcome.crash c) = pos 0

abbrev pub whole : Floats
whole = record {
  Float = ℤ;
  of_int = λ a. a;
  div = λ a b. quotient (quot64 a b);
  mul = mul64;
  round = λ a. a;
}

-- ten records a check, of which nine arrive, a hundred checks long
abbrev pub risen : ℕ → ℕ
risen i = min (10 * i) 1000

abbrev pub arrived : ℕ → ℕ
arrived i = min (9 * i) 900

pub risen-IsCounter : IsCounter risen
risen-IsCounter = record { rises = λ i j le. omega arith; fits = λ i. omega arith }

pub arrived-IsCounter : IsCounter arrived
arrived-IsCounter = record { rises = λ i j le. omega arith; fits = λ i. omega arith }

abbrev pub empty_ring : TimeWindowRing
empty_ring = record {
  buffer = 0 ∷ 0 ∷ 0 ∷ [];
  tail = negsuc 0;
  head = negsuc 0;
  count = 0;
  size = pos 30;
  sampling = pos 10;
}

abbrev pub new_service : StatusService
new_service = record {
  check_interval = pos 10;
  produced_samples = empty_ring;
  consumed_samples = empty_ring;
}

abbrev pub sampled_ring : TimeWindowRing
sampled_ring = record empty_ring { tail = pos 0; head = pos 0; count = 1 }

abbrev pub sampled_service : StatusService
sampled_service = record new_service {
  produced_samples = sampled_ring;
  consumed_samples = sampled_ring;
}

abbrev pub open_loop : Looped Sampled
open_loop = record {
  stop = opened;
  goroutines = 1;
  caller = free;
  state = record { checks = 1; service = sampled_service };
}

checked_once : status_check 0 0 new_service ≡ ok sampled_service
unfolding status_check strimzi_canary.Ring.put strimzi_canary.Ring.head_sample
    strimzi_canary.Ring.tail_sample
checked_once = refl

pub open_loop-ReachStatus : ReachStatus risen arrived new_service open_loop
open_loop-ReachStatus =
    next (next here (opens (record { checks = 0; service = new_service }) refl refl))
      (ticks open_loop.state (omega arith) (refl, checked_once))

pub open_loop-IsTidy : IsTidy Opens (Checks risen arrived) open_loop-ReachStatus
unfolding open_loop-ReachStatus
open_loop-IsTidy = ((tt, λ h. cc h), tt)

pub made_new : new_status_service (pos 30) (pos 10) ≡ ok new_service
unfolding new_status_service strimzi_canary.Ring.new_time_window_ring
made_new = refl
