-- ===== src/Status/Tests.antt =====
-- A status service whose floats are the integers, run.
use strimzi_canary.Common.{ℕ, ◌*◌, ◌≡◌, refl, arith, ok, ◌>>=◌}
use strimzi_canary.Common.Int.{pos}
use strimzi_canary.Status.{StatusService, new_status_service, status_check, checked, status_handler}
use strimzi_canary.Ring.{TimeWindowRing}
use strimzi_canary.Status.Sample.{whole}
use strimzi_canary.Status.Percentage.{status_handler-checked}

abbrev produced_counter : ℕ → ℕ
produced_counter i = 10 * i

abbrev consumed_counter : ℕ → ℕ
consumed_counter i = 9 * i

half_full :
    (new_status_service (pos 50) (pos 10)
      >>= checked produced_counter consumed_counter 3
      >>= status_handler whole)
    ≡ ok (record { time_window = pos 30; percentage = pos 90 })
unfolding new_status_service checked status_check status_handler
    strimzi_canary.Ring.new_time_window_ring strimzi_canary.Ring.put strimzi_canary.Ring.head_sample
    strimzi_canary.Ring.tail_sample strimzi_canary.Ring.is_empty
half_full = refl

status_handler-checked_example :
    (ss : StatusService) × (last : StatusService) × (new_status_service (pos 50) (pos 10) ≡ ok ss)
    × (checked produced_counter consumed_counter 8 ss ≡ ok last)
    × (status_handler whole last ≡ ok (record { time_window = pos 50; percentage = pos 90 }))
status_handler-checked_example =
    status_handler-checked whole 50 9 produced_counter consumed_counter 7 (omega arith)
      (omega arith) (omega arith) (omega arith) (omega arith)
