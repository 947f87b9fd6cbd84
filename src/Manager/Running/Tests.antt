-- ===== src/Manager/Running/Tests.antt =====
-- A manager that is started, ticks and is asked to stop.
use strimzi_canary.Common.{refl, ap, List, [], ◌++◌, Outcome, arith}
use strimzi_canary.Common.Int.{pos}
use strimzi_canary.Common.Maps.{nat_eq}
use strimzi_canary.Manager.{Event, CanaryManager, start}
use strimzi_canary.Loop.{closed, free, waiting}
use strimzi_canary.Manager.Sample.{
  plain, settings, answers, at_once, connected, new_manager, running_manager, starts, every,
}
use strimzi_canary.Manager.Running.{
  Managed, ReachManager, starts as starts_step, stops, here, next, IsTidyRun,
}
use strimzi_canary.Manager.Running.Numbered.{IsNumbered, Reach-IsNumbered}
use strimzi_canary.Manager.Running.Looping.{IsLoop, Reach-IsLoop}

abbrev started_events : List Event
started_events =
    (start plain settings "client" 4 answers at_once every (pos 3) (pos 5000) connected
      new_manager).0

abbrev started_manager : Managed
started_manager = record {
  manager = running_manager;
  goroutines = 1;
  caller = free;
  events = [] ++ started_events;
}

started_reached :
    ReachManager plain settings "client" 4 every (pos 3) (pos 5000) new_manager started_manager
started_reached = next here (
    starts_step answers at_once connected started_events running_manager refl
      (ap (λ (end : Outcome CanaryManager). (started_events, end)) starts))

started_tidy : IsTidyRun plain settings "client" 4 every (pos 3) (pos 5000) started_reached
unfolding started_reached
started_tidy = (tt, λ h. cc h)

abbrev stopping_manager : Managed
stopping_manager = record started_manager {
  manager = record running_manager { stop = closed };
  caller = waiting;
}

Reach-IsNumbered_example :
    IsNumbered plain settings "client" 4 every (pos 3) (pos 5000) new_manager started_manager
Reach-IsNumbered_example =
    Reach-IsNumbered plain settings "client" 4 every (pos 3) (pos 5000) new_manager started_manager
      (omega arith) started_reached started_tidy

Reach-IsLoop_example : IsLoop plain settings "client" 4 every (pos 3) (pos 5000) stopping_manager
Reach-IsLoop_example =
    Reach-IsLoop plain settings "client" 4 every (pos 3) (pos 5000) new_manager stopping_manager
      refl (omega arith) (next started_reached (stops refl refl)) (started_tidy, tt)
