-- ===== src/Manager/Running.antt =====
-- internal/workers/canary_manager.go: Start, Stop and the goroutine between them as the steps of a relation. Stop
-- stands at the wait group until the goroutine has ended; the checks of the connection service come at any
-- time between Start and the closing of the services.
pub mod Sends
pub mod Steps
pub mod Closing
pub mod Numbered
pub mod Looping
mod Tests
use strimzi_canary.Common.{ℕ, suc, ◌<◌, ◌≡◌, ◌≢◌, ◌⊎◌, List, [], ◌++◌, map, Bool, String, ok}
use strimzi_canary.Common.Int.{ℤ}
use strimzi_canary.Topic.Types.{Errors, TopicSettings}
use strimzi_canary.Connection.{ConnectionService}
use strimzi_canary.Connection
use strimzi_canary.Loop.{opened, closed, close_channel, Caller, free, waiting}
use strimzi_canary.Manager.{Event, connection, Intervals, CanaryManager, Answers, start, reconcile}
use strimzi_canary.Manager.Stop.{Closings, close_services}

-- `goroutines` is the counter of the wait group, `caller` where the caller of Start and Stop stands.
pub record Managed : Type 0 where
  pub manager : CanaryManager
  pub goroutines : ℕ
  pub caller : Caller
  pub events : List Event

abbrev pub new_managed : CanaryManager → Managed
new_managed cm = record { manager = cm; goroutines = 0; caller = free; events = [] }

-- From Start until Stop closes the services.
abbrev pub IsLive : Managed → Type 0
IsLive w = (w.manager.stop ≡ opened) ⊎ (w.caller ≡ waiting)

module _ (er : Errors) (cfg : TopicSettings) (client_id : String) (fuel : ℕ) (every : Intervals)
    (max_attempts scale : ℤ) where
  -- A step that does not end the program. A Start of a manager that is started is one too, and starts one more
  -- goroutine.
  pub data ManagerStep (w : Managed) : Managed → Type 0 where
    starts :
        (answers : ℕ → Answers er cfg client_id) (times_out : ℕ → Bool)
        (connected : Connection.Answers er) (t : List Event) (cm : CanaryManager)
        → w.caller ≡ free
        → start er cfg client_id fuel answers times_out every max_attempts scale connected w.manager
          ≡ (t, ok cm)
        → ManagerStep w (record {
          manager = cm;
          goroutines = suc w.goroutines;
          caller = free;
          events = w.events ++ t;
        })
    ticks :
        (ans : Answers er cfg client_id) (t : List Event) (cm : CanaryManager)
        → 0 < w.goroutines
        → reconcile er cfg client_id fuel ans w.manager ≡ (t, ok cm)
        → ManagerStep w (record w { manager = cm; events = w.events ++ t })
    connection_ticks :
        (ans : Connection.Answers er) (t : List Connection.Event) (cs : ConnectionService)
        → IsLive w
        → Connection.connection_check er cfg.expected_cluster_size ans w.manager.connection_service
          ≡ (t, ok cs)
        → ManagerStep w (record w {
          manager = record w.manager { connection_service = cs };
          events = w.events ++ map connection t;
        })
    ends :
        (n : ℕ)
        → w.goroutines ≡ suc n
        → w.manager.stop ≡ closed
        → ManagerStep w (record w { goroutines = n })
    stops :
        w.caller ≡ free
        → close_channel w.manager.stop ≡ ok tt
        → ManagerStep w
            (record w { manager = record w.manager { stop = closed }; caller = waiting })
    returns :
        (ans : Closings er cfg) (t : List Event) (cm : CanaryManager)
        → w.caller ≡ waiting
        → w.goroutines ≡ 0
        → close_services er cfg ans w.manager ≡ (t, ok cm)
        → ManagerStep w (record w { manager = cm; caller = free; events = w.events ++ t })

  pub data ReachManager (cm : CanaryManager) : Managed → Type 0 where
    here : ReachManager cm (new_managed cm)
    next : {w v : Managed} → ReachManager cm w → ManagerStep w v → ReachManager cm v

  -- no Start of a manager that is started
  abbrev pub IsFreshStep : {w v : Managed} → ManagerStep w v → Type 0
  IsFreshStep {w} (starts answers times_out connected t cm f run) = w.manager.stop ≢ opened
  IsFreshStep (ticks ans t cm h run) = Unit {0}
  IsFreshStep (connection_ticks ans t cs live run) = Unit {0}
  IsFreshStep (ends n e c) = Unit {0}
  IsFreshStep (stops f c) = Unit {0}
  IsFreshStep (returns ans t cm g z run) = Unit {0}

  abbrev pub IsTidyRun : {cm : CanaryManager} {w : Managed} → ReachManager cm w → Type 0
  IsTidyRun here = Unit {0}
  IsTidyRun (next r step) = IsTidyRun r × IsFreshStep step
