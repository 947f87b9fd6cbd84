-- ===== src/Manager/Running/Numbered.antt =====
-- What the manager has sent, at every moment between its Starts, ticks and Stops.
use strimzi_canary.Common.{ℕ, ◌^◌, ◌<◌, ◌≡◌, refl, ap, List, [], ◌++◌, map, String, Outcome, ok}
use strimzi_canary.Common.Int.{ℤ}
use strimzi_canary.Topic.Types.{Errors, TopicSettings}
use strimzi_canary.Topic.Cooperation.{Cooperates}
use strimzi_canary.Producer.Sent.{messages}
use strimzi_canary.Manager.{Event, connection, Intervals, CanaryManager, Answers, reconcile}
use strimzi_canary.Manager.Numbers.{Adds, Adds-nothing, Adds-append, Adds-small}
use strimzi_canary.Manager.Tick.{reconcile-Ticks}
use strimzi_canary.Manager.Loop.{Ticks-Runs}
use strimzi_canary.Manager.Running.{
  Managed, ManagerStep, starts, ticks, connection_ticks, ends, stops, returns, ReachManager, here,
  next, IsTidyRun,
}
use strimzi_canary.Manager.Running.Closing.{close_services-Between}
use strimzi_canary.Manager.Running.Steps.{
  Between, of_producer-connection, start-Between, reconcile-Between,
}

module _ (er : Errors) (cfg : TopicSettings) (client_id : String) (fuel : ℕ) (every : Intervals)
    (max_attempts scale : ℤ) where
  -- the states after `cm` that a step leads on from
  abbrev Since : CanaryManager → Managed → Type 0
  Since cm w = Between cm w.events w.manager

  append-Since :
      (cm : CanaryManager) (w : Managed) (t : List Event) (cm' : CanaryManager)
      → Since cm w
      → Between w.manager t cm'
      → Between cm (w.events ++ t) cm'
  append-Since cm w t cm' a b =
      Adds-append cm.producer_service w.manager.producer_service cm'.producer_service w.events t a b

  ManagerStep-Since :
      (cm : CanaryManager) {w v : Managed}
      → ManagerStep er cfg client_id fuel every max_attempts scale w v
      → Since cm w
      → Since cm v
  ManagerStep-Since cm {w} (starts answers times_out connected t cm' f run) a =
      append-Since cm w t cm' a
        (start-Between er cfg client_id fuel answers times_out w.manager
          (Adds-small cm.producer_service w.manager.producer_service w.events a) every max_attempts
          scale connected t cm' run).0
  ManagerStep-Since cm {w} (ticks ans t cm' some_left run) a =
      append-Since cm w t cm' a
        (reconcile-Between er cfg client_id fuel ans w.manager
          (Adds-small cm.producer_service w.manager.producer_service w.events a) t cm' run).0
  ManagerStep-Since cm {w} (connection_ticks ans t cs live run) a =
      append-Since cm w (map connection t) (record w.manager { connection_service = cs }) a
        (Adds-nothing w.manager.producer_service (map connection t)
          (Adds-small cm.producer_service w.manager.producer_service w.events a)
          (ap messages (of_producer-connection t)))
  ManagerStep-Since cm (ends n e c) a = a
  ManagerStep-Since cm (stops f c) a = a
  ManagerStep-Since cm {w} (returns ans t cm' g z run) a =
      append-Since cm w t cm' a
        (close_services-Between er cfg ans w.manager t cm'
          (Adds-small cm.producer_service w.manager.producer_service w.events a) run).0

  -- What was sent since `cm`, and that the next tick does not end the program.
  pub record IsNumbered (cm : CanaryManager) (w : Managed) : Type 0 where
    pub adds : Adds cm.producer_service w.events w.manager.producer_service
    pub goes_on :
        (ans : Answers er cfg client_id)
        → Cooperates er cfg ans.topic_answers fuel
        → (t : List Event) × (cm' : CanaryManager) × (reconcile er cfg client_id fuel ans w.manager
            ≡ (t, ok cm'))

  Reach-Since :
      (cm : CanaryManager) {w : Managed}
      → cm.producer_service.records_produced < 2 ^ 64
      → ReachManager er cfg client_id fuel every max_attempts scale cm w
      → Since cm w
  Reach-Since cm small here = Adds-nothing cm.producer_service [] small refl
  Reach-Since cm small (next r step) = ManagerStep-Since cm step (Reach-Since cm small r)

  -- In every state that a manager comes to by its Starts, none of them while it is started, the ticks of its
  -- goroutine, the connection checks and Stops, in any interleaving: the messages sent so far, in all, have consecutive numbers from the first
  -- index of the producer on, its index is the last of them, and the counter of the records produced has
  -- gone up by their number, modulo 2^64; and a tick does not end the program, if the cluster lets its
  -- reconcile end.
  pub Reach-IsNumbered :
      (cm : CanaryManager) (w : Managed)
      → cm.producer_service.records_produced < 2 ^ 64
      → (r : ReachManager er cfg client_id fuel every max_attempts scale cm w)
      → IsTidyRun er cfg client_id fuel every max_attempts scale r
      → IsNumbered cm w
  Reach-IsNumbered cm w small r tidy =
      let a = Reach-Since cm small r in
      record {
        adds = a;
        goes_on = λ ans co.
            let h = Adds-small cm.producer_service w.manager.producer_service w.events a in
            let (u, svc, result, e, run, done) =
              reconcile-Ticks er cfg client_id ans fuel w.manager co h in
            let runs =
              Ticks-Runs er cfg client_id fuel ans w.manager svc result e
                (reconcile er cfg client_id fuel ans w.manager) h done in
            (
              (reconcile er cfg client_id fuel ans w.manager).0,
              runs.last,
              ap
                  (λ (end : Outcome CanaryManager).
                    ((reconcile er cfg client_id fuel ans w.manager).0, end))
                  runs.ends,
            );
      }
