-- ===== src/Program/Managed.antt =====
-- How the manager's part of main ends, from its start to its stop.
use strimzi_canary.Common.{ℕ, ◌≡◌, ap, ◌∙◌, true, ok, arith}
use mathlib.Core.Path.{subst}
use strimzi_canary.Common.Trace.{lift, of_service}
use strimzi_canary.Config.{SaslTypes, Floats, CanaryConfig}
use strimzi_canary.Security.{Certificates}
use strimzi_canary.Main.{Versions}
use strimzi_canary.Topic.Types.{Errors}
use strimzi_canary.Connection.{ConnectionService, new_connection_service}
use strimzi_canary.Connection.Loop.{check_loop, connection_check-KeepsAdmin, check_loop-KeepsAdmin}
use strimzi_canary.Loop.{opened}
use strimzi_canary.Metrics.{Registry}
use strimzi_canary.Manager
use strimzi_canary.Manager.{CanaryManager}
use strimzi_canary.Manager.Loop.{reconcile_loop, reconcile_loop-Runs}
use strimzi_canary.Manager.Stop.{stop, StopsAs, stop-StopsAs}
use strimzi_canary.Program.{World, manage, manager}
use strimzi_canary.Program.Exits.{
  StartFault, EndsIn, with_reason, ok-EndsIn, bind-EndsIn, Any, IsRunning, start-EndsIn,
}
use strimzi_canary.Program.{in_goroutine, intervals, staged, start_manager, stop_manager}
use strimzi_canary.Status.{StatusService, checked}
use strimzi_canary.Program.Parts.{in_goroutine-EndsIn, staged-EndsIn, Ended}
use strimzi_canary.Program.Documented.{settings, manager_made, IsDocumented, Fault, no_start}

module _ (fl : Floats) (types : SaslTypes) (ce : Certificates) (vs : Versions) (er : Errors)
    (reg : Registry fl) (fuel : ℕ) (w : World fl types ce vs er reg) (c : CanaryConfig fl) where
  abbrev Runs : CanaryManager → Type 0
  Runs cm = (cm.stop ≡ opened) × (cm.connection_service.admin ≡ true)

  stop-EndsIn :
      IsDocumented fl types ce vs er reg fuel w c
      → (cm : CanaryManager) → Runs cm
      → EndsIn
          (Fault fl types ce vs er reg fuel w c)
          Any
          (stop er (settings fl types ce vs er reg c) (w.closings c) cm).1
  stop-EndsIn d cm (is_open, has) =
      let stops =
        stop-StopsAs er (settings fl types ce vs er reg c) (w.closings c) cm is_open
          d.producer_closes d.consumer_closes d.topic_closes d.connection_closes in
      ok-EndsIn (Fault fl types ce vs er reg fuel w c) Any
        (subst (λ b. StopsAs er (settings fl types ce vs er reg c) b (w.closings c) cm) has stops).0
        tt

  starting :
      (d : IsDocumented fl types ce vs er reg fuel w c)
      → (cs : ConnectionService) × (cs.admin ≡ true)
        × EndsIn
            (StartFault er
              (settings fl types ce vs er reg c)
              c.client_id
              fuel
              (w.answers c)
              w.times_out
              (manager_made fl types ce vs er reg)
              d.attempts)
            (IsRunning er
              (settings fl types ce vs er reg c)
              c.client_id
              fuel
              (w.answers c)
              w.times_out
              (manager_made fl types ce vs er reg)
              cs)
            (Manager.start er
              (settings fl types ce vs er reg c)
              c.client_id
              fuel
              (w.answers c)
              w.times_out
              (intervals fl types ce vs er reg c)
              c.bootstrap_backoff_max_attempts
              c.bootstrap_backoff_scale
              w.connected
              (manager_made fl types ce vs er reg)).1
  starting d =
      let (t, cs, checked, has) =
        connection_check-KeepsAdmin er c.expected_cluster_size w.connected new_connection_service
          d.responds in
      (
        cs,
        has,
        start-EndsIn er (settings fl types ce vs er reg c) c.client_id fuel (w.answers c)
            w.times_out (manager_made fl types ce vs er reg) (intervals fl types ce vs er reg c)
            d.attempts d.scale c.bootstrap_backoff_max_attempts c.bootstrap_backoff_scale
            w.connected t cs d.ticking d.attempts_is d.scale_is d.scale_pos d.in_reach d.enough
            d.enough_to_consume d.cooperates checked (omega arith),
      )

  -- The manager from its start to its stop.
  pub manage-EndsIn :
      IsDocumented fl types ce vs er reg fuel w c
      → (ss : StatusService)
      → EndsIn
          (Fault fl types ce vs er reg fuel w c)
          Any
          (checked w.produced w.consumed w.status_checks ss)
      → EndsIn
          (Fault fl types ce vs er reg fuel w c)
          Any
          (manage fl types ce vs er reg fuel w c ss).1
  unfolding manage
  manage-EndsIn d ss samples =
      let (cs, has, runs) = starting d in
      let run =
        Manager.start er (settings fl types ce vs er reg c) c.client_id fuel (w.answers c)
          w.times_out (intervals fl types ce vs er reg c) c.bootstrap_backoff_max_attempts
          c.bootstrap_backoff_scale w.connected (manager_made fl types ce vs er reg) in
      let P =
        IsRunning er (settings fl types ce vs er reg c) c.client_id fuel (w.answers c) w.times_out
          (manager_made fl types ce vs er reg) cs in
      bind-EndsIn (Fault fl types ce vs er reg fuel w c) P Ended
        (staged fl types ce vs er reg start_manager (of_service manager run)) _
        (staged-EndsIn fl types ce vs er reg (Fault fl types ce vs er reg fuel w c) P start_manager
          (of_service manager run) (with_reason P run.1 runs (no_start d.attempts d.attempts_is)))
        λ cm running.
          let ticked =
            reconcile_loop-Runs er (settings fl types ce vs er reg c) c.client_id fuel (w.ticks c)
              cm d.all_cooperate running.small in
          bind-EndsIn (Fault fl types ce vs er reg fuel w c) (λ m. m.stop ≡ opened) Ended
            (in_goroutine fl types ce vs er reg (
              of_service manager (
                reconcile_loop er (settings fl types ce vs er reg c) c.client_id fuel (w.ticks c)
                  cm)))
            _
            (in_goroutine-EndsIn fl types ce vs er reg (Fault fl types ce vs er reg fuel w c)
              (λ (m : CanaryManager). m.stop ≡ opened)
              (of_service manager (
                reconcile_loop er (settings fl types ce vs er reg c) c.client_id fuel (w.ticks c)
                  cm))
              (ok-EndsIn (Fault fl types ce vs er reg fuel w c)
                (λ (m : CanaryManager). m.stop ≡ opened) ticked.ends
                (ticked.goes_on ∙ running.is_open)))
            λ last is_open.
              let (u, kept, checks, has') =
                check_loop-KeepsAdmin er c.expected_cluster_size w.checks cm.connection_service
                  (ap (λ (s : ConnectionService). s.admin) running.connection ∙ has)
                  d.all_respond in
              bind-EndsIn (Fault fl types ce vs er reg fuel w c) (λ s. s.admin ≡ true) Ended
                (in_goroutine fl types ce vs er reg (
                  of_service (λ e. manager (Manager.connection e))
                    (check_loop er c.expected_cluster_size w.checks cm.connection_service)))
                _
                (in_goroutine-EndsIn fl types ce vs er reg (Fault fl types ce vs er reg fuel w c)
                  (λ (s : ConnectionService). s.admin ≡ true)
                  (of_service (λ e. manager (Manager.connection e))
                    (check_loop er c.expected_cluster_size w.checks cm.connection_service))
                  (ok-EndsIn (Fault fl types ce vs er reg fuel w c)
                    (λ (s : ConnectionService). s.admin ≡ true) (ap (λ r. r.1) checks) has'))
                λ s admin.
                  bind-EndsIn (Fault fl types ce vs er reg fuel w c) Any Ended
                    (in_goroutine fl types ce vs er reg
                      (lift (checked w.produced w.consumed w.status_checks ss)))
                    _
                    (in_goroutine-EndsIn fl types ce vs er reg
                      (Fault fl types ce vs er reg fuel w c) Any
                      (lift (checked w.produced w.consumed w.status_checks ss)) samples)
                    λ x any.
                      bind-EndsIn (Fault fl types ce vs er reg fuel w c) Any Ended
                        (staged fl types ce vs er reg stop_manager (
                          of_service manager (
                            stop er (settings fl types ce vs er reg c) (w.closings c)
                              (record last { connection_service = s }))))
                        (λ m. lift (ok tt))
                        (staged-EndsIn fl types ce vs er reg (Fault fl types ce vs er reg fuel w c)
                          Any stop_manager
                          (of_service manager (
                            stop er (settings fl types ce vs er reg c) (w.closings c)
                              (record last { connection_service = s })))
                          (stop-EndsIn d (record last { connection_service = s }) (is_open, admin)))
                        λ m ended. tt
