-- ===== src/Manager/Start.antt =====
-- How Start ends: which reconcile ends its loop, and what comes of it.
use strimzi_canary.Common.{
  ℕ, zero, suc, ◌*◌, ◌^◌, ◌≤◌, ◌<◌, ◌≡◌, refl, ap, ◌∙◌, ◌⊎◌, inl, inr, List, ◌∷◌, ◌++◌, map, count,
  Bool, Option, Outcome, ok, crash, fatal, Result, value, error, String, count-append, arith,
}
use strimzi_canary.Common.Int.{pos}
use strimzi_canary.Backoff.{
  millisecond, max_default, BackoffError, new_backoff, max_attempts_exceeded,
}
use strimzi_canary.Backoff.Retry.{Retried, retry}
use strimzi_canary.Backoff.Attempts.{Fits, EndsAfter, retry-finished, retry-exhausted}
use strimzi_canary.Client.Retry.{millisecond-Fits, scale-millisecond}
use strimzi_canary.Topic.Types.{Errors, TopicSettings, TopicService, ReconcileError, done}
use strimzi_canary.Topic.Cooperation.{Cooperates}
use strimzi_canary.Topic.Total.{reconcile-Replied}
use strimzi_canary.Connection.{ConnectionService}
use strimzi_canary.Connection
use strimzi_canary.Consumer.{max_consume_attempts}
use strimzi_canary.Loop.Ticker.{IsPeriod, new_ticker_of-IsPeriod}
use strimzi_canary.Manager.{
  Intervals, Event, connection, open_status_service, CanaryManager, Answers, Sending, waiting,
  started, start_attempt, or_exit, running, start,
}
use strimzi_canary.Manager.Events.{is_sleep, count-map}
use strimzi_canary.Manager.Attempts.{
  Waited, first, later, Decided, Attempts, Waited-AgainTo, answered,
}

-- Intervals of which each makes a ticker.
pub record IsTicking (every : Intervals) : Type 0 where
  pub connections : IsPeriod every.connection_check
  pub statuses : IsPeriod every.status_check
  pub reconciles : IsPeriod every.reconcile

module _ (er : Errors) (cfg : TopicSettings) (client_id : String) (fuel : ℕ)
    (answers : ℕ → Answers er cfg client_id) (times_out : ℕ → Bool) (cm : CanaryManager) where
  -- The program runs, or is ended, by the first reconcile that finds a cluster of the expected size, after
  -- so many waits; or every attempt found another size.
  pub record Starts (cs : ConnectionService) (N : ℕ) (run : List Event × Outcome CanaryManager)
      : Type 0 where
    pub waits : ℕ
    pub in_time : waits ≤ N
    pub sending : Sending er cfg client_id
    pub decided : Decided er cfg client_id fuel answers times_out cm waits sending
    pub ends : run.1 ≡ running er cfg client_id fuel answers times_out cs sending
    pub sleeps : count is_sleep run.0 ≡ waits

  pub record NeverStarts (N : ℕ) (run : List Event × Outcome CanaryManager) : Type 0 where
    pub service : TopicService
    pub waited : Waited er cfg client_id fuel answers times_out cm (suc N) service
    pub ends : run.1 ≡ crash fatal
    pub sleeps : count is_sleep run.0 ≡ N

  module _ (lt : max_consume_attempts < fuel)
      (co : (i : ℕ) → Cooperates er cfg (answers i).topic_answers fuel) where
    -- Of `n` reconciles one ends the loop, or none does.
    some_reply :
        (n : ℕ)
        → ((k : ℕ) × (k < n)
            × (s : Sending er cfg client_id) × Decided er cfg client_id fuel answers times_out cm k
                s
            × Attempts er cfg client_id fuel answers times_out cm k s)
          ⊎ ((svc : TopicService) × Waited er cfg client_id fuel answers times_out cm n svc)
    unfolding start_attempt
    some_reply zero = inr (cm.topic_service, first)
    some_reply (suc n) = elim (some_reply n) [
      | inl (k, l, s, decided, attempts) ↦ inl (k, omega arith, s, decided, attempts)
      | inr (svc, w) ↦
          let (t, (svc', r, e), run, settled) =
            reconcile-Replied er cfg (answers n).topic_answers fuel (co n) svc in
          elim (answered er cfg client_id fuel answers times_out cm lt n t svc' r e) [
            | inl size ↦ inr (
              svc',
              later t r w (run ∙ ap (λ (x : Option (ReconcileError er)). done t (svc', r, x)) size),
            )
            | inr (es, s, attempt, quiet, decides) ↦ inl (
              n,
              omega arith,
              s,
              record {
                before = svc;
                waited = w;
                events = t;
                service = svc';
                result = r;
                cause = e;
                replies = run;
                decides = decides;
              },
              (
                es,
                svc,
                ap (started er cfg client_id fuel answers times_out n cm.producer_service) run
                    ∙ attempt,
                quiet,
                Waited-AgainTo er cfg client_id fuel answers times_out cm w,
              ),
            )
          ]
    ]

    module _ (N ms : ℕ) (fits : Fits (ms * millisecond) (300_000 * millisecond) N)
        (more : N < fuel) where
      -- the loop of Start
      abbrev loop : Retried Event (Sending er cfg client_id)
      loop =
          retry (start_attempt er cfg client_id fuel answers times_out cm.producer_service)
            (waiting er cfg client_id) fuel (0, cm.topic_service)
            (new_backoff (pos N) (pos (ms * millisecond)) max_default)

      loop-ends :
          ((k : ℕ) × (k ≤ N)
            × (s : Sending er cfg client_id) × Decided er cfg client_id fuel answers times_out cm k
                s
            × EndsAfter is_sleep k (value s) loop)
          ⊎ ((svc : TopicService) × Waited er cfg client_id fuel answers times_out cm (suc N) svc
              × EndsAfter is_sleep N (error max_attempts_exceeded) loop)
      loop-ends =
          let attempt = start_attempt er cfg client_id fuel answers times_out cm.producer_service in
          elim (some_reply (suc N)) [
            | inl (k, l, s, decided, (es, svc, ends, quiet, to)) ↦ inl (
              k,
              omega arith,
              s,
              decided,
              retry-finished attempt is_sleep (waiting er cfg client_id) (λ d. refl)
                  (ms * millisecond) (300_000 * millisecond) N fits fuel es s to (omega arith)
                  (omega arith) ends quiet,
            )
            | inr (svc, w) ↦ inr (
              svc,
              w,
              retry-exhausted attempt is_sleep (waiting er cfg client_id) (λ d. refl)
                  (ms * millisecond) (300_000 * millisecond) N fits fuel
                  (Waited-AgainTo er cfg client_id fuel answers times_out cm w) more,
            )
          ]

  module _ (every : Intervals) (N ms : ℕ) (connected : Connection.Answers er)
      (t : List Connection.Event) (cs : ConnectionService) where
    -- what Start makes of its loop
    abbrev from_loop : Retried Event (Sending er cfg client_id) → List Event × Outcome CanaryManager
    from_loop (u, end) = (
      map connection t ++ (open_status_service ∷ u),
      running er cfg client_id fuel answers times_out cs
          (or_exit er cfg client_id fuel answers times_out end),
    )

    start-loop :
        IsTicking every
        → Fits (ms * millisecond) (300_000 * millisecond) N
        → Connection.connection_check er cfg.expected_cluster_size connected cm.connection_service
          ≡ (t, ok cs)
        → start er cfg client_id fuel answers times_out every (pos N) (pos ms) connected cm
          ≡ from_loop (
              retry
                (start_attempt er cfg client_id fuel answers times_out cm.producer_service)
                (waiting er cfg client_id)
                fuel
                (0, cm.topic_service)
                (new_backoff (pos N) (pos (ms * millisecond)) max_default))
    unfolding start
    start-loop ticking fits opens =
        rw
          (
            start,
            opens,
            new_ticker_of-IsPeriod every.connection_check ticking.connections,
            new_ticker_of-IsPeriod every.status_check ticking.statuses,
            new_ticker_of-IsPeriod every.reconcile ticking.reconciles,
            scale-millisecond ms N fits,
          )
          refl

    from_loop_sleeps :
        (run : Retried Event (Sending er cfg client_id))
        → count is_sleep (from_loop run).0 ≡ count is_sleep run.0
    from_loop_sleeps (u, end) = omega (
      arith,
      count-append is_sleep (map connection t) (open_status_service ∷ u),
      count-map connection t (λ x. refl),
    )

    -- Start, when its first connection check does not crash, the intervals of the three loops are positive and fit an
    -- int64 in nanoseconds, the scale of the back-off is positive and its largest delay fits an int64, and
    -- the cluster lets every reconcile end: the first reconcile, of N + 1, that does not find a
    -- cluster of an unexpected size ends its loop, after a wait for each that did. Then the manager runs if
    -- that reconcile has a result and the consumer joins the group, with the first messages sent, and the
    -- program ends if not. If all of them find such a cluster, it ends after N waits.
    pub start-Starts :
        IsTicking every
        → 0 < ms
        → ms * millisecond * 2 ^ N < 2 ^ 63
        → N < fuel
        → max_consume_attempts < fuel
        → ((i : ℕ) → Cooperates er cfg (answers i).topic_answers fuel)
        → Connection.connection_check er cfg.expected_cluster_size connected cm.connection_service
          ≡ (t, ok cs)
        → Starts cs N
            (start er cfg client_id fuel answers times_out every (pos N) (pos ms) connected cm)
          ⊎ NeverStarts N
              (start er cfg client_id fuel answers times_out every (pos N) (pos ms) connected cm)
    start-Starts ticking ms_pos in_reach more lt co opens =
        let fits = millisecond-Fits ms N ms_pos in_reach in
        let run = start-loop ticking fits opens in
        elim (loop-ends lt co N ms fits more) [
          | inl (k, le, s, decided, h) ↦ inl (record {
            waits = k;
            in_time = le;
            sending = s;
            decided = decided;
            ends =
                ap (λ (r : List Event × Outcome CanaryManager). r.1) run
                ∙ ap
                    (λ (r : Outcome (Result BackoffError (Sending er cfg client_id))).
                      running er cfg client_id fuel answers times_out cs
                        (or_exit er cfg client_id fuel answers times_out r))
                    h.ends;
            sleeps =
                ap (λ (r : List Event × Outcome CanaryManager). count is_sleep r.0) run
                ∙ from_loop_sleeps (loop lt co N ms fits more)
                ∙ h.sleeps;
          })
          | inr (svc, w, h) ↦ inr (record {
            service = svc;
            waited = w;
            ends =
                ap (λ (r : List Event × Outcome CanaryManager). r.1) run
                ∙ ap
                    (λ (r : Outcome (Result BackoffError (Sending er cfg client_id))).
                      running er cfg client_id fuel answers times_out cs
                        (or_exit er cfg client_id fuel answers times_out r))
                    h.ends;
            sleeps =
                ap (λ (r : List Event × Outcome CanaryManager). count is_sleep r.0) run
                ∙ from_loop_sleeps (loop lt co N ms fits more)
                ∙ h.sleeps;
          })
        ]
