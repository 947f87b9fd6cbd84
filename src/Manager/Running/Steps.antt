-- ===== src/Manager/Running/Steps.antt =====
-- What a step of the manager, if it does not end the program, sends, and what it does to the loop.
use strimzi_canary.Common.{
  ℕ, ◌^◌, ◌<◌, ◌≡◌, refl, sym, ap, ◌∙◌, List, [], ◌∷◌, ◌++◌, map, Bool, String, Outcome, ok, crash,
  Crash, value, error,
}
use mathlib.Core.Path.{subst}
use strimzi_canary.Common.Int.{ℤ, pos, mul64}
use strimzi_canary.Backoff.{new_backoff, millisecond, max_default}
use strimzi_canary.Backoff.Retry.{Retried}
use strimzi_canary.Topic.Types.{Errors, TopicSettings, Run, done, failed, crashed}
use strimzi_canary.Topic
use strimzi_canary.Connection.{ConnectionService}
use strimzi_canary.Connection
use strimzi_canary.Producer.Sent.{messages}
use strimzi_canary.Loop.{opened}
use strimzi_canary.Manager.{
  Intervals, Tickers, tickers_of, and_ticker, Event, topic, connection, open_status_service,
  CanaryManager, Answers, Reply, Sending, start_attempt, or_exit, running, opened_and_started,
  start, reconciled, reconcile,
}
use strimzi_canary.Manager.Events.{of_producer, of_producer-topic}
use strimzi_canary.Manager.Numbers.{Adds, Adds-nothing, Adds-append}
use strimzi_canary.Manager.Tick.{reconciled-Ticks}
use strimzi_canary.Manager.Loop.{Runs, Ticks-Runs}
use strimzi_canary.Manager.Running.Sends.{LoopAdds, attempts, retry-Adds}

pub of_producer-connection : (t : List Connection.Event) → of_producer (map connection t) ≡ []
of_producer-connection [] = refl
of_producer-connection (e ∷ t) = of_producer-connection t

-- The messages that are sent between two states of the manager.
abbrev pub Between : CanaryManager → List Event → CanaryManager → Type 0
Between cm t cm' = Adds cm.producer_service t cm'.producer_service

module _ (er : Errors) (cfg : TopicSettings) (client_id : String) (fuel : ℕ) where
  module _ (answers : ℕ → Answers er cfg client_id) (times_out : ℕ → Bool) (cm : CanaryManager)
      (small : cm.producer_service.records_produced < 2 ^ 64) where
    from_loop :
        (u : List Connection.Event) (cs : ConnectionService)
        (run : Retried Event (Sending er cfg client_id)) (t : List Event) (cm' : CanaryManager)
        → LoopAdds er cfg client_id fuel answers times_out cm.producer_service small run
        → map connection u ++ (open_status_service ∷ run.0) ≡ t
        → running er cfg client_id fuel answers times_out cs
            (or_exit er cfg client_id fuel answers times_out run.1)
          ≡ ok cm'
        → Between cm t cm' × (cm'.stop ≡ opened)
    from_loop u cs (v, ok (value (ok (svc, ps)))) t cm' adds events ends =
        let same : record {
          stop = opened;
          topic_service = svc;
          producer_service = ps;
          connection_service = cs;
        }
            ≡ cm' =
          cc ends in
        let before : Adds cm.producer_service (map connection u) cm.producer_service =
          Adds-nothing cm.producer_service (map connection u) small
            (ap messages (of_producer-connection u)) in
        let opens : Adds cm.producer_service (open_status_service ∷ []) cm.producer_service =
          Adds-nothing cm.producer_service (open_status_service ∷ []) small refl in
        (
          subst (λ (l : List Event). Between cm l cm') events
              (subst
                (λ (m : CanaryManager).
                  Between cm (map connection u ++ (open_status_service ∷ v)) m)
                same
                (Adds-append cm.producer_service cm.producer_service ps (map connection u)
                  (open_status_service ∷ v) before
                  (Adds-append cm.producer_service cm.producer_service ps (open_status_service ∷ [])
                    v opens adds))),
          ap (λ (m : CanaryManager). m.stop) (sym same),
        )
    from_loop u cs (v, ok (value (crash c))) t cm' adds events ends = absurd (cc ends)
    from_loop u cs (v, ok (error e)) t cm' adds events ends = absurd (cc ends)
    from_loop u cs (v, crash c) t cm' adds events ends = absurd (cc ends)

    no_ticker :
        (d : Crash) (end : Outcome CanaryManager) (cm' : CanaryManager)
        → and_ticker (crash d) end ≡ ok cm'
        → ⊥
    no_ticker d (ok m) cm' h = cc h
    no_ticker d (crash c) cm' h = cc h

    from_check :
        (tickers : Tickers) (max_attempts scale : ℤ) (c : Connection.Checked) (t : List Event)
        (cm' : CanaryManager)
        → opened_and_started er cfg client_id fuel answers times_out tickers max_attempts scale cm c
          ≡ (t, ok cm')
        → Between cm t cm' × (cm'.stop ≡ opened)
    unfolding start_attempt
    from_check tickers max_attempts scale (u, crash c) t cm' h =
        absurd (cc (ap (λ (p : List Event × Outcome CanaryManager). p.1) h))
    from_check (crash d, more, last) max_attempts scale (u, ok cs) t cm' h =
        absurd (cc (ap (λ (p : List Event × Outcome CanaryManager). p.1) h))
    from_check (ok a, crash d, more) max_attempts scale (u, ok cs) t cm' h =
        absurd (cc (ap (λ (p : List Event × Outcome CanaryManager). p.1) h))
    from_check (ok a, ok b, crash d) max_attempts scale (u, ok cs) t cm' h =
        absurd (no_ticker d _ cm' (ap (λ (p : List Event × Outcome CanaryManager). p.1) h))
    from_check (ok a, ok b, ok d) max_attempts scale (u, ok cs) t cm' h =
        let b = new_backoff max_attempts (mul64 scale (pos millisecond)) max_default in
        from_loop u cs
          (attempts er cfg client_id fuel answers times_out cm.producer_service small fuel
            (0, cm.topic_service) b)
          t cm'
          (retry-Adds er cfg client_id fuel answers times_out cm.producer_service small fuel
            (0, cm.topic_service) b)
          (ap (λ (p : List Event × Outcome CanaryManager). p.0) h)
          (ap (λ (p : List Event × Outcome CanaryManager). p.1) h)

    pub start-Between :
        (every : Intervals) (max_attempts scale : ℤ) (connected : Connection.Answers er)
        (t : List Event) (cm' : CanaryManager)
        → start er cfg client_id fuel answers times_out every max_attempts scale connected cm
          ≡ (t, ok cm')
        → Between cm t cm' × (cm'.stop ≡ opened)
    unfolding start
    start-Between every max_attempts scale connected t cm' h =
        from_check (tickers_of every) max_attempts scale
          (Connection.connection_check er cfg.expected_cluster_size connected cm.connection_service)
          t cm' h

  module _ (ans : Answers er cfg client_id) (cm : CanaryManager)
      (small : cm.producer_service.records_produced < 2 ^ 64) where
    as_reconciled :
        (run : List Event × Outcome CanaryManager) (t : List Event) (cm' : CanaryManager)
        → Runs cm run
        → run ≡ (t, ok cm')
        → Between cm t cm' × (cm'.stop ≡ cm.stop)
    as_reconciled (u, end) t cm' r h =
        let same : r.last ≡ cm' =
          cc (r.ends, ap (λ (p : List Event × Outcome CanaryManager). p.1) h) in
        (
          subst (λ (m : CanaryManager). Between cm t m) same
              (subst (λ (l : List Event). Between cm l r.last)
                (ap (λ (p : List Event × Outcome CanaryManager). p.0) h) r.adds),
          ap (λ (m : CanaryManager). m.stop) (sym same) ∙ r.goes_on,
        )

    from_reconcile :
        (q : Run er (Reply er cfg client_id)) (t : List Event) (cm' : CanaryManager)
        → reconciled er cfg client_id ans cm q ≡ (t, ok cm')
        → Between cm t cm' × (cm'.stop ≡ cm.stop)
    from_reconcile (done u (svc, r, e)) t cm' h =
        as_reconciled (reconciled er cfg client_id ans cm (done u (svc, r, e))) t cm'
          (Ticks-Runs er cfg client_id fuel ans cm svc r e
            (reconciled er cfg client_id ans cm (done u (svc, r, e))) small
            (reconciled-Ticks er cfg client_id ans cm u svc r e small))
          h
    from_reconcile (failed u f) t cm' h =
        as_reconciled (reconciled er cfg client_id ans cm (failed u f)) t cm'
          (record {
            last = record cm { topic_service = f.service };
            ends = refl;
            goes_on = refl;
            adds =
                Adds-nothing cm.producer_service (map topic u) small
                  (ap messages (of_producer-topic u));
          })
          h
    from_reconcile (crashed u c) t cm' h =
        absurd (cc (ap (λ (p : List Event × Outcome CanaryManager). p.1) h))

    pub reconcile-Between :
        (t : List Event) (cm' : CanaryManager)
        → reconcile er cfg client_id fuel ans cm ≡ (t, ok cm')
        → Between cm t cm' × (cm'.stop ≡ cm.stop)
    unfolding reconcile
    reconcile-Between t cm' h =
        from_reconcile (Topic.reconcile er cfg ans.topic_answers fuel cm.topic_service) t cm' h
