-- ===== src/Program/Order.antt =====
-- In which order main goes through its stages, whatever fails.
use Prim.Native.String.{String}
use strimzi_canary.Common.{
  ℕ, ◌≡◌, refl, ap, ◌∙◌, Bool, true, false, ◌||◌, List, [], ◌∷◌, ◌++◌, append-nil, Option, none,
  some, Outcome, ok, crash, fatal, panicked,
}
use strimzi_canary.Common.Maps.{str_eq}
use strimzi_canary.Common.Trace.{Traced, ◌>>=◌, lift, tell, of_service}
use strimzi_canary.Config.{SaslTypes, Floats, CanaryConfig, new_canary_config}
use strimzi_canary.Security.{Certificates}
use strimzi_canary.Main.{Versions, create_sarama_config}
use strimzi_canary.Watcher.{new_dynamic_config_watcher}
use strimzi_canary.Topic.Types.{Errors}
use strimzi_canary.Manager
use strimzi_canary.Manager.Loop.{reconcile_loop}
use strimzi_canary.Manager.Stop.{stop}
use strimzi_canary.Connection.Loop.{check_loop}
use strimzi_canary.Status.{StatusService, new_status_service, checked}
use strimzi_canary.Watcher
use strimzi_canary.Metrics.{
  topic_metrics, producer_metrics, consumer_metrics, connection_metrics, manager_metrics,
  client_metrics, Registry, register_all,
}
use strimzi_canary.Program.{
  Event, new_exporter, set_tracer_provider, set_dynamic_config, new_watcher, close_watcher,
  start_http_server, stop_http_server, producer_client, consumer_client, new_sync_producer,
  new_consumer_group, manager, got_signal, close_producer_client, close_consumer_client,
  new_producer_client, new_consumer_client, start_manager, stop_manager, staged, intervals,
  watcher_ticker, goroutine_died, in_goroutine, World, topic_settings, new_manager, new_client,
  or_fatal, applied, panic_if, exporter_tracing, init_tracer_provider, runs_deferred, with_shutdown,
  watch, new_services, manage, serve_watched, serve, main,
}
use strimzi_canary.Program.Stages.{
  is_stage, stages-append, of_service-InOrder, InOrder, bind-InOrder, if-InOrder, lift-InOrder,
  stages, stages_shutdown, tell_other, tell_stage, then_ok,
}

-- What main goes through when nothing fails.
abbrev pub in_full : List Event
in_full =
    set_tracer_provider ∷ new_watcher ∷ start_http_server ∷ new_producer_client
    ∷ new_consumer_client ∷ new_sync_producer ∷ new_consumer_group ∷ start_manager ∷ got_signal
    ∷ stop_manager ∷ stop_http_server ∷ close_watcher ∷ close_producer_client
    ∷ close_consumer_client ∷ []

module _ (fl : Floats) (types : SaslTypes) (ce : Certificates) (vs : Versions) (er : Errors)
    (reg : Registry fl) where
  shutdown-InOrder :
      (l : List Event) (traces : Bool) (run : Traced Event (Unit {0}))
      → InOrder l run
      → InOrder l (with_shutdown fl types ce vs er reg traces run)
  shutdown-InOrder l false run h = h
  shutdown-InOrder l true (t, ok a) h =
      let same = stages_shutdown true t in
      record {
        rest = h.rest;
        prefix = ap (λ (x : List Event). x ++ h.rest) same ∙ h.prefix;
        whole = same ∙ h.whole;
      }
  shutdown-InOrder l true (t, crash c) h =
      let same = stages_shutdown (runs_deferred fl types ce vs er reg t (crash c)) t in
      record {
        rest = h.rest;
        prefix = ap (λ (x : List Event). x ++ h.rest) same ∙ h.prefix;
        whole = tt;
      }

  in_goroutine-InOrder :
      {A : Type 0} (run : Traced Event A)
      → InOrder [] run
      → InOrder [] (in_goroutine fl types ce vs er reg run)
  in_goroutine-InOrder (t, ok a) h = h
  in_goroutine-InOrder (t, crash c) h =
      let same = stages-append t (goroutine_died ∷ []) ∙ append-nil (stages t) in
      record {
        rest = h.rest;
        prefix = ap (λ (x : List Event). x ++ h.rest) same ∙ h.prefix;
        whole = tt;
      }

  then_goroutine :
      {Of A B : Type 0} (l : List Event) (wrap : Of → Event) (run : Traced Of A)
      {f : A → Traced Event B}
      → ((x : Of) → is_stage (wrap x) ≡ false)
      → ((a : A) → InOrder l (f a))
      → InOrder l (in_goroutine fl types ce vs er reg (of_service wrap run) >>= f)
  then_goroutine l wrap run {f} other k =
      bind-InOrder [] l (in_goroutine fl types ce vs er reg (of_service wrap run)) f
        (in_goroutine-InOrder (of_service wrap run) (of_service-InOrder wrap run other)) k

  -- a call that has its stage and no other
  then_staged :
      {Of A B : Type 0} (e : Event) (l : List Event) (wrap : Of → Event) (run : Traced Of A)
      {f : A → Traced Event B}
      → is_stage e ≡ true
      → ((x : Of) → is_stage (wrap x) ≡ false)
      → ((a : A) → InOrder l (f a))
      → InOrder (e ∷ l) (staged fl types ce vs er reg e (of_service wrap run) >>= f)
  then_staged e l wrap run {f} stage other k =
      bind-InOrder (e ∷ []) l (staged fl types ce vs er reg e (of_service wrap run)) f
        (bind-InOrder (e ∷ []) [] (tell e) (λ _. of_service wrap run) (tell_stage e stage)
          λ _. of_service-InOrder wrap run other)
        k

  -- a goroutine that has no stage
  then_died :
      {A B : Type 0} (l : List Event) (end : Outcome A) {f : A → Traced Event B}
      → ((a : A) → InOrder l (f a))
      → InOrder l (in_goroutine fl types ce vs er reg (lift end) >>= f)
  then_died l end {f} k =
      bind-InOrder [] l (in_goroutine fl types ce vs er reg (lift end)) f
        (in_goroutine-InOrder (lift end) (lift-InOrder end)) k

  exporter_tracing-InOrder :
      (failed : Option er.E) (exporter_type : String)
      → InOrder [] (exporter_tracing fl types ce vs er reg failed exporter_type)
  unfolding exporter_tracing
  exporter_tracing-InOrder failed exporter_type =
      if-InOrder [] (str_eq exporter_type "jaeger" || str_eq exporter_type "otlp") _ _
        (bind-InOrder [] [] _ _ (tell_other (new_exporter exporter_type) refl)
          λ _. lift-InOrder (panic_if fl types ce vs er reg panicked failed))
        (lift-InOrder (ok tt))

  init_tracer_provider-InOrder :
      (failed : Option er.E) (exporter_type : String)
      → InOrder
          (set_tracer_provider ∷ [])
          (init_tracer_provider fl types ce vs er reg failed exporter_type)
  unfolding init_tracer_provider
  init_tracer_provider-InOrder failed exporter_type =
      let set = tell_stage set_tracer_provider refl in
      if-InOrder (set_tracer_provider ∷ []) (str_eq exporter_type "") _ _
        (bind-InOrder (set_tracer_provider ∷ []) [] _ _ set λ _. lift-InOrder (ok false))
        (bind-InOrder [] (set_tracer_provider ∷ []) _ _
          (exporter_tracing-InOrder failed exporter_type)
          λ _. bind-InOrder (set_tracer_provider ∷ []) [] _ _ set λ _. lift-InOrder (ok true))

  module _ (w : World fl types ce vs er reg) (c : CanaryConfig fl) where
    watch-InOrder : InOrder (new_watcher ∷ []) (watch fl types ce vs er reg w c)
    unfolding watch
    watch-InOrder =
        let (watcher, target) =
          new_dynamic_config_watcher w.files c.dynamic_config_file c.dynamic_config_watcher_interval
            w.contents in
        bind-InOrder (new_watcher ∷ []) []
          (new_watcher ∷ applied fl types ce vs er reg w target, ok watcher) _
          (record { rest = []; prefix = append-nil _ ∙ only target; whole = only target })
          λ made. then_died [] (watcher_ticker fl types ce vs er reg c) λ _. lift-InOrder (ok made)
      where
        only :
            (target : Option w.files.Config)
            → stages (new_watcher ∷ applied fl types ce vs er reg w target) ≡ new_watcher ∷ []
        only none = refl
        only (some t) = refl

    abbrev made : List Event
    made = new_sync_producer ∷ new_consumer_group ∷ []

    new_services-InOrder : (r : reg.R) → InOrder made (new_services fl types ce vs er reg w c r)
    unfolding new_services
    new_services-InOrder r = then_ok made (register_all fl reg (topic_metrics fl c) r) λ topics.
        then_ok made (register_all fl reg (producer_metrics fl c) topics) λ producers.
          bind-InOrder (new_sync_producer ∷ []) (new_consumer_group ∷ []) (tell new_sync_producer) _
            (tell_stage new_sync_producer refl)
            λ _.
              then_ok (new_consumer_group ∷ [])
                (panic_if fl types ce vs er reg fatal w.sync_producer_failed)
                λ _.
                  then_ok (new_consumer_group ∷ [])
                    (register_all fl reg (consumer_metrics fl c) producers)
                    λ consumers.
                      bind-InOrder (new_consumer_group ∷ []) [] (tell new_consumer_group) _
                        (tell_stage new_consumer_group refl)
                        λ _.
                          then_ok [] (panic_if fl types ce vs er reg fatal w.consumer_group_failed)
                            λ _.
                              then_ok [] (register_all fl reg (connection_metrics fl c) consumers)
                                λ connections.
                                  lift-InOrder
                                    (register_all fl reg (manager_metrics fl c) connections)

    abbrev signalled : List Event
    signalled = got_signal ∷ stop_manager ∷ []

    abbrev managed : List Event
    managed = start_manager ∷ signalled

    manage-InOrder :
        (fuel : ℕ) (ss : StatusService) → InOrder managed (manage fl types ce vs er reg fuel w c ss)
    unfolding manage
    manage-InOrder fuel ss =
        then_staged start_manager signalled manager
          (Manager.start er (topic_settings fl types ce vs er reg c) c.client_id fuel (w.answers c)
            w.times_out (intervals fl types ce vs er reg c) c.bootstrap_backoff_max_attempts
            c.bootstrap_backoff_scale w.connected (new_manager fl types ce vs er reg))
          refl (λ x. refl)
          λ started.
            then_goroutine signalled manager
              (reconcile_loop er (topic_settings fl types ce vs er reg c) c.client_id fuel
                (w.ticks c) started)
              (λ x. refl)
              λ cm.
                then_goroutine signalled (λ e. manager (Manager.connection e))
                  (check_loop er c.expected_cluster_size w.checks started.connection_service)
                  (λ x. refl)
                  λ cs. then_died signalled (checked w.produced w.consumed w.status_checks ss) λ _.
                    bind-InOrder (got_signal ∷ []) (stop_manager ∷ []) (tell got_signal) _
                      (tell_stage got_signal refl)
                      λ _.
                        then_staged stop_manager [] manager
                          (stop er (topic_settings fl types ce vs er reg c) (w.closings c)
                            (record cm { connection_service = cs }))
                          refl (λ x. refl) λ _. lift-InOrder (ok tt)

    abbrev ending : List Event
    ending = stop_http_server ∷ close_watcher ∷ close_producer_client ∷ close_consumer_client ∷ []

    abbrev serving : List Event
    serving =
        new_watcher ∷ start_http_server ∷ new_producer_client ∷ new_consumer_client
        ∷ new_sync_producer ∷ new_consumer_group ∷ start_manager ∷ got_signal ∷ stop_manager
        ∷ ending

    serve-InOrder :
        (fuel : ℕ) (r : reg.R) → InOrder serving (serve fl types ce vs er reg fuel w c r)
    unfolding serve serve_watched
    serve-InOrder fuel r =
        let run = start_manager ∷ got_signal ∷ stop_manager ∷ ending in
        let made_clients = new_sync_producer ∷ new_consumer_group ∷ run in
        let served = new_producer_client ∷ new_consumer_client ∷ made_clients in
        let rest = start_http_server ∷ served in
        bind-InOrder (new_watcher ∷ []) rest (watch fl types ce vs er reg w c) _ watch-InOrder
          λ watcher.
            then_ok rest (new_status_service c.status_time_window c.status_check_interval) λ ss.
              bind-InOrder (start_http_server ∷ []) served (tell start_http_server) _
                (tell_stage start_http_server refl)
                λ _.
                  then_ok served
                    (or_fatal fl types ce vs er reg
                      (create_sarama_config fl types ce vs w.sarama c))
                    λ _.
                      then_staged new_producer_client (new_consumer_client ∷ made_clients)
                        producer_client (new_client fl types ce vs er reg fuel w.producer_clients c)
                        refl (λ x. refl)
                        λ _.
                          then_staged new_consumer_client made_clients consumer_client
                            (new_client fl types ce vs er reg fuel w.consumer_clients c) refl
                            (λ x. refl)
                            λ _.
                              bind-InOrder made run (new_services fl types ce vs er reg w c r) _
                                (new_services-InOrder r)
                                λ _.
                                  bind-InOrder managed ending
                                    (manage fl types ce vs er reg fuel w c ss) _
                                    (manage-InOrder fuel ss)
                                    λ _.
                                      bind-InOrder (stop_http_server ∷ [])
                                        (close_watcher ∷ close_producer_client
                                          ∷ close_consumer_client ∷ [])
                                        (tell stop_http_server) _ (tell_stage stop_http_server refl)
                                        λ _.
                                          bind-InOrder (close_watcher ∷ [])
                                            (close_producer_client ∷ close_consumer_client ∷ [])
                                            (tell close_watcher) _ (tell_stage close_watcher refl)
                                            λ _.
                                              then_ok
                                                (close_producer_client ∷ close_consumer_client ∷ [])
                                                (Watcher.close watcher)
                                                λ _.
                                                  bind-InOrder (close_producer_client ∷ [])
                                                    (close_consumer_client ∷ [])
                                                    (tell close_producer_client)
                                                    (λ _. tell close_consumer_client)
                                                    (tell_stage close_producer_client refl)
                                                    λ _. tell_stage close_consumer_client refl

  -- Whatever the environment, the cluster and the libraries answer, the stages that main goes through are the first
  -- ones of `in_full`, in its order, each once: so the HTTP server is started before the first attempt to
  -- create a client, both clients are created before the producer and the consumer group are made, and these
  -- before the manager is started; the manager is stopped after the signal, and then the server, the
  -- watcher and the clients. They are all of `in_full` if main returns.
  pub main-InOrder :
      (fuel : ℕ) (w : World fl types ce vs er reg)
      → InOrder in_full (main fl types ce vs er reg fuel w)
  unfolding main
  main-InOrder fuel w = then_ok in_full (register_all fl reg (client_metrics fl) reg.default) λ r.
      then_ok in_full (new_canary_config fl w.env) λ c.
        bind-InOrder [] in_full (tell (set_dynamic_config c.dynamic_canary_config)) _
          (tell_other (set_dynamic_config c.dynamic_canary_config) refl)
          λ _.
            bind-InOrder (set_tracer_provider ∷ []) (serving w c)
              (init_tracer_provider fl types ce vs er reg w.exporter_failed c.exporter_type_tracing)
              _ (init_tracer_provider-InOrder w.exporter_failed c.exporter_type_tracing)
              λ traces. shutdown-InOrder (serving w c) traces _ (serve-InOrder w c fuel r)
