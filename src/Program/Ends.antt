-- ===== src/Program/Ends.antt =====
-- That main returns, or exits for a fault, and never panics, when its environment is as documented.
use strimzi_canary.Common.{ℕ, ◌≡◌, ◌++◌, ok}
use strimzi_canary.Common.Trace.{lift, tell, of_service}
use strimzi_canary.Config.{SaslTypes, Floats, CanaryConfig}
use strimzi_canary.Security.{Certificates}
use strimzi_canary.Main.{Versions, create_sarama_config}
use strimzi_canary.Status.{new_status_service, checked}
use strimzi_canary.Watcher.{
  Files, Watcher, idle, first_read, read_and_hash, new_dynamic_config_watcher,
}
use strimzi_canary.Watcher
use strimzi_canary.Topic.Types.{Errors}
use strimzi_canary.Metrics.{
  Registry, register_all, client_metrics, topic_metrics, producer_metrics, consumer_metrics,
  connection_metrics, manager_metrics, all_metrics,
}
use strimzi_canary.Metrics.Names.{all_metrics-Registered}
use strimzi_canary.Program.{
  Event, in_goroutine, watcher_ticker, staged, new_producer_client, new_consumer_client, World,
  init_tracer_provider, watch, or_fatal, new_client, new_services, manage, serve_watched, serve,
  main, producer_client, consumer_client, start_http_server, stop_http_server, close_watcher,
  close_producer_client, close_consumer_client,
}
use strimzi_canary.Program.Exits.{
  SettingsFault, EndsIn, with_reason, bind-EndsIn, Any, create_sarama_config-EndsIn,
}
use strimzi_canary.Program.Parts.{
  Ended, staged-EndsIn, in_goroutine-EndsIn, watcher_ticker-EndsIn, fresh_closes,
  new_status_service-EndsIn, EndsWell, bind-EndsWell, then_EndsWell, or_fatal-EndsIn,
  shutdown-EndsIn, init_tracer_provider-EndsIn, new_client-EndsIn, registered, new_services-EndsIn,
}
use strimzi_canary.Program.Documented.{
  IsDocumented, Fault, settings_refused, no_producer_client, no_consumer_client, no_producer,
  no_consumer_group,
}
use strimzi_canary.Program.Managed.{manage-EndsIn}

module _ (fl : Floats) (types : SaslTypes) (ce : Certificates) (vs : Versions) (er : Errors)
    (reg : Registry fl) (fuel : ℕ) (w : World fl types ce vs er reg) (c : CanaryConfig fl) where
  watch_closes :
      IsDocumented fl types ce vs er reg fuel w c
      → EndsIn
          (Fault fl types ce vs er reg fuel w c)
          (λ watcher. EndsIn (Fault fl types ce vs er reg fuel w c) Any (Watcher.close watcher))
          (watch fl types ce vs er reg w c).1
  unfolding watch
  watch_closes d =
      let X = Fault fl types ce vs er reg fuel w c in
      let closes =
        fresh_closes X w.files c.dynamic_config_file c.dynamic_config_watcher_interval w.contents in
      bind-EndsIn {Ev = Event} X Any (λ (v : Watcher). EndsIn X Any (Watcher.close v))
        (in_goroutine fl types ce vs er reg (lift (watcher_ticker fl types ce vs er reg c))) _
        (in_goroutine-EndsIn fl types ce vs er reg X Any
          (lift (watcher_ticker fl types ce vs er reg c))
          (watcher_ticker-EndsIn fl types ce vs er reg X c d.polls))
        λ x any. closes

  serve_watched-EndsWell :
      IsDocumented fl types ce vs er reg fuel w c
      → (last r : reg.R)
      → register_all fl reg
          (topic_metrics fl c
            ++ (producer_metrics fl c
                ++ (consumer_metrics fl c ++ (connection_metrics fl c ++ manager_metrics fl c))))
          r
        ≡ ok last
      → (watcher : Watcher)
      → EndsIn (Fault fl types ce vs er reg fuel w c) Any (Watcher.close watcher)
      → EndsWell
          (Fault fl types ce vs er reg fuel w c)
          (serve_watched fl types ce vs er reg fuel w c r watcher)
  unfolding serve_watched
  serve_watched-EndsWell d last r h watcher closes =
      bind-EndsWell (Fault fl types ce vs er reg fuel w c)
        (λ ss.
          EndsIn (Fault fl types ce vs er reg fuel w c) Any
            (checked w.produced w.consumed w.status_checks ss))
        (lift (new_status_service c.status_time_window c.status_check_interval))
        (new_status_service-EndsIn (Fault fl types ce vs er reg fuel w c) d.window d.interval
          c.status_time_window c.status_check_interval w.produced w.consumed w.status_checks
          d.covers d.window_is d.interval_is)
        λ ss samples.
          then_EndsWell (Fault fl types ce vs er reg fuel w c) (tell start_http_server) tt λ x.
            then_EndsWell (Fault fl types ce vs er reg fuel w c)
              (lift
                (or_fatal fl types ce vs er reg (create_sarama_config fl types ce vs w.sarama c)))
              (with_reason Any
                (or_fatal fl types ce vs er reg (create_sarama_config fl types ce vs w.sarama c))
                (or_fatal-EndsIn fl types ce vs er reg (Fault fl types ce vs er reg fuel w c)
                  (SettingsFault fl types ce vs c) (create_sarama_config fl types ce vs w.sarama c)
                  (create_sarama_config-EndsIn fl types ce vs w.sarama c))
                settings_refused)
              λ k.
                then_EndsWell (Fault fl types ce vs er reg fuel w c)
                  (staged fl types ce vs er reg new_producer_client (
                    of_service producer_client
                      (new_client fl types ce vs er reg fuel w.producer_clients c)))
                  (staged-EndsIn fl types ce vs er reg (Fault fl types ce vs er reg fuel w c) Any
                    new_producer_client
                    (of_service producer_client
                      (new_client fl types ce vs er reg fuel w.producer_clients c))
                    (new_client-EndsIn fl types ce vs er reg (Fault fl types ce vs er reg fuel w c)
                      fuel d.attempts d.scale w.producer_clients c d.attempts_is d.scale_is
                      d.scale_pos d.in_reach d.enough
                      (no_producer_client d.attempts d.attempts_is)))
                  λ p.
                    then_EndsWell (Fault fl types ce vs er reg fuel w c)
                      (staged fl types ce vs er reg new_consumer_client (
                        of_service consumer_client
                          (new_client fl types ce vs er reg fuel w.consumer_clients c)))
                      (staged-EndsIn fl types ce vs er reg (Fault fl types ce vs er reg fuel w c)
                        Any new_consumer_client
                        (of_service consumer_client
                          (new_client fl types ce vs er reg fuel w.consumer_clients c))
                        (new_client-EndsIn fl types ce vs er reg
                          (Fault fl types ce vs er reg fuel w c) fuel d.attempts d.scale
                          w.consumer_clients c d.attempts_is d.scale_is d.scale_pos d.in_reach
                          d.enough (no_consumer_client d.attempts d.attempts_is)))
                      λ q.
                        then_EndsWell (Fault fl types ce vs er reg fuel w c)
                          (new_services fl types ce vs er reg w c r)
                          (new_services-EndsIn fl types ce vs er reg
                            (Fault fl types ce vs er reg fuel w c) w c no_producer no_consumer_group
                            last r h)
                          λ m.
                            then_EndsWell (Fault fl types ce vs er reg fuel w c)
                              (manage fl types ce vs er reg fuel w c ss)
                              (manage-EndsIn fl types ce vs er reg fuel w c d ss samples)
                              λ e.
                                then_EndsWell (Fault fl types ce vs er reg fuel w c)
                                  (tell stop_http_server) tt
                                  λ x.
                                    then_EndsWell (Fault fl types ce vs er reg fuel w c)
                                      (tell close_watcher) tt
                                      λ x.
                                        then_EndsWell (Fault fl types ce vs er reg fuel w c)
                                          (lift (Watcher.close watcher)) closes
                                          λ v.
                                            then_EndsWell (Fault fl types ce vs er reg fuel w c)
                                              (tell close_producer_client)
                                              {f = λ _. tell close_consumer_client} tt
                                              λ x. record { ends = tt }

  serve-EndsWell :
      IsDocumented fl types ce vs er reg fuel w c
      → (last r : reg.R)
      → register_all fl reg
          (topic_metrics fl c
            ++ (producer_metrics fl c
                ++ (consumer_metrics fl c ++ (connection_metrics fl c ++ manager_metrics fl c))))
          r
        ≡ ok last
      → EndsWell (Fault fl types ce vs er reg fuel w c) (serve fl types ce vs er reg fuel w c r)
  unfolding serve
  serve-EndsWell d last r h =
      bind-EndsWell (Fault fl types ce vs er reg fuel w c)
        (λ watcher. EndsIn (Fault fl types ce vs er reg fuel w c) Any (Watcher.close watcher))
        (watch fl types ce vs er reg w c) {f = serve_watched fl types ce vs er reg fuel w c r}
        (watch_closes d) λ watcher closes. serve_watched-EndsWell d last r h watcher closes

  pub main-EndsIn :
      IsDocumented fl types ce vs er reg fuel w c
      → EndsIn (Fault fl types ce vs er reg fuel w c) Ended (main fl types ce vs er reg fuel w).1
  unfolding main
  main-EndsIn d =
      let all = all_metrics fl c in
      let later =
        topic_metrics fl c
        ++ (producer_metrics fl c
            ++ (consumer_metrics fl c ++ (connection_metrics fl c ++ manager_metrics fl c))) in
      let (last, taken, names) = all_metrics-Registered fl reg d.registry c d.acceptable d.unused in
      bind-EndsIn {Ev = Event} (Fault fl types ce vs er reg fuel w c)
        (λ r. register_all fl reg later r ≡ ok last) Ended
        (lift (register_all fl reg (client_metrics fl) reg.default)) _
        (registered fl types ce vs er reg (Fault fl types ce vs er reg fuel w c) last
          (client_metrics fl) later reg.default taken)
        λ r left. rw d.reads (
          bind-EndsIn (Fault fl types ce vs er reg fuel w c) Any Ended
            (init_tracer_provider fl types ce vs er reg w.exporter_failed c.exporter_type_tracing) _
            (init_tracer_provider-EndsIn fl types ce vs er reg
              (Fault fl types ce vs er reg fuel w c) w.exporter_failed c.exporter_type_tracing
              d.exports)
            λ traces any.
              shutdown-EndsIn fl types ce vs er reg (Fault fl types ce vs er reg fuel w c) traces
                (serve fl types ce vs er reg fuel w c r) ((serve-EndsWell d last r left).ends))
