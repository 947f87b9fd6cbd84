-- ===== src/Program.antt =====
-- cmd/main.go: main, from the configuration to the end, with the tracer, over the parts as they are modelled. What
-- the environment, the cluster and the libraries answer is a parameter; the requests that the HTTP server answers
-- meanwhile are in Server/Routes.
pub mod Stages
pub mod Order
pub mod Exits
pub mod Parts
pub mod Documented
pub mod Managed
pub mod Ends
mod Tests
use Prim.Native.String.{String}
use strimzi_canary.Common.{
  ℕ, Bool, true, false, not, ◌&&◌, ◌||◌, List, [], ◌∷◌, ◌++◌, Option, none, some, if◌then◌else◌,
  Outcome, ok, crash, Crash, fatal, panicked, no_fuel, Result, value, error,
}
use strimzi_canary.Common.Maps.{str_eq}
use strimzi_canary.Common.Int.{ℤ, pos, ltb_ℤ}
use strimzi_canary.Common.Trace.{Traced, after_events, ◌>>=◌, ◌>>◌, lift, tell, of_service}
use strimzi_canary.Backoff.{BackoffError}
use strimzi_canary.Backoff.Retry.{Retried}
use strimzi_canary.Config.{
  SaslTypes, Env, Floats, CanaryConfig, DynamicCanaryConfig, new_canary_config,
}
use strimzi_canary.Config.Pairs.{StringMap}
use strimzi_canary.Assign.{or_nil}
use strimzi_canary.Security.{Certificates}
use strimzi_canary.Main.{Versions, SaramaConfig, create_sarama_config}
use strimzi_canary.Watcher.{Files, Watcher, new_dynamic_config_watcher}
use strimzi_canary.Watcher
use strimzi_canary.Status.{StatusService, new_status_service, checked}
use strimzi_canary.Loop.Ticker.{new_ticker_of}
use strimzi_canary.Client
use strimzi_canary.Client.{new_client_with_retry}
use strimzi_canary.Topic.Types.{Errors, TopicSettings}
use strimzi_canary.Topic.{new_topic_service}
use strimzi_canary.Connection
use strimzi_canary.Connection.{new_connection_service}
use strimzi_canary.Connection.Loop.{check_loop}
use strimzi_canary.Loop.{unmade}
use strimzi_canary.Metrics.{
  Opts, client_metrics, topic_metrics, producer_metrics, consumer_metrics, connection_metrics,
  manager_metrics, Registry, register_all,
}
use strimzi_canary.Manager
use strimzi_canary.Manager.{CanaryManager}
use strimzi_canary.Manager.Loop.{reconcile_loop}
use strimzi_canary.Manager.Stop.{Closings, stop}

pub data Event : Type 0 where
  new_exporter : String → Event
  set_tracer_provider shutdown_tracer_provider : Event
  set_dynamic_config : DynamicCanaryConfig → Event
  new_watcher close_watcher start_http_server stop_http_server : Event
  producer_client consumer_client : Client.Event → Event
  new_producer_client new_consumer_client new_sync_producer new_consumer_group : Event
  start_manager stop_manager : Event
  manager : Manager.Event → Event
  got_signal close_producer_client close_consumer_client goroutine_died : Event

module _ (fl : Floats) (types : SaslTypes) (ce : Certificates) (vs : Versions) (er : Errors)
    (reg : Registry fl) where
  -- what the topic service reads of the configuration
  abbrev pub topic_settings : CanaryConfig fl → TopicSettings
  topic_settings c = record {
    topic = c.topic;
    topic_config = or_nil c.topic_config;
    expected_cluster_size = c.expected_cluster_size;
  }

  -- What answers to the program. `ticks` are for the reconciles after the start and until the signal, `checks` for
  -- the connection checks after the first one; there are `status_checks` checks of the status service, of
  -- which number `i` finds the counters at `produced i` and `consumed i`. `sarama` is Sarama's new
  -- configuration.
  pub record World : Type 1 where
    pub env : Env
    pub exporter_failed : Option er.E
    pub files : Files
    pub dynamic : files.Config → DynamicCanaryConfig
    pub contents : Option files.Bytes
    pub sarama : SaramaConfig fl types ce vs
    pub producer_clients : ℕ → Result er.E (Unit {0})
    pub consumer_clients : ℕ → Result er.E (Unit {0})
    pub sync_producer_failed : Option er.E
    pub consumer_group_failed : Option er.E
    pub connected : Connection.Answers er
    pub times_out : ℕ → Bool
    pub answers : (c : CanaryConfig fl) → ℕ → Manager.Answers er (topic_settings c) c.client_id
    pub ticks : (c : CanaryConfig fl) → List (Manager.Answers er (topic_settings c) c.client_id)
    pub checks : List (Connection.Answers er)
    pub status_checks : ℕ
    pub produced : ℕ → ℕ
    pub consumed : ℕ → ℕ
    pub closings : (c : CanaryConfig fl) → Closings er (topic_settings c)

  abbrev pub Main : Type 0 → Type 0
  Main A = Traced Event A

  abbrev pub panic_if : Crash → Option er.E → Outcome (Unit {0})
  panic_if c none = ok tt
  panic_if c (some e) = crash c

  -- Any other type has no exporter, and no error either.
  unfoldable pub exporter_tracing : Option er.E → String → Main (Unit {0})
  exporter_tracing failed exporter_type =
      if str_eq exporter_type "jaeger" || str_eq exporter_type "otlp"
      then (do tell (new_exporter exporter_type); lift (panic_if panicked failed))
      else lift (ok tt)

  -- Whether there is a provider to shut down.
  unfoldable pub init_tracer_provider : Option er.E → String → Main Bool
  unfolding exporter_tracing
  init_tracer_provider failed exporter_type =
      if str_eq exporter_type ""
      then (do tell set_tracer_provider; lift (ok false))
      else (do exporter_tracing failed exporter_type; tell set_tracer_provider; lift (ok true))

  -- What a goroutine of a service does; its crash ends the program.
  abbrev pub in_goroutine : {A : Type 0} → Main A → Main A
  in_goroutine (t, ok a) = (t, ok a)
  in_goroutine (t, crash c) = (t ++ goroutine_died ∷ [], crash c)

  abbrev is_death : Event → Bool
  is_death goroutine_died = true
  is_death e = false

  abbrev has_death : List Event → Bool
  has_death [] = false
  has_death (e ∷ es) = is_death e || has_death es

  -- The deferred shutdown of the tracer runs when main returns and when it panics; an exit by glog skips it, and
  -- so does a panic of another goroutine.
  abbrev pub runs_deferred : List Event → Outcome (Unit {0}) → Bool
  runs_deferred t (ok a) = true
  runs_deferred t (crash fatal) = false
  runs_deferred t (crash no_fuel) = false
  runs_deferred t (crash c) = not (has_death t)

  abbrev pub with_shutdown : Bool → Main (Unit {0}) → Main (Unit {0})
  with_shutdown false run = run
  with_shutdown true (t, end) =
      (t ++ (if runs_deferred t end then shutdown_tracer_provider ∷ [] else []), end)

  abbrev applied : (w : World) → Option w.files.Config → List Event
  applied w none = []
  applied w (some target) = set_dynamic_config (w.dynamic target) ∷ []

  -- The ticker of the watcher, when it watches a file.
  unfoldable pub watcher_ticker : CanaryConfig fl → Outcome (Unit {0})
  watcher_ticker c =
      if not (str_eq c.dynamic_config_file "") && ltb_ℤ (pos 0) c.dynamic_config_watcher_interval
      then new_ticker_of c.dynamic_config_watcher_interval
      else ok tt

  unfoldable pub watch : World → CanaryConfig fl → Main Watcher
  unfolding new_dynamic_config_watcher watcher_ticker
  watch w c =
      let (watcher, target) =
        new_dynamic_config_watcher w.files c.dynamic_config_file c.dynamic_config_watcher_interval
          w.contents in
      do
        made ← (new_watcher ∷ applied w target, ok watcher)
        in_goroutine (lift (watcher_ticker c))
        lift (ok made)

  abbrev pub or_fatal {ℓ} : {E : Type 0} {A : Type ℓ} → Outcome (Result E A) → Outcome A
  or_fatal (ok (value a)) = ok a
  or_fatal (ok (error e)) = crash fatal
  or_fatal (crash c) = crash c

  abbrev pub exit_on_error : {A : Type 0} → Retried Client.Event A → Traced Client.Event A
  exit_on_error (t, end) = (t, or_fatal end)

  -- A client of the Kafka cluster, created with the back-off of the configuration.
  unfoldable pub new_client :
      ℕ → (ℕ → Result er.E (Unit {0})) → CanaryConfig fl → Traced Client.Event (Unit {0})
  unfolding new_client_with_retry
  new_client fuel attempts c = exit_on_error (
      new_client_with_retry attempts fuel c.bootstrap_backoff_max_attempts
        c.bootstrap_backoff_scale)

  abbrev pub new_manager : CanaryManager
  new_manager = record {
    stop = unmade;
    topic_service = new_topic_service;
    producer_service = record { index = pos 0; records_produced = 0 };
    connection_service = new_connection_service;
  }

  -- The constructors of the services, each with its metrics, and RegisterMetrics of the manager.
  unfoldable pub new_services : World → CanaryConfig fl → reg.R → Main reg.R
  unfolding register_all
  new_services w c r = do
    topics ← lift (register_all fl reg (topic_metrics fl c) r)
    producers ← lift (register_all fl reg (producer_metrics fl c) topics)
    tell new_sync_producer
    lift (panic_if fatal w.sync_producer_failed)
    consumers ← lift (register_all fl reg (consumer_metrics fl c) producers)
    tell new_consumer_group
    lift (panic_if fatal w.consumer_group_failed)
    connections ← lift (register_all fl reg (connection_metrics fl c) consumers)
    lift (register_all fl reg (manager_metrics fl c) connections)

  abbrev pub intervals : CanaryConfig fl → Manager.Intervals
  intervals c = record {
    connection_check = c.connection_check_interval;
    status_check = c.status_check_interval;
    reconcile = c.reconcile_interval;
  }

  -- a call with the event of its stage
  abbrev pub staged : {A : Type 0} → Event → Main A → Main A
  staged e run = do tell e; run

  -- Start, the ticks of the three loops until a signal, and Stop.
  unfoldable pub manage : ℕ → World → CanaryConfig fl → StatusService → Main (Unit {0})
  unfolding Manager.start reconcile_loop check_loop stop
  manage fuel w c ss = do
    started ← staged start_manager (
        of_service manager (
          Manager.start er (topic_settings c) c.client_id fuel (w.answers c) w.times_out
            (intervals c) c.bootstrap_backoff_max_attempts c.bootstrap_backoff_scale w.connected
            new_manager))
    cm ← in_goroutine (
        of_service manager
          (reconcile_loop er (topic_settings c) c.client_id fuel (w.ticks c) started))
    cs ← in_goroutine (
        of_service (λ e. manager (Manager.connection e))
          (check_loop er c.expected_cluster_size w.checks started.connection_service))
    _ ← in_goroutine (lift (checked w.produced w.consumed w.status_checks ss))
    tell got_signal
    _ ← staged stop_manager (
        of_service manager
          (stop er (topic_settings c) (w.closings c) (record cm { connection_service = cs })))
    lift (ok tt)

  -- What follows on the watcher. The status service is made before the HTTP server that asks it.
  unfoldable pub serve_watched : ℕ → World → CanaryConfig fl → reg.R → Watcher → Main (Unit {0})
  unfolding new_client new_services manage
  serve_watched fuel w c r watcher = do
    ss ← lift (new_status_service c.status_time_window c.status_check_interval)
    tell start_http_server
    _ ← lift (or_fatal (create_sarama_config fl types ce vs w.sarama c))
    staged new_producer_client (of_service producer_client (new_client fuel w.producer_clients c))
    staged new_consumer_client (of_service consumer_client (new_client fuel w.consumer_clients c))
    _ ← new_services w c r
    manage fuel w c ss
    tell stop_http_server
    tell close_watcher
    _ ← lift (Watcher.close watcher)
    tell close_producer_client
    tell close_consumer_client

  unfoldable pub serve : ℕ → World → CanaryConfig fl → reg.R → Main (Unit {0})
  unfolding watch serve_watched
  serve fuel w c r = do watcher ← watch w c; serve_watched fuel w c r watcher

  -- The counter of the creations of clients is registered before main.
  unfoldable pub main : ℕ → World → Main (Unit {0})
  unfolding init_tracer_provider serve
  main fuel w = do
    r ← lift (register_all fl reg (client_metrics fl) reg.default)
    c ← lift (new_canary_config fl w.env)
    tell (set_dynamic_config c.dynamic_canary_config)
    traces ← init_tracer_provider w.exporter_failed c.exporter_type_tracing
    with_shutdown traces (serve fuel w c r)
