-- ===== src/Program/Documented.antt =====
-- An environment that does what it documents, and the faults that it may have all the same.
use strimzi_canary.Common.{ℕ, suc, ◌*◌, ◌^◌, ◌≤◌, ◌<◌, ◌≡◌, none, some, ok, crash, fatal}
use strimzi_canary.Common.Int.{pos}
use strimzi_canary.Backoff.{millisecond}
use strimzi_canary.Config.{SaslTypes, Floats, CanaryConfig, new_canary_config}
use strimzi_canary.Security.{Certificates}
use strimzi_canary.Main.{Versions, create_sarama_config}
use strimzi_canary.Client.Retry.{FailsBefore}
use strimzi_canary.Topic.Types.{Errors, TopicSettings}
use strimzi_canary.Topic.Cooperation.{Cooperates}
use strimzi_canary.Connection.Loop.{Responds, AllRespond}
use strimzi_canary.Consumer.{max_consume_attempts}
use strimzi_canary.Metrics.{Registry, all_metrics}
use strimzi_canary.Metrics.Names.{IsRegistry, AllAcceptable, AllFree}
use strimzi_canary.Manager
use strimzi_canary.Manager.{CanaryManager}
use strimzi_canary.Manager.Loop.{AllCooperate}
use strimzi_canary.Manager.Start.{IsTicking}
use strimzi_canary.Program.Exits.{SettingsFault, StartFault}
use strimzi_canary.Program.{World, topic_settings, intervals, or_fatal, new_manager}

module _ (fl : Floats) (types : SaslTypes) (ce : Certificates) (vs : Versions) (er : Errors)
    (reg : Registry fl) where
  abbrev pub settings : CanaryConfig fl → TopicSettings
  settings = topic_settings fl types ce vs er reg

  abbrev pub manager_made : CanaryManager
  manager_made = new_manager fl types ce vs er reg

  module _ (fuel : ℕ) (w : World fl types ce vs er reg) (c : CanaryConfig fl) where
    -- The environment, when its parts do what they document, the intervals are positive and fit an int64 in
    -- nanoseconds, the window of the status is at least the interval of its checks, what is closed has no
    -- error, no metric of the program is registered already, and the cluster answers the connection checks
    -- and lets every reconcile end, with a result or an error.
    pub record IsDocumented : Type 0 where
      pub reads : new_canary_config fl w.env ≡ ok c
      pub exports : w.exporter_failed ≡ none
      pub registry : IsRegistry fl reg
      pub acceptable : AllAcceptable fl reg (all_metrics fl c)
      pub unused : AllFree fl reg (all_metrics fl c)
      pub window : ℕ
      pub interval : ℕ
      pub window_is : c.status_time_window ≡ pos window
      pub interval_is : c.status_check_interval ≡ pos (suc interval)
      pub covers : suc interval ≤ window
      pub ticking : IsTicking (intervals fl types ce vs er reg c)
      pub polls : (n : ℕ) → c.dynamic_config_watcher_interval ≡ pos n → n * millisecond < 2 ^ 63
      pub attempts : ℕ
      pub scale : ℕ
      pub attempts_is : c.bootstrap_backoff_max_attempts ≡ pos attempts
      pub scale_is : c.bootstrap_backoff_scale ≡ pos scale
      pub scale_pos : 0 < scale
      pub in_reach : scale * millisecond * 2 ^ attempts < 2 ^ 63
      pub enough : attempts < fuel
      pub enough_to_consume : max_consume_attempts < fuel
      pub responds : Responds er c.expected_cluster_size w.connected
      pub all_respond : AllRespond er c.expected_cluster_size w.checks
      pub cooperates : (i : ℕ) → Cooperates er (settings c) (w.answers c i).topic_answers fuel
      pub all_cooperate : AllCooperate er (settings c) c.client_id fuel (w.ticks c)
      pub producer_closes : (w.closings c).producer_closed ≡ none
      pub consumer_closes : (w.closings c).consumer_closed ≡ none
      pub topic_closes : (w.closings c).topic_answers.admin_closed ≡ none
      pub connection_closes : (w.closings c).connection_answers.admin_closed ≡ none

    -- A cause of an exit by glog.
    pub data Fault : Type 0 where
      settings_refused :
          or_fatal fl types ce vs er reg (create_sarama_config fl types ce vs w.sarama c)
            ≡ crash fatal
          → SettingsFault fl types ce vs c
          → Fault
      no_producer_client :
          (N : ℕ)
          → c.bootstrap_backoff_max_attempts ≡ pos N
          → FailsBefore w.producer_clients (suc N)
          → Fault
      no_consumer_client :
          (N : ℕ)
          → c.bootstrap_backoff_max_attempts ≡ pos N
          → FailsBefore w.consumer_clients (suc N)
          → Fault
      no_producer : (e : er.E) → w.sync_producer_failed ≡ some e → Fault
      no_consumer_group : (e : er.E) → w.consumer_group_failed ≡ some e → Fault
      no_start :
          (N : ℕ)
          → c.bootstrap_backoff_max_attempts ≡ pos N
          → (Manager.start er
              (settings c)
              c.client_id
              fuel
              (w.answers c)
              w.times_out
              (intervals fl types ce vs er reg c)
              c.bootstrap_backoff_max_attempts
              c.bootstrap_backoff_scale
              w.connected
              manager_made).1
            ≡ crash fatal
          → StartFault er (settings c) c.client_id fuel (w.answers c) w.times_out manager_made N
          → Fault
