-- ===== src/Program/Tests.antt =====
-- The program over a cluster that answers, run.
use strimzi_canary.Common.{Bool, true, false, [], ◌∷◌, none, some, value}
use strimzi_canary.Topic.Types.{TopicSettings}
use strimzi_canary.Config.{CanaryConfig}
use strimzi_canary.Config.Sample.{whole, sasl, read_config}
use strimzi_canary.Security.Sample.{files}
use strimzi_canary.Main.Sample.{any_version, fresh}
use strimzi_canary.Watcher.{Files}
use strimzi_canary.Metrics.Sample.{names_kept}
use strimzi_canary.Manager.Sample.{
  plain, connected, answering_as, answers_as, closings_as, one_partition,
}
use strimzi_canary.Common.{sym, ◌∙◌, Outcome, crash, fatal, ◌≡◌, refl}
use strimzi_canary.Main.{create_sarama_config}
use strimzi_canary.Assign.{
  requested_assignments, alternate, sort_by_id, insert_by_id, group, group_broker,
  assign_partitions, replicas,
}
use strimzi_canary.Loop.{opened}
use strimzi_canary.Manager.{CanaryManager, start}
use strimzi_canary.Topic.{is_dynamic_reassignment_enabled}
use strimzi_canary.Backoff.{delay, new_backoff}
use strimzi_canary.Topic.Metadata.{current_assignments, sort_partitions, insert_partition}
use strimzi_canary.Program.{new_manager, World, topic_settings, main}
use strimzi_canary.Config.{
  new_canary_config, lookup_string_env, exporter_type_tracing, new_dynamic_canary_config,
  lookup_int_env, lookup_bool_env,
}
use strimzi_canary.Config.Numbers.{atoi}
use strimzi_canary.Config.Pairs.{convert_kv_pairs_to_map, convert_kv_pairs_to_prometheus_labels}
use strimzi_canary.Common.Text.{split}
use strimzi_canary.Common.Maps.{insert}
use strimzi_canary.Common.Int.{pos, negsuc, pos_part}
use strimzi_canary.Manager.Sample.{every-IsTicking}
use strimzi_canary.Program.{intervals}
use strimzi_canary.Metrics.{all_metrics}
use strimzi_canary.Metrics.Sample.{all_acceptable, all_free}
use strimzi_canary.Common.{ap}
use strimzi_canary.Common.{ok, ℕ, ◌≡◌, refl, zero, suc, arith}
use strimzi_canary.Topic.Types.{TopicMetadata}
use strimzi_canary.Topic.Cooperation.{Cooperates}
use strimzi_canary.Manager.Sample.{described_as, no_topic}
use strimzi_canary.Metrics.Sample.{names_kept-IsRegistry}
use strimzi_canary.Program.Exits.{EndsIn}
use strimzi_canary.Program.Parts.{Ended}
use strimzi_canary.Program.Documented.{
  IsDocumented, Fault, settings_refused, no_producer_client, no_consumer_client, no_producer,
  no_consumer_group, no_start,
}
use strimzi_canary.Program.Ends.{main-EndsIn}
use strimzi_canary.Program.Stages.{InOrder}
use strimzi_canary.Program.Order.{in_full, main-InOrder}

abbrev no_files : Files
no_files = record {
  Bytes = Bool;
  Config = Bool;
  parse = λ b. some b;
  hash = λ b. "";
  default = true;
}

abbrev settings_of : CanaryConfig whole → TopicSettings
settings_of = topic_settings whole sasl files any_version plain names_kept

abbrev world : World whole sasl files any_version plain names_kept
world = record {
  env = λ v. none;
  exporter_failed = none;
  files = no_files;
  dynamic = λ b. read_config.dynamic_canary_config;
  contents = none;
  sarama = fresh;
  producer_clients = λ i. value tt;
  consumer_clients = λ i. value tt;
  sync_producer_failed = none;
  consumer_group_failed = none;
  connected = connected;
  times_out = λ i. false;
  answers = λ c. answers_as (settings_of c) c.client_id;
  ticks = λ c. answering_as (settings_of c) c.client_id one_partition ∷ [];
  checks = connected ∷ [];
  status_checks = 2;
  produced = λ i. i;
  consumed = λ i. i;
  closings = λ c. closings_as (settings_of c) c.client_id;
}

main-InOrder_example : InOrder in_full (main whole sasl files any_version plain names_kept 20 world)
main-InOrder_example = main-InOrder whole sasl files any_version plain names_kept 20 world

abbrev config : CanaryConfig whole
config = record read_config { topic_config = none; expected_cluster_size = negsuc 0 }

config_read : new_canary_config whole world.env ≡ ok config
unfolding new_canary_config split atoi convert_kv_pairs_to_map insert lookup_string_env
    exporter_type_tracing convert_kv_pairs_to_prometheus_labels new_dynamic_canary_config
    lookup_int_env lookup_bool_env
config_read = refl

described_as-Cooperates :
    (md : TopicMetadata plain) → Cooperates plain (settings_of config) (described_as md) 20
described_as-Cooperates md = record {
  query = 0;
  in_time = omega arith;
  settles = refl;
  describes = λ h. cc h;
  describes_created = λ h. cc h;
  closes = refl;
}

answers-Cooperates :
    (i : ℕ) → Cooperates plain (settings_of config) (world.answers config i).topic_answers 20
answers-Cooperates zero = described_as-Cooperates no_topic
answers-Cooperates (suc i) = described_as-Cooperates one_partition

world-IsDocumented : IsDocumented whole sasl files any_version plain names_kept 20 world config
world-IsDocumented = record {
  reads = config_read;
  exports = refl;
  registry = names_kept-IsRegistry;
  acceptable = all_acceptable (all_metrics whole config);
  unused = all_free;
  window = 300000;
  interval = 29999;
  window_is = refl;
  interval_is = refl;
  covers = omega arith;
  ticking = every-IsTicking;
  polls = λ n e. omega (arith, ap pos_part e);
  attempts = 10;
  scale = 5000;
  attempts_is = refl;
  scale_is = refl;
  scale_pos = omega arith;
  in_reach = omega arith;
  enough = omega arith;
  enough_to_consume = omega arith;
  responds = record { creates = refl; describes = refl };
  all_respond = (record { creates = refl; describes = refl }, tt);
  cooperates = answers-Cooperates;
  all_cooperate = (described_as-Cooperates one_partition, tt);
  producer_closes = refl;
  consumer_closes = refl;
  topic_closes = refl;
  connection_closes = refl;
}

main-EndsIn_example :
    EndsIn
      (Fault whole sasl files any_version plain names_kept 20 world config)
      Ended
      (main whole sasl files any_version plain names_kept 20 world).1
main-EndsIn_example =
    main-EndsIn whole sasl files any_version plain names_kept 20 world config world-IsDocumented

-- The manager after its start, with two messages sent.
abbrev running_manager : CanaryManager
running_manager = record {
  stop = opened;
  topic_service = record { admin = true; initialized = true };
  producer_service = record { index = pos 2; records_produced = 2 };
  connection_service = record { admin = true; brokers = [] };
}

world_starts :
    (start plain
      (settings_of config)
      config.client_id
      20
      (world.answers config)
      world.times_out
      (intervals whole sasl files any_version plain names_kept config)
      config.bootstrap_backoff_max_attempts
      config.bootstrap_backoff_scale
      world.connected
      (new_manager whole sasl files any_version plain names_kept)).1
    ≡ ok running_manager
unfolding start is_dynamic_reassignment_enabled delay new_backoff current_assignments
    sort_partitions insert_partition insert requested_assignments alternate sort_by_id insert_by_id
    group group_broker assign_partitions replicas
world_starts = refl

-- The world has none of the faults.
no_fault : Fault whole sasl files any_version plain names_kept 20 world config → ⊥
unfolding create_sarama_config
no_fault (settings_refused e reason) = absurd (cc e)
no_fault (no_producer_client n e fails) = absurd (cc (fails 0 (omega arith)).1)
no_fault (no_consumer_client n e fails) = absurd (cc (fails 0 (omega arith)).1)
no_fault (no_producer x e) = absurd (cc e)
no_fault (no_consumer_group x e) = absurd (cc e)
no_fault (no_start n m e reason) = absurd (cc (sym world_starts ∙ e))

returned :
    (end : Outcome (Unit {0}))
    → EndsIn (Fault whole sasl files any_version plain names_kept 20 world config) Ended end
    → end ≡ ok tt
returned (ok a) h = refl
returned (crash fatal) h = absurd (no_fault h)
returned (crash c) h = absurd h

-- With it main returns.
main_returns : (main whole sasl files any_version plain names_kept 20 world).1 ≡ ok tt
main_returns =
    returned (main whole sasl files any_version plain names_kept 20 world).1 main-EndsIn_example
