-- ===== src/Program/Parts.antt =====
-- How the parts of main end, when what they rest on is as documented.
use strimzi_canary.Common.{
  ℕ, suc, ◌*◌, ◌^◌, ◌≤◌, ◌<◌, ◌≡◌, refl, Bool, Bool-cases, inl, inr, true, false, not, ◌&&◌, ◌||◌,
  List, ◌++◌, Option, none, some, Outcome, ok, crash, fatal, Result, value, error, String,
  if◌then◌else◌, arith,
}
use strimzi_canary.Common.Int.{ℤ, pos, negsuc, ltb_ℤ}
use strimzi_canary.Common.Maps.{str_eq}
use strimzi_canary.Common.Trace.{Traced, ◌>>=◌, lift}
use strimzi_canary.Backoff.{millisecond, BackoffError}
use strimzi_canary.Config.{SaslTypes, Floats, CanaryConfig}
use strimzi_canary.Security.{Certificates}
use strimzi_canary.Main.{Versions}
use strimzi_canary.Ring.Samples.{new-Holds, buckets, buckets_pos}
use strimzi_canary.Status.{StatusService, new_status_service, checked}
use strimzi_canary.Status.Percentage.{checked-Watched}
use strimzi_canary.Watcher.{
  Files, Watcher, idle, first_read, read_and_hash, new_dynamic_config_watcher,
}
use strimzi_canary.Watcher
use strimzi_canary.Client.Retry.{FailsBefore, new_client_with_retry_ends}
use strimzi_canary.Topic.Types.{Errors}
use strimzi_canary.Loop.Ticker.{IsPeriod, new_ticker_of-IsPeriod}
use strimzi_canary.Metrics.{
  Opts, Registry, register_all, topic_metrics, producer_metrics, consumer_metrics,
  connection_metrics, manager_metrics,
}
use strimzi_canary.Metrics.Names.{register_all_cut}
use strimzi_canary.Program.{
  Event, World, panic_if, exporter_tracing, init_tracer_provider, with_shutdown, in_goroutine,
  staged, watcher_ticker, or_fatal, new_client, new_services,
}
use strimzi_canary.Program.Exits.{or_fatal_of, EndsIn, ok-EndsIn, bind-EndsIn, Any}

abbrev pub Ended : Unit {0} → Type 0
Ended a = Unit {0}

module _ (X : Type 0) where
  -- A new watcher can be closed.
  pub fresh_closes :
      (fs : Files) (file : String) (interval : ℤ) (contents : Option fs.Bytes)
      → EndsIn X Any (Watcher.close (new_dynamic_config_watcher fs file interval contents).0)
  unfolding new_dynamic_config_watcher Watcher.close first_read
  fresh_closes fs file interval contents =
      elim (Bool-cases (not (str_eq file "") && ltb_ℤ (pos 0) interval)) [
        | inl watches ↦ rw watches (of_read (read_and_hash fs contents))
        | inr idles ↦ rw idles tt
      ]
    where
      of_read : (r : Option (fs.Config × String)) → EndsIn X Any (Watcher.close (first_read fs r).0)
      of_read none = tt
      of_read (some (target, h)) = tt

  -- A status service is made, and its checks do not panic.
  pub new_status_service-EndsIn :
      (a b : ℕ) (window interval : ℤ) (p c : ℕ → ℕ) (k : ℕ)
      → suc b ≤ a
      → window ≡ pos a
      → interval ≡ pos (suc b)
      → EndsIn X (λ ss. EndsIn X Any (checked p c k ss)) (new_status_service window interval)
  unfolding new_status_service
  new_status_service-EndsIn a b window interval p c k le w i =
      let (rb, made, fresh) = new-Holds a b in
      let ss : StatusService = record {
        check_interval = pos (suc b);
        produced_samples = rb;
        consumed_samples = rb;
      } in
      let (last, run, held) =
        checked-Watched (buckets a (suc b)) (buckets_pos a b le) (omega arith) p c (pos (suc b)) k
          ss (record { produced = fresh p; consumed = fresh c; interval_is = refl }) in
      rw (w, i, made) (ok-EndsIn X Any run tt)

  -- A run that returns, or ends by an exit of glog for a reason.
  pub record EndsWell (run : Traced Event (Unit {0})) : Type 0 where
    pub ends : EndsIn X Ended run.1

  pub bind-EndsWell :
      {A : Type 0} (P : A → Type 0) (run : Traced Event A) {f : A → Traced Event (Unit {0})}
      → EndsIn X P run.1
      → ((a : A) → P a → EndsWell (f a))
      → EndsWell (run >>= f)
  bind-EndsWell P run {f} h k = record {
    ends = bind-EndsIn X P Ended run f h (λ a held. (k a held).ends);
  }

  pub then_EndsWell :
      {A : Type 0} (run : Traced Event A) {f : A → Traced Event (Unit {0})}
      → EndsIn X Any run.1
      → ((a : A) → EndsWell (f a))
      → EndsWell (run >>= f)
  then_EndsWell run h k = bind-EndsWell Any run h λ a any. k a

  if-EndsIn :
      {A : Type 0} (b : Bool) (x y : Traced Event A)
      → EndsIn X Any x.1
      → EndsIn X Any y.1
      → EndsIn X Any (if b then x else y).1
  if-EndsIn true x y h k = h
  if-EndsIn false x y h k = k

module _ (fl : Floats) (types : SaslTypes) (ce : Certificates) (vs : Versions) (er : Errors)
    (reg : Registry fl) (X : Type 0) where
  panic_if-EndsIn :
      (o : Option er.E)
      → ((e : er.E) → o ≡ some e → X)
      → EndsIn X Any (panic_if fl types ce vs er reg fatal o)
  panic_if-EndsIn none reason = tt
  panic_if-EndsIn (some e) reason = reason e refl

  pub or_fatal-EndsIn :
      {E A : Type 0} (Y : Type 0) (end : Outcome (Result E A))
      → EndsIn Y Any (or_fatal_of end)
      → EndsIn Y Any (or_fatal fl types ce vs er reg end)
  or_fatal-EndsIn Y (ok (value a)) h = tt
  or_fatal-EndsIn Y (ok (error e)) h = h
  or_fatal-EndsIn Y (crash fatal) h = h
  or_fatal-EndsIn Y (crash c) h = absurd h

  pub shutdown-EndsIn :
      (b : Bool) (run : Traced Event (Unit {0}))
      → EndsIn X Ended run.1
      → EndsIn X Ended (with_shutdown fl types ce vs er reg b run).1
  shutdown-EndsIn true (t, end) h = h
  shutdown-EndsIn false run h = h

  pub staged-EndsIn :
      {A : Type 0} (P : A → Type 0) (e : Event) (run : Traced Event A)
      → EndsIn X P run.1
      → EndsIn X P (staged fl types ce vs er reg e run).1
  staged-EndsIn P e (t, end) h = h

  -- The ticker of the watcher does not panic.
  pub watcher_ticker-EndsIn :
      (c : CanaryConfig fl)
      → ((n : ℕ) → c.dynamic_config_watcher_interval ≡ pos n → n * millisecond < 2 ^ 63)
      → EndsIn X Any (watcher_ticker fl types ce vs er reg c)
  unfolding watcher_ticker
  watcher_ticker-EndsIn c polls =
      elim (Bool-cases (
        not (str_eq c.dynamic_config_file "") && ltb_ℤ (pos 0) c.dynamic_config_watcher_interval)) [
          | inr idles ↦ rw idles tt
          | inl watches ↦ rw watches (
              ok-EndsIn X Any
                (new_ticker_of-IsPeriod c.dynamic_config_watcher_interval (
                  period c.dynamic_config_watcher_interval refl (
                    second (not (str_eq c.dynamic_config_file ""))
                      (ltb_ℤ (pos 0) c.dynamic_config_watcher_interval) watches)))
                tt)
        ]
    where
      second : (a b : Bool) → (a && b) ≡ true → b ≡ true
      second true b h = h
      second false b h = absurd (cc h)

      period : (i : ℤ) → c.dynamic_config_watcher_interval ≡ i → ltb_ℤ (pos 0) i ≡ true → IsPeriod i
      period (pos n) e h = record {
        count = n;
        count_is = refl;
        count_pos = ground (arith, h);
        in_reach = polls n e;
      }
      period (negsuc n) e h = absurd (ground (arith, h))

  pub in_goroutine-EndsIn :
      {A : Type 0} (P : A → Type 0) (run : Traced Event A)
      → EndsIn X P run.1
      → EndsIn X P (in_goroutine fl types ce vs er reg run).1
  in_goroutine-EndsIn P (t, ok a) h = h
  in_goroutine-EndsIn P (t, crash c) h = h

  exporter_tracing-EndsIn :
      (failed : Option er.E) (exporter_type : String)
      → failed ≡ none
      → EndsIn X Any (exporter_tracing fl types ce vs er reg failed exporter_type).1
  unfolding exporter_tracing
  exporter_tracing-EndsIn failed exporter_type none_failed =
      if-EndsIn X (str_eq exporter_type "jaeger" || str_eq exporter_type "otlp") _ _
        (rw none_failed tt) tt

  pub init_tracer_provider-EndsIn :
      (failed : Option er.E) (exporter_type : String)
      → failed ≡ none
      → EndsIn X Any (init_tracer_provider fl types ce vs er reg failed exporter_type).1
  unfolding init_tracer_provider
  init_tracer_provider-EndsIn failed exporter_type none_failed =
      if-EndsIn X (str_eq exporter_type "") _ _ tt (
        bind-EndsIn X Any Any (exporter_tracing fl types ce vs er reg failed exporter_type) _
          (exporter_tracing-EndsIn failed exporter_type none_failed) λ a any. tt)

  pub new_client-EndsIn :
      (fuel N ms : ℕ) (attempts : ℕ → Result er.E (Unit {0})) (c : CanaryConfig fl)
      → c.bootstrap_backoff_max_attempts ≡ pos N
      → c.bootstrap_backoff_scale ≡ pos ms
      → 0 < ms
      → ms * millisecond * 2 ^ N < 2 ^ 63
      → N < fuel
      → (FailsBefore attempts (suc N) → X)
      → EndsIn X Any (new_client fl types ce vs er reg fuel attempts c).1
  unfolding new_client
  new_client-EndsIn fuel N ms attempts c max scale ms_pos fits more reason =
      let (end, run, fails) = new_client_with_retry_ends attempts ms N fuel ms_pos fits more in
      rw (max, scale, run) (of_end end (λ e h. reason (fails e h)))
    where
      of_end :
          {A : Type 0} (end : Result BackoffError A)
          → ((e : BackoffError) → end ≡ error e → X)
          → EndsIn X Any (or_fatal fl types ce vs er reg (ok end))
      of_end (value a) reason = tt
      of_end (error e) reason = reason e refl

  -- A stage of the registrations, with what is still to come.
  pub registered :
      (last : reg.R) (os later : List (Opts fl)) (r : reg.R)
      → register_all fl reg (os ++ later) r ≡ ok last
      → EndsIn X (λ m. register_all fl reg later m ≡ ok last) (register_all fl reg os r)
  registered last os later r h =
      let (m, taken, rest) = register_all_cut fl reg last os later r h in
      ok-EndsIn X (λ (x : reg.R). register_all fl reg later x ≡ ok last) taken rest

  abbrev Made : reg.R → Type 0
  Made r = Unit {0}

  module _ (w : World fl types ce vs er reg) (c : CanaryConfig fl) where
    -- The services are made, and all metrics that are left are registered.
    pub new_services-EndsIn :
        ((e : er.E) → w.sync_producer_failed ≡ some e → X)
        → ((e : er.E) → w.consumer_group_failed ≡ some e → X)
        → (last r : reg.R)
        → register_all fl reg
            (topic_metrics fl c
              ++ (producer_metrics fl c
                  ++ (consumer_metrics fl c ++ (connection_metrics fl c ++ manager_metrics fl c))))
            r
          ≡ ok last
        → EndsIn X Any (new_services fl types ce vs er reg w c r).1
    unfolding new_services
    new_services-EndsIn producer consumer last r h =
        let for_connection = manager_metrics fl c in
        let for_consumer = connection_metrics fl c ++ for_connection in
        let for_producer = consumer_metrics fl c ++ for_consumer in
        let for_topic = producer_metrics fl c ++ for_producer in
        let Left : List (Opts fl) → reg.R → Type 0 = λ os m. register_all fl reg os m ≡ ok last in
        let failed = panic_if fl types ce vs er reg fatal in
        bind-EndsIn X (Left for_topic) Made (lift (register_all fl reg (topic_metrics fl c) r)) _
          (registered last (topic_metrics fl c) for_topic r h)
          λ a topics.
            bind-EndsIn X (Left for_producer) Made
              (lift (register_all fl reg (producer_metrics fl c) a)) _
              (registered last (producer_metrics fl c) for_producer a topics)
              λ b producers.
                bind-EndsIn X Ended Made (lift (failed w.sync_producer_failed)) _
                  (panic_if-EndsIn w.sync_producer_failed producer)
                  λ _ any.
                    bind-EndsIn X (Left for_consumer) Made
                      (lift (register_all fl reg (consumer_metrics fl c) b)) _
                      (registered last (consumer_metrics fl c) for_consumer b producers)
                      λ m consumers.
                        bind-EndsIn X Ended Made (lift (failed w.consumer_group_failed)) _
                          (panic_if-EndsIn w.consumer_group_failed consumer)
                          λ _ any'.
                            bind-EndsIn X (Left for_connection) Made
                              (lift (register_all fl reg (connection_metrics fl c) m)) _
                              (registered last (connection_metrics fl c) for_connection m consumers)
                              λ n connections. ok-EndsIn X Made connections tt
