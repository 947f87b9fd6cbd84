-- ===== src/Program/Exits.antt =====
-- Parts of main that end by an exit of glog at worst, with no panic, when what they rest on is as documented.
use strimzi_canary.Common.{
  ℕ, suc, ◌*◌, ◌^◌, ◌≤◌, ◌<◌, ◌≡◌, ◌≢◌, refl, sym, ap, ◌⊎◌, inl, inr, Bool, Bool-cases, true, false,
  List, Option, none, some, Outcome, ok, crash, fatal, Result, value, error, String, ◌>>=◌, arith,
}
use mathlib.Core.Path.{subst}
use strimzi_canary.Common.Trace
use strimzi_canary.Common.Trace.{Traced, of_service}
use strimzi_canary.Backoff.{millisecond}
use strimzi_canary.Config.{SaslTypes, Floats, CanaryConfig}
use strimzi_canary.Common.Int.{ℤ, pos}
use strimzi_canary.Common.Maps.{str_eq, string_eq}
use strimzi_canary.Security.{
  Certificates, TlsConfig, AuthError, Sasl, new_tls_config, set_auth_config,
}
use strimzi_canary.Main.{
  Versions, SaramaConfig, or_exit, with_tls_if, authenticated, with_tls, with_sasl, created,
  with_version, create_sarama_config,
}
use strimzi_canary.Topic.Types.{
  done, Errors, TopicSettings, TopicService, TopicReconcileResult, ReconcileError, sarama,
  topic_error, expected_cluster_size_error,
}
use strimzi_canary.Topic.Cooperation.{Cooperates}
use strimzi_canary.Connection.{ConnectionService}
use strimzi_canary.Connection
use strimzi_canary.Consumer.{max_consume_attempts}
use strimzi_canary.Producer.Sent.{send-Numbered}
use strimzi_canary.Loop.{opened}
use strimzi_canary.Manager.{Intervals, CanaryManager, Answers, Sending, running, start}
use strimzi_canary.Manager.Attempts.{Waited, Decides}
use strimzi_canary.Consumer.Join.{GivesUp}
use strimzi_canary.Consumer
use strimzi_canary.Topic
use strimzi_canary.Manager.Start.{IsTicking, start-Starts}

-- It ends with a value of which `P` holds, or by an exit of glog, for which there is a reason.
abbrev pub EndsIn {ℓ} : {A : Type ℓ} → Type 0 → (A → Type 0) → Outcome A → Type 0
EndsIn X P (ok a) = P a
EndsIn X P (crash fatal) = X
EndsIn X P (crash c) = ⊥

-- The exit may have any reason.
abbrev pub NoPanic {ℓ} : {A : Type ℓ} → (A → Type 0) → Outcome A → Type 0
NoPanic P end = EndsIn (Unit {0}) P end

pub because :
    {A : Type 0} {X : Type 0} (P : A → Type 0) (end : Outcome A)
    → NoPanic P end
    → (end ≡ crash fatal → X)
    → EndsIn X P end
because P (ok a) h reason = h
because P (crash fatal) h reason = reason refl
because P (crash c) h reason = absurd h

pub ok-EndsIn :
    {A : Type 0} (X : Type 0) (P : A → Type 0) {end : Outcome A} {a : A}
    → end ≡ ok a
    → P a
    → EndsIn X P end
ok-EndsIn X P e h = subst (EndsIn X P) (sym e) h

-- an exit for both the reason and the crash
pub with_reason :
    {A : Type 0} {X Y : Type 0} (P : A → Type 0) (end : Outcome A)
    → EndsIn X P end
    → (end ≡ crash fatal → X → Y)
    → EndsIn Y P end
with_reason P (ok a) h reason = h
with_reason P (crash fatal) h reason = reason refl h
with_reason P (crash c) h reason = absurd h

-- what an error of createSaramaConfig comes to in main
abbrev pub or_fatal_of : {E A : Type 0} → Outcome (Result E A) → Outcome A
or_fatal_of (ok (value a)) = ok a
or_fatal_of (ok (error e)) = crash fatal
or_fatal_of (crash c) = crash c

pub bind-EndsIn :
    {Ev A B : Type 0} (X : Type 0) (P : A → Type 0) (Q : B → Type 0) (run : Traced Ev A)
    (f : A → Traced Ev B)
    → EndsIn X P run.1
    → ((a : A) → P a → EndsIn X Q (f a).1)
    → EndsIn X Q (Trace.◌>>=◌ run f).1
bind-EndsIn X P Q (t, ok a) f h k = k a h
bind-EndsIn X P Q (t, crash fatal) f h k = h
bind-EndsIn X P Q (t, crash c) f h k = absurd h

-- no claim on the value
abbrev pub Any : {A : Type 0} → A → Type 0
Any a = Unit {0}

module _ (fl : Floats) (types : SaslTypes) (ce : Certificates) (vs : Versions) where
  abbrev Sarama : Type 0
  Sarama = SaramaConfig fl types ce vs

  abbrev as_result : Sarama → Outcome (Result vs.E Sarama)
  as_result k = ok (value k)

  -- Why no configuration for Sarama is made: a version that cannot be read, an error of the settings of TLS, or one
  -- of those of SASL, where they are used.
  abbrev pub SettingsFault : CanaryConfig fl → Type 0
  SettingsFault c =
      ((e : vs.E) × (vs.parse_kafka_version c.kafka_version ≡ error e))
      ⊎ ((c.tls_enabled ≡ true) × (e : ce.E) × ((new_tls_config ce c).1 ≡ some e))
      ⊎ ((c.sasl_mechanism ≢ "")
          × (before : Sasl) × (e : AuthError) × ((set_auth_config fl types c before).0 ≡ some e))

  with_sasl-EndsIn :
      (c : CanaryConfig fl) (k : Sarama)
      → EndsIn (SettingsFault c) Any (with_sasl fl types ce vs c k)
  unfolding with_sasl
  with_sasl-EndsIn c k = elim (Bool-cases (str_eq c.sasl_mechanism "")) [
    | inl unset ↦ rw unset tt
    | inr set ↦ rw set (
        of_settings (λ e. cc (set, (string_eq.beq_iff c.sasl_mechanism "").1 e))
          (set_auth_config fl types c k.sasl) refl)
  ]
    where
      of_settings :
          c.sasl_mechanism ≢ ""
          → (r : Option AuthError × Sasl) → (set_auth_config fl types c k.sasl) ≡ r
          → EndsIn (SettingsFault c) Any (authenticated fl types ce vs k r)
      of_settings given (none, s) same = tt
      of_settings given (some e, s) same =
          inr (inr (given, k.sasl, e, ap (λ (p : Option AuthError × Sasl). p.0) same))

  bind_outcome :
      {A B : Type 0} (X : Type 0) (end : Outcome A) (f : A → Outcome B)
      → EndsIn X Any end
      → ((a : A) → EndsIn X Any (f a))
      → EndsIn X Any (end >>= f)
  bind_outcome X (ok a) f h k = k a
  bind_outcome X (crash fatal) f h k = h
  bind_outcome X (crash c) f h k = absurd h

  with_tls-EndsIn :
      (c : CanaryConfig fl) (k : Sarama)
      → EndsIn (SettingsFault c) Any (with_tls fl types ce vs c k)
  unfolding with_tls
  with_tls-EndsIn c k = if_enabled c.tls_enabled refl
    where
      of_returned :
          c.tls_enabled ≡ true
          → (r : Option (TlsConfig ce) × Option ce.E) → new_tls_config ce c ≡ r
          → EndsIn (SettingsFault c) Any (or_exit fl types ce vs r)
      of_returned on (t, none) same = tt
      of_returned on (t, some e) same =
          inr (inl (on, e, ap (λ (p : Option (TlsConfig ce) × Option ce.E). p.1) same))

      if_enabled :
          (b : Bool)
          → c.tls_enabled ≡ b
          → EndsIn (SettingsFault c) Any (with_tls_if fl types ce vs b c k)
      if_enabled false off = tt
      if_enabled true on =
          bind_outcome (SettingsFault c) (or_exit fl types ce vs (new_tls_config ce c)) _
            (of_returned on (new_tls_config ce c) refl) (λ t. tt)

  -- A configuration for Sarama, with a result or an error, ends the program only for a fault of its settings.
  pub create_sarama_config-EndsIn :
      (k : Sarama) (c : CanaryConfig fl)
      → EndsIn (SettingsFault c) Any (or_fatal_of (create_sarama_config fl types ce vs k c))
  unfolding create_sarama_config
  create_sarama_config-EndsIn k c = of_version (vs.parse_kafka_version c.kafka_version) refl
    where
      taken :
          (end : Outcome Sarama)
          → EndsIn (SettingsFault c) Any end
          → EndsIn (SettingsFault c) Any (or_fatal_of (end >>= as_result))
      taken (ok k') h = tt
      taken (crash fatal) h = h
      taken (crash d) h = absurd h

      secured :
          (end : Outcome Sarama)
          → EndsIn (SettingsFault c) Any end
          → EndsIn
              (SettingsFault c)
              Any
              (or_fatal_of (end >>= (λ s. with_sasl fl types ce vs c s >>= as_result)))
      secured (ok s) h = taken (with_sasl fl types ce vs c s) (with_sasl-EndsIn c s)
      secured (crash fatal) h = h
      secured (crash d) h = absurd h

      of_version :
          (r : Result vs.E vs.Version)
          → vs.parse_kafka_version c.kafka_version ≡ r
          → EndsIn (SettingsFault c) Any (or_fatal_of (created fl types ce vs k c r))
      of_version (error e) same = inl (e, same)
      of_version (value v) same =
          secured (with_tls fl types ce vs c (with_version fl types ce vs c k v))
            (with_tls-EndsIn c (with_version fl types ce vs c k v))

module _ (er : Errors) (cfg : TopicSettings) (client_id : String) (fuel : ℕ)
    (answers : ℕ → Answers er cfg client_id) (times_out : ℕ → Bool) (cm : CanaryManager) where
  -- a manager that has just started
  pub record IsRunning (cs : ConnectionService) (m : CanaryManager) : Type 0 where
    pub is_open : m.stop ≡ opened
    pub connection : m.connection_service ≡ cs
    pub small : m.producer_service.records_produced < 2 ^ 64

  -- an error other than that of an unexpected size
  abbrev pub IsOther : ReconcileError er → Type 0
  IsOther expected_cluster_size_error = ⊥
  IsOther (sarama e) = Unit {0}
  IsOther (topic_error e) = Unit {0}

  -- Why Start of a manager ends the program: all of its `N + 1` reconciles found a cluster of an unexpected size, the
  -- first one that did not replied with an error, or the consumer did not join its group.
  abbrev pub StartFault : ℕ → Type 0
  StartFault N =
      ((svc : TopicService) × Waited er cfg client_id fuel answers times_out cm (suc N) svc)
      ⊎ ((k : ℕ) × (k ≤ N)
          × (before : TopicService) × Waited er cfg client_id fuel answers times_out cm k before
          × (t : List Topic.Types.Event) × (svc : TopicService) × (r : TopicReconcileResult)
          × (e : ReconcileError er) × IsOther e
          × (Topic.reconcile er cfg (answers k).topic_answers fuel before
              ≡ done t (svc, r, some e)))
      ⊎ GivesUp times_out (Consumer.consume fuel times_out)

  running-EndsIn :
      (cs : ConnectionService) (N k : ℕ) (before : TopicService) (t : List Topic.Types.Event)
      (svc : TopicService) (r : TopicReconcileResult) (e : Option (ReconcileError er))
      (s : Sending er cfg client_id)
      → k ≤ N
      → cm.producer_service.records_produced < 2 ^ 64
      → Waited er cfg client_id fuel answers times_out cm k before
      → Topic.reconcile er cfg (answers k).topic_answers fuel before ≡ done t (svc, r, e)
      → Decides er cfg client_id fuel answers times_out cm k svc r e s
      → EndsIn (StartFault N) (IsRunning cs) (running er cfg client_id fuel answers times_out cs s)
  running-EndsIn cs N k before t svc r none s le small waited run (inl (j, joins, sends)) =
      rw sends (record {
        is_open = refl;
        connection = refl;
        small = omega (
          arith,
          (send-Numbered er.E client_id (answers k).producer_answers r.assignments
              cm.producer_service small).2,
        );
      })
  running-EndsIn cs N k before t svc r none s le small waited run (inr (gives_up, ends)) =
      rw ends (inr (inr gives_up))
  running-EndsIn cs N k before t svc r (some expected_cluster_size_error) s le small waited run d =
      absurd d
  running-EndsIn cs N k before t svc r (some (sarama e)) s le small waited run d =
      rw d (inr (inl (k, le, before, waited, t, svc, r, sarama e, tt, run)))
  running-EndsIn cs N k before t svc r (some (topic_error e)) s le small waited run d =
      rw d (inr (inl (k, le, before, waited, t, svc, r, topic_error e, tt, run)))

  pub start-EndsIn :
      (every : Intervals) (N ms : ℕ) (max_attempts scale : ℤ) (connected : Connection.Answers er)
      (t : List Connection.Event) (cs : ConnectionService)
      → IsTicking every
      → max_attempts ≡ pos N
      → scale ≡ pos ms
      → 0 < ms
      → ms * millisecond * 2 ^ N < 2 ^ 63
      → N < fuel
      → max_consume_attempts < fuel
      → ((i : ℕ) → Cooperates er cfg (answers i).topic_answers fuel)
      → Connection.connection_check er cfg.expected_cluster_size connected cm.connection_service
        ≡ (t, ok cs)
      → cm.producer_service.records_produced < 2 ^ 64
      → EndsIn
          (StartFault N)
          (IsRunning cs)
          (start er cfg client_id fuel answers times_out every max_attempts scale connected cm).1
  start-EndsIn every N ms max_attempts scale connected t cs ticking max_is scale_is ms_pos fits more
        lt co opens small =
      rw (max_is, scale_is)
        (elim (start-Starts er cfg client_id fuel answers times_out cm every N ms connected t cs
          ticking ms_pos fits more lt co opens) [
            | inl starts ↦
                let d = starts.decided in
                subst (EndsIn (StartFault N) (IsRunning cs)) (sym starts.ends) (
                  running-EndsIn cs N starts.waits d.before d.events d.service d.result d.cause
                    starts.sending starts.in_time small d.waited d.replies d.decides)
            | inr never ↦
                subst (EndsIn (StartFault N) (IsRunning cs)) (sym never.ends)
                  (inl (never.service, never.waited))
          ])
