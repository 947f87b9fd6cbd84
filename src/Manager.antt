-- ===== src/Manager.antt =====
-- internal/workers/canary_manager.go: Start, the reconcile of a tick, and Stop, over the services as they are modelled.
-- What the cluster answers is a parameter; the events are those of the services. How Start, the ticks and
-- Stop interleave is in Manager/Running.
pub mod Leaders
pub mod Events
pub mod Attempts
pub mod Start
pub mod Refreshing
pub mod Tick
pub mod Numbers
pub mod Loop
pub mod Stop
pub mod Running
pub mod Sample
mod Tests
use strimzi_canary.Common.{
  ℕ, zero, suc, ◌+◌, Bool, true, false, not, ◌&&◌, ◌||◌, List, [], ◌∷◌, ◌++◌, map, Option, none,
  some, if◌then◌else◌, String, Outcome, ok, crash, Crash, fatal, nil_dereference,
  close_of_closed_channel, Result, value, error,
}
use strimzi_canary.Common.Int.{ℤ, pos, mul64, eqb_ℤ}
use strimzi_canary.Common.Maps.{nat_eq, lookup}
use strimzi_canary.Backoff.{BackoffError, new_backoff, millisecond, max_default}
use strimzi_canary.Backoff.Retry.{Attempt, finished, again, Retried, retry}
use strimzi_canary.Topic.Types.{
  Errors, TopicSettings, TopicService, TopicReconcileResult, ReconcileError, sarama, topic_error,
  expected_cluster_size_error, Run, done, failed, crashed,
}
use strimzi_canary.Topic
use strimzi_canary.Connection.{ConnectionService}
use strimzi_canary.Connection
use strimzi_canary.Producer.{ProducerService}
use strimzi_canary.Producer
use strimzi_canary.Consumer
use strimzi_canary.Loop.Ticker.{new_ticker_of}
use strimzi_canary.Loop.{Channel, unmade, opened, closed}

pub data Event : Type 0 where
  topic : Topic.Types.Event → Event
  connection : Connection.Event → Event
  producer : Producer.Event → Event
  consumer : Consumer.Event → Event
  open_status_service close_status_service add_expected_cluster_size_error : Event
  sleep : ℤ → Event

-- `stop` stops the loop of the ticker, if Start has made it.
pub record CanaryManager : Type 0 where
  pub stop : Channel
  pub topic_service : TopicService
  pub producer_service : ProducerService
  pub connection_service : ConnectionService

-- The intervals of the loops in milliseconds.
pub record Intervals : Type 0 where
  pub connection_check : ℤ
  pub status_check : ℤ
  pub reconcile : ℤ

-- what becomes of the tickers of the three loops
abbrev pub Tickers : Type 0
Tickers = Outcome (Unit {0}) × Outcome (Unit {0}) × Outcome (Unit {0})

abbrev pub tickers_of : Intervals → Tickers
tickers_of every = (
  new_ticker_of every.connection_check,
  new_ticker_of every.status_check,
  new_ticker_of every.reconcile,
)

-- what was done before a ticker is made, and what is done after it
abbrev pub then_ticker :
    List Event
    → Outcome (Unit {0})
    → List Event × Outcome CanaryManager
    → List Event × Outcome CanaryManager
then_ticker t (ok u) (es, end) = (t ++ es, end)
then_ticker t (crash c) run = (t, crash c)

abbrev pub and_ticker : Outcome (Unit {0}) → Outcome CanaryManager → Outcome CanaryManager
and_ticker (ok u) end = end
and_ticker (crash c) (ok cm) = crash c
and_ticker (crash c) (crash d) = crash d

-- reflect.DeepEqual of two maps: the keys of either have the same values in both.
abbrev pub same_value : Option ℤ → Option ℤ → Bool
same_value none none = true
same_value (some a) (some b) = eqb_ℤ a b
same_value a b = false

abbrev pub same_at : List (ℕ × ℤ) → List (ℕ × ℤ) → ℕ → Bool
same_at m n k = same_value (lookup k m) (lookup k n)

abbrev pub all_keys : (ℕ → Bool) → List (ℕ × ℤ) → Bool
all_keys test [] = true
all_keys test ((k, v) ∷ m) = test k && all_keys test m

unfoldable pub deep_equal : List (ℕ × ℤ) → List (ℕ × ℤ) → Bool
deep_equal m n = all_keys (same_at m n) m && all_keys (same_at m n) n

module _ (er : Errors) (cfg : TopicSettings) (client_id : String) where
  -- What answers to one reconcile: the cluster, and the consumer's client on the leaders.
  pub record Answers : Type 0 where
    pub topic_answers : Topic.Types.Answers er
    pub producer_answers : Producer.Answers er.E client_id
    pub producer_refreshed : Option er.E
    pub consumer_refreshed : Option er.E
    pub leaders_found : Result er.E (List ℕ)
    pub leader_found : ℕ → Result er.E ℤ

  abbrev pub Reply : Type 0
  Reply = TopicService × TopicReconcileResult × Option (ReconcileError er)

  -- What a first reconcile that ends the loop leaves.
  abbrev pub Sending : Type 0
  Sending = Outcome (TopicService × ProducerService)

  abbrev pub StartAttempt : Type 0
  StartAttempt = Attempt Event (ℕ × TopicService) Sending

  abbrev pub waiting : ℤ → List Event
  waiting d = add_expected_cluster_size_error ∷ sleep d ∷ []

  -- A call of Consume, which may end the program, and then the first Send.
  abbrev pub consume_and_send :
      Answers
      → ProducerService
      → List Event
      → TopicService
      → TopicReconcileResult
      → List Consumer.Event × Outcome (Unit {0})
      → StartAttempt
  consume_and_send ans ps t svc r (u, crash c) = finished (t ++ map consumer u) (crash c)
  consume_and_send ans ps t svc r (u, ok joined) =
      let (v, ps') = Producer.send er.E client_id ans.producer_answers r.assignments ps in
      finished (t ++ (map consumer u ++ map producer v)) (ok (svc, ps'))

  module _ (fuel : ℕ) (answers : ℕ → Answers) (times_out : ℕ → Bool) where
    -- `answers i` is for reconcile `i`. Reconcile turns every failure into a reply.
    abbrev pub started : ℕ → ProducerService → Run er Reply → StartAttempt
    started i ps (done t (svc, r, none)) =
        consume_and_send (answers i) ps (map topic t) svc r (Consumer.consume fuel times_out)
    started i ps (done t (svc, r, some expected_cluster_size_error)) =
        again (map topic t) (suc i, svc)
    started i ps (done t (svc, r, some e)) = finished (map topic t) (crash fatal)
    started i ps (failed t f) = finished (map topic t) (crash fatal)
    started i ps (crashed t c) = finished (map topic t) (crash c)

    unfoldable pub start_attempt : ProducerService → ℕ × TopicService → StartAttempt
    unfolding Topic.reconcile Consumer.consume Producer.send
    start_attempt ps (i, svc) =
        started i ps (Topic.reconcile er cfg (answers i).topic_answers fuel svc)

    -- An error of the back-off ends the program.
    abbrev pub or_exit : Outcome (Result BackoffError Sending) → Sending
    or_exit (ok (value sending)) = sending
    or_exit (ok (error e)) = crash fatal
    or_exit (crash c) = crash c

    abbrev pub running : ConnectionService → Sending → Outcome CanaryManager
    running cs (ok (svc, ps)) = ok (record {
      stop = opened;
      topic_service = svc;
      producer_service = ps;
      connection_service = cs;
    })
    running cs (crash c) = crash c

    -- The ticker of the reconciles is made after the loop of the first one; the scale of the back-off is in
    -- milliseconds.
    abbrev pub first_reconciles :
        Outcome (Unit {0})
        → ℤ
        → ℤ
        → CanaryManager
        → ConnectionService
        → List Event × Outcome CanaryManager
    first_reconciles ticker max_attempts scale cm cs =
        let (u, end) =
          retry (start_attempt cm.producer_service) waiting fuel (0, cm.topic_service)
            (new_backoff max_attempts (mul64 scale (pos millisecond)) max_default) in
        (u, and_ticker ticker (running cs (or_exit end)))

    -- Open of the connection service makes a first check, and then its ticker; then comes Open of the status service,
    -- with its own.
    abbrev pub opened_and_started :
        Tickers → ℤ → ℤ → CanaryManager → Connection.Checked → List Event × Outcome CanaryManager
    opened_and_started tickers max_attempts scale cm (t, crash c) = (map connection t, crash c)
    opened_and_started (connections, statuses, reconciles) max_attempts scale cm (t, ok cs) =
        then_ticker (map connection t) connections (
          then_ticker (open_status_service ∷ []) statuses
            (first_reconciles reconciles max_attempts scale cm cs))

    unfoldable pub start :
        Intervals
        → ℤ
        → ℤ
        → Connection.Answers er
        → CanaryManager
        → List Event × Outcome CanaryManager
    unfolding start_attempt retry Connection.connection_check
    start every max_attempts scale connected cm =
        opened_and_started (tickers_of every) max_attempts scale cm
          (Connection.connection_check er cfg.expected_cluster_size connected cm.connection_service)

  -- Whether the leaders of the consumer's client are unknown, or others than the topic's.
  unfoldable pub have_changed : List (ℕ × ℤ) → Result er.E (List (ℕ × ℤ)) → Bool
  unfolding deep_equal
  have_changed m (error e) = true
  have_changed m (value n) = not (deep_equal m n)

  -- the calls of a reconcile that has a result, but for the last
  abbrev pub refreshes : Answers → TopicReconcileResult → List Event
  unfolding have_changed Producer.refresh Consumer.refresh Consumer.leaders
  refreshes ans r =
      (if r.refresh_producer_metadata
        then map producer (Producer.refresh er.E client_id ans.producer_refreshed)
        else [])
      ++ (if have_changed r.leaders (Consumer.leaders er.E ans.leaders_found ans.leader_found)
          then map consumer (Consumer.refresh ans.consumer_refreshed)
          else [])

  abbrev pub reconciled :
      Answers → CanaryManager → Run er Reply → List Event × Outcome CanaryManager
  reconciled ans cm (done t (svc, r, none)) =
      let (u, ps) =
        Producer.send er.E client_id ans.producer_answers r.assignments cm.producer_service in
      (
        map topic t ++ (refreshes ans r ++ map producer u),
        ok (record cm { topic_service = svc; producer_service = ps }),
      )
  reconciled ans cm (done t (svc, r, some e)) =
      (map topic t, ok (record cm { topic_service = svc }))
  reconciled ans cm (failed t f) = (map topic t, ok (record cm { topic_service = f.service }))
  reconciled ans cm (crashed t c) = (map topic t, crash c)

  unfoldable pub reconcile : ℕ → Answers → CanaryManager → List Event × Outcome CanaryManager
  unfolding Topic.reconcile Producer.send
  reconcile fuel ans cm =
      reconciled ans cm (Topic.reconcile er cfg ans.topic_answers fuel cm.topic_service)
