-- ===== src/Manager/Loop.antt =====
-- internal/workers/canary_manager.go: the loop of the ticker, a series of ticks until it is stopped.
use strimzi_canary.Common.{
  ℕ, ◌+◌, ◌^◌, ◌<◌, ◌≡◌, refl, sym, ap, ◌∙◌, List, [], ◌∷◌, ◌++◌, length, Option, none, some,
  String, Outcome, ok, crash,
}
use mathlib.Core.Path.{subst}
use strimzi_canary.Topic.Types.{
  Errors, TopicSettings, TopicService, TopicReconcileResult, ReconcileError,
}
use strimzi_canary.Topic.Cooperation.{Cooperates}
use strimzi_canary.Producer.Sent.{messages}
use strimzi_canary.Manager.{Event, CanaryManager, Answers, reconcile}
use strimzi_canary.Manager.Events.{of_producer}
use strimzi_canary.Manager.Numbers.{Adds, Adds-nothing, Adds-append, Adds-small, numbered}
use strimzi_canary.Manager.Tick.{Ticks, reconcile-Ticks}

abbrev after_tick :
    List Event × Outcome CanaryManager
    → (CanaryManager → List Event × Outcome CanaryManager)
    → List Event × Outcome CanaryManager
after_tick (t, crash c) rest = (t, crash c)
after_tick (t, ok cm) rest = let (u, end) = rest cm in (t ++ u, end)

module _ (er : Errors) (cfg : TopicSettings) (client_id : String) (fuel : ℕ) where
  -- One tick for each of the answers.
  unfoldable pub reconcile_loop :
      List (Answers er cfg client_id) → CanaryManager → List Event × Outcome CanaryManager
  unfolding reconcile
  reconcile_loop [] cm = ([], ok cm)
  reconcile_loop (ans ∷ later) cm =
      after_tick (reconcile er cfg client_id fuel ans cm) (reconcile_loop later)

-- What a run of the manager, with no panic, leaves.
pub record Runs (cm : CanaryManager) (run : List Event × Outcome CanaryManager) : Type 0 where
  pub last : CanaryManager
  pub ends : run.1 ≡ ok last
  pub goes_on : last.stop ≡ cm.stop
  pub adds : Adds cm.producer_service run.0 last.producer_service

Runs-after_tick :
    (cm : CanaryManager) (first : List Event × Outcome CanaryManager)
    (rest : CanaryManager → List Event × Outcome CanaryManager)
    → Runs cm first
    → ((next : CanaryManager)
        → next.producer_service.records_produced < 2 ^ 64
        → Runs next (rest next))
    → Runs cm (after_tick first rest)
Runs-after_tick cm (t, crash c) rest a b = absurd (cc a.ends)
Runs-after_tick cm (t, ok next) rest a b =
    let same : a.last ≡ next = cc a.ends in
    let adds : Adds cm.producer_service t next.producer_service =
      subst (λ (m : CanaryManager). Adds cm.producer_service t m.producer_service) same a.adds in
    let r = b next (Adds-small cm.producer_service next.producer_service t adds) in
    record {
      last = r.last;
      ends = r.ends;
      goes_on = r.goes_on ∙ ap (λ (m : CanaryManager). m.stop) (sym same) ∙ a.goes_on;
      adds =
          Adds-append cm.producer_service next.producer_service r.last.producer_service t
            (rest next).0 adds r.adds;
    }

module _ (er : Errors) (cfg : TopicSettings) (client_id : String) (fuel : ℕ) where
  abbrev pub AllCooperate : List (Answers er cfg client_id) → Type 0
  AllCooperate [] = Unit {0}
  AllCooperate (ans ∷ later) = Cooperates er cfg ans.topic_answers fuel × AllCooperate later

  pub Ticks-Runs :
      (ans : Answers er cfg client_id) (cm : CanaryManager) (svc : TopicService)
      (r : TopicReconcileResult) (e : Option (ReconcileError er))
      (run : List Event × Outcome CanaryManager)
      → cm.producer_service.records_produced < 2 ^ 64
      → Ticks er cfg client_id ans cm svc r e run
      → Runs cm run
  Ticks-Runs ans cm svc r none run h ticks = record {
    last = record cm { topic_service = svc; producer_service = ticks.later };
    ends = ticks.ends;
    goes_on = refl;
    adds = record {
      total = length r.assignments;
      sent =
          numbered (length r.assignments) cm.producer_service.index (messages (of_producer run.0))
            ticks.sent.total λ j l. (0 + j, _, ticks.sent.each j l, refl);
      indexed = ticks.indexed;
      counted = ticks.counted;
    };
  }
  Ticks-Runs ans cm svc r (some e) run h ticks = record {
    last = record cm { topic_service = svc };
    ends = ticks.ends;
    goes_on = refl;
    adds = Adds-nothing cm.producer_service run.0 h (ap messages ticks.no_producer);
  }

  -- Any series of ticks, when the cluster lets every reconcile end: none panics, the loop is not stopped,
  -- the messages that they send, over all of them, have consecutive numbers from the index of the
  -- producer on, which is then the last of them, and the counter of the records produced goes up by their
  -- number, modulo 2^64.
  pub reconcile_loop-Runs :
      (answers : List (Answers er cfg client_id)) (cm : CanaryManager)
      → AllCooperate answers
      → cm.producer_service.records_produced < 2 ^ 64
      → Runs cm (reconcile_loop er cfg client_id fuel answers cm)
  unfolding reconcile_loop
  reconcile_loop-Runs [] cm co h = record {
    last = cm;
    ends = refl;
    goes_on = refl;
    adds = Adds-nothing cm.producer_service [] h refl;
  }
  reconcile_loop-Runs (ans ∷ later) cm (co, rest) h =
      let (t, svc, r, e, run, ticks) = reconcile-Ticks er cfg client_id ans fuel cm co h in
      Runs-after_tick cm (reconcile er cfg client_id fuel ans cm)
        (reconcile_loop er cfg client_id fuel later)
        (Ticks-Runs ans cm svc r e (reconcile er cfg client_id fuel ans cm) h ticks)
        (λ next l. reconcile_loop-Runs later next rest l)
