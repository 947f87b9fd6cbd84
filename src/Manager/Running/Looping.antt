-- ===== src/Manager/Running/Looping.antt =====
-- The manager as an instance of the loop that it shares with the services that check at a ticker.
use strimzi_canary.Common.{ℕ, ◌≤◌, ◌^◌, ◌<◌, ◌≡◌, refl, sym, ◌∙◌, String, ok, inl, inr, arith}
use mathlib.Core.Path.{subst}
use strimzi_canary.Common.Int.{ℤ}
use strimzi_canary.Topic.Types.{Errors, TopicSettings}
use strimzi_canary.Loop
use strimzi_canary.Loop.{
  Channel, unmade, opened, closed, Caller, free, waiting, Looped, Reach, close_channel, IsTidy,
}
use strimzi_canary.Loop.Quiet.{Counts, Reach-IsSound, after_close}
use strimzi_canary.Manager.{Intervals, CanaryManager}
use strimzi_canary.Manager.Running.{
  Managed, ManagerStep, starts, ticks, connection_ticks, ends, stops, returns, ReachManager, here,
  next, IsFreshStep, IsTidyRun,
}
use strimzi_canary.Manager.Running.Closing.{close_services-Between}
use strimzi_canary.Manager.Running.Steps.{start-Between, reconcile-Between}
use strimzi_canary.Manager.Numbers.{Adds-small}
use strimzi_canary.Manager.Running.Numbered.{Reach-IsNumbered}

-- The channel, the wait group and the caller.
abbrev pub as_loop : Managed → Looped (Unit {0})
as_loop w = record {
  stop = w.manager.stop;
  goroutines = w.goroutines;
  caller = w.caller;
  state = tt;
}

-- Nothing is asked of what a loop does.
abbrev pub Anything : Unit {0} → Unit {0} → Type 0
Anything a b = Unit {0}

opened_of_close : (c : Channel) → close_channel c ≡ ok tt → c ≡ opened
opened_of_close unmade h = absurd (cc h)
opened_of_close opened h = refl
opened_of_close closed h = absurd (cc h)

-- A state of the loop that it comes to with no Open of a loop that is open.
abbrev pub ReachLoop : Looped (Unit {0}) → Type 0
ReachLoop l = (r : Reach Anything Anything tt l) × IsTidy Anything Anything r

few : (c : Channel) (w : Caller) (n : ℕ) → Counts c w n → n ≤ 1
few unmade free n h = omega arith
few opened free n h = omega arith
few closed free n h = omega arith
few closed waiting n h = h
few unmade waiting n h = absurd h
few opened waiting n h = absurd h

shut : (c : Channel) (w : Caller) (n : ℕ) → Counts c w n → w ≡ waiting → c ≡ closed
shut c free n h e = absurd (cc e)
shut closed waiting n h e = refl
shut unmade waiting n h e = absurd h
shut opened waiting n h e = absurd h

-- a loop, but for its channel, which is another's
at_channel :
    (l : Looped (Unit {0})) (c : Channel)
    → c ≡ l.stop
    → ReachLoop l
    → ReachLoop (record l { stop = c })
at_channel l c e r = subst (λ (s : Channel). ReachLoop (record l { stop = s })) (sym e) r

module _ (er : Errors) (cfg : TopicSettings) (client_id : String) (fuel : ℕ) (every : Intervals)
    (max_attempts scale : ℤ) where
  ManagerStep-loop :
      {w v : Managed}
      → (step : ManagerStep er cfg client_id fuel every max_attempts scale w v)
      → IsFreshStep er cfg client_id fuel every max_attempts scale step
      → w.manager.producer_service.records_produced < 2 ^ 64
      → ReachLoop (as_loop w)
      → ReachLoop (as_loop v)
  ManagerStep-loop {w} (starts answers times_out connected t cm f run) ne small (r, tidy) =
      at_channel _ cm.stop
        (start-Between er cfg client_id fuel answers times_out w.manager small every max_attempts
          scale connected t cm run).1
        (Loop.next r (Loop.opens tt f tt), (tidy, ne))
  ManagerStep-loop {w} (ticks ans t cm some_left run) ne small (r, tidy) =
      at_channel _ cm.stop (reconcile-Between er cfg client_id fuel ans w.manager small t cm run).1
        (Loop.next r (Loop.ticks tt some_left tt), (tidy, tt))
  ManagerStep-loop (connection_ticks ans t cs live run) ne small r = r
  ManagerStep-loop (ends n e c) ne small (r, tidy) = (Loop.next r (Loop.ends n e c), (tidy, tt))
  ManagerStep-loop {w} (stops f c) ne small (r, tidy) =
      (Loop.next r (Loop.closes f (opened_of_close w.manager.stop c)), (tidy, tt))
  ManagerStep-loop {w} (returns ans t cm g z run) ne small (r, tidy) =
      at_channel _ cm.stop (close_services-Between er cfg ans w.manager t cm small run).1
        (Loop.next r (Loop.returns g z), (tidy, tt))

  reach_loop :
      (cm : CanaryManager) {w : Managed}
      → cm.stop ≡ unmade
      → cm.producer_service.records_produced < 2 ^ 64
      → (r : ReachManager er cfg client_id fuel every max_attempts scale cm w)
      → IsTidyRun er cfg client_id fuel every max_attempts scale r
      → ReachLoop (as_loop w)
  reach_loop cm fresh small here tidy =
      at_channel (Loop.new_looped tt) cm.stop fresh (Loop.here, tt)
  reach_loop cm fresh small (next {w} r step) (tidy, ne) =
      ManagerStep-loop step ne
        (Adds-small cm.producer_service w.manager.producer_service w.events
          (Reach-IsNumbered er cfg client_id fuel every max_attempts scale cm w small r tidy).adds)
        (reach_loop cm fresh small r tidy)

  only_starts :
      {w v : Managed}
      → ManagerStep er cfg client_id fuel every max_attempts scale w v
      → w.manager.producer_service.records_produced < 2 ^ 64
      → w.caller ≡ free
      → w.manager.stop ≡ closed
      → w.goroutines ≡ 0
      → v.manager.stop ≡ opened
  only_starts {w} (starts answers times_out connected t cm f run) small free_now shut none_left =
      (start-Between er cfg client_id fuel answers times_out w.manager small every max_attempts
        scale connected t cm run).1
  only_starts (ticks ans t cm some_left run) small free_now shut none_left = absurd (omega arith)
  only_starts (connection_ticks ans t cs (inl open_now) run) small free_now shut none_left =
      absurd (cc (sym shut ∙ open_now))
  only_starts (connection_ticks ans t cs (inr waits) run) small free_now shut none_left =
      absurd (cc (sym free_now ∙ waits))
  only_starts (ends n e c) small free_now shut none_left = absurd (omega arith)
  only_starts {w} (stops f c) small free_now shut none_left =
      absurd (cc (sym shut ∙ opened_of_close w.manager.stop c))
  only_starts (returns ans t cm g z run) small free_now shut none_left =
      absurd (cc (sym free_now ∙ g))

  -- A state of the manager as one of the abstract loop, and what follows.
  pub record IsLoop (w : Managed) : Type 0 where
    pub reached : ReachLoop (as_loop w)
    pub one_goroutine : w.goroutines ≤ 1
    pub waits : w.caller ≡ waiting → w.manager.stop ≡ closed
    pub stopped :
        w.caller ≡ free
        → w.manager.stop ≡ closed
        → (w.goroutines ≡ 0)
          × ((v : Managed)
              → ManagerStep er cfg client_id fuel every max_attempts scale w v
              → v.manager.stop ≡ opened)

  -- A new manager, in any interleaving of its Starts, the ticks of its goroutine, the connection checks and
  -- Stops, with no Start while it is started, is an instance of the loop of the services: its channel, its wait group and its caller come to no
  -- state that those of that loop do not. It has one goroutine at most; while Stop waits the channel is
  -- closed; and once Stop has returned there is no goroutine, and the only step is another Start.
  pub Reach-IsLoop :
      (cm : CanaryManager) (w : Managed)
      → cm.stop ≡ unmade
      → cm.producer_service.records_produced < 2 ^ 64
      → (r : ReachManager er cfg client_id fuel every max_attempts scale cm w)
      → IsTidyRun er cfg client_id fuel every max_attempts scale r
      → IsLoop w
  Reach-IsLoop cm w fresh small r tidy =
      let (run, kept) = reach_loop cm fresh small r tidy in
      let sound = Reach-IsSound Anything Anything run kept in
      record {
        reached = (run, kept);
        one_goroutine = few w.manager.stop w.caller w.goroutines sound.counts;
        waits = shut w.manager.stop w.caller w.goroutines sound.counts;
        stopped = λ f c.
            let none_left = (after_close Anything Anything run kept f c).0 in
            (
              none_left,
              λ v step.
                  only_starts step
                    (Adds-small cm.producer_service w.manager.producer_service w.events
                      (Reach-IsNumbered er cfg client_id fuel every max_attempts scale cm w small r
                        tidy).adds)
                    f c none_left,
            );
      }
