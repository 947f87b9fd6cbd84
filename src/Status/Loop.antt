-- ===== src/Status/Loop.antt =====
-- internal/services/status_check.go: Open and Close, with the checks of the ticker and the requests that the HTTP
-- server answers meanwhile. The counters at check number `i` are `p i` and `c i`. A
-- request comes between two checks or between the two samples of one; each Put is one step.
use strimzi_canary.Common.{
  ℕ, zero, suc, ◌-◌, ◌^◌, ◌≤◌, ◌<◌, min, ◌≡◌, refl, sym, ◌∙◌, Outcome, ok, crash,
  index_out_of_range, arith,
}
use mathlib.Core.Path.{subst}
use strimzi_canary.Common.Int.{ℤ, pos, negsuc, mul64}
use strimzi_canary.Ring.{TimeWindowRing, max_buffer_buckets, is_empty, put, head_sample}
use strimzi_canary.Ring.Window.{Holds, put-Holds}
use strimzi_canary.Ring.Samples.{Holds-Answers, new-Holds, buckets, buckets_pos}
use strimzi_canary.Status.{
  Floats, ConsumingStatus, StatusService, new_status_service, status_check, rounded_percentage,
  status_handler,
}
use strimzi_canary.Status.Percentage.{Watched, check-Watched, expected, status_handler-Answers}
use strimzi_canary.Loop.{Looped, opens, ticks, ends, closes, returns, Reach, here, next, IsTidy}

-- The service with the number of the checks that were made. A request that comes within a check finds the service
-- with the first of its two samples put, and this number as it was.
pub record Sampled : Type 0 where
  pub checks : ℕ
  pub service : StatusService

-- Open makes no check of its own.
abbrev pub Opens : Sampled → Sampled → Type 0
Opens s s' = s' ≡ s

-- A counter that does not fall and stays below 2^64.
pub record IsCounter (v : ℕ → ℕ) : Type 0 where
  pub rises : (i j : ℕ) → i ≤ j → v i ≤ v j
  pub fits : (i : ℕ) → v i < 2 ^ 64

module _ (p c : ℕ → ℕ) where
  abbrev pub Checks : Sampled → Sampled → Type 0
  Checks s s' =
      (s'.checks ≡ suc s.checks)
      × (status_check (p s.checks) (c s.checks) s.service ≡ ok s'.service)

  -- A state of the service that opens and closes its loop.
  abbrev pub ReachStatus : StatusService → Looped Sampled → Type 0
  ReachStatus ss l = Reach Opens Checks (record { checks = 0; service = ss }) l

  -- What the handler reports after `k` checks of a ring of `n` buckets: -1 before the first.
  abbrev pub percentage_after : (fl : Floats) → ℕ → ℕ → fl.Float
  percentage_after fl n zero = fl.of_int (negsuc 0)
  percentage_after fl n (suc k) =
      expected (rounded_percentage fl) (fl.of_int (negsuc 0)) (c k - c (suc k - n))
        (p k - p (suc k - n))

  -- What the handler answers within check number `k`, which has put its first sample only: it panics in the first
  -- check.
  abbrev pub answer_within : (fl : Floats) → ℕ → ℤ → ℕ → Outcome (ConsumingStatus fl)
  answer_within fl n interval zero = crash index_out_of_range
  answer_within fl n interval (suc k) = ok (record {
    time_window = mul64 interval (pos (min (suc k) n));
    percentage =
        expected (rounded_percentage fl) (fl.of_int (negsuc 0)) (c k - c (suc k - n))
          (p (suc k) - p (suc (suc k) - n));
  })

  module _ (n : ℕ) (n_pos : 0 < n) (n_small : n ≤ max_buffer_buckets) (interval : ℤ)
      (ss : StatusService) (fresh : Watched n p c interval 0 ss) where
    Reach-Watched :
        {l : Looped Sampled}
        → ReachStatus ss l
        → Watched n p c interval l.state.checks l.state.service
    Reach-Watched here = fresh
    Reach-Watched (next {l} r (opens s f same)) =
        subst (λ (x : Sampled). Watched n p c interval x.checks x.service) (sym same)
          (Reach-Watched r)
    Reach-Watched (next {l} r (ticks s h (counted, checks))) =
        let (ss', run, w) =
          check-Watched n n_pos n_small p c interval l.state.checks l.state.service
            (Reach-Watched r) in
        let same : ss' ≡ s.service = cc (sym run ∙ checks) in
        subst (λ k. Watched n p c interval k s.service) (sym counted)
          (subst (λ x. Watched n p c interval (suc l.state.checks) x) same w)
    Reach-Watched (next r (ends k e shut)) = Reach-Watched r
    Reach-Watched (next r (closes f o)) = Reach-Watched r
    Reach-Watched (next r (returns w z)) = Reach-Watched r

    report :
        (fl : Floats) (k : ℕ) (now : StatusService)
        → IsCounter p
        → IsCounter c
        → Watched n p c interval k now
        → status_handler fl now
          ≡ ok (record {
            time_window = mul64 interval (pos (min k n));
            percentage = percentage_after fl n k;
          })
    unfolding status_handler is_empty
    report fl zero now ip ic w =
        rw (w.interval_is, w.produced.tail_is, w.produced.head_is, w.consumed.count_is) refl
    report fl (suc k) now ip ic w =
        status_handler-Answers fl n p c k k interval now w.interval_is
          (Holds-Answers n p k now.produced_samples n_pos w.produced)
          (Holds-Answers n c k now.consumed_samples n_pos w.consumed) (ip.fits k) (ic.fits k)
          (ip.rises (suc k - n) k (omega arith)) (ic.rises (suc k - n) k (omega arith))

    -- a check that has put its sample of the counter of the producer only
    halfway :
        (fl : Floats) (k : ℕ) (now : StatusService) (rb : TimeWindowRing)
        → IsCounter p
        → IsCounter c
        → Watched n p c interval k now
        → Holds n p (suc k) rb
        → status_handler fl (record now { produced_samples = rb }) ≡ answer_within fl n interval k
    unfolding status_handler head_sample
    halfway fl zero now rb ip ic w h =
        let ap = Holds-Answers n p zero rb n_pos h in rw (ap.not_empty, w.consumed.head_is) refl
    halfway fl (suc k) now rb ip ic w h =
        status_handler-Answers fl n p c (suc k) k interval (record now { produced_samples = rb })
          w.interval_is (Holds-Answers n p (suc k) rb n_pos h)
          (Holds-Answers n c k now.consumed_samples n_pos w.consumed) (ip.fits (suc k)) (ic.fits k)
          (ip.rises (suc (suc k) - n) (suc k) (omega arith)) (ic.rises (suc k - n) k (omega arith))

module _ (fl : Floats) (p c : ℕ → ℕ) (a b : ℕ) where
  -- What a request finds between two checks, and in the next one between its two samples; and that this check does
  -- not panic.
  pub record Reports (l : Looped Sampled) : Type 0 where
    pub reports :
        status_handler fl l.state.service
        ≡ ok (record {
          time_window = mul64 (pos (suc b)) (pos (min l.state.checks (buckets a (suc b))));
          percentage = percentage_after p c fl (buckets a (suc b)) l.state.checks;
        })
    pub put_first : TimeWindowRing
    pub puts : put (p l.state.checks) l.state.service.produced_samples ≡ ok put_first
    pub within :
        status_handler fl (record l.state.service { produced_samples = put_first })
        ≡ answer_within p c fl (buckets a (suc b)) (pos (suc b)) l.state.checks
    pub later : StatusService
    pub goes_on : status_check (p l.state.checks) (c l.state.checks) l.state.service ≡ ok later

  -- In any interleaving of Open, Close and the ticks of a service whose window is at least the check interval, with no
  -- Open while it is open, and counters that do not fall and stay below 2^64: between two checks the status
  -- handler reports the rounded percentage of the records consumed to those produced since the oldest
  -- sample that is kept, -1 if none was produced or there was no check, and the time that the samples
  -- span. Between the two samples of a check it takes the new one of the producer with the last ones of
  -- the consumer, and panics if this check is the first. The next check does not panic.
  pub Reach-Reports :
      (ss : StatusService) (l : Looped Sampled)
      → suc b ≤ a
      → IsCounter p
      → IsCounter c
      → new_status_service (pos a) (pos (suc b)) ≡ ok ss
      → (r : ReachStatus p c ss l) → IsTidy Opens (Checks p c) r
      → Reports l
  unfolding new_status_service
  Reach-Reports ss l h ip ic made r tidy =
      let (rb, ring, fresh) = new-Holds a b in
      let n = buckets a (suc b) in
      let n_pos = buckets_pos a b h in
      let first : StatusService = record {
        check_interval = pos (suc b);
        produced_samples = rb;
        consumed_samples = rb;
      } in
      let same : first ≡ ss = cc (rw ring at made) in
      let start : Watched n p c (pos (suc b)) 0 ss =
        subst (λ x. Watched n p c (pos (suc b)) 0 x) same
          (record { produced = fresh p; consumed = fresh c; interval_is = refl }) in
      let now = Reach-Watched p c n n_pos (omega arith) (pos (suc b)) ss start r in
      let (later, run, w) =
        check-Watched n n_pos (omega arith) p c (pos (suc b)) l.state.checks l.state.service now in
      let (half, puts, held) =
        put-Holds n n_pos (omega arith) p l.state.checks l.state.service.produced_samples
          now.produced in
      record {
        put_first = half;
        puts = puts;
        within =
            halfway p c n n_pos (omega arith) (pos (suc b)) ss start fl l.state.checks
              l.state.service half ip ic now held;
        reports =
            report p c n n_pos (omega arith) (pos (suc b)) ss start fl l.state.checks
              l.state.service ip ic now;
        later = later;
        goes_on = run;
      }
