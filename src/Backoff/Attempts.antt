-- ===== src/Backoff/Attempts.antt =====
-- How often a loop with a back-off is tried, and what comes of it.
use strimzi_canary.Common.{
  ℕ, zero, suc, ◌+◌, ◌-◌, ◌*◌, ◌^◌, ◌≤◌, ◌<◌, ◌≡◌, refl, sym, ap, ◌∙◌, Bool, List, [], ◌++◌, lt→ltb,
  min, count, count-append, append_assoc, ok, Result, value, error, arith,
}
use native.Mathlib.Nat.{pow-suc, zero-add, suc-add}
use strimzi_canary.Common.Int.{ℤ, pos}
use strimzi_canary.Backoff.{Backoff, BackoffError, max_attempts_exceeded, new_backoff, delay, after}
use strimzi_canary.Backoff.Schedule.{exact_delay, delay-schedule, delay_gives_up}
use strimzi_canary.Backoff.Retry.{Attempt, finished, again, Retried, after_events, retry}

scaled : (s n k : ℕ) → s * 2 ^ n ≤ s * 2 ^ (k + n)
scaled s n zero = rw zero-add (omega arith)
scaled s n (suc k) = rw (suc-add, pow-suc) (omega (arith, scaled s n k))

minus-plus : (a b : ℕ) → b ≤ a → a - b + b ≡ a
minus-plus a b h = omega arith

after-after :
    {Ev : Type 0} {A : Type 0} (t u : List Ev) (r : Retried Ev A)
    → after_events (t ++ u) r ≡ after_events t (after_events u r)
after-after {Ev} t u (v, end) = ap (λ (w : List Ev). (w, end)) (append_assoc t u v)

-- A back-off of `N` attempts, of a scale of `s` and a limit of `m` nanoseconds, whose largest delay fits an int64.
pub record Fits (s m N : ℕ) : Type 0 where
  pub s_pos : 0 < s
  pub in_reach : s * 2 ^ N < 2 ^ 63
  pub m_pos : 0 < m
  pub m_fits : m < 2 ^ 63

module _ (s m N : ℕ) (fits : Fits s m N) where
  below : (n : ℕ) → n ≤ N → s * 2 ^ n < 2 ^ 63
  below n h =
      omega (arith, scaled s n (N - n), ap (λ (k : ℕ). s * 2 ^ k) (minus-plus N n h), fits.in_reach)

  pub scale_fits : s < 2 ^ 63
  scale_fits = omega (arith, below 0 (omega arith))

  abbrev pub start : Backoff
  start = new_backoff (pos N) (pos s) (pos m)

  pub delayed : (n : ℕ) → n < N → (delay (after n start)).0 ≡ value (pos (min (s * 2 ^ n) m))
  unfolding exact_delay
  delayed n h =
      delay-schedule s m N fits.s_pos scale_fits fits.m_pos fits.m_fits n (omega arith)
        (omega (arith, below n (omega arith)))
      ∙ rw (lt→ltb (s * 2 ^ n) (2 ^ 63) (below n (omega arith))) (ground arith)

  pub exhausted : (delay (after N start)).0 ≡ error max_attempts_exceeded
  exhausted =
      ap (λ (k : ℕ). (delay (after k start)).0) (sym (zero-add N))
      ∙ delay_gives_up s m N fits.s_pos scale_fits fits.m_pos fits.m_fits 0
          (omega (arith, fits.in_reach))

-- a run that ends so, after so many sleeps
pub record EndsAfter {Ev : Type 0} {A : Type 0} (is_sleep : Ev → Bool) (k : ℕ)
    (end : Result BackoffError A) (run : Retried Ev A) : Type 0 where
  pub ends : run.1 ≡ ok end
  pub sleeps : count is_sleep run.0 ≡ k

module _ {Ev : Type 0} {S : Type 0} {A : Type 0} (attempt : S → Attempt Ev S A)
    (is_sleep : Ev → Bool) where
  -- `k` attempts from a state are tried again, with no sleep of their own, and lead to another state.
  pub data AgainTo : ℕ → S → S → Type 0 where
    here : {x : S} → AgainTo 0 x x
    later :
        {k : ℕ} {x y z : S} (es : List Ev)
        → AgainTo k x y
        → attempt y ≡ again es z
        → count is_sleep es ≡ 0
        → AgainTo (suc k) x z

  module _ (waiting : ℤ → List Ev) (one_sleep : (d : ℤ) → count is_sleep (waiting d) ≡ 1) where
    retry-again :
        (left : ℕ) (x y : S) (b : Backoff) (t : List Ev) (d : ℤ)
        → attempt x ≡ again t y
        → (delay b).0 ≡ value d
        → retry attempt waiting (suc left) x b
          ≡ after_events (t ++ waiting d) (retry attempt waiting left y (delay b).1)
    unfolding retry
    retry-again left x y b t d failed delays = rw (retry, failed, delays) refl

    module _ (s m N : ℕ) (fits : Fits s m N) where
      retry-AgainTo :
          {k : ℕ} {x y : S} (left fuel : ℕ)
          → AgainTo k x y
          → k ≤ N
          → fuel ≡ k + left
          → (es : List Ev) × (count is_sleep es ≡ k)
            × (retry attempt waiting fuel x (start s m N fits)
                ≡ after_events es (retry attempt waiting left y (after k (start s m N fits))))
      unfolding after
      retry-AgainTo left fuel here le split = ([], refl, rw (split, zero-add) refl)
      retry-AgainTo left fuel (later {k} {x} {y} {z} t before failed quiet) le split =
          let (es, slept, run) = retry-AgainTo (suc left) fuel before (omega arith) (omega arith) in
          let d : ℤ = pos (min (s * 2 ^ k) m) in
          (
            es ++ (t ++ waiting d),
            omega (
              arith,
              slept,
              quiet,
              one_sleep d,
              count-append is_sleep es (t ++ waiting d),
              count-append is_sleep t (waiting d),
            ),
            run
                ∙ ap (after_events es) (
                    retry-again left y z (after k (start s m N fits)) t d failed
                      (delayed s m N fits k (omega arith)))
                ∙ sym (
                    after-after es (t ++ waiting d)
                      (retry attempt waiting left z (after (suc k) (start s m N fits)))),
          )

      ends_after :
          {k : ℕ} {x y : S} (fuel : ℕ) (t : List Ev) (end : Result BackoffError A)
          → AgainTo k x y
          → k ≤ N
          → k < fuel
          → count is_sleep t ≡ 0
          → ((left : ℕ)
              → retry attempt waiting (suc left) y (after k (start s m N fits)) ≡ (t, ok end))
          → EndsAfter is_sleep k end (retry attempt waiting fuel x (start s m N fits))
      ends_after {k} {x} {y} fuel t end to le lt quiet last =
          let (es, slept, run) = retry-AgainTo (suc (fuel - suc k)) fuel to le (omega arith) in
          let whole : retry attempt waiting fuel x (start s m N fits) ≡ (es ++ t, ok end) =
            run ∙ ap (after_events es) (last (fuel - suc k)) in
          record {
            ends = ap (λ (r : Retried Ev A). r.1) whole;
            sleeps =
                ap (λ (r : Retried Ev A). count is_sleep r.0) whole
                ∙ omega (arith, slept, quiet, count-append is_sleep es t);
          }

      -- The first attempt that ends the loop ends it, after as many sleeps as there were attempts before it.
      pub retry-finished :
          {k : ℕ} {x y : S} (fuel : ℕ) (t : List Ev) (a : A)
          → AgainTo k x y
          → k ≤ N
          → k < fuel
          → attempt y ≡ finished t a
          → count is_sleep t ≡ 0
          → EndsAfter is_sleep k (value a) (retry attempt waiting fuel x (start s m N fits))
      unfolding retry
      retry-finished fuel t a to le lt reached quiet =
          ends_after fuel t (value a) to le lt quiet λ left. rw (retry, reached) refl

      -- If `N + 1` attempts are to be tried again, the loop ends after `N` sleeps.
      pub retry-exhausted :
          {x y : S} (fuel : ℕ)
          → AgainTo (suc N) x y
          → N < fuel
          → EndsAfter is_sleep N
              (error max_attempts_exceeded)
              (retry attempt waiting fuel x (start s m N fits))
      unfolding retry
      retry-exhausted fuel (later t before failed quiet) lt =
          ends_after fuel t (error max_attempts_exceeded) before (omega arith) lt quiet
            λ left. rw (retry, failed, exhausted s m N fits) refl
