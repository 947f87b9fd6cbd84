-- ===== src/Consumer/Join.antt =====
-- Consume: how often it waits for the group, and what comes of it.
use strimzi_canary.Common.{
  ℕ, zero, suc, ◌*◌, ◌≤◌, ◌<◌, ◌≡◌, refl, ap, ◌⊎◌, inl, inr, Bool, true, false, List, [], ◌∷◌,
  count, Bool-cases, Outcome, ok, crash, fatal, arith,
}
use native.Mathlib.Decide.{dec_lt}
use strimzi_canary.Backoff.{millisecond}
use strimzi_canary.Backoff.Attempts.{Fits, AgainTo, retry-finished, retry-exhausted}
use strimzi_canary.Consumer.{
  Event, start_consuming, cancel_context, timeout_join_group, sleep, max_consume_attempts,
  consume_scale, consume_attempt, waiting, or_exit, consume,
}

abbrev pub is_sleep : Event → Bool
is_sleep (sleep d) = true
is_sleep e = false

module _ (times_out : ℕ → Bool) where
  -- the first `k` waits time out
  abbrev pub TimeOut : ℕ → Type 0
  TimeOut k = (j : ℕ) → j < k → times_out j ≡ true

  TimeOut-AgainTo : (k : ℕ) → TimeOut k → AgainTo (consume_attempt times_out) is_sleep k 0 k
  unfolding consume_attempt
  TimeOut-AgainTo zero h = AgainTo.here
  TimeOut-AgainTo (suc k) h =
      AgainTo.later (start_consuming ∷ cancel_context ∷ timeout_join_group ∷ [])
        (TimeOut-AgainTo k (λ j l. h j (omega arith))) (rw (h k (omega arith)) refl) refl

  -- the first of `n` waits that does not time out, if there is one
  first_ready : (n : ℕ) → ((k : ℕ) × (k < n) × TimeOut k × (times_out k ≡ false)) ⊎ TimeOut n
  first_ready zero = inr (λ j h. absurd (omega arith))
  first_ready (suc n) = elim (first_ready n) [
    | inl (k, l, before, ready) ↦ inl (k, omega arith, before, ready)
    | inr all ↦ elim (Bool-cases (times_out n)) [
      | inr ready ↦ inl (n, omega arith, all, ready)
      | inl late ↦ inr (λ j h. elim (dec_lt j n) [
        | yes l ↦ all j l
        | no l ↦ let same : j ≡ n = omega arith in rw same late
      ])
    ]
  ]

  -- It has joined after `k` waits that timed out.
  pub record Joins (k : ℕ) (run : List Event × Outcome (Unit {0})) : Type 0 where
    pub in_time : k ≤ max_consume_attempts
    pub before : TimeOut k
    pub ready : times_out k ≡ false
    pub ends : run.1 ≡ ok tt
    pub sleeps : count is_sleep run.0 ≡ k

  -- Every wait timed out, and the program ends.
  pub record GivesUp (run : List Event × Outcome (Unit {0})) : Type 0 where
    pub late : TimeOut (suc max_consume_attempts)
    pub ends : run.1 ≡ crash fatal
    pub sleeps : count is_sleep run.0 ≡ max_consume_attempts

  consume-Fits : Fits consume_scale (300_000 * millisecond) max_consume_attempts
  consume-Fits = record {
    s_pos = omega arith;
    in_reach = omega arith;
    m_pos = omega arith;
    m_fits = omega arith;
  }

  -- Consume waits for the group four times at most: it ends as soon as a wait does not time out, after a sleep
  -- for each wait that did, and after four that did, and three sleeps, it ends the program.
  pub consume-Joins :
      (fuel : ℕ)
      → max_consume_attempts < fuel
      → ((k : ℕ) × Joins k (consume fuel times_out)) ⊎ GivesUp (consume fuel times_out)
  unfolding consume
  consume-Joins fuel lt = elim (first_ready (suc max_consume_attempts)) [
    | inl (k, l, before, ready) ↦
        let run =
          retry-finished (consume_attempt times_out) is_sleep waiting (λ d. refl) consume_scale
            (300_000 * millisecond) max_consume_attempts consume-Fits fuel (start_consuming ∷ []) tt
            (TimeOut-AgainTo k before) (omega arith) (omega arith)
            (rw (consume_attempt, ready) refl) refl in
        inl (
          k,
          record {
            in_time = omega arith;
            before = before;
            ready = ready;
            ends = ap or_exit run.ends;
            sleeps = run.sleeps;
          },
        )
    | inr late ↦
        let run =
          retry-exhausted (consume_attempt times_out) is_sleep waiting (λ d. refl) consume_scale
            (300_000 * millisecond) max_consume_attempts consume-Fits fuel
            (TimeOut-AgainTo (suc max_consume_attempts) late) lt in
        inr (record { late = late; ends = ap or_exit run.ends; sleeps = run.sleeps })
  ]
