-- ===== src/Backoff/Retry.antt =====
-- A loop that is tried again by a back-off, as newClientWithRetry of cmd/main.go, Consume of
-- internal/services/consumer.go and Start of internal/workers/canary_manager.go have it. `fuel` bounds its rounds.
use strimzi_canary.Common.{
  ℕ, zero, suc, List, [], ◌++◌, Outcome, ok, crash, no_fuel, Result, value, error,
}
use strimzi_canary.Common.Int.{ℤ}
use strimzi_canary.Backoff.{Backoff, BackoffError, delay}

-- An attempt ends the loop, or has it tried again, with the events of the attempt.
pub data Attempt (Ev : Type 0) (S : Type 0) (A : Type 0) : Type 0 where
  finished : List Ev → A → Attempt Ev S A
  again : List Ev → S → Attempt Ev S A

abbrev pub Retried : Type 0 → Type 0 → Type 0
Retried Ev A = List Ev × Outcome (Result BackoffError A)

abbrev pub after_events : {Ev : Type 0} {A : Type 0} → List Ev → Retried Ev A → Retried Ev A
after_events t (u, end) = (t ++ u, end)

module _ {Ev : Type 0} {S : Type 0} {A : Type 0} (attempt : S → Attempt Ev S A)
    (waiting : ℤ → List Ev) where
  -- `waiting d` are the events of a wait of `d`.
  unfoldable pub retry : ℕ → S → Backoff → Retried Ev A
  retry zero s b = ([], crash no_fuel)
  retry (suc fuel) s b = elim (attempt s) [
    | finished t a ↦ (t, ok (value a))
    | again t s' ↦ elim (delay b).0 [
      | error reason ↦ (t, ok (error reason))
      | value d ↦ after_events (t ++ waiting d) (retry fuel s' (delay b).1)
    ]
  ]
