-- ===== src/Client.antt =====
-- cmd/main.go: the creation of a Sarama client, which is tried again by a back-off. `fuel` bounds the
-- rounds of the loop; Sarama's answer to attempt `i` (from 0) is a parameter.
pub mod Retry
mod Tests
use strimzi_canary.Common.{ℕ, suc, List, [], ◌∷◌, Result, value, error}
use strimzi_canary.Common.Int.{ℤ, pos, mul64}
use strimzi_canary.Backoff.{new_backoff, millisecond, max_default}
use strimzi_canary.Backoff.Retry.{Attempt, finished, again, Retried, retry}

-- An attempt, the counter of the failed ones, and the sleep before the next.
pub data Event : Type 0 where
  new_client client_creation_failed : Event
  sleep : ℤ → Event

abbrev pub waiting : ℤ → List Event
waiting d = client_creation_failed ∷ sleep d ∷ []

module _ {E : Type 0} {Client : Type 0} (answer : ℕ → Result E Client) where
  unfoldable pub new_client_attempt : ℕ → Attempt Event ℕ Client
  new_client_attempt i = elim (answer i) [
    | value c ↦ finished (new_client ∷ []) c
    | error e ↦ again (new_client ∷ []) (suc i)
  ]

  -- The scale of the configuration is in milliseconds.
  unfoldable pub new_client_with_retry : ℕ → ℤ → ℤ → Retried Event Client
  unfolding new_client_attempt retry
  new_client_with_retry fuel max_attempts scale =
      retry new_client_attempt waiting fuel 0
        (new_backoff max_attempts (mul64 scale (pos millisecond)) max_default)
