-- ===== src/Client/Tests.antt =====
-- Creations of a client with three attempts from two seconds, run.
use strimzi_canary.Common.{ℕ, zero, suc, ◌≡◌, refl, Bool, false, [], ◌∷◌, Result, value, error, ok}
use strimzi_canary.Common.Int.{pos}
use strimzi_canary.Backoff.{delay, new_backoff}
use strimzi_canary.Client.{new_client, client_creation_failed, sleep, new_client_with_retry}

-- The cluster is reached at the second attempt; its client is 7.
abbrev second : ℕ → Result Bool ℕ
second zero = error false
second (suc n) = value 7

two_attempts : new_client_with_retry second 4 (pos 3) (pos 2000) ≡ (
  new_client ∷ client_creation_failed ∷ sleep (pos 2_000_000_000) ∷ new_client ∷ [],
  ok (value 7),
)
unfolding new_client_with_retry delay new_backoff
two_attempts = refl
