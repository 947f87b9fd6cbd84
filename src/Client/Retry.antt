-- ===== src/Client/Retry.antt =====
-- How often the creation of a client is tried, and what comes of it.
use strimzi_canary.Common.{
  ℕ, zero, suc, ◌*◌, ◌^◌, ◌≤◌, ◌<◌, ◌≡◌, refl, ◌⊎◌, inl, inr, Result-cases, ok, Bool, true, false,
  [], ◌∷◌, lt→ltb, Result, value, error, arith,
}
use native.Mathlib.Nat.{mod-eq_of_lt}
use native.Mathlib.Decide.{dec_lt}
use strimzi_canary.Common.Int.{pos, mul64}
use strimzi_canary.Backoff.{BackoffError, max_attempts_exceeded, millisecond}
use strimzi_canary.Backoff.Attempts.{
  Fits, scale_fits, AgainTo, EndsAfter, retry-finished, retry-exhausted,
}
use strimzi_canary.Client.{
  Event, new_client, client_creation_failed, sleep, waiting, new_client_attempt,
  new_client_with_retry,
}

abbrev pub is_sleep : Event → Bool
is_sleep (sleep d) = true
is_sleep new_client = false
is_sleep client_creation_failed = false

-- a back-off of `N` attempts from `ms` milliseconds up to five minutes
pub millisecond-Fits :
    (ms N : ℕ)
    → 0 < ms
    → ms * millisecond * 2 ^ N < 2 ^ 63
    → Fits (ms * millisecond) (300_000 * millisecond) N
millisecond-Fits ms N ms_pos fits = record {
  s_pos = omega arith;
  in_reach = fits;
  m_pos = omega arith;
  m_fits = omega arith;
}

-- A scale that is in reach is the product of its milliseconds, without a wrap.
pub scale-millisecond :
    (ms N : ℕ)
    → Fits (ms * millisecond) (300_000 * millisecond) N
    → mul64 (pos ms) (pos millisecond) ≡ pos (ms * millisecond)
scale-millisecond ms N fits =
    let h = scale_fits (ms * millisecond) (300_000 * millisecond) N fits in
    rw
      (
        mod-eq_of_lt {n = ms} {m = 2 ^ 64} (omega arith),
        mod-eq_of_lt {n = ms * millisecond} {m = 2 ^ 64} (omega arith),
        lt→ltb (ms * millisecond) (2 ^ 63) h,
      )
      refl

module _ {E : Type 0} {Client : Type 0} (answer : ℕ → Result E Client) where
  -- no attempt before `k` finds the cluster
  abbrev pub FailsBefore : ℕ → Type 0
  FailsBefore k = (j : ℕ) → j < k → (e : E) × (answer j ≡ error e)

  FailsBefore-AgainTo : (k : ℕ) → FailsBefore k → AgainTo (new_client_attempt answer) is_sleep k 0 k
  unfolding new_client_attempt
  FailsBefore-AgainTo zero fails = AgainTo.here
  FailsBefore-AgainTo (suc k) fails =
      let (e, failed) = fails k (omega arith) in
      AgainTo.later (new_client ∷ []) (FailsBefore-AgainTo k (λ j h. fails j (omega arith)))
        (rw (new_client_attempt, failed) refl) refl

  module _ (ms N : ℕ) (ms_pos : 0 < ms) (fits : ms * millisecond * 2 ^ N < 2 ^ 63) where
    -- The creation of a client with `N` attempts from a scale of `ms` milliseconds, when the
    -- largest delay fits an int64: if attempt `k`, of those from 0 to `N`, is the first to reach
    -- the cluster, it ends with its client after `k` sleeps.
    pub new_client_with_retry-value :
        (k fuel : ℕ) (c : Client)
        → k ≤ N
        → k < fuel
        → FailsBefore k
        → answer k ≡ value c
        → EndsAfter is_sleep k (value c) (new_client_with_retry answer fuel (pos N) (pos ms))
    unfolding new_client_with_retry
    new_client_with_retry-value k fuel c le lt fails reached =
        let within = millisecond-Fits ms N ms_pos fits in
        rw (scale-millisecond ms N within) (
          retry-finished (new_client_attempt answer) is_sleep waiting (λ d. refl) (ms * millisecond)
            (300_000 * millisecond) N within fuel (new_client ∷ []) c (FailsBefore-AgainTo k fails)
            le lt (rw (new_client_attempt, reached) refl) refl)

    -- The creation of a client with `N` attempts from a scale of `ms` milliseconds, when the
    -- largest delay fits an int64: if the attempts from 0 to `N` all fail, it ends with the error
    -- on the attempts after `N` sleeps.
    pub new_client_with_retry-error :
        (fuel : ℕ)
        → N < fuel
        → FailsBefore (suc N)
        → EndsAfter is_sleep N
            (error max_attempts_exceeded)
            (new_client_with_retry answer fuel (pos N) (pos ms))
    unfolding new_client_with_retry
    new_client_with_retry-error fuel lt fails =
        let within = millisecond-Fits ms N ms_pos fits in
        rw (scale-millisecond ms N within) (
          retry-exhausted (new_client_attempt answer) is_sleep waiting (λ d. refl)
            (ms * millisecond) (300_000 * millisecond) N within fuel
            (FailsBefore-AgainTo (suc N) fails) lt)

  -- the first of `n` attempts that reaches the cluster, if there is one
  first_reached :
      (n : ℕ)
      → ((k : ℕ) × (k < n) × FailsBefore k × (c : Client) × (answer k ≡ value c)) ⊎ FailsBefore n
  first_reached zero = inr (λ j h. absurd (omega arith))
  first_reached (suc n) = elim (first_reached n) [
    | inl (k, l, before, c, reached) ↦ inl (k, omega arith, before, c, reached)
    | inr all ↦ elim (Result-cases (answer n)) [
      | inr (c, reached) ↦ inl (n, omega arith, all, c, reached)
      | inl (e, failed) ↦ inr (λ j h. elim (dec_lt j n) [
        | yes l ↦ all j l
        | no l ↦ let same : j ≡ n = omega arith in (e, rw same failed)
      ])
    ]
  ]

  -- It ends, whatever the cluster answers: with an error only if all attempts fail.
  pub new_client_with_retry_ends :
      (ms N fuel : ℕ)
      → 0 < ms
      → ms * millisecond * 2 ^ N < 2 ^ 63
      → N < fuel
      → (end : Result BackoffError Client) × ((new_client_with_retry answer fuel (pos N) (pos ms)).1
          ≡ ok end)
        × ((e : BackoffError) → end ≡ error e → FailsBefore (suc N))
  new_client_with_retry_ends ms N fuel ms_pos fits more = elim (first_reached (suc N)) [
    | inl (k, l, before, c, reached) ↦ (
      value c,
      (new_client_with_retry-value ms N ms_pos fits k fuel c (omega arith) (omega arith) before
          reached).ends,
      λ e h. absurd (cc h),
    )
    | inr fails ↦ (
      error max_attempts_exceeded,
      (new_client_with_retry-error ms N ms_pos fits fuel more fails).ends,
      λ e h. fails,
    )
  ]
