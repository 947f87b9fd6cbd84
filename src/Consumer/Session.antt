-- ===== src/Consumer/Session.antt =====
-- The goroutines that Consume starts, with the handler's Setup: which sessions of the group they go through, and the
-- channel that says that the group is ready, which all of them share. Each attempt of Consume starts a
-- goroutine, with a context of its own, and one that was started before may still be in its Consume. Sarama
-- decides when a session starts and how it ends.
use strimzi_canary.Common.{
  ◌≡◌, ◌≢◌, refl, Bool, Bool-cases, inl, inr, true, false, if◌then◌else◌, List, [], ◌∷◌, ◌++◌, All,
}
use mathlib.Core.Path.{subst}

-- In Consume before Setup, in Consume after it, and out of the loop.
pub data Phase : Type 0 where
  joining claiming left : Phase

pub record Goroutine : Type 0 where
  pub phase : Phase
  pub cancelled : Bool

abbrev pub new_goroutine : Goroutine
new_goroutine = record { phase = joining; cancelled = false }

-- The goroutines, the last one started first; `panicked` is whether one of them has ended the program.
pub record Session : Type 0 where
  pub goroutines : List Goroutine
  pub ready_closed : Bool
  pub panicked : Bool

abbrev pub first_session : Session
first_session = record { goroutines = new_goroutine ∷ []; ready_closed = false; panicked = false }

-- the session in which `g`, between those started after it and those before, is in another phase
abbrev pub at_phase : List Goroutine → Goroutine → List Goroutine → Phase → Session → Session
at_phase newer g older p s = record s { goroutines = newer ++ record g { phase = p } ∷ older }

-- Setup closes the channel, and a channel that is closed already panics.
unfoldable pub setup : List Goroutine → Goroutine → List Goroutine → Session → Session
setup newer g older s =
    if s.ready_closed
    then record s { panicked = true }
    else record (at_phase newer g older claiming s) { ready_closed = true }

-- Consume has returned, with an error or without: only without one is there a new channel.
unfoldable pub consumed : Bool → List Goroutine → Goroutine → List Goroutine → Session → Session
consumed fails newer g older s =
    if fails
    then at_phase newer g older joining s
    else if g.cancelled
    then at_phase newer g older left s
    else record (at_phase newer g older joining s) { ready_closed = false }

-- The step of one goroutine, the cancelling of the last context, when a wait times out or the service is closed or
-- refreshed, and the next attempt of Consume after it.
pub data SessionStep (s : Session) : Session → Type 0 where
  joins :
      (newer : List Goroutine) (g : Goroutine) (older : List Goroutine)
      → s.panicked ≡ false
      → s.goroutines ≡ newer ++ g ∷ older
      → g.phase ≡ joining
      → SessionStep s (setup newer g older s)
  returns :
      (fails : Bool) (newer : List Goroutine) (g : Goroutine) (older : List Goroutine)
      → s.panicked ≡ false
      → s.goroutines ≡ newer ++ g ∷ older
      → g.phase ≢ left
      → SessionStep s (consumed fails newer g older s)
  cancels :
      (g : Goroutine) (older : List Goroutine)
      → s.panicked ≡ false
      → s.goroutines ≡ g ∷ older
      → SessionStep s (record s { goroutines = record g { cancelled = true } ∷ older })
  retries :
      (g : Goroutine) (older : List Goroutine)
      → s.panicked ≡ false
      → s.goroutines ≡ g ∷ older
      → g.cancelled ≡ true
      → SessionStep s (record s { goroutines = new_goroutine ∷ g ∷ older })

pub data Reach (s : Session) : Session → Type 0 where
  here : Reach s s
  next : {t u : Session} → Reach s t → SessionStep t u → Reach s u

abbrev IsCancelled : Goroutine → Type 0
IsCancelled g = g.cancelled ≡ true

-- The last goroutine is past its Setup only while the channel is closed, and all before it are cancelled.
abbrev pub Shares : List Goroutine → Bool → Type 0
Shares [] closed = Unit {0}
Shares (g ∷ older) closed = (g.phase ≡ claiming → closed ≡ true) × All IsCancelled older

off_before :
    (newer : List Goroutine) (g : Goroutine) (older : List Goroutine)
    → All IsCancelled (newer ++ g ∷ older)
    → g.cancelled ≡ true
off_before [] g older (h, hs) = h
off_before (n ∷ newer) g older (h, hs) = off_before newer g older hs

others_off :
    (newer : List Goroutine) (g : Goroutine) (older : List Goroutine) (p : Phase)
    → All IsCancelled (newer ++ g ∷ older)
    → All IsCancelled (newer ++ record g { phase = p } ∷ older)
others_off [] g older p (h, hs) = (h, hs)
others_off (n ∷ newer) g older p (h, hs) = (h, others_off newer g older p hs)

-- A goroutine that goes to a phase, with the channel closed, or not claiming with the channel as it was.
closing-Shares :
    (newer : List Goroutine) (g : Goroutine) (older : List Goroutine) (p : Phase) (closed : Bool)
    → Shares (newer ++ g ∷ older) closed
    → Shares (newer ++ record g { phase = p } ∷ older) true
closing-Shares [] g older p closed (h, hs) = (λ e. refl, hs)
closing-Shares (n ∷ newer) g older p closed (h, hs) = (λ e. refl, others_off newer g older p hs)

leaving-Shares :
    (newer : List Goroutine) (g : Goroutine) (older : List Goroutine) (p : Phase) (closed : Bool)
    → p ≢ claiming
    → Shares (newer ++ g ∷ older) closed
    → Shares (newer ++ record g { phase = p } ∷ older) closed
leaving-Shares [] g older p closed other (h, hs) = (λ e. absurd (other e), hs)
leaving-Shares (n ∷ newer) g older p closed other (h, hs) = (h, others_off newer g older p hs)

-- A new channel is of the last goroutine: those before it are cancelled.
opening-Shares :
    (newer : List Goroutine) (g : Goroutine) (older : List Goroutine) (closed : Bool)
    → g.cancelled ≡ false
    → Shares (newer ++ g ∷ older) closed
    → Shares (newer ++ record g { phase = joining } ∷ older) false
opening-Shares [] g older closed live (h, hs) = (λ e. absurd (cc e), hs)
opening-Shares (n ∷ newer) g older closed live (h, hs) =
    absurd (cc (live, off_before newer g older hs))

abbrev Sound : Session → Type 0
Sound s = Shares s.goroutines s.ready_closed

-- what follows a Consume with no error, by its context
by_context :
    (newer : List Goroutine) (g : Goroutine) (older : List Goroutine) (s : Session) (off : Bool)
    → g.cancelled ≡ off
    → Shares (newer ++ g ∷ older) s.ready_closed
    → Sound (
        if off
        then at_phase newer g older left s
        else record (at_phase newer g older joining s) { ready_closed = false })
by_context newer g older s true e h = leaving-Shares newer g older left s.ready_closed (cc) h
by_context newer g older s false e h = opening-Shares newer g older s.ready_closed e h

SessionStep-Sound : {s t : Session} → SessionStep s t → Sound s → Sound t
unfolding setup consumed
SessionStep-Sound {s} (joins newer g older runs at e) h =
    let shares = subst (λ l. Shares l s.ready_closed) at h in
    elim (Bool-cases s.ready_closed) [
      | inl closed ↦ rw closed (subst (λ b. Shares s.goroutines b) closed h)
      | inr fresh ↦ rw fresh (closing-Shares newer g older claiming s.ready_closed shares)
    ]
SessionStep-Sound {s} (returns true newer g older runs at e) h =
    leaving-Shares newer g older joining s.ready_closed (cc)
      (subst (λ l. Shares l s.ready_closed) at h)
SessionStep-Sound {s} (returns false newer g older runs at e) h =
    let shares = subst (λ l. Shares l s.ready_closed) at h in
    by_context newer g older s g.cancelled refl shares
SessionStep-Sound {s} (cancels g older runs at) h = subst (λ l. Shares l s.ready_closed) at h
SessionStep-Sound {s} (retries g older runs at off) h =
    let (claims, others) = subst (λ l. Shares l s.ready_closed) at h in
    (λ e. absurd (cc e), (off, others))

-- Whatever attempts there are, and however the sessions end: while the last goroutine is past its Setup, the channel
-- is closed.
pub Reach-Sound : (s : Session) → Reach first_session s → Sound s
Reach-Sound s here = (λ e. absurd (cc e), tt)
Reach-Sound s (next r st) = SessionStep-Sound st (Reach-Sound _ r)

abbrev pub failed : Goroutine → Goroutine
failed g = record g { phase = joining }

-- If Consume fails after a Setup, the next Setup panics: from every session that Consume comes to, whatever attempts
-- there were before, whose last goroutine is past its Setup, a panic can be reached in two steps.
pub Reach-panicked :
    (s : Session) (g : Goroutine) (older : List Goroutine)
    → Reach first_session s
    → s.panicked ≡ false
    → s.goroutines ≡ g ∷ older
    → g.phase ≡ claiming
    → (t : Session) × (t ≡ consumed true [] g older s)
      × SessionStep s t
      × SessionStep t (setup [] (failed g) older t)
      × ((setup [] (failed g) older t).panicked ≡ true)
unfolding consumed setup
Reach-panicked s g older r runs at e =
    let (claims, others) = subst (λ l. Shares l s.ready_closed) at (Reach-Sound s r) in
    let closed = claims e in
    (
      consumed true [] g older s,
      refl,
      returns true [] g older runs at (λ l. cc (l, e)),
      joins [] (failed g) older runs refl refl,
      rw closed refl,
    )

-- With no error of Consume at all, a goroutine whose attempt has timed out can still go through its Setup, and then
-- that of the next attempt panics.
pub Reach-panicked_late : (s : Session) × Reach first_session s × (s.panicked ≡ true)
unfolding setup
Reach-panicked_late =
    let late = record new_goroutine { cancelled = true } in
    (
      _,
      next
          (next
            (next (next here (cancels new_goroutine [] refl refl)) (retries late [] refl refl refl))
            (joins (new_goroutine ∷ []) late [] refl refl refl))
          (joins [] new_goroutine (record late { phase = claiming } ∷ []) refl refl refl),
      refl,
    )
