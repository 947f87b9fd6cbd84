-- ===== src/Common/Trace.antt =====
-- A piece of the program: what it does to the world, in order, and its value or its crash.
use mathlib.Core.List.{List, [], ◌∷◌, ◌++◌, map}
use strimzi_canary.Common.Go.{Outcome, ok, crash}

abbrev pub Traced : Type 0 → Type 0 → Type 0
Traced Ev A = List Ev × Outcome A

module _ {Ev : Type 0} where
  abbrev pub after_events : {A : Type 0} → List Ev → Traced Ev A → Traced Ev A
  after_events t (u, end) = (t ++ u, end)

  infixl 5 ◌>>=◌ ◌>>◌
  abbrev pub ◌>>=◌ : {A B : Type 0} → Traced Ev A → (A → Traced Ev B) → Traced Ev B
  (t, ok a) >>= f = after_events t (f a)
  (t, crash c) >>= f = (t, crash c)

  abbrev pub ◌>>◌ : {B : Type 0} → Traced Ev (Unit {0}) → Traced Ev B → Traced Ev B
  m >> k = m >>= λ _. k

  -- What does nothing to the world, and what does one thing.
  abbrev pub lift : {A : Type 0} → Outcome A → Traced Ev A
  lift end = ([], end)

  abbrev pub tell : Ev → Traced Ev (Unit {0})
  tell e = (e ∷ [], ok tt)

-- a service's events, wrapped
abbrev pub of_service : {Of Ev A : Type 0} → (Of → Ev) → Traced Of A → Traced Ev A
of_service f (t, end) = (map f t, end)
