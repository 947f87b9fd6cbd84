-- ===== src/Topic/Runs.antt =====
-- Runs of the topic service: which events they have, and that they do not crash.
use strimzi_canary.Common.{◌≡◌, Bool, true, false, List, if◌then◌else◌, count, count-append, arith}
use strimzi_canary.Topic.Types.{Errors, Event, Run, done, failed, crashed, after, bind}

module _ {ℓ} {er : Errors} {A : Type ℓ} where
  abbrev pub events : Run er A → List Event
  events (done t a) = t
  events (failed t f) = t
  events (crashed t c) = t

  abbrev pub EndsIn : (A → Type 0) → Bool → Run er A → Type 0
  EndsIn Q i (done t a) = Q a
  EndsIn Q i (failed t f) = f.service.initialized ≡ i
  EndsIn Q i (crashed t c) = ⊥

-- No event of the run passes the test.
pub record IsQuiet {ℓ} {er : Errors} {A : Type ℓ} (p : Event → Bool) (m : Run er A) : Type 0 where
  pub silent : count p (events m) ≡ 0

-- The run ends with a value of the kind, or with an error that leaves the mark of the first reconcile
-- at `i`.
pub record Ends {ℓ} {er : Errors} {A : Type ℓ} (Q : A → Type 0) (i : Bool) (m : Run er A)
    : Type 0 where
  pub ends : EndsIn Q i m

module _ {ℓ} {er : Errors} {A : Type ℓ} where
  pub after-Ends :
      (Q : A → Type 0) (i : Bool) (t : List Event) (m : Run er A)
      → Ends Q i m
      → Ends Q i (after er t m)
  after-Ends Q i t (done u a) h = record { ends = h.ends }
  after-Ends Q i t (failed u f) h = record { ends = h.ends }
  after-Ends Q i t (crashed u c) h = record { ends = h.ends }

  pub after-IsQuiet :
      (p : Event → Bool) (t : List Event) (m : Run er A)
      → count p t ≡ 0
      → IsQuiet p m
      → IsQuiet p (after er t m)
  after-IsQuiet p t (done u a) h k = record { silent = omega (arith, k.silent, count-append p t u) }
  after-IsQuiet p t (failed u f) h k = record {
    silent = omega (arith, k.silent, count-append p t u);
  }
  after-IsQuiet p t (crashed u c) h k = record {
    silent = omega (arith, k.silent, count-append p t u);
  }

  pub if-Ends :
      (Q : A → Type 0) (i : Bool) (b : Bool) (x y : Run er A)
      → Ends Q i x
      → Ends Q i y
      → Ends Q i (if b then x else y)
  if-Ends Q i true x y h k = h
  if-Ends Q i false x y h k = k

  pub if-IsQuiet :
      (p : Event → Bool) (b : Bool) (x y : Run er A)
      → IsQuiet p x
      → IsQuiet p y
      → IsQuiet p (if b then x else y)
  if-IsQuiet p true x y h k = h
  if-IsQuiet p false x y h k = k

module _ {ℓ κ} {er : Errors} {A : Type ℓ} {B : Type κ} where
  pub bind-Ends :
      (P : A → Type 0) (Q : B → Type 0) (i : Bool) (m : Run er A) (f : A → Run er B)
      → Ends P i m
      → ((a : A) → P a → Ends Q i (f a))
      → Ends Q i (bind er m f)
  bind-Ends P Q i (done t a) f h k = after-Ends Q i t (f a) (k a h.ends)
  bind-Ends P Q i (failed t e) f h k = record { ends = h.ends }
  bind-Ends P Q i (crashed t c) f h k = record { ends = h.ends }

  pub bind-IsQuiet :
      (p : Event → Bool) (m : Run er A) (f : A → Run er B)
      → IsQuiet p m
      → ((a : A) → IsQuiet p (f a))
      → IsQuiet p (bind er m f)
  bind-IsQuiet p (done t a) f h k = after-IsQuiet p t (f a) h.silent (k a)
  bind-IsQuiet p (failed t e) f h k = record { silent = h.silent }
  bind-IsQuiet p (crashed t c) f h k = record { silent = h.silent }
