-- ===== src/Topic/Gives.antt =====
-- Runs of the topic service that end with a value: what they give, and which changes they ask the cluster for.
use strimzi_canary.Common.{
  ◌≡◌, refl, sym, ap, Bool, true, false, List, [], ◌∷◌, ◌++◌, if◌then◌else◌, Outcome, ok, crash,
}
use mathlib.Core.Path.{subst}
use strimzi_canary.Topic.Types.{
  Errors, Event, create_topic, alter_config, alter_partition_reassignments, create_partitions, Run,
  done, failed, crashed, after, bind, lift,
}

-- the requests that change the topic
abbrev pub changes : List Event → List Event
changes [] = []
changes (create_topic name assignments entries ∷ es) =
    create_topic name assignments entries ∷ changes es
changes (alter_config name entries ∷ es) = alter_config name entries ∷ changes es
changes (alter_partition_reassignments name assignments ∷ es) =
    alter_partition_reassignments name assignments ∷ changes es
changes (create_partitions name count assignments ∷ es) =
    create_partitions name count assignments ∷ changes es
changes (e ∷ es) = changes es

pub changes-append : (xs ys : List Event) → changes (xs ++ ys) ≡ changes xs ++ changes ys
changes-append [] ys = refl
changes-append (create_topic name assignments entries ∷ xs) ys =
    ap (λ (l : List Event). create_topic name assignments entries ∷ l) (changes-append xs ys)
changes-append (alter_config name entries ∷ xs) ys =
    ap (λ (l : List Event). alter_config name entries ∷ l) (changes-append xs ys)
changes-append (alter_partition_reassignments name assignments ∷ xs) ys =
    ap (λ (l : List Event). alter_partition_reassignments name assignments ∷ l)
      (changes-append xs ys)
changes-append (create_partitions name count assignments ∷ xs) ys =
    ap (λ (l : List Event). create_partitions name count assignments ∷ l) (changes-append xs ys)
changes-append (e ∷ xs) ys = changes-append xs ys

module _ {ℓ} {er : Errors} {A : Type ℓ} where
  abbrev pub GivesIn : (List Event → A → Type 0) → Run er A → Type 0
  GivesIn Q (done t a) = Q (changes t) a
  GivesIn Q (failed t f) = Unit {0}
  GivesIn Q (crashed t c) = Unit {0}

-- What holds of the changes that are asked for and of the value, if there is one.
pub record Gives {ℓ} {er : Errors} {A : Type ℓ} (Q : List Event → A → Type 0) (m : Run er A)
    : Type 0 where
  pub gives : GivesIn Q m

-- what asks for no changes
abbrev pub Quietly {ℓ} : {A : Type ℓ} → (A → Type 0) → List Event → A → Type 0
Quietly P c a = (c ≡ []) × P a

module _ {ℓ} {er : Errors} {A : Type ℓ} where
  pub after-Gives :
      (Q : List Event → A → Type 0) (t : List Event) (m : Run er A)
      → Gives (λ c a. Q (changes t ++ c) a) m
      → Gives Q (after er t m)
  after-Gives Q t (done u a) h = record {
    gives = subst (λ (c : List Event). Q c a) (sym (changes-append t u)) h.gives;
  }
  after-Gives Q t (failed u f) h = record { gives = tt }
  after-Gives Q t (crashed u c) h = record { gives = tt }

  pub if-Gives :
      (Q : List Event → A → Type 0) (b : Bool) (x y : Run er A)
      → (b ≡ true → Gives Q x)
      → (b ≡ false → Gives Q y)
      → Gives Q (if b then x else y)
  if-Gives Q true x y h k = h refl
  if-Gives Q false x y h k = k refl

  pub map-Gives :
      (P Q : List Event → A → Type 0) (m : Run er A)
      → ((c : List Event) (a : A) → P c a → Q c a)
      → Gives P m
      → Gives Q m
  map-Gives P Q (done t a) k h = record { gives = k (changes t) a h.gives }
  map-Gives P Q (failed t f) k h = record { gives = tt }
  map-Gives P Q (crashed t c) k h = record { gives = tt }

  pub lift-Gives :
      (m : Outcome A) (P : A → Type 0) → ((a : A) → m ≡ ok a → P a) → Gives (Quietly P) (lift er m)
  lift-Gives (ok a) P h = record { gives = (refl, h a refl) }
  lift-Gives (crash c) P h = record { gives = tt }

module _ {ℓ κ} {er : Errors} {A : Type ℓ} {B : Type κ} where
  pub bind-Gives :
      (P : List Event → A → Type 0) (Q : List Event → B → Type 0) (m : Run er A) (f : A → Run er B)
      → Gives P m
      → ((c : List Event) (a : A) → P c a → Gives (λ d b. Q (c ++ d) b) (f a))
      → Gives Q (bind er m f)
  bind-Gives P Q (done t a) f h k = after-Gives Q t (f a) (k (changes t) a h.gives)
  bind-Gives P Q (failed t e) f h k = record { gives = tt }
  bind-Gives P Q (crashed t c) f h k = record { gives = tt }

  pub quiet-Gives :
      (P : A → Type 0) (Q : List Event → B → Type 0) (m : Run er A) (f : A → Run er B)
      → Gives (Quietly P) m
      → ((a : A) → P a → Gives Q (f a))
      → Gives Q (bind er m f)
  quiet-Gives P Q m f h k = bind-Gives (Quietly P) Q m f h λ c a (none_asked, held).
      subst (λ (x : List Event). Gives (λ d b. Q (x ++ d) b) (f a)) (sym none_asked) (k a held)
