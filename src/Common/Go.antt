-- ===== src/Common/Go.antt =====
-- What running Go code comes to: a value, a run-time panic, or an exit through glog.Fatalf. `no_fuel`
-- marks a loop of the model that runs out of its bound; the theorems show that none does.
use Prim.Native.Nat.{ℕ, ◌%◌, ◌<◌}
use mathlib.Core.Path.{◌≡◌, refl, subst}
use mathlib.Core.Logic.{◌⊎◌, inl, inr}
use mathlib.Core.Option.{Option, none, some}
use mathlib.Core.List.{List, [], ◌∷◌, ◌++◌}
use strimzi_canary.Common.Tests.{ltb, lt→ltb, ◌==◌, if◌then◌else◌}
use strimzi_canary.Common.Lists.{length, get_elem?, set}

pub data Crash : Type 0 where
  divide_by_zero index_out_of_range make_out_of_range nil_dereference close_of_closed_channel :
      Crash
  panicked fatal no_fuel : Crash

pub data Outcome {ℓ} (A : Type ℓ) : Type ℓ where
  ok : A → Outcome A
  crash : Crash → Outcome A

-- A Go function that returns a value or an error.
pub data Result {ℓ} (E : Type 0) (A : Type ℓ) : Type ℓ where
  value : A → Result E A
  error : E → Result E A

infixl 5 ◌>>=◌ ◌>>◌
abbrev pub ◌>>=◌ {ℓ κ} : {A : Type ℓ} {B : Type κ} → Outcome A → (A → Outcome B) → Outcome B
ok a >>= f = f a
crash c >>= f = crash c

abbrev pub ◌>>◌ {ℓ} : {B : Type ℓ} → Outcome (Unit {0}) → Outcome B → Outcome B
m >> k = m >>= λ _. k

-- `a % b` of non-negative operands, which panics at zero.
abbrev pub rem : ℕ → ℕ → Outcome ℕ
rem a b = if b == 0 then crash divide_by_zero else ok (a % b)

-- `xs[i]` and `xs[i] = v` at a non-negative index.
abbrev pub found {ℓ} : {A : Type ℓ} → Option A → Outcome A
found none = crash index_out_of_range
found (some a) = ok a

abbrev pub index {ℓ} : {A : Type ℓ} → List A → ℕ → Outcome A
index xs i = found (get_elem? xs i)

abbrev pub assign {ℓ} : {A : Type ℓ} → List A → ℕ → A → Outcome (List A)
assign xs i v = if ltb i (length xs) then ok (set xs i v) else crash index_out_of_range

-- A write just past a front part replaces the entry there.
pub set-append {ℓ} :
    {A : Type ℓ} (xs : List A) (y v : A) (ys : List A)
    → set (xs ++ y ∷ ys) (length xs) v ≡ xs ++ v ∷ ys
set-append [] y v ys = refl
set-append (x ∷ xs) y v ys = λ i. x ∷ set-append xs y v ys i

-- A write in bounds does not panic.
pub assign_in_bounds {ℓ} :
    {A : Type ℓ} (xs : List A) (i : ℕ) (v : A) → i < length xs → assign xs i v ≡ ok (set xs i v)
assign_in_bounds xs i v h = rw (lt→ltb i (length xs) h)

pub Result-cases {ℓ} :
    {E : Type 0} {A : Type ℓ} (r : Result E A)
    → ((e : E) × (r ≡ error e)) ⊎ ((a : A) × (r ≡ value a))
Result-cases (error e) = inl (e, refl)
Result-cases (value a) = inr (a, refl)

-- what holds of the value, if there is one
abbrev pub HoldsIn {ℓ κ} : {A : Type ℓ} → (A → Type κ) → Outcome A → Type κ
HoldsIn P (ok a) = P a
HoldsIn P (crash c) = Unit

pub record Ensures {ℓ κ} {A : Type ℓ} (P : A → Type κ) (m : Outcome A) : Type κ where
  pub holds : HoldsIn P m

pub >>=-Ensures {ℓ μ κ} :
    {A : Type ℓ} {B : Type μ} (P : B → Type κ) (m : Outcome A) (f : A → Outcome B)
    → ((a : A) → m ≡ ok a → Ensures P (f a))
    → Ensures P (m >>= f)
>>=-Ensures P (ok a) f h = record { holds = (h a refl).holds }
>>=-Ensures P (crash c) f h = record { holds = tt }

pub Ensures-ok {ℓ κ} :
    {A : Type ℓ} (P : A → Type κ) (m : Outcome A) → Ensures P m → (a : A) → m ≡ ok a → P a
Ensures-ok P (ok b) h a e = subst P (cc e) h.holds
Ensures-ok P (crash c) h a e = absurd (cc e)
