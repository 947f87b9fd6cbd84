-- ===== src/Common/Int.antt =====
-- Signed integers over the native numbers.
use Prim.Native.Nat.{ℕ, zero, suc, ◌+◌, ◌-◌, ◌*◌, ◌/◌, ◌%◌, ◌^◌, ◌≤◌}
use mathlib.Core.Bool.{Bool}
use mathlib.Core.List.{List}
use strimzi_canary.Common.Go.{
  Outcome, ok, crash, divide_by_zero, index_out_of_range, make_out_of_range, index, assign,
}
use strimzi_canary.Common.Tests.{ltb, ◌==◌, if◌then◌else◌}

-- `negsuc n` is -(n + 1).
pub data ℤ : Type 0 where
  pos : ℕ → ℤ
  negsuc : ℕ → ℤ

abbrev pub pos_part : ℤ → ℕ
pos_part (pos n) = n
pos_part (negsuc n) = 0

abbrev pub neg_part : ℤ → ℕ
neg_part (pos n) = 0
neg_part (negsuc n) = suc n

abbrev pub eqb_ℤ : ℤ → ℤ → Bool
eqb_ℤ a b = pos_part a + neg_part b == pos_part b + neg_part a

abbrev pub ltb_ℤ : ℤ → ℤ → Bool
ltb_ℤ a b = ltb (pos_part a + neg_part b) (pos_part b + neg_part a)

abbrev pub ◌≤ℤ◌ : ℤ → ℤ → Type 0
◌≤ℤ◌ a b = pos_part a + neg_part b ≤ pos_part b + neg_part a

-- int64 values: `to_word` is the bit pattern of one, `signed64` the value of a pattern.
abbrev pub to_word : ℤ → ℕ
to_word (pos n) = n % 2 ^ 64
to_word (negsuc n) = 2 ^ 64 - 1 - n % 2 ^ 64

abbrev pub signed64 : ℕ → ℤ
signed64 w = if ltb w (2 ^ 63) then pos w else negsuc (2 ^ 64 - w - 1)

-- `a << n` and `a * b` on int64, which wrap.
abbrev pub shl64 : ℤ → ℕ → ℤ
shl64 a n = signed64 (to_word a * 2 ^ n % 2 ^ 64)

abbrev pub mul64 : ℤ → ℤ → ℤ
mul64 a b = signed64 (to_word a * to_word b % 2 ^ 64)

-- `a + 1` on int64, and `-a`.
abbrev pub inc64 : ℤ → ℤ
inc64 a = signed64 ((to_word a + 1) % 2 ^ 64)

abbrev pub neg64 : ℤ → ℤ
neg64 a = signed64 ((2 ^ 64 - to_word a) % 2 ^ 64)

-- `a / b` and `a % n` round towards zero, and panic at a zero divisor. A remainder has the sign of `a`.
abbrev pub quot64 : ℤ → ℤ → Outcome ℤ
quot64 a (pos zero) = crash divide_by_zero
quot64 (pos a) (pos (suc b)) = ok (pos (a / suc b))
quot64 (pos a) (negsuc b) = ok (neg64 (pos (a / suc b)))
quot64 (negsuc a) (pos (suc b)) = ok (neg64 (pos (suc a / suc b)))
quot64 (negsuc a) (negsuc b) = ok (signed64 (suc a / suc b % 2 ^ 64))

abbrev pub rem64 : ℤ → ℕ → Outcome ℤ
rem64 a zero = crash divide_by_zero
rem64 (pos a) (suc n) = ok (pos (a % suc n))
rem64 (negsuc a) (suc n) = ok (neg64 (pos (suc a % suc n)))

-- Reads and writes of a slice at an int, and `make([]T, n)` as the length that it gives.
abbrev pub index64 {ℓ} : {A : Type ℓ} → List A → ℤ → Outcome A
index64 xs (pos i) = index xs i
index64 xs (negsuc i) = crash index_out_of_range

abbrev pub assign64 {ℓ} : {A : Type ℓ} → List A → ℤ → A → Outcome (List A)
assign64 xs (pos i) v = assign xs i v
assign64 xs (negsuc i) v = crash index_out_of_range

abbrev pub make64 : ℤ → Outcome ℕ
make64 (pos n) = ok n
make64 (negsuc n) = crash make_out_of_range

-- `a - b` on int64, which wraps.
abbrev pub sub64 : ℤ → ℤ → ℤ
sub64 a b = signed64 ((to_word a + (2 ^ 64 - to_word b)) % 2 ^ 64)
