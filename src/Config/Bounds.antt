-- ===== src/Config/Bounds.antt =====
-- The integers that are read from text: their range, and their value.
use Prim.Native.Char.{code}
use Prim.Native.String.{String}
use strimzi_canary.Common.{
  ℕ, ◌+◌, ◌-◌, ◌*◌, ◌^◌, ◌≤◌, ◌<◌, ◌≡◌, ◌≢◌, refl, sym, ap, ◌∙◌, min, Bool, true, false,
  if◌then◌else◌, ltb, ◌==◌, arith,
}
use strimzi_canary.Common.Int.{ℤ, pos, negsuc}
use strimzi_canary.Config.Numbers.{
  ParsedUint, parsed, syntax_error, range_error, is_digit, parse_digits, parse_uint, positive,
  negative, negate, atoi,
}

abbrev pub IsInt64 : ℤ → Type 0
IsInt64 (pos n) = n < 2 ^ 63
IsInt64 (negsuc n) = n < 2 ^ 63

negate-IsInt64 : (n : ℕ) → n ≤ 2 ^ 63 → IsInt64 (negate n)
negate-IsInt64 n h = ground arith

positive-IsInt64 : (r : ParsedUint) → IsInt64 (positive r)
positive-IsInt64 (parsed n) = ground arith
positive-IsInt64 syntax_error = omega arith
positive-IsInt64 range_error = omega arith

negative-IsInt64 : (r : ParsedUint) → IsInt64 (negative r)
negative-IsInt64 (parsed n) = ground arith
negative-IsInt64 syntax_error = omega arith
negative-IsInt64 range_error = omega arith

if-IsInt64 : (b : Bool) (x y : ℤ) → IsInt64 x → IsInt64 y → IsInt64 (if b then x else y)
if-IsInt64 true x y h k = h
if-IsInt64 false x y h k = k

-- Whatever the text, the integer read from it is an int64.
pub atoi-IsInt64 : (s : String) → IsInt64 (atoi s)
unfolding atoi
atoi-IsInt64 String.[] = omega arith
atoi-IsInt64 (String.◌∷◌ c s) = if-IsInt64 (code c == b'-') _ _ (negative-IsInt64 (parse_uint s)) (
    if-IsInt64 (code c == b'+') _ _ (positive-IsInt64 (parse_uint s))
      (positive-IsInt64 (parse_uint (String.◌∷◌ c s))))

abbrev pub AreDigits : String → Type 0
AreDigits String.[] = Unit {0}
AreDigits (String.◌∷◌ c s) = (is_digit (code c) ≡ true) × AreDigits s

-- the number that the digits spell behind `n`
abbrev pub spelled : ℕ → String → ℕ
spelled n String.[] = n
spelled n (String.◌∷◌ c s) = spelled (n * 10 + (code c - b'0')) s

le-spelled : (n : ℕ) (s : String) → n ≤ spelled n s
le-spelled n String.[] = omega arith
le-spelled n (String.◌∷◌ c s) = omega (arith, le-spelled (n * 10 + (code c - b'0')) s)

parse_digits-spelled :
    (n : ℕ) (s : String)
    → n < 2 ^ 64
    → AreDigits s
    → parse_digits n s ≡ (if ltb (spelled n s) (2 ^ 64) then parsed (spelled n s) else range_error)
unfolding parse_digits
parse_digits-spelled n String.[] h d = ground arith
parse_digits-spelled n (String.◌∷◌ c s) h (d, ds) =
    let next = n * 10 + (code c - b'0') in
    ground (arith, parse_digits-spelled next s, le-spelled next s)

parse_uint-spelled :
    (s : String)
    → s ≢ ""
    → AreDigits s
    → parse_uint s ≡ (if ltb (spelled 0 s) (2 ^ 64) then parsed (spelled 0 s) else range_error)
unfolding parse_uint
parse_uint-spelled String.[] h d = absurd (h refl)
parse_uint-spelled (String.◌∷◌ c s) h d = parse_digits-spelled 0 (String.◌∷◌ c s) (omega arith) d

positive-min :
    (n : ℕ) → positive (if ltb n (2 ^ 64) then parsed n else range_error) ≡ pos (min n (2 ^ 63 - 1))
positive-min n = ground arith

negative-min :
    (n : ℕ) → negative (if ltb n (2 ^ 64) then parsed n else range_error) ≡ negate (min n (2 ^ 63))
negative-min n = ground arith

-- no digit is a sign
unsigned : (s : String) → s ≢ "" → AreDigits s → atoi s ≡ positive (parse_uint s)
unfolding atoi
unsigned String.[] h d = absurd (h refl)
unsigned (String.◌∷◌ c s) h (d, ds) = ground arith

-- Digits are read as the number that they spell, or the largest int64 if that is less; behind a minus
-- sign as its negation, or the least int64 if that is more; and behind a plus sign as with none.
pub atoi-spelled :
    (s : String)
    → s ≢ ""
    → AreDigits s
    → (atoi s ≡ pos (min (spelled 0 s) (2 ^ 63 - 1)))
      × (atoi (String.◌∷◌ "-" s) ≡ negate (min (spelled 0 s) (2 ^ 63)))
      × (atoi (String.◌∷◌ "+" s) ≡ atoi s)
unfolding atoi
atoi-spelled s h d =
    let parses = parse_uint-spelled s h d in
    (
      unsigned s h d ∙ ap positive parses ∙ positive-min (spelled 0 s),
      ap negative parses ∙ negative-min (spelled 0 s),
      sym (unsigned s h d),
    )
