-- ===== src/Config/Numbers.antt =====
-- internal/config/canary_config.go: numbers and Booleans from text, as package strconv reads them. An
-- error is ignored, and the value that comes with it is used.
use Prim.Native.Char.{code}
use Prim.Native.String.{String}
use strimzi_canary.Common.{
  ℕ, ◌+◌, ◌-◌, ◌*◌, ◌^◌, Bool, true, false, ◌&&◌, List, [], ◌∷◌, if◌then◌else◌, ltb, leb, ◌==◌,
}
use strimzi_canary.Common.Maps.{str_eq}
use strimzi_canary.Common.Int.{ℤ, pos, negsuc}

-- ParseUint in base 10 with 64 bits. Digits that do not fit end it, whatever follows them.
pub data ParsedUint : Type 0 where
  parsed : ℕ → ParsedUint
  syntax_error range_error : ParsedUint

abbrev pub is_digit : ℕ → Bool
is_digit c = leb b'0' c && leb c b'9'

unfoldable pub parse_digits : ℕ → String → ParsedUint
parse_digits n String.[] = parsed n
parse_digits n (String.◌∷◌ c s) =
    let next = n * 10 + (code c - b'0') in
    let rest = parse_digits next s in
    if is_digit (code c) then (if ltb next (2 ^ 64) then rest else range_error) else syntax_error

unfoldable pub parse_uint : String → ParsedUint
unfolding parse_digits
parse_uint String.[] = syntax_error
parse_uint (String.◌∷◌ c s) = parse_digits 0 (String.◌∷◌ c s)

-- What Atoi returns for digits behind a sign: beyond an int64, the one nearest to them.
abbrev pub positive : ParsedUint → ℤ
positive (parsed n) = if ltb n (2 ^ 63) then pos n else pos (2 ^ 63 - 1)
positive range_error = pos (2 ^ 63 - 1)
positive syntax_error = pos 0

abbrev pub negate : ℕ → ℤ
negate n = if n == 0 then pos 0 else negsuc (n - 1)

abbrev pub negative : ParsedUint → ℤ
negative (parsed n) = if leb n (2 ^ 63) then negate n else negate (2 ^ 63)
negative range_error = negate (2 ^ 63)
negative syntax_error = pos 0

unfoldable pub atoi : String → ℤ
unfolding parse_uint
atoi String.[] = pos 0
atoi (String.◌∷◌ c s) =
    if code c == b'-'
    then negative (parse_uint s)
    else if code c == b'+'
    then positive (parse_uint s)
    else positive (parse_uint (String.◌∷◌ c s))

abbrev is_one_of : String → List String → Bool
is_one_of s [] = false
is_one_of s (t ∷ ts) = if str_eq s t then true else is_one_of s ts

-- All else is false, also where ParseBool has an error.
unfoldable pub parse_bool : String → Bool
parse_bool s = is_one_of s ("1" ∷ "t" ∷ "T" ∷ "true" ∷ "TRUE" ∷ "True" ∷ [])
