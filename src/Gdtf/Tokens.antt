-- ===== src/Gdtf/Tokens.antt =====
-- native/src/gdtf_runtime/string_utils.h, and what native/src/gdtf_runtime uses of the C library's
-- conversions of texts to numbers.
use peraviz.Prelude.{
  ℕ, ◌+◌, ◌-◌, ◌*◌, ◌%◌, ◌^◌, Bool, true, false, ◌&&◌, Option, none, some, List, [], ◌∷◌, leb, ◌==◌,
  if◌then◌else◌, trim_left, trim_right,
}

unfoldable pub trim_ascii_token : List ℕ → List ℕ
trim_ascii_token value = trim_right (trim_left value)

unfoldable pub is_digit : ℕ → Bool
is_digit c = leb b'0' c && leb c b'9'

-- The digits at the front, after the number `value`, and the text behind them.
unfoldable pub read_digits : ℕ → List ℕ → ℕ × List ℕ
read_digits value [] = (value, [])
read_digits value (c ∷ text) =
    if is_digit c then read_digits (value * 10 + (c - b'0')) text else (value, c ∷ text)

-- An unsigned number of 64 bits, negated in that type; a number that does not fit is the largest.
unfoldable pub to_u64 : Bool → ℕ → ℕ
to_u64 negative value =
    if leb (2 ^ 64) value
    then 2 ^ 64 - 1
    else (if negative then (2 ^ 64 - value) % 2 ^ 64 else value)

-- None where there is no digit to convert, so that `end` is the start of the text.
unfoldable pub convert_digits : Bool → List ℕ → Option (ℕ × List ℕ)
convert_digits negative [] = none
convert_digits negative (c ∷ text) =
    let (value, rest) = read_digits 0 (c ∷ text) in
    if is_digit c then some (to_u64 negative value, rest) else none

unfoldable pub convert_signed : List ℕ → Option (ℕ × List ℕ)
convert_signed [] = none
convert_signed (c ∷ text) =
    if c == b'-'
    then convert_digits true text
    else (if c == b'+' then convert_digits false text else convert_digits false (c ∷ text))

-- `std::strtoul` and `std::strtoull` to base 10, both of 64 bits: the value, and the text at `end`.
unfoldable pub strtoull : List ℕ → Option (ℕ × List ℕ)
strtoull text = convert_signed (trim_left text)

-- `*end == '\0'`: the text ends there, or holds a zero.
unfoldable pub at_end : List ℕ → Bool
at_end [] = true
at_end (c ∷ text) = c == 0
