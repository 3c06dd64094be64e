-- ===== src/Gdtf/Values/Parse.antt =====
-- What the parser of native/src/gdtf_runtime/mode_master.cpp accepts, and what its values become.
use peraviz.Prelude.{ℕ, ◌^◌, ◌≤◌, ◌<◌, ◌≡◌, Option, some, List, [], ◌∷◌, arith, >>=-eq-some}
use peraviz.Gdtf.Tokens.{trim_ascii_token}
use peraviz.Gdtf.Values.{
  DmxValueConversion, ParsedDmxValue, byte_max, split_slash, resolution_or_one, read_conversion,
  whole_number, counted_value, bounded_value, parse_parts, parse_text, parse_gdtf_dmx_value,
  parse_and_convert_gdtf_dmx_value,
}
use peraviz.Gdtf.Values.Convert.{
  by_count, FitsItsBytes, of_bytes, source_byte, convert_gdtf_dmx_value_lem,
}

byte_max_below : (n : ℕ) → 1 ≤ n → n ≤ 4 → (x : ℕ) → x ≤ byte_max n → x < 256 ^ n
unfolding byte_max
byte_max_below =
    by_count (λ n. (x : ℕ) → x ≤ byte_max n → x < 256 ^ n) (λ x h. omega arith) (λ x h. omega arith)
      (λ x h. omega arith) (λ x h. omega arith)

counted_value-bounds :
    (bytes : ℕ) (text : List ℕ) (value : ℕ)
    → counted_value bytes text ≡ some value
    → (1 ≤ bytes) × (bytes ≤ 4)
unfolding counted_value
counted_value-bounds bytes text value h = ground arith

bounded_value-FitsItsBytes :
    (c : DmxValueConversion) (bytes value : ℕ) (v : ParsedDmxValue)
    → (1 ≤ bytes) × (bytes ≤ 4)
    → bounded_value c bytes value ≡ some v
    → FitsItsBytes v
unfolding bounded_value
bounded_value-FitsItsBytes c bytes value v k h = ground (arith, byte_max_below bytes k.0 k.1 value)

parse_parts-FitsItsBytes :
    (text : List ℕ) (resolution : Option (List ℕ)) (v : ParsedDmxValue)
    → parse_parts text resolution ≡ some v
    → FitsItsBytes v
unfolding parse_parts
parse_parts-FitsItsBytes text resolution v h =
    let ((c, byte_text), read, h1) =
      >>=-eq-some (read_conversion (resolution_or_one resolution)) _ h in
    let (bytes, whole, h2) = >>=-eq-some (whole_number byte_text) _ h1 in
    let (value, counted, h3) = >>=-eq-some (counted_value bytes text) _ h2 in
    bounded_value-FitsItsBytes c bytes value v (counted_value-bounds bytes text value counted) h3

parse_text-FitsItsBytes :
    (text : List ℕ) (v : ParsedDmxValue) → parse_text text ≡ some v → FitsItsBytes v
unfolding parse_text
parse_text-FitsItsBytes [] v h = cc
parse_text-FitsItsBytes (c ∷ text) v h =
    parse_parts-FitsItsBytes (split_slash (c ∷ text)).0 (split_slash (c ∷ text)).1 v h

pub parse_gdtf_dmx_value-FitsItsBytes :
    (raw : List ℕ) (v : ParsedDmxValue) → parse_gdtf_dmx_value raw ≡ some v → FitsItsBytes v
unfolding parse_gdtf_dmx_value
parse_gdtf_dmx_value-FitsItsBytes raw v h = parse_text-FitsItsBytes (trim_ascii_token raw) v h

-- A value that is parsed from a text has one to four bytes and fits them, and its conversion to one
-- to four bytes succeeds. The result is the number whose bytes, from the most significant one, are
-- those of the value, as many as there is room for, and behind them, where there is more room, the
-- bytes of the value again and again, or zeros for a value that is marked to be shifted.
pub parse_and_convert_gdtf_dmx_value_lem :
    (raw : List ℕ) (v : ParsedDmxValue) (target : ℕ)
    → parse_gdtf_dmx_value raw ≡ some v
    → 1 ≤ target
    → target ≤ 4
    → FitsItsBytes v
      × (parse_and_convert_gdtf_dmx_value raw target ≡ some (of_bytes target (source_byte v)))
unfolding parse_and_convert_gdtf_dmx_value
parse_and_convert_gdtf_dmx_value_lem raw v target h low high =
    let fits = parse_gdtf_dmx_value-FitsItsBytes raw v h in
    (fits, rw h (convert_gdtf_dmx_value_lem v target fits low high))
