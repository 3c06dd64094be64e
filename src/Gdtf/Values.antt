-- ===== src/Gdtf/Values.antt =====
-- native/src/gdtf_runtime/mode_master.h and .cpp: DMX values `value/bytes` of a GDTF file, and their
-- conversion to another number of bytes. Texts are lists of ASCII codes. Where the parser fails, the
-- conversion that it has written by then is left out: its callers use no part of it.
pub mod Convert
pub mod Parse
use peraviz.Prelude.{
  ℕ, zero, suc, ◌+◌, ◌-◌, ◌*◌, ◌/◌, ◌%◌, ◌^◌, min, bit_or, Bool, true, false, not, ◌&&◌, ◌||◌,
  Option, none, some, List, [], ◌∷◌, ltb, leb, ◌==◌, ◌>>=◌, if◌then◌else◌,
}
use peraviz.Gdtf.Tokens.{trim_ascii_token, strtoull, at_end}

pub data DmxValueConversion : Type 0 where
  mirror shift : DmxValueConversion

pub record ParsedDmxValue : Type 0 where
  pub value : ℕ
  pub byte_count : ℕ
  pub conversion : DmxValueConversion

unfoldable pub byte_max : ℕ → ℕ
byte_max bytes =
    if bytes == 0 || ltb 4 bytes
    then 0
    else (if bytes == 4 then 4_294_967_295 else 2 ^ (bytes * 8) - 1)

-- The text before the first slash, and that behind it if there is one.
unfoldable pub split_slash : List ℕ → List ℕ × Option (List ℕ)
split_slash [] = ([], none)
split_slash (c ∷ text) =
    let (front, back) = split_slash text in if c == b'/' then ([], some text) else (c ∷ front, back)

-- `1` where there is no slash.
abbrev pub resolution_or_one : Option (List ℕ) → List ℕ
resolution_or_one none = b'1' ∷ []
resolution_or_one (some resolution) = resolution

-- `back` and `pop_back`: the conversion that the last character names, and the text without it;
-- none for the empty text.
unfoldable pub read_conversion : List ℕ → Option (DmxValueConversion × List ℕ)
read_conversion [] = none
read_conversion (c ∷ []) =
    if c == b's' || c == b'S'
    then some (DmxValueConversion.shift, [])
    else some (DmxValueConversion.mirror, c ∷ [])
read_conversion (c ∷ d ∷ text) = do
  (conversion, rest) ← read_conversion (d ∷ text)
  some (conversion, c ∷ rest)

-- The whole of a text as a number.
unfoldable pub whole_number : List ℕ → Option ℕ
whole_number text = do (value, rest) ← strtoull text; if at_end rest then some value else none

-- The test of the byte count, before the value is read.
unfoldable pub counted_value : ℕ → List ℕ → Option ℕ
counted_value bytes text = if ltb bytes 1 || ltb 4 bytes then none else whole_number text

unfoldable pub bounded_value : DmxValueConversion → ℕ → ℕ → Option ParsedDmxValue
bounded_value conversion bytes value =
    if ltb (byte_max bytes) value
    then none
    else some (record { value = value; byte_count = bytes; conversion = conversion })

unfoldable pub parse_parts : List ℕ → Option (List ℕ) → Option ParsedDmxValue
parse_parts value_text resolution = do
  (conversion, byte_text) ← read_conversion (resolution_or_one resolution)
  bytes ← whole_number byte_text
  value ← counted_value bytes value_text
  bounded_value conversion bytes value

unfoldable pub parse_text : List ℕ → Option ParsedDmxValue
parse_text [] = none
parse_text (c ∷ text) =
    let (value_text, resolution) = split_slash (c ∷ text) in parse_parts value_text resolution

unfoldable pub parse_gdtf_dmx_value : List ℕ → Option ParsedDmxValue
parse_gdtf_dmx_value raw = parse_text (trim_ascii_token raw)

-- `x << bits` and `x >> bits` on `uint32_t`.
unfoldable pub shift_left : ℕ → ℕ → ℕ
shift_left x bits = x * 2 ^ bits % 2 ^ 32

unfoldable pub shift_right : ℕ → ℕ → ℕ
shift_right x bits = x / 2 ^ bits

-- The loop of the mirroring, with fuel: each round fills a byte or more.
unfoldable pub mirror_bytes : ℕ → ParsedDmxValue → ℕ → ℕ → ℕ → ℕ
mirror_bytes zero v target converted filled = converted
mirror_bytes (suc fuel) v target converted filled =
    let taken = min v.byte_count (target - filled) in
    if ltb filled target
    then (mirror_bytes fuel v target
        (bit_or (shift_left converted (taken * 8))
          (shift_right v.value ((v.byte_count - taken) * 8)))
        (filled + taken))
    else converted

unfoldable pub widen : DmxValueConversion → ParsedDmxValue → ℕ → ℕ
widen DmxValueConversion.shift v target = shift_left v.value ((target - v.byte_count) * 8)
widen DmxValueConversion.mirror v target = mirror_bytes target v target v.value v.byte_count

unfoldable pub convert_gdtf_dmx_value : ParsedDmxValue → ℕ → Option ℕ
convert_gdtf_dmx_value v target =
    if v.byte_count == 0 || ltb 4 v.byte_count || target == 0 || ltb 4 target
    then none
    else (if v.byte_count == target
        then some v.value
        else (if ltb target v.byte_count
            then some (shift_right v.value ((v.byte_count - target) * 8))
            else some (widen v.conversion v target)))

unfoldable pub parse_and_convert_gdtf_dmx_value : List ℕ → ℕ → Option ℕ
parse_and_convert_gdtf_dmx_value raw target = do
  parsed ← parse_gdtf_dmx_value raw
  convert_gdtf_dmx_value parsed target
