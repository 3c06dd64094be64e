-- ===== src/Gdtf/Values/Convert.antt =====
-- What the conversion of native/src/gdtf_runtime/mode_master.cpp makes of the bytes of a value.
use peraviz.Prelude.{
  ℕ, zero, suc, ◌+◌, ◌-◌, ◌*◌, ◌/◌, ◌%◌, ◌^◌, ◌≤◌, ◌<◌, ◌≡◌, ap, bit_or, some, arith, ltb,
  if◌then◌else◌, bit_or-append,
}
use peraviz.Gdtf.Values.{
  DmxValueConversion, mirror, shift, ParsedDmxValue, shift_left, shift_right, mirror_bytes, widen,
  convert_gdtf_dmx_value,
}

-- The byte of a value at a place, from the most significant one.
abbrev pub byte_of : ParsedDmxValue → ℕ → ℕ
byte_of v i = v.value / 256 ^ (v.byte_count - 1 - i) % 256

-- What stands behind the last byte: the bytes again, or zeros.
abbrev pub byte_behind : DmxValueConversion → ParsedDmxValue → ℕ → ℕ
byte_behind DmxValueConversion.mirror v i = byte_of v (i % v.byte_count)
byte_behind DmxValueConversion.shift v i = 0

abbrev pub source_byte : ParsedDmxValue → ℕ → ℕ
source_byte v i = if ltb i v.byte_count then byte_of v i else byte_behind v.conversion v i

-- The number that the first bytes of a sequence stand for.
abbrev pub of_bytes : ℕ → (ℕ → ℕ) → ℕ
of_bytes zero bytes = 0
of_bytes (suc n) bytes = of_bytes n bytes * 256 + bytes n

-- One round of the mirroring, where nothing is shifted out.
append_bytes :
    (bits x y : ℕ)
    → x * 2 ^ bits < 2 ^ 32
    → y < 2 ^ bits
    → bit_or (shift_left x bits) y ≡ x * 2 ^ bits + y
unfolding shift_left
append_bytes bits x y h k =
    let fits : x * 2 ^ bits % 2 ^ 32 ≡ x * 2 ^ bits = omega arith in
    rw fits (bit_or-append bits x y k)

abbrev valued : ℕ → ℕ → DmxValueConversion → ParsedDmxValue
valued x n c = record { value = x; byte_count = n; conversion = c }

abbrev IsBytes : ℕ → ℕ → ℕ → DmxValueConversion → Type 0
IsBytes n t x c =
    convert_gdtf_dmx_value (valued x n c) t ≡ some (of_bytes t (source_byte (valued x n c)))

one_to_one : (x : ℕ) (c : DmxValueConversion) → x < 256 ^ 1 → IsBytes 1 1 x c
unfolding convert_gdtf_dmx_value shift_right
one_to_one x c h = ap some (omega arith)

one_to_two : (x : ℕ) (c : DmxValueConversion) → x < 256 ^ 1 → IsBytes 1 2 x c
unfolding convert_gdtf_dmx_value widen mirror_bytes shift_left shift_right
one_to_two x shift h = ap some (omega arith)
one_to_two x mirror h =
    let e1 = append_bytes 8 (x) (x / 2 ^ 0) (omega arith) (omega arith) in
    rw e1 (ap some (omega arith))

one_to_three : (x : ℕ) (c : DmxValueConversion) → x < 256 ^ 1 → IsBytes 1 3 x c
unfolding convert_gdtf_dmx_value widen mirror_bytes shift_left shift_right
one_to_three x shift h = ap some (omega arith)
one_to_three x mirror h =
    let e1 = append_bytes 8 (x) (x / 2 ^ 0) (omega arith) (omega arith) in
    let e2 = append_bytes 8 ((x * 2 ^ 8 + x / 2 ^ 0)) (x / 2 ^ 0) (omega arith) (omega arith) in
    rw e1 (rw e2 (ap some (omega arith)))

one_to_four : (x : ℕ) (c : DmxValueConversion) → x < 256 ^ 1 → IsBytes 1 4 x c
unfolding convert_gdtf_dmx_value widen mirror_bytes shift_left shift_right
one_to_four x shift h = ap some (omega arith)
one_to_four x mirror h =
    let e1 = append_bytes 8 (x) (x / 2 ^ 0) (omega arith) (omega arith) in
    let e2 = append_bytes 8 ((x * 2 ^ 8 + x / 2 ^ 0)) (x / 2 ^ 0) (omega arith) (omega arith) in
    let e3 =
      append_bytes 8 (((x * 2 ^ 8 + x / 2 ^ 0) * 2 ^ 8 + x / 2 ^ 0)) (x / 2 ^ 0) (omega arith)
        (omega arith) in
    rw e1 (rw e2 (rw e3 (ap some (omega arith))))

two_to_one : (x : ℕ) (c : DmxValueConversion) → x < 256 ^ 2 → IsBytes 2 1 x c
unfolding convert_gdtf_dmx_value shift_right
two_to_one x c h = ap some (omega arith)

two_to_two : (x : ℕ) (c : DmxValueConversion) → x < 256 ^ 2 → IsBytes 2 2 x c
unfolding convert_gdtf_dmx_value shift_right
two_to_two x c h = ap some (omega arith)

two_to_three : (x : ℕ) (c : DmxValueConversion) → x < 256 ^ 2 → IsBytes 2 3 x c
unfolding convert_gdtf_dmx_value widen mirror_bytes shift_left shift_right
two_to_three x shift h = ap some (omega arith)
two_to_three x mirror h =
    let e1 = append_bytes 8 (x) (x / 2 ^ 8) (omega arith) (omega arith) in
    rw e1 (ap some (omega arith))

two_to_four : (x : ℕ) (c : DmxValueConversion) → x < 256 ^ 2 → IsBytes 2 4 x c
unfolding convert_gdtf_dmx_value widen mirror_bytes shift_left shift_right
two_to_four x shift h = ap some (omega arith)
two_to_four x mirror h =
    let e1 = append_bytes 16 (x) (x / 2 ^ 0) (omega arith) (omega arith) in
    rw e1 (ap some (omega arith))

three_to_one : (x : ℕ) (c : DmxValueConversion) → x < 256 ^ 3 → IsBytes 3 1 x c
unfolding convert_gdtf_dmx_value shift_right
three_to_one x c h = ap some (omega arith)

three_to_two : (x : ℕ) (c : DmxValueConversion) → x < 256 ^ 3 → IsBytes 3 2 x c
unfolding convert_gdtf_dmx_value shift_right
three_to_two x c h = ap some (omega arith)

three_to_three : (x : ℕ) (c : DmxValueConversion) → x < 256 ^ 3 → IsBytes 3 3 x c
unfolding convert_gdtf_dmx_value shift_right
three_to_three x c h = ap some (omega arith)

three_to_four : (x : ℕ) (c : DmxValueConversion) → x < 256 ^ 3 → IsBytes 3 4 x c
unfolding convert_gdtf_dmx_value widen mirror_bytes shift_left shift_right
three_to_four x shift h = ap some (omega arith)
three_to_four x mirror h =
    let e1 = append_bytes 8 (x) (x / 2 ^ 16) (omega arith) (omega arith) in
    rw e1 (ap some (omega arith))

four_to_one : (x : ℕ) (c : DmxValueConversion) → x < 256 ^ 4 → IsBytes 4 1 x c
unfolding convert_gdtf_dmx_value shift_right
four_to_one x c h = ap some (omega arith)

four_to_two : (x : ℕ) (c : DmxValueConversion) → x < 256 ^ 4 → IsBytes 4 2 x c
unfolding convert_gdtf_dmx_value shift_right
four_to_two x c h = ap some (omega arith)

four_to_three : (x : ℕ) (c : DmxValueConversion) → x < 256 ^ 4 → IsBytes 4 3 x c
unfolding convert_gdtf_dmx_value shift_right
four_to_three x c h = ap some (omega arith)

four_to_four : (x : ℕ) (c : DmxValueConversion) → x < 256 ^ 4 → IsBytes 4 4 x c
unfolding convert_gdtf_dmx_value shift_right
four_to_four x c h = ap some (omega arith)

pub by_count : (P : ℕ → Type 0) → P 1 → P 2 → P 3 → P 4 → (n : ℕ) → 1 ≤ n → n ≤ 4 → P n
by_count P a b c d zero h k = absurd (omega arith)
by_count P a b c d (suc zero) h k = a
by_count P a b c d (suc (suc zero)) h k = b
by_count P a b c d (suc (suc (suc zero))) h k = c
by_count P a b c d (suc (suc (suc (suc zero)))) h k = d
by_count P a b c d (suc (suc (suc (suc (suc n))))) h k = absurd (omega arith)

-- A value whose number fits its one to four bytes.
abbrev pub FitsItsBytes : ParsedDmxValue → Type 0
FitsItsBytes v = (1 ≤ v.byte_count) × (v.byte_count ≤ 4) × (v.value < 256 ^ v.byte_count)

pub convert_gdtf_dmx_value_lem :
    (v : ParsedDmxValue) (t : ℕ)
    → FitsItsBytes v
    → 1 ≤ t
    → t ≤ 4
    → convert_gdtf_dmx_value v t ≡ some (of_bytes t (source_byte v))
convert_gdtf_dmx_value_lem v t (low, high, fits) h k =
    by_count (λ n. (x : ℕ) (c : DmxValueConversion) → x < 256 ^ n → IsBytes n t x c)
      (by_count (λ t. (x : ℕ) (c : DmxValueConversion) → x < 256 ^ 1 → IsBytes 1 t x c) one_to_one
        one_to_two one_to_three one_to_four t h k)
      (by_count (λ t. (x : ℕ) (c : DmxValueConversion) → x < 256 ^ 2 → IsBytes 2 t x c) two_to_one
        two_to_two two_to_three two_to_four t h k)
      (by_count (λ t. (x : ℕ) (c : DmxValueConversion) → x < 256 ^ 3 → IsBytes 3 t x c) three_to_one
        three_to_two three_to_three three_to_four t h k)
      (by_count (λ t. (x : ℕ) (c : DmxValueConversion) → x < 256 ^ 4 → IsBytes 4 t x c) four_to_one
        four_to_two four_to_three four_to_four t h k)
      v.byte_count low high v.value v.conversion fits
