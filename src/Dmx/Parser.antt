-- ===== src/Dmx/Parser.antt =====
-- native/src/dmx/artnet_dmx_parser.cpp: the ArtDmx packet parser.
pub mod Packets
use peraviz.Prelude.{
  ℕ, ◌+◌, ◌*◌, ◌%◌, ◌≤◌, ◌<◌, min, ◌≡◌, Bool, true, false, ◌&&◌, Option, none, some, List, [], ◌∷◌,
  arith, ltb, ◌==◌, if◌then◌else◌, length, get_or, take, drop,
}

abbrev pub art_net_header : List ℕ
art_net_header = b'A' ∷ b'r' ∷ b't' ∷ b'-' ∷ b'N' ∷ b'e' ∷ b't' ∷ 0 ∷ []

abbrev pub minimum_art_dmx_packet_size : ℕ
minimum_art_dmx_packet_size = 18

abbrev pub op_code_art_dmx : ℕ
op_code_art_dmx = 0x5000

abbrev pub minimum_protocol_version : ℕ
minimum_protocol_version = 14

-- `data[i]` of a buffer whose size has been checked.
abbrev pub byte_at : List ℕ → ℕ → ℕ
byte_at xs i = get_or xs i 0

-- The bytes lie in disjoint bits, so `|` is a sum.
abbrev pub read_u16_le : List ℕ → ℕ → ℕ
read_u16_le p i = byte_at p i + byte_at p (i + 1) * 256

abbrev pub read_u16_be : List ℕ → ℕ → ℕ
read_u16_be p i = byte_at p i * 256 + byte_at p (i + 1)

-- `data` is the rest of the packet from the payload on, as the pointer of the source is.
pub record ArtNetDmxFrameView : Type 0 where
  pub universe_id : ℕ
  pub sequence : ℕ
  pub length : ℕ
  pub payload : List ℕ

-- `std::memcmp` of two buffers over the length of the first.
abbrev pub starts_with : List ℕ → List ℕ → Bool
starts_with [] ys = true
starts_with (x ∷ xs) [] = false
starts_with (x ∷ xs) (y ∷ ys) = x == y && starts_with xs ys

unfoldable pub view_of : List ℕ → ℕ → ArtNetDmxFrameView
view_of p clamped = record {
  universe_id = byte_at p 15 * 256 + byte_at p 14;
  sequence = byte_at p 12;
  length = clamped;
  payload = drop minimum_art_dmx_packet_size p;
}

unfoldable pub parse_body : List ℕ → Option ArtNetDmxFrameView
unfolding view_of
parse_body p =
    let clamped = min (read_u16_be p 16) 512 in
    if ltb (length p) (minimum_art_dmx_packet_size + clamped)
    then none
    else some (view_of p clamped)

-- `ArtNetDmxParser::parse`; the list is the packet with its size, and `none` a null pointer.
unfoldable pub parse : Option (List ℕ) → Option ArtNetDmxFrameView
unfolding parse_body
parse none = none
parse (some p) =
    if ltb (length p) minimum_art_dmx_packet_size
    then none
    else if starts_with art_net_header p
    then (if read_u16_le p 8 == op_code_art_dmx
        then (if ltb (read_u16_be p 10) minimum_protocol_version then none else parse_body p)
        else none)
    else none
