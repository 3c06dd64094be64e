-- ===== src/Dmx/Parser/Packets.antt =====
-- The packets that native/src/dmx/artnet_dmx_parser.cpp accepts, against the layout of ArtDmx.
use peraviz.Prelude.{
  ℕ, ◌+◌, ◌*◌, ◌/◌, ◌%◌, ◌≤◌, ◌<◌, min, ◌≡◌, true, some, List, ◌∷◌, ◌++◌, arith, length, drop,
}
use peraviz.Dmx.Parser.{
  ArtNetDmxFrameView, byte_at, read_u16_le, read_u16_be, starts_with, art_net_header, parse,
}

abbrev pub IsByte : ℕ → Type 0
IsByte b = b < 256

-- An ArtDmx packet as a sender lays it out: the header, the operation code (low byte first), the
-- protocol version, the sequence number, the physical port, the universe (low byte first), the
-- length (high byte first), the payload.
abbrev pub art_dmx_packet : ℕ → ℕ → ℕ → ℕ → ℕ → List ℕ → List ℕ
art_dmx_packet version sequence physical subuni net payload =
    art_net_header
    ++ 0
      ∷ 0x50
      ∷ version / 256
      ∷ version % 256
      ∷ sequence
      ∷ physical
      ∷ subuni
      ∷ net
      ∷ length payload / 256
      ∷ length payload % 256
      ∷ payload

-- Every ArtDmx packet of protocol version 14 or later whose declared length is that of its payload
-- is accepted, with its universe and sequence number, its length cut to 512 and its payload.
pub parse-art_dmx_packet :
    (version sequence physical subuni net : ℕ) (payload : List ℕ)
    → 14 ≤ version
    → length payload < 65536
    → parse (some (art_dmx_packet version sequence physical subuni net payload))
      ≡ some (record {
        universe_id = net * 256 + subuni;
        sequence = sequence;
        length = min (length payload) 512;
        payload = payload;
      })
unfolding parse
parse-art_dmx_packet version sequence physical subuni net payload hv hl = ground arith

-- What the parser accepts: the header matches, the operation code is ArtDmx, the version is at
-- least 14, the view's payload starts 18 bytes into the packet and the view's length lies inside
-- the packet and is at most 512.
pub parse_sound :
    (p : List ℕ) {v : ArtNetDmxFrameView}
    → parse (some p) ≡ some v
    → (starts_with art_net_header p ≡ true)
      × (read_u16_le p 8 ≡ 0x5000)
      × (14 ≤ read_u16_be p 10)
      × (v.payload ≡ drop 18 p)
      × (18 + v.length ≤ length p)
      × (v.length ≤ 512)
      × (v.universe_id ≡ byte_at p 15 * 256 + byte_at p 14)
unfolding parse
parse_sound p e = ground arith
