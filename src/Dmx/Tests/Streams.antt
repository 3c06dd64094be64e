-- ===== src/Dmx/Tests/Streams.antt =====
-- Concrete packets, sequences and subscriptions.
use peraviz.Prelude.{
  sort, IsSorted, ℕ, ◌+◌, ◌*◌, ◌≤◌, ◌<◌, ◌≡◌, refl, ◌↔◌, true, some, List, [], ◌∷◌, arith, length,
  drop, Elem,
}
use peraviz.Dmx.Parser.{
  ArtNetDmxFrameView, art_net_header, starts_with, read_u16_le, read_u16_be, byte_at, parse,
}
use peraviz.Dmx.Parser.Packets.{art_dmx_packet, parse-art_dmx_packet, parse_sound}
use peraviz.Dmx.Sequence.{
  ArtNetEndpoint, ArtNetSequenceTracker, State, accept, accept_state, fresh_state, reject,
  same_endpoint,
}
use peraviz.Dmx.Sequence.Order.{IsOrdered, advance, accept_iff_ahead, accept-reject_late}
use peraviz.Dmx.Subscription.{
  build, contains, offsets, add_entries, add_entry, set_offsets, any_below, use_universe, keep_mask,
}
use peraviz.Dmx.Subscription.Build.{Names, offsets-build, contains-build}

abbrev packet : List ℕ
packet = art_dmx_packet 14 7 0 3 1 (10 ∷ 20 ∷ [])

abbrev packet_view : ArtNetDmxFrameView
packet_view = record { universe_id = 259; sequence = 7; length = 2; payload = 10 ∷ 20 ∷ [] }

packet_parsed : parse (some packet) ≡ some packet_view
unfolding parse
packet_parsed = refl

parse-art_dmx_packet_example : parse (some packet) ≡ some packet_view
parse-art_dmx_packet_example =
    parse-art_dmx_packet 14 7 0 3 1 (10 ∷ 20 ∷ []) (omega arith) (omega arith)

parse_sound_example :
    (starts_with art_net_header packet ≡ true)
    × (read_u16_le packet 8 ≡ 0x5000)
    × (14 ≤ read_u16_be packet 10)
    × (packet_view.payload ≡ drop 18 packet)
    × (18 + packet_view.length ≤ length packet)
    × (packet_view.length ≤ 512)
    × (packet_view.universe_id ≡ byte_at packet 15 * 256 + byte_at packet 14)
parse_sound_example = parse_sound packet packet_parsed

abbrev console : ArtNetEndpoint
console = record { ipv4 = 167772161; port = 6454 }

abbrev stream : State
stream = record { endpoint = console; sequence = 250; ordered = true; initialized = true }

stream-IsOrdered : IsOrdered stream console
stream-IsOrdered = record {
  initialized = refl;
  ordered = refl;
  source = unfold same_endpoint in refl;
  number = (omega arith, omega arith);
}

accept_iff_ahead_example :
    ((accept_state stream 4 console).0.accepted ≡ true)
    ↔ ((k : ℕ) × (1 ≤ k) × (k ≤ 127) × (4 ≡ advance k 250))
accept_iff_ahead_example =
    accept_iff_ahead stream console 4 stream-IsOrdered (omega arith, omega arith)

abbrev no_streams : ArtNetSequenceTracker
no_streams universe = fresh_state

first_accepted : (accept no_streams 5 4 console).0.accepted ≡ true
unfolding accept accept_state
first_accepted = refl

accept-reject_late_example :
    let t' = (accept no_streams 5 4 console).1 in
    ((accept t' 5 254 console).0 ≡ reject) × ((accept t' 5 254 console).1 5 ≡ t' 5)
unfolding advance
accept-reject_late_example =
    accept-reject_late no_streams 5 console 4 254 5 (omega arith, omega arith)
      (omega arith, omega arith) (omega arith) refl first_accepted

abbrev entries : List (ℕ × List ℕ)
entries = (7, 0 ∷ 600 ∷ []) ∷ (40000, 1 ∷ []) ∷ (2, 3 ∷ []) ∷ (7, 4 ∷ []) ∷ (9, 512 ∷ []) ∷ []

entries_built : (build entries).universes ≡ 2 ∷ 7 ∷ []
unfolding build add_entries add_entry set_offsets any_below use_universe keep_mask sort
entries_built = refl

offsets-build_example :
    (offsets (build entries) 7 4 ≡ true) ↔ ((7 < 32768) × (4 < 512) × Names entries 7 4)
offsets-build_example = offsets-build entries 7 4

contains-build_example :
    ((contains (build entries) 7 ≡ true) ↔ ((o : ℕ) × (offsets (build entries) 7 o ≡ true)))
    × ((Elem 7 (build entries).universes) ↔ (contains (build entries) 7 ≡ true))
    × IsSorted (build entries).universes
contains-build_example = contains-build entries 7
