-- ===== src/Dmx/Metadata.antt =====
-- native/src/dmx/dmx_network_metadata_cache.h and .cpp: the last packet's metadata of every
-- universe of the network. An index outside `slots_` is a fault of the source, and `none` here.
pub mod Laws
use peraviz.Prelude.{
  ℕ, ◌+◌, ◌-◌, ◌*◌, Bool, true, false, ◌&&◌, Option, none, some, List, [], ◌∷◌, ◌++◌, ltb, leb,
  ◌==◌, if◌then◌else◌, length, set, get_elem?, replicate, increment32,
}
use peraviz.Dmx.Frame.{DmxUniverseMetadata}

pub record Slot : Type 0 where
  pub length : ℕ
  pub last_rx_us : ℕ
  pub packets : ℕ
  pub sequence : ℕ
  pub source_ipv4 : ℕ
  pub source_port : ℕ

pub record DmxNetworkMetadataCache : Type 0 where
  pub slots : List (Option Slot)
  pub active_ids : List ℕ
  pub slot_count : ℕ

-- The source has 32768 slots.
unfoldable pub new_cache : ℕ → DmxNetworkMetadataCache
new_cache size = record { slots = replicate size none; active_ids = []; slot_count = 0 }

abbrev pub new_slot : Slot
new_slot = record {
  length = 0;
  last_rx_us = 0;
  packets = 0;
  sequence = 0;
  source_ipv4 = 0;
  source_port = 0;
}

unfoldable pub observed : Slot → ℕ → ℕ → ℕ → ℕ → ℕ → Slot
observed s packet_length sequence now_us source_ipv4 source_port = record {
  length = packet_length;
  sequence = sequence;
  last_rx_us = now_us;
  source_ipv4 = source_ipv4;
  source_port = source_port;
  packets = increment32 s.packets;
}

abbrev pub put_new : DmxNetworkMetadataCache → ℕ → Slot → DmxNetworkMetadataCache
put_new c universe s = record {
  slots = set c.slots universe (some s);
  active_ids = c.active_ids ++ universe ∷ [];
  slot_count = c.slot_count + 1;
}

abbrev pub put : DmxNetworkMetadataCache → ℕ → Slot → DmxNetworkMetadataCache
put c universe s = record c { slots = set c.slots universe (some s) }

unfoldable pub observe :
    DmxNetworkMetadataCache → ℕ → ℕ → ℕ → ℕ → ℕ → ℕ → Option DmxNetworkMetadataCache
unfolding observed
observe c universe packet_length sequence now_us source_ipv4 source_port =
    elim (get_elem? c.slots universe) [
      | none ↦ none
      | some none ↦ some (
          put_new c universe
            (observed new_slot packet_length sequence now_us source_ipv4 source_port))
      | some (some s) ↦
          some (put c universe (observed s packet_length sequence now_us source_ipv4 source_port))
    ]

abbrev pub metadata_of : ℕ → Slot → DmxUniverseMetadata
metadata_of universe s = record {
  universe_id = universe;
  length = s.length;
  last_rx_us = s.last_rx_us;
  counter = s.packets;
  sequence = s.sequence;
  content_hash = 0;
  source_ipv4 = s.source_ipv4;
  source_port = s.source_port;
}

-- The outer `none` is the fault, the inner one the answer false.
abbrev pub report : ℕ → Option (Option Slot) → Option (Option DmxUniverseMetadata)
report universe none = none
report universe (some none) = some none
report universe (some (some s)) = some (some (metadata_of universe s))

unfoldable pub get : DmxNetworkMetadataCache → ℕ → Option (Option DmxUniverseMetadata)
get c universe = report universe (get_elem? c.slots universe)

unfoldable pub is_active : Option (Option DmxUniverseMetadata) → ℕ → ℕ → Bool
is_active (some (some d)) now_us window_us =
    ltb 0 d.last_rx_us && (leb d.last_rx_us now_us && leb (now_us - d.last_rx_us) window_us)
is_active _ now_us window_us = false

unfoldable pub active_of : DmxNetworkMetadataCache → List ℕ → ℕ → ℕ → List ℕ
active_of c [] now_us window_us = []
active_of c (universe ∷ rest) now_us window_us =
    let later = active_of c rest now_us window_us in
    if is_active (get c universe) now_us window_us then universe ∷ later else later

unfoldable pub active : DmxNetworkMetadataCache → ℕ → ℕ → List ℕ
active c now_us window_us = active_of c c.active_ids now_us window_us

unfoldable pub slot_count : DmxNetworkMetadataCache → ℕ
slot_count c = c.slot_count

-- The argument is `sizeof(Slot)`.
unfoldable pub approximate_bytes : ℕ → DmxNetworkMetadataCache → ℕ
approximate_bytes slot_size c = slot_count c * slot_size
