-- ===== src/Dmx/Cache.antt =====
-- native/src/dmx/dmx_universe_cache.h and .cpp: the payload cache of the technical monitor, with
-- two buffers to a universe. A function is one critical section of the slot's `frame_mutex`, with
-- the look-up of the slot before it; of `consume_frame`, one access.
pub mod Slots
pub mod Laws
pub mod Accesses
pub mod Consumers
use Prim.Native.Nat.{bit_xor}
use peraviz.Prelude.{
  ℕ, zero, suc, ◌+◌, ◌-◌, ◌*◌, ◌%◌, ◌^◌, min, max, Bool, true, false, not, ◌&&◌, ◌||◌, Option, none,
  some, List, [], ◌∷◌, ◌++◌, ltb, leb, ◌==◌, if◌then◌else◌, length, set, get_or, take, drop,
  replicate, increment32, increment64,
}
use peraviz.Dmx.Frame.{DmxFrame, DmxUniverseMetadata, dmx_slot_count}

pub record UniverseSlot : Type 0 where
  pub buffer_0 : List ℕ
  pub buffer_1 : List ℕ
  pub front_index : ℕ
  pub length : ℕ
  pub last_rx_us : ℕ
  pub counter : ℕ
  pub sequence : ℕ
  pub content_hash : ℕ
  pub dirty : Bool
  pub capture_generation : ℕ

pub record DmxUniverseCache : Type 0 where
  pub slots : List (Option UniverseSlot)
  pub active_universe_ids : List ℕ
  pub active_slot_count : ℕ
  pub active_capture_generation : ℕ

abbrev pub new_slot : UniverseSlot
new_slot = record {
  buffer_0 = replicate 512 0;
  buffer_1 = replicate 512 0;
  front_index = 0;
  length = 0;
  last_rx_us = 0;
  counter = 0;
  sequence = 0;
  content_hash = 0;
  dirty = false;
  capture_generation = 0;
}

-- The source makes 32768 slots.
unfoldable pub new_cache : ℕ → DmxUniverseCache
new_cache size = record {
  slots = replicate size none;
  active_universe_ids = [];
  active_slot_count = 0;
  active_capture_generation = 0;
}

-- The loop of `compute_dmx_content_hash`.
unfoldable pub hash_bytes : ℕ → ℕ → List ℕ → ℕ
hash_bytes hash zero bytes = hash
hash_bytes hash (suc n) [] = hash
hash_bytes hash (suc n) (b ∷ bytes) = hash_bytes ((bit_xor hash b * 16777619) % 2 ^ 32) n bytes

unfoldable pub compute_dmx_content_hash : List ℕ → ℕ → ℕ
unfolding hash_bytes
compute_dmx_content_hash bytes n = (bit_xor (hash_bytes 2166136261 n bytes) n * 16777619) % 2 ^ 32

-- The two buffers; `front_index` is 0 or 1.
abbrev pub buffer_at : UniverseSlot → ℕ → List ℕ
buffer_at s i = if i == 0 then s.buffer_0 else s.buffer_1

abbrev pub set_buffer : UniverseSlot → ℕ → List ℕ → UniverseSlot
set_buffer s i bytes =
    if i == 0 then record s { buffer_0 = bytes } else record s { buffer_1 = bytes }

-- `std::memcpy` of `n` bytes to the start of a buffer.
abbrev pub copy_prefix : ℕ → List ℕ → List ℕ → List ℕ
copy_prefix n from to = take n from ++ drop n to

-- `std::memcmp` of `n` bytes.
unfoldable pub same_prefix : ℕ → List ℕ → List ℕ → Bool
same_prefix zero xs ys = true
same_prefix (suc n) [] ys = true
same_prefix (suc n) (x ∷ xs) [] = true
same_prefix (suc n) (x ∷ xs) (y ∷ ys) = x == y && same_prefix n xs ys

unfoldable pub slot_at : DmxUniverseCache → ℕ → Option UniverseSlot
slot_at c universe = if ltb universe (length c.slots) then get_or c.slots universe none else none

-- The bytes of the slot's frame that are kept below the new ones.
unfoldable pub current_length : UniverseSlot → ℕ → ℕ
current_length s generation = if s.capture_generation == generation then s.length else 0

unfoldable pub payload_changed : UniverseSlot → List ℕ → ℕ → ℕ → Bool
payload_changed s bytes safe_length generation =
    not (s.capture_generation == generation)
    || ltb 0 safe_length && not (same_prefix safe_length (buffer_at s s.front_index) bytes)

-- What the next front buffer holds.
unfoldable pub merged : UniverseSlot → List ℕ → ℕ → ℕ → List ℕ
merged s bytes safe_length generation = copy_prefix safe_length bytes (
    copy_prefix (current_length s generation) (buffer_at s s.front_index)
      (buffer_at s (1 - s.front_index)))

-- `write_frame` on the slot. The flags that it stores one by one are set at once.
unfoldable pub write_slot : UniverseSlot → List ℕ → ℕ → ℕ → ℕ → ℕ → UniverseSlot
write_slot s bytes safe_length sequence now_us generation =
    let changed = payload_changed s bytes safe_length generation in
    let effective = max (current_length s generation) safe_length in
    let next = merged s bytes safe_length generation in
    record (set_buffer s (1 - s.front_index) next) {
      length = effective;
      last_rx_us = now_us;
      sequence = sequence;
      capture_generation = generation;
      content_hash = compute_dmx_content_hash next effective;
      counter = if changed then increment32 s.counter else s.counter;
      dirty = changed || s.dirty;
      front_index = 1 - s.front_index;
    }

-- `get_or_create_slot`.
unfoldable pub get_or_create_slot : DmxUniverseCache → ℕ → UniverseSlot × DmxUniverseCache
get_or_create_slot c universe = elim (get_or c.slots universe none) [
  | some s ↦ (s, c)
  | none ↦ (
    new_slot,
    record c {
      slots = set c.slots universe (some new_slot);
      active_universe_ids = c.active_universe_ids ++ universe ∷ [];
      active_slot_count = c.active_slot_count + 1;
    },
  )
]

unfoldable pub write_frame :
    DmxUniverseCache → ℕ → Option (List ℕ) → ℕ → ℕ → ℕ → ℕ → DmxUniverseCache
write_frame c universe none n sequence now_us generation = c
write_frame c universe (some bytes) n sequence now_us generation =
    let (s, c') = get_or_create_slot c universe in
    if leb (length c.slots) universe then c else record c' {
      slots =
          set c'.slots universe
            (some (write_slot s bytes (min n dmx_slot_count) sequence now_us generation));
    }

unfoldable pub begin_capture_session : DmxUniverseCache → ℕ × DmxUniverseCache
begin_capture_session c =
    let next = increment64 c.active_capture_generation in
    (next, record c { active_capture_generation = next })

-- The bytes of the caller's frame past `length` are what they were; here, the empty frame's.
unfoldable pub frame_of : ℕ → UniverseSlot → DmxFrame
frame_of universe s = record {
  universe_id = universe;
  length = s.length;
  payload = copy_prefix s.length (buffer_at s s.front_index) (replicate dmx_slot_count 0);
  last_rx_us = s.last_rx_us;
  counter = s.counter;
  sequence = s.sequence;
  content_hash = s.content_hash;
  source_ipv4 = 0;
  source_port = 0;
}

unfoldable pub try_get_frame : DmxUniverseCache → ℕ → Option DmxFrame
try_get_frame c universe = elim (slot_at c universe) [
  | none ↦ none
  | some s ↦
      if s.capture_generation == c.active_capture_generation
      then some (frame_of universe s)
      else none
]

unfoldable pub try_get_metadata : DmxUniverseCache → ℕ → Option DmxUniverseMetadata
unfolding slot_at
try_get_metadata c universe = elim (slot_at c universe) [
  | none ↦ none
  | some s ↦ some (record {
    universe_id = universe;
    length = s.length;
    last_rx_us = s.last_rx_us;
    counter = s.counter;
    sequence = s.sequence;
    content_hash = s.content_hash;
    source_ipv4 = 0;
    source_port = 0;
  })
]

unfoldable pub is_dirty : DmxUniverseCache → Option UniverseSlot → Bool
is_dirty c none = false
is_dirty c (some s) = s.capture_generation == c.active_capture_generation && s.dirty

unfoldable pub dirty_of : DmxUniverseCache → List ℕ → List ℕ
dirty_of c [] = []
dirty_of c (universe ∷ rest) =
    let later = dirty_of c rest in
    if is_dirty c (slot_at c universe) then universe ∷ later else later

unfoldable pub get_dirty_universes : DmxUniverseCache → List ℕ
get_dirty_universes c = dirty_of c c.active_universe_ids

-- The accesses of `consume_frame`: the test of the session, the exchange of the dirty flag, which
-- takes no lock, and the copy under the lock. Another thread may run between any two of them.
unfoldable pub is_current : DmxUniverseCache → Option UniverseSlot → Bool
is_current c none = false
is_current c (some s) = s.capture_generation == c.active_capture_generation

unfoldable pub exchange_dirty : DmxUniverseCache → ℕ → Bool × DmxUniverseCache
exchange_dirty c universe = elim (slot_at c universe) [
  | none ↦ (false, c)
  | some s ↦
      (s.dirty, record c { slots = set c.slots universe (some (record s { dirty = false })) })
]

unfoldable pub copy_frame : DmxUniverseCache → ℕ → Option DmxFrame
copy_frame c universe = elim (slot_at c universe) [
  | none ↦ none
  | some s ↦ some (frame_of universe s)
]

abbrev pub copy_exchanged : ℕ → Bool × DmxUniverseCache → Option DmxFrame × DmxUniverseCache
copy_exchanged universe (dirty, c) = (if dirty then copy_frame c universe else none, c)

-- `consume_frame` with no other thread between.
unfoldable pub consume_frame : DmxUniverseCache → ℕ → Option DmxFrame × DmxUniverseCache
consume_frame c universe =
    if is_current c (slot_at c universe)
    then copy_exchanged universe (exchange_dirty c universe)
    else (none, c)

unfoldable pub recently_active : Option UniverseSlot → ℕ → ℕ → Bool
recently_active none now_us active_window_us = false
recently_active (some s) now_us active_window_us =
    if s.last_rx_us == 0 || ltb now_us s.last_rx_us
    then false
    else leb (now_us - s.last_rx_us) active_window_us

unfoldable pub active_of : DmxUniverseCache → List ℕ → ℕ → ℕ → List ℕ
active_of c [] now_us active_window_us = []
active_of c (universe ∷ rest) now_us active_window_us =
    let later = active_of c rest now_us active_window_us in
    if recently_active (slot_at c universe) now_us active_window_us then universe ∷ later else later

unfoldable pub get_active_universes : DmxUniverseCache → ℕ → ℕ → List ℕ
get_active_universes c now_us active_window_us =
    active_of c c.active_universe_ids now_us active_window_us
