-- ===== src/Dmx/Cache/Laws.antt =====
-- What readers of native/src/dmx/dmx_universe_cache.cpp get of the frames written to it.
use peraviz.Prelude.{
  ℕ, zero, suc, ◌≤◌, ◌<◌, ◌≡◌, ◌≢◌, refl, sym, ap, ◌∙◌, true, false, ◌||◌, Option, none, some, List,
  [], ◌∷◌, arith, ltb, leb, ◌==◌, if◌then◌else◌, length, set, get_or, min, max, replicate,
  length-set, length-replicate,
}
use peraviz.Dmx.Frame.{DmxFrame}
use peraviz.Dmx.Cache.{
  UniverseSlot, DmxUniverseCache, new_slot, buffer_at, slot_at, current_length, payload_changed,
  write_slot, get_or_create_slot, write_frame, frame_of, try_get_frame,
}
use peraviz.Dmx.Cache.Slots.{
  IsValidSlot, get-copy_prefix, length-buffer, front-write, get-merged, write_slot-IsValidSlot,
}

-- The slot that a packet for the universe is written to.
abbrev pub target : DmxUniverseCache → ℕ → UniverseSlot
target c u = (get_or_create_slot c u).0

-- The value of a slot of the universe, in the frame that a reader gets.
abbrev pub value_at : DmxFrame → ℕ → ℕ
value_at f i = get_or f.payload i 0

-- What a reader gets after a write: in the session of the slot the old bytes stay below the new
-- ones, and a new session starts with the packet's bytes alone.
pub record ReadsBack (s : UniverseSlot) (u : ℕ) (bytes : List ℕ) (n sequence now generation : ℕ)
    (f : DmxFrame) : Type 0 where
  pub universe : f.universe_id ≡ u
  pub size_kept : s.capture_generation ≡ generation → f.length ≡ max s.length n
  pub size_new : s.capture_generation ≢ generation → f.length ≡ n
  pub new_bytes : (i : ℕ) → i < n → value_at f i ≡ get_or bytes i 0
  pub old_bytes :
      s.capture_generation ≡ generation
      → (i : ℕ) → n ≤ i
      → i < s.length
      → value_at f i ≡ get_or (buffer_at s s.front_index) i 0
  pub time : f.last_rx_us ≡ now
  pub number : f.sequence ≡ sequence

current_length-same :
    (s : UniverseSlot) (generation : ℕ)
    → s.capture_generation ≡ generation
    → current_length s generation ≡ s.length
unfolding current_length
current_length-same s generation h = ground arith

current_length-other :
    (s : UniverseSlot) (generation : ℕ)
    → s.capture_generation ≢ generation
    → current_length s generation ≡ 0
unfolding current_length
current_length-other s generation h = ground arith

write_slot-fields :
    (s : UniverseSlot) (bytes : List ℕ) (n sequence now generation : ℕ)
    → let s' = write_slot s bytes n sequence now generation in
      (s'.length ≡ max (current_length s generation) n)
      × (s'.last_rx_us ≡ now)
      × (s'.sequence ≡ sequence)
      × (s'.capture_generation ≡ generation)
      × (s'.dirty ≡ (payload_changed s bytes n generation || s.dirty))
unfolding write_slot
write_slot-fields s bytes n sequence now generation = ground arith

value_at-frame_of :
    (s : UniverseSlot) (u i : ℕ)
    → IsValidSlot s
    → i < s.length
    → value_at (frame_of u s) i ≡ get_or (buffer_at s s.front_index) i 0
unfolding frame_of
value_at-frame_of s u i v lt =
    let inside : ltb i s.length ≡ true = ground arith in
    let got =
      get-copy_prefix s.length (buffer_at s s.front_index) (replicate 512 0) i
        (omega (arith, length-buffer s s.front_index v, v.bounded))
        (omega (arith, length-replicate {0} {A = ℕ} 512 0, v.bounded)) in
    rw inside at got

frame_of-ReadsBack :
    (s : UniverseSlot) (u : ℕ) (bytes : List ℕ) (n sequence now generation : ℕ)
    → IsValidSlot s
    → n ≤ 512
    → n ≤ length bytes
    → ReadsBack s u bytes n sequence now generation
        (frame_of u (write_slot s bytes n sequence now generation))
unfolding frame_of
frame_of-ReadsBack s u bytes n sequence now generation v h k =
    let valid = write_slot-IsValidSlot s bytes n sequence now generation v h k in
    let fields = write_slot-fields s bytes n sequence now generation in
    let front = (front-write s bytes n sequence now generation v.front).0 in
    let read : (i : ℕ)
        → i < max (current_length s generation) n
        → value_at (frame_of u (write_slot s bytes n sequence now generation)) i
          ≡ (if ltb i n then get_or bytes i 0 else get_or (buffer_at s s.front_index) i 0) =
      λ i lt.
        value_at-frame_of _ u i valid (omega (arith, fields.0))
        ∙ ap (λ b. get_or b i 0) front
        ∙ get-merged s bytes n generation i v h k lt in
    record {
      universe = refl;
      size_kept = λ same. omega (arith, fields.0, current_length-same s generation same);
      size_new = λ other. omega (arith, fields.0, current_length-other s generation other);
      new_bytes = λ i lt. read i (omega arith) ∙ ground arith;
      old_bytes = λ same i ge lt.
          read i (omega (arith, current_length-same s generation same)) ∙ ground arith;
      time = fields.1;
      number = fields.2;
    }

pub get_or-set_self :
    (xs : List (Option UniverseSlot)) (i : ℕ) (o : Option UniverseSlot)
    → i < length xs
    → get_or (set xs i o) i none ≡ o
get_or-set_self [] i o h = absurd (omega arith)
get_or-set_self (x ∷ xs) zero o h = refl
get_or-set_self (x ∷ xs) (suc i) o h = get_or-set_self xs i o (omega arith)

pub slot_at-set :
    (c : DmxUniverseCache) (slots : List (Option UniverseSlot)) (u : ℕ) (s : UniverseSlot)
    → u < length slots
    → c.slots ≡ set slots u (some s)
    → slot_at c u ≡ some s
unfolding slot_at
slot_at-set c slots u s h e =
    rw (e, length-set slots u (some s), get_or-set_self slots u (some s) h) (ground arith)

target-slots :
    (c : DmxUniverseCache) (u : ℕ) → length (get_or_create_slot c u).1.slots ≡ length c.slots
unfolding get_or_create_slot
target-slots c u = ground (arith, length-set c.slots u (some new_slot))

-- The cache that `write_frame` returns for a universe of the table.
abbrev written : DmxUniverseCache → ℕ → UniverseSlot → DmxUniverseCache
written c u s = record (get_or_create_slot c u).1 {
  slots = set (get_or_create_slot c u).1.slots u (some s);
}

write_frame-written :
    (c : DmxUniverseCache) (u : ℕ) (bytes : List ℕ) (n sequence now generation : ℕ)
    → u < length c.slots
    → write_frame c u (some bytes) n sequence now generation
      ≡ written c u (write_slot (target c u) bytes (min n 512) sequence now generation)
unfolding write_frame
write_frame-written c u bytes n sequence now generation h =
    let inside : leb (length c.slots) u ≡ false = ground arith in rw inside

target-generation :
    (c : DmxUniverseCache) (u : ℕ)
    → (get_or_create_slot c u).1.active_capture_generation ≡ c.active_capture_generation
unfolding get_or_create_slot
target-generation c u = ground arith

pub try_get_at :
    (c : DmxUniverseCache) (u : ℕ) (s : UniverseSlot)
    → slot_at c u ≡ some s
    → s.capture_generation ≡ c.active_capture_generation
    → try_get_frame c u ≡ some (frame_of u s)
unfolding try_get_frame
try_get_at c u s e current =
    let test : (s.capture_generation == c.active_capture_generation) ≡ true = ground arith in
    rw (e, try_get_frame, test)

-- After a packet of the active capture session, with the bytes that it announces, has been written
-- to a well-formed slot of a universe of the table, a reader gets a frame of that universe whose
-- first bytes are the packet's (at most 512), with its time and sequence number. If the slot was
-- last written in the same session, the further bytes are those of its front buffer up to its
-- length, and the length is the larger of both; if not, the length is the packet's.
pub try_get_frame-write_frame :
    (c : DmxUniverseCache) (u : ℕ) (bytes : List ℕ) (n sequence now : ℕ)
    → u < length c.slots
    → IsValidSlot (target c u)
    → min n 512 ≤ length bytes
    → (f : DmxFrame) × (try_get_frame
          (write_frame c u (some bytes) n sequence now c.active_capture_generation)
          u
        ≡ some f)
      × ReadsBack (target c u) u bytes (min n 512) sequence now c.active_capture_generation f
try_get_frame-write_frame c u bytes n sequence now h v k =
    let g = c.active_capture_generation in
    let s' = write_slot (target c u) bytes (min n 512) sequence now g in
    let at : slot_at (written c u s') u ≡ some s' =
      slot_at-set (written c u s') (get_or_create_slot c u).1.slots u s'
        (omega (arith, target-slots c u)) refl in
    (
      frame_of u s',
      rw (write_frame-written c u bytes n sequence now g h) (
          try_get_at (written c u s') u s' at (
            (write_slot-fields (target c u) bytes (min n 512) sequence now g).3
            ∙ sym (target-generation c u))),
      frame_of-ReadsBack (target c u) u bytes (min n 512) sequence now g v (omega arith) k,
    )

pub slot_at_in :
    (c : DmxUniverseCache) (u : ℕ) (s : UniverseSlot) → slot_at c u ≡ some s → u < length c.slots
unfolding slot_at
slot_at_in c u s e = ground arith
