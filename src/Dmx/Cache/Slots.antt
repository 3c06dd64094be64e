-- ===== src/Dmx/Cache/Slots.antt =====
-- One slot of native/src/dmx/dmx_universe_cache.cpp and its two buffers.
use peraviz.Prelude.{
  ℕ, zero, suc, ◌-◌, ◌≤◌, ◌<◌, ◌≡◌, ◌∙◌, ◌≢◌, inl, inr, true, List, [], ◌∷◌, arith, ltb,
  if◌then◌else◌, length, get_or, take, drop, max, length-append, length-take, length-drop,
  length-replicate, Bool-cases,
}
use peraviz.Dmx.Cache.{
  UniverseSlot, new_slot, buffer_at, copy_prefix, current_length, merged, write_slot,
}

-- The buffers have their 512 bytes, and the front is one of them.
pub record IsValidSlot (s : UniverseSlot) : Type 0 where
  pub size_0 : length s.buffer_0 ≡ 512
  pub size_1 : length s.buffer_1 ≡ 512
  pub front : s.front_index < 2
  pub bounded : s.length ≤ 512

length-copy_prefix :
    (n : ℕ) (xs ys : List ℕ)
    → n ≤ length xs
    → n ≤ length ys
    → length (copy_prefix n xs ys) ≡ length ys
length-copy_prefix n xs ys h k =
    omega (arith, length-append (take n xs) (drop n ys), length-take n xs, length-drop n ys)

pub get-copy_prefix :
    (n : ℕ) (xs ys : List ℕ) (i : ℕ)
    → n ≤ length xs
    → n ≤ length ys
    → get_or (copy_prefix n xs ys) i 0 ≡ (if ltb i n then get_or xs i 0 else get_or ys i 0)
get-copy_prefix zero xs ys i h k = ground arith
get-copy_prefix (suc n) [] ys i h k = absurd (omega arith)
get-copy_prefix (suc n) (x ∷ xs) [] i h k = absurd (omega arith)
get-copy_prefix (suc n) (x ∷ xs) (y ∷ ys) zero h k = ground arith
get-copy_prefix (suc n) (x ∷ xs) (y ∷ ys) (suc i) h k = ground (arith, get-copy_prefix n xs ys i)

pub length-buffer : (s : UniverseSlot) (i : ℕ) → IsValidSlot s → length (buffer_at s i) ≡ 512
length-buffer s i v = ground arith

-- A write to a slot whose front index is 0 or 1 fills the buffer that was at the back, leaves the
-- one that was at the front as it was, and turns them round.
pub front-write :
    (s : UniverseSlot) (bytes : List ℕ) (n sequence now generation : ℕ)
    → s.front_index < 2
    → let s' = write_slot s bytes n sequence now generation in
      (buffer_at s' s'.front_index ≡ merged s bytes n generation)
      × (buffer_at s' s.front_index ≡ buffer_at s s.front_index)
      × (s'.front_index < 2)
      × (s'.front_index ≢ s.front_index)
unfolding write_slot
front-write s bytes n sequence now generation h = ground arith

current_le : (s : UniverseSlot) (generation : ℕ) → IsValidSlot s → current_length s generation ≤ 512
unfolding current_length
current_le s generation v = ground arith

-- The older bytes, under the new ones.
abbrev kept_bytes : UniverseSlot → ℕ → List ℕ
kept_bytes s generation =
    copy_prefix (current_length s generation) (buffer_at s s.front_index)
      (buffer_at s (1 - s.front_index))

length-kept_bytes :
    (s : UniverseSlot) (generation : ℕ) → IsValidSlot s → length (kept_bytes s generation) ≡ 512
length-kept_bytes s generation v =
    let old = current_le s generation v in
    let front = length-buffer s s.front_index v in
    let back = length-buffer s (1 - s.front_index) v in
    length-copy_prefix (current_length s generation) (buffer_at s s.front_index)
      (buffer_at s (1 - s.front_index)) (omega (arith, old, front)) (omega (arith, old, back))
    ∙ back

get-kept_bytes :
    (s : UniverseSlot) (generation i : ℕ)
    → IsValidSlot s
    → i < current_length s generation
    → get_or (kept_bytes s generation) i 0 ≡ get_or (buffer_at s s.front_index) i 0
get-kept_bytes s generation i v lt =
    let old = current_le s generation v in
    let front = length-buffer s s.front_index v in
    let back = length-buffer s (1 - s.front_index) v in
    let inside : ltb i (current_length s generation) ≡ true = ground arith in
    let got =
      get-copy_prefix (current_length s generation) (buffer_at s s.front_index)
        (buffer_at s (1 - s.front_index)) i (omega (arith, old, front))
        (omega (arith, old, back)) in
    rw inside at got

length-merged :
    (s : UniverseSlot) (bytes : List ℕ) (n generation : ℕ)
    → IsValidSlot s
    → n ≤ 512
    → n ≤ length bytes
    → length (merged s bytes n generation) ≡ 512
unfolding merged
length-merged s bytes n generation v h k =
    let kept = length-kept_bytes s generation v in
    length-copy_prefix n bytes (kept_bytes s generation) k (omega (arith, kept)) ∙ kept

pub get-merged :
    (s : UniverseSlot) (bytes : List ℕ) (n generation i : ℕ)
    → IsValidSlot s
    → n ≤ 512
    → n ≤ length bytes
    → i < max (current_length s generation) n
    → get_or (merged s bytes n generation) i 0
      ≡ (if ltb i n then get_or bytes i 0 else get_or (buffer_at s s.front_index) i 0)
unfolding merged
get-merged s bytes n generation i v h k lt =
    let kept = length-kept_bytes s generation v in
    let outer = get-copy_prefix n bytes (kept_bytes s generation) i k (omega (arith, kept)) in
    outer ∙ elim (Bool-cases (ltb i n)) [
      | inl new ↦ rw new
      | inr old ↦ rw old (get-kept_bytes s generation i v (ground arith))
    ]

-- A write keeps the slot well-formed, if the packet has the bytes that it announces.
pub write_slot-IsValidSlot :
    (s : UniverseSlot) (bytes : List ℕ) (n sequence now generation : ℕ)
    → IsValidSlot s
    → n ≤ 512
    → n ≤ length bytes
    → IsValidSlot (write_slot s bytes n sequence now generation)
unfolding write_slot
write_slot-IsValidSlot s bytes n sequence now generation v h k =
    ground (arith, length-merged s bytes n generation v h k, current_le s generation v)

pub new_slot-IsValidSlot : IsValidSlot new_slot
new_slot-IsValidSlot = record {
  size_0 = length-replicate {0} {A = ℕ} 512 0;
  size_1 = length-replicate {0} {A = ℕ} 512 0;
  front = omega arith;
  bounded = omega arith;
}
