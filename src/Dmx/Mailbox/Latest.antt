-- ===== src/Dmx/Mailbox/Latest.antt =====
-- The held state that `publish` of native/src/dmx/realtime_universe_mailbox.cpp leaves, and that
-- it reaches the consumer.
use peraviz.Prelude.{
  ℕ, zero, suc, ◌-◌, ◌≤◌, ◌<◌, ◌≡◌, ◌≢◌, ◌⊎◌, ◌↔◌, refl, ap, subst, Bool, true, false, ◌||◌, Option,
  none, some, List, [], ◌∷◌, ◌++◌, arith, ltb, leb, ◌==◌, if◌then◌else◌, length, get_or, take,
  replicate, min, Bool-cases, increment64, inl, inr, Elem,
}
use peraviz.Dmx.Frame.{DmxFrame, dmx_slot_count}
use peraviz.Dmx.Subscription.{OffsetMask, any_below}
use peraviz.Dmx.Mailbox.State.{Slot, Mailbox, slot_at, subscribed, relevant}
use peraviz.Dmx.Mailbox.Publish.{
  publish, publish_at, publish_slot, publish_changed, changes, differs, held_update,
  enqueue_dirty_locked,
}
use peraviz.Dmx.Mailbox.Consume.{consume_dirty_frames}
use peraviz.Dmx.Mailbox.Agrees.{IsCovered, slot_at-set_self, slot_at_lt}
use peraviz.Dmx.Mailbox.Valid.{IsValid, publish-IsValid}
use peraviz.Dmx.Mailbox.Drain.{latest-Elem, consume_dirty_frames-IsDrained}

-- The value of slot `o` in the first `n` bytes of a packet, and in a frame.
abbrev pub packet_value : List ℕ → ℕ → ℕ → ℕ
packet_value payload n o = if ltb o n then get_or payload o 0 else 0

abbrev pub frame_value : DmxFrame → ℕ → ℕ
frame_value f o = if ltb o f.length then get_or f.payload o 0 else 0

any_below_none : (n : ℕ) (p : ℕ → Bool) (o : ℕ) → any_below n p ≡ false → o < n → p o ≡ false
unfolding any_below
any_below_none zero p o h lt = absurd (omega arith)
any_below_none (suc n) p o h lt = ground (arith, any_below_none n p o)

get-take :
    (k : ℕ) (xs ys : List ℕ) (o : ℕ)
    → o < k
    → k ≤ length xs
    → get_or (take k xs ++ ys) o 0 ≡ get_or xs o 0
get-take zero xs ys o h e = absurd (omega arith)
get-take (suc k) [] ys o h e = absurd (omega arith)
get-take (suc k) (x ∷ xs) ys zero h e = refl
get-take (suc k) (x ∷ xs) ys (suc o) h e = get-take k xs ys o (omega arith) (omega arith)

-- The frame that a change writes reads as the packet.
held_update-value :
    (f : DmxFrame) (u : ℕ) (payload : List ℕ) (n sequence now o : ℕ)
    → n ≤ length payload
    → frame_value (held_update f u payload n sequence now) o ≡ packet_value payload n o
unfolding held_update
held_update-value f u payload n sequence now o h =
    ground (arith, get-take n payload (replicate (dmx_slot_count - n) 0) o)

same-value :
    (mask : OffsetMask) (payload : List ℕ) (n : ℕ) (f : DmxFrame) (o : ℕ)
    → differs mask payload n f ≡ false
    → mask o ≡ true
    → o < 512
    → frame_value f o ≡ packet_value payload n o
unfolding differs
same-value mask payload n f o same wanted h = ground (arith, any_below_none 512 _ o same h)

-- A changed slot holds the new frame and is dirty.
record IsChanged (m' : Mailbox) (u : ℕ) (frame : DmxFrame) : Type 0 where
  slot : Slot
  at : slot_at m'.slots u ≡ some slot
  held : slot.held ≡ frame
  dirty : slot.dirty ≡ true

enqueue-IsChanged :
    (m : Mailbox) (u : ℕ) (s : Slot)
    → u < length m.slots
    → s.dirty ≡ true
    → IsChanged (enqueue_dirty_locked m u s) u s.held
unfolding enqueue_dirty_locked
enqueue-IsChanged m u s h dirty =
    elim (Bool-cases (s.queued || leb (length m.dirty_tokens) m.dirty_count)) [
      | inl full ↦
          rw full
            (record { slot = s; at = slot_at-set_self m.slots u s h; held = refl; dirty = dirty })
      | inr free ↦
          rw free
            (record { slot = _; at = slot_at-set_self m.slots u _ h; held = refl; dirty = dirty })
    ]

publish_changed-IsChanged :
    (m : Mailbox) (u : ℕ) (s : Slot) (frame : DmxFrame)
    → slot_at m.slots u ≡ some s
    → IsChanged (publish_changed m u s frame) u frame
unfolding publish_changed
publish_changed-IsChanged m u s frame e = elim (Bool-cases s.dirty) [
  | inl dirty ↦ rw dirty (record {
    slot = _;
    at = slot_at-set_self m.slots u _ (slot_at_lt m.slots u e);
    held = refl;
    dirty = refl;
  })
  | inr clean ↦ rw clean (enqueue-IsChanged _ u _ (slot_at_lt m.slots u e) refl)
]

-- What a packet leaves at its universe: the packet's time and sequence number, the packet's value
-- at every slot that the scene reads, and, where it says that something changed, a dirty slot that
-- holds the packet's frame.
pub record Published (m : Mailbox) (u : ℕ) (s : Slot) (payload : List ℕ) (n sequence now : ℕ)
    (out : Bool × Mailbox) : Type 0 where
  pub slot : Slot
  pub at : slot_at out.1.slots u ≡ some slot
  pub value :
      (o : ℕ)
      → o < 512
      → relevant m.subscription u o ≡ true
      → frame_value slot.held o ≡ packet_value payload n o
  pub time : slot.held.last_rx_us ≡ now
  pub number : slot.held.sequence ≡ sequence
  pub changed : (out.0 ≡ true) ↔ (
      (s.initialized ≡ false)
      ⊎ ((o : ℕ) × (o < 512)
          × (relevant m.subscription u o ≡ true)
          × (frame_value s.held o ≢ packet_value payload n o)))
  pub delivered :
      out.0 ≡ true → (slot.dirty ≡ true) × (slot.held ≡ held_update s.held u payload n sequence now)

-- A slot that the scene reads, at which the packet differs from the held frame.
abbrev Difference : OffsetMask → List ℕ → ℕ → DmxFrame → Type 0
Difference mask payload n f =
    (o : ℕ) × (o < 512) × (mask o ≡ true) × (frame_value f o ≢ packet_value payload n o)

any_below_some : (n : ℕ) (p : ℕ → Bool) → any_below n p ≡ true → (o : ℕ) × (o < n) × (p o ≡ true)
unfolding any_below
any_below_some zero p h = cc h
any_below_some (suc n) p h = elim (Bool-cases (p n)) [
  | inl here ↦ (n, omega arith, here)
  | inr there ↦
      let (o, lt, found) = any_below_some n p (ground arith) in (o, omega (arith, lt), found)
]

differs_iff :
    (mask : OffsetMask) (payload : List ℕ) (n : ℕ) (f : DmxFrame)
    → (differs mask payload n f ≡ true) ↔ Difference mask payload n f
unfolding differs
differs_iff mask payload n f = (
  (λ h. let (o, lt, found) = any_below_some 512 _ h in (o, lt, ground arith, ground arith)),
  λ d. elim (Bool-cases (differs mask payload n f)) [
    | inl differ ↦ differ
    | inr same ↦ absurd (d.3 (same-value mask payload n f d.0 same d.2 d.1))
  ],
)

changes_iff :
    (m : Mailbox) (u : ℕ) (s : Slot) (payload : List ℕ) (n : ℕ)
    → (changes m u s payload n ≡ true)
      ↔ ((s.initialized ≡ false) ⊎ Difference (relevant m.subscription u) payload n s.held)
unfolding changes
changes_iff m u s payload n =
    let (to, from) = differs_iff (relevant m.subscription u) payload n s.held in
    (
      (λ h. elim (Bool-cases s.initialized) [
        | inl known ↦ inr (to (ground arith))
        | inr new ↦ inl new
      ]),
      λ h. elim h [ inl new ↦ ground arith | inr d ↦ let differ = from d in ground arith ],
    )

no_difference :
    (m : Mailbox) (u : ℕ) (s : Slot) (payload : List ℕ) (n : ℕ)
    → changes m u s payload n ≡ false
    → differs (relevant m.subscription u) payload n s.held ≡ false
unfolding changes
no_difference m u s payload n h = ground arith

publish_slot-Published :
    (m : Mailbox) (u : ℕ) (s : Slot) (payload : List ℕ) (n sequence now : ℕ)
    → slot_at m.slots u ≡ some s
    → n ≤ length payload
    → Published m u s payload n sequence now (publish_slot m u s payload n sequence now)
unfolding publish_slot held_update
publish_slot-Published m u s payload n sequence now e h =
    elim (Bool-cases (changes m u s payload n)) [
      | inl new ↦
          let c = publish_changed-IsChanged m u s (held_update s.held u payload n sequence now) e in
          rw new (record {
            slot = c.slot;
            at = c.at;
            value = λ o _ _. rw c.held (held_update-value s.held u payload n sequence now o h);
            time = rw (c.held, held_update);
            number = rw (c.held, held_update);
            changed = rw new at (changes_iff m u s payload n);
            delivered = λ _. (c.dirty, c.held);
          })
      | inr old ↦ rw old (record {
        slot = _;
        at = slot_at-set_self m.slots u _ (slot_at_lt m.slots u e);
        value = λ o lt wanted.
            same-value _ payload n s.held o (no_difference m u s payload n old) wanted lt;
        time = refl;
        number = refl;
        changed = rw old at (changes_iff m u s payload n);
        delivered = λ f. cc f;
      })
    ]

-- A packet with the bytes that it announces (512 at most are read), for a subscribed universe
-- whose slot is of the current generation, leaves there its value at every slot of the universe
-- that the scene reads, with its time and sequence number; and `publish` says that something
-- changed exactly when the slot was not initialised or, at a slot that the scene reads, the held
-- frame and the packet have different values (0 past their lengths), and
-- then the slot is dirty and holds the packet's frame.
pub publish-Published :
    (m : Mailbox) (u : ℕ) (s : Slot) (payload : List ℕ) (n sequence now : ℕ)
    → subscribed m.subscription u ≡ true
    → slot_at m.slots u ≡ some s
    → s.generation ≡ m.subscription_generation
    → min n 512 ≤ length payload
    → Published m u s payload (min n 512) sequence now (publish m u (some payload) n sequence now)
unfolding publish publish_at
publish-Published m u s payload n sequence now wanted e current h =
    let same : (s.generation == m.subscription_generation) ≡ true = ground arith in
    rw (wanted, e, same)
      (uncounted (publish_slot-Published counted u s payload (min n 512) sequence now e h))
  where
    counted : Mailbox
    counted = record m { relevant_packets = increment64 m.relevant_packets }

    uncounted :
        {out : Bool × Mailbox}
        → Published counted u s payload (min n 512) sequence now out
        → Published m u s payload (min n 512) sequence now out
    uncounted p = record {
      slot = p.slot;
      at = p.at;
      value = p.value;
      time = p.time;
      number = p.number;
      changed = p.changed;
      delivered = p.delivered;
    }

-- Where `publish` says that something changed.
record IsAdmitted (m : Mailbox) (u : ℕ) : Type 0 where
  slot : Slot
  wanted : subscribed m.subscription u ≡ true
  at : slot_at m.slots u ≡ some slot
  current : slot.generation ≡ m.subscription_generation

IsAdmitted-at :
    (m : Mailbox) (u : ℕ) (payload : List ℕ) (n sequence now : ℕ) (o : Option Slot)
    → slot_at m.slots u ≡ o
    → subscribed m.subscription u ≡ true
    → (publish_at m u payload n sequence now o).0 ≡ true
    → IsAdmitted m u
unfolding publish_at
IsAdmitted-at m u payload n sequence now none e wanted h = cc h
IsAdmitted-at m u payload n sequence now (some s) e wanted h = record {
  slot = s;
  wanted = wanted;
  at = e;
  current = ground arith;
}

admitted :
    (m : Mailbox) (u : ℕ) (payload : List ℕ) (n sequence now : ℕ)
    → (publish m u (some payload) n sequence now).0 ≡ true
    → IsAdmitted m u
unfolding publish
admitted m u payload n sequence now h = elim (Bool-cases (subscribed m.subscription u)) [
  | inl wanted ↦ IsAdmitted-at m u payload n sequence now _ refl wanted (rw wanted at h)
  | inr unwanted ↦ cc (rw unwanted at h)
]

-- In a valid mailbox, a packet with the bytes that it announces (512 at most are read) of which
-- `publish` says that something changed is handed out by the next `consume_dirty_frames` that runs
-- with no other thread between: one of its frames has the packet's universe, bytes, length (both
-- cut to 512), time and sequence number.
pub publish-consumed :
    (m : Mailbox) (u : ℕ) (payload : List ℕ) (n sequence now : ℕ)
    → IsValid m
    → min n 512 ≤ length payload
    → (publish m u (some payload) n sequence now).0 ≡ true
    → (frame : DmxFrame) × Elem frame
        (consume_dirty_frames (publish m u (some payload) n sequence now).1).0
      × (frame.universe_id ≡ u)
      × (frame.length ≡ min n 512)
      × (frame.payload ≡ take (min n 512) payload ++ replicate (512 - min n 512) 0)
      × (frame.last_rx_us ≡ now)
      × (frame.sequence ≡ sequence)
unfolding held_update
publish-consumed m u payload n sequence now v h changed =
    let a = admitted m u payload n sequence now changed in
    let p = publish-Published m u a.slot payload n sequence now a.wanted a.at a.current h in
    let d = p.delivered changed in
    let valid = publish-IsValid m u (some payload) n sequence now v in
    let waiting : IsCovered _ u (some p.slot) =
      subst (IsCovered _ u) p.at (valid.agrees.covered u) in
    let out = consume_dirty_frames-IsDrained _ valid in
    (
      p.slot.held,
      rw out.frames (latest-Elem _ _ u p.slot p.at (waiting.1 d.0)),
      ap (λ f. f.universe_id) d.1,
      ap (λ f. f.length) d.1,
      ap (λ f. f.payload) d.1,
      p.time,
      p.number,
    )
