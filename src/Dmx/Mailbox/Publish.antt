-- ===== src/Dmx/Mailbox/Publish.antt =====
-- native/src/dmx/realtime_universe_mailbox.cpp: `publish` and the ring of dirty tokens that it
-- fills. A function is one critical section of `state_mutex_`.
use peraviz.Prelude.{
  ℕ, ◌+◌, ◌-◌, ◌%◌, min, max, Bool, true, false, not, ◌&&◌, ◌||◌, Option, none, some, List, ◌++◌,
  ltb, leb, ◌==◌, if◌then◌else◌, length, get_or, set, take, replicate, increment64, increment32,
}
use peraviz.Dmx.Frame.{DmxFrame, dmx_slot_count}
use peraviz.Dmx.Subscription.{OffsetMask, any_below}
use peraviz.Dmx.Mailbox.State.{Slot, DirtyToken, Mailbox, slot_at, set_slot, subscribed, relevant}

-- The slot is the one of `universe`, which the caller has fetched; it is written back here.
unfoldable pub enqueue_dirty_locked : Mailbox → ℕ → Slot → Mailbox
enqueue_dirty_locked m universe s =
    if s.queued || leb (length m.dirty_tokens) m.dirty_count
    then record m { slots = set_slot m.slots universe s }
    else (let tail = (m.dirty_head + m.dirty_count) % length m.dirty_tokens in
        let id = increment64 m.next_token_id in
        let token : DirtyToken = record {
          universe = universe;
          generation = s.generation;
          token_id = id;
        } in
        record m {
          next_token_id = id;
          dirty_tokens = set m.dirty_tokens tail token;
          dirty_count = m.dirty_count + 1;
          pending_high_water = max m.pending_high_water (m.dirty_count + 1);
          slots = set_slot m.slots universe (record s { token_id = id; queued = true });
        })

-- Whether the packet differs from the held state at a slot of the mask. The source stops at the
-- first difference. A read past the end of the buffers is a 0 here; `publish` is called with
-- `length` bytes at least.
unfoldable pub differs : OffsetMask → List ℕ → ℕ → DmxFrame → Bool
differs mask payload safe_length held = any_below dmx_slot_count λ o.
    mask o
    && not (
        (if ltb o safe_length then get_or payload o 0 else 0)
        == (if ltb o held.length then get_or held.payload o 0 else 0))

unfoldable pub held_update : DmxFrame → ℕ → List ℕ → ℕ → ℕ → ℕ → DmxFrame
held_update held universe payload safe_length sequence now_us = record held {
  last_rx_us = now_us;
  sequence = sequence;
  universe_id = universe;
  length = safe_length;
  payload = take safe_length payload ++ replicate (dmx_slot_count - safe_length) 0;
  counter = increment32 held.counter;
}

-- The end of `publish`, for a slot whose state has changed.
unfoldable pub publish_changed : Mailbox → ℕ → Slot → DmxFrame → Mailbox
publish_changed m universe s held =
    let s' = record s { held = held; initialized = true } in
    let counted = record m { state_updates = increment64 m.state_updates } in
    if s.dirty
    then record counted {
      coalesced_states = increment64 m.coalesced_states;
      slots = set_slot m.slots universe s';
    }
    else enqueue_dirty_locked counted universe (record s' { dirty = true })

-- The test `changed` of `publish`.
unfoldable pub changes : Mailbox → ℕ → Slot → List ℕ → ℕ → Bool
changes m universe s payload safe_length =
    not s.initialized || differs (relevant m.subscription universe) payload safe_length s.held

-- The rest of `publish`, once it has the slot.
unfoldable pub publish_slot : Mailbox → ℕ → Slot → List ℕ → ℕ → ℕ → ℕ → Bool × Mailbox
publish_slot m universe s payload safe_length sequence now_us =
    if changes m universe s payload safe_length
    then (
      true,
      publish_changed m universe s
          (held_update s.held universe payload safe_length sequence now_us),
    )
    else (
      false,
      record m {
        unchanged_relevant_packets = increment64 m.unchanged_relevant_packets;
        slots =
            set_slot m.slots universe
              (record s { held = record s.held { last_rx_us = now_us; sequence = sequence } });
      },
    )

-- `publish` for a subscribed universe, by the slot that it finds.
unfoldable pub publish_at : Mailbox → ℕ → List ℕ → ℕ → ℕ → ℕ → Option Slot → Bool × Mailbox
publish_at m universe payload packet_length sequence now_us none =
    (false, record m { relevant_packets = increment64 m.relevant_packets })
publish_at m universe payload packet_length sequence now_us (some s) =
    let counted = record m { relevant_packets = increment64 m.relevant_packets } in
    if s.generation == m.subscription_generation
    then publish_slot counted universe s payload (min packet_length dmx_slot_count) sequence now_us
    else (false, counted)

unfoldable pub publish : Mailbox → ℕ → Option (List ℕ) → ℕ → ℕ → ℕ → Bool × Mailbox
publish m universe none packet_length sequence now_us =
    (false, record m { irrelevant_packets = increment64 m.irrelevant_packets })
publish m universe (some payload) packet_length sequence now_us =
    if subscribed m.subscription universe
    then publish_at m universe payload packet_length sequence now_us (slot_at m.slots universe)
    else (false, record m { irrelevant_packets = increment64 m.irrelevant_packets })
