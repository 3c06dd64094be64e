-- ===== src/Dmx/Mailbox/Stats.antt =====
-- `stats` of native/src/dmx/realtime_universe_mailbox.cpp.
use peraviz.Prelude.{ℕ, ◌+◌, ◌*◌, Option, none, some, length}
use peraviz.Dmx.Subscription.{RealtimeSubscription}
use peraviz.Dmx.Mailbox.State.{Mailbox}

pub record RealtimeMailboxStats : Type 0 where
  pub relevant_packets : ℕ
  pub irrelevant_packets : ℕ
  pub unchanged_relevant_packets : ℕ
  pub state_updates : ℕ
  pub coalesced_states : ℕ
  pub dirty_states_consumed : ℕ
  pub pending_dirty : ℕ
  pub pending_high_water : ℕ
  pub allocated_slots : ℕ
  pub subscribed_universes : ℕ
  pub approximate_bytes : ℕ

abbrev pub universe_count : Option RealtimeSubscription → ℕ
universe_count none = 0
universe_count (some s) = length s.universes

-- The first two arguments are `sizeof(*this)` and `sizeof(Slot)`.
unfoldable pub stats : ℕ → ℕ → Mailbox → RealtimeMailboxStats
stats mailbox_size slot_size m = record {
  relevant_packets = m.relevant_packets;
  irrelevant_packets = m.irrelevant_packets;
  unchanged_relevant_packets = m.unchanged_relevant_packets;
  state_updates = m.state_updates;
  coalesced_states = m.coalesced_states;
  dirty_states_consumed = m.dirty_states_consumed;
  pending_dirty = m.dirty_count;
  pending_high_water = m.pending_high_water;
  allocated_slots = m.allocated_slots;
  subscribed_universes = universe_count m.subscription;
  approximate_bytes = mailbox_size + m.allocated_slots * slot_size;
}
