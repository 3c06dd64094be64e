-- ===== src/Dmx/Receiver/Stats.antt =====
-- What native/src/dmx/artnet_receiver.cpp tells its clients: `get_stats` and the calls that it
-- passes on to its parts.
use peraviz.Prelude.{ℕ, ◌+◌, ◌*◌, Bool, Option, List}
use peraviz.Dmx.Frame.{DmxFrame, DmxUniverseMetadata}
use peraviz.Dmx.Subscription.{RealtimeSubscription}
use peraviz.Dmx.Mailbox.State.{set_subscription}
use peraviz.Dmx.Mailbox.Consume.{consume_dirty_frames, held_states}
use peraviz.Dmx.Mailbox.Stats.{stats}
use peraviz.Dmx.Metadata
use peraviz.Dmx.Cache
use peraviz.Dmx.Receiver.{ArtNetReceiver}

-- The sizes of the objects that `sizeof` gives.
pub record ObjectSizes : Type 0 where
  pub mailbox : ℕ
  pub mailbox_slot : ℕ
  pub metadata_slot : ℕ
  pub universe_slot : ℕ

pub record ArtNetReceiverStats : Type 0 where
  pub running : Bool
  pub accepted_artdmx_per_second : ℕ
  pub packets_received : ℕ
  pub valid_artdmx_packets : ℕ
  pub packets_ignored_malformed : ℕ
  pub packets_dropped_out_of_order : ℕ
  pub valid_artdmx_accepted : ℕ
  pub drain_wake_count : ℕ
  pub max_datagrams_drained_per_wake : ℕ
  pub source_changes : ℕ
  pub relevant_packets : ℕ
  pub irrelevant_packets : ℕ
  pub relevant_unchanged_packets : ℕ
  pub relevant_state_updates : ℕ
  pub mailbox_overwrites : ℕ
  pub mailbox_pending_dirty : ℕ
  pub mailbox_pending_high_water : ℕ
  pub mailbox_allocated_slots : ℕ
  pub mailbox_subscribed_universes : ℕ
  pub mailbox_approximate_bytes : ℕ
  pub scene_dirty_states_consumed : ℕ
  pub monitor_payload_captures : ℕ
  pub monitor_payload_skipped_budget : ℕ
  pub active_slot_count : ℕ
  pub approximate_cache_bytes : ℕ
  pub last_packet_us : ℕ
  pub active_universes : List ℕ

unfoldable pub get_stats : ObjectSizes → ArtNetReceiver → ℕ → ℕ → ArtNetReceiverStats
get_stats sizes r now_us active_window_us =
    let mailbox = stats sizes.mailbox sizes.mailbox_slot r.realtime_mailbox in
    record {
      running = r.running;
      accepted_artdmx_per_second = r.rate.accepted_artdmx_per_second;
      packets_received = r.counters.packets_received;
      valid_artdmx_packets = r.counters.valid_artdmx_packets;
      packets_ignored_malformed = r.counters.packets_ignored_malformed;
      packets_dropped_out_of_order = r.counters.packets_dropped_out_of_order;
      valid_artdmx_accepted = r.counters.valid_artdmx_accepted;
      drain_wake_count = r.counters.drain_wake_count;
      max_datagrams_drained_per_wake = r.counters.max_datagrams_drained_per_wake;
      source_changes = r.counters.source_changes;
      relevant_packets = mailbox.relevant_packets;
      irrelevant_packets = mailbox.irrelevant_packets;
      relevant_unchanged_packets = mailbox.unchanged_relevant_packets;
      relevant_state_updates = mailbox.state_updates;
      mailbox_overwrites = mailbox.coalesced_states;
      mailbox_pending_dirty = mailbox.pending_dirty;
      mailbox_pending_high_water = mailbox.pending_high_water;
      mailbox_allocated_slots = mailbox.allocated_slots;
      mailbox_subscribed_universes = mailbox.subscribed_universes;
      mailbox_approximate_bytes = mailbox.approximate_bytes;
      scene_dirty_states_consumed = mailbox.dirty_states_consumed;
      monitor_payload_captures = r.counters.monitor_payload_captures;
      monitor_payload_skipped_budget = r.counters.monitor_payload_skipped_budget;
      active_slot_count = Metadata.slot_count r.metadata_cache;
      approximate_cache_bytes =
          Metadata.approximate_bytes sizes.metadata_slot r.metadata_cache
          + r.cache.active_slot_count * sizes.universe_slot;
      last_packet_us = r.rate.last_packet_us;
      active_universes = Metadata.active r.metadata_cache now_us active_window_us;
    }

-- `try_get_frame` and `try_get_metadata`; as in `get`, the outer `none` is a fault.
unfoldable pub receiver_frame : ArtNetReceiver → ℕ → Option DmxFrame
receiver_frame r universe = Cache.try_get_frame r.cache universe

unfoldable pub receiver_metadata : ArtNetReceiver → ℕ → Option (Option DmxUniverseMetadata)
receiver_metadata r universe = Metadata.get r.metadata_cache universe

unfoldable pub set_realtime_subscription :
    ArtNetReceiver → Option RealtimeSubscription → ArtNetReceiver
set_realtime_subscription r next = record r {
  realtime_mailbox = set_subscription r.realtime_mailbox next;
}

unfoldable pub consume_realtime_frames : ArtNetReceiver → List DmxFrame × ArtNetReceiver
consume_realtime_frames r =
    let (frames, mailbox) = consume_dirty_frames r.realtime_mailbox in
    (frames, record r { realtime_mailbox = mailbox })

unfoldable pub get_realtime_held_states : ArtNetReceiver → List DmxFrame
get_realtime_held_states r = held_states r.realtime_mailbox
