-- ===== src/Dmx/Receiver.antt =====
-- native/src/dmx/artnet_receiver.h and .cpp: what the receiver does with a datagram and with the
-- datagrams of one wake of its socket. The socket and the clock are the arguments: the bytes that
-- `recv_from` gave, the sender, the time of `now_microseconds`. `none` is the fault of an index
-- outside the metadata table.
pub mod Balance
pub mod Faults
pub mod Wakes
pub mod Stats
use mathlib.Core.Option
use peraviz.Prelude.{
  ℕ, ◌+◌, max, Bool, true, false, Option, none, some, List, [], ◌∷◌, ltb, leb, ◌==◌, if◌then◌else◌,
  increment32, increment64, sub64, length,
}
use peraviz.Dmx.Parser
use peraviz.Dmx.Parser.{ArtNetDmxFrameView}
use peraviz.Dmx.Sequence.{ArtNetEndpoint, ArtNetSequenceTracker, ArtNetSequenceDecision}
use peraviz.Dmx.Sequence
use peraviz.Dmx.Metadata
use peraviz.Dmx.Metadata.{DmxNetworkMetadataCache}
use peraviz.Dmx.Cache
use peraviz.Dmx.Cache.{DmxUniverseCache}
use peraviz.Dmx.Monitor
use peraviz.Dmx.Monitor.{MonitorCaptureBudget}
use peraviz.Dmx.Mailbox.State.{Mailbox, reset_session}
use peraviz.Dmx.Mailbox.Publish.{publish}

pub record Counters : Type 0 where
  pub packets_received : ℕ
  pub valid_artdmx_packets : ℕ
  pub packets_ignored_malformed : ℕ
  pub packets_dropped_out_of_order : ℕ
  pub valid_artdmx_accepted : ℕ
  pub source_changes : ℕ
  pub monitor_payload_captures : ℕ
  pub monitor_payload_skipped_budget : ℕ
  pub drain_wake_count : ℕ
  pub max_datagrams_drained_per_wake : ℕ

pub record Rate : Type 0 where
  pub last_packet_us : ℕ
  pub second_window_us : ℕ
  pub packets_in_window : ℕ
  pub accepted_artdmx_per_second : ℕ

pub record ArtNetReceiver : Type 0 where
  pub running : Bool
  pub cache : DmxUniverseCache
  pub metadata_cache : DmxNetworkMetadataCache
  pub realtime_mailbox : Mailbox
  pub monitor_capture_budget : MonitorCaptureBudget
  pub monitor_capture_session : ℕ
  pub sequence_tracker : ArtNetSequenceTracker
  pub counters : Counters
  pub rate : Rate

-- A datagram that `recv_from` has given: its first 1024 bytes, at least one. Where `recv_from` gives
-- 0 or an error, the inner loop of `run` ends.
pub record Datagram : Type 0 where
  pub bytes : List ℕ
  pub sender : ArtNetEndpoint
  pub time_us : ℕ

unfoldable pub record_packet_time : Rate → ℕ → Rate
record_packet_time r packet_time_us =
    let timed = record r { last_packet_us = packet_time_us } in
    if r.second_window_us == 0
    then record timed { second_window_us = packet_time_us; packets_in_window = 1 }
    else if leb 1000000 (sub64 packet_time_us r.second_window_us)
    then record timed {
      accepted_artdmx_per_second = r.packets_in_window;
      second_window_us = packet_time_us;
      packets_in_window = 1;
    }
    else record timed { packets_in_window = increment32 r.packets_in_window }

-- `should_accept_frame`.
unfoldable pub should_accept_frame :
    ArtNetReceiver → ArtNetDmxFrameView → ArtNetEndpoint → Bool × ArtNetReceiver
should_accept_frame r view endpoint =
    let (decision, tracker) =
      Sequence.accept r.sequence_tracker view.universe_id view.sequence endpoint in
    (
      decision.accepted,
      record r {
        sequence_tracker = tracker;
        counters =
            if decision.source_changed
            then record r.counters { source_changes = increment64 r.counters.source_changes }
            else r.counters;
      },
    )

-- The part of `run` that copies a payload for the technical monitor.
unfoldable pub capture_payload : ArtNetReceiver → ArtNetDmxFrameView → ℕ → ArtNetReceiver
capture_payload r view now =
    let (granted, budget) = Monitor.try_acquire r.monitor_capture_budget now in
    if r.monitor_capture_session == 0
    then r
    else if granted
    then record r {
      monitor_capture_budget = budget;
      cache =
          Cache.write_frame r.cache view.universe_id (some view.payload) view.length view.sequence
            now r.monitor_capture_session;
      counters = record r.counters {
        monitor_payload_captures = increment64 r.counters.monitor_payload_captures;
      };
    }
    else record r {
      monitor_capture_budget = budget;
      counters = record r.counters {
        monitor_payload_skipped_budget = increment64 r.counters.monitor_payload_skipped_budget;
      };
    }

unfoldable pub publish_frame :
    ArtNetReceiver → DmxNetworkMetadataCache → ArtNetDmxFrameView → ℕ → ArtNetReceiver
publish_frame r metadata view now = record r {
  metadata_cache = metadata;
  realtime_mailbox =
      (publish r.realtime_mailbox view.universe_id (some view.payload) view.length view.sequence
        now).1;
}

unfoldable pub count_accepted : ArtNetReceiver → ℕ → ArtNetReceiver
count_accepted r now = record r {
  counters = record r.counters {
    valid_artdmx_accepted = increment64 r.counters.valid_artdmx_accepted;
  };
  rate = record_packet_time r.rate now;
}

-- What follows in `run` once the metadata is recorded.
unfoldable pub finish_frame :
    ArtNetReceiver → DmxNetworkMetadataCache → ArtNetDmxFrameView → ℕ → ArtNetReceiver
finish_frame r metadata view now =
    count_accepted (capture_payload (publish_frame r metadata view now) view now) now

unfoldable pub accepted_frame :
    ArtNetReceiver → ArtNetDmxFrameView → Datagram → Option ArtNetReceiver
accepted_frame r view d =
    Option.map (λ metadata. finish_frame r metadata view d.time_us)
      (Metadata.observe r.metadata_cache view.universe_id view.length view.sequence d.time_us
        d.sender.ipv4 d.sender.port)

unfoldable pub count_dropped : ArtNetReceiver → ArtNetReceiver
count_dropped r = record r {
  counters = record r.counters {
    packets_dropped_out_of_order = increment64 r.counters.packets_dropped_out_of_order;
  };
}

unfoldable pub valid_frame : ArtNetReceiver → ArtNetDmxFrameView → Datagram → Option ArtNetReceiver
valid_frame r view d =
    let (accepted, r') = should_accept_frame r view d.sender in
    if accepted then accepted_frame r' view d else some (count_dropped r')

unfoldable pub count_malformed : ArtNetReceiver → ArtNetReceiver
count_malformed r = record r {
  counters = record r.counters {
    packets_received = increment64 r.counters.packets_received;
    packets_ignored_malformed = increment64 r.counters.packets_ignored_malformed;
  };
}

unfoldable pub count_valid : ArtNetReceiver → ArtNetReceiver
count_valid r = record r {
  counters = record r.counters {
    packets_received = increment64 r.counters.packets_received;
    valid_artdmx_packets = increment64 r.counters.valid_artdmx_packets;
  };
}

abbrev pub parsed_datagram :
    ArtNetReceiver → Datagram → Option ArtNetDmxFrameView → Option ArtNetReceiver
parsed_datagram r d none = some (count_malformed r)
parsed_datagram r d (some view) = valid_frame (count_valid r) view d

-- One round of the inner loop of `run` that has read a datagram.
unfoldable pub process_datagram : ArtNetReceiver → Datagram → Option ArtNetReceiver
process_datagram r d = parsed_datagram r d (Parser.parse (some d.bytes))

unfoldable pub process_datagrams : ArtNetReceiver → List Datagram → Option ArtNetReceiver
process_datagrams r [] = some r
process_datagrams r (d ∷ ds) = elim (process_datagram r d) [
  | none ↦ none
  | some r' ↦ process_datagrams r' ds
]

unfoldable pub begin_wake : ArtNetReceiver → ArtNetReceiver
begin_wake r = record r {
  monitor_capture_budget = Monitor.begin_drain r.monitor_capture_budget;
  counters = record r.counters { drain_wake_count = increment64 r.counters.drain_wake_count };
}

unfoldable pub end_wake : ℕ → ArtNetReceiver → ArtNetReceiver
end_wake datagrams_drained r = record r {
  counters = record r.counters {
    max_datagrams_drained_per_wake =
        max r.counters.max_datagrams_drained_per_wake datagrams_drained;
  };
}

-- One wake of the socket: the datagrams read until there is none left.
unfoldable pub drain : ArtNetReceiver → List Datagram → Option ArtNetReceiver
drain r ds = Option.map (end_wake (length ds)) (process_datagrams (begin_wake r) ds)

unfoldable pub set_monitor_capture_enabled : ArtNetReceiver → Bool → ArtNetReceiver
set_monitor_capture_enabled r false = record r { monitor_capture_session = 0 }
set_monitor_capture_enabled r true =
    let (session, cache) = Cache.begin_capture_session r.cache in
    if r.monitor_capture_session == 0
    then record r { monitor_capture_session = session; cache = cache }
    else r

-- `stop`, the socket and the thread apart.
unfoldable pub stop : ArtNetReceiver → ArtNetReceiver
stop r = record r { running = false; realtime_mailbox = reset_session r.realtime_mailbox }

-- What `start` does to the state once the socket is bound.
unfoldable pub started : ArtNetReceiver → ArtNetReceiver
started r = if r.running then r else record r { sequence_tracker = Sequence.reset; running = true }
