-- ===== src/Dmx/Tests/Receivers.antt =====
-- A receiver with all its universes, and the datagrams of one wake.
use peraviz.Prelude.{◌≡◌, refl, false, none, some, Option, [], ◌∷◌, arith, length, length-replicate}
use peraviz.Dmx.Parser.Packets.{art_dmx_packet}
use peraviz.Dmx.Sequence
use peraviz.Dmx.Sequence.{ArtNetEndpoint}
use peraviz.Dmx.Metadata
use peraviz.Dmx.Metadata.Laws.{new_cache-IsValid}
use peraviz.Dmx.Cache
use peraviz.Dmx.Monitor
use peraviz.Dmx.Mailbox.State.{new_mailbox}
use peraviz.Dmx.Mailbox.Calls.{new_mailbox-IsValid}
use peraviz.Dmx.Receiver.{ArtNetReceiver, Datagram, Counters, process_datagram, drain}
use peraviz.Dmx.Receiver.Balance.{IsBalanced}
use peraviz.Dmx.Receiver.Faults.{
  IsSound, IsHandled, process_datagram-IsHandled, process_datagram_fault,
}
use peraviz.Dmx.Receiver.Wakes.{drain-IsSound}

abbrev no_counts : Counters
no_counts = record {
  packets_received = 0;
  valid_artdmx_packets = 0;
  packets_ignored_malformed = 0;
  packets_dropped_out_of_order = 0;
  valid_artdmx_accepted = 0;
  source_changes = 0;
  monitor_payload_captures = 0;
  monitor_payload_skipped_budget = 0;
  drain_wake_count = 0;
  max_datagrams_drained_per_wake = 0;
}

abbrev new_receiver : ArtNetReceiver
new_receiver = record {
  running = false;
  cache = Cache.new_cache 32768;
  metadata_cache = Metadata.new_cache 32768;
  realtime_mailbox = new_mailbox 32768;
  monitor_capture_budget = Monitor.new_budget 4 1000;
  monitor_capture_session = 0;
  sequence_tracker = Sequence.reset;
  counters = no_counts;
  rate = record {
    last_packet_us = 0;
    second_window_us = 0;
    packets_in_window = 0;
    accepted_artdmx_per_second = 0;
  };
}

new_receiver_universes : length new_receiver.metadata_cache.slots ≡ 32768
unfolding Metadata.new_cache
new_receiver_universes = length-replicate {0} {A = Option Metadata.Slot} 32768 none

new_receiver-IsSound : IsSound new_receiver
new_receiver-IsSound = record {
  universes = new_receiver_universes;
  metadata = new_cache-IsValid 32768;
  mailbox = new_mailbox-IsValid 32768 (omega arith);
}

abbrev console : ArtNetEndpoint
console = record { ipv4 = 167772161; port = 6454 }

abbrev good : Datagram
good = record { bytes = art_dmx_packet 14 7 0 3 1 (10 ∷ 20 ∷ []); sender = console; time_us = 1000 }

abbrev short : Datagram
short = record { bytes = b'A' ∷ b'r' ∷ []; sender = console; time_us = 1001 }

abbrev far : Datagram
far = record {
  bytes = art_dmx_packet 14 7 0 3 200 (10 ∷ 20 ∷ []);
  sender = console;
  time_us = 1000;
}

process_datagram-IsHandled_example : IsHandled (process_datagram new_receiver good)
process_datagram-IsHandled_example =
    process_datagram-IsHandled new_receiver good (omega arith, omega arith) new_receiver-IsSound

drain-IsSound_example :
    (r' : ArtNetReceiver) × (drain new_receiver (good ∷ good ∷ short ∷ []) ≡ some r')
    × IsSound r'
    × IsBalanced r'.counters
drain-IsSound_example =
    drain-IsSound new_receiver (good ∷ good ∷ short ∷ [])
      ((omega arith, omega arith), ((omega arith, omega arith), ((omega arith, omega arith), tt)))
      new_receiver-IsSound (record { received = refl; valid = refl })

process_datagram_fault_example : process_datagram new_receiver far ≡ none
unfolding Sequence.reset
process_datagram_fault_example =
    process_datagram_fault new_receiver far 14 7 0 3 200 (10 ∷ 20 ∷ []) refl (omega arith)
      (omega arith) (omega arith) new_receiver_universes refl
