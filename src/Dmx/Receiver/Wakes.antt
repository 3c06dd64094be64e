-- ===== src/Dmx/Receiver/Wakes.antt =====
-- A whole wake of the socket in native/src/dmx/artnet_receiver.cpp: the inner loop of `run`, with
-- what it does before and after.
use peraviz.Prelude.{ℕ, ◌≡◌, refl, some, List, [], ◌∷◌, All, length}
use peraviz.Dmx.Receiver.{ArtNetReceiver, Datagram, begin_wake, end_wake, process_datagrams, drain}
use peraviz.Dmx.Receiver.Balance.{IsBalanced, drain-IsBalanced}
use peraviz.Dmx.Receiver.Faults.{IsSound, IsHandled, IsInNet, process_datagram-IsHandled}

process_datagrams-IsHandled :
    (r : ArtNetReceiver) (ds : List Datagram)
    → All IsInNet ds
    → IsSound r
    → IsHandled (process_datagrams r ds)
unfolding process_datagrams
process_datagrams-IsHandled r [] h v = record { state = r; returned = refl; sound = v }
process_datagrams-IsHandled r (d ∷ ds) h v =
    let first = process_datagram-IsHandled r d h.0 v in
    rw (first.returned, process_datagrams)
      (process_datagrams-IsHandled first.state ds h.1 first.sound)

begin_wake-IsSound : (r : ArtNetReceiver) → IsSound r → IsSound (begin_wake r)
unfolding begin_wake
begin_wake-IsSound r v = record {
  universes = v.universes;
  metadata = v.metadata;
  mailbox = v.mailbox;
}

end_wake-IsSound : (n : ℕ) (r : ArtNetReceiver) → IsSound r → IsSound (end_wake n r)
unfolding end_wake
end_wake-IsSound n r v = record {
  universes = v.universes;
  metadata = v.metadata;
  mailbox = v.mailbox;
}

drain-IsHandled :
    (r : ArtNetReceiver) (ds : List Datagram) → All IsInNet ds → IsSound r → IsHandled (drain r ds)
unfolding drain
drain-IsHandled r ds h v =
    let all = process_datagrams-IsHandled (begin_wake r) ds h (begin_wake-IsSound r v) in
    record {
      state = end_wake (length ds) all.state;
      returned = rw all.returned;
      sound = end_wake-IsSound (length ds) all.state all.sound;
    }

-- For a receiver with a valid mailbox, a valid metadata table of 32768 universes and balanced
-- packet counters, a wake whose datagrams all have a byte 15, the Net of an ArtDmx packet, below
-- 128 ends with no access outside the tables. It leaves them valid and the counters in balance:
-- modulo 2 ^ 64 the packets received are the malformed, the out-of-order and the accepted ones,
-- and the well-formed packets are the out-of-order and the accepted ones.
pub drain-IsSound :
    (r : ArtNetReceiver) (ds : List Datagram)
    → All IsInNet ds
    → IsSound r
    → IsBalanced r.counters
    → (r' : ArtNetReceiver) × (drain r ds ≡ some r') × IsSound r' × IsBalanced r'.counters
drain-IsSound r ds h v b =
    let all = drain-IsHandled r ds h v in
    (all.state, all.returned, all.sound, drain-IsBalanced r ds b all.returned)
