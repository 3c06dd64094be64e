-- ===== src/Dmx/Receiver/Faults.antt =====
-- Which datagrams native/src/dmx/artnet_receiver.cpp handles inside its tables, and which it does
-- not.
use peraviz.Prelude.{
  ℕ, ◌+◌, ◌*◌, ◌≤◌, ◌<◌, ◌≡◌, refl, ap, ◌∙◌, true, false, Option, none, some, List, arith,
  Bool-cases, inl, inr, length,
}
use peraviz.Dmx.Parser
use peraviz.Dmx.Parser.{ArtNetDmxFrameView, byte_at}
use peraviz.Dmx.Parser.Packets.{art_dmx_packet, parse-art_dmx_packet, parse_sound}
use peraviz.Dmx.Sequence.{accept, accept_state}
use peraviz.Dmx.Metadata.{DmxNetworkMetadataCache}
use peraviz.Dmx.Metadata.Laws.{observe_fault, observe-Observed}
use peraviz.Dmx.Metadata.Laws.{IsValid as IsValidMetadata}
use peraviz.Dmx.Mailbox.Valid.{IsValid as IsValidMailbox, publish-IsValid}
use peraviz.Dmx.Receiver.{
  ArtNetReceiver, Datagram, should_accept_frame, capture_payload, publish_frame, count_accepted,
  count_dropped, count_malformed, count_valid, finish_frame, accepted_frame, valid_frame,
  parsed_datagram, process_datagram,
}

-- The tables that a datagram reaches.
pub record IsSound (r : ArtNetReceiver) : Type 0 where
  pub universes : length r.metadata_cache.slots ≡ 32768
  pub metadata : IsValidMetadata r.metadata_cache
  pub mailbox : IsValidMailbox r.realtime_mailbox

-- The tables of `r'` are those of `r`.
record IsSameTables (r r' : ArtNetReceiver) : Type 0 where
  metadata : r'.metadata_cache ≡ r.metadata_cache
  mailbox : r'.realtime_mailbox ≡ r.realtime_mailbox

same-IsSound : (r r' : ArtNetReceiver) → IsSameTables r r' → IsSound r → IsSound r'
same-IsSound r r' same v = record {
  universes = rw same.metadata v.universes;
  metadata = rw same.metadata v.metadata;
  mailbox = rw same.mailbox v.mailbox;
}

capture-IsSameTables :
    (r : ArtNetReceiver) (view : ArtNetDmxFrameView) (now : ℕ)
    → IsSameTables r (capture_payload r view now)
unfolding capture_payload
capture-IsSameTables r view now = ground arith

accept-IsSameTables :
    (r : ArtNetReceiver) (view : ArtNetDmxFrameView) (d : Datagram)
    → IsSameTables r (should_accept_frame r view d.sender).1
unfolding should_accept_frame
accept-IsSameTables r view d = record { metadata = refl; mailbox = refl }

finish_frame-IsSound :
    (r : ArtNetReceiver) (c : DmxNetworkMetadataCache) (view : ArtNetDmxFrameView) (now : ℕ)
    → length c.slots ≡ 32768
    → IsValidMetadata c
    → IsValidMailbox r.realtime_mailbox
    → IsSound (finish_frame r c view now)
unfolding finish_frame count_accepted
finish_frame-IsSound r c view now size v m =
    let published = publish_frame r c view now in
    let captured = capture_payload published view now in
    let sound : IsSound captured =
      same-IsSound published captured (capture-IsSameTables published view now) (
        unfold publish_frame in
        record {
          universes = size;
          metadata = v;
          mailbox =
              publish-IsValid r.realtime_mailbox view.universe_id (some view.payload) view.length
                view.sequence now m;
        }) in
    record { universes = sound.universes; metadata = sound.metadata; mailbox = sound.mailbox }

-- A result and no fault.
pub record IsHandled (o : Option ArtNetReceiver) : Type 0 where
  pub state : ArtNetReceiver
  pub returned : o ≡ some state
  pub sound : IsSound state

accepted_frame-IsHandled :
    (r : ArtNetReceiver) (view : ArtNetDmxFrameView) (d : Datagram)
    → view.universe_id < 32768
    → IsSound r
    → IsHandled (accepted_frame r view d)
unfolding accepted_frame
accepted_frame-IsHandled r view d h v =
    let (c, e, o) =
      observe-Observed r.metadata_cache view.universe_id view.length view.sequence d.time_us
        d.sender.ipv4 d.sender.port (omega (arith, v.universes)) v.metadata in
    record {
      state = finish_frame r c view d.time_us;
      returned = rw e;
      sound = finish_frame-IsSound r c view d.time_us (o.size ∙ v.universes) o.valid v.mailbox;
    }

counted-IsSound : (r r' : ArtNetReceiver) → IsSameTables r r' → IsSound r → IsHandled (some r')
counted-IsSound r r' same v = record {
  state = r';
  returned = refl;
  sound = same-IsSound r r' same v;
}

valid_frame-IsHandled :
    (r : ArtNetReceiver) (view : ArtNetDmxFrameView) (d : Datagram)
    → view.universe_id < 32768
    → IsSound r
    → IsHandled (valid_frame r view d)
unfolding valid_frame
valid_frame-IsHandled r view d h v =
    let r' = (should_accept_frame r view d.sender).1 in
    let v' = same-IsSound r r' (accept-IsSameTables r view d) v in
    elim (Bool-cases (should_accept_frame r view d.sender).0) [
      | inl ok ↦ rw ok (accepted_frame-IsHandled r' view d h v')
      | inr late ↦ rw late (
          counted-IsSound r' (count_dropped r')
            (unfold count_dropped in record { metadata = refl; mailbox = refl }) v')
    ]

-- The datagram's Net byte, where it is an ArtDmx packet, is one of the 7 bits that the tables are
-- made for.
abbrev pub IsInNet : Datagram → Type 0
IsInNet d = (byte_at d.bytes 14 < 256) × (byte_at d.bytes 15 < 128)

parsed-IsHandled :
    (r : ArtNetReceiver) (d : Datagram) (o : Option ArtNetDmxFrameView)
    → Parser.parse (some d.bytes) ≡ o
    → IsInNet d
    → IsSound r
    → IsHandled (parsed_datagram r d o)
parsed-IsHandled r d none e h v =
    counted-IsSound r (count_malformed r)
      (unfold count_malformed in record { metadata = refl; mailbox = refl }) v
parsed-IsHandled r d (some view) e h v =
    valid_frame-IsHandled (count_valid r) view d (omega (arith, (parse_sound d.bytes e).6)) (
      same-IsSound r (count_valid r)
        (unfold count_valid in record { metadata = refl; mailbox = refl }) v)

-- For a receiver with a valid mailbox and a valid metadata table of 32768 universes, a datagram of
-- any bytes whose byte 15, the Net of an ArtDmx packet, is below 128 is handled with no access
-- outside the tables, and leaves them valid.
pub process_datagram-IsHandled :
    (r : ArtNetReceiver) (d : Datagram) → IsInNet d → IsSound r → IsHandled (process_datagram r d)
unfolding process_datagram
process_datagram-IsHandled r d h v = parsed-IsHandled r d (Parser.parse (some d.bytes)) refl h v

accepted_first :
    (r : ArtNetReceiver) (view : ArtNetDmxFrameView) (d : Datagram)
    → (r.sequence_tracker view.universe_id).initialized ≡ false
    → (should_accept_frame r view d.sender).0 ≡ true
unfolding should_accept_frame accept accept_state
accepted_first r view d h = ground arith

valid_frame_fault :
    (r : ArtNetReceiver) (view : ArtNetDmxFrameView) (d : Datagram)
    → length r.metadata_cache.slots ≤ view.universe_id
    → (should_accept_frame r view d.sender).0 ≡ true
    → valid_frame r view d ≡ none
unfolding valid_frame accepted_frame
valid_frame_fault r view d h ok =
    let r' = (should_accept_frame r view d.sender).1 in
    let same = accept-IsSameTables r view d in
    let fault =
      observe_fault r'.metadata_cache view.universe_id view.length view.sequence d.time_us
        d.sender.ipv4 d.sender.port (rw same.metadata h) in
    rw (ok, fault)

-- An ArtDmx packet of version 14 or more, with a payload below 65536 bytes, whose Net byte is 128
-- or more, as the first packet of its universe in a session, is a fault: the receiver indexes the
-- metadata table of 32768 universes outside its bounds.
pub process_datagram_fault :
    (r : ArtNetReceiver) (d : Datagram) (version sequence physical subuni net : ℕ)
    (payload : List ℕ)
    → d.bytes ≡ art_dmx_packet version sequence physical subuni net payload
    → 14 ≤ version
    → length payload < 65536
    → 128 ≤ net
    → length r.metadata_cache.slots ≡ 32768
    → (r.sequence_tracker (net * 256 + subuni)).initialized ≡ false
    → process_datagram r d ≡ none
unfolding process_datagram count_valid
process_datagram_fault r d version sequence physical subuni net payload e hv hl hn size first =
    ap (λ bytes. parsed_datagram r d (Parser.parse (some bytes))) e
    ∙ ap (parsed_datagram r d)
        (parse-art_dmx_packet version sequence physical subuni net payload hv hl)
    ∙ valid_frame_fault (count_valid r) _ d (omega arith) (accepted_first (count_valid r) _ d first)
