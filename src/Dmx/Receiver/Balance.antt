-- ===== src/Dmx/Receiver/Balance.antt =====
-- The packet counters of native/src/dmx/artnet_receiver.cpp, and what a datagram keeps.
use mathlib.Core.Option
use peraviz.Prelude.{
  ℕ, ◌+◌, ◌%◌, ◌^◌, ◌≡◌, refl, subst, Option, none, some, List, [], ◌∷◌, arith, increment64,
  Bool-cases, Option-cases, inl, inr, length,
}
use peraviz.Dmx.Parser
use peraviz.Dmx.Parser.{ArtNetDmxFrameView}
use peraviz.Dmx.Metadata
use peraviz.Dmx.Metadata.{DmxNetworkMetadataCache}
use peraviz.Dmx.Receiver.{
  ArtNetReceiver, Counters, Datagram, should_accept_frame, capture_payload, publish_frame,
  count_accepted, count_dropped, count_malformed, count_valid, begin_wake, end_wake, finish_frame,
  accepted_frame, valid_frame, parsed_datagram as parsed, process_datagram, process_datagrams,
  drain,
}

-- Every packet is counted as malformed, out of order or accepted, and every well-formed one as out
-- of order or accepted; the counters are 64 bits wide.
pub record IsBalanced (c : Counters) : Type 0 where
  pub received :
      c.packets_received
      ≡ (c.packets_ignored_malformed + c.packets_dropped_out_of_order + c.valid_artdmx_accepted)
        % 2 ^ 64
  pub valid :
      c.valid_artdmx_packets ≡ (c.packets_dropped_out_of_order + c.valid_artdmx_accepted) % 2 ^ 64

-- Only the other counters differ.
record IsSameCount (c c' : Counters) : Type 0 where
  received : c'.packets_received ≡ c.packets_received
  valid : c'.valid_artdmx_packets ≡ c.valid_artdmx_packets
  malformed : c'.packets_ignored_malformed ≡ c.packets_ignored_malformed
  dropped : c'.packets_dropped_out_of_order ≡ c.packets_dropped_out_of_order
  accepted : c'.valid_artdmx_accepted ≡ c.valid_artdmx_accepted

capture_payload-IsSameCount :
    (r : ArtNetReceiver) (view : ArtNetDmxFrameView) (now : ℕ)
    → IsSameCount r.counters (capture_payload r view now).counters
unfolding capture_payload
capture_payload-IsSameCount r view now = ground arith

should_accept_frame-IsSameCount :
    (r : ArtNetReceiver) (view : ArtNetDmxFrameView) (d : Datagram)
    → IsSameCount r.counters (should_accept_frame r view d.sender).1.counters
unfolding should_accept_frame
should_accept_frame-IsSameCount r view d = ground arith

-- A well-formed packet that has been counted so far as that.
record IsPending (c : Counters) : Type 0 where
  received :
      c.packets_received
      ≡ (c.packets_ignored_malformed + c.packets_dropped_out_of_order + c.valid_artdmx_accepted + 1)
        % 2 ^ 64
  valid :
      c.valid_artdmx_packets
      ≡ (c.packets_dropped_out_of_order + c.valid_artdmx_accepted + 1) % 2 ^ 64

same-IsPending : (c c' : Counters) → IsSameCount c c' → IsPending c → IsPending c'
same-IsPending c c' same p = omega arith

publish_frame-IsSameCount :
    (r : ArtNetReceiver) (metadata : DmxNetworkMetadataCache) (view : ArtNetDmxFrameView) (now : ℕ)
    → IsSameCount r.counters (publish_frame r metadata view now).counters
unfolding publish_frame
publish_frame-IsSameCount r metadata view now = record {
  received = refl;
  valid = refl;
  malformed = refl;
  dropped = refl;
  accepted = refl;
}

count_accepted-IsBalanced :
    (r : ArtNetReceiver) (now : ℕ)
    → IsPending r.counters
    → IsBalanced (count_accepted r now).counters
unfolding count_accepted increment64
count_accepted-IsBalanced r now p = omega arith

count_dropped-IsBalanced :
    (r : ArtNetReceiver) → IsPending r.counters → IsBalanced (count_dropped r).counters
unfolding count_dropped increment64
count_dropped-IsBalanced r p = omega arith

count_malformed-IsBalanced :
    (r : ArtNetReceiver) → IsBalanced r.counters → IsBalanced (count_malformed r).counters
unfolding count_malformed increment64
count_malformed-IsBalanced r b = omega arith

count_valid-IsPending :
    (r : ArtNetReceiver) → IsBalanced r.counters → IsPending (count_valid r).counters
unfolding count_valid increment64
count_valid-IsPending r b = omega arith

finish_frame-IsBalanced :
    (r : ArtNetReceiver) (metadata : DmxNetworkMetadataCache) (view : ArtNetDmxFrameView) (now : ℕ)
    → IsPending r.counters
    → IsBalanced (finish_frame r metadata view now).counters
unfolding finish_frame
finish_frame-IsBalanced r metadata view now p =
    let published = publish_frame r metadata view now in
    let captured = capture_payload published view now in
    count_accepted-IsBalanced captured now (
      same-IsPending published.counters captured.counters
        (capture_payload-IsSameCount published view now)
        (same-IsPending r.counters published.counters
          (publish_frame-IsSameCount r metadata view now) p))

-- The state, where there is no fault.
abbrev pub Ensures : (ArtNetReceiver → Type 0) → Option ArtNetReceiver → Type 0
Ensures P none = Unit
Ensures P (some r) = P r

pub Ensures-map :
    {A : Type 0} (P : ArtNetReceiver → Type 0) (f : A → ArtNetReceiver) (o : Option A)
    → ((a : A) → P (f a))
    → Ensures P (Option.map f o)
Ensures-map P f none h = tt
Ensures-map P f (some a) h = h a

abbrev Balanced : ArtNetReceiver → Type 0
Balanced r = IsBalanced r.counters

valid_frame-Balanced :
    (r : ArtNetReceiver) (view : ArtNetDmxFrameView) (d : Datagram)
    → IsPending r.counters
    → Ensures Balanced (valid_frame r view d)
unfolding valid_frame accepted_frame
valid_frame-Balanced r view d p =
    let r' = (should_accept_frame r view d.sender).1 in
    let still =
      same-IsPending r.counters r'.counters (should_accept_frame-IsSameCount r view d) p in
    elim (Bool-cases (should_accept_frame r view d.sender).0) [
      | inl ok ↦ rw ok (
          Ensures-map Balanced (λ metadata. finish_frame r' metadata view d.time_us)
            (Metadata.observe r'.metadata_cache view.universe_id view.length view.sequence d.time_us
              d.sender.ipv4 d.sender.port)
            (λ metadata. finish_frame-IsBalanced r' metadata view d.time_us still))
      | inr late ↦ rw late (count_dropped-IsBalanced r' still)
    ]

process_datagram-Balanced :
    (r : ArtNetReceiver) (d : Datagram) → Balanced r → Ensures Balanced (process_datagram r d)
unfolding process_datagram
process_datagram-Balanced r d b =
    elim (Parser.parse (some d.bytes)) as (λ o. Ensures Balanced (parsed r d o)) [
      | none ↦ count_malformed-IsBalanced r b
      | some view ↦ valid_frame-Balanced (count_valid r) view d (count_valid-IsPending r b)
    ]

process_datagrams-Balanced :
    (r : ArtNetReceiver) (ds : List Datagram)
    → Balanced r
    → Ensures Balanced (process_datagrams r ds)
unfolding process_datagrams
process_datagrams-Balanced r [] b = b
process_datagrams-Balanced r (d ∷ ds) b = elim (Option-cases (process_datagram r d)) [
  | inl e ↦ rw (e, process_datagrams) tt
  | inr (r', e) ↦
      rw (e, process_datagrams)
        (process_datagrams-Balanced r' ds
          (subst (Ensures Balanced) e (process_datagram-Balanced r d b)))
]

begin_wake-Balanced : (r : ArtNetReceiver) → Balanced r → Balanced (begin_wake r)
unfolding begin_wake
begin_wake-Balanced r b = record { received = b.received; valid = b.valid }

end_wake-Balanced : (n : ℕ) (r : ArtNetReceiver) → Balanced r → Balanced (end_wake n r)
unfolding end_wake
end_wake-Balanced n r b = record { received = b.received; valid = b.valid }

pub drain-IsBalanced :
    (r : ArtNetReceiver) (ds : List Datagram) {r' : ArtNetReceiver}
    → IsBalanced r.counters
    → drain r ds ≡ some r'
    → IsBalanced r'.counters
unfolding drain
drain-IsBalanced r ds b e = subst (Ensures Balanced) e (
    woken (process_datagrams (begin_wake r) ds)
      (process_datagrams-Balanced (begin_wake r) ds (begin_wake-Balanced r b)))
  where
    woken :
        (o : Option ArtNetReceiver)
        → Ensures Balanced o
        → Ensures Balanced (Option.map (end_wake (length ds)) o)
    woken none h = tt
    woken (some r'') h = end_wake-Balanced (length ds) r'' h
