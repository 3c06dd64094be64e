-- ===== src/Dmx/Sequence.antt =====
-- native/src/dmx/artnet_sequence_tracker.h and .cpp: which ArtDmx packets of a universe's stream
-- are in order.
pub mod Order
use peraviz.Prelude.{
  ℕ, ◌+◌, ◌-◌, ◌%◌, ◌≤◌, ◌<◌, ◌≡◌, Bool, true, false, not, ◌&&◌, ◌||◌, List, [], ◌∷◌, arith, ltb,
  ◌==◌, if◌then◌else◌,
}

pub record ArtNetSequenceDecision : Type 0 where
  pub accepted : Bool
  pub source_changed : Bool

pub record ArtNetEndpoint : Type 0 where
  pub ipv4 : ℕ
  pub port : ℕ

unfoldable pub same_endpoint : ArtNetEndpoint → ArtNetEndpoint → Bool
same_endpoint a b = a.ipv4 == b.ipv4 && a.port == b.port

pub record State : Type 0 where
  pub endpoint : ArtNetEndpoint
  pub sequence : ℕ
  pub ordered : Bool
  pub initialized : Bool

-- A key that the map lacks has the state that `operator[]` makes for it.
abbrev pub fresh_state : State
fresh_state = record {
  endpoint = record { ipv4 = 0; port = 0 };
  sequence = 0;
  ordered = false;
  initialized = false;
}

abbrev pub ArtNetSequenceTracker : Type 0
ArtNetSequenceTracker = ℕ → State

abbrev pub update : ArtNetSequenceTracker → ℕ → State → ArtNetSequenceTracker
update states universe s v = if v == universe then s else states v

abbrev pub accept_only : ArtNetSequenceDecision
accept_only = record { accepted = true; source_changed = false }

abbrev pub reject : ArtNetSequenceDecision
reject = record { accepted = false; source_changed = false }

-- `(incoming - previous + 255) % 255` on the numbers less one; both are at least 1 here, so the
-- `int` that is reduced is not negative.
unfoldable pub forward_distance : ℕ → ℕ → ℕ
forward_distance previous incoming = (incoming + 255 - previous) % 255

unfoldable pub accept_state : State → ℕ → ArtNetEndpoint → ArtNetSequenceDecision × State
unfolding same_endpoint forward_distance
accept_state s sequence endpoint =
    let source_changed = s.initialized && not (same_endpoint s.endpoint endpoint) in
    let forward = forward_distance s.sequence sequence in
    if not s.initialized || source_changed
    then (
      record { accepted = true; source_changed = source_changed },
      record {
        endpoint = endpoint;
        sequence = sequence;
        ordered = not (sequence == 0);
        initialized = true;
      },
    )
    else if sequence == 0
    then (accept_only, record s { ordered = false; sequence = 0 })
    else if not s.ordered
    then (accept_only, record s { sequence = sequence; ordered = true })
    else if forward == 0 || ltb 127 forward
    then (reject, s)
    else (accept_only, record s { sequence = sequence })

unfoldable pub accept :
    ArtNetSequenceTracker → ℕ → ℕ → ArtNetEndpoint → ArtNetSequenceDecision × ArtNetSequenceTracker
accept states universe sequence endpoint =
    let (decision, s) = accept_state (states universe) sequence endpoint in
    (decision, update states universe s)

unfoldable pub reset : ArtNetSequenceTracker
reset universe = fresh_state
