-- ===== src/Presentation/Pipeline/Channel.antt =====
-- What native/src/presentation/async_presentation_pipeline.cpp promises: input as a register that
-- holds the last state that was flushed, and completed snapshots as a queue of at most two.
pub mod Views
pub mod Refines
pub mod Turns
use peraviz.Prelude.{
  ℕ, zero, suc, ◌<◌, ◌≡◌, ◌⊎◌, Bool, true, false, Option, none, some, List, [], ◌∷◌, ◌++◌, length,
  take,
}
use peraviz.Presentation.Pipeline.{
  InputValue, Bank, Input, no_input, System, content_of, Coordinator,
}
use peraviz.Presentation.Pipeline.Owners.{coordinator_input}

-- The input as it is written, the one that waits to be taken, the one that the coordinator reads, the
-- snapshots that wait to be acquired, the oldest first, and whether the pipeline stops.
pub record Channel (S : Type 0) : Type 0 where
  pub source : List InputValue
  pub pending : Option (List InputValue)
  pub held : Option (List InputValue)
  pub unread : List S
  pub stopping : Bool

-- What is seen of the threads: the state of the universes after a write to it, a flush, whether an
-- input is taken, the frames that the coordinator reads, a snapshot that it has evaluated, the
-- snapshots that an acquisition gives, whether the pipeline stops, and its end.
pub data Event (S : Type 0) : Type 0 where
  silent flushed discarded : Event S
  written consumed : List InputValue → Event S
  taken : Bool → Event S
  completed_one : S → Event S
  acquired : List S → Event S
  stopped : Bool → Event S

-- The moves of a channel, each with what is seen of it. Snapshots are lost only once it stops.
pub data Move {S : Type 0} : Event S → Channel S → Channel S → Type 0 where
  stays : {c : Channel S} → Move Event.silent c c
  writes :
      {c : Channel S} (frames : List InputValue)
      → Move (Event.written frames) c (record c { source = frames })
  flushes : {c : Channel S} → Move Event.flushed c (record c { pending = some c.source })
  takes :
      {c : Channel S} (frames : List InputValue)
      → c.pending ≡ some frames
      → Move (Event.taken true) c (record c { pending = none; held = some frames })
  finds_none : {c : Channel S} → c.pending ≡ none → Move (Event.taken false) c c
  consumes :
      {c : Channel S} (frames : List InputValue)
      → c.held ≡ some frames
      → Move (Event.consumed frames) c (record c { held = none })
  completes :
      {c : Channel S} (snapshot : S)
      → length c.unread < 2
      → Move (Event.completed_one snapshot) c (record c { unread = c.unread ++ snapshot ∷ [] })
  acquires :
      {c : Channel S} (snapshot : S) (rest : List S)
      → c.unread ≡ snapshot ∷ rest
      → Move (Event.acquired (snapshot ∷ [])) c (record c { unread = rest })
  acquires_none : {c : Channel S} → length c.unread < 2 → Move (Event.acquired []) c c
  stops :
      {c : Channel S} (b : Bool)
      → (c.stopping ≡ true → b ≡ true)
      → Move (Event.stopped b) c (record c { stopping = b })
  discards :
      {c : Channel S} (n : ℕ)
      → c.stopping ≡ true
      → Move Event.discarded c (record c { unread = take n c.unread })

-- The runs of a channel, with what is seen of them, the last event first.
pub data Moves {S : Type 0} (c : Channel S) : List (Event S) → Channel S → Type 0 where
  none_yet : Moves c [] c
  and_then :
      {event : Event S} {events : List (Event S)} {d e : Channel S}
      → Moves c events d
      → Move event d e
      → Moves c (event ∷ events) e

-- What of the banks is in the channel.
abbrev pub frames_at : List (Bank Input) → Option ℕ → Option (List InputValue)
frames_at banks none = none
frames_at banks (some i) = some (content_of banks i no_input).frames

abbrev pub snapshot_at : {S : Type 0} → List (Bank S) → ℕ → List S
snapshot_at [] i = []
snapshot_at (bank ∷ banks) zero = bank.content ∷ []
snapshot_at (bank ∷ banks) (suc i) = snapshot_at banks i

abbrev pub snapshots_at : {S : Type 0} → List (Bank S) → Option ℕ → List S
snapshots_at banks none = []
snapshots_at banks (some i) = snapshot_at banks i

-- The bank with a snapshot that is complete, but not yet ready.
abbrev pub completed : Coordinator → Option ℕ
completed Coordinator.looping = none
completed Coordinator.halted = none
completed (Coordinator.took i) = none
completed (Coordinator.reading_bank i) = none
completed (Coordinator.choosing i) = none
completed (Coordinator.evaluating i) = none
completed (Coordinator.publishing i) = some i

abbrev pub unread_of : {S : Type 0} → List (Bank S) → Option ℕ → Coordinator → List S
unread_of banks ready coordinator =
    snapshots_at banks ready ++ snapshots_at banks (completed coordinator)

abbrev pub view : {C S : Type 0} → System C S → Channel S
view s = record {
  source = s.latest;
  pending = frames_at s.inputs s.queued_input;
  held = frames_at s.inputs (coordinator_input s.coordinator);
  unread = unread_of s.outputs s.ready_output s.coordinator;
  stopping = s.stopping;
}

-- A step that is a move of the channel.
abbrev pub IsMove : {C S : Type 0} → Event S → System C S → System C S → Type 0
IsMove event s u = Move event (view s) (view u)
