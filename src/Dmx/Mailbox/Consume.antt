-- ===== src/Dmx/Mailbox/Consume.antt =====
-- native/src/dmx/realtime_universe_mailbox.cpp: what reads the mailbox. A function is one critical
-- section of `state_mutex_`, except `consume_dirty_frames`, which is a sequence of them.
use peraviz.Prelude.{
  ℕ, zero, suc, ◌+◌, ◌-◌, ◌%◌, false, ◌&&◌, Option, none, some, List, [], ◌∷◌, ltb, ◌==◌,
  if◌then◌else◌, length, get_or, increment64,
}
use peraviz.Dmx.Frame.{DmxFrame}
use peraviz.Dmx.Mailbox.State.{DirtyToken, Mailbox, no_token, slot_at, set_slot, subscribed}

-- `none` where the source returns false.
unfoldable pub consume_token_locked : Mailbox → DirtyToken → Option DmxFrame × Mailbox
consume_token_locked m token = elim (slot_at m.slots token.universe) [
  | none ↦ (none, m)
  | some s ↦
      if s.generation == token.generation && (s.token_id == token.token_id && (s.dirty && s.queued))
      then (
        some s.held,
        record m {
          slots = set_slot m.slots token.universe (record s { dirty = false; queued = false });
          dirty_states_consumed = increment64 m.dirty_states_consumed;
        },
      )
      else (none, m)
]

-- One critical section of the loop of `consume_dirty_frames`, where a token is queued.
unfoldable pub consume_one : Mailbox → Option DmxFrame × Mailbox
consume_one m =
    consume_token_locked
      (record m {
        dirty_head = (m.dirty_head + 1) % length m.dirty_tokens;
        dirty_count = m.dirty_count - 1;
      })
      (get_or m.dirty_tokens m.dirty_head no_token)

abbrev pub push_frame : Option DmxFrame → List DmxFrame → List DmxFrame
push_frame none frames = frames
push_frame (some f) frames = f ∷ frames

-- The loop with no other thread between its rounds.
unfoldable pub consume_rounds : ℕ → Mailbox → List DmxFrame × Mailbox
consume_rounds zero m = ([], m)
consume_rounds (suc rounds) m =
    let (frame, m') = consume_one m in
    let (frames, m'') = consume_rounds rounds m' in
    if m.dirty_count == 0 then ([], m) else (push_frame frame frames, m'')

unfoldable pub consume_dirty_frames : Mailbox → List DmxFrame × Mailbox
consume_dirty_frames m = consume_rounds m.dirty_count m

unfoldable pub held : Mailbox → ℕ → Option DmxFrame
held m universe =
    let slot = if ltb universe (length m.slots) then slot_at m.slots universe else none in
    elim slot [
      | none ↦ none
      | some s ↦
          if s.initialized
            && (subscribed m.subscription universe && s.generation == m.subscription_generation)
          then some s.held
          else none
    ]

unfoldable pub held_of : Mailbox → List ℕ → List DmxFrame
held_of m [] = []
held_of m (universe ∷ rest) = elim (slot_at m.slots universe) [
  | none ↦ held_of m rest
  | some s ↦
      if s.initialized && s.generation == m.subscription_generation
      then s.held ∷ held_of m rest
      else held_of m rest
]

unfoldable pub held_states : Mailbox → List DmxFrame
unfolding held_of
held_states m = elim m.subscription [ none ↦ [] | some s ↦ held_of m s.universes ]

unfoldable pub pending_dirty_count : Mailbox → ℕ
pending_dirty_count m = m.dirty_count
