-- ===== src/Dmx/Tests/Mailboxes.antt =====
-- A mailbox of eight universes, of which a scene reads two.
use peraviz.Prelude.{
  sort, ◌-◌, min, ◌≡◌, refl, true, false, some, List, [], ◌∷◌, ◌++◌, arith, take, replicate, Elem,
  increment64, increment32,
}
use peraviz.Dmx.Frame.{DmxFrame, empty_frame}
use peraviz.Dmx.Subscription.{
  RealtimeSubscription, build, contains, offsets, add_entries, add_entry, set_offsets, any_below,
  use_universe, keep_mask,
}
use peraviz.Dmx.Mailbox.State.{
  Mailbox, Slot, new_mailbox, set_subscription, refresh_slots, refresh_slot, new_slots,
  has_new_offsets, slot_or_new,
}
use peraviz.Dmx.Mailbox.Publish.{
  publish, publish_at, publish_slot, publish_changed, changes, differs, held_update,
  enqueue_dirty_locked,
}
use peraviz.Dmx.Mailbox.Consume.{consume_dirty_frames, consume_one, consume_token_locked}
use peraviz.Dmx.Mailbox.Valid.{IsValid}
use peraviz.Dmx.Mailbox.Calls.{Call, subscribe, round, packet, step, run, run-new_mailbox-IsValid}
use peraviz.Dmx.Mailbox.Drain.{IsDrained, consume_dirty_frames-IsDrained}
use peraviz.Dmx.Mailbox.Latest.{Published, publish-Published, publish-consumed}

abbrev scene : RealtimeSubscription
scene = build ((3, 0 ∷ 1 ∷ []) ∷ (5, 2 ∷ []) ∷ [])

abbrev calls : List Call
calls =
    subscribe (some scene)
    ∷ packet 3 (some (10 ∷ 20 ∷ [])) 2 1 1000
    ∷ packet 5 (some (1 ∷ 2 ∷ 3 ∷ [])) 3 1 1001
    ∷ packet 3 (some (11 ∷ 20 ∷ [])) 2 2 1002
    ∷ round
    ∷ []

abbrev busy : Mailbox
busy = run (new_mailbox 8) calls

run-new_mailbox-IsValid_example : IsValid (run (new_mailbox 8) calls)
run-new_mailbox-IsValid_example = run-new_mailbox-IsValid 8 calls (omega arith)

busy-IsValid : IsValid busy
busy-IsValid = run-new_mailbox-IsValid 8 calls (omega arith)

consume_dirty_frames-IsDrained_example : IsDrained busy (consume_dirty_frames busy)
consume_dirty_frames-IsDrained_example = consume_dirty_frames-IsDrained busy busy-IsValid

busy_changed : (publish busy 3 (some (12 ∷ 20 ∷ [])) 2 3 1003).0 ≡ true
unfolding run step new_mailbox build contains offsets add_entries add_entry set_offsets any_below
    use_universe keep_mask sort set_subscription refresh_slots refresh_slot new_slots
    has_new_offsets slot_or_new publish publish_at publish_slot publish_changed changes differs
    held_update enqueue_dirty_locked consume_one consume_token_locked increment64 increment32
busy_changed = refl

publish-consumed_example :
    (frame : DmxFrame) × Elem frame
      (consume_dirty_frames (publish busy 3 (some (12 ∷ 20 ∷ [])) 2 3 1003).1).0
    × (frame.universe_id ≡ 3)
    × (frame.length ≡ min 2 512)
    × (frame.payload ≡ take (min 2 512) (12 ∷ 20 ∷ []) ++ replicate (512 - min 2 512) 0)
    × (frame.last_rx_us ≡ 1003)
    × (frame.sequence ≡ 3)
publish-consumed_example =
    publish-consumed busy 3 (12 ∷ 20 ∷ []) 2 3 1003 busy-IsValid (omega arith) busy_changed

abbrev listening : Mailbox
listening = set_subscription (new_mailbox 8) (some scene)

abbrev listening_slot : Slot
listening_slot = record {
  held = empty_frame;
  generation = 1;
  initialized = false;
  dirty = false;
  queued = false;
  token_id = 0;
}

publish-Published_example :
    Published listening 3 listening_slot
      (12 ∷ 20 ∷ [])
      (min 2 512)
      3
      1003
      (publish listening 3 (some (12 ∷ 20 ∷ [])) 2 3 1003)
unfolding new_mailbox build contains offsets add_entries add_entry set_offsets any_below
    use_universe keep_mask sort set_subscription refresh_slots refresh_slot has_new_offsets
    slot_or_new increment64
publish-Published_example =
    publish-Published listening 3 listening_slot (12 ∷ 20 ∷ []) 2 3 1003 refl refl refl
      (omega arith)
