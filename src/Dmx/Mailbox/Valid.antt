-- ===== src/Dmx/Mailbox/Valid.antt =====
-- The invariant of native/src/dmx/realtime_universe_mailbox.cpp: its ring of tokens and its slots
-- agree, whatever the order in which its critical sections run.
use native.Mathlib.Numerals.{add-one}
use peraviz.Prelude.{
  ℕ, ◌+◌, ◌%◌, ◌<◌, ◌≡◌, refl, sym, ap, ◌∙◌, subst, true, false, Option, none, some, List, [], ◌∷◌,
  ◌++◌, arith, ◌==◌, length, increment64, Bool-cases, inl, inr,
}
use peraviz.Dmx.Frame.{DmxFrame}
use peraviz.Dmx.Mailbox.State.{Slot, DirtyToken, Mailbox, slot_at, set_slot, subscribed}
use peraviz.Dmx.Mailbox.Publish.{
  enqueue_dirty_locked, publish_changed, publish_slot, publish, publish_at, changes,
}
use peraviz.Dmx.Mailbox.Ring.{pending, length-tokens_from, length-set_token, tokens_from-set}
use peraviz.Dmx.Mailbox.Agrees.{
  IsCovered, IsSameState, Agrees, Agrees-touch, Agrees-push, waiting-room, length-set_slot,
}

pub record IsValid (m : Mailbox) : Type 0 where
  pub capacity : length m.dirty_tokens ≡ length m.slots
  pub head_in : m.dirty_head < length m.dirty_tokens
  pub agrees : Agrees m.slots (pending m)

-- What `enqueue_dirty_locked` queues.
abbrev pub token_for : Mailbox → ℕ → Slot → DirtyToken
token_for m universe s = record {
  universe = universe;
  generation = s.generation;
  token_id = increment64 m.next_token_id;
}

abbrev pub queued_slot : Mailbox → Slot → Slot
queued_slot m s = record s { token_id = increment64 m.next_token_id; queued = true }

-- A slot that is not queued gets its token, and the token is put last, where there is room.
pub enqueue-pending :
    (m : Mailbox) (universe : ℕ) (s : Slot)
    → s.queued ≡ false
    → m.dirty_head < length m.dirty_tokens
    → m.dirty_count < length m.dirty_tokens
    → (pending (enqueue_dirty_locked m universe s) ≡ pending m ++ token_for m universe s ∷ [])
      × ((enqueue_dirty_locked m universe s).slots ≡ set_slot m.slots universe (queued_slot m s))
      × ((enqueue_dirty_locked m universe s).dirty_head ≡ m.dirty_head)
      × (length (enqueue_dirty_locked m universe s).dirty_tokens ≡ length m.dirty_tokens)
unfolding enqueue_dirty_locked pending
enqueue-pending m universe s idle inside room = ground (
  arith,
  add-one m.dirty_count,
  tokens_from-set m.dirty_tokens (token_for m universe s) m.dirty_count m.dirty_head
      ((m.dirty_head + m.dirty_count) % length m.dirty_tokens),
  length-set_token m.dirty_tokens ((m.dirty_head + m.dirty_count) % length m.dirty_tokens)
      (token_for m universe s),
)

pub length-pending : (m : Mailbox) → length (pending m) ≡ m.dirty_count
unfolding pending
length-pending m = length-tokens_from m.dirty_tokens m.dirty_head m.dirty_count

pub enqueue-IsValid :
    (m : Mailbox) (universe : ℕ) (s s' : Slot)
    → IsValid m
    → slot_at m.slots universe ≡ some s
    → s.dirty ≡ false
    → s'.dirty ≡ true
    → s'.queued ≡ false
    → IsValid (enqueue_dirty_locked m universe s')
enqueue-IsValid m universe s s' v e clean dirty idle =
    let room = waiting-room m.slots (pending m) universe s v.agrees e clean in
    let after =
      enqueue-pending m universe s' idle v.head_in (omega (arith, length-pending m, v.capacity)) in
    record {
      capacity = omega (
        arith,
        after.3,
        v.capacity,
        ap length after.1,
        length-set_slot m.slots universe (queued_slot m s'),
      );
      head_in = omega (arith, after.2, after.3, v.head_in);
      agrees =
          rw (after.0, after.1)
            (Agrees-push m.slots (pending m) s (queued_slot m s') (token_for m universe s') e clean
              (dirty, refl, refl, refl) v.agrees);
    }

same_ring-IsValid :
    (m m' : Mailbox)
    → m'.dirty_tokens ≡ m.dirty_tokens
    → m'.dirty_head ≡ m.dirty_head
    → m'.dirty_count ≡ m.dirty_count
    → length m'.slots ≡ length m.slots
    → Agrees m'.slots (pending m)
    → IsValid m
    → IsValid m'
unfolding pending
same_ring-IsValid m m' ring head count size agrees v = record {
  capacity = rw (ring, size) v.capacity;
  head_in = rw (ring, head) v.head_in;
  agrees = rw (ring, head, count) agrees;
}

-- A packet that leaves the flags of its slot alone.
touch-IsValid :
    (m m' : Mailbox) (universe : ℕ) (s s' : Slot)
    → m'.dirty_tokens ≡ m.dirty_tokens
    → m'.dirty_head ≡ m.dirty_head
    → m'.dirty_count ≡ m.dirty_count
    → m'.slots ≡ set_slot m.slots universe s'
    → slot_at m.slots universe ≡ some s
    → IsSameState s s'
    → IsValid m
    → IsValid m'
touch-IsValid m m' universe s s' ring head count slots e same v =
    same_ring-IsValid m m' ring head count (rw slots (length-set_slot m.slots universe s'))
      (rw slots (Agrees-touch m.slots (pending m) universe s s' e same v.agrees)) v

clean_slot :
    (m : Mailbox) (universe : ℕ) (s : Slot)
    → IsValid m
    → slot_at m.slots universe ≡ some s
    → s.queued ≡ s.dirty
clean_slot m universe s v e =
    let c : IsCovered _ universe (some s) =
      subst (IsCovered _ universe) e (v.agrees.covered universe) in
    c.0

publish_changed-IsValid :
    (m : Mailbox) (universe : ℕ) (s : Slot) (frame : DmxFrame)
    → IsValid m
    → slot_at m.slots universe ≡ some s
    → IsValid (publish_changed m universe s frame)
unfolding publish_changed
publish_changed-IsValid m universe s frame v e = elim (Bool-cases s.dirty) [
  | inl dirty ↦ rw dirty (
      touch-IsValid m _ universe s _ refl refl refl refl e
        (record { dirty = sym dirty; queued = refl; generation = refl; token_id = refl }) v)
  | inr clean ↦ rw clean (
      enqueue-IsValid _ universe s _ (same_ring-IsValid m _ refl refl refl refl v.agrees v) e clean
        refl (clean_slot m universe s v e ∙ clean))
]

publish_slot-IsValid :
    (m : Mailbox) (universe : ℕ) (s : Slot) (payload : List ℕ) (n sequence now : ℕ)
    → IsValid m
    → slot_at m.slots universe ≡ some s
    → IsValid (publish_slot m universe s payload n sequence now).1
unfolding publish_slot
publish_slot-IsValid m universe s payload n sequence now v e =
    elim (Bool-cases (changes m universe s payload n)) [
      | inl yes' ↦ rw yes' (publish_changed-IsValid m universe s _ v e)
      | inr no' ↦ rw no' (
          touch-IsValid m _ universe s _ refl refl refl refl e
            (record { dirty = refl; queued = refl; generation = refl; token_id = refl }) v)
    ]

counted-IsValid :
    (m : Mailbox) (n k : ℕ)
    → IsValid m
    → IsValid (record m { relevant_packets = n; irrelevant_packets = k })
counted-IsValid m n k v = same_ring-IsValid m _ refl refl refl refl v.agrees v

published-IsValid :
    (m : Mailbox) (universe : ℕ) (payload : List ℕ) (n sequence now : ℕ) (o : Option Slot)
    → slot_at m.slots universe ≡ o
    → IsValid m
    → IsValid (publish_at m universe payload n sequence now o).1
unfolding publish_at
published-IsValid m universe payload n sequence now none e v = counted-IsValid m _ _ v
published-IsValid m universe payload n sequence now (some s) e v =
    elim (Bool-cases (s.generation == m.subscription_generation)) [
      | inl same ↦
          rw same
            (publish_slot-IsValid _ universe s payload _ sequence now (counted-IsValid m _ _ v) e)
      | inr old ↦ rw old (counted-IsValid m _ _ v)
    ]

-- `publish` keeps the invariant.
pub publish-IsValid :
    (m : Mailbox) (universe : ℕ) (payload : Option (List ℕ)) (n sequence now : ℕ)
    → IsValid m
    → IsValid (publish m universe payload n sequence now).1
unfolding publish
publish-IsValid m universe none n sequence now v = counted-IsValid m _ _ v
publish-IsValid m universe (some payload) n sequence now v =
    elim (Bool-cases (subscribed m.subscription universe)) [
      | inl yes' ↦ rw yes' (published-IsValid m universe payload n sequence now _ refl v)
      | inr no' ↦ rw no' (counted-IsValid m _ _ v)
    ]
