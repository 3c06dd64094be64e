-- ===== src/Dmx/Mailbox/State.antt =====
-- native/src/dmx/realtime_universe_mailbox.h, and of native/src/dmx/realtime_universe_mailbox.cpp
-- what installs a subscription. The two arrays are lists; the source gives both
-- `kArtNetUniverseCount` elements, and reads that number back by `size()`, as here.
use peraviz.Prelude.{
  ℕ, ◌+◌, Bool, false, not, ◌&&◌, ◌||◌, Option, none, some, List, [], ◌∷◌, if◌then◌else◌, get_or,
  set, replicate, increment64,
}
use peraviz.Dmx.Frame.{DmxFrame, empty_frame, dmx_slot_count}
use peraviz.Dmx.Subscription.{RealtimeSubscription, any_below, contains, offsets}

pub record Slot : Type 0 where
  pub held : DmxFrame
  pub generation : ℕ
  pub initialized : Bool
  pub dirty : Bool
  pub queued : Bool
  pub token_id : ℕ

pub record DirtyToken : Type 0 where
  pub universe : ℕ
  pub generation : ℕ
  pub token_id : ℕ

pub record Mailbox : Type 0 where
  pub subscription : Option RealtimeSubscription
  pub slots : List (Option Slot)
  pub dirty_tokens : List DirtyToken
  pub dirty_head : ℕ
  pub dirty_count : ℕ
  pub pending_high_water : ℕ
  pub allocated_slots : ℕ
  pub subscription_generation : ℕ
  pub next_token_id : ℕ
  pub relevant_packets : ℕ
  pub irrelevant_packets : ℕ
  pub unchanged_relevant_packets : ℕ
  pub state_updates : ℕ
  pub coalesced_states : ℕ
  pub dirty_states_consumed : ℕ

abbrev pub new_slot : Slot
new_slot = record {
  held = empty_frame;
  generation = 0;
  initialized = false;
  dirty = false;
  queued = false;
  token_id = 0;
}

abbrev pub no_token : DirtyToken
no_token = record { universe = 0; generation = 0; token_id = 0 }

-- The constructor, with both arrays of `size` elements.
unfoldable pub new_mailbox : ℕ → Mailbox
new_mailbox size = record {
  subscription = none;
  slots = replicate size none;
  dirty_tokens = replicate size no_token;
  dirty_head = 0;
  dirty_count = 0;
  pending_high_water = 0;
  allocated_slots = 0;
  subscription_generation = 0;
  next_token_id = 0;
  relevant_packets = 0;
  irrelevant_packets = 0;
  unchanged_relevant_packets = 0;
  state_updates = 0;
  coalesced_states = 0;
  dirty_states_consumed = 0;
}

-- `slots_[universe].get()`. The source has 32768 slots, and asks for those of universes that the
-- subscription contains, which are below 32768.
abbrev pub slot_at : List (Option Slot) → ℕ → Option Slot
slot_at slots universe = get_or slots universe none

abbrev pub set_slot : List (Option Slot) → ℕ → Slot → List (Option Slot)
set_slot slots universe s = set slots universe (some s)

-- A subscription pointer that may be null.
abbrev pub subscribed : Option RealtimeSubscription → ℕ → Bool
subscribed none universe = false
subscribed (some s) universe = contains s universe

abbrev pub relevant : Option RealtimeSubscription → ℕ → ℕ → Bool
relevant none universe o = false
relevant (some s) universe o = offsets s universe o

unfoldable pub has_new_offsets :
    Option RealtimeSubscription → Option RealtimeSubscription → ℕ → Bool
has_new_offsets previous next universe =
    not (subscribed previous universe)
    || any_below dmx_slot_count
        (λ o. relevant next universe o && not (relevant previous universe o))

abbrev pub retire : ℕ → Slot → Slot
retire generation s = record s { dirty = false; queued = false; generation = generation }

unfoldable pub slot_or_new : Option Slot → Slot
slot_or_new none = new_slot
slot_or_new (some s) = s

-- One round of the loop of `set_subscription`.
unfoldable pub refresh_slot :
    Option RealtimeSubscription → Option RealtimeSubscription → ℕ → ℕ → Option Slot → Option Slot
refresh_slot previous next generation universe slot =
    if subscribed next universe
    then (let s = retire generation (slot_or_new slot) in
        some
          (if has_new_offsets previous next universe then record s { initialized = false } else s))
    else elim slot [ none ↦ none | some s ↦ some (retire generation s) ]

unfoldable pub refresh_slots :
    Option RealtimeSubscription
    → Option RealtimeSubscription
    → ℕ
    → ℕ
    → List (Option Slot)
    → List (Option Slot)
refresh_slots previous next generation universe [] = []
refresh_slots previous next generation universe (slot ∷ rest) =
    refresh_slot previous next generation universe slot
    ∷ refresh_slots previous next generation (universe + 1) rest

-- How often that loop makes a slot.
unfoldable pub new_slots : Option RealtimeSubscription → ℕ → List (Option Slot) → ℕ
new_slots next universe [] = 0
new_slots next universe (none ∷ rest) =
    (if subscribed next universe then 1 else 0) + new_slots next (universe + 1) rest
new_slots next universe (some s ∷ rest) = new_slots next (universe + 1) rest

unfoldable pub set_subscription : Mailbox → Option RealtimeSubscription → Mailbox
set_subscription m next =
    let generation = increment64 m.subscription_generation in
    record m {
      subscription = next;
      subscription_generation = generation;
      dirty_head = 0;
      dirty_count = 0;
      slots = refresh_slots m.subscription next generation 0 m.slots;
      allocated_slots = m.allocated_slots + new_slots next 0 m.slots;
    }

unfoldable pub reset_slots : ℕ → List (Option Slot) → List (Option Slot)
reset_slots generation [] = []
reset_slots generation (none ∷ rest) = none ∷ reset_slots generation rest
reset_slots generation (some s ∷ rest) =
    some (record (retire generation s) { initialized = false }) ∷ reset_slots generation rest

unfoldable pub reset_session : Mailbox → Mailbox
reset_session m =
    let generation = increment64 m.subscription_generation in
    record m {
      dirty_head = 0;
      dirty_count = 0;
      subscription_generation = generation;
      slots = reset_slots generation m.slots;
    }
