-- ===== src/Dmx/Mailbox/Calls.antt =====
-- Every order in which the critical sections of native/src/dmx/realtime_universe_mailbox.cpp can
-- run, from a new mailbox on.
use peraviz.Prelude.{
  ℕ, zero, suc, ◌+◌, ◌-◌, ◌%◌, ◌<◌, ◌≡◌, refl, ap, subst, true, false, Option, none, some, List, [],
  ◌∷◌, arith, ◌==◌, if◌then◌else◌, length, get_or, replicate, length-replicate, increment64,
}
use peraviz.Dmx.Subscription.{RealtimeSubscription}
use peraviz.Dmx.Mailbox.State.{
  Slot, DirtyToken, Mailbox, no_token, slot_at, set_slot, refresh_slot, refresh_slots, reset_slots,
  set_subscription, reset_session, new_mailbox,
}
use peraviz.Dmx.Mailbox.Publish.{publish}
use peraviz.Dmx.Mailbox.Consume.{consume_one, consume_token_locked}
use peraviz.Dmx.Mailbox.Ring.{tokens_from, pending}
use peraviz.Dmx.Mailbox.Agrees.{
  IsLive, IsCovered, Agrees, Agrees-pop, Agrees-clean, length-set_slot,
}
use peraviz.Dmx.Mailbox.Valid.{IsValid, publish-IsValid}

-- A slot that waits for nothing.
abbrev IsIdle : Option Slot → Type 0
IsIdle none = Unit
IsIdle (some s) = (s.dirty ≡ false) × (s.queued ≡ false)

IsCovered-of_idle : (u : ℕ) (o : Option Slot) → IsIdle o → IsCovered [] u o
IsCovered-of_idle u none h = tt
IsCovered-of_idle u (some s) h = (cc (h.0, h.1), λ d. cc (d, h.0))

refreshed-IsIdle :
    (previous next : Option RealtimeSubscription) (generation u : ℕ) (o : Option Slot)
    → IsIdle (refresh_slot previous next generation u o)
unfolding refresh_slot
refreshed-IsIdle previous next generation u none = ground arith
refreshed-IsIdle previous next generation u (some s) = ground arith

refresh_slots-IsIdle :
    (previous next : Option RealtimeSubscription) (generation u : ℕ) (slots : List (Option Slot))
    (v : ℕ)
    → IsIdle (slot_at (refresh_slots previous next generation u slots) v)
unfolding refresh_slots
refresh_slots-IsIdle previous next generation u [] v = tt
refresh_slots-IsIdle previous next generation u (o ∷ rest) zero =
    refreshed-IsIdle previous next generation u o
refresh_slots-IsIdle previous next generation u (o ∷ rest) (suc v) =
    refresh_slots-IsIdle previous next generation (u + 1) rest v

length-refresh_slots :
    (previous next : Option RealtimeSubscription) (generation u : ℕ) (slots : List (Option Slot))
    → length (refresh_slots previous next generation u slots) ≡ length slots
unfolding refresh_slots
length-refresh_slots previous next generation u [] = refl
length-refresh_slots previous next generation u (o ∷ rest) =
    ap suc (length-refresh_slots previous next generation (u + 1) rest)

reset_slots-IsIdle :
    (generation : ℕ) (slots : List (Option Slot)) (v : ℕ)
    → IsIdle (slot_at (reset_slots generation slots) v)
unfolding reset_slots
reset_slots-IsIdle generation [] v = tt
reset_slots-IsIdle generation (none ∷ rest) zero = tt
reset_slots-IsIdle generation (some s ∷ rest) zero = (refl, refl)
reset_slots-IsIdle generation (none ∷ rest) (suc v) = reset_slots-IsIdle generation rest v
reset_slots-IsIdle generation (some s ∷ rest) (suc v) = reset_slots-IsIdle generation rest v

length-reset_slots :
    (generation : ℕ) (slots : List (Option Slot))
    → length (reset_slots generation slots) ≡ length slots
unfolding reset_slots
length-reset_slots generation [] = refl
length-reset_slots generation (none ∷ rest) = ap suc (length-reset_slots generation rest)
length-reset_slots generation (some s ∷ rest) = ap suc (length-reset_slots generation rest)

idle-Agrees : (slots : List (Option Slot)) → ((u : ℕ) → IsIdle (slot_at slots u)) → Agrees slots []
idle-Agrees slots h = Agrees-clean slots (λ u. IsCovered-of_idle u (slot_at slots u) (h u))

-- `set_subscription` retires every token and keeps the invariant.
pub set_subscription-IsValid :
    (m : Mailbox) (next : Option RealtimeSubscription)
    → IsValid m
    → IsValid (set_subscription m next)
unfolding set_subscription pending tokens_from
set_subscription-IsValid m next v = record {
  capacity = rw length-refresh_slots v.capacity;
  head_in = omega (arith, v.head_in);
  agrees = idle-Agrees _ (refresh_slots-IsIdle m.subscription next _ 0 m.slots);
}

pub reset_session-IsValid : (m : Mailbox) → IsValid m → IsValid (reset_session m)
unfolding reset_session pending tokens_from
reset_session-IsValid m v = record {
  capacity = rw length-reset_slots v.capacity;
  head_in = omega (arith, v.head_in);
  agrees = idle-Agrees _ (reset_slots-IsIdle _ m.slots);
}

empty-IsIdle : (size u : ℕ) → IsIdle (slot_at (replicate size none) u)
empty-IsIdle zero u = tt
empty-IsIdle (suc size) zero = tt
empty-IsIdle (suc size) (suc u) = empty-IsIdle size u

pub new_mailbox-IsValid : (size : ℕ) → 0 < size → IsValid (new_mailbox size)
unfolding new_mailbox pending tokens_from
new_mailbox-IsValid size h = record {
  capacity = rw (length-replicate size no_token, length-replicate {A = Option Slot} size none);
  head_in = rw (length-replicate size no_token) h;
  agrees = idle-Agrees _ (empty-IsIdle size);
}

-- The slot that the first token of a valid mailbox names, and the mailbox after its round.
pub record Consumed (m : Mailbox) (t : DirtyToken) (rest : List DirtyToken) : Type 0 where
  pub slot : Slot
  pub at : slot_at m.slots t.universe ≡ some slot
  pub live : IsLive t (some slot)
  pub frame : (consume_one m).0 ≡ some slot.held
  pub slots :
      (consume_one m).1.slots
      ≡ set_slot m.slots t.universe (record slot { dirty = false; queued = false })
  pub count : (consume_one m).1.dirty_count ≡ m.dirty_count - 1
  pub waiting : pending (consume_one m).1 ≡ rest
  pub valid : IsValid (consume_one m).1

consume_token-live :
    (m : Mailbox) (t : DirtyToken) (s : Slot)
    → slot_at m.slots t.universe ≡ some s
    → IsLive t (some s)
    → consume_token_locked m t ≡ (
      some s.held,
      record m {
        slots = set_slot m.slots t.universe (record s { dirty = false; queued = false });
        dirty_states_consumed = increment64 m.dirty_states_consumed;
      },
    )
unfolding consume_token_locked
consume_token-live m t s e live = ground arith

-- The mailbox after the round for the token `t`.
abbrev after_round : Mailbox → DirtyToken → Slot → Mailbox
after_round m t s = record m {
  dirty_head = (m.dirty_head + 1) % length m.dirty_tokens;
  dirty_count = m.dirty_count - 1;
  slots = set_slot m.slots t.universe (record s { dirty = false; queued = false });
  dirty_states_consumed = increment64 m.dirty_states_consumed;
}

consume_one-live :
    (m : Mailbox) (s : Slot)
    → let t = get_or m.dirty_tokens m.dirty_head no_token in
      slot_at m.slots t.universe ≡ some s
      → IsLive t (some s)
      → consume_one m ≡ (some s.held, after_round m t s)
unfolding consume_one
consume_one-live m s e live = consume_token-live _ _ s e live

Consumed-slot :
    (m : Mailbox) (n : ℕ) (o : Option Slot)
    → let t = get_or m.dirty_tokens m.dirty_head no_token in
      let rest = tokens_from m.dirty_tokens ((m.dirty_head + 1) % length m.dirty_tokens) n in
      m.dirty_count ≡ suc n
      → slot_at m.slots t.universe ≡ o
      → IsLive t o
      → Agrees m.slots (t ∷ rest)
      → IsValid m
      → Consumed m t rest
unfolding pending
Consumed-slot m n none count e live agrees v = absurd live
Consumed-slot m n (some s) count e live agrees v =
    let t = get_or m.dirty_tokens m.dirty_head no_token in
    let less : m.dirty_count - 1 ≡ n = omega arith in
    let eq : consume_one m ≡ (some s.held, after_round m t s) = consume_one-live m s e live in
    record {
      slot = s;
      at = e;
      live = live;
      frame = ap (λ r. r.0) eq;
      slots = ap (λ r. r.1.slots) eq;
      count = ap (λ r. r.1.dirty_count) eq;
      waiting = rw (eq, less);
      valid = rw eq (record {
        capacity = rw length-set_slot v.capacity;
        head_in = omega (arith, v.head_in);
        agrees = rw less (Agrees-pop m.slots t _ s _ e refl refl agrees);
      });
    }

-- In a valid mailbox with a token queued, one round of the loop hands out the frame of that
-- token's slot, marks the slot clean, takes the token off and keeps the invariant.
pub consume_one-Consumed :
    (m : Mailbox) (n : ℕ)
    → m.dirty_count ≡ suc n
    → IsValid m
    → (t : DirtyToken) × (rest : List DirtyToken) × (pending m ≡ t ∷ rest) × Consumed m t rest
unfolding pending tokens_from
consume_one-Consumed m n count v =
    let split : pending m
        ≡ get_or m.dirty_tokens m.dirty_head no_token
          ∷ tokens_from m.dirty_tokens ((m.dirty_head + 1) % length m.dirty_tokens) n =
      rw count refl in
    let agrees = subst (Agrees m.slots) split v.agrees in
    (_, _, split, Consumed-slot m n _ count refl agrees.live.0 agrees v)

-- A critical section of the mailbox that changes its state. `round` is one round of the loop of
-- `consume_dirty_frames`.
pub data Call : Type 0 where
  subscribe : Option RealtimeSubscription → Call
  reset round : Call
  packet : ℕ → Option (List ℕ) → ℕ → ℕ → ℕ → Call

unfoldable pub step : Mailbox → Call → Mailbox
step m (subscribe next) = set_subscription m next
step m reset = reset_session m
step m round = if m.dirty_count == 0 then m else (consume_one m).1
step m (packet universe payload n sequence now) = (publish m universe payload n sequence now).1

unfoldable pub run : Mailbox → List Call → Mailbox
run m [] = m
run m (c ∷ cs) = run (step m c) cs

round-IsValid : (m : Mailbox) (n : ℕ) → m.dirty_count ≡ n → IsValid m → IsValid (step m round)
unfolding step
round-IsValid m zero e v =
    let none_left : (m.dirty_count == 0) ≡ true = ground arith in rw none_left v
round-IsValid m (suc n) e v =
    let some_left : (m.dirty_count == 0) ≡ false = ground arith in
    rw some_left ((consume_one-Consumed m n e v).3.valid)

step-IsValid : (m : Mailbox) (c : Call) → IsValid m → IsValid (step m c)
unfolding step
step-IsValid m (subscribe next) v = set_subscription-IsValid m next v
step-IsValid m reset v = reset_session-IsValid m v
step-IsValid m round v = round-IsValid m m.dirty_count refl v
step-IsValid m (packet universe payload n sequence now) v =
    publish-IsValid m universe payload n sequence now v

run-IsValid : (m : Mailbox) (cs : List Call) → IsValid m → IsValid (run m cs)
unfolding run
run-IsValid m [] v = v
run-IsValid m (c ∷ cs) v = run-IsValid (step m c) cs (step-IsValid m c v)

-- Whatever the order of the critical sections of publishers, consumers and scene changes, from a
-- new mailbox of one universe or more on: the ring's tokens are those of distinct universes whose slots are dirty and
-- queued with that very token, every dirty slot has its token in the ring, and the ring's indices
-- are in range.
pub run-new_mailbox-IsValid :
    (size : ℕ) (cs : List Call) → 0 < size → IsValid (run (new_mailbox size) cs)
run-new_mailbox-IsValid size cs h = run-IsValid (new_mailbox size) cs (new_mailbox-IsValid size h)
