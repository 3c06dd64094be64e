-- ===== src/Dmx/Mailbox/Agrees.antt =====
-- How the slots and the queued tokens of native/src/dmx/realtime_universe_mailbox.cpp belong
-- together, and the changes that keep them so.
use peraviz.Prelude.{
  ℕ, zero, suc, ◌<◌, ◌≡◌, refl, sym, ap, subst, ◌≢◌, inl, inr, true, false, Option, none, some,
  List, [], ◌∷◌, ◌++◌, arith, length, All, All-append, Elem, Distinct, Distinct-snoc,
  Elem-append_left, Elem-append_right, pigeonhole,
}
use native.Mathlib.Decide.{ℕ_discrete}
use peraviz.Dmx.Mailbox.State.{Slot, DirtyToken, slot_at, set_slot}

abbrev pub universes : List DirtyToken → List ℕ
universes [] = []
universes (t ∷ ts) = t.universe ∷ universes ts

-- The token is the one that its slot was queued with.
abbrev pub IsLive : DirtyToken → Option Slot → Type 0
IsLive t none = ⊥
IsLive t (some s) =
    (s.dirty ≡ true) × (s.queued ≡ true) × (s.generation ≡ t.generation) × (s.token_id ≡ t.token_id)

-- A slot is queued when it is dirty, and then a token of its universe waits.
abbrev pub IsCovered : List ℕ → ℕ → Option Slot → Type 0
IsCovered waiting universe none = Unit
IsCovered waiting universe (some s) =
    (s.queued ≡ s.dirty) × (s.dirty ≡ true → Elem universe waiting)

abbrev pub AllLive : List (Option Slot) → List DirtyToken → Type 0
AllLive slots = All (λ t. IsLive t (slot_at slots t.universe))

pub record Agrees (slots : List (Option Slot)) (ts : List DirtyToken) : Type 0 where
  pub live : AllLive slots ts
  pub distinct : Distinct (universes ts)
  pub covered : (universe : ℕ) → IsCovered (universes ts) universe (slot_at slots universe)

pub slot_at_lt :
    (slots : List (Option Slot)) (u : ℕ) {s : Slot} → slot_at slots u ≡ some s → u < length slots
slot_at_lt [] u e = cc
slot_at_lt (x ∷ xs) zero e = omega arith
slot_at_lt (x ∷ xs) (suc u) e = omega (arith, slot_at_lt xs u e)

pub slot_at-set_self :
    (slots : List (Option Slot)) (u : ℕ) (s : Slot)
    → u < length slots
    → slot_at (set_slot slots u s) u ≡ some s
slot_at-set_self [] u s h = absurd (omega arith)
slot_at-set_self (x ∷ xs) zero s h = refl
slot_at-set_self (x ∷ xs) (suc u) s h = slot_at-set_self xs u s (omega arith)

pub slot_at-set_ne :
    (slots : List (Option Slot)) (u v : ℕ) (s : Slot)
    → u ≢ v
    → slot_at (set_slot slots u s) v ≡ slot_at slots v
slot_at-set_ne [] u v s h = refl
slot_at-set_ne (x ∷ xs) zero zero s h = absurd (h refl)
slot_at-set_ne (x ∷ xs) zero (suc v) s h = refl
slot_at-set_ne (x ∷ xs) (suc u) zero s h = refl
slot_at-set_ne (x ∷ xs) (suc u) (suc v) s h = slot_at-set_ne xs u v s (λ e. h (ap suc e))

pub length-set_slot :
    (slots : List (Option Slot)) (u : ℕ) (s : Slot) → length (set_slot slots u s) ≡ length slots
length-set_slot [] u s = refl
length-set_slot (x ∷ xs) zero s = refl
length-set_slot (x ∷ xs) (suc u) s = ap suc (length-set_slot xs u s)

-- What a token at universe `u` says of the slot there.
IsLive-at :
    (slots : List (Option Slot)) (t : DirtyToken) (u : ℕ) (s : Slot)
    → slot_at slots u ≡ some s
    → u ≡ t.universe
    → IsLive t (slot_at slots t.universe)
    → IsLive t (some s)
IsLive-at slots t u s e at = subst (IsLive t) (subst (λ k. slot_at slots k ≡ some s) at e)

-- A slot that is not dirty has no token.
pub clean-not-waiting :
    (slots : List (Option Slot)) (ts : List DirtyToken) (u : ℕ) (s : Slot)
    → AllLive slots ts
    → slot_at slots u ≡ some s
    → s.dirty ≡ false
    → ¬ Elem u (universes ts)
clean-not-waiting slots [] u s live e clean m = m
clean-not-waiting slots (t ∷ ts) u s live e clean (inl at) =
    let here : IsLive t (some s) = IsLive-at slots t u s e (sym at) live.0 in cc here.0
clean-not-waiting slots (t ∷ ts) u s live e clean (inr m) =
    clean-not-waiting slots ts u s live.1 e clean m

live_below :
    (slots : List (Option Slot)) (ts : List DirtyToken)
    → AllLive slots ts
    → All (λ u. u < length slots) (universes ts)
live_below slots [] live = tt
live_below slots (t ∷ ts) live =
    (below (slot_at slots t.universe) refl live.0, live_below slots ts live.1)
  where
    below :
        (o : Option Slot) → slot_at slots t.universe ≡ o → IsLive t o → t.universe < length slots
    below none e h = absurd h
    below (some s) e h = slot_at_lt slots t.universe e

length-universes : (ts : List DirtyToken) → length (universes ts) ≡ length ts
length-universes [] = refl
length-universes (t ∷ ts) = ap suc (length-universes ts)

-- While a slot has no token there is room for one.
pub waiting-room :
    (slots : List (Option Slot)) (ts : List DirtyToken) (u : ℕ) (s : Slot)
    → Agrees slots ts
    → slot_at slots u ≡ some s
    → s.dirty ≡ false
    → length ts < length slots
waiting-room slots ts u s v e clean = omega (
  arith,
  pigeonhole (length slots) (u ∷ universes ts) (slot_at_lt slots u e, live_below slots ts v.live)
      (clean-not-waiting slots ts u s v.live e clean, v.distinct),
  length-universes ts,
)

live-set_other :
    (slots : List (Option Slot)) (ts : List DirtyToken) (u : ℕ) (s : Slot)
    → (¬ Elem u (universes ts))
    → AllLive slots ts
    → AllLive (set_slot slots u s) ts
live-set_other slots [] u s h live = tt
live-set_other slots (t ∷ ts) u s h live = (
  rw (slot_at-set_ne slots u t.universe s (λ e. h (inl (sym e)))) live.0,
  live-set_other slots ts u s (λ m. h (inr m)) live.1,
)

-- The flags, the generation and the token are as they were.
pub record IsSameState (s s' : Slot) : Type 0 where
  pub dirty : s'.dirty ≡ s.dirty
  pub queued : s'.queued ≡ s.queued
  pub generation : s'.generation ≡ s.generation
  pub token_id : s'.token_id ≡ s.token_id

live-touch :
    (slots : List (Option Slot)) (ts : List DirtyToken) (u : ℕ) (s s' : Slot)
    → slot_at slots u ≡ some s
    → IsSameState s s'
    → AllLive slots ts
    → AllLive (set_slot slots u s') ts
live-touch slots [] u s s' e same live = tt
live-touch slots (t ∷ ts) u s s' e same live = (
  elim (ℕ_discrete u t.universe) [
    | yes at ↦ here at
    | no off ↦ rw (slot_at-set_ne slots u t.universe s' off) live.0
  ],
  live-touch slots ts u s s' e same live.1,
)
  where
    here : u ≡ t.universe → IsLive t (slot_at (set_slot slots u s') t.universe)
    here at =
        let old : IsLive t (some s) = IsLive-at slots t u s e at live.0 in
        rw (← at, slot_at-set_self slots u s' (slot_at_lt slots u e))
          (cc same.dirty, cc same.queued, cc same.generation, cc same.token_id)

IsCovered-set :
    (slots : List (Option Slot)) (before after : List ℕ) (u : ℕ) (s' : Slot)
    → u < length slots
    → IsCovered after u (some s')
    → ((v : ℕ) → u ≢ v → Elem v before → Elem v after)
    → ((v : ℕ) → IsCovered before v (slot_at slots v))
    → (v : ℕ) → IsCovered after v (slot_at (set_slot slots u s') v)
IsCovered-set slots before after u s' h own grow covered v = elim (ℕ_discrete u v) [
  | yes at ↦ rw (← at, slot_at-set_self slots u s' h) own
  | no off ↦ rw (slot_at-set_ne slots u v s' off) (wider off (slot_at slots v) (covered v))
]
  where
    wider : u ≢ v → (o : Option Slot) → IsCovered before v o → IsCovered after v o
    wider off none c = tt
    wider off (some s) c = (c.0, λ d. grow v off (c.1 d))

-- A write that keeps the flags, the generation and the token changes nothing of the agreement.
pub Agrees-touch :
    (slots : List (Option Slot)) (ts : List DirtyToken) (u : ℕ) (s s' : Slot)
    → slot_at slots u ≡ some s
    → IsSameState s s'
    → Agrees slots ts
    → Agrees (set_slot slots u s') ts
Agrees-touch slots ts u s s' e same v = record {
  live = live-touch slots ts u s s' e same v.live;
  distinct = v.distinct;
  covered =
      IsCovered-set slots (universes ts) (universes ts) u s' (slot_at_lt slots u e) own (λ _ _ m. m)
        v.covered;
}
  where
    old : IsCovered (universes ts) u (some s)
    old = subst (IsCovered (universes ts) u) e (v.covered u)

    own : IsCovered (universes ts) u (some s')
    own = (cc (old.0, same.queued, same.dirty), λ d. old.1 (cc (d, same.dirty)))

universes-append : (ts us : List DirtyToken) → universes (ts ++ us) ≡ universes ts ++ universes us
universes-append [] us = refl
universes-append (t ∷ ts) us = ap (λ l. t.universe ∷ l) (universes-append ts us)

-- A clean slot that is made dirty and queued agrees with its token put last.
pub Agrees-push :
    (slots : List (Option Slot)) (ts : List DirtyToken) (s s' : Slot) (t : DirtyToken)
    → slot_at slots t.universe ≡ some s
    → s.dirty ≡ false
    → IsLive t (some s')
    → Agrees slots ts
    → Agrees (set_slot slots t.universe s') (ts ++ t ∷ [])
Agrees-push slots ts s s' t e clean own v = record {
  live =
      All-append _ ts (t ∷ []) (live-set_other slots ts t.universe s' absent v.live)
        (subst (IsLive t) (sym (slot_at-set_self slots t.universe s' below)) own, tt);
  distinct =
      rw (universes-append ts (t ∷ [])) (Distinct-snoc t.universe (universes ts) v.distinct absent);
  covered = rw (universes-append ts (t ∷ [])) (
      IsCovered-set slots (universes ts) (universes ts ++ t.universe ∷ []) t.universe s' below
        (
          cc (own.0, own.1),
          λ _. Elem-append_right t.universe (universes ts) (t.universe ∷ []) (inl refl),
        )
        (λ w _. Elem-append_left w (universes ts) (t.universe ∷ [])) v.covered);
}
  where
    below : t.universe < length slots
    below = slot_at_lt slots t.universe e

    absent : ¬ Elem t.universe (universes ts)
    absent = clean-not-waiting slots ts t.universe s v.live e clean

-- The first token is taken off, and its slot is clean.
pub Agrees-pop :
    (slots : List (Option Slot)) (t : DirtyToken) (ts : List DirtyToken) (s s' : Slot)
    → slot_at slots t.universe ≡ some s
    → s'.dirty ≡ false
    → s'.queued ≡ false
    → Agrees slots (t ∷ ts)
    → Agrees (set_slot slots t.universe s') ts
Agrees-pop slots t ts s s' e clean idle v = record {
  live = live-set_other slots ts t.universe s' v.distinct.0 v.live.1;
  distinct = v.distinct.1;
  covered =
      IsCovered-set slots (t.universe ∷ universes ts) (universes ts) t.universe s'
        (slot_at_lt slots t.universe e) (cc (clean, idle), λ d. cc (d, clean)) shrink v.covered;
}
  where
    shrink : (w : ℕ) → t.universe ≢ w → Elem w (t.universe ∷ universes ts) → Elem w (universes ts)
    shrink w off (inl at) = absurd (off at)
    shrink w off (inr m) = m

-- No slot is dirty or queued, and none waits.
pub Agrees-clean :
    (slots : List (Option Slot)) → ((u : ℕ) → IsCovered [] u (slot_at slots u)) → Agrees slots []
Agrees-clean slots h = record { live = tt; distinct = tt; covered = h }
