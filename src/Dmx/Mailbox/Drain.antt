-- ===== src/Dmx/Mailbox/Drain.antt =====
-- What `consume_dirty_frames` of native/src/dmx/realtime_universe_mailbox.cpp hands out.
use peraviz.Prelude.{
  ℕ, zero, suc, ◌≡◌, refl, sym, ◌∙◌, subst, false, Option, none, some, List, [], ◌∷◌, arith, ◌==◌,
  length, Bool-cases, inl, inr, Elem, Distinct,
}
use peraviz.Dmx.Frame.{DmxFrame}
use peraviz.Dmx.Mailbox.State.{Slot, DirtyToken, Mailbox, slot_at, set_slot}
use peraviz.Dmx.Mailbox.Consume.{consume_one, consume_rounds, consume_dirty_frames}
use peraviz.Dmx.Mailbox.Ring.{pending}
use peraviz.Dmx.Mailbox.Agrees.{universes, IsCovered, slot_at-set_ne}
use peraviz.Dmx.Mailbox.Valid.{IsValid, length-pending}
use peraviz.Dmx.Mailbox.Calls.{Consumed, consume_one-Consumed}

abbrev pub held_frame : Option Slot → List DmxFrame → List DmxFrame
held_frame none frames = frames
held_frame (some s) frames = s.held ∷ frames

-- The held state of the slot of each token, in the order of the tokens.
unfoldable pub latest : List (Option Slot) → List DirtyToken → List DmxFrame
latest slots [] = []
latest slots (t ∷ ts) = held_frame (slot_at slots t.universe) (latest slots ts)

latest-set_other :
    (slots : List (Option Slot)) (ts : List DirtyToken) (u : ℕ) (s : Slot)
    → (¬ Elem u (universes ts))
    → latest (set_slot slots u s) ts ≡ latest slots ts
unfolding latest
latest-set_other slots [] u s h = refl
latest-set_other slots (t ∷ ts) u s h = rw (
  slot_at-set_ne slots u t.universe s (λ e. h (inl (sym e))),
  latest-set_other slots ts u s (λ m. h (inr m)),
)

pub latest-Elem :
    (slots : List (Option Slot)) (ts : List DirtyToken) (u : ℕ) (s : Slot)
    → slot_at slots u ≡ some s
    → Elem u (universes ts)
    → Elem s.held (latest slots ts)
unfolding latest
latest-Elem slots [] u s e m = absurd m
latest-Elem slots (t ∷ ts) u s e (inl at) =
    subst (λ o. Elem s.held (held_frame o (latest slots ts)))
      (sym (subst (λ k. slot_at slots k ≡ some s) (sym at) e)) (inl refl)
latest-Elem slots (t ∷ ts) u s e (inr m) =
    later (slot_at slots t.universe) (latest-Elem slots ts u s e m)
  where
    later :
        (o : Option Slot)
        → Elem s.held (latest slots ts)
        → Elem s.held (held_frame o (latest slots ts))
    later none h = h
    later (some s') h = inr h

-- The state after the loop.
pub record IsDrained (m : Mailbox) (out : List DmxFrame × Mailbox) : Type 0 where
  pub frames : out.0 ≡ latest m.slots (pending m)
  pub empty : out.1.dirty_count ≡ 0
  pub valid : IsValid out.1

consume_rounds-none :
    (rounds : ℕ) (m : Mailbox) → m.dirty_count ≡ 0 → consume_rounds rounds m ≡ ([], m)
unfolding consume_rounds
consume_rounds-none zero m e = refl
consume_rounds-none (suc rounds) m e = ground arith

pending-nil : (m : Mailbox) → m.dirty_count ≡ 0 → pending m ≡ []
pending-nil m e = nil (pending m) (length-pending m ∙ e)
  where
    nil : (ts : List DirtyToken) → length ts ≡ 0 → ts ≡ []
    nil [] h = refl
    nil (t ∷ ts) h = absurd (omega arith)

-- A round and the rounds after it.
round-IsDrained :
    (rounds : ℕ) (m : Mailbox) (t : DirtyToken) (rest : List DirtyToken)
    → m.dirty_count ≡ suc rounds
    → IsValid m
    → pending m ≡ t ∷ rest
    → Consumed m t rest
    → IsDrained (consume_one m).1 (consume_rounds rounds (consume_one m).1)
    → IsDrained m (consume_rounds (suc rounds) m)
unfolding consume_rounds latest
round-IsDrained rounds m t rest count v split c later =
    let some_left : (m.dirty_count == 0) ≡ false = ground arith in
    let apart : Distinct (t.universe ∷ universes rest) =
      subst (λ ts. Distinct (universes ts)) split v.agrees.distinct in
    rw some_left (record {
      frames =
          rw
            (
              c.frame,
              later.frames,
              c.waiting,
              c.slots,
              split,
              latest-set_other m.slots rest t.universe
                  (record c.slot { dirty = false; queued = false }) apart.0,
            )
            (sym (cons m.slots t rest c.slot c.at));
      empty = later.empty;
      valid = later.valid;
    })
  where
    cons :
        (slots : List (Option Slot)) (t : DirtyToken) (ts : List DirtyToken) (s : Slot)
        → slot_at slots t.universe ≡ some s
        → latest slots (t ∷ ts) ≡ s.held ∷ latest slots ts
    cons slots t ts s e = rw (latest, e)

consume_rounds-IsDrained :
    (rounds : ℕ) (m : Mailbox)
    → m.dirty_count ≡ rounds
    → IsValid m
    → IsDrained m (consume_rounds rounds m)
unfolding latest
consume_rounds-IsDrained zero m e v =
    rw (consume_rounds-none zero m e)
      (record { frames = rw (pending-nil m e, latest); empty = e; valid = v })
consume_rounds-IsDrained (suc rounds) m e v =
    let (t, rest, split, c) = consume_one-Consumed m rounds e v in
    round-IsDrained rounds m t rest e v split c
      (consume_rounds-IsDrained rounds (consume_one m).1 (c.count ∙ omega arith) c.valid)

-- In a valid mailbox, and with no other thread between its rounds, the loop hands out the latest
-- held state of each queued universe once, in the order in which they were queued, leaves no token
-- and keeps the mailbox valid.
pub consume_dirty_frames-IsDrained :
    (m : Mailbox) → IsValid m → IsDrained m (consume_dirty_frames m)
unfolding consume_dirty_frames
consume_dirty_frames-IsDrained m v = consume_rounds-IsDrained m.dirty_count m refl v

-- After the loop no slot is dirty.
pub IsDrained-clean :
    (m : Mailbox) (out : List DmxFrame × Mailbox) (u : ℕ) (s : Slot)
    → IsDrained m out
    → slot_at out.1.slots u ≡ some s
    → s.dirty ≡ false
IsDrained-clean m out u s d e =
    let c : IsCovered (universes (pending out.1)) u (some s) =
      subst (IsCovered _ u) e (d.valid.agrees.covered u) in
    elim (Bool-cases s.dirty) [
      | inl dirty ↦
          absurd (subst (λ ts. Elem u (universes ts)) (pending-nil out.1 d.empty) (c.1 dirty))
      | inr clean ↦ clean
    ]
