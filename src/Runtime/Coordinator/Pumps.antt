-- ===== src/Runtime/Coordinator/Pumps.antt =====
-- What native/src/runtime/realtime_dmx_coordinator.cpp hands to the visual runtime.
use peraviz.Prelude.{
  ℕ, ◌≤◌, ◌≡◌, refl, sym, ap, ◌∙◌, subst, length, List, [], ◌∷◌, arith, ◌⊎◌, inl, inr, Elem,
}
use peraviz.Dmx.Frame.{DmxFrame}
use peraviz.Dmx.Mailbox.State.{Mailbox}
use peraviz.Dmx.Mailbox.Consume.{consume_dirty_frames}
use peraviz.Dmx.Mailbox.Ring.{pending}
use peraviz.Dmx.Mailbox.Valid.{IsValid}
use peraviz.Dmx.Mailbox.Drain.{latest, consume_dirty_frames-IsDrained}
use peraviz.Runtime.Coordinator.{
  RealtimePumpResult, VisualRuntime, older, oldest_of, submit_all, submit_frames, pump,
}

-- Not after any of the times that are known.
abbrev pub IsBefore : ℕ → ℕ → Type 0
IsBefore oldest time = (time ≡ 0) ⊎ ((1 ≤ oldest) × (oldest ≤ time))

older-IsBefore : (oldest time : ℕ) → IsBefore (older oldest time) time
unfolding older
older-IsBefore oldest time = ground arith

older-kept : (oldest time t : ℕ) → IsBefore oldest t → IsBefore (older oldest time) t
unfolding older
older-kept oldest time t h = ground arith

oldest_of-kept :
    (oldest t : ℕ) (frames : List DmxFrame)
    → IsBefore oldest t
    → IsBefore (oldest_of oldest frames) t
unfolding oldest_of
oldest_of-kept oldest t [] h = h
oldest_of-kept oldest t (f ∷ frames) h =
    oldest_of-kept (older oldest f.last_rx_us) t frames (older-kept oldest f.last_rx_us t h)

oldest_of-IsBefore :
    (oldest : ℕ) (frames : List DmxFrame) (f : DmxFrame)
    → Elem f frames
    → IsBefore (oldest_of oldest frames) f.last_rx_us
unfolding oldest_of
oldest_of-IsBefore oldest [] f m = absurd m
oldest_of-IsBefore oldest (g ∷ frames) f (inl e) =
    oldest_of-kept (older oldest g.last_rx_us) f.last_rx_us frames (
      subst (λ k. IsBefore (older oldest g.last_rx_us) k) (ap (λ x. x.last_rx_us) e)
        (older-IsBefore oldest g.last_rx_us))
oldest_of-IsBefore oldest (g ∷ frames) f (inr m) =
    oldest_of-IsBefore (older oldest g.last_rx_us) frames f m

-- The oldest time is 0, the start, or that of a frame.
older_cases : (oldest time : ℕ) → (older oldest time ≡ oldest) ⊎ (older oldest time ≡ time)
unfolding older
older_cases oldest time = ground arith

oldest_of_cases :
    (oldest : ℕ) (frames : List DmxFrame)
    → (oldest_of oldest frames ≡ oldest)
      ⊎ ((f : DmxFrame) × Elem f frames × (oldest_of oldest frames ≡ f.last_rx_us))
unfolding oldest_of
oldest_of_cases oldest [] = inl refl
oldest_of_cases oldest (g ∷ frames) = elim (oldest_of_cases (older oldest g.last_rx_us) frames) [
  | inr (f, m, e) ↦ inr (f, inr m, e)
  | inl e ↦ elim (older_cases oldest g.last_rx_us) [
    | inl same ↦ inl (e ∙ same)
    | inr new ↦ inr (g, inl refl, e ∙ new)
  ]
]

-- The runtime has got the universe, the bytes and the length of each frame, one after the other.
pub data Submitted {S : Type 0} (runtime : VisualRuntime S) : S → List DmxFrame → S → Type 0 where
  done : {s : S} → Submitted runtime s [] s
  next :
      {s s' : S} {frame : DmxFrame} {frames : List DmxFrame}
      → Submitted runtime
          (runtime.submit_universe_frame s frame.universe_id frame.payload frame.length)
          frames
          s'
      → Submitted runtime s (frame ∷ frames) s'

submit_all-Submitted :
    {S : Type 0} (runtime : VisualRuntime S) (s : S) (frames : List DmxFrame)
    → Submitted runtime s frames (submit_all runtime s frames)
unfolding submit_all
submit_all-Submitted runtime s [] = Submitted.done
submit_all-Submitted runtime s (frame ∷ frames) =
    Submitted.next (submit_all-Submitted runtime _ frames)

-- What a pump has done.
pub record IsPumped {S : Type 0} (runtime : VisualRuntime S) (s : S) (m : Mailbox)
    (out : RealtimePumpResult × S × Mailbox) : Type 0 where
  pub submitted : Submitted runtime s (latest m.slots (pending m)) out.1
  pub count : out.0.states_submitted ≡ length (latest m.slots (pending m))
  pub first :
      (f : DmxFrame)
      → Elem f (latest m.slots (pending m))
      → IsBefore out.0.oldest_receive_us f.last_rx_us
  pub reached :
      (out.0.oldest_receive_us ≡ 0)
      ⊎ ((f : DmxFrame) × Elem f (latest m.slots (pending m))
          × (out.0.oldest_receive_us ≡ f.last_rx_us))
  pub empty : out.2.dirty_count ≡ 0
  pub valid : IsValid out.2

-- With no other thread between, a pump of a valid mailbox submits to the runtime, whatever that
-- does with them, the universe, bytes and length of the held frames of the queued universes in queue
-- order, reports how many these are, and leaves a valid mailbox with no token. The time that it reports is the smallest one, other than 0, at which one
-- of these frames was received, or 0 if there is none.
pub pump-IsPumped :
    {S : Type 0} (runtime : VisualRuntime S) (s : S) (m : Mailbox)
    → IsValid m
    → IsPumped runtime s m (pump runtime s m)
unfolding pump submit_frames
pump-IsPumped runtime s m v =
    let out = consume_dirty_frames-IsDrained m v in
    record {
      submitted =
          subst
            (λ frames. Submitted runtime s frames (submit_all runtime s (consume_dirty_frames m).0))
            out.frames (submit_all-Submitted runtime s (consume_dirty_frames m).0);
      count = ap length out.frames;
      first = λ f at.
          oldest_of-IsBefore 0 (consume_dirty_frames m).0 f (subst (Elem f) (sym out.frames) at);
      reached =
          subst
            (λ frames.
              (oldest_of 0 (consume_dirty_frames m).0 ≡ 0)
              ⊎ ((f : DmxFrame) × Elem f frames
                  × (oldest_of 0 (consume_dirty_frames m).0 ≡ f.last_rx_us)))
            out.frames (oldest_of_cases 0 (consume_dirty_frames m).0);
      empty = out.empty;
      valid = out.valid;
    }
