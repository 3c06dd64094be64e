-- ===== src/Presentation/Pipeline/Channel/Refines.antt =====
-- Each step of native/src/presentation/async_presentation_pipeline.cpp is a move of the channel.
use peraviz.Prelude.{
  ℕ, ◌≡◌, refl, sym, subst, Bool, true, not, ◌&&◌, ◌||◌, ◌==◌, if-elim, Option, none, some, List,
  ◌++◌, ℤ, pos, negsuc,
}
use peraviz.Presentation.Pipeline.{
  Status, free, reading, writing, System, status_of, set_status, is_free, active, write_found,
  submit, write_frame, index_of, begin_flush, try_input, free_replaced, end_acquire, release,
  set_trace, begin_stop,
}
use peraviz.Presentation.Pipeline.Owners.{coordinator_input}
use peraviz.Presentation.Pipeline.Channel.{
  Channel, Event, Move, frames_at, snapshots_at, completed, unread_of, view, IsMove,
}
use peraviz.Presentation.Pipeline.Channel.Views.{
  channel_eq, frames_at-set_status, snapshots_at-set_status,
}

module _ {C S : Type 0} where
  -- A step to a system with this view.
  pub to :
      {event : Event S} (s u : System C S) (c : Channel S)
      → Move event (view s) c
      → view u ≡ c
      → Move event (view s) (view u)
  to {event} s u c move e = subst (Move event (view s)) (sym e) move

  pub submit-Move :
      (s : System C S) (universe : ℕ) (bytes : Option (List ℕ)) (size : ℤ) (received_us : ℕ)
      → Move
          (Event.written (submit s universe bytes size received_us).1.latest)
          (view s)
          (view (submit s universe bytes size received_us).1)
  unfolding submit write_frame
  submit-Move s universe none size received_us = Move.writes s.latest
  submit-Move s universe (some bytes) (negsuc n) received_us = Move.writes s.latest
  submit-Move s universe (some bytes) (pos size) received_us =
      if-elim (λ (r : Bool × System C S). IsMove (Event.written r.1.latest) s r.1)
        (not (active s) || size == 0) _ _ (λ t. Move.writes s.latest)
        (λ t. found (index_of s.latest universe))
    where
      found :
          (i : Option ℕ)
          → Move
              (Event.written (write_found s i bytes size received_us).1.latest)
              (view s)
              (view (write_found s i bytes size received_us).1)
      found none = Move.writes s.latest
      found (some i) = Move.writes _

  pub begin_flush-Move : (s : System C S) → IsMove Event.silent s (begin_flush s)
  unfolding begin_flush
  begin_flush-Move s =
      if-elim (IsMove {C = C} {S = S} Event.silent s) (s.producer_dirty && active s) _ _
        (λ t. Move.stays) (λ t. Move.stays)

  -- A write of a status is not seen.
  pub status_unseen :
      (s : System C S) (i : ℕ) (status : Status)
      → Move Event.silent (view s) (record (view s) {
        pending = frames_at (set_status s.inputs i status) s.queued_input;
        held = frames_at (set_status s.inputs i status) (coordinator_input s.coordinator);
      })
  status_unseen s i status =
      subst (Move Event.silent (view s))
        (channel_eq _ _ refl (sym (frames_at-set_status s.inputs i status s.queued_input))
          (sym (frames_at-set_status s.inputs i status (coordinator_input s.coordinator))) refl
          refl)
        Move.stays

  pub output_status_unseen :
      (s : System C S) (i : ℕ) (status : Status)
      → Move Event.silent (view s) (record (view s) {
        unread = unread_of (set_status s.outputs i status) s.ready_output s.coordinator;
      })
  output_status_unseen s i status =
      subst (Move Event.silent (view s))
        (channel_eq _ _ refl refl refl
          (sym (unread-set_status s.ready_output (completed s.coordinator))) refl)
        Move.stays
    where
      unread-set_status :
          (a b : Option ℕ)
          → snapshots_at (set_status s.outputs i status) a
              ++ snapshots_at (set_status s.outputs i status) b
            ≡ snapshots_at s.outputs a ++ snapshots_at s.outputs b
      unread-set_status a b =
          rw (snapshots_at-set_status s.outputs i status a)
            (rw (snapshots_at-set_status s.outputs i status b) refl)

  pub try_input-Move : (s : System C S) (i : ℕ) → IsMove Event.silent s (try_input s i)
  unfolding try_input
  try_input-Move s i =
      if-elim (IsMove {C = C} {S = S} Event.silent s) (is_free (status_of s.inputs i)) _ _
        (λ t. status_unseen s i writing) (λ t. Move.stays)

  pub free_replaced-Move : (s : System C S) (i : ℕ) → IsMove Event.silent s (free_replaced s i)
  unfolding free_replaced
  free_replaced-Move s i = status_unseen s i free

  pub end_acquire-Move : (s : System C S) (i : ℕ) → IsMove Event.silent s (end_acquire s i)
  unfolding end_acquire
  end_acquire-Move s i = output_status_unseen s i reading

  pub release-Move : (s : System C S) (i : ℕ) → IsMove Event.silent s (release s i)
  unfolding release
  release-Move s i = output_status_unseen s i free

  pub begin_stop-Move :
      (s : System C S) → IsMove (Event.stopped (begin_stop s).stopping) s (begin_stop s)
  unfolding begin_stop
  begin_stop-Move s =
      if-elim (λ (u : System C S). IsMove (Event.stopped u.stopping) s u) s.retired _ _
        (λ t. Move.stops s.stopping (λ e. e)) (λ t. Move.stops true (λ e. refl))

  pub set_trace-Move :
      (s : System C S) (enabled : Bool) → IsMove Event.silent s (set_trace s enabled)
  unfolding set_trace
  set_trace-Move s enabled = Move.stays
