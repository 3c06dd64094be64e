-- ===== src/Presentation/Pipeline/Channel/Turns.antt =====
-- The steps of native/src/presentation/async_presentation_pipeline.cpp by which a bank changes hands.
use peraviz.Prelude.{
  ℕ, ◌≡◌, refl, sym, ap, ◌∙◌, Bool, true, false, subst, List, ◌==◌, if◌then◌else◌, if-elim, Option,
  none, some, [], ◌∷◌, ◌++◌, arith, length, set, ◌<◌,
}
use peraviz.Presentation.Pipeline.{
  free, reading, queued, writing, Bank, Main, idle, joining, trying, claimed, filled, replacing,
  acquiring, looping, halted, took, reading_bank, choosing, evaluating, publishing, System,
  status_of, set_status, content_of, no_input, is_free, active, fill_input, filled_bank,
  enqueue_input, replaced, acquired, begin_acquire,
}
use peraviz.Presentation.Pipeline.Evaluation.{
  Evaluator, take_input, taken, begin_reading, read_input, try_output, evaluate, evaluated, publish,
  published, halt, finish_stop,
}
use peraviz.Presentation.Pipeline.Banks.{holds, holds_self, busy-inside, busy_bound}
use peraviz.Presentation.Pipeline.Owners.{
  coordinator_input, coordinator_output, main_input, IsOwned,
}
use peraviz.Presentation.Pipeline.Owners.Outputs.{output-busy}
use peraviz.Presentation.Pipeline.Channel.{
  Event, Move, frames_at, snapshot_at, snapshots_at, completed, unread_of, view, IsMove,
}
use peraviz.Presentation.Pipeline.Channel.Views.{
  channel_eq, frames_at-set_status, frames_at-set, snapshots_at-set_status, snapshots_at-set,
  snapshot_at-set_self, length-snapshots_at, snapshot_at-inside, append_nil, take_length,
}
use peraviz.Presentation.Pipeline.Channel.Refines.{to}

abbrev pub is_there : Option ℕ → Bool
is_there none = false
is_there (some i) = true

module _ {C S : Type 0} where
  pub fill_input-Move :
      (s : System C S) (i now_ns : ℕ)
      → s.main ≡ claimed i
      → IsOwned s
      → IsMove Event.silent s (fill_input s i now_ns)
  unfolding fill_input
  fill_input-Move s i now_ns e o =
      let own : holds (main_input s.main) i ≡ 1 =
        ap (λ m. holds (main_input m) i) e ∙ holds_self i in
      let bound = busy_bound (status_of s.inputs i) in
      let sum = o.inputs i in
      let q : holds s.queued_input i ≡ 0 = omega (arith, own, bound, sum) in
      let c : holds (coordinator_input s.coordinator) i ≡ 0 = omega (arith, own, bound, sum) in
      to s (fill_input s i now_ns) (view s) Move.stays (
        channel_eq _ _ refl (frames_at-set s.inputs i (filled_bank s now_ns) s.queued_input q)
          (frames_at-set s.inputs i (filled_bank s now_ns) (coordinator_input s.coordinator) c) refl
          refl)

  pub enqueue_input-Move :
      (s : System C S) (i : ℕ)
      → s.main ≡ filled i
      → IsOwned s
      → IsMove Event.flushed s (enqueue_input s i)
  unfolding enqueue_input
  enqueue_input-Move s i e o = swapped s.queued_input
    where
      swapped : (q : Option ℕ) → IsMove Event.flushed s (replaced s i q)
      swapped none =
          to s (replaced s i none) _ Move.flushes
            (channel_eq _ _ refl (ap some (o.copied i e)) refl refl refl)
      swapped (some old) =
          to s (replaced s i (some old)) _ Move.flushes
            (channel_eq _ _ refl (ap some (o.copied i e)) refl refl refl)

  -- The snapshots in the bank that `try_acquire` comes to hold.
  abbrev pub handed_out : System C S → Main → List S
  handed_out s idle = []
  handed_out s joining = []
  handed_out s (trying i) = []
  handed_out s (claimed i) = []
  handed_out s (filled i) = []
  handed_out s (replacing i) = []
  handed_out s (acquiring i) = snapshot_at s.outputs i

  pub begin_acquire-Move :
      (s : System C S)
      → s.main ≡ idle
      → IsOwned s
      → IsMove
          (if active s then Event.acquired (handed_out s (begin_acquire s).main) else Event.silent)
          s
          (begin_acquire s)
  unfolding begin_acquire
  begin_acquire-Move s at o = started (active s)
    where
      few : s.ready_output ≡ none → length (unread_of s.outputs s.ready_output s.coordinator) < 2
      few f =
          let one = length-snapshots_at s.outputs (completed s.coordinator) in
          let size = ap (λ r. length (unread_of s.outputs r s.coordinator)) f in
          omega (arith, one, size)

      exchanged :
          (r : Option ℕ)
          → s.ready_output ≡ r
          → IsMove (Event.acquired (handed_out s (acquired s r).main)) s (acquired s r)
      exchanged none f =
          to s (acquired s none) (view s)
            (subst (λ m. Move (Event.acquired (handed_out s m)) (view s) (view s)) (sym at)
              (Move.acquires_none (few f)))
            (channel_eq _ _ refl refl refl (ap (λ r. unread_of s.outputs r s.coordinator) (sym f))
              refl)
      exchanged (some i) f =
          let mine : holds s.ready_output i ≡ 1 = ap (λ x. holds x i) f ∙ holds_self i in
          let own = output-busy s i _ (o.outputs i) (omega (arith, mine)) in
          let (v, first) = snapshot_at-inside s.outputs i (busy-inside s.outputs i own) in
          let rest = snapshots_at s.outputs (completed s.coordinator) in
          to s (acquired s (some i)) _
            (subst (λ l. Move (Event.acquired l) (view s) (record (view s) { unread = rest }))
              (sym first)
              (Move.acquires v rest
                (ap (λ r. unread_of s.outputs r s.coordinator) f ∙ ap (λ l. l ++ rest) first)))
            (channel_eq _ _ refl refl refl refl refl)

      started :
          (b : Bool)
          → let u = (if b then acquired s s.ready_output else s) in
            IsMove (if b then Event.acquired (handed_out s u.main) else Event.silent) s u
      started true = exchanged s.ready_output refl
      started false = Move.stays

module _ {C S : Type 0} (evaluator : Evaluator C S) where
  pub take_input-Move :
      (s : System C S)
      → s.coordinator ≡ looping
      → IsMove (Event.taken (is_there s.queued_input)) s (take_input evaluator s)
  unfolding take_input
  take_input-Move s e = exchanged s.queued_input refl
    where
      exchanged :
          (q : Option ℕ)
          → s.queued_input ≡ q
          → IsMove (Event.taken (is_there q)) s (taken evaluator s q)
      exchanged none f =
          if-elim (IsMove {C = C} {S = S} (Event.taken false) s) s.initial_batch _ _
            (λ t.
              to s (record s { initial_batch = false; coordinator = choosing 0 }) (view s)
                (Move.finds_none (ap (frames_at s.inputs) f))
                (channel_eq _ _ refl refl
                  (ap (λ c. frames_at s.inputs (coordinator_input c)) (sym e))
                  (ap (λ c. unread_of s.outputs s.ready_output c) (sym e)) refl))
            (λ t. Move.finds_none (ap (frames_at s.inputs) f))
      exchanged (some i) f =
          to s (taken evaluator s (some i)) _
            (Move.takes (content_of s.inputs i no_input).frames (ap (frames_at s.inputs) f))
            (channel_eq _ _ refl refl refl (ap (λ c. unread_of s.outputs s.ready_output c) (sym e))
              refl)

  pub begin_reading-Move :
      (s : System C S) (i : ℕ)
      → s.coordinator ≡ took i
      → IsMove Event.silent s (begin_reading evaluator s i)
  unfolding begin_reading
  begin_reading-Move s i e = to s (begin_reading evaluator s i) (view s) Move.stays (
      channel_eq _ _ refl (frames_at-set_status s.inputs i reading s.queued_input)
        (frames_at-set_status s.inputs i reading (some i)
          ∙ ap (λ c. frames_at s.inputs (coordinator_input c)) (sym e))
        (ap (λ c. unread_of s.outputs s.ready_output c) (sym e)) refl)

  pub read_input-Move :
      (s : System C S) (i : ℕ)
      → s.coordinator ≡ reading_bank i
      → IsMove (Event.consumed (content_of s.inputs i no_input).frames) s (read_input evaluator s i)
  unfolding read_input
  read_input-Move s i e =
      to s (read_input evaluator s i) _
        (Move.consumes (content_of s.inputs i no_input).frames
          (ap (λ c. frames_at s.inputs (coordinator_input c)) e))
        (channel_eq _ _ refl (frames_at-set_status s.inputs i free s.queued_input) refl
          (ap (λ c. unread_of s.outputs s.ready_output c) (sym e)) refl)

  pub try_output-Move :
      (s : System C S) (i : ℕ)
      → s.coordinator ≡ choosing i
      → IsMove Event.silent s (try_output evaluator s i)
  unfolding try_output
  try_output-Move s i e =
      let held = ap (λ c. frames_at s.inputs (coordinator_input c)) (sym e) in
      if-elim (IsMove {C = C} {S = S} Event.silent s) (is_free (status_of s.outputs i)) _ _
        (λ t.
          to s (record s { outputs = set_status s.outputs i writing; coordinator = evaluating i })
            (view s) Move.stays
            (channel_eq _ _ refl refl held
              (ap (λ l. l ++ []) (snapshots_at-set_status s.outputs i writing s.ready_output)
                ∙ ap (λ c. unread_of s.outputs s.ready_output c) (sym e))
              refl))
        (λ t.
          to s (record s { coordinator = choosing (if i == 0 then 1 else 0) }) (view s) Move.stays
            (channel_eq _ _ refl refl held (ap (λ c. unread_of s.outputs s.ready_output c) (sym e))
              refl))

  pub publish-Move :
      (s : System C S) (i : ℕ)
      → s.coordinator ≡ publishing i
      → IsMove Event.silent s (publish evaluator s i)
  unfolding publish
  publish-Move s i e = exchanged s.ready_output refl
    where
      exchanged :
          (r : Option ℕ) → s.ready_output ≡ r → IsMove Event.silent s (published evaluator s i r)
      exchanged none f = to s (published evaluator s i none) (view s) Move.stays (
          channel_eq _ _ refl refl (ap (λ c. frames_at s.inputs (coordinator_input c)) (sym e))
            (append_nil (snapshot_at s.outputs i)
              ∙ (ap (λ c. unread_of s.outputs none c) (sym e)
                  ∙ ap (λ r. unread_of s.outputs r s.coordinator) (sym f)))
            refl)
      exchanged (some r) f = Move.stays

  pub halt-Move :
      (s : System C S)
      → coordinator_input s.coordinator ≡ none
      → IsMove (if s.stopping then Event.discarded else Event.silent) s (halt evaluator s)
  unfolding halt
  halt-Move s e = halted_at s.stopping refl
    where
      halted_at :
          (b : Bool)
          → s.stopping ≡ b
          → IsMove
              (if b then Event.discarded else Event.silent)
              s
              (if b then record s { coordinator = halted } else s)
      halted_at false t = Move.stays
      halted_at true t =
          let ready = snapshots_at s.outputs s.ready_output in
          let rest = snapshots_at s.outputs (completed s.coordinator) in
          to s (record s { coordinator = halted }) _ (Move.discards (length ready) t)
            (channel_eq _ _ refl refl (ap (frames_at s.inputs) (sym e))
              (append_nil ready ∙ sym (take_length ready rest)) refl)

  pub finish_stop-Move :
      (s : System C S) (same_schema : Bool)
      → s.main ≡ joining
      → s.coordinator ≡ halted
      → IsOwned s
      → IsMove Event.discarded s (finish_stop evaluator s same_schema)
  unfolding finish_stop
  finish_stop-Move s same_schema e h o =
      to s (finish_stop evaluator s same_schema) _ (Move.discards 0 (o.ending e))
        (channel_eq _ _ refl refl refl (ap (λ c. unread_of s.outputs none c) h) refl)

  -- The snapshot of an evaluation that does not fail.
  abbrev pub evaluation : System C S → Option C → Event S
  evaluation s none = Event.silent
  evaluation s (some core) =
      Event.completed_one (evaluator.complete core s.generation s.submitted s.trace).0

  pub evaluate-Move :
      (s : System C S) (i : ℕ)
      → s.coordinator ≡ evaluating i
      → IsOwned s
      → IsMove (evaluation s (evaluator.consume s.core s.trace)) s (evaluate evaluator s i)
  unfolding evaluate
  evaluate-Move s i e o = ended (evaluator.consume s.core s.trace)
    where
      ended : (r : Option C) → IsMove (evaluation s r) s (evaluated evaluator s i r)
      ended none = to s (evaluated evaluator s i none) (view s) Move.stays (
          channel_eq _ _ refl refl (ap (λ c. frames_at s.inputs (coordinator_input c)) (sym e))
            (ap (λ c. unread_of s.outputs s.ready_output c) (sym e)) refl)
      ended (some core) =
          let v = (evaluator.complete core s.generation s.submitted s.trace).0 in
          let bank : Bank S = record { status = queued; content = v } in
          let mine : holds (coordinator_output s.coordinator) i ≡ 1 =
            ap (λ x. holds (coordinator_output x) i) e ∙ holds_self i in
          let sum = o.outputs i in
          let bound = busy_bound (status_of s.outputs i) in
          let own = output-busy s i _ sum (omega (arith, mine)) in
          let ready : holds s.ready_output i ≡ 0 = omega (arith, sum, bound, mine) in
          let before : unread_of s.outputs s.ready_output s.coordinator
              ≡ snapshots_at s.outputs s.ready_output =
            ap (λ c. unread_of s.outputs s.ready_output c) e
            ∙ append_nil (snapshots_at s.outputs s.ready_output) in
          to s (evaluated evaluator s i (some core)) _
            (Move.completes v (
              let len = length-snapshots_at s.outputs s.ready_output in
              let same = ap length before in omega (arith, len, same)))
            (channel_eq _ _ refl refl (ap (λ c. frames_at s.inputs (coordinator_input c)) (sym e))
              (ap (λ l. l ++ snapshot_at (set s.outputs i bank) i)
                  (snapshots_at-set s.outputs i bank s.ready_output ready)
                ∙ (ap (λ l. snapshots_at s.outputs s.ready_output ++ l)
                      (snapshot_at-set_self s.outputs i bank (busy-inside s.outputs i own))
                    ∙ ap (λ l. l ++ v ∷ []) (sym before)))
              refl)
