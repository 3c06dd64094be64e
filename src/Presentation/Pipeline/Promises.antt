-- ===== src/Presentation/Pipeline/Promises.antt =====
-- What holds of every interleaving of the threads of
-- native/src/presentation/async_presentation_pipeline.cpp.
use peraviz.Prelude.{
  true, if◌then◌else◌, [], ◌∷◌, ℕ, zero, suc, ◌+◌, ◌≤◌, ◌<◌, ◌≡◌, refl, ap, ◌∙◌, Bool, none, some,
  List, arith, length, Elem,
}
use peraviz.Presentation.Pipeline.{
  InputValue, trying, System, status_of, is_free, active, submit, begin_acquire, begin_stop,
  content_of, no_input,
}
use peraviz.Presentation.Pipeline.Evaluation.{Evaluator}
use peraviz.Presentation.Pipeline.Steps.{Step, Reach, new_system}
use peraviz.Presentation.Pipeline.Banks.{
  busy, holds, holds_self, holds-none, busy-is_free, busy_bound,
}
use peraviz.Presentation.Pipeline.Owners.{
  main_input, coordinator_input, coordinator_output, leases, leases-Elem, IsOwned,
}
use peraviz.Presentation.Pipeline.Owners.Inputs.{
  submit-IsOwned, begin_flush-IsOwned, try_input-IsOwned, fill_input-IsOwned, enqueue_input-IsOwned,
  free_replaced-IsOwned,
}
use peraviz.Presentation.Pipeline.Owners.Outputs.{
  begin_acquire-IsOwned, end_acquire-IsOwned, release-IsOwned, begin_stop-IsOwned,
  set_trace-IsOwned,
}
use peraviz.Presentation.Pipeline.Owners.Turns.{
  take_input-IsOwned, begin_reading-IsOwned, read_input-IsOwned, try_output-IsOwned,
  evaluate-IsOwned, publish-IsOwned, halt-IsOwned, finish_stop-IsOwned,
}
use peraviz.Presentation.Pipeline.Channel.{Event, Move, Moves, view, IsMove}
use peraviz.Presentation.Pipeline.Channel.Refines.{
  submit-Move, begin_flush-Move, try_input-Move, free_replaced-Move, end_acquire-Move, release-Move,
  begin_stop-Move, set_trace-Move,
}
use peraviz.Presentation.Pipeline.Channel.Turns.{
  is_there, handed_out, evaluation, fill_input-Move, enqueue_input-Move, begin_acquire-Move,
  take_input-Move, begin_reading-Move, read_input-Move, try_output-Move, publish-Move, halt-Move,
  finish_stop-Move, evaluate-Move,
}

module _ {C S : Type 0} where
  -- `flush_input` does not come to the end of the banks.
  never_gives_up : (s : System C S) (i : ℕ) → s.main ≡ trying i → i ≡ length s.inputs → ¬ IsOwned s
  never_gives_up s i e at o =
      let (j, low, high, z) = o.room i e in omega (arith, low, high, at, o.input_size)

module _ {C S : Type 0} {evaluator : Evaluator C S} where
  Step-IsOwned : {s u : System C S} → Step evaluator s u → IsOwned s → IsOwned u
  Step-IsOwned {s = s} (Step.submits universe bytes size time e) o =
      submit-IsOwned s universe bytes size time e o
  Step-IsOwned {s = s} (Step.begins_flush e) o = begin_flush-IsOwned s e o
  Step-IsOwned {s = s} (Step.tries_input i e h) o = try_input-IsOwned s i e h o
  Step-IsOwned {s = s} (Step.gives_up i e h) o = absurd (never_gives_up s i e h o)
  Step-IsOwned {s = s} (Step.fills i now e) o = fill_input-IsOwned s i now e o
  Step-IsOwned {s = s} (Step.enqueues i e) o = enqueue_input-IsOwned s i e o
  Step-IsOwned {s = s} (Step.frees i e) o = free_replaced-IsOwned s i e o
  Step-IsOwned {s = s} (Step.begins_acquire e) o = begin_acquire-IsOwned s e o
  Step-IsOwned {s = s} (Step.ends_acquire i e) o = end_acquire-IsOwned s i e o
  Step-IsOwned {s = s} (Step.releases i e m) o = release-IsOwned s i m o
  Step-IsOwned {s = s} (Step.sets_trace enabled e) o = set_trace-IsOwned s enabled o
  Step-IsOwned {s = s} (Step.begins_stop e) o = begin_stop-IsOwned s e o
  Step-IsOwned {s = s} (Step.ends_stop same e h) o = finish_stop-IsOwned evaluator s same e o
  Step-IsOwned {s = s} (Step.takes e) o = take_input-IsOwned evaluator s e o
  Step-IsOwned {s = s} (Step.begins_reading i e) o = begin_reading-IsOwned evaluator s i e o
  Step-IsOwned {s = s} (Step.reads i e) o = read_input-IsOwned evaluator s i e o
  Step-IsOwned {s = s} (Step.tries_output i e h) o = try_output-IsOwned evaluator s i e h o
  Step-IsOwned {s = s} (Step.evaluates i e) o = evaluate-IsOwned evaluator s i e o
  Step-IsOwned {s = s} (Step.publishes i e) o = publish-IsOwned evaluator s i e o
  Step-IsOwned {s = s} (Step.halts_looping e) o =
      halt-IsOwned evaluator s (ap coordinator_input e) o
  Step-IsOwned {s = s} (Step.halts_choosing i e) o =
      halt-IsOwned evaluator s (ap coordinator_input e) o
  Step-IsOwned {s = s} (Step.halts_evaluating i e) o =
      halt-IsOwned evaluator s (ap coordinator_input e) o
  Step-IsOwned {s = s} (Step.halts_publishing i e) o =
      halt-IsOwned evaluator s (ap coordinator_input e) o

  -- What is seen of a step: what it writes, reads, evaluates or hands out.
  abbrev pub event : {s u : System C S} → Step evaluator s u → Event S
  event {s = s} (Step.submits universe bytes size time e) =
      Event.written (submit s universe bytes size time).1.latest
  event (Step.begins_flush e) = Event.silent
  event (Step.tries_input i e h) = Event.silent
  event (Step.gives_up i e h) = Event.silent
  event (Step.fills i now e) = Event.silent
  event (Step.enqueues i e) = Event.flushed
  event (Step.frees i e) = Event.silent
  event {s = s} (Step.begins_acquire e) =
      if active s then Event.acquired (handed_out s (begin_acquire s).main) else Event.silent
  event (Step.ends_acquire i e) = Event.silent
  event (Step.releases i e m) = Event.silent
  event (Step.sets_trace enabled e) = Event.silent
  event {s = s} (Step.begins_stop e) = Event.stopped (begin_stop s).stopping
  event (Step.ends_stop same e h) = Event.discarded
  event {s = s} (Step.takes e) = Event.taken (is_there s.queued_input)
  event (Step.begins_reading i e) = Event.silent
  event {s = s} (Step.reads i e) = Event.consumed (content_of s.inputs i no_input).frames
  event (Step.tries_output i e h) = Event.silent
  event {s = s} (Step.evaluates i e) = evaluation evaluator s (evaluator.consume s.core s.trace)
  event (Step.publishes i e) = Event.silent
  event {s = s} (Step.halts_looping e) = if s.stopping then Event.discarded else Event.silent
  event {s = s} (Step.halts_choosing i e) = if s.stopping then Event.discarded else Event.silent
  event {s = s} (Step.halts_evaluating i e) = if s.stopping then Event.discarded else Event.silent
  event {s = s} (Step.halts_publishing i e) = if s.stopping then Event.discarded else Event.silent

  -- What is seen of a run, the last event first.
  abbrev pub events : {s u : System C S} → Reach evaluator s u → List (Event S)
  events Reach.here = []
  events (Reach.next r step) = event step ∷ events r

  Step-Move : {s u : System C S} (step : Step evaluator s u) → IsOwned s → IsMove (event step) s u
  Step-Move {s = s} (Step.submits universe bytes size time e) o =
      submit-Move s universe bytes size time
  Step-Move {s = s} (Step.begins_flush e) o = begin_flush-Move s
  Step-Move {s = s} (Step.tries_input i e h) o = try_input-Move s i
  Step-Move {s = s} (Step.gives_up i e h) o = Move.stays
  Step-Move {s = s} (Step.fills i now e) o = fill_input-Move s i now e o
  Step-Move {s = s} (Step.enqueues i e) o = enqueue_input-Move s i e o
  Step-Move {s = s} (Step.frees i e) o = free_replaced-Move s i
  Step-Move {s = s} (Step.begins_acquire e) o = begin_acquire-Move s e o
  Step-Move {s = s} (Step.ends_acquire i e) o = end_acquire-Move s i
  Step-Move {s = s} (Step.releases i e m) o = release-Move s i
  Step-Move {s = s} (Step.sets_trace enabled e) o = set_trace-Move s enabled
  Step-Move {s = s} (Step.begins_stop e) o = begin_stop-Move s
  Step-Move {s = s} (Step.ends_stop same e h) o = finish_stop-Move evaluator s same e h o
  Step-Move {s = s} (Step.takes e) o = take_input-Move evaluator s e
  Step-Move {s = s} (Step.begins_reading i e) o = begin_reading-Move evaluator s i e
  Step-Move {s = s} (Step.reads i e) o = read_input-Move evaluator s i e
  Step-Move {s = s} (Step.tries_output i e h) o = try_output-Move evaluator s i e
  Step-Move {s = s} (Step.evaluates i e) o = evaluate-Move evaluator s i e o
  Step-Move {s = s} (Step.publishes i e) o = publish-Move evaluator s i e
  Step-Move {s = s} (Step.halts_looping e) o = halt-Move evaluator s (ap coordinator_input e)
  Step-Move {s = s} (Step.halts_choosing i e) o = halt-Move evaluator s (ap coordinator_input e)
  Step-Move {s = s} (Step.halts_evaluating i e) o = halt-Move evaluator s (ap coordinator_input e)
  Step-Move {s = s} (Step.halts_publishing i e) o = halt-Move evaluator s (ap coordinator_input e)

  Reach-IsOwned : {s u : System C S} → IsOwned s → Reach evaluator s u → IsOwned u
  Reach-IsOwned o Reach.here = o
  Reach-IsOwned o (Reach.next r step) = Step-IsOwned step (Reach-IsOwned o r)

  Reach-Moves :
      {s u : System C S}
      → IsOwned s
      → (r : Reach evaluator s u) → Moves (view s) (events r) (view u)
  Reach-Moves o Reach.here = Moves.none_yet
  Reach-Moves o (Reach.next r step) =
      Moves.and_then (Reach-Moves o r) (Step-Move step (Reach-IsOwned o r))

pub record IsExclusive {C S : Type 0} (s : System C S) : Type 0 where
  pub no_race : (i : ℕ) → main_input s.main ≡ some i → ¬ (coordinator_input s.coordinator ≡ some i)
  pub not_queued : (i : ℕ) → main_input s.main ≡ some i → ¬ (s.queued_input ≡ some i)
  pub unleased : (i : ℕ) → coordinator_output s.coordinator ≡ some i → ¬ Elem i s.leased
  pub once : (i : ℕ) → Elem i s.leased → leases s.leased i ≡ 1
  pub room :
      (i : ℕ)
      → s.main ≡ trying i
      → (j : ℕ) × (i ≤ j) × (j < 3) × (is_free (status_of s.inputs j) ≡ true)

module _ {C S : Type 0} where
  new_system-IsOwned :
      (core : C) (empty : S) (held : List InputValue) (trace : Bool)
      → IsOwned (new_system core empty held trace)
  unfolding new_system status_of
  new_system-IsOwned core empty held trace = record {
    inputs = inputs;
    outputs = outputs;
    input_size = refl;
    room = λ i no. cc;
    copied = λ i no. cc;
    ending = λ no. cc;
  }
    where
      all_free : (b : ℕ) → holds none b + (holds none b + holds none b) ≡ 0
      all_free b = omega (arith, holds-none b)

      inputs :
          (b : ℕ)
          → holds none b + (holds none b + holds none b)
            ≡ busy (status_of (new_system core empty held trace).inputs b)
      inputs zero = all_free 0
      inputs (suc zero) = all_free 1
      inputs (suc (suc zero)) = all_free 2
      inputs (suc (suc (suc b))) = all_free (suc (suc (suc b)))

      outputs :
          (b : ℕ)
          → holds none b + (0 + (holds none b + holds none b))
            ≤ busy (status_of (new_system core empty held trace).outputs b)
      outputs b = omega (arith, holds-none b)

  -- No two owners of a reachable system have the same bank.
  exclusive : (s : System C S) → IsOwned s → IsExclusive s
  exclusive s o = record {
    no_race = λ i e f.
        let own : holds (main_input s.main) i ≡ 1 = ap (λ x. holds x i) e ∙ holds_self i in
        let other : holds (coordinator_input s.coordinator) i ≡ 1 =
          ap (λ x. holds x i) f ∙ holds_self i in
        omega (arith, o.inputs i, busy_bound (status_of s.inputs i), own, other);
    not_queued = λ i e f.
        let own : holds (main_input s.main) i ≡ 1 = ap (λ x. holds x i) e ∙ holds_self i in
        let other : holds s.queued_input i ≡ 1 = ap (λ x. holds x i) f ∙ holds_self i in
        omega (arith, o.inputs i, busy_bound (status_of s.inputs i), own, other);
    unleased = λ i e m.
        let own : holds (coordinator_output s.coordinator) i ≡ 1 =
          ap (λ x. holds x i) e ∙ holds_self i in
        omega
          (arith, o.outputs i, busy_bound (status_of s.outputs i), own, leases-Elem i s.leased m);
    once = λ i m.
        let least = leases-Elem i s.leased m in
        let sum = o.outputs i in
        let bound = busy_bound (status_of s.outputs i) in omega (arith, least, sum, bound);
    room = λ i e.
        let (j, low, high, z) = o.room i e in (j, low, high, busy-is_free (status_of s.inputs j) z);
  }

  -- However the threads interleave, the main thread has no input bank that the coordinator reads or
  -- that is queued, the coordinator writes to no snapshot that the caller holds, no snapshot is
  -- handed out twice before it is released, and where `flush_input` looks for a bank, that one or a
  -- later one of the three is free, so that no flush fails.
  pub new_system-IsExclusive :
      (evaluator : Evaluator C S) (core : C) (empty : S) (held : List InputValue) (trace : Bool)
      (s : System C S)
      → Reach evaluator (new_system core empty held trace) s
      → IsExclusive s
  new_system-IsExclusive evaluator core empty held trace s r =
      exclusive s (Reach-IsOwned (new_system-IsOwned core empty held trace) r)

  -- However the threads interleave, what is seen of a run is a run of the channel: the frames that
  -- the coordinator reads are the state of the universes at the last flush before it took them, it
  -- finds no input only where nothing was flushed since it took the last one, and the snapshots that
  -- are acquired are the evaluated ones in their order, of which none is lost before the pipeline
  -- stops and at most two wait; in a pipeline that neither stops nor has failed, `try_acquire` gives
  -- none only where fewer than two wait.
  pub new_system-Moves :
      (evaluator : Evaluator C S) (core : C) (empty : S) (held : List InputValue) (trace : Bool)
      (s : System C S) (r : Reach evaluator (new_system core empty held trace) s)
      → Moves (view (new_system core empty held trace)) (events r) (view s)
  new_system-Moves evaluator core empty held trace s r =
      Reach-Moves (new_system-IsOwned core empty held trace) r
