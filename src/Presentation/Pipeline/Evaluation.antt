-- ===== src/Presentation/Pipeline/Evaluation.antt =====
-- native/src/presentation/async_presentation_pipeline.cpp: what the coordinator's thread does, and
-- `stop` behind its join.
use peraviz.Prelude.{
  ℕ, ◌*◌, ◌%◌, ◌^◌, Bool, true, false, not, ◌&&◌, ◌||◌, Option, none, some, List, [], ◌∷◌, ltb,
  ◌==◌, if◌then◌else◌, set, take,
}
use peraviz.Presentation.Pipeline.{
  free, writing, queued, reading, InputValue, Bank, no_input, content_of, is_free, idle, looping,
  halted, took, reading_bank, choosing, evaluating, publishing, System, set_status, status_of,
}

-- What the coordinator calls: `submit_universe_frame` of the core, `consume` of the direct pipeline
-- with the check of its result, none where it throws or the generation is rejected, and `complete`,
-- with the generation and the time of the input.
pub record Evaluator (C S : Type 0) : Type 0 where
  pub submit_universe_frame : C → ℕ → List ℕ → C
  pub consume : C → Bool → Option C
  pub complete : C → ℕ → ℕ → Bool → S × C

-- What the loop over the frames of a bank changes: the core, the consumed sequences and `received`.
pub record Consumption (C : Type 0) : Type 0 where
  pub core : C
  pub consumed : List ℕ
  pub received : ℕ

unfoldable pub earlier : ℕ → ℕ → ℕ
earlier received received_us =
    if not (received_us == 0) && (received == 0 || ltb received_us received)
    then received_us
    else received

unfoldable pub is_new : InputValue → ℕ → Bool
is_new frame sequence = ltb 0 frame.size && not (frame.sequence == sequence)

module _ {C S : Type 0} (evaluator : Evaluator C S) where
  abbrev pub submitted_frame : C → InputValue → C
  submitted_frame core frame =
      evaluator.submit_universe_frame core frame.id (take frame.size frame.data_bytes)

  unfoldable pub consume_frames : C → ℕ → List InputValue → List ℕ → Consumption C
  consume_frames core received [] sequences = record {
    core = core;
    consumed = sequences;
    received = received;
  }
  consume_frames core received (frame ∷ frames) [] = record {
    core = core;
    consumed = [];
    received = received;
  }
  consume_frames core received (frame ∷ frames) (sequence ∷ sequences) =
      let new = is_new frame sequence in
      let rest =
        consume_frames (if new then submitted_frame core frame else core)
          (if new then earlier received frame.received_us else received) frames sequences in
      record rest { consumed = (if new then frame.sequence else sequence) ∷ rest.consumed }

  abbrev pub taken : System C S → Option ℕ → System C S
  taken s none =
      if s.initial_batch then record s { initial_batch = false; coordinator = choosing 0 } else s
  taken s (some i) = record s { queued_input = none; coordinator = took i }

  -- The exchange of the queued index for -1. With none there, a later batch goes back to the wait.
  unfoldable pub take_input : System C S → System C S
  take_input s = taken s s.queued_input

  unfoldable pub begin_reading : System C S → ℕ → System C S
  begin_reading s i = record s {
    inputs = set_status s.inputs i reading;
    generation = (content_of s.inputs i no_input).generation;
    submitted = (content_of s.inputs i no_input).submitted;
    coordinator = reading_bank i;
  }

  -- The loop over the frames, and the store of `Free`.
  unfoldable pub read_input : System C S → ℕ → System C S
  read_input s i =
      let read =
        consume_frames s.core 0 (content_of s.inputs i no_input).frames s.consumed_sequences in
      record s {
        core = read.core;
        consumed_sequences = read.consumed;
        submitted = if read.received == 0 then s.submitted else read.received * 1000 % 2 ^ 64;
        inputs = set_status s.inputs i free;
        initial_batch = false;
        coordinator = choosing 0;
      }

  -- The exchange of the status of an output bank; after the second one it starts again.
  unfoldable pub try_output : System C S → ℕ → System C S
  try_output s i =
      if is_free (status_of s.outputs i)
      then (record s { outputs = set_status s.outputs i writing; coordinator = evaluating i })
      else record s { coordinator = choosing (if i == 0 then 1 else 0) }

  abbrev pub set_output : List (Bank S) → ℕ → S → List (Bank S)
  set_output banks i snapshot = set banks i (record { status = queued; content = snapshot })

  abbrev pub evaluated : System C S → ℕ → Option C → System C S
  evaluated s i none = record s { failed = true; coordinator = halted }
  evaluated s i (some core) =
      let (snapshot, core') = evaluator.complete core s.generation s.submitted s.trace in
      record s {
        core = core';
        outputs = set_output s.outputs i snapshot;
        coordinator = publishing i;
      }

  -- The evaluation into a bank, and the store of `Queued`.
  unfoldable pub evaluate : System C S → ℕ → System C S
  evaluate s i = evaluated s i (evaluator.consume s.core s.trace)

  abbrev pub published : System C S → ℕ → Option ℕ → System C S
  published s i none = record s { ready_output = some i; coordinator = looping }
  published s i (some ready) = s

  -- The exchange of the ready index, if it is -1.
  unfoldable pub publish : System C S → ℕ → System C S
  publish s i = published s i s.ready_output

  -- Where the coordinator looks at `stopping` and leaves its loop.
  unfoldable pub halt : System C S → System C S
  halt s = if s.stopping then record s { coordinator = halted } else s

  -- The end of `stop`: input that has not been consumed goes to the core, if it still has the schema
  -- of this pipeline.
  unfoldable pub restore : C → List InputValue → List ℕ → C
  restore core [] sequences = core
  restore core (frame ∷ frames) [] = core
  restore core (frame ∷ frames) (sequence ∷ sequences) =
      restore (if is_new frame sequence then submitted_frame core frame else core) frames sequences

  unfoldable pub finish_stop : System C S → Bool → System C S
  finish_stop s same_schema = record s {
    core = if same_schema then restore s.core s.latest s.consumed_sequences else s.core;
    ready_output = none;
    retired = true;
    main = idle;
  }
