-- ===== src/Presentation/Pipeline/Steps.antt =====
-- The interleavings of the two threads of native/src/presentation/async_presentation_pipeline.cpp.
use peraviz.Prelude.{
  ℕ, ◌<◌, ◌≡◌, Bool, true, false, Option, none, List, [], ◌∷◌, ℤ, replicate, Elem, length,
}
use peraviz.Presentation.Pipeline.{
  free, InputValue, no_input, empty_value, idle, joining, trying, claimed, filled, replacing,
  acquiring, looping, halted, took, reading_bank, choosing, evaluating, publishing, System, submit,
  begin_flush, try_input, fill_input, enqueue_input, free_replaced, begin_acquire, end_acquire,
  release, set_trace, begin_stop,
}
use peraviz.Presentation.Pipeline.Evaluation.{
  Evaluator, take_input, begin_reading, read_input, try_output, evaluate, publish, halt,
  finish_stop,
}

-- A step of the main thread or of the coordinator. The main thread releases only what it holds.
pub data Step {C S : Type 0} (evaluator : Evaluator C S) : System C S → System C S → Type 0 where
  submits :
      {s : System C S} (universe : ℕ) (bytes : Option (List ℕ)) (size : ℤ) (received_us : ℕ)
      → s.main ≡ idle
      → Step evaluator s (submit s universe bytes size received_us).1
  begins_flush : {s : System C S} → s.main ≡ idle → Step evaluator s (begin_flush s)
  tries_input :
      {s : System C S} (i : ℕ)
      → s.main ≡ trying i
      → i < length s.inputs
      → Step evaluator s (try_input s i)
  gives_up :
      {s : System C S} (i : ℕ)
      → s.main ≡ trying i
      → i ≡ length s.inputs
      → Step evaluator s (record s { main = idle })
  fills :
      {s : System C S} (i now_ns : ℕ)
      → s.main ≡ claimed i
      → Step evaluator s (fill_input s i now_ns)
  enqueues : {s : System C S} (i : ℕ) → s.main ≡ filled i → Step evaluator s (enqueue_input s i)
  frees : {s : System C S} (i : ℕ) → s.main ≡ replacing i → Step evaluator s (free_replaced s i)
  begins_acquire : {s : System C S} → s.main ≡ idle → Step evaluator s (begin_acquire s)
  ends_acquire :
      {s : System C S} (i : ℕ) → s.main ≡ acquiring i → Step evaluator s (end_acquire s i)
  releases :
      {s : System C S} (i : ℕ) → s.main ≡ idle → Elem i s.leased → Step evaluator s (release s i)
  sets_trace :
      {s : System C S} (enabled : Bool) → s.main ≡ idle → Step evaluator s (set_trace s enabled)
  begins_stop : {s : System C S} → s.main ≡ idle → Step evaluator s (begin_stop s)
  ends_stop :
      {s : System C S} (same_schema : Bool)
      → s.main ≡ joining
      → s.coordinator ≡ halted
      → Step evaluator s (finish_stop evaluator s same_schema)
  takes : {s : System C S} → s.coordinator ≡ looping → Step evaluator s (take_input evaluator s)
  begins_reading :
      {s : System C S} (i : ℕ)
      → s.coordinator ≡ took i
      → Step evaluator s (begin_reading evaluator s i)
  reads :
      {s : System C S} (i : ℕ)
      → s.coordinator ≡ reading_bank i
      → Step evaluator s (read_input evaluator s i)
  tries_output :
      {s : System C S} (i : ℕ)
      → s.coordinator ≡ choosing i
      → i < length s.outputs
      → Step evaluator s (try_output evaluator s i)
  evaluates :
      {s : System C S} (i : ℕ)
      → s.coordinator ≡ evaluating i
      → Step evaluator s (evaluate evaluator s i)
  publishes :
      {s : System C S} (i : ℕ)
      → s.coordinator ≡ publishing i
      → Step evaluator s (publish evaluator s i)
  halts_looping : {s : System C S} → s.coordinator ≡ looping → Step evaluator s (halt evaluator s)
  halts_choosing :
      {s : System C S} (i : ℕ) → s.coordinator ≡ choosing i → Step evaluator s (halt evaluator s)
  halts_evaluating :
      {s : System C S} (i : ℕ) → s.coordinator ≡ evaluating i → Step evaluator s (halt evaluator s)
  halts_publishing :
      {s : System C S} (i : ℕ) → s.coordinator ≡ publishing i → Step evaluator s (halt evaluator s)

pub data Reach {C S : Type 0} (evaluator : Evaluator C S) (s : System C S)
    : System C S → Type 0 where
  here : Reach evaluator s s
  next : {t u : System C S} → Reach evaluator s t → Step evaluator t u → Reach evaluator s u

unfoldable pub ones : List InputValue → List ℕ
ones [] = []
ones (frame ∷ frames) = 1 ∷ ones frames

-- A new pipeline, with the frames that the core holds, each of sequence 1.
unfoldable pub new_system : {C S : Type 0} → C → S → List InputValue → Bool → System C S
new_system core empty held trace = record {
  core = core;
  inputs = replicate 3 (record {
    status = free;
    content = record no_input { frames = replicate (length held) empty_value };
  });
  outputs = replicate 2 (record { status = free; content = empty });
  latest = held;
  consumed_sequences = ones held;
  queued_input = none;
  ready_output = none;
  stopping = false;
  failed = false;
  trace = trace;
  retired = false;
  producer_sequence = 1;
  producer_generation = 1;
  producer_dirty = false;
  main = idle;
  coordinator = looping;
  initial_batch = true;
  generation = 1;
  submitted = 0;
  leased = [];
}
