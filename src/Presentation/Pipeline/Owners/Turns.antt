-- ===== src/Presentation/Pipeline/Owners/Turns.antt =====
-- The steps of the coordinator of native/src/presentation/async_presentation_pipeline.cpp.
use peraviz.Prelude.{
  ℕ, ◌<◌, ◌≡◌, refl, sym, ap, ◌∙◌, subst, Bool, ◌==◌, if-elim, Option, none, some, arith, length,
  inl, inr, Bool-cases,
}
use peraviz.Presentation.Pipeline.{
  free, writing, queued, reading, no_input, joining, Coordinator, looping, halted, took,
  reading_bank, choosing, evaluating, publishing, System, status_of, set_status, is_free,
}
use peraviz.Presentation.Pipeline.Evaluation.{
  Evaluator, take_input, taken, begin_reading, read_input, try_output, evaluate, evaluated, publish,
  published, halt, finish_stop,
}
use peraviz.Presentation.Pipeline.Banks.{
  busy, holds, holds-none, holds_self, holds_other, busy-set_free, busy-set_status, is_free-busy,
  length-set_status, content_of-set_status, held-set_status, held-set, busy_bound,
}
use peraviz.Presentation.Pipeline.Owners.{
  main_input, coordinator_input, main_output, coordinator_output, InputsOwned, OutputsOwned,
  IsOwned,
}
use peraviz.Presentation.Pipeline.Owners.Outputs.{output-busy}

module _ {C S : Type 0} (evaluator : Evaluator C S) where
  -- The invariant of the outputs, where the coordinator has the same output bank before and after.
  coordinator_kept :
      (s : System C S) (c c' : Coordinator)
      → s.coordinator ≡ c
      → coordinator_output c' ≡ coordinator_output c
      → IsOwned s
      → OutputsOwned s.main s.leased s.ready_output c' s.outputs
  coordinator_kept s c c' e same o b =
      let eq : holds (coordinator_output s.coordinator) b ≡ holds (coordinator_output c') b =
        ap (λ x. holds (coordinator_output x) b) e ∙ ap (λ x. holds x b) (sym same) in
      omega (arith, o.outputs b, eq)

  -- The same of the inputs.
  coordinator_input_kept :
      (s : System C S) (c c' : Coordinator)
      → s.coordinator ≡ c
      → coordinator_input c' ≡ coordinator_input c
      → IsOwned s
      → InputsOwned s.main s.queued_input c' s.inputs
  coordinator_input_kept s c c' e same o b =
      let eq : holds (coordinator_input s.coordinator) b ≡ holds (coordinator_input c') b =
        ap (λ x. holds (coordinator_input x) b) e ∙ ap (λ x. holds x b) (sym same) in
      omega (arith, o.inputs b, eq)

  -- A bank that the coordinator has is busy.
  coordinator-busy :
      (s : System C S) (i : ℕ)
      → IsOwned s
      → coordinator_input s.coordinator ≡ some i
      → busy (status_of s.inputs i) ≡ 1
  coordinator-busy s i o e =
      let sum = o.inputs i in
      let own : holds (coordinator_input s.coordinator) i ≡ 1 =
        ap (λ x. holds x i) e ∙ holds_self i in
      let bound = busy_bound (status_of s.inputs i) in omega (arith, sum, own, bound)

  pub take_input-IsOwned :
      (s : System C S) → s.coordinator ≡ looping → IsOwned s → IsOwned (take_input evaluator s)
  unfolding take_input
  take_input-IsOwned s e o = exchanged s.queued_input refl
    where
      exchanged : (q : Option ℕ) → s.queued_input ≡ q → IsOwned (taken evaluator s q)
      exchanged none f =
          if-elim IsOwned s.initial_batch _ _
            (λ t. record {
              inputs = coordinator_input_kept s looping (choosing 0) e refl o;
              outputs = coordinator_kept s looping (choosing 0) e refl o;
              input_size = o.input_size;
              ending = o.ending;
              room = o.room;
              copied = o.copied;
            })
            (λ t. o)
      exchanged (some i) f = record {
        inputs = λ b. omega (
          arith,
          o.inputs b,
          ap (λ x. holds x b) f,
          holds-none b,
          ap (λ x. holds (coordinator_input x) b) e,
        );
        outputs = coordinator_kept s looping (took i) e refl o;
        input_size = o.input_size;
        ending = o.ending;
        room = o.room;
        copied = o.copied;
      }

  pub begin_reading-IsOwned :
      (s : System C S) (i : ℕ)
      → s.coordinator ≡ took i
      → IsOwned s
      → IsOwned (begin_reading evaluator s i)
  unfolding begin_reading
  begin_reading-IsOwned s i e o =
      let own = coordinator-busy s i o (ap coordinator_input e) in
      let same : (b : ℕ)
          → busy (status_of (set_status s.inputs i reading) b) ≡ busy (status_of s.inputs b) =
        λ b. held-set_status s.inputs i b reading own refl in
      record {
        inputs = λ b. coordinator_input_kept s (took i) (reading_bank i) e refl o b ∙ sym (same b);
        outputs = coordinator_kept s (took i) (reading_bank i) e refl o;
        input_size = length-set_status s.inputs i reading ∙ o.input_size;
        ending = o.ending;
        room = λ j m. let (k, low, high, z) = o.room j m in (k, low, high, same k ∙ z);
        copied = λ j m.
            ap (λ c. c.frames) (content_of-set_status s.inputs i j reading no_input) ∙ o.copied j m;
      }

  pub read_input-IsOwned :
      (s : System C S) (i : ℕ)
      → s.coordinator ≡ reading_bank i
      → IsOwned s
      → IsOwned (read_input evaluator s i)
  unfolding read_input
  read_input-IsOwned s i e o = record {
    inputs = λ b. omega (
      arith,
      o.inputs b,
      ap (λ x. holds (coordinator_input x) b) e,
      holds-none b,
      busy-set_free s.inputs i b,
    );
    outputs = coordinator_kept s (reading_bank i) (choosing 0) e refl o;
    input_size = length-set_status s.inputs i free ∙ o.input_size;
    ending = o.ending;
    room = λ j m.
        let (k, low, high, z) = o.room j m in
        (k, low, high, omega (arith, busy-set_free s.inputs i k, z));
    copied =
        λ j m. ap (λ c. c.frames) (content_of-set_status s.inputs i j free no_input) ∙ o.copied j m;
  }

  pub try_output-IsOwned :
      (s : System C S) (i : ℕ)
      → s.coordinator ≡ choosing i
      → i < length s.outputs
      → IsOwned s
      → IsOwned (try_output evaluator s i)
  unfolding try_output
  try_output-IsOwned s i e inside o =
      if-elim IsOwned (is_free (status_of s.outputs i)) _ _
        (λ t.
          let z = is_free-busy (status_of s.outputs i) t in
          record {
            inputs = coordinator_input_kept s (choosing i) (evaluating i) e refl o;
            outputs = λ b. elim (Bool-cases (i == b)) [
              | inl q ↦
                  let same : i ≡ b = ground arith in
                  let here = subst (λ x. busy (status_of s.outputs x) ≡ 0) same z in
                  let one = subst (λ x. holds (some i) x ≡ 1) same (holds_self i) in
                  omega (
                    arith,
                    o.outputs b,
                    here,
                    one,
                    busy-set_status s.outputs i b writing inside refl,
                  )
              | inr q ↦
                  let other = holds_other i b (λ k. ground arith) in
                  omega
                    (arith, o.outputs b, other, busy-set_status s.outputs i b writing inside refl)
            ];
            input_size = o.input_size;
            ending = o.ending;
            room = o.room;
            copied = o.copied;
          })
        (λ f. record {
          inputs = coordinator_input_kept s (choosing i) (choosing i) e refl o;
          outputs = coordinator_kept s (choosing i) (choosing i) e refl o;
          input_size = o.input_size;
          ending = o.ending;
          room = o.room;
          copied = o.copied;
        })

  pub evaluate-IsOwned :
      (s : System C S) (i : ℕ)
      → s.coordinator ≡ evaluating i
      → IsOwned s
      → IsOwned (evaluate evaluator s i)
  unfolding evaluate
  evaluate-IsOwned s i e o = completed (evaluator.consume s.core s.trace)
    where
      completed : (r : Option C) → IsOwned (evaluated evaluator s i r)
      completed none = record {
        inputs = coordinator_input_kept s (evaluating i) halted e refl o;
        outputs = λ b. omega (arith, o.outputs b, holds-none b);
        input_size = o.input_size;
        ending = o.ending;
        room = o.room;
        copied = o.copied;
      }
      completed (some core) =
          let own =
            output-busy s i _ (o.outputs i)
              (omega (arith, ap (λ x. holds (coordinator_output x) i) e, holds_self i)) in
          record {
            inputs = coordinator_input_kept s (evaluating i) (publishing i) e refl o;
            outputs = λ b. omega (
              arith,
              coordinator_kept s (evaluating i) (publishing i) e refl o b,
              held-set s.outputs i b
                  (record {
                    status = queued;
                    content = (evaluator.complete core s.generation s.submitted s.trace).0;
                  })
                  own refl,
            );
            input_size = o.input_size;
            ending = o.ending;
            room = o.room;
            copied = o.copied;
          }

  pub publish-IsOwned :
      (s : System C S) (i : ℕ)
      → s.coordinator ≡ publishing i
      → IsOwned s
      → IsOwned (publish evaluator s i)
  unfolding publish
  publish-IsOwned s i e o = exchanged s.ready_output refl
    where
      exchanged : (r : Option ℕ) → s.ready_output ≡ r → IsOwned (published evaluator s i r)
      exchanged none f = record {
        inputs = coordinator_input_kept s (publishing i) looping e refl o;
        outputs = λ b. omega (
          arith,
          o.outputs b,
          ap (λ x. holds x b) f,
          holds-none b,
          ap (λ x. holds (coordinator_output x) b) e,
        );
        input_size = o.input_size;
        ending = o.ending;
        room = o.room;
        copied = o.copied;
      }
      exchanged (some r) f = o

  -- The coordinator may stop wherever it has no input bank.
  pub halt-IsOwned :
      (s : System C S)
      → coordinator_input s.coordinator ≡ none
      → IsOwned s
      → IsOwned (halt evaluator s)
  unfolding halt
  halt-IsOwned s e o =
      if-elim IsOwned s.stopping _ _
        (λ t. record {
          inputs = coordinator_input_kept s s.coordinator halted refl (sym e) o;
          outputs = λ b. omega (arith, o.outputs b, holds-none b);
          input_size = o.input_size;
          ending = o.ending;
          room = o.room;
          copied = o.copied;
        })
        (λ t. o)

  pub finish_stop-IsOwned :
      (s : System C S) (same_schema : Bool)
      → s.main ≡ joining
      → IsOwned s
      → IsOwned (finish_stop evaluator s same_schema)
  unfolding finish_stop
  finish_stop-IsOwned s same_schema e o = record {
    inputs = λ b. omega (arith, o.inputs b, ap (λ m. holds (main_input m) b) e);
    outputs = λ b. omega (arith, o.outputs b, ap (λ m. holds (main_output m) b) e, holds-none b);
    input_size = o.input_size;
    ending = λ no. cc;
    room = λ j no. cc;
    copied = λ j no. cc;
  }
