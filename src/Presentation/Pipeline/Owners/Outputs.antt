-- ===== src/Presentation/Pipeline/Owners/Outputs.antt =====
-- The steps of native/src/presentation/async_presentation_pipeline.cpp that hand snapshots back, and
-- those of the coordinator.
use peraviz.Prelude.{
  ℕ, ◌≤◌, ◌≡◌, refl, sym, ap, ◌∙◌, subst, Bool, ◌==◌, if-elim, Option, none, some, arith, Elem, inl,
  inr, Bool-cases,
}
use peraviz.Presentation.Pipeline.{
  reading, Main, idle, joining, acquiring, System, status_of, active, acquired, begin_acquire,
  end_acquire, release, begin_stop, set_trace,
}
use peraviz.Presentation.Pipeline.Banks.{
  busy, holds, holds-none, holds_self, holds_other, busy-set_free, held-set_status, busy_bound,
}
use peraviz.Presentation.Pipeline.Owners.{
  main_input, main_output, leases, leases-give_back, leases-Elem, InputsOwned, IsOwned,
}

module _ {C S : Type 0} where
  -- The invariant of the inputs, where the main thread has no input bank before and after.
  inputs_kept :
      (s : System C S) (m m' : Main)
      → s.main ≡ m
      → main_input m ≡ none
      → main_input m' ≡ none
      → IsOwned s
      → InputsOwned m' s.queued_input s.coordinator s.inputs
  inputs_kept s m m' e before after o b =
      let same : holds (main_input s.main) b ≡ holds (main_input m') b =
        ap (λ x. holds (main_input x) b) e ∙ ap (λ x. holds x b) (before ∙ sym after) in
      omega (arith, o.inputs b, same)

  pub begin_acquire-IsOwned :
      (s : System C S) → s.main ≡ idle → IsOwned s → IsOwned (begin_acquire s)
  unfolding begin_acquire
  begin_acquire-IsOwned s e o =
      if-elim IsOwned (active s) _ _ (λ t. exchanged s.ready_output refl) (λ f. o)
    where
      exchanged : (r : Option ℕ) → s.ready_output ≡ r → IsOwned (acquired s r)
      exchanged none f = record {
        inputs = o.inputs;
        outputs = λ b. omega (arith, o.outputs b, ap (λ x. holds x b) f);
        input_size = o.input_size;
        ending = o.ending;
        room = o.room;
        copied = o.copied;
      }
      exchanged (some i) f = record {
        inputs = inputs_kept s idle (acquiring i) e refl refl o;
        outputs = λ b. omega (
          arith,
          o.outputs b,
          ap (λ x. holds x b) f,
          ap (λ m. holds (main_output m) b) e,
          holds-none b,
        );
        input_size = o.input_size;
        ending = λ no. cc;
        room = λ j no. cc;
        copied = λ j no. cc;
      }

  -- An output bank that someone has is busy.
  pub output-busy :
      (s : System C S) (i n : ℕ)
      → n ≤ busy (status_of s.outputs i)
      → 1 ≤ n
      → busy (status_of s.outputs i) ≡ 1
  output-busy s i n h k =
      let bound = busy_bound (status_of s.outputs i) in omega (arith, h, k, bound)

  pub end_acquire-IsOwned :
      (s : System C S) (i : ℕ) → s.main ≡ acquiring i → IsOwned s → IsOwned (end_acquire s i)
  unfolding end_acquire
  end_acquire-IsOwned s i e o =
      let mine : holds (main_output s.main) i ≡ 1 =
        ap (λ m. holds (main_output m) i) e ∙ holds_self i in
      let own = output-busy s i _ (o.outputs i) (omega (arith, mine)) in
      record {
        inputs = inputs_kept s (acquiring i) idle e refl refl o;
        outputs = λ b. omega (
          arith,
          o.outputs b,
          ap (λ m. holds (main_output m) b) e,
          holds-none b,
          held-set_status s.outputs i b reading own refl,
        );
        input_size = o.input_size;
        ending = λ no. cc;
        room = λ j no. cc;
        copied = λ j no. cc;
      }

  pub release-IsOwned :
      (s : System C S) (i : ℕ) → Elem i s.leased → IsOwned s → IsOwned (release s i)
  unfolding release
  release-IsOwned s i m o = record {
    inputs = o.inputs;
    outputs = λ b. elim (Bool-cases (i == b)) [
      | inl q ↦
          let same : i ≡ b = ground arith in
          let least = subst (λ x. 1 ≤ leases s.leased x) same (leases-Elem i s.leased m) in
          let one = subst (λ x. holds (some i) x ≡ 1) same (holds_self i) in
          omega (
            arith,
            o.outputs b,
            leases-give_back i s.leased b,
            busy-set_free s.outputs i b,
            least,
            one,
          )
      | inr q ↦
          let zero_here = holds_other i b (λ k. ground arith) in
          omega (
            arith,
            o.outputs b,
            leases-give_back i s.leased b,
            busy-set_free s.outputs i b,
            zero_here,
          )
    ];
    input_size = o.input_size;
    ending = o.ending;
    room = o.room;
    copied = o.copied;
  }

  pub begin_stop-IsOwned : (s : System C S) → s.main ≡ idle → IsOwned s → IsOwned (begin_stop s)
  unfolding begin_stop
  begin_stop-IsOwned s e o =
      if-elim IsOwned s.retired _ _ (λ t. o)
        (λ f. record {
          inputs = inputs_kept s idle joining e refl refl o;
          outputs =
              λ b. omega (arith, o.outputs b, ap (λ m. holds (main_output m) b) e, holds-none b);
          input_size = o.input_size;
          ending = λ j. refl;
          room = λ j no. cc;
          copied = λ j no. cc;
        })

  pub set_trace-IsOwned :
      (s : System C S) (enabled : Bool) → IsOwned s → IsOwned (set_trace s enabled)
  unfolding set_trace
  set_trace-IsOwned s enabled o = record {
    inputs = o.inputs;
    outputs = o.outputs;
    input_size = o.input_size;
    ending = o.ending;
    room = o.room;
    copied = o.copied;
  }
