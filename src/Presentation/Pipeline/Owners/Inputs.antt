-- ===== src/Presentation/Pipeline/Owners/Inputs.antt =====
-- The steps of the main thread of native/src/presentation/async_presentation_pipeline.cpp.
use peraviz.Prelude.{
  ℕ, zero, suc, ◌+◌, ◌≤◌, ◌<◌, ◌≡◌, refl, sym, ap, ◌∙◌, subst, Bool, not, ◌||◌, ◌&&◌, ◌==◌, if-elim,
  Option, none, some, List, arith, length, length-set, set, ℤ, pos, negsuc, max, ◌⊎◌, inl, inr,
  Bool-cases,
}
use peraviz.Presentation.Pipeline.{
  free, writing, no_input, Main, idle, trying, claimed, filled, replacing, System, status_of,
  set_status, content_of, is_free, active, write_found, submit, begin_flush, try_input, fill_input,
  filled_bank, enqueue_input, replaced, free_replaced, index_of, write_frame,
}
use peraviz.Presentation.Pipeline.Banks.{
  busy, holds, holds-none, holds_self, holds_other, holds_three, busy-set_free, busy-set_status,
  is_free-busy, busy-is_free, busy-inside, length-set_status, content_of-set_self, held-set,
  busy_bound,
}
use peraviz.Presentation.Pipeline.Owners.{
  main_input, coordinator_input, main_output, InputsOwned, OutputsOwned, HasRoom, IsOwned,
}

zero_or : (n : ℕ) → (n ≡ 0) ⊎ (1 ≤ n)
zero_or zero = inl refl
zero_or (suc n) = inr (omega arith)

module _ {C S : Type 0} where
  -- A bank that the main thread has is busy.
  pub main-busy :
      (s : System C S) (i : ℕ)
      → IsOwned s
      → main_input s.main ≡ some i
      → busy (status_of s.inputs i) ≡ 1
  main-busy s i o e =
      let sum = o.inputs i in
      let own : holds (main_input s.main) i ≡ 1 = ap (λ x. holds x i) e ∙ holds_self i in
      let bound = busy_bound (status_of s.inputs i) in omega (arith, sum, own, bound)

  pub submit-IsOwned :
      (s : System C S) (universe : ℕ) (bytes : Option (List ℕ)) (size : ℤ) (received_us : ℕ)
      → s.main ≡ idle
      → IsOwned s
      → IsOwned (submit s universe bytes size received_us).1
  unfolding submit write_frame
  submit-IsOwned s universe none size received_us e o = o
  submit-IsOwned s universe (some bytes) (negsuc n) received_us e o = o
  submit-IsOwned s universe (some bytes) (pos size) received_us e o =
      if-elim (λ (r : Bool × System C S). IsOwned r.1) (not (active s) || size == 0) _ _ (λ t. o)
        (λ t. found (index_of s.latest universe))
    where
      found : (i : Option ℕ) → IsOwned (write_found s i bytes size received_us).1
      found none = o
      found (some i) = record {
        inputs = o.inputs;
        outputs = o.outputs;
        input_size = o.input_size;
        ending = o.ending;
        room = o.room;
        copied = λ j f. let no = sym e ∙ f in cc;
      }

  -- With no bank of its own, the main thread leaves one of the three free.
  first-HasRoom : (s : System C S) → s.main ≡ idle → IsOwned s → HasRoom 0 s.inputs
  first-HasRoom s e o =
      let none_own : (b : ℕ) → holds (main_input s.main) b ≡ 0 =
        λ b. ap (λ m. holds (main_input m) b) e ∙ holds-none b in
      let q = holds_three s.queued_input in
      let c = holds_three (coordinator_input s.coordinator) in
      elim (zero_or (busy (status_of s.inputs 0))) [
        | inl z ↦ (0, omega arith, omega arith, z)
        | inr z ↦ elim (zero_or (busy (status_of s.inputs 1))) [
          | inl y ↦ (1, omega arith, omega arith, y)
          | inr y ↦ (
            2,
            omega arith,
            omega arith,
            omega (
              arith,
              o.inputs 0,
              o.inputs 1,
              o.inputs 2,
              none_own 0,
              none_own 1,
              none_own 2,
              q,
              c,
              z,
              y,
            ),
          )
        ]
      ]

  pub begin_flush-IsOwned : (s : System C S) → s.main ≡ idle → IsOwned s → IsOwned (begin_flush s)
  unfolding begin_flush
  begin_flush-IsOwned s e o =
      if-elim IsOwned (s.producer_dirty && active s) _ _
        (λ t. record {
          inputs = subst (λ m. InputsOwned m s.queued_input s.coordinator s.inputs) e o.inputs;
          outputs =
              subst (λ m. OutputsOwned m s.leased s.ready_output s.coordinator s.outputs) e
                o.outputs;
          input_size = o.input_size;
          ending = λ no. cc;
          room = λ i same.
              let zero_is : 0 ≡ i = cc in
              subst (λ k. HasRoom k s.inputs) zero_is (first-HasRoom s e o);
          copied = λ i no. cc;
        })
        (λ t. o)

  -- The invariant of the outputs, where the main thread has no output bank before and after.
  outputs_kept :
      (s : System C S) (m m' : Main)
      → s.main ≡ m
      → main_output m ≡ none
      → main_output m' ≡ none
      → IsOwned s
      → OutputsOwned m' s.leased s.ready_output s.coordinator s.outputs
  outputs_kept s m m' e before after o b =
      let same : holds (main_output s.main) b ≡ holds (main_output m') b =
        ap (λ x. holds (main_output x) b) e ∙ ap (λ x. holds x b) (before ∙ sym after) in
      omega (arith, o.outputs b, same)

  claimed_sum :
      (s : System C S) (i b : ℕ)
      → busy (status_of s.inputs i) ≡ 0
      → holds (main_input s.main) b ≡ 0
      → busy (status_of (set_status s.inputs i writing) b)
        ≡ max (busy (status_of s.inputs b)) (holds (some i) b)
      → holds (main_input s.main) b
          + (holds s.queued_input b + holds (coordinator_input s.coordinator) b)
        ≡ busy (status_of s.inputs b)
      → holds (some i) b + (holds s.queued_input b + holds (coordinator_input s.coordinator) b)
        ≡ busy (status_of (set_status s.inputs i writing) b)
  claimed_sum s i b z mine after sum = elim (Bool-cases (i == b)) [
    | inl q ↦
        let same : i ≡ b = ground arith in
        let here = subst (λ x. busy (status_of s.inputs x) ≡ 0) same z in
        let one = subst (λ x. holds (some i) x ≡ 1) same (holds_self i) in
        omega (arith, here, one, mine, after, sum)
    | inr q ↦
        let zero_here = holds_other i b (λ k. ground arith) in
        omega (arith, zero_here, mine, after, sum)
  ]

  pub try_input-IsOwned :
      (s : System C S) (i : ℕ)
      → s.main ≡ trying i
      → i < length s.inputs
      → IsOwned s
      → IsOwned (try_input s i)
  unfolding try_input
  try_input-IsOwned s i e inside o =
      let mine : (b : ℕ) → holds (main_input s.main) b ≡ 0 =
        λ b. ap (λ m. holds (main_input m) b) e ∙ holds-none b in
      if-elim IsOwned (is_free (status_of s.inputs i)) _ _
        (λ t.
          let idle_bank = is_free-busy (status_of s.inputs i) t in
          record {
            inputs = λ b.
                let after = busy-set_status s.inputs i b writing inside refl in
                claimed_sum s i b idle_bank (mine b) after (o.inputs b);
            outputs = outputs_kept s (trying i) (claimed i) e refl refl o;
            input_size = length-set_status s.inputs i writing ∙ o.input_size;
            ending = λ no. cc;
            room = λ j no. cc;
            copied = λ j no. cc;
          })
        (λ f. record {
          inputs = λ b. omega (arith, o.inputs b, mine b, holds-none b);
          outputs = outputs_kept s (trying i) (trying (suc i)) e refl refl o;
          input_size = o.input_size;
          ending = λ no. cc;
          room = λ j same.
              let next : suc i ≡ j = cc in
              subst (λ k. HasRoom k s.inputs) next
                (let (k, low, high, z) = o.room i e in
                  (
                    k,
                    elim (Bool-cases (i == k)) [
                      | inl q ↦ absurd (
                          let at : k ≡ i = ground arith in
                          let yes =
                            busy-is_free (status_of s.inputs i)
                              (subst (λ x. busy (status_of s.inputs x) ≡ 0) at z) in
                          cc)
                      | inr q ↦ ground arith
                    ],
                    high,
                    z,
                  ));
          copied = λ j no. cc;
        })

  pub fill_input-IsOwned :
      (s : System C S) (i now_ns : ℕ)
      → s.main ≡ claimed i
      → IsOwned s
      → IsOwned (fill_input s i now_ns)
  unfolding fill_input
  fill_input-IsOwned s i now_ns e o =
      let own = main-busy s i o (ap main_input e) in
      let mine : (b : ℕ) → holds (main_input s.main) b ≡ holds (some i) b =
        λ b. ap (λ m. holds (main_input m) b) e in
      record {
        inputs = λ b.
            omega
              (arith, o.inputs b, mine b, held-set s.inputs i b (filled_bank s now_ns) own refl);
        outputs = outputs_kept s (claimed i) (filled i) e refl refl o;
        input_size = length-set s.inputs i (filled_bank s now_ns) ∙ o.input_size;
        ending = λ no. cc;
        room = λ j no. cc;
        copied = λ j same.
            let at : i ≡ j = cc in
            subst
              (λ k.
                (content_of (set s.inputs i (filled_bank s now_ns)) k no_input).frames ≡ s.latest)
              at
              (ap (λ c. c.frames)
                (content_of-set_self s.inputs i (filled_bank s now_ns) no_input
                  (busy-inside s.inputs i own)));
      }

  pub enqueue_input-IsOwned :
      (s : System C S) (i : ℕ) → s.main ≡ filled i → IsOwned s → IsOwned (enqueue_input s i)
  unfolding enqueue_input
  enqueue_input-IsOwned s i e o = swapped s.queued_input refl
    where
      swapped : (q : Option ℕ) → s.queued_input ≡ q → IsOwned (replaced s i q)
      swapped none f = record {
        inputs = λ b. omega (
          arith,
          o.inputs b,
          ap (λ m. holds (main_input m) b) e,
          ap (λ x. holds x b) f,
          holds-none b,
        );
        outputs = outputs_kept s (filled i) idle e refl refl o;
        input_size = o.input_size;
        ending = λ no. cc;
        room = λ j no. cc;
        copied = λ j no. cc;
      }
      swapped (some old) f = record {
        inputs = λ b.
            omega (arith, o.inputs b, ap (λ m. holds (main_input m) b) e, ap (λ x. holds x b) f);
        outputs = outputs_kept s (filled i) (replacing old) e refl refl o;
        input_size = o.input_size;
        ending = λ no. cc;
        room = λ j no. cc;
        copied = λ j no. cc;
      }

  pub free_replaced-IsOwned :
      (s : System C S) (i : ℕ) → s.main ≡ replacing i → IsOwned s → IsOwned (free_replaced s i)
  unfolding free_replaced
  free_replaced-IsOwned s i e o = record {
    inputs = λ b. omega (
      arith,
      o.inputs b,
      ap (λ m. holds (main_input m) b) e,
      busy-set_free s.inputs i b,
      holds-none b,
    );
    outputs = outputs_kept s (replacing i) idle e refl refl o;
    input_size = length-set_status s.inputs i free ∙ o.input_size;
    ending = λ no. cc;
    room = λ j no. cc;
    copied = λ j no. cc;
  }
