-- ===== src/Gdtf/Graph/Visits.antt =====
-- A visit of native/src/gdtf_runtime/mode_master.cpp ends, and accepts only grounded functions.
use peraviz.Prelude.{
  ℕ, zero, suc, ◌<◌, ◌≡◌, ◌≢◌, refl, sym, ◌∙◌, subst, true, ◌==◌, Option, none, some, List, arith,
  inl, inr, length, get_elem?, get_or, set, length-set, get_elem?-inside, if-elim, ◌>>=◌,
}
use peraviz.Gdtf.Conditions.{
  ModeMasterTargetKind, unconditional, dmx_channel, channel_function, invalid,
}
use peraviz.Gdtf.Graph.{
  ChannelFunctionActivation, Functions, last_index, Verdict, accepted, cycle, unresolved, Visit,
  finish, visit_target, visit_condition, visit_new, visit_function, visit,
}
use peraviz.Gdtf.Graph.Validation.{
  IsGrounded, fresh, fresh-set, last_index-bound, IsSettled, IsGood, IsSettled-start,
  IsSettled-done,
}

module _ (functions : Functions) where
  -- A visit that rejects.
  rejected :
      (state : List ℕ) (index : ℕ) (v : Verdict) (after : List ℕ)
      → v ≢ accepted
      → length after ≡ length functions
      → IsGood functions state index (some (v, after))
  rejected state index v after h size = record {
    result = (v, after);
    ends = refl;
    size = size;
    sound = λ e s. absurd (h e);
  }

  finish-IsGood :
      (state : List ℕ) (index : ℕ) (v : Verdict) (after : List ℕ)
      → length after ≡ length functions
      → (v ≡ accepted
          → IsSettled functions state
          → IsSettled functions after × IsGrounded functions index)
      → IsGood functions state index (finish index (v, after))
  unfolding finish
  finish-IsGood state index accepted after size sound = record {
    result = (accepted, set after index 2);
    ends = refl;
    size = length-set after index 2 ∙ size;
    sound = λ e s.
        let (settled, g) = sound refl s in (IsSettled-done functions after index settled g, g);
  }
  finish-IsGood state index (cycle id) after size sound =
      rejected state index (cycle id) after (λ e. cc) size
  finish-IsGood state index (unresolved id) after size sound =
      rejected state index (unresolved id) after (λ e. cc) size

  -- What a visit of a master gives its dependant.
  target-IsGood :
      (f : ChannelFunctionActivation) (state : List ℕ) (index : ℕ) (target : Option ℕ)
      (go : ℕ → Visit)
      → length state ≡ length functions
      → ((j : ℕ) → target ≡ some j → IsGood functions state j (go j))
      → ((j : ℕ) → target ≡ some j → IsGrounded functions j → IsGrounded functions index)
      → IsGood functions state index (visit_target f index state target go)
  unfolding visit_target
  target-IsGood f state index none go size rec up =
      rejected state index (unresolved f.function_id) state (λ e. cc) size
  target-IsGood f state index (some j) go size rec up =
      let r = rec j refl in
      subst (λ v. IsGood functions state index (v >>= finish index)) (sym r.ends)
        (finish-IsGood state index r.result.0 r.result.1 r.size
          (λ e s. let (settled, g) = r.sound e s in (settled, up j refl g)))

  condition-IsGood :
      (f : ChannelFunctionActivation) (state : List ℕ) (index : ℕ) (kind : ModeMasterTargetKind)
      (go : ℕ → Visit)
      → length state ≡ length functions
      → get_elem? functions index ≡ some f
      → f.mode_master.valid ≡ true
      → f.mode_master.target_kind ≡ kind
      → ((j : ℕ) → j < length functions → IsGood functions state j (go j))
      → IsGood functions state index (visit_condition functions f index state kind go)
  unfolding visit_condition
  condition-IsGood f state index unconditional go size at valid k rec =
      finish-IsGood state index accepted state size
        (λ e s. (s, IsGrounded.alone f at valid (inl k)))
  condition-IsGood f state index dmx_channel go size at valid k rec =
      finish-IsGood state index accepted state size
        (λ e s. (s, IsGrounded.alone f at valid (inr k)))
  condition-IsGood f state index invalid go size at valid k rec =
      rejected state index (unresolved f.function_id) state (λ e. cc) size
  condition-IsGood f state index channel_function go size at valid k rec =
      target-IsGood f state index (last_index functions f.mode_master.target_id) go size
        (λ j e. rec j (last_index-bound functions f.mode_master.target_id j e))
        (λ j e g. IsGrounded.via f j at valid k e g)

  started :
      (state : List ℕ) (index : ℕ) (visited : Visit)
      → IsGood functions (set state index 1) index visited
      → IsGood functions state index visited
  started state index visited r = record {
    result = r.result;
    ends = r.ends;
    size = r.size;
    sound = λ e s. r.sound e (IsSettled-start functions state index s);
  }

  new-IsGood :
      (f : ChannelFunctionActivation) (state : List ℕ) (index : ℕ) (go : ℕ → Visit)
      → length state ≡ length functions
      → get_elem? functions index ≡ some f
      → ((j : ℕ) → j < length functions → IsGood functions (set state index 1) j (go j))
      → IsGood functions state index (visit_new functions f index (set state index 1) go)
  unfolding visit_new
  new-IsGood f state index go size at rec =
      let size' = length-set state index 1 ∙ size in
      started state index _ (
        if-elim (IsGood functions (set state index 1) index) f.mode_master.valid _ _
          (λ e.
            condition-IsGood f (set state index 1) index f.mode_master.target_kind go size' at e
              refl rec)
          (λ e.
            rejected (set state index 1) index (unresolved f.function_id) (set state index 1)
              (λ e'. cc) size'))

  -- A visit with more fuel than there are fresh functions ends with a verdict.
  pub visit-IsGood :
      (fuel : ℕ) (state : List ℕ) (index : ℕ)
      → length state ≡ length functions
      → index < length functions
      → fresh state < fuel
      → IsGood functions state index (visit fuel functions state index)
  unfolding visit visit_function
  visit-IsGood zero state index size inside enough = absurd (omega (arith, enough))
  visit-IsGood (suc fuel) state index size inside enough =
      let (f, at) = get_elem?-inside functions index inside in
      rw at (
        if-elim (IsGood functions state index) (get_or state index 0 == 1) _ _
          (λ e. rejected state index (cycle f.function_id) state (λ e'. cc) size)
          (λ e.
            if-elim (IsGood functions state index) (get_or state index 0 == 2) _ _
              (λ e'. record {
                result = (accepted, state);
                ends = refl;
                size = size;
                sound = λ v s. (s, s index (ground arith));
              })
              (λ e'.
                let less =
                  fresh-set state index (omega (arith, size, inside)) (λ k. ground arith)
                    (λ k. ground arith) in
                new-IsGood f state index (λ j. visit fuel functions (set state index 1) j) size at
                  (λ j h.
                    visit-IsGood fuel (set state index 1) j (length-set state index 1 ∙ size) h
                      (omega (arith, less, enough))))))
