-- ===== src/Gdtf/Graph/Accepts.antt =====
-- Which tables of channel functions native/src/gdtf_runtime/mode_master.cpp accepts.
use peraviz.Prelude.{
  ℕ, zero, suc, ◌<◌, ◌≡◌, ◌≢◌, refl, sym, ap, ◌∙◌, subst, true, ◌==◌, some, List, arith, inl, inr,
  length, get_elem?, get_elem?-bound, get_or, set, length-set, get_or-set_cases, get_or-set_self,
  if-elim, Elem, ◌>>=◌,
}
use peraviz.Gdtf.Chains.{Ends, path, path-Distinct}
use peraviz.Gdtf.Conditions.{unconditional, dmx_channel, channel_function}
use peraviz.Gdtf.Graph.{
  ChannelFunctionActivation, Functions, last_index, accepted, Visit, finish, visit_target,
  visit_condition, visit_new, visit_function, visit,
}
use peraviz.Gdtf.Graph.Validation.{IsGrounded, fresh, fresh-set}
use peraviz.Gdtf.Graph.Masters.{next, next_lem}

abbrev ends :
    {functions : Functions} {i : ℕ}
    → IsGrounded functions i
    → Ends (next (last_index functions) functions) i
ends {functions = functions} {i = i} (IsGrounded.alone f at valid (inl k)) =
    Ends.stop (next_lem (last_index functions) functions i f unconditional at k)
ends {functions = functions} {i = i} (IsGrounded.alone f at valid (inr k)) =
    Ends.stop (next_lem (last_index functions) functions i f dmx_channel at k)
ends {functions = functions} {i = i} (IsGrounded.via f j at valid k e d) =
    Ends.step j (next_lem (last_index functions) functions i f channel_function at k ∙ e) (ends d)

-- A visit that accepts and leaves no function on the way that was not.
pub record IsAccepted (functions : Functions) (state : List ℕ) (visited : Visit) : Type 0 where
  pub after : List ℕ
  pub accepts : visited ≡ some (accepted, after)
  pub size : length after ≡ length functions
  pub ways : (k : ℕ) → get_or after k 0 ≡ 1 → get_or state k 0 ≡ 1

done-ways :
    (state after : List ℕ) (index : ℕ)
    → index < length after
    → ((k : ℕ) → get_or after k 0 ≡ 1 → get_or (set state index 1) k 0 ≡ 1)
    → (k : ℕ) → get_or (set after index 2) k 0 ≡ 1
    → get_or state k 0 ≡ 1
done-ways state after index inside ways k h = elim (get_or-set_cases after index k 2 0) [
  | inl (e, w) ↦ absurd (omega (arith, h, w))
  | inr w ↦ elim (get_or-set_cases state index k 1 0) [
    | inl (e, v) ↦
        let two = get_or-set_self after index 2 0 inside in
        let same = ap (λ x. get_or (set after index 2) x 0) e in
        absurd (omega (arith, h, two, same))
    | inr v ↦ sym v ∙ ways k (sym w ∙ h)
  ]
]

module _ {functions : Functions} where
  -- The test of a colour that is not 1, and then a visit of a new function.
  new-IsAccepted :
      (fuel : ℕ) (state : List ℕ) (index : ℕ) (f : ChannelFunctionActivation)
      → length state ≡ length functions
      → get_elem? functions index ≡ some f
      → f.mode_master.valid ≡ true
      → get_or state index 0 ≢ 1
      → (get_or state index 0 ≢ 2
          → IsAccepted functions state (
              visit_condition functions f index
                (set state index 1)
                f.mode_master.target_kind
                (λ j. visit fuel functions (set state index 1) j)))
      → IsAccepted functions state (visit (suc fuel) functions state index)
  unfolding visit visit_function visit_new
  new-IsAccepted fuel state index f size at valid one h = rw at (
      if-elim (IsAccepted functions state) (get_or state index 0 == 1) _ _
        (λ e. absurd (one (ground arith)))
        (λ e.
          if-elim (IsAccepted functions state) (get_or state index 0 == 2) _ _
            (λ e'. record { after = state; accepts = refl; size = size; ways = λ k w. w })
            (λ e'.
              if-elim (IsAccepted functions state) f.mode_master.valid _ _
                (λ v. h (λ two. ground arith)) (λ v. cc))))

  finish-IsAccepted :
      (state after : List ℕ) (index : ℕ) (visited : Visit)
      → index < length functions
      → length after ≡ length functions
      → ((k : ℕ) → get_or after k 0 ≡ 1 → get_or (set state index 1) k 0 ≡ 1)
      → visited ≡ finish index (accepted, after)
      → IsAccepted functions state visited
  unfolding finish
  finish-IsAccepted state after index visited inside size ways e = record {
    after = set after index 2;
    accepts = e;
    size = length-set after index 2 ∙ size;
    ways = done-ways state after index (omega (arith, size, inside)) ways;
  }

  grounded-inside : {i : ℕ} → IsGrounded functions i → i < length functions
  grounded-inside {i = i} (IsGrounded.alone f at valid k) = get_elem?-bound functions i at
  grounded-inside {i = i} (IsGrounded.via f j at valid k e d) = get_elem?-bound functions i at

  -- A grounded function is accepted where no function of its chain is on the way.
  pub visit-IsAccepted :
      (fuel : ℕ) (state : List ℕ) {index : ℕ} (d : IsGrounded functions index)
      → length state ≡ length functions
      → fresh state < fuel
      → ((k : ℕ) → Elem k (path (ends d)) → get_or state k 0 ≢ 1)
      → IsAccepted functions state (visit fuel functions state index)
  unfolding visit_condition visit_target
  visit-IsAccepted zero state d size enough free = absurd (omega (arith, enough))
  visit-IsAccepted (suc fuel) state {index = index} (IsGrounded.alone f at valid (inl k)) size
        enough free =
      let inside = get_elem?-bound functions index at in
      new-IsAccepted fuel state index f size at valid (free index (inl refl)) (λ two. rw k (
        finish-IsAccepted state (set state index 1) index _ inside (length-set state index 1 ∙ size)
          (λ i w. w) refl))
  visit-IsAccepted (suc fuel) state {index = index} (IsGrounded.alone f at valid (inr k)) size
        enough free =
      let inside = get_elem?-bound functions index at in
      new-IsAccepted fuel state index f size at valid (free index (inl refl)) (λ two. rw k (
        finish-IsAccepted state (set state index 1) index _ inside (length-set state index 1 ∙ size)
          (λ i w. w) refl))
  visit-IsAccepted (suc fuel) state {index = index} (IsGrounded.via f j at valid k e d) size enough
        free =
      let inside = get_elem?-bound functions index at in
      let one = free index (inl refl) in
      new-IsAccepted fuel state index f size at valid one (λ two.
        let less = fresh-set state index (omega (arith, size, inside)) one two in
        let r =
          visit-IsAccepted fuel (set state index 1) d (length-set state index 1 ∙ size)
            (omega (arith, less, enough))
            (λ i m w. elim (get_or-set_cases state index i 1 0) [
              | inl (same, v) ↦
                  (path-Distinct (ends (IsGrounded.via f j at valid k e d))).0
                    (subst (λ x. Elem x (path (ends d))) (sym same) m)
              | inr v ↦ free i (inr m) (sym v ∙ w)
            ]) in
        rw k (
          rw e (
            finish-IsAccepted state r.after index _ inside r.size r.ways
              (ap (λ x. x >>= finish index) r.accepts))))
