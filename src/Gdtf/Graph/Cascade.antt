-- ===== src/Gdtf/Graph/Cascade.antt =====
-- The depth to which native/src/gdtf_runtime/mode_master.cpp follows a cascade.
use peraviz.Prelude.{
  ℕ, zero, suc, ◌≤◌, ◌<◌, ◌≡◌, refl, ap, ◌∙◌, Bool, true, Option, some, List, ℤ, arith, ◌↔◌, length,
  get_elem?, get_elem?-bound, All,
}
use peraviz.Gdtf.Chains.{Ends, path, path_pos, length-path}
use peraviz.Gdtf.Conditions.{ModeMasterTargetKind, unconditional, dmx_channel, channel_function}
use peraviz.Gdtf.Graph.{
  ChannelFunctionActivation, Functions, find_index, source_value, condition_holds, function_holds,
  evaluate, is_channel_function_active,
}
use peraviz.Gdtf.Graph.Masters.{next, next_lem}
use peraviz.Gdtf.Graph.Activation.{IsOpen, IsActive, is_within_iff, of_master, evaluate-IsActive}

-- What `find_index` finds.
abbrev first_of : Functions → ℤ → Option ℕ
first_of functions id = some (find_index functions id)

module _ {functions : Functions} {values : List ℕ} where
  abbrev ends : {i : ℕ} → IsActive functions values i → Ends (next (first_of functions) functions) i
  ends {i = i} (IsActive.alone f o k) =
      Ends.stop (next_lem (first_of functions) functions i f unconditional o.at k)
  ends {i = i} (IsActive.by_channel f o k m) =
      Ends.stop (next_lem (first_of functions) functions i f dmx_channel o.at k)
  ends {i = i} (IsActive.by_function f j o k t m d) =
      Ends.step j (next_lem (first_of functions) functions i f channel_function o.at k ∙ ap some t)
        (ends d)

  inside : {i : ℕ} → IsActive functions values i → i < length functions
  inside {i = i} (IsActive.alone f o k) = get_elem?-bound functions i o.at
  inside {i = i} (IsActive.by_channel f o k m) = get_elem?-bound functions i o.at
  inside {i = i} (IsActive.by_function f j o k t m d) = get_elem?-bound functions i o.at

  path-inside :
      {i : ℕ} (d : IsActive functions values i) → All (λ k. k < length functions) (path (ends d))
  path-inside (IsActive.alone f o k) = (inside (IsActive.alone f o k), tt)
  path-inside (IsActive.by_channel f o k m) = (inside (IsActive.by_channel f o k m), tt)
  path-inside (IsActive.by_function f j o k t m d) =
      (inside (IsActive.by_function f j o k t m d), path-inside d)

  function_holds_lem :
      {i : ℕ} (f : ChannelFunctionActivation) (kind : ModeMasterTargetKind) (active : ℕ → Bool)
      → IsOpen functions values i f
      → f.mode_master.target_kind ≡ kind
      → condition_holds functions values f.mode_master kind active ≡ true
      → function_holds functions values (get_elem? functions i) active ≡ true
  unfolding function_holds
  function_holds_lem f kind active o k h =
      let own = (is_within_iff (source_value values f.source_id) f.dmx_from f.dmx_to).1 o.own in
      let holds = ap (λ x. condition_holds functions values f.mode_master x active) k ∙ h in
      let valid = o.valid in rw o.at (ground arith)

  evaluate_active :
      {i : ℕ} (d : IsActive functions values i) (left : ℕ)
      → length (path (ends d)) ≤ left
      → evaluate left functions values i ≡ true
  unfolding evaluate condition_holds
  evaluate_active d zero h = let pos = path_pos (ends d) in absurd (omega (arith, pos, h))
  evaluate_active (IsActive.alone f o k) (suc left) h =
      function_holds_lem f unconditional (λ j. evaluate left functions values j) o k refl
  evaluate_active (IsActive.by_channel f o k m) (suc left) h =
      function_holds_lem f dmx_channel (λ j. evaluate left functions values j) o k
        (of_master functions values f.mode_master
          (find_index functions f.mode_master.master_program_id) m)
  evaluate_active (IsActive.by_function f j o k t m d) (suc left) h =
      function_holds_lem f channel_function (λ j. evaluate left functions values j) o k
        (rw t (
          rw (of_master functions values f.mode_master j m)
            (evaluate_active d left (omega (arith, h)))))

-- A channel function is found active exactly if the cascade, followed to any depth, says so: the
-- function, the first one of its id, has a valid condition and a source whose value is in its range,
-- and either no master, or a master whose source has a value in the range of the condition, and is
-- itself active where it is a channel function.
pub is_channel_function_active_iff :
    (function_id : ℤ) (functions : Functions) (values : List ℕ)
    → (is_channel_function_active function_id functions values ≡ true)
      ↔ IsActive functions values (find_index functions function_id)
unfolding is_channel_function_active
is_channel_function_active_iff function_id functions values =
    let i = find_index functions function_id in
    (
      λ h. evaluate-IsActive (suc (length functions)) functions values i (ground arith),
      λ d.
          let bound = length-path (length functions) (ends d) (path-inside d) in
          let all = evaluate_active d (suc (length functions)) (omega (arith, bound)) in
          let found = inside d in ground arith,
    )
