-- ===== src/Gdtf/Graph/Activation.antt =====
-- When native/src/gdtf_runtime/mode_master.cpp finds a channel function active.
use peraviz.Prelude.{
  ℕ, zero, suc, ◌≤◌, ◌≡◌, refl, Bool, true, Option, none, some, List, ℤ, arith, ◌↔◌, get_elem?,
}
use peraviz.Gdtf.Conditions.{
  ModeMasterTargetKind, ModeMasterCondition, unconditional, dmx_channel, channel_function, invalid,
}
use peraviz.Gdtf.Graph.{
  ChannelFunctionActivation, Functions, find_index, source_value, is_within, master_within,
  condition_holds, function_holds, evaluate,
}

-- A source has a value, and it lies between two numbers.
abbrev pub IsWithin : List ℕ → ℤ → ℕ → ℕ → Type 0
IsWithin values source_id from to =
    (v : ℕ) × (source_value values source_id ≡ some v) × (from ≤ v) × (v ≤ to)

-- The function at an index and, for one with a master, the master whose value is in the range of the
-- condition.
pub record IsOpen (functions : Functions) (values : List ℕ) (i : ℕ) (f : ChannelFunctionActivation)
    : Type 0 where
  pub at : get_elem? functions i ≡ some f
  pub own : IsWithin values f.source_id f.dmx_from f.dmx_to
  pub valid : f.mode_master.valid ≡ true

pub record HasMaster (functions : Functions) (values : List ℕ) (c : ModeMasterCondition) (j : ℕ)
    : Type 0 where
  pub master : ChannelFunctionActivation
  pub at : get_elem? functions j ≡ some master
  pub within : IsWithin values master.source_id c.from c.to

-- The cascade, with no bound on its depth.
pub data IsActive (functions : Functions) (values : List ℕ) : ℕ → Type 0 where
  alone :
      {i : ℕ} (f : ChannelFunctionActivation)
      → IsOpen functions values i f
      → f.mode_master.target_kind ≡ unconditional
      → IsActive functions values i
  by_channel :
      {i : ℕ} (f : ChannelFunctionActivation)
      → IsOpen functions values i f
      → f.mode_master.target_kind ≡ dmx_channel
      → HasMaster functions values f.mode_master
          (find_index functions f.mode_master.master_program_id)
      → IsActive functions values i
  by_function :
      {i : ℕ} (f : ChannelFunctionActivation) (j : ℕ)
      → IsOpen functions values i f
      → f.mode_master.target_kind ≡ channel_function
      → find_index functions f.mode_master.target_id ≡ j
      → HasMaster functions values f.mode_master j
      → IsActive functions values j
      → IsActive functions values i

pub is_within_iff :
    (o : Option ℕ) (from to : ℕ)
    → (is_within o from to ≡ true) ↔ ((v : ℕ) × (o ≡ some v) × (from ≤ v) × (v ≤ to))
unfolding is_within
is_within_iff none from to = (λ h. cc, λ (v, e, low, high). cc)
is_within_iff (some u) from to = (
  λ h. (u, refl, ground arith, ground arith),
  λ (v, e, low, high). let same : u ≡ v = cc in rw same (ground arith),
)

master_within_iff :
    (values : List ℕ) (c : ModeMasterCondition) (o : Option ChannelFunctionActivation)
    → (master_within values c o ≡ true)
      ↔ ((m : ChannelFunctionActivation) × (o ≡ some m) × IsWithin values m.source_id c.from c.to)
unfolding master_within
master_within_iff values c none = (λ h. cc, λ (m, e, w). cc)
master_within_iff values c (some m) =
    let at = is_within_iff (source_value values m.source_id) c.from c.to in
    (λ h. (m, refl, at.0 h), λ (n, e, w). let same : m ≡ n = cc in at.1 (rw same w))

master_of :
    (functions : Functions) (values : List ℕ) (c : ModeMasterCondition) (j : ℕ)
    → master_within values c (get_elem? functions j) ≡ true
    → HasMaster functions values c j
master_of functions values c j h =
    let (m, e, w) = (master_within_iff values c (get_elem? functions j)).0 h in
    record { master = m; at = e; within = w }

pub of_master :
    (functions : Functions) (values : List ℕ) (c : ModeMasterCondition) (j : ℕ)
    → HasMaster functions values c j
    → master_within values c (get_elem? functions j) ≡ true
of_master functions values c j m =
    (master_within_iff values c (get_elem? functions j)).1 (m.master, m.at, m.within)

-- The condition of a function that is open, by the kind of its target.
condition-IsActive :
    (functions : Functions) (values : List ℕ) (i : ℕ) (f : ChannelFunctionActivation)
    (active : ℕ → Bool) (kind : ModeMasterTargetKind)
    → ((j : ℕ) → active j ≡ true → IsActive functions values j)
    → IsOpen functions values i f
    → f.mode_master.target_kind ≡ kind
    → condition_holds functions values f.mode_master kind active ≡ true
    → IsActive functions values i
unfolding condition_holds
condition-IsActive functions values i f active unconditional rec o k h = IsActive.alone f o k
condition-IsActive functions values i f active invalid rec o k h = cc
condition-IsActive functions values i f active dmx_channel rec o k h = IsActive.by_channel f o k (
    master_of functions values f.mode_master (find_index functions f.mode_master.master_program_id)
      h)
condition-IsActive functions values i f active channel_function rec o k h =
    let j = find_index functions f.mode_master.target_id in
    let both : (master_within values f.mode_master (get_elem? functions j) ≡ true)
        × (active j ≡ true) =
      ground arith in
    IsActive.by_function f j o k refl (master_of functions values f.mode_master j both.0)
      (rec j both.1)

function-IsActive :
    (functions : Functions) (values : List ℕ) (i : ℕ) (active : ℕ → Bool)
    (o : Option ChannelFunctionActivation)
    → ((j : ℕ) → active j ≡ true → IsActive functions values j)
    → get_elem? functions i ≡ o
    → function_holds functions values o active ≡ true
    → IsActive functions values i
unfolding function_holds
function-IsActive functions values i active none rec e h = cc
function-IsActive functions values i active (some f) rec e h =
    let own : is_within (source_value values f.source_id) f.dmx_from f.dmx_to ≡ true =
      ground arith in
    let valid : f.mode_master.valid ≡ true = ground arith in
    let holds : condition_holds functions values f.mode_master f.mode_master.target_kind active
        ≡ true =
      ground arith in
    condition-IsActive functions values i f active f.mode_master.target_kind rec
      (record {
        at = e;
        own = (is_within_iff (source_value values f.source_id) f.dmx_from f.dmx_to).0 own;
        valid = valid;
      })
      refl holds

pub evaluate-IsActive :
    (left : ℕ) (functions : Functions) (values : List ℕ) (i : ℕ)
    → evaluate left functions values i ≡ true
    → IsActive functions values i
unfolding evaluate
evaluate-IsActive zero functions values i h = cc
evaluate-IsActive (suc left) functions values i h =
    function-IsActive functions values i (λ j. evaluate left functions values j)
      (get_elem? functions i) (λ j k. evaluate-IsActive left functions values j k) refl h
