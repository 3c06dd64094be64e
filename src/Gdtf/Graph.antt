-- ===== src/Gdtf/Graph.antt =====
-- native/src/gdtf_runtime/mode_master.h and .cpp: the check of a table of channel functions, and
-- which of them are active. A function that names a master channel function forms a chain with it.
pub mod Validation
pub mod Activation
pub mod Cascade
pub mod Visits
pub mod Masters
pub mod Accepts
pub mod Verdicts
use peraviz.Prelude.{
  ℕ, zero, suc, ◌+◌, Bool, true, false, not, ◌&&◌, ◌||◌, ◌==◌, ltb, if◌then◌else◌, Option, none,
  some, List, [], ◌∷◌, ℤ, pos, negsuc, length, get_elem?, get_or, set, replicate, ◌>>=◌,
}
use peraviz.Gdtf.Conditions.{ModeMasterTargetKind, ModeMasterCondition}

pub record ChannelFunctionActivation : Type 0 where
  pub function_id : ℤ
  pub source_id : ℤ
  pub dmx_from : ℕ
  pub dmx_to : ℕ
  pub mode_master : ModeMasterCondition

unfoldable pub same_id : ℤ → ℤ → Bool
same_id (pos m) (pos n) = m == n
same_id (pos m) (negsuc n) = false
same_id (negsuc m) (pos n) = false
same_id (negsuc m) (negsuc n) = m == n

-- `functions`, as a list.
abbrev pub Functions : Type 0
Functions = List ChannelFunctionActivation

-- `indexes.find`: the map keeps the last function of an id.
abbrev pub later_or : Option ℕ → Bool → Option ℕ
later_or (some i) here = some (suc i)
later_or none here = if here then some 0 else none

unfoldable pub last_index : Functions → ℤ → Option ℕ
last_index [] id = none
last_index (f ∷ functions) id = later_or (last_index functions id) (same_id f.function_id id)

-- What `validate_mode_master_graph` returns: true, or false with the diagnostic and its function.
pub data Verdict : Type 0 where
  accepted : Verdict
  cycle unresolved : ℤ → Verdict

-- None stands for no result: the fuel is out, or the index is.
abbrev pub Visit : Type 0
Visit = Option (Verdict × List ℕ)

unfoldable pub finish : ℕ → Verdict × List ℕ → Visit
finish index (Verdict.accepted, state) = some (Verdict.accepted, set state index 2)
finish index (Verdict.cycle id, state) = some (Verdict.cycle id, state)
finish index (Verdict.unresolved id, state) = some (Verdict.unresolved id, state)

-- The channel function that the condition names, if the map has it; `visit` goes on there.
unfoldable pub visit_target :
    ChannelFunctionActivation → ℕ → List ℕ → Option ℕ → (ℕ → Visit) → Visit
visit_target f index state none visit = some (Verdict.unresolved f.function_id, state)
visit_target f index state (some target) visit = visit target >>= finish index

unfoldable pub visit_condition :
    Functions → ChannelFunctionActivation → ℕ → List ℕ → ModeMasterTargetKind → (ℕ → Visit) → Visit
visit_condition functions f index state ModeMasterTargetKind.unconditional visit =
    finish index (Verdict.accepted, state)
visit_condition functions f index state ModeMasterTargetKind.dmx_channel visit =
    finish index (Verdict.accepted, state)
visit_condition functions f index state ModeMasterTargetKind.channel_function visit =
    visit_target f index state (last_index functions f.mode_master.target_id) visit
visit_condition functions f index state ModeMasterTargetKind.invalid visit =
    some (Verdict.unresolved f.function_id, state)

unfoldable pub visit_new : Functions → ChannelFunctionActivation → ℕ → List ℕ → (ℕ → Visit) → Visit
visit_new functions f index state visit =
    if f.mode_master.valid
    then visit_condition functions f index state f.mode_master.target_kind visit
    else some (Verdict.unresolved f.function_id, state)

-- The colour of a function: 1 on the way, 2 done. `visit` goes on from the state where it is 1.
unfoldable pub visit_function :
    Functions → Option ChannelFunctionActivation → ℕ → List ℕ → (ℕ → Visit) → Visit
visit_function functions none index state visit = none
visit_function functions (some f) index state visit =
    if get_or state index 0 == 1
    then some (Verdict.cycle f.function_id, state)
    else (if get_or state index 0 == 2
        then some (Verdict.accepted, state)
        else visit_new functions f index (set state index 1) visit)

unfoldable pub visit : ℕ → Functions → List ℕ → ℕ → Visit
visit zero functions state index = none
visit (suc fuel) functions state index =
    visit_function functions (get_elem? functions index) index state
      (λ target. visit fuel functions (set state index 1) target)

abbrev pub go_on : Verdict × List ℕ → (List ℕ → Option Verdict) → Option Verdict
go_on (Verdict.accepted, state) rest = rest state
go_on (Verdict.cycle id, state) rest = some (Verdict.cycle id)
go_on (Verdict.unresolved id, state) rest = some (Verdict.unresolved id)

-- The loop over the functions, from an index on. Each visit has fuel for every function and one more.
unfoldable pub visit_from : ℕ → Functions → ℕ → List ℕ → Option Verdict
visit_from zero functions i state = some Verdict.accepted
visit_from (suc n) functions i state =
    visit (suc (length functions)) functions state i
    >>= (λ result. go_on result (λ state'. visit_from n functions (suc i) state'))

unfoldable pub validate_mode_master_graph : Functions → Option Verdict
validate_mode_master_graph functions =
    visit_from (length functions) functions 0 (replicate (length functions) 0)

-- The first function of an id, or the size of the table.
unfoldable pub find_index : Functions → ℤ → ℕ
find_index [] id = 0
find_index (f ∷ functions) id =
    if same_id f.function_id id then 0 else suc (find_index functions id)

unfoldable pub source_value : List ℕ → ℤ → Option ℕ
source_value values (negsuc n) = none
source_value values (pos i) = get_elem? values i

unfoldable pub is_within : Option ℕ → ℕ → ℕ → Bool
is_within none from to = false
is_within (some value) from to = not (ltb value from || ltb to value)

-- The value of the master's source, against the range of the condition.
unfoldable pub master_within :
    List ℕ → ModeMasterCondition → Option ChannelFunctionActivation → Bool
master_within values condition none = false
master_within values condition (some master) =
    is_within (source_value values master.source_id) condition.from condition.to

-- `master_active` is what the cascade says of the master at an index.
unfoldable pub condition_holds :
    Functions → List ℕ → ModeMasterCondition → ModeMasterTargetKind → (ℕ → Bool) → Bool
condition_holds functions values condition ModeMasterTargetKind.unconditional master_active = true
condition_holds functions values condition ModeMasterTargetKind.invalid master_active = false
condition_holds functions values condition ModeMasterTargetKind.dmx_channel master_active =
    master_within values condition
      (get_elem? functions (find_index functions condition.master_program_id))
condition_holds functions values condition ModeMasterTargetKind.channel_function master_active =
    master_within values condition (get_elem? functions (find_index functions condition.target_id))
    && master_active (find_index functions condition.target_id)

unfoldable pub function_holds :
    Functions → List ℕ → Option ChannelFunctionActivation → (ℕ → Bool) → Bool
function_holds functions values none master_active = false
function_holds functions values (some f) master_active =
    is_within (source_value values f.source_id) f.dmx_from f.dmx_to
    && (f.mode_master.valid
        && condition_holds functions values f.mode_master f.mode_master.target_kind master_active)

-- `evaluate`, with the number of levels that are left: at depth `d` these are `size + 1 - d`.
unfoldable pub evaluate : ℕ → Functions → List ℕ → ℕ → Bool
evaluate zero functions values index = false
evaluate (suc left) functions values index =
    function_holds functions values (get_elem? functions index)
      (λ master. evaluate left functions values master)

unfoldable pub is_channel_function_active : ℤ → Functions → List ℕ → Bool
is_channel_function_active function_id functions values =
    ltb (find_index functions function_id) (length functions)
    && evaluate (suc (length functions)) functions values (find_index functions function_id)
