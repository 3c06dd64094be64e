-- ===== src/Gdtf/Graph/Masters.antt =====
-- The function that a channel function depends on, by what an id is looked up with.
use peraviz.Prelude.{ℕ, ◌≡◌, ap, ◌∙◌, Option, none, some, ℤ, get_elem?}
use peraviz.Gdtf.Conditions.{ModeMasterTargetKind}
use peraviz.Gdtf.Graph.{ChannelFunctionActivation, Functions}

module _ (look_up : ℤ → Option ℕ) where
  abbrev pub next_by : ChannelFunctionActivation → ModeMasterTargetKind → Option ℕ
  next_by f ModeMasterTargetKind.unconditional = none
  next_by f ModeMasterTargetKind.dmx_channel = none
  next_by f ModeMasterTargetKind.invalid = none
  next_by f ModeMasterTargetKind.channel_function = look_up f.mode_master.target_id

  abbrev pub next_of : Option ChannelFunctionActivation → Option ℕ
  next_of none = none
  next_of (some f) = next_by f f.mode_master.target_kind

  abbrev pub next : Functions → ℕ → Option ℕ
  next functions i = next_of (get_elem? functions i)

  pub next_lem :
      (functions : Functions) (i : ℕ) (f : ChannelFunctionActivation) (kind : ModeMasterTargetKind)
      → get_elem? functions i ≡ some f
      → f.mode_master.target_kind ≡ kind
      → next functions i ≡ next_by f kind
  next_lem functions i f kind e k = ap next_of e ∙ ap (next_by f) k
