-- ===== src/Dmx/Binding/Fixtures.antt =====
-- native/src/dmx/fixture_dmx_binding.cpp: `build_fixture_control_bindings`.
use peraviz.Prelude.{
  ℕ, suc, ◌+◌, ◌-◌, Bool, true, false, ◌&&◌, ◌||◌, ◌==◌, ltb, if◌then◌else◌, Option, none, some,
  List, [], ◌∷◌, ◌++◌, ℤ, pos, negsuc, map, same_text,
}
use peraviz.Dmx.Binding.{
  FixturePatch, FixtureAttributeChannel, Attribute, FixtureGoboWheelOffset, FixtureControlOffsets,
  FixtureGoboWheelBinding, FixtureControlBinding, Reason, FixtureBindingBuildResult,
  is_valid_channel_index, to_channel_binding, sanitize_channel_binding, collect_channel_indices,
  set_zoom, reserved_zoom,
}

unfoldable pub add_offset : ℕ → ℤ → ℤ
add_offset n (pos m) = pos (n + m)
add_offset n (negsuc m) = if ltb m n then pos (n - suc m) else negsuc (m - n)

-- Attributes of which one has to have a valid coarse channel, unless a wheel has one.
abbrev pub checked_attributes : List Attribute
checked_attributes =
    Attribute.dimmer ∷ Attribute.pan ∷ Attribute.tilt ∷ Attribute.zoom ∷ Attribute.cyan
    ∷ Attribute.magenta ∷ Attribute.yellow ∷ Attribute.strobe ∷ Attribute.prism
    ∷ Attribute.prism_index ∷ Attribute.prism_rotation ∷ Attribute.color_wheel
    ∷ Attribute.color_wheel_rotation ∷ Attribute.animation_wheel
    ∷ Attribute.animation_wheel_rotation ∷ Attribute.gobo ∷ []

unfoldable pub any_attribute : List Attribute → (Attribute → FixtureAttributeChannel) → Bool
any_attribute [] channels = false
any_attribute (attribute ∷ attributes) channels =
    is_valid_channel_index (channels attribute).coarse || any_attribute attributes channels

unfoldable pub has_warning : List (List ℕ × List ℕ) → List ℕ → List ℕ → Bool
has_warning [] uuid reason = false
has_warning ((u, r) ∷ warnings) uuid reason =
    (same_text r reason && same_text u uuid) || has_warning warnings uuid reason

-- The loop over the warnings of a fixture; one that is there already is left.
unfoldable pub add_warnings :
    List ℕ → List (List ℕ × List ℕ) → List (List ℕ) → List (List ℕ × List ℕ)
add_warnings uuid warnings [] = warnings
add_warnings uuid warnings (reason ∷ reasons) =
    add_warnings uuid
      (if has_warning warnings uuid reason then warnings else warnings ++ (uuid, reason) ∷ [])
      reasons

abbrev pub add_lease : List ℕ → Option ℕ → List ℕ
add_lease leases none = leases
add_lease leases (some lease) = leases ++ lease ∷ []

abbrev pub is_empty : List ℕ → Bool
is_empty [] = true
is_empty (c ∷ text) = false

-- What the resolver returns: true with offsets, or false with its reason.
pub data Resolution (W D : Type 0) : Type 0 where
  resolved : FixtureControlOffsets W D → Resolution W D
  refused : List ℕ → Resolution W D

-- The result and `fixture_lookup`, as an association list.
abbrev pub Built : Type 0 → Type 0 → Type 0
Built W D = FixtureBindingBuildResult W D × List (List ℕ × FixtureControlBinding W D)

module _ {W : Type 0} where
  unfoldable pub wheel_indices : List (FixtureGoboWheelBinding W) → List ℕ
  wheel_indices [] = []
  wheel_indices (wheel ∷ wheels) =
      collect_channel_indices wheel.channel
      ++ (collect_channel_indices wheel.index_channel
          ++ (collect_channel_indices wheel.rotation_channel ++ wheel_indices wheels))

  unfoldable pub bind_wheel : FixturePatch → FixtureGoboWheelOffset W → FixtureGoboWheelBinding W
  bind_wheel patch wheel = record {
    channel = to_channel_binding patch wheel.channel_offsets;
    index_channel = to_channel_binding patch wheel.index_offsets;
    rotation_channel = to_channel_binding patch wheel.rotation_offsets;
    details = wheel.details;
  }

  unfoldable pub any_wheel : List (FixtureGoboWheelBinding W) → Bool
  any_wheel [] = false
  any_wheel (wheel ∷ wheels) = is_valid_channel_index wheel.channel.coarse || any_wheel wheels

  unfoldable pub sanitize_wheel : FixtureGoboWheelBinding W → FixtureGoboWheelBinding W
  sanitize_wheel wheel = record wheel {
    channel = sanitize_channel_binding wheel.channel;
    index_channel = sanitize_channel_binding wheel.index_channel;
    rotation_channel = sanitize_channel_binding wheel.rotation_channel;
  }

module _ {W D : Type 0} where
  -- With no index of a wheel nothing is taken, as at the early return.
  unfoldable pub reserve_gobo_wheel_channels_from_zoom :
      FixtureControlBinding W D → FixtureControlBinding W D
  reserve_gobo_wheel_channels_from_zoom binding = record binding {
    channels =
        set_zoom binding.channels
          (reserved_zoom (wheel_indices binding.gobo_wheels) (binding.channels Attribute.zoom));
  }

  -- The binding before the checks.
  unfoldable pub raw_binding :
      FixturePatch → ℤ → FixtureControlOffsets W D → FixtureControlBinding W D
  raw_binding patch universe_offset offsets = record {
    fixture_uuid = patch.fixture_uuid;
    dmx_mode = patch.dmx_mode;
    gdtf_path = patch.gdtf_path;
    artnet_universe_id = add_offset patch.mvr_universe universe_offset;
    channels = λ attribute. to_channel_binding patch (offsets.offsets attribute);
    gobo_wheels = map (bind_wheel patch) offsets.gobo_wheels;
    details = offsets.details;
  }

  unfoldable pub is_bound : FixtureControlBinding W D → Bool
  is_bound binding =
      any_attribute checked_attributes binding.channels || any_wheel binding.gobo_wheels

  unfoldable pub sanitized : FixtureControlBinding W D → FixtureControlBinding W D
  sanitized binding = record binding {
    channels = λ attribute. sanitize_channel_binding (binding.channels attribute);
    gobo_wheels = map sanitize_wheel binding.gobo_wheels;
  }

  abbrev pub unbind :
      FixtureBindingBuildResult W D → FixturePatch → Reason → FixtureBindingBuildResult W D
  unbind result patch reason = record result {
    unbound = result.unbound ++ (patch.fixture_uuid, reason) ∷ [];
  }

  -- `fixture_lookup[uuid] = binding`.
  unfoldable pub put :
      List (List ℕ × FixtureControlBinding W D)
      → List ℕ
      → FixtureControlBinding W D
      → List (List ℕ × FixtureControlBinding W D)
  put [] uuid binding = (uuid, binding) ∷ []
  put ((u, b) ∷ lookup) uuid binding =
      if same_text u uuid then (u, binding) ∷ lookup else (u, b) ∷ put lookup uuid binding

  unfoldable pub add_binding : Built W D → FixturePatch → FixtureControlBinding W D → Built W D
  add_binding (result, lookup) patch binding =
      let reserved = reserve_gobo_wheel_channels_from_zoom binding in
      if is_bound reserved
      then (
        record result { bindings = result.bindings ++ sanitized reserved ∷ [] },
        put lookup (sanitized reserved).fixture_uuid (sanitized reserved),
      )
      else (unbind result patch Reason.out_of_range, lookup)

  unfoldable pub add_resolved : Built W D → FixturePatch → ℤ → Resolution W D → Built W D
  add_resolved (result, lookup) patch universe_offset (Resolution.refused reason) =
      (unbind result patch (Reason.not_resolved reason), lookup)
  add_resolved (result, lookup) patch universe_offset (Resolution.resolved offsets) =
      add_binding
        (
          record result {
            asset_cache_leases = add_lease result.asset_cache_leases offsets.asset_cache_lease;
            warnings = add_warnings patch.fixture_uuid result.warnings offsets.warnings;
          },
          lookup,
        )
        patch (raw_binding patch universe_offset offsets)

  -- One round of the loop over the patches.
  unfoldable pub add_patch :
      (List ℕ → List ℕ → Resolution W D) → ℤ → Built W D → FixturePatch → Built W D
  add_patch resolve universe_offset (result, lookup) patch =
      if is_empty patch.fixture_uuid
      then (result, lookup)
      else (if patch.mvr_universe == 0 || patch.mvr_address == 0 || ltb 512 patch.mvr_address
          then (unbind result patch Reason.invalid_patch, lookup)
          else (if is_empty patch.dmx_mode
              then (unbind result patch Reason.missing_mode, lookup)
              else (if is_empty patch.gdtf_path
                  then (unbind result patch Reason.missing_gdtf, lookup)
                  else (add_resolved (result, lookup) patch universe_offset
                      (resolve patch.gdtf_path patch.dmx_mode)))))

  unfoldable pub add_patches :
      (List ℕ → List ℕ → Resolution W D) → ℤ → Built W D → List FixturePatch → Built W D
  add_patches resolve universe_offset built [] = built
  add_patches resolve universe_offset built (patch ∷ patches) =
      add_patches resolve universe_offset (add_patch resolve universe_offset built patch) patches

  abbrev pub nothing_built : Built W D
  nothing_built =
      (record { bindings = []; unbound = []; warnings = []; asset_cache_leases = [] }, [])

  unfoldable pub build_fixture_control_bindings :
      (List ℕ → List ℕ → Resolution W D) → List FixturePatch → ℤ → Built W D
  build_fixture_control_bindings resolve patches universe_offset =
      add_patches resolve universe_offset nothing_built patches
