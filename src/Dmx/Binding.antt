-- ===== src/Dmx/Binding.antt =====
-- native/src/dmx/fixture_dmx_binding.h and .cpp: which channels of which universe control a fixture.
-- A number that is not positive, or an index of -1, is 0 or none here; `int` sums do not overflow.
-- The resolver of GDTF offsets, what it says of a wheel or a fixture beside the offsets, and the
-- leases of its cache are parameters.
pub mod Fixtures
pub mod Zoom
pub mod Placed
pub mod Bound
use peraviz.Prelude.{
  ℕ, zero, suc, ◌+◌, ◌-◌, Bool, true, false, not, ◌&&◌, ◌||◌, ◌==◌, ltb, leb, if◌then◌else◌, Option,
  none, some, List, [], ◌∷◌, ◌++◌, ℤ, pos, negsuc, map, same_text,
}

pub record FixturePatch : Type 0 where
  pub fixture_uuid : List ℕ
  pub mvr_universe : ℕ
  pub mvr_address : ℕ
  pub dmx_mode : List ℕ
  pub gdtf_path : List ℕ

pub record FixtureAttributeChannel : Type 0 where
  pub coarse : Option ℕ
  pub fine : Option ℕ
  pub ultra_fine : Option ℕ

-- The three offsets of an attribute, from 1.
pub record ChannelOffsets : Type 0 where
  pub coarse_offset : ℕ
  pub fine_offset : ℕ
  pub ultra_fine_offset : ℕ

-- The names of the channels of a binding.
pub data Attribute : Type 0 where
  dimmer pan tilt zoom cyan magenta yellow strobe prism prism_index prism_rotation : Attribute
  color_wheel color_wheel_rotation animation_wheel animation_wheel_rotation : Attribute
  gobo gobo_index gobo_rotation : Attribute

-- `W` is what a wheel has beside its channels, and `D` a fixture beside its channels and wheels.
pub record FixtureGoboWheelOffset (W : Type 0) : Type 0 where
  pub channel_offsets : ChannelOffsets
  pub index_offsets : ChannelOffsets
  pub rotation_offsets : ChannelOffsets
  pub details : W

pub record FixtureControlOffsets (W D : Type 0) : Type 0 where
  pub asset_cache_lease : Option ℕ
  pub warnings : List (List ℕ)
  pub offsets : Attribute → ChannelOffsets
  pub gobo_wheels : List (FixtureGoboWheelOffset W)
  pub details : D

pub record FixtureGoboWheelBinding (W : Type 0) : Type 0 where
  pub channel : FixtureAttributeChannel
  pub index_channel : FixtureAttributeChannel
  pub rotation_channel : FixtureAttributeChannel
  pub details : W

pub record FixtureControlBinding (W D : Type 0) : Type 0 where
  pub fixture_uuid : List ℕ
  pub dmx_mode : List ℕ
  pub gdtf_path : List ℕ
  pub artnet_universe_id : ℤ
  pub channels : Attribute → FixtureAttributeChannel
  pub gobo_wheels : List (FixtureGoboWheelBinding W)
  pub details : D

-- The reasons by their texts; the last one is what the resolver says.
pub data Reason : Type 0 where
  invalid_patch missing_mode missing_gdtf out_of_range : Reason
  not_resolved : List ℕ → Reason

pub record FixtureBindingBuildResult (W D : Type 0) : Type 0 where
  pub bindings : List (FixtureControlBinding W D)
  pub unbound : List (List ℕ × Reason)
  pub warnings : List (List ℕ × List ℕ)
  pub asset_cache_leases : List ℕ

unfoldable pub to_channel_index_0 : FixturePatch → ℕ → Option ℕ
to_channel_index_0 patch offset =
    if offset == 0 then none else some (patch.mvr_address - 1 + (offset - 1))

abbrev pub is_valid_channel_index : Option ℕ → Bool
is_valid_channel_index none = false
is_valid_channel_index (some i) = ltb i 512

unfoldable pub to_channel_binding : FixturePatch → ChannelOffsets → FixtureAttributeChannel
to_channel_binding patch offsets = record {
  coarse = to_channel_index_0 patch offsets.coarse_offset;
  fine = to_channel_index_0 patch offsets.fine_offset;
  ultra_fine = to_channel_index_0 patch offsets.ultra_fine_offset;
}

unfoldable pub valid_or_none : Option ℕ → Option ℕ
valid_or_none none = none
valid_or_none (some i) = if ltb i 512 then some i else none

-- The coarse channel stays as it is.
unfoldable pub sanitize_channel_binding : FixtureAttributeChannel → FixtureAttributeChannel
sanitize_channel_binding channel = record channel {
  fine = valid_or_none channel.fine;
  ultra_fine = valid_or_none channel.ultra_fine;
}

unfoldable pub valid_index : Option ℕ → List ℕ
valid_index none = []
valid_index (some i) = if ltb i 512 then i ∷ [] else []

-- The set as a list.
unfoldable pub collect_channel_indices : FixtureAttributeChannel → List ℕ
collect_channel_indices channel =
    valid_index channel.coarse ++ (valid_index channel.fine ++ valid_index channel.ultra_fine)

unfoldable pub has_index : List ℕ → ℕ → Bool
has_index [] i = false
has_index (j ∷ indices) i = j == i || has_index indices i

-- `find` of an index.
abbrev pub is_taken : List ℕ → Option ℕ → Bool
is_taken indices none = false
is_taken indices (some i) = has_index indices i

abbrev pub no_channel : FixtureAttributeChannel
no_channel = record { coarse = none; fine = none; ultra_fine = none }

unfoldable pub reserved_zoom : List ℕ → FixtureAttributeChannel → FixtureAttributeChannel
reserved_zoom indices channel =
    if is_taken indices channel.coarse then no_channel else (record channel {
      fine = if is_taken indices channel.fine then none else channel.fine;
      ultra_fine = if is_taken indices channel.ultra_fine then none else channel.ultra_fine;
    })

-- A write to `binding.zoom`.
abbrev pub set_zoom :
    (Attribute → FixtureAttributeChannel)
    → FixtureAttributeChannel
    → Attribute
    → FixtureAttributeChannel
set_zoom channels channel Attribute.dimmer = channels Attribute.dimmer
set_zoom channels channel Attribute.pan = channels Attribute.pan
set_zoom channels channel Attribute.tilt = channels Attribute.tilt
set_zoom channels channel Attribute.zoom = channel
set_zoom channels channel Attribute.cyan = channels Attribute.cyan
set_zoom channels channel Attribute.magenta = channels Attribute.magenta
set_zoom channels channel Attribute.yellow = channels Attribute.yellow
set_zoom channels channel Attribute.strobe = channels Attribute.strobe
set_zoom channels channel Attribute.prism = channels Attribute.prism
set_zoom channels channel Attribute.prism_index = channels Attribute.prism_index
set_zoom channels channel Attribute.prism_rotation = channels Attribute.prism_rotation
set_zoom channels channel Attribute.color_wheel = channels Attribute.color_wheel
set_zoom channels channel Attribute.color_wheel_rotation = channels Attribute.color_wheel_rotation
set_zoom channels channel Attribute.animation_wheel = channels Attribute.animation_wheel
set_zoom channels channel Attribute.animation_wheel_rotation =
    channels Attribute.animation_wheel_rotation
set_zoom channels channel Attribute.gobo = channels Attribute.gobo
set_zoom channels channel Attribute.gobo_index = channels Attribute.gobo_index
set_zoom channels channel Attribute.gobo_rotation = channels Attribute.gobo_rotation
