-- ===== src/Dmx/Binding/Bound.antt =====
-- native/src/dmx/fixture_dmx_binding.cpp: what its bindings are made of.
use peraviz.Prelude.{ℕ, ◌+◌, ◌≤◌, ◌≡◌, ◌≢◌, if◌then◌else◌, List, [], ◌∷◌, Elem, length, All}
use peraviz.Dmx.Binding.{
  FixturePatch, FixtureAttributeChannel, Attribute, FixtureControlOffsets, FixtureGoboWheelBinding,
  FixtureControlBinding,
}
use peraviz.Dmx.Binding.Fixtures.{Resolution, Built, wheel_indices, is_empty}
use peraviz.Dmx.Binding.Placed.{IsPlaced, IsThere, HasUsable}
use peraviz.Dmx.Binding.Zoom.{IsInUniverse, IsZoomApart}

-- The fine channels that a binding reads lie in the universe.
abbrev pub IsFine : FixtureAttributeChannel → Type 0
IsFine c = IsInUniverse c.fine × IsInUniverse c.ultra_fine

abbrev pub IsFineWheel : {W : Type 0} → FixtureGoboWheelBinding W → Type 0
IsFineWheel w = IsFine w.channel × (IsFine w.index_channel × IsFine w.rotation_channel)

-- A binding of a patch of the list, and what the checks have left of it.
pub record IsBinding {W D : Type 0} (resolve : List ℕ → List ℕ → Resolution W D)
    (patches : List FixturePatch) (binding : FixtureControlBinding W D) : Type 0 where
  pub patch : FixturePatch
  pub offsets : FixtureControlOffsets W D
  pub listed : Elem patch patches
  pub placed : (1 ≤ patch.mvr_universe) × (1 ≤ patch.mvr_address) × (patch.mvr_address ≤ 512)
  pub found : resolve patch.gdtf_path patch.dmx_mode ≡ Resolution.resolved offsets
  pub named : binding.fixture_uuid ≡ patch.fixture_uuid
  pub usable : HasUsable binding
  pub channels :
      (attribute : Attribute)
      → IsPlaced patch.mvr_address (offsets.offsets attribute) (binding.channels attribute)
  pub coarse :
      (attribute : Attribute)
      → attribute ≢ Attribute.zoom
      → IsThere patch.mvr_address (offsets.offsets attribute) (binding.channels attribute)
  pub fine : (attribute : Attribute) → IsFine (binding.channels attribute)
  pub fine_wheels : All IsFineWheel binding.gobo_wheels
  pub zoom : IsZoomApart (wheel_indices binding.gobo_wheels) (binding.channels Attribute.zoom)

-- What has been built from `n` patches with a UUID.
pub record IsBuilt {W D : Type 0} (resolve : List ℕ → List ℕ → Resolution W D)
    (patches : List FixturePatch) (n : ℕ) (built : Built W D) : Type 0 where
  pub bound : All (IsBinding resolve patches) built.0.bindings
  pub counted : length built.0.bindings + length built.0.unbound ≡ n

abbrev pub named_patches : List FixturePatch → ℕ
named_patches [] = 0
named_patches (patch ∷ patches) =
    (if is_empty patch.fixture_uuid then 0 else 1) + named_patches patches
