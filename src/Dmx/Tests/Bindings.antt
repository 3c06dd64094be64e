-- ===== src/Dmx/Tests/Bindings.antt =====
-- A fixture at address 10 with a zoom and a gobo wheel that share a channel.
use peraviz.Prelude.{ℕ, none, List, [], ◌∷◌}
use peraviz.Dmx.Binding.{FixturePatch, ChannelOffsets, FixtureGoboWheelOffset}
use peraviz.Dmx.Binding.Fixtures.{Resolution}

abbrev patches : List FixturePatch
patches =
    record {
      fixture_uuid = b'u' ∷ [];
      mvr_universe = 1;
      mvr_address = 10;
      dmx_mode = b'm' ∷ [];
      gdtf_path = b'g' ∷ [];
    }
    ∷ []

abbrev no_offsets : ChannelOffsets
no_offsets = record { coarse_offset = 0; fine_offset = 0; ultra_fine_offset = 0 }

abbrev two_offsets : ChannelOffsets
two_offsets = record { coarse_offset = 3; fine_offset = 4; ultra_fine_offset = 0 }

abbrev wheel : FixtureGoboWheelOffset ℕ
wheel = record {
  channel_offsets = record { coarse_offset = 4; fine_offset = 0; ultra_fine_offset = 0 };
  index_offsets = no_offsets;
  rotation_offsets = no_offsets;
  details = 0;
}

-- All attributes at the offsets 3 and 4.
abbrev resolve_all : List ℕ → List ℕ → Resolution ℕ ℕ
resolve_all path mode = Resolution.resolved (record {
  asset_cache_lease = none;
  warnings = [];
  offsets = λ attribute. two_offsets;
  gobo_wheels = wheel ∷ [];
  details = 0;
})
