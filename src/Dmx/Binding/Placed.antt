-- ===== src/Dmx/Binding/Placed.antt =====
-- native/src/dmx/fixture_dmx_binding.cpp: where the channels of a binding lie.
use peraviz.Prelude.{
  ℕ, ◌+◌, ◌-◌, ◌≤◌, ◌<◌, ◌≡◌, ◌≢◌, refl, true, false, ◌==◌, ltb, if-elim, Bool-cases, Option, none,
  some, List, [], ◌∷◌, arith, ◌⊎◌, inl, inr, Elem,
}
use peraviz.Dmx.Binding.{
  FixturePatch, FixtureAttributeChannel, ChannelOffsets, Attribute, FixtureGoboWheelBinding,
  FixtureControlBinding, to_channel_index_0, to_channel_binding, is_valid_channel_index,
  valid_or_none, sanitize_channel_binding, set_zoom, reserved_zoom, is_taken, no_channel,
}
use peraviz.Dmx.Binding.Fixtures.{checked_attributes, any_attribute, any_wheel, is_bound}

-- A channel that is there is the one at the offset, from 1, of a fixture with the address, from 1.
abbrev pub IsAt : ℕ → ℕ → Option ℕ → Type 0
IsAt address offset o = (i : ℕ) → o ≡ some i → (1 ≤ offset) × (i + 2 ≡ address + offset)

abbrev pub IsPlaced : ℕ → ChannelOffsets → FixtureAttributeChannel → Type 0
IsPlaced address offsets c =
    IsAt address offsets.coarse_offset c.coarse
    × (IsAt address offsets.fine_offset c.fine
        × IsAt address offsets.ultra_fine_offset c.ultra_fine)

-- The coarse channel of an attribute that has one.
abbrev pub IsThere : ℕ → ChannelOffsets → FixtureAttributeChannel → Type 0
IsThere address offsets c =
    1 ≤ offsets.coarse_offset
    → (i : ℕ) × (c.coarse ≡ some i) × (i + 2 ≡ address + offsets.coarse_offset)

to_channel_index_0_lem :
    (patch : FixturePatch) (offset : ℕ)
    → 1 ≤ patch.mvr_address
    → IsAt patch.mvr_address offset (to_channel_index_0 patch offset)
unfolding to_channel_index_0
to_channel_index_0_lem patch offset h i e = elim (Bool-cases (offset == 0)) [
  | inl zero_offset ↦ cc (rw zero_offset at e)
  | inr t ↦
      let same : patch.mvr_address - 1 + (offset - 1) ≡ i = ground arith in
      let positive : 1 ≤ offset = ground arith in (positive, omega (arith, same, positive, h))
]

to_channel_binding-IsPlaced :
    (patch : FixturePatch) (offsets : ChannelOffsets)
    → 1 ≤ patch.mvr_address
    → IsPlaced patch.mvr_address offsets (to_channel_binding patch offsets)
unfolding to_channel_binding
to_channel_binding-IsPlaced patch offsets h = (
  to_channel_index_0_lem patch offsets.coarse_offset h,
  (
    to_channel_index_0_lem patch offsets.fine_offset h,
    to_channel_index_0_lem patch offsets.ultra_fine_offset h,
  ),
)

to_channel_binding-IsThere :
    (patch : FixturePatch) (offsets : ChannelOffsets)
    → 1 ≤ patch.mvr_address
    → IsThere patch.mvr_address offsets
        (sanitize_channel_binding (to_channel_binding patch offsets))
unfolding to_channel_binding to_channel_index_0 sanitize_channel_binding
to_channel_binding-IsThere patch offsets h positive =
    let there : (offsets.coarse_offset == 0) ≡ false = ground arith in
    (patch.mvr_address - 1 + (offsets.coarse_offset - 1), rw there refl, omega (arith, h, positive))

valid_or_none-IsAt :
    (address offset : ℕ) (o : Option ℕ)
    → IsAt address offset o
    → IsAt address offset (valid_or_none o)
unfolding valid_or_none
valid_or_none-IsAt address offset none h = h
valid_or_none-IsAt address offset (some j) h =
    if-elim (IsAt address offset) (ltb j 512) (some j) none (λ t. h) (λ t i e. cc)

sanitize-IsPlaced :
    (address : ℕ) (offsets : ChannelOffsets) (c : FixtureAttributeChannel)
    → IsPlaced address offsets c
    → IsPlaced address offsets (sanitize_channel_binding c)
unfolding sanitize_channel_binding
sanitize-IsPlaced address offsets c (coarse, (fine, ultra_fine)) = (
  coarse,
  (valid_or_none-IsAt address _ c.fine fine, valid_or_none-IsAt address _ c.ultra_fine ultra_fine),
)

reserved_zoom-IsPlaced :
    (address : ℕ) (offsets : ChannelOffsets) (indices : List ℕ) (c : FixtureAttributeChannel)
    → IsPlaced address offsets c
    → IsPlaced address offsets (reserved_zoom indices c)
unfolding reserved_zoom
reserved_zoom-IsPlaced address offsets indices c (coarse, (fine, ultra_fine)) =
    if-elim (IsPlaced address offsets) (is_taken indices c.coarse) no_channel _
      (λ t. ((λ i e. cc), ((λ i e. cc), (λ i e. cc))))
      (λ t. (
        coarse,
        (
          if-elim (IsAt address offsets.fine_offset) (is_taken indices c.fine) none c.fine
              (λ t i e. cc) (λ t. fine),
          if-elim (IsAt address offsets.ultra_fine_offset) (is_taken indices c.ultra_fine) none
              c.ultra_fine (λ t i e. cc) (λ t. ultra_fine),
        ),
      ))

-- A write to the zoom changes the zoom only.
set_zoom_cases :
    (channels : Attribute → FixtureAttributeChannel) (c : FixtureAttributeChannel)
    (P : Attribute → FixtureAttributeChannel → Type 0)
    → ((a : Attribute) → a ≢ Attribute.zoom → P a (channels a))
    → P Attribute.zoom c
    → (a : Attribute) → P a (set_zoom channels c a)
set_zoom_cases channels c P others zoom Attribute.dimmer = others Attribute.dimmer (λ e. cc)
set_zoom_cases channels c P others zoom Attribute.pan = others Attribute.pan (λ e. cc)
set_zoom_cases channels c P others zoom Attribute.tilt = others Attribute.tilt (λ e. cc)
set_zoom_cases channels c P others zoom Attribute.zoom = zoom
set_zoom_cases channels c P others zoom Attribute.cyan = others Attribute.cyan (λ e. cc)
set_zoom_cases channels c P others zoom Attribute.magenta = others Attribute.magenta (λ e. cc)
set_zoom_cases channels c P others zoom Attribute.yellow = others Attribute.yellow (λ e. cc)
set_zoom_cases channels c P others zoom Attribute.strobe = others Attribute.strobe (λ e. cc)
set_zoom_cases channels c P others zoom Attribute.prism = others Attribute.prism (λ e. cc)
set_zoom_cases channels c P others zoom Attribute.prism_index =
    others Attribute.prism_index (λ e. cc)
set_zoom_cases channels c P others zoom Attribute.prism_rotation =
    others Attribute.prism_rotation (λ e. cc)
set_zoom_cases channels c P others zoom Attribute.color_wheel =
    others Attribute.color_wheel (λ e. cc)
set_zoom_cases channels c P others zoom Attribute.color_wheel_rotation =
    others Attribute.color_wheel_rotation (λ e. cc)
set_zoom_cases channels c P others zoom Attribute.animation_wheel =
    others Attribute.animation_wheel (λ e. cc)
set_zoom_cases channels c P others zoom Attribute.animation_wheel_rotation =
    others Attribute.animation_wheel_rotation (λ e. cc)
set_zoom_cases channels c P others zoom Attribute.gobo = others Attribute.gobo (λ e. cc)
set_zoom_cases channels c P others zoom Attribute.gobo_index = others Attribute.gobo_index (λ e. cc)
set_zoom_cases channels c P others zoom Attribute.gobo_rotation =
    others Attribute.gobo_rotation (λ e. cc)

pub reserved-IsPlaced :
    (patch : FixturePatch) (offsets : Attribute → ChannelOffsets) (indices : List ℕ)
    → 1 ≤ patch.mvr_address
    → let raw = (λ (a : Attribute). to_channel_binding patch (offsets a)) in
      (a : Attribute)
      → IsPlaced patch.mvr_address
          (offsets a)
          (sanitize_channel_binding (set_zoom raw (reserved_zoom indices (raw Attribute.zoom)) a))
reserved-IsPlaced patch offsets indices h =
    let placed = λ (a : Attribute). to_channel_binding-IsPlaced patch (offsets a) h in
    set_zoom_cases _ _ (λ a c. IsPlaced patch.mvr_address (offsets a) (sanitize_channel_binding c))
      (λ a other. sanitize-IsPlaced _ _ _ (placed a))
      (sanitize-IsPlaced _ _ _ (reserved_zoom-IsPlaced _ _ indices _ (placed Attribute.zoom)))

pub reserved-IsThere :
    (patch : FixturePatch) (offsets : Attribute → ChannelOffsets) (zoom : FixtureAttributeChannel)
    → 1 ≤ patch.mvr_address
    → let raw = (λ (a : Attribute). to_channel_binding patch (offsets a)) in
      (a : Attribute)
      → a ≢ Attribute.zoom
      → IsThere patch.mvr_address (offsets a) (sanitize_channel_binding (set_zoom raw zoom a))
reserved-IsThere patch offsets zoom h =
    set_zoom_cases _ zoom
      (λ a c.
        a ≢ Attribute.zoom → IsThere patch.mvr_address (offsets a) (sanitize_channel_binding c))
      (λ a other n. to_channel_binding-IsThere patch (offsets a) h) (λ n. absurd (n refl))

-- A coarse channel in the universe.
abbrev pub IsUsable : Option ℕ → Type 0
IsUsable o = (i : ℕ) × (o ≡ some i) × (i < 512)

valid-IsUsable : (o : Option ℕ) → is_valid_channel_index o ≡ true → IsUsable o
valid-IsUsable none h = cc h
valid-IsUsable (some i) h = (i, refl, ground arith)

any_attribute_sound :
    (attributes : List Attribute) (channels : Attribute → FixtureAttributeChannel)
    → any_attribute attributes channels ≡ true
    → (a : Attribute) × Elem a attributes × IsUsable (channels a).coarse
unfolding any_attribute
any_attribute_sound [] channels h = cc h
any_attribute_sound (a ∷ attributes) channels h =
    elim (Bool-cases (is_valid_channel_index (channels a).coarse)) [
      | inl t ↦ (a, inl refl, valid-IsUsable _ t)
      | inr t ↦
          let (b, listed, usable) = any_attribute_sound attributes channels (rw t at h) in
          (b, inr listed, usable)
    ]

any_wheel_sound :
    {W : Type 0} (wheels : List (FixtureGoboWheelBinding W))
    → any_wheel wheels ≡ true
    → (w : FixtureGoboWheelBinding W) × Elem w wheels × IsUsable w.channel.coarse
unfolding any_wheel
any_wheel_sound [] h = cc h
any_wheel_sound (w ∷ wheels) h = elim (Bool-cases (is_valid_channel_index w.channel.coarse)) [
  | inl t ↦ (w, inl refl, valid-IsUsable _ t)
  | inr t ↦ let (v, listed, usable) = any_wheel_sound wheels (rw t at h) in (v, inr listed, usable)
]

-- One of the main attributes, or a wheel, has a coarse channel in the universe.
abbrev pub HasUsable : {W D : Type 0} → FixtureControlBinding W D → Type 0
HasUsable {W} binding =
    ((a : Attribute) × Elem a checked_attributes × IsUsable (binding.channels a).coarse)
    ⊎ ((w : FixtureGoboWheelBinding W) × Elem w binding.gobo_wheels × IsUsable w.channel.coarse)

pub is_bound-HasUsable :
    {W D : Type 0} (binding : FixtureControlBinding W D)
    → is_bound binding ≡ true
    → HasUsable binding
unfolding is_bound
is_bound-HasUsable binding h =
    elim (Bool-cases (any_attribute checked_attributes binding.channels)) [
      | inl t ↦ inl (any_attribute_sound checked_attributes binding.channels t)
      | inr t ↦ inr (any_wheel_sound binding.gobo_wheels (rw t at h))
    ]
