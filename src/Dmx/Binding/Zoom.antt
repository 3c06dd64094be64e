-- ===== src/Dmx/Binding/Zoom.antt =====
-- native/src/dmx/fixture_dmx_binding.cpp: which channels its checks leave.
use peraviz.Prelude.{
  ℕ, ◌<◌, ◌≡◌, refl, ap, ◌∙◌, subst, true, false, ltb, if◌then◌else◌, if-elim, Bool-cases, Option,
  none, some, List, [], ◌∷◌, ◌++◌, arith, inl, inr, Elem, map,
}
use peraviz.Dmx.Binding.{
  FixtureAttributeChannel, FixtureGoboWheelBinding, valid_or_none, valid_index,
  sanitize_channel_binding, collect_channel_indices, has_index, is_taken, reserved_zoom,
}
use peraviz.Dmx.Binding.Fixtures.{wheel_indices, sanitize_wheel}

-- An index that is there lies in the universe.
abbrev pub IsInUniverse : Option ℕ → Type 0
IsInUniverse o = (i : ℕ) → o ≡ some i → i < 512

-- An index that is there is not one of some.
abbrev pub IsApart : List ℕ → Option ℕ → Type 0
IsApart indices o = (i : ℕ) → o ≡ some i → ¬ Elem i indices

pub valid_or_none-IsInUniverse : (o : Option ℕ) → IsInUniverse (valid_or_none o)
unfolding valid_or_none
valid_or_none-IsInUniverse none i e = cc
valid_or_none-IsInUniverse (some j) i e = elim (Bool-cases (ltb j 512)) [
  | inl t ↦ let same : j ≡ i = ground arith in subst (λ k. k < 512) same (ground arith)
  | inr t ↦ absurd (ground arith)
]

pub valid_or_none-IsApart :
    (indices : List ℕ) (o : Option ℕ) → IsApart indices o → IsApart indices (valid_or_none o)
unfolding valid_or_none
valid_or_none-IsApart indices none h = λ i e. cc
valid_or_none-IsApart indices (some j) h =
    if-elim (IsApart indices) (ltb j 512) (some j) none (λ t. h) (λ t i e. cc)

valid_index-valid_or_none : (o : Option ℕ) → valid_index (valid_or_none o) ≡ valid_index o
unfolding valid_index valid_or_none
valid_index-valid_or_none none = refl
valid_index-valid_or_none (some i) = elim (Bool-cases (ltb i 512)) [
  | inl t ↦ rw t (rw t refl)
  | inr t ↦ rw t refl
]

collect-sanitize :
    (c : FixtureAttributeChannel)
    → collect_channel_indices (sanitize_channel_binding c) ≡ collect_channel_indices c
unfolding collect_channel_indices sanitize_channel_binding
collect-sanitize c =
    ap (λ l. valid_index c.coarse ++ (l ++ valid_index (valid_or_none c.ultra_fine)))
      (valid_index-valid_or_none c.fine)
    ∙ ap (λ l. valid_index c.coarse ++ (valid_index c.fine ++ l))
        (valid_index-valid_or_none c.ultra_fine)

pub wheel_indices-sanitize :
    {W : Type 0} (wheels : List (FixtureGoboWheelBinding W))
    → wheel_indices (map sanitize_wheel wheels) ≡ wheel_indices wheels
unfolding wheel_indices sanitize_wheel
wheel_indices-sanitize [] = refl
wheel_indices-sanitize (w ∷ wheels) = rw (collect-sanitize w.channel) (
    rw (collect-sanitize w.index_channel)
      (rw (collect-sanitize w.rotation_channel) (rw (wheel_indices-sanitize wheels) refl)))

Elem-has_index : (indices : List ℕ) (i : ℕ) → Elem i indices → has_index indices i ≡ true
unfolding has_index
Elem-has_index [] i m = absurd m
Elem-has_index (j ∷ indices) i (inl e) = ground arith
Elem-has_index (j ∷ indices) i (inr m) = ground (arith, Elem-has_index indices i m)

untaken-IsApart : (indices : List ℕ) (o : Option ℕ) → is_taken indices o ≡ false → IsApart indices o
untaken-IsApart indices none h i e m = cc
untaken-IsApart indices (some j) h i e m =
    let same : i ≡ j = cc in
    let yes = Elem-has_index indices j (subst (λ k. Elem k indices) same m) in cc

kept-IsApart :
    (indices : List ℕ) (o : Option ℕ) → IsApart indices (if is_taken indices o then none else o)
kept-IsApart indices o =
    if-elim (IsApart indices) (is_taken indices o) none o (λ t i e. cc)
      (λ t. untaken-IsApart indices o t)

-- The channels of the zoom that stay are none of the wheels'.
pub record IsZoomApart (indices : List ℕ) (c : FixtureAttributeChannel) : Type 0 where
  pub coarse_apart : IsApart indices c.coarse
  pub fine_apart : IsApart indices c.fine
  pub ultra_fine_apart : IsApart indices c.ultra_fine

pub reserved_zoom-IsZoomApart :
    (indices : List ℕ) (c : FixtureAttributeChannel) → IsZoomApart indices (reserved_zoom indices c)
unfolding reserved_zoom
reserved_zoom-IsZoomApart indices c =
    if-elim (IsZoomApart indices) (is_taken indices c.coarse) _ _
      (λ t. record {
        coarse_apart = λ i e. cc;
        fine_apart = λ i e. cc;
        ultra_fine_apart = λ i e. cc;
      })
      (λ t. record {
        coarse_apart = untaken-IsApart indices c.coarse t;
        fine_apart = kept-IsApart indices c.fine;
        ultra_fine_apart = kept-IsApart indices c.ultra_fine;
      })

pub sanitize-IsZoomApart :
    (indices : List ℕ) (c : FixtureAttributeChannel)
    → IsZoomApart indices c
    → IsZoomApart indices (sanitize_channel_binding c)
unfolding sanitize_channel_binding
sanitize-IsZoomApart indices c h = record {
  coarse_apart = h.coarse_apart;
  fine_apart = valid_or_none-IsApart indices c.fine h.fine_apart;
  ultra_fine_apart = valid_or_none-IsApart indices c.ultra_fine h.ultra_fine_apart;
}
