-- ===== src/Dmx/Subscription/Build.antt =====
-- What native/src/dmx/realtime_subscription.cpp compiles from the offsets of a scene.
use peraviz.Prelude.{
  ℕ, zero, suc, ◌<◌, ◌≡◌, ◌↔◌, ◌⊎◌, inl, inr, Bool, true, false, not, ◌&&◌, List, [], ◌∷◌, arith,
  ltb, ◌==◌, if◌then◌else◌, Bool-cases, sort_iff, sort-IsSorted, IsSorted, Elem, Distinct,
  Distinct-snoc, Elem-append, Elem-append_left, Elem-append_right,
}
use peraviz.Dmx.Frame.{dmx_slot_count, art_net_universe_count}
use peraviz.Dmx.Subscription.{
  OffsetMask, RealtimeSubscription, any_below, set_bit, set_offsets, use_universe, keep_mask,
  add_entry, add_entries, empty_subscription, build, contains, offsets,
}

-- Some entry for `universe` names `offset`.
abbrev pub Names : List (ℕ × List ℕ) → ℕ → ℕ → Type 0
Names [] universe offset = ⊥
Names ((u, os) ∷ rest) universe offset =
    ((u ≡ universe) × Elem offset os) ⊎ Names rest universe offset

set_offsets_iff :
    (os : List ℕ) (mask : OffsetMask) (o : ℕ)
    → (set_offsets mask os o ≡ true) ↔ ((mask o ≡ true) ⊎ ((o < 512) × Elem o os))
unfolding set_offsets
set_offsets_iff [] mask o = ground arith
set_offsets_iff (x ∷ os) mask o =
    ground (arith, set_offsets_iff os (if ltb x dmx_slot_count then set_bit mask x else mask) o)

add_entry-masks :
    (r : RealtimeSubscription) (u : ℕ) (os : List ℕ) (v o : ℕ)
    → v < 32768
    → ((add_entry r u os).masks v o ≡ true)
      ↔ ((r.masks v o ≡ true) ⊎ ((u ≡ v) × (o < 512) × Elem o os))
unfolding add_entry use_universe keep_mask
add_entry-masks r u os v o h = ground (arith, set_offsets_iff os (r.masks u) o)

add_entries-masks :
    (es : List (ℕ × List ℕ)) (r : RealtimeSubscription) (v o : ℕ)
    → v < 32768
    → ((add_entries r es).masks v o ≡ true) ↔ ((r.masks v o ≡ true) ⊎ ((o < 512) × Names es v o))
unfolding add_entries
add_entries-masks [] r v o h = ground arith
add_entries-masks ((u, os) ∷ es) r v o h =
    let first = add_entry-masks r u os v o h in
    let later = add_entries-masks es (add_entry r u os) v o h in
    (
      (λ m. elim (later.0 m) [
        | inl m' ↦ elim (first.0 m') [ inl old ↦ inl old | inr (e, lt, at) ↦ inr (lt, inl (e, at)) ]
        | inr (lt, named) ↦ inr (lt, inr named)
      ]),
      (λ m. elim m [
        | inl old ↦ later.1 (inl (first.1 (inl old)))
        | inr (lt, inl (e, at)) ↦ later.1 (inl (first.1 (inr (e, lt, at))))
        | inr (lt, inr named) ↦ later.1 (inr (lt, named))
      ]),
    )

any_below_some : (n : ℕ) (p : ℕ → Bool) → any_below n p ≡ true → (o : ℕ) × (o < n) × (p o ≡ true)
unfolding any_below
any_below_some zero p h = cc h
any_below_some (suc n) p h = elim (Bool-cases (p n)) [
  | inl e ↦ (n, omega arith, e)
  | inr e ↦ let (o, lt, at) = any_below_some n p (ground arith) in (o, omega arith, at)
]

any_below_of : (n : ℕ) (p : ℕ → Bool) (o : ℕ) → o < n → p o ≡ true → any_below n p ≡ true
unfolding any_below
any_below_of zero p o lt at = absurd (omega arith)
any_below_of (suc n) p o lt at = ground (arith, any_below_of n p o)

-- The universes of a half-built subscription are those with a bit set.
record IsConsistent (r : RealtimeSubscription) : Type 0 where
  marked : (v : ℕ) → v < 32768 → any_below 512 (r.masks v) ≡ true → r.used v ≡ true
  backed : (v : ℕ) → r.used v ≡ true → (v < 32768) × (any_below 512 (r.masks v) ≡ true)
  listed : (v : ℕ) → (Elem v r.universes) ↔ (r.used v ≡ true)
  distinct : Distinct r.universes

any-grows :
    (r : RealtimeSubscription) (u : ℕ) (os : List ℕ) (v : ℕ)
    → v < 32768
    → any_below 512 (r.masks v) ≡ true
    → any_below 512 ((add_entry r u os).masks v) ≡ true
any-grows r u os v h any =
    let (o, lt, at) = any_below_some 512 (r.masks v) any in
    any_below_of 512 _ o lt ((add_entry-masks r u os v o h).1 (inl at))

use_universe-IsConsistent :
    (r : RealtimeSubscription) (u : ℕ) (mask : OffsetMask)
    → u < 32768
    → any_below 512 mask ≡ true
    → r.used u ≡ false
    → IsConsistent r
    → IsConsistent (use_universe r u mask)
unfolding use_universe
use_universe-IsConsistent r u mask h any fresh c = record {
  marked = λ v lt e. elim (Bool-cases (v == u)) [
    | inl at ↦ rw at
    | inr off ↦ rw off (c.marked v lt (rw off at e))
  ];
  backed = λ v e. elim (Bool-cases (v == u)) [
    | inl at ↦ rw at (ground arith, any)
    | inr off ↦ rw off (c.backed v (rw off at e))
  ];
  listed = λ v. (
    λ m. elim (Elem-append v r.universes (u ∷ []) m) [
      | inl old ↦ ground (arith, (c.listed v).0 old)
      | inr (inl e) ↦ ground arith
      | inr (inr n) ↦ absurd n
    ],
    λ e. elim (Bool-cases (v == u)) [
      | inl at ↦ Elem-append_right v r.universes (u ∷ []) (inl (ground arith))
      | inr off ↦ Elem-append_left v r.universes (u ∷ []) ((c.listed v).1 (rw off at e))
    ],
  );
  distinct = Distinct-snoc u r.universes c.distinct (λ m. cc ((c.listed u).0 m, fresh));
}

keep_mask-IsConsistent :
    (r : RealtimeSubscription) (u : ℕ) (mask : OffsetMask)
    → u < 32768
    → (any_below 512 mask ≡ true → r.used u ≡ true)
    → (any_below 512 (r.masks u) ≡ true → any_below 512 mask ≡ true)
    → IsConsistent r
    → IsConsistent (keep_mask r u mask)
unfolding keep_mask
keep_mask-IsConsistent r u mask h old grows c = record {
  marked = λ v lt e. elim (Bool-cases (v == u)) [
    | inl at ↦ let same : v ≡ u = ground arith in rw same (old (rw at at e))
    | inr off ↦ c.marked v lt (rw off at e)
  ];
  backed = λ v e. elim (Bool-cases (v == u)) [
    | inl at ↦
        let same : u ≡ v = ground arith in rw at (ground arith, grows (rw same (c.backed v e).1))
    | inr off ↦ rw off (c.backed v e)
  ];
  listed = c.listed;
  distinct = c.distinct;
}

mask-grows :
    (mask : OffsetMask) (os : List ℕ)
    → any_below 512 mask ≡ true
    → any_below 512 (set_offsets mask os) ≡ true
mask-grows mask os any =
    let (o, lt, at) = any_below_some 512 mask any in
    any_below_of 512 _ o lt ((set_offsets_iff os mask o).1 (inl at))

add_entry-IsConsistent :
    (r : RealtimeSubscription) (u : ℕ) (os : List ℕ)
    → IsConsistent r
    → IsConsistent (add_entry r u os)
unfolding add_entry
add_entry-IsConsistent r u os c = elim (Bool-cases (ltb u art_net_universe_count)) [
  | inr out ↦ rw out c
  | inl inside ↦
      elim (Bool-cases (any_below dmx_slot_count (set_offsets (r.masks u) os) && not (r.used u))) [
        | inl new ↦
            rw (inside, new)
              (use_universe-IsConsistent r u (set_offsets (r.masks u) os) (ground arith)
                (ground arith) (ground arith) c)
        | inr old ↦
            rw (inside, old)
              (keep_mask-IsConsistent r u (set_offsets (r.masks u) os) (ground arith)
                (λ any. ground arith) (mask-grows (r.masks u) os) c)
      ]
]

add_entries-IsConsistent :
    (es : List (ℕ × List ℕ)) (r : RealtimeSubscription)
    → IsConsistent r
    → IsConsistent (add_entries r es)
unfolding add_entries
add_entries-IsConsistent [] r c = c
add_entries-IsConsistent ((u, os) ∷ es) r c =
    add_entries-IsConsistent es (add_entry r u os) (add_entry-IsConsistent r u os c)

empty-IsConsistent : IsConsistent empty_subscription
empty-IsConsistent = record {
  marked = λ v lt e. absurd (none_set 512 e);
  backed = λ v e. cc e;
  listed = λ v. ((λ m. absurd m), λ e. cc e);
  distinct = tt;
}
  where
    none_set : (n : ℕ) → any_below n (λ o. false) ≡ true → ⊥
    none_set n e = let (o, lt, at) = any_below_some n (λ o. false) e in cc at

masks_iff :
    (es : List (ℕ × List ℕ)) (u o : ℕ)
    → u < 32768
    → ((add_entries empty_subscription es).masks u o ≡ true) ↔ ((o < 512) × Names es u o)
masks_iff es u o h =
    let all = add_entries-masks es empty_subscription u o h in
    ((λ e. elim (all.0 e) [ inl old ↦ cc old | inr m ↦ m ]), λ m. all.1 (inr m))

-- What `build` compiles from the offsets of the scene's universes: a slot is relevant exactly when
-- its universe is below 32768, it is below 512 and some entry of the universe names it.
pub offsets-build :
    (es : List (ℕ × List ℕ)) (u o : ℕ)
    → (offsets (build es) u o ≡ true) ↔ ((u < 32768) × (o < 512) × Names es u o)
unfolding offsets build
offsets-build es u o = elim (Bool-cases (ltb u art_net_universe_count)) [
  | inl inside ↦
      let h : u < 32768 = ground arith in
      rw inside (
        (λ e. let (lt, named) = (masks_iff es u o h).0 e in (h, lt, named)),
        λ m. (masks_iff es u o h).1 (m.1, m.2),
      )
  | inr out ↦ rw out ((λ e. cc e), λ m. absurd (ground arith))
]

contains_iff :
    (es : List (ℕ × List ℕ)) (u : ℕ)
    → (contains (build es) u ≡ true)
      ↔ ((u < 32768) × ((add_entries empty_subscription es).used u ≡ true))
unfolding contains build
contains_iff es u = ground arith

-- A universe is subscribed exactly when one of its slots is relevant, and the list of subscribed
-- universes is in strictly ascending order and holds exactly these.
pub contains-build :
    (es : List (ℕ × List ℕ)) (u : ℕ)
    → ((contains (build es) u ≡ true) ↔ ((o : ℕ) × (offsets (build es) u o ≡ true)))
      × ((Elem u (build es).universes) ↔ (contains (build es) u ≡ true))
      × IsSorted (build es).universes
unfolding build
contains-build es u =
    let c = add_entries-IsConsistent es empty_subscription empty-IsConsistent in
    let r = add_entries empty_subscription es in
    let marks = contains_iff es u in
    (
      (
        (λ e.
            let (h, used) = marks.0 e in
            let (o, lt, at) = any_below_some 512 (r.masks u) (c.backed u used).1 in
            (
              o,
              (offsets-build es u o).1
                  (h, ((masks_iff es u o h).0 at).0, ((masks_iff es u o h).0 at).1),
            )),
        λ m.
            let (h, lt, named) = (offsets-build es u m.0).0 m.1 in
            marks.1 (
              h,
              c.marked u h
                  (any_below_of 512 (r.masks u) m.0 lt ((masks_iff es u m.0 h).1 (lt, named))),
            ),
      ),
      (
        (λ m.
            let used = (c.listed u).0 ((sort_iff u r.universes).0 m) in
            marks.1 ((c.backed u used).0, used)),
        λ e. (sort_iff u r.universes).1 ((c.listed u).1 (marks.0 e).1),
      ),
      sort-IsSorted r.universes c.distinct,
    )
