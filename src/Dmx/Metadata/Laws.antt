-- ===== src/Dmx/Metadata/Laws.antt =====
-- What native/src/dmx/dmx_network_metadata_cache.cpp reports of the packets it has observed.
use native.Mathlib.Decide.{ℕ_discrete}
use peraviz.Prelude.{
  ℕ, zero, suc, ◌+◌, ◌≤◌, ◌<◌, ◌≡◌, refl, subst, ◌≢◌, ◌↔◌, ◌⊎◌, inl, inr, Bool, true, false, Option,
  none, some, List, [], ◌∷◌, arith, length, set, get_elem?, replicate, length-set,
  get_elem?-set_self, get_elem?-set_ne, length-append, Bool-cases, Elem, Distinct, Distinct-snoc,
  Elem-append, Elem-append_left, Elem-append_right, increment32,
}
use peraviz.Dmx.Frame.{DmxUniverseMetadata}
use peraviz.Dmx.Metadata.{
  Slot, DmxNetworkMetadataCache, new_cache, new_slot, observed, put_new, put, observe, get,
  is_active, active_of, active,
}

-- A packet for a universe outside the table is a fault.
pub observe_fault :
    (c : DmxNetworkMetadataCache) (u n sequence now ip port : ℕ)
    → length c.slots ≤ u
    → observe c u n sequence now ip port ≡ none
unfolding observe
observe_fault c u n sequence now ip port h = rw (outside c.slots u h, observe)
  where
    outside : (xs : List (Option Slot)) (i : ℕ) → length xs ≤ i → get_elem? xs i ≡ none
    outside [] i h = refl
    outside (x ∷ xs) zero h = absurd (omega arith)
    outside (x ∷ xs) (suc i) h = outside xs i (omega arith)

-- The universes that have a slot are listed once, and counted.
pub record IsValid (c : DmxNetworkMetadataCache) : Type 0 where
  pub listed :
      (u : ℕ) → (Elem u c.active_ids) ↔ ((s : Slot) × (get_elem? c.slots u ≡ some (some s)))
  pub distinct : Distinct c.active_ids
  pub counted : c.slot_count ≡ length c.active_ids

get_in_range : {A : Type 0} (xs : List A) (i : ℕ) {a : A} → get_elem? xs i ≡ some a → i < length xs
get_in_range [] i e = cc e
get_in_range (x ∷ xs) zero e = omega arith
get_in_range (x ∷ xs) (suc i) e = omega (arith, get_in_range xs i e)

listed-set :
    (slots : List (Option Slot)) (u v : ℕ) (s : Slot)
    → u < length slots
    → ((s' : Slot) × (get_elem? (set slots u (some s)) v ≡ some (some s')))
      ↔ ((u ≡ v) ⊎ ((s' : Slot) × (get_elem? slots v ≡ some (some s'))))
listed-set slots u v s h = elim (ℕ_discrete u v) [
  | yes e ↦ ((λ _. inl e), λ _. (s, rw (← e, get_elem?-set_self slots u (some s) h)))
  | no ne ↦
      rw (get_elem?-set_ne slots (some s) ne)
        ((λ m. inr m), λ m. elim m [ inl e ↦ absurd (ne e) | inr m' ↦ m' ])
]

new-IsValid :
    (c : DmxNetworkMetadataCache) (u : ℕ) (s : Slot)
    → get_elem? c.slots u ≡ some none
    → IsValid c
    → IsValid (put_new c u s)
new-IsValid c u s e v = record {
  listed = λ w.
      let at = listed-set c.slots u w s (get_in_range c.slots u e) in
      (
        (λ m. elim (Elem-append w c.active_ids (u ∷ []) m) [
          | inl old ↦ at.1 (inr ((v.listed w).0 old))
          | inr (inl e') ↦ at.1 (inl e')
          | inr (inr n) ↦ absurd n
        ]),
        λ m. elim (at.0 m) [
          | inl e' ↦ Elem-append_right w c.active_ids (u ∷ []) (inl e')
          | inr old ↦ Elem-append_left w c.active_ids (u ∷ []) ((v.listed w).1 old)
        ],
      );
  distinct =
      Distinct-snoc u c.active_ids v.distinct (λ m. let (s', at) = (v.listed u).0 m in cc (at, e));
  counted = omega (arith, v.counted, length-append c.active_ids (u ∷ []));
}

old-IsValid :
    (c : DmxNetworkMetadataCache) (u : ℕ) (s s' : Slot)
    → get_elem? c.slots u ≡ some (some s)
    → IsValid c
    → IsValid (put c u s')
old-IsValid c u s s' e v = record {
  listed = λ w.
      let at = listed-set c.slots u w s' (get_in_range c.slots u e) in
      (
        (λ m. at.1 (inr ((v.listed w).0 m))),
        λ m. elim (at.0 m) [
          | inl e' ↦ (v.listed w).1 (s, subst (λ k. get_elem? c.slots k ≡ some (some s)) e' e)
          | inr old ↦ (v.listed w).1 old
        ],
      );
  distinct = v.distinct;
  counted = v.counted;
}

-- How often the universe has been observed.
abbrev pub packets_of : Option (Option Slot) → ℕ
packets_of (some (some s)) = s.packets
packets_of _ = 0

abbrev pub reported : ℕ → ℕ → ℕ → ℕ → ℕ → ℕ → ℕ → DmxUniverseMetadata
reported u n sequence now ip port counter = record {
  universe_id = u;
  length = n;
  last_rx_us = now;
  counter = counter;
  sequence = sequence;
  content_hash = 0;
  source_ipv4 = ip;
  source_port = port;
}

-- What one packet does to the table.
pub record Observed (c : DmxNetworkMetadataCache) (u n sequence now ip port : ℕ)
    (c' : DmxNetworkMetadataCache) : Type 0 where
  pub self :
      get c' u
      ≡ some (
          some (reported u n sequence now ip port (increment32 (packets_of (get_elem? c.slots u)))))
  pub other : (v : ℕ) → u ≢ v → get c' v ≡ get c v
  pub size : length c'.slots ≡ length c.slots
  pub valid : IsValid c'

Observed-at :
    (c : DmxNetworkMetadataCache) (u n sequence now ip port : ℕ) (o : Option (Option Slot))
    → get_elem? c.slots u ≡ o
    → u < length c.slots
    → IsValid c
    → (c' : DmxNetworkMetadataCache) × (observe c u n sequence now ip port ≡ some c')
      × Observed c u n sequence now ip port c'
unfolding observe get
Observed-at c u n sequence now ip port none e h v = absurd (missing c.slots u e h)
  where
    missing : (xs : List (Option Slot)) (i : ℕ) → get_elem? xs i ≡ none → i < length xs → ⊥
    missing [] i e h = absurd (omega arith)
    missing (x ∷ xs) zero e h = cc e
    missing (x ∷ xs) (suc i) e h = missing xs i e (omega arith)
Observed-at c u n sequence now ip port (some none) e h v = (
  put_new c u (observed new_slot n sequence now ip port),
  rw (e, observe),
  record {
    self = rw (e, get_elem?-set_self c.slots u (some (observed new_slot n sequence now ip port)) h);
    other =
        λ w ne. rw (get_elem?-set_ne c.slots (some (observed new_slot n sequence now ip port)) ne);
    size = length-set c.slots u _;
    valid = new-IsValid c u _ e v;
  },
)
Observed-at c u n sequence now ip port (some (some s)) e h v = (
  put c u (observed s n sequence now ip port),
  rw (e, observe),
  record {
    self = rw (e, get_elem?-set_self c.slots u (some (observed s n sequence now ip port)) h);
    other = λ w ne. rw (get_elem?-set_ne c.slots (some (observed s n sequence now ip port)) ne);
    size = length-set c.slots u _;
    valid = old-IsValid c u s _ e v;
  },
)

-- In a valid table, a packet for one of its universes is recorded: `get` then reports its values
-- for that universe, with the packet count one higher (from 0 at the first, modulo 2 ^ 32), what
-- it reports of other universes is as before, and the list of known universes stays free of
-- duplicates, exactly the universes with a slot, and as long as the slot count.
pub observe-Observed :
    (c : DmxNetworkMetadataCache) (u n sequence now ip port : ℕ)
    → u < length c.slots
    → IsValid c
    → (c' : DmxNetworkMetadataCache) × (observe c u n sequence now ip port ≡ some c')
      × Observed c u n sequence now ip port c'
observe-Observed c u n sequence now ip port h v =
    Observed-at c u n sequence now ip port (get_elem? c.slots u) refl h v

-- Heard within the window, by the clock `now`.
abbrev pub IsRecent : DmxNetworkMetadataCache → ℕ → ℕ → ℕ → Type 0
IsRecent c u now window =
    (s : Slot) × (get_elem? c.slots u ≡ some (some s))
    × (0 < s.last_rx_us)
    × (s.last_rx_us ≤ now)
    × (now ≤ s.last_rx_us + window)

active_of_iff :
    (c : DmxNetworkMetadataCache) (ids : List ℕ) (u now window : ℕ)
    → (Elem u (active_of c ids now window))
      ↔ ((Elem u ids) × (is_active (get c u) now window ≡ true))
unfolding active_of
active_of_iff c [] u now window = ((λ m. absurd m), λ m. absurd m.0)
active_of_iff c (x ∷ ids) u now window =
    let ih = active_of_iff c ids u now window in
    elim (Bool-cases (is_active (get c x) now window)) [
      | inl on ↦ rw on (
        (λ m. elim m [
          | inl e ↦ (inl e, subst (λ k. is_active (get c k) now window ≡ true) e on)
          | inr m' ↦ (inr (ih.0 m').0, (ih.0 m').1)
        ]),
        λ m. elim m.0 [ inl e ↦ inl e | inr m' ↦ inr (ih.1 (m', m.1)) ],
      )
      | inr off ↦ rw off (
        (λ m. (inr (ih.0 m).0, (ih.0 m).1)),
        λ m. elim m.0 [
          | inl e ↦ absurd (clash (subst (λ k. is_active (get c k) now window ≡ false) e off) m.1)
          | inr m' ↦ ih.1 (m', m.1)
        ],
      )
    ]
  where
    clash : {b : Bool} → b ≡ false → b ≡ true → ⊥
    clash e f = cc (e, f)

IsRecent-iff :
    (c : DmxNetworkMetadataCache) (u now window : ℕ) (o : Option (Option Slot))
    → get_elem? c.slots u ≡ o
    → (is_active (get c u) now window ≡ true) ↔ IsRecent c u now window
unfolding is_active get
IsRecent-iff c u now window none e = rw e ((λ h. cc h), λ r. cc r.1)
IsRecent-iff c u now window (some none) e = rw e ((λ h. cc h), λ r. cc r.1)
IsRecent-iff c u now window (some (some s)) e =
    rw e ((λ h. (s, refl, ground arith, ground arith, ground arith)), λ r. ground arith)

-- In a valid table the active universes are exactly those that have been heard, at a time other
-- than 0 that is not after `now`, within the window before it.
pub active_iff :
    (c : DmxNetworkMetadataCache) (u now window : ℕ)
    → IsValid c
    → (Elem u (active c now window)) ↔ IsRecent c u now window
unfolding active
active_iff c u now window v =
    let all = active_of_iff c c.active_ids u now window in
    let recent = IsRecent-iff c u now window (get_elem? c.slots u) refl in
    ((λ m. recent.0 (all.0 m).1), λ r. all.1 ((v.listed u).1 (r.0, r.1), recent.1 r))

pub new_cache-IsValid : (size : ℕ) → IsValid (new_cache size)
unfolding new_cache
new_cache-IsValid size = record {
  listed = λ u. ((λ m. absurd m), λ s. absurd (empty size u s.1));
  distinct = tt;
  counted = refl;
}
  where
    empty : (n i : ℕ) {s : Slot} → get_elem? (replicate n none) i ≡ some (some s) → ⊥
    empty zero i e = cc e
    empty (suc n) zero e = cc e
    empty (suc n) (suc i) e = empty n i e
