-- ===== src/Dmx/Subscription.antt =====
-- native/src/dmx/realtime_subscription.h and .cpp: which universes a scene reads, and which of
-- their slots. A bitset is its membership test.
pub mod Build
use peraviz.Prelude.{
  ℕ, zero, suc, ◌<◌, Bool, true, false, not, ◌&&◌, ◌||◌, List, [], ◌∷◌, ◌++◌, ltb, leb, ◌==◌,
  if◌then◌else◌, sort,
}
use peraviz.Dmx.Frame.{dmx_slot_count, art_net_universe_count}

abbrev pub OffsetMask : Type 0
OffsetMask = ℕ → Bool

pub record RealtimeSubscription : Type 0 where
  pub used : ℕ → Bool
  pub masks : ℕ → OffsetMask
  pub universes : List ℕ

-- `std::bitset::any` on the first `n` bits.
unfoldable pub any_below : ℕ → (ℕ → Bool) → Bool
any_below zero p = false
any_below (suc n) p = p n || any_below n p

abbrev pub set_bit : OffsetMask → ℕ → OffsetMask
set_bit mask offset o = o == offset || mask o

-- The inner loop of `build`.
unfoldable pub set_offsets : OffsetMask → List ℕ → OffsetMask
set_offsets mask [] = mask
set_offsets mask (offset ∷ rest) =
    set_offsets (if ltb offset dmx_slot_count then set_bit mask offset else mask) rest

unfoldable pub use_universe : RealtimeSubscription → ℕ → OffsetMask → RealtimeSubscription
use_universe r universe mask = record r {
  used = λ u. u == universe || r.used u;
  masks = λ u. if u == universe then mask else r.masks u;
  universes = r.universes ++ universe ∷ [];
}

unfoldable pub keep_mask : RealtimeSubscription → ℕ → OffsetMask → RealtimeSubscription
keep_mask r universe mask = record r { masks = λ u. if u == universe then mask else r.masks u }

unfoldable pub add_entry : RealtimeSubscription → ℕ → List ℕ → RealtimeSubscription
add_entry r universe offsets =
    if ltb universe art_net_universe_count
    then (let mask = set_offsets (r.masks universe) offsets in
        if any_below dmx_slot_count mask && not (r.used universe)
        then use_universe r universe mask
        else keep_mask r universe mask)
    else r

unfoldable pub add_entries : RealtimeSubscription → List (ℕ × List ℕ) → RealtimeSubscription
add_entries r [] = r
add_entries r ((universe, offsets) ∷ rest) = add_entries (add_entry r universe offsets) rest

-- `std::sort` on the identifiers.
abbrev pub empty_subscription : RealtimeSubscription
empty_subscription = record { used = λ u. false; masks = λ u o. false; universes = [] }

unfoldable pub build : List (ℕ × List ℕ) → RealtimeSubscription
build entries =
    let r = add_entries empty_subscription entries in record r { universes = sort r.universes }

unfoldable pub contains : RealtimeSubscription → ℕ → Bool
contains s universe = ltb universe art_net_universe_count && s.used universe

unfoldable pub offsets : RealtimeSubscription → ℕ → OffsetMask
offsets s universe o = ltb universe art_net_universe_count && s.masks universe o
