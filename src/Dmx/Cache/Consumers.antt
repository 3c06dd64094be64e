-- ===== src/Dmx/Cache/Consumers.antt =====
-- Several consumers of the frames of native/src/dmx/dmx_universe_cache.cpp.
use peraviz.Prelude.{
  ℕ, ◌≡◌, refl, sym, ap, ◌∙◌, inl, inr, true, false, Option, none, some, List, arith, All,
  Bool-cases, Option-cases,
}
use peraviz.Dmx.Frame.{DmxFrame}
use peraviz.Dmx.Cache.{
  UniverseSlot, DmxUniverseCache, slot_at, frame_of, try_get_frame, is_current, exchange_dirty,
  copy_frame, consume_frame,
}
use peraviz.Dmx.Cache.Laws.{try_get_at}
use peraviz.Dmx.Cache.Accesses.{
  Access, perform_all, IsNoWrite, exchange_dirty-slot, exchange_dirty-IsClean, perform_all-IsClean,
  clean_not_exchanged,
}

exchange_dirty_once :
    (c : DmxUniverseCache) (u : ℕ) (accesses : List Access)
    → All (IsNoWrite u) accesses
    → (exchange_dirty (perform_all (exchange_dirty c u).1 accesses) u).0 ≡ false
exchange_dirty_once c u accesses h =
    clean_not_exchanged _ u (perform_all-IsClean _ u accesses h (exchange_dirty-IsClean c u))

copy_exchanged-clean :
    (c : DmxUniverseCache) (u : ℕ) → (exchange_dirty c u).0 ≡ false → (consume_frame c u).0 ≡ none
unfolding consume_frame
copy_exchanged-clean c u h = elim (Bool-cases (is_current c (slot_at c u))) [
  | inl t ↦ rw (t, consume_frame) (rw h refl)
  | inr t ↦ rw (t, consume_frame) refl
]

frame_of-clean : (u : ℕ) (s : UniverseSlot) → frame_of u (record s { dirty = false }) ≡ frame_of u s
unfolding frame_of
frame_of-clean u s = refl

copy_frame-exchange :
    (c : DmxUniverseCache) (u : ℕ) (s : UniverseSlot)
    → slot_at c u ≡ some s
    → copy_frame (exchange_dirty c u).1 u ≡ some (frame_of u s)
unfolding copy_frame
copy_frame-exchange c u s e =
    rw (exchange_dirty-slot c u s e, copy_frame) (ap some (frame_of-clean u s))

exchange_dirty-session :
    (c : DmxUniverseCache) (u : ℕ)
    → (exchange_dirty c u).1.active_capture_generation ≡ c.active_capture_generation
unfolding exchange_dirty
exchange_dirty-session c u = elim (Option-cases (slot_at c u)) [
  | inl e ↦ rw (e, exchange_dirty) refl
  | inr (s, e) ↦ rw (e, exchange_dirty) refl
]

-- What `consume_frame` has done where it returns a frame.
record IsConsumed (c : DmxUniverseCache) (u : ℕ) (f : DmxFrame) : Type 0 where
  slot : UniverseSlot
  at : slot_at c u ≡ some slot
  current : slot.capture_generation ≡ c.active_capture_generation
  copied : copy_frame (exchange_dirty c u).1 u ≡ some f
  after : (consume_frame c u).1 ≡ (exchange_dirty c u).1

current_slot :
    (c : DmxUniverseCache) (o : Option UniverseSlot)
    → is_current c o ≡ true
    → (s : UniverseSlot) × (o ≡ some s) × (s.capture_generation ≡ c.active_capture_generation)
unfolding is_current
current_slot c none h = cc h
current_slot c (some s) h = (s, refl, ground arith)

consumed :
    (c : DmxUniverseCache) (u : ℕ) (f : DmxFrame)
    → (consume_frame c u).0 ≡ some f
    → IsConsumed c u f
unfolding consume_frame
consumed c u f h = elim (Bool-cases (exchange_dirty c u).0) [
  | inr clean ↦ cc (copy_exchanged-clean c u clean, h)
  | inl dirty ↦ elim (Bool-cases (is_current c (slot_at c u))) [
    | inr old ↦
        let nothing : (consume_frame c u).0 ≡ none = rw (old, consume_frame) refl in cc (nothing, h)
    | inl current ↦
        let (s, at, same) = current_slot c (slot_at c u) current in
        record {
          slot = s;
          at = at;
          current = same;
          copied = rw (current, consume_frame, dirty) at h;
          after = rw (current, consume_frame) refl;
        }
  ]
]

-- A frame that `consume_frame` hands out, with no other thread between its accesses, is the one that
-- `try_get_frame` reads, before and after. Whatever writes to other universes, new sessions and
-- exchanges by other consumers follow, no consumer finds the universe dirty again.
pub consume_frame_once :
    (c : DmxUniverseCache) (u : ℕ) (f : DmxFrame) (accesses : List Access)
    → (consume_frame c u).0 ≡ some f
    → All (IsNoWrite u) accesses
    → let c' = (consume_frame c u).1 in
      (try_get_frame c u ≡ some f)
      × ((try_get_frame c' u ≡ some f)
          × (((exchange_dirty (perform_all c' accesses) u).0 ≡ false)
              × ((consume_frame (perform_all c' accesses) u).0 ≡ none)))
consume_frame_once c u f accesses h others =
    let d = consumed c u f h in
    let handed : some (frame_of u d.slot) ≡ some f =
      sym (copy_frame-exchange c u d.slot d.at) ∙ d.copied in
    let once = exchange_dirty_once c u accesses others in
    rw d.after (
      try_get_at c u d.slot d.at d.current ∙ handed,
      (
        try_get_at (exchange_dirty c u).1 u (record d.slot { dirty = false })
              (exchange_dirty-slot c u d.slot d.at) (d.current ∙ sym (exchange_dirty-session c u))
            ∙ (ap some (frame_of-clean u d.slot) ∙ handed),
        (once, copy_exchanged-clean _ u once),
      ),
    )
