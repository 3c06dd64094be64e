-- ===== src/Dmx/Cache/Accesses.antt =====
-- Accesses of several threads to native/src/dmx/dmx_universe_cache.cpp, and what they leave clean.
use peraviz.Prelude.{
  ℕ, zero, suc, ◌≡◌, ◌≢◌, refl, sym, ap, ◌∙◌, subst, inl, inr, false, Option, none, some, List, [],
  ◌∷◌, ◌++◌, ◌+◌, arith, leb, ◌==◌, length, set, get_or, All, Bool-cases, Option-cases, length-set,
}
use mathlib.Core.Option.{some-injective}
use peraviz.Dmx.Cache.{
  UniverseSlot, DmxUniverseCache, new_slot, slot_at, get_or_create_slot, write_frame,
  begin_capture_session, exchange_dirty,
}
use peraviz.Dmx.Cache.Laws.{slot_at-set, slot_at_in}

-- What other threads do to the cache.
pub data Access : Type 0 where
  writes : (universe : ℕ) (bytes : Option (List ℕ)) (n sequence now_us generation : ℕ) → Access
  begins_session : Access
  exchanges : ℕ → Access

abbrev pub perform : DmxUniverseCache → Access → DmxUniverseCache
perform c (Access.writes universe bytes n sequence now_us generation) =
    write_frame c universe bytes n sequence now_us generation
perform c Access.begins_session = (begin_capture_session c).1
perform c (Access.exchanges universe) = (exchange_dirty c universe).1

abbrev pub perform_all : DmxUniverseCache → List Access → DmxUniverseCache
perform_all c [] = c
perform_all c (access ∷ accesses) = perform_all (perform c access) accesses

-- An access that is no write to the universe.
abbrev pub IsNoWrite : ℕ → Access → Type 0
IsNoWrite u (Access.writes universe bytes n sequence now_us generation) = universe ≢ u
IsNoWrite u Access.begins_session = Unit
IsNoWrite u (Access.exchanges universe) = Unit

-- The slot of the universe, if there is one, is not dirty.
abbrev pub IsClean : ℕ → DmxUniverseCache → Type 0
IsClean u c = (s : UniverseSlot) → slot_at c u ≡ some s → s.dirty ≡ false

-- A list of slots in which the universe has the slot that it has in another one.
get_or-set_other :
    (xs : List (Option UniverseSlot)) (i j : ℕ) (o : Option UniverseSlot)
    → i ≢ j
    → get_or (set xs i o) j none ≡ get_or xs j none
get_or-set_other [] i j o h = refl
get_or-set_other (x ∷ xs) zero zero o h = absurd (h refl)
get_or-set_other (x ∷ xs) zero (suc j) o h = refl
get_or-set_other (x ∷ xs) (suc i) zero o h = refl
get_or-set_other (x ∷ xs) (suc i) (suc j) o h = get_or-set_other xs i j o (λ e. h (ap suc e))

slot_at-set_other :
    (c : DmxUniverseCache) (slots : List (Option UniverseSlot)) (i u : ℕ) (o : Option UniverseSlot)
    → i ≢ u
    → slot_at (record c { slots = set slots i o }) u ≡ slot_at (record c { slots = slots }) u
unfolding slot_at
slot_at-set_other c slots i u o h =
    rw (length-set slots i o) (rw (get_or-set_other slots i u o h) refl)

get_or_create_slot-other :
    (c : DmxUniverseCache) (i u : ℕ) → i ≢ u → slot_at (get_or_create_slot c i).1 u ≡ slot_at c u
unfolding get_or_create_slot slot_at
get_or_create_slot-other c i u h = elim (Option-cases (get_or c.slots i none)) [
  | inl e ↦
      rw (e, get_or_create_slot)
        (slot_at-set_other
          (record c {
            active_universe_ids = c.active_universe_ids ++ i ∷ [];
            active_slot_count = c.active_slot_count + 1;
          })
          c.slots i u (some new_slot) h)
  | inr (s, e) ↦ rw (e, get_or_create_slot) refl
]

write_frame-other :
    (c : DmxUniverseCache) (i u : ℕ) (bytes : Option (List ℕ)) (n sequence now_us generation : ℕ)
    → i ≢ u
    → slot_at (write_frame c i bytes n sequence now_us generation) u ≡ slot_at c u
unfolding write_frame
write_frame-other c i u none n sequence now_us generation h = refl
write_frame-other c i u (some bytes) n sequence now_us generation h =
    elim (Bool-cases (leb (length c.slots) i)) [
      | inl t ↦ rw t refl
      | inr t ↦ rw t (
          slot_at-set_other (get_or_create_slot c i).1 (get_or_create_slot c i).1.slots i u _ h
          ∙ get_or_create_slot-other c i u h)
    ]

pub exchange_dirty-slot :
    (c : DmxUniverseCache) (u : ℕ) (s : UniverseSlot)
    → slot_at c u ≡ some s
    → slot_at (exchange_dirty c u).1 u ≡ some (record s { dirty = false })
unfolding exchange_dirty
exchange_dirty-slot c u s e =
    rw (e, exchange_dirty)
      (slot_at-set _ c.slots u (record s { dirty = false }) (slot_at_in c u s e) refl)

exchange_dirty-other :
    (c : DmxUniverseCache) (i u : ℕ) → i ≢ u → slot_at (exchange_dirty c i).1 u ≡ slot_at c u
unfolding exchange_dirty
exchange_dirty-other c i u h = elim (Option-cases (slot_at c i)) [
  | inl e ↦ rw (e, exchange_dirty) refl
  | inr (s, e) ↦ rw (e, exchange_dirty) (slot_at-set_other c c.slots i u _ h)
]

exchange_dirty-none :
    (c : DmxUniverseCache) (u : ℕ) → slot_at c u ≡ none → (exchange_dirty c u).1 ≡ c
unfolding exchange_dirty
exchange_dirty-none c u e = rw (e, exchange_dirty) refl

pub exchange_dirty-IsClean : (c : DmxUniverseCache) (u : ℕ) → IsClean u (exchange_dirty c u).1
exchange_dirty-IsClean c u t f = elim (Option-cases (slot_at c u)) [
  | inl e ↦ cc (ap (λ d. slot_at d u) (exchange_dirty-none c u e), e, f)
  | inr (s, e) ↦
      let same : record s { dirty = false } ≡ t =
        some-injective _ _ (sym (exchange_dirty-slot c u s e) ∙ f) in
      sym (ap (λ x. x.dirty) same)
]

exchange-IsClean : (c : DmxUniverseCache) (i u : ℕ) → IsClean u c → IsClean u (exchange_dirty c i).1
exchange-IsClean c i u clean t f = elim (Bool-cases (i == u)) [
  | inl e ↦
      let same : i ≡ u = ground arith in
      exchange_dirty-IsClean c u t (subst (λ k. slot_at (exchange_dirty c k).1 u ≡ some t) same f)
  | inr e ↦ let other : i ≢ u = ground arith in clean t (sym (exchange_dirty-other c i u other) ∙ f)
]

begin_session-slot :
    (c : DmxUniverseCache) (u : ℕ) → slot_at (begin_capture_session c).1 u ≡ slot_at c u
unfolding begin_capture_session slot_at
begin_session-slot c u = refl

perform-IsClean :
    (c : DmxUniverseCache) (u : ℕ) (access : Access)
    → IsNoWrite u access
    → IsClean u c
    → IsClean u (perform c access)
perform-IsClean c u (Access.writes i bytes n sequence now_us generation) other clean =
    λ t f. clean t (sym (write_frame-other c i u bytes n sequence now_us generation other) ∙ f)
perform-IsClean c u Access.begins_session h clean =
    λ t f. clean t (sym (begin_session-slot c u) ∙ f)
perform-IsClean c u (Access.exchanges i) h clean = exchange-IsClean c i u clean

pub perform_all-IsClean :
    (c : DmxUniverseCache) (u : ℕ) (accesses : List Access)
    → All (IsNoWrite u) accesses
    → IsClean u c
    → IsClean u (perform_all c accesses)
perform_all-IsClean c u [] h clean = clean
perform_all-IsClean c u (access ∷ accesses) (first, rest) clean =
    perform_all-IsClean (perform c access) u accesses rest (perform-IsClean c u access first clean)

pub clean_not_exchanged :
    (c : DmxUniverseCache) (u : ℕ) → IsClean u c → (exchange_dirty c u).0 ≡ false
unfolding exchange_dirty
clean_not_exchanged c u clean = elim (Option-cases (slot_at c u)) [
  | inl e ↦ rw (e, exchange_dirty) refl
  | inr (s, e) ↦ rw (e, exchange_dirty) (clean s e)
]
