-- ===== src/Presentation/Pipeline/Banks.antt =====
-- The banks of native/src/presentation/async_presentation_pipeline.cpp: what a write to one of them
-- leaves of their statuses and contents.
use peraviz.Prelude.{
  ℕ, zero, suc, ◌+◌, ◌-◌, ◌≤◌, ◌<◌, ◌≡◌, ◌≢◌, refl, ap, ◌==◌, if◌then◌else◌, Option, none, some,
  List, [], ◌∷◌, arith, length, set, max, true, Bool-cases, inl, inr, ◌∙◌,
}
use peraviz.Presentation.Pipeline.{
  Status, free, writing, queued, reading, Bank, status_of, set_status, content_of, is_free,
}

-- Whether a bank is not free, and whether an index is that of a bank, as numbers to add up.
abbrev pub busy : Status → ℕ
busy free = 0
busy writing = 1
busy queued = 1
busy reading = 1

unfoldable pub holds : Option ℕ → ℕ → ℕ
holds none b = 0
holds (some i) b = if i == b then 1 else 0

pub holds-none : (b : ℕ) → holds none b ≡ 0
unfolding holds
holds-none b = refl

pub holds_self : (i : ℕ) → holds (some i) i ≡ 1
unfolding holds
holds_self i = ground arith

pub holds_other : (i b : ℕ) → i ≢ b → holds (some i) b ≡ 0
unfolding holds
holds_other i b h = ground arith

pub holds_bound : (o : Option ℕ) (b : ℕ) → holds o b ≤ 1
unfolding holds
holds_bound none b = omega arith
holds_bound (some i) b = ground arith

pub busy_bound : (status : Status) → busy status ≤ 1
busy_bound free = omega arith
busy_bound writing = omega arith
busy_bound queued = omega arith
busy_bound reading = omega arith

pub is_free-busy : (status : Status) → is_free status ≡ true → busy status ≡ 0
unfolding is_free
is_free-busy free h = refl
is_free-busy writing h = cc
is_free-busy queued h = cc
is_free-busy reading h = cc

pub busy-is_free : (status : Status) → busy status ≡ 0 → is_free status ≡ true
unfolding is_free
busy-is_free free h = refl
busy-is_free writing h = absurd (omega (arith, h))
busy-is_free queued h = absurd (omega (arith, h))
busy-is_free reading h = absurd (omega (arith, h))

module _ {A : Type 0} where
  pub busy-set_free :
      (banks : List (Bank A)) (i b : ℕ)
      → busy (status_of (set_status banks i free) b) ≡ busy (status_of banks b) - holds (some i) b
  unfolding status_of set_status holds
  busy-set_free [] i b = ground arith
  busy-set_free (bank ∷ banks) zero zero = ground arith
  busy-set_free (bank ∷ banks) zero (suc b) = ground arith
  busy-set_free (bank ∷ banks) (suc i) zero = ground arith
  busy-set_free (bank ∷ banks) (suc i) (suc b) = ground (arith, busy-set_free banks i b)

  pub busy-set_status :
      (banks : List (Bank A)) (i b : ℕ) (status : Status)
      → i < length banks
      → busy status ≡ 1
      → busy (status_of (set_status banks i status) b)
        ≡ max (busy (status_of banks b)) (holds (some i) b)
  unfolding status_of set_status holds
  busy-set_status [] i b status h k = absurd (omega arith)
  busy-set_status (bank ∷ banks) zero zero status h k =
      let bound = busy_bound bank.status in ground (arith, k, bound)
  busy-set_status (bank ∷ banks) zero (suc b) status h k = ground arith
  busy-set_status (bank ∷ banks) (suc i) zero status h k = ground arith
  busy-set_status (bank ∷ banks) (suc i) (suc b) status h k =
      ground (arith, busy-set_status banks i b status (omega (arith, h)) k)

  pub busy-set :
      (banks : List (Bank A)) (i b : ℕ) (bank : Bank A)
      → i < length banks
      → busy bank.status ≡ 1
      → busy (status_of (set banks i bank) b) ≡ max (busy (status_of banks b)) (holds (some i) b)
  unfolding status_of holds
  busy-set [] i b bank h k = absurd (omega arith)
  busy-set (old ∷ banks) zero zero bank h k =
      let bound = busy_bound old.status in ground (arith, k, bound)
  busy-set (old ∷ banks) zero (suc b) bank h k = ground arith
  busy-set (old ∷ banks) (suc i) zero bank h k = ground arith
  busy-set (old ∷ banks) (suc i) (suc b) bank h k =
      ground (arith, busy-set banks i b bank (omega (arith, h)) k)

  pub busy-inside :
      (banks : List (Bank A)) (b : ℕ) → busy (status_of banks b) ≡ 1 → b < length banks
  unfolding status_of
  busy-inside [] b h = absurd (omega (arith, h))
  busy-inside (bank ∷ banks) zero h = omega arith
  busy-inside (bank ∷ banks) (suc b) h = omega (arith, busy-inside banks b h)

  pub length-set_status :
      (banks : List (Bank A)) (i : ℕ) (status : Status)
      → length (set_status banks i status) ≡ length banks
  unfolding set_status
  length-set_status [] i status = refl
  length-set_status (bank ∷ banks) zero status = refl
  length-set_status (bank ∷ banks) (suc i) status = ap suc (length-set_status banks i status)

  pub content_of-set_status :
      (banks : List (Bank A)) (i b : ℕ) (status : Status) (d : A)
      → content_of (set_status banks i status) b d ≡ content_of banks b d
  unfolding content_of set_status
  content_of-set_status [] i b status d = refl
  content_of-set_status (bank ∷ banks) zero zero status d = refl
  content_of-set_status (bank ∷ banks) zero (suc b) status d = refl
  content_of-set_status (bank ∷ banks) (suc i) zero status d = refl
  content_of-set_status (bank ∷ banks) (suc i) (suc b) status d =
      content_of-set_status banks i b status d

  pub content_of-set_self :
      (banks : List (Bank A)) (i : ℕ) (bank : Bank A) (d : A)
      → i < length banks
      → content_of (set banks i bank) i d ≡ bank.content
  unfolding content_of
  content_of-set_self [] i bank d h = absurd (omega arith)
  content_of-set_self (old ∷ banks) zero bank d h = refl
  content_of-set_self (old ∷ banks) (suc i) bank d h =
      content_of-set_self banks i bank d (omega (arith, h))

  pub content_of-set_other :
      (banks : List (Bank A)) (i b : ℕ) (bank : Bank A) (d : A)
      → i ≢ b
      → content_of (set banks i bank) b d ≡ content_of banks b d
  unfolding content_of
  content_of-set_other [] i b bank d h = refl
  content_of-set_other (old ∷ banks) zero zero bank d h = absurd (h refl)
  content_of-set_other (old ∷ banks) zero (suc b) bank d h = refl
  content_of-set_other (old ∷ banks) (suc i) zero bank d h = refl
  content_of-set_other (old ∷ banks) (suc i) (suc b) bank d h =
      content_of-set_other banks i b bank d (λ e. h (ap suc e))

  held_max :
      (banks : List (Bank A)) (i b : ℕ)
      → busy (status_of banks i) ≡ 1
      → max (busy (status_of banks b)) (holds (some i) b) ≡ busy (status_of banks b)
  unfolding holds
  held_max banks i b h = elim (Bool-cases (i == b)) [
    | inl e ↦
        let same : i ≡ b = ground arith in
        let one = ap (λ x. busy (status_of banks x)) same in rw e (omega (arith, h, one))
    | inr e ↦ rw e (omega arith)
  ]

  -- A bank that one holds stays busy.
  pub held-set_status :
      (banks : List (Bank A)) (i b : ℕ) (status : Status)
      → busy (status_of banks i) ≡ 1
      → busy status ≡ 1
      → busy (status_of (set_status banks i status) b) ≡ busy (status_of banks b)
  held-set_status banks i b status h k =
      let written = busy-set_status banks i b status (busy-inside banks i h) k in
      written ∙ held_max banks i b h

  pub held-set :
      (banks : List (Bank A)) (i b : ℕ) (bank : Bank A)
      → busy (status_of banks i) ≡ 1
      → busy bank.status ≡ 1
      → busy (status_of (set banks i bank) b) ≡ busy (status_of banks b)
  held-set banks i b bank h k =
      busy-set banks i b bank (busy-inside banks i h) k ∙ held_max banks i b h

pub holds_three : (o : Option ℕ) → holds o 0 + (holds o 1 + holds o 2) ≤ 1
unfolding holds
holds_three none = omega arith
holds_three (some i) = ground arith
