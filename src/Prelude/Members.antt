-- ===== src/Prelude/Members.antt =====
-- Membership and distinctness by recursion, and the pigeonhole principle.
use Prim.Native.Nat.{ℕ, zero, suc, ◌+◌, ◌≤◌, ◌<◌}
use mathlib.Core.Path.{◌≡◌, refl, sym, ap, subst}
use mathlib.Core.Logic.{◌⊎◌, inl, inr}
use mathlib.Core.List.{List, [], ◌∷◌, ◌++◌}
use native.Mathlib.Omega.{arith}
use peraviz.Prelude.Tests.{◌==◌, if◌then◌else◌, Bool-cases}
use peraviz.Prelude.Lists.{length, All}

abbrev pub Elem : {A : Type 0} → A → List A → Type 0
Elem a [] = ⊥
Elem a (x ∷ xs) = (x ≡ a) ⊎ Elem a xs

abbrev pub Distinct : {A : Type 0} → List A → Type 0
Distinct [] = Unit
Distinct (x ∷ xs) = (¬ Elem x xs) × Distinct xs

pub All-Elem : {A : Type 0} (P : A → Type 0) (a : A) (xs : List A) → All P xs → Elem a xs → P a
All-Elem P a [] h m = absurd m
All-Elem P a (x ∷ xs) h (inl e) = subst P e h.0
All-Elem P a (x ∷ xs) h (inr m) = All-Elem P a xs h.1 m

pub Elem-append_left : {A : Type 0} (a : A) (xs ys : List A) → Elem a xs → Elem a (xs ++ ys)
Elem-append_left a [] ys m = absurd m
Elem-append_left a (x ∷ xs) ys (inl e) = inl e
Elem-append_left a (x ∷ xs) ys (inr m) = inr (Elem-append_left a xs ys m)

pub Elem-append_right : {A : Type 0} (a : A) (xs ys : List A) → Elem a ys → Elem a (xs ++ ys)
Elem-append_right a [] ys m = m
Elem-append_right a (x ∷ xs) ys m = inr (Elem-append_right a xs ys m)

pub Elem-append : {A : Type 0} (a : A) (xs ys : List A) → Elem a (xs ++ ys) → Elem a xs ⊎ Elem a ys
Elem-append a [] ys m = inr m
Elem-append a (x ∷ xs) ys (inl e) = inl (inl e)
Elem-append a (x ∷ xs) ys (inr m) = elim (Elem-append a xs ys m) [
  | inl l ↦ inl (inr l)
  | inr r ↦ inr r
]

pub Distinct-snoc :
    {A : Type 0} (a : A) (xs : List A) → Distinct xs → ¬ Elem a xs → Distinct (xs ++ a ∷ [])
Distinct-snoc a [] d h = ((λ m. m), tt)
Distinct-snoc a (x ∷ xs) d h = (
  λ m. elim (Elem-append x xs (a ∷ []) m) [
    | inl l ↦ d.0 l
    | inr (inl e) ↦ h (inl (sym e))
    | inr (inr r) ↦ r
  ],
  Distinct-snoc a xs d.1 (λ m. h (inr m)),
)

remove : ℕ → List ℕ → List ℕ
remove n [] = []
remove n (x ∷ xs) = if x == n then remove n xs else x ∷ remove n xs

Elem-remove : (a n : ℕ) (xs : List ℕ) → Elem a (remove n xs) → Elem a xs
unfolding remove
Elem-remove a n [] m = m
Elem-remove a n (x ∷ xs) m = ground (arith, Elem-remove a n xs)

remove-Distinct : (n : ℕ) (xs : List ℕ) → Distinct xs → Distinct (remove n xs)
unfolding remove
remove-Distinct n [] d = tt
remove-Distinct n (x ∷ xs) d = elim (Bool-cases (x == n)) [
  | inl e ↦ rw e (remove-Distinct n xs d.1)
  | inr e ↦ rw e ((λ m. d.0 (Elem-remove x n xs m)), remove-Distinct n xs d.1)
]

remove-All : (n : ℕ) (xs : List ℕ) → All (λ x. x < suc n) xs → All (λ x. x < n) (remove n xs)
unfolding remove
remove-All n [] h = tt
remove-All n (x ∷ xs) h = ground (arith, remove-All n xs h.1)

length-remove_absent : (n : ℕ) (xs : List ℕ) → (¬ Elem n xs) → length (remove n xs) ≡ length xs
unfolding remove
length-remove_absent n [] h = refl
length-remove_absent n (x ∷ xs) h = elim (Bool-cases (x == n)) [
  | inl e ↦ absurd (h (inl (ground arith)))
  | inr e ↦ rw e (ap suc (length-remove_absent n xs (λ m. h (inr m))))
]

length-remove : (n : ℕ) (xs : List ℕ) → Distinct xs → length xs ≤ length (remove n xs) + 1
unfolding remove
length-remove n [] d = omega arith
length-remove n (x ∷ xs) d = elim (Bool-cases (x == n)) [
  | inl e ↦ rw e (
      omega (arith, length-remove_absent n xs (λ m. d.0 (subst (λ k. Elem k xs) (ground arith) m))))
  | inr e ↦ rw e (omega (arith, length-remove n xs d.1))
]

-- Distinct numbers below `n` are at most `n` many.
pub pigeonhole : (n : ℕ) (xs : List ℕ) → All (λ x. x < n) xs → Distinct xs → length xs ≤ n
pigeonhole zero [] h d = omega arith
pigeonhole zero (x ∷ xs) h d = absurd (omega arith)
pigeonhole (suc n) xs h d = omega (
  arith,
  length-remove n xs d,
  pigeonhole n (remove n xs) (remove-All n xs h) (remove-Distinct n xs d),
)
