-- ===== src/Prelude/Sorts.antt =====
-- `std::sort` of numbers, as an insertion sort.
use Prim.Native.Nat.{ℕ, ◌≤◌, ◌<◌}
use mathlib.Core.Path.{◌≡◌}
use mathlib.Core.Logic.{◌≢◌, ◌↔◌, ◌⊎◌, inl, inr}
use mathlib.Core.List.{List, [], ◌∷◌}
use native.Mathlib.Omega.{arith}
use peraviz.Prelude.Tests.{leb, if◌then◌else◌, Bool-cases}
use peraviz.Prelude.Lists.{All}
use peraviz.Prelude.Members.{Elem, Distinct}

insert_sorted : ℕ → List ℕ → List ℕ
insert_sorted a [] = a ∷ []
insert_sorted a (x ∷ xs) = if leb a x then a ∷ x ∷ xs else x ∷ insert_sorted a xs

unfoldable pub sort : List ℕ → List ℕ
unfolding insert_sorted
sort [] = []
sort (x ∷ xs) = insert_sorted x (sort xs)

-- Strictly ascending.
abbrev pub IsSorted : List ℕ → Type 0
IsSorted [] = Unit
IsSorted (x ∷ xs) = All (λ y. x < y) xs × IsSorted xs

insert-All :
    (b a : ℕ) (xs : List ℕ) → b < a → All (λ y. b < y) xs → All (λ y. b < y) (insert_sorted a xs)
unfolding insert_sorted
insert-All b a [] h k = (h, tt)
insert-All b a (x ∷ xs) h k = ground (arith, insert-All b a xs h k.1)

All-lt_trans : (a x : ℕ) (xs : List ℕ) → a ≤ x → All (λ y. x < y) xs → All (λ y. a < y) xs
All-lt_trans a x [] h k = tt
All-lt_trans a x (y ∷ ys) h k = (omega arith, All-lt_trans a x ys h k.1)

insert-IsSorted :
    (a : ℕ) (xs : List ℕ) → (¬ Elem a xs) → IsSorted xs → IsSorted (insert_sorted a xs)
unfolding insert_sorted
insert-IsSorted a [] h s = (tt, tt)
insert-IsSorted a (x ∷ xs) h s =
    let apart : x ≢ a = λ e. h (inl e) in
    elim (Bool-cases (leb a x)) [
      | inl low ↦ rw low ((ground arith, All-lt_trans a x xs (ground arith) s.0), s)
      | inr high ↦
          rw high (insert-All x a xs (ground arith) s.0, insert-IsSorted a xs (λ m. h (inr m)) s.1)
    ]

insert_iff : (a b : ℕ) (xs : List ℕ) → (Elem b (insert_sorted a xs)) ↔ ((a ≡ b) ⊎ Elem b xs)
unfolding insert_sorted
insert_iff a b [] = ((λ m. m), λ m. m)
insert_iff a b (x ∷ xs) = elim (Bool-cases (leb a x)) [
  | inl low ↦ rw low ((λ m. m), λ m. m)
  | inr high ↦
      let ih = insert_iff a b xs in
      rw high (
        (λ m. elim m [
          | inl e ↦ inr (inl e)
          | inr m' ↦ elim (ih.0 m') [ inl e ↦ inl e | inr old ↦ inr (inr old) ]
        ]),
        λ m. elim m [
          | inl e ↦ inr (ih.1 (inl e))
          | inr (inl e) ↦ inl e
          | inr (inr old) ↦ inr (ih.1 (inr old))
        ],
      )
]

pub sort_iff : (b : ℕ) (xs : List ℕ) → (Elem b (sort xs)) ↔ (Elem b xs)
unfolding sort
sort_iff b [] = ((λ m. m), λ m. m)
sort_iff b (x ∷ xs) =
    let first = insert_iff x b (sort xs) in
    let ih = sort_iff b xs in
    (
      (λ m. elim (first.0 m) [ inl e ↦ inl e | inr m' ↦ inr (ih.0 m') ]),
      λ m. elim m [ inl e ↦ first.1 (inl e) | inr m' ↦ first.1 (inr (ih.1 m')) ],
    )

pub sort-IsSorted : (xs : List ℕ) → Distinct xs → IsSorted (sort xs)
unfolding sort
sort-IsSorted [] d = tt
sort-IsSorted (x ∷ xs) d =
    insert-IsSorted x (sort xs) (λ m. d.0 ((sort_iff x xs).0 m)) (sort-IsSorted xs d.1)

absent : (x : ℕ) (xs : List ℕ) → All (λ y. x < y) xs → ¬ Elem x xs
absent x [] h m = m
absent x (y ∷ ys) h (inl e) = omega (arith, h.0)
absent x (y ∷ ys) h (inr m) = absent x ys h.1 m

pub IsSorted-Distinct : (xs : List ℕ) → IsSorted xs → Distinct xs
IsSorted-Distinct [] s = tt
IsSorted-Distinct (x ∷ xs) s = (absent x xs s.0, IsSorted-Distinct xs s.1)
