-- ===== src/Runtime/Dirty/Visits.antt =====
-- What a visit of native/src/runtime/ordered_dirty_indices.h goes through.
use native.Mathlib.Decide.{ℕ_discrete}
use peraviz.Prelude.{
  ℕ, zero, suc, ◌<◌, ◌≡◌, ◌≢◌, refl, sym, ap, ◌∙◌, subst, ◌↔◌, ◌⊎◌, inl, inr, Bool, true, false,
  not, ◌&&◌, List, [], ◌∷◌, ◌++◌, ℤ, pos, negsuc, arith, ltb, length, get_or, set, replicate,
  length-set, sort, sort_iff, sort-IsSorted, IsSorted, IsSorted-Distinct, Bool-cases, Elem,
  Distinct, Distinct-snoc, Elem-append, Elem-append_left, Elem-append_right,
}
use peraviz.Runtime.Dirty.{
  OrderedDirtyIndices, no_indices, install, clear_seen, clear, nominate, insert, visit,
}

-- The marks are those of the listed indices, each listed once, and in order where it says so.
pub record IsValid (d : OrderedDirtyIndices) : Type 0 where
  pub listed : (i : ℕ) → (Elem i d.indices) ↔ (get_or d.seen i false ≡ true)
  pub distinct : Distinct d.indices
  pub order : d.sorted ≡ true → IsSorted d.indices

get_or-set_self :
    (xs : List Bool) (i : ℕ) (b : Bool) → i < length xs → get_or (set xs i b) i false ≡ b
get_or-set_self [] i b h = absurd (omega arith)
get_or-set_self (x ∷ xs) zero b h = refl
get_or-set_self (x ∷ xs) (suc i) b h = get_or-set_self xs i b (omega arith)

get_or-set_ne :
    (xs : List Bool) (i j : ℕ) (b : Bool) → i ≢ j → get_or (set xs i b) j false ≡ get_or xs j false
get_or-set_ne [] i j b h = refl
get_or-set_ne (x ∷ xs) zero zero b h = absurd (h refl)
get_or-set_ne (x ∷ xs) zero (suc j) b h = refl
get_or-set_ne (x ∷ xs) (suc i) zero b h = refl
get_or-set_ne (x ∷ xs) (suc i) (suc j) b h = get_or-set_ne xs i j b (λ e. h (ap suc e))

set-false : (xs : List Bool) (i : ℕ) → get_or (set xs i false) i false ≡ false
set-false [] i = refl
set-false (x ∷ xs) zero = refl
set-false (x ∷ xs) (suc i) = set-false xs i

-- A mark that is left after clearing was there before, and not of a cleared index.
clear_seen-marked :
    (seen : List Bool) (is : List ℕ) (i : ℕ)
    → get_or (clear_seen seen is) i false ≡ true
    → (get_or seen i false ≡ true) × (¬ Elem i is)
unfolding clear_seen
clear_seen-marked seen [] i h = (h, λ m. m)
clear_seen-marked seen (x ∷ is) i h =
    let (still, other) = clear_seen-marked (set seen x false) is i h in
    elim (ℕ_discrete x i) [
      | yes e ↦ absurd (
          clash (subst (λ k. get_or (set seen x false) k false ≡ false) e (set-false seen x)) still)
      | no ne ↦ (
        sym (get_or-set_ne seen x i false ne) ∙ still,
        λ m. elim m [ inl e ↦ ne e | inr m' ↦ other m' ],
      )
    ]
  where
    clash : {b : Bool} → b ≡ false → b ≡ true → ⊥
    clash e f = cc (e, f)

unmarked : (size i : ℕ) → get_or (replicate size false) i false ≡ false
unmarked zero i = refl
unmarked (suc size) zero = refl
unmarked (suc size) (suc i) = unmarked size i

install-IsValid : (d : OrderedDirtyIndices) (size : ℕ) → IsValid (install d size)
unfolding install
install-IsValid d size = record {
  listed = λ i. ((λ m. absurd m), λ h. cc (h, unmarked size i));
  distinct = tt;
  order = λ _. tt;
}

clear-IsValid : (d : OrderedDirtyIndices) → IsValid d → IsValid (clear d)
unfolding clear
clear-IsValid d v = record {
  listed = λ i. (
    (λ m. absurd m),
    λ h.
        let (before, other) = clear_seen-marked d.seen d.indices i h in
        absurd (other ((v.listed i).1 before)),
  );
  distinct = tt;
  order = λ _. tt;
}

-- A nomination that is taken up.
nominated-IsValid :
    (d : OrderedDirtyIndices) (i : ℕ)
    → i < length d.seen
    → get_or d.seen i false ≡ false
    → IsValid d
    → IsValid (record { sorted = false; seen = set d.seen i true; indices = d.indices ++ i ∷ [] })
nominated-IsValid d i lt new v = record {
  listed = λ j. elim (ℕ_discrete i j) [
    | yes e ↦ (
      (λ _.
          subst (λ k. get_or (set d.seen i true) k false ≡ true) e
            (get_or-set_self d.seen i true lt)),
      λ _. Elem-append_right j d.indices (i ∷ []) (inl e),
    )
    | no ne ↦ (
      (λ m.
          get_or-set_ne d.seen i j true ne
          ∙ (v.listed j).0 (old j ne (Elem-append j d.indices (i ∷ []) m))),
      λ h.
          Elem-append_left j d.indices (i ∷ [])
            ((v.listed j).1 (sym (get_or-set_ne d.seen i j true ne) ∙ h)),
    )
  ];
  distinct = Distinct-snoc i d.indices v.distinct (λ m. cc ((v.listed i).0 m, new));
  order = λ f. cc f;
}
  where
    old : (j : ℕ) → i ≢ j → (Elem j d.indices) ⊎ (Elem j (i ∷ [])) → Elem j d.indices
    old j ne (inl m) = m
    old j ne (inr (inl e)) = absurd (ne e)
    old j ne (inr (inr n)) = absurd n

nominate-IsValid : (d : OrderedDirtyIndices) (x : ℤ) → IsValid d → IsValid (nominate d x)
unfolding nominate
nominate-IsValid d (negsuc n) v = v
nominate-IsValid d (pos i) v =
    elim (Bool-cases (ltb i (length d.seen) && not (get_or d.seen i false))) [
      | inl new ↦ rw new (nominated-IsValid d i (ground arith) (ground arith) v)
      | inr known ↦ rw known v
    ]

insert-IsValid : (d : OrderedDirtyIndices) (xs : List ℤ) → IsValid d → IsValid (insert d xs)
unfolding insert
insert-IsValid d [] v = v
insert-IsValid d (x ∷ xs) v = insert-IsValid (nominate d x) xs (nominate-IsValid d x v)

-- The indices that a nomination adds.
abbrev Adds : ℕ → ℤ → ℕ → Type 0
Adds size x i = (x ≡ pos i) × (i < size)

nominate-length : (d : OrderedDirtyIndices) (x : ℤ) → length (nominate d x).seen ≡ length d.seen
unfolding nominate
nominate-length d (negsuc n) = refl
nominate-length d (pos i) = ground (arith, length-set d.seen i true)

-- After a nomination.
nominate_known :
    (d : OrderedDirtyIndices) (i j : ℕ)
    → (ltb i (length d.seen) && not (get_or d.seen i false)) ≡ false
    → IsValid d
    → (Elem j d.indices) ↔ ((Elem j d.indices) ⊎ Adds (length d.seen) (pos i) j)
nominate_known d i j known v = (
  (λ m. inl m),
  λ m. elim m [
    | inl old ↦ old
    | inr (e, lt) ↦
        let here : i ≡ j = cc e in
        let seen : get_or d.seen i false ≡ true = ground (arith, here) in
        subst (λ k. Elem k d.indices) here ((v.listed i).1 seen)
  ],
)

nominate_iff :
    (d : OrderedDirtyIndices) (x : ℤ) (j : ℕ)
    → IsValid d
    → (Elem j (nominate d x).indices) ↔ ((Elem j d.indices) ⊎ Adds (length d.seen) x j)
unfolding nominate
nominate_iff d (negsuc n) j v = ((λ m. inl m), λ m. elim m [ inl old ↦ old | inr (e, lt) ↦ cc e ])
nominate_iff d (pos i) j v =
    elim (Bool-cases (ltb i (length d.seen) && not (get_or d.seen i false))) [
      | inl new ↦
          let inside : i < length d.seen = ground arith in
          rw new (
            (λ m. elim (Elem-append j d.indices (i ∷ []) m) [
              | inl old ↦ inl old
              | inr (inl e) ↦ inr (ap pos e, subst (λ k. k < length d.seen) e inside)
              | inr (inr n) ↦ absurd n
            ]),
            λ m. elim m [
              | inl old ↦ Elem-append_left j d.indices (i ∷ []) old
              | inr (e, lt) ↦ Elem-append_right j d.indices (i ∷ []) (inl (cc e))
            ],
          )
      | inr known ↦ rw known (nominate_known d i j known v)
    ]

insert_iff :
    (d : OrderedDirtyIndices) (xs : List ℤ) (j : ℕ)
    → IsValid d
    → (Elem j (insert d xs).indices)
      ↔ ((Elem j d.indices) ⊎ ((Elem (pos j) xs) × (j < length d.seen)))
unfolding insert
insert_iff d [] j v = ((λ m. inl m), λ m. elim m [ inl old ↦ old | inr (n, lt) ↦ absurd n ])
insert_iff d (x ∷ xs) j v =
    let first = nominate_iff d x j v in
    let size = nominate-length d x in
    let rest = insert_iff (nominate d x) xs j (nominate-IsValid d x v) in
    (
      (λ m. elim (rest.0 m) [
        | inl one ↦ elim (first.0 one) [ inl old ↦ inl old | inr (e, lt) ↦ inr (inl e, lt) ]
        | inr (m', lt) ↦ inr (inr m', subst (λ k. j < k) size lt)
      ]),
      λ m. elim m [
        | inl old ↦ rest.1 (inl (first.1 (inl old)))
        | inr (inl e, lt) ↦ rest.1 (inl (first.1 (inr (e, lt))))
        | inr (inr m', lt) ↦ rest.1 (inr (m', subst (λ k. j < k) (sym size) lt))
      ],
    )

-- A visit lists in order what has been nominated, and keeps it.
visit-indices :
    (d : OrderedDirtyIndices)
    → IsValid d
    → IsSorted (visit d).0 × ((j : ℕ) → (Elem j (visit d).0) ↔ (Elem j d.indices))
unfolding visit
visit-indices d v = elim (Bool-cases d.sorted) [
  | inl yes_sorted ↦ rw yes_sorted (v.order yes_sorted, λ j. ((λ m. m), λ m. m))
  | inr unsorted ↦ rw unsorted (sort-IsSorted d.indices v.distinct, λ j. sort_iff j d.indices)
]

-- From valid indices on, a visit after a batch of nominations goes in strictly ascending order
-- through exactly the indices that had been nominated before and those of the batch that are not
-- negative and below the installed size.
pub visit-insert :
    (d : OrderedDirtyIndices) (xs : List ℤ)
    → IsValid d
    → IsSorted (visit (insert d xs)).0
      × ((j : ℕ)
          → (Elem j (visit (insert d xs)).0)
            ↔ ((Elem j d.indices) ⊎ ((Elem (pos j) xs) × (j < length d.seen))))
visit-insert d xs v =
    let (ordered, same) = visit-indices (insert d xs) (insert-IsValid d xs v) in
    (
      ordered,
      λ j.
          let all = insert_iff d xs j v in ((λ m. all.0 ((same j).0 m)), λ m. (same j).1 (all.1 m)),
    )

-- What a client of the indices does.
pub data Call : Type 0 where
  size_of : ℕ → Call
  forget look : Call
  batch : List ℤ → Call

unfoldable pub after : OrderedDirtyIndices → Call → OrderedDirtyIndices
after d (size_of size) = install d size
after d forget = clear d
after d look = (visit d).1
after d (batch xs) = insert d xs

unfoldable pub after_all : OrderedDirtyIndices → List Call → OrderedDirtyIndices
after_all d [] = d
after_all d (c ∷ cs) = after_all (after d c) cs

visit-IsValid : (d : OrderedDirtyIndices) → IsValid d → IsValid (visit d).1
unfolding visit
visit-IsValid d v = elim (Bool-cases d.sorted) [
  | inl yes_sorted ↦
      rw yes_sorted
        (record { listed = v.listed; distinct = v.distinct; order = λ _. v.order yes_sorted })
  | inr unsorted ↦ rw unsorted (record {
    listed = λ i.
        let same = sort_iff i d.indices in
        ((λ m. (v.listed i).0 (same.0 m)), λ h. same.1 ((v.listed i).1 h));
    distinct = IsSorted-Distinct (sort d.indices) (sort-IsSorted d.indices v.distinct);
    order = λ _. sort-IsSorted d.indices v.distinct;
  })
]

after-IsValid : (d : OrderedDirtyIndices) (c : Call) → IsValid d → IsValid (after d c)
unfolding after
after-IsValid d (size_of size) v = install-IsValid d size
after-IsValid d forget v = clear-IsValid d v
after-IsValid d look v = visit-IsValid d v
after-IsValid d (batch xs) v = insert-IsValid d xs v

after_all-IsValid_from :
    (d : OrderedDirtyIndices) (cs : List Call) → IsValid d → IsValid (after_all d cs)
unfolding after_all
after_all-IsValid_from d [] v = v
after_all-IsValid_from d (c ∷ cs) v = after_all-IsValid_from (after d c) cs (after-IsValid d c v)

no_indices-IsValid : IsValid no_indices
no_indices-IsValid = record {
  listed = λ i. ((λ m. absurd m), λ h. cc h);
  distinct = tt;
  order = λ _. tt;
}

-- Whatever a client does, in any order, from the state at construction on: the marked indices are
-- those of the list, the list has each of them once, and it is in ascending order where it is said
-- to be sorted.
pub after_all-IsValid : (cs : List Call) → IsValid (after_all no_indices cs)
after_all-IsValid cs = after_all-IsValid_from no_indices cs no_indices-IsValid
