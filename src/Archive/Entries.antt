-- ===== src/Archive/Entries.antt =====
-- Which entry `find_entry_name` of native/src/archive/zip_archive.cpp finds.
use peraviz.Prelude.{
  ℕ, ◌≡◌, refl, sym, ap, ◌∙◌, ◌||◌, Option, none, some, List, [], ◌∷◌, ◌==◌, length, same_text,
  same_text_sound, Bool-cases, Option-cases, inl, inr, ◌⊎◌, All, Elem,
}
use peraviz.Archive.{
  Index, no_entries, lower_ascii, normalize_path, is_directory_entry, find, erase, contains_text,
  add_entry, add_name, add_names, build_index, or_empty, folded_name, exact_or_folded,
  find_entry_name,
}

abbrev Pair : Type 0
Pair = List ℕ × List ℕ

All-find :
    (P : Pair → Type 0) (key : List ℕ) (l : List Pair) (v : List ℕ)
    → All P l
    → find key l ≡ some v
    → P (key, v)
unfolding find
All-find P key [] v h e = cc e
All-find P key ((k, w) ∷ l) v h e = elim (Bool-cases (same_text key k)) [
  | inl same ↦
      let value : some w ≡ some v = rw same at e in
      let here : w ≡ v = cc value in rw (same_text_sound key k same, ← here) h.0
  | inr other ↦ All-find P key l v h.1 (rw other at e)
]

All-erase : (P : Pair → Type 0) (key : List ℕ) (l : List Pair) → All P l → All P (erase key l)
unfolding erase
All-erase P key [] h = tt
All-erase P key ((k, w) ∷ l) h = elim (Bool-cases (same_text key k)) [
  | inl same ↦ rw same (All-erase P key l h.1)
  | inr other ↦ rw other (h.0, All-erase P key l h.1)
]

-- An entry of the index is a name of the archive, under its normal form.
abbrev pub IsEntry : List (Option (List ℕ)) → Pair → Type 0
IsEntry names (normalized, raw) = Elem (some raw) names × (normalize_path raw ≡ normalized)

-- A folded entry leads from the lower-case form of a normal form to that form.
abbrev pub IsFolded : Pair → Type 0
IsFolded (folded, normalized) = folded ≡ lower_ascii normalized

pub record IsIndex (names : List (Option (List ℕ))) (index : Index) : Type 0 where
  pub entries : All (IsEntry names) index.entries
  pub folded : All IsFolded index.folded_entries

add_entry-IsIndex :
    (names : List (Option (List ℕ))) (index : Index) (raw : List ℕ)
    → Elem (some raw) names
    → IsIndex names index
    → IsIndex names (add_entry index raw (normalize_path raw))
unfolding add_entry
add_entry-IsIndex names index raw m h =
    let folded = lower_ascii (normalize_path raw) in
    elim (Bool-cases (contains_text folded index.ambiguous)) [
      | inl ambiguous ↦ rw ambiguous h
      | inr clear ↦ elim (Option-cases (find folded index.folded_entries)) [
        | inl fresh ↦
            rw (clear, fresh)
              (record { entries = ((m, refl), h.entries); folded = (refl, h.folded) })
        | inr (prior, e) ↦
            rw (clear, e)
              (record {
                entries = All-erase (IsEntry names) prior index.entries h.entries;
                folded = All-erase IsFolded folded index.folded_entries h.folded;
              })
      ]
    ]

add_name-IsIndex :
    (names : List (Option (List ℕ))) (index : Index) (name : Option (List ℕ))
    → Elem name names
    → IsIndex names index
    → IsIndex names (add_name index name)
unfolding add_name
add_name-IsIndex names index none m h = h
add_name-IsIndex names index (some raw) m h =
    elim (Bool-cases
      (length (normalize_path raw) == 0 || is_directory_entry (normalize_path raw))) [
        | inl skipped ↦ rw skipped h
        | inr kept ↦ rw kept (add_entry-IsIndex names index raw m h)
      ]

add_names-IsIndex :
    (names : List (Option (List ℕ))) (index : Index) (left : List (Option (List ℕ)))
    → ((n : Option (List ℕ)) → Elem n left → Elem n names)
    → IsIndex names index
    → IsIndex names (add_names index left)
unfolding add_names
add_names-IsIndex names index [] sub h = h
add_names-IsIndex names index (n ∷ left) sub h =
    add_names-IsIndex names (add_name index n) left (λ k m. sub k (inr m))
      (add_name-IsIndex names index n (sub n (inl refl)) h)

build_index-IsIndex : (names : List (Option (List ℕ))) → IsIndex names (build_index names)
unfolding build_index
build_index-IsIndex names =
    add_names-IsIndex names no_entries names (λ n m. m) (record { entries = tt; folded = tt })

-- What a search has found: nothing, or a name of the archive with the wanted path but for the case
-- of ASCII letters.
abbrev pub IsMatch : List (Option (List ℕ)) → List ℕ → List ℕ → Type 0
IsMatch names path found =
    (found ≡ [])
    ⊎ (Elem (some found) names
        × (lower_ascii (normalize_path found) ≡ lower_ascii (normalize_path path)))

folded_name-IsMatch :
    (names : List (Option (List ℕ))) (index : Index) (path normalized : List ℕ)
    → IsIndex names index
    → lower_ascii (normalize_path path) ≡ lower_ascii normalized
    → (o : Option (List ℕ)) → find normalized index.entries ≡ o
    → IsMatch names path (or_empty o)
folded_name-IsMatch names index path normalized h same none e = inl refl
folded_name-IsMatch names index path normalized h same (some raw) e =
    let entry : IsEntry names (normalized, raw) =
      All-find (IsEntry names) normalized index.entries raw h.entries e in
    inr (entry.0, ap lower_ascii entry.1 ∙ sym same)

folded-IsMatch :
    (names : List (Option (List ℕ))) (index : Index) (path : List ℕ)
    → IsIndex names index
    → (o : Option (List ℕ)) → find (lower_ascii (normalize_path path)) index.folded_entries ≡ o
    → IsMatch names path (folded_name index o)
folded-IsMatch names index path h none e = inl refl
folded-IsMatch names index path h (some normalized) e =
    folded_name-IsMatch names index path normalized h
      (All-find IsFolded (lower_ascii (normalize_path path)) index.folded_entries normalized
        h.folded e)
      (find normalized index.entries) refl

exact-IsMatch :
    (names : List (Option (List ℕ))) (index : Index) (path : List ℕ)
    → IsIndex names index
    → (o : Option (List ℕ)) → find (normalize_path path) index.entries ≡ o
    → IsMatch names path (exact_or_folded index (normalize_path path) o)
exact-IsMatch names index path h none e =
    folded-IsMatch names index path h
      (find (lower_ascii (normalize_path path)) index.folded_entries) refl
exact-IsMatch names index path h (some raw) e =
    let entry : IsEntry names (normalize_path path, raw) =
      All-find (IsEntry names) (normalize_path path) index.entries raw h.entries e in
    inr (entry.0, ap lower_ascii entry.1)

-- A search in the index of an archive gives nothing, or a name that the archive has, whose normal
-- form is that of the wanted path but for the case of ASCII letters.
pub find_entry_name-IsMatch :
    (names : List (Option (List ℕ))) (path : List ℕ)
    → IsMatch names path (find_entry_name (build_index names) path)
unfolding find_entry_name
find_entry_name-IsMatch names path =
    exact-IsMatch names (build_index names) path (build_index-IsIndex names)
      (find (normalize_path path) (build_index names).entries) refl
