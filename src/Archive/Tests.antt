-- ===== src/Archive/Tests.antt =====
-- Paths and archives at concrete inputs.
use peraviz.Prelude.{
  ◌≡◌, ◌⊎◌, ◌++◌, true, false, take, drop, min, arith, refl, inr, ℕ, Option, some, none, List, [],
  ◌∷◌,
}
use peraviz.Archive.{build_index, find_entry_name, normalize_path}
use peraviz.Archive.Paths.{IsNormalized, normalize_path-IsNormalized}
use peraviz.Archive.Handle.{new_archive, reset, EntryAnswers, read_entry}
use peraviz.Archive.Handle.Ownership.{
  Operation, reading, creating, closing, perform_all, opened_by_all, perform_all-released,
}
use peraviz.Archive.Handle.Reads.{IsProgress, read_entry-whole}
use peraviz.Archive.Entries.{IsMatch, find_entry_name-IsMatch}

-- A path with a backslash.
abbrev windows_path : List ℕ
windows_path = b'.' ∷ b'/' ∷ b'a' ∷ 92 ∷ b'b' ∷ b'/' ∷ []

abbrev names : List (Option (List ℕ))
names = some (b'A' ∷ b'/' ∷ b'X' ∷ []) ∷ none ∷ some (b'.' ∷ b'.' ∷ b'/' ∷ b'c' ∷ []) ∷ []

normalize_path-IsNormalized_example : IsNormalized (normalize_path windows_path)
normalize_path-IsNormalized_example = normalize_path-IsNormalized windows_path

find_entry_name-IsMatch_example :
    IsMatch names
      (b'a' ∷ b'/' ∷ b'x' ∷ [])
      (find_entry_name (build_index names) (b'a' ∷ b'/' ∷ b'x' ∷ []))
find_entry_name-IsMatch_example = find_entry_name-IsMatch names (b'a' ∷ b'/' ∷ b'x' ∷ [])

-- Two handles, the second of which replaces the first, and is closed.
abbrev operations : List (Operation ℕ)
operations =
    reading (some 7) ∷ reading none ∷ creating (some 8) ∷ creating (some 9) ∷ closing false ∷ []

perform_all-released_example :
    (perform_all new_archive operations).1 ++ (reset (perform_all new_archive operations).0).1
    ≡ opened_by_all operations
perform_all-released_example = perform_all-released operations

-- An entry of three bytes, of which a read gives two at most.
abbrev bytes_held : List ℕ
bytes_held = 7 ∷ 8 ∷ 9 ∷ []

abbrev entry : EntryAnswers
entry = record {
  size = some 3;
  opened = true;
  read = λ offset wanted. some (take (min 2 wanted) (drop offset bytes_held));
  closes = true;
}

read_entry-whole_example :
    ((read_entry entry ≡ []) ⊎ (read_entry entry ≡ bytes_held))
    × (entry.opened ≡ true
        → entry.closes ≡ true
        → IsProgress bytes_held entry
        → read_entry entry ≡ bytes_held)
read_entry-whole_example =
    read_entry-whole bytes_held entry (λ at n. inr (min 2 n, omega arith, refl)) refl
