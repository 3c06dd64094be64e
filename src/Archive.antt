-- ===== src/Archive.antt =====
-- native/src/archive/zip_archive.cpp: the index of an archive's entries. A text is a list of bytes;
-- the names of the entries, in the order in which libzip numbers them, are an argument, with
-- `none` where it gives no name.
pub mod Paths
pub mod Entries
pub mod Handle
mod Tests
use peraviz.Prelude.{
  ℕ, zero, suc, ◌+◌, Bool, true, false, not, ◌&&◌, ◌||◌, Option, none, some, List, [], ◌∷◌, ◌++◌,
  leb, ◌==◌, if◌then◌else◌, length, map, same_text,
}

-- `lower_ascii`, and the backslashes that `normalize_path` replaces.
unfoldable pub lower_char : ℕ → ℕ
lower_char c = if leb b'A' c && leb c b'Z' then c + 32 else c

unfoldable pub lower_ascii : List ℕ → List ℕ
unfolding lower_char
lower_ascii value = map lower_char value

unfoldable pub slash : ℕ → ℕ
slash c = if c == 92 then b'/' else c

-- Whether the last character is a slash.
unfoldable pub is_directory_entry : List ℕ → Bool
is_directory_entry [] = false
is_directory_entry (c ∷ []) = c == b'/'
is_directory_entry (c ∷ d ∷ text) = is_directory_entry (d ∷ text)

-- The loop that erases `./` at the start.
unfoldable pub strip_dots : List ℕ → List ℕ
strip_dots [] = []
strip_dots (c ∷ []) = c ∷ []
strip_dots (c ∷ d ∷ text) = if c == b'.' && d == b'/' then strip_dots text else c ∷ d ∷ text

unfoldable pub has : ℕ → List ℕ → Bool
has c [] = false
has c (d ∷ text) = c == d || has c text

-- `std::getline` at slashes: the parts of a text, the first one and the others. A slash at the end
-- gives no part after it there, and an empty one here, which `joined` skips.
abbrev pub Parts : Type 0
Parts = List ℕ × List (List ℕ)

abbrev pub push_char : ℕ → Parts → Parts
push_char c (first, rest) = if c == b'/' then ([], first ∷ rest) else (c ∷ first, rest)

unfoldable pub split : List ℕ → Parts
split [] = ([], [])
split (c ∷ text) = push_char c (split text)

abbrev pub dot : List ℕ
dot = b'.' ∷ []

abbrev pub dot_dot : List ℕ
dot_dot = b'.' ∷ b'.' ∷ []

-- The parts that the loop keeps; `none` where it meets `..`.
abbrev pub push_part : List ℕ → Option (List (List ℕ)) → Option (List (List ℕ))
push_part part none = none
push_part part (some parts) = some (part ∷ parts)

unfoldable pub kept_parts : List (List ℕ) → Option (List (List ℕ))
kept_parts [] = some []
kept_parts (part ∷ parts) =
    let rest = kept_parts parts in
    if same_text part dot_dot
    then none
    else if same_text part [] || same_text part dot
    then rest
    else push_part part rest

unfoldable pub join : List (List ℕ) → List ℕ
join [] = []
join (part ∷ []) = part
join (part ∷ next ∷ parts) = part ++ b'/' ∷ join (next ∷ parts)

-- The slash that is put back at the end.
abbrev pub closed : Bool → List ℕ → List ℕ
closed directory [] = []
closed false (c ∷ text) = c ∷ text
closed true (c ∷ text) = (c ∷ text) ++ b'/' ∷ []

abbrev pub joined : Bool → Option (List (List ℕ)) → List ℕ
joined directory none = []
joined directory (some parts) = closed directory (join parts)

abbrev pub starts_with_slash : List ℕ → Bool
starts_with_slash [] = true
starts_with_slash (c ∷ text) = c == b'/'

-- The empty text where the path is refused.
unfoldable pub normalize_path : List ℕ → List ℕ
normalize_path archive_path =
    let normalized = strip_dots (map slash archive_path) in
    let (first, rest) = split normalized in
    if starts_with_slash normalized || has b':' normalized
    then []
    else joined (is_directory_entry normalized) (kept_parts (first ∷ rest))

pub record Index : Type 0 where
  pub entries : List (List ℕ × List ℕ)
  pub folded_entries : List (List ℕ × List ℕ)
  pub ambiguous : List (List ℕ)

abbrev pub no_entries : Index
no_entries = record { entries = []; folded_entries = []; ambiguous = [] }

unfoldable pub find : List ℕ → List (List ℕ × List ℕ) → Option (List ℕ)
find key [] = none
find key ((k, v) ∷ rest) = if same_text key k then some v else find key rest

unfoldable pub erase : List ℕ → List (List ℕ × List ℕ) → List (List ℕ × List ℕ)
erase key [] = []
erase key ((k, v) ∷ rest) =
    let later = erase key rest in if same_text key k then later else (k, v) ∷ later

unfoldable pub contains_text : List ℕ → List (List ℕ) → Bool
contains_text key [] = false
contains_text key (k ∷ rest) = same_text key k || contains_text key rest

-- One round of the loop of `build_index`, for a name that is kept.
unfoldable pub add_entry : Index → List ℕ → List ℕ → Index
add_entry index raw normalized =
    let folded = lower_ascii normalized in
    if contains_text folded index.ambiguous
    then index
    else elim (find folded index.folded_entries) [
      | some prior ↦ record {
        entries = erase prior index.entries;
        folded_entries = erase folded index.folded_entries;
        ambiguous = folded ∷ index.ambiguous;
      }
      | none ↦ record index {
        entries = (normalized, raw) ∷ index.entries;
        folded_entries = (folded, normalized) ∷ index.folded_entries;
      }
    ]

unfoldable pub add_name : Index → Option (List ℕ) → Index
add_name index none = index
add_name index (some raw) =
    let normalized = normalize_path raw in
    if length normalized == 0 || is_directory_entry normalized
    then index
    else add_entry index raw normalized

unfoldable pub add_names : Index → List (Option (List ℕ)) → Index
add_names index [] = index
add_names index (name ∷ names) = add_names (add_name index name) names

unfoldable pub build_index : List (Option (List ℕ)) → Index
build_index names = add_names no_entries names

abbrev pub or_empty : Option (List ℕ) → List ℕ
or_empty none = []
or_empty (some text) = text

-- `entries_.at` of a folded entry finds its entry, which the index has.
abbrev pub folded_name : Index → Option (List ℕ) → List ℕ
folded_name index none = []
folded_name index (some normalized) = or_empty (find normalized index.entries)

abbrev pub exact_or_folded : Index → List ℕ → Option (List ℕ) → List ℕ
exact_or_folded index target (some raw) = raw
exact_or_folded index target none =
    folded_name index (find (lower_ascii target) index.folded_entries)

unfoldable pub find_entry_name : Index → List ℕ → List ℕ
find_entry_name index archive_path =
    let target = normalize_path archive_path in
    exact_or_folded index target (find target index.entries)

unfoldable pub file_exists : Index → List ℕ → Bool
file_exists index archive_path = not (length (find_entry_name index archive_path) == 0)
