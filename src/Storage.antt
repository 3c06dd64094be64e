-- ===== src/Storage.antt =====
-- native/src/runtime_storage.cpp: the directories that the process makes under its runtime root and
-- removes again. A path is the list of the parts that its iterator gives, as on POSIX: the root
-- directory `/` is a part, and a slash at the end gives an empty last part.
pub mod Roots
mod Tests
use peraviz.Prelude.{
  ℕ, Bool, true, false, not, ◌&&◌, ◌||◌, Option, none, some, List, [], ◌∷◌, map, ltb, ◌==◌,
  if◌then◌else◌, length, same_text,
}

abbrev pub FilePath : Type 0
FilePath = List (List ℕ)

-- `/ \ : * ? " < > |` and the control characters.
unfoldable pub is_unsafe : ℕ → Bool
is_unsafe c =
    ltb c 32
    || (c == b'/'
        || (c == 92
            || (c == b':'
                || (c == b'*'
                    || (c == b'?' || (c == 34 || (c == b'<' || (c == b'>' || c == b'|'))))))))

unfoldable pub safe_char : ℕ → ℕ
safe_char c = if is_unsafe c then b'_' else c

-- `workspace`
abbrev pub default_segment : List ℕ
default_segment = b'w' ∷ b'o' ∷ b'r' ∷ b'k' ∷ b's' ∷ b'p' ∷ b'a' ∷ b'c' ∷ b'e' ∷ []

unfoldable pub sanitize_segment : List ℕ → List ℕ
sanitize_segment [] = default_segment
sanitize_segment (c ∷ value) = map safe_char (c ∷ value)

-- The parts that `std::filesystem::path::lexically_normal` treats apart.
pub data Part : Type 0 where
  blank parent directory name : Part

unfoldable pub part_kind : List ℕ → Part
part_kind text =
    if same_text text [] || same_text text (b'.' ∷ [])
    then Part.blank
    else (if same_text text (b'.' ∷ b'.' ∷ [])
        then Part.parent
        else (if same_text text (b'/' ∷ []) then Part.directory else Part.name))

-- `..` behind the parts that are kept, the last one first.
unfoldable pub go_up : FilePath → FilePath
go_up [] = (b'.' ∷ b'.' ∷ []) ∷ []
go_up (last ∷ kept) = elim (part_kind last) [
  | Part.directory ↦ last ∷ kept
  | Part.parent ↦ (b'.' ∷ b'.' ∷ []) ∷ last ∷ kept
  | Part.blank ↦ kept
  | Part.name ↦ kept
]

unfoldable pub add_part : FilePath → List ℕ → FilePath
add_part kept part = elim (part_kind part) [
  | Part.blank ↦ kept
  | Part.parent ↦ go_up kept
  | Part.directory ↦ part ∷ kept
  | Part.name ↦ part ∷ kept
]

-- A slash at the end, behind a name only.
unfoldable pub add_slash : FilePath → FilePath
add_slash [] = []
add_slash (last ∷ kept) = elim (part_kind last) [
  | Part.name ↦ [] ∷ last ∷ kept
  | Part.blank ↦ last ∷ kept
  | Part.parent ↦ last ∷ kept
  | Part.directory ↦ last ∷ kept
]

-- The last part: `.`, `..` and an empty one leave a slash.
unfoldable pub add_last : FilePath → List ℕ → FilePath
add_last kept part = elim (part_kind part) [
  | Part.blank ↦ add_slash kept
  | Part.parent ↦ add_slash (go_up kept)
  | Part.directory ↦ part ∷ kept
  | Part.name ↦ part ∷ kept
]

-- The parts in order, or `.` if nothing is left.
unfoldable pub in_order : FilePath → FilePath → FilePath
in_order done [] = done
in_order done (part ∷ kept) = in_order (part ∷ done) kept

abbrev pub or_dot : FilePath → FilePath
or_dot [] = (b'.' ∷ []) ∷ []
or_dot (part ∷ parts) = part ∷ parts

unfoldable pub normal_parts : FilePath → FilePath → FilePath
normal_parts kept [] = kept
normal_parts kept (part ∷ []) = add_last kept part
normal_parts kept (part ∷ next ∷ parts) = normal_parts (add_part kept part) (next ∷ parts)

unfoldable pub lexically_normal : FilePath → FilePath
lexically_normal [] = []
lexically_normal (part ∷ parts) = or_dot (in_order [] (normal_parts [] (part ∷ parts)))

-- The loop of `is_within_runtime_root`.
unfoldable pub starts_with : FilePath → FilePath → Bool
starts_with [] target = true
starts_with (r ∷ root) [] = false
starts_with (r ∷ root) (t ∷ target) = same_text t r && starts_with root target

unfoldable pub is_within_runtime_root : FilePath → FilePath → Bool
is_within_runtime_root runtime_root path =
    starts_with (lexically_normal runtime_root) (lexically_normal path)

-- The paths on which `remove_all` is called, for a path that is not empty or an empty one.
unfoldable pub remove_owned_directory : FilePath → FilePath → List FilePath
remove_owned_directory root path =
    if length path == 0 || not (is_within_runtime_root root path) then [] else path ∷ []

pub record TemporaryWorkspace : Type 0 where
  pub path : FilePath
  pub owns : Bool

-- The constructor, by what `create_unique_directory` returns.
unfoldable pub new_workspace : FilePath → TemporaryWorkspace
new_workspace created = record { path = created; owns = not (length created == 0) }

-- The move constructor: the new workspace and the old one, whose path a move leaves as `left`.
unfoldable pub move : FilePath → TemporaryWorkspace → TemporaryWorkspace × TemporaryWorkspace
move left other = (other, record { path = left; owns = false })

-- The destructor.
unfoldable pub destroy : FilePath → TemporaryWorkspace → List FilePath
destroy root w = if w.owns then remove_owned_directory root w.path else []

-- The move assignment of another workspace: this one, the other one, and what is removed.
unfoldable pub move_assign :
    FilePath
    → FilePath
    → TemporaryWorkspace
    → TemporaryWorkspace
    → TemporaryWorkspace × TemporaryWorkspace × List FilePath
move_assign root left w other = (other, record { path = left; owns = false }, destroy root w)

unfoldable pub is_valid : TemporaryWorkspace → Bool
is_valid w = w.owns && not (length w.path == 0)

-- `transfer_to_runtime_lease`: the path of the lease, and the workspace.
unfoldable pub transfer_to_runtime_lease : TemporaryWorkspace → Option FilePath × TemporaryWorkspace
transfer_to_runtime_lease w = if w.owns then (some w.path, record w { owns = false }) else (none, w)

-- What the end of the last copy of a lease removes.
unfoldable pub end_lease : FilePath → Option FilePath → List FilePath
end_lease root none = []
end_lease root (some path) = remove_owned_directory root path
