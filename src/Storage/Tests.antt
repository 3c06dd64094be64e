-- ===== src/Storage/Tests.antt =====
-- Paths under a root of three parts.
use peraviz.Prelude.{ℕ, ◌≡◌, ◌↔◌, refl, true, false, List, [], ◌∷◌, ◌++◌, same_text}
use peraviz.Storage.{
  FilePath, is_within_runtime_root, lexically_normal, normal_parts, part_kind, add_part, add_last,
  add_slash, go_up, in_order, starts_with,
}
use peraviz.Storage.Roots.{IsName, is_within_runtime_root_iff}

abbrev parent : List ℕ
parent = b'.' ∷ b'.' ∷ []

abbrev root : FilePath
root = (b'/' ∷ []) ∷ (b't' ∷ b'm' ∷ b'p' ∷ []) ∷ (b'P' ∷ []) ∷ []

-- `/tmp/P/../x`
abbrev outside : FilePath
outside = root ++ parent ∷ (b'x' ∷ []) ∷ []

-- `/tmp/P/a/..`
abbrev inside : FilePath
inside = root ++ (b'a' ∷ []) ∷ parent ∷ []

outside-refused : is_within_runtime_root root outside ≡ false
unfolding is_within_runtime_root lexically_normal normal_parts part_kind add_part add_last add_slash
    go_up in_order starts_with same_text
outside-refused = refl

inside-normal : lexically_normal inside ≡ root ++ [] ∷ []
unfolding lexically_normal normal_parts part_kind add_part add_last add_slash go_up in_order
    same_text
inside-normal = refl

is_within_runtime_root_iff_example :
    ((is_within_runtime_root root outside ≡ true)
      ↔ ((rest : FilePath) × (lexically_normal outside ≡ lexically_normal root ++ rest)))
    × ((pre : FilePath) (n last : List ℕ) (rest : FilePath)
        → IsName n
        → outside ≡ pre ++ n ∷ (b'.' ∷ b'.' ∷ []) ∷ last ∷ rest
        → is_within_runtime_root root outside ≡ is_within_runtime_root root (pre ++ last ∷ rest))
is_within_runtime_root_iff_example = is_within_runtime_root_iff root outside
