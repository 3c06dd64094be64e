-- ===== src/Storage/Roots.antt =====
-- Where native/src/runtime_storage.cpp makes and removes directories.
use peraviz.Prelude.{
  ℕ, ◌≤◌, ◌≡◌, ◌≢◌, ◌∙◌, ◌↔◌, refl, ap, true, false, List, [], ◌∷◌, ◌++◌, map, arith, length,
  same_text, same_text_sound, same_text_refl, All, Bool-cases, inl, inr,
}
use peraviz.Storage.{
  FilePath, is_unsafe, safe_char, sanitize_segment, is_within_runtime_root, Part, part_kind, go_up,
  add_part, in_order, or_dot, normal_parts, lexically_normal, starts_with, remove_owned_directory,
  TemporaryWorkspace, destroy, transfer_to_runtime_lease, end_lease,
}

within_sound :
    (root target : FilePath)
    → starts_with root target ≡ true
    → (rest : FilePath) × (target ≡ root ++ rest)
unfolding starts_with
within_sound [] target h = (target, refl)
within_sound (r ∷ root) [] h = cc h
within_sound (r ∷ root) (t ∷ target) h =
    let first : same_text t r ≡ true = ground arith in
    let below : starts_with root target ≡ true = ground arith in
    let (rest, e) = within_sound root target below in (rest, rw (same_text_sound t r first, e))

within_append : (root rest : FilePath) → starts_with root (root ++ rest) ≡ true
unfolding starts_with
within_append [] rest = refl
within_append (r ∷ root) rest = rw (same_text_refl r, within_append root rest)

within_iff :
    (root target : FilePath)
    → (starts_with root target ≡ true) ↔ ((rest : FilePath) × (target ≡ root ++ rest))
within_iff root target =
    ((λ h. within_sound root target h), λ (rest, e). rw e (within_append root rest))

-- A part that is not empty, `.`, `..` or `/`.
abbrev pub IsName : List ℕ → Type 0
IsName text = (text ≢ []) × ((text ≢ b'.' ∷ []) × ((text ≢ b'.' ∷ b'.' ∷ []) × (text ≢ b'/' ∷ [])))

different : (xs ys : List ℕ) → xs ≢ ys → same_text xs ys ≡ false
different xs ys h = elim (Bool-cases (same_text xs ys)) [
  | inl e ↦ absurd (h (same_text_sound xs ys e))
  | inr e ↦ e
]

part_kind-name : (text : List ℕ) → IsName text → part_kind text ≡ Part.name
unfolding part_kind
part_kind-name text (a, (b, (c, d))) = rw (different text [] a) (
    rw (different text (b'.' ∷ []) b)
      (rw (different text (b'.' ∷ b'.' ∷ []) c) (rw (different text (b'/' ∷ []) d) refl)))

add_part-name : (kept : FilePath) (n : List ℕ) → IsName n → add_part kept n ≡ n ∷ kept
unfolding add_part
add_part-name kept n h = rw (part_kind-name n h, add_part) refl

add_part-up : (kept : FilePath) → add_part kept (b'.' ∷ b'.' ∷ []) ≡ go_up kept
unfolding add_part part_kind same_text
add_part-up kept = refl

go_up-name : (kept : FilePath) (n : List ℕ) → IsName n → go_up (n ∷ kept) ≡ kept
unfolding go_up
go_up-name kept n h = rw (part_kind-name n h, go_up) refl

-- A name and `..` behind it leave what was there.
add_part-parent :
    (kept : FilePath) (n : List ℕ) → IsName n → add_part (add_part kept n) (b'.' ∷ b'.' ∷ []) ≡ kept
add_part-parent kept n h =
    ap (λ k. add_part k (b'.' ∷ b'.' ∷ [])) (add_part-name kept n h)
    ∙ (add_part-up (n ∷ kept) ∙ go_up-name kept n h)

normal_parts-parent :
    (kept pre : FilePath) (n last : List ℕ) (rest : FilePath)
    → IsName n
    → normal_parts kept (pre ++ n ∷ (b'.' ∷ b'.' ∷ []) ∷ last ∷ rest)
      ≡ normal_parts kept (pre ++ last ∷ rest)
unfolding normal_parts
normal_parts-parent kept [] n last rest h =
    ap (λ k. normal_parts k (last ∷ rest)) (add_part-parent kept n h)
normal_parts-parent kept (p ∷ []) n last rest h =
    normal_parts-parent (add_part kept p) [] n last rest h
normal_parts-parent kept (p ∷ q ∷ pre) n last rest h =
    normal_parts-parent (add_part kept p) (q ∷ pre) n last rest h

lexically_normal-parent :
    (pre : FilePath) (n last : List ℕ) (rest : FilePath)
    → IsName n
    → lexically_normal (pre ++ n ∷ (b'.' ∷ b'.' ∷ []) ∷ last ∷ rest)
      ≡ lexically_normal (pre ++ last ∷ rest)
unfolding lexically_normal
lexically_normal-parent [] n last rest h =
    ap (λ k. or_dot (in_order [] k)) (normal_parts-parent [] [] n last rest h)
lexically_normal-parent (p ∷ pre) n last rest h =
    ap (λ k. or_dot (in_order [] k)) (normal_parts-parent [] (p ∷ pre) n last rest h)

-- A path is within the runtime root exactly when the parts of the normal form of the root are the
-- first ones of its own; and a name with a `..` behind it, and a part behind that, can be taken out
-- of the path.
pub is_within_runtime_root_iff :
    (root target : FilePath)
    → ((is_within_runtime_root root target ≡ true)
        ↔ ((rest : FilePath) × (lexically_normal target ≡ lexically_normal root ++ rest)))
      × ((pre : FilePath) (n last : List ℕ) (rest : FilePath)
          → IsName n
          → target ≡ pre ++ n ∷ (b'.' ∷ b'.' ∷ []) ∷ last ∷ rest
          → is_within_runtime_root root target ≡ is_within_runtime_root root (pre ++ last ∷ rest))
unfolding is_within_runtime_root
is_within_runtime_root_iff root target = (
  within_iff (lexically_normal root) (lexically_normal target),
  λ pre n last rest h e.
      ap (starts_with (lexically_normal root))
        (ap lexically_normal e ∙ lexically_normal-parent pre n last rest h),
)

safe_char_safe : (c : ℕ) → is_unsafe (safe_char c) ≡ false
unfolding safe_char is_unsafe
safe_char_safe c = ground arith

map_safe : (value : List ℕ) → All (λ c. is_unsafe c ≡ false) (map safe_char value)
map_safe [] = tt
map_safe (c ∷ value) = (safe_char_safe c, map_safe value)

-- Whatever the prefix, the segment of a path made from it has a character at least, and no
-- separator, wildcard, quote or control character.
pub sanitize_segment-safe :
    (value : List ℕ)
    → (1 ≤ length (sanitize_segment value))
      × All (λ c. is_unsafe c ≡ false) (sanitize_segment value)
unfolding sanitize_segment
sanitize_segment-safe [] =
    unfold is_unsafe in
    (omega arith, (refl, (refl, (refl, (refl, (refl, (refl, (refl, (refl, (refl, tt))))))))))
sanitize_segment-safe (c ∷ value) = (omega arith, map_safe (c ∷ value))

-- The directory of a workspace is removed at most once: the workspace and the lease to which it is
-- transferred remove between them what the workspace alone would have removed.
transfer_to_runtime_lease_removes :
    (root : FilePath) (w : TemporaryWorkspace)
    → let (lease, w') = transfer_to_runtime_lease w in
      end_lease root lease ++ destroy root w' ≡ destroy root w
unfolding transfer_to_runtime_lease destroy end_lease
transfer_to_runtime_lease_removes root w = elim (Bool-cases w.owns) [
  | inl owned ↦ rw owned (append_nil (remove_owned_directory root w.path))
  | inr free ↦ rw free refl
]
  where
    append_nil : (xs : List FilePath) → xs ++ [] ≡ xs
    append_nil [] = refl
    append_nil (x ∷ xs) = ap (λ l. x ∷ l) (append_nil xs)
