-- ===== src/Archive/Paths.antt =====
-- What `normalize_path` of native/src/archive/zip_archive.cpp lets through.
use peraviz.Prelude.{
  ℕ, ◌≡◌, ◌≢◌, refl, subst, Bool, false, ◌&&◌, ◌||◌, Option, none, some, List, [], ◌∷◌, arith, ◌==◌,
  map, same_text, same_text_refl, Bool-cases, inl, inr, ◌⊎◌, All,
}
use peraviz.Archive.{
  slash, is_directory_entry, strip_dots, has, Parts, push_char, split, dot, dot_dot, push_part,
  kept_parts, join, closed, joined, starts_with_slash, normalize_path,
}

-- A character that no part of a path has: neither a slash nor a backslash nor a colon.
pub record IsPlain (c : ℕ) : Type 0 where
  pub no_slash : c ≢ b'/'
  pub no_backslash : c ≢ 92
  pub no_colon : c ≢ b':'

-- A part of a path that names a file or a directory below the one before it.
pub record IsPart (part : List ℕ) : Type 0 where
  pub filled : part ≢ []
  pub not_dot : part ≢ dot
  pub not_dot_dot : part ≢ dot_dot
  pub plain : All IsPlain part

-- The characters that a path has after the backslashes are replaced and the colons are refused.
record IsAllowed (c : ℕ) : Type 0 where
  no_backslash : c ≢ 92
  no_colon : c ≢ b':'

slashes-plain : (text : List ℕ) → All (λ c. c ≢ 92) (map slash text)
unfolding slash
slashes-plain [] = tt
slashes-plain (c ∷ text) = (ground arith, slashes-plain text)

strip_dots-All : (P : ℕ → Type 0) (text : List ℕ) → All P text → All P (strip_dots text)
unfolding strip_dots
strip_dots-All P [] h = tt
strip_dots-All P (c ∷ []) h = h
strip_dots-All P (c ∷ d ∷ text) h = elim (Bool-cases (c == b'.' && d == b'/')) [
  | inl dots ↦ rw dots (strip_dots-All P text h.1.1)
  | inr name ↦ rw name h
]

has-IsAllowed :
    (text : List ℕ) → All (λ c. c ≢ 92) text → has b':' text ≡ false → All IsAllowed text
unfolding has
has-IsAllowed [] h e = tt
has-IsAllowed (c ∷ text) h e =
    (record { no_backslash = h.0; no_colon = ground arith }, has-IsAllowed text h.1 (ground arith))

-- The parts of a text have no slash.
abbrev PlainParts : Parts → Type 0
PlainParts (first, rest) = All IsPlain first × All (All IsPlain) rest

push_char-PlainParts : (c : ℕ) (p : Parts) → IsAllowed c → PlainParts p → PlainParts (push_char c p)
push_char-PlainParts c (first, rest) a h = elim (Bool-cases (c == b'/')) [
  | inl here ↦ rw here (tt, h)
  | inr other ↦ rw other (
    (record { no_slash = ground arith; no_backslash = a.no_backslash; no_colon = a.no_colon }, h.0),
    h.1,
  )
]

split-PlainParts : (text : List ℕ) → All IsAllowed text → PlainParts (split text)
unfolding split
split-PlainParts [] h = (tt, tt)
split-PlainParts (c ∷ text) h = push_char-PlainParts c (split text) h.0 (split-PlainParts text h.1)

differ : (xs ys : List ℕ) → same_text xs ys ≡ false → xs ≢ ys
differ xs ys h e = cc (subst (λ t. same_text t ys ≡ false) e h, same_text_refl ys)

-- The parts that are kept, if none is `..`.
abbrev AllParts : Option (List (List ℕ)) → Type 0
AllParts none = Unit
AllParts (some parts) = All IsPart parts

push_part-AllParts :
    (part : List ℕ) (o : Option (List (List ℕ)))
    → IsPart part
    → AllParts o
    → AllParts (push_part part o)
push_part-AllParts part none p h = tt
push_part-AllParts part (some parts) p h = (p, h)

kept_parts-AllParts :
    (parts : List (List ℕ)) → All (All IsPlain) parts → AllParts (kept_parts parts)
unfolding kept_parts
kept_parts-AllParts [] h = tt
kept_parts-AllParts (part ∷ parts) h =
    let ih = kept_parts-AllParts parts h.1 in
    elim (Bool-cases (same_text part dot_dot)) [
      | inl up ↦ rw up tt
      | inr below ↦ elim (Bool-cases (same_text part [] || same_text part dot)) [
        | inl skipped ↦ rw (below, skipped) ih
        | inr kept ↦
            rw (below, kept)
              (push_part-AllParts part (kept_parts parts)
                (record {
                  filled = differ part [] (ground arith);
                  not_dot = differ part dot (ground arith);
                  not_dot_dot = differ part dot_dot below;
                  plain = h.0;
                })
                ih)
      ]
    ]

-- A path that is refused, or the one of its parts.
abbrev pub IsNormalized : List ℕ → Type 0
IsNormalized path =
    (path ≡ [])
    ⊎ ((parts : List (List ℕ)) × (directory : Bool) × All IsPart parts
        × (path ≡ closed directory (join parts)))

joined-IsNormalized :
    (directory : Bool) (o : Option (List (List ℕ))) → AllParts o → IsNormalized (joined directory o)
joined-IsNormalized directory none h = inl refl
joined-IsNormalized directory (some parts) h = inr (parts, directory, h, refl)

-- Whatever the path of an entry, its normal form is empty or consists of parts with a slash
-- between any two, and one at the end for a directory: no part is empty, `.` or `..`, and none has
-- a slash, a backslash or a colon.
pub normalize_path-IsNormalized : (path : List ℕ) → IsNormalized (normalize_path path)
unfolding normalize_path
normalize_path-IsNormalized path =
    let text = strip_dots (map slash path) in
    elim (Bool-cases (starts_with_slash text || has b':' text)) [
      | inl refused ↦ rw refused (inl refl)
      | inr fine ↦
          let allowed =
            has-IsAllowed text (strip_dots-All (λ c. c ≢ 92) (map slash path) (slashes-plain path))
              (ground arith) in
          let plain = split-PlainParts text allowed in
          rw fine (
            joined-IsNormalized (is_directory_entry text)
              (kept_parts ((split text).0 ∷ (split text).1))
              (kept_parts-AllParts ((split text).0 ∷ (split text).1) plain))
    ]
