-- ===== src/Xchange/Uuid/Canonical.antt =====
-- The canonical form of native/src/mvrxchange/mvr_xchange_packet.cpp's UUID texts.
use peraviz.Prelude.{
  ℕ, zero, suc, ◌+◌, ◌≤◌, ◌≡◌, refl, sym, ap, ◌∙◌, true, false, not, ◌⊎◌, inl, inr, Option, none,
  some, List, [], ◌∷◌, ◌++◌, arith, ◌==◌, length, take, drop, length-append, length-take,
  length-drop, take-append-drop, Bool-cases, All,
}
use mathlib.Core.List.{append-nil}
use peraviz.Xchange.Uuid.{
  is_xdigit, to_lower, is_skipped, push_hex, collect_hex, hyphenate, canonical_of,
  canonicalize_uuid, is_valid_uuid,
}

-- A digit as the canonical form writes it.
abbrev pub IsHex : ℕ → Type 0
IsHex c = ((b'0' ≤ c) × (c ≤ b'9')) ⊎ ((b'a' ≤ c) × (c ≤ b'f'))

hex-kept : (c : ℕ) → IsHex c → (is_skipped c ≡ false) × (is_xdigit c ≡ true) × (to_lower c ≡ c)
unfolding is_skipped is_xdigit to_lower
hex-kept c h = ground arith

lower-IsHex : (c : ℕ) → is_xdigit c ≡ true → IsHex (to_lower c)
unfolding is_xdigit to_lower
lower-IsHex c h = ground arith

abbrev AllHex : Option (List ℕ) → Type 0
AllHex none = Unit
AllHex (some hex) = All IsHex hex

push-AllHex : (c : ℕ) (o : Option (List ℕ)) → IsHex c → AllHex o → AllHex (push_hex c o)
push-AllHex c none h k = tt
push-AllHex c (some hex) h k = (h, k)

collect-AllHex : (text : List ℕ) → AllHex (collect_hex text)
unfolding collect_hex
collect-AllHex [] = tt
collect-AllHex (c ∷ text) =
    let ih = collect-AllHex text in
    elim (Bool-cases (is_skipped c)) [
      | inl skip ↦ rw skip ih
      | inr keep ↦ elim (Bool-cases (is_xdigit c)) [
        | inl digit ↦
            rw (keep, digit) (push-AllHex (to_lower c) (collect_hex text) (lower-IsHex c digit) ih)
        | inr other ↦ rw (keep, other) tt
      ]
    ]

-- Collecting after canonical digits, and after a hyphen.
collect-digits :
    (hex text rest : List ℕ)
    → All IsHex hex
    → collect_hex text ≡ some rest
    → collect_hex (hex ++ text) ≡ some (hex ++ rest)
unfolding collect_hex
collect-digits [] text rest h e = e
collect-digits (c ∷ hex) text rest h e =
    let kept = hex-kept c h.0 in rw (kept.0, kept.1, kept.2, collect-digits hex text rest h.1 e)

collect-hyphen : (text : List ℕ) → collect_hex (b'-' ∷ text) ≡ collect_hex text
unfolding collect_hex is_skipped
collect-hyphen text = refl

All-take : (n : ℕ) (xs : List ℕ) → All IsHex xs → All IsHex (take n xs)
All-take zero xs h = tt
All-take (suc n) [] h = tt
All-take (suc n) (x ∷ xs) h = (h.0, All-take n xs h.1)

All-drop : (n : ℕ) (xs : List ℕ) → All IsHex xs → All IsHex (drop n xs)
All-drop zero xs h = h
All-drop (suc n) [] h = tt
All-drop (suc n) (x ∷ xs) h = All-drop n xs h.1

drop-nil : (n : ℕ) → drop {A = ℕ} n [] ≡ []
drop-nil zero = refl
drop-nil (suc n) = refl

drop-drop : (n m : ℕ) (xs : List ℕ) → drop n (drop m xs) ≡ drop (m + n) xs
drop-drop n zero xs = ap (λ k. drop k xs) (omega arith)
drop-drop n (suc m) [] = drop-nil n ∙ sym (drop-nil (suc m + n))
drop-drop n (suc m) (x ∷ xs) =
    let e : suc (m + n) ≡ suc m + n = omega arith in drop-drop n m xs ∙ ap (λ k. drop k (x ∷ xs)) e

take-all : (n : ℕ) (xs : List ℕ) → length xs ≤ n → take n xs ≡ xs
take-all zero [] h = refl
take-all zero (x ∷ xs) h = absurd (omega arith)
take-all (suc n) [] h = refl
take-all (suc n) (x ∷ xs) h = ap (λ l. x ∷ l) (take-all n xs (omega arith))

-- A group of digits before a hyphen.
collect-group :
    (n m k : ℕ) (hex text : List ℕ)
    → All IsHex hex
    → m + n ≡ k
    → collect_hex text ≡ some (drop k hex)
    → collect_hex (take n (drop m hex) ++ (b'-' ∷ text)) ≡ some (drop m hex)
collect-group n m k hex text h e c =
    collect-digits (take n (drop m hex)) (b'-' ∷ text) (drop k hex)
      (All-take n (drop m hex) (All-drop m hex h)) (collect-hyphen text ∙ c)
    ∙ ap some (
        ap (λ l. take n (drop m hex) ++ l) (ap (λ j. drop j hex) (sym e) ∙ sym (drop-drop n m hex))
        ∙ take-append-drop n (drop m hex))

-- Collecting the hyphenated form gives the digits back.
collect-hyphenate :
    (hex : List ℕ) → All IsHex hex → length hex ≡ 32 → collect_hex (hyphenate hex) ≡ some hex
unfolding hyphenate
collect-hyphenate hex h e = collect-group 8 0 8 hex _ h refl (
    collect-group 4 8 12 hex _ h refl (
      collect-group 4 12 16 hex _ h refl
        (collect-group 4 16 20 hex _ h refl (ap collect_hex last ∙ collect-last))))
  where
    last : take 12 (drop 20 hex) ≡ drop 20 hex ++ []
    last =
        take-all 12 (drop 20 hex) (omega (arith, length-drop 20 hex))
        ∙ sym (append-nil (drop 20 hex))

    collect-last : collect_hex (drop 20 hex ++ []) ≡ some (drop 20 hex)
    collect-last =
        collect-digits (drop 20 hex) [] [] (All-drop 20 hex h) (unfold collect_hex in refl)
        ∙ ap some (append-nil (drop 20 hex))

length-hyphenate : (hex : List ℕ) → length hex ≡ 32 → length (hyphenate hex) ≡ 36
unfolding hyphenate
length-hyphenate hex e = omega (arith, length-append {0}, length-take {0}, length-drop {0})

canonical_again :
    (o : Option (List ℕ)) → AllHex o → canonicalize_uuid (canonical_of o) ≡ canonical_of o
unfolding canonicalize_uuid
canonical_again none h = unfold collect_hex in refl
canonical_again (some hex) h = elim (Bool-cases (length hex == 32)) [
  | inl full ↦ rw (full, collect-hyphenate hex h (ground arith), full)
  | inr other ↦ rw other (unfold collect_hex in refl)
]

canonicalize_idempotent :
    (text : List ℕ) → canonicalize_uuid (canonicalize_uuid text) ≡ canonicalize_uuid text
unfolding canonicalize_uuid
canonicalize_idempotent text = canonical_again (collect_hex text) (collect-AllHex text)

pub digits_of_valid :
    (o : Option (List ℕ))
    → not (length (canonical_of o) == 0) ≡ true
    → (hex : List ℕ) × (o ≡ some hex) × (length hex ≡ 32)
digits_of_valid none h = cc h
digits_of_valid (some hex) h = elim (Bool-cases (length hex == 32)) [
  | inl full ↦ (hex, refl, ground arith)
  | inr other ↦ cc (rw other at h)
]

pub size_of_digits :
    (o : Option (List ℕ)) (hex : List ℕ)
    → o ≡ some hex
    → length hex ≡ 32
    → length (canonical_of o) ≡ 36
size_of_digits o hex e n =
    let full : (length hex == 32) ≡ true = ground arith in rw (e, full) (length-hyphenate hex n)

pub valid_of_size :
    (text : List ℕ) → length (canonicalize_uuid text) ≡ 36 → is_valid_uuid text ≡ true
unfolding is_valid_uuid
valid_of_size text h = ground arith

size_of_valid : (text : List ℕ) → is_valid_uuid text ≡ true → length (canonicalize_uuid text) ≡ 36
unfolding is_valid_uuid canonicalize_uuid
size_of_valid text h =
    let (hex, e, n) = digits_of_valid (collect_hex text) h in
    size_of_digits (collect_hex text) hex e n

-- The canonical form of a valid UUID has 36 characters, is valid and is its own canonical form.
pub canonicalize_uuid-canonicalize_uuid :
    (text : List ℕ)
    → is_valid_uuid text ≡ true
    → (length (canonicalize_uuid text) ≡ 36)
      × (is_valid_uuid (canonicalize_uuid text) ≡ true)
      × (canonicalize_uuid (canonicalize_uuid text) ≡ canonicalize_uuid text)
canonicalize_uuid-canonicalize_uuid text h =
    let again = canonicalize_idempotent text in
    let size = size_of_valid text h in
    (size, valid_of_size (canonicalize_uuid text) (ap length again ∙ size), again)
