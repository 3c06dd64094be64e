-- ===== src/Xchange/Uuid/Written.antt =====
-- Which texts native/src/mvrxchange/mvr_xchange_packet.cpp takes for a UUID.
use peraviz.Prelude.{
  ℕ, suc, ◌≤◌, ◌≡◌, refl, ap, subst, Option-cases, true, false, ◌⊎◌, inl, inr, ◌↔◌, some, List, [],
  ◌∷◌, arith, length, Bool-cases,
}
use mathlib.Core.Option.{some-injective}
use peraviz.Xchange.Uuid.{
  is_xdigit, to_lower, is_skipped, collect_hex, canonicalize_uuid, is_valid_uuid,
}
use peraviz.Xchange.Uuid.Canonical.{digits_of_valid, size_of_digits, valid_of_size}

-- A hexadecimal digit of either case, and what may stand between the digits.
abbrev pub IsHexDigit : ℕ → Type 0
IsHexDigit c = ((b'0' ≤ c) × (c ≤ b'9')) ⊎ (((b'a' ≤ c) × (c ≤ b'f')) ⊎ ((b'A' ≤ c) × (c ≤ b'F')))

abbrev pub IsSeparator : ℕ → Type 0
IsSeparator c = (c ≡ b'{') ⊎ ((c ≡ b'}') ⊎ (c ≡ b'-'))

-- A text of so many hexadecimal digits, with separators anywhere.
pub data UuidText : List ℕ → ℕ → Type 0 where
  empty : UuidText [] 0
  separator :
      {c : ℕ} {text : List ℕ} {n : ℕ} → IsSeparator c → UuidText text n → UuidText (c ∷ text) n
  digit :
      {c : ℕ} {text : List ℕ} {n : ℕ} → IsHexDigit c → UuidText text n → UuidText (c ∷ text) (suc n)

separator_skipped : (c : ℕ) → IsSeparator c → is_skipped c ≡ true
unfolding is_skipped
separator_skipped c h = ground arith

is_skipped-IsSeparator : (c : ℕ) → is_skipped c ≡ true → IsSeparator c
unfolding is_skipped
is_skipped-IsSeparator c h = ground arith

digit_kept : (c : ℕ) → IsHexDigit c → (is_skipped c ≡ false) × (is_xdigit c ≡ true)
unfolding is_skipped is_xdigit
digit_kept c h = ground arith

xdigit_digit : (c : ℕ) → is_xdigit c ≡ true → IsHexDigit c
unfolding is_xdigit
xdigit_digit c h = ground arith

-- What `collect_hex` finds in a text of so many digits.
abbrev Collected : List ℕ → ℕ → Type 0
Collected text n = (hex : List ℕ) × (collect_hex text ≡ some hex) × (length hex ≡ n)

collect-UuidText : {text : List ℕ} {n : ℕ} → UuidText text n → Collected text n
unfolding collect_hex
collect-UuidText UuidText.empty = ([], refl, refl)
collect-UuidText (UuidText.separator {c} h t) =
    let (hex, e, size) = collect-UuidText t in (hex, rw (separator_skipped c h) e, size)
collect-UuidText (UuidText.digit {c} h t) =
    let (hex, e, size) = collect-UuidText t in
    let kept = digit_kept c h in (to_lower c ∷ hex, rw (kept.0, kept.1, e) refl, ap suc size)

UuidText-collect : (text hex : List ℕ) → collect_hex text ≡ some hex → UuidText text (length hex)
unfolding collect_hex
UuidText-collect [] hex e =
    subst (λ h. UuidText [] (length h)) (some-injective _ _ e) UuidText.empty
UuidText-collect (c ∷ text) hex e = elim (Bool-cases (is_skipped c)) [
  | inl skip ↦
      UuidText.separator (is_skipped-IsSeparator c skip) (UuidText-collect text hex (rw skip at e))
  | inr keep ↦ elim (Bool-cases (is_xdigit c)) [
    | inr other ↦ cc (rw (keep, other) at e)
    | inl xdigit ↦ elim (Option-cases (collect_hex text)) [
      | inl none_left ↦ cc (rw (keep, xdigit, none_left) at e)
      | inr (rest, found) ↦
          subst (λ h. UuidText (c ∷ text) (length h))
            (some-injective _ _ (rw (keep, xdigit, found) at e))
            (UuidText.digit (xdigit_digit c xdigit) (UuidText-collect text rest found))
    ]
  ]
]

valid-Collected : (text : List ℕ) → is_valid_uuid text ≡ true → Collected text 32
unfolding is_valid_uuid canonicalize_uuid
valid-Collected text h = digits_of_valid (collect_hex text) h

-- A text is a valid UUID exactly when it consists of 32 hexadecimal digits, of either case, and of
-- braces and hyphens, in any order.
pub is_valid_uuid_iff : (text : List ℕ) → (is_valid_uuid text ≡ true) ↔ UuidText text 32
is_valid_uuid_iff text = (
  (λ h.
      let (hex, e, size) = valid-Collected text h in
      subst (UuidText text) size (UuidText-collect text hex e)),
  λ t.
      let (hex, e, size) = collect-UuidText t in
      valid_of_size text (unfold canonicalize_uuid in size_of_digits (collect_hex text) hex e size),
)
