-- ===== src/Xchange/Uuid.antt =====
-- native/src/mvrxchange/mvr_xchange_packet.cpp: the UUID texts, as lists of ASCII codes.
pub mod Canonical
pub mod Written
use peraviz.Prelude.{
  ℕ, ◌+◌, Bool, true, false, not, ◌&&◌, ◌||◌, Option, none, some, List, [], ◌∷◌, ◌++◌, leb, ◌==◌,
  if◌then◌else◌, length, take, drop,
}

-- `std::isxdigit` and `std::tolower` of the C locale.
unfoldable pub is_xdigit : ℕ → Bool
is_xdigit c = leb b'0' c && leb c b'9' || leb b'a' c && leb c b'f' || leb b'A' c && leb c b'F'

unfoldable pub to_lower : ℕ → ℕ
to_lower c = if leb b'A' c && leb c b'Z' then c + 32 else c

unfoldable pub is_skipped : ℕ → Bool
is_skipped c = c == b'{' || c == b'}' || c == b'-'

abbrev pub push_hex : ℕ → Option (List ℕ) → Option (List ℕ)
push_hex c none = none
push_hex c (some hex) = some (c ∷ hex)

-- The loop of `canonicalize_uuid`; `none` where it returns the empty text.
unfoldable pub collect_hex : List ℕ → Option (List ℕ)
collect_hex [] = some []
collect_hex (c ∷ text) =
    let rest = collect_hex text in
    if is_skipped c then rest else if is_xdigit c then push_hex (to_lower c) rest else none

-- 8-4-4-4-12.
unfoldable pub hyphenate : List ℕ → List ℕ
hyphenate hex =
    take 8 hex
    ++ (b'-'
        ∷ (take 4 (drop 8 hex)
            ++ (b'-'
                ∷ (take 4 (drop 12 hex)
                    ++ (b'-' ∷ (take 4 (drop 16 hex) ++ (b'-' ∷ take 12 (drop 20 hex))))))))

abbrev pub canonical_of : Option (List ℕ) → List ℕ
canonical_of none = []
canonical_of (some hex) = if length hex == 32 then hyphenate hex else []

unfoldable pub canonicalize_uuid : List ℕ → List ℕ
canonicalize_uuid text = canonical_of (collect_hex text)

unfoldable pub is_valid_uuid : List ℕ → Bool
is_valid_uuid text = not (length (canonicalize_uuid text) == 0)
