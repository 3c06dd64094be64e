-- ===== src/Xchange/Tests.antt =====
-- Packages and identifiers at concrete inputs.
use peraviz.Prelude.{is_space, trim_right, ℕ, ◌≡◌, refl, ◌↔◌, true, List, [], ◌∷◌, arith, length}
use peraviz.Xchange.Packet.{parse_mvr_packages}
use peraviz.Xchange.Packet.RoundTrip.{build_all, packets_of, parse-build_all}
use peraviz.Xchange.Service.{parse_mvr_xchange_service_name}
use peraviz.Xchange.Service.Names.{
  IsName, service_name_of, parse_mvr_xchange_service_name-service_name_of,
}
use peraviz.Xchange.Uuid.{
  is_valid_uuid, canonicalize_uuid, collect_hex, is_xdigit, is_skipped, to_lower, hyphenate,
}
use peraviz.Xchange.Uuid.Canonical.{canonicalize_uuid-canonicalize_uuid}
use peraviz.Xchange.Uuid.Written.{UuidText, is_valid_uuid_iff}

abbrev packages : List (ℕ × List ℕ)
packages = (0, 123 ∷ 125 ∷ []) ∷ (1, 7 ∷ 8 ∷ 9 ∷ []) ∷ []

parse-build_all_example :
    parse_mvr_packages (build_all packages (1 ∷ 2 ∷ []))
    ≡ packets_of packages (parse_mvr_packages (1 ∷ 2 ∷ []))
parse-build_all_example =
    parse-build_all packages (1 ∷ 2 ∷ [])
      ((omega arith, omega arith), ((omega arith, omega arith), tt))

-- {ABABABAB-ABAB...}, with no hyphen after the first.
abbrev written : List ℕ
written =
    b'{' ∷ b'A' ∷ b'0' ∷ b'A' ∷ b'1' ∷ b'A' ∷ b'2' ∷ b'A' ∷ b'3' ∷ b'-' ∷ b'A' ∷ b'4' ∷ b'A' ∷ b'5'
    ∷ b'A' ∷ b'6' ∷ b'A' ∷ b'7' ∷ b'b' ∷ b'0' ∷ b'b' ∷ b'1' ∷ b'b' ∷ b'2' ∷ b'b' ∷ b'3' ∷ b'b'
    ∷ b'4' ∷ b'b' ∷ b'5' ∷ b'b' ∷ b'6' ∷ b'b' ∷ b'7' ∷ b'}' ∷ []

written_valid : is_valid_uuid written ≡ true
unfolding is_valid_uuid canonicalize_uuid collect_hex is_xdigit is_skipped to_lower hyphenate
written_valid = refl

is_valid_uuid_iff_example : (is_valid_uuid written ≡ true) ↔ UuidText written 32
is_valid_uuid_iff_example = is_valid_uuid_iff written

canonicalize_uuid-canonicalize_uuid_example :
    (length (canonicalize_uuid written) ≡ 36)
    × (is_valid_uuid (canonicalize_uuid written) ≡ true)
    × (canonicalize_uuid (canonicalize_uuid written) ≡ canonicalize_uuid written)
canonicalize_uuid-canonicalize_uuid_example =
    canonicalize_uuid-canonicalize_uuid written written_valid

abbrev stage : List ℕ
stage = b'S' ∷ b't' ∷ b'a' ∷ b'g' ∷ b'e' ∷ b' ' ∷ b'1' ∷ []

abbrev hall : List ℕ
hall = b'H' ∷ b'a' ∷ b'l' ∷ b'l' ∷ []

stage-IsName : IsName stage
unfolding is_space trim_right
stage-IsName = record { head = refl; tail = refl }

hall-IsName : IsName hall
unfolding is_space trim_right
hall-IsName = record { head = refl; tail = refl }

parse_mvr_xchange_service_name-service_name_of_example :
    parse_mvr_xchange_service_name (service_name_of stage hall)
    ≡ record { station_name = stage; group = hall; valid = true }
parse_mvr_xchange_service_name-service_name_of_example =
    parse_mvr_xchange_service_name-service_name_of stage hall stage-IsName hall-IsName
      (refl, (refl, (refl, (refl, tt))))
