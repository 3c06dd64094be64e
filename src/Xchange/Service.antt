-- ===== src/Xchange/Service.antt =====
-- native/src/mvrxchange/mvr_xchange_service_name.cpp: DNS-SD instance names `station@group`, as
-- lists of ASCII codes.
pub mod Names
use peraviz.Prelude.{
  ℕ, ◌+◌, ◌-◌, Bool, true, false, not, ◌&&◌, ◌||◌, Option, none, some, List, [], ◌∷◌, ◌++◌, leb,
  ◌==◌, if◌then◌else◌, length, take, drop, same_text, trim_left, trim_right,
}

-- `_mvrxchange._tcp.local.`
abbrev pub mvr_xchange_service_type : List ℕ
mvr_xchange_service_type =
    b'_' ∷ b'm' ∷ b'v' ∷ b'r' ∷ b'x' ∷ b'c' ∷ b'h' ∷ b'a' ∷ b'n' ∷ b'g' ∷ b'e' ∷ b'.' ∷ b'_' ∷ b't'
    ∷ b'c' ∷ b'p' ∷ b'.' ∷ b'l' ∷ b'o' ∷ b'c' ∷ b'a' ∷ b'l' ∷ b'.' ∷ []

-- `Default`
abbrev pub default_group_name : List ℕ
default_group_name = b'D' ∷ b'e' ∷ b'f' ∷ b'a' ∷ b'u' ∷ b'l' ∷ b't' ∷ []

pub record ParsedServiceName : Type 0 where
  pub station_name : List ℕ
  pub group : List ℕ
  pub valid : Bool

unfoldable pub trim_copy : List ℕ → List ℕ
trim_copy value = trim_right (trim_left value)

-- `pop_back` on a text that ends in a dot.
unfoldable pub drop_final_dot : List ℕ → List ℕ
drop_final_dot [] = []
drop_final_dot (c ∷ []) = if c == b'.' then [] else c ∷ []
drop_final_dot (c ∷ d ∷ text) = c ∷ drop_final_dot (d ∷ text)

unfoldable pub remove_service_suffix : List ℕ → List ℕ
remove_service_suffix value =
    let start = length value - length mvr_xchange_service_type in
    drop_final_dot (
      if leb (length mvr_xchange_service_type) (length value)
        && same_text (drop start value) mvr_xchange_service_type
      then take start value
      else value)

abbrev pub or_default : List ℕ → List ℕ
or_default [] = default_group_name
or_default (c ∷ text) = c ∷ text

unfoldable pub normalize_group_name : List ℕ → List ℕ
normalize_group_name group = or_default (trim_copy group)

-- `rfind` of an at sign: the texts before and after the last one.
abbrev pub split_first : ℕ → List ℕ → Option (List ℕ × List ℕ) → Option (List ℕ × List ℕ)
split_first c text none = if c == b'@' then some ([], text) else none
split_first c text (some (before, after)) = some (c ∷ before, after)

unfoldable pub split_last : List ℕ → Option (List ℕ × List ℕ)
split_last [] = none
split_last (c ∷ text) = split_first c text (split_last text)

unfoldable pub is_filled : List ℕ → Bool
is_filled text = not (length text == 0)

abbrev pub parsed_instance : List ℕ → Option (List ℕ × List ℕ) → ParsedServiceName
parsed_instance instance none = record {
  station_name = instance;
  group = default_group_name;
  valid = true;
}
parsed_instance instance (some (before, after)) = record {
  station_name = trim_copy before;
  group = normalize_group_name after;
  valid = is_filled (trim_copy before);
}

unfoldable pub parse_mvr_xchange_service_name : List ℕ → ParsedServiceName
parse_mvr_xchange_service_name service_name =
    let instance = trim_copy (remove_service_suffix service_name) in
    if is_filled instance
    then parsed_instance instance (split_last instance)
    else record { station_name = []; group = []; valid = false }

unfoldable pub mvr_xchange_service_matches_group : List ℕ → List ℕ → Bool
mvr_xchange_service_matches_group service_name group =
    let parsed = parse_mvr_xchange_service_name service_name in
    parsed.valid && same_text parsed.group (normalize_group_name group)
