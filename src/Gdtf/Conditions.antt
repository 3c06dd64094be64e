-- ===== src/Gdtf/Conditions.antt =====
-- native/src/gdtf_runtime/mode_master.h and .cpp: the condition on another channel or channel
-- function that a channel function may have. A diagnostic stands for its text.
pub mod Links
pub mod Resolve
use peraviz.Prelude.{
  ℕ, ◌==◌, Bool, true, false, not, ◌&&◌, ◌||◌, Option, none, some, List, [], ◌∷◌, ltb, ℤ, pos,
  negsuc, if◌then◌else◌, same_text,
}
use peraviz.Gdtf.Tokens.{trim_ascii_token}
use peraviz.Gdtf.Values.{parse_and_convert_gdtf_dmx_value}

pub data ModeMasterTargetKind : Type 0 where
  unconditional dmx_channel channel_function invalid : ModeMasterTargetKind

pub record ModeMasterCondition : Type 0 where
  pub target_kind : ModeMasterTargetKind
  pub target_id : ℤ
  pub master_program_id : ℤ
  pub from : ℕ
  pub to : ℕ
  pub master_byte_count : ℕ
  pub source_link : List ℕ
  pub valid : Bool
  pub master_channel_id : ℤ

abbrev pub no_condition : ModeMasterCondition
no_condition = record {
  target_kind = ModeMasterTargetKind.unconditional;
  target_id = pos 0;
  master_program_id = pos 0;
  from = 0;
  to = 0;
  master_byte_count = 1;
  source_link = [];
  valid = true;
  master_channel_id = pos 0;
}

pub record ModeMasterNodeRecord : Type 0 where
  pub kind : ModeMasterTargetKind
  pub id : ℤ
  pub channel_id : ℤ
  pub source_program_id : ℤ
  pub byte_count : ℕ
  pub path : List ℕ

-- The texts `PVZ-GDTF-MODEMASTER-…`, and the empty one.
pub data Diagnostic : Type 0 where
  cleared node_malformed node_ambiguous unresolved range_invalid : Diagnostic

-- `back() == '.'`
unfoldable pub ends_in_dot : List ℕ → Bool
ends_in_dot [] = false
ends_in_dot (c ∷ []) = c == b'.'
ends_in_dot (c ∷ d ∷ text) = ends_in_dot (d ∷ text)

-- `find("..") != npos`
unfoldable pub has_two_dots : List ℕ → Bool
has_two_dots [] = false
has_two_dots (c ∷ []) = false
has_two_dots (c ∷ d ∷ text) = (c == b'.' && d == b'.') || has_two_dots (d ∷ text)

unfoldable pub is_malformed : List ℕ → Bool
is_malformed [] = true
is_malformed (c ∷ text) = c == b'.' || ends_in_dot (c ∷ text) || has_two_dots (c ∷ text)

-- What the loop over the nodes ends with.
pub data Match : Type 0 where
  missing ambiguous : Match
  found : ModeMasterNodeRecord → Match

-- A node with the path of the link, where `match` is what has been found before it; a second one
-- ends the loop.
unfoldable pub add_match : ModeMasterNodeRecord → Match → Match
add_match node Match.missing = Match.found node
add_match node Match.ambiguous = Match.ambiguous
add_match node (Match.found first) = Match.ambiguous

unfoldable pub match_nodes : List ℕ → Match → List ModeMasterNodeRecord → Match
match_nodes link match [] = match
match_nodes link match (node ∷ nodes) =
    match_nodes link (if same_text node.path link then add_match node match else match) nodes

-- `0/1` for a blank text.
unfoldable pub or_zero : List ℕ → List ℕ → List ℕ
or_zero [] text = b'0' ∷ b'/' ∷ b'1' ∷ []
or_zero (c ∷ trimmed) text = text

unfoldable pub bound_source : List ℕ → List ℕ
bound_source text = or_zero (trim_ascii_token text) text

unfoldable pub refuse : ModeMasterCondition → Diagnostic → Bool × ModeMasterCondition × Diagnostic
refuse out diagnostic =
    (false, record out { target_kind = ModeMasterTargetKind.invalid; valid = false }, diagnostic)

unfoldable pub accept :
    ModeMasterCondition → ModeMasterNodeRecord → Bool × ModeMasterCondition × Diagnostic
accept out match = (
  true,
  record out {
    target_kind = match.kind;
    target_id = match.id;
    master_program_id = match.source_program_id;
    master_channel_id = match.channel_id;
    master_byte_count = match.byte_count;
    valid = true;
  },
  Diagnostic.cleared,
)

-- A bound that is not converted leaves `out` as it is, and the second one is read after the first.
unfoldable pub check_range :
    ModeMasterCondition
    → ModeMasterNodeRecord
    → Option ℕ
    → Option ℕ
    → Bool × ModeMasterCondition × Diagnostic
check_range out match none to = refuse out Diagnostic.range_invalid
check_range out match (some from) none =
    refuse (record out { from = from }) Diagnostic.range_invalid
check_range out match (some from) (some to) =
    if ltb to from
    then refuse (record out { from = from; to = to }) Diagnostic.range_invalid
    else accept (record out { from = from; to = to }) match

unfoldable pub resolve_match :
    ModeMasterCondition → List ℕ → List ℕ → Match → Bool × ModeMasterCondition × Diagnostic
resolve_match out mode_from mode_to Match.missing = refuse out Diagnostic.unresolved
resolve_match out mode_from mode_to Match.ambiguous = refuse out Diagnostic.node_ambiguous
resolve_match out mode_from mode_to (Match.found match) =
    check_range out match
      (parse_and_convert_gdtf_dmx_value (bound_source mode_from) match.byte_count)
      (parse_and_convert_gdtf_dmx_value (bound_source mode_to) match.byte_count)

-- The result, `out` and the diagnostic.
unfoldable pub resolve_mode_master_condition :
    List ℕ → List ℕ → List ℕ → List ModeMasterNodeRecord → Bool × ModeMasterCondition × Diagnostic
resolve_mode_master_condition source_link mode_from mode_to nodes =
    let link = trim_ascii_token source_link in
    let out = record no_condition { source_link = link } in
    if is_malformed link
    then refuse out Diagnostic.node_malformed
    else resolve_match out mode_from mode_to (match_nodes link Match.missing nodes)
