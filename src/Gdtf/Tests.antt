-- ===== src/Gdtf/Tests.antt =====
-- The value 128/1, a condition on one node, and two channel functions, the first a master.
use peraviz.Prelude.{
  ℕ, ◌<◌, ◌≡◌, refl, ◌↔◌, true, some, List, [], ◌∷◌, pos, arith, length, is_space, trim_left,
  trim_right,
}
use peraviz.Gdtf.Tokens.{
  trim_ascii_token, is_digit, read_digits, to_u64, convert_digits, convert_signed, strtoull, at_end,
}
use peraviz.Gdtf.Values.{
  ParsedDmxValue, mirror, byte_max, split_slash, read_conversion, whole_number, counted_value,
  bounded_value, parse_parts, parse_text, parse_gdtf_dmx_value, parse_and_convert_gdtf_dmx_value,
}
use peraviz.Gdtf.Values.Convert.{FitsItsBytes, of_bytes, source_byte}
use peraviz.Gdtf.Values.Parse.{parse_and_convert_gdtf_dmx_value_lem}
use peraviz.Gdtf.Conditions.{
  no_condition, ModeMasterNodeRecord, channel_function, cleared, resolve_mode_master_condition,
}
use peraviz.Gdtf.Conditions.Resolve.{IsResolved, condition_of, resolve_mode_master_condition_lem}
use peraviz.Gdtf.Graph.{
  ChannelFunctionActivation, Functions, Verdict, accepted, validate_mode_master_graph, find_index,
  is_channel_function_active,
}
use peraviz.Gdtf.Graph.Activation.{IsActive}
use peraviz.Gdtf.Graph.Cascade.{is_channel_function_active_iff}
use peraviz.Gdtf.Graph.Validation.{IsGrounded}
use peraviz.Gdtf.Graph.Verdicts.{validate_mode_master_graph_lem}

-- ` 128/1`
abbrev half : List ℕ
half = b' ' ∷ b'1' ∷ b'2' ∷ b'8' ∷ b'/' ∷ b'1' ∷ []

abbrev half_value : ParsedDmxValue
half_value = record { value = 128; byte_count = 1; conversion = mirror }

half_parses : parse_gdtf_dmx_value half ≡ some half_value
unfolding parse_gdtf_dmx_value parse_text parse_parts counted_value bounded_value whole_number
    read_conversion split_slash byte_max trim_ascii_token is_digit read_digits to_u64 convert_digits
    convert_signed strtoull at_end is_space trim_left trim_right
half_parses = refl

parse_and_convert_gdtf_dmx_value_lem_example :
    FitsItsBytes half_value
    × (parse_and_convert_gdtf_dmx_value half 3 ≡ some (of_bytes 3 (source_byte half_value)))
parse_and_convert_gdtf_dmx_value_lem_example =
    parse_and_convert_gdtf_dmx_value_lem half half_value 3 half_parses (omega arith) (omega arith)

abbrev link : List ℕ
link = b'a' ∷ b'.' ∷ b'b' ∷ []

abbrev node : ModeMasterNodeRecord
node = record {
  kind = channel_function;
  id = pos 7;
  channel_id = pos 1;
  source_program_id = pos 2;
  byte_count = 2;
  path = link;
}

resolve_mode_master_condition_lem_example :
    ((resolve_mode_master_condition link [] half (node ∷ [])).0 ≡ true
      → (n : ModeMasterNodeRecord) × (a : ℕ) × (b : ℕ) × IsResolved link [] half (node ∷ []) n a b)
    × ((n : ModeMasterNodeRecord) (a b : ℕ)
        → IsResolved link [] half (node ∷ []) n a b
        → resolve_mode_master_condition link [] half (node ∷ [])
          ≡ (true, condition_of (trim_ascii_token link) n a b, cleared))
resolve_mode_master_condition_lem_example =
    resolve_mode_master_condition_lem link [] half (node ∷ [])

abbrev master : ChannelFunctionActivation
master = record {
  function_id = pos 7;
  source_id = pos 0;
  dmx_from = 0;
  dmx_to = 127;
  mode_master = no_condition;
}

abbrev dependant : ChannelFunctionActivation
dependant = record {
  function_id = pos 8;
  source_id = pos 1;
  dmx_from = 0;
  dmx_to = 255;
  mode_master = record no_condition { target_kind = channel_function; target_id = pos 7; to = 99 };
}

abbrev functions : Functions
functions = dependant ∷ master ∷ []

is_channel_function_active_iff_example :
    (is_channel_function_active (pos 8) functions (50 ∷ 200 ∷ []) ≡ true)
    ↔ IsActive functions (50 ∷ 200 ∷ []) (find_index functions (pos 8))
is_channel_function_active_iff_example =
    is_channel_function_active_iff (pos 8) functions (50 ∷ 200 ∷ [])

validate_mode_master_graph_lem_example :
    ((v : Verdict) × (validate_mode_master_graph functions ≡ some v))
    × ((validate_mode_master_graph functions ≡ some accepted)
        ↔ ((i : ℕ) → i < length functions → IsGrounded functions i))
validate_mode_master_graph_lem_example = validate_mode_master_graph_lem functions
