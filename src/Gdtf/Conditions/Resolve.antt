-- ===== src/Gdtf/Conditions/Resolve.antt =====
-- Which conditions native/src/gdtf_runtime/mode_master.cpp resolves.
use peraviz.Prelude.{
  ℕ, ◌≤◌, ◌≡◌, refl, sym, ap, ◌∙◌, true, false, Option, none, some, List, [], ◌∷◌, arith, inl, inr,
  same_text, if◌then◌else◌, ltb, Bool-cases,
}
use peraviz.Gdtf.Tokens.{trim_ascii_token}
use peraviz.Gdtf.Values.{parse_and_convert_gdtf_dmx_value}
use peraviz.Gdtf.Conditions.Links.{IsMalformed, is_malformed_iff, IsBound, bound_source_iff}
use peraviz.Gdtf.Conditions.{
  ModeMasterCondition, no_condition, ModeMasterNodeRecord, Diagnostic, is_malformed, Match,
  add_match, match_nodes, bound_source, refuse, accept, check_range, resolve_match,
  resolve_mode_master_condition,
}

-- The nodes of a path, in order.
abbrev pub nodes_at : List ℕ → List ModeMasterNodeRecord → List ModeMasterNodeRecord
nodes_at link [] = []
nodes_at link (node ∷ nodes) =
    if same_text node.path link then node ∷ nodes_at link nodes else nodes_at link nodes

abbrev match_of : List ModeMasterNodeRecord → Match
match_of [] = Match.missing
match_of (node ∷ []) = Match.found node
match_of (node ∷ second ∷ nodes) = Match.ambiguous

match_nodes-ambiguous :
    (link : List ℕ) (nodes : List ModeMasterNodeRecord)
    → match_nodes link Match.ambiguous nodes ≡ Match.ambiguous
unfolding match_nodes add_match
match_nodes-ambiguous link [] = refl
match_nodes-ambiguous link (node ∷ nodes) = elim (Bool-cases (same_text node.path link)) [
  | inl e ↦ rw e (match_nodes-ambiguous link nodes)
  | inr e ↦ rw e (match_nodes-ambiguous link nodes)
]

match_nodes-found :
    (link : List ℕ) (first : ModeMasterNodeRecord) (nodes : List ModeMasterNodeRecord)
    → match_nodes link (Match.found first) nodes ≡ match_of (first ∷ nodes_at link nodes)
unfolding match_nodes add_match
match_nodes-found link first [] = refl
match_nodes-found link first (node ∷ nodes) = elim (Bool-cases (same_text node.path link)) [
  | inl e ↦ rw e (match_nodes-ambiguous link nodes)
  | inr e ↦ rw e (match_nodes-found link first nodes)
]

match_nodes-missing :
    (link : List ℕ) (nodes : List ModeMasterNodeRecord)
    → match_nodes link Match.missing nodes ≡ match_of (nodes_at link nodes)
unfolding match_nodes add_match
match_nodes-missing link [] = refl
match_nodes-missing link (node ∷ nodes) = elim (Bool-cases (same_text node.path link)) [
  | inl e ↦ rw e (match_nodes-found link node nodes)
  | inr e ↦ rw e (match_nodes-missing link nodes)
]

abbrev pub condition_of : List ℕ → ModeMasterNodeRecord → ℕ → ℕ → ModeMasterCondition
condition_of link node from to = record {
  target_kind = node.kind;
  target_id = node.id;
  master_program_id = node.source_program_id;
  from = from;
  to = to;
  master_byte_count = node.byte_count;
  source_link = link;
  valid = true;
  master_channel_id = node.channel_id;
}

abbrev linked : List ℕ → ModeMasterCondition
linked link = record no_condition { source_link = link }

check_range-accepted :
    (link : List ℕ) (node : ModeMasterNodeRecord) (from to : Option ℕ)
    → (check_range (linked link) node from to).0 ≡ true
    → (a : ℕ) × (b : ℕ) × (from ≡ some a) × (to ≡ some b) × (a ≤ b)
unfolding check_range refuse accept
check_range-accepted link node none to h = cc
check_range-accepted link node (some a) none h = cc
check_range-accepted link node (some a) (some b) h = elim (Bool-cases (ltb b a)) [
  | inl e ↦ absurd (ground arith)
  | inr e ↦ (a, b, refl, refl, ground arith)
]

match_of-found :
    (nodes : List ModeMasterNodeRecord) (node : ModeMasterNodeRecord)
    → match_of nodes ≡ Match.found node
    → nodes ≡ node ∷ []
match_of-found [] node h = cc
match_of-found (n ∷ []) node h = cc
match_of-found (n ∷ m ∷ nodes) node h = cc

-- The two bounds of a condition on a node.
abbrev pub bound_of : List ℕ → ModeMasterNodeRecord → Option ℕ
bound_of text node = parse_and_convert_gdtf_dmx_value (bound_source text) node.byte_count

resolve_match-accepted :
    (link mode_from mode_to : List ℕ) (match : Match)
    → (resolve_match (linked link) mode_from mode_to match).0 ≡ true
    → (node : ModeMasterNodeRecord) × (match ≡ Match.found node)
      × (a : ℕ) × (b : ℕ) × (bound_of mode_from node ≡ some a)
      × (bound_of mode_to node ≡ some b)
      × (a ≤ b)
unfolding resolve_match refuse
resolve_match-accepted link mode_from mode_to Match.missing h = cc
resolve_match-accepted link mode_from mode_to Match.ambiguous h = cc
resolve_match-accepted link mode_from mode_to (Match.found node) h =
    let (a, b, lower, upper, ordered) =
      check_range-accepted link node (bound_of mode_from node) (bound_of mode_to node) h in
    (node, refl, a, b, lower, upper, ordered)

-- What makes a condition resolve to a node, from a number to a number.
pub record IsResolved (source_link mode_from mode_to : List ℕ) (nodes : List ModeMasterNodeRecord)
    (node : ModeMasterNodeRecord) (a b : ℕ) : Type 0 where
  pub formed : ¬ IsMalformed (trim_ascii_token source_link)
  pub only : nodes_at (trim_ascii_token source_link) nodes ≡ node ∷ []
  pub lower : IsBound mode_from node a
  pub upper : IsBound mode_to node b
  pub ordered : a ≤ b

resolve-malformed :
    (source_link mode_from mode_to : List ℕ) (nodes : List ModeMasterNodeRecord)
    → is_malformed (trim_ascii_token source_link) ≡ true
    → (resolve_mode_master_condition source_link mode_from mode_to nodes).0 ≡ false
unfolding resolve_mode_master_condition refuse
resolve-malformed source_link mode_from mode_to nodes h = rw h refl

resolve-formed :
    (source_link mode_from mode_to : List ℕ) (nodes : List ModeMasterNodeRecord)
    → is_malformed (trim_ascii_token source_link) ≡ false
    → resolve_mode_master_condition source_link mode_from mode_to nodes
      ≡ resolve_match
          (linked (trim_ascii_token source_link))
          mode_from
          mode_to
          (match_of (nodes_at (trim_ascii_token source_link) nodes))
unfolding resolve_mode_master_condition
resolve-formed source_link mode_from mode_to nodes h =
    let link = trim_ascii_token source_link in
    rw h (ap (resolve_match (linked link) mode_from mode_to) (match_nodes-missing link nodes))

resolve-accepted :
    (source_link mode_from mode_to : List ℕ) (nodes : List ModeMasterNodeRecord)
    → (resolve_mode_master_condition source_link mode_from mode_to nodes).0 ≡ true
    → (node : ModeMasterNodeRecord) × (a : ℕ) × (b : ℕ) × IsResolved source_link mode_from mode_to
        nodes node a b
resolve-accepted source_link mode_from mode_to nodes h =
    let link = trim_ascii_token source_link in
    elim (Bool-cases (is_malformed link)) [
      | inl e ↦ let no = resolve-malformed source_link mode_from mode_to nodes e in cc
      | inr e ↦
          let eq = resolve-formed source_link mode_from mode_to nodes e in
          let (node, m, a, b, lower, upper, ordered) =
            resolve_match-accepted link mode_from mode_to (match_of (nodes_at link nodes))
              (sym (ap (λ r. r.0) eq) ∙ h) in
          (
            node,
            a,
            b,
            record {
              formed = λ m. let yes = (is_malformed_iff link).1 m in cc (e, yes);
              only = match_of-found (nodes_at link nodes) node m;
              lower = (bound_source_iff mode_from node a).0 lower;
              upper = (bound_source_iff mode_to node b).0 upper;
              ordered = ordered;
            },
          )
    ]

check_range-resolved :
    (link : List ℕ) (node : ModeMasterNodeRecord) (from to : Option ℕ) (a b : ℕ)
    → from ≡ some a
    → to ≡ some b
    → a ≤ b
    → check_range (linked link) node from to
      ≡ (true, condition_of link node a b, Diagnostic.cleared)
unfolding check_range accept
check_range-resolved link node from to a b lower upper h =
    let fine : ltb b a ≡ false = ground arith in rw lower (rw upper (rw fine refl))

resolved_match :
    (source_link mode_from mode_to : List ℕ) (nodes : List ModeMasterNodeRecord)
    (node : ModeMasterNodeRecord) (a b : ℕ)
    → IsResolved source_link mode_from mode_to nodes node a b
    → resolve_match
        (linked (trim_ascii_token source_link))
        mode_from
        mode_to
        (match_of (nodes_at (trim_ascii_token source_link) nodes))
      ≡ (true, condition_of (trim_ascii_token source_link) node a b, Diagnostic.cleared)
unfolding resolve_match
resolved_match source_link mode_from mode_to nodes node a b r = rw r.only (
    check_range-resolved (trim_ascii_token source_link) node (bound_of mode_from node)
      (bound_of mode_to node) a b ((bound_source_iff mode_from node a).1 r.lower)
      ((bound_source_iff mode_to node b).1 r.upper) r.ordered)

well_formed : (text : List ℕ) → ¬ IsMalformed text → is_malformed text ≡ false
well_formed text h = elim (Bool-cases (is_malformed text)) [
  | inl e ↦ absurd (h ((is_malformed_iff text).0 e))
  | inr e ↦ e
]

-- A condition is resolved only if the link, trimmed, is not empty and has no empty part before, between or after its dots, one node alone
-- has it as its path, and both bounds, `0/1` for a blank one, convert to the byte count of that node,
-- the first to a number not above that of the second. If so, the call succeeds with the condition
-- that names the node and these two numbers, and clears the diagnostic.
pub resolve_mode_master_condition_lem :
    (source_link mode_from mode_to : List ℕ) (nodes : List ModeMasterNodeRecord)
    → ((resolve_mode_master_condition source_link mode_from mode_to nodes).0 ≡ true
        → (node : ModeMasterNodeRecord) × (a : ℕ) × (b : ℕ) × IsResolved source_link mode_from
            mode_to nodes node a b)
      × ((node : ModeMasterNodeRecord) (a b : ℕ)
          → IsResolved source_link mode_from mode_to nodes node a b
          → resolve_mode_master_condition source_link mode_from mode_to nodes
            ≡ (true, condition_of (trim_ascii_token source_link) node a b, Diagnostic.cleared))
resolve_mode_master_condition_lem source_link mode_from mode_to nodes = (
  λ h. resolve-accepted source_link mode_from mode_to nodes h,
  λ node a b r.
      resolve-formed source_link mode_from mode_to nodes
        (well_formed (trim_ascii_token source_link) r.formed)
      ∙ resolved_match source_link mode_from mode_to nodes node a b r,
)
