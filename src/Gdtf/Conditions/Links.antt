-- ===== src/Gdtf/Conditions/Links.antt =====
-- The links and the bounds of conditions in native/src/gdtf_runtime/mode_master.cpp.
use peraviz.Prelude.{
  ℕ, ◌≡◌, ◌≢◌, ◌⊎◌, ◌↔◌, refl, sym, ap, ◌∙◌, subst, true, ◌&&◌, ◌||◌, ◌==◌, some, List, [], ◌∷◌,
  ◌++◌, arith, inl, inr, Bool-cases,
}
use peraviz.Gdtf.Tokens.{trim_ascii_token}
use peraviz.Gdtf.Values.{parse_and_convert_gdtf_dmx_value}
use peraviz.Gdtf.Conditions.{
  ModeMasterNodeRecord, ends_in_dot, has_two_dots, is_malformed, or_zero, bound_source,
}

-- A link with a part between dots, before the first or after the last one that is empty.
abbrev pub IsMalformed : List ℕ → Type 0
IsMalformed text =
    (text ≡ [])
    ⊎ (((rest : List ℕ) × (text ≡ b'.' ∷ rest))
        ⊎ (((pre : List ℕ) × (text ≡ pre ++ b'.' ∷ []))
            ⊎ ((pre : List ℕ) × (post : List ℕ) × (text ≡ pre ++ b'.' ∷ b'.' ∷ post))))

ends_in_dot_sound :
    (text : List ℕ) → ends_in_dot text ≡ true → (pre : List ℕ) × (text ≡ pre ++ b'.' ∷ [])
unfolding ends_in_dot
ends_in_dot_sound [] h = cc h
ends_in_dot_sound (c ∷ []) h = let dot : c ≡ b'.' = ground arith in ([], ap (λ x. x ∷ []) dot)
ends_in_dot_sound (c ∷ d ∷ text) h =
    let (pre, e) = ends_in_dot_sound (d ∷ text) h in (c ∷ pre, ap (λ l. c ∷ l) e)

ends_in_dot-append : (pre : List ℕ) → ends_in_dot (pre ++ b'.' ∷ []) ≡ true
unfolding ends_in_dot
ends_in_dot-append [] = refl
ends_in_dot-append (c ∷ []) = refl
ends_in_dot-append (c ∷ d ∷ pre) = ends_in_dot-append (d ∷ pre)

has_two_dots_sound :
    (text : List ℕ)
    → has_two_dots text ≡ true
    → (pre : List ℕ) × (post : List ℕ) × (text ≡ pre ++ b'.' ∷ b'.' ∷ post)
unfolding has_two_dots
has_two_dots_sound [] h = cc h
has_two_dots_sound (c ∷ []) h = cc h
has_two_dots_sound (c ∷ d ∷ text) h = elim (Bool-cases (c == b'.' && d == b'.')) [
  | inl here ↦
      let first : c ≡ b'.' = ground arith in
      let second : d ≡ b'.' = ground arith in
      ([], text, ap (λ x. x ∷ d ∷ text) first ∙ ap (λ x. b'.' ∷ x ∷ text) second)
  | inr there ↦
      let (pre, post, e) = has_two_dots_sound (d ∷ text) (rw there at h) in
      (c ∷ pre, post, ap (λ l. c ∷ l) e)
]

has_two_dots-append : (pre post : List ℕ) → has_two_dots (pre ++ b'.' ∷ b'.' ∷ post) ≡ true
unfolding has_two_dots
has_two_dots-append [] post = refl
has_two_dots-append (c ∷ []) post = ground arith
has_two_dots-append (c ∷ d ∷ pre) post = ground (arith, has_two_dots-append (d ∷ pre) post)

is_malformed_sound : (text : List ℕ) → is_malformed text ≡ true → IsMalformed text
unfolding is_malformed
is_malformed_sound [] h = inl refl
is_malformed_sound (c ∷ text) h = elim (Bool-cases (c == b'.')) [
  | inl first ↦ let dot : c ≡ b'.' = ground arith in inr (inl (text, ap (λ x. x ∷ text) dot))
  | inr inner ↦ elim (Bool-cases (ends_in_dot (c ∷ text))) [
    | inl last ↦ inr (inr (inl (ends_in_dot_sound (c ∷ text) last)))
    | inr no_end ↦
        let twice : has_two_dots (c ∷ text) ≡ true = ground arith in
        inr (inr (inr (has_two_dots_sound (c ∷ text) twice)))
  ]
]

malformed_dots :
    (text : List ℕ) → (ends_in_dot text || has_two_dots text) ≡ true → is_malformed text ≡ true
unfolding is_malformed
malformed_dots [] h = refl
malformed_dots (c ∷ text) h = ground arith

is_malformed_complete : (text : List ℕ) → IsMalformed text → is_malformed text ≡ true
is_malformed_complete text (inl e) =
    subst (λ t. is_malformed t ≡ true) (sym e) (unfold is_malformed in refl)
is_malformed_complete text (inr (inl (rest, e))) =
    subst (λ t. is_malformed t ≡ true) (sym e) (unfold is_malformed in refl)
is_malformed_complete text (inr (inr (inl (pre, e)))) =
    let last : ends_in_dot text ≡ true = ap ends_in_dot e ∙ ends_in_dot-append pre in
    malformed_dots text (ground arith)
is_malformed_complete text (inr (inr (inr (pre, post, e)))) =
    let twice : has_two_dots text ≡ true = ap has_two_dots e ∙ has_two_dots-append pre post in
    malformed_dots text (ground arith)

pub is_malformed_iff : (text : List ℕ) → (is_malformed text ≡ true) ↔ IsMalformed text
is_malformed_iff text = ((λ h. is_malformed_sound text h), λ m. is_malformed_complete text m)

-- The number of a bound on a node: that of the text, or of `0/1` for a blank one.
abbrev pub IsBound : List ℕ → ModeMasterNodeRecord → ℕ → Type 0
IsBound text node a =
    ((trim_ascii_token text ≡ [])
      × (parse_and_convert_gdtf_dmx_value (b'0' ∷ b'/' ∷ b'1' ∷ []) node.byte_count ≡ some a))
    ⊎ ((trim_ascii_token text ≢ [])
        × (parse_and_convert_gdtf_dmx_value text node.byte_count ≡ some a))

or_zero_lem :
    (trimmed text : List ℕ)
    → ((trimmed ≡ []) × (or_zero trimmed text ≡ b'0' ∷ b'/' ∷ b'1' ∷ []))
      ⊎ ((trimmed ≢ []) × (or_zero trimmed text ≡ text))
unfolding or_zero
or_zero_lem [] text = inl (refl, refl)
or_zero_lem (c ∷ trimmed) text = inr ((λ e. cc), refl)

pub bound_source_iff :
    (text : List ℕ) (node : ModeMasterNodeRecord) (a : ℕ)
    → (parse_and_convert_gdtf_dmx_value (bound_source text) node.byte_count ≡ some a)
      ↔ IsBound text node a
unfolding bound_source
bound_source_iff text node a = elim (or_zero_lem (trim_ascii_token text) text) [
  | inl (blank, e) ↦ (
    (λ h. inl (blank, rw e at h)),
    λ b. elim b [ inl (same, h) ↦ rw e h | inr (other, h) ↦ absurd (other blank) ],
  )
  | inr (written, e) ↦ (
    (λ h. inr (written, rw e at h)),
    λ b. elim b [ inl (same, h) ↦ absurd (written same) | inr (other, h) ↦ rw e h ],
  )
]
