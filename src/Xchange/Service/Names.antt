-- ===== src/Xchange/Service/Names.antt =====
-- The instance names that native/src/mvrxchange/mvr_xchange_service_name.cpp takes apart.
use peraviz.Prelude.{
  is_space, trim_left, keep, trim_right, ℕ, ◌-◌, ◌≡◌, refl, ap, Bool, true, false, not, none, some,
  List, [], ◌∷◌, ◌++◌, arith, leb, ◌==◌, length, take, drop, length-append, All, ◌↔◌, same_text,
  same_text_sound, same_text_refl,
}
use peraviz.Xchange.Service.{
  mvr_xchange_service_type, trim_copy, drop_final_dot, remove_service_suffix, or_default,
  normalize_group_name, split_last, is_filled, parse_mvr_xchange_service_name,
  mvr_xchange_service_matches_group,
}

abbrev pub starts_filled : List ℕ → Bool
starts_filled [] = false
starts_filled (c ∷ text) = not (is_space c)

-- A text with white space at neither end, of a character at least.
pub record IsName (text : List ℕ) : Type 0 where
  pub head : starts_filled text ≡ true
  pub tail : trim_right text ≡ text

trim_left-name : (text : List ℕ) → starts_filled text ≡ true → trim_left text ≡ text
unfolding trim_left
trim_left-name [] h = refl
trim_left-name (c ∷ text) h = ground arith

trim_copy-name : (text : List ℕ) → IsName text → trim_copy text ≡ text
unfolding trim_copy
trim_copy-name text n = rw (trim_left-name text n.head) n.tail

keep-append : (c d : ℕ) (xs ys : List ℕ) → keep c (xs ++ d ∷ ys) ≡ c ∷ xs ++ d ∷ ys
keep-append c d [] ys = refl
keep-append c d (x ∷ xs) ys = refl

trim_right-append :
    (xs : List ℕ) (d : ℕ) (ys : List ℕ)
    → trim_right (d ∷ ys) ≡ d ∷ ys
    → trim_right (xs ++ d ∷ ys) ≡ xs ++ d ∷ ys
unfolding trim_right
trim_right-append [] d ys h = h
trim_right-append (x ∷ xs) d ys h = rw (trim_right-append xs d ys h) (keep-append x d xs ys)

instance-IsName : (xs ys : List ℕ) → IsName xs → IsName ys → IsName (xs ++ b'@' ∷ ys)
unfolding trim_right
instance-IsName [] ys n k = cc (n.head)
instance-IsName (x ∷ xs) [] n k = cc (k.head)
instance-IsName (x ∷ xs) (y ∷ ys) n k = record {
  head = n.head;
  tail = trim_right-append (x ∷ xs) b'@' (y ∷ ys) (rw k.tail);
}

split_last-none : (text : List ℕ) → All (λ c. (c == b'@') ≡ false) text → split_last text ≡ none
unfolding split_last
split_last-none [] h = refl
split_last-none (c ∷ text) h = rw (split_last-none text h.1, h.0)

split_last-append :
    (xs ys : List ℕ)
    → All (λ c. (c == b'@') ≡ false) ys
    → split_last (xs ++ b'@' ∷ ys) ≡ some (xs, ys)
unfolding split_last
split_last-append [] ys h = rw (split_last-none ys h)
split_last-append (x ∷ xs) ys h = rw (split_last-append xs ys h)

take-append_self : (xs ys : List ℕ) → take (length xs) (xs ++ ys) ≡ xs
take-append_self [] ys = refl
take-append_self (x ∷ xs) ys = ap (λ l. x ∷ l) (take-append_self xs ys)

drop-append_self : (xs ys : List ℕ) → drop (length xs) (xs ++ ys) ≡ ys
drop-append_self [] ys = refl
drop-append_self (x ∷ xs) ys = drop-append_self xs ys

drop_final_dot-append : (xs : List ℕ) → drop_final_dot (xs ++ b'.' ∷ []) ≡ xs
unfolding drop_final_dot
drop_final_dot-append [] = refl
drop_final_dot-append (c ∷ []) = refl
drop_final_dot-append (c ∷ d ∷ xs) = ap (λ l. c ∷ l) (drop_final_dot-append (d ∷ xs))

remove_service_suffix-append :
    (xs : List ℕ) → remove_service_suffix ((xs ++ b'.' ∷ []) ++ mvr_xchange_service_type) ≡ xs
unfolding remove_service_suffix same_text
remove_service_suffix-append xs =
    let text = xs ++ b'.' ∷ [] in
    let size = length-append text mvr_xchange_service_type in
    let start : length (text ++ mvr_xchange_service_type) - length mvr_xchange_service_type
        ≡ length text =
      omega (arith, size) in
    let long : leb (length mvr_xchange_service_type) (length (text ++ mvr_xchange_service_type))
        ≡ true =
      ground (arith, size) in
    rw
      (
        start,
        long,
        drop-append_self text mvr_xchange_service_type,
        take-append_self text mvr_xchange_service_type,
      )
      (drop_final_dot-append xs)

-- The full name that a station of a group announces.
unfoldable pub service_name_of : List ℕ → List ℕ → List ℕ
service_name_of station group = ((station ++ b'@' ∷ group) ++ b'.' ∷ []) ++ mvr_xchange_service_type

name-filled : (text : List ℕ) → starts_filled text ≡ true → is_filled text ≡ true
unfolding is_filled
name-filled [] h = cc h
name-filled (c ∷ text) h = ground arith

normalize_group_name-name : (group : List ℕ) → IsName group → normalize_group_name group ≡ group
unfolding normalize_group_name
normalize_group_name-name [] n = cc (n.head)
normalize_group_name-name (c ∷ text) n = ap or_default (trim_copy-name (c ∷ text) n)

-- The name of a station and a group, neither of them empty nor with white space at an end, and the
-- group without an at sign, is taken apart into these two.
pub parse_mvr_xchange_service_name-service_name_of :
    (station group : List ℕ)
    → IsName station
    → IsName group
    → All (λ c. (c == b'@') ≡ false) group
    → parse_mvr_xchange_service_name (service_name_of station group)
      ≡ record { station_name = station; group = group; valid = true }
unfolding parse_mvr_xchange_service_name service_name_of
parse_mvr_xchange_service_name-service_name_of station group n k plain =
    let whole = instance-IsName station group n k in
    rw
      (
        remove_service_suffix-append (station ++ b'@' ∷ group),
        trim_copy-name (station ++ b'@' ∷ group) whole,
        name-filled (station ++ b'@' ∷ group) whole.head,
        split_last-append station group plain,
        trim_copy-name station n,
        normalize_group_name-name group k,
        name-filled station n.head,
      )
      refl

-- Such a name belongs to a requested group exactly when that group's name, less the white space at
-- its ends and with `Default` for an empty one, is the group of the name.
pub mvr_xchange_service_matches_group_iff :
    (station group requested : List ℕ)
    → IsName station
    → IsName group
    → All (λ c. (c == b'@') ≡ false) group
    → (mvr_xchange_service_matches_group (service_name_of station group) requested ≡ true)
      ↔ (group ≡ normalize_group_name requested)
unfolding mvr_xchange_service_matches_group
mvr_xchange_service_matches_group_iff station group requested n k plain =
    rw (parse_mvr_xchange_service_name-service_name_of station group n k plain) (
      (λ h. same_text_sound group (normalize_group_name requested) h),
      λ e. rw (← e) (same_text_refl group),
    )
