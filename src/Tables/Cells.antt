-- ===== src/Tables/Cells.antt =====
-- native/src/table_model/runtime_table.cpp: what a write to a cell changes.
use peraviz.Prelude.{
  ℕ, ◌<◌, ◌≡◌, ◌≢◌, refl, sym, ap, ◌∙◌, subst, true, false, ltb, if◌then◌else◌, if-elim, Bool-cases,
  ltb→lt, none, some, List, [], ◌∷◌, arith, inl, inr, length, length-set, get_elem?,
  get_elem?-set_self, get_elem?-set_ne, set, same_text, same_text_sound, All, Option-cases,
}
use peraviz.Tables.{
  RuntimeTable, column_count, find_row, get_row, get_cell, write_cell, is_found, set_cell,
}

-- Every row has as many cells as the table has columns.
abbrev pub IsWide : {V : Type 0} → RuntimeTable V → Type 0
IsWide t = All (λ entry. length entry.1 ≡ column_count t.schema) t.rows_by_uuid

module _ {V : Type 0} where
  find_row-write_cell_self :
      (rows : List (List ℕ × List V)) (uuid : List ℕ) (c : ℕ) (v : V) (row : List V)
      → find_row rows uuid ≡ some row
      → find_row (write_cell rows uuid c v) uuid ≡ some (set row c v)
  unfolding find_row write_cell
  find_row-write_cell_self [] uuid c v row h = cc
  find_row-write_cell_self ((u, r) ∷ rows) uuid c v row h = elim (Bool-cases (same_text u uuid)) [
    | inl e ↦ let same : r ≡ row = ground arith in rw e (rw e (rw same refl))
    | inr e ↦ rw e (rw e (find_row-write_cell_self rows uuid c v row (ground arith)))
  ]

  find_row-write_cell_other :
      (rows : List (List ℕ × List V)) (uuid other : List ℕ) (c : ℕ) (v : V)
      → uuid ≢ other
      → find_row (write_cell rows uuid c v) other ≡ find_row rows other
  unfolding find_row write_cell
  find_row-write_cell_other [] uuid other c v h = refl
  find_row-write_cell_other ((u, r) ∷ rows) uuid other c v h =
      elim (Bool-cases (same_text u uuid)) [
        | inl e ↦
            let named = same_text_sound u uuid e in
            let apart : same_text u other ≡ false = (elim (Bool-cases (same_text u other)) [
              | inl f ↦ absurd (h (sym named ∙ same_text_sound u other f))
              | inr f ↦ f
            ]) in
            rw e (rw apart refl)
        | inr e ↦
            let rest = find_row-write_cell_other rows uuid other c v h in
            rw e (elim (Bool-cases (same_text u other)) [ inl f ↦ rw f refl | inr f ↦ rw f rest ])
      ]

  write_cell-IsWide :
      (n : ℕ) (rows : List (List ℕ × List V)) (uuid : List ℕ) (c : ℕ) (v : V)
      → All (λ entry. length entry.1 ≡ n) rows
      → All (λ entry. length entry.1 ≡ n) (write_cell rows uuid c v)
  unfolding write_cell
  write_cell-IsWide n [] uuid c v h = tt
  write_cell-IsWide n ((u, r) ∷ rows) uuid c v (first, rest) =
      if-elim (All (λ (entry : List ℕ × List V). length entry.1 ≡ n)) (same_text u uuid) _ _
        (λ e. (length-set r c v ∙ first, rest))
        (λ e. (first, write_cell-IsWide n rows uuid c v rest))

  found-IsWide :
      (n : ℕ) (rows : List (List ℕ × List V)) (uuid : List ℕ) (row : List V)
      → All (λ entry. length entry.1 ≡ n) rows
      → find_row rows uuid ≡ some row
      → length row ≡ n
  unfolding find_row
  found-IsWide n [] uuid row h e = cc
  found-IsWide n ((u, r) ∷ rows) uuid row (first, rest) e = elim (Bool-cases (same_text u uuid)) [
    | inl t ↦ let same : r ≡ row = ground arith in subst (λ x. length x ≡ n) same first
    | inr t ↦ found-IsWide n rows uuid row rest (ground arith)
  ]

-- What a write to the cell `c` of the row `uuid` leaves: the value in that cell, the other cells of
-- the row and the other rows as they were, and rows of the width of the schema.
pub record IsCellSet {V : Type 0} (t : RuntimeTable V) (uuid : List ℕ) (c : ℕ) (v : V)
    : Type 0 where
  pub accepted : (set_cell t uuid c v).0 ≡ true
  pub written : get_cell (set_cell t uuid c v).1 uuid c ≡ some v
  pub cells_kept : (d : ℕ) → c ≢ d → get_cell (set_cell t uuid c v).1 uuid d ≡ get_cell t uuid d
  pub rows_kept :
      (other : List ℕ) → uuid ≢ other → get_row (set_cell t uuid c v).1 other ≡ get_row t other
  pub wide : IsWide (set_cell t uuid c v).1

module _ {V : Type 0} where
  set_cell_lem :
      (t : RuntimeTable V) (uuid : List ℕ) (c : ℕ) (v : V) (row : List V)
      → get_row t uuid ≡ some row
      → ltb c (column_count t.schema) ≡ true
      → set_cell t uuid c v ≡ (true, record t { rows_by_uuid = write_cell t.rows_by_uuid uuid c v })
  unfolding set_cell
  set_cell_lem t uuid c v row e b = rw e (rw b refl)

  get_cell_lem :
      (t : RuntimeTable V) (uuid : List ℕ) (c : ℕ) (row : List V)
      → get_row t uuid ≡ some row
      → get_cell t uuid c ≡ (if ltb c (column_count t.schema) then get_elem? row c else none)
  unfolding get_cell
  get_cell_lem t uuid c row e = rw e refl

  written-IsCellSet :
      (t : RuntimeTable V) (uuid : List ℕ) (c : ℕ) (v : V) (row : List V)
      → IsWide t
      → get_row t uuid ≡ some row
      → ltb c (column_count t.schema) ≡ true
      → IsCellSet t uuid c v
  unfolding get_row
  written-IsCellSet t uuid c v row h e b =
      let run = set_cell_lem t uuid c v row e b in
      let after = find_row-write_cell_self t.rows_by_uuid uuid c v row e in
      let wide_row = found-IsWide (column_count t.schema) t.rows_by_uuid uuid row h e in
      let inside : c < length row = subst (λ n. c < n) (sym wide_row) (ltb→lt _ _ b) in
      record {
        accepted = ap (λ r. r.0) run;
        written =
            (rw run (
              get_cell_lem _ uuid c (set row c v) after
              ∙ rw b (get_elem?-set_self row c v inside)));
        cells_kept = (λ d n. rw run (
            get_cell_lem _ uuid d (set row c v) after
            ∙ rw (get_elem?-set_ne row v n) (sym (get_cell_lem t uuid d row e))));
        rows_kept = (λ other n. rw run (find_row-write_cell_other t.rows_by_uuid uuid other c v n));
        wide = rw run (write_cell-IsWide _ t.rows_by_uuid uuid c v h);
      }

  -- In a table whose rows have the width of the schema, a write to a cell that can be read is
  -- accepted, is read back, and leaves every other cell, every other row and the width of the rows.
  pub set_cell-IsCellSet :
      (t : RuntimeTable V) (uuid : List ℕ) (c : ℕ) (v : V)
      → IsWide t
      → is_found (get_cell t uuid c) ≡ true
      → IsCellSet t uuid c v
  unfolding get_cell
  set_cell-IsCellSet t uuid c v h r = elim (Option-cases (get_row t uuid)) [
    | inl e ↦ let nothing : false ≡ true = sym (rw e refl) ∙ r in cc
    | inr (row, e) ↦ elim (Bool-cases (ltb c (column_count t.schema))) [
      | inl b ↦ written-IsCellSet t uuid c v row h e b
      | inr b ↦ let nothing : false ≡ true = sym (rw e (rw b refl)) ∙ r in cc
    ]
  ]
