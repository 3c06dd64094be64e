-- ===== src/Tables.antt =====
-- native/src/table_model/runtime_table.h and .cpp: the rows that the user interface lists, by UUID,
-- in the order of their texts. `V` is the type of the value of a cell, and an index of a column is
-- not negative.
pub mod Cells
mod Tests
use peraviz.Prelude.{
  ℕ, suc, Bool, true, false, not, ◌&&◌, ◌||◌, ◌==◌, ltb, if◌then◌else◌, Option, none, some, List,
  [], ◌∷◌, length, get_elem?, set, map, same_text, ◌>>=◌,
}

pub data RuntimeColumnValueKind : Type 0 where
  empty string integer decimal boolean : RuntimeColumnValueKind

pub record RuntimeTableColumn : Type 0 where
  pub index : ℕ
  pub name : List ℕ
  pub value_kind : RuntimeColumnValueKind

pub record RuntimeTableSchema : Type 0 where
  pub table_id : List ℕ
  pub version : ℕ
  pub columns : List RuntimeTableColumn

pub record RuntimeTable (V : Type 0) : Type 0 where
  pub schema : RuntimeTableSchema
  pub rows_by_uuid : List (List ℕ × List V)

unfoldable pub column_count : RuntimeTableSchema → ℕ
column_count schema = length schema.columns

unfoldable pub column_at : RuntimeTableSchema → ℕ → Option RuntimeTableColumn
column_at schema column_index = get_elem? schema.columns column_index

-- The order of texts.
unfoldable pub less_text : List ℕ → List ℕ → Bool
less_text xs [] = false
less_text [] (y ∷ ys) = true
less_text (x ∷ xs) (y ∷ ys) = ltb x y || (x == y && less_text xs ys)

abbrev pub is_empty : List ℕ → Bool
is_empty [] = true
is_empty (c ∷ text) = false

-- The test that a search has an answer.
abbrev pub is_found {ℓ} : {A : Type ℓ} → Option A → Bool
is_found none = false
is_found (some a) = true

module _ {V : Type 0} where
  unfoldable pub clear : RuntimeTable V → RuntimeTable V
  clear t = record t { rows_by_uuid = [] }

  -- `rows_by_uuid_[row_uuid] = row`.
  unfoldable pub put : List (List ℕ × List V) → List ℕ → List V → List (List ℕ × List V)
  put [] uuid row = (uuid, row) ∷ []
  put ((u, r) ∷ rows) uuid row =
      let rest = put rows uuid row in
      if same_text u uuid
      then (uuid, row) ∷ rows
      else (if less_text uuid u then (uuid, row) ∷ (u, r) ∷ rows else (u, r) ∷ rest)

  unfoldable pub set_row : RuntimeTable V → List ℕ → List V → Bool × RuntimeTable V
  set_row t uuid row =
      if is_empty uuid || not (length row == column_count t.schema)
      then (false, t)
      else (true, record t { rows_by_uuid = put t.rows_by_uuid uuid row })

  unfoldable pub find_row : List (List ℕ × List V) → List ℕ → Option (List V)
  find_row [] uuid = none
  find_row ((u, r) ∷ rows) uuid = if same_text u uuid then some r else find_row rows uuid

  unfoldable pub get_row : RuntimeTable V → List ℕ → Option (List V)
  get_row t uuid = find_row t.rows_by_uuid uuid

  unfoldable pub get_cell : RuntimeTable V → List ℕ → ℕ → Option V
  get_cell t uuid column_index = do
    row ← get_row t uuid
    if ltb column_index (column_count t.schema) then get_elem? row column_index else none

  -- The write to the row that `find` has found.
  unfoldable pub write_cell : List (List ℕ × List V) → List ℕ → ℕ → V → List (List ℕ × List V)
  write_cell [] uuid column_index value = []
  write_cell ((u, r) ∷ rows) uuid column_index value =
      let rest = write_cell rows uuid column_index value in
      if same_text u uuid then (u, set r column_index value) ∷ rows else (u, r) ∷ rest

  unfoldable pub set_cell : RuntimeTable V → List ℕ → ℕ → V → Bool × RuntimeTable V
  set_cell t uuid column_index value =
      if is_found (get_row t uuid) && ltb column_index (column_count t.schema)
      then (true, record t { rows_by_uuid = write_cell t.rows_by_uuid uuid column_index value })
      else (false, t)

  unfoldable pub row_uuids : RuntimeTable V → List (List ℕ)
  row_uuids t = map (λ entry. entry.0) t.rows_by_uuid

  unfoldable pub rows : RuntimeTable V → List (List ℕ × List V)
  rows t = t.rows_by_uuid
