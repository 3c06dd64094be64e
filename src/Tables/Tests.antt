-- ===== src/Tables/Tests.antt =====
-- A table of two columns and two rows.
use peraviz.Prelude.{ℕ, refl, List, [], ◌∷◌, same_text}
use peraviz.Tables.{
  RuntimeTable, column_count, get_cell, get_row, find_row, RuntimeTableColumn,
  RuntimeColumnValueKind,
}
use peraviz.Tables.Cells.{set_cell-IsCellSet, IsCellSet}

abbrev columns : List RuntimeTableColumn
columns =
    record { index = 0; name = 1 ∷ []; value_kind = RuntimeColumnValueKind.string }
    ∷ record { index = 1; name = 2 ∷ []; value_kind = RuntimeColumnValueKind.integer }
    ∷ []

abbrev fixtures : RuntimeTable ℕ
fixtures = record {
  schema = record { table_id = 7 ∷ []; version = 1; columns = columns };
  rows_by_uuid = (10 ∷ [], 5 ∷ 6 ∷ []) ∷ (11 ∷ [], 8 ∷ 9 ∷ []) ∷ [];
}

set_cell-IsCellSet_example : IsCellSet fixtures (11 ∷ []) 1 4
unfolding column_count get_cell get_row find_row same_text
set_cell-IsCellSet_example = set_cell-IsCellSet fixtures (11 ∷ []) 1 4 (refl, (refl, tt)) refl
