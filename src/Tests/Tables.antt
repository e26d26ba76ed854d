-- ===== src/Tests/Tables.antt =====
-- Tables at concrete states: storage/table.cpp.
use cw_db.Prelude.{
  ℕ, ◌≡◌, refl, true, false, List, [], ◌∷◌, ◌++◌, Option, some, ◌==◌, if◌then◌else◌, arith,
}
use cw_db.Prelude.Int.{pos}
use cw_db.Prelude.Bytes.{codes}
use cw_db.Prelude.Map.{find, assign, nat_eq}
use cw_db.Prelude.Error.{ok}
use cw_db.Core.Value.{Value, DataType, null, int, str, eq_value, matches}
use cw_db.Sql.Schema.{ColumnDef, TableSchema, column_is_indexed}
use cw_db.Sql.Ast.{CompareOp, Expr, column_ref, literal, compare}
use cw_db.Sql.Where.{Row, RegexMatch}
use cw_db.Sql.Select.{delete_rows, insert_rows}
use cw_db.Sql.Select.Keeps.{delete_rows-IsValid, insert_rows-IsValid}
use cw_db.Storage.Pager.Ids.{mem}
use cw_db.Storage.Table.Sorted.{list_ops, lookup_entry, without}
use cw_db.Storage.Table.{
  Table, insert, update, assign_all, materialize, enforce_constraints, check_cells, check_keys,
  index_find, index_at, install_from, remove_from, change_index, open_indexes, open_from,
}
use cw_db.Storage.Table.Rows.{IsValid, Fits, insert-IsValid, update-IsValid}
use cw_db.Storage.Table.Stores.{IsAssigned, insert-stores, update-stores}
use cw_db.Storage.Table.Filled.{given, filled, materialize-filled}

abbrev pub id_column : ColumnDef
id_column = record {
  name = codes "id";
  type = DataType.int;
  not_null = false;
  indexed = true;
  has_default = false;
  default_value = null;
}

abbrev pub name_column : ColumnDef
name_column = record id_column {
  name = codes "name";
  type = DataType.str;
  indexed = false;
  has_default = true;
  default_value = str (codes "anon");
}

abbrev pub columns : TableSchema
columns = id_column ∷ name_column ∷ []

abbrev pub ann : Row
ann = int (pos 7) ∷ str (codes "ann") ∷ []

abbrev pub bob : Row
bob = int (pos 8) ∷ str (codes "bob") ∷ []

abbrev pub people : Table (List (Value × ℕ))
people = record {
  name = codes "people";
  schema = columns;
  records = (1, ann) ∷ [];
  order = 1 ∷ [];
  indexes = (0, (int (pos 7), 1) ∷ []) ∷ [];
  bound = true;
  next_id = 2;
}

ann-Fits : Fits columns ann
unfolding check_cells matches
ann-Fits = (refl, refl)

pub people-IsValid : IsValid people
people-IsValid = record {
  listed = λ id. unfold mem find in ground arith;
  distinct = (unfold mem in refl, tt);
  below = λ id h. unfold mem in ground arith;
  rows = λ id row h. unfold find in ground (arith, ann-Fits);
}

insert-IsValid_example : IsValid (insert list_ops bob people).1
insert-IsValid_example = insert-IsValid list_ops bob people people-IsValid (omega arith)

insert-stores_example :
    (◌≡◌ {A = ℕ} 2 people.next_id)
    × Fits people.schema bob
    × ((j : ℕ)
        → find j (insert list_ops bob people).1.records
          ≡ (if 2 == j then some bob else find j people.records))
    × ((insert list_ops bob people).1.order ≡ people.order ++ (2 ∷ []))
insert-stores_example = insert-stores list_ops bob people 2 people-IsValid (
    unfold insert enforce_constraints check_cells check_keys matches index_find index_at
      column_is_indexed install_from change_index open_indexes open_from find eq_value
      lookup_entry in
    refl)

update-IsValid_example : IsValid (update list_ops 1 ((0, int (pos 9)) ∷ []) people).1
update-IsValid_example = update-IsValid list_ops 1 ((0, int (pos 9)) ∷ []) people people-IsValid

update-stores_example :
    (old row : Row) × (find 1 people.records ≡ some old)
    × IsAssigned ((0, int (pos 9)) ∷ []) old row
    × Fits people.schema row
    × ((j : ℕ)
        → find j (update list_ops 1 ((0, int (pos 9)) ∷ []) people).1.records
          ≡ (if 1 == j then some row else find j people.records))
    × ((update list_ops 1 ((0, int (pos 9)) ∷ []) people).1.order ≡ people.order)
update-stores_example = update-stores list_ops 1 ((0, int (pos 9)) ∷ []) people (
    unfold update assign_all enforce_constraints check_cells check_keys matches index_find index_at
      column_is_indexed install_from remove_from change_index open_indexes open_from find eq_value
      lookup_entry without assign in
    refl)

materialize-filled_example :
    materialize columns (0 ∷ []) (int (pos 8) ∷ [])
    ≡ ok (filled (λ i. given i (0 ∷ []) (int (pos 8) ∷ [])) 0 columns)
materialize-filled_example =
    materialize-filled columns (0 ∷ []) (int (pos 8) ∷ []) refl (unfold mem in (refl, tt))
      (λ p h. unfold mem in ground arith)

-- No regular expression matches.
abbrev pub no_match : RegexMatch
no_match pattern_text s = some false

abbrev pub id_is_seven : Option Expr
id_is_seven = some (compare CompareOp.eq (column_ref (codes "id")) (literal (int (pos 7))))

delete_rows-IsValid_example : IsValid (delete_rows list_ops no_match id_is_seven people).1
delete_rows-IsValid_example =
    delete_rows-IsValid list_ops no_match id_is_seven people people-IsValid

insert_rows-IsValid_example : IsValid (insert_rows list_ops [] (bob ∷ (null ∷ []) ∷ []) people).1
insert_rows-IsValid_example =
    insert_rows-IsValid list_ops [] (bob ∷ (null ∷ []) ∷ []) people people-IsValid (omega arith)
