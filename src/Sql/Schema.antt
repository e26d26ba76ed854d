-- ===== src/Sql/Schema.antt =====
-- Table schemas: include/sql/schema.h, and the columns of src/storage/table.cpp by name and place.
use cw_db.Prelude.{ℕ, suc, Bool, false, List, [], ◌∷◌, Option, none, some, get_elem?, if◌then◌else◌}
use cw_db.Prelude.Bytes.{Bytes, eq_bytes}
use cw_db.Prelude.Error.{Result, ok, throw, unknown_column}
use cw_db.Core.Value.{DataType, Value}

pub record ColumnDef : Type 0 where
  pub name : Bytes
  pub type : DataType
  pub not_null : Bool
  pub indexed : Bool
  pub has_default : Bool
  pub default_value : Value

-- `TableSchema`, by its columns
abbrev pub TableSchema : Type 0
TableSchema = List ColumnDef

-- The loop of `index_of` from place `i` on; `none` is the result -1.
unfoldable pub index_from : ℕ → Bytes → TableSchema → Option ℕ
index_from i name [] = none
index_from i name (c ∷ cs) = if eq_bytes c.name name then some i else index_from (suc i) name cs

unfoldable pub index_of : TableSchema → Bytes → Option ℕ
unfolding index_from
index_of schema name = index_from 0 name schema

abbrev pub or_unknown : Bytes → Option ℕ → Result ℕ
or_unknown name none = throw (unknown_column name)
or_unknown name (some i) = ok i

unfoldable pub require_column : TableSchema → Bytes → Result ℕ
unfolding index_of
require_column schema name = or_unknown name (index_of schema name)

abbrev pub indexed_or_not : Option ColumnDef → Bool
indexed_or_not none = false
indexed_or_not (some c) = c.indexed

unfoldable pub column_is_indexed : TableSchema → ℕ → Bool
column_is_indexed schema col_idx = indexed_or_not (get_elem? schema col_idx)
