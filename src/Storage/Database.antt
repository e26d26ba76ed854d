-- ===== src/Storage/Database.antt =====
-- The tables of a database by name: src/storage/database.cpp, less the files.
use cw_db.Prelude.{Bool, false, List, [], Option, none, some, if◌then◌else◌}
use cw_db.Prelude.Bytes.{Bytes}
use cw_db.Prelude.Map.{find, emplace, erase, bytes_eq}
use cw_db.Prelude.Error.{Result, ok, throw, unknown_table, table_exists}
use cw_db.Sql.Schema.{TableSchema}
use cw_db.Storage.Table.{IndexOps, Table, bind_dat_path}

-- `has_dir` says that `storage_dir_` is not empty.
pub record Database (Index : Type 0) : Type 0 where
  pub name : Bytes
  pub tables : List (Bytes × Table Index)
  pub has_dir : Bool

-- `Table(name, schema)`
abbrev pub new_table : {Index : Type 0} → Bytes → TableSchema → Table Index
new_table name schema = record {
  name = name;
  schema = schema;
  records = [];
  order = [];
  indexes = [];
  bound = false;
  next_id = 1;
}

abbrev pub some_table : {Index : Type 0} → Bytes → Option (Table Index) → Result (Table Index)
some_table name none = throw (unknown_table name)
some_table name (some t) = ok t

unfoldable pub require_table : {Index : Type 0} → Bytes → Database Index → Result (Table Index)
require_table name d = some_table name (find name d.tables)

abbrev pub drop_found :
    {Index : Type 0}
    → Bytes
    → Option (Table Index)
    → Database Index
    → Result (Unit {0}) × Database Index
drop_found name none d = (throw (unknown_table name), d)
drop_found name (some t) d = (ok tt, record d { tables = erase name d.tables })

unfoldable pub drop_table :
    {Index : Type 0} → Bytes → Database Index → Result (Unit {0}) × Database Index
drop_table name d = drop_found name (find name d.tables) d

-- The table is in the map before it is bound to its file.
abbrev pub create_new :
    (ops : IndexOps)
    → Bytes
    → TableSchema
    → Option (Table ops.Index)
    → Database ops.Index
    → Result (Unit {0}) × Database ops.Index
create_new ops name schema (some t) d = (throw (table_exists name), d)
create_new ops name schema none d =
    let (r, t) =
      if d.has_dir
      then bind_dat_path ops (new_table name schema)
      else (ok tt, new_table name schema) in
    (r, record d { tables = emplace name t d.tables })

unfoldable pub create_table :
    (ops : IndexOps)
    → Bytes
    → TableSchema
    → Database ops.Index
    → Result (Unit {0}) × Database ops.Index
unfolding bind_dat_path
create_table ops name schema d = create_new ops name schema (find name d.tables) d
