-- ===== src/Storage/Dbms.antt =====
-- The databases by name and the active one: src/core/dbms.cpp, less the files.
pub mod Active
use cw_db.Prelude.{ℕ, Bool, true, false, List, [], ◌∷◌, Option, none, some, if◌then◌else◌}
use cw_db.Prelude.Bytes.{Bytes, eq_bytes}
use cw_db.Prelude.Map.{find, emplace, erase, bytes_eq}
use cw_db.Prelude.Error.{Result, ok, throw, ◌>>=◌, unknown_database, database_exists, no_database}
use cw_db.Storage.Database.{Database}

-- `active` is empty where no database is in use.
pub record Dbms (Index : Type 0) : Type 0 where
  pub databases : List (Bytes × Database Index)
  pub active : Bytes

module _ {Index : Type 0} where
  abbrev pub is_there : Option (Database Index) → Bool
  is_there none = false
  is_there (some db) = true

  unfoldable pub has_database : Bytes → Dbms Index → Bool
  has_database name d = is_there (find name d.databases)

  abbrev pub some_database : Bytes → Option (Database Index) → Result (Database Index)
  some_database name none = throw (unknown_database name)
  some_database name (some db) = ok db

  unfoldable pub require_database : Bytes → Dbms Index → Result (Database Index)
  require_database name d = some_database name (find name d.databases)

  -- The new database has a directory and no tables.
  abbrev pub new_database : Bytes → Database Index
  new_database name = record { name = name; tables = []; has_dir = true }

  unfoldable pub create_database : Bytes → Dbms Index → Result (Unit {0}) × Dbms Index
  unfolding has_database
  create_database name d =
      if has_database name d
      then (throw (database_exists name), d)
      else (ok tt, record d { databases = emplace name (new_database name) d.databases })

  unfoldable pub drop_database : Bytes → Dbms Index → Result (Unit {0}) × Dbms Index
  unfolding has_database
  drop_database name d =
      if has_database name d
      then (
        ok tt,
        record d {
          databases = erase name d.databases;
          active = if eq_bytes d.active name then [] else d.active;
        },
      )
      else (throw (unknown_database name), d)

  unfoldable pub use_database : Bytes → Dbms Index → Result (Unit {0}) × Dbms Index
  unfolding has_database
  use_database name d =
      if has_database name d
      then (ok tt, record d { active = name })
      else (throw (unknown_database name), d)

  unfoldable pub active_or_throw : Dbms Index → Result (Database Index)
  unfolding require_database
  active_or_throw d =
      if eq_bytes d.active [] then throw no_database else require_database d.active d
