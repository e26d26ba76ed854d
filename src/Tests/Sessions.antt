-- ===== src/Tests/Sessions.antt =====
-- Databases that are created and used: core/dbms.cpp.
use cw_db.Prelude.{ℕ, ◌≡◌, refl, ◌⊎◌, [], some}
use cw_db.Prelude.Bytes.{codes}
use cw_db.Prelude.Map.{find, bytes_eq}
use cw_db.Prelude.Error.{ok, throw, no_database}
use cw_db.Storage.Database.{Database}
use cw_db.Storage.Dbms.{Dbms, create_database, use_database, active_or_throw}
use cw_db.Storage.Dbms.Active.{here, more, creates, uses, active_or_throw-Reaches}

abbrev empty : Dbms ℕ
empty = record { databases = []; active = [] }

abbrev created : Dbms ℕ
created = (create_database (codes "shop") empty).1

abbrev used : Dbms ℕ
used = (use_database (codes "shop") created).1

active_or_throw-Reaches_example :
    ((active_or_throw used ≡ throw no_database) × (used.active ≡ []))
    ⊎ ((db : Database ℕ) × (active_or_throw used ≡ ok db)
        × (find used.active used.databases ≡ some db))
active_or_throw-Reaches_example = active_or_throw-Reaches empty used refl (
    more created used (more empty created here (creates (codes "shop") empty))
      (uses (codes "shop") created))
