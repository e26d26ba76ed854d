-- ===== src/Storage/Dbms/Active.antt =====
-- The active database exists: src/core/dbms.cpp.
use cw_db.Prelude.{◌≡◌, refl, true, [], some, ◌⊎◌, inl, inr, arith, Bool-cases, Option-cases}
use cw_db.Prelude.Bytes.{Bytes, eq_bytes, eq_bytes_iff}
use cw_db.Prelude.Map.{find, find-emplace, find-erase, bytes_eq}
use cw_db.Prelude.Error.{ok, throw, no_database}
use cw_db.Storage.Database.{Database}
use cw_db.Storage.Dbms.{
  Dbms, has_database, create_database, drop_database, use_database, active_or_throw,
  require_database, new_database,
}

-- One call of an operation that changes the databases, whether it throws or not.
pub data Step {Index : Type 0} : Dbms Index → Dbms Index → Type 0 where
  creates : (name : Bytes) (d : Dbms Index) → Step d (create_database name d).1
  drops : (name : Bytes) (d : Dbms Index) → Step d (drop_database name d).1
  uses : (name : Bytes) (d : Dbms Index) → Step d (use_database name d).1

pub data Reaches {Index : Type 0} (start : Dbms Index) : Dbms Index → Type 0 where
  here : Reaches start start
  more : (d e : Dbms Index) → Reaches start d → Step d e → Reaches start e

module _ {Index : Type 0} where
  abbrev ActiveExists : Dbms Index → Type 0
  ActiveExists d = (d.active ≡ []) ⊎ (has_database d.active d ≡ true)

  create_database-ActiveExists :
      (name : Bytes) (d : Dbms Index) → ActiveExists d → ActiveExists (create_database name d).1
  unfolding create_database has_database
  create_database-ActiveExists name d a = elim (Option-cases (find name d.databases)) [
    | inr (db, found) ↦ rw found a
    | inl missing ↦ rw missing (elim a [
      | inl nobody ↦ inl nobody
      | inr there ↦ inr (
          ground (arith, find-emplace name d.active (new_database name) d.databases missing, there))
    ])
  ]

  drop_database-ActiveExists :
      (name : Bytes) (d : Dbms Index) → ActiveExists d → ActiveExists (drop_database name d).1
  unfolding drop_database has_database
  drop_database-ActiveExists name d a = elim (Option-cases (find name d.databases)) [
    | inl missing ↦ rw missing a
    | inr (db, found) ↦ rw found (elim (Bool-cases (eq_bytes d.active name)) [
      | inl same ↦ inl (ground (arith, same))
      | inr other ↦ elim a [
        | inl nobody ↦ inl (ground (arith, nobody, other))
        | inr there ↦ inr (
            ground (
              arith,
              other,
              there,
              find-erase name d.active d.databases,
              eq_bytes_iff name d.active,
              eq_bytes_iff d.active name,
            ))
      ]
    ])
  ]

  use_database-ActiveExists :
      (name : Bytes) (d : Dbms Index) → ActiveExists d → ActiveExists (use_database name d).1
  unfolding use_database has_database
  use_database-ActiveExists name d a = elim (Option-cases (find name d.databases)) [
    | inl missing ↦ rw missing a
    | inr (db, found) ↦ rw found (inr (ground (arith, found)))
  ]

  Step-ActiveExists : {d e : Dbms Index} → Step d e → ActiveExists d → ActiveExists e
  Step-ActiveExists (creates name d) a = create_database-ActiveExists name d a
  Step-ActiveExists (drops name d) a = drop_database-ActiveExists name d a
  Step-ActiveExists (uses name d) a = use_database-ActiveExists name d a

  Reaches-ActiveExists : {d e : Dbms Index} → Reaches d e → ActiveExists d → ActiveExists e
  Reaches-ActiveExists here a = a
  Reaches-ActiveExists (more d e before step) a =
      Step-ActiveExists step (Reaches-ActiveExists before a)

  -- Whatever databases are created, dropped and used, from a start where none is active: asking for
  -- the active one gives the database of that name, or it throws that none is selected, and then
  -- none is.
  pub active_or_throw-Reaches :
      (start d : Dbms Index)
      → start.active ≡ []
      → Reaches start d
      → ((active_or_throw d ≡ throw no_database) × (d.active ≡ []))
        ⊎ ((db : Database Index) × (active_or_throw d ≡ ok db)
            × (find d.active d.databases ≡ some db))
  unfolding active_or_throw require_database has_database
  active_or_throw-Reaches start d none_yet path = elim (Reaches-ActiveExists path (inl none_yet)) [
    | inl nobody ↦ inl (ground (arith, nobody, eq_bytes_iff d.active []), nobody)
    | inr there ↦ elim (Bool-cases (eq_bytes d.active [])) [
      | inl nobody ↦ inl (rw nobody refl, (eq_bytes_iff d.active []).0 nobody)
      | inr named ↦ elim (Option-cases (find d.active d.databases)) [
        | inl missing ↦ absurd (ground (arith, missing, there))
        | inr (db, found) ↦ inr (db, rw (named, found) refl, found)
      ]
    ]
  ]
