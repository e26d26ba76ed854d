-- ===== src/Tests/Files.antt =====
-- The file of a table at a concrete state: storage/table.cpp.
use cw_db.Prelude.{ℕ, ◌≡◌, refl, [], some, All, subst, arith}
use cw_db.Prelude.Bytes.{Bytes}
use cw_db.Prelude.Map.{find, nat_eq}
use cw_db.Prelude.Error.{ok}
use cw_db.Sql.Where.{Row}
use cw_db.Storage.ValueIo.RoundTrip.{IsStorable}
use cw_db.Storage.Table.Files.{table_image, load_table, Loaded}
use cw_db.Storage.Table.Files.RoundTrip.{IsSavable, IsBack, load_table-table_image}
use cw_db.Tests.Tables.{ann, people, people-IsValid}

ann-IsStorable : All IsStorable ann
ann-IsStorable = ((omega arith, omega arith), (omega arith, tt))

values : (id : ℕ) (row : Row) → find id people.records ≡ some row → All IsStorable row
unfolding find
values id row h =
    let same : ann ≡ row = ground (arith, h) in subst (All IsStorable) same ann-IsStorable

people-IsSavable : IsSavable people
people-IsSavable = record {
  name_small = omega arith;
  few_columns = omega arith;
  columns = (
    record { name_small = omega arith; storable = tt; absent = λ e. refl },
    (
      record {
        name_small = omega arith;
        storable = omega arith;
        absent = λ e. absurd (ground arith);
      },
      tt,
    ),
  );
  next_small = omega arith;
  few_rows = omega arith;
  values = values;
}

load_table-table_image_example :
    (image : Bytes) × (l : Loaded) × (table_image people ≡ ok image)
    × (load_table image ≡ ok (l, []))
    × IsBack people l
load_table-table_image_example = load_table-table_image people people-IsValid people-IsSavable
