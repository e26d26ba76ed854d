-- ===== src/Storage/Table/Files.antt =====
-- The file of a table: `save` and `load` of src/storage/table.cpp, on the bytes of the file. A read past
-- the end leaves a number undefined in C++, which throws here.
pub mod RoundTrip
use cw_db.Prelude.{
  ℕ, zero, suc, ◌+◌, ◌-◌, ◌/◌, ◌%◌, ◌^◌, Bool, true, false, not, ◌&&◌, ◌||◌, List, [], ◌∷◌, ◌++◌,
  Option, none, some, ◌==◌, ltb, if◌then◌else◌, length, take, drop, replicate,
}
use cw_db.Prelude.Bytes.{Bytes, le_bytes, of_le}
use cw_db.Prelude.Map.{find, emplace, nat_eq}
use cw_db.Prelude.Error
use cw_db.Prelude.Error.{
  Error, Result, ok, throw, undefined, bad_magic, unsupported_version, unknown_value_tag,
  out_of_range,
}
use cw_db.Core.Value.{Value, DataType, null, int, str}
use cw_db.Sql.Schema.{ColumnDef, TableSchema}
use cw_db.Sql.Where.{Row}
use cw_db.Storage.ValueIo.{to_u64, of_u64}
use cw_db.Storage.Table.{Table}

-- `kMagic` and `kVersion`
abbrev pub file_magic : ℕ
file_magic = 0x42535444

abbrev pub file_version : ℕ
file_version = 3

unfoldable pub write_string : Bytes → Bytes
write_string s = le_bytes 4 (length s % 2 ^ 32) ++ take (length s % 2 ^ 32) s

unfoldable pub write_value : Value → Bytes
unfolding write_string
write_value null = le_bytes 1 0
write_value (int a) = le_bytes 1 1 ++ le_bytes 8 (to_u64 a)
write_value (str s) = le_bytes 1 2 ++ write_string s

unfoldable pub write_row : Row → Bytes
unfolding write_value
write_row [] = []
write_row (v ∷ vs) = write_value v ++ write_row vs

-- The enumerators of `DataType`, and the bits of the flags.
abbrev pub type_byte : DataType → ℕ
type_byte DataType.int = 1
type_byte DataType.str = 2

abbrev pub bit : ℕ → Bool → ℕ
bit n b = if b then n else 0

abbrev pub flags_of : ColumnDef → ℕ
flags_of c = bit 1 c.not_null + bit 2 c.indexed + bit 4 c.has_default

abbrev pub write_default : Bool → Value → Bytes
write_default true v = write_value v
write_default false v = []

unfoldable pub write_column : ColumnDef → Bytes
unfolding write_string write_value
write_column c =
    write_string c.name
    ++ (le_bytes 1 (type_byte c.type)
        ++ (le_bytes 1 (flags_of c) ++ write_default c.has_default c.default_value))

unfoldable pub write_columns : TableSchema → Bytes
unfolding write_column
write_columns [] = []
write_columns (c ∷ cs) = write_column c ++ write_columns cs

-- The loop over the order; `at` throws for an id without a row.
abbrev pub or_out_of_range : Option Row → Result Row
or_out_of_range none = throw out_of_range
or_out_of_range (some row) = ok row

unfoldable pub write_rows : List (ℕ × Row) → List ℕ → Result Bytes
unfolding write_row
write_rows records [] = ok []
write_rows records (id ∷ order) = Error.◌>>=◌ (or_out_of_range (find id records)) λ row.
    Error.◌>>=◌ (write_rows records order) λ rest. ok (le_bytes 8 id ++ (write_row row ++ rest))

-- The file that `save` writes, behind binding the path and flushing the indexes.
unfoldable pub table_image : {Index : Type 0} → Table Index → Result Bytes
unfolding write_string write_columns write_rows
table_image t = Error.◌>>=◌ (write_rows t.records t.order) λ rows. ok (
    le_bytes 4 file_magic
    ++ (le_bytes 4 file_version
        ++ (write_string t.name
            ++ (le_bytes 4 (length t.schema % 2 ^ 32)
                ++ (write_columns t.schema
                    ++ (le_bytes 8 t.next_id ++ (le_bytes 8 (length t.order % 2 ^ 64) ++ rows)))))))

-- Code that reads: the bytes that are left are the state.
abbrev pub Reader : Type 0 → Type 0
Reader A = Bytes → Result (A × Bytes)

infixl 5 ◌>>=◌ ◌>>◌
abbrev pub ◌>>=◌ : {A B : Type 0} → Reader A → (A → Reader B) → Reader B
◌>>=◌ m f bytes = Error.◌>>=◌ (m bytes) (λ r. f r.0 r.1)

abbrev pub ◌>>◌ : {B : Type 0} → Reader (Unit {0}) → Reader B → Reader B
◌>>◌ m k bytes = Error.◌>>=◌ (m bytes) (λ r. k r.1)

abbrev pub pure : {A : Type 0} → A → Reader A
pure a bytes = ok (a, bytes)

abbrev pub refuse : Bool → Error → Reader (Unit {0})
refuse true e bytes = throw e
refuse false e bytes = ok (tt, bytes)

-- `read_pod` of a number of so many bytes.
unfoldable pub read_pod : ℕ → Reader ℕ
read_pod n bytes =
    if ltb (length bytes) n then throw undefined else ok (of_le (take n bytes), drop n bytes)

-- Bytes that are missing stay zero.
unfoldable pub read_string : Reader Bytes
unfolding read_pod
read_string = do
  n ← read_pod 4
  λ bytes. ok (take n bytes ++ replicate (n - length bytes) 0, drop n bytes)

abbrev pub read_tagged : ℕ → Reader Value
read_tagged tag =
    if tag == 0
    then pure null
    else if tag == 1
    then (read_pod 8 >>= λ x. pure (int (of_u64 x)))
    else if tag == 2
    then (read_string >>= λ s. pure (str s))
    else (λ bytes. throw unknown_value_tag)

unfoldable pub read_value : Reader Value
unfolding read_pod read_string
read_value = read_pod 1 >>= read_tagged

unfoldable pub read_row : ℕ → Reader Row
unfolding read_value
read_row zero = pure []
read_row (suc n) = do v ← read_value; vs ← read_row n; pure (v ∷ vs)

-- A byte that is no enumerator makes a column without a type, which the model does not have.
abbrev pub data_type : ℕ → Reader DataType
data_type t =
    if t == 1
    then pure DataType.int
    else if t == 2
    then pure DataType.str
    else (λ bytes. throw undefined)

abbrev pub read_default : Bool → Reader Value
read_default true = read_value
read_default false = pure null

unfoldable pub read_column : Reader ColumnDef
unfolding read_string read_pod read_value
read_column = do
  name ← read_string
  t ← read_pod 1
  type ← data_type t
  flags ← read_pod 1
  let has_default = flags / 4 % 2 == 1
  default_value ← read_default has_default
  pure (record {
    name = name;
    type = type;
    not_null = flags % 2 == 1;
    indexed = flags / 2 % 2 == 1;
    has_default = has_default;
    default_value = default_value;
  })

unfoldable pub read_columns : ℕ → Reader TableSchema
unfolding read_column
read_columns zero = pure []
read_columns (suc k) = do c ← read_column; cs ← read_columns k; pure (c ∷ cs)

-- The loop over the rows: the records and the order, to which each row is added.
unfoldable pub read_rows : ℕ → ℕ → List (ℕ × Row) → Reader (List (ℕ × Row) × List ℕ)
unfolding read_pod read_row
read_rows width zero records = pure (records, [])
read_rows width (suc k) records = do
  id ← read_pod 8
  row ← read_row width
  (all, order) ← read_rows width k (emplace id row records)
  pure (all, id ∷ order)

-- What `load` reads of a file of any version before it turns to the indexes.
pub record Loaded : Type 0 where
  pub version : ℕ
  pub name : Bytes
  pub schema : TableSchema
  pub next_id : ℕ
  pub records : List (ℕ × Row)
  pub order : List ℕ

abbrev pub load_rows : ℕ → Bytes → TableSchema → ℕ → ℕ → Reader Loaded
load_rows version name schema next_id n = read_rows (length schema) n [] >>= λ r. pure (record {
  version = version;
  name = name;
  schema = schema;
  next_id = next_id;
  records = r.0;
  order = r.1;
})

abbrev pub load_count : ℕ → Bytes → TableSchema → ℕ → Reader Loaded
load_count version name schema next_id = read_pod 8 >>= load_rows version name schema next_id

abbrev pub load_ids : ℕ → Bytes → TableSchema → Reader Loaded
load_ids version name schema = read_pod 8 >>= load_count version name schema

abbrev pub load_columns : ℕ → Bytes → Reader Loaded
load_columns version name = read_pod 4 >>= λ cols. read_columns cols >>= load_ids version name

abbrev pub is_unsupported : ℕ → Bool
is_unsupported version = not (version == 1) && (not (version == 2) && not (version == file_version))

abbrev pub load_named : ℕ → Reader Loaded
load_named version = read_string >>= load_columns version

abbrev pub load_versioned : ℕ → Reader Loaded
load_versioned version = refuse (is_unsupported version) unsupported_version >> load_named version

abbrev pub load_marked : ℕ → Reader Loaded
load_marked magic = refuse (not (magic == file_magic)) bad_magic >> (read_pod 4 >>= load_versioned)

unfoldable pub load_table : Reader Loaded
unfolding read_pod read_string read_columns read_rows
load_table = read_pod 4 >>= load_marked
