-- ===== src/Storage/Table/Files/RoundTrip.antt =====
-- A table that is saved is loaded again: src/storage/table.cpp.
use cw_db.Prelude.{
  ℕ, ◌-◌, ◌/◌, ◌%◌, ◌^◌, ◌<◌, ◌≡◌, refl, Bool, true, false, List, [], ◌∷◌, ◌++◌, none, some, ◌==◌,
  ltb, if◌then◌else◌, length, take, drop, replicate, All, length-append, take-append, drop-append,
  append_assoc, append-nil, arith, ap, sym, ◌∙◌, inl, inr, Option-cases, ==_iff,
}
use cw_db.Prelude.Bytes.{Bytes, le_bytes, length-le_bytes, of_le-take-le_bytes, drop-le_bytes}
use cw_db.Prelude.Map.{find, emplace, find-emplace, nat_eq}
use cw_db.Prelude.Error.{Error, ok, bad_magic, unsupported_version}
use cw_db.Prelude.Error
use cw_db.Core.Value.{Value, DataType, null, int, str}
use cw_db.Sql.Schema.{ColumnDef, TableSchema}
use cw_db.Sql.Where.{Row}
use cw_db.Storage.ValueIo.{to_u64}
use cw_db.Storage.ValueIo.RoundTrip.{IsStorable, of_u64-to_u64, to_u64-lt}
use cw_db.Storage.Pager.Ids.{mem, Distinct}
use cw_db.Storage.Table.{Table}
use cw_db.Storage.Table.Rows.{IsValid}
use cw_db.Storage.Table.Files.{
  write_string, write_value, write_row, write_column, write_columns, write_rows, table_image,
  flags_of, type_byte, Reader, read_pod, read_string, read_value, read_row, read_default,
  write_default, data_type, refuse, read_column, read_columns, read_rows, Loaded, load_rows,
  load_count, load_ids, load_columns, load_named, load_versioned, load_marked, load_table,
  file_magic, file_version, ◌>>=◌, ◌>>◌,
}

-- The reader reads these bytes as the value, and leaves what follows them.
abbrev pub Gives : {A : Type 0} → Reader A → Bytes → A → Type 0
Gives {A} m bytes a = (rest : Bytes) → m (bytes ++ rest) ≡ ok (a, rest)

read_pod-le_bytes : (n v : ℕ) → v < 256 ^ n → Gives (read_pod n) (le_bytes n v) v
unfolding read_pod
read_pod-le_bytes n v h rest =
    let enough : ltb (length (le_bytes n v ++ rest)) n ≡ false =
      ground (arith, length-append (le_bytes n v) rest, length-le_bytes n v) in
    rw enough (
      ap (λ x. ok (x, drop n (le_bytes n v ++ rest))) (of_le-take-le_bytes n v rest h)
      ∙ ap (λ r. ok (v, r)) (drop-le_bytes n v rest))

take-all : {A : Type 0} (xs : List A) → take (length xs) xs ≡ xs
take-all [] = refl
take-all (x ∷ xs) = ap (◌∷◌ x) (take-all xs)

taken :
    (s rest : Bytes)
    → take (length s) (s ++ rest) ++ replicate (length s - length (s ++ rest)) 0 ≡ s
taken s rest =
    let none_missing : length s - length (s ++ rest) ≡ 0 = omega (arith, length-append s rest) in
    rw (none_missing, take-append s rest) (append-nil s)

read_string-write_string : (s : Bytes) → length s < 2 ^ 32 → Gives read_string (write_string s) s
unfolding read_string write_string
read_string-write_string s small rest =
    let same : length s % 2 ^ 32 ≡ length s = omega arith in
    rw
      (
        same,
        take-all s,
        append_assoc (le_bytes 4 (length s)) s rest,
        read_pod-le_bytes 4 (length s) (omega arith) (s ++ rest),
      )
      (ap (λ x. ok (x, drop (length s) (s ++ rest))) (taken s rest)
        ∙ ap (λ r. ok (s, r)) (drop-append s rest))

read_value-write_value : (v : Value) → IsStorable v → Gives read_value (write_value v) v
unfolding read_value write_value
read_value-write_value null h rest = rw (read_pod-le_bytes 1 0 (omega arith) rest) refl
read_value-write_value (int a) h rest =
    rw
      (
        append_assoc (le_bytes 1 1) (le_bytes 8 (to_u64 a)) rest,
        read_pod-le_bytes 1 1 (omega arith) (le_bytes 8 (to_u64 a) ++ rest),
        read_pod-le_bytes 8 (to_u64 a) (to_u64-lt a h) rest,
        of_u64-to_u64 a h,
      )
      refl
read_value-write_value (str s) h rest =
    rw
      (
        append_assoc (le_bytes 1 2) (write_string s) rest,
        read_pod-le_bytes 1 2 (omega arith) (write_string s ++ rest),
        read_string-write_string s h rest,
      )
      refl

read_row-write_row : (vs : Row) → All IsStorable vs → Gives (read_row (length vs)) (write_row vs) vs
unfolding read_row write_row
read_row-write_row [] h rest = refl
read_row-write_row (v ∷ vs) h rest =
    rw
      (
        append_assoc (write_value v) (write_row vs) rest,
        read_value-write_value v h.0 (write_row vs ++ rest),
        read_row-write_row vs h.1 rest,
      )
      refl

bind-Gives :
    {A B : Type 0} (m : Reader A) (f : A → Reader B) (bs cs : Bytes) (a : A) (b : B)
    → Gives m bs a
    → Gives (f a) cs b
    → Gives (m >>= f) (bs ++ cs) b
bind-Gives m f bs cs a b h k rest =
    ap (λ x. Error.◌>>=◌ (m x) (λ r. f r.0 r.1)) (append_assoc bs cs rest)
    ∙ ap (λ x. Error.◌>>=◌ x (λ r. f r.0 r.1)) (h (cs ++ rest))
    ∙ k rest

-- A last step that reads nothing more.
last-Gives :
    {A B : Type 0} (m : Reader A) (f : A → Reader B) (bs : Bytes) (a : A) (b : B)
    → Gives m bs a
    → Gives (f a) [] b
    → Gives (m >>= f) bs b
last-Gives m f bs a b h k rest = ap (λ x. Error.◌>>=◌ x (λ r. f r.0 r.1)) (h rest) ∙ k rest

refuse-Gives :
    {B : Type 0} (c : Bool) (e : Error) (k : Reader B) (bs : Bytes) (b : B)
    → c ≡ false
    → Gives k bs b
    → Gives (refuse c e >> k) bs b
refuse-Gives false e k bs b h g rest = g rest
refuse-Gives true e k bs b h g rest = absurd (ground arith)

-- A column that can be stored: where it has no default value, that is NULL.
pub record IsColumn (c : ColumnDef) : Type 0 where
  pub name_small : length c.name < 2 ^ 32
  pub storable : IsStorable c.default_value
  pub absent : c.has_default ≡ false → c.default_value ≡ null

read_default-write_default :
    (b : Bool) (v : Value)
    → IsStorable v
    → (b ≡ false → v ≡ null)
    → Gives (read_default b) (write_default b v) v
read_default-write_default true v h k rest = read_value-write_value v h rest
read_default-write_default false v h k rest = ap (λ w. ok (w, rest)) (sym (k refl))

data_type-type_byte : (ty : DataType) → Gives (data_type (type_byte ty)) [] ty
data_type-type_byte DataType.int rest = refl
data_type-type_byte DataType.str rest = refl

type_byte-lt : (ty : DataType) → type_byte ty < 256 ^ 1
type_byte-lt DataType.int = omega arith
type_byte-lt DataType.str = omega arith

read_column-write_column : (c : ColumnDef) → IsColumn c → Gives read_column (write_column c) c
unfolding read_column write_column
read_column-write_column c h =
    let flags = flags_of c in
    let nn : (flags % 2 == 1) ≡ c.not_null = ground arith in
    let ix : (flags / 2 % 2 == 1) ≡ c.indexed = ground arith in
    let hd : (flags / 4 % 2 == 1) ≡ c.has_default = ground arith in
    bind-Gives read_string _ (write_string c.name) _ c.name c
      (read_string-write_string c.name h.name_small)
      (bind-Gives (read_pod 1) _ (le_bytes 1 (type_byte c.type)) _ (type_byte c.type) c
        (read_pod-le_bytes 1 (type_byte c.type) (type_byte-lt c.type))
        (bind-Gives (data_type (type_byte c.type)) _ [] _ c.type c (data_type-type_byte c.type) (
          bind-Gives (read_pod 1) _ (le_bytes 1 flags) _ flags c
            (read_pod-le_bytes 1 flags (ground arith))
            (last-Gives (read_default (flags / 4 % 2 == 1)) _
              (write_default c.has_default c.default_value) c.default_value c
              (rw hd (read_default-write_default c.has_default c.default_value h.storable h.absent))
              (λ rest. rw (nn, ix, hd) refl)))))

read_columns-write_columns :
    (cs : TableSchema) → All IsColumn cs → Gives (read_columns (length cs)) (write_columns cs) cs
unfolding read_columns write_columns
read_columns-write_columns [] h rest = refl
read_columns-write_columns (c ∷ cs) h rest =
    bind-Gives read_column _ (write_column c) (write_columns cs) c (c ∷ cs)
      (read_column-write_column c h.0)
      (last-Gives (read_columns (length cs)) _ (write_columns cs) cs (c ∷ cs)
        (read_columns-write_columns cs h.1) (λ rest. refl))
      rest

-- A row of the width that can be stored, under an id of 64 bits.
abbrev IsRow : ℕ → ℕ → Row → Type 0
IsRow width id row = (length row ≡ width) × All IsStorable row × (id < 2 ^ 64)

-- What the loop over the rows reads.
abbrev RowsBack : ℕ → List (ℕ × Row) → List (ℕ × Row) → List ℕ → Type 0
RowsBack width saved records order =
    (bytes : Bytes) × (all : List (ℕ × Row)) × (write_rows saved order ≡ ok bytes)
    × Gives (read_rows width (length order) records) bytes (all, order)
    × ((j : ℕ) → find j all ≡ (if mem j order then find j saved else find j records))

read_rows-write_rows :
    (width : ℕ) (saved records : List (ℕ × Row)) (order : List ℕ)
    → Distinct order
    → ((id : ℕ)
        → mem id order ≡ true
        → (row : Row) × (find id saved ≡ some row) × IsRow width id row)
    → ((id : ℕ) → mem id order ≡ true → find id records ≡ none)
    → RowsBack width saved records order
unfolding read_rows write_rows mem
read_rows-write_rows width saved records [] d there free =
    ([], records, refl, λ rest. refl, λ j. refl)
read_rows-write_rows width saved records (id ∷ order) d there free =
    let (row, here, (wide, storable, small)) = there id (ground (arith, ==_iff id id)) in
    let mine : find id records ≡ none = free id (ground (arith, ==_iff id id)) in
    let later = λ (j : ℕ). find-emplace id j row records mine in
    let (bytes, all, written, gives, found) =
      read_rows-write_rows width saved (emplace id row records) order d.1
        (λ j m. there j (ground arith))
        (λ j m. ground (arith, later j, ==_iff id j, d.0, free j, m)) in
    (
      le_bytes 8 id ++ (write_row row ++ bytes),
      all,
      rw (here, written) refl,
      bind-Gives (read_pod 8) _ (le_bytes 8 id) (write_row row ++ bytes) id (all, id ∷ order)
          (read_pod-le_bytes 8 id (omega arith))
          (bind-Gives (read_row width) _ (write_row row) bytes row (all, id ∷ order)
            (rw (sym wide) (read_row-write_row row storable))
            (last-Gives (read_rows width (length order) (emplace id row records)) _ bytes
              (all, order) (all, id ∷ order) gives (λ rest. refl))),
      λ j. found j ∙ ground (arith, later j, ==_iff id j, d.0, here),
    )

-- Names, columns and values that fit their fields in the file.
pub record IsSavable {Index : Type 0} (t : Table Index) : Type 0 where
  pub name_small : length t.name < 2 ^ 32
  pub few_columns : length t.schema < 2 ^ 32
  pub columns : All IsColumn t.schema
  pub next_small : t.next_id < 2 ^ 64
  pub few_rows : length t.order < 2 ^ 64
  pub values : (id : ℕ) (row : Row) → find id t.records ≡ some row → All IsStorable row

-- What is read is the table, of the current version.
pub record IsBack {Index : Type 0} (t : Table Index) (l : Loaded) : Type 0 where
  pub version : l.version ≡ file_version
  pub name : l.name ≡ t.name
  pub schema : l.schema ≡ t.schema
  pub next_id : l.next_id ≡ t.next_id
  pub order : l.order ≡ t.order
  pub records : (id : ℕ) → find id l.records ≡ find id t.records

-- The magic and the version in front.
marked-Gives :
    (bs : Bytes) (l : Loaded)
    → Gives (load_named file_version) bs l
    → Gives load_table (le_bytes 4 file_magic ++ (le_bytes 4 file_version ++ bs)) l
unfolding load_table
marked-Gives bs l h =
    bind-Gives (read_pod 4) load_marked (le_bytes 4 file_magic) (le_bytes 4 file_version ++ bs)
      file_magic l (read_pod-le_bytes 4 file_magic (omega arith))
      (refuse-Gives false bad_magic (read_pod 4 >>= load_versioned) (le_bytes 4 file_version ++ bs)
        l refl
        (bind-Gives (read_pod 4) load_versioned (le_bytes 4 file_version) bs file_version l
          (read_pod-le_bytes 4 file_version (omega arith))
          (refuse-Gives false unsupported_version (load_named file_version) bs l refl h)))

row_there :
    {Index : Type 0} (t : Table Index)
    → IsValid t
    → IsSavable t
    → (id : ℕ) → mem id t.order ≡ true
    → (row : Row) × (find id t.records ≡ some row) × IsRow (length t.schema) id row
row_there t v s id m = elim (Option-cases (find id t.records)) [
  | inl absent ↦ absurd (ground (arith, v.listed id, m, absent))
  | inr (row, here) ↦ (
    row,
    here,
    ((v.rows id row here).0, s.values id row here, omega (arith, v.below id m, s.next_small)),
  )
]

-- The table as it is loaded, with these records.
abbrev pub loaded : {Index : Type 0} → Table Index → List (ℕ × Row) → Loaded
loaded t all = record {
  version = file_version;
  name = t.name;
  schema = t.schema;
  next_id = t.next_id;
  records = all;
  order = t.order;
}

-- What stands behind the version, with these rows.
abbrev pub body_image : {Index : Type 0} → Table Index → Bytes → Bytes
body_image t rows =
    write_string t.name
    ++ (le_bytes 4 (length t.schema % 2 ^ 32)
        ++ (write_columns t.schema
            ++ (le_bytes 8 t.next_id ++ (le_bytes 8 (length t.order % 2 ^ 64) ++ rows))))

body_image-Gives :
    {Index : Type 0} (t : Table Index) (bytes : Bytes) (all : List (ℕ × Row))
    → IsSavable t
    → Gives (read_rows (length t.schema) (length t.order) []) bytes (all, t.order)
    → Gives (load_named file_version) (body_image t bytes) (loaded t all)
body_image-Gives t bytes all s gives =
    let l = loaded t all in
    let cols : length t.schema % 2 ^ 32 ≡ length t.schema = omega (arith, s.few_columns) in
    let count : length t.order % 2 ^ 64 ≡ length t.order = omega (arith, s.few_rows) in
    let rows_back : Gives (load_rows file_version t.name t.schema t.next_id (length t.order)) bytes
        l =
      last-Gives (read_rows (length t.schema) (length t.order) []) _ bytes (all, t.order) l gives
        (λ rest. refl) in
    let ids_back =
      bind-Gives (read_pod 8) (load_count file_version t.name t.schema) (le_bytes 8 t.next_id)
        (le_bytes 8 (length t.order % 2 ^ 64) ++ bytes) t.next_id l
        (read_pod-le_bytes 8 t.next_id (omega (arith, s.next_small)))
        (bind-Gives (read_pod 8) (load_rows file_version t.name t.schema t.next_id)
          (le_bytes 8 (length t.order % 2 ^ 64)) bytes (length t.order) l
          (λ rest. rw count (read_pod-le_bytes 8 (length t.order) (omega (arith, s.few_rows)) rest))
          rows_back) in
    let columns_back =
      bind-Gives (read_pod 4) (λ n. read_columns n >>= load_ids file_version t.name)
        (le_bytes 4 (length t.schema % 2 ^ 32))
        (write_columns t.schema
          ++ (le_bytes 8 t.next_id ++ (le_bytes 8 (length t.order % 2 ^ 64) ++ bytes)))
        (length t.schema) l
        (λ rest.
          rw cols (read_pod-le_bytes 4 (length t.schema) (omega (arith, s.few_columns)) rest))
        (bind-Gives (read_columns (length t.schema)) (load_ids file_version t.name)
          (write_columns t.schema)
          (le_bytes 8 t.next_id ++ (le_bytes 8 (length t.order % 2 ^ 64) ++ bytes)) t.schema l
          (read_columns-write_columns t.schema s.columns) ids_back) in
    bind-Gives read_string (load_columns file_version) (write_string t.name)
      (le_bytes 4 (length t.schema % 2 ^ 32)
        ++ (write_columns t.schema
            ++ (le_bytes 8 t.next_id ++ (le_bytes 8 (length t.order % 2 ^ 64) ++ bytes))))
      t.name l (read_string-write_string t.name s.name_small) columns_back

-- A valid table whose names, columns and values fit their fields is saved, and what is loaded from the
-- bytes of the file is the name, the columns, the rows, their order and the next id of the table, with
-- nothing of the file left over.
pub load_table-table_image :
    {Index : Type 0} (t : Table Index)
    → IsValid t
    → IsSavable t
    → (image : Bytes) × (l : Loaded) × (table_image t ≡ ok image)
      × (load_table image ≡ ok (l, []))
      × IsBack t l
unfolding load_table table_image
load_table-table_image t v s =
    let there = λ (id : ℕ) (m : mem id t.order ≡ true). row_there t v s id m in
    let (bytes, all, written, gives, found) =
      read_rows-write_rows (length t.schema) t.records [] t.order v.distinct there
        (λ id m. unfold find in refl) in
    let whole =
      marked-Gives (body_image t bytes) (loaded t all) (body_image-Gives t bytes all s gives) in
    let image = le_bytes 4 file_magic ++ (le_bytes 4 file_version ++ body_image t bytes) in
    (
      image,
      loaded t all,
      rw written refl,
      ap load_table (sym (append-nil image)) ∙ whole [],
      record {
        version = refl;
        name = refl;
        schema = refl;
        next_id = refl;
        order = refl;
        records = λ id. found id ∙ unfold find in ground (arith, v.listed id);
      },
    )
