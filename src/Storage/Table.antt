-- ===== src/Storage/Table.antt =====
-- Tables: src/storage/table.cpp, less the files that `save` and `load` write and read.
-- The disk index of a column is used through the interface `IndexOps`. A method leaves its new state
-- also when it throws.
pub mod Rows
pub mod Steps
pub mod Stores
pub mod Filled
pub mod Laws
pub mod Tracks
pub mod Follow
pub mod Agrees
pub mod Files
pub mod Sorted
pub mod Disk
use cw_db.Prelude.{
  ℕ, zero, suc, ◌+◌, ◌%◌, ◌^◌, Bool, true, false, not, ◌&&◌, ◌||◌, List, [], ◌∷◌, ◌++◌, Option,
  none, some, Ordering, ◌==◌, if◌then◌else◌, length, get_elem?, set, replicate,
}
use cw_db.Prelude.Bytes.{Bytes}
use cw_db.Prelude.Map.{find, emplace, assign, erase, nat_eq}
use cw_db.Prelude.Error.{
  Error, Result, ok, throw, ◌>>=◌, ◌>>◌, throw_if, null_not_allowed, type_mismatch, duplicate_value,
  column_twice, count_mismatch, record_arity, record_not_found, not_indexed, path_not_bound,
  undefined,
}
use cw_db.Core.Value.{Value, null, is_null, matches, compare_value}
use cw_db.Sql.Schema.{ColumnDef, TableSchema, column_is_indexed}
use cw_db.Sql.Where.{Row, or_undefined}
use cw_db.Storage.Pager.{remove}

-- What the table uses of `DiskBspIndex`. `open_or_create` is for the file of a column; `entries` are
-- those from `lower_bound` (with `true`) or `upper_bound` of a key, or from `begin`, up to `end`.
pub record IndexOps : Type 1 where
  pub Index : Type 0
  pub open_or_create : ℕ → Result Index
  pub is_open : Index → Bool
  pub lookup : Index → Value → Result (Option ℕ)
  -- an iteration from a place on: the entries it reaches, and whether it ends behind the last or throws
  pub entries : Index → Option (Value × Bool) → List (Value × ℕ) × Result (Unit {0})
  pub add : Value → ℕ → Index → Result (Unit {0}) × Index
  pub drop_key : Value → Index → Result Bool × Index

-- `bound` says that `dat_path_` is not empty.
pub record Table (Index : Type 0) : Type 0 where
  pub name : Bytes
  pub schema : TableSchema
  pub records : List (ℕ × Row)
  pub order : List ℕ
  pub indexes : List (ℕ × Index)
  pub bound : Bool
  pub next_id : ℕ

-- Code that changes a state of type `S` and may throw.
abbrev pub and_then : {S A B : Type 0} → Result A × S → (A → S → Result B × S) → Result B × S
and_then (ok a, s) f = f a s
and_then (throw e, s) f = (throw e, s)

-- A check that changes nothing, and what comes behind it.
abbrev pub after : {S A B : Type 0} → Result A → (A → S → Result B × S) → S → Result B × S
after (ok a) f s = f a s
after (throw e) f s = (throw e, s)

-- `materialize`: the loop over the given columns, on `assigned` and the values.
abbrev pub column_name : TableSchema → ℕ → Bytes
column_name schema i = elim (get_elem? schema i) [ none ↦ [] | some c ↦ c.name ]

unfoldable pub fill_given :
    TableSchema → List ℕ → List Value → List Bool × Row → Result (List Bool × Row)
fill_given schema (pos ∷ ps) (v ∷ vs) (assigned, row) = do
  twice ← or_undefined (get_elem? assigned pos)
  throw_if twice (column_twice (column_name schema pos))
  fill_given schema ps vs (set assigned pos true, set row pos v)
fill_given schema _ _ filled = ok filled

abbrev pub default_or_null : ColumnDef → Value
default_or_null c = if c.has_default then c.default_value else null

-- The loop over the columns that were not given.
unfoldable pub fill_rest : TableSchema → List Bool → Row → Row
fill_rest (c ∷ cs) (a ∷ as_) (v ∷ vs) = (if a then v else default_or_null c) ∷ fill_rest cs as_ vs
fill_rest _ _ row = row

unfoldable pub materialize : TableSchema → List ℕ → List Value → Result Row
unfolding fill_given fill_rest
materialize schema positions values = do
  throw_if (not (length positions == length values)) count_mismatch
  (assigned, row) ←
      fill_given schema positions values
        (replicate (length schema) false, replicate (length schema) null)
  ok (fill_rest schema assigned row)

-- `enforce_constraints`: the first loop, over the columns and the values side by side.
abbrev pub check_cell : ColumnDef → Value → Result (Unit {0})
check_cell c v =
    if is_null v
    then throw_if (c.not_null || c.indexed) (null_not_allowed c.name)
    else throw_if (not (matches v c.type)) (type_mismatch c.name)

unfoldable pub check_cells : TableSchema → Row → Result (Unit {0})
check_cells (c ∷ cs) (v ∷ vs) = check_cell c v >> check_cells cs vs
check_cells _ _ = ok tt

abbrev pub is_other : Option ℕ → Option ℕ → Bool
is_other none existing = false
is_other (some found) none = true
is_other (some found) (some id) = not (found == id)

-- `update`: the assignments, of which one past the end of the row is undefined in C++.
unfoldable pub assign_all : List (ℕ × Value) → Row → Result Row
assign_all [] row = ok row
assign_all ((col, v) ∷ as_) row = do
  old ← or_undefined (get_elem? row col)
  assign_all as_ (set row col v)

-- `if (!valid) break; if (hi_inclusive ? c > 0 : c >= 0) break;`
unfoldable pub is_past : Bool → Ordering × Bool → Bool
is_past inclusive (c, false) = true
is_past inclusive (Ordering.lt, true) = false
is_past inclusive (Ordering.eq, true) = not inclusive
is_past inclusive (Ordering.gt, true) = true

module _ (ops : IndexOps) where
  -- `index_at`
  abbrev pub open_only : Option ops.Index → Option ops.Index
  open_only none = none
  open_only (some idx) = if ops.is_open idx then some idx else none

  unfoldable pub index_at : ℕ → Table ops.Index → Option ops.Index
  index_at col t = if column_is_indexed t.schema col then open_only (find col t.indexes) else none

  abbrev pub lookup_in : Option ops.Index → Value → Result (Option ℕ)
  lookup_in none key = ok none
  lookup_in (some idx) key = ops.lookup idx key

  unfoldable pub index_find : ℕ → Value → Table ops.Index → Result (Option ℕ)
  unfolding index_at
  index_find col key t = lookup_in (index_at col t) key

  -- `index_collect_range`: the loop from the start on, which stops behind the upper bound.
  abbrev pub past_bound : Option (Value × Bool) → Value → Bool
  past_bound none key = false
  past_bound (some (hi, inclusive)) key = is_past inclusive (compare_value key hi)

  -- The loop ends at the first key past the bound; what the iteration does behind it is not seen.
  unfoldable pub collect_until :
      Option (Value × Bool) → List (Value × ℕ) → Result (Unit {0}) → Result (List ℕ)
  collect_until hi [] ends = ends >>= λ _. ok []
  collect_until hi ((key, id) ∷ es) ends =
      let rest = collect_until hi es ends in
      if past_bound hi key then ok [] else (rest >>= λ ids. ok (id ∷ ids))

  abbrev pub collect_in :
      Option ops.Index → Option (Value × Bool) → Option (Value × Bool) → Result (List ℕ)
  collect_in none lo hi = ok []
  collect_in (some idx) lo hi = collect_until hi (ops.entries idx lo).0 (ops.entries idx lo).1

  unfoldable pub index_collect_range :
      ℕ → Option (Value × Bool) → Option (Value × Bool) → Table ops.Index → Result (List ℕ)
  unfolding index_at collect_until
  index_collect_range col lo hi t = collect_in (index_at col t) lo hi

  -- The second loop of `enforce_constraints`, from column `i` on.
  abbrev pub check_key : ℕ → ColumnDef → Value → Option ℕ → Table ops.Index → Result (Unit {0})
  check_key i c v existing t =
      if c.indexed && not (is_null v)
      then (index_find i v t >>= λ found.
          throw_if (is_other found existing) (duplicate_value c.name))
      else ok tt

  unfoldable pub check_keys : ℕ → TableSchema → Row → Option ℕ → Table ops.Index → Result (Unit {0})
  check_keys i (c ∷ cs) (v ∷ vs) existing t =
      check_key i c v existing t >> check_keys (suc i) cs vs existing t
  check_keys i _ _ existing t = ok tt

  unfoldable pub enforce_constraints : Row → Option ℕ → Table ops.Index → Result (Unit {0})
  unfolding check_cells check_keys
  enforce_constraints row existing t = do
    throw_if (not (length row == length t.schema)) record_arity
    check_cells t.schema row
    check_keys 0 t.schema row existing t

  -- `open_indexes`: the loop from column `i` on.
  abbrev pub opened : ℕ → ops.Index → Table ops.Index → Table ops.Index
  opened i idx t = record t { indexes = emplace i idx t.indexes }

  abbrev pub open_column :
      ℕ → ColumnDef → Option ops.Index → Table ops.Index → Result (Unit {0}) × Table ops.Index
  open_column i c (some idx) t = (ok tt, t)
  open_column i c none t =
      if c.indexed
      then after (ops.open_or_create i) (λ idx u. (ok tt, opened i idx u)) t
      else (ok tt, t)

  unfoldable pub open_from : ℕ → TableSchema → Table ops.Index → Result (Unit {0}) × Table ops.Index
  open_from i [] t = (ok tt, t)
  open_from i (c ∷ cs) t =
      and_then (open_column i c (find i t.indexes) t) (λ _. open_from (suc i) cs)

  unfoldable pub open_indexes : Table ops.Index → Result (Unit {0}) × Table ops.Index
  unfolding open_from
  open_indexes t = if t.bound then open_from 0 t.schema t else (ok tt, t)

  unfoldable pub bind_dat_path : Table ops.Index → Result (Unit {0}) × Table ops.Index
  unfolding open_indexes
  bind_dat_path t = open_indexes (record t { bound = true })

  -- `mutable_index(col)` and one change of the index.
  abbrev pub change_at :
      {A : Type 0}
      → ℕ
      → (ops.Index → Result A × ops.Index)
      → Option ops.Index
      → Table ops.Index
      → Result (Unit {0}) × Table ops.Index
  change_at col change none t = (throw undefined, t)
  change_at col change (some idx) t =
      let (r, next) = change idx in
      ((r >>= λ _. ok tt), record t { indexes = assign col next t.indexes })

  unfoldable pub change_index :
      {A : Type 0}
      → ℕ
      → (ops.Index → Result A × ops.Index)
      → Table ops.Index
      → Result (Unit {0}) × Table ops.Index
  unfolding open_indexes
  change_index col change t =
      if not (column_is_indexed t.schema col)
      then (throw not_indexed, t)
      else if not t.bound
      then (throw path_not_bound, t)
      else and_then (open_indexes t) (λ _ u. change_at col change (find col u.indexes) u)

  -- `install_into_indexes` and `remove_from_indexes`: the loops from column `i` on.
  unfoldable pub install_from :
      ℕ → TableSchema → ℕ → Row → Table ops.Index → Result (Unit {0}) × Table ops.Index
  install_from i (c ∷ cs) id (v ∷ vs) t =
      if c.indexed && not (is_null v)
      then and_then (change_index i (ops.add v id) t) (λ _. install_from (suc i) cs id vs)
      else install_from (suc i) cs id vs t
  install_from i _ id _ t = (ok tt, t)

  unfoldable pub remove_from :
      ℕ → TableSchema → Row → Table ops.Index → Result (Unit {0}) × Table ops.Index
  remove_from i (c ∷ cs) (v ∷ vs) t =
      if c.indexed && not (is_null v)
      then and_then (change_index i (ops.drop_key v) t) (λ _. remove_from (suc i) cs vs)
      else remove_from (suc i) cs vs t
  remove_from i _ _ t = (ok tt, t)

  abbrev pub entry_or : Row → Option Row → Row
  entry_or row none = row
  entry_or row (some there) = there

  -- `insert` behind the checks: `id` is `next_id_++`, in 64 bits, and `emplace` keeps a row that is
  -- there.
  abbrev pub added : ℕ → Row → Table ops.Index → Table ops.Index
  added id row t = record t {
    next_id = (id + 1) % 2 ^ 64;
    records = emplace id row t.records;
    order = t.order ++ (id ∷ []);
  }

  abbrev pub insert_checked : ℕ → Row → Table ops.Index → Result ℕ × Table ops.Index
  insert_checked id row t =
      and_then (install_from 0 t.schema id (entry_or row (find id t.records)) (added id row t))
        (λ _ u. (ok id, u))

  unfoldable pub insert : Row → Table ops.Index → Result ℕ × Table ops.Index
  unfolding enforce_constraints install_from
  insert row t = after (enforce_constraints row none t) (λ _ u. insert_checked u.next_id row u) t

  abbrev pub replace_row : ℕ → Row → Row → Table ops.Index → Result (Unit {0}) × Table ops.Index
  replace_row id old updated t = and_then (remove_from 0 t.schema old t) (λ _ u.
      install_from 0 u.schema id updated (record u { records = assign id updated u.records }))

  abbrev pub update_found :
      Option Row → ℕ → List (ℕ × Value) → Table ops.Index → Result (Unit {0}) × Table ops.Index
  update_found none id as_ t = (throw record_not_found, t)
  update_found (some old) id as_ t =
      after (assign_all as_ old)
        (λ updated.
          after (enforce_constraints updated (some id) t) (λ _. replace_row id old updated))
        t

  unfoldable pub update :
      ℕ → List (ℕ × Value) → Table ops.Index → Result (Unit {0}) × Table ops.Index
  unfolding assign_all
  update id as_ t = update_found (find id t.records) id as_ t

  abbrev pub erase_found : Option Row → ℕ → Table ops.Index → Result (Unit {0}) × Table ops.Index
  erase_found none id t = (ok tt, t)
  erase_found (some row) id t =
      and_then (remove_from 0 t.schema row t)
        (λ _ u. (ok tt, record u { records = erase id u.records; order = remove id u.order }))

  unfoldable pub erase_row : ℕ → Table ops.Index → Result (Unit {0}) × Table ops.Index
  unfolding remove_from
  erase_row id t = erase_found (find id t.records) id t
