-- ===== src/Sql/Select/Range.antt =====
-- What an index range holds: `index_collect_range` of src/storage/table.cpp and the bounds of a hint.
use cw_db.Prelude.{
  ℕ, zero, suc, ◌≡◌, refl, Bool, true, false, List, [], ◌∷◌, Option, none, some, inl, inr,
  get_elem?, length, Ordering, arith, ap, ◌∙◌, Bool-cases,
}
use cw_db.Prelude.Map.{nat_eq}
use cw_db.Prelude.Error.{ok, Result-cases}
use cw_db.Core.Value.{Value, DataType, null, int, str, matches, compare_value}
use cw_db.Core.Value.Order.{eq_value_iff, compare_value-chain}
use cw_db.Sql.Schema.{ColumnDef, TableSchema}
use cw_db.Sql.Where.{Row}
use cw_db.Storage.Pager.Ids.{mem}
use cw_db.Storage.Table.{IndexOps, check_cells, is_past, past_bound, collect_until}
use cw_db.Storage.Table.Laws.{IsKey, IsLeast, Ascends, has_entry}
use cw_db.Storage.Table.Follow.{check_cells-IsKey}

-- The cell of an indexed column of a row that passed the checks is a key.
pub cell-IsKey :
    (cs : TableSchema) (vs : Row) (i : ℕ) (c : ColumnDef) (v : Value)
    → check_cells cs vs ≡ ok tt
    → get_elem? cs i ≡ some c
    → c.indexed ≡ true
    → get_elem? vs i ≡ some v
    → IsKey c.type v
cell-IsKey [] vs i c v checks here on cell = absurd (ground arith)
cell-IsKey (d ∷ cs) [] i c v checks here on cell = absurd (ground arith)
cell-IsKey (d ∷ cs) (w ∷ vs) zero c v checks here on cell =
    let same_column : d ≡ c = ground arith in
    let same_value : w ≡ v = ground arith in
    rw (← same_column, ← same_value) ((check_cells-IsKey d cs w vs checks).0 (rw same_column on))
cell-IsKey (d ∷ cs) (w ∷ vs) (suc i) c v checks here on cell =
    cell-IsKey cs vs i c v (check_cells-IsKey d cs w vs checks).1 here on cell

-- A row that is as long as the schema has a cell for each column.
pub cell_there :
    (cs : TableSchema) (vs : Row) (i : ℕ) (c : ColumnDef)
    → length vs ≡ length cs
    → get_elem? cs i ≡ some c
    → (v : Value) × (get_elem? vs i ≡ some v)
cell_there [] vs i c lens here = absurd (ground arith)
cell_there (d ∷ cs) [] i c lens here = absurd (omega (arith, lens))
cell_there (d ∷ cs) (w ∷ vs) zero c lens here = (w, refl)
cell_there (d ∷ cs) (w ∷ vs) (suc i) c lens here = cell_there cs vs i c (omega arith) here

-- A value that compares with a key is a key.
pub compared-IsKey :
    (ty : DataType) (v w : Value) → IsKey ty v → (compare_value v w).1 ≡ true → IsKey ty w
unfolding compare_value matches
compared-IsKey ty (int a) (int b) key valid = (refl, ground (arith, key.1))
compared-IsKey ty (str a) (str b) key valid = (refl, ground (arith, key.1))
compared-IsKey ty (int a) (str b) key valid = ground arith
compared-IsKey ty (str a) (int b) key valid = ground arith
compared-IsKey ty null w key valid = ground arith
compared-IsKey ty v null key valid = ground arith

-- Values that compare, compare with the same values.
pub compared_valid :
    (k v w : Value)
    → compare_value k v ≡ (Ordering.lt, true)
    → (compare_value v w).1 ≡ (compare_value k w).1
unfolding compare_value
compared_valid (int a) (int b) (int c) h = refl
compared_valid (int a) (int b) (str c) h = refl
compared_valid (str a) (str b) (int c) h = refl
compared_valid (str a) (str b) (str c) h = refl
compared_valid (int a) (int b) null h = refl
compared_valid (str a) (str b) null h = refl
compared_valid (int a) (str b) w h = ground arith
compared_valid (str a) (int b) w h = ground arith
compared_valid null v w h = ground arith
compared_valid k null w h = ground arith

is_past-invalid :
    (inclusive : Bool) (c : Ordering × Bool) → c.1 ≡ false → is_past inclusive c ≡ true
unfolding is_past
is_past-invalid inclusive (o, false) h = refl
is_past-invalid inclusive (o, true) h = ground arith

module _ (ops : IndexOps) where
  -- What follows a key past the bound is past the bound.
  past_bound-chain :
      (hi : Option (Value × Bool)) (k v : Value)
      → compare_value k v ≡ (Ordering.lt, true)
      → past_bound ops hi k ≡ true
      → past_bound ops hi v ≡ true
  unfolding is_past
  past_bound-chain none k v less past = ground arith
  past_bound-chain (some (hi, inclusive)) k v less past = elim (Bool-cases (compare_value k hi).1) [
    | inl valid ↦
        let behind : compare_value v hi ≡ (Ordering.gt, true) =
          compare_value-chain k v hi less (λ e. ground (arith, past, e)) valid in
        ap (is_past inclusive) behind
    | inr invalid ↦
        is_past-invalid inclusive (compare_value v hi) (compared_valid k v hi less ∙ invalid)
  ]

  pub least_lt :
      (k v : Value) (id : ℕ) (es : List (Value × ℕ))
      → IsLeast k es
      → has_entry v id es ≡ true
      → compare_value k v ≡ (Ordering.lt, true)
  least_lt k v id [] least h = ground arith
  least_lt k v id ((w, i) ∷ es) least h =
      ground (arith, eq_value_iff w v, least.0, least_lt k v id es least.1)

  -- In entries that ascend, the loop loses none that is not past the bound.
  pub collect_until-mem :
      (hi : Option (Value × Bool)) (v : Value) (id : ℕ) (es : List (Value × ℕ)) (ids : List ℕ)
      → Ascends es
      → has_entry v id es ≡ true
      → past_bound ops hi v ≡ false
      → collect_until ops hi es (ok tt) ≡ ok ids
      → mem id ids ≡ true
  unfolding collect_until mem
  collect_until-mem hi v id [] ids up h inside done = ground arith
  collect_until-mem hi v id ((w, i) ∷ es) ids up h inside done =
      elim (Result-cases (collect_until ops hi es (ok tt))) [
        | inr (e, failed) ↦ ground (
          arith,
          done,
          failed,
          least_lt w v id es up.0,
          past_bound-chain hi w v,
          eq_value_iff w v,
        )
        | inl (rest, collected) ↦ ground (
          arith,
          done,
          collected,
          collect_until-mem hi v id es rest up.1,
          least_lt w v id es up.0,
          past_bound-chain hi w v,
          eq_value_iff w v,
        )
      ]
