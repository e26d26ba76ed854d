-- ===== src/Sql/Select/Complete.antt =====
-- The use of an index changes no result: `select_candidates` of src/sql/executor.cpp over a table
-- whose indexes agree with its rows.
use cw_db.Prelude.{
  ℕ, ◌≡◌, refl, Bool, true, false, not, List, Option, none, some, inl, inr, ◌↔◌, get_elem?, arith,
  ap, sym, ◌||◌, Ordering, ◌∙◌, Bool-cases, Option-cases, ==_iff,
}
use cw_db.Prelude.Map.{find, nat_eq}
use cw_db.Prelude.Error.{ok, Result-cases}
use cw_db.Core.Value.{Value, DataType, compare_value}
use cw_db.Core.Value.Order.{compare_value-eq}
use cw_db.Sql.Ast.{Expr}
use cw_db.Sql.Schema.{ColumnDef, column_is_indexed}
use cw_db.Sql.Where.{RegexMatch, Row, eval_where}
use cw_db.Sql.Hint.{IndexHint, derive_index_hint}
use cw_db.Sql.Hint.Sound.{above, below, equal, meets}
use cw_db.Sql.Hint.Keeps.{derive_index_hint-meets}
use cw_db.Storage.Pager.Ids.{mem}
use cw_db.Storage.Table.{
  IndexOps, Table, past_bound, collect_until, index_find, index_at, index_collect_range, is_past,
}
use cw_db.Storage.Table.Rows.{IsValid}
use cw_db.Storage.Table.Laws.{IndexLaws, IsKey, is_from, IsStart}
use cw_db.Storage.Table.Tracks.{Follows}
use cw_db.Storage.Table.Agrees.{Agrees, cell_in, column_of, index_find-view}
use cw_db.Sql.Select.{bound, from_hint, select_candidates, matched}
use cw_db.Sql.Select.Matches.{IsKept, filter_rows-IsKept}
use cw_db.Sql.Select.Range.{cell-IsKey, cell_there, compared-IsKey, collect_until-mem}

equal-eq : (c : Ordering × Bool) → equal c ≡ true → c ≡ (Ordering.eq, true)
equal-eq c h = ground arith

module _ (ops : IndexOps) (laws : IndexLaws ops) where
  index_at-open :
      (t : Table ops.Index) (col : ℕ) (c : ColumnDef) (idx : ops.Index)
      → get_elem? t.schema col ≡ some c
      → c.indexed ≡ true
      → find col t.indexes ≡ some idx
      → laws.IsSound c.type idx
      → index_at ops col t ≡ some idx
  unfolding index_at column_is_indexed
  index_at-open t col c idx here on found sound =
      ground (arith, here, on, found, laws.sound_open c.type idx sound)

  -- The lower bound of a hint that the value meets is a key to start from, and the value is not before it.
  IsStart-bound :
      (ty : DataType) (has inclusive : Bool) (lo v : Value)
      → IsKey ty v
      → (not has || above (compare_value v lo) inclusive) ≡ true
      → IsStart ty (bound ops has lo inclusive) × (is_from (bound ops has lo inclusive) v ≡ true)
  IsStart-bound ty false inclusive lo v key h = (tt, refl)
  IsStart-bound ty true inclusive lo v key h =
      (compared-IsKey ty v lo key (ground arith), ground arith)

  not_past :
      (has inclusive : Bool) (hi v : Value)
      → (not has || below (compare_value v hi) inclusive) ≡ true
      → past_bound ops (bound ops has hi inclusive) v ≡ false
  unfolding is_past
  not_past false inclusive hi v h = refl
  not_past true inclusive hi v h = ground arith

  -- An id whose value meets the hint is among the ids that the index gives for it.
  from_hint-mem :
      (hint : IndexHint) (t : Table ops.Index) (c : ColumnDef) (idx : ops.Index) (v : Value)
      (id : ℕ) (ids : List ℕ)
      → get_elem? t.schema hint.column_idx ≡ some c
      → c.indexed ≡ true
      → find hint.column_idx t.indexes ≡ some idx
      → Follows ops laws c.type (column_of t.records hint.column_idx) idx
      → IsKey c.type v
      → column_of t.records hint.column_idx id ≡ some v
      → meets v hint ≡ true
      → from_hint ops hint t ≡ ok ids
      → mem id ids ≡ true
  unfolding meets mem index_collect_range
  from_hint-mem hint t c idx v id ids here on found follows key cell m h =
      let in_view : laws.view idx v ≡ some id = (follows.agrees v key id).1 cell in
      elim (Bool-cases hint.eq) [
        | inl is_eq ↦
            let same : v ≡ hint.eq_value =
              compare_value-eq v hint.eq_value
                (equal-eq (compare_value v hint.eq_value) (ground arith)) in
            let seen : index_find ops hint.column_idx hint.eq_value t ≡ ok (some id) =
              ap (λ w. index_find ops hint.column_idx w t) (sym same)
              ∙ index_find-view ops laws (column_of t.records) t hint.column_idx c idx v here on
                  found follows key
              ∙ ap ok in_view in
            ground (arith, h, seen, is_eq, ==_iff id id)
        | inr is_range ↦
            let lo = bound ops hint.has_lo hint.lo hint.lo_inclusive in
            let hi = bound ops hint.has_hi hint.hi hint.hi_inclusive in
            let (start, behind) =
              IsStart-bound c.type hint.has_lo hint.lo_inclusive hint.lo v key (ground arith) in
            let inside = not_past hint.has_hi hint.hi_inclusive hint.hi v (ground arith) in
            let opened = index_at-open t hint.column_idx c idx here on found follows.sound in
            let range = laws.entries_range c.type idx lo follows.sound start in
            let there = (range.holds v id key).1 (in_view, behind) in
            let collected : collect_until ops hi (ops.entries idx lo).0 (ok tt) ≡ ok ids =
              ap (collect_until ops hi (ops.entries idx lo).0) (sym range.ends)
              ∙ ground (arith, h, is_range, opened) in
            collect_until-mem ops hi v id (ops.entries idx lo).0 ids range.ascends there inside
              collected
      ]

  indexed_column :
      (t : Table ops.Index) (col : ℕ)
      → column_is_indexed t.schema col ≡ true
      → (c : ColumnDef) × (get_elem? t.schema col ≡ some c) × (c.indexed ≡ true)
  unfolding column_is_indexed
  indexed_column t col on = elim (Option-cases (get_elem? t.schema col)) [
    | inl missing ↦ absurd (ground (arith, missing))
    | inr (c, here) ↦ (c, here, ground (arith, here))
  ]

  order-mem :
      (t : Table ops.Index) (id : ℕ) (row : Row)
      → IsValid t
      → find id t.records ≡ some row
      → mem id t.order ≡ true
  order-mem t id row v here = ground (arith, v.listed id)

  module _ (regex_match : RegexMatch) where
    -- A row that the clause keeps is among the candidates.
    select_candidates-mem :
        (where_ : Option Expr) (t : Table ops.Index) (ids : List ℕ) (id : ℕ)
        → IsValid t
        → Agrees ops laws t
        → select_candidates ops where_ t ≡ ok ids
        → IsKept ops regex_match where_ t id
        → mem id ids ≡ true
    unfolding select_candidates derive_index_hint column_of
    select_candidates-mem none t ids id v agrees h (row, here, kept) =
        ground (arith, h, order-mem t id row v here)
    select_candidates-mem (some e) t ids id v agrees h (row, here, kept) =
        let hint = derive_index_hint (some e) t.schema in
        elim (Bool-cases hint.has) [
          | inr none_there ↦ ground (arith, h, none_there, order-mem t id row v here)
          | inl has ↦ elim (Bool-cases (column_is_indexed t.schema hint.column_idx)) [
            | inr off ↦ ground (arith, h, has, off, order-mem t id row v here)
            | inl on ↦
                let (c, at_col, c_on) = indexed_column t hint.column_idx on in
                let (idx, found, follows) = agrees.follows hint.column_idx c at_col c_on in
                let fits = v.rows id row here in
                let (w, cell) = cell_there t.schema row hint.column_idx c fits.0 at_col in
                let key = cell-IsKey t.schema row hint.column_idx c w fits.1 at_col c_on cell in
                elim (Result-cases (eval_where regex_match t.schema row e)) [
                  | inr (err, failed) ↦ absurd (ground (arith, kept, failed))
                  | inl (b, ev) ↦
                      let (_, m) =
                        derive_index_hint-meets regex_match t.schema row e b w ev
                          (ground (arith, kept, ev)) has cell in
                      from_hint-mem hint t c idx w id ids at_col c_on found follows key
                        (ap (λ r. cell_in r hint.column_idx) here ∙ cell) m
                        (ground (arith, h, has, on))
                ]
          ]
        ]

    -- With index operations that keep their laws, in a valid table whose indexes agree with its rows: if
    -- the rows of a statement are found without an error, by whatever index or by a scan, they are those rows of the table that the clause keeps.
    pub matched-IsKept :
        (where_ : Option Expr) (t : Table ops.Index) (out : List ℕ) (id : ℕ)
        → IsValid t
        → Agrees ops laws t
        → matched ops regex_match where_ t ≡ ok out
        → (mem id out ≡ true) ↔ IsKept ops regex_match where_ t id
    unfolding matched
    matched-IsKept where_ t out id v agrees h =
        elim (Result-cases (select_candidates ops where_ t)) [
          | inr (e, failed) ↦ absurd (ground (arith, h, failed))
          | inl (ids, selected) ↦
              let kept =
                filter_rows-IsKept ops regex_match where_ t ids out id
                  (ground (arith, h, selected)) in
              (
                λ m. (kept.0 m).1,
                λ k. kept.1 (select_candidates-mem where_ t ids id v agrees selected k, k),
              )
        ]
