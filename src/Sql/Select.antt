-- ===== src/Sql/Select.antt =====
-- The rows that a statement is about: `select_candidates` and the loops over rows in `exec_insert`,
-- `exec_update`, `exec_delete` and `exec_select` of src/sql/executor.cpp.
pub mod Matches
pub mod Keeps
pub mod Range
pub mod Complete
pub mod Effects
use cw_db.Prelude.{
  ℕ, zero, suc, ◌+◌, Bool, true, false, not, List, [], ◌∷◌, Option, none, some, ◌==◌, if◌then◌else◌,
  length, map,
}
use cw_db.Prelude.Bytes.{Bytes}
use cw_db.Prelude.Map.{find, nat_eq}
use cw_db.Prelude.Error.{Result, ok, throw, ◌>>=◌, ◌>>◌, throw_if, count_mismatch, undefined}
use cw_db.Core.Value.{Value}
use cw_db.Sql.Ast.{Expr}
use cw_db.Sql.Schema.{TableSchema, require_column, column_is_indexed}
use cw_db.Sql.Where.{RegexMatch, Row, eval_where, eval_atom, accepts, or_undefined}
use cw_db.Sql.Hint.{IndexHint, derive_index_hint}
use cw_db.Storage.Table.{
  IndexOps, Table, and_then, after, index_find, index_collect_range, materialize, insert, update,
  erase_row,
}

module _ (ops : IndexOps) where
  abbrev pub found_ids : Option ℕ → List ℕ
  found_ids none = []
  found_ids (some id) = id ∷ []

  abbrev pub bound : Bool → Value → Bool → Option (Value × Bool)
  bound has v inclusive = if has then some (v, inclusive) else none

  abbrev pub from_hint : IndexHint → Table ops.Index → Result (List ℕ)
  from_hint hint t =
      if hint.eq
      then (index_find ops hint.column_idx hint.eq_value t >>= λ id. ok (found_ids id))
      else index_collect_range ops hint.column_idx (bound hint.has_lo hint.lo hint.lo_inclusive)
          (bound hint.has_hi hint.hi hint.hi_inclusive) t

  unfoldable pub select_candidates : Option Expr → Table ops.Index → Result (List ℕ)
  select_candidates where_ t =
      let hint = derive_index_hint where_ t.schema in
      if not hint.has
      then ok t.order
      else if not (column_is_indexed t.schema hint.column_idx)
      then ok t.order
      else from_hint hint t

  -- The loop that keeps the candidates of which the clause is true.
  abbrev pub keeps : RegexMatch → TableSchema → Option Expr → Row → Result Bool
  keeps regex_match schema none row = ok true
  keeps regex_match schema (some e) row =
      eval_where regex_match schema row e >>= λ t. ok (accepts t)

  unfoldable pub filter_rows : RegexMatch → Option Expr → Table ops.Index → List ℕ → Result (List ℕ)
  filter_rows regex_match where_ t [] = ok []
  filter_rows regex_match where_ t (id ∷ ids) = do
    row ← or_undefined (find id t.records)
    keep ← keeps regex_match t.schema where_ row
    rest ← filter_rows regex_match where_ t ids
    ok (if keep then id ∷ rest else rest)

  unfoldable pub matched : RegexMatch → Option Expr → Table ops.Index → Result (List ℕ)
  unfolding select_candidates filter_rows
  matched regex_match where_ t = select_candidates where_ t >>= filter_rows regex_match where_ t

  -- `for (RecordId id : matched) tbl.erase(id);`
  unfoldable pub erase_all : List ℕ → Table ops.Index → Result (Unit {0}) × Table ops.Index
  erase_all [] t = (ok tt, t)
  erase_all (id ∷ ids) t = and_then (erase_row ops id t) (λ _. erase_all ids)

  -- `exec_delete` on its table: the number of rows.
  unfoldable pub delete_rows :
      RegexMatch → Option Expr → Table ops.Index → Result ℕ × Table ops.Index
  unfolding matched erase_all
  delete_rows regex_match where_ t =
      after (matched regex_match where_ t)
        (λ ids u. and_then (erase_all ids u) (λ _ w. (ok (length ids), w))) t

  -- The columns and the values of the assignments of `exec_update`.
  unfoldable pub resolve : TableSchema → List (Bytes × Expr) → Result (List (ℕ × Expr))
  resolve schema [] = ok []
  resolve schema ((name, e) ∷ as_) = do
    idx ← require_column schema name
    rest ← resolve schema as_
    ok ((idx, e) ∷ rest)

  unfoldable pub evaluate : TableSchema → Row → List (ℕ × Expr) → Result (List (ℕ × Value))
  evaluate schema row [] = ok []
  evaluate schema row ((idx, e) ∷ as_) = do
    v ← eval_atom schema row e
    rest ← evaluate schema row as_
    ok ((idx, v) ∷ rest)

  unfoldable pub update_all :
      List (ℕ × Expr) → List ℕ → Table ops.Index → Result (Unit {0}) × Table ops.Index
  unfolding evaluate
  update_all as_ [] t = (ok tt, t)
  update_all as_ (id ∷ ids) t =
      after (or_undefined (find id t.records) >>= λ row. evaluate t.schema row as_)
        (λ values u. and_then (update ops id values u) (λ _. update_all as_ ids)) t

  unfoldable pub update_rows :
      RegexMatch → List (Bytes × Expr) → Option Expr → Table ops.Index → Result ℕ × Table ops.Index
  unfolding resolve matched update_all
  update_rows regex_match assignments where_ t =
      after (resolve t.schema assignments)
        (λ as_.
          after (matched regex_match where_ t)
            (λ ids u. and_then (update_all as_ ids u) (λ _ w. (ok (length ids), w))))
        t

  -- `exec_insert` on its table: the positions, and the loop over the rows.
  unfoldable pub resolve_names : TableSchema → List Bytes → Result (List ℕ)
  resolve_names schema [] = ok []
  resolve_names schema (name ∷ names) = do
    idx ← require_column schema name
    rest ← resolve_names schema names
    ok (idx ∷ rest)

  unfoldable pub count_from : ℕ → TableSchema → List ℕ
  count_from i [] = []
  count_from i (c ∷ cs) = i ∷ count_from (suc i) cs

  abbrev pub positions_of : TableSchema → List Bytes → Result (List ℕ)
  positions_of schema [] = ok (count_from 0 schema)
  positions_of schema (name ∷ names) = resolve_names schema (name ∷ names)

  unfoldable pub insert_all :
      List ℕ → List (List Value) → Table ops.Index → Result (Unit {0}) × Table ops.Index
  insert_all positions [] t = (ok tt, t)
  insert_all positions (values ∷ rows) t =
      after
        (throw_if (not (length values == length positions)) count_mismatch
          >> materialize t.schema positions values)
        (λ row u. and_then (insert ops row u) (λ _. insert_all positions rows)) t

  unfoldable pub insert_rows :
      List Bytes → List (List Value) → Table ops.Index → Result ℕ × Table ops.Index
  unfolding resolve_names count_from insert_all
  insert_rows names rows t =
      after (positions_of t.schema names)
        (λ positions u. and_then (insert_all positions rows u) (λ _ w. (ok (length rows), w))) t
