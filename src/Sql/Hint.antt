-- ===== src/Sql/Hint.antt =====
-- The choice of an index: `derive_index_hint` of src/sql/executor.cpp.
pub mod Sound
pub mod Keeps
use cw_db.Prelude.{
  ℕ, Bool, true, false, ◌&&◌, ◌||◌, List, [], ◌∷◌, ◌++◌, Option, none, some, if◌then◌else◌,
}
use cw_db.Prelude.Bytes.{Bytes, eq_bytes}
use cw_db.Core.Value.{Value, null, matches}
use cw_db.Sql.Ast.{CompareOp, LogicalOp, Expr, column_ref, literal, compare, between, like, logical}
use cw_db.Sql.Schema.{ColumnDef, TableSchema, index_of, column_is_indexed}

pub record IndexHint : Type 0 where
  pub has : Bool
  pub column_idx : ℕ
  pub eq : Bool
  pub eq_value : Value
  pub has_lo : Bool
  pub lo : Value
  pub lo_inclusive : Bool
  pub has_hi : Bool
  pub hi : Value
  pub hi_inclusive : Bool

-- The initial values; the column -1 of a hint that is not there is 0 here, and nothing reads it.
abbrev pub empty_hint : IndexHint
empty_hint = record {
  has = false;
  column_idx = 0;
  eq = false;
  eq_value = null;
  has_lo = false;
  lo = null;
  lo_inclusive = false;
  has_hi = false;
  hi = null;
  hi_inclusive = false;
}

unfoldable pub is_column_named : Expr → Bytes → Bool
is_column_named (column_ref name) col = eq_bytes name col
is_column_named _ col = false

unfoldable pub as_literal : Expr → Option Value
as_literal (literal v) = some v
as_literal _ = none

-- `walk`: the clauses that the chain of ANDs at the top joins.
unfoldable pub clauses_of : Expr → List Expr
clauses_of (logical LogicalOp.and lhs rhs) = clauses_of lhs ++ clauses_of rhs
clauses_of (logical LogicalOp.or lhs rhs) = logical LogicalOp.or lhs rhs ∷ []
clauses_of (column_ref name) = column_ref name ∷ []
clauses_of (literal v) = literal v ∷ []
clauses_of (compare op lhs rhs) = compare op lhs rhs ∷ []
clauses_of (between v lo hi) = between v lo hi ∷ []
clauses_of (like v p) = like v p ∷ []

-- The operator for the operands swapped.
unfoldable pub swap_op : CompareOp → CompareOp
swap_op CompareOp.lt = CompareOp.gt
swap_op CompareOp.gt = CompareOp.lt
swap_op CompareOp.lt_eq = CompareOp.gt_eq
swap_op CompareOp.gt_eq = CompareOp.lt_eq
swap_op CompareOp.eq = CompareOp.eq
swap_op CompareOp.not_eq = CompareOp.not_eq

-- `col op lit`, or `lit op col` with the operator swapped: the operator and the literal.
abbrev pub with_op : CompareOp → Option Value → Option (CompareOp × Value)
with_op op none = none
with_op op (some v) = some (op, v)

abbrev pub or_else {ℓ} : {A : Type ℓ} → Option A → Option A → Option A
or_else none b = b
or_else (some a) b = some a

unfoldable pub sides : Bytes → CompareOp → Expr → Expr → Option (CompareOp × Value)
unfolding is_column_named as_literal swap_op
sides col op lhs rhs =
    or_else (if is_column_named lhs col then with_op op (as_literal rhs) else none)
      (if is_column_named rhs col then with_op (swap_op op) (as_literal lhs) else none)

-- The `switch` on the operator.
unfoldable pub narrow : CompareOp → Value → IndexHint → IndexHint
narrow CompareOp.eq v cand = record cand { eq = true; eq_value = v }
narrow CompareOp.lt v cand = record cand { has_hi = true; hi = v; hi_inclusive = false }
narrow CompareOp.lt_eq v cand = record cand { has_hi = true; hi = v; hi_inclusive = true }
narrow CompareOp.gt v cand = record cand { has_lo = true; lo = v; lo_inclusive = false }
narrow CompareOp.gt_eq v cand = record cand { has_lo = true; lo = v; lo_inclusive = true }
narrow CompareOp.not_eq v cand = cand

abbrev pub narrow_compare : ColumnDef → Option (CompareOp × Value) → IndexHint → IndexHint
narrow_compare col none cand = cand
narrow_compare col (some (op, v)) cand = if matches v col.type then narrow op v cand else cand

abbrev pub narrow_between : Option Value → Option Value → IndexHint → IndexHint
narrow_between (some lo) (some hi) cand = record cand {
  has_lo = true;
  lo = lo;
  lo_inclusive = true;
  has_hi = true;
  hi = hi;
  hi_inclusive = true;
}
narrow_between _ _ cand = cand

-- One round of the loop over the clauses.
unfoldable pub add_clause : ColumnDef → IndexHint → Expr → IndexHint
unfolding sides narrow
add_clause col cand (compare op lhs rhs) = narrow_compare col (sides col.name op lhs rhs) cand
add_clause col cand (between v lo hi) =
    if is_column_named v col.name then narrow_between (as_literal lo) (as_literal hi) cand else cand
add_clause col cand _ = cand

unfoldable pub add_clauses : ColumnDef → IndexHint → List Expr → IndexHint
add_clauses col cand [] = cand
add_clauses col cand (c ∷ cs) = add_clauses col (add_clause col cand c) cs

-- The loop over the columns, on those that are left; `schema` is the whole schema.
abbrev pub usable : IndexHint → Bool
usable cand = cand.eq || (cand.has_lo || cand.has_hi)

abbrev pub candidate : TableSchema → List Expr → ColumnDef → Option ℕ → Option IndexHint
candidate schema clauses col none = none
candidate schema clauses col (some col_idx) =
    if column_is_indexed schema col_idx
    then (let cand = add_clauses col (record empty_hint { column_idx = col_idx }) clauses in
        if usable cand then some (record cand { has = true }) else none)
    else none

-- The first usable hint wins.
abbrev pub or_first : Option IndexHint → IndexHint → IndexHint
or_first (some h) rest = h
or_first none rest = rest

unfoldable pub first_hint : TableSchema → List Expr → List ColumnDef → IndexHint
first_hint schema clauses [] = empty_hint
first_hint schema clauses (col ∷ cols) =
    or_first (candidate schema clauses col (index_of schema col.name))
      (first_hint schema clauses cols)

-- `where` may be null.
unfoldable pub derive_index_hint : Option Expr → TableSchema → IndexHint
derive_index_hint none schema = empty_hint
derive_index_hint (some where_) schema = first_hint schema (clauses_of where_) schema
