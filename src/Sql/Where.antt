-- ===== src/Sql/Where.antt =====
-- The evaluation of WHERE: `eval_atom`, `TriBool` and `eval_where` of src/sql/executor.cpp.
-- The regular expressions of the standard library are a parameter of the model.
pub mod Logic
use cw_db.Prelude.{
  ℕ, Bool, true, false, not, ◌&&◌, ◌||◌, List, Option, none, some, get_elem?, if◌then◌else◌,
  Ordering,
}
use cw_db.Prelude.Bytes.{Bytes}
use cw_db.Prelude.Error.{
  Result, ok, throw, ◌>>=◌, undefined, invalid_atom, like_operands, bad_regex, standalone_literal,
  standalone_column,
}
use cw_db.Core.Value.{Value, null, int, str, compare_value}
use cw_db.Sql.Ast.{CompareOp, LogicalOp, Expr, column_ref, literal, compare, between, like, logical}
use cw_db.Sql.Schema.{TableSchema, require_column}

-- The values of a row, one for each column of the schema.
abbrev pub Row : Type 0
Row = List Value

unfoldable pub to_bool_three_valued : Ordering → CompareOp → Bool
to_bool_three_valued Ordering.eq CompareOp.eq = true
to_bool_three_valued _ CompareOp.eq = false
to_bool_three_valued Ordering.eq CompareOp.not_eq = false
to_bool_three_valued _ CompareOp.not_eq = true
to_bool_three_valued Ordering.lt CompareOp.lt = true
to_bool_three_valued _ CompareOp.lt = false
to_bool_three_valued Ordering.gt CompareOp.gt = true
to_bool_three_valued _ CompareOp.gt = false
to_bool_three_valued Ordering.gt CompareOp.lt_eq = false
to_bool_three_valued _ CompareOp.lt_eq = true
to_bool_three_valued Ordering.lt CompareOp.gt_eq = false
to_bool_three_valued _ CompareOp.gt_eq = true

abbrev pub or_undefined {ℓ} : {A : Type ℓ} → Option A → Result A
or_undefined none = throw undefined
or_undefined (some a) = ok a

unfoldable pub eval_atom : TableSchema → Row → Expr → Result Value
unfolding require_column
eval_atom schema row (literal v) = ok v
eval_atom schema row (column_ref name) = do
  idx ← require_column schema name
  or_undefined (get_elem? row idx)
eval_atom schema row _ = throw invalid_atom

pub record TriBool : Type 0 where
  pub value : Bool
  pub unknown : Bool

abbrev pub tri : Bool → Bool → TriBool
tri v u = record { value = v; unknown = u }

unfoldable pub tri_or : TriBool → TriBool → TriBool
tri_or a b =
    if a.value || b.value
    then tri true false
    else if a.unknown || b.unknown
    then tri false true
    else tri false false

unfoldable pub tri_and : TriBool → TriBool → TriBool
tri_and a b =
    if a.unknown && not b.value
    then tri false (not b.value)
    else if b.unknown && not a.value
    then tri false true
    else if not a.value || not b.value
    then (if a.value && b.unknown
        then tri false true
        else if b.value && a.unknown
        then tri false true
        else tri false false)
    else tri true false

-- `if (!valid) return {false, true};`
abbrev pub compared : Ordering × Bool → CompareOp → TriBool
compared (r, true) op = tri (to_bool_three_valued r op) false
compared (r, false) op = tri false true

-- `c1 >= 0 && c2 <= 0`
unfoldable pub in_between : Ordering × Bool → Ordering × Bool → TriBool
in_between (c1, true) (c2, true) =
    tri (to_bool_three_valued c1 CompareOp.gt_eq && to_bool_three_valued c2 CompareOp.lt_eq) false
in_between _ _ = tri false true

-- `std::regex_match`: the pattern, the text, and `none` where the pattern is a `regex_error`.
abbrev pub RegexMatch : Type 0
RegexMatch = Bytes → Bytes → Option Bool

abbrev pub or_bad_regex : Option Bool → Result TriBool
or_bad_regex none = throw bad_regex
or_bad_regex (some b) = ok (tri b false)

unfoldable pub eval_like : RegexMatch → Value → Value → Result TriBool
eval_like regex_match null _ = ok (tri false true)
eval_like regex_match _ null = ok (tri false true)
eval_like regex_match (str s) (str pattern_text) = or_bad_regex (regex_match pattern_text s)
eval_like regex_match _ _ = throw like_operands

abbrev pub combine : LogicalOp → TriBool → TriBool → TriBool
combine LogicalOp.and a b = tri_and a b
combine LogicalOp.or a b = tri_or a b

module _ (regex_match : RegexMatch) (schema : TableSchema) (row : Row) where
  unfoldable pub eval_where : Expr → Result TriBool
  unfolding eval_like in_between
  eval_where (compare op lhs rhs) = do
    l ← eval_atom schema row lhs
    r ← eval_atom schema row rhs
    ok (compared (compare_value l r) op)
  eval_where (between value lo hi) = do
    v ← eval_atom schema row value
    l ← eval_atom schema row lo
    h ← eval_atom schema row hi
    ok (in_between (compare_value v l) (compare_value v h))
  eval_where (like value pattern_expr) = do
    v ← eval_atom schema row value
    p ← eval_atom schema row pattern_expr
    eval_like regex_match v p
  eval_where (logical op lhs rhs) = do a ← eval_where lhs; b ← eval_where rhs; ok (combine op a b)
  eval_where (literal v) = throw standalone_literal
  eval_where (column_ref name) = throw standalone_column

-- `t.value && !t.unknown`, the test by which the statements keep a row.
abbrev pub accepts : TriBool → Bool
accepts t = t.value && not t.unknown
