-- ===== src/Tests/Queries.antt =====
-- WHERE clauses and hints at concrete inputs: sql/executor.cpp.
use cw_db.Prelude.{◌≡◌, refl, true, false, [], ◌∷◌, some, if◌then◌else◌}
use cw_db.Prelude.Int.{pos}
use cw_db.Prelude.Bytes.{codes, compare_bytes}
use cw_db.Prelude.Error.{ok}
use cw_db.Core.Value.{DataType, null, int, str, compare_value, matches}
use cw_db.Sql.Ast.{CompareOp, LogicalOp, Expr, column_ref, literal, compare, like, logical}
use cw_db.Sql.Schema.{ColumnDef, TableSchema, column_is_indexed, index_of}
use cw_db.Sql.Where.{
  RegexMatch, Row, eval_where, eval_atom, tri, tri_and, tri_or, to_bool_three_valued,
}
use cw_db.Sql.Where.Logic.{
  is_unknown, is_false, is_mixed, kleene_and, kleene_or, stored, tri-kleene, Agree, truth_where,
  eval_where-Agree,
}
use cw_db.Sql.Hint.{derive_index_hint, IndexHint, first_hint, clauses_of, add_clauses, add_clause}
use cw_db.Sql.Hint.Sound.{meets}
use cw_db.Sql.Hint.Keeps.{derive_index_hint-meets}

-- A regular expression that matches every text.
abbrev any_text : RegexMatch
any_text p s = some true

abbrev id_column : ColumnDef
id_column = record {
  name = codes "id";
  type = DataType.int;
  not_null = false;
  indexed = true;
  has_default = false;
  default_value = null;
}

abbrev name_column : ColumnDef
name_column = record id_column { name = codes "name"; type = DataType.str; indexed = false }

abbrev schema : TableSchema
schema = name_column ∷ id_column ∷ []

abbrev row : Row
row = str (codes "ann") ∷ int (pos 7) ∷ []

-- 5 < id AND name LIKE ".*"
abbrev clause : Expr
clause =
    logical LogicalOp.and (compare CompareOp.lt (literal (int (pos 5))) (column_ref (codes "id")))
      (like (column_ref (codes "name")) (literal (str (codes ".*"))))

clause-true : eval_where any_text schema row clause ≡ ok (tri true false)
unfolding eval_where eval_atom index_of compare_bytes compare_value to_bool_three_valued tri_and
clause-true = refl

abbrev hint : IndexHint
hint = record {
  has = true;
  column_idx = 1;
  eq = false;
  eq_value = null;
  has_lo = true;
  lo = int (pos 5);
  lo_inclusive = false;
  has_hi = false;
  hi = null;
  hi_inclusive = false;
}

clause-hint : derive_index_hint (some clause) schema ≡ hint
unfolding derive_index_hint first_hint clauses_of add_clauses add_clause index_of compare_bytes
    column_is_indexed matches
clause-hint = refl

derive_index_hint-meets_example :
    (column_is_indexed schema (derive_index_hint (some clause) schema).column_idx ≡ true)
    × (meets (int (pos 7)) (derive_index_hint (some clause) schema) ≡ true)
derive_index_hint-meets_example =
    derive_index_hint-meets any_text schema row clause (tri true false) (int (pos 7)) clause-true
      refl (rw clause-hint) (rw clause-hint)

eval_where-Agree_example :
    Agree (eval_where any_text schema row clause) (truth_where any_text schema row clause)
eval_where-Agree_example = eval_where-Agree any_text schema row clause

tri-kleene_example :
    (tri_and (stored is_unknown) (stored is_false)
      ≡ stored
          (if is_mixed is_unknown is_false then is_unknown else kleene_and is_unknown is_false))
    × (tri_or (stored is_unknown) (stored is_false) ≡ stored (kleene_or is_unknown is_false))
tri-kleene_example = tri-kleene is_unknown is_false
