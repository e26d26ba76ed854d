-- ===== src/Sql/Ast.antt =====
-- WHERE expressions: include/sql/ast.h.
use cw_db.Prelude.Bytes.{Bytes}
use cw_db.Core.Value.{Value}

pub data CompareOp : Type 0 where
  eq not_eq lt gt lt_eq gt_eq : CompareOp

pub data LogicalOp : Type 0 where
  and or : LogicalOp

pub data Expr : Type 0 where
  column_ref : Bytes → Expr
  literal : Value → Expr
  compare : CompareOp → Expr → Expr → Expr
  between : Expr → Expr → Expr → Expr
  like : Expr → Expr → Expr
  logical : LogicalOp → Expr → Expr → Expr
