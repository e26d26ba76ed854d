-- ===== src/Sql/Hint/Sound.antt =====
-- What one clause that is true of a row says of an indexed value: the loop over the clauses in
-- `derive_index_hint` of src/sql/executor.cpp.
use cw_db.Prelude.{
  Bool, true, false, not, ◌&&◌, ◌||◌, ◌≡◌, refl, Option, none, some, ◌⊎◌, inl, inr, arith, Ordering,
  if◌then◌else◌, Option-cases, Bool-cases, ap,
}
use cw_db.Prelude.Bytes.{Bytes, eq_bytes_iff}
use cw_db.Prelude.Error.{ok}
use cw_db.Core.Value.{Value, compare_value, matches}
use cw_db.Core.Value.Order.{compare_value-flip}
use cw_db.Sql.Ast.{CompareOp, Expr, column_ref, literal, compare, between, like, logical}
use cw_db.Sql.Schema.{ColumnDef, TableSchema}
use cw_db.Sql.Where.{
  RegexMatch, Row, TriBool, accepts, eval_atom, eval_where, compared, in_between,
  to_bool_three_valued,
}
use cw_db.Sql.Hint.{
  IndexHint, is_column_named, as_literal, swap_op, with_op, sides, narrow, narrow_compare,
  narrow_between, add_clause, or_else,
}

-- The value is at or behind a lower bound, at or before an upper one.
abbrev pub above : Ordering × Bool → Bool → Bool
above (Ordering.gt, true) inclusive = true
above (Ordering.eq, true) inclusive = inclusive
above _ inclusive = false

abbrev pub below : Ordering × Bool → Bool → Bool
below (Ordering.lt, true) inclusive = true
below (Ordering.eq, true) inclusive = inclusive
below _ inclusive = false

-- What a hint says of the value of its column.
pub record Satisfies (v : Value) (h : IndexHint) : Type 0 where
  pub eq_sat : h.eq ≡ true → compare_value v h.eq_value ≡ (Ordering.eq, true)
  pub lo_sat : h.has_lo ≡ true → above (compare_value v h.lo) h.lo_inclusive ≡ true
  pub hi_sat : h.has_hi ≡ true → below (compare_value v h.hi) h.hi_inclusive ≡ true

abbrev pub equal : Ordering × Bool → Bool
equal (Ordering.eq, true) = true
equal _ = false

-- The value is in the range that a hint asks the index for.
unfoldable pub meets : Value → IndexHint → Bool
meets v h =
    (not h.eq || equal (compare_value v h.eq_value))
    && ((not h.has_lo || above (compare_value v h.lo) h.lo_inclusive)
        && (not h.has_hi || below (compare_value v h.hi) h.hi_inclusive))

pub Satisfies-meets : (v : Value) (h : IndexHint) → Satisfies v h → meets v h ≡ true
unfolding meets
Satisfies-meets v h s = ground (arith, s.eq_sat, s.lo_sat, s.hi_sat)

is_column_named-inv : (e : Expr) (col : Bytes) → is_column_named e col ≡ true → e ≡ column_ref col
unfolding is_column_named
is_column_named-inv (column_ref name) col h = ap column_ref ((eq_bytes_iff name col).0 h)
is_column_named-inv (literal v) col h = ground arith
is_column_named-inv (compare op a b) col h = ground arith
is_column_named-inv (between a b c) col h = ground arith
is_column_named-inv (like a b) col h = ground arith
is_column_named-inv (logical op a b) col h = ground arith

as_literal-inv : (e : Expr) {v : Value} → as_literal e ≡ some v → e ≡ literal v
unfolding as_literal
as_literal-inv (literal v) h = ground arith
as_literal-inv (column_ref name) h = ground arith
as_literal-inv (compare op a b) h = ground arith
as_literal-inv (between a b c) h = ground arith
as_literal-inv (like a b) h = ground arith
as_literal-inv (logical op a b) h = ground arith

narrow-Satisfies :
    (op : CompareOp) (v lit : Value) (cand : IndexHint)
    → accepts (compared (compare_value v lit) op) ≡ true
    → Satisfies v cand
    → Satisfies v (narrow op lit cand)
unfolding narrow to_bool_three_valued
narrow-Satisfies CompareOp.eq v lit cand h s = record {
  eq_sat = λ e. ground arith;
  lo_sat = s.lo_sat;
  hi_sat = s.hi_sat;
}
narrow-Satisfies CompareOp.not_eq v lit cand h s = s
narrow-Satisfies CompareOp.lt v lit cand h s = record {
  eq_sat = s.eq_sat;
  lo_sat = s.lo_sat;
  hi_sat = λ e. ground arith;
}
narrow-Satisfies CompareOp.lt_eq v lit cand h s = record {
  eq_sat = s.eq_sat;
  lo_sat = s.lo_sat;
  hi_sat = λ e. ground arith;
}
narrow-Satisfies CompareOp.gt v lit cand h s = record {
  eq_sat = s.eq_sat;
  lo_sat = λ e. ground arith;
  hi_sat = s.hi_sat;
}
narrow-Satisfies CompareOp.gt_eq v lit cand h s = record {
  eq_sat = s.eq_sat;
  lo_sat = λ e. ground arith;
  hi_sat = s.hi_sat;
}

-- Swapping the operator makes up for swapping the operands.
swap_op-compared :
    (op : CompareOp) (v lit : Value)
    → accepts (compared (compare_value lit v) op) ≡ true
    → accepts (compared (compare_value v lit) (swap_op op)) ≡ true
unfolding swap_op to_bool_three_valued
swap_op-compared op v lit h = ground (arith, compare_value-flip v lit)

between-Satisfies :
    (v lo hi : Value) (cand : IndexHint)
    → accepts (in_between (compare_value v lo) (compare_value v hi)) ≡ true
    → Satisfies v cand
    → Satisfies v (narrow_between (some lo) (some hi) cand)
unfolding in_between to_bool_three_valued
between-Satisfies v lo hi cand h s = record {
  eq_sat = s.eq_sat;
  lo_sat = λ e. ground arith;
  hi_sat = λ e. ground arith;
}

or_else-inv {ℓ} :
    {A : Type ℓ} (a b : Option A) {x : A} → or_else a b ≡ some x → (a ≡ some x) ⊎ (b ≡ some x)
or_else-inv none b h = inr h
or_else-inv (some a) b h = inl h

-- One way in which a comparison is of use.
one_side :
    (col : Bytes) (op op' : CompareOp) (e f : Expr) (lit : Value)
    → (if is_column_named e col then with_op op (as_literal f) else none) ≡ some (op', lit)
    → (e ≡ column_ref col) × (f ≡ literal lit) × (op' ≡ op)
one_side col op op' e f lit h =
    (is_column_named-inv e col (ground arith), as_literal-inv f (ground arith), ground arith)

sides-inv :
    (col : Bytes) (op op' : CompareOp) (lhs rhs : Expr) (lit : Value)
    → sides col op lhs rhs ≡ some (op', lit)
    → ((lhs ≡ column_ref col) × (rhs ≡ literal lit) × (op' ≡ op))
      ⊎ ((rhs ≡ column_ref col) × (lhs ≡ literal lit) × (op' ≡ swap_op op))
unfolding sides
sides-inv col op op' lhs rhs lit h = elim (or_else-inv _ _ h) [
  | inl a ↦ inl (one_side col op op' lhs rhs lit a)
  | inr b ↦ inr (one_side col (swap_op op) op' rhs lhs lit b)
]

module _ (regex_match : RegexMatch) (schema : TableSchema) (row : Row) where
  -- The clause is true of the row.
  abbrev pub Accepted : Expr → Type 0
  Accepted c = (t : TriBool) × (eval_where regex_match schema row c ≡ ok t) × (accepts t ≡ true)

  eval_atom-literal : (v : Value) → eval_atom schema row (literal v) ≡ ok v
  unfolding eval_atom
  eval_atom-literal v = refl

  compare-left :
      (op : CompareOp) (col : Bytes) (v lit : Value)
      → eval_atom schema row (column_ref col) ≡ ok v
      → Accepted (compare op (column_ref col) (literal lit))
      → accepts (compared (compare_value v lit) op) ≡ true
  unfolding eval_where
  compare-left op col v lit h (t, e, a) = ground (arith, eval_atom-literal lit)

  compare-right :
      (op : CompareOp) (col : Bytes) (v lit : Value)
      → eval_atom schema row (column_ref col) ≡ ok v
      → Accepted (compare op (literal lit) (column_ref col))
      → accepts (compared (compare_value lit v) op) ≡ true
  unfolding eval_where
  compare-right op col v lit h (t, e, a) = ground (arith, eval_atom-literal lit)

  between-column :
      (col : Bytes) (v lo hi : Value)
      → eval_atom schema row (column_ref col) ≡ ok v
      → Accepted (between (column_ref col) (literal lo) (literal hi))
      → accepts (in_between (compare_value v lo) (compare_value v hi)) ≡ true
  unfolding eval_where
  between-column col v lo hi h (t, e, a) =
      ground (arith, eval_atom-literal lo, eval_atom-literal hi)

  module _ (col : ColumnDef) (v : Value)
      (here : eval_atom schema row (column_ref col.name) ≡ ok v) where
    side-Satisfies :
        (op op' : CompareOp) (lhs rhs : Expr) (lit : Value) (cand : IndexHint)
        → sides col.name op lhs rhs ≡ some (op', lit)
        → Accepted (compare op lhs rhs)
        → Satisfies v cand
        → Satisfies v (narrow op' lit cand)
    side-Satisfies op op' lhs rhs lit cand h acc s =
        elim (sides-inv col.name op op' lhs rhs lit h) [
          | inl (l, r, o) ↦
              narrow-Satisfies op' v lit cand
                (rw o (compare-left op col.name v lit here (rw (l, r) at acc))) s
          | inr (r, l, o) ↦
              narrow-Satisfies op' v lit cand
                (rw o (
                  swap_op-compared op v lit
                    (compare-right op col.name v lit here (rw (l, r) at acc))))
                s
        ]

    compare-Satisfies :
        (op : CompareOp) (lhs rhs : Expr) (cand : IndexHint)
        → Accepted (compare op lhs rhs)
        → Satisfies v cand
        → Satisfies v (narrow_compare col (sides col.name op lhs rhs) cand)
    compare-Satisfies op lhs rhs cand acc s = elim (Option-cases (sides col.name op lhs rhs)) [
      | inl useless ↦ rw useless s
      | inr ((op', lit), useful) ↦ rw useful (elim (Bool-cases (matches lit col.type)) [
        | inl fits ↦ rw fits (side-Satisfies op op' lhs rhs lit cand useful acc s)
        | inr other ↦ rw other s
      ])
    ]

    between_clause-Satisfies :
        (e lo hi : Expr) (cand : IndexHint)
        → Accepted (between e lo hi)
        → Satisfies v cand
        → is_column_named e col.name ≡ true
        → Satisfies v (narrow_between (as_literal lo) (as_literal hi) cand)
    between_clause-Satisfies e lo hi cand acc s named = elim (Option-cases (as_literal lo)) [
      | inl n ↦ rw n s
      | inr (l, low) ↦ elim (Option-cases (as_literal hi)) [
        | inl n ↦ rw (low, n) s
        | inr (h, high) ↦
            rw (low, high)
              (between-Satisfies v l h cand
                (between-column col.name v l h here (
                  rw
                    (
                      is_column_named-inv e col.name named,
                      as_literal-inv lo low,
                      as_literal-inv hi high,
                    )
                    at acc))
                s)
      ]
    ]

    pub add_clause-Satisfies :
        (c : Expr) (cand : IndexHint)
        → Accepted c
        → Satisfies v cand
        → Satisfies v (add_clause col cand c)
    unfolding add_clause
    add_clause-Satisfies (compare op lhs rhs) cand acc s = compare-Satisfies op lhs rhs cand acc s
    add_clause-Satisfies (between e lo hi) cand acc s =
        elim (Bool-cases (is_column_named e col.name)) [
          | inl named ↦ rw named (between_clause-Satisfies e lo hi cand acc s named)
          | inr other ↦ rw other s
        ]
    add_clause-Satisfies (column_ref name) cand acc s = s
    add_clause-Satisfies (literal x) cand acc s = s
    add_clause-Satisfies (like a b) cand acc s = s
    add_clause-Satisfies (logical op a b) cand acc s = s
