-- ===== src/Sql/Hint/Keeps.antt =====
-- A hint loses no row that the WHERE clause keeps: `derive_index_hint` of src/sql/executor.cpp.
use cw_db.Prelude.{
  ℕ, true, ◌≡◌, refl, List, [], ◌∷◌, Option, none, some, inl, inr, get_elem?, All, All-append,
  arith, Bool-cases, ◌∙◌,
}
use cw_db.Prelude.Bytes.{Bytes}
use cw_db.Prelude.Error.{Result, ok, ◌>>=◌}
use cw_db.Core.Value.{Value}
use cw_db.Sql.Ast.{CompareOp, LogicalOp, Expr, column_ref, literal, compare, between, like, logical}
use cw_db.Sql.Schema.{ColumnDef, TableSchema, index_of, require_column, column_is_indexed}
use cw_db.Sql.Where.{RegexMatch, Row, TriBool, accepts, eval_atom, eval_where, tri_and, combine}
use cw_db.Sql.Where.Logic.{Agree, agree, both_throw, eval_where-Agree, Truth}
use cw_db.Sql.Hint.{
  IndexHint, empty_hint, is_column_named, as_literal, clauses_of, sides, narrow, narrow_compare,
  narrow_between, add_clause, add_clauses, candidate, first_hint, derive_index_hint, or_first,
}
use cw_db.Sql.Hint.Sound.{Satisfies, Satisfies-meets, meets, Accepted, add_clause-Satisfies}

and-inv :
    {r s : Result TriBool} {m n : Result Truth} (t : TriBool)
    → Agree r m
    → Agree s n
    → (r >>= λ a. s >>= λ b. ok (combine LogicalOp.and a b)) ≡ ok t
    → accepts t ≡ true
    → ((a : TriBool) × (r ≡ ok a) × (accepts a ≡ true))
      × ((b : TriBool) × (s ≡ ok b) × (accepts b ≡ true))
unfolding tri_and
and-inv t (agree a k pa ea) (agree b l pb eb) h acc =
    ((a, refl, ground arith), (b, refl, ground arith))
and-inv t (agree a k pa ea) (both_throw e) h acc = absurd (ground arith)
and-inv t (both_throw e) g h acc = absurd (ground arith)

-- The clauses leave alone which column the hint is for.
column_idx-narrow :
    (op : CompareOp) (v : Value) (cand : IndexHint)
    → (narrow op v cand).column_idx ≡ cand.column_idx
unfolding narrow
column_idx-narrow CompareOp.eq v cand = refl
column_idx-narrow CompareOp.not_eq v cand = refl
column_idx-narrow CompareOp.lt v cand = refl
column_idx-narrow CompareOp.gt v cand = refl
column_idx-narrow CompareOp.lt_eq v cand = refl
column_idx-narrow CompareOp.gt_eq v cand = refl

column_idx-narrow_compare :
    (col : ColumnDef) (o : Option (CompareOp × Value)) (cand : IndexHint)
    → (narrow_compare col o cand).column_idx ≡ cand.column_idx
column_idx-narrow_compare col none cand = refl
column_idx-narrow_compare col (some (op, v)) cand = ground (arith, column_idx-narrow op v cand)

column_idx-narrow_between :
    (a b : Option Value) (cand : IndexHint) → (narrow_between a b cand).column_idx ≡ cand.column_idx
column_idx-narrow_between none b cand = refl
column_idx-narrow_between (some a) none cand = refl
column_idx-narrow_between (some a) (some b) cand = refl

column_idx-add_clause :
    (col : ColumnDef) (cand : IndexHint) (c : Expr)
    → (add_clause col cand c).column_idx ≡ cand.column_idx
column_idx-add_clause col cand (compare op l r) =
    unfold add_clause in column_idx-narrow_compare col (sides col.name op l r) cand
column_idx-add_clause col cand (between v lo hi) = elim (Bool-cases (is_column_named v col.name)) [
  | inl named ↦
      unfold add_clause in rw named (column_idx-narrow_between (as_literal lo) (as_literal hi) cand)
  | inr other ↦ unfold add_clause in rw other
]
column_idx-add_clause col cand (column_ref name) = unfold add_clause in refl
column_idx-add_clause col cand (literal v) = unfold add_clause in refl
column_idx-add_clause col cand (like a b) = unfold add_clause in refl
column_idx-add_clause col cand (logical op a b) = unfold add_clause in refl

column_idx-add_clauses :
    (col : ColumnDef) (cs : List Expr) (cand : IndexHint)
    → (add_clauses col cand cs).column_idx ≡ cand.column_idx
unfolding add_clauses
column_idx-add_clauses col [] cand = refl
column_idx-add_clauses col (c ∷ cs) cand =
    column_idx-add_clauses col cs (add_clause col cand c) ∙ column_idx-add_clause col cand c

eval_atom-column :
    (schema : TableSchema) (row : Row) (name : Bytes) {i : ℕ} {v : Value}
    → index_of schema name ≡ some i
    → get_elem? row i ≡ some v
    → eval_atom schema row (column_ref name) ≡ ok v
unfolding eval_atom require_column
eval_atom-column schema row name h k = rw (h, k)

module _ (regex_match : RegexMatch) (schema : TableSchema) (row : Row) where
  abbrev Holds : Expr → Type 0
  Holds = Accepted regex_match schema row

  conjuncts : (l r : Expr) → Holds (logical LogicalOp.and l r) → Holds l × Holds r
  unfolding eval_where
  conjuncts l r (t, e, acc) =
      let (p, q) =
        and-inv t (eval_where-Agree regex_match schema row l)
          (eval_where-Agree regex_match schema row r) e acc in
      (p, q)

  clauses-Holds : (e : Expr) → Holds e → All Holds (clauses_of e)
  unfolding clauses_of
  clauses-Holds (logical LogicalOp.and l r) h =
      let (p, q) = conjuncts l r h in
      All-append Holds (clauses_of l) (clauses_of r) (clauses-Holds l p) (clauses-Holds r q)
  clauses-Holds (logical LogicalOp.or l r) h = (h, tt)
  clauses-Holds (column_ref name) h = (h, tt)
  clauses-Holds (literal v) h = (h, tt)
  clauses-Holds (compare op l r) h = (h, tt)
  clauses-Holds (between v lo hi) h = (h, tt)
  clauses-Holds (like v p) h = (h, tt)

  add_clauses-Satisfies :
      (col : ColumnDef) (v : Value)
      → eval_atom schema row (column_ref col.name) ≡ ok v
      → (cs : List Expr) (cand : IndexHint) → All Holds cs
      → Satisfies v cand
      → Satisfies v (add_clauses col cand cs)
  unfolding add_clauses
  add_clauses-Satisfies col v here [] cand h s = s
  add_clauses-Satisfies col v here (c ∷ cs) cand (hc, h) s =
      add_clauses-Satisfies col v here cs (add_clause col cand c) h
        (add_clause-Satisfies regex_match schema row col v here c cand hc s)

  -- What a hint promises about a row: its column is indexed, and the row's value satisfies it.
  abbrev Fits : IndexHint → Type 0
  Fits h =
      (column_is_indexed schema h.column_idx ≡ true)
      × ((v : Value) → get_elem? row h.column_idx ≡ some v → Satisfies v h)

  start-Satisfies : (v : Value) (i : ℕ) → Satisfies v (record empty_hint { column_idx = i })
  start-Satisfies v i = record {
    eq_sat = λ e. absurd (ground arith);
    lo_sat = λ e. absurd (ground arith);
    hi_sat = λ e. absurd (ground arith);
  }

  has-Satisfies :
      (v : Value) (h : IndexHint) → Satisfies v h → Satisfies v (record h { has = true })
  has-Satisfies v h s = record { eq_sat = s.eq_sat; lo_sat = s.lo_sat; hi_sat = s.hi_sat }

  candidate-Fits :
      (cs : List Expr) (col : ColumnDef) (o : Option ℕ) {h : IndexHint}
      → All Holds cs
      → index_of schema col.name ≡ o
      → candidate schema cs col o ≡ some h
      → Fits h
  candidate-Fits cs col none all o e = absurd (ground arith)
  candidate-Fits cs col (some i) {h} all o e =
      let cand = add_clauses col (record empty_hint { column_idx = i }) cs in
      let at_i : cand.column_idx ≡ i =
        column_idx-add_clauses col cs (record empty_hint { column_idx = i }) in
      let is_h : record cand { has = true } ≡ h = ground arith in
      rw (← is_h) (
        rw at_i (ground arith),
        λ v here. has-Satisfies v cand (
            add_clauses-Satisfies col v (eval_atom-column schema row col.name o (rw at_i at here))
              cs (record empty_hint { column_idx = i }) all (start-Satisfies v i)),
      )

  or_first-Fits :
      (o : Option IndexHint) (rest : IndexHint)
      → ((h : IndexHint) → o ≡ some h → Fits h)
      → (rest.has ≡ true → Fits rest)
      → (or_first o rest).has ≡ true
      → Fits (or_first o rest)
  or_first-Fits none rest f g h = g h
  or_first-Fits (some hint) rest f g h = f hint refl

  first_hint-Fits :
      (cs : List Expr) (cols : List ColumnDef)
      → All Holds cs
      → (first_hint schema cs cols).has ≡ true
      → Fits (first_hint schema cs cols)
  unfolding first_hint
  first_hint-Fits cs [] all h = absurd (ground arith)
  first_hint-Fits cs (col ∷ cols) all h =
      or_first-Fits (candidate schema cs col (index_of schema col.name)) (first_hint schema cs cols)
        (λ hint found. candidate-Fits cs col (index_of schema col.name) all refl found)
        (first_hint-Fits cs cols all) h

  -- Whatever hint is derived from a WHERE clause, it is for an indexed column, and in a row of which
  -- the clause is true the value of that column meets the equality and the bounds of the hint: the
  -- index range loses no such row.
  pub derive_index_hint-meets :
      (e : Expr) (t : TriBool) (v : Value)
      → eval_where regex_match schema row e ≡ ok t
      → accepts t ≡ true
      → (derive_index_hint (some e) schema).has ≡ true
      → get_elem? row (derive_index_hint (some e) schema).column_idx ≡ some v
      → (column_is_indexed schema (derive_index_hint (some e) schema).column_idx ≡ true)
        × (meets v (derive_index_hint (some e) schema) ≡ true)
  unfolding derive_index_hint
  derive_index_hint-meets e t v ev acc h here =
      let fits = first_hint-Fits (clauses_of e) schema (clauses-Holds e (t, ev, acc)) h in
      (fits.0, Satisfies-meets v (first_hint schema (clauses_of e) schema) (fits.1 v here))
