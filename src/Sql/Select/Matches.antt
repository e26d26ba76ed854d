-- ===== src/Sql/Select/Matches.antt =====
-- Which rows a statement is about: the loop over candidates in src/sql/executor.cpp.
use cw_db.Prelude.{
  ℕ, ◌≡◌, refl, Bool, true, false, List, [], ◌∷◌, Option, some, inl, inr, ◌==◌, ◌↔◌, if◌then◌else◌,
  arith, Option-cases, Bool-cases, ==_iff,
}
use cw_db.Prelude.Map.{find, nat_eq}
use cw_db.Prelude.Error.{ok, Result-cases}
use cw_db.Sql.Ast.{Expr}
use cw_db.Sql.Where.{RegexMatch, Row}
use cw_db.Storage.Pager.Ids.{mem}
use cw_db.Storage.Table.{IndexOps, Table}
use cw_db.Sql.Select.{keeps, filter_rows}

module _ (ops : IndexOps) (regex_match : RegexMatch) (where_ : Option Expr)
    (t : Table ops.Index) where
  -- The row is there, and the clause keeps it.
  abbrev pub IsKept : ℕ → Type 0
  IsKept id =
      (row : Row) × (find id t.records ≡ some row)
      × (keeps ops regex_match t.schema where_ row ≡ ok true)

  -- One round of the loop.
  filter_step :
      (id : ℕ) (ids out : List ℕ)
      → filter_rows ops regex_match where_ t (id ∷ ids) ≡ ok out
      → (row : Row) × (keep : Bool) × (rest : List ℕ) × (find id t.records ≡ some row)
        × (keeps ops regex_match t.schema where_ row ≡ ok keep)
        × (filter_rows ops regex_match where_ t ids ≡ ok rest)
        × (out ≡ (if keep then id ∷ rest else rest))
  unfolding filter_rows
  filter_step id ids out h = elim (Option-cases (find id t.records)) [
    | inl absent ↦ absurd (ground (arith, absent))
    | inr (row, here) ↦ elim (Result-cases (keeps ops regex_match t.schema where_ row)) [
      | inr (e, failed) ↦ absurd (ground (arith, here, failed))
      | inl (keep, kept) ↦ elim (Result-cases (filter_rows ops regex_match where_ t ids)) [
        | inr (e, failed) ↦ absurd (ground (arith, here, kept, failed))
        | inl (rest, tail) ↦ (row, keep, rest, here, kept, tail, ground (arith, here, kept, tail))
      ]
    ]
  ]

  -- What the round adds, in terms of its own row.
  step_iff :
      (i id : ℕ) (ids rest : List ℕ) (row : Row) (keep : Bool)
      → find i t.records ≡ some row
      → keeps ops regex_match t.schema where_ row ≡ ok keep
      → ((mem id rest ≡ true) ↔ ((mem id ids ≡ true) × IsKept id))
      → (mem id (if keep then i ∷ rest else rest) ≡ true) ↔ ((mem id (i ∷ ids) ≡ true) × IsKept id)
  unfolding mem
  step_iff i id ids rest row true here kept more = elim (Bool-cases (i == id)) [
    | inl same ↦
        let e : i ≡ id = (==_iff i id).0 same in
        (λ k. (rw same refl, (row, rw (← e) here, kept)), λ k. rw same refl)
    | inr other ↦
        (λ k. rw other (more.0 (rw other at k)), λ k. rw other (more.1 (rw other at k.0, k.1)))
  ]
  step_iff i id ids rest row false here kept more = elim (Bool-cases (i == id)) [
    | inl same ↦
        let e : i ≡ id = (==_iff i id).0 same in
        (
          λ k. (rw same refl, (more.0 k).1),
          λ k. absurd (
              let (row', there, kept') = k.1 in
              let again : find i t.records ≡ some row' = rw e there in
              let same_row : row ≡ row' = ground arith in
              let no : keeps ops regex_match t.schema where_ row' ≡ ok false =
                rw (← same_row) kept in
              ground arith),
        )
    | inr other ↦ (λ k. rw other (more.0 k), λ k. more.1 (rw other at k.0, k.1))
  ]

  -- If the loop over the candidates returns, the ids it keeps are those of the candidates whose row
  -- is there and of whose row the clause is true; without a clause all are kept.
  pub filter_rows-IsKept :
      (ids out : List ℕ) (id : ℕ)
      → filter_rows ops regex_match where_ t ids ≡ ok out
      → (mem id out ≡ true) ↔ ((mem id ids ≡ true) × IsKept id)
  unfolding filter_rows mem
  filter_rows-IsKept [] out id h = (λ k. absurd (ground arith), λ k. absurd (ground (arith, k.0)))
  filter_rows-IsKept (i ∷ ids) out id h =
      let (row, keep, rest, here, kept, tail, shape) = filter_step i ids out h in
      rw shape (step_iff i id ids rest row keep here kept (filter_rows-IsKept ids rest id tail))
