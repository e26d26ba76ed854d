-- ===== src/Sql/Select/Keeps.antt =====
-- The statements keep a table valid: the loops over rows in src/sql/executor.cpp.
use cw_db.Prelude.{ℕ, ◌+◌, ◌<◌, ◌^◌, ◌==◌, not, arith, List, [], ◌∷◌, Option, length, inl, inr}
use cw_db.Prelude.Bytes.{Bytes}
use cw_db.Prelude.Error.{Result, ok, throw, ◌>>=◌, ◌>>◌, throw_if, count_mismatch, Result-cases}
use cw_db.Prelude.Map.{find, nat_eq}
use cw_db.Core.Value.{Value}
use cw_db.Sql.Ast.{Expr}
use cw_db.Sql.Where.{RegexMatch, or_undefined}
use cw_db.Storage.Table.{IndexOps, Table, and_then, erase_row, update, insert, materialize}
use cw_db.Storage.Table.Rows.{
  IsValid, erase_row-IsValid, update-IsValid, insert-IsValid, insert-next_id,
}
use cw_db.Sql.Select.{
  matched, resolve, evaluate, erase_all, delete_rows, update_all, update_rows, positions_of,
  insert_all, insert_rows,
}

module _ (ops : IndexOps) where
  and_then-Keeps :
      {A B : Type 0} (m : Result A × Table ops.Index)
      (f : A → Table ops.Index → Result B × Table ops.Index)
      → IsValid m.1
      → ((a : A) → IsValid (f a m.1).1)
      → IsValid (and_then m f).1
  and_then-Keeps (ok a, u) f v h = h a
  and_then-Keeps (throw e, u) f v h = v

  erase_all-IsValid :
      (ids : List ℕ) (t : Table ops.Index) → IsValid t → IsValid (erase_all ops ids t).1
  unfolding erase_all
  erase_all-IsValid [] t v = v
  erase_all-IsValid (id ∷ ids) t v =
      let w = erase_row-IsValid ops id t v in
      and_then-Keeps (erase_row ops id t) _ w (λ _. erase_all-IsValid ids (erase_row ops id t).1 w)

  update_all-IsValid :
      (as_ : List (ℕ × Expr)) (ids : List ℕ) (t : Table ops.Index)
      → IsValid t
      → IsValid (update_all ops as_ ids t).1
  unfolding update_all
  update_all-IsValid as_ [] t v = v
  update_all-IsValid as_ (id ∷ ids) t v =
      elim (Result-cases
        (or_undefined (find id t.records) >>= λ row. evaluate ops t.schema row as_)) [
          | inr (e, failed) ↦ rw failed v
          | inl (values, done) ↦
              let w = update-IsValid ops id values t v in
              rw done (
                and_then-Keeps (update ops id values t) (λ _. update_all ops as_ ids) w
                  (λ _. update_all-IsValid as_ ids (update ops id values t).1 w))
        ]

  -- DELETE keeps the table valid, also where it stops at an error half way.
  pub delete_rows-IsValid :
      (regex_match : RegexMatch) (where_ : Option Expr) (t : Table ops.Index)
      → IsValid t
      → IsValid (delete_rows ops regex_match where_ t).1
  unfolding delete_rows
  delete_rows-IsValid regex_match where_ t v =
      elim (Result-cases (matched ops regex_match where_ t)) [
        | inr (e, failed) ↦ rw failed v
        | inl (ids, done) ↦
            let w = erase_all-IsValid ids t v in
            rw done (
              and_then-Keeps {B = ℕ} (erase_all ops ids t) (λ _ u. (ok (length ids), u)) w (λ _. w))
      ]

  -- UPDATE keeps the table valid, also where it stops at an error half way.
  pub update_rows-IsValid :
      (regex_match : RegexMatch) (assignments : List (Bytes × Expr)) (where_ : Option Expr)
      (t : Table ops.Index)
      → IsValid t
      → IsValid (update_rows ops regex_match assignments where_ t).1
  unfolding update_rows
  update_rows-IsValid regex_match assignments where_ t v =
      elim (Result-cases (resolve ops t.schema assignments)) [
        | inr (e, failed) ↦ rw failed v
        | inl (as_, resolved) ↦
            rw resolved (elim (Result-cases (matched ops regex_match where_ t)) [
              | inr (e, failed) ↦ rw failed v
              | inl (ids, done) ↦
                  let w = update_all-IsValid as_ ids t v in
                  rw done (
                    and_then-Keeps {B = ℕ} (update_all ops as_ ids t) (λ _ u. (ok (length ids), u))
                      w (λ _. w))
            ])
      ]

  insert_all-IsValid :
      (positions : List ℕ) (rows : List (List Value)) (t : Table ops.Index)
      → IsValid t
      → t.next_id + length rows < 2 ^ 64
      → IsValid (insert_all ops positions rows t).1
  unfolding insert_all
  insert_all-IsValid positions [] t v room = v
  insert_all-IsValid positions (values ∷ rows) t v room =
      elim (Result-cases (
        throw_if (not (length values == length positions)) count_mismatch
        >> materialize t.schema positions values)) [
          | inr (e, failed) ↦ rw failed v
          | inl (row, done) ↦
              let w = insert-IsValid ops row t v (omega arith) in
              let u = (insert ops row t).1 in
              rw done (
                and_then-Keeps (insert ops row t) (λ _. insert_all ops positions rows) w
                  (λ _.
                    insert_all-IsValid positions rows u w
                      (omega (arith, insert-next_id ops row t (omega arith)))))
        ]

  -- INSERT of rows for which there are ids left keeps the table valid, also where it stops at an
  -- error half way.
  pub insert_rows-IsValid :
      (names : List Bytes) (rows : List (List Value)) (t : Table ops.Index)
      → IsValid t
      → t.next_id + length rows < 2 ^ 64
      → IsValid (insert_rows ops names rows t).1
  unfolding insert_rows
  insert_rows-IsValid names rows t v room = elim (Result-cases (positions_of ops t.schema names)) [
    | inr (e, failed) ↦ rw failed v
    | inl (positions, resolved) ↦
        let w = insert_all-IsValid positions rows t v room in
        rw resolved (
          and_then-Keeps {B = ℕ} (insert_all ops positions rows t) (λ _ u. (ok (length rows), u)) w
            (λ _. w))
  ]
