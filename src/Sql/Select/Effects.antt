-- ===== src/Sql/Select/Effects.antt =====
-- What the statements that return leave: the loops over rows in `exec_insert`, `exec_update` and
-- `exec_delete` of src/sql/executor.cpp.
use cw_db.Prelude.{
  ℕ, ◌+◌, ◌<◌, ◌^◌, ◌≡◌, refl, not, List, [], ◌∷◌, Option, none, inl, inr, ◌==◌, if◌then◌else◌,
  length, arith, ap, sym, subst, ◌∙◌, Bool-cases,
}
use cw_db.Prelude.Bytes.{Bytes}
use cw_db.Prelude.Map.{find, nat_eq}
use cw_db.Prelude.Error.{Result, ok, ◌>>=◌, ◌>>◌, throw_if, count_mismatch}
use cw_db.Core.Value.{Value}
use cw_db.Sql.Ast.{Expr}
use cw_db.Sql.Where.{RegexMatch, or_undefined}
use cw_db.Storage.Pager.Ids.{mem}
use cw_db.Storage.Table.{IndexOps, Table, and_then, after, erase_row, update, insert, materialize}
use cw_db.Storage.Table.Rows.{
  IsValid, erase_row-IsValid, update-IsValid, insert-IsValid, insert-next_id,
}
use cw_db.Storage.Table.Stores.{after-ok, and_then-ok, erase_row-stores}
use cw_db.Storage.Table.Laws.{IndexLaws}
use cw_db.Storage.Table.Follow.{HaveRoom}
use cw_db.Storage.Table.Agrees.{UpdateRoom, Agrees, insert-Agrees, update-Agrees, erase_row-Agrees}
use cw_db.Sql.Select.{
  matched, resolve, evaluate, erase_all, delete_rows, update_all, update_rows, positions_of,
  insert_all, insert_rows,
}
use cw_db.Sql.Where.{Row}
use cw_db.Sql.Select.Matches.{IsKept}
use cw_db.Sql.Select.Complete.{matched-IsKept}

module _ (ops : IndexOps) (laws : IndexLaws ops) where
  -- Valid, with indexes that agree with the rows.
  pub record IsSynced (t : Table ops.Index) : Type 0 where
    pub valid : IsValid t
    pub agrees : Agrees ops laws t

  -- What is proved of the state behind a step holds of the whole.
  along :
      {A : Type 0} (P : Table ops.Index → Type 0) (m n : Result A × Table ops.Index)
      → m ≡ n
      → P n.1
      → P m.1
  along P m n same p = subst (λ x. P x.1) (sym same) p

  erase_all-effect :
      (ids : List ℕ) (t : Table ops.Index)
      → IsSynced t
      → (erase_all ops ids t).0 ≡ ok tt
      → IsSynced (erase_all ops ids t).1
        × ((j : ℕ)
            → find j (erase_all ops ids t).1.records
              ≡ (if mem j ids then none else find j t.records))
  unfolding erase_all mem
  erase_all-effect [] t s h = (s, λ j. refl)
  erase_all-effect (id ∷ ids) t s h =
      let m = erase_row ops id t in
      let (_, erased, same) = and_then-ok ops m (λ _. erase_all ops ids) tt h in
      let next : IsSynced m.1 = record {
        valid = erase_row-IsValid ops id t s.valid;
        agrees = erase_row-Agrees ops laws id t s.valid s.agrees erased;
      } in
      let (synced, rows) = erase_all-effect ids m.1 next (ap (λ x. x.0) (sym same) ∙ h) in
      (
        along IsSynced (and_then m (λ _. erase_all ops ids)) (erase_all ops ids m.1) same synced,
        λ j.
            ap (λ x. find j x.1.records) same
            ∙ rows j
            ∙ ap (λ r. if mem j ids then none else r)
                ((erase_row-stores ops id j t s.valid erased).0)
            ∙ ground arith,
      )

  -- The indexes have room for what each round of the loop of an UPDATE, or of an INSERT, puts in.
  abbrev pub UpdatesRoom : List (ℕ × Expr) → List ℕ → Table ops.Index → Type 0
  UpdatesRoom as_ [] t = Unit {0}
  UpdatesRoom as_ (id ∷ ids) t =
      (values : List (ℕ × Value))
      → (or_undefined (find id t.records) >>= λ row. evaluate ops t.schema row as_) ≡ ok values
      → UpdateRoom ops laws id values t × UpdatesRoom as_ ids (update ops id values t).1

  abbrev pub InsertsRoom : List ℕ → List (List Value) → Table ops.Index → Type 0
  InsertsRoom positions [] t = Unit {0}
  InsertsRoom positions (values ∷ rows) t =
      (row : Row)
      → (throw_if (not (length values == length positions)) count_mismatch
          >> materialize t.schema positions values)
        ≡ ok row
      → HaveRoom ops laws t.next_id row 0 t × InsertsRoom positions rows (insert ops row t).1

  update_all-IsSynced :
      (as_ : List (ℕ × Expr)) (ids : List ℕ) (t : Table ops.Index)
      → IsSynced t
      → UpdatesRoom as_ ids t
      → (update_all ops as_ ids t).0 ≡ ok tt
      → IsSynced (update_all ops as_ ids t).1
  unfolding update_all
  update_all-IsSynced as_ [] t s room h = s
  update_all-IsSynced as_ (id ∷ ids) t s room h =
      let row = or_undefined (find id t.records) >>= λ row. evaluate ops t.schema row as_ in
      let step = λ (values : List (ℕ × Value)) (u : Table ops.Index).
        and_then (update ops id values u) (λ _. update_all ops as_ ids) in
      let (values, evaluated, same) = after-ok ops row step t tt h in
      let (room_here, room_next) = room values evaluated in
      let m = update ops id values t in
      let (_, updated, same') =
        and_then-ok ops m (λ _. update_all ops as_ ids) tt (ap (λ x. x.0) (sym same) ∙ h) in
      let next : IsSynced m.1 = record {
        valid = update-IsValid ops id values t s.valid;
        agrees = update-Agrees ops laws id values t s.valid s.agrees room_here updated;
      } in
      along IsSynced (after row step t) (update_all ops as_ ids m.1) (same ∙ same')
        (update_all-IsSynced as_ ids m.1 next room_next (ap (λ x. x.0) (sym (same ∙ same')) ∙ h))

  insert_all-IsSynced :
      (positions : List ℕ) (rows : List (List Value)) (t : Table ops.Index)
      → IsSynced t
      → t.next_id + length rows < 2 ^ 64
      → InsertsRoom positions rows t
      → (insert_all ops positions rows t).0 ≡ ok tt
      → IsSynced (insert_all ops positions rows t).1
  unfolding insert_all
  insert_all-IsSynced positions [] t s ids_left room h = s
  insert_all-IsSynced positions (values ∷ rows) t s ids_left room h =
      let row =
        throw_if (not (length values == length positions)) count_mismatch
        >> materialize t.schema positions values in
      let step = λ (row : List Value) (u : Table ops.Index).
        and_then (insert ops row u) (λ _. insert_all ops positions rows) in
      let (filled, done, same) = after-ok ops row step t tt h in
      let (room_here, room_next) = room filled done in
      let m = insert ops filled t in
      let (id, inserted, same') =
        and_then-ok ops m (λ _. insert_all ops positions rows) tt (ap (λ x. x.0) (sym same) ∙ h) in
      let next : IsSynced m.1 = record {
        valid = insert-IsValid ops filled t s.valid (omega arith);
        agrees = insert-Agrees ops laws filled t id s.valid s.agrees room_here inserted;
      } in
      along IsSynced (after row step t) (insert_all ops positions rows m.1) (same ∙ same') (
        insert_all-IsSynced positions rows m.1 next
          (omega (arith, insert-next_id ops filled t (omega arith))) room_next
          (ap (λ x. x.0) (sym (same ∙ same')) ∙ h))

  -- With index operations that keep their laws:
  -- An INSERT that returns, on a valid table whose indexes agree with its rows, with ids left for the
  -- new rows and room in the indexes for the keys of each, leaves such a table.
  pub insert_rows-IsSynced :
      (names : List Bytes) (rows : List (List Value)) (t : Table ops.Index) (n : ℕ)
      → IsSynced t
      → t.next_id + length rows < 2 ^ 64
      → ((positions : List ℕ)
          → positions_of ops t.schema names ≡ ok positions
          → InsertsRoom positions rows t)
      → (insert_rows ops names rows t).0 ≡ ok n
      → IsSynced (insert_rows ops names rows t).1
  unfolding insert_rows
  insert_rows-IsSynced names rows t n s ids_left room h =
      let counted : Unit {0} → Table ops.Index → Result ℕ × Table ops.Index =
        λ _ w. (ok (length rows), w) in
      let step = λ (positions : List ℕ) (u : Table ops.Index).
        and_then (insert_all ops positions rows u) counted in
      let (positions, resolved, same) = after-ok ops (positions_of ops t.schema names) step t n h in
      let m = insert_all ops positions rows t in
      let (_, inserted, same') = and_then-ok ops m counted n (ap (λ x. x.0) (sym same) ∙ h) in
      along IsSynced (after (positions_of ops t.schema names) step t) (ok (length rows), m.1)
        (same ∙ same')
        (insert_all-IsSynced positions rows t s ids_left (room positions resolved) inserted)

  module _ (regex_match : RegexMatch) where
    -- With index operations that keep their laws:
    -- An UPDATE that returns, on a valid table whose indexes agree with its rows, with room in the indexes
    -- for the keys of each new row in place of the old one, leaves such a table.
    pub update_rows-IsSynced :
        (assignments : List (Bytes × Expr)) (where_ : Option Expr) (t : Table ops.Index) (n : ℕ)
        → IsSynced t
        → ((as_ : List (ℕ × Expr)) (ids : List ℕ)
            → resolve ops t.schema assignments ≡ ok as_
            → matched ops regex_match where_ t ≡ ok ids
            → UpdatesRoom as_ ids t)
        → (update_rows ops regex_match assignments where_ t).0 ≡ ok n
        → IsSynced (update_rows ops regex_match assignments where_ t).1
    unfolding update_rows
    update_rows-IsSynced assignments where_ t n s room h =
        let counted : List ℕ → Unit {0} → Table ops.Index → Result ℕ × Table ops.Index =
          λ ids x w. (ok (length ids), w) in
        let loop = λ (as_ : List (ℕ × Expr)) (ids : List ℕ) (u : Table ops.Index).
          and_then (update_all ops as_ ids u) (counted ids) in
        let search =
          λ (as_ : List (ℕ × Expr)). after (matched ops regex_match where_ t) (loop as_) in
        let (as_, resolved, same) = after-ok ops (resolve ops t.schema assignments) search t n h in
        let (ids, found, same') =
          after-ok ops (matched ops regex_match where_ t) (loop as_) t n
            (ap (λ x. x.0) (sym same) ∙ h) in
        let m = update_all ops as_ ids t in
        let (_, updated, same'') =
          and_then-ok ops m (counted ids) n (ap (λ x. x.0) (sym (same ∙ same')) ∙ h) in
        along IsSynced (after (resolve ops t.schema assignments) search t) (ok (length ids), m.1)
          (same ∙ same' ∙ same'')
          (update_all-IsSynced as_ ids t s (room as_ ids resolved found) updated)

    -- With index operations that keep their laws:
    -- A DELETE that returns, on a valid table whose indexes agree with its rows, leaves such a table, in
    -- which the rows that the clause keeps are gone and all others are as they were.
    pub delete_rows-deletes :
        (where_ : Option Expr) (t : Table ops.Index) (n : ℕ)
        → IsSynced t
        → (delete_rows ops regex_match where_ t).0 ≡ ok n
        → IsSynced (delete_rows ops regex_match where_ t).1
          × ((id : ℕ)
              → IsKept ops regex_match where_ t id
              → find id (delete_rows ops regex_match where_ t).1.records ≡ none)
          × ((id : ℕ)
              → ¬ IsKept ops regex_match where_ t id
              → find id (delete_rows ops regex_match where_ t).1.records ≡ find id t.records)
    unfolding delete_rows
    delete_rows-deletes where_ t n s h =
        let counted : List ℕ → Unit {0} → Table ops.Index → Result ℕ × Table ops.Index =
          λ ids x w. (ok (length ids), w) in
        let loop =
          λ (ids : List ℕ) (u : Table ops.Index). and_then (erase_all ops ids u) (counted ids) in
        let (ids, found, same) = after-ok ops (matched ops regex_match where_ t) loop t n h in
        let m = erase_all ops ids t in
        let (_, erased, same') = and_then-ok ops m (counted ids) n (ap (λ x. x.0) (sym same) ∙ h) in
        let whole = after (matched ops regex_match where_ t) loop t in
        let (synced, rows) = erase_all-effect ids t s erased in
        let kept =
          λ (id : ℕ). matched-IsKept ops laws regex_match where_ t ids id s.valid s.agrees found in
        let at = λ (id : ℕ). ap (λ x. find id x.1.records) (same ∙ same') ∙ rows id in
        (
          along IsSynced whole (ok (length ids), m.1) (same ∙ same') synced,
          λ id k. at id ∙ ap (λ b. if b then none else find id t.records) ((kept id).1 k),
          λ id k. at id ∙ elim (Bool-cases (mem id ids)) [
            | inl on ↦ absurd (k ((kept id).0 on))
            | inr off ↦ ap (λ b. if b then none else find id t.records) off
          ],
        )
