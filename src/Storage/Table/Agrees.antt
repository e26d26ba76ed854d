-- ===== src/Storage/Table/Agrees.antt =====
-- Indexes that agree with the rows, and the uniqueness of indexed columns: src/storage/table.cpp.
use cw_db.Prelude.{
  ℕ, zero, suc, ◌+◌, ◌≡◌, refl, true, false, List, [], ◌∷◌, Option, none, some, inl, inr, ◌==◌,
  if◌then◌else◌, length, get_elem?, arith, ap, sym, subst, ◌∙◌, Bool-cases, ==_iff,
}
use cw_db.Prelude.Map.{find, assign, erase, find-emplace, find-assign, find-erase, nat_eq}
use cw_db.Prelude.Error.{ok, Result-cases}
use cw_db.Core.Value.{Value}
use cw_db.Sql.Schema.{ColumnDef, TableSchema, column_is_indexed}
use cw_db.Sql.Where.{Row}
use cw_db.Storage.Table.{
  IndexOps, Table, check_cells, check_key, check_keys, enforce_constraints, is_other, index_find,
  index_at, install_from, remove_from, added, insert, entry_or, update, update_found, replace_row,
  assign_all, erase_row, erase_found,
}
use cw_db.Storage.Pager.{remove}
use cw_db.Storage.Table.Laws.{IndexLaws, IsKey}
use cw_db.Storage.Table.Rows.{IsValid, Fits, enforce_constraints-Fits}
use cw_db.Storage.Table.Steps.{install_from-SameRows, remove_from-SameRows}
use cw_db.Storage.Table.Stores.{and_then-ok, after-ok}
use cw_db.Storage.Table.Tracks.{Column, with_cell, Follows, Tracks, Tracks-ext, pending}
use cw_db.Storage.Table.Follow.{
  HaveRoom, check_cells-IsKey, behind, IsFresh, install_from-Tracks, remove_from-Tracks,
}

-- The cell of a row that may be missing.
abbrev pub cell_in : Option Row → ℕ → Option Value
cell_in none col = none
cell_in (some row) col = get_elem? row col

unfoldable pub column_of : List (ℕ × Row) → ℕ → Column
column_of records col id = cell_in (find id records) col

module _ (ops : IndexOps) (laws : IndexLaws ops) where
  -- Each indexed column has its index open; the index has a key for an id exactly where the row of that
  -- id has it in the column.
  abbrev pub Agrees : Table ops.Index → Type 0
  Agrees t = Tracks ops laws (column_of t.records) t

  pub index_find-view :
      (F : ℕ → Column) (t : Table ops.Index) (col : ℕ) (c : ColumnDef) (idx : ops.Index) (v : Value)
      → get_elem? t.schema col ≡ some c
      → c.indexed ≡ true
      → find col t.indexes ≡ some idx
      → Follows ops laws c.type (F col) idx
      → IsKey c.type v
      → index_find ops col v t ≡ ok (laws.view idx v)
  unfolding index_find index_at column_is_indexed
  index_find-view F t col c idx v here on found follows key = ground (
    arith,
    here,
    on,
    found,
    laws.sound_open c.type idx follows.sound,
    laws.lookup_view c.type idx v follows.sound key,
  )

  is_other-same :
      (existing : Option ℕ) (k : ℕ) → is_other (some k) existing ≡ false → existing ≡ some k
  is_other-same none k h = ground arith
  is_other-same (some id) k h = ground (arith, ==_iff k id)

  check_key-IsFresh :
      (existing : Option ℕ) (i : ℕ) (c : ColumnDef) (v : Value) (F : ℕ → Column)
      (t : Table ops.Index)
      → Tracks ops laws F t
      → get_elem? t.schema i ≡ some c
      → c.indexed ≡ true
      → IsKey c.type v
      → check_key ops i c v existing t ≡ ok tt
      → (k : ℕ) → F i k ≡ some v
      → existing ≡ some k
  check_key-IsFresh existing i c v F t tracks here on key passed k at_k =
      let (idx, found, follows) = tracks.follows i c here on in
      let seen : index_find ops i v t ≡ ok (some k) =
        index_find-view F t i c idx v here on found follows key
        ∙ ap ok ((follows.agrees v key k).1 at_k) in
      is_other-same existing k (ground (arith, passed, seen, on, key.0))

  -- What the second loop of the checks establishes: no other row has the key.
  check_keys-IsFresh :
      (existing : Option ℕ) (i : ℕ) (cs : TableSchema) (vs : Row) (F : ℕ → Column)
      (t : Table ops.Index)
      → Tracks ops laws F t
      → ((j : ℕ) → get_elem? t.schema (i + j) ≡ get_elem? cs j)
      → check_cells cs vs ≡ ok tt
      → check_keys ops i cs vs existing t ≡ ok tt
      → (j : ℕ) (c : ColumnDef) (v : Value) → get_elem? cs j ≡ some c
      → c.indexed ≡ true
      → get_elem? vs j ≡ some v
      → (k : ℕ) → F (i + j) k ≡ some v
      → existing ≡ some k
  unfolding check_keys
  check_keys-IsFresh existing i [] vs F t tracks schema checks passed j c v here on cell k at_k =
      absurd (ground (arith, here))
  check_keys-IsFresh existing i (d ∷ cs) [] F t tracks schema checks passed j c v here on cell k
        at_k =
      absurd (ground (arith, cell))
  check_keys-IsFresh existing i (d ∷ cs) (w ∷ vs) F t tracks schema checks passed zero c v here on
        cell k at_k =
      elim (Result-cases (check_key ops i d w existing t)) [
        | inr (err, e) ↦ absurd (ground (arith, passed, e))
        | inl (u, e) ↦
            let same_column : d ≡ c = ground (arith, here) in
            let same_value : w ≡ v = ground (arith, cell) in
            let d_on : d.indexed ≡ true = rw same_column on in
            let at_i : F i k ≡ some w =
              ap (λ x. F x k) (omega arith) ∙ at_k ∙ ap some (sym same_value) in
            check_key-IsFresh existing i d w F t tracks (behind t.schema d cs i schema).0 d_on
              ((check_cells-IsKey d cs w vs checks).0 d_on) e k at_i
      ]
  check_keys-IsFresh existing i (d ∷ cs) (w ∷ vs) F t tracks schema checks passed (suc j) c v here
        on cell k at_k =
      elim (Result-cases (check_key ops i d w existing t)) [
        | inr (err, e) ↦ absurd (ground (arith, passed, e))
        | inl (u, e) ↦
            check_keys-IsFresh existing (suc i) cs vs F t tracks (behind t.schema d cs i schema).1
              (check_cells-IsKey d cs w vs checks).1 (ground (arith, passed, e)) j c v here on cell
              k (ap (λ x. F x k) (omega arith) ∙ at_k)
      ]

  enforce_constraints-checks :
      (row : Row) (existing : Option ℕ) (t : Table ops.Index)
      → enforce_constraints ops row existing t ≡ ok tt
      → check_keys ops 0 t.schema row existing t ≡ ok tt
  unfolding enforce_constraints
  enforce_constraints-checks row existing t h =
      let (lens, checks) = enforce_constraints-Fits ops row existing t h in
      ground (arith, h, checks, lens, ==_iff (length row) (length t.schema))

  -- A record that passes the checks has no key of another row in an indexed column.
  pub enforce_constraints-IsFresh :
      (row : Row) (existing : Option ℕ) (t : Table ops.Index)
      → Agrees t
      → enforce_constraints ops row existing t ≡ ok tt
      → (col : ℕ) (c : ColumnDef) (v : Value) → get_elem? t.schema col ≡ some c
      → c.indexed ≡ true
      → get_elem? row col ≡ some v
      → (k : ℕ) → column_of t.records col k ≡ some v
      → existing ≡ some k
  enforce_constraints-IsFresh row existing t agrees passed col c v here on cell k at_k =
      check_keys-IsFresh existing 0 t.schema row (column_of t.records) t agrees
        (λ j. ap (get_elem? t.schema) (omega arith))
        (enforce_constraints-Fits ops row existing t passed).1
        (enforce_constraints-checks row existing t passed) col c v here on cell k
        (ap (λ x. column_of t.records x k) (omega arith) ∙ at_k)

  moved :
      (F : ℕ → Column) (t : Table ops.Index) (records : List (ℕ × Row)) (order : List ℕ)
      (next_id : ℕ)
      → Tracks ops laws F t
      → Tracks ops laws F (record t { records = records; order = order; next_id = next_id })
  moved F t records order next_id tracks = record { bound = tracks.bound; follows = tracks.follows }

  -- A row put into the indexes, where the columns have nothing for its id.
  install_row-Tracks :
      (id : ℕ) (row : Row) (F : ℕ → Column) (t : Table ops.Index)
      → Tracks ops laws F t
      → Fits t.schema row
      → ((col : ℕ) → F col id ≡ none)
      → IsFresh ops laws id row 0 F t.schema
      → HaveRoom ops laws id row 0 t
      → (install_from ops 0 t.schema id row t).0 ≡ ok tt
      → Tracks ops laws
          (λ col. with_cell id (get_elem? row col) (F col))
          (install_from ops 0 t.schema id row t).1
  install_row-Tracks id row F t tracks fits free fresh room returns =
      Tracks-ext ops laws (pending ops laws id (get_elem? row) 0 F) _
        (install_from ops 0 t.schema id row t).1 (λ col c here on j. ground arith)
        (install_from-Tracks ops laws id row 0 t.schema row F t tracks
          (λ j. ap (get_elem? t.schema) (omega arith)) (λ j. ap (get_elem? row) (omega arith))
          fits.0 fits.1 (λ col le. free col) fresh room returns)

  remove_row-Tracks :
      (id : ℕ) (row : Row) (F : ℕ → Column) (t : Table ops.Index)
      → Tracks ops laws F t
      → Fits t.schema row
      → ((col : ℕ) → F col id ≡ get_elem? row col)
      → (remove_from ops 0 t.schema row t).0 ≡ ok tt
      → Tracks ops laws (λ col. with_cell id none (F col)) (remove_from ops 0 t.schema row t).1
  remove_row-Tracks id row F t tracks fits stands returns =
      Tracks-ext ops laws (pending ops laws id (λ _. none) 0 F) _
        (remove_from ops 0 t.schema row t).1 (λ col c here on j. ground arith)
        (remove_from-Tracks ops laws id row 0 t.schema row F t tracks
          (λ j. ap (get_elem? t.schema) (omega arith)) (λ j. ap (get_elem? row) (omega arith))
          fits.0 fits.1 (λ col le. stands col) returns)

  -- Columns that are those of the records.
  Tracks-Agrees :
      (F : ℕ → Column) (t : Table ops.Index)
      → ((col j : ℕ) → F col j ≡ column_of t.records col j)
      → Tracks ops laws F t
      → Agrees t
  Tracks-Agrees F t same =
      Tracks-ext ops laws F (column_of t.records) t (λ col c here on j. same col j)

  -- With index operations that keep their laws, an insertion that returns, on a valid table whose
  -- indexes agree with its rows and have room for the keys of the new row, leaves indexes that agree with the rows.
  pub insert-Agrees :
      (row : Row) (t : Table ops.Index) (id : ℕ)
      → IsValid t
      → Agrees t
      → HaveRoom ops laws t.next_id row 0 t
      → (insert ops row t).0 ≡ ok id
      → Agrees (insert ops row t).1
  unfolding insert column_of
  insert-Agrees row t id v agrees room h =
      let (_, passed, same_checked) = after-ok ops (enforce_constraints ops row none t) _ t id h in
      let free : find t.next_id t.records ≡ none =
        ground (arith, v.listed t.next_id, v.below t.next_id) in
      let start = added ops t.next_id row t in
      let there = entry_or ops row (find t.next_id t.records) in
      let same_row : there ≡ row = ap (entry_or ops row) free in
      let m = install_from ops 0 t.schema t.next_id there start in
      let (_, installed, same_last) =
        and_then-ok ops m (λ _ u. (ok t.next_id, u)) id (ap (λ x. x.0) (sym same_checked) ∙ h) in
      let m' = install_from ops 0 t.schema t.next_id row start in
      let same_m : m ≡ m' = ap (λ r. install_from ops 0 t.schema t.next_id r start) same_row in
      let s = install_from-SameRows ops 0 t.schema t.next_id row start in
      let tracks =
        install_row-Tracks t.next_id row (column_of t.records) start
          (moved (column_of t.records) t start.records start.order start.next_id agrees)
          (enforce_constraints-Fits ops row none t passed) (λ col. ap (λ r. cell_in r col) free)
          (λ col c w le here on cell k at_k. absurd (
            ground (
              arith,
              enforce_constraints-IsFresh row none t agrees passed col c w here on cell k at_k,
            )))
          room (ap (λ x. x.0) (sym same_m) ∙ installed) in
      subst Agrees (sym (ap (λ x. x.1) (same_checked ∙ same_last) ∙ ap (λ x. x.1) same_m)) (
        Tracks-Agrees _ m'.1
          (λ col j. sym (
            ap (λ r. cell_in (find j r) col) s.records_eq
            ∙ ap (λ r. cell_in r col) (find-emplace t.next_id j row t.records free)
            ∙ ground (arith, ==_iff t.next_id j)))
          tracks)

  -- Behind the removal of the old row there is room for the one that an update puts in its place.
  abbrev pub UpdateRoom : ℕ → List (ℕ × Value) → Table ops.Index → Type 0
  UpdateRoom id as_ t =
      (old row : Row)
      → find id t.records ≡ some old
      → assign_all as_ old ≡ ok row
      → HaveRoom ops laws id row 0 (remove_from ops 0 t.schema old t).1

  replace_row-Agrees :
      (id : ℕ) (old row : Row) (t : Table ops.Index)
      → IsValid t
      → Agrees t
      → HaveRoom ops laws id row 0 (remove_from ops 0 t.schema old t).1
      → find id t.records ≡ some old
      → enforce_constraints ops row (some id) t ≡ ok tt
      → (replace_row ops id old row t).0 ≡ ok tt
      → Agrees (replace_row ops id old row t).1
  unfolding column_of
  replace_row-Agrees id old row t v agrees room here passed h =
      let m = remove_from ops 0 t.schema old t in
      let u = m.1 in
      let s = remove_from-SameRows ops 0 t.schema old t in
      let w = record u { records = assign id row u.records } in
      let (_, removed, same_last) =
        and_then-ok ops m
          (λ _ x.
            install_from ops 0 x.schema id row (record x { records = assign id row x.records }))
          tt h in
      let F = λ (col : ℕ). with_cell id none (column_of t.records col) in
      let out =
        remove_row-Tracks id old (column_of t.records) t agrees (v.rows id old here)
          (λ col. ap (λ r. cell_in r col) here) removed in
      let fits : Fits w.schema row =
        rw s.schema_eq (enforce_constraints-Fits ops row (some id) t passed) in
      let tracks =
        install_row-Tracks id row F w (moved F u w.records w.order w.next_id out) fits
          (λ col. ground (arith, ==_iff id id))
          (λ col c x le there on cell k at_k. elim (Bool-cases (id == k)) [
            | inl same ↦ absurd (ground (arith, at_k, same))
            | inr other ↦
                let at_old : column_of t.records col k ≡ some x = ground (arith, at_k, other) in
                let mine =
                  enforce_constraints-IsFresh row (some id) t agrees passed col c x
                    (ap (λ y. get_elem? y col) (sym s.schema_eq) ∙ there) on cell k at_old in
                absurd (ground (arith, mine, other, ==_iff id k))
          ])
          room (ap (λ x. x.0) (sym same_last) ∙ h) in
      let s' = install_from-SameRows ops 0 w.schema id row w in
      let there : find id u.records ≡ some old = ap (find id) s.records_eq ∙ here in
      subst Agrees (sym (ap (λ x. x.1) same_last)) (
        Tracks-Agrees _ (install_from ops 0 w.schema id row w).1
          (λ col j. sym (
            ap (λ r. cell_in (find j r) col) s'.records_eq
            ∙ ap (λ r. cell_in r col) (find-assign id j row old u.records there)
            ∙ ap (λ r. cell_in (if id == j then some row else find j r) col) s.records_eq
            ∙ ground (arith, ==_iff id j)))
          tracks)

  update_found-Agrees :
      (found : Option Row) (id : ℕ) (as_ : List (ℕ × Value)) (t : Table ops.Index)
      → IsValid t
      → Agrees t
      → UpdateRoom id as_ t
      → find id t.records ≡ found
      → (update_found ops found id as_ t).0 ≡ ok tt
      → Agrees (update_found ops found id as_ t).1
  update_found-Agrees none id as_ t v agrees room here h = agrees
  update_found-Agrees (some old) id as_ t v agrees room here h =
      let (row, assigned, e) = after-ok ops (assign_all as_ old) _ t tt h in
      let h' = ap (λ x. x.0) (sym e) ∙ h in
      let (_, passed, e') =
        after-ok ops (enforce_constraints ops row (some id) t) (λ _. replace_row ops id old row) t
          tt h' in
      subst Agrees (sym (ap (λ x. x.1) (e ∙ e'))) (
        replace_row-Agrees id old row t v agrees (room old row here assigned) here passed
          (ap (λ x. x.0) (sym e') ∙ h'))

  -- With index operations that keep their laws, an update that returns, on a valid table whose
  -- indexes agree with its rows and, without the old row, have room for the keys of the new one, leaves indexes that agree with the rows.
  pub update-Agrees :
      (id : ℕ) (as_ : List (ℕ × Value)) (t : Table ops.Index)
      → IsValid t
      → Agrees t
      → UpdateRoom id as_ t
      → (update ops id as_ t).0 ≡ ok tt
      → Agrees (update ops id as_ t).1
  unfolding update
  update-Agrees id as_ t v agrees room h =
      update_found-Agrees (find id t.records) id as_ t v agrees room refl h

  erase_found-Agrees :
      (found : Option Row) (id : ℕ) (t : Table ops.Index)
      → IsValid t
      → Agrees t
      → find id t.records ≡ found
      → (erase_found ops found id t).0 ≡ ok tt
      → Agrees (erase_found ops found id t).1
  unfolding column_of
  erase_found-Agrees none id t v agrees here h = agrees
  erase_found-Agrees (some row) id t v agrees here h =
      let m = remove_from ops 0 t.schema row t in
      let s = remove_from-SameRows ops 0 t.schema row t in
      let (_, removed, same_last) = and_then-ok ops m _ tt h in
      let out =
        remove_row-Tracks id row (column_of t.records) t agrees (v.rows id row here)
          (λ col. ap (λ r. cell_in r col) here) removed in
      let u = record m.1 { records = erase id m.1.records; order = remove id m.1.order } in
      subst Agrees (sym (ap (λ x. x.1) same_last)) (
        Tracks-Agrees _ u
          (λ col j. sym (
            ap (λ r. cell_in r col) (find-erase id j m.1.records)
            ∙ ap (λ r. cell_in (if id == j then none else find j r) col) s.records_eq
            ∙ ground (arith, ==_iff id j)))
          (moved _ m.1 u.records u.order u.next_id out))

  -- With index operations that keep their laws, an erasure that returns, on a valid table whose
  -- indexes agree with its rows, leaves indexes that agree with the rows.
  pub erase_row-Agrees :
      (id : ℕ) (t : Table ops.Index)
      → IsValid t
      → Agrees t
      → (erase_row ops id t).0 ≡ ok tt
      → Agrees (erase_row ops id t).1
  unfolding erase_row
  erase_row-Agrees id t v agrees h = erase_found-Agrees (find id t.records) id t v agrees refl h
