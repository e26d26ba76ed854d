-- ===== src/Storage/Table/Follow.antt =====
-- The loops that put the keys of a row into the indexes and take them out: `install_into_indexes` and
-- `remove_from_indexes` of src/storage/table.cpp.
use cw_db.Prelude.{
  ℕ, suc, ◌+◌, ◌-◌, ◌≤◌, ◌≡◌, ◌≢◌, refl, true, false, List, [], ◌∷◌, Option, none, some, inl, inr,
  ◌==◌, ltb, if◌then◌else◌, length, get_elem?, arith, ap, sym, subst, ◌∙◌, Bool-cases, ==_iff,
}
use cw_db.Prelude.Map.{find, find-assign, nat_eq}
use cw_db.Prelude.Error.{Result, ok, throw, ◌>>=◌, Result-cases}
use cw_db.Core.Value.{Value}
use cw_db.Sql.Schema.{ColumnDef, TableSchema}
use cw_db.Sql.Where.{Row}
use cw_db.Storage.Table.{
  IndexOps, Table, and_then, check_cell, check_cells, change_index, install_from, remove_from,
}
use cw_db.Storage.Table.Steps.{install_from-SameRows, remove_from-SameRows}
use cw_db.Storage.Table.Laws.{IndexLaws, IsKey}
use cw_db.Storage.Table.Stores.{and_then-ok}
use cw_db.Storage.Table.Tracks.{
  Column, with_cell, Tracks, Tracks-ext, with_index, change_index-eq, with_index-Tracks,
  add-Follows, drop-Follows, pending, pending_done, pending_skip,
}

-- A row that passes the checks has a key in each indexed column.
pub check_cells-IsKey :
    (c : ColumnDef) (cs : TableSchema) (v : Value) (vs : Row)
    → check_cells (c ∷ cs) (v ∷ vs) ≡ ok tt
    → (c.indexed ≡ true → IsKey c.type v) × (check_cells cs vs ≡ ok tt)
unfolding check_cells
check_cells-IsKey c cs v vs h = elim (Result-cases (check_cell c v)) [
  | inl (u, e) ↦ (λ on. ground (arith, e, on), ground (arith, h, e))
  | inr (err, e) ↦ absurd (ground (arith, h, e))
]

bind_unit-ok : {A : Type 0} (r : Result A) → (r >>= λ _. ok tt) ≡ ok (tt {0}) → (a : A) × (r ≡ ok a)
bind_unit-ok (ok a) h = (a, refl)
bind_unit-ok (throw e) h = absurd (ground arith)

-- What a list has behind its first element.
pub behind {ℓ} :
    {A : Type ℓ} (all : List A) (x : A) (xs : List A) (i : ℕ)
    → ((j : ℕ) → get_elem? all (i + j) ≡ get_elem? (x ∷ xs) j)
    → (get_elem? all i ≡ some x) × ((j : ℕ) → get_elem? all (suc i + j) ≡ get_elem? xs j)
behind all x xs i same = (
  ap (get_elem? all) (omega arith) ∙ same 0,
  λ j. ap (get_elem? all) (omega arith) ∙ same (suc j),
)

module _ (ops : IndexOps) (laws : IndexLaws ops) (id : ℕ) (g : ℕ → Option Value) where
  -- One change of an index, and what comes behind it.
  index_round :
      {A : Type 0} (F : ℕ → Column) (t : Table ops.Index) (i : ℕ) (c : ColumnDef) (idx : ops.Index)
      (change : ops.Index → Result A × ops.Index)
      (next : Table ops.Index → Result (Unit {0}) × Table ops.Index)
      → Tracks ops laws F t
      → get_elem? t.schema i ≡ some c
      → c.indexed ≡ true
      → find i t.indexes ≡ some idx
      → (and_then (change_index ops i change t) (λ _. next)).0 ≡ ok tt
      → (a : A) × ((change idx).0 ≡ ok a)
        × (and_then (change_index ops i change t) (λ _. next)
            ≡ next (with_index ops laws i (change idx).1 t))
  index_round F t i c idx change next tracks here on found returns =
      let step = change_index-eq ops laws F t i c idx change tracks here on found in
      let (_, first, last) = and_then-ok ops (change_index ops i change t) (λ _. next) tt returns in
      let (a, changed) = bind_unit-ok (change idx).0 (sym (ap (λ m. m.0) step) ∙ first) in
      (a, changed, last ∙ ap (λ m. next m.1) step)

  -- The columns past the end of the schema do not matter.
  pending_end :
      (i : ℕ) (F : ℕ → Column) (t : Table ops.Index)
      → Tracks ops laws F t
      → ((j : ℕ) → get_elem? t.schema (i + j) ≡ none)
      → Tracks ops laws (pending ops laws id g i F) t
  pending_end i F t tracks schema =
      Tracks-ext ops laws F (pending ops laws id g i F) t
        (λ col c here on j. elim (Bool-cases (ltb col i)) [
          | inl left ↦ rw left refl
          | inr right ↦
              let back : i + (col - i) ≡ col = ground arith in
              let missing : get_elem? t.schema col ≡ none =
                ap (get_elem? t.schema) (sym back) ∙ schema (col - i) in
              absurd (ground (arith, here, missing))
        ])
        tracks

  pending_next :
      (i : ℕ) (F : ℕ → Column) (t : Table ops.Index)
      → Tracks ops laws
          (pending ops laws id g (suc i) (λ k. if i == k then with_cell id (g i) (F i) else F k))
          t
      → Tracks ops laws (pending ops laws id g i F) t
  pending_next i F t =
      Tracks-ext ops laws
        (pending ops laws id g (suc i) (λ k. if i == k then with_cell id (g i) (F i) else F k))
        (pending ops laws id g i F) t (λ col c here on j. pending_done ops laws id g i F col j)

  -- A column that is not indexed is passed over.
  pending_over :
      (i : ℕ) (c : ColumnDef) (F : ℕ → Column) (t : Table ops.Index)
      → get_elem? t.schema i ≡ some c
      → c.indexed ≡ false
      → Tracks ops laws (pending ops laws id g (suc i) F) t
      → Tracks ops laws (pending ops laws id g i F) t
  pending_over i c F t here off =
      Tracks-ext ops laws (pending ops laws id g (suc i) F) (pending ops laws id g i F) t
        λ col d there on j.
          pending_skip ops laws id g i F col j
            λ same. absurd (ground (arith, here, there, same, off, on))

module _ (ops : IndexOps) (laws : IndexLaws ops) (id : ℕ) (row : Row) where
  abbrev pub IsFresh : ℕ → (ℕ → Column) → TableSchema → Type 0
  IsFresh i F schema =
      (col : ℕ) (c : ColumnDef) (v : Value)
      → i ≤ col
      → get_elem? schema col ≡ some c
      → c.indexed ≡ true
      → get_elem? row col ≡ some v
      → (k : ℕ) → F col k ≢ some v

  -- The index of each indexed column has room for the key of the row.
  abbrev pub HaveRoom : ℕ → Table ops.Index → Type 0
  HaveRoom i t =
      (col : ℕ) (c : ColumnDef) (v : Value) (idx : ops.Index)
      → i ≤ col
      → get_elem? t.schema col ≡ some c
      → c.indexed ≡ true
      → get_elem? row col ≡ some v
      → find col t.indexes ≡ some idx
      → laws.HasRoom idx v id

  -- The keys of a row that stands nowhere yet go into the indexes, if all insertions return.
  pub install_from-Tracks :
      (i : ℕ) (cs : TableSchema) (vs : Row) (F : ℕ → Column) (t : Table ops.Index)
      → Tracks ops laws F t
      → ((j : ℕ) → get_elem? t.schema (i + j) ≡ get_elem? cs j)
      → ((j : ℕ) → get_elem? row (i + j) ≡ get_elem? vs j)
      → length vs ≡ length cs
      → check_cells cs vs ≡ ok tt
      → ((col : ℕ) → i ≤ col → F col id ≡ none)
      → IsFresh i F t.schema
      → HaveRoom i t
      → (install_from ops i cs id vs t).0 ≡ ok tt
      → Tracks ops laws (pending ops laws id (get_elem? row) i F) (install_from ops i cs id vs t).1
  unfolding install_from
  install_from-Tracks i [] vs F t tracks schema cells lens checks free fresh room returns =
      pending_end ops laws id (get_elem? row) i F t tracks schema
  install_from-Tracks i (c ∷ cs) [] F t tracks schema cells lens checks free fresh room returns =
      absurd (omega arith)
  install_from-Tracks i (c ∷ cs) (v ∷ vs) F t tracks schema cells lens checks free fresh room
        returns =
      let (here, schema') = behind t.schema c cs i schema in
      let (cell, cells') = behind row v vs i cells in
      let (key, checks') = check_cells-IsKey c cs v vs checks in
      let next = install_from ops (suc i) cs id vs in
      let Goal : Result (Unit {0}) × Table ops.Index → Type 0 =
        λ m. Tracks ops laws (pending ops laws id (get_elem? row) i F) m.1 in
      elim (Bool-cases c.indexed) [
        | inr off ↦
            let skip : install_from ops i (c ∷ cs) id (v ∷ vs) t ≡ next t = ground (arith, off) in
            let same = install_from-SameRows ops (suc i) cs id vs t in
            subst Goal (sym skip) (
              pending_over ops laws id (get_elem? row) i c F (next t).1
                (ap (λ x. get_elem? x i) same.schema_eq ∙ here) off
                (install_from-Tracks (suc i) cs vs F t tracks schema' cells' (omega arith) checks'
                  (λ col le. free col (omega arith)) (λ col d w le. fresh col d w (omega arith))
                  (λ col d w x le. room col d w x (omega arith))
                  (ap (λ m. m.0) (sym skip) ∙ returns)))
        | inl on ↦
            let is_key = key on in
            let (idx, found, follows) = tracks.follows i c here on in
            let go : install_from ops i (c ∷ cs) id (v ∷ vs) t
                ≡ and_then (change_index ops i (ops.add v id) t) (λ _. next) =
              ground (arith, on, is_key.0) in
            let (_, added, round) =
              index_round ops laws id (get_elem? row) F t i c idx (ops.add v id) next tracks here on
                found (ap (λ m. m.0) (sym go) ∙ returns) in
            let free_i : F i id ≡ none = free i (omega arith) in
            let follows' =
              add-Follows ops laws c.type (F i) idx v id follows is_key
                (λ w _ h. ground (arith, free_i, h)) (fresh i c v (omega arith) here on cell)
                (room i c v idx (omega arith) here on cell found) added in
            let f = with_cell id (get_elem? row i) (F i) in
            let u = with_index ops laws i (ops.add v id idx).1 t in
            let tracks' =
              with_index-Tracks ops laws F t i c idx (ops.add v id idx).1 f tracks here found
                (rw cell follows') in
            subst Goal (sym (go ∙ round)) (
              pending_next ops laws id (get_elem? row) i F (next u).1 (
                install_from-Tracks (suc i) cs vs (λ k. if i == k then f else F k) u tracks' schema'
                  cells' (omega arith) checks' (λ col le. ground (arith, free col, ==_iff i col))
                  (λ col d w le there d_on w_here k.
                    ground (arith, fresh col d w (omega arith) there d_on w_here k, ==_iff i col))
                  (λ col d w x le there d_on w_here there_x.
                    room col d w x (omega arith) there d_on w_here (
                      sym (
                        find-assign i col (ops.add v id idx).1 idx t.indexes found
                        ∙ ground (arith, ==_iff i col, le))
                      ∙ there_x))
                  (ap (λ m. m.0) (sym (go ∙ round)) ∙ returns)))
      ]

  -- The keys of a row that stands in the columns are taken out of the indexes, if all erasures return.
  pub remove_from-Tracks :
      (i : ℕ) (cs : TableSchema) (vs : Row) (F : ℕ → Column) (t : Table ops.Index)
      → Tracks ops laws F t
      → ((j : ℕ) → get_elem? t.schema (i + j) ≡ get_elem? cs j)
      → ((j : ℕ) → get_elem? row (i + j) ≡ get_elem? vs j)
      → length vs ≡ length cs
      → check_cells cs vs ≡ ok tt
      → ((col : ℕ) → i ≤ col → F col id ≡ get_elem? row col)
      → (remove_from ops i cs vs t).0 ≡ ok tt
      → Tracks ops laws (pending ops laws id (λ _. none) i F) (remove_from ops i cs vs t).1
  unfolding remove_from
  remove_from-Tracks i [] vs F t tracks schema cells lens checks stands returns =
      pending_end ops laws id (λ _. none) i F t tracks schema
  remove_from-Tracks i (c ∷ cs) [] F t tracks schema cells lens checks stands returns =
      absurd (omega arith)
  remove_from-Tracks i (c ∷ cs) (v ∷ vs) F t tracks schema cells lens checks stands returns =
      let (here, schema') = behind t.schema c cs i schema in
      let (cell, cells') = behind row v vs i cells in
      let (key, checks') = check_cells-IsKey c cs v vs checks in
      let next = remove_from ops (suc i) cs vs in
      let Goal : Result (Unit {0}) × Table ops.Index → Type 0 =
        λ m. Tracks ops laws (pending ops laws id (λ _. none) i F) m.1 in
      elim (Bool-cases c.indexed) [
        | inr off ↦
            let skip : remove_from ops i (c ∷ cs) (v ∷ vs) t ≡ next t = ground (arith, off) in
            let same = remove_from-SameRows ops (suc i) cs vs t in
            subst Goal (sym skip) (
              pending_over ops laws id (λ _. none) i c F (next t).1
                (ap (λ x. get_elem? x i) same.schema_eq ∙ here) off
                (remove_from-Tracks (suc i) cs vs F t tracks schema' cells' (omega arith) checks'
                  (λ col le. stands col (omega arith)) (ap (λ m. m.0) (sym skip) ∙ returns)))
        | inl on ↦
            let is_key = key on in
            let (idx, found, follows) = tracks.follows i c here on in
            let go : remove_from ops i (c ∷ cs) (v ∷ vs) t
                ≡ and_then (change_index ops i (ops.drop_key v) t) (λ _. next) =
              ground (arith, on, is_key.0) in
            let (b, dropped, round) =
              index_round ops laws id (λ _. none) F t i c idx (ops.drop_key v) next tracks here on
                found (ap (λ m. m.0) (sym go) ∙ returns) in
            let follows' =
              drop-Follows ops laws c.type (F i) idx v id b follows is_key
                (stands i (omega arith) ∙ cell) dropped in
            let f = with_cell id none (F i) in
            let u = with_index ops laws i (ops.drop_key v idx).1 t in
            let tracks' =
              with_index-Tracks ops laws F t i c idx (ops.drop_key v idx).1 f tracks here found
                follows' in
            subst Goal (sym (go ∙ round)) (
              pending_next ops laws id (λ _. none) i F (next u).1
                (remove_from-Tracks (suc i) cs vs (λ k. if i == k then f else F k) u tracks' schema'
                  cells' (omega arith) checks' (λ col le. ground (arith, stands col, ==_iff i col))
                  (ap (λ m. m.0) (sym (go ∙ round)) ∙ returns)))
      ]
