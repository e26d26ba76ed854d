-- ===== src/Storage/Table/Tracks.antt =====
-- Indexes that follow the columns of the rows: the changes of the indexes in src/storage/table.cpp.
use cw_db.Prelude.{
  ℕ, suc, ◌+◌, ◌≡◌, ◌≢◌, refl, ◌↔◌, Bool, true, not, [], ◌∷◌, Option, none, some, inl, inr, ◌==◌,
  ltb, if◌then◌else◌, get_elem?, arith, ap, ◌∙◌, Bool-cases, Option-cases, ==_iff,
}
use cw_db.Prelude.Map.{find, assign, find-assign, nat_eq}
use cw_db.Prelude.Error.{Result, ok, throw, ◌>>=◌, not_indexed, path_not_bound}
use cw_db.Core.Value.{Value, DataType, eq_value}
use cw_db.Core.Value.Order.{eq_value_iff}
use cw_db.Sql.Schema.{ColumnDef, TableSchema, column_is_indexed}
use cw_db.Storage.Table.{
  IndexOps, Table, and_then, open_from, open_indexes, change_at, change_index,
}
use cw_db.Storage.Table.Laws.{IndexLaws, IsKey}

-- A column by the ids of its rows.
abbrev pub Column : Type 0
Column = ℕ → Option Value

abbrev pub with_cell : ℕ → Option Value → Column → Column
with_cell id w f j = if id == j then w else f j

module _ (ops : IndexOps) (laws : IndexLaws ops) where
  -- The index has a key for an id exactly where the column has it.
  pub record Follows (ty : DataType) (f : Column) (idx : ops.Index) : Type 0 where
    pub sound : laws.IsSound ty idx
    pub agrees : (v : Value) → IsKey ty v → (id : ℕ) → (laws.view idx v ≡ some id) ↔ (f id ≡ some v)

  -- A key that is added for an id without one.
  pub add-Follows :
      (ty : DataType) (f : Column) (idx : ops.Index) (v : Value) (id : ℕ)
      → Follows ty f idx
      → IsKey ty v
      → ((w : Value) → IsKey ty w → f id ≢ some w)
      → ((j : ℕ) → f j ≢ some v)
      → laws.HasRoom idx v id
      → (ops.add v id idx).0 ≡ ok tt
      → Follows ty (with_cell id (some v) f) (ops.add v id idx).1
  add-Follows ty f idx v id follows key free fresh room returns =
      let missing : laws.view idx v ≡ none = elim (Option-cases (laws.view idx v)) [
        | inl e ↦ e
        | inr (j, e) ↦ absurd (fresh j ((follows.agrees v key j).0 e))
      ] in
      let next = ops.add v id idx in
      record {
        sound = laws.add_sound ty idx v id follows.sound key room missing returns;
        agrees = λ k k_key j.
            let seen : laws.view next.1 k ≡ (if eq_value v k then some id else laws.view idx k) =
              laws.add_view ty idx v k id follows.sound key room missing returns in
            let old = follows.agrees k k_key j in
            elim (Bool-cases (eq_value v k)) [
              | inl same ↦
                  let e : v ≡ k = (eq_value_iff v k).0 same in
                  (
                    λ h. ground (arith, seen, same, e, ==_iff id j),
                    λ h. ground (arith, seen, same, e, ==_iff id j, fresh j),
                  )
              | inr other ↦ (
                λ h. ground (arith, seen, other, old, ==_iff id j, free k k_key),
                λ h. ground (arith, seen, other, old, ==_iff id j, eq_value_iff v k),
              )
            ];
      }

  -- The key of an id that is taken out.
  pub drop-Follows :
      (ty : DataType) (f : Column) (idx : ops.Index) (v : Value) (id : ℕ) (b : Bool)
      → Follows ty f idx
      → IsKey ty v
      → f id ≡ some v
      → (ops.drop_key v idx).0 ≡ ok b
      → Follows ty (with_cell id none f) (ops.drop_key v idx).1
  drop-Follows ty f idx v id b follows key here returns =
      let mine : laws.view idx v ≡ some id = (follows.agrees v key id).1 here in
      let next = ops.drop_key v idx in
      record {
        sound = laws.drop_sound ty idx v id b follows.sound key mine returns;
        agrees = λ k k_key j.
            let seen : laws.view next.1 k ≡ (if eq_value v k then none else laws.view idx k) =
              laws.drop_view ty idx v k id b follows.sound key mine returns in
            let old = follows.agrees k k_key j in
            elim (Bool-cases (eq_value v k)) [
              | inl same ↦
                  let e : v ≡ k = (eq_value_iff v k).0 same in
                  (
                    λ h. absurd (ground (arith, seen, same)),
                    λ h. absurd (ground (arith, e, mine, old, ==_iff id j)),
                  )
              | inr other ↦ (
                λ h. ground (arith, seen, other, old, ==_iff id j, here, eq_value_iff v k),
                λ h. ground (arith, seen, other, old, ==_iff id j),
              )
            ];
      }

  Follows-ext :
      (ty : DataType) (f g : Column) (idx : ops.Index)
      → ((j : ℕ) → f j ≡ g j)
      → Follows ty f idx
      → Follows ty g idx
  Follows-ext ty f g idx same follows = record {
    sound = follows.sound;
    agrees = λ v key id. rw (same id) at (follows.agrees v key id);
  }

  -- Every indexed column has its index open, and the index follows the column.
  pub record Tracks (F : ℕ → Column) (t : Table ops.Index) : Type 0 where
    pub bound : t.bound ≡ true
    pub follows :
        (col : ℕ) (c : ColumnDef)
        → get_elem? t.schema col ≡ some c
        → c.indexed ≡ true
        → (idx : ops.Index) × (find col t.indexes ≡ some idx) × Follows c.type (F col) idx

  pub Tracks-ext :
      (F G : ℕ → Column) (t : Table ops.Index)
      → ((col : ℕ) (c : ColumnDef)
          → get_elem? t.schema col ≡ some c
          → c.indexed ≡ true
          → (j : ℕ) → F col j ≡ G col j)
      → Tracks F t
      → Tracks G t
  Tracks-ext F G t same tracks = record {
    bound = tracks.bound;
    follows = λ col c here on.
        let (idx, found, follows) = tracks.follows col c here on in
        (idx, found, Follows-ext c.type (F col) (G col) idx (same col c here on) follows);
  }

  open_from-present :
      (i : ℕ) (cs : TableSchema) (t : Table ops.Index)
      → ((j : ℕ) (c : ColumnDef)
          → get_elem? cs j ≡ some c
          → c.indexed ≡ true
          → (idx : ops.Index) × (find (i + j) t.indexes ≡ some idx))
      → open_from ops i cs t ≡ (ok tt, t)
  unfolding open_from
  open_from-present i [] t present = refl
  open_from-present i (c ∷ cs) t present =
      let rest = open_from-present (suc i) cs t λ j d here on.
        let (idx, found) = present (suc j) d here on in
        (idx, ap (λ k. find k t.indexes) (omega arith) ∙ found) in
      elim (Option-cases (find i t.indexes)) [
        | inr (idx, found) ↦ rw found rest
        | inl missing ↦ elim (Bool-cases c.indexed) [
          | inr off ↦ rw (missing, off) rest
          | inl on ↦
              let (idx, found) = present 0 c refl on in
              let found_i : find i t.indexes ≡ some idx =
                ap (λ k. find k t.indexes) (omega arith) ∙ found in
              absurd (ground arith)
        ]
      ]

  open_indexes-Tracks :
      (F : ℕ → Column) (t : Table ops.Index) → Tracks F t → open_indexes ops t ≡ (ok tt, t)
  unfolding open_indexes
  open_indexes-Tracks F t tracks =
      ap (λ b. if b then open_from ops 0 t.schema t else (ok tt, t)) tracks.bound
      ∙ open_from-present 0 t.schema t λ j c here on.
        let (idx, found, _) = tracks.follows j c here on in
        (idx, ap (λ k. find k t.indexes) (omega arith) ∙ found)

  abbrev pub with_index : ℕ → ops.Index → Table ops.Index → Table ops.Index
  with_index col idx t = record t { indexes = assign col idx t.indexes }

  pub change_index-eq :
      {A : Type 0} (F : ℕ → Column) (t : Table ops.Index) (col : ℕ) (c : ColumnDef)
      (idx : ops.Index) (change : ops.Index → Result A × ops.Index)
      → Tracks F t
      → get_elem? t.schema col ≡ some c
      → c.indexed ≡ true
      → find col t.indexes ≡ some idx
      → change_index ops col change t
        ≡ (((change idx).0 >>= λ _. ok tt), with_index col (change idx).1 t)
  unfolding change_index column_is_indexed
  change_index-eq F t col c idx change tracks here on found =
      let body =
        λ (x : Unit {0}) (u : Table ops.Index). change_at ops col change (find col u.indexes) u in
      let is_on : column_is_indexed t.schema col ≡ true = ground (arith, here, on) in
      ap
        (λ b.
          if not b
          then (throw not_indexed, t)
          else if not t.bound
          then (throw path_not_bound, t)
          else and_then (open_indexes ops t) body)
        is_on
      ∙ ap (λ b. if not b then (throw path_not_bound, t) else and_then (open_indexes ops t) body)
          tracks.bound
      ∙ ap (λ m. and_then m body) (open_indexes-Tracks F t tracks)
      ∙ ap (λ o. change_at ops col change o t) found

  -- An index that follows a new column takes the place of the old one.
  pub with_index-Tracks :
      (F : ℕ → Column) (t : Table ops.Index) (col : ℕ) (c : ColumnDef) (old idx : ops.Index)
      (f : Column)
      → Tracks F t
      → get_elem? t.schema col ≡ some c
      → find col t.indexes ≡ some old
      → Follows c.type f idx
      → Tracks (λ k. if col == k then f else F k) (with_index col idx t)
  with_index-Tracks F t col c old idx f tracks here found follows = record {
    bound = tracks.bound;
    follows = λ k d there on. elim (Bool-cases (col == k)) [
      | inl same ↦
          let e : col ≡ k = (==_iff col k).0 same in
          let same_column : c ≡ d = ground (arith, e) in
          (
            idx,
            rw (find-assign col k idx old t.indexes found, same) refl,
            rw (same, ← same_column) follows,
          )
      | inr other ↦
          let (idx', found', follows') = tracks.follows k d there on in
          (idx', rw (find-assign col k idx old t.indexes found, other) found', rw other follows')
    ];
  }

  -- The part of the columns from `i` on in which the cell of `id` is replaced by that of `g`.
  abbrev pub pending : ℕ → (ℕ → Option Value) → ℕ → (ℕ → Column) → ℕ → Column
  pending id g i F col = if ltb col i then F col else with_cell id (g col) (F col)

  pub pending_done :
      (id : ℕ) (g : ℕ → Option Value) (i : ℕ) (F : ℕ → Column) (col j : ℕ)
      → pending id g (suc i) (λ k. if i == k then with_cell id (g i) (F i) else F k) col j
        ≡ pending id g i F col j
  pending_done id g i F col j = ground (arith, ==_iff i col, ==_iff id j)

  pub pending_skip :
      (id : ℕ) (g : ℕ → Option Value) (i : ℕ) (F : ℕ → Column) (col j : ℕ)
      → i ≢ col
      → pending id g (suc i) F col j ≡ pending id g i F col j
  pending_skip id g i F col j ne = ground (arith, ne)
