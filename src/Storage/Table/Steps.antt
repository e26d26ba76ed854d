-- ===== src/Storage/Table/Steps.antt =====
-- What the changes of the indexes in src/storage/table.cpp leave alone: everything but the indexes.
use cw_db.Prelude.{
  ℕ, suc, Bool, if◌then◌else◌, ◌≡◌, refl, true, false, [], ◌∷◌, Option, none, some, ◌&&◌, not, inl,
  inr, ◌∙◌,
}
use cw_db.Prelude.Map.{find, nat_eq}
use cw_db.Prelude.Error.{Result, ok, throw, Result-cases}
use cw_db.Core.Value.{is_null}
use cw_db.Sql.Schema.{TableSchema, column_is_indexed}
use cw_db.Sql.Where.{Row}
use cw_db.Storage.Table.{
  IndexOps, Table, and_then, open_column, open_from, open_indexes, change_at, change_index,
  install_from, remove_from,
}

-- Two tables that differ in their indexes at most.
pub record SameRows {Index : Type 0} (t u : Table Index) : Type 0 where
  pub schema_eq : u.schema ≡ t.schema
  pub records_eq : u.records ≡ t.records
  pub order_eq : u.order ≡ t.order
  pub next_id_eq : u.next_id ≡ t.next_id

module _ (ops : IndexOps) where
  pub same : (t : Table ops.Index) → SameRows t t
  same t = record { schema_eq = refl; records_eq = refl; order_eq = refl; next_id_eq = refl }

  pub SameRows-trans : {t u w : Table ops.Index} → SameRows t u → SameRows u w → SameRows t w
  SameRows-trans a b = record {
    schema_eq = b.schema_eq ∙ a.schema_eq;
    records_eq = b.records_eq ∙ a.records_eq;
    order_eq = b.order_eq ∙ a.order_eq;
    next_id_eq = b.next_id_eq ∙ a.next_id_eq;
  }

  pub and_then-SameRows :
      {A B : Type 0} {t : Table ops.Index} (m : Result A × Table ops.Index)
      (f : A → Table ops.Index → Result B × Table ops.Index)
      → SameRows t m.1
      → ((a : A) (u : Table ops.Index) → SameRows u (f a u).1)
      → SameRows t (and_then m f).1
  and_then-SameRows (ok a, u) f h k = SameRows-trans h (k a u)
  and_then-SameRows (throw e, u) f h k = h

  if-SameRows :
      {A : Type 0} (b : Bool) {t : Table ops.Index} (m n : Result A × Table ops.Index)
      → SameRows t m.1
      → SameRows t n.1
      → SameRows t (if b then m else n).1
  if-SameRows true m n h k = h
  if-SameRows false m n h k = k

  open_column-SameRows :
      (i : ℕ) (c : _) (idx : Option ops.Index) (t : Table ops.Index)
      → SameRows t (open_column ops i c idx t).1
  open_column-SameRows i c (some idx) t = same t
  open_column-SameRows i c none t =
      if-SameRows c.indexed _ _
        (elim (Result-cases (ops.open_or_create i)) [
          | inl (idx, e) ↦
              rw e
                (record { schema_eq = refl; records_eq = refl; order_eq = refl; next_id_eq = refl })
          | inr (err, e) ↦ rw e (same t)
        ])
        (same t)

  open_from-SameRows :
      (i : ℕ) (cs : TableSchema) (t : Table ops.Index) → SameRows t (open_from ops i cs t).1
  unfolding open_from
  open_from-SameRows i [] t = same t
  open_from-SameRows i (c ∷ cs) t =
      and_then-SameRows (open_column ops i c (find i t.indexes) t) _
        (open_column-SameRows i c (find i t.indexes) t) (λ _ u. open_from-SameRows (suc i) cs u)

  open_indexes-SameRows : (t : Table ops.Index) → SameRows t (open_indexes ops t).1
  unfolding open_indexes
  open_indexes-SameRows t = if-SameRows t.bound _ _ (open_from-SameRows 0 t.schema t) (same t)

  change_at-SameRows :
      {A : Type 0} (col : ℕ) (change : ops.Index → Result A × ops.Index) (idx : Option ops.Index)
      (t : Table ops.Index)
      → SameRows t (change_at ops col change idx t).1
  change_at-SameRows col change none t = same t
  change_at-SameRows col change (some idx) t = record {
    schema_eq = refl;
    records_eq = refl;
    order_eq = refl;
    next_id_eq = refl;
  }

  change_index-SameRows :
      {A : Type 0} (col : ℕ) (change : ops.Index → Result A × ops.Index) (t : Table ops.Index)
      → SameRows t (change_index ops col change t).1
  unfolding change_index
  change_index-SameRows col change t =
      if-SameRows (not (column_is_indexed t.schema col)) _ _ (same t) (
        if-SameRows (not t.bound) _ _ (same t) (
          and_then-SameRows (open_indexes ops t) _ (open_indexes-SameRows t)
            (λ _ u. change_at-SameRows col change (find col u.indexes) u)))

  pub install_from-SameRows :
      (i : ℕ) (cs : TableSchema) (id : ℕ) (row : Row) (t : Table ops.Index)
      → SameRows t (install_from ops i cs id row t).1
  unfolding install_from
  install_from-SameRows i [] id row t = same t
  install_from-SameRows i (c ∷ cs) id [] t = same t
  install_from-SameRows i (c ∷ cs) id (v ∷ vs) t =
      if-SameRows (c.indexed && not (is_null v)) _ _
        (and_then-SameRows (change_index ops i (ops.add v id) t) _
          (change_index-SameRows i (ops.add v id) t)
          (λ _ u. install_from-SameRows (suc i) cs id vs u))
        (install_from-SameRows (suc i) cs id vs t)

  pub remove_from-SameRows :
      (i : ℕ) (cs : TableSchema) (row : Row) (t : Table ops.Index)
      → SameRows t (remove_from ops i cs row t).1
  unfolding remove_from
  remove_from-SameRows i [] row t = same t
  remove_from-SameRows i (c ∷ cs) [] t = same t
  remove_from-SameRows i (c ∷ cs) (v ∷ vs) t =
      if-SameRows (c.indexed && not (is_null v)) _ _
        (and_then-SameRows (change_index ops i (ops.drop_key v) t) _
          (change_index-SameRows i (ops.drop_key v) t)
          (λ _ u. remove_from-SameRows (suc i) cs vs u))
        (remove_from-SameRows (suc i) cs vs t)
