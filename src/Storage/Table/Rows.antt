-- ===== src/Storage/Table/Rows.antt =====
-- The rows of a table and their order, whatever the disk indexes do: `insert`, `update` and `erase`
-- of src/storage/table.cpp.
use cw_db.Prelude.{
  ℕ, ◌+◌, ◌<◌, ◌≤◌, ◌^◌, ◌≡◌, refl, true, false, List, [], ◌∷◌, ◌++◌, Option, none, some, inl, inr,
  ◌==◌, ◌||◌, length, arith, Bool-cases, ==_iff,
}
use cw_db.Prelude.Map.{find, assign, erase, find-emplace, find-assign, find-erase, nat_eq}
use cw_db.Prelude.Error.{Result, ok, throw, Result-cases}
use cw_db.Core.Value.{Value}
use cw_db.Sql.Schema.{TableSchema}
use cw_db.Sql.Where.{Row}
use cw_db.Storage.Pager.{remove}
use cw_db.Storage.Pager.Ids.{mem, Distinct, is_some, mem-remove, remove-Distinct}
use cw_db.Storage.Table.{
  IndexOps, Table, and_then, after, check_cells, enforce_constraints, install_from, remove_from,
  added, insert_checked, insert, replace_row, update_found, update, erase_found, erase_row,
  assign_all, entry_or,
}
use cw_db.Storage.Table.Steps.{
  SameRows, same, and_then-SameRows, install_from-SameRows, remove_from-SameRows,
}

-- One value for each column, each of its type or NULL where the column allows it.
abbrev pub Fits : TableSchema → Row → Type 0
Fits schema row = (length row ≡ length schema) × (check_cells schema row ≡ ok tt)

-- `order` lists the ids of the rows, each once; ids that were not given out are free; rows fit.
pub record IsValid {Index : Type 0} (t : Table Index) : Type 0 where
  pub listed : (id : ℕ) → mem id t.order ≡ is_some (find id t.records)
  pub distinct : Distinct t.order
  pub below : (id : ℕ) → mem id t.order ≡ true → id < t.next_id
  pub rows : (id : ℕ) (row : Row) → find id t.records ≡ some row → Fits t.schema row

mem-append : (xs : List ℕ) (v j : ℕ) → mem j (xs ++ (v ∷ [])) ≡ (v == j || mem j xs)
unfolding mem
mem-append [] v j = ground arith
mem-append (x ∷ xs) v j = ground (arith, mem-append xs v j)

append-Distinct : (xs : List ℕ) (v : ℕ) → Distinct xs → mem v xs ≡ false → Distinct (xs ++ (v ∷ []))
unfolding mem
append-Distinct [] v d h = (refl, tt)
append-Distinct (x ∷ xs) v d h = (
  ground (arith, mem-append xs v x, ==_iff x v, ==_iff v x),
  append-Distinct xs v d.1 (ground arith),
)

module _ (ops : IndexOps) where
  -- What the checks of a record establish.
  pub enforce_constraints-Fits :
      (row : Row) (existing : Option ℕ) (t : Table ops.Index)
      → enforce_constraints ops row existing t ≡ ok tt
      → Fits t.schema row
  unfolding enforce_constraints
  enforce_constraints-Fits row existing t h = elim (Bool-cases (length row == length t.schema)) [
    | inr off ↦ absurd (ground arith)
    | inl same ↦ elim (Result-cases (check_cells t.schema row)) [
      | inl (u, e) ↦ (ground (arith, ==_iff (length row) (length t.schema)), e)
      | inr (err, e) ↦ absurd (ground arith)
    ]
  ]

  -- Validity is a matter of the rows.
  SameRows-IsValid : {t u : Table ops.Index} → SameRows t u → IsValid t → IsValid u
  SameRows-IsValid {t} {u} s v = record {
    listed = λ id. rw (s.order_eq, s.records_eq) (v.listed id);
    distinct = rw s.order_eq v.distinct;
    below = λ id h. rw s.next_id_eq (v.below id (rw s.order_eq at h));
    rows = λ id row h. rw s.schema_eq (v.rows id row (rw s.records_eq at h));
  }

  -- The state in which `insert` leaves the rows if the checks pass.
  added-IsValid :
      (row : Row) (t : Table ops.Index)
      → IsValid t
      → Fits t.schema row
      → t.next_id + 1 < 2 ^ 64
      → IsValid (added ops t.next_id row t)
  added-IsValid row t v fits small =
      let fresh : mem t.next_id t.order ≡ false = ground (arith, v.below t.next_id) in
      let free : find t.next_id t.records ≡ none = ground (arith, v.listed t.next_id) in
      record {
        listed = λ id. ground (
          arith,
          mem-append t.order t.next_id id,
          find-emplace t.next_id id row t.records free,
          v.listed id,
        );
        distinct = append-Distinct t.order t.next_id v.distinct fresh;
        below = λ id h.
            ground (arith, mem-append t.order t.next_id id, v.below id, ==_iff t.next_id id);
        rows = λ id r h.
            ground (arith, find-emplace t.next_id id row t.records free, v.rows id r, fits);
      }

  -- `insert` behind its checks adds the row, and the indexes come after it.
  insert_checked-SameRows :
      (id : ℕ) (row : Row) (t : Table ops.Index)
      → SameRows (added ops id row t) (insert_checked ops id row t).1
  insert_checked-SameRows id row t =
      let there = entry_or ops row (find id t.records) in
      and_then-SameRows ops (install_from ops 0 t.schema id there (added ops id row t)) _
        (install_from-SameRows ops 0 t.schema id there (added ops id row t)) (λ _ u. same ops u)

  after-IsValid :
      {A B : Type 0} (r : Result A) (f : A → Table ops.Index → Result B × Table ops.Index)
      (t : Table ops.Index)
      → IsValid t
      → ((a : A) → r ≡ ok a → IsValid (f a t).1)
      → IsValid (after r f t).1
  after-IsValid (ok a) f t v h = h a refl
  after-IsValid (throw e) f t v h = v

  -- While another id is left, an insertion keeps a valid table valid on every path, also where a
  -- check or an index throws.
  pub insert-IsValid :
      (row : Row) (t : Table ops.Index)
      → IsValid t
      → t.next_id + 1 < 2 ^ 64
      → IsValid (insert ops row t).1
  unfolding insert
  insert-IsValid row t v small =
      after-IsValid (enforce_constraints ops row none t) _ t v λ _ passed.
        SameRows-IsValid (insert_checked-SameRows t.next_id row t)
          (added-IsValid row t v (enforce_constraints-Fits row none t passed) small)

  -- An insertion takes one id at most.
  pub insert-next_id :
      (row : Row) (t : Table ops.Index)
      → t.next_id + 1 < 2 ^ 64
      → (insert ops row t).1.next_id ≤ t.next_id + 1
  unfolding insert
  insert-next_id row t small = elim (Result-cases (enforce_constraints ops row none t)) [
    | inr (e, failed) ↦ rw failed (omega arith)
    | inl (u, passed) ↦
        rw passed (omega (arith, (insert_checked-SameRows t.next_id row t).next_id_eq))
  ]

  replaced-IsValid :
      (id : ℕ) (old row : Row) (t : Table ops.Index)
      → IsValid t
      → find id t.records ≡ some old
      → Fits t.schema row
      → IsValid (record t { records = assign id row t.records })
  replaced-IsValid id old row t v here fits = record {
    listed = λ j. ground (arith, find-assign id j row old t.records here, v.listed j, ==_iff id j);
    distinct = v.distinct;
    below = v.below;
    rows = λ j r h. ground (arith, find-assign id j row old t.records here, v.rows j r, fits);
  }

  erased-IsValid :
      (id : ℕ) (t : Table ops.Index)
      → IsValid t
      → IsValid (record t { records = erase id t.records; order = remove id t.order })
  erased-IsValid id t v = record {
    listed = λ j.
        ground (arith, find-erase id j t.records, mem-remove t.order id j v.distinct, v.listed j);
    distinct = remove-Distinct t.order id v.distinct;
    below = λ j h. ground (arith, mem-remove t.order id j v.distinct, v.below j);
    rows = λ j r h. ground (arith, find-erase id j t.records, v.rows j r);
  }

  -- What stands behind a change of the indexes keeps validity if it does so with the rows unchanged.
  and_then-IsValid :
      {A B : Type 0} {t : Table ops.Index} (m : Result A × Table ops.Index)
      (f : A → Table ops.Index → Result B × Table ops.Index)
      → SameRows t m.1
      → IsValid t
      → ((a : A) (u : Table ops.Index) → SameRows t u → IsValid u → IsValid (f a u).1)
      → IsValid (and_then m f).1
  and_then-IsValid (ok a, u) f s v h = h a u s (SameRows-IsValid s v)
  and_then-IsValid (throw e, u) f s v h = SameRows-IsValid s v

  replace_row-IsValid :
      (id : ℕ) (old row : Row) (t : Table ops.Index)
      → IsValid t
      → find id t.records ≡ some old
      → Fits t.schema row
      → IsValid (replace_row ops id old row t).1
  replace_row-IsValid id old row t v here fits =
      and_then-IsValid (remove_from ops 0 t.schema old t) _
        (remove_from-SameRows ops 0 t.schema old t) v
        λ _ u s w.
          SameRows-IsValid
            (install_from-SameRows ops 0 u.schema id row
              (record u { records = assign id row u.records }))
            (replaced-IsValid id old row u w (rw s.records_eq here) (rw s.schema_eq fits))

  update_found-IsValid :
      (found : Option Row) (id : ℕ) (as_ : List (ℕ × Value)) (t : Table ops.Index)
      → IsValid t
      → find id t.records ≡ found
      → IsValid (update_found ops found id as_ t).1
  update_found-IsValid none id as_ t v h = v
  update_found-IsValid (some old) id as_ t v h = after-IsValid (assign_all as_ old) _ t v λ row _.
      after-IsValid (enforce_constraints ops row (some id) t) _ t v λ _ passed.
        replace_row-IsValid id old row t v h (enforce_constraints-Fits row (some id) t passed)

  -- An update keeps a valid table valid on every path, also where a check or an index throws.
  pub update-IsValid :
      (id : ℕ) (as_ : List (ℕ × Value)) (t : Table ops.Index)
      → IsValid t
      → IsValid (update ops id as_ t).1
  unfolding update
  update-IsValid id as_ t v = update_found-IsValid (find id t.records) id as_ t v refl

  erase_found-IsValid :
      (found : Option Row) (id : ℕ) (t : Table ops.Index)
      → IsValid t
      → IsValid (erase_found ops found id t).1
  erase_found-IsValid none id t v = v
  erase_found-IsValid (some row) id t v =
      and_then-IsValid (remove_from ops 0 t.schema row t) _
        (remove_from-SameRows ops 0 t.schema row t) v (λ _ u s w. erased-IsValid id u w)

  -- An erasure keeps a valid table valid on every path, also where an index throws.
  pub erase_row-IsValid :
      (id : ℕ) (t : Table ops.Index) → IsValid t → IsValid (erase_row ops id t).1
  unfolding erase_row
  erase_row-IsValid id t v = erase_found-IsValid (find id t.records) id t v
