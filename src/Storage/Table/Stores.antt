-- ===== src/Storage/Table/Stores.antt =====
-- What `insert`, `update` and `erase` of src/storage/table.cpp do to the rows when they return.
use cw_db.Prelude.{
  Option-cases, set, length-set, length, get_elem?, inl, inr, ℕ, ◌≡◌, refl, false, List, [], ◌∷◌,
  ◌++◌, Option, none, some, ◌==◌, if◌then◌else◌, arith, ap, sym, ◌∙◌, ==_iff,
}
use cw_db.Prelude.Map.{find, assign, find-emplace, find-assign, find-erase, nat_eq}
use cw_db.Prelude.Error.{Result, ok, throw}
use cw_db.Core.Value.{Value}
use cw_db.Sql.Where.{Row}
use cw_db.Storage.Pager.{remove}
use cw_db.Storage.Pager.Ids.{mem, mem-remove}
use cw_db.Storage.Table.{
  IndexOps, Table, and_then, after, enforce_constraints, install_from, remove_from, added, insert,
  replace_row, update_found, update, erase_found, erase_row, assign_all, entry_or,
}
use cw_db.Storage.Table.Filled.{get_elem?-set}
use cw_db.Storage.Table.Steps.{install_from-SameRows, remove_from-SameRows}
use cw_db.Storage.Table.Rows.{IsValid, Fits, enforce_constraints-Fits}

-- The value that a list of assignments gives to a column: the last one for it counts.
unfoldable pub last_value : ℕ → List (ℕ × Value) → Option Value
last_value j [] = none
last_value j ((col, v) ∷ as_) = elim (last_value j as_) [
  | some w ↦ some w
  | none ↦ if col == j then some v else none
]

-- The row has the assigned values, and elsewhere the old ones.
pub record IsAssigned (as_ : List (ℕ × Value)) (old row : Row) : Type 0 where
  pub width : length row ≡ length old
  pub cells :
      (j : ℕ)
      → get_elem? row j ≡ (elim (last_value j as_) [ some v ↦ some v | none ↦ get_elem? old j ])

assign_all-IsAssigned :
    (as_ : List (ℕ × Value)) (old row : Row) → assign_all as_ old ≡ ok row → IsAssigned as_ old row
unfolding assign_all last_value
assign_all-IsAssigned [] old row h =
    let e : row ≡ old = ground arith in
    record { width = ap length e; cells = λ j. ap (λ r. get_elem? r j) e }
assign_all-IsAssigned ((col, v) ∷ as_) old row h = elim (Option-cases (get_elem? old col)) [
  | inl absent ↦ absurd (ground (arith, h, absent))
  | inr (w, there) ↦
      let rest = assign_all-IsAssigned as_ (set old col v) row (ground (arith, h, there)) in
      record {
        width = rest.width ∙ length-set old col v;
        cells = λ j. elim (Option-cases (last_value j as_)) [
          | inr (x, later) ↦ rest.cells j ∙ rw later refl
          | inl last ↦
              ground (arith, rest.cells j, last, there, get_elem?-set old col j v, ==_iff col j)
        ];
      }
]

module _ (ops : IndexOps) where
  pub after-ok :
      {A B : Type 0} (r : Result A) (f : A → Table ops.Index → Result B × Table ops.Index)
      (t : Table ops.Index) (b : B)
      → (after r f t).0 ≡ ok b
      → (a : A) × (r ≡ ok a) × (after r f t ≡ f a t)
  after-ok (ok a) f t b h = (a, refl, refl)
  after-ok (throw e) f t b h = absurd (ground arith)

  pub and_then-ok :
      {A B : Type 0} (m : Result A × Table ops.Index)
      (f : A → Table ops.Index → Result B × Table ops.Index) (b : B)
      → (and_then m f).0 ≡ ok b
      → (a : A) × (m.0 ≡ ok a) × (and_then m f ≡ f a m.1)
  and_then-ok (ok a, u) f b h = (a, refl, refl)
  and_then-ok (throw e, u) f b h = absurd (ground arith)

  -- An insertion into a valid table that returns gives the id that is next; the row stands there,
  -- fits the schema and comes last in the order, and every other row is as it was.
  pub insert-stores :
      (row : Row) (t : Table ops.Index) (id : ℕ)
      → IsValid t
      → (insert ops row t).0 ≡ ok id
      → (id ≡ t.next_id)
        × Fits t.schema row
        × ((j : ℕ)
            → find j (insert ops row t).1.records
              ≡ (if id == j then some row else find j t.records))
        × ((insert ops row t).1.order ≡ t.order ++ (id ∷ []))
  unfolding insert
  insert-stores row t id v h =
      let (_, passed, same_checked) = after-ok (enforce_constraints ops row none t) _ t id h in
      let free : find t.next_id t.records ≡ none =
        ground (arith, v.listed t.next_id, v.below t.next_id) in
      let there = entry_or ops row (find t.next_id t.records) in
      let start = added ops t.next_id row t in
      let m = install_from ops 0 t.schema t.next_id there start in
      let (_, installed, same_last) =
        and_then-ok m (λ _ u. (ok t.next_id, u)) id (ap (λ x. x.0) (sym same_checked) ∙ h) in
      let s = install_from-SameRows ops 0 t.schema t.next_id there start in
      let state : (insert ops row t).1 ≡ m.1 = ap (λ x. x.1) (same_checked ∙ same_last) in
      let named : ok t.next_id ≡ ok id = ap (λ x. x.0) (sym (same_checked ∙ same_last)) ∙ h in
      let same_id : id ≡ t.next_id = ground arith in
      (
        same_id,
        enforce_constraints-Fits ops row none t passed,
        λ j.
            ap (λ u. find j u.records) state
            ∙ ap (find j) s.records_eq
            ∙ rw same_id (find-emplace t.next_id j row t.records free),
        ap (λ u. u.order) state ∙ s.order_eq ∙ rw same_id refl,
      )

  -- What `update` and `erase` return with, as the state after it.
  replace_row-stores :
      (id : ℕ) (old row : Row) (t : Table ops.Index)
      → find id t.records ≡ some old
      → (replace_row ops id old row t).0 ≡ ok tt
      → ((j : ℕ)
          → find j (replace_row ops id old row t).1.records
            ≡ (if id == j then some row else find j t.records))
        × ((replace_row ops id old row t).1.order ≡ t.order)
  replace_row-stores id old row t here h =
      let m = remove_from ops 0 t.schema old t in
      let s = remove_from-SameRows ops 0 t.schema old t in
      let u = m.1 in
      let (_, removed, same_last) = and_then-ok m _ tt h in
      let w = record u { records = assign id row u.records } in
      let s' = install_from-SameRows ops 0 u.schema id row w in
      let there : find id u.records ≡ some old = ap (find id) s.records_eq ∙ here in
      (
        λ j.
            ap (λ x. find j x.1.records) same_last
            ∙ ap (find j) s'.records_eq
            ∙ find-assign id j row old u.records there
            ∙ ap (λ r. if id == j then some row else find j r) s.records_eq,
        ap (λ x. x.1.order) same_last ∙ s'.order_eq ∙ s.order_eq,
      )

  update_found-stores :
      (found : Option Row) (id : ℕ) (as_ : List (ℕ × Value)) (t : Table ops.Index)
      → find id t.records ≡ found
      → (update_found ops found id as_ t).0 ≡ ok tt
      → (old row : Row) × (find id t.records ≡ some old)
        × IsAssigned as_ old row
        × Fits t.schema row
        × ((j : ℕ)
            → find j (update_found ops found id as_ t).1.records
              ≡ (if id == j then some row else find j t.records))
        × ((update_found ops found id as_ t).1.order ≡ t.order)
  update_found-stores none id as_ t here h = absurd (ground arith)
  update_found-stores (some old) id as_ t here h =
      let (row, assigned, e) = after-ok (assign_all as_ old) _ t tt h in
      let checks = enforce_constraints ops row (some id) t in
      let h' = ap (λ x. x.0) (sym e) ∙ h in
      let (_, passed, e') = after-ok checks (λ _. replace_row ops id old row) t tt h' in
      let (rows, order) = replace_row-stores id old row t here (ap (λ x. x.0) (sym e') ∙ h') in
      let state = ap (λ x. x.1) (e ∙ e') in
      (
        old,
        row,
        here,
        assign_all-IsAssigned as_ old row assigned,
        enforce_constraints-Fits ops row (some id) t passed,
        λ j. ap (λ u. find j u.records) state ∙ rows j,
        ap (λ u. u.order) state ∙ order,
      )

  -- An update that returns puts in the place of a row one of the same length that fits the schema: each
  -- column has the value that was assigned to it last, or else its old one. Every other row and the order
  -- are as they were.
  pub update-stores :
      (id : ℕ) (as_ : List (ℕ × Value)) (t : Table ops.Index)
      → (update ops id as_ t).0 ≡ ok tt
      → (old row : Row) × (find id t.records ≡ some old)
        × IsAssigned as_ old row
        × Fits t.schema row
        × ((j : ℕ)
            → find j (update ops id as_ t).1.records
              ≡ (if id == j then some row else find j t.records))
        × ((update ops id as_ t).1.order ≡ t.order)
  unfolding update
  update-stores id as_ t h = update_found-stores (find id t.records) id as_ t refl h

  erase_found-stores :
      (found : Option Row) (id j : ℕ) (t : Table ops.Index)
      → IsValid t
      → find id t.records ≡ found
      → (erase_found ops found id t).0 ≡ ok tt
      → (find j (erase_found ops found id t).1.records
          ≡ (if id == j then none else find j t.records))
        × (mem j (erase_found ops found id t).1.order ≡ (if id == j then false else mem j t.order))
  erase_found-stores none id j t v here h =
      (ground (arith, ==_iff id j), ground (arith, ==_iff id j, v.listed j))
  erase_found-stores (some row) id j t v here h =
      let m = remove_from ops 0 t.schema row t in
      let s = remove_from-SameRows ops 0 t.schema row t in
      let (_, removed, same_last) = and_then-ok m _ tt h in
      (
        ap (λ x. find j x.1.records) same_last
            ∙ find-erase id j m.1.records
            ∙ ap (λ r. if id == j then none else find j r) s.records_eq,
        ap (λ x. mem j x.1.order) same_last
            ∙ ap (λ o. mem j (remove id o)) s.order_eq
            ∙ mem-remove t.order id j v.distinct,
      )

  -- An erasure from a valid table that returns takes the row out, and its id out of the order; the
  -- other rows and ids stay. The row of an id that is not there is no error.
  pub erase_row-stores :
      (id j : ℕ) (t : Table ops.Index)
      → IsValid t
      → (erase_row ops id t).0 ≡ ok tt
      → (find j (erase_row ops id t).1.records ≡ (if id == j then none else find j t.records))
        × (mem j (erase_row ops id t).1.order ≡ (if id == j then false else mem j t.order))
  unfolding erase_row
  erase_row-stores id j t v h = erase_found-stores (find id t.records) id j t v refl h
