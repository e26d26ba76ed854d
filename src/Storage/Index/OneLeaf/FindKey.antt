-- ===== src/Storage/Index/OneLeaf/FindKey.antt =====
-- `find` of src/storage/disk_bsp_index.cpp on an index of one leaf.
use cw_db.Prelude.{
  ℕ, zero, suc, ◌^◌, ◌≤◌, ◌<◌, ◌≡◌, ◌≢◌, refl, true, false, List, [], ◌∷◌, Option, none, some, inl,
  inr, Ordering, ltb, if◌then◌else◌, length, get_elem?, arith, ap, sym, subst, ◌∙◌, Bool-cases,
}
use cw_db.Prelude.Error.{ok}
use cw_db.Core.Value.{Value, DataType, compare_value, eq_value}
use cw_db.Core.Value.Order.{compare_value-eq, eq_value_iff}
use cw_db.Storage.ValueIo.RoundTrip.{decode_value_self}
use cw_db.Storage.Page.{LeafEntry, ParsedPage, parse}
use cw_db.Storage.Pager.{Pager, and_then}
use cw_db.Storage.Pager.Invariant.{view}
use cw_db.Storage.Pager.Reads.{ReadOk}
use cw_db.Storage.Index.{
  cmp_at, is_not_above, Iterator, end_iterator, enter, iterator_at, iterator_to, leaf_find,
  search_with, find_key,
}
use cw_db.Storage.Index.Search.{Splits}
use cw_db.Storage.Index.Leaf.{leaf_find-exact}
use cw_db.Storage.Index.Tree.{Tree}
use cw_db.Storage.Index.Change.Entries.{
  Encodes, Holds, key_bytes, Holds-get_elem?, cmp_at-Holds, cmp_at_inside, Ascends-get_elem?,
  Keys-get_elem?,
}
use cw_db.Storage.Index.Change.LeafInsert.{Splits-below, compare_value_self}
use cw_db.Storage.Index.OneLeaf.{IsOneLeaf, read_node-parse, descend-leaf}
use cw_db.Storage.Index.OneLeaf.Insert.{length-Holds}
use cw_db.Storage.Table.Laws.{IsKey, Ascends}
use cw_db.Storage.Table.Sorted.{Entries, Keys, keys-valid, lt_trans, lookup_entry}

-- Keys that do not stand above `k`.
reaches :
    (v w k : Value)
    → compare_value v w ≡ (Ordering.lt, true)
    → (compare_value w k).1 ≡ true
    → is_not_above (compare_value w k).0 ≡ true
    → compare_value v k ≡ (Ordering.lt, true)
reaches v w k less valid on =
    ground (arith, less, valid, on, lt_trans v w k less, compare_value-eq w k)

module _ (ty : DataType) (kvs : Entries) (es : List LeafEntry) (k : Value) (holds : Holds kvs es)
    (up : Ascends kvs) (keys : Keys ty kvs) (key : IsKey ty k) where
  not_above_mono :
      (i j : ℕ) (c d : Ordering)
      → i ≤ j
      → cmp_at es i k ≡ ok c
      → cmp_at es j k ≡ ok d
      → is_not_above d ≡ true
      → is_not_above c ≡ true
  not_above_mono i j c d le at_i at_j on =
      let (kv, is_kv, e) = cmp_at-Holds kvs es i k holds (cmp_at_inside es i k c at_i) in
      let (kw, is_kw, f) = cmp_at-Holds kvs es j k holds (cmp_at_inside es j k d at_j) in
      let same_d : (compare_value kw.0 k).0 ≡ d = ground (arith, at_j, f) in
      elim (Bool-cases (ltb i j)) [
        | inl less ↦
            let first =
              reaches kv.0 kw.0 k (Ascends-get_elem? kvs i j kv kw up (ground arith) is_kv is_kw)
                (keys-valid ty kw.0 k (Keys-get_elem? ty kvs j kw keys is_kw) key)
                (ap is_not_above same_d ∙ on) in
            ground (arith, at_i, e, first)
        | inr more ↦
            let same : i ≡ j = ground (arith, le) in
            let same_at : cmp_at es i k ≡ ok d = ap (λ n. cmp_at es n k) same ∙ at_j in
            ground (arith, at_i, same_at, on)
      ]

  pub Splits-not_above : Splits is_not_above es k (length es)
  Splits-not_above = record {
    cmp = λ i below.
        let (kv, at_i, e) = cmp_at-Holds kvs es i k holds below in ((compare_value kv.0 k).0, e);
    ascends = not_above_mono;
  }

-- The entry at a place is the one that is looked up.
lookup_entry-get_elem? :
    (ty : DataType) (kvs : Entries) (i : ℕ) (kv : Value × ℕ)
    → Keys ty kvs
    → Ascends kvs
    → get_elem? kvs i ≡ some kv
    → lookup_entry kvs kv.0 ≡ some kv.1
unfolding lookup_entry
lookup_entry-get_elem? ty [] i kv keys up h = absurd (ground arith)
lookup_entry-get_elem? ty ((w, id) ∷ kvs) zero kv keys up h =
    let e : (w, id) ≡ kv = ground arith in
    subst (λ x. lookup_entry ((w, id) ∷ kvs) x.0 ≡ some x.1) e (rw ((eq_value_iff w w).1 refl) refl)
lookup_entry-get_elem? ty ((w, id) ∷ kvs) (suc i) kv keys up h =
    let less = Ascends-get_elem? ((w, id) ∷ kvs) 0 (suc i) (w, id) kv up (omega arith) refl h in
    let later = lookup_entry-get_elem? ty kvs i kv keys.1 up.1 h in
    elim (Bool-cases (eq_value w kv.0)) [
      | inr other ↦ rw other later
      | inl same ↦
          let self : compare_value w kv.0 ≡ (Ordering.eq, true) =
            subst (λ x. compare_value w x ≡ (Ordering.eq, true)) ((eq_value_iff w kv.0).0 same)
              (compare_value_self ty w keys.0) in
          absurd (ground (arith, self, less))
    ]

lookup_entry-none :
    (ty : DataType) (kvs : Entries) (es : List LeafEntry) (k : Value)
    → IsKey ty k
    → Holds kvs es
    → ((i : ℕ) → i < length es → cmp_at es i k ≢ ok Ordering.eq)
    → lookup_entry kvs k ≡ none
unfolding lookup_entry cmp_at
lookup_entry-none ty [] es k key holds differ = refl
lookup_entry-none ty (kv ∷ kvs) [] k key holds differ = absurd holds
lookup_entry-none ty ((w, id) ∷ kvs) (e ∷ es) k key holds differ =
    let (kv, is_kv, head) = cmp_at-Holds ((w, id) ∷ kvs) (e ∷ es) 0 k holds (omega arith) in
    let rest =
      lookup_entry-none ty kvs es k key holds.1 (λ i below. differ (suc i) (omega arith)) in
    elim (Bool-cases (eq_value w k)) [
      | inr other ↦ rw other rest
      | inl same ↦
          let is_k : kv.0 ≡ k = ground (arith, is_kv) ∙ (eq_value_iff w k).0 same in
          let self : (compare_value kv.0 k).0 ≡ Ordering.eq =
            ap (λ x. (compare_value x k).0) is_k ∙ ap (λ c. c.0) (compare_value_self ty k key) in
          absurd (differ 0 (omega arith) (head ∙ ap ok self))
    ]

-- The record id of the entry at an iterator, if there is one.
abbrev pub entry_at : Iterator → Option ℕ
entry_at it = if it.at_end then none else some it.rid

pub enter-entry_at :
    (page slot : ℕ) (v : Value) (id : ℕ) (e : LeafEntry)
    → Encodes v id e
    → (it : Iterator) × (enter page slot (some e) ≡ ok it) × (entry_at it ≡ some id)
enter-entry_at page slot v id e enc = (
  record { page = page; slot = slot; key = v; rid = e.rid; at_end = false },
  rw (key_bytes v id e enc, decode_value_self v enc.storable) refl,
  ap some enc.rid_eq,
)

cmp_at-eq :
    (ty : DataType) (kvs : Entries) (es : List LeafEntry) (i : ℕ) (k : Value)
    → Holds kvs es
    → Ascends kvs
    → Keys ty kvs
    → IsKey ty k
    → i < length es
    → cmp_at es i k ≡ ok Ordering.eq
    → (v : Value) × (id : ℕ) × (e : LeafEntry) × (get_elem? es i ≡ some e)
      × Encodes v id e
      × (lookup_entry kvs k ≡ some id)
cmp_at-eq ty kvs es i k holds up keys key below found =
    let (kv, e, at_kv, at_e, enc) = Holds-get_elem? kvs es i holds below in
    let (kw, at_kw, cmp) = cmp_at-Holds kvs es i k holds below in
    let same : kw ≡ kv = ground (arith, at_kv, at_kw) in
    let equal : (compare_value kv.0 k).0 ≡ Ordering.eq =
      ap (λ x. (compare_value x.0 k).0) (sym same) ∙ ground (arith, found, cmp) in
    let is_k : kv.0 ≡ k =
      compare_value-eq kv.0 k
        (ground (arith, equal, keys-valid ty kv.0 k (Keys-get_elem? ty kvs i kv keys at_kv) key)) in
    (
      kv.0,
      kv.1,
      e,
      at_e,
      enc,
      ap (lookup_entry kvs) (sym is_k) ∙ lookup_entry-get_elem? ty kvs i kv keys up at_kv,
    )

-- `find` of a key of the index's type, on an index whose root is a leaf of less than 2^16 ascending keys:
-- it returns, the pages that readers see stay as they were, and it ends at the entry with the record id
-- that the list of entries gives for the key, or at the end where the list does not hold the key.
pub find_key-OneLeaf :
    (ty : DataType) (kvs : Entries) (t : Tree) (leaf : ParsedPage) (k : Value)
    → IsOneLeaf ty kvs t leaf
    → IsKey ty k
    → length kvs < 2 ^ 16
    → (q : Pager) × (it : Iterator) × (find_key t.root k t.pager ≡ (ok it, q))
      × ReadOk t.pager q
      × (entry_at it ≡ lookup_entry kvs k)
unfolding search_with iterator_at
find_key-OneLeaf ty kvs t leaf k h key few =
    let es = leaf.leaf_entries in
    let (q, down, r) =
      descend-leaf t.pager.page_count t.root.root_page k t.pager leaf (omega (arith, h.there))
        h.valid h.there h.page h.leaf_type in
    let count = length-Holds kvs es h.holds in
    let searched : find_key t.root k t.pager ≡ and_then (leaf_find leaf k, q) iterator_to =
      ap (λ m. and_then m (λ found q. and_then (leaf_find found.0 k, q) iterator_to)) down in
    elim (leaf_find-exact leaf k (omega (arith, count, few))
      (Splits-below ty kvs es k h.holds h.ascends h.keys key)
      (Splits-not_above ty kvs es k h.holds h.ascends h.keys key)) [
        | inr (nowhere, differ) ↦ (
          q,
          end_iterator,
          searched ∙ ap (λ m. and_then (m, q) iterator_to) nowhere,
          r,
          sym (lookup_entry-none ty kvs es k key h.holds differ),
        )
        | inl (slot, place, below, equal) ↦
            let (v, id, e, at_e, enc, is_id) =
              cmp_at-eq ty kvs es slot k h.holds h.ascends h.keys key below equal in
            let (it, entered, shown) = enter-entry_at leaf.page_id slot v id e enc in
            let (q2, again, r2) =
              read_node-parse leaf.page_id q leaf r.valid
                (omega (arith, h.page_id_eq, r.count_eq, h.there))
                (subst (λ i. parse i (view q i) ≡ ok leaf) (sym h.page_id_eq)
                  (ap (parse t.root.root_page) (r.view_eq t.root.root_page) ∙ h.page)) in
            (
              q2,
              it,
              searched
                  ∙ ap (λ m. and_then (m, q) iterator_to) place
                  ∙ ap
                      (λ m.
                        and_then m (λ node p.
                          (enter leaf.page_id slot (get_elem? node.leaf_entries slot), p)))
                      again
                  ∙ ap (λ o. (enter leaf.page_id slot o, q2)) at_e
                  ∙ ap (λ x. (x, q2)) entered,
              record {
                valid = r2.valid;
                view_eq = λ j. r2.view_eq j ∙ r.view_eq j;
                count_eq = r2.count_eq ∙ r.count_eq;
                capacity_eq = r2.capacity_eq ∙ r.capacity_eq;
                open_eq = r2.open_eq ∙ r.open_eq;
              },
              shown ∙ sym is_id,
            )
      ]
