-- ===== src/Storage/Table/Disk/Range.antt =====
-- Iterations over an index of one leaf: `index_collect_range` of src/storage/table.cpp with the iterators
-- of src/storage/disk_bsp_index.cpp.
use cw_db.Prelude.{
  ℕ, zero, suc, ◌+◌, ◌%◌, ◌^◌, ◌≤◌, ◌<◌, ◌≡◌, refl, false, List, [], ◌∷◌, Option, none, some, inl,
  inr, ◌==◌, ltb, length, get_elem?, drop, length-drop, arith, ap, sym, ◌∙◌, Bool-cases, ==_iff,
}
use cw_db.Prelude.Error.{Result, ok}
use cw_db.Core.Value.{Value, DataType}
use cw_db.Storage.ValueIo.RoundTrip.{decode_value_self}
use cw_db.Storage.Page.{LeafEntry, ParsedPage, parse}
use cw_db.Storage.Pager.{Pager, and_then}
use cw_db.Storage.Pager.Reads.{ReadOk}
use cw_db.Storage.Index.{
  Iterator, read_node, enter, iterator_at, iterator_to, step, begin, search_with, place_or_next,
}
use cw_db.Storage.Index.Tree.{Tree}
use cw_db.Storage.Index.Change.Entries.{Encodes, Holds, key_bytes}
use cw_db.Storage.Index.OneLeaf.{IsOneLeaf, read_node-parse, descend-leaf}
use cw_db.Storage.Index.OneLeaf.Insert.{length-Holds}
use cw_db.Storage.Index.OneLeaf.EraseKey.{length-zero}
use cw_db.Storage.Index.Tree.Reads.{ReadOk-refl, ReadOk-trans}
use cw_db.Storage.Table.Sorted.{Entries}
use cw_db.Storage.Table.Disk.{entries_from}

get_elem?-drop :
    {A : Type 0} (i j : ℕ) (xs : List A) → get_elem? (drop i xs) j ≡ get_elem? xs (i + j)
get_elem?-drop zero j xs = let e : j ≡ 0 + j = omega arith in ap (get_elem? xs) e
get_elem?-drop (suc i) j [] = refl
get_elem?-drop (suc i) j (x ∷ xs) =
    let e : suc (i + j) ≡ suc i + j = omega arith in
    get_elem?-drop i j xs ∙ ap (get_elem? (x ∷ xs)) e

Holds-drop :
    (i : ℕ) (kvs : Entries) (es : List LeafEntry) → Holds kvs es → Holds (drop i kvs) (drop i es)
Holds-drop zero kvs es h = h
Holds-drop (suc i) [] [] h = h
Holds-drop (suc i) [] (e ∷ es) h = absurd h
Holds-drop (suc i) (kv ∷ kvs) [] h = absurd h
Holds-drop (suc i) (kv ∷ kvs) (e ∷ es) h = Holds-drop i kvs es h.1

drop_all : {A : Type 0} (i : ℕ) (xs : List A) → length xs ≤ i → drop i xs ≡ []
drop_all zero [] h = refl
drop_all (suc i) [] h = refl
drop_all zero (x ∷ xs) h = absurd (omega arith)
drop_all (suc i) (x ∷ xs) h = drop_all i xs (omega arith)

module _ (ty : DataType) (kvs : Entries) (t : Tree) (leaf : ParsedPage)
    (h : IsOneLeaf ty kvs t leaf) where
  abbrev place : ℕ → Value → ℕ → Iterator
  place slot v rid = record {
    page = t.root.root_page;
    slot = slot;
    key = v;
    rid = rid;
    at_end = false;
  }

  reread_leaf :
      (p : Pager)
      → ReadOk t.pager p
      → (q : Pager) × (read_node t.root.root_page p ≡ (ok leaf, q)) × ReadOk t.pager q
  reread_leaf p r =
      let (q, e, s) =
        read_node-parse t.root.root_page p leaf r.valid (omega (arith, r.count_eq, h.there))
          (ap (parse t.root.root_page) (r.view_eq t.root.root_page) ∙ h.page) in
      (q, e, ReadOk-trans t.pager p q r s)

  entered :
      (slot : ℕ) (v : Value) (id : ℕ) (e : LeafEntry)
      → Encodes v id e
      → enter t.root.root_page slot (some e) ≡ ok (place slot v id)
  entered slot v id e enc =
      rw (key_bytes v id e enc, decode_value_self v enc.storable, enc.rid_eq) refl

  -- From an entry on the loop reads that and all behind it.
  entries_from-entry :
      (rounds slot : ℕ) (v : Value) (id : ℕ) (kvs' : Entries) (es' : List LeafEntry) (p : Pager)
      → Holds kvs' es'
      → ((j : ℕ) → get_elem? leaf.leaf_entries (suc slot + j) ≡ get_elem? es' j)
      → length es' < rounds
      → slot + length es' + 1 < 2 ^ 16
      → ReadOk t.pager p
      → entries_from (suc rounds) (ok (place slot v id), p) ≡ ((v, id) ∷ kvs', ok tt)
  unfolding entries_from step
  entries_from-entry zero slot v id kvs' es' p holds suffix few small r = absurd (omega arith)
  entries_from-entry (suc rounds) slot v id [] [] p holds suffix few small r =
      let (q, e, s) = reread_leaf p r in
      let none_behind : get_elem? leaf.leaf_entries ((slot + 1) % 2 ^ 16) ≡ none =
        ap (get_elem? leaf.leaf_entries) (omega arith) ∙ suffix 0 in
      rw (e, none_behind, h.next) refl
  entries_from-entry (suc rounds) slot v id [] (e ∷ es') p holds suffix few small r = absurd holds
  entries_from-entry (suc rounds) slot v id (kv ∷ kvs') [] p holds suffix few small r = absurd holds
  entries_from-entry (suc rounds) slot v id ((w, i) ∷ kvs') (x ∷ es') p holds suffix few small r =
      let (q, e, s) = reread_leaf p r in
      let behind : get_elem? leaf.leaf_entries ((slot + 1) % 2 ^ 16) ≡ some x =
        ap (get_elem? leaf.leaf_entries) (omega arith) ∙ suffix 0 in
      let next : (slot + 1) % 2 ^ 16 ≡ suc slot = omega arith in
      let stepped : step (place slot v id) p ≡ (ok (place (suc slot) w i), q) =
        rw (e, behind)
          (ap (λ n. (enter t.root.root_page n (some x), q)) next
            ∙ ap (λ o. (o, q)) (entered (suc slot) w i x holds.0)) in
      ap (λ m. ((v, id) ∷ (entries_from (suc rounds) m).0, (entries_from (suc rounds) m).1)) stepped
      ∙ ap (λ m. ((v, id) ∷ m.0, m.1))
          (entries_from-entry rounds (suc slot) w i kvs' es' q holds.1
            (λ j. ap (get_elem? leaf.leaf_entries) (omega arith) ∙ suffix (suc j)) (omega arith)
            (omega arith) s)

  -- From a place in the leaf, or behind its last entry.
  entries_from-slot :
      (rounds slot : ℕ) (kvs' : Entries) (es' : List LeafEntry) (p : Pager)
      → Holds kvs' es'
      → ((j : ℕ) → get_elem? leaf.leaf_entries (slot + j) ≡ get_elem? es' j)
      → length es' ≤ rounds
      → slot + length es' < 2 ^ 16
      → ReadOk t.pager p
      → 0 < length es'
      → entries_from (suc rounds) (iterator_at t.root.root_page slot p) ≡ (kvs', ok tt)
  unfolding iterator_at
  entries_from-slot rounds slot [] [] p holds suffix few small r some_left = absurd (omega arith)
  entries_from-slot rounds slot [] (x ∷ es') p holds suffix few small r some_left = absurd holds
  entries_from-slot rounds slot (kv ∷ kvs') [] p holds suffix few small r some_left = absurd holds
  entries_from-slot rounds slot ((v, id) ∷ kvs') (x ∷ es') p holds suffix few small r some_left =
      let (q, e, s) = reread_leaf p r in
      let here : get_elem? leaf.leaf_entries slot ≡ some x =
        ap (get_elem? leaf.leaf_entries) (omega arith) ∙ suffix 0 in
      let started : iterator_at t.root.root_page slot p ≡ (ok (place slot v id), q) =
        rw (e, here) (ap (λ o. (o, q)) (entered slot v id x holds.0)) in
      ap (entries_from (suc rounds)) started
      ∙ entries_from-entry rounds slot v id kvs' es' q holds.1
          (λ j. ap (get_elem? leaf.leaf_entries) (omega arith) ∙ suffix (suc j)) (omega arith)
          (omega arith) s

  -- Where a search in the leaf gives a slot, the loop reads the entries from the slot on.
  pub entries_from-search :
      (in_leaf : ParsedPage → Value → Result (Option (ℕ × ℕ))) (lo : Value) (slot : ℕ)
      → length kvs < 2 ^ 15
      → slot ≤ length leaf.leaf_entries
      → in_leaf leaf lo ≡ ok (place_or_next leaf slot)
      → entries_from (t.root.size + 1) (search_with in_leaf t.root lo t.pager)
        ≡ (drop slot kvs, ok tt)
  unfolding search_with entries_from
  entries_from-search in_leaf lo slot few inside found =
      let es = leaf.leaf_entries in
      let count = length-Holds kvs es h.holds in
      let (q, down, r) =
        descend-leaf t.pager.page_count t.root.root_page lo t.pager leaf (omega (arith, h.there))
          h.valid h.there h.page h.leaf_type in
      let rounds : t.root.size + 1 ≡ suc (length kvs) = omega (arith, h.size_eq) in
      let searched : search_with in_leaf t.root lo t.pager
          ≡ iterator_to (place_or_next leaf slot) q =
        ap (λ m. and_then m (λ found q. and_then (in_leaf found.0 lo, q) iterator_to)) down
        ∙ ap (λ m. and_then (m, q) iterator_to) found in
      let left = length-drop slot es in
      ap (λ n. entries_from n (search_with in_leaf t.root lo t.pager)) rounds
      ∙ ap (entries_from (suc (length kvs))) searched
      ∙ elim (Bool-cases (ltb slot (length es))) [
        | inr off ↦
            let nothing : drop slot kvs ≡ [] = drop_all slot kvs (ground (arith, off, count)) in
            rw (off, h.next, nothing) refl
        | inl on ↦
            let here : iterator_to (place_or_next leaf slot) q
                ≡ iterator_at t.root.root_page slot q =
              rw on (ap (λ i. iterator_at i slot q) h.page_id_eq) in
            ap (entries_from (suc (length kvs))) here
            ∙ entries_from-slot (length kvs) slot (drop slot kvs) (drop slot es) q
                (Holds-drop slot kvs es h.holds) (λ j. sym (get_elem?-drop slot j es))
                (omega (arith, left, count)) (omega (arith, left, count, few)) r
                (ground (arith, on, left))
      ]

  pub entries_from-begin :
      length kvs < 2 ^ 15 → entries_from (t.root.size + 1) (begin t.root t.pager) ≡ (kvs, ok tt)
  unfolding begin entries_from
  entries_from-begin few =
      let es = leaf.leaf_entries in
      let count = length-Holds kvs es h.holds in
      let rounds : t.root.size + 1 ≡ suc (length kvs) = omega (arith, h.size_eq) in
      ap (λ n. entries_from n (begin t.root t.pager)) rounds
      ∙ elim (Bool-cases (t.root.size == 0)) [
        | inl empty ↦
            let nothing : kvs ≡ [] =
              length-zero kvs (omega (arith, (==_iff t.root.size 0).0 empty, h.size_eq)) in
            rw empty (ap (λ l. (l, ok tt)) (sym nothing))
        | inr filled ↦
            let start : begin t.root t.pager ≡ iterator_at t.root.root_page 0 t.pager =
              rw filled (ap (λ i. iterator_at i 0 t.pager) h.first) in
            ap (entries_from (suc (length kvs))) start
            ∙ entries_from-slot (length kvs) 0 kvs es t.pager h.holds
                (λ j. ap (get_elem? es) (omega arith)) (omega (arith, count))
                (omega (arith, count, few)) (ReadOk-refl t.pager h.valid)
                (ground (arith, filled, count, h.size_eq))
      ]
