-- ===== src/Storage/Index/OneLeaf/InsertKey.antt =====
-- `insert` of src/storage/disk_bsp_index.cpp, as a whole, on an index of one leaf.
use cw_db.Prelude.{
  ◌⊎◌, ℕ, ◌^◌, ◌≤◌, ◌<◌, ◌≡◌, refl, false, [], ◌∷◌, none, some, inl, inr, ◌==◌, if◌then◌else◌,
  length, arith, ap, ◌∙◌, Option-cases,
}
use cw_db.Prelude.Error.{ok, throw, duplicate_key}
use cw_db.Core.Value.{Value, DataType, is_null}
use cw_db.Storage.ValueIo.RoundTrip.{IsStorable}
use cw_db.Storage.Page.{
  NodeType, LeafEntry, ParsedPage, page_size, parse, leaf_overflow, leaf_payload_bytes,
}
use cw_db.Storage.Page.RoundTrip.{stored}
use cw_db.Storage.Index.{empty_leaf, make_entry}
use cw_db.Storage.Index.Tree.{Tree, then_do, save_root, set_size}
use cw_db.Storage.Index.Change.{
  insert_below, insert_first, insert_in, insert_at_place, insert_new, insert_key,
}
use cw_db.Storage.Index.Change.Entries.{Holds, make_entry-Encodes}
use cw_db.Storage.Index.Change.LeafInsert.{insert_at-sorted}
use cw_db.Storage.Index.OneLeaf.{
  IsOneLeaf, entries_bytes, find_leaf-one, save_root-one, put_page-one, reread,
}
use cw_db.Storage.Index.OneLeaf.Insert.{
  key_short, Encodes-IsEntry, payload-Holds, length-Holds, insert_below-OneLeaf,
}
use cw_db.Storage.Table.Laws.{IsKey}
use cw_db.Storage.Table.Sorted.{Entries, lookup_entry, with_entry}

-- The first entry of an index.
insert_first-OneLeaf :
    (ty : DataType) (t : Tree) (leaf : ParsedPage) (k : Value) (id : ℕ) (e : LeafEntry)
    → IsOneLeaf ty [] t leaf
    → IsKey ty k
    → IsStorable k
    → id < 2 ^ 64
    → make_entry k id ≡ ok e
    → entries_bytes 12 ((k, id) ∷ []) ≤ page_size
    → (u : Tree) × (node : ParsedPage) × (insert_first e t ≡ (ok tt, u))
      × IsOneLeaf ty ((k, id) ∷ []) u node
unfolding leaf_overflow leaf_payload_bytes
insert_first-OneLeaf ty t leaf k id e h key storable small made fits =
    let enc = make_entry-Encodes k id e storable made in
    let holds : Holds ((k, id) ∷ []) (e ∷ []) = (enc, tt) in
    let next = record (empty_leaf t.root.root_page) { leaf_entries = e ∷ [] } in
    let no_overflow : leaf_overflow (e ∷ []) ≡ false =
      ground (arith, payload-Holds ((k, id) ∷ []) (e ∷ []) 12 holds, fits) in
    let entry = Encodes-IsEntry k id e enc (key_short k id e made) small in
    let (q2, written, v2, page, count2, open2) =
      put_page-one t next h.valid h.counted h.there refl ((entry, tt), omega arith, omega arith)
        no_overflow in
    let t2 = record t { root = record t.root { size = 1 }; pager = q2 } in
    let (q3, saved, v3, same, count3, open3) =
      save_root-one t2 v2 (omega (arith, count2, h.there)) in
    (
      record t2 { pager = q3 },
      stored NodeType.leaf next,
      ap (λ m. then_do m (λ _. λ s. then_do (set_size 1 s) (λ _. save_root))) written ∙ saved,
      record {
        valid = v3;
        counted = omega (arith, count3, count2, h.counted);
        above_zero = h.above_zero;
        there = omega (arith, count3, count2, h.there);
        page = ap (parse t.root.root_page) (same t.root.root_page h.above_zero) ∙ page;
        leaf_type = refl;
        page_id_eq = refl;
        opened = open3 ∙ open2 ∙ h.opened;
        first = h.first;
        next = refl;
        entries = (entry, tt);
        holds = holds;
        ascends = (tt, tt);
        keys = (key, tt);
        size_eq = refl;
      },
    )

-- A key that is there.
insert_below-twice :
    (ty : DataType) (kvs : Entries) (t : Tree) (leaf : ParsedPage) (k : Value) (id j : ℕ)
    (e : LeafEntry)
    → IsOneLeaf ty kvs t leaf
    → IsKey ty k
    → IsStorable k
    → make_entry k id ≡ ok e
    → lookup_entry kvs k ≡ some j
    → length kvs < 2 ^ 16
    → (u : Tree) × (insert_below k e t ≡ (throw duplicate_key, u)) × IsOneLeaf ty kvs u leaf
insert_below-twice ty kvs t leaf k id j e h key storable made there few =
    let (q, found, r) = find_leaf-one ty kvs t leaf k h in
    let count = length-Holds kvs leaf.leaf_entries h.holds in
    let (slot, at_slot, same, _) =
      insert_at-sorted ty leaf kvs k id e (omega (arith, count, few)) h.holds h.ascends h.keys key
        storable made in
    let t1 = record t { pager = q } in
    let path = t.root.root_page ∷ [] in
    (
      t1,
      ap (λ m. then_do m (insert_in k e)) found
          ∙ ap (λ r. then_do (r, t1) (insert_at_place e leaf path)) at_slot
          ∙ ap (λ r. then_do (r, t1) (insert_new e leaf path slot)) (same j there),
      reread ty kvs t leaf q h r,
    )

insert_key-made :
    (k : Value) (id : ℕ) (e : LeafEntry) (t : Tree)
    → is_null k ≡ false
    → make_entry k id ≡ ok e
    → insert_key k id t ≡ (if t.root.size == 0 then insert_first e t else insert_below k e t)
unfolding insert_key
insert_key-made k id e t some_key made = rw (some_key, made) refl

-- `insert` of a storable key and a 64-bit record id that fit on the page, into an index whose root is a
-- leaf of at most 254 ascending keys of the key's type. A key that is not there is put in: `insert`
-- returns, and the root is then a leaf that holds the list with the key and its record id in it. A key
-- that is there is refused with "Duplicate index key", and the root is the leaf it was.
pub insert_key-OneLeaf :
    (ty : DataType) (kvs : Entries) (t : Tree) (leaf : ParsedPage) (k : Value) (id : ℕ)
    (e : LeafEntry)
    → IsOneLeaf ty kvs t leaf
    → IsKey ty k
    → IsStorable k
    → id < 2 ^ 64
    → make_entry k id ≡ ok e
    → length kvs < 255
    → entries_bytes 12 (with_entry k id kvs) ≤ page_size
    → ((lookup_entry kvs k ≡ none)
        × (u : Tree) × (node : ParsedPage) × (insert_key k id t ≡ (ok tt, u))
        × IsOneLeaf ty (with_entry k id kvs) u node)
      ⊎ ((j : ℕ) × (lookup_entry kvs k ≡ some j)
          × (u : Tree) × (insert_key k id t ≡ (throw duplicate_key, u))
          × IsOneLeaf ty kvs u leaf)
unfolding lookup_entry with_entry
insert_key-OneLeaf ty [] t leaf k id e h key storable small made few fits =
    let (u, node, done, one) =
      insert_first-OneLeaf ty t leaf k id e h key storable small made fits in
    let choose = λ (n : ℕ). if n == 0 then insert_first e t else insert_below k e t in
    inl (refl, u, node, insert_key-made k id e t key.0 made ∙ ap choose h.size_eq ∙ done, one)
insert_key-OneLeaf ty (kv ∷ kvs) t leaf k id e h key storable small made few fits =
    let filled : (t.root.size == 0) ≡ false = ground (arith, h.size_eq) in
    let below : insert_key k id t ≡ insert_below k e t =
      insert_key-made k id e t key.0 made ∙ rw filled refl in
    elim (Option-cases (lookup_entry (kv ∷ kvs) k)) [
      | inl free ↦
          let (u, node, done, one) =
            insert_below-OneLeaf ty (kv ∷ kvs) t leaf k id e h key storable small made free few
              fits in
          inl (free, u, node, below ∙ done, one)
      | inr (j, there) ↦
          let (u, refused, one) =
            insert_below-twice ty (kv ∷ kvs) t leaf k id j e h key storable made there
              (omega (arith, few)) in
          inr (j, there, u, below ∙ refused, one)
    ]
