-- ===== src/Storage/Index/OneLeaf/Insert.antt =====
-- An index of one leaf under insertion: `insert` of src/storage/disk_bsp_index.cpp.
use cw_db.Prelude.{
  ℕ, zero, suc, ◌+◌, ◌%◌, ◌^◌, ◌≤◌, ◌<◌, ◌≡◌, refl, false, List, [], ◌∷◌, none, inl, inr, length,
  All, arith, ap, sym, subst, ◌∙◌,
}
use cw_db.Prelude.Error.{ok, Result-cases}
use cw_db.Core.Value.{Value, DataType}
use cw_db.Storage.ValueIo.{encoding, encode_value}
use cw_db.Storage.ValueIo.RoundTrip.{IsStorable, length-encoding}
use cw_db.Storage.Page.{
  NodeType, LeafEntry, ParsedPage, page_size, parse, leaf_payload_from, leaf_payload_bytes,
  leaf_overflow,
}
use cw_db.Storage.Page.Images.{IsEntry}
use cw_db.Storage.Page.RoundTrip.{stored}
use cw_db.Storage.Pager.{Pager}
use cw_db.Storage.Pager.Invariant.{view}
use cw_db.Storage.Index.{make_entry}
use cw_db.Storage.Index.Vectors.{insert_at}
use cw_db.Storage.Index.Tree.{Tree, then_do}
use cw_db.Storage.Index.Change.{
  write_or_split_leaf, insert_below, insert_in, insert_at_place, insert_new, insert_written,
  insert_done,
}
use cw_db.Storage.Index.Change.Entries.{Encodes, Holds, make_entry-Encodes}
use cw_db.Storage.Index.Change.LeafInsert.{insert_at-sorted}
use cw_db.Storage.Table.Laws.{IsKey}
use cw_db.Storage.Table.Sorted.{Entries, lookup_entry, with_entry, with_entry-Keys}
use cw_db.Storage.Index.OneLeaf.{
  IsOneLeaf, entries_bytes, find_leaf-one, save_root-one, put_page-one,
}

pub payload-Holds :
    (kvs : Entries) (es : List LeafEntry) (off : ℕ)
    → Holds kvs es
    → leaf_payload_from off es ≡ entries_bytes off kvs
unfolding leaf_payload_from
payload-Holds [] [] off h = refl
payload-Holds [] (e ∷ es) off h = absurd h
payload-Holds (kv ∷ kvs) [] off h = absurd h
payload-Holds ((v, id) ∷ kvs) (e ∷ es) off h =
    ap (λ n. leaf_payload_from (off + (2 + n + 8)) es) h.0.key_len_eq
    ∙ payload-Holds kvs es (off + (2 + length (encoding v) + 8)) h.1

pub length-Holds : (kvs : Entries) (es : List LeafEntry) → Holds kvs es → length es ≡ length kvs
length-Holds [] [] h = refl
length-Holds [] (e ∷ es) h = absurd h
length-Holds (kv ∷ kvs) [] h = absurd h
length-Holds ((v, id) ∷ kvs) (e ∷ es) h = ap suc (length-Holds kvs es h.1)

pub length-with_entry :
    (k : Value) (id : ℕ) (kvs : Entries) → length (with_entry k id kvs) ≡ suc (length kvs)
unfolding with_entry
length-with_entry k id [] = refl
length-with_entry k id ((w, i) ∷ kvs) = ground (arith, length-with_entry k id kvs)

insert_at-All :
    {A : Type 0} (P : A → Type 0) (i : ℕ) (x : A) (xs ys : List A)
    → P x
    → All P xs
    → insert_at i x xs ≡ ok ys
    → All P ys
unfolding insert_at
insert_at-All P zero x xs ys p all h =
    let e : x ∷ xs ≡ ys = ground arith in subst (All P) e (p, all)
insert_at-All P (suc i) x [] ys p all h = absurd (ground arith)
insert_at-All P (suc i) x (y ∷ xs) ys p all h = elim (Result-cases (insert_at i x xs)) [
  | inr (e, failed) ↦ absurd (ground (arith, h, failed))
  | inl (zs, done) ↦
      let e : y ∷ zs ≡ ys = ground (arith, h, done) in
      subst (All P) e (all.0, insert_at-All P i x xs zs p all.1 done)
]

-- A key that can be encoded is short.
pub key_short :
    (k : Value) (id : ℕ) (e : LeafEntry) → make_entry k id ≡ ok e → length (encoding k) < 2 ^ 16
unfolding make_entry encode_value
key_short k id e h = ground (arith, h, length-encoding k)

pub Encodes-IsEntry :
    (k : Value) (id : ℕ) (e : LeafEntry)
    → Encodes k id e
    → length (encoding k) < 2 ^ 16
    → id < 2 ^ 64
    → IsEntry e
Encodes-IsEntry k id e enc short small = record {
  key_len-eq = ap length enc.key_eq ∙ sym enc.key_len_eq;
  key_len-lt = omega (arith, enc.key_len_eq, short);
  rid-lt = omega (arith, enc.rid_eq, small);
}

-- The next state of the tree, with the pager that a step left.
abbrev pub grown : Tree → Pager → Tree
grown t q = record { root = record t.root { size = (t.root.size + 1) % 2 ^ 64 }; pager = q }

-- An insertion of a new key into an index whose root is a leaf, where the new leaf fits on its page and
-- has 255 entries at most, returns, and the root is then a leaf that holds the list with the key in it.
pub insert_below-OneLeaf :
    (ty : DataType) (kvs : Entries) (t : Tree) (leaf : ParsedPage) (k : Value) (id : ℕ)
    (e : LeafEntry)
    → IsOneLeaf ty kvs t leaf
    → IsKey ty k
    → IsStorable k
    → id < 2 ^ 64
    → make_entry k id ≡ ok e
    → lookup_entry kvs k ≡ none
    → length kvs < 255
    → entries_bytes 12 (with_entry k id kvs) ≤ page_size
    → (u : Tree) × (node : ParsedPage) × (insert_below k e t ≡ (ok tt, u))
      × IsOneLeaf ty (with_entry k id kvs) u node
unfolding leaf_overflow leaf_payload_bytes
insert_below-OneLeaf ty kvs t leaf k id e h key storable small made free few fits =
    let (q1, found, r1) = find_leaf-one ty kvs t leaf k h in
    let count = length-Holds kvs leaf.leaf_entries h.holds in
    let (slot, at_slot, _, put) =
      insert_at-sorted ty leaf kvs k id e (omega (arith, count)) h.holds h.ascends h.keys key
        storable made in
    let (es, differs, done, holds, up) = put free in
    let next = record leaf { leaf_entries = es } in
    let t1 = record t { pager = q1 } in
    let path = t.root.root_page ∷ [] in
    let size_es : length es ≡ suc (length kvs) =
      length-Holds (with_entry k id kvs) es holds ∙ length-with_entry k id kvs in
    let no_overflow : leaf_overflow es ≡ false =
      ground (arith, payload-Holds (with_entry k id kvs) es 12 holds, fits) in
    let enc = make_entry-Encodes k id e storable made in
    let entries =
      insert_at-All IsEntry slot e leaf.leaf_entries es
        (Encodes-IsEntry k id e enc (key_short k id e made) small) h.entries done in
    let (q2, written, v2, page, count2, open2) =
      put_page-one t1 next r1.valid (omega (arith, r1.count_eq, h.counted))
        (omega (arith, r1.count_eq, h.page_id_eq, h.there)) h.leaf_type
        (entries, omega (arith, size_es, few), omega (arith, h.next)) no_overflow in
    let kept : write_or_split_leaf next path t1 ≡ (ok tt, record t { pager = q2 }) =
      unfold write_or_split_leaf in rw no_overflow written in
    let t2 = grown t q2 in
    let (q3, saved, v3, same, count3, open3) =
      save_root-one t2 v2 (omega (arith, count2, r1.count_eq, h.there)) in
    (
      grown t q3,
      stored NodeType.leaf next,
      ap (λ m. then_do m (insert_in k e)) found
          ∙ ap (λ r. then_do (r, t1) (insert_at_place e leaf path)) at_slot
          ∙ ap (λ r. then_do (r, t1) (insert_new e leaf path slot)) differs
          ∙ ap (λ r. then_do (r, t1) (insert_written leaf path)) done
          ∙ ap (λ m. then_do m (λ _. insert_done)) kept
          ∙ saved,
      record {
        valid = v3;
        counted = omega (arith, count3, count2, r1.count_eq, h.counted);
        above_zero = h.above_zero;
        there = omega (arith, count3, count2, r1.count_eq, h.there);
        page =
            ap (parse t.root.root_page) (same t.root.root_page h.above_zero)
            ∙ subst (λ i. parse i (view q2 i) ≡ ok (stored NodeType.leaf next)) h.page_id_eq page;
        leaf_type = refl;
        page_id_eq = h.page_id_eq;
        opened = open3 ∙ open2 ∙ r1.open_eq ∙ h.opened;
        first = h.first;
        next = h.next;
        entries = entries;
        holds = holds;
        ascends = up;
        keys = with_entry-Keys ty k id kvs key h.keys;
        size_eq = omega (arith, h.size_eq, few, length-with_entry k id kvs);
      },
    )
