-- ===== src/Storage/Index/OneLeaf/EraseKey.antt =====
-- `erase` of src/storage/disk_bsp_index.cpp on an index of one leaf.
use cw_db.Prelude.{
  ◌⊎◌, ℕ, suc, ◌-◌, ◌≤◌, ◌<◌, ◌≡◌, refl, Bool, true, false, List, [], ◌∷◌, none, some, inl, inr,
  leb, ◌==◌, if◌then◌else◌, length, All, arith, ap, sym, subst, ◌∙◌, Bool-cases, Option-cases,
  ==_iff,
}
use cw_db.Prelude.Error.{ok}
use cw_db.Core.Value.{Value, DataType}
use cw_db.Storage.ValueIo.RoundTrip.{IsStorable}
use cw_db.Storage.Page.{
  NodeType, LeafEntry, ParsedPage, page_size, parse, leaf_overflow, leaf_payload_bytes,
}
use cw_db.Storage.Page.Images.{IsEntry}
use cw_db.Storage.Page.RoundTrip.{stored}
use cw_db.Storage.Pager.{Pager}
use cw_db.Storage.Pager.Invariant.{view}
use cw_db.Storage.Index.{Root, make_entry}
use cw_db.Storage.Index.Tree.{
  Tree, T, ◌>>◌, ◌>>=◌, raise, then_do, pure, put_page, save_root, propagate_subtree_min_change,
}
use cw_db.Storage.Index.Change.{
  is_first, erase_key, erase_below, erase_in, erase_last, erase_kept, erase_rest, erase_seen,
  erase_probed, erase_at_place, erase_from,
}
use cw_db.Storage.Index.Change.Entries.{Holds, make_entry-Encodes}
use cw_db.Storage.Index.Change.LeafInsert.{insert_at-sorted}
use cw_db.Storage.Index.OneLeaf.{
  IsOneLeaf, entries_bytes, find_leaf-one, save_root-one, put_page-one, reread,
}
use cw_db.Storage.Index.OneLeaf.Insert.{payload-Holds, length-Holds}
use cw_db.Storage.Table.Laws.{IsKey, Ascends}
use cw_db.Storage.Table.Sorted.{Entries, Keys, lookup_entry, without, without-Keys, without-Ascends}
use cw_db.Storage.Index.OneLeaf.Erased.{
  erase_at-Holds, erase_at-All, equals_at-key, entries_bytes-without,
}

pub length-zero : {A : Type 0} (xs : List A) → length xs ≡ 0 → xs ≡ []
length-zero [] h = refl
length-zero (x ∷ xs) h = absurd (omega arith)

if_same : {A : Type 0} (b : Bool) (x : A) → (if b then x else x) ≡ x
if_same true x = refl
if_same false x = refl

-- The leaf with the entries that are left is written, and the superblock after it.
module _ (ty : DataType) (kvs kvs' : Entries) (t : Tree) (leaf : ParsedPage) (es' : List LeafEntry)
    (h : IsOneLeaf ty kvs t leaf) (holds : Holds kvs' es') (entries : All IsEntry es')
    (up : Ascends kvs') (keys : Keys ty kvs') (few : length es' ≤ 255)
    (fits : entries_bytes 12 kvs' ≤ page_size) where
  abbrev left : ParsedPage
  left = record leaf { leaf_entries = es' }

  written-OneLeaf :
      (before after : Root)
      → after.root_page ≡ t.root.root_page
      → after.first_leaf_page ≡ t.root.root_page
      → after.size ≡ length kvs'
      → (q r : Pager) × (put_page left (record { root = before; pager = t.pager })
          ≡ (ok tt, record { root = before; pager = q }))
        × (save_root (record { root = after; pager = q })
            ≡ (ok tt, record { root = after; pager = r }))
        × IsOneLeaf ty kvs' (record { root = after; pager = r }) (stored NodeType.leaf left)
  unfolding leaf_overflow leaf_payload_bytes
  written-OneLeaf before after same_root same_first size_eq =
      let no_overflow : leaf_overflow es' ≡ false =
        ground (arith, payload-Holds kvs' es' 12 holds, fits) in
      let (q, written, v2, page, count2, open2) =
        put_page-one (record { root = before; pager = t.pager }) left h.valid h.counted
          (omega (arith, h.page_id_eq, h.there)) h.leaf_type (entries, few, omega (arith, h.next))
          no_overflow in
      let (r, saved, v3, same, count3, open3) =
        save_root-one (record { root = after; pager = q }) v2 (omega (arith, count2, h.there)) in
      let same_page : leaf.page_id ≡ after.root_page = h.page_id_eq ∙ sym same_root in
      let above : 0 < after.root_page = omega (arith, same_root, h.above_zero) in
      (
        q,
        r,
        written,
        saved,
        record {
          valid = v3;
          counted = omega (arith, count3, count2, h.counted);
          above_zero = above;
          there = omega (arith, same_root, count3, count2, h.there);
          page =
              ap (parse after.root_page) (same after.root_page above)
              ∙ subst (λ i. parse i (view q i) ≡ ok (stored NodeType.leaf left)) same_page page;
          leaf_type = refl;
          page_id_eq = same_page;
          opened = open3 ∙ open2 ∙ h.opened;
          first = same_first ∙ sym same_root;
          next = h.next;
          entries = entries;
          holds = holds;
          ascends = up;
          keys = keys;
          size_eq = size_eq;
        },
      )

  abbrev smaller : Root
  smaller = record t.root { size = t.root.size - 1 }

  erase_in-OneLeaf :
      (slot : ℕ)
      → length kvs ≡ suc (length kvs')
      → (u : Tree) × (node : ParsedPage) × (erase_in left
            (t.root.root_page ∷ [])
            slot
            (record { root = smaller; pager = t.pager })
          ≡ (ok true, u))
        × IsOneLeaf ty kvs' u node
  unfolding propagate_subtree_min_change
  erase_in-OneLeaf slot one_less =
      let size_eq : t.root.size - 1 ≡ length kvs' = omega (arith, h.size_eq, one_less) in
      let path = t.root.root_page ∷ [] in
      let start : Tree = record { root = smaller; pager = t.pager } in
      let at_root : (leaf.page_id == t.root.root_page) ≡ true =
        (==_iff leaf.page_id t.root.root_page).1 h.page_id_eq in
      elim (Bool-cases (t.root.size - 1 == 0)) [
        | inl empty ↦
            let after : Root = record {
              root_page = leaf.page_id;
              first_leaf_page = leaf.page_id;
              size = t.root.size - 1;
            } in
            let (q, r, written, saved, one) =
              written-OneLeaf smaller after h.page_id_eq h.page_id_eq size_eq in
            let nothing : es' ≡ [] = length-zero es' (
              omega (
                arith,
                (==_iff (t.root.size - 1) 0).0 empty,
                size_eq,
                length-Holds kvs' es' holds,
              )) in
            let blank : put_page (record leaf { leaf_entries = [] }) start
                ≡ (ok tt, record { root = smaller; pager = q }) =
              ap (λ es. put_page (record leaf { leaf_entries = es }) start) (sym nothing)
              ∙ written in
            let chosen : erase_in left path slot start ≡ erase_last left start = rw empty refl in
            (
              record { root = after; pager = r },
              stored NodeType.leaf left,
              chosen
                  ∙ ap
                      (λ m. then_do m (λ _ s.
                        then_do
                          (save_root (record s { root = record after { size = s.root.size } }))
                          (λ _. pure true)))
                      blank
                  ∙ ap (λ m. then_do m (λ _. pure true)) saved,
              one,
            )
        | inr some_left ↦
            let (q, r, written, saved, one) =
              written-OneLeaf smaller smaller refl h.first size_eq in
            let keep : T (Unit {0}) = pure tt in
            let chosen : erase_in left path slot start ≡ erase_kept left path slot start =
              rw (some_left, at_root) refl in
            (
              record { root = smaller; pager = r },
              stored NodeType.leaf left,
              chosen
                  ∙ ap
                      (λ m. then_do m (λ _ s.
                        then_do ((if is_first slot es' then keep else keep) s)
                          (λ _. save_root >> pure true)))
                      written
                  ∙ ap
                      (λ (f : T (Unit {0})).
                        then_do (f (record { root = smaller; pager = q }))
                          (λ _. save_root >> pure true))
                      (if_same (is_first slot es') keep)
                  ∙ ap (λ m. then_do m (λ _. pure true)) saved,
              one,
            )
      ]

erase_below-there :
    (ty : DataType) (kvs : Entries) (t : Tree) (leaf : ParsedPage) (k : Value) (j : ℕ)
    (e : LeafEntry)
    → IsOneLeaf ty kvs t leaf
    → IsKey ty k
    → IsStorable k
    → make_entry k 0 ≡ ok e
    → lookup_entry kvs k ≡ some j
    → length kvs < 256
    → entries_bytes 12 kvs ≤ page_size
    → (u : Tree) × (node : ParsedPage) × (erase_below k t ≡ (ok true, u))
      × IsOneLeaf ty (without k kvs) u node
erase_below-there ty kvs t leaf k j e h key storable made there few fits =
    let (q, found, r) = find_leaf-one ty kvs t leaf k h in
    let es = leaf.leaf_entries in
    let count = length-Holds kvs es h.holds in
    let (slot, at_slot, same, _) =
      insert_at-sorted ty leaf kvs k 0 e (omega (arith, count, few)) h.holds h.ascends h.keys key
        storable made in
    let enc = make_entry-Encodes k 0 e storable made in
    let (kv, at_kv, is_k, below) =
      equals_at-key ty kvs es slot k 0 e h.holds h.keys key enc (same j there) in
    let (es', done, holds_kv) = erase_at-Holds ty kvs es slot kv h.holds h.ascends h.keys at_kv in
    let holds : Holds (without k kvs) es' = subst (λ v. Holds (without v kvs) es') is_k holds_kv in
    let (entries, one_less) = erase_at-All IsEntry slot es es' h.entries done in
    let inside : leb (length es) slot ≡ false = ground (arith, below) in
    let t1 : Tree = record t { pager = q } in
    let path = t.root.root_page ∷ [] in
    let (u, node, erased, one) =
      erase_in-OneLeaf ty kvs (without k kvs) t1 leaf es' (reread ty kvs t leaf q h r) holds entries
        (without-Ascends k kvs h.ascends) (without-Keys ty k kvs h.keys)
        (omega (arith, one_less, count, few)) (omega (arith, entries_bytes-without 12 k kvs, fits))
        slot (omega (arith, count, one_less, length-Holds (without k kvs) es' holds)) in
    (
      u,
      node,
      ap (λ m. then_do m (erase_from k)) found
          ∙ ap (λ r. then_do (r, t1) (erase_at_place k leaf path)) at_slot
          ∙ ap
              (λ b.
                (if b then pure false else (raise (make_entry k 0) >>= erase_probed leaf path slot))
                  t1)
              inside
          ∙ ap (λ r. then_do (r, t1) (erase_probed leaf path slot)) made
          ∙ ap (λ r. then_do (r, t1) (erase_seen leaf path slot)) (same j there)
          ∙ ap (λ r. then_do (r, t1) (erase_rest leaf path slot)) done
          ∙ erased,
      one,
    )

erase_below-none :
    (ty : DataType) (kvs : Entries) (t : Tree) (leaf : ParsedPage) (k : Value) (e : LeafEntry)
    → IsOneLeaf ty kvs t leaf
    → IsKey ty k
    → IsStorable k
    → make_entry k 0 ≡ ok e
    → lookup_entry kvs k ≡ none
    → length kvs < 256
    → (u : Tree) × (erase_below k t ≡ (ok false, u)) × IsOneLeaf ty kvs u leaf
erase_below-none ty kvs t leaf k e h key storable made free few =
    let (q, found, r) = find_leaf-one ty kvs t leaf k h in
    let es = leaf.leaf_entries in
    let (slot, at_slot, _, put) =
      insert_at-sorted ty leaf kvs k 0 e (omega (arith, length-Holds kvs es h.holds, few)) h.holds
        h.ascends h.keys key storable made in
    let (es', differs, _, _, _) = put free in
    let t1 : Tree = record t { pager = q } in
    let path = t.root.root_page ∷ [] in
    (
      t1,
      ap (λ m. then_do m (erase_from k)) found
          ∙ ap (λ r. then_do (r, t1) (erase_at_place k leaf path)) at_slot
          ∙ ap
              (λ r.
                (if leb (length es) slot
                    then pure false
                    else (raise r >>= erase_probed leaf path slot))
                  t1)
              made
          ∙ ap
              (λ r.
                (if leb (length es) slot
                    then pure false
                    else (raise r >>= erase_seen leaf path slot))
                  t1)
              differs
          ∙ ap (λ (f : T Bool). f t1) (if_same (leb (length es) slot) (pure false)),
      reread ty kvs t leaf q h r,
    )

-- `erase` of a storable key, on an index whose root is a leaf of at most 255 ascending keys of the key's
-- type that fits on its page, returns. A key that is there is taken away: `erase` returns true, and the
-- root is then a leaf that holds the list without the key. For a key that is not there it returns false,
-- and the root is the leaf it was.
pub erase_key-OneLeaf :
    (ty : DataType) (kvs : Entries) (t : Tree) (leaf : ParsedPage) (k : Value) (e : LeafEntry)
    → IsOneLeaf ty kvs t leaf
    → IsKey ty k
    → IsStorable k
    → make_entry k 0 ≡ ok e
    → length kvs < 256
    → entries_bytes 12 kvs ≤ page_size
    → ((j : ℕ) × (lookup_entry kvs k ≡ some j)
        × (u : Tree) × (node : ParsedPage) × (erase_key k t ≡ (ok true, u))
        × IsOneLeaf ty (without k kvs) u node)
      ⊎ ((lookup_entry kvs k ≡ none)
          × (u : Tree) × (erase_key k t ≡ (ok false, u))
          × IsOneLeaf ty kvs u leaf)
unfolding erase_key lookup_entry
erase_key-OneLeaf ty [] t leaf k e h key storable made few fits =
    inr (refl, t, ap (λ (n : ℕ). if n == 0 then (ok false, t) else erase_below k t) h.size_eq, h)
erase_key-OneLeaf ty (kv ∷ kvs) t leaf k e h key storable made few fits =
    let filled : (t.root.size == 0) ≡ false = ground (arith, h.size_eq) in
    let below : erase_key k t ≡ erase_below k t = rw filled refl in
    elim (Option-cases (lookup_entry (kv ∷ kvs) k)) [
      | inr (j, there) ↦
          let (u, node, done, one) =
            erase_below-there ty (kv ∷ kvs) t leaf k j e h key storable made there few fits in
          inl (j, there, u, node, below ∙ done, one)
      | inl free ↦
          let (u, done, one) =
            erase_below-none ty (kv ∷ kvs) t leaf k e h key storable made free few in
          inr (free, u, below ∙ done, one)
    ]
