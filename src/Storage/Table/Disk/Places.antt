-- ===== src/Storage/Table/Disk/Places.antt =====
-- The slots that the searches of src/storage/disk_bsp_index.cpp give, as places in the list of entries.
use cw_db.Prelude.{
  ℕ, zero, suc, ◌+◌, ◌^◌, ◌<◌, ◌≡◌, refl, Bool, true, false, Option, if◌then◌else◌, List, [], ◌∷◌,
  none, some, Ordering, length, drop, arith, ap, sym, ◌∙◌,
}
use cw_db.Prelude.Error.{ok}
use cw_db.Core.Value.{Value, DataType, compare_value}
use cw_db.Storage.Page.{LeafEntry, ParsedPage}
use cw_db.Storage.Index.{cmp_at, is_below, is_not_above, leaf_lower, leaf_upper}
use cw_db.Storage.Index.Search.{Parts, lower_bound_slot-Parts, upper_bound_slot-Parts}
use cw_db.Storage.Index.Tree.{Tree}
use cw_db.Storage.Index.Change.Entries.{Encodes, Holds, cmp_key_bytes-Encodes}
use cw_db.Storage.Index.Change.LeafInsert.{Splits-below}
use cw_db.Storage.Index.OneLeaf.{IsOneLeaf}
use cw_db.Storage.Index.OneLeaf.Insert.{length-Holds}
use cw_db.Storage.Index.OneLeaf.FindKey.{Splits-not_above}
use cw_db.Storage.Table.Laws.{IsKey, IsStart, not_less}
use cw_db.Storage.Table.Sorted.{Entries, Keys, keys-valid, from_place}
use cw_db.Storage.Table.Disk.{entries_from, start_at}
use cw_db.Storage.Table.Disk.Range.{entries_from-search, entries_from-begin}

-- The test of the slot search for `lower_bound`, and for `upper_bound`.
abbrev test_of : Bool → Ordering → Bool
test_of true c = is_below c
test_of false c = is_not_above c

test-not_less :
    (inclusive : Bool) (c : Ordering × Bool) (b : Bool)
    → c.1 ≡ true
    → test_of inclusive c.0 ≡ b
    → not_less inclusive c ≡ (if b then false else true)
test-not_less true (Ordering.lt, true) b valid h = ground arith
test-not_less true (Ordering.eq, true) b valid h = ground arith
test-not_less true (Ordering.gt, true) b valid h = ground arith
test-not_less false (Ordering.lt, true) b valid h = ground arith
test-not_less false (Ordering.eq, true) b valid h = ground arith
test-not_less false (Ordering.gt, true) b valid h = ground arith
test-not_less inclusive (c, false) b valid h = absurd (ground arith)

module _ (ty : DataType) (lo : Value) (inclusive : Bool) (key : IsKey ty lo) where
  cmp_at-first :
      (e : LeafEntry) (es : List LeafEntry) (w : Value) (id : ℕ)
      → Encodes w id e
      → cmp_at (e ∷ es) 0 lo ≡ ok (compare_value w lo).0
  unfolding cmp_at
  cmp_at-first e es w id enc = cmp_key_bytes-Encodes w lo id e enc

  Parts-later :
      (e : LeafEntry) (es : List LeafEntry) (slot : ℕ)
      → Parts (test_of inclusive) (e ∷ es) lo (length (e ∷ es)) (suc slot)
      → Parts (test_of inclusive) es lo (length es) slot
  unfolding cmp_at
  Parts-later e es slot p = record {
    inside = omega (arith, p.inside);
    before = λ i c h at_i. p.before (suc i) c (omega arith) at_i;
    behind = λ i c h below at_i. p.behind (suc i) c (omega arith) (omega arith) at_i;
  }

  Parts-first :
      (e : LeafEntry) (es : List LeafEntry)
      → Parts (test_of inclusive) (e ∷ es) lo (length (e ∷ es)) 0
      → Parts (test_of inclusive) es lo (length es) 0
  unfolding cmp_at
  Parts-first e es p = record {
    inside = omega arith;
    before = λ i c h at_i. absurd (omega arith);
    behind = λ i c h below at_i. p.behind (suc i) c (omega arith) (omega arith) at_i;
  }

  -- The entries from the slot on are those that are not before the key.
  drop-from_place :
      (kvs : Entries) (es : List LeafEntry) (slot : ℕ)
      → Holds kvs es
      → Keys ty kvs
      → Parts (test_of inclusive) es lo (length es) slot
      → drop slot kvs ≡ from_place (some (lo, inclusive)) kvs
  unfolding from_place
  drop-from_place [] [] zero h keys p = refl
  drop-from_place [] [] (suc slot) h keys p = refl
  drop-from_place [] (e ∷ es) slot h keys p = absurd h
  drop-from_place (kv ∷ kvs) [] slot h keys p = absurd h
  drop-from_place ((w, id) ∷ kvs) (e ∷ es) zero h keys p =
      let behind =
        p.behind 0 (compare_value w lo).0 (omega arith) (omega arith)
          (cmp_at-first e es w id h.0) in
      let on =
        test-not_less inclusive (compare_value w lo) false (keys-valid ty w lo keys.0 key) behind in
      rw on (ap (λ l. (w, id) ∷ l) (drop-from_place kvs es 0 h.1 keys.1 (Parts-first e es p)))
  drop-from_place ((w, id) ∷ kvs) (e ∷ es) (suc slot) h keys p =
      let before = p.before 0 (compare_value w lo).0 (omega arith) (cmp_at-first e es w id h.0) in
      let off =
        test-not_less inclusive (compare_value w lo) true (keys-valid ty w lo keys.0 key) before in
      rw off (drop-from_place kvs es slot h.1 keys.1 (Parts-later e es slot p))

from_place-all : (kvs : Entries) → from_place none kvs ≡ kvs
unfolding from_place
from_place-all [] = refl
from_place-all (kv ∷ kvs) = ap (◌∷◌ kv) (from_place-all kvs)

pub entries_from-from_place :
    (ty : DataType) (kvs : Entries) (t : Tree) (leaf : ParsedPage) (from : Option (Value × Bool))
    → IsOneLeaf ty kvs t leaf
    → IsStart ty from
    → length kvs < 2 ^ 15
    → entries_from (t.root.size + 1) (start_at from t.root t.pager) ≡ (from_place from kvs, ok tt)
unfolding leaf_lower leaf_upper
entries_from-from_place ty kvs t leaf none h start few =
    entries_from-begin ty kvs t leaf h few ∙ ap (λ l. (l, ok tt)) (sym (from_place-all kvs))
entries_from-from_place ty kvs t leaf (some (lo, true)) h start few =
    let es = leaf.leaf_entries in
    let count = length-Holds kvs es h.holds in
    let (slot, found, parts) =
      lower_bound_slot-Parts leaf lo (omega (arith, count, few))
        (Splits-below ty kvs es lo h.holds h.ascends h.keys start) in
    entries_from-search ty kvs t leaf h leaf_lower lo slot few parts.inside (rw found refl)
    ∙ ap (λ l. (l, ok tt)) (drop-from_place ty lo true start kvs es slot h.holds h.keys parts)
entries_from-from_place ty kvs t leaf (some (lo, false)) h start few =
    let es = leaf.leaf_entries in
    let count = length-Holds kvs es h.holds in
    let (slot, found, parts) =
      upper_bound_slot-Parts leaf lo (omega (arith, count, few))
        (Splits-not_above ty kvs es lo h.holds h.ascends h.keys start) in
    entries_from-search ty kvs t leaf h leaf_upper lo slot few parts.inside (rw found refl)
    ∙ ap (λ l. (l, ok tt)) (drop-from_place ty lo false start kvs es slot h.holds h.keys parts)
