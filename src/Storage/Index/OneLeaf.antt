-- ===== src/Storage/Index/OneLeaf.antt =====
-- An index of one leaf: `find_leaf`, the write of a leaf and of the superblock, in src/storage/disk_bsp_index.cpp.
pub mod Insert
pub mod InsertKey
pub mod FindKey
pub mod Erased
pub mod EraseKey
use cw_db.Prelude.{
  ℕ, zero, suc, ◌+◌, ◌%◌, ◌^◌, ◌≤◌, ◌<◌, ◌≡◌, refl, true, false, List, [], ◌∷◌, none, inl, inr,
  if◌then◌else◌, length, All, arith, ap, sym, subst, ◌∙◌, reverse, Bool-cases, ==_iff,
}
use cw_db.Prelude.Error.{Result, ok, Result-cases}
use cw_db.Core.Value.{Value, DataType}
use cw_db.Storage.ValueIo.{encoding, encode_value}
use cw_db.Storage.ValueIo.RoundTrip.{IsStorable, length-encoding}
use cw_db.Storage.Page.{
  NodeType, LeafEntry, ParsedPage, page_size, parse, render, leaf_payload_from, leaf_payload_bytes,
  leaf_overflow, leaf_front, zero_filled,
}
use cw_db.Storage.Page.Images.{IsEntry, IsPageId}
use cw_db.Storage.Page.RoundTrip.{IsWritable, stored, parse-render}
use cw_db.Storage.Pager.{Pager, and_then}
use cw_db.Storage.Pager
use cw_db.Storage.Pager.Invariant.{view}
use cw_db.Storage.Pager.Refinement.{IsValid, write_page-Wrote}
use cw_db.Storage.Pager.Reads.{ReadOk, read_page-view}
use cw_db.Storage.Index.{
  make_entry, descend, read_node, write_node, write_superblock, superblock_image,
}
use cw_db.Storage.Index.Superblock.{length-superblock_image}
use cw_db.Storage.Index.Vectors.{insert_at}
use cw_db.Storage.Index.Tree.{Tree, then_do, pure, put_page, save_root}
use cw_db.Storage.Index.Change.{
  find_leaf, write_or_split_leaf, insert_below, insert_in, insert_at_place, insert_new,
  insert_written, insert_done,
}
use cw_db.Storage.Index.Change.Entries.{Encodes, Holds, make_entry-Encodes}
use cw_db.Storage.Index.Change.LeafInsert.{insert_at-sorted}
use cw_db.Storage.Table.Laws.{IsKey, Ascends}
use cw_db.Storage.Table.Sorted.{Entries, Keys, lookup_entry, with_entry, with_entry-Keys}

-- The bytes of a leaf with these entries.
abbrev pub entries_bytes : ℕ → Entries → ℕ
entries_bytes off [] = off
entries_bytes off ((v, id) ∷ kvs) = entries_bytes (off + (2 + length (encoding v) + 8)) kvs

-- The root is a leaf, and holds the list.
pub record IsOneLeaf (ty : DataType) (kvs : Entries) (t : Tree) (leaf : ParsedPage) : Type 0 where
  pub valid : IsValid t.pager
  pub counted : t.pager.page_count < 2 ^ 32
  pub above_zero : 0 < t.root.root_page
  pub there : t.root.root_page < t.pager.page_count
  pub page : parse t.root.root_page (view t.pager t.root.root_page) ≡ ok leaf
  pub leaf_type : leaf.type ≡ NodeType.leaf
  pub page_id_eq : leaf.page_id ≡ t.root.root_page
  pub opened : t.pager.is_open ≡ true
  pub first : t.root.first_leaf_page ≡ t.root.root_page
  pub next : leaf.next_leaf ≡ 0
  pub entries : All IsEntry leaf.leaf_entries
  pub holds : Holds kvs leaf.leaf_entries
  pub ascends : Ascends kvs
  pub keys : Keys ty kvs
  pub size_eq : t.root.size ≡ length kvs

pub read_node-parse :
    (id : ℕ) (p : Pager) (node : ParsedPage)
    → IsValid p
    → id < p.page_count
    → parse id (view p id) ≡ ok node
    → (q : Pager) × (read_node id p ≡ (ok node, q)) × ReadOk p q
unfolding read_node
read_node-parse id p node v there parsed =
    let (q, e, r) = read_page-view id p v there in
    (q, ap (λ m. and_then m (λ raw s. (parse id raw, s))) e ∙ ap (λ x. (x, q)) parsed, r)

pub descend-leaf :
    (levels root : ℕ) (k : Value) (p : Pager) (node : ParsedPage)
    → 0 < levels
    → IsValid p
    → root < p.page_count
    → parse root (view p root) ≡ ok node
    → node.type ≡ NodeType.leaf
    → (q : Pager) × (descend levels root k p ≡ (ok (node, root ∷ []), q)) × ReadOk p q
unfolding descend
descend-leaf zero root k p node some_level v there parsed is_leaf = absurd (omega arith)
descend-leaf (suc levels) root k p node some_level v there parsed is_leaf =
    let (q, e, r) = read_node-parse root p node v there parsed in (q, rw (e, is_leaf) refl, r)

pub find_leaf-one :
    (ty : DataType) (kvs : Entries) (t : Tree) (leaf : ParsedPage) (k : Value)
    → IsOneLeaf ty kvs t leaf
    → (q : Pager) × (find_leaf k t ≡ (ok (leaf, t.root.root_page ∷ []), record t { pager = q }))
      × ReadOk t.pager q
unfolding find_leaf
find_leaf-one ty kvs t leaf k h =
    let (q, d, r) =
      descend-leaf t.pager.page_count t.root.root_page k t.pager leaf (omega (arith, h.there))
        h.valid h.there h.page h.leaf_type in
    (
      q,
      ap (λ m. then_do (m.0, record t { pager = m.1 }) (λ found. pure (found.0, reverse found.1)))
          d,
      r,
    )

abbrev after_write : Tree → Result (Unit {0}) × Pager → Result (Unit {0}) × Tree
after_write t m = (m.0, record t { pager = m.1 })

-- What a write leaves, and the superblock, where the file is open.
pub save_root-one :
    (t : Tree)
    → IsValid t.pager
    → 0 < t.pager.page_count
    → (q : Pager) × (save_root t ≡ (ok tt, record t { pager = q }))
      × IsValid q
      × ((j : ℕ) → 0 < j → view q j ≡ view t.pager j)
      × (q.page_count ≡ t.pager.page_count)
      × (q.is_open ≡ t.pager.is_open)
unfolding save_root write_superblock
save_root-one t v some_page = elim (Bool-cases t.pager.is_open) [
  | inr closed ↦ (t.pager, rw closed refl, v, λ j pos. refl, refl, refl)
  | inl opened ↦
      let image = superblock_image t.root in
      let (q, e, w) =
        write_page-Wrote 0 image t.pager v (length-superblock_image t.root) (omega arith)
          (omega arith) in
      (
        q,
        ap (λ b. after_write t (if b then Pager.write_page 0 image t.pager else (ok tt, t.pager)))
              opened
            ∙ ap (after_write t) e,
        w.valid,
        λ j pos. w.view_eq j ∙ ground arith,
        w.count_eq ∙ ground arith,
        w.open_eq,
      )
]

pub put_page-one :
    (t : Tree) (page : ParsedPage)
    → IsValid t.pager
    → t.pager.page_count < 2 ^ 32
    → page.page_id < t.pager.page_count
    → page.type ≡ NodeType.leaf
    → IsWritable NodeType.leaf page
    → leaf_overflow page.leaf_entries ≡ false
    → (q : Pager) × (put_page page t ≡ (ok tt, record t { pager = q }))
      × IsValid q
      × (parse page.page_id (view q page.page_id) ≡ ok (stored NodeType.leaf page))
      × (q.page_count ≡ t.pager.page_count)
      × (q.is_open ≡ t.pager.is_open)
unfolding put_page write_node
put_page-one t page v counted there is_leaf writable fits =
    let raw = zero_filled (leaf_front page) in
    let rendered : render page ≡ ok raw = unfold render in rw (is_leaf, fits) refl in
    let (size, back) = parse-render page (rw is_leaf writable) rendered in
    let (q, e, w) = write_page-Wrote page.page_id raw t.pager v size (omega arith) (omega arith) in
    (
      q,
      ap (λ r. after_write t (and_then (r, t.pager) (λ raw. Pager.write_page page.page_id raw)))
            rendered
          ∙ ap (after_write t) e,
      w.valid,
      ap (parse page.page_id)
            (w.view_eq page.page_id ∙ ground (arith, ==_iff page.page_id page.page_id))
          ∙ back
          ∙ ap (λ ty. ok (stored ty page)) is_leaf,
      w.count_eq ∙ ground arith,
      w.open_eq,
    )

-- Reads keep the leaf.
pub reread :
    (ty : DataType) (kvs : Entries) (t : Tree) (leaf : ParsedPage) (q : Pager)
    → IsOneLeaf ty kvs t leaf
    → ReadOk t.pager q
    → IsOneLeaf ty kvs (record t { pager = q }) leaf
reread ty kvs t leaf q h r = record {
  valid = r.valid;
  counted = omega (arith, r.count_eq, h.counted);
  above_zero = h.above_zero;
  there = omega (arith, r.count_eq, h.there);
  page = ap (parse t.root.root_page) (r.view_eq t.root.root_page) ∙ h.page;
  leaf_type = h.leaf_type;
  page_id_eq = h.page_id_eq;
  opened = r.open_eq ∙ h.opened;
  first = h.first;
  next = h.next;
  entries = h.entries;
  holds = h.holds;
  ascends = h.ascends;
  keys = h.keys;
  size_eq = h.size_eq;
}
