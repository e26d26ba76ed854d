-- ===== src/Storage/Page/RoundTrip.antt =====
-- Pages read back as they were written: `read_page` after `write_page` of
-- src/storage/disk_bsp_index.cpp.
use cw_db.Prelude.{
  ℕ, ◌+◌, ◌-◌, ◌*◌, ◌%◌, ◌≤◌, ◌≡◌, [], ◌++◌, map, length, replicate, All, arith, length-append,
  length-replicate, append_assoc, ap, sym, ◌∙◌,
}
use cw_db.Prelude.Bytes.{Bytes}
use cw_db.Prelude.Error.{ok}
use cw_db.Storage.Page.{
  NodeType, ParsedPage, page_size, leaf_payload_bytes, inner_payload_bytes, leaf_overflow,
  inner_overflow, leaf_image, child_image, key_image, header_image, leaf_front, inner_front, render,
  render_as, parse, parse_body, zero_filled,
}
use cw_db.Storage.Page.Images.{
  IsEntry, IsPageId, without_rid, header_size, parse-header, parse-leaf_image, parse-key_image,
  parse-child_image, length-child_image, drop-child_image, payload-leaf_image, payload-key_image,
}

-- What the fields of a page have to satisfy so that their stored forms hold them: the count of
-- entries fits in one byte, page ids fit in four.
abbrev pub IsWritable : NodeType → ParsedPage → Type 0
IsWritable NodeType.leaf p =
    All IsEntry p.leaf_entries × (length p.leaf_entries ≤ 255) × IsPageId p.next_leaf
IsWritable NodeType.inner p =
    All IsEntry p.inner_keys
    × (length p.inner_keys ≤ 255)
    × All IsPageId p.children
    × (length p.children ≡ length p.inner_keys + 1)

-- The page that is read back: the fields of its own type, the count of its entries, and for an inner
-- page the separators without record ids and no next leaf.
abbrev pub stored : NodeType → ParsedPage → ParsedPage
stored NodeType.leaf p = record {
  page_id = p.page_id;
  type = NodeType.leaf;
  key_count = length p.leaf_entries;
  next_leaf = p.next_leaf;
  leaf_entries = p.leaf_entries;
  inner_keys = [];
  children = [];
}
stored NodeType.inner p = record {
  page_id = p.page_id;
  type = NodeType.inner;
  key_count = length p.inner_keys;
  next_leaf = 0;
  leaf_entries = [];
  inner_keys = map without_rid p.inner_keys;
  children = p.children;
}

length-zero_filled :
    (front : Bytes) → length front ≤ page_size → length (zero_filled front) ≡ page_size
length-zero_filled front h = omega (
  arith,
  length-append front (replicate (page_size - length front) 0),
  length-replicate {A = ℕ} (page_size - length front) 0,
)

length-leaf_front :
    (p : ParsedPage)
    → All IsEntry p.leaf_entries
    → length (leaf_front p) ≡ leaf_payload_bytes p.leaf_entries
unfolding leaf_front leaf_payload_bytes
length-leaf_front p h =
    let head = header_image 1 (length p.leaf_entries) p.next_leaf in
    omega (
      arith,
      length-append head (leaf_image p.leaf_entries),
      header_size 1 (length p.leaf_entries) p.next_leaf,
      payload-leaf_image p.leaf_entries 12 h,
    )

pub length-inner_front :
    (p : ParsedPage)
    → All IsEntry p.inner_keys
    → length (inner_front p) ≡ inner_payload_bytes p.inner_keys (length p.children)
unfolding inner_front inner_payload_bytes
length-inner_front p h =
    let body = child_image p.children ++ key_image p.inner_keys in
    omega (
      arith,
      length-append (header_image 2 (length p.inner_keys) 0) body,
      length-append (child_image p.children) (key_image p.inner_keys),
      header_size 2 (length p.inner_keys) 0,
      length-child_image p.children,
      payload-key_image p.inner_keys (12 + length p.children * 4) h,
    )

parse-leaf_front :
    (p : ParsedPage) (zeros : Bytes)
    → IsWritable NodeType.leaf p
    → parse p.page_id (leaf_front p ++ zeros) ≡ ok (stored NodeType.leaf p)
unfolding leaf_front parse_body
parse-leaf_front p zeros (entries, count, next) =
    let n = length p.leaf_entries in
    let e : n % 256 ≡ n = omega arith in
    let body = leaf_image p.leaf_entries ++ zeros in
    ap (parse p.page_id)
      (append_assoc (header_image 1 n p.next_leaf) (leaf_image p.leaf_entries) zeros)
    ∙ parse-header 1 n p.next_leaf p.page_id body (omega arith) next
    ∙ rw (e, parse-leaf_image p.leaf_entries zeros entries)

parse-inner_front :
    (p : ParsedPage) (zeros : Bytes)
    → IsWritable NodeType.inner p
    → length (inner_front p) ≤ page_size
    → parse p.page_id (inner_front p ++ zeros) ≡ ok (stored NodeType.inner p)
unfolding inner_front parse_body
parse-inner_front p zeros (keys, count, children, ends) fits =
    let n = length p.inner_keys in
    let e : n % 256 ≡ n = omega arith in
    let behind = key_image p.inner_keys ++ zeros in
    let body = child_image p.children ++ behind in
    let head = header_image 2 n 0 in
    let room : 12 + length p.children * 4 ≤ page_size = omega (
      arith,
      length-append head (child_image p.children ++ key_image p.inner_keys),
      length-append (child_image p.children) (key_image p.inner_keys),
      length-child_image p.children,
      header_size 2 n 0,
    ) in
    ap (parse p.page_id) (
      append_assoc head (child_image p.children ++ key_image p.inner_keys) zeros
      ∙ ap (◌++◌ head) (append_assoc (child_image p.children) (key_image p.inner_keys) zeros))
    ∙ parse-header 2 n 0 p.page_id body (omega arith) (omega arith)
    ∙ ground (
      arith,
      e,
      ends,
      room,
      parse-child_image p.children behind children,
      drop-child_image p.children behind,
      parse-key_image p.inner_keys zeros keys,
    )

length-eq_front :
    (front raw : Bytes) (size : ℕ)
    → length front ≡ size
    → size ≤ page_size
    → zero_filled front ≡ raw
    → length raw ≡ page_size
length-eq_front front raw size e h same = rw (← same) (length-zero_filled front (omega arith))

parse-render_as :
    (t : NodeType) (p : ParsedPage) {raw : Bytes}
    → IsWritable t p
    → render_as t p ≡ ok raw
    → (length raw ≡ page_size) × (parse p.page_id raw ≡ ok (stored t p))
parse-render_as NodeType.leaf p {raw} w e =
    let size = leaf_payload_bytes p.leaf_entries in
    let zeros : Bytes = replicate (page_size - length (leaf_front p)) 0 in
    let fits : size ≤ page_size = unfold leaf_overflow in ground arith in
    let same : zero_filled (leaf_front p) ≡ raw = ground arith in
    (
      length-eq_front (leaf_front p) raw size (length-leaf_front p w.0) fits same,
      ap (parse p.page_id) (sym same) ∙ parse-leaf_front p zeros w,
    )
parse-render_as NodeType.inner p {raw} w e =
    let size = inner_payload_bytes p.inner_keys (length p.children) in
    let zeros : Bytes = replicate (page_size - length (inner_front p)) 0 in
    let fits : size ≤ page_size = unfold inner_overflow in ground arith in
    let same : zero_filled (inner_front p) ≡ raw = ground arith in
    (
      length-eq_front (inner_front p) raw size (length-inner_front p w.0) fits same,
      ap (parse p.page_id) (sym same)
          ∙ parse-inner_front p zeros w (omega (arith, length-inner_front p w.0)),
    )

-- A page of either type with 255 entries or separators at most, whose other fields fit their stored
-- forms and whose payload `write_page` accepts, is written as exactly one page of 4096 bytes, and
-- `read_page` of these bytes gives the fields of its type back, with the count of its entries; of an inner
-- page the separators come back without the record ids, which are not stored.
pub parse-render :
    (p : ParsedPage) {raw : Bytes}
    → IsWritable p.type p
    → render p ≡ ok raw
    → (length raw ≡ page_size) × (parse p.page_id raw ≡ ok (stored p.type p))
unfolding render
parse-render p w e = parse-render_as p.type p w e
