-- ===== src/Storage/Page/Counts.antt =====
-- The count of entries is one byte on the page, `raw[5]` in src/storage/disk_bsp_index.cpp: it
-- always holds the count of a leaf, and not always that of an inner page.
use cw_db.Prelude.{
  ℕ, ◌+◌, ◌-◌, ◌*◌, ◌%◌, ◌≤◌, ◌≡◌, refl, List, [], ◌∷◌, ◌++◌, false, length, replicate, take, drop,
  zero, suc, All, arith, append_assoc, length-append, ap, sym, ◌∙◌,
}
use cw_db.Prelude.Bytes.{Bytes, of_le}
use cw_db.Prelude.Error.{ok}
use cw_db.Storage.Page.{
  NodeType, LeafEntry, ParsedPage, page_size, leaf_payload_from, leaf_payload_bytes,
  inner_payload_bytes, leaf_overflow, inner_overflow, child_image, key_image, header_image,
  inner_front, render_as, parse, parse_body, parse_inner_keys, parse_children, zero_filled,
}
use cw_db.Storage.Page.Images.{IsEntry, parse-header, header_size, length-child_image}
use cw_db.Storage.Page.RoundTrip.{length-inner_front}

abbrev HasSix : LeafEntry → Type 0
HasSix e = 6 ≤ e.key_len

payload-ge :
    (es : List LeafEntry) (off : ℕ)
    → All HasSix es
    → off + 16 * length es ≤ leaf_payload_from off es
unfolding leaf_payload_from
payload-ge [] off h = omega arith
payload-ge (e ∷ es) off (v, h) = omega (arith, payload-ge es (off + (2 + e.key_len + 8)) h)

-- A leaf that does not overflow, whose first key has five bytes at least and whose others have six,
-- has at most 255 entries, so its count fits in the byte. So are encoded keys in a leaf: one that is
-- no NULL has five bytes only if it is the empty string, which comes first.
pub leaf_count-le :
    (e : LeafEntry) (es : List LeafEntry)
    → 5 ≤ e.key_len
    → All HasSix es
    → leaf_overflow (e ∷ es) ≡ false
    → length (e ∷ es) ≤ 255
unfolding leaf_overflow leaf_payload_bytes leaf_payload_from
leaf_count-le e es first rest fits = ground (arith, payload-ge es (12 + (2 + e.key_len + 8)) rest)

length-parse_inner_keys : (n : ℕ) (bytes : Bytes) → length (parse_inner_keys n bytes) ≡ n
unfolding parse_inner_keys
length-parse_inner_keys zero bytes = refl
length-parse_inner_keys (suc n) bytes =
    let klen = of_le (take 2 bytes) in ap suc (length-parse_inner_keys n (drop klen (drop 2 bytes)))

-- An inner page with well-formed separators, and a child more than these, reads back with the count
-- of its separators modulo 256, so of 256 separators or more, which `write_page` accepts where they
-- fit in 4096 bytes, whole multiples of 256 are lost.
pub length-parse-render_inner :
    (p : ParsedPage) {raw : Bytes}
    → All IsEntry p.inner_keys
    → length p.children ≡ length p.inner_keys + 1
    → render_as NodeType.inner p ≡ ok raw
    → (q : ParsedPage) × (parse p.page_id raw ≡ ok q)
      × (length q.inner_keys ≡ length p.inner_keys % 256)
unfolding inner_front parse_body
length-parse-render_inner p {raw} keys ends e =
    let n = length p.inner_keys in
    let head = header_image 2 n 0 in
    let parts = child_image p.children ++ key_image p.inner_keys in
    let zeros : Bytes = replicate (page_size - length (inner_front p)) 0 in
    let body = parts ++ zeros in
    let behind = drop ((n % 256 + 1) * 4) body in
    let fits : inner_payload_bytes p.inner_keys (length p.children) ≤ page_size =
      unfold inner_overflow in ground arith in
    let same : zero_filled (inner_front p) ≡ raw = ground arith in
    let room : 12 + (n % 256 + 1) * 4 ≤ page_size = omega (
      arith,
      length-inner_front p keys,
      length-append head parts,
      length-append (child_image p.children) (key_image p.inner_keys),
      length-child_image p.children,
      header_size 2 n 0,
    ) in
    (
      record {
        page_id = p.page_id;
        type = NodeType.inner;
        key_count = n % 256;
        next_leaf = 0;
        leaf_entries = [];
        inner_keys = parse_inner_keys (n % 256) behind;
        children = parse_children (n % 256 + 1) body;
      },
      ap (parse p.page_id) (sym same ∙ append_assoc head parts zeros)
          ∙ parse-header 2 n 0 p.page_id body (omega arith) (omega arith)
          ∙ ground (arith, room),
      length-parse_inner_keys (n % 256) behind,
    )
