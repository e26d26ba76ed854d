-- ===== src/Storage/Page.antt =====
-- Index pages and their bytes: the payload and fill tests, `read_page` and `write_page` of
-- src/storage/disk_bsp_index.cpp. Where the source moves an offset through the 4096 bytes of a page,
-- the model takes the bytes that are left.
pub mod Images
pub mod RoundTrip
pub mod Counts
use cw_db.Prelude.{
  ℕ, zero, suc, ◌+◌, ◌-◌, ◌*◌, ◌/◌, ◌^◌, ◌%◌, Bool, true, false, not, List, [], ◌∷◌, ◌++◌, ltb, leb,
  ◌==◌, if◌then◌else◌, length, take, drop, replicate,
}
use cw_db.Prelude.Bytes.{Bytes, le_bytes, of_le}
use cw_db.Prelude.Error.{
  Result, ok, ◌>>=◌, ◌>>◌, throw_if, leaf_page_overflow, inner_page_overflow, corrupt_index_page,
  corrupt_inner_page,
}

-- `kPageSize` and `kPageMagic` of include/storage/pager.h, `kLeafHeader` and `kInnerHeader`
abbrev pub page_size : ℕ
page_size = 4096

abbrev pub page_magic : ℕ
page_magic = 0x50414745

abbrev pub leaf_header : ℕ
leaf_header = 12

abbrev pub inner_header : ℕ
inner_header = 12

abbrev pub min_leaf_fill_bytes : ℕ
min_leaf_fill_bytes = 12 + (page_size - 12) * 2 / 3

abbrev pub min_inner_fill_bytes : ℕ
min_inner_fill_bytes = 12 + (page_size - 12) * 2 / 3

pub data NodeType : Type 0 where
  leaf inner : NodeType

pub record LeafEntry : Type 0 where
  pub key : Bytes
  pub key_len : ℕ
  pub rid : ℕ

pub record ParsedPage : Type 0 where
  pub page_id : ℕ
  pub type : NodeType
  pub key_count : ℕ
  pub next_leaf : ℕ
  pub leaf_entries : List LeafEntry
  pub inner_keys : List LeafEntry
  pub children : List ℕ

abbrev pub leaf_entry_bytes : ℕ → ℕ
leaf_entry_bytes key_len = 2 + key_len + 8

unfoldable pub leaf_payload_from : ℕ → List LeafEntry → ℕ
leaf_payload_from off [] = off
leaf_payload_from off (e ∷ es) = leaf_payload_from (off + (2 + e.key_len + 8)) es

unfoldable pub leaf_payload_bytes : List LeafEntry → ℕ
unfolding leaf_payload_from
leaf_payload_bytes entries = leaf_payload_from 12 entries

unfoldable pub inner_payload_from : ℕ → List LeafEntry → ℕ
inner_payload_from off [] = off
inner_payload_from off (k ∷ ks) = inner_payload_from (off + (2 + k.key_len)) ks

unfoldable pub inner_payload_bytes : List LeafEntry → ℕ → ℕ
unfolding inner_payload_from
inner_payload_bytes keys child_count = inner_payload_from (12 + child_count * 4) keys

unfoldable pub leaf_overflow : List LeafEntry → Bool
leaf_overflow entries = ltb page_size (leaf_payload_bytes entries)

unfoldable pub leaf_underflow : List LeafEntry → Bool → Bool
leaf_underflow entries true = false
leaf_underflow [] false = true
leaf_underflow (e ∷ es) false = ltb (leaf_payload_bytes (e ∷ es)) min_leaf_fill_bytes

unfoldable pub inner_overflow : List LeafEntry → List ℕ → Bool
inner_overflow keys children = ltb page_size (inner_payload_bytes keys (length children))

unfoldable pub inner_underflow : List LeafEntry → List ℕ → Bool → Bool
inner_underflow keys children true = false
inner_underflow keys children false =
    if leb (length children) 1
    then true
    else ltb (inner_payload_bytes keys (length children)) min_inner_fill_bytes

-- The sizes of the three parts when a pair of nodes becomes three.
unfoldable pub three_way_counts : ℕ → ℕ × ℕ × ℕ
three_way_counts total =
    let first = (total + 2) / 3 in
    let second = (total - first + 1) / 2 in (first, second, total - first - second)

-- `write_page`: the parts of the image, in the order in which they are copied.
unfoldable pub leaf_image : List LeafEntry → Bytes
leaf_image [] = []
leaf_image (e ∷ es) =
    le_bytes 2 e.key_len ++ (take e.key_len e.key ++ (le_bytes 8 e.rid ++ leaf_image es))

unfoldable pub child_image : List ℕ → Bytes
child_image [] = []
child_image (c ∷ cs) = le_bytes 4 c ++ child_image cs

unfoldable pub key_image : List LeafEntry → Bytes
key_image [] = []
key_image (k ∷ ks) = le_bytes 2 k.key_len ++ (take k.key_len k.key ++ key_image ks)

-- The first 12 bytes: the magic, the type, the count as one byte, two unused, the next leaf.
unfoldable pub header_image : ℕ → ℕ → ℕ → Bytes
header_image type count next =
    le_bytes 4 page_magic ++ (type ∷ (count % 256) ∷ 0 ∷ 0 ∷ le_bytes 4 next)

-- A buffer of zeros in which a front part has been written.
abbrev pub zero_filled : Bytes → Bytes
zero_filled front = front ++ replicate (page_size - length front) 0

unfoldable pub leaf_front : ParsedPage → Bytes
unfolding header_image leaf_image
leaf_front p = header_image 1 (length p.leaf_entries) p.next_leaf ++ leaf_image p.leaf_entries

unfoldable pub inner_front : ParsedPage → Bytes
unfolding header_image child_image key_image
inner_front p =
    header_image 2 (length p.inner_keys) 0 ++ (child_image p.children ++ key_image p.inner_keys)

abbrev pub render_as : NodeType → ParsedPage → Result Bytes
render_as NodeType.leaf p = do
  throw_if (leaf_overflow p.leaf_entries) leaf_page_overflow
  ok (zero_filled (leaf_front p))
render_as NodeType.inner p = do
  throw_if (inner_overflow p.inner_keys p.children) inner_page_overflow
  ok (zero_filled (inner_front p))

-- The bytes that `DiskBspIndex::write_page` hands to the pager.
unfoldable pub render : ParsedPage → Result Bytes
render p = render_as p.type p

-- `read_page`. A byte behind the end of the page is read only on a corrupt page; it is missing here.
unfoldable pub parse_leaf_entries : ℕ → Bytes → List LeafEntry
parse_leaf_entries zero bytes = []
parse_leaf_entries (suc n) bytes =
    let klen = of_le (take 2 bytes) in
    let behind = drop klen (drop 2 bytes) in
    let e : LeafEntry = record {
      key = take klen (drop 2 bytes);
      key_len = klen;
      rid = of_le (take 8 behind);
    } in
    let rest = e ∷ parse_leaf_entries n (drop 8 behind) in
    if ltb (length bytes) (2 + 8) then [] else rest

unfoldable pub parse_children : ℕ → Bytes → List ℕ
parse_children zero bytes = []
parse_children (suc n) bytes = of_le (take 4 bytes) ∷ parse_children n (drop 4 bytes)

unfoldable pub parse_inner_keys : ℕ → Bytes → List LeafEntry
parse_inner_keys zero bytes = []
parse_inner_keys (suc n) bytes =
    let klen = of_le (take 2 bytes) in
    let k : LeafEntry = record { key = take klen (drop 2 bytes); key_len = klen; rid = 0 } in
    k ∷ parse_inner_keys n (drop klen (drop 2 bytes))

-- `parse_body type page_id count next bytes`, with the bytes behind the header
unfoldable pub parse_body : NodeType → ℕ → ℕ → ℕ → Bytes → Result ParsedPage
unfolding parse_leaf_entries parse_children parse_inner_keys
parse_body NodeType.leaf page_id count next bytes = ok (record {
  page_id = page_id;
  type = NodeType.leaf;
  key_count = count;
  next_leaf = next;
  leaf_entries = parse_leaf_entries count bytes;
  inner_keys = [];
  children = [];
})
parse_body NodeType.inner page_id count next bytes = do
  throw_if (ltb page_size (inner_header + (count + 1) * 4)) corrupt_inner_page
  ok (record {
    page_id = page_id;
    type = NodeType.inner;
    key_count = count;
    next_leaf = next;
    leaf_entries = [];
    inner_keys = parse_inner_keys count (drop ((count + 1) * 4) bytes);
    children = parse_children (count + 1) bytes;
  })

abbrev pub byte_at : ℕ → Bytes → ℕ
byte_at i bytes = of_le (take 1 (drop i bytes))

-- Every code path asks only whether the type is `Leaf`.
abbrev pub node_type : ℕ → NodeType
node_type t = if t == 1 then NodeType.leaf else NodeType.inner

unfoldable pub parse : ℕ → Bytes → Result ParsedPage
unfolding parse_body
parse page_id raw = do
  throw_if (not (of_le (take 4 raw) == page_magic)) corrupt_index_page
  parse_body (node_type (byte_at 4 raw)) page_id (byte_at 5 raw) (of_le (take 4 (drop 8 raw)))
      (drop leaf_header raw)
