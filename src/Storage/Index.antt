-- ===== src/Storage/Index.antt =====
-- The B+ tree on disk as it is read: iterators, descent, slots and the superblock of
-- src/storage/disk_bsp_index.cpp. The keys of an index compare by `ValueLess`, which is the order of
-- `Value::compare`, so `less_` is left out.
pub mod Search
pub mod Leaf
pub mod Superblock
pub mod Vectors
pub mod Tree
pub mod Grow
pub mod Shrink
pub mod Change
pub mod Build
pub mod OneLeaf
use cw_db.Prelude.{
  ℕ, zero, suc, ◌+◌, ◌-◌, ◌/◌, ◌%◌, ◌^◌, Bool, true, false, not, ◌&&◌, List, [], ◌∷◌, ◌++◌, Option,
  none, some, Ordering, ltb, ◌==◌, if◌then◌else◌, length, get_elem?, take, drop, replicate,
}
use cw_db.Prelude.Bytes.{Bytes, le_bytes, of_le}
use cw_db.Prelude.Error.{
  Error, Result, ok, throw, ◌>>=◌, ◌>>◌, throw_if, undefined, diverges, corrupt_index_page,
  corrupt_inner_page,
}
use cw_db.Core.Value.{Value, null}
use cw_db.Storage.ValueIo.{encode_value, decode_value, cmp_key_bytes}
use cw_db.Storage.Page.{NodeType, LeafEntry, ParsedPage, page_size, parse, render, zero_filled}
use cw_db.Storage.Pager.{File, Pager, M, and_then, open_file, close, flush}
use cw_db.Storage.Pager

-- `kIdxMagic` and `kIdxVersion`
abbrev pub idx_magic : ℕ
idx_magic = 0x49445842

abbrev pub idx_version : ℕ
idx_version = 1

-- The index, less its pager.
pub record Root : Type 0 where
  pub root_page : ℕ
  pub first_leaf_page : ℕ
  pub size : ℕ

-- A step that does not touch the pager.
abbrev pub lift : {A : Type 0} → Result A → M A
lift r p = (r, p)

unfoldable pub read_node : ℕ → M ParsedPage
read_node page_id p = and_then (Pager.read_page page_id p) (λ raw. lift (parse page_id raw))

unfoldable pub write_node : ParsedPage → M (Unit {0})
write_node page p = and_then (lift (render page) p) (λ raw. Pager.write_page page.page_id raw)

unfoldable pub make_entry : Value → ℕ → Result LeafEntry
make_entry key rid = do
  bytes ← encode_value [] key
  ok (record { key = bytes; key_len = length bytes % 2 ^ 16; rid = rid })

-- The comparison of the entry at a place with a key.
unfoldable pub cmp_at : List LeafEntry → ℕ → Value → Result Ordering
cmp_at entries i key = elim (get_elem? entries i) [
  | none ↦ throw undefined
  | some e ↦ cmp_key_bytes (take e.key_len e.key) key
]

-- `while (lo < hi)` of `lower_bound_slot` and `upper_bound_slot`, in at most so many rounds.
-- `goes_right` is the test of the comparison, `c < 0` or `c <= 0`.
abbrev pub is_below : Ordering → Bool
is_below Ordering.lt = true
is_below _ = false

abbrev pub is_not_above : Ordering → Bool
is_not_above Ordering.gt = false
is_not_above _ = true

unfoldable pub bound_loop : (Ordering → Bool) → List LeafEntry → Value → ℕ → ℕ → ℕ → Result ℕ
bound_loop goes_right entries key zero lo hi = if ltb lo hi then throw diverges else ok lo
bound_loop goes_right entries key (suc rounds) lo hi =
    let mid = (lo + hi) / 2 in
    let right = bound_loop goes_right entries key rounds (mid + 1) hi in
    let left = bound_loop goes_right entries key rounds lo mid in
    if ltb lo hi
    then (cmp_at entries mid key >>= λ c. if goes_right c then right else left)
    else ok lo

-- The interval shrinks in each round, so its length is rounds enough.
unfoldable pub lower_bound_slot : ParsedPage → Value → Result ℕ
unfolding bound_loop
lower_bound_slot p key =
    let n = length p.leaf_entries % 2 ^ 16 in bound_loop is_below p.leaf_entries key n 0 n

unfoldable pub upper_bound_slot : ParsedPage → Value → Result ℕ
unfolding bound_loop
upper_bound_slot p key =
    let n = length p.leaf_entries % 2 ^ 16 in bound_loop is_not_above p.leaf_entries key n 0 n

-- The loop over the separators from place `i` on; `child` is the child found so far.
unfoldable pub child_from : Value → ℕ → ℕ → List LeafEntry → Result ℕ
child_from key i child [] = ok child
child_from key i child (k ∷ ks) = do
  c ← cmp_key_bytes (take k.key_len k.key) key
  child_from key (suc i) (if is_not_above c then i + 1 else child) ks

abbrev pub or_corrupt : Option ℕ → Result ℕ
or_corrupt none = throw corrupt_inner_page
or_corrupt (some page) = ok page

-- The page to go down to.
unfoldable pub next_page : ParsedPage → Value → Result ℕ
unfolding child_from
next_page p key = do
  child ← child_from key 0 0 (take p.key_count p.inner_keys)
  or_corrupt (get_elem? p.children child)

-- `const_iterator`
pub record Iterator : Type 0 where
  pub page : ℕ
  pub slot : ℕ
  pub key : Value
  pub rid : ℕ
  pub at_end : Bool

abbrev pub end_iterator : Iterator
end_iterator = record { page = 0; slot = 0; key = null; rid = 0; at_end = true }

-- The iterator at an entry that is there, and at the end.
abbrev pub enter : ℕ → ℕ → Option LeafEntry → Result Iterator
enter page slot none = ok (record end_iterator { page = page; slot = slot })
enter page slot (some e) = do
  (key, consumed) ← decode_value (take e.key_len e.key)
  ok (record { page = page; slot = slot; key = key; rid = e.rid; at_end = false })

-- The constructor `const_iterator(owner, page, slot, false)`.
unfoldable pub iterator_at : ℕ → ℕ → M Iterator
unfolding read_node
iterator_at page slot p =
    and_then (read_node page p) (λ node. lift (enter page slot (get_elem? node.leaf_entries slot)))

-- `operator++`; where the end is reached the key and record id of the last entry stay.
abbrev pub enter_or_stay : Iterator → ℕ → ℕ → Option LeafEntry → Result Iterator
enter_or_stay it page slot none = ok (record it { page = page; slot = slot; at_end = true })
enter_or_stay it page slot (some e) = enter page slot (some e)

abbrev pub step_from : Iterator → ParsedPage → Option LeafEntry → M Iterator
step_from it node (some e) p = (enter it.page ((it.slot + 1) % 2 ^ 16) (some e), p)
step_from it node none p =
    if node.next_leaf == 0
    then (ok (record it { slot = (it.slot + 1) % 2 ^ 16; at_end = true }), p)
    else and_then (read_node node.next_leaf p)
        (λ next. lift (enter_or_stay it node.next_leaf 0 (get_elem? next.leaf_entries 0)))

unfoldable pub step : Iterator → M Iterator
unfolding read_node
step it p =
    if it.at_end
    then (ok it, p)
    else and_then (read_node it.page p)
        (λ node. step_from it node (get_elem? node.leaf_entries ((it.slot + 1) % 2 ^ 16)))

-- Where a search in a leaf ends: at a place, or behind its last leaf. `leaf_find` is used with
-- `exact` set everywhere, and then an entry must be equal.
abbrev pub exact_place : ℕ → ℕ → Ordering → Option (ℕ × ℕ)
exact_place page slot Ordering.eq = some (page, slot)
exact_place page slot _ = none

unfoldable pub leaf_find : ParsedPage → Value → Result (Option (ℕ × ℕ))
unfolding lower_bound_slot
leaf_find p key = lower_bound_slot p key >>= λ slot.
    if ltb slot (length p.leaf_entries)
    then (cmp_at p.leaf_entries slot key >>= λ c. ok (exact_place p.page_id slot c))
    else ok none

abbrev pub place_or_next : ParsedPage → ℕ → Option (ℕ × ℕ)
place_or_next p slot =
    if ltb slot (length p.leaf_entries)
    then some (p.page_id, slot)
    else if p.next_leaf == 0
    then none
    else some (p.next_leaf, 0)

unfoldable pub leaf_lower : ParsedPage → Value → Result (Option (ℕ × ℕ))
unfolding lower_bound_slot
leaf_lower p key = lower_bound_slot p key >>= λ slot. ok (place_or_next p slot)

unfoldable pub leaf_upper : ParsedPage → Value → Result (Option (ℕ × ℕ))
unfolding upper_bound_slot
leaf_upper p key = upper_bound_slot p key >>= λ slot. ok (place_or_next p slot)

-- The loop that goes down from a page to a leaf, in at most so many rounds: the leaf, and the path.
abbrev pub descend_at : M (ParsedPage × List ℕ) → ParsedPage → M (ParsedPage × List ℕ)
descend_at below node = elim node.type [
  | NodeType.leaf ↦ (λ p. (ok (node, []), p))
  | NodeType.inner ↦ below
]

unfoldable pub descend : ℕ → ℕ → Value → M (ParsedPage × List ℕ)
unfolding read_node next_page
descend zero page key p = (throw diverges, p)
descend (suc levels) page key p = and_then (read_node page p) λ node. λ q.
    and_then
      (descend_at (λ r. and_then (lift (next_page node key) r) (λ child. descend levels child key))
        node q)
      (λ found. lift (ok (found.0, page ∷ found.1)))

abbrev pub iterator_to : Option (ℕ × ℕ) → M Iterator
iterator_to none p = (ok end_iterator, p)
iterator_to (some (page, slot)) p = iterator_at page slot p

-- `find`, `lower_bound` and `upper_bound`, by what they do in the leaf. The source does not bound
-- the descent; a tree of more than `levels` levels does not exist in a file of so many pages.
unfoldable pub search_with :
    (ParsedPage → Value → Result (Option (ℕ × ℕ))) → Root → Value → M Iterator
unfolding descend iterator_at
search_with in_leaf root key p =
    and_then (descend p.page_count root.root_page key p)
      (λ found q. and_then (lift (in_leaf found.0 key) q) iterator_to)

abbrev pub find_key : Root → Value → M Iterator
find_key = search_with leaf_find

abbrev pub lower_bound : Root → Value → M Iterator
lower_bound = search_with leaf_lower

abbrev pub upper_bound : Root → Value → M Iterator
upper_bound = search_with leaf_upper

-- `begin`
unfoldable pub begin : Root → M Iterator
unfolding iterator_at
begin root p = if root.size == 0 then (ok end_iterator, p) else iterator_at root.first_leaf_page 0 p

-- `write_superblock`, and what `open` reads of it.
unfoldable pub superblock_image : Root → Bytes
superblock_image root = zero_filled (
    le_bytes 4 idx_magic
    ++ (le_bytes 4 idx_version
        ++ (le_bytes 4 root.root_page
            ++ (le_bytes 4 root.first_leaf_page ++ le_bytes 8 root.size))))

unfoldable pub write_superblock : Root → M (Unit {0})
unfolding superblock_image
write_superblock root p =
    if p.is_open then Pager.write_page 0 (superblock_image root) p else (ok tt, p)

unfoldable pub parse_superblock : Bytes → Result Root
parse_superblock page = do
  throw_if (not (of_le (take 4 page) == idx_magic && of_le (take 4 (drop 4 page)) == idx_version))
      corrupt_index_page
  ok (record {
    root_page = of_le (take 4 (drop 8 page));
    first_leaf_page = of_le (take 4 (drop 12 page));
    size = of_le (take 8 (drop 16 page));
  })

unfoldable pub open_index : Option File → M Root
unfolding parse_superblock
open_index existing p =
    and_then (open_file existing false p)
      (λ _ q. and_then (Pager.read_page 0 q) (λ page. lift (parse_superblock page)))

unfoldable pub flush_index : Root → M (Unit {0})
unfolding write_superblock
flush_index root p = and_then (write_superblock root p) (λ _. flush)

unfoldable pub close_index : Root → M (Unit {0})
unfolding write_superblock
close_index root p =
    if p.is_open then and_then (write_superblock root p) (λ _. close) else (ok tt, p)

unfoldable pub allocate_node_page : M ℕ
allocate_node_page p =
    let reserve =
      if p.page_count == 0 then Pager.write_page 0 (replicate page_size 0) p else (ok tt, p) in
    and_then reserve (λ _. Pager.allocate_page)

abbrev pub empty_leaf : ℕ → ParsedPage
empty_leaf page_id = record {
  page_id = page_id;
  type = NodeType.leaf;
  key_count = 0;
  next_leaf = 0;
  leaf_entries = [];
  inner_keys = [];
  children = [];
}

unfoldable pub create_empty : Option File → M Root
unfolding allocate_node_page write_node write_superblock
create_empty existing p = and_then (open_file existing true p) λ _ a.
    and_then (Pager.write_page 0 (replicate page_size 0) a) λ _ b.
      and_then (allocate_node_page b) λ page c.
        let root : Root = record { root_page = page; first_leaf_page = page; size = 0 } in
        and_then (write_node (empty_leaf page) c)
          λ _ d. and_then (write_superblock root d) (λ _. lift (ok root))
