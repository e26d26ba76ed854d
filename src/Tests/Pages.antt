-- ===== src/Tests/Pages.antt =====
-- Index pages at concrete inputs: storage/disk_bsp_index.cpp.
use cw_db.Prelude.{ℕ, zero, suc, ◌%◌, ◌≡◌, refl, [], ◌∷◌, length, replicate, All, arith}
use cw_db.Prelude.Bytes.{Bytes}
use cw_db.Prelude.Error.{ok}
use cw_db.Storage.Page.{
  NodeType, LeafEntry, ParsedPage, page_size, leaf_overflow, inner_overflow, leaf_payload_bytes,
  inner_payload_bytes, render, render_as, parse, three_way_counts, leaf_front, inner_front,
  zero_filled,
}
use cw_db.Storage.Page.Images.{IsEntry}
use cw_db.Storage.Page.RoundTrip.{stored, parse-render}
use cw_db.Storage.Page.Counts.{length-parse-render_inner}

abbrev seven_key : Bytes
seven_key = 1 ∷ 7 ∷ 0 ∷ 0 ∷ 0 ∷ 0 ∷ 0 ∷ 0 ∷ 0 ∷ []

abbrev entry : LeafEntry
entry = record { key = seven_key; key_len = 9; rid = 42 }

abbrev page : ParsedPage
page = record {
  page_id = 3;
  type = NodeType.leaf;
  key_count = 0;
  next_leaf = 5;
  leaf_entries = entry ∷ [];
  inner_keys = [];
  children = [];
}

entry-IsEntry : IsEntry entry
entry-IsEntry = record { key_len-eq = refl; key_len-lt = omega arith; rid-lt = omega arith }

page-renders : render page ≡ ok (zero_filled (leaf_front page))
unfolding render leaf_overflow leaf_payload_bytes
page-renders = refl

parse-render_example :
    (length (zero_filled (leaf_front page)) ≡ page_size)
    × (parse 3 (zero_filled (leaf_front page)) ≡ ok (stored NodeType.leaf page))
parse-render_example =
    parse-render page ((entry-IsEntry, tt), omega arith, omega arith) page-renders

-- An inner page of 256 separators fits in 4096 bytes and reads back with none of them.
abbrev wide : ParsedPage
wide = record {
  page_id = 3;
  type = NodeType.inner;
  key_count = 0;
  next_leaf = 0;
  leaf_entries = [];
  inner_keys = replicate 256 entry;
  children = replicate 257 2;
}

replicate-IsEntry : (n : ℕ) → All IsEntry (replicate n entry)
replicate-IsEntry zero = tt
replicate-IsEntry (suc n) = (entry-IsEntry, replicate-IsEntry n)

wide-renders : render_as NodeType.inner wide ≡ ok (zero_filled (inner_front wide))
unfolding inner_overflow inner_payload_bytes
wide-renders = refl

length-parse-render_inner_example :
    (q : ParsedPage) × (parse 3 (zero_filled (inner_front wide)) ≡ ok q)
    × (length q.inner_keys ≡ length wide.inner_keys % 256)
length-parse-render_inner_example =
    length-parse-render_inner wide (replicate-IsEntry 256) refl wide-renders

three_way : three_way_counts 11 ≡ (4, 4, 3)
unfolding three_way_counts
three_way = refl
