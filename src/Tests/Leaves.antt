-- ===== src/Tests/Leaves.antt =====
-- An index of one leaf at concrete inputs: storage/disk_bsp_index.cpp.
use cw_db.Prelude.{
  ℕ, zero, suc, ◌≡◌, ◌⊎◌, refl, true, false, [], ◌∷◌, none, some, length, replicate,
  length-replicate, arith,
}
use cw_db.Prelude.Bytes.{Bytes, le_bytes}
use cw_db.Prelude.Int.{pos}
use cw_db.Prelude.Map.{find, nat_eq}
use cw_db.Prelude.Error.{ok, throw, duplicate_key}
use cw_db.Core.Value.{DataType, int, matches, compare_value}
use cw_db.Storage.Page.{
  NodeType, LeafEntry, ParsedPage, page_size, render, zero_filled, leaf_front, leaf_overflow,
  leaf_payload_bytes, leaf_payload_from,
}
use cw_db.Storage.Page.RoundTrip.{IsWritable, stored, parse-render}
use cw_db.Storage.Pager.{Pager, empty_file, content}
use cw_db.Storage.Pager.Ids.{mem}
use cw_db.Storage.Pager.Ids
use cw_db.Storage.Pager.Invariant.{view, held}
use cw_db.Storage.Pager.Refinement.{IsValid}
use cw_db.Storage.ValueIo.{encoding, encode_value, encoded_value_size}
use cw_db.Storage.Index.{Iterator, empty_leaf, make_entry, find_key}
use cw_db.Storage.Pager.Reads.{ReadOk}
use cw_db.Storage.Index.OneLeaf.EraseKey.{erase_key-OneLeaf}
use cw_db.Storage.Index.OneLeaf.FindKey.{entry_at, find_key-OneLeaf}
use cw_db.Storage.Index.Tree.{Tree}
use cw_db.Storage.Index.Change.{insert_key, erase_key}
use cw_db.Storage.Index.Change.Entries.{Holds, make_entry-Encodes}
use cw_db.Storage.Index.OneLeaf.{IsOneLeaf}
use cw_db.Storage.Index.OneLeaf.InsertKey.{insert_key-OneLeaf}
use cw_db.Storage.Table.Sorted.{Entries, lookup_entry, with_entry, without}

abbrev pub entry_of : ℕ → ℕ → LeafEntry
entry_of n id = record { key = encoding (int (pos n)); key_len = 9; rid = id }

abbrev pub two : Entries
two = (int (pos 3), 1) ∷ (int (pos 8), 2) ∷ []

abbrev pub leaf : ParsedPage
leaf = record (empty_leaf 1) { leaf_entries = entry_of 3 1 ∷ entry_of 8 2 ∷ [] }

pub made : (n id : ℕ) → make_entry (int (pos n)) id ≡ ok (entry_of n id)
unfolding make_entry encode_value encoded_value_size encoding le_bytes
made n id = refl

two-Holds : Holds two leaf.leaf_entries
two-Holds = (
  make_entry-Encodes (int (pos 3)) 1 (entry_of 3 1) (omega arith, omega arith) (made 3 1),
  (make_entry-Encodes (int (pos 8)) 2 (entry_of 8 2) (omega arith, omega arith) (made 8 2), tt),
)

-- A pager of two pages, both in its cache: one of zeros, and the leaf.
abbrev zeros : Bytes
zeros = replicate page_size 0

abbrev image : Bytes
image = zero_filled (leaf_front leaf)

leaf-IsWritable : IsWritable NodeType.leaf leaf
unfolding encoding le_bytes
leaf-IsWritable = (
  (
    record { key_len-eq = refl; key_len-lt = omega arith; rid-lt = omega arith },
    (record { key_len-eq = refl; key_len-lt = omega arith; rid-lt = omega arith }, tt),
  ),
  omega arith,
  omega arith,
)

leaf-fits : leaf_overflow leaf.leaf_entries ≡ false
unfolding leaf_overflow leaf_payload_bytes leaf_payload_from
leaf-fits = ground arith

rendered : render leaf ≡ ok image
unfolding render
rendered = rw leaf-fits refl

unfoldable pub pager : Pager
pager = record {
  is_open = true;
  good = true;
  full = false;
  file = empty_file;
  disk = empty_file;
  page_count = 2;
  cache_capacity = 2;
  lru = 0 ∷ 1 ∷ [];
  cache =
      (0, record { bytes = zeros; dirty = true })
      ∷ (1, record { bytes = image; dirty = true })
      ∷ [];
  scratch = [];
}

length-view : (id : ℕ) → length (view pager id) ≡ page_size
unfolding pager view find content
length-view zero = length-replicate {A = ℕ} page_size 0
length-view (suc zero) = (parse-render leaf leaf-IsWritable rendered).0
length-view (suc (suc id)) = grind (arith, length-replicate {A = ℕ} page_size 0)

listed : (id : ℕ) → mem id pager.lru ≡ Ids.is_some (find id pager.cache)
unfolding pager find mem
listed zero = refl
listed (suc zero) = refl
listed (suc (suc id)) = ground arith

pager-IsValid : IsValid pager
unfolding pager mem
pager-IsValid = record {
  coherent = record {
    good = refl;
    takes = refl;
    sizes = refl;
    listed = listed;
    lru_distinct = (refl, (refl, tt));
    keys_distinct = (refl, (refl, tt));
    clean = λ id slot h d. absurd (unfold find in ground arith);
  };
  small = omega arith;
  complete = λ id h. unfold held find in ground arith;
  sized = length-view;
}

abbrev pub tree : Tree
tree = record { root = record { root_page = 1; first_leaf_page = 1; size = 2 }; pager = pager }

pub tree-IsOneLeaf : IsOneLeaf DataType.int two tree (stored NodeType.leaf leaf)
unfolding pager view find
tree-IsOneLeaf = record {
  valid = pager-IsValid;
  counted = omega arith;
  above_zero = omega arith;
  there = omega arith;
  page = (parse-render leaf leaf-IsWritable rendered).1;
  leaf_type = refl;
  page_id_eq = refl;
  opened = refl;
  first = refl;
  next = refl;
  entries = leaf-IsWritable.0;
  holds = two-Holds;
  ascends = ((unfold compare_value in refl, tt), (tt, tt));
  keys = ((refl, unfold matches in refl), ((refl, unfold matches in refl), tt));
  size_eq = refl;
}

insert_key-OneLeaf_example :
    ((lookup_entry two (int (pos 5)) ≡ none)
      × (u : Tree) × (node : ParsedPage) × (insert_key (int (pos 5)) 9 tree ≡ (ok tt, u))
      × IsOneLeaf DataType.int (with_entry (int (pos 5)) 9 two) u node)
    ⊎ ((j : ℕ) × (lookup_entry two (int (pos 5)) ≡ some j)
        × (u : Tree) × (insert_key (int (pos 5)) 9 tree ≡ (throw duplicate_key, u))
        × IsOneLeaf DataType.int two u (stored NodeType.leaf leaf))
insert_key-OneLeaf_example =
    insert_key-OneLeaf DataType.int two tree (stored NodeType.leaf leaf) (int (pos 5)) 9
      (entry_of 5 9) tree-IsOneLeaf (refl, unfold matches in refl) (omega arith, omega arith)
      (omega arith) (made 5 9) (omega arith)
      (unfold with_entry compare_value encoding le_bytes in omega arith)

find_key-OneLeaf_example :
    (q : Pager) × (it : Iterator) × (find_key tree.root (int (pos 8)) pager ≡ (ok it, q))
    × ReadOk pager q
    × (entry_at it ≡ lookup_entry two (int (pos 8)))
find_key-OneLeaf_example =
    find_key-OneLeaf DataType.int two tree (stored NodeType.leaf leaf) (int (pos 8)) tree-IsOneLeaf
      (refl, unfold matches in refl) (omega arith)

abbrev probe : LeafEntry
probe = entry_of 3 0

erase_key-OneLeaf_example :
    ((j : ℕ) × (lookup_entry two (int (pos 3)) ≡ some j)
      × (u : Tree) × (node : ParsedPage) × (erase_key (int (pos 3)) tree ≡ (ok true, u))
      × IsOneLeaf DataType.int (without (int (pos 3)) two) u node)
    ⊎ ((lookup_entry two (int (pos 3)) ≡ none)
        × (u : Tree) × (erase_key (int (pos 3)) tree ≡ (ok false, u))
        × IsOneLeaf DataType.int two u (stored NodeType.leaf leaf))
erase_key-OneLeaf_example =
    erase_key-OneLeaf DataType.int two tree (stored NodeType.leaf leaf) (int (pos 3)) probe
      tree-IsOneLeaf (refl, unfold matches in refl) (omega arith, omega arith) (made 3 0)
      (omega arith) (unfold encoding le_bytes in omega arith)
