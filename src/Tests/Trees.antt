-- ===== src/Tests/Trees.antt =====
-- Changes of the tree at concrete states: storage/disk_bsp_index.cpp.
use cw_db.Prelude.{ℕ, ◌+◌, ◌≤◌, ◌≡◌, ◌≢◌, refl, true, List, [], ◌∷◌, ◌++◌, length, All, arith}
use cw_db.Prelude.Error.{ok}
use cw_db.Storage.Page.{LeafEntry, ParsedPage, leaf_overflow, leaf_payload_bytes, leaf_payload_from}
use cw_db.Storage.Index.{empty_leaf}
use cw_db.Storage.Index.Vectors.{thirds}
use cw_db.Storage.Index.Vectors.Parts.{thirds-append}
use cw_db.Storage.Index.Tree.{Tree}
use cw_db.Storage.Index.Grow.{inner_page, split_internal, try_give_to_left_leaf}
use cw_db.Storage.Index.Grow.RootSplit.{split_internal-root_throws}
use cw_db.Storage.Index.Grow.GiveLeft.{try_give_to_left_leaf-never}
use cw_db.Storage.Index.Build.{leaf_chunks}
use cw_db.Storage.Index.Build.Chunks.{all_of, IsLeafLoad, leaf_chunks-all_of}
use cw_db.Tests.Pagers.{pager, pager-IsValid}

abbrev seven : List ℕ
seven = 1 ∷ 2 ∷ 3 ∷ 4 ∷ 5 ∷ 6 ∷ 7 ∷ []

thirds-append_example :
    ((thirds seven).0 ++ ((thirds seven).1 ++ (thirds seven).2) ≡ seven)
    × (length (thirds seven).1 ≤ length (thirds seven).0)
    × (length (thirds seven).2 ≤ length (thirds seven).1)
    × (length (thirds seven).0 ≤ length (thirds seven).2 + 1)
thirds-append_example = thirds-append seven

abbrev entry : ℕ → LeafEntry
entry n = record { key = []; key_len = n; rid = 1 }

abbrev big : List LeafEntry
big = entry 2000 ∷ entry 2000 ∷ entry 500 ∷ []

leaf_chunks-all_of_example : (all_of (leaf_chunks big) ≡ big) × All IsLeafLoad (leaf_chunks big)
leaf_chunks-all_of_example = leaf_chunks-all_of big (omega arith, (omega arith, (omega arith, tt)))

abbrev tree : Tree
tree = record { root = record { root_page = 0; first_leaf_page = 0; size = 1 }; pager = pager }

abbrev root_node : ParsedPage
root_node = inner_page 0 (0 ∷ 0 ∷ 0 ∷ [])

split_internal-root_throws_example : (split_internal (0 ∷ []) root_node tree).0 ≢ ok tt
split_internal-root_throws_example =
    split_internal-root_throws root_node 0 tree pager-IsValid (unfold pager in omega arith)
      (unfold pager in omega arith)

abbrev overfull : ParsedPage
overfull = record (empty_leaf 2) { leaf_entries = big }

try_give_to_left_leaf-never_example : (try_give_to_left_leaf overfull root_node 1 tree).0 ≢ ok true
try_give_to_left_leaf-never_example =
    try_give_to_left_leaf-never overfull root_node 1 tree
      (unfold leaf_overflow leaf_payload_bytes leaf_payload_from in refl)
