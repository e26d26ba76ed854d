-- ===== src/Storage/Table/Disk.antt =====
-- The disk index behind a table: how src/storage/table.cpp uses `DiskBspIndex`.
pub mod Range
pub mod Places
pub mod Laws
use cw_db.Prelude.{
  ℕ, suc, zero, ◌+◌, Bool, true, false, List, [], ◌∷◌, Option, none, some, if◌then◌else◌,
}
use cw_db.Prelude.Error.{Result, ok, throw, diverges, ◌>>=◌}
use cw_db.Core.Value.{Value}
use cw_db.Storage.Pager.{Pager, File, empty_file, default_page_cache_capacity}
use cw_db.Storage.Index.{
  Root, Iterator, find_key, lower_bound, upper_bound, begin, step, open_index, create_empty,
}
use cw_db.Storage.Index.Tree.{Tree}
use cw_db.Storage.Index.Change.{insert_key, erase_key}
use cw_db.Storage.Index.OneLeaf.FindKey.{entry_at}
use cw_db.Storage.Table.{IndexOps}

-- The loop of `index_collect_range` without its bound: the entries from the iterator on, in at most so many
-- rounds, and how the loop ends. An entry is read before the step behind it.
unfoldable pub entries_from : ℕ → Result Iterator × Pager → List (Value × ℕ) × Result (Unit {0})
unfolding step
entries_from zero m = ([], throw diverges)
entries_from (suc rounds) (throw e, p) = ([], throw e)
entries_from (suc rounds) (ok it, p) =
    let rest = entries_from rounds (step it p) in
    if it.at_end then ([], ok tt) else ((it.key, it.rid) ∷ rest.0, rest.1)

-- `lo ? (lo_inclusive ? lower_bound(*lo) : upper_bound(*lo)) : begin()`
abbrev pub start_at : Option (Value × Bool) → Root → Pager → Result Iterator × Pager
start_at none root p = begin root p
start_at (some (lo, inclusive)) root p =
    if inclusive then lower_bound root lo p else upper_bound root lo p

abbrev pub new_pager : Pager
new_pager = record {
  is_open = false;
  good = true;
  full = false;
  file = empty_file;
  disk = empty_file;
  page_count = 0;
  cache_capacity = default_page_cache_capacity;
  lru = [];
  cache = [];
  scratch = [];
}

abbrev pub as_tree : Result Root × Pager → Result Tree
as_tree (ok root, p) = ok (record { root = root; pager = p })
as_tree (throw e, p) = throw e

abbrev pub open_or_new : Option File → Result Root × Pager
open_or_new none = create_empty none new_pager
open_or_new (some file) = open_index (some file) new_pager

-- The index operations of the program. `files` says which index files exist. A search and an iteration
-- leave the index as it was: which pages they bring into the cache is not kept. An iteration has a round
-- for each entry, and one for the end.
abbrev pub disk_ops : (ℕ → Option File) → IndexOps
disk_ops files = record {
  Index = Tree;
  open_or_create = λ col. as_tree (open_or_new (files col));
  is_open = λ t. t.pager.is_open;
  lookup = λ t key. (find_key t.root key t.pager).0 >>= λ it. ok (entry_at it);
  entries = λ t from. entries_from (t.root.size + 1) (start_at from t.root t.pager);
  add = insert_key;
  drop_key = erase_key;
}
