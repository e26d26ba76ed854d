-- ===== src/Lib.antt =====
-- cw_db is a small relational database in C++: an SQL front end, an executor, tables whose rows are in
-- memory, and disk indexes, which are B+ trees in page files behind a write-back cache. This library
-- models its core and proves what makes each part correct.
--
-- The parts, and how they stand together:
-- * Core.StringPool (src/core/string_pool.cpp) keeps each string once; a string value is its id.
-- * Core.Value (src/core/value.cpp, include/core/value.h) has the cell values. `Value` holds the bytes of
--   a string; Core.Value.Interned has the tagged union of the source over the pool, and shows that its
--   comparisons are those of `Value`. The other parts use `Value`.
-- * Storage.ValueIo (include/storage/value_io.h) encodes index keys.
-- * Storage.Page (src/storage/disk_bsp_index.cpp: the payload sizes, `read_page`, `write_page`) turns a
--   node of an index into the 4096 bytes of a page and back.
-- * Storage.Pager (src/storage/pager.cpp) serves pages from a file through an LRU cache. A method is a
--   function of the pager that returns a result and the pager after it, so the state after an exception
--   is there too. `view` (Storage.Pager.Invariant) is the abstract pager, a page for each id.
-- * Storage.Index (src/storage/disk_bsp_index.cpp) reads the tree over the pager: slots, descent,
--   iterators, and the superblock. Its children change the tree: Storage.Index.Tree has the state, which
--   is the fields of the index and the pager, and the keys of inner pages; Storage.Index.Grow the splits,
--   Storage.Index.Shrink the merges, Storage.Index.Change `insert` and `erase`, and Storage.Index.Build
--   the bulk build, which Storage.BulkGuard (src/storage/bulk_build_guard.cpp) guards. A path is a list
--   from a page up to the root, and the splits and merges recur on it: what a function of the source calls
--   on the parent is the argument `above`. Storage.Index.OneLeaf has what holds of an index whose root is
--   a leaf; there `IsOneLeaf` says that the root page is a leaf that encodes a sorted list of keys and
--   record ids.
-- * Storage.Table (src/storage/table.cpp) has rows, constraints and the upkeep of the indexes. It uses a
--   disk index through the record `IndexOps`, which Storage.Table.Disk fills with the index of
--   Storage.Index. Storage.Table.Laws has the laws of an index, a function from keys to ids; where an
--   insertion needs it, they ask for room. Storage.Table.Disk.Laws has them for the program's index, whose
--   soundness is that its root is a leaf and whose room is that the leaf still fits on its page;
--   Storage.Table.Sorted has them for a sorted list. The theorems on rows hold for any operations, those
--   on indexes (Storage.Table.Agrees, Sql.Select.Complete, Sql.Select.Effects) for those that keep the laws.
-- * Storage.Table.Files (src/storage/table.cpp: `save`, `load`) has the bytes of the file of a table.
-- * Sql.Schema, Sql.Ast (include/sql/schema.h, include/sql/ast.h), Sql.Where and Sql.Hint
--   (src/sql/executor.cpp: `eval_where`, `derive_index_hint`) evaluate WHERE clauses and choose an index.
-- * Sql.Select (src/sql/executor.cpp: `select_candidates` and the row loops of the statements) finds and
--   changes the rows that a statement is about.
-- * Storage.Database (src/storage/database.cpp) and Storage.Dbms (src/core/dbms.cpp) have the tables and
--   the databases by name; their operations are a step relation in Storage.Dbms.Active.
-- * Apps.StreamSplitter (src/apps/main.cpp) splits a stream into statements.
-- * Prelude has the shared types: lists over the native numbers, integers, bytes, dictionaries as
--   association lists, and `Result` with a constructor for each message that the code throws.
-- * Tests applies the theorems at concrete inputs.
--
-- Bounds and fuel: integers of 32 and 64 bits wrap where the source stores them (`% 2 ^ 32`), and a
-- theorem that needs room for one more id says so. `evict_while` runs for as many rounds as the cache
-- has pages, `bound_loop` for as many as the leaf has entries; both are shown to end within that. The
-- descent in an index, also that to a first leaf, runs for as many levels as the file has pages. The
-- levels of a bulk build run for as many rounds as the level below has pages; each page takes a child.
--
-- What is code outside the repository is a parameter: `std::regex_match` in Sql.Where, and what the
-- environment and the operating system say in Storage.BulkGuard. `std::sort` is an insertion sort; what
-- C++ leaves undefined throws `undefined`. The stream of a page file is whole pages with the state after
-- an error, a device that may take no more, and a buffer that a flush empties; a write takes a page or
-- fails, so short writes are not modelled, and in a valid pager the device takes writes. What a search
-- brings into the cache of an index is not kept in Storage.Table.Disk. Not modelled are the grammar, whose
-- parser the build generates, the HTTP server, the clients and the log; of the table, the rebuild of its
-- indexes, and the directories and renaming of its file; of the databases, their files; and of SELECT, the
-- projection to JSON and the aggregates, which compute in floating point.
pub mod Prelude
pub mod Core
pub mod Storage
pub mod Sql
pub mod Apps
mod Tests
