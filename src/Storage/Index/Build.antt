-- ===== src/Storage/Index/Build.antt =====
-- `bulk_build` and `bulk_build_from_flat` of src/storage/disk_bsp_index.cpp.
pub mod Chunks
use cw_db.Prelude.{
  ℕ, zero, suc, ◌+◌, ◌*◌, Bool, true, false, not, ◌&&◌, ◌||◌, List, [], ◌∷◌, ◌++◌, Option, none,
  some, ◌==◌, ltb, if◌then◌else◌, length, replicate, Ordering,
}
use cw_db.Prelude.Error.{
  Error, Result, ok, throw, throw_if, diverges, undefined, keys_not_increasing,
  separator_does_not_fit,
}
use cw_db.Prelude.Error
use cw_db.Core.Value.{Value}
use cw_db.Storage.Page.{
  LeafEntry, ParsedPage, page_size, leaf_header, leaf_entry_bytes, inner_payload_bytes,
}
use cw_db.Storage.Pager.{File, open_file, flush}
use cw_db.Storage.Pager
use cw_db.Storage.BulkGuard.{validate_bulk_build_input}
use cw_db.Storage.Index.{Root, empty_leaf, make_entry, is_below}
use cw_db.Storage.Index.Vectors.{is_empty, compare_entries}
use cw_db.Storage.Index.Tree.{
  Tree, T, then_do, ◌>>=◌, ◌>>◌, pure, raise, fail, on_pager, get_page, put_page, new_page,
  set_root_page, set_first_leaf_page, set_size, save_root, throw_when, separator_key_for_page,
  with_keys,
}
use cw_db.Storage.Index.Grow.{inner_page}

-- The loop over the entries, with the chunk that is being filled and its bytes.
unfoldable pub chunks_from : List LeafEntry → ℕ → List LeafEntry → List (List LeafEntry)
chunks_from chunk chunk_bytes [] = if is_empty chunk then [] else chunk ∷ []
chunks_from chunk chunk_bytes (entry ∷ flat) =
    let need = leaf_entry_bytes entry.key_len in
    let cut = chunk ∷ chunks_from (entry ∷ []) (leaf_header + need) flat in
    let filled = chunks_from (chunk ++ (entry ∷ [])) (chunk_bytes + need) flat in
    if not (is_empty chunk) && ltb page_size (chunk_bytes + need) then cut else filled

unfoldable pub leaf_chunks : List LeafEntry → List (List LeafEntry)
unfolding chunks_from
leaf_chunks flat = chunks_from [] leaf_header flat

-- A page for each chunk.
unfoldable pub write_leaves : List (List LeafEntry) → T (List ℕ)
unfolding new_page put_page
write_leaves [] = pure []
write_leaves (chunk ∷ chunks) = do
  pid ← new_page
  put_page (record (empty_leaf pid) { leaf_entries = chunk })
  pids ← write_leaves chunks
  pure (pid ∷ pids)

unfoldable pub link_leaves : List ℕ → T (Unit {0})
unfolding get_page put_page
link_leaves [] = pure tt
link_leaves (pid ∷ []) = pure tt
link_leaves (pid ∷ next ∷ pids) = do
  p ← get_page pid
  put_page (record p { next_leaf = next })
  link_leaves (next ∷ pids)

-- The loop that gathers the children of an inner page: its keys, its children, and what is left.
unfoldable pub gather : List LeafEntry → List ℕ → List ℕ → T (List LeafEntry × List ℕ × List ℕ)
unfolding separator_key_for_page
gather keys children [] = pure (keys, children, [])
gather keys children (page_id ∷ level) = do
  sep ← separator_key_for_page page_id
  let need = leaf_entry_bytes sep.key_len + 4
  let more = gather (keys ++ (sep ∷ [])) (children ++ (page_id ∷ [])) level
  if not (is_empty keys) && ltb page_size (inner_payload_bytes keys (length children) + need)
      then pure (keys, children, page_id ∷ level)
      else more

-- One level of inner pages. A page takes a child at least, so the length of the level is rounds enough.
unfoldable pub build_level : ℕ → List ℕ → T (List ℕ)
unfolding gather new_page put_page
build_level rounds [] = pure []
build_level zero (first ∷ level) = fail diverges
build_level (suc rounds) (first ∷ level) = do
  (keys, children, left) ← gather [] (first ∷ []) level
  throw_when (is_empty keys && not (is_empty level)) separator_does_not_fit
  inner ← new_page
  put_page (with_keys keys (inner_page inner children))
  inners ← build_level rounds left
  pure (inner ∷ inners)

-- The levels up to the root. Each is shorter than the one below.
unfoldable pub build_levels : ℕ → List ℕ → T ℕ
unfolding build_level
build_levels rounds [] = fail undefined
build_levels rounds (page_id ∷ []) = pure page_id
build_levels zero (page_id ∷ other ∷ level) = fail diverges
build_levels (suc rounds) (page_id ∷ other ∷ level) = do
  next_level ← build_level (length (page_id ∷ other ∷ level)) (page_id ∷ other ∷ level)
  build_levels rounds next_level

abbrev pub finish : T (Unit {0})
finish = do save_root; on_pager flush

abbrev pub build_empty : T (Unit {0})
build_empty = do
  page ← new_page
  set_root_page page
  set_first_leaf_page page
  put_page (empty_leaf page)
  finish

abbrev pub first_of : List ℕ → Result ℕ
first_of [] = throw undefined
first_of (pid ∷ pids) = ok pid

abbrev pub build_full : List LeafEntry → T (Unit {0})
build_full flat = do
  leaf_pages ← write_leaves (leaf_chunks flat)
  link_leaves leaf_pages
  first ← raise (first_of leaf_pages)
  set_first_leaf_page first
  root ← build_levels (length leaf_pages) leaf_pages
  set_root_page root
  finish

unfoldable pub bulk_build_from_flat : List LeafEntry → T (Unit {0})
unfolding new_page put_page save_root leaf_chunks write_leaves link_leaves build_levels
bulk_build_from_flat flat = do
  on_pager (Pager.write_page 0 (replicate page_size 0))
  set_size (length flat)
  if is_empty flat then build_empty else build_full flat

-- The loops that make the entries, and that compare the neighbours.
unfoldable pub make_entries : List (Value × ℕ) → Result (List LeafEntry)
unfolding make_entry
make_entries [] = ok []
make_entries ((key, rid) ∷ entries) =
    Error.◌>>=◌ (make_entry key rid) λ e. Error.◌>>=◌ (make_entries entries) λ es. ok (e ∷ es)

unfoldable pub check_increasing : List LeafEntry → Result (Unit {0})
check_increasing [] = ok tt
check_increasing (a ∷ []) = ok tt
check_increasing (a ∷ b ∷ es) =
    Error.◌>>=◌ (compare_entries a b)
      λ c. Error.◌>>◌ (throw_if (not (is_below c)) keys_not_increasing) (check_increasing (b ∷ es))

unfoldable pub bulk_build : Option ℕ → Option ℕ → Option File → List (Value × ℕ) → T (Unit {0})
unfolding validate_bulk_build_input make_entries check_increasing bulk_build_from_flat
bulk_build budget_override available existing entries = do
  raise (validate_bulk_build_input budget_override available entries)
  flat ← raise (make_entries entries)
  raise (check_increasing flat)
  on_pager (open_file existing true)
  bulk_build_from_flat flat
