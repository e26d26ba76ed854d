-- ===== src/Storage/Index/Change.antt =====
-- `insert` and `erase` of src/storage/disk_bsp_index.cpp.
pub mod Entries
pub mod LeafInsert
use cw_db.Prelude.{
  ℕ, ◌+◌, ◌-◌, ◌%◌, ◌^◌, Bool, true, false, not, ◌||◌, List, [], ◌∷◌, Option, none, some, ◌==◌, leb,
  if◌then◌else◌, length, get_elem?, reverse, Ordering,
}
use cw_db.Prelude.Error.{Error, Result, ok, throw, null_key, duplicate_key, invalid_path}
use cw_db.Prelude.Error
use cw_db.Core.Value.{Value, is_null}
use cw_db.Storage.Page.{LeafEntry, ParsedPage, leaf_overflow, leaf_underflow}
use cw_db.Storage.Index.{empty_leaf, make_entry, descend, lower_bound_slot}
use cw_db.Storage.Index.Vectors.{insert_at, erase_at, compare_entries}
use cw_db.Storage.Index.Tree.{
  T, ◌>>=◌, ◌>>◌, pure, raise, on_pager, put_page, set_root_page, set_first_leaf_page, set_size,
  save_root, throw_when, propagate_subtree_min_change,
}
use cw_db.Storage.Index.Grow.{split_leaf}
use cw_db.Storage.Index.Shrink.{fix_leaf_underflow, handle_internal_after_child_removed}

-- `find_leaf`: the leaf, and the path from it up to the root. The rounds are those of the searches.
unfoldable pub find_leaf : Value → T (ParsedPage × List ℕ)
unfolding descend
find_leaf key t =
    (on_pager (descend t.pager.page_count t.root.root_page key) >>= λ found.
    pure (found.0, reverse found.1))
      t

-- `keys_equal_bytes` of the entry at a place, if there is one.
abbrev pub is_eq : Ordering → Bool
is_eq Ordering.eq = true
is_eq _ = false

abbrev pub equals_at : Option LeafEntry → LeafEntry → Result Bool
equals_at none e = ok false
equals_at (some x) e = Error.◌>>=◌ (compare_entries x e) (λ c. ok (is_eq c))

unfoldable pub write_or_split_leaf : ParsedPage → List ℕ → T (Unit {0})
unfolding put_page split_leaf
write_or_split_leaf leaf path =
    if leaf_overflow leaf.leaf_entries then split_leaf leaf path else put_page leaf

abbrev pub insert_first : LeafEntry → T (Unit {0})
insert_first e t =
    (do
      put_page (record (empty_leaf t.root.root_page) { leaf_entries = e ∷ [] })
      set_size 1
      save_root)
      t

abbrev pub insert_done : T (Unit {0})
insert_done = do λ t. set_size ((t.root.size + 1) % 2 ^ 64) t; save_root

abbrev pub insert_written : ParsedPage → List ℕ → List LeafEntry → T (Unit {0})
insert_written leaf path entries =
    write_or_split_leaf (record leaf { leaf_entries = entries }) path >> insert_done

abbrev pub insert_new : LeafEntry → ParsedPage → List ℕ → ℕ → Bool → T (Unit {0})
insert_new e leaf path slot twice = do
  throw_when twice duplicate_key
  raise (insert_at slot e leaf.leaf_entries) >>= insert_written leaf path

abbrev pub insert_at_place : LeafEntry → ParsedPage → List ℕ → ℕ → T (Unit {0})
insert_at_place e leaf path slot =
    raise (equals_at (get_elem? leaf.leaf_entries slot) e) >>= insert_new e leaf path slot

abbrev pub insert_in : Value → LeafEntry → ParsedPage × List ℕ → T (Unit {0})
insert_in key e found = raise (lower_bound_slot found.0 key) >>= insert_at_place e found.0 found.1

abbrev pub insert_below : Value → LeafEntry → T (Unit {0})
insert_below key e = find_leaf key >>= insert_in key e

unfoldable pub insert_key : Value → ℕ → T (Unit {0})
unfolding make_entry put_page save_root find_leaf lower_bound_slot insert_at write_or_split_leaf
insert_key key rid = do
  throw_when (is_null key) null_key
  e ← raise (make_entry key rid)
  λ t. (if t.root.size == 0 then insert_first e t else insert_below key e t)

-- `erase`, behind the search: the leaf without the entry.
abbrev pub erase_last : ParsedPage → T Bool
erase_last leaf = do
  put_page (record leaf { leaf_entries = [] })
  set_root_page leaf.page_id
  set_first_leaf_page leaf.page_id
  save_root
  pure true

abbrev pub is_first : ℕ → List LeafEntry → Bool
is_first slot [] = false
is_first slot (e ∷ es) = slot == 0

abbrev pub erase_kept : ParsedPage → List ℕ → ℕ → T Bool
erase_kept leaf path slot = do
  put_page leaf
  (if is_first slot leaf.leaf_entries
      then propagate_subtree_min_change leaf.page_id path
      else pure tt)
  save_root
  pure true

abbrev pub tail_of : List ℕ → List ℕ
tail_of [] = []
tail_of (x ∷ xs) = xs

abbrev pub erase_under : ParsedPage → List ℕ → T Bool
erase_under leaf path = do
  fix_leaf_underflow (handle_internal_after_child_removed (tail_of path)) leaf path
  save_root
  pure true

abbrev pub erase_in : ParsedPage → List ℕ → ℕ → T Bool
erase_in leaf path slot t =
    if t.root.size == 0
    then erase_last leaf t
    else if leaf.page_id == t.root.root_page || not (leaf_underflow leaf.leaf_entries false)
    then erase_kept leaf path slot t
    else erase_under leaf path t

abbrev pub erase_rest : ParsedPage → List ℕ → ℕ → List LeafEntry → T Bool
erase_rest leaf path slot entries =
    (λ t. set_size (t.root.size - 1) t)
    >> erase_in (record leaf { leaf_entries = entries }) path slot

abbrev pub erase_entry : ParsedPage → List ℕ → ℕ → T Bool
erase_entry leaf path slot = raise (erase_at slot leaf.leaf_entries) >>= erase_rest leaf path slot

abbrev pub erase_seen : ParsedPage → List ℕ → ℕ → Bool → T Bool
erase_seen leaf path slot here = if here then erase_entry leaf path slot else pure false

abbrev pub erase_probed : ParsedPage → List ℕ → ℕ → LeafEntry → T Bool
erase_probed leaf path slot probe =
    raise (equals_at (get_elem? leaf.leaf_entries slot) probe) >>= erase_seen leaf path slot

abbrev pub erase_at_place : Value → ParsedPage → List ℕ → ℕ → T Bool
erase_at_place key leaf path slot =
    if leb (length leaf.leaf_entries) slot
    then pure false
    else (raise (make_entry key 0) >>= erase_probed leaf path slot)

abbrev pub erase_from : Value → ParsedPage × List ℕ → T Bool
erase_from key found = raise (lower_bound_slot found.0 key) >>= erase_at_place key found.0 found.1

abbrev pub erase_below : Value → T Bool
erase_below key = find_leaf key >>= erase_from key

unfoldable pub erase_key : Value → T Bool
unfolding make_entry put_page save_root find_leaf lower_bound_slot erase_at
    propagate_subtree_min_change fix_leaf_underflow handle_internal_after_child_removed
erase_key key t = if t.root.size == 0 then (ok false, t) else erase_below key t
