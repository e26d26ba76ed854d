-- ===== src/Storage/Index/Shrink.antt =====
-- Pages that have too little: `redistribute_leaf_pair`, `redistribute_internal_pair`,
-- `handle_internal_after_child_removed`, `fix_leaf_underflow` and `fix_internal_underflow` of
-- src/storage/disk_bsp_index.cpp. `above` is the call of `handle_internal_after_child_removed` on the
-- parent and its path.
use cw_db.Prelude.{
  ℕ, ◌+◌, ◌-◌, ◌/◌, Bool, false, not, ◌&&◌, ◌||◌, List, [], ◌∷◌, ◌++◌, ◌==◌, ltb, leb,
  if◌then◌else◌, length, take, drop,
}
use cw_db.Prelude.Error.{
  ok, parent_missing_left_child, leaf_siblings_do_not_fit, internal_siblings_do_not_fit,
  expected_internal_node, undefined, invalid_path, expected_leaf_sibling, expected_internal_sibling,
  no_leaf_sibling, no_internal_sibling,
}
use cw_db.Storage.Page.{ParsedPage, leaf_overflow, leaf_underflow, inner_overflow, inner_underflow}
use cw_db.Storage.Index.{empty_leaf}
use cw_db.Storage.Index.Vectors.{insert_at, erase_at, split_last, split_first, thirds, place_of}
use cw_db.Storage.Index.Tree.{
  T, ◌>>=◌, ◌>>◌, raise, fail, put_page, new_page, set_first_leaf_page, is_leaf, throw_when,
  or_fail, with_keys, rebuild_internal_keys, propagate_subtree_min_change,
  promote_single_child_root,
}
use cw_db.Storage.Index.Grow.{parent_of, sibling_at, not_leaf}

-- The parent gets its keys anew, and the pages above a new minimum.
unfoldable pub renew : ParsedPage → List ℕ → T (Unit {0})
unfolding put_page rebuild_internal_keys propagate_subtree_min_change
renew parent parent_path = do
  rebuilt ← rebuild_internal_keys parent
  put_page rebuilt
  propagate_subtree_min_change parent.page_id parent_path

unfoldable pub redistribute_leaf_pair : ParsedPage → ParsedPage → ParsedPage → List ℕ → T (Unit {0})
unfolding new_page put_page thirds place_of insert_at renew
redistribute_leaf_pair left right parent parent_path = do
  let parts = thirds (left.leaf_entries ++ right.leaf_entries)
  throw_when (leaf_overflow parts.0 || leaf_overflow parts.2) leaf_siblings_do_not_fit
  middle_id ← new_page
  put_page (record left { leaf_entries = parts.0; next_leaf = middle_id })
  put_page (record (empty_leaf middle_id) { leaf_entries = parts.1; next_leaf = right.page_id })
  put_page (record right { leaf_entries = parts.2 })
  idx ← or_fail parent_missing_left_child (place_of left.page_id parent.children)
  children ← raise (insert_at (idx + 1) middle_id parent.children)
  renew (record parent { children = children }) parent_path

unfoldable pub redistribute_internal_pair :
    ParsedPage → ParsedPage → ParsedPage → List ℕ → T (Unit {0})
unfolding put_page rebuild_internal_keys renew
redistribute_internal_pair left right parent parent_path = do
  let children = left.children ++ right.children
  let left_count = (length children + 1) / 2
  left' ← rebuild_internal_keys (record left { children = take left_count children })
  right' ← rebuild_internal_keys (record right { children = drop left_count children })
  throw_when
      (inner_overflow left'.inner_keys left'.children
        || inner_overflow right'.inner_keys right'.children)
      internal_siblings_do_not_fit
  put_page left'
  put_page right'
  renew parent parent_path

-- The parent without the child at a place and the key at another; the merged page is written.
unfoldable pub drop_child :
    (ParsedPage → T (Unit {0})) → ParsedPage → ParsedPage → ℕ → ℕ → T (Unit {0})
unfolding put_page erase_at
drop_child above merged parent child_place key_place = do
  children ← raise (erase_at child_place parent.children)
  keys ← raise (erase_at key_place parent.inner_keys)
  put_page merged
  above (record (with_keys keys parent) { children = children })

-- `fix_leaf_underflow`: an entry of the left sibling, an entry of the right one, or a merge.
abbrev pub merge_leaves :
    (ParsedPage → T (Unit {0}))
    → ParsedPage
    → ParsedPage
    → ParsedPage
    → ℕ
    → ℕ
    → List ℕ
    → T (Unit {0})
merge_leaves above left right parent child_place key_place parent_path = do
  let merged = record left {
    leaf_entries = left.leaf_entries ++ right.leaf_entries;
    next_leaf = right.next_leaf;
  }
  if leaf_overflow merged.leaf_entries
      then redistribute_leaf_pair left right parent parent_path
      else (do
        (λ t.
            if t.root.first_leaf_page == right.page_id
            then set_first_leaf_page merged.page_id t
            else (ok tt, t))
        drop_child above merged parent child_place key_place)

abbrev pub merge_leaf :
    (ParsedPage → T (Unit {0})) → ParsedPage → ParsedPage → ℕ → List ℕ → T (Unit {0})
merge_leaf above leaf parent child_index parent_path =
    if ltb 0 child_index
    then (do
      left ← sibling_at (λ _. false) expected_leaf_sibling parent (child_index - 1)
      merge_leaves above left leaf parent child_index (child_index - 1) parent_path)
    else if leb (length parent.children) (child_index + 1)
    then fail no_leaf_sibling
    else (do
      right ← sibling_at (λ _. false) expected_leaf_sibling parent (child_index + 1)
      merge_leaves above leaf right parent (child_index + 1) child_index parent_path)

abbrev pub leaf_from_right :
    (ParsedPage → T (Unit {0})) → ParsedPage → ParsedPage → ℕ → List ℕ → T (Unit {0})
leaf_from_right above leaf parent child_index parent_path =
    if ltb (child_index + 1) (length parent.children)
    then (do
      right ← sibling_at not_leaf expected_leaf_sibling parent (child_index + 1)
      if leaf_underflow right.leaf_entries false
          then merge_leaf above leaf parent child_index parent_path
          else (do
            (moved, rest) ← raise (split_first right.leaf_entries)
            put_page (record right { leaf_entries = rest })
            put_page (record leaf { leaf_entries = leaf.leaf_entries ++ (moved ∷ []) })
            renew parent parent_path))
    else merge_leaf above leaf parent child_index parent_path

abbrev pub leaf_from_left :
    (ParsedPage → T (Unit {0})) → ParsedPage → ParsedPage → ℕ → List ℕ → T (Unit {0})
leaf_from_left above leaf parent child_index parent_path =
    if ltb 0 child_index
    then (do
      left ← sibling_at not_leaf expected_leaf_sibling parent (child_index - 1)
      if leaf_underflow left.leaf_entries false
          then leaf_from_right above leaf parent child_index parent_path
          else (do
            (rest, moved) ← raise (split_last left.leaf_entries)
            put_page (record left { leaf_entries = rest })
            put_page (record leaf { leaf_entries = moved ∷ leaf.leaf_entries })
            renew parent parent_path))
    else leaf_from_right above leaf parent child_index parent_path

-- A read past the root's end of the path is undefined in the source.
abbrev pub leaf_under : (ParsedPage → T (Unit {0})) → ParsedPage → List ℕ → T (Unit {0})
leaf_under above leaf [] = fail undefined
leaf_under above leaf (parent_id ∷ more) = do
  (parent, child_index) ← parent_of parent_id leaf.page_id
  leaf_from_left above leaf parent child_index (parent_id ∷ more)

unfoldable pub fix_leaf_underflow : (ParsedPage → T (Unit {0})) → ParsedPage → List ℕ → T (Unit {0})
unfolding parent_of sibling_at put_page split_last renew redistribute_leaf_pair drop_child
fix_leaf_underflow above leaf [] = fail invalid_path
fix_leaf_underflow above leaf (last ∷ path) = do
  throw_when (not (last == leaf.page_id)) invalid_path
  λ t. (if leaf.page_id == t.root.root_page then put_page leaf t else leaf_under above leaf path t)

-- `fix_internal_underflow`
abbrev pub merge_inner_pages :
    (ParsedPage → T (Unit {0}))
    → ParsedPage
    → ParsedPage
    → ParsedPage
    → ℕ
    → ℕ
    → List ℕ
    → T (Unit {0})
merge_inner_pages above left right parent child_place key_place parent_path = do
  merged ← rebuild_internal_keys (record left { children = left.children ++ right.children })
  if inner_overflow merged.inner_keys merged.children
      then redistribute_internal_pair left right parent parent_path
      else drop_child above merged parent child_place key_place

abbrev pub merge_inner :
    (ParsedPage → T (Unit {0})) → ParsedPage → ParsedPage → ℕ → List ℕ → T (Unit {0})
merge_inner above node parent child_index parent_path =
    if ltb 0 child_index
    then (do
      left ← sibling_at (λ _. false) expected_internal_sibling parent (child_index - 1)
      merge_inner_pages above left node parent child_index (child_index - 1) parent_path)
    else if leb (length parent.children) (child_index + 1)
    then fail no_internal_sibling
    else (do
      right ← sibling_at (λ _. false) expected_internal_sibling parent (child_index + 1)
      merge_inner_pages above node right parent (child_index + 1) child_index parent_path)

-- The sibling and the node with a child moved between them, in the order in which they are written.
abbrev pub moved_child :
    ParsedPage → List ℕ → ParsedPage → List ℕ → ParsedPage → List ℕ → T (Unit {0})
moved_child sibling sibling_children node node_children parent parent_path = do
  sibling' ← rebuild_internal_keys (record sibling { children = sibling_children })
  node' ← rebuild_internal_keys (record node { children = node_children })
  put_page sibling'
  put_page node'
  renew parent parent_path

abbrev pub has_spare : ParsedPage → Bool
has_spare sibling =
    not (inner_underflow sibling.inner_keys sibling.children false)
    && ltb 1 (length sibling.children)

abbrev pub inner_from_right :
    (ParsedPage → T (Unit {0})) → ParsedPage → ParsedPage → ℕ → List ℕ → T (Unit {0})
inner_from_right above node parent child_index parent_path =
    if ltb (child_index + 1) (length parent.children)
    then (do
      right ← sibling_at is_leaf expected_internal_sibling parent (child_index + 1)
      if has_spare right
          then (do
            (moved, rest) ← raise (split_first right.children)
            moved_child right rest node (node.children ++ (moved ∷ [])) parent parent_path)
          else merge_inner above node parent child_index parent_path)
    else merge_inner above node parent child_index parent_path

abbrev pub inner_from_left :
    (ParsedPage → T (Unit {0})) → ParsedPage → ParsedPage → ℕ → List ℕ → T (Unit {0})
inner_from_left above node parent child_index parent_path =
    if ltb 0 child_index
    then (do
      left ← sibling_at is_leaf expected_internal_sibling parent (child_index - 1)
      if has_spare left
          then (do
            (rest, moved) ← raise (split_last left.children)
            moved_child left rest node (moved ∷ node.children) parent parent_path)
          else inner_from_right above node parent child_index parent_path)
    else inner_from_right above node parent child_index parent_path

abbrev pub inner_under : (ParsedPage → T (Unit {0})) → ParsedPage → List ℕ → T (Unit {0})
inner_under above node [] = fail undefined
inner_under above node (parent_id ∷ more) = do
  (parent, child_index) ← parent_of parent_id node.page_id
  inner_from_left above node parent child_index (parent_id ∷ more)

abbrev pub settle_root : ParsedPage → T (Unit {0})
settle_root node =
    if length node.children == 1
    then promote_single_child_root node
    else (do rebuilt ← rebuild_internal_keys node; put_page rebuilt)

unfoldable pub fix_internal_underflow :
    (ParsedPage → T (Unit {0})) → ParsedPage → ℕ → List ℕ → T (Unit {0})
unfolding parent_of sibling_at put_page split_last rebuild_internal_keys renew
    redistribute_internal_pair drop_child promote_single_child_root
fix_internal_underflow above node last path = do
  throw_when (not (last == node.page_id)) invalid_path
  λ t.
      (if node.page_id == t.root.root_page
        then settle_root node t
        else inner_under above node path t)

-- `handle_internal_after_child_removed`
abbrev pub handle_node : (ParsedPage → T (Unit {0})) → ParsedPage → ℕ → List ℕ → T (Unit {0})
handle_node above node last path t =
    if node.page_id == t.root.root_page
    then (if length node.children == 1 then promote_single_child_root node t else put_page node t)
    else if inner_underflow node.inner_keys node.children false
    then fix_internal_underflow above node last path t
    else (put_page node >> propagate_subtree_min_change node.page_id (last ∷ path)) t

unfoldable pub handle_internal_after_child_removed : List ℕ → ParsedPage → T (Unit {0})
unfolding rebuild_internal_keys put_page propagate_subtree_min_change promote_single_child_root
    fix_internal_underflow
handle_internal_after_child_removed [] node = do
  throw_when (is_leaf node.type) expected_internal_node
  fail invalid_path
handle_internal_after_child_removed (last ∷ path) node =
    let above = handle_internal_after_child_removed path in
    (do
      throw_when (is_leaf node.type) expected_internal_node
      throw_when (not (last == node.page_id)) invalid_path
      rebuilt ← rebuild_internal_keys node
      handle_node above rebuilt last path)
