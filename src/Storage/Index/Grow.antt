-- ===== src/Storage/Index/Grow.antt =====
-- Pages that overflow: `insert_into_parent`, the redistributions and splits of leaves and inner pages in
-- src/storage/disk_bsp_index.cpp. `above` is the call of `split_internal` on the parent and its path.
pub mod RootSplit
pub mod GiveLeft
use cw_db.Prelude.{
  ℕ, zero, suc, ◌+◌, ◌-◌, ◌/◌, Bool, true, false, not, ◌&&◌, ◌||◌, List, [], ◌∷◌, ◌++◌, Option,
  none, some, ◌==◌, ltb, leb, if◌then◌else◌, length, take, drop, get_elem?,
}
use cw_db.Prelude.Error.{
  Error, Result, ok, throw, leaf_cannot_be_parent, invalid_path_to_left, parent_missing_child,
  empty_split_leaf, empty_right_node, empty_right_child, expected_leaf_sibling,
  expected_internal_sibling, internal_siblings_do_not_fit, leaf_siblings_do_not_fit, invalid_path,
  undefined,
}
use cw_db.Storage.Page.{NodeType, LeafEntry, ParsedPage, leaf_overflow, inner_overflow}
use cw_db.Storage.Index.{Root, empty_leaf}
use cw_db.Storage.Index.Vectors.{
  insert_at, split_last, split_first, is_empty, thirds, place_of, sort_entries,
}
use cw_db.Storage.Index.Tree.{
  Tree, T, then_do, ◌>>=◌, ◌>>◌, pure, raise, fail, get_page, put_page, new_page, set_root_page,
  is_leaf, throw_when, or_fail, first_entry, subtree_min_entry, with_keys, rebuild_internal_keys,
  propagate_subtree_min_change, write_or_split,
}

-- A new inner page, and one with these children.
abbrev pub inner_page : ℕ → List ℕ → ParsedPage
inner_page page_id children = record (empty_leaf page_id) {
  type = NodeType.inner;
  children = children;
}

-- The parent of a page, and the place of the page in it.
unfoldable pub parent_of : ℕ → ℕ → T (ParsedPage × ℕ)
unfolding get_page place_of
parent_of parent_id page_id = do
  parent ← get_page parent_id
  throw_when (is_leaf parent.type) leaf_cannot_be_parent
  child_index ← or_fail parent_missing_child (place_of page_id parent.children)
  pure (parent, child_index)

-- `insert_into_parent`, for a root and for a page with a parent.
abbrev pub new_root : ParsedPage → LeafEntry → ParsedPage → T (Unit {0})
new_root left separator right = do
  new_root_id ← new_page
  put_page (with_keys (separator ∷ []) (inner_page new_root_id (left.page_id ∷ right.page_id ∷ [])))
  set_root_page new_root_id

abbrev pub into_parent :
    (ParsedPage → T (Unit {0})) → ParsedPage → LeafEntry → ParsedPage → ℕ → T (Unit {0})
into_parent above left separator right parent_id = do
  (parent, child_index) ← parent_of parent_id left.page_id
  keys ← raise (insert_at child_index separator parent.inner_keys)
  children ← raise (insert_at (child_index + 1) right.page_id parent.children)
  rebuilt ← rebuild_internal_keys (record (with_keys keys parent) { children = children })
  write_or_split above rebuilt

abbrev pub join_above :
    (ParsedPage → T (Unit {0})) → ParsedPage → LeafEntry → ParsedPage → List ℕ → T (Unit {0})
join_above above left separator right [] = new_root left separator right
join_above above left separator right (parent_id ∷ more) =
    into_parent above left separator right parent_id

unfoldable pub insert_into_parent :
    (ParsedPage → T (Unit {0})) → ParsedPage → LeafEntry → ParsedPage → List ℕ → T (Unit {0})
unfolding put_page new_page parent_of insert_at rebuild_internal_keys
insert_into_parent above left separator right [] = fail invalid_path_to_left
insert_into_parent above left separator right (last ∷ path) = do
  throw_when (not (last == left.page_id)) invalid_path_to_left
  put_page left
  put_page right
  join_above above left separator right path

-- `try_give_to_right_leaf`: the last entry goes to the right sibling, if both then fit.
abbrev pub write_given : ParsedPage → ParsedPage → ParsedPage → T Bool
write_given first second parent = do
  put_page first
  put_page second
  rebuilt ← rebuild_internal_keys parent
  put_page rebuilt
  pure true

abbrev pub give_right : ParsedPage → ParsedPage → ParsedPage → T Bool
give_right leaf right parent =
    if not (is_leaf right.type) || is_empty leaf.leaf_entries then pure false else (do
      (kept, moved) ← raise (split_last leaf.leaf_entries)
      let more = moved ∷ right.leaf_entries
      if is_empty kept || (leaf_overflow more || leaf_overflow kept)
          then pure false
          else write_given (record leaf { leaf_entries = kept })
              (record right { leaf_entries = more }) parent)

abbrev pub give_right_to : ParsedPage → ParsedPage → Option ℕ → T Bool
give_right_to leaf parent none = pure false
give_right_to leaf parent (some right_id) = do
  right ← get_page right_id
  give_right leaf right parent

unfoldable pub try_give_to_right_leaf : ParsedPage → ParsedPage → ℕ → T Bool
unfolding get_page put_page split_last rebuild_internal_keys
try_give_to_right_leaf leaf parent child_index =
    give_right_to leaf parent (get_elem? parent.children (child_index + 1))

-- `try_give_to_left_leaf`: the last entry of the left sibling goes to the leaf, if both then fit.
abbrev pub give_left : ParsedPage → ParsedPage → ParsedPage → T Bool
give_left leaf left parent = if not (is_leaf left.type) then pure false else (do
  (kept, moved) ← raise (split_last left.leaf_entries)
  let more = moved ∷ leaf.leaf_entries
  if is_empty kept || (leaf_overflow more || leaf_overflow kept)
      then pure false
      else write_given (record leaf { leaf_entries = more }) (record left { leaf_entries = kept })
          parent)

abbrev pub give_left_to : ParsedPage → ParsedPage → Option ℕ → T Bool
give_left_to leaf parent none = fail undefined
give_left_to leaf parent (some left_id) = do left ← get_page left_id; give_left leaf left parent

unfoldable pub try_give_to_left_leaf : ParsedPage → ParsedPage → ℕ → T Bool
unfolding get_page put_page split_last rebuild_internal_keys
try_give_to_left_leaf leaf parent child_index =
    if child_index == 0 || is_empty leaf.leaf_entries
    then pure false
    else give_left_to leaf parent (get_elem? parent.children (child_index - 1))

-- `split_leaf_pair`: two leaves become three.
unfoldable pub split_leaf_pair :
    (ParsedPage → T (Unit {0})) → ParsedPage → ParsedPage → ParsedPage → ℕ → T (Unit {0})
unfolding sort_entries new_page put_page thirds insert_at rebuild_internal_keys
split_leaf_pair above left right parent parent_index = do
  items ← raise (sort_entries (left.leaf_entries ++ right.leaf_entries))
  middle_id ← new_page
  let parts = thirds items
  throw_when (is_empty parts.0 || (is_empty parts.1 || is_empty parts.2)) empty_split_leaf
  put_page (record left { leaf_entries = parts.0; next_leaf = middle_id })
  put_page (record (empty_leaf middle_id) { leaf_entries = parts.1; next_leaf = right.page_id })
  put_page (record right { leaf_entries = parts.2 })
  children ← raise (insert_at (parent_index + 1) middle_id parent.children)
  rebuilt ← rebuild_internal_keys (record parent { children = children })
  write_or_split above rebuilt

-- `split_internal_pair`
unfoldable pub split_internal_pair :
    (ParsedPage → T (Unit {0})) → ParsedPage → ParsedPage → ParsedPage → ℕ → T (Unit {0})
unfolding new_page put_page thirds insert_at rebuild_internal_keys
split_internal_pair above left right parent parent_index = do
  let parts = thirds (left.children ++ right.children)
  left' ← rebuild_internal_keys (record left { children = parts.0 })
  right' ← rebuild_internal_keys (record right { children = parts.2 })
  throw_when
      (inner_overflow left'.inner_keys left'.children
        || inner_overflow right'.inner_keys right'.children)
      internal_siblings_do_not_fit
  middle_id ← new_page
  middle ← rebuild_internal_keys (inner_page middle_id parts.1)
  put_page left'
  put_page middle
  put_page right'
  children ← raise (insert_at (parent_index + 1) middle_id parent.children)
  rebuilt ← rebuild_internal_keys (record parent { children = children })
  write_or_split above rebuilt

-- `try_redistribute_internal_with_right`: the first child of the right sibling goes to the node;
-- `node_children` and `sibling_children` are those that the two then have.
abbrev pub redistributed : ParsedPage → List ℕ → ParsedPage → List ℕ → ParsedPage → List ℕ → T Bool
redistributed node node_children sibling sibling_children parent parent_path = do
  cand ← rebuild_internal_keys (record node { children = node_children })
  cand_sibling ← rebuild_internal_keys (record sibling { children = sibling_children })
  if inner_overflow cand.inner_keys cand.children
        || inner_overflow cand_sibling.inner_keys cand_sibling.children
      then pure false
      else (do
        put_page cand
        put_page cand_sibling
        rebuilt ← rebuild_internal_keys parent
        put_page rebuilt
        propagate_subtree_min_change parent.page_id parent_path
        pure true)

abbrev pub redistribute_right : ParsedPage → ParsedPage → List ℕ → Option ℕ → T Bool
redistribute_right node parent parent_path none = pure false
redistribute_right node parent parent_path (some right_id) = do
  right ← get_page right_id
  if is_leaf right.type || leb (length right.children) 1 then pure false else (do
    (moved, rest) ← raise (split_first right.children)
    redistributed node (node.children ++ (moved ∷ [])) right rest parent parent_path)

unfoldable pub try_redistribute_internal_with_right : ParsedPage → ParsedPage → ℕ → List ℕ → T Bool
unfolding get_page put_page rebuild_internal_keys propagate_subtree_min_change
try_redistribute_internal_with_right node parent child_index parent_path =
    redistribute_right node parent parent_path (get_elem? parent.children (child_index + 1))

abbrev pub redistribute_left : ParsedPage → ParsedPage → List ℕ → Option ℕ → T Bool
redistribute_left node parent parent_path none = fail undefined
redistribute_left node parent parent_path (some left_id) = do
  left ← get_page left_id
  if is_leaf left.type || leb (length left.children) 1 then pure false else (do
    (rest, moved) ← raise (split_last left.children)
    redistributed node (moved ∷ node.children) left rest parent parent_path)

unfoldable pub try_redistribute_internal_with_left : ParsedPage → ParsedPage → ℕ → List ℕ → T Bool
unfolding get_page put_page split_last rebuild_internal_keys propagate_subtree_min_change
try_redistribute_internal_with_left node parent child_index parent_path =
    if child_index == 0
    then pure false
    else redistribute_left node parent parent_path (get_elem? parent.children (child_index - 1))

-- `split_internal`, where the node is the root or has no sibling.
unfoldable pub split_internal_alone :
    (ParsedPage → T (Unit {0})) → ParsedPage → List ℕ → T (Unit {0})
unfolding new_page rebuild_internal_keys subtree_min_entry insert_into_parent
split_internal_alone above node path = do
  right_id ← new_page
  let split_at = length node.children / 2
  node' ← rebuild_internal_keys (record node { children = take split_at node.children })
  right ← rebuild_internal_keys (inner_page right_id (drop split_at node.children))
  throw_when (is_empty right.children) empty_right_child
  separator ← subtree_min_entry right.page_id
  insert_into_parent above node' separator right path

-- A sibling of a page at a place, of which it must be of the kind.
unfoldable pub sibling_at : (NodeType → Bool) → Error → ParsedPage → ℕ → T ParsedPage
unfolding get_page
sibling_at wrong e parent i = do
  id ← or_fail undefined (get_elem? parent.children i)
  sibling ← get_page id
  throw_when (wrong sibling.type) e
  pure sibling

abbrev pub not_leaf : NodeType → Bool
not_leaf t = not (is_leaf t)

abbrev pub split_internal_beside :
    (ParsedPage → T (Unit {0})) → ParsedPage → ParsedPage → ℕ → List ℕ → T (Unit {0})
split_internal_beside above node parent child_index path =
    if ltb (child_index + 1) (length parent.children)
    then (do
      right ← sibling_at is_leaf expected_internal_sibling parent (child_index + 1)
      split_internal_pair above node right parent child_index)
    else if ltb 0 child_index
    then (do
      left ← sibling_at is_leaf expected_internal_sibling parent (child_index - 1)
      split_internal_pair above left node parent (child_index - 1))
    else split_internal_alone above node path

abbrev pub split_internal_in : (ParsedPage → T (Unit {0})) → ParsedPage → ℕ → List ℕ → T (Unit {0})
split_internal_in above node last [] = split_internal_alone above node (last ∷ [])
split_internal_in above node last (parent_id ∷ more) = do
  (parent, child_index) ← parent_of parent_id node.page_id
  gave ← try_redistribute_internal_with_right node parent child_index (parent_id ∷ more)
  if gave then pure tt else (do
    took ← try_redistribute_internal_with_left node parent child_index (parent_id ∷ more)
    if took
        then pure tt
        else split_internal_beside above node parent child_index (last ∷ parent_id ∷ more))

unfoldable pub split_internal : List ℕ → ParsedPage → T (Unit {0})
unfolding parent_of try_redistribute_internal_with_right try_redistribute_internal_with_left
    sibling_at split_internal_pair split_internal_alone
split_internal [] node = split_internal_alone (λ _. fail invalid_path) node []
split_internal (last ∷ path) node =
    let above = split_internal path in split_internal_in above node last path

-- `split_leaf`
unfoldable pub split_leaf_alone : (ParsedPage → T (Unit {0})) → ParsedPage → List ℕ → T (Unit {0})
unfolding new_page insert_into_parent
split_leaf_alone above leaf path = do
  right_id ← new_page
  let split_at = length leaf.leaf_entries / 2
  let behind = drop split_at leaf.leaf_entries
  separator ← first_entry empty_right_node behind
  insert_into_parent above
      (record leaf { leaf_entries = take split_at leaf.leaf_entries; next_leaf = right_id })
      separator (record (empty_leaf right_id) { leaf_entries = behind; next_leaf = leaf.next_leaf })
      path

abbrev pub split_leaf_beside :
    (ParsedPage → T (Unit {0})) → ParsedPage → ParsedPage → ℕ → List ℕ → T (Unit {0})
split_leaf_beside above leaf parent child_index path =
    if ltb (child_index + 1) (length parent.children)
    then (do
      right ← sibling_at not_leaf expected_leaf_sibling parent (child_index + 1)
      split_leaf_pair above leaf right parent child_index)
    else if ltb 0 child_index
    then (do
      left ← sibling_at not_leaf expected_leaf_sibling parent (child_index - 1)
      split_leaf_pair above left leaf parent (child_index - 1))
    else split_leaf_alone above leaf path

abbrev pub split_leaf_in : (ParsedPage → T (Unit {0})) → ParsedPage → ℕ → List ℕ → T (Unit {0})
split_leaf_in above leaf last [] = split_leaf_alone above leaf (last ∷ [])
split_leaf_in above leaf last (parent_id ∷ more) = do
  (parent, child_index) ← parent_of parent_id leaf.page_id
  gave ← try_give_to_right_leaf leaf parent child_index
  if gave then pure tt else (do
    took ← try_give_to_left_leaf leaf parent child_index
    if took
        then pure tt
        else split_leaf_beside above leaf parent child_index (last ∷ parent_id ∷ more))

unfoldable pub split_leaf : ParsedPage → List ℕ → T (Unit {0})
unfolding parent_of try_give_to_right_leaf try_give_to_left_leaf sibling_at split_leaf_pair
    split_leaf_alone split_internal
split_leaf leaf [] = split_leaf_alone (λ _. fail invalid_path) leaf []
split_leaf leaf (last ∷ path) = split_leaf_in (split_internal path) leaf last path
