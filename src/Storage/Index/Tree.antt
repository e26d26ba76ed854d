-- ===== src/Storage/Index/Tree.antt =====
-- The tree that a change works on, and what its changes share: `subtree_min_entry`, `leftmost_leaf`,
-- `rebuild_internal_keys`, `propagate_subtree_min_change` and `promote_single_child_root` of
-- src/storage/disk_bsp_index.cpp. A path is listed from its last page up to the root.
pub mod Reads
use cw_db.Prelude.{
  ℕ, zero, suc, ◌+◌, ◌%◌, Bool, true, false, not, ◌&&◌, ◌||◌, List, [], ◌∷◌, Option, none, some,
  ◌==◌, if◌then◌else◌, length,
}
use cw_db.Prelude.Error.{
  Error, Result, ok, throw, diverges, undefined, leaf_without_separators, empty_internal_node,
  empty_leaf_in_subtree, separator_of_empty_leaf, leaf_cannot_be_parent, root_not_single,
}
use cw_db.Storage.Page.{NodeType, LeafEntry, ParsedPage, inner_overflow}
use cw_db.Storage.Pager.{Pager, M}
use cw_db.Storage.Index.{Root, read_node, write_node, allocate_node_page, write_superblock}
use cw_db.Storage.Index.Vectors.{place_of, put_at}

pub record Tree : Type 0 where
  pub root : Root
  pub pager : Pager

-- Code that changes the tree and may throw.
abbrev pub T : Type 0 → Type 0
T A = Tree → Result A × Tree

abbrev pub then_do : {A B : Type 0} → Result A × Tree → (A → T B) → Result B × Tree
then_do (ok a, t) f = f a t
then_do (throw e, t) f = (throw e, t)

infixl 5 ◌>>=◌ ◌>>◌
abbrev pub ◌>>=◌ : {A B : Type 0} → T A → (A → T B) → T B
◌>>=◌ m f t = then_do (m t) f

abbrev pub ◌>>◌ : {B : Type 0} → T (Unit {0}) → T B → T B
◌>>◌ m k t = then_do (m t) (λ _. k)

abbrev pub pure : {A : Type 0} → A → T A
pure a t = (ok a, t)

abbrev pub raise : {A : Type 0} → Result A → T A
raise r t = (r, t)

abbrev pub fail : {A : Type 0} → Error → T A
fail e t = (throw e, t)

abbrev pub on_pager : {A : Type 0} → M A → T A
on_pager m t = ((m t.pager).0, record t { pager = (m t.pager).1 })

unfoldable pub get_page : ℕ → T ParsedPage
get_page page_id = on_pager (read_node page_id)

unfoldable pub put_page : ParsedPage → T (Unit {0})
put_page page = on_pager (write_node page)

unfoldable pub new_page : T ℕ
new_page = on_pager allocate_node_page

unfoldable pub save_root : T (Unit {0})
save_root t = on_pager (write_superblock t.root) t

abbrev pub set_root_page : ℕ → T (Unit {0})
set_root_page page t = (ok tt, record t { root = record t.root { root_page = page } })

abbrev pub set_first_leaf_page : ℕ → T (Unit {0})
set_first_leaf_page page t = (ok tt, record t { root = record t.root { first_leaf_page = page } })

abbrev pub set_size : ℕ → T (Unit {0})
set_size n t = (ok tt, record t { root = record t.root { size = n } })

abbrev pub is_leaf : NodeType → Bool
is_leaf NodeType.leaf = true
is_leaf NodeType.inner = false

abbrev pub throw_when : Bool → Error → T (Unit {0})
throw_when true e = fail e
throw_when false e = pure tt

abbrev pub or_fail : {A : Type 0} → Error → Option A → T A
or_fail e none = fail e
or_fail e (some a) = pure a

-- `while (p.type != Leaf) p = read_page(p.children.front());` in at most so many rounds. The source
-- does not bound it; a way down of more pages than there are comes back to a page.
abbrev pub into_first : (ParsedPage → T ParsedPage) → List ℕ → T ParsedPage
into_first below [] = fail empty_internal_node
into_first below (c ∷ cs) = get_page c >>= below

unfoldable pub down_to_leaf : ℕ → ParsedPage → T ParsedPage
unfolding get_page
down_to_leaf zero node = if is_leaf node.type then pure node else fail diverges
down_to_leaf (suc rounds) node =
    let below = down_to_leaf rounds in
    if is_leaf node.type then pure node else into_first below node.children

abbrev pub first_entry : Error → List LeafEntry → T LeafEntry
first_entry e [] = fail e
first_entry e (x ∷ xs) = pure x

unfoldable pub subtree_min_entry : ℕ → T LeafEntry
unfolding get_page down_to_leaf
subtree_min_entry page_id = do
  p ← get_page page_id
  leaf ← λ t. down_to_leaf t.pager.page_count p t
  first_entry empty_leaf_in_subtree leaf.leaf_entries

unfoldable pub leftmost_leaf : ℕ → T ℕ
unfolding get_page down_to_leaf
leftmost_leaf page_id = do
  p ← get_page page_id
  leaf ← λ t. down_to_leaf t.pager.page_count p t
  pure leaf.page_id

unfoldable pub separator_key_for_page : ℕ → T LeafEntry
unfolding get_page subtree_min_entry
separator_key_for_page page_id = do
  p ← get_page page_id
  if is_leaf p.type
      then first_entry separator_of_empty_leaf p.leaf_entries
      else subtree_min_entry page_id

-- The loop over the children from the second on.
unfoldable pub minima : List ℕ → T (List LeafEntry)
unfolding subtree_min_entry
minima [] = pure []
minima (c ∷ cs) = do k ← subtree_min_entry c; ks ← minima cs; pure (k ∷ ks)

unfoldable pub separators : List ℕ → T (List LeafEntry)
unfolding minima
separators [] = pure []
separators (c ∷ cs) = minima cs

abbrev pub with_keys : List LeafEntry → ParsedPage → ParsedPage
with_keys keys node = record node { inner_keys = keys; key_count = length keys % 256 }

unfoldable pub rebuild_internal_keys : ParsedPage → T ParsedPage
unfolding separators
rebuild_internal_keys node = do
  throw_when (is_leaf node.type) leaf_without_separators
  keys ← separators node.children
  pure (with_keys keys node)

-- The loop of `propagate_subtree_min_change` over the pages above `current`.
abbrev pub propagate_at : T (Unit {0}) → LeafEntry → ParsedPage → Option ℕ → T (Unit {0})
propagate_at next current_min parent none = pure tt
propagate_at next current_min parent (some zero) = next
propagate_at next current_min parent (some (suc i)) = do
  keys ← raise (put_at i current_min parent.inner_keys)
  put_page (with_keys keys parent)

unfoldable pub propagate_up : ℕ → LeafEntry → List ℕ → T (Unit {0})
unfolding get_page put_page subtree_min_entry
propagate_up current current_min [] = pure tt
propagate_up current current_min (above ∷ more) = do
  parent ← get_page above
  throw_when (is_leaf parent.type) leaf_cannot_be_parent
  propagate_at (subtree_min_entry parent.page_id >>= λ m. propagate_up parent.page_id m more)
      current_min parent (place_of current parent.children)

unfoldable pub propagate_subtree_min_change : ℕ → List ℕ → T (Unit {0})
unfolding propagate_up subtree_min_entry
propagate_subtree_min_change page_id [] = pure tt
propagate_subtree_min_change page_id (last ∷ []) = pure tt
propagate_subtree_min_change page_id (last ∷ above ∷ more) =
    if last == page_id
    then (subtree_min_entry page_id >>= λ m. propagate_up page_id m (above ∷ more))
    else pure tt

abbrev pub promote : List ℕ → T (Unit {0})
promote (only ∷ []) = do
  child ← get_page only
  set_root_page child.page_id
  first ← (if is_leaf child.type then pure child.page_id else leftmost_leaf child.page_id)
  set_first_leaf_page first
promote _ = fail root_not_single

unfoldable pub promote_single_child_root : ParsedPage → T (Unit {0})
unfolding get_page leftmost_leaf
promote_single_child_root root =
    if is_leaf root.type then fail root_not_single else promote root.children

-- A page is written, or split where it overflows; `split` is the call for it.
abbrev pub write_or_split : (ParsedPage → T (Unit {0})) → ParsedPage → T (Unit {0})
write_or_split split node =
    if inner_overflow node.inner_keys node.children then split node else put_page node
