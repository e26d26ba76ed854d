-- ===== src/Storage/Index/Tree/Reads.antt =====
-- What the searches for separators leave alone: `subtree_min_entry` and `rebuild_internal_keys` of
-- src/storage/disk_bsp_index.cpp read pages and write none.
use cw_db.Prelude.{
  ℕ, zero, suc, ◌≡◌, refl, true, false, List, [], ◌∷◌, inl, inr, leb, ltb, Bool, ◌==◌, arith, ap,
  sym, ◌∙◌, subst, Option-cases, Bool-cases,
}
use cw_db.Prelude.Bytes.{Bytes}
use cw_db.Prelude.Map.{find, nat_eq}
use cw_db.Prelude.Error.{Error, Result, ok, throw}
use cw_db.Storage.Page.{ParsedPage, LeafEntry, parse}
use cw_db.Storage.Pager.{Pager, read_page, load_page_from_disk, touch_cache, and_then}
use cw_db.Storage.Pager.Puts.{touch_cache_lem}
use cw_db.Storage.Pager.Refinement.{IsValid}
use cw_db.Storage.Pager.Reads.{ReadOk, SamePages-ReadOk, read_page-view}
use cw_db.Storage.Index.{read_node}
use cw_db.Storage.Index.Tree.{
  Tree, T, then_do, ◌>>=◌, pure, raise, is_leaf, throw_when, first_entry, into_first, get_page,
  down_to_leaf, subtree_min_entry, minima, separators, rebuild_internal_keys, with_keys,
}

pub ReadOk-refl : (p : Pager) → IsValid p → ReadOk p p
ReadOk-refl p v = record {
  valid = v;
  view_eq = λ j. refl;
  count_eq = refl;
  capacity_eq = refl;
  open_eq = refl;
}

pub ReadOk-trans : (p q r : Pager) → ReadOk p q → ReadOk q r → ReadOk p r
ReadOk-trans p q r a b = record {
  valid = b.valid;
  view_eq = λ j. b.view_eq j ∙ a.view_eq j;
  count_eq = b.count_eq ∙ a.count_eq;
  capacity_eq = b.capacity_eq ∙ a.capacity_eq;
  open_eq = b.open_eq ∙ a.open_eq;
}

-- A read of any page, there or not.
pub read_page-ReadOk : (id : ℕ) (p : Pager) → IsValid p → ReadOk p (read_page id p).1
unfolding read_page
read_page-ReadOk id p v = elim (Bool-cases (ltb id p.page_count)) [
  | inl below ↦
      let (q, e, r) = read_page-view id p v (ground arith) in subst (λ m. ReadOk p m.1) (sym e) r
  | inr above ↦
      let past : leb p.page_count id ≡ true = ground arith in
      elim (Bool-cases (p.cache_capacity == 0)) [
        | inl uncached ↦ rw (uncached, past) (ReadOk-refl p v)
        | inr cached ↦ elim (Option-cases (find id p.cache)) [
          | inl absent ↦
              rw (cached, absent) (unfold load_page_from_disk in rw past (ReadOk-refl p v))
          | inr (slot, here) ↦
              let (c, same, kept) = touch_cache_lem id p v.coherent here in
              rw (cached, here)
                (SamePages-ReadOk p (touch_cache id p) v c (rw (kept, same.capacity_eq) v.small)
                  same)
        ]
      ]
]

-- The step reads pages only.
abbrev pub Reads : {A : Type 0} → T A → Type 0
Reads m = (t : Tree) → IsValid t.pager → ReadOk t.pager (m t).1.pager

then_do-ReadOk :
    {A B : Type 0} (t : Tree) (r : Result A × Tree) (f : A → T B)
    → ReadOk t.pager r.1.pager
    → ((a : A) → Reads (f a))
    → ReadOk t.pager (then_do r f).1.pager
then_do-ReadOk t (ok a, u) f h k = ReadOk-trans t.pager u.pager (f a u).1.pager h (k a u h.valid)
then_do-ReadOk t (throw e, u) f h k = h

pub bind-Reads :
    {A B : Type 0} (m : T A) (f : A → T B) → Reads m → ((a : A) → Reads (f a)) → Reads (m >>= f)
bind-Reads m f h k t v = then_do-ReadOk t (m t) f (h t v) k

pub pure-Reads : {A : Type 0} (r : Result A) → Reads (raise r)
pure-Reads r t v = ReadOk-refl t.pager v

parsed-ReadOk :
    (p : Pager) (id : ℕ) (m : Result Bytes × Pager)
    → ReadOk p m.1
    → ReadOk p (and_then m (λ raw q. (parse id raw, q))).1
parsed-ReadOk p id (ok raw, q) h = h
parsed-ReadOk p id (throw e, q) h = h

pub get_page-Reads : (id : ℕ) → Reads (get_page id)
unfolding get_page read_node
get_page-Reads id t v =
    parsed-ReadOk t.pager id (read_page id t.pager) (read_page-ReadOk id t.pager v)

into_first-Reads :
    (below : ParsedPage → T ParsedPage) (cs : List ℕ)
    → ((p : ParsedPage) → Reads (below p))
    → Reads (into_first below cs)
into_first-Reads below [] h t v = ReadOk-refl t.pager v
into_first-Reads below (c ∷ cs) h t v = bind-Reads (get_page c) below (get_page-Reads c) h t v

down_to_leaf-Reads : (rounds : ℕ) (node : ParsedPage) → Reads (down_to_leaf rounds node)
unfolding down_to_leaf
down_to_leaf-Reads zero node t v = elim (Bool-cases (is_leaf node.type)) [
  | inl on ↦ rw on (ReadOk-refl t.pager v)
  | inr off ↦ rw off (ReadOk-refl t.pager v)
]
down_to_leaf-Reads (suc rounds) node t v = elim (Bool-cases (is_leaf node.type)) [
  | inl on ↦ rw on (ReadOk-refl t.pager v)
  | inr off ↦
      rw off (into_first-Reads (down_to_leaf rounds) node.children (down_to_leaf-Reads rounds) t v)
]

first_entry-Reads : (e : Error) (es : List LeafEntry) → Reads (first_entry e es)
first_entry-Reads e [] t v = ReadOk-refl t.pager v
first_entry-Reads e (x ∷ es) t v = ReadOk-refl t.pager v

pub subtree_min_entry-Reads : (id : ℕ) → Reads (subtree_min_entry id)
unfolding subtree_min_entry
subtree_min_entry-Reads id = bind-Reads (get_page id) _ (get_page-Reads id) λ p.
    bind-Reads (λ t. down_to_leaf t.pager.page_count p t) _
      (λ t. down_to_leaf-Reads t.pager.page_count p t)
      (λ leaf. first_entry-Reads _ leaf.leaf_entries)

minima-Reads : (cs : List ℕ) → Reads (minima cs)
unfolding minima
minima-Reads [] = pure-Reads {A = List LeafEntry} (ok [])
minima-Reads (c ∷ cs) =
    bind-Reads (subtree_min_entry c) _ (subtree_min_entry-Reads c)
      λ k. bind-Reads (minima cs) _ (minima-Reads cs) (λ ks. pure-Reads (ok (k ∷ ks)))

separators-Reads : (cs : List ℕ) → Reads (separators cs)
unfolding separators
separators-Reads [] = pure-Reads {A = List LeafEntry} (ok [])
separators-Reads (c ∷ cs) = minima-Reads cs

pub throw_when-Reads : (b : Bool) (e : Error) → Reads (throw_when b e)
throw_when-Reads true e = pure-Reads {A = Unit {0}} (throw e)
throw_when-Reads false e = pure-Reads {A = Unit {0}} (ok tt)

-- Making the keys of an inner page anew changes no page.
pub rebuild_internal_keys-Reads : (node : ParsedPage) → Reads (rebuild_internal_keys node)
unfolding rebuild_internal_keys
rebuild_internal_keys-Reads node =
    bind-Reads (throw_when (is_leaf node.type) _) _ (throw_when-Reads (is_leaf node.type) _) λ _.
      bind-Reads (separators node.children) _ (separators-Reads node.children)
        (λ keys. pure-Reads (ok (with_keys keys node)))

rebuilt-page_id :
    (node n : ParsedPage) (r : Result (List LeafEntry) × Tree)
    → (then_do r (λ keys. pure (with_keys keys node))).0 ≡ ok n
    → n.page_id ≡ node.page_id
rebuilt-page_id node n (ok keys, u) h =
    let e : with_keys keys node ≡ n = ground arith in ap (λ x. x.page_id) (sym e)
rebuilt-page_id node n (throw e, u) h = absurd (ground arith)

pub rebuild_internal_keys-page_id :
    (node n : ParsedPage) (t : Tree)
    → (rebuild_internal_keys node t).0 ≡ ok n
    → n.page_id ≡ node.page_id
unfolding rebuild_internal_keys
rebuild_internal_keys-page_id node n t h = elim (Bool-cases (is_leaf node.type)) [
  | inl on ↦ absurd (ground (arith, h, on))
  | inr off ↦ rebuilt-page_id node n (separators node.children t) (rw off at h)
]
