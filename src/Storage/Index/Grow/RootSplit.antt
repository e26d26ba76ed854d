-- ===== src/Storage/Index/Grow/RootSplit.antt =====
-- The split of an inner root: `split_internal` of src/storage/disk_bsp_index.cpp.
use cw_db.Prelude.{
  ℕ, ◌+◌, ◌/◌, ◌^◌, ◌<◌, ◌≡◌, ◌≢◌, refl, false, [], ◌∷◌, ◌==◌, length, take, drop, replicate, arith,
  ap, sym, ◌∙◌, subst,
}
use cw_db.Prelude.Bytes.{of_le}
use cw_db.Prelude.Error.{Error, Result, ok, throw, corrupt_index_page, empty_right_child}
use cw_db.Storage.Page.{ParsedPage, page_size, parse}
use cw_db.Storage.Pager.{and_then}
use cw_db.Storage.Pager.Invariant.{view}
use cw_db.Storage.Pager.Refinement.{IsValid}
use cw_db.Storage.Pager.Reads.{ReadOk, read_page-view, allocate_page-Wrote}
use cw_db.Storage.Index.{read_node, allocate_node_page}
use cw_db.Storage.Index.Vectors.{is_empty}
use cw_db.Storage.Index.Tree.{
  Tree, T, then_do, ◌>>=◌, get_page, new_page, subtree_min_entry, rebuild_internal_keys, throw_when,
}
use cw_db.Storage.Index.Tree.Reads.{
  Reads, rebuild_internal_keys-Reads, rebuild_internal_keys-page_id, throw_when-Reads,
}
use cw_db.Storage.Index.Grow.{split_internal, split_internal_alone, inner_page}

-- A page that was allocated and not written yet.
record IsBlank (id : ℕ) (t : Tree) : Type 0 where
  valid : IsValid t.pager
  blank : view t.pager id ≡ replicate page_size 0
  there : id < t.pager.page_count

-- The step does not come to an end.
abbrev Stuck : {A : Type 0} → T A → Tree → Type 0
Stuck {A} m t = (a : A) → (m t).0 ≢ ok a

ReadOk-IsBlank : (id : ℕ) (t u : Tree) → IsBlank id t → ReadOk t.pager u.pager → IsBlank id u
ReadOk-IsBlank id t u b r = record {
  valid = r.valid;
  blank = r.view_eq id ∙ b.blank;
  there = omega (arith, r.count_eq, b.there);
}

then_do-Stuck :
    {A B : Type 0} (r : Result A × Tree) (f : A → T B) (P : Tree → Type 0)
    → P r.1
    → ((a : A) (u : Tree) → r.0 ≡ ok a → P u → Stuck (f a) u)
    → (b : B) → (then_do r f).0 ≢ ok b
then_do-Stuck (ok a, u) f P h k b = k a u refl h b
then_do-Stuck (throw e, u) f P h k b = λ eq. ground arith

-- A step that only reads goes on to one that is stuck on the blank page.
read-Stuck :
    {A B : Type 0} (id : ℕ) (m : T A) (f : A → T B) (t : Tree)
    → Reads m
    → IsBlank id t
    → ((a : A) (u : Tree) → (m t).0 ≡ ok a → IsBlank id u → Stuck (f a) u)
    → Stuck (m >>= f) t
read-Stuck id m f t reads b k =
    then_do-Stuck (m t) f (IsBlank id) (ReadOk-IsBlank id t (m t).1 b (reads t b.valid)) k

parse-blank : (id : ℕ) → parse id (replicate page_size 0) ≡ throw corrupt_index_page
unfolding parse of_le
parse-blank id = refl

get_page-blank : (id : ℕ) (t : Tree) → IsBlank id t → (get_page id t).0 ≡ throw corrupt_index_page
unfolding get_page read_node
get_page-blank id t b =
    let (q, e, r) = read_page-view id t.pager b.valid b.there in
    ap (λ m. (and_then m (λ raw q. (parse id raw, q))).0) e ∙ ap (parse id) b.blank ∙ parse-blank id

threw :
    {A B : Type 0} (e : Error) (r : Result A × Tree) (f : A → T B)
    → r.0 ≡ throw e
    → (b : B) → (then_do r f).0 ≢ ok b
threw e (ok a, u) f h b = λ eq. ground arith
threw e (throw e', u) f h b = λ eq. ground arith

thrown :
    {A B : Type 0} (e : Error) (r : Result A × Tree) (f : A → T B)
    → r.0 ≡ throw e
    → (then_do r f).0 ≡ throw e
thrown e (ok a, u) f h = absurd (ground arith)
thrown e (throw e', u) f h = ap throw (ground arith)

subtree_min_entry-blank :
    (id : ℕ) (t : Tree) → IsBlank id t → (subtree_min_entry id t).0 ≡ throw corrupt_index_page
unfolding subtree_min_entry
subtree_min_entry-blank id t b = thrown corrupt_index_page (get_page id t) _ (get_page-blank id t b)

new_page-IsBlank :
    (t : Tree)
    → IsValid t.pager
    → 0 < t.pager.page_count
    → t.pager.page_count + 1 < 2 ^ 32
    → (u : Tree) × (new_page t ≡ (ok t.pager.page_count, u)) × IsBlank t.pager.page_count u
unfolding new_page allocate_node_page
new_page-IsBlank t v pos room =
    let (q, e, w, count) = allocate_page-Wrote t.pager v room in
    let skip : (t.pager.page_count == 0) ≡ false = ground arith in
    (
      record t { pager = q },
      rw (skip, e) refl,
      record {
        valid = w.valid;
        blank = w.view_eq t.pager.page_count ∙ ground arith;
        there = omega (arith, count);
      },
    )

-- Splitting an inner root never comes to an end: in a valid pager with room for one more page, the
-- smallest key of the new right page is looked up before that page is written.
pub split_internal-root_throws :
    (node : ParsedPage) (last : ℕ) (t : Tree)
    → IsValid t.pager
    → 0 < t.pager.page_count
    → t.pager.page_count + 1 < 2 ^ 32
    → (split_internal (last ∷ []) node t).0 ≢ ok tt
unfolding split_internal split_internal_alone
split_internal-root_throws node last t v pos room =
    let (u, e, b) = new_page-IsBlank t v pos room in
    let id = t.pager.page_count in
    let split_at = length node.children / 2 in
    let left = record node { children = take split_at node.children } in
    let right = inner_page id (drop split_at node.children) in
    rw e (
      read-Stuck id (rebuild_internal_keys left) _ u (rebuild_internal_keys-Reads left) b
        (λ node' a _ ba.
          read-Stuck id (rebuild_internal_keys right) _ a (rebuild_internal_keys-Reads right) ba
            (λ right' c at_right bc.
              let same : right'.page_id ≡ id =
                rebuild_internal_keys-page_id right right' a at_right in
              read-Stuck id (throw_when (is_empty right'.children) empty_right_child) _ c
                (throw_when-Reads (is_empty right'.children) empty_right_child) bc
                (λ _ d _ bd. threw corrupt_index_page (subtree_min_entry right'.page_id d) _ (
                  subst (λ i. (subtree_min_entry i d).0 ≡ throw corrupt_index_page) (sym same)
                    (subtree_min_entry-blank id d bd)))))
        tt)
