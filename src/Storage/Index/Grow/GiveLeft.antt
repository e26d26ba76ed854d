-- ===== src/Storage/Index/Grow/GiveLeft.antt =====
-- `try_give_to_left_leaf` of src/storage/disk_bsp_index.cpp, which `split_leaf` calls with a leaf that overflows.
use cw_db.Prelude.{
  ℕ, ◌+◌, ◌-◌, ◌≤◌, ◌≡◌, ◌≢◌, Bool, true, ◌||◌, List, [], ◌∷◌, Option, none, some, inl, inr, ◌==◌,
  get_elem?, arith, Bool-cases,
}
use cw_db.Prelude.Error.{Result, ok, throw}
use cw_db.Storage.Page.{LeafEntry, ParsedPage, leaf_payload_from, leaf_payload_bytes, leaf_overflow}
use cw_db.Storage.Index.Vectors.{is_empty, split_last}
use cw_db.Storage.Index.Tree.{Tree, T, then_do, is_leaf, get_page}
use cw_db.Storage.Index.Grow.{give_left, give_left_to, try_give_to_left_leaf}

leaf_payload_from_mono :
    (es : List LeafEntry) (m n : ℕ) → m ≤ n → leaf_payload_from m es ≤ leaf_payload_from n es
unfolding leaf_payload_from
leaf_payload_from_mono [] m n h = h
leaf_payload_from_mono (e ∷ es) m n h =
    leaf_payload_from_mono es (m + (2 + e.key_len + 8)) (n + (2 + e.key_len + 8)) (omega arith)

-- A leaf that overflows does so with one more entry.
leaf_overflow_more :
    (e : LeafEntry) (es : List LeafEntry) → leaf_overflow es ≡ true → leaf_overflow (e ∷ es) ≡ true
unfolding leaf_overflow leaf_payload_bytes leaf_payload_from
leaf_overflow_more e es h =
    ground (arith, leaf_payload_from_mono es 12 (12 + (2 + e.key_len + 8)) (omega arith))

abbrev NotGiven : Result Bool × Tree → Type 0
NotGiven r = r.0 ≢ ok true

then_do-NotGiven :
    {A : Type 0} (r : Result A × Tree) (f : A → T Bool)
    → ((a : A) (u : Tree) → NotGiven (f a u))
    → NotGiven (then_do r f)
then_do-NotGiven (ok a, u) f h = h a u
then_do-NotGiven (throw e, u) f h = λ eq. ground arith

give_left-NotGiven :
    (leaf left parent : ParsedPage) (t : Tree)
    → leaf_overflow leaf.leaf_entries ≡ true
    → NotGiven (give_left leaf left parent t)
give_left-NotGiven leaf left parent t over = elim (Bool-cases (is_leaf left.type)) [
  | inr off ↦ rw off (λ eq. ground arith)
  | inl on ↦ rw on (
      then_do-NotGiven (split_last left.leaf_entries, t) _
        λ r u.
          let more : leaf_overflow (r.1 ∷ leaf.leaf_entries) ≡ true =
            leaf_overflow_more r.1 leaf.leaf_entries over in
          elim (Bool-cases (is_empty r.0)) [
            | inl bare ↦ rw bare (λ eq. ground arith)
            | inr full ↦ rw (full, more) (λ eq. ground arith)
          ])
]

give_left_to-NotGiven :
    (leaf parent : ParsedPage) (o : Option ℕ) (t : Tree)
    → leaf_overflow leaf.leaf_entries ≡ true
    → NotGiven (give_left_to leaf parent o t)
give_left_to-NotGiven leaf parent none t over = λ eq. ground arith
give_left_to-NotGiven leaf parent (some id) t over =
    then_do-NotGiven (get_page id t) _ (λ left u. give_left-NotGiven leaf left parent u over)

-- For a leaf that overflows, giving to the left leaf never succeeds, whatever the pages are: the entry
-- that is moved comes from the left leaf into the one that overflows.
pub try_give_to_left_leaf-never :
    (leaf parent : ParsedPage) (child_index : ℕ) (t : Tree)
    → leaf_overflow leaf.leaf_entries ≡ true
    → (try_give_to_left_leaf leaf parent child_index t).0 ≢ ok true
unfolding try_give_to_left_leaf
try_give_to_left_leaf-never leaf parent child_index t over =
    elim (Bool-cases (child_index == 0 || is_empty leaf.leaf_entries)) [
      | inl out ↦ rw out (λ eq. ground arith)
      | inr go ↦
          rw go
            (give_left_to-NotGiven leaf parent (get_elem? parent.children (child_index - 1)) t over)
    ]
