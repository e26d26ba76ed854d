-- ===== src/Storage/Index/Vectors.antt =====
-- What src/storage/disk_bsp_index.cpp does with its vectors: `insert`, `erase`, `back` with `pop_back`,
-- `std::find`, `std::sort`, and the three parts of `three_way_counts`. What C++ leaves undefined throws.
pub mod Parts
use cw_db.Prelude.{
  ℕ, zero, suc, ◌+◌, Bool, true, false, List, [], ◌∷◌, Option, none, some, ◌==◌, if◌then◌else◌,
  length, take, drop, Ordering,
}
use cw_db.Prelude.Error.{Error, Result, ok, throw, ◌>>=◌, undefined}
use cw_db.Storage.Page.{LeafEntry, three_way_counts}
use cw_db.Storage.ValueIo.{compare_encoded_keys}
use cw_db.Storage.Index.{is_below}

module _ {A : Type 0} where
  unfoldable pub insert_at : ℕ → A → List A → Result (List A)
  insert_at zero x xs = ok (x ∷ xs)
  insert_at (suc i) x [] = throw undefined
  insert_at (suc i) x (y ∷ ys) = insert_at i x ys >>= λ zs. ok (y ∷ zs)

  unfoldable pub erase_at : ℕ → List A → Result (List A)
  erase_at i [] = throw undefined
  erase_at zero (x ∷ xs) = ok xs
  erase_at (suc i) (x ∷ xs) = erase_at i xs >>= λ zs. ok (x ∷ zs)

  unfoldable pub put_at : ℕ → A → List A → Result (List A)
  put_at i x [] = throw undefined
  put_at zero x (y ∷ ys) = ok (x ∷ ys)
  put_at (suc i) x (y ∷ ys) = put_at i x ys >>= λ zs. ok (y ∷ zs)

  -- All but the last element, and the last.
  unfoldable pub split_last : List A → Result (List A × A)
  split_last [] = throw undefined
  split_last (x ∷ []) = ok ([], x)
  split_last (x ∷ y ∷ ys) = split_last (y ∷ ys) >>= λ r. ok (x ∷ r.0, r.1)

  -- The first element, and all but the first.
  abbrev pub split_first : List A → Result (A × List A)
  split_first [] = throw undefined
  split_first (x ∷ xs) = ok (x, xs)

  abbrev pub is_empty : List A → Bool
  is_empty [] = true
  is_empty (x ∷ xs) = false

  -- The parts of those sizes, in order.
  unfoldable pub thirds : List A → List A × List A × List A
  unfolding three_way_counts
  thirds xs =
      let (first, second, third) = three_way_counts (length xs) in
      (take first xs, take second (drop first xs), drop second (drop first xs))

-- The place of a child.
unfoldable pub place_of : ℕ → List ℕ → Option ℕ
place_of id [] = none
place_of id (x ∷ xs) =
    if x == id then some 0 else elim (place_of id xs) [ none ↦ none | some i ↦ some (suc i) ]

abbrev pub compare_entries : LeafEntry → LeafEntry → Result Ordering
compare_entries a b = compare_encoded_keys (take a.key_len a.key) (take b.key_len b.key)

-- `std::sort` by the comparison of the keys.
unfoldable pub sort_in : LeafEntry → List LeafEntry → Result (List LeafEntry)
sort_in e [] = ok (e ∷ [])
sort_in e (x ∷ xs) =
    let behind = sort_in e xs in
    compare_entries x e >>= λ c.
    if is_below c then (behind >>= λ ys. ok (x ∷ ys)) else ok (e ∷ x ∷ xs)

unfoldable pub sort_entries : List LeafEntry → Result (List LeafEntry)
unfolding sort_in
sort_entries [] = ok []
sort_entries (e ∷ es) = sort_entries es >>= sort_in e
