-- ===== src/Storage/Index/Vectors/Parts.antt =====
-- The parts into which a pair of pages is cut: `three_way_counts` of src/storage/disk_bsp_index.cpp.
use cw_db.Prelude.{
  ℕ, zero, suc, ◌+◌, ◌-◌, ◌/◌, ◌≤◌, ◌≡◌, refl, List, [], ◌∷◌, ◌++◌, length, take, drop, length-take,
  length-drop, arith, ap, ◌∙◌,
}
use cw_db.Storage.Page.{three_way_counts}
use cw_db.Storage.Index.Vectors.{thirds}

module _ {A : Type 0} where
  pub take-drop : (n : ℕ) (xs : List A) → take n xs ++ drop n xs ≡ xs
  take-drop zero xs = refl
  take-drop (suc n) [] = refl
  take-drop (suc n) (x ∷ xs) = ap (◌∷◌ x) (take-drop n xs)

  -- The three parts of a list, one after the other, are the list; the first is not shorter than the
  -- second, the second not than the third, and the first is longer than the third by one at most.
  pub thirds-append :
      (xs : List A)
      → ((thirds xs).0 ++ ((thirds xs).1 ++ (thirds xs).2) ≡ xs)
        × (length (thirds xs).1 ≤ length (thirds xs).0)
        × (length (thirds xs).2 ≤ length (thirds xs).1)
        × (length (thirds xs).0 ≤ length (thirds xs).2 + 1)
  unfolding thirds three_way_counts
  thirds-append xs =
      let n = length xs in
      let first = (n + 2) / 3 in
      let second = (n - first + 1) / 2 in
      let rest = drop first xs in
      let a = length-take first xs in
      let b = length-take second rest in
      let c = length-drop second rest in
      let d = length-drop first xs in
      (
        ap (λ r. take first xs ++ r) (take-drop second rest) ∙ take-drop first xs,
        omega (arith, a, b, c, d),
        omega (arith, a, b, c, d),
        omega (arith, a, b, c, d),
      )
