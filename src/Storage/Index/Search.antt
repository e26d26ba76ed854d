-- ===== src/Storage/Index/Search.antt =====
-- The slots that the binary searches of src/storage/disk_bsp_index.cpp find.
use cw_db.Prelude.{
  ℕ, zero, suc, ◌+◌, ◌/◌, ◌%◌, ◌^◌, ◌≤◌, ◌<◌, ◌≡◌, refl, Bool, true, false, List, Ordering, inl,
  inr, ltb, length, arith, Bool-cases,
}
use cw_db.Prelude.Error.{ok}
use cw_db.Core.Value.{Value}
use cw_db.Storage.Page.{LeafEntry, ParsedPage}
use cw_db.Storage.Index.{
  cmp_at, bound_loop, is_below, is_not_above, lower_bound_slot, upper_bound_slot,
}

-- The first `n` entries compare with the key, and no entry for which the test holds stands behind
-- one for which it does not: so it is where the keys of the entries ascend.
pub record Splits (goes_right : Ordering → Bool) (entries : List LeafEntry) (key : Value) (n : ℕ)
    : Type 0 where
  pub cmp : (i : ℕ) → i < n → (c : Ordering) × (cmp_at entries i key ≡ ok c)
  pub ascends :
      (i j : ℕ) (c d : Ordering)
      → i ≤ j
      → cmp_at entries i key ≡ ok c
      → cmp_at entries j key ≡ ok d
      → goes_right d ≡ true
      → goes_right c ≡ true

-- The slot parts the entries: the test holds for those before it and not from it on.
pub record Parts (goes_right : Ordering → Bool) (entries : List LeafEntry) (key : Value)
    (n slot : ℕ) : Type 0 where
  pub inside : slot ≤ n
  pub before : (i : ℕ) (c : Ordering) → i < slot → cmp_at entries i key ≡ ok c → goes_right c ≡ true
  pub behind :
      (i : ℕ) (c : Ordering) → slot ≤ i → i < n → cmp_at entries i key ≡ ok c → goes_right c ≡ false

module _ (goes_right : Ordering → Bool) (entries : List LeafEntry) (key : Value) (n : ℕ)
    (s : Splits goes_right entries key n) where
  bound_loop-Parts :
      (rounds lo hi : ℕ)
      → hi ≤ lo + rounds
      → lo ≤ hi
      → hi ≤ n
      → ((i : ℕ) (c : Ordering) → i < lo → cmp_at entries i key ≡ ok c → goes_right c ≡ true)
      → ((i : ℕ) (c : Ordering)
          → hi ≤ i
          → i < n
          → cmp_at entries i key ≡ ok c
          → goes_right c ≡ false)
      → (slot : ℕ) × (bound_loop goes_right entries key rounds lo hi ≡ ok slot)
        × Parts goes_right entries key n slot
  unfolding bound_loop
  bound_loop-Parts zero lo hi enough le top below above = (
    lo,
    ground arith,
    record { inside = omega arith; before = below; behind = λ i c h k. above i c (omega arith) k },
  )
  bound_loop-Parts (suc rounds) lo hi enough le top below above = elim (Bool-cases (ltb lo hi)) [
    | inr done ↦ (
      lo,
      rw done refl,
      record {
        inside = omega arith;
        before = below;
        behind = λ i c h k. above i c (ground arith) k;
      },
    )
    | inl more ↦
        let mid = (lo + hi) / 2 in
        let inside : (lo ≤ mid) × (mid < hi) = (ground arith, ground arith) in
        let (c, found) = s.cmp mid (omega arith) in
        elim (Bool-cases (goes_right c)) [
          | inl right ↦
              let (slot, e, parts) =
                bound_loop-Parts rounds (mid + 1) hi (omega arith) (omega arith) top
                  (λ i d h at_i. s.ascends i mid d c (omega arith) at_i found right) above in
              (slot, rw (more, found, right) e, parts)
          | inr left ↦
              let (slot, e, parts) =
                bound_loop-Parts rounds lo mid (omega arith) (omega arith) (omega arith) below
                  (λ i d h k at_i. elim (Bool-cases (goes_right d)) [
                    | inr off ↦ off
                    | inl on ↦ absurd (ground (arith, s.ascends mid i c d h found at_i on))
                  ]) in
              (slot, rw (more, found, left) e, parts)
        ]
  ]

  bound-Parts :
      (slot : ℕ) × (bound_loop goes_right entries key n 0 n ≡ ok slot)
      × Parts goes_right entries key n slot
  bound-Parts =
      bound_loop-Parts n 0 n (omega arith) (omega arith) (omega arith)
        (λ i c h e. absurd (omega arith)) (λ i c h k e. absurd (omega arith))

-- In a leaf of less than 2^16 entries whose keys ascend past the key, the binary search ends and
-- returns the number of entries whose keys are less than the key.
pub lower_bound_slot-Parts :
    (p : ParsedPage) (key : Value)
    → length p.leaf_entries < 2 ^ 16
    → Splits is_below p.leaf_entries key (length p.leaf_entries)
    → (slot : ℕ) × (lower_bound_slot p key ≡ ok slot)
      × Parts is_below p.leaf_entries key (length p.leaf_entries) slot
unfolding lower_bound_slot
lower_bound_slot-Parts p key small s =
    let same : length p.leaf_entries % 2 ^ 16 ≡ length p.leaf_entries = omega arith in
    rw same (bound-Parts is_below p.leaf_entries key (length p.leaf_entries) s)

-- In a leaf of less than 2^16 entries whose keys ascend past the key, the binary search for the
-- upper bound ends and returns the number of entries whose keys are not greater than the key.
pub upper_bound_slot-Parts :
    (p : ParsedPage) (key : Value)
    → length p.leaf_entries < 2 ^ 16
    → Splits is_not_above p.leaf_entries key (length p.leaf_entries)
    → (slot : ℕ) × (upper_bound_slot p key ≡ ok slot)
      × Parts is_not_above p.leaf_entries key (length p.leaf_entries) slot
unfolding upper_bound_slot
upper_bound_slot-Parts p key small s =
    let same : length p.leaf_entries % 2 ^ 16 ≡ length p.leaf_entries = omega arith in
    rw same (bound-Parts is_not_above p.leaf_entries key (length p.leaf_entries) s)
