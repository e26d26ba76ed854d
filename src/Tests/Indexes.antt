-- ===== src/Tests/Indexes.antt =====
-- Searches in a leaf and the superblock at concrete states: storage/disk_bsp_index.cpp.
use cw_db.Prelude.{ℕ, zero, suc, ◌<◌, ◌≤◌, ◌≡◌, refl, Bool, true, List, [], ◌∷◌, Ordering, arith}
use cw_db.Prelude.Int.{pos}
use cw_db.Prelude.Bytes.{Bytes, of_le}
use cw_db.Prelude.Error.{ok, throw, undefined}
use cw_db.Core.Value.{Value, int, compare_value}
use cw_db.Storage.ValueIo.{cmp_key_bytes, decode_value, decode_int}
use cw_db.Storage.Page.{NodeType, LeafEntry, ParsedPage}
use cw_db.Storage.Pager.{Pager, read_page}
use cw_db.Storage.Pager.Refinement.{Wrote}
use cw_db.Storage.Index.{
  Root, cmp_at, is_below, is_not_above, lower_bound_slot, child_from, superblock_image,
  parse_superblock, write_superblock,
}
use cw_db.Storage.Index.Search.{Splits, Parts, lower_bound_slot-Parts}
use cw_db.Storage.Index.Leaf.{child_from-Parts}
use cw_db.Storage.Index.Superblock.{IsStorable, read_page-write_superblock}
use cw_db.Tests.Pagers.{pager, pager-IsValid}

-- A leaf with the keys 5 and 9, and the key 7.
abbrev entry : ℕ → LeafEntry
entry n = record { key = 1 ∷ n ∷ 0 ∷ 0 ∷ 0 ∷ 0 ∷ 0 ∷ 0 ∷ 0 ∷ []; key_len = 9; rid = n }

abbrev two : List LeafEntry
two = entry 5 ∷ entry 9 ∷ []

abbrev seven : Value
seven = int (pos 7)

abbrev leaf : ParsedPage
leaf = record {
  page_id = 1;
  type = NodeType.leaf;
  key_count = 2;
  next_leaf = 0;
  leaf_entries = two;
  inner_keys = [];
  children = [];
}

at_first : cmp_at two 0 seven ≡ ok Ordering.lt
unfolding cmp_at cmp_key_bytes decode_value decode_int of_le compare_value
at_first = refl

at_second : cmp_at two 1 seven ≡ ok Ordering.gt
unfolding cmp_at cmp_key_bytes decode_value decode_int of_le compare_value
at_second = refl

at_none : (i : ℕ) → cmp_at two (suc (suc i)) seven ≡ throw undefined
unfolding cmp_at
at_none i = refl

module _ (goes_right : Ordering → Bool) (on : goes_right Ordering.lt ≡ true) where
  compares : (i : ℕ) → i < 2 → (c : Ordering) × (cmp_at two i seven ≡ ok c)
  compares zero h = (Ordering.lt, at_first)
  compares (suc zero) h = (Ordering.gt, at_second)
  compares (suc (suc i)) h = absurd (omega arith)

  ascending :
      (i j : ℕ) (c d : Ordering)
      → i ≤ j
      → cmp_at two i seven ≡ ok c
      → cmp_at two j seven ≡ ok d
      → goes_right d ≡ true
      → goes_right c ≡ true
  ascending zero j c d le at_i at_j h = ground (arith, at_first, on)
  ascending (suc zero) zero c d le at_i at_j h = absurd (omega arith)
  ascending (suc zero) (suc zero) c d le at_i at_j h = ground arith
  ascending (suc zero) (suc (suc j)) c d le at_i at_j h = absurd (ground (arith, at_none j))
  ascending (suc (suc i)) j c d le at_i at_j h = absurd (ground (arith, at_none i))

  two-Splits : Splits goes_right two seven 2
  two-Splits = record { cmp = compares; ascends = ascending }

lower_bound_slot-Parts_example :
    (slot : ℕ) × (lower_bound_slot leaf seven ≡ ok slot) × Parts is_below two seven 2 slot
lower_bound_slot-Parts_example =
    lower_bound_slot-Parts leaf seven (omega arith) (two-Splits is_below refl)

child_from-Parts_example :
    (child : ℕ) × (child_from seven 0 0 two ≡ ok child) × Parts is_not_above two seven 2 child
child_from-Parts_example = child_from-Parts seven two (two-Splits is_not_above refl)

abbrev root : Root
root = record { root_page = 3; first_leaf_page = 1; size = 40 }

root-IsStorable : IsStorable root
root-IsStorable = record {
  root_page = omega arith;
  first_leaf_page = omega arith;
  size = omega arith;
}

read_page-write_superblock_example :
    (q r : Pager) × (raw : Bytes) × (write_superblock root pager ≡ (ok tt, q))
    × Wrote 0 (superblock_image root) pager q
    × (read_page 0 q ≡ (ok raw, r))
    × (parse_superblock raw ≡ ok root)
read_page-write_superblock_example =
    read_page-write_superblock root pager root-IsStorable pager-IsValid (unfold pager in refl)
      (unfold pager in omega arith)
