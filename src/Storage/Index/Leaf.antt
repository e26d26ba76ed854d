-- ===== src/Storage/Index/Leaf.antt =====
-- What a search finds in a leaf, and the child that it goes down to: src/storage/disk_bsp_index.cpp.
use cw_db.Prelude.{
  ℕ, zero, suc, ◌+◌, ◌^◌, ◌≤◌, ◌<◌, ◌≡◌, ◌≢◌, refl, Bool, true, false, List, [], ◌∷◌, none, some,
  Ordering, inl, inr, ◌⊎◌, ltb, length, arith, ap, ◌∙◌, Bool-cases,
}
use cw_db.Prelude.Error.{ok}
use cw_db.Core.Value.{Value}
use cw_db.Storage.Page.{LeafEntry, ParsedPage}
use cw_db.Storage.Index.{cmp_at, is_below, is_not_above, leaf_find, child_from, lower_bound_slot}
use cw_db.Storage.Index.Search.{Splits, Parts, lower_bound_slot-Parts}

-- `leaf_find` gives a place, and the key there is equal.
abbrev pub FindsEqual : ParsedPage → Value → Type 0
FindsEqual p key =
    (slot : ℕ) × (leaf_find p key ≡ ok (some (p.page_id, slot)))
    × (slot < length p.leaf_entries)
    × (cmp_at p.leaf_entries slot key ≡ ok Ordering.eq)

-- `leaf_find` gives no place, and no key is equal.
abbrev pub FindsNone : ParsedPage → Value → Type 0
FindsNone p key =
    (leaf_find p key ≡ ok none)
    × ((i : ℕ) → i < length p.leaf_entries → cmp_at p.leaf_entries i key ≢ ok Ordering.eq)

module _ (p : ParsedPage) (key : Value)
    (t : Splits is_not_above p.leaf_entries key (length p.leaf_entries)) (slot : ℕ)
    (e : lower_bound_slot p key ≡ ok slot)
    (parts : Parts is_below p.leaf_entries key (length p.leaf_entries) slot) where
  found_at :
      (c : Ordering)
      → ltb slot (length p.leaf_entries) ≡ true
      → cmp_at p.leaf_entries slot key ≡ ok c
      → FindsEqual p key ⊎ FindsNone p key
  unfolding leaf_find
  found_at Ordering.eq on found = inl (slot, rw (e, on, found) refl, ground arith, found)
  found_at Ordering.lt on found =
      absurd (ground (arith, parts.behind slot Ordering.lt (omega arith) (ground arith) found))
  found_at Ordering.gt on found = inr (
    rw (e, on, found) refl,
    λ i h at_i. elim (Bool-cases (ltb i slot)) [
      | inl left ↦ absurd (ground (arith, parts.before i Ordering.eq (ground arith) at_i))
      | inr right ↦
          absurd (
            ground (arith, t.ascends slot i Ordering.gt Ordering.eq (ground arith) found at_i refl))
    ],
  )

-- In a leaf of less than 2^16 entries whose keys ascend past the key, `leaf_find` ends; it finds a
-- place at which the key of the entry is equal, or it finds none and no entry has an equal key.
pub leaf_find-exact :
    (p : ParsedPage) (key : Value)
    → length p.leaf_entries < 2 ^ 16
    → Splits is_below p.leaf_entries key (length p.leaf_entries)
    → Splits is_not_above p.leaf_entries key (length p.leaf_entries)
    → FindsEqual p key ⊎ FindsNone p key
unfolding leaf_find
leaf_find-exact p key small s t =
    let n = length p.leaf_entries in
    let (slot, e, parts) = lower_bound_slot-Parts p key small s in
    elim (Bool-cases (ltb slot n)) [
      | inr off ↦ inr (
        rw (e, off) refl,
        λ i h at_i. absurd (ground (arith, parts.before i Ordering.eq (ground arith) at_i)),
      )
      | inl on ↦
          let (c, found) = s.cmp slot (ground arith) in found_at p key t slot e parts c on found
    ]

-- The tail of separators that ascend past the key.
Splits-tail :
    (goes_right : Ordering → Bool) (k : LeafEntry) (ks : List LeafEntry) (key : Value)
    → Splits goes_right (k ∷ ks) key (length (k ∷ ks))
    → Splits goes_right ks key (length ks)
unfolding cmp_at
Splits-tail goes_right k ks key s = record {
  cmp = λ i h. s.cmp (suc i) (omega arith);
  ascends = λ i j c d le at_i at_j. s.ascends (suc i) (suc j) c d (omega arith) at_i at_j;
}

-- Separators that are all above the key leave the child as it is.
child_from-above :
    (key : Value) (i child : ℕ) (ks : List LeafEntry)
    → ((j : ℕ)
        → j < length ks
        → (c : Ordering) × (cmp_at ks j key ≡ ok c) × (is_not_above c ≡ false))
    → child_from key i child ks ≡ ok child
unfolding child_from cmp_at
child_from-above key i child [] h = refl
child_from-above key i child (k ∷ ks) h =
    let (c, found, above) = h 0 (omega arith) in
    rw (found, above) (child_from-above key (suc i) child ks (λ j below. h (suc j) (omega arith)))

-- Where the first separator is above the key, all are.
all_above :
    (k : LeafEntry) (ks : List LeafEntry) (key : Value) (c : Ordering)
    → Splits is_not_above (k ∷ ks) key (length (k ∷ ks))
    → cmp_at (k ∷ ks) 0 key ≡ ok c
    → is_not_above c ≡ false
    → (j : ℕ) (d : Ordering) → cmp_at (k ∷ ks) j key ≡ ok d
    → is_not_above d ≡ false
all_above k ks key c s found off j d at_j = elim (Bool-cases (is_not_above d)) [
  | inr above ↦ above
  | inl on ↦ absurd (ground (arith, s.ascends 0 j c d (omega arith) found at_j on))
]

module _ (k : LeafEntry) (ks : List LeafEntry) (key : Value) (slot : ℕ) (c : Ordering)
    (found : cmp_at (k ∷ ks) 0 key ≡ ok c) (on : is_not_above c ≡ true)
    (parts : Parts is_not_above ks key (length ks) slot) where
  before-suc :
      (j : ℕ) (d : Ordering) → j < suc slot → cmp_at (k ∷ ks) j key ≡ ok d → is_not_above d ≡ true
  unfolding cmp_at
  before-suc zero d h at_j = ground (arith, found, at_j, on)
  before-suc (suc j) d h at_j = parts.before j d (omega arith) at_j

  behind-suc :
      (j : ℕ) (d : Ordering)
      → suc slot ≤ j
      → j < length (k ∷ ks)
      → cmp_at (k ∷ ks) j key ≡ ok d
      → is_not_above d ≡ false
  unfolding cmp_at
  behind-suc zero d h below at_j = absurd (omega arith)
  behind-suc (suc j) d h below at_j = parts.behind j d (omega arith) (omega arith) at_j

  Parts-suc : Parts is_not_above (k ∷ ks) key (length (k ∷ ks)) (suc slot)
  Parts-suc = record {
    inside = omega (arith, parts.inside);
    before = before-suc;
    behind = behind-suc;
  }

child_from-slot :
    (key : Value) (i : ℕ) (ks : List LeafEntry)
    → Splits is_not_above ks key (length ks)
    → (slot : ℕ) × (child_from key i i ks ≡ ok (i + slot))
      × Parts is_not_above ks key (length ks) slot
unfolding child_from cmp_at
child_from-slot key i [] s = (
  0,
  ap ok (omega arith),
  record {
    inside = omega arith;
    before = λ j c h e. absurd (omega arith);
    behind = λ j c h k e. absurd (omega arith);
  },
)
child_from-slot key i (k ∷ ks) s =
    let (c, found) = s.cmp 0 (omega arith) in
    elim (Bool-cases (is_not_above c)) [
      | inl on ↦
          let (slot, e, parts) =
            child_from-slot key (suc i) ks (Splits-tail is_not_above k ks key s) in
          let next : i + 1 ≡ suc i = omega arith in
          (
            suc slot,
            rw (found, on, next) (e ∙ ap ok (omega arith)),
            Parts-suc k ks key slot c found on parts,
          )
      | inr off ↦
          let above = all_above k ks key c s found off in
          (
            0,
            rw (found, off)
                (child_from-above key (suc i) i ks (λ j h.
                    let (d, at_j) = s.cmp (suc j) (omega arith) in (d, at_j, above (suc j) d at_j))
                  ∙ ap ok (omega arith)),
            record {
              inside = omega arith;
              before = λ j d h at_j. absurd (omega arith);
              behind = λ j d h below at_j. above j d at_j;
            },
          )
    ]

-- Where the separators of an inner page ascend past the key, the loop over them does not throw and
-- gives the number of separators that are not above the key, which is the place of the child to go
-- to.
pub child_from-Parts :
    (key : Value) (ks : List LeafEntry)
    → Splits is_not_above ks key (length ks)
    → (child : ℕ) × (child_from key 0 0 ks ≡ ok child) × Parts is_not_above ks key (length ks) child
child_from-Parts key ks s =
    let (slot, e, parts) = child_from-slot key 0 ks s in (slot, e ∙ ap ok (omega arith), parts)
