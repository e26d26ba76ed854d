-- ===== src/Storage/Index/Change/LeafInsert.antt =====
-- Where `insert` of src/storage/disk_bsp_index.cpp puts a new key in a leaf.
use cw_db.Prelude.{
  ℕ, zero, suc, ◌^◌, ◌≤◌, ◌<◌, ◌≡◌, refl, Bool, true, false, List, [], ◌∷◌, none, some, inl, inr,
  Ordering, ltb, length, get_elem?, arith, ap, sym, subst, ◌∙◌, Bool-cases,
}
use cw_db.Prelude.Error
use cw_db.Prelude.Error.{Result, ok, throw}
use cw_db.Core.Value.{Value, DataType, compare_value, eq_value}
use cw_db.Core.Value.Order.{compare_value-flip, compare_value-eq, eq_value_iff}
use cw_db.Storage.Page.{LeafEntry, ParsedPage}
use cw_db.Storage.Index.{make_entry, cmp_at, is_below, lower_bound_slot}
use cw_db.Storage.Index.Search.{Splits, Parts, lower_bound_slot-Parts}
use cw_db.Storage.Index.Vectors.{insert_at}
use cw_db.Storage.Index.Change.{equals_at, is_eq}
use cw_db.Storage.Index.Change.Entries.{
  Encodes, Holds, make_entry-Encodes, cmp_at-Holds, cmp_at_inside, cmp_key_bytes-Encodes,
  compare_entries-Encodes, Ascends-get_elem?, Keys-get_elem?,
}
use cw_db.Storage.ValueIo.RoundTrip.{IsStorable}
use cw_db.Storage.Table.Laws.{IsKey, IsLeast, Ascends}
use cw_db.Storage.Table.Sorted.{
  Entries, Keys, keys-valid, lt_trans, lookup_entry, with_entry, is_lt, with_entry-Ascends,
}

below-lt : (c : Ordering × Bool) → c.1 ≡ true → is_below c.0 ≡ true → c ≡ (Ordering.lt, true)
below-lt c valid h = ground (arith, valid, h)

module _ (ty : DataType) (kvs : Entries) (es : List LeafEntry) (k : Value) (holds : Holds kvs es)
    (up : Ascends kvs) (keys : Keys ty kvs) (key : IsKey ty k) where
  below_mono :
      (i j : ℕ) (c d : Ordering)
      → i ≤ j
      → cmp_at es i k ≡ ok c
      → cmp_at es j k ≡ ok d
      → is_below d ≡ true
      → is_below c ≡ true
  below_mono i j c d le at_i at_j on =
      let (kv, is_kv, e) = cmp_at-Holds kvs es i k holds (cmp_at_inside es i k c at_i) in
      let (kw, is_kw, f) = cmp_at-Holds kvs es j k holds (cmp_at_inside es j k d at_j) in
      let same_d : (compare_value kw.0 k).0 ≡ d = ground (arith, at_j, f) in
      let later : compare_value kw.0 k ≡ (Ordering.lt, true) =
        below-lt (compare_value kw.0 k)
          (keys-valid ty kw.0 k (Keys-get_elem? ty kvs j kw keys is_kw) key)
          (ap is_below same_d ∙ on) in
      elim (Bool-cases (ltb i j)) [
        | inl less ↦
            let first =
              lt_trans kv.0 kw.0 k (Ascends-get_elem? kvs i j kv kw up (ground arith) is_kv is_kw)
                later in
            ground (arith, at_i, e, first)
        | inr more ↦
            let same : i ≡ j = ground (arith, le) in
            let same_at : cmp_at es i k ≡ ok d = ap (λ n. cmp_at es n k) same ∙ at_j in
            ground (arith, at_i, same_at, on)
      ]

  -- The entries below a key come before the others.
  pub Splits-below : Splits is_below es k (length es)
  Splits-below = record {
    cmp = λ i below.
        let (kv, at_i, e) = cmp_at-Holds kvs es i k holds below in ((compare_value kv.0 k).0, e);
    ascends = below_mono;
  }

pub compare_value_self :
    (ty : DataType) (v : Value) → IsKey ty v → compare_value v v ≡ (Ordering.eq, true)
compare_value_self ty v key = ground (arith, keys-valid ty v v key key, compare_value-flip v v)

-- A key that is in a list is greater than what is less than all of it.
least-lookup_entry :
    (w k : Value) (kvs : Entries) (j : ℕ)
    → IsLeast w kvs
    → lookup_entry kvs k ≡ some j
    → compare_value w k ≡ (Ordering.lt, true)
unfolding lookup_entry
least-lookup_entry w k [] j least found = absurd (ground (arith, found))
least-lookup_entry w k ((v, i) ∷ kvs) j least found =
    ground (arith, found, least.0, eq_value_iff v k, least-lookup_entry w k kvs j least.1)

Parts-tail :
    (e : LeafEntry) (es : List LeafEntry) (k : Value) (slot : ℕ)
    → Parts is_below (e ∷ es) k (length (e ∷ es)) (suc slot)
    → Parts is_below es k (length es) slot
unfolding cmp_at
Parts-tail e es k slot p = record {
  inside = omega (arith, p.inside);
  before = λ i c h at_i. p.before (suc i) c (omega arith) at_i;
  behind = λ i c h below at_i. p.behind (suc i) c (omega arith) (omega arith) at_i;
}

cmp_at-head :
    (e : LeafEntry) (es : List LeafEntry) (w k : Value) (id : ℕ)
    → Encodes w id e
    → cmp_at (e ∷ es) 0 k ≡ ok (compare_value w k).0
unfolding cmp_at
cmp_at-head e es w k id enc = cmp_key_bytes-Encodes w k id e enc

module _ (ty : DataType) (k : Value) (id : ℕ) (e : LeafEntry) (key : IsKey ty k)
    (enc : Encodes k id e) where
  -- A new key goes in front of the first that is greater.
  insert_at-Holds :
      (kvs : Entries) (es : List LeafEntry) (slot : ℕ)
      → Holds kvs es
      → Keys ty kvs
      → lookup_entry kvs k ≡ none
      → Parts is_below es k (length es) slot
      → (es' : List LeafEntry) × (insert_at slot e es ≡ ok es') × Holds (with_entry k id kvs) es'
  unfolding insert_at with_entry lookup_entry
  insert_at-Holds [] [] zero h keys free p = (e ∷ [], refl, (enc, tt))
  insert_at-Holds [] [] (suc slot) h keys free p = absurd (omega (arith, p.inside))
  insert_at-Holds [] (x ∷ es) slot h keys free p = absurd h
  insert_at-Holds (kv ∷ kvs) [] slot h keys free p = absurd h
  insert_at-Holds ((w, i) ∷ kvs) (x ∷ es) zero h keys free p =
      let valid = keys-valid ty w k keys.0 key in
      let front =
        p.behind 0 (compare_value w k).0 (omega arith) (omega arith) (cmp_at-head x es w k i h.0) in
      let on : is_lt (compare_value k w) ≡ true = ground (
        arith,
        valid,
        front,
        free,
        compare_value-flip w k,
        compare_value-eq w k,
        eq_value_iff w k,
      ) in
      (e ∷ x ∷ es, refl, rw on (enc, h))
  insert_at-Holds ((w, i) ∷ kvs) (x ∷ es) (suc slot) h keys free p =
      let valid = keys-valid ty w k keys.0 key in
      let front = p.before 0 (compare_value w k).0 (omega arith) (cmp_at-head x es w k i h.0) in
      let off : is_lt (compare_value k w) ≡ false =
        ground (arith, valid, front, compare_value-flip w k) in
      let (es', done, holds) =
        insert_at-Holds kvs es slot h.1 keys.1 (ground (arith, free)) (Parts-tail x es k slot p) in
      (x ∷ es', rw done refl, rw off (h.0, holds))

  compare-equal :
      (w : Value) (i : ℕ) (x : LeafEntry)
      → Encodes w i x
      → equals_at (some x) e ≡ ok (is_eq (compare_value w k).0)
  compare-equal w i x h =
      ap (λ r. Error.◌>>=◌ r (λ c. ok (is_eq c))) (compare_entries-Encodes w k i id x e h enc)

  -- No entry is equal to a new key.
  equals_at-new :
      (kvs : Entries) (es : List LeafEntry) (slot : ℕ)
      → Holds kvs es
      → Keys ty kvs
      → lookup_entry kvs k ≡ none
      → equals_at (get_elem? es slot) e ≡ ok false
  unfolding lookup_entry
  equals_at-new [] [] slot h keys free = refl
  equals_at-new [] (x ∷ es) slot h keys free = absurd h
  equals_at-new (kv ∷ kvs) [] slot h keys free = absurd h
  equals_at-new ((w, i) ∷ kvs) (x ∷ es) zero h keys free =
      let valid = keys-valid ty w k keys.0 key in
      compare-equal w i x h.0 ∙ ground (arith, valid, free, compare_value-eq w k, eq_value_iff w k)
  equals_at-new ((w, i) ∷ kvs) (x ∷ es) (suc slot) h keys free =
      equals_at-new kvs es slot h.1 keys.1 (ground (arith, free))

  head-equal :
      (w : Value) (i : ℕ) (x : LeafEntry) (es : List LeafEntry) (slot : ℕ)
      → Encodes w i x
      → Parts is_below (x ∷ es) k (length (x ∷ es)) slot
      → compare_value w k ≡ (Ordering.eq, true)
      → equals_at (get_elem? (x ∷ es) slot) e ≡ ok true
  head-equal w i x es zero h p same = compare-equal w i x h ∙ ap (λ c. ok (is_eq c.0)) same
  head-equal w i x es (suc slot) h p same = absurd (
      ground
        (arith, p.before 0 (compare_value w k).0 (omega arith) (cmp_at-head x es w k i h), same))

  tail-equal :
      (w : Value) (x : LeafEntry) (es : List LeafEntry) (i slot : ℕ)
      → Encodes w i x
      → compare_value w k ≡ (Ordering.lt, true)
      → Parts is_below (x ∷ es) k (length (x ∷ es)) slot
      → ((s : ℕ) → Parts is_below es k (length es) s → equals_at (get_elem? es s) e ≡ ok true)
      → equals_at (get_elem? (x ∷ es) slot) e ≡ ok true
  tail-equal w x es i zero h less p rest = absurd (
      ground (
        arith,
        p.behind 0 (compare_value w k).0 (omega arith) (omega arith) (cmp_at-head x es w k i h),
        less,
      ))
  tail-equal w x es i (suc slot) h less p rest = rest slot (Parts-tail x es k slot p)

  -- The entry at the place of a key that is there is equal to it.
  equals_at-old :
      (kvs : Entries) (es : List LeafEntry) (slot j : ℕ)
      → Holds kvs es
      → Ascends kvs
      → lookup_entry kvs k ≡ some j
      → Parts is_below es k (length es) slot
      → equals_at (get_elem? es slot) e ≡ ok true
  unfolding lookup_entry
  equals_at-old [] es slot j h up found p = absurd (ground (arith, found))
  equals_at-old (kv ∷ kvs) [] slot j h up found p = absurd h
  equals_at-old ((w, i) ∷ kvs) (x ∷ es) slot j h up found p = elim (Bool-cases (eq_value w k)) [
    | inl same ↦
        let self : compare_value w k ≡ (Ordering.eq, true) =
          ap (compare_value w) (sym ((eq_value_iff w k).0 same))
          ∙ compare_value_self ty w (subst (IsKey ty) (sym ((eq_value_iff w k).0 same)) key) in
        head-equal w i x es slot h.0 p self
    | inr other ↦
        let later : lookup_entry kvs k ≡ some j = ground (arith, found, other) in
        tail-equal w x es i slot h.0 (least-lookup_entry w k kvs j up.0 later) p
          (λ s q. equals_at-old kvs es s j h.1 up.1 later q)
  ]

-- In a leaf of less than 2^16 entries that encode ascending keys of a type, and for a key of the type: the
-- search for the place of the key ends; a key that is there is seen to be equal to the entry at the place;
-- a key that is not there is seen to differ, and putting its entry at the place gives the encodings of the
-- list in which the key stands in its order, ascending again.
pub insert_at-sorted :
    (ty : DataType) (p : ParsedPage) (kvs : Entries) (k : Value) (id : ℕ) (e : LeafEntry)
    → length p.leaf_entries < 2 ^ 16
    → Holds kvs p.leaf_entries
    → Ascends kvs
    → Keys ty kvs
    → IsKey ty k
    → IsStorable k
    → make_entry k id ≡ ok e
    → (slot : ℕ) × (lower_bound_slot p k ≡ ok slot)
      × ((j : ℕ)
          → lookup_entry kvs k ≡ some j
          → equals_at (get_elem? p.leaf_entries slot) e ≡ ok true)
      × (lookup_entry kvs k ≡ none
          → (es : List LeafEntry) × (equals_at (get_elem? p.leaf_entries slot) e ≡ ok false)
            × (insert_at slot e p.leaf_entries ≡ ok es)
            × Holds (with_entry k id kvs) es
            × Ascends (with_entry k id kvs))
insert_at-sorted ty p kvs k id e small holds up keys key storable made =
    let enc = make_entry-Encodes k id e storable made in
    let (slot, found, parts) =
      lower_bound_slot-Parts p k small (Splits-below ty kvs p.leaf_entries k holds up keys key) in
    (
      slot,
      found,
      λ j there. equals_at-old ty k id e key enc kvs p.leaf_entries slot j holds up there parts,
      λ free.
          let (es, done, held) =
            insert_at-Holds ty k id e key enc kvs p.leaf_entries slot holds keys free parts in
          (
            es,
            equals_at-new ty k id e key enc kvs p.leaf_entries slot holds keys free,
            done,
            held,
            with_entry-Ascends ty k id kvs key keys free up,
          ),
    )
