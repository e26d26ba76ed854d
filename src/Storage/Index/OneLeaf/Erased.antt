-- ===== src/Storage/Index/OneLeaf/Erased.antt =====
-- The entries of a leaf without one of them, for `erase` of src/storage/disk_bsp_index.cpp.
use cw_db.Prelude.{
  Ordering, ℕ, zero, suc, ◌+◌, ◌≤◌, ◌<◌, ◌≡◌, refl, true, List, [], ◌∷◌, none, some, inl, inr, ltb,
  length, get_elem?, All, arith, ap, sym, subst, ◌∙◌, Bool-cases,
}
use cw_db.Prelude.Error
use cw_db.Prelude.Error.{Result, ok, throw, Result-cases}
use cw_db.Core.Value.{Value, DataType, compare_value, eq_value}
use cw_db.Core.Value.Order.{compare_value-eq, eq_value_iff}
use cw_db.Storage.ValueIo.{encoding}
use cw_db.Storage.Page.{LeafEntry}
use cw_db.Storage.Index.Vectors.{erase_at}
use cw_db.Storage.Index.Change.{equals_at, is_eq}
use cw_db.Storage.Index.Change.Entries.{
  Encodes, Holds, compare_entries-Encodes, Holds-get_elem?, Ascends-get_elem?, Keys-get_elem?,
}
use cw_db.Storage.Index.Change.LeafInsert.{compare_value_self}
use cw_db.Storage.Index.OneLeaf.{entries_bytes}
use cw_db.Storage.Table.Laws.{IsKey, Ascends}
use cw_db.Storage.Table.Sorted.{
  Entries, Keys, keys-valid, lookup_entry, lookup_entry-least, without,
}

-- A key that is not there is not taken away.
without-free : (k : Value) (kvs : Entries) → lookup_entry kvs k ≡ none → without k kvs ≡ kvs
unfolding without lookup_entry
without-free k [] free = refl
without-free k ((w, i) ∷ kvs) free = elim (Bool-cases (eq_value w k)) [
  | inl on ↦ absurd (ground (arith, free, on))
  | inr off ↦ rw off (ap (◌∷◌ (w, i)) (without-free k kvs (ground (arith, free, off))))
]

-- What erasing at the place of an entry leaves.
pub erase_at-Holds :
    (ty : DataType) (kvs : Entries) (es : List LeafEntry) (i : ℕ) (kv : Value × ℕ)
    → Holds kvs es
    → Ascends kvs
    → Keys ty kvs
    → get_elem? kvs i ≡ some kv
    → (es' : List LeafEntry) × (erase_at i es ≡ ok es') × Holds (without kv.0 kvs) es'
unfolding erase_at without
erase_at-Holds ty [] es i kv h up keys at_i = absurd (ground arith)
erase_at-Holds ty (x ∷ kvs) [] i kv h up keys at_i = absurd h
erase_at-Holds ty ((w, id) ∷ kvs) (e ∷ es) zero kv h up keys at_i =
    let same : (w, id) ≡ kv = ground arith in
    let self : eq_value w w ≡ true = (eq_value_iff w w).1 refl in
    let rest = without-free w kvs (lookup_entry-least w kvs up.0) in
    (
      es,
      refl,
      subst (λ x. Holds (without x.0 ((w, id) ∷ kvs)) es) same
          (rw self (subst (λ r. Holds r es) (sym rest) h.1)),
    )
erase_at-Holds ty ((w, id) ∷ kvs) (e ∷ es) (suc i) kv h up keys at_i =
    let less = Ascends-get_elem? ((w, id) ∷ kvs) 0 (suc i) (w, id) kv up (omega arith) refl at_i in
    let (es', done, holds) = erase_at-Holds ty kvs es i kv h.1 up.1 keys.1 at_i in
    elim (Bool-cases (eq_value w kv.0)) [
      | inr other ↦ (e ∷ es', rw done refl, rw other (h.0, holds))
      | inl same ↦
          let self : compare_value w kv.0 ≡ (Ordering.eq, true) =
            subst (λ x. compare_value w x ≡ (Ordering.eq, true)) ((eq_value_iff w kv.0).0 same)
              (compare_value_self ty w keys.0) in
          absurd (ground (arith, self, less))
    ]

pub erase_at-All :
    {A : Type 0} (P : A → Type 0) (i : ℕ) (xs ys : List A)
    → All P xs
    → erase_at i xs ≡ ok ys
    → All P ys × (length xs ≡ suc (length ys))
unfolding erase_at
erase_at-All P i [] ys all h = absurd (ground arith)
erase_at-All P zero (x ∷ xs) ys all h =
    let e : xs ≡ ys = ground arith in (subst (All P) e all.1, ap (λ zs. suc (length zs)) e)
erase_at-All P (suc i) (x ∷ xs) ys all h = elim (Result-cases (erase_at i xs)) [
  | inr (e, failed) ↦ absurd (ground (arith, h, failed))
  | inl (zs, done) ↦
      let e : x ∷ zs ≡ ys = ground (arith, h, done) in
      let (rest, count) = erase_at-All P i xs zs all.1 done in
      (subst (All P) e (all.0, rest), ap suc (count ∙ ap length e))
]

get_elem?_off : {A : Type 0} (xs : List A) (i : ℕ) → length xs ≤ i → get_elem? xs i ≡ none
get_elem?_off [] i h = refl
get_elem?_off (x ∷ xs) zero h = absurd (omega arith)
get_elem?_off (x ∷ xs) (suc i) h = get_elem?_off xs i (omega arith)

-- The entry that is seen to be equal is that of the key.
pub equals_at-key :
    (ty : DataType) (kvs : Entries) (es : List LeafEntry) (slot : ℕ) (k : Value) (id : ℕ)
    (e : LeafEntry)
    → Holds kvs es
    → Keys ty kvs
    → IsKey ty k
    → Encodes k id e
    → equals_at (get_elem? es slot) e ≡ ok true
    → (kv : Value × ℕ) × (get_elem? kvs slot ≡ some kv) × (kv.0 ≡ k) × (slot < length es)
equals_at-key ty kvs es slot k id e h keys key enc equal =
    elim (Bool-cases (ltb slot (length es))) [
      | inl below ↦
          let (kv, x, at_kv, at_x, enc_x) = Holds-get_elem? kvs es slot h (ground (arith, below)) in
          let compared : equals_at (some x) e ≡ ok (is_eq (compare_value kv.0 k).0) =
            ap (λ r. Error.◌>>=◌ r (λ c. ok (is_eq c)))
              (compare_entries-Encodes kv.0 k kv.1 id x e enc_x enc) in
          let seen : ok (is_eq (compare_value kv.0 k).0) ≡ ok true =
            sym compared ∙ ap (λ o. equals_at o e) (sym at_x) ∙ equal in
          let valid = keys-valid ty kv.0 k (Keys-get_elem? ty kvs slot kv keys at_kv) key in
          (kv, at_kv, compare_value-eq kv.0 k (ground (arith, seen, valid)), ground (arith, below))
      | inr off ↦
          let nothing : get_elem? es slot ≡ none = get_elem?_off es slot (ground (arith, off)) in
          absurd (ground (arith, equal, nothing))
    ]

entries_bytes_mono :
    (off off' : ℕ) (kvs : Entries) → off ≤ off' → entries_bytes off kvs ≤ entries_bytes off' kvs
entries_bytes_mono off off' [] h = h
entries_bytes_mono off off' ((v, id) ∷ kvs) h =
    entries_bytes_mono (off + (2 + length (encoding v) + 8)) (off' + (2 + length (encoding v) + 8))
      kvs (omega arith)

pub entries_bytes-without :
    (off : ℕ) (k : Value) (kvs : Entries)
    → entries_bytes off (without k kvs) ≤ entries_bytes off kvs
unfolding without
entries_bytes-without off k [] = omega arith
entries_bytes-without off k ((v, id) ∷ kvs) =
    let next = off + (2 + length (encoding v) + 8) in
    elim (Bool-cases (eq_value v k)) [
      | inl on ↦ rw on (
          omega
            (arith, entries_bytes-without off k kvs, entries_bytes_mono off next kvs (omega arith)))
      | inr off_key ↦ rw off_key (entries_bytes-without next k kvs)
    ]
