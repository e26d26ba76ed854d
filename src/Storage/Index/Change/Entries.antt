-- ===== src/Storage/Index/Change/Entries.antt =====
-- The entries of a leaf as a sorted list of keys and record ids: src/storage/disk_bsp_index.cpp.
use cw_db.Prelude.{
  ℕ, zero, suc, ◌%◌, ◌^◌, ◌<◌, ◌≡◌, refl, true, List, [], ◌∷◌, some, inl, inr, Ordering, ltb,
  length, take, get_elem?, arith, ap, sym, subst, ◌∙◌, Bool-cases,
}
use cw_db.Prelude.Bytes.{Bytes}
use cw_db.Prelude.Error.{ok}
use cw_db.Core.Value.{Value, DataType, compare_value}
use cw_db.Storage.ValueIo.{
  encoding, encoded_value_size, encode_value, cmp_key_bytes, compare_encoded_keys,
  max_index_key_bytes,
}
use cw_db.Storage.ValueIo.RoundTrip.{IsStorable, decode_value_self, length-encoding}
use cw_db.Storage.Page.{LeafEntry}
use cw_db.Storage.Index.{make_entry, cmp_at}
use cw_db.Storage.Index.Vectors.{compare_entries}
use cw_db.Storage.Table.Laws.{IsKey, IsLeast, Ascends}
use cw_db.Storage.Table.Sorted.{Entries, Keys}

-- The entry is the encoding of the key, with the id.
pub record Encodes (v : Value) (id : ℕ) (e : LeafEntry) : Type 0 where
  pub key_eq : e.key ≡ encoding v
  pub key_len_eq : e.key_len ≡ length (encoding v)
  pub rid_eq : e.rid ≡ id
  pub storable : IsStorable v

pub make_entry-Encodes :
    (v : Value) (id : ℕ) (e : LeafEntry) → IsStorable v → make_entry v id ≡ ok e → Encodes v id e
unfolding make_entry encode_value
make_entry-Encodes v id e storable h =
    elim (Bool-cases (ltb max_index_key_bytes (encoded_value_size v))) [
      | inl big ↦ absurd (ground (arith, h, big))
      | inr fits ↦
          let short : length (encoding v) % 2 ^ 16 ≡ length (encoding v) =
            ground (arith, length-encoding v) in
          let made : ok
                (record { key = encoding v; key_len = length (encoding v) % 2 ^ 16; rid = id })
              ≡ ok e =
            ground (arith, h, fits) in
          let same : record { key = encoding v; key_len = length (encoding v) % 2 ^ 16; rid = id }
              ≡ e =
            ground arith in
          record {
            key_eq = ap (λ x. x.key) (sym same);
            key_len_eq = ap (λ x. x.key_len) (sym same) ∙ short;
            rid_eq = ap (λ x. x.rid) (sym same);
            storable = storable;
          }
    ]

take-whole : (xs : Bytes) → take (length xs) xs ≡ xs
take-whole [] = refl
take-whole (x ∷ xs) = ap (◌∷◌ x) (take-whole xs)

pub key_bytes :
    (v : Value) (id : ℕ) (e : LeafEntry) → Encodes v id e → take e.key_len e.key ≡ encoding v
key_bytes v id e h = rw (h.key_eq, h.key_len_eq) (take-whole (encoding v))

-- The comparison of an encoded key is that of the value.
pub cmp_key_bytes-Encodes :
    (v k : Value) (id : ℕ) (e : LeafEntry)
    → Encodes v id e
    → cmp_key_bytes (take e.key_len e.key) k ≡ ok (compare_value v k).0
unfolding cmp_key_bytes
cmp_key_bytes-Encodes v k id e h = rw (key_bytes v id e h, decode_value_self v h.storable) refl

pub compare_entries-Encodes :
    (v w : Value) (i j : ℕ) (d e : LeafEntry)
    → Encodes v i d
    → Encodes w j e
    → compare_entries d e ≡ ok (compare_value v w).0
unfolding compare_encoded_keys
compare_entries-Encodes v w i j d e h k =
    rw
      (
        key_bytes v i d h,
        key_bytes w j e k,
        decode_value_self v h.storable,
        decode_value_self w k.storable,
      )
      refl

-- The leaf entries are the encodings of the list.
abbrev pub Holds : Entries → List LeafEntry → Type 0
Holds [] [] = Unit {0}
Holds [] (e ∷ es) = ⊥
Holds (kv ∷ kvs) [] = ⊥
Holds ((v, id) ∷ kvs) (e ∷ es) = Encodes v id e × Holds kvs es

pub Holds-get_elem? :
    (kvs : Entries) (es : List LeafEntry) (i : ℕ)
    → Holds kvs es
    → i < length es
    → (kv : Value × ℕ) × (e : LeafEntry) × (get_elem? kvs i ≡ some kv)
      × (get_elem? es i ≡ some e)
      × Encodes kv.0 kv.1 e
Holds-get_elem? [] [] i h below = absurd (omega arith)
Holds-get_elem? [] (e ∷ es) i h below = absurd h
Holds-get_elem? (kv ∷ kvs) [] i h below = absurd h
Holds-get_elem? ((v, id) ∷ kvs) (e ∷ es) zero h below = ((v, id), e, refl, refl, h.0)
Holds-get_elem? ((v, id) ∷ kvs) (e ∷ es) (suc i) h below =
    Holds-get_elem? kvs es i h.1 (omega arith)

cmp_at-some :
    (es : List LeafEntry) (i : ℕ) (k : Value) (e : LeafEntry) (c : Ordering)
    → get_elem? es i ≡ some e
    → cmp_key_bytes (take e.key_len e.key) k ≡ ok c
    → cmp_at es i k ≡ ok c
unfolding cmp_at
cmp_at-some es i k e c h g = ground (arith, h, g)

pub cmp_at-Holds :
    (kvs : Entries) (es : List LeafEntry) (i : ℕ) (k : Value)
    → Holds kvs es
    → i < length es
    → (kv : Value × ℕ) × (get_elem? kvs i ≡ some kv) × (cmp_at es i k ≡ ok (compare_value kv.0 k).0)
cmp_at-Holds kvs es i k h below =
    let (kv, e, at_kv, at_e, enc) = Holds-get_elem? kvs es i h below in
    (
      kv,
      at_kv,
      cmp_at-some es i k e (compare_value kv.0 k).0 at_e (cmp_key_bytes-Encodes kv.0 k kv.1 e enc),
    )

pub cmp_at_inside :
    (es : List LeafEntry) (i : ℕ) (k : Value) (c : Ordering) → cmp_at es i k ≡ ok c → i < length es
unfolding cmp_at
cmp_at_inside [] i k c h = absurd (ground arith)
cmp_at_inside (e ∷ es) zero k c h = omega arith
cmp_at_inside (e ∷ es) (suc i) k c h = omega (arith, cmp_at_inside es i k c h)

least-get_elem? :
    (v : Value) (kvs : Entries) (j : ℕ) (kw : Value × ℕ)
    → IsLeast v kvs
    → get_elem? kvs j ≡ some kw
    → compare_value v kw.0 ≡ (Ordering.lt, true)
least-get_elem? v [] j kw least h = absurd (ground arith)
least-get_elem? v ((w, i) ∷ kvs) zero kw least h =
    let e : (w, i) ≡ kw = ground arith in ap (λ x. compare_value v x.0) (sym e) ∙ least.0
least-get_elem? v ((w, i) ∷ kvs) (suc j) kw least h = least-get_elem? v kvs j kw least.1 h

-- Later keys are greater.
pub Ascends-get_elem? :
    (kvs : Entries) (i j : ℕ) (kv kw : Value × ℕ)
    → Ascends kvs
    → i < j
    → get_elem? kvs i ≡ some kv
    → get_elem? kvs j ≡ some kw
    → compare_value kv.0 kw.0 ≡ (Ordering.lt, true)
Ascends-get_elem? [] i j kv kw up less at_i at_j = absurd (ground arith)
Ascends-get_elem? (x ∷ kvs) i zero kv kw up less at_i at_j = absurd (omega arith)
Ascends-get_elem? ((v, a) ∷ kvs) zero (suc j) kv kw up less at_i at_j =
    let e : (v, a) ≡ kv = ground arith in
    ap (λ x. compare_value x.0 kw.0) (sym e) ∙ least-get_elem? v kvs j kw up.0 at_j
Ascends-get_elem? ((v, a) ∷ kvs) (suc i) (suc j) kv kw up less at_i at_j =
    Ascends-get_elem? kvs i j kv kw up.1 (omega arith) at_i at_j

pub Keys-get_elem? :
    (ty : DataType) (kvs : Entries) (i : ℕ) (kv : Value × ℕ)
    → Keys ty kvs
    → get_elem? kvs i ≡ some kv
    → IsKey ty kv.0
Keys-get_elem? ty [] i kv keys h = absurd (ground arith)
Keys-get_elem? ty ((v, id) ∷ kvs) zero kv keys h =
    let e : (v, id) ≡ kv = ground arith in subst (λ x. IsKey ty x.0) e keys.0
Keys-get_elem? ty ((v, id) ∷ kvs) (suc i) kv keys h = Keys-get_elem? ty kvs i kv keys.1 h
