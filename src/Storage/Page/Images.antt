-- ===== src/Storage/Page/Images.antt =====
-- The parts of a page image and what the loops of `read_page` make of them:
-- src/storage/disk_bsp_index.cpp.
use cw_db.Prelude.{
  ℕ, suc, ◌+◌, ◌*◌, ◌^◌, ◌%◌, ◌<◌, ◌≡◌, refl, List, [], ◌∷◌, ◌++◌, map, length, take, drop, All,
  arith, length-append, take-append, drop-append, append_assoc, length-take, ap, ap₂, ◌∙◌,
}
use cw_db.Prelude.Bytes.{
  Bytes, le_bytes, of_le, length-le_bytes, of_le-le_bytes, drop-le_bytes, of_le-take-le_bytes,
}
use cw_db.Storage.Page.{
  LeafEntry, leaf_payload_from, inner_payload_from, leaf_image, child_image, key_image,
  header_image, parse, parse_body, parse_leaf_entries, parse_children, parse_inner_keys, node_type,
}

-- The fields of an entry fit the machine types that hold them.
pub record IsEntry (e : LeafEntry) : Type 0 where
  pub key_len-eq : length e.key ≡ e.key_len
  pub key_len-lt : e.key_len < 2 ^ 16
  pub rid-lt : e.rid < 2 ^ 64

pub header_size : (t c n : ℕ) → length (header_image t c n) ≡ 12
unfolding header_image le_bytes
header_size t c n = refl

pub parse-header :
    (t c n id : ℕ) (body : Bytes)
    → t < 256
    → n < 2 ^ 32
    → parse id (header_image t c n ++ body) ≡ parse_body (node_type t) id (c % 256) n body
unfolding parse header_image le_bytes of_le
parse-header t c n id body ht hn =
    let type : t + 0 ≡ t = omega arith in
    let count : c % 256 + 0 ≡ c % 256 = omega arith in
    let next : of_le (le_bytes 4 n) ≡ n = of_le-le_bytes 4 n (omega arith) in rw (type, count, next)

-- One round of the loop over the entries of a leaf, on an entry as it is written.
pub parse_leaf_step :
    (n : ℕ) (key more : Bytes) (rid : ℕ)
    → length key < 2 ^ 16
    → rid < 2 ^ 64
    → parse_leaf_entries (suc n) (le_bytes 2 (length key) ++ (key ++ (le_bytes 8 rid ++ more)))
      ≡ record { key = key; key_len = length key; rid = rid } ∷ parse_leaf_entries n more
unfolding parse_leaf_entries
parse_leaf_step n key more rid hk hr =
    let fields = key ++ (le_bytes 8 rid ++ more) in
    ground (
      arith,
      of_le-take-le_bytes 2 (length key) fields (omega arith),
      drop-le_bytes 2 (length key) fields,
      take-append key (le_bytes 8 rid ++ more),
      drop-append key (le_bytes 8 rid ++ more),
      of_le-take-le_bytes 8 rid more (omega arith),
      drop-le_bytes 8 rid more,
      length-append (le_bytes 2 (length key)) fields,
      length-append key (le_bytes 8 rid ++ more),
      length-append (le_bytes 8 rid) more,
      length-le_bytes 2 (length key),
      length-le_bytes 8 rid,
    )

parse_key_step :
    (n : ℕ) (key more : Bytes)
    → length key < 2 ^ 16
    → parse_inner_keys (suc n) (le_bytes 2 (length key) ++ (key ++ more))
      ≡ record { key = key; key_len = length key; rid = 0 } ∷ parse_inner_keys n more
unfolding parse_inner_keys
parse_key_step n key more hk = ground (
  arith,
  of_le-take-le_bytes 2 (length key) (key ++ more) (omega arith),
  drop-le_bytes 2 (length key) (key ++ more),
  take-append key more,
  drop-append key more,
)

take-length {ℓ} : {A : Type ℓ} (xs : List A) → take (length xs) xs ≡ xs
take-length [] = refl
take-length (x ∷ xs) = ap (◌∷◌ x) (take-length xs)

leaf_image-cons :
    (e : LeafEntry) (es : List LeafEntry) (rest : Bytes)
    → IsEntry e
    → leaf_image (e ∷ es) ++ rest
      ≡ le_bytes 2 (length e.key) ++ (e.key ++ (le_bytes 8 e.rid ++ (leaf_image es ++ rest)))
unfolding leaf_image
leaf_image-cons e es rest v = simp (← v.key_len-eq, take-length, append_assoc)

pub parse-leaf_image :
    (es : List LeafEntry) (rest : Bytes)
    → All IsEntry es
    → parse_leaf_entries (length es) (leaf_image es ++ rest) ≡ es
parse-leaf_image [] rest h = unfold parse_leaf_entries in refl
parse-leaf_image (e ∷ es) rest (v, h) =
    ap (parse_leaf_entries (suc (length es))) (leaf_image-cons e es rest v)
    ∙ parse_leaf_step (length es) e.key (leaf_image es ++ rest) e.rid (omega arith) v.rid-lt
    ∙ (λ i. record e { key_len = v.key_len-eq i } ∷ parse-leaf_image es rest h i)

-- A separator is stored without a record id.
abbrev pub without_rid : LeafEntry → LeafEntry
without_rid k = record k { rid = 0 }

key_image-cons :
    (k : LeafEntry) (ks : List LeafEntry) (rest : Bytes)
    → IsEntry k
    → key_image (k ∷ ks) ++ rest ≡ le_bytes 2 (length k.key) ++ (k.key ++ (key_image ks ++ rest))
unfolding key_image
key_image-cons k ks rest v = simp (← v.key_len-eq, take-length, append_assoc)

pub parse-key_image :
    (ks : List LeafEntry) (rest : Bytes)
    → All IsEntry ks
    → parse_inner_keys (length ks) (key_image ks ++ rest) ≡ map without_rid ks
parse-key_image [] rest h = unfold parse_inner_keys in refl
parse-key_image (k ∷ ks) rest (v, h) =
    ap (parse_inner_keys (suc (length ks))) (key_image-cons k ks rest v)
    ∙ parse_key_step (length ks) k.key (key_image ks ++ rest) (omega arith)
    ∙ (λ i. record k { key_len = v.key_len-eq i; rid = 0 } ∷ parse-key_image ks rest h i)

abbrev pub IsPageId : ℕ → Type 0
IsPageId c = c < 2 ^ 32

pub parse-child_image :
    (cs : List ℕ) (rest : Bytes)
    → All IsPageId cs
    → parse_children (length cs) (child_image cs ++ rest) ≡ cs
unfolding parse_children child_image
parse-child_image [] rest h = refl
parse-child_image (c ∷ cs) rest (hc, h) =
    let more = child_image cs ++ rest in
    ap (parse_children (suc (length cs))) (append_assoc (le_bytes 4 c) (child_image cs) rest)
    ∙ ap₂ ◌∷◌ (of_le-take-le_bytes 4 c more (omega arith))
        (ap (parse_children (length cs)) (drop-le_bytes 4 c more) ∙ parse-child_image cs rest h)

pub length-child_image : (cs : List ℕ) → length (child_image cs) ≡ length cs * 4
unfolding child_image
length-child_image [] = refl
length-child_image (c ∷ cs) = omega (
  arith,
  length-append (le_bytes 4 c) (child_image cs),
  length-le_bytes 4 c,
  length-child_image cs,
)

pub drop-child_image :
    (cs : List ℕ) (rest : Bytes) → drop (length cs * 4) (child_image cs ++ rest) ≡ rest
drop-child_image cs rest = rw (← length-child_image cs) (drop-append (child_image cs) rest)

-- The payload that the overflow test computes is the number of bytes written.
pub payload-leaf_image :
    (es : List LeafEntry) (off : ℕ)
    → All IsEntry es
    → leaf_payload_from off es ≡ off + length (leaf_image es)
unfolding leaf_payload_from leaf_image
payload-leaf_image [] off h = omega arith
payload-leaf_image (e ∷ es) off (v, h) = omega (
  arith,
  payload-leaf_image es (off + (2 + e.key_len + 8)) h,
  length-append (le_bytes 2 e.key_len)
      (take e.key_len e.key ++ (le_bytes 8 e.rid ++ leaf_image es)),
  length-append (take e.key_len e.key) (le_bytes 8 e.rid ++ leaf_image es),
  length-append (le_bytes 8 e.rid) (leaf_image es),
  length-take e.key_len e.key,
  length-le_bytes 2 e.key_len,
  length-le_bytes 8 e.rid,
  v.key_len-eq,
)

pub payload-key_image :
    (ks : List LeafEntry) (off : ℕ)
    → All IsEntry ks
    → inner_payload_from off ks ≡ off + length (key_image ks)
unfolding inner_payload_from key_image
payload-key_image [] off h = omega arith
payload-key_image (k ∷ ks) off (v, h) = omega (
  arith,
  payload-key_image ks (off + (2 + k.key_len)) h,
  length-append (le_bytes 2 k.key_len) (take k.key_len k.key ++ key_image ks),
  length-append (take k.key_len k.key) (key_image ks),
  length-take k.key_len k.key,
  length-le_bytes 2 k.key_len,
  v.key_len-eq,
)
