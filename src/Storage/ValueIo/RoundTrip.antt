-- ===== src/Storage/ValueIo/RoundTrip.antt =====
-- Encoded keys read back, and compare as the values do.
use cw_db.Prelude.{
  ◌+◌, ◌^◌, ◌%◌, ◌<◌, ◌≡◌, ◌↔◌, refl, append-nil, [], ◌++◌, length, take, drop, arith,
  length-append, take-append, drop-append, append_assoc,
}
use cw_db.Prelude.Int.{ℤ, IsI64, pos, negsuc}
use cw_db.Prelude.Bytes.{Bytes, le_bytes, length-le_bytes, drop-le_bytes, of_le-take-le_bytes}
use cw_db.Prelude.Error.{ok, throw, key_too_large}
use cw_db.Core.Value.{Value, null, int, str, compare_value}
use cw_db.Storage.ValueIo.{
  max_index_key_bytes, to_u64, of_u64, encoded_value_size, encoding, encode_value, decode_int,
  decode_str, decode_value, compare_encoded_keys,
}

-- Values that a cell can hold: an integer of 64 bits, a string shorter than 4 GiB.
abbrev pub IsStorable : Value → Type 0
IsStorable null = Unit {0}
IsStorable (int a) = IsI64 a
IsStorable (str s) = length s < 2 ^ 32

pub of_u64-to_u64 : (a : ℤ) → IsI64 a → of_u64 (to_u64 a) ≡ a
of_u64-to_u64 (pos n) h = ground arith
of_u64-to_u64 (negsuc n) h = ground arith

pub to_u64-lt : (a : ℤ) → IsI64 a → to_u64 a < 256 ^ 8
to_u64-lt (pos n) h = omega arith
to_u64-lt (negsuc n) h = omega arith

decode_int-le_bytes :
    (a : ℤ) (rest : Bytes) → IsI64 a → decode_int (le_bytes 8 (to_u64 a) ++ rest) ≡ ok (int a, 9)
unfolding decode_int
decode_int-le_bytes a rest h = ground (
  arith,
  length-append (le_bytes 8 (to_u64 a)) rest,
  length-le_bytes 8 (to_u64 a),
  of_le-take-le_bytes 8 (to_u64 a) rest (to_u64-lt a h),
  of_u64-to_u64 a h,
)

decode_str-bytes :
    (s rest : Bytes)
    → length s < 2 ^ 32
    → decode_str (le_bytes 4 (length s % 2 ^ 32) ++ (s ++ rest)) ≡ ok (str s, 5 + length s)
unfolding decode_str
decode_str-bytes s rest h =
    let n = length s % 2 ^ 32 in
    let e : n ≡ length s = omega arith in
    ground (
      arith,
      e,
      length-append (le_bytes 4 n) (s ++ rest),
      length-append s rest,
      length-le_bytes 4 n,
      of_le-take-le_bytes 4 n (s ++ rest) (omega arith),
      drop-le_bytes 4 n (s ++ rest),
      take-append s rest,
    )

pub length-encoding : (v : Value) → length (encoding v) ≡ encoded_value_size v
unfolding encoding encoded_value_size
length-encoding null = refl
length-encoding (int a) = omega (arith, length-le_bytes 8 (to_u64 a))
length-encoding (str s) =
    let n = length s % 2 ^ 32 in omega (arith, length-append (le_bytes 4 n) s, length-le_bytes 4 n)

-- Decoding finds the value at the front of any buffer and reports its size.
pub decode_value-encoding :
    (v : Value) (rest : Bytes)
    → IsStorable v
    → decode_value (encoding v ++ rest) ≡ ok (v, encoded_value_size v)
unfolding decode_value encoding encoded_value_size
decode_value-encoding null rest h = refl
decode_value-encoding (int a) rest h = decode_int-le_bytes a rest h
decode_value-encoding (str s) rest h =
    rw (append_assoc (le_bytes 4 (length s % 2 ^ 32)) s rest) (decode_str-bytes s rest h)

-- What `encode_value` appends to a buffer for a value in its range reads back, whatever is written
-- behind it, and the bytes that were in the buffer stay.
pub decode_value-encode_value :
    (out rest r : Bytes) (v : Value)
    → IsStorable v
    → encode_value out v ≡ ok r
    → (take (length out) r ≡ out)
      × (decode_value (drop (length out) r ++ rest) ≡ ok (v, encoded_value_size v))
      × (length r ≡ length out + encoded_value_size v)
unfolding encode_value
decode_value-encode_value out rest r v h e =
    let same : out ++ encoding v ≡ r = ground arith in
    rw (← same) (
      take-append out (encoding v),
      rw (drop-append out (encoding v)) (decode_value-encoding v rest h),
      omega (arith, length-append out (encoding v), length-encoding v),
    )

-- Encoding throws exactly when the buffer would grow past the limit for a key.
pub encode_value-throws_iff :
    (out : Bytes) (v : Value)
    → (encode_value out v ≡ throw key_too_large)
      ↔ (max_index_key_bytes < length out + encoded_value_size v)
unfolding encode_value
encode_value-throws_iff out v = (λ h. ground arith, λ h. ground arith)

pub decode_value_self :
    (v : Value) → IsStorable v → decode_value (encoding v) ≡ ok (v, encoded_value_size v)
decode_value_self v h = rw append-nil at (decode_value-encoding v [] h)

-- For values in their range, the comparison of two encoded keys does not throw and is the comparison
-- of the values.
pub compare_encoded_keys-encoding :
    (a b : Value)
    → IsStorable a
    → IsStorable b
    → compare_encoded_keys (encoding a) (encoding b) ≡ ok (compare_value a b).0
unfolding compare_encoded_keys
compare_encoded_keys-encoding a b h k = ground (arith, decode_value_self a h, decode_value_self b k)
