-- ===== src/Storage/ValueIo.antt =====
-- The encoding of index keys: include/storage/value_io.h.
-- A pointer with a length is the list of the bytes that may be read through it.
pub mod RoundTrip
use cw_db.Prelude.{
  ℕ, ◌+◌, ◌-◌, ◌^◌, ◌%◌, ◌<◌, Bool, true, false, List, [], ◌∷◌, ◌++◌, Ordering, ltb, ◌==◌,
  if◌then◌else◌, length, take, drop,
}
use cw_db.Prelude.Int.{ℤ, pos, negsuc}
use cw_db.Prelude.Bytes.{Bytes, le_bytes, of_le}
use cw_db.Prelude.Error.{
  Result, ok, throw, ◌>>=◌, ◌>>◌, throw_if, key_too_large, corrupt_value, corrupt_int,
  corrupt_string, corrupt_payload, unknown_tag,
}
use cw_db.Core.Value.{Value, null, int, str, compare_value}

-- `kMaxIndexKeyBytes`
abbrev pub max_index_key_bytes : ℕ
max_index_key_bytes = 512

-- An `int64_t` and the 64-bit pattern that `memcpy` moves.
abbrev pub to_u64 : ℤ → ℕ
to_u64 (pos n) = n
to_u64 (negsuc n) = 2 ^ 64 - 1 - n

abbrev pub of_u64 : ℕ → ℤ
of_u64 w = if ltb w (2 ^ 63) then pos w else negsuc (2 ^ 64 - 1 - w)

unfoldable pub encoded_value_size : Value → ℕ
encoded_value_size null = 1
encoded_value_size (int a) = 1 + 8
encoded_value_size (str s) = 1 + 4 + length s

-- What `encode_value` appends.
unfoldable pub encoding : Value → Bytes
encoding null = 0 ∷ []
encoding (int a) = 1 ∷ le_bytes 8 (to_u64 a)
encoding (str s) = 2 ∷ (le_bytes 4 (length s % 2 ^ 32) ++ s)

-- `out` after the call.
unfoldable pub encode_value : Bytes → Value → Result Bytes
unfolding encoded_value_size encoding
encode_value out v = do
  throw_if (ltb max_index_key_bytes (length out + encoded_value_size v)) key_too_large
  ok (out ++ encoding v)

-- The two cases of the `switch` that read on, on the bytes behind the tag.
unfoldable pub decode_int : Bytes → Result (Value × ℕ)
decode_int bytes = do
  throw_if (ltb (1 + length bytes) (1 + 8)) corrupt_int
  ok (int (of_u64 (of_le (take 8 bytes))), 1 + 8)

unfoldable pub decode_str : Bytes → Result (Value × ℕ)
decode_str bytes = do
  throw_if (ltb (1 + length bytes) (1 + 4)) corrupt_string
  let n = of_le (take 4 bytes)
  throw_if (ltb (1 + length bytes) (1 + 4 + n)) corrupt_payload
  ok (str (take n (drop 4 bytes)), 1 + 4 + n)

-- The value, and `consumed`.
unfoldable pub decode_value : Bytes → Result (Value × ℕ)
unfolding decode_int decode_str
decode_value [] = throw corrupt_value
decode_value (tag ∷ bytes) =
    if tag == 0
    then ok (null, 1)
    else if tag == 1
    then decode_int bytes
    else if tag == 2
    then decode_str bytes
    else throw unknown_tag

-- `valid` is dropped: keys that do not compare count as equal.
unfoldable pub compare_encoded_keys : Bytes → Bytes → Result Ordering
unfolding decode_value
compare_encoded_keys a b = do
  (va, ca) ← decode_value a
  (vb, cb) ← decode_value b
  ok (compare_value va vb).0

-- `cmp_key_bytes` of src/storage/disk_bsp_index.cpp
unfoldable pub cmp_key_bytes : Bytes → Value → Result Ordering
unfolding decode_value
cmp_key_bytes a b = do (va, consumed) ← decode_value a; ok (compare_value va b).0
