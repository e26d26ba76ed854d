-- ===== src/Tests/Core.antt =====
-- The string pool, values and key codec at concrete inputs: core/string_pool.cpp, core/value.cpp and
-- storage/value_io.h.
use cw_db.Prelude.{◌+◌, ◌≡◌, refl, [], ◌∷◌, ◌++◌, length, take, drop, arith, some}
use cw_db.Prelude.Bytes.{Bytes, codes, compare_bytes, le_bytes}
use cw_db.Prelude.Map.{find, emplace}
use cw_db.Prelude.Error.{ok}
use cw_db.Core.StringPool.{StringPool, init, intern, get}
use cw_db.Core.StringPool.Laws.{IsValid, init-IsValid, intern-IsValid, get-intern}
use cw_db.Core.Value.{Value, parse_type_name, compare_value, DataType}
use cw_db.Core.Value.Interned.{Interned, Shows, compare_interned, compare_interned-Shows}
use cw_db.Storage.ValueIo.{encode_value, decode_value, encoded_value_size}
use cw_db.Storage.ValueIo.RoundTrip.{decode_value-encode_value}

abbrev ann : Bytes
ann = codes "ann"

abbrev bob : Bytes
bob = codes "bob"

abbrev pool : StringPool
pool = record { by_value = (ann, 1) ∷ (bob, 2) ∷ []; by_id = [] ∷ ann ∷ bob ∷ [] }

pool_built : (intern bob (intern ann init).0).0 ≡ pool
unfolding intern find emplace compare_bytes
pool_built = refl

parse_text : parse_type_name (codes "TeXt") ≡ some DataType.str
unfolding parse_type_name compare_bytes
parse_text = refl

pool-IsValid : IsValid pool
pool-IsValid = rw pool_built at (
    intern-IsValid bob (intern ann init).0 (intern-IsValid ann init init-IsValid (omega arith))
      (unfold intern find in omega arith))

intern-IsValid_example : IsValid (intern (codes "cy") pool).0
intern-IsValid_example = intern-IsValid (codes "cy") pool pool-IsValid (omega arith)

get-intern_example : get (intern ann pool).1 (intern ann pool).0 ≡ ok ann
get-intern_example = get-intern ann pool pool-IsValid (omega arith)

get_two : get 2 pool ≡ ok bob
unfolding get
get_two = refl

get_one : get 1 pool ≡ ok ann
unfolding get
get_one = refl

compare_interned-Shows_example :
    compare_interned pool (Interned.str 1) (Interned.str 2)
    ≡ ok (compare_value (Value.str ann) (Value.str bob))
compare_interned-Shows_example =
    compare_interned-Shows pool pool-IsValid (Shows.str 1 ann get_one) (Shows.str 2 bob get_two)

abbrev seven : Bytes
seven = 2 ∷ 3 ∷ 0 ∷ 0 ∷ 0 ∷ ann

encode_ann : encode_value (9 ∷ []) (Value.str ann) ≡ ok (9 ∷ seven)
unfolding encode_value le_bytes
encode_ann = refl

decode_value-encode_value_example :
    (take 1 (9 ∷ seven) ≡ 9 ∷ [])
    × (decode_value (drop 1 (9 ∷ seven) ++ (5 ∷ []))
        ≡ ok (Value.str ann, encoded_value_size (Value.str ann)))
    × (length (9 ∷ seven) ≡ 1 + encoded_value_size (Value.str ann))
decode_value-encode_value_example =
    decode_value-encode_value (9 ∷ []) (5 ∷ []) (9 ∷ seven) (Value.str ann) (omega arith) encode_ann
