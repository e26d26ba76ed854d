-- ===== src/Core/Value.antt =====
-- Cell values: src/core/value.cpp and include/core/value.h.
-- `Value` is a value by what it holds: a string value is its bytes. `Interned`, in the child of that
-- name, is the tagged union of the source, whose string is an id of the pool.
pub mod Interned
pub mod Order
use cw_db.Prelude.{
  ℕ, ◌+◌, ◌<◌, ◌≤◌, Bool, true, false, ◌&&◌, ◌||◌, List, [], ◌∷◌, Option, none, some, map, Ordering,
  compare, leb, if◌then◌else◌,
}
use cw_db.Prelude.Int.{ℤ, eq_ℤ, compare_ℤ}
use cw_db.Prelude.Bytes.{Bytes, codes, compare_bytes, eq_bytes}

pub data DataType : Type 0 where
  int str : DataType

unfoldable pub type_name : DataType → Bytes
type_name DataType.int = codes "int"
type_name DataType.str = codes "string"

-- `std::tolower` in the C locale
unfoldable pub tolower : ℕ → ℕ
tolower c = if leb b'A' c && leb c b'Z' then c + 32 else c

-- The type that is written to `out`, or `none` for the result `false`.
unfoldable pub parse_type_name : Bytes → Option DataType
unfolding tolower
parse_type_name word =
    let low = map tolower word in
    if eq_bytes low (codes "int") || eq_bytes low (codes "integer")
    then some DataType.int
    else if eq_bytes low (codes "string")
        || (eq_bytes low (codes "str") || eq_bytes low (codes "text"))
    then some DataType.str
    else none

pub data Value : Type 0 where
  null : Value
  int : ℤ → Value
  str : Bytes → Value

abbrev pub is_null : Value → Bool
is_null null = true
is_null _ = false

abbrev pub is_int : Value → Bool
is_int (int _) = true
is_int _ = false

abbrev pub is_str : Value → Bool
is_str (str _) = true
is_str _ = false

unfoldable pub matches : Value → DataType → Bool
matches null _ = true
matches (int _) DataType.int = true
matches (int _) DataType.str = false
matches (str _) DataType.int = false
matches (str _) DataType.str = true

-- The result and `valid`: `eq` stands for 0 and `lt`, `gt` for the negative and positive results.
unfoldable pub compare_value : Value → Value → Ordering × Bool
compare_value (int a) (int b) = (compare_ℤ a b, true)
compare_value (str a) (str b) = (compare_bytes a b, true)
compare_value _ _ = (Ordering.eq, false)

-- `operator==`
unfoldable pub eq_value : Value → Value → Bool
eq_value null null = true
eq_value (int a) (int b) = eq_ℤ a b
eq_value (str a) (str b) = eq_bytes a b
eq_value _ _ = false

-- `ValueLess` of include/storage/value_less.h
unfoldable pub value_less : Value → Value → Bool
unfolding compare_value
value_less a b = elim (compare_value a b).0 [ Ordering.lt ↦ true | _ ↦ false ]

-- The kinds of JSON value that a cell becomes.
pub data Json : Type 0 where
  null : Json
  number : ℤ → Json
  string : Bytes → Json

unfoldable pub to_json : Value → Json
to_json Value.null = Json.null
to_json (int a) = number a
to_json (str s) = string s
