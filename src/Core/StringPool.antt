-- ===== src/Core/StringPool.antt =====
-- The string pool: src/core/string_pool.cpp and include/core/string_pool.h.
-- `by_value` is the hash map from a string to its id, `by_id` the vector of strings, whose place 0
-- is the reserved sentinel. The lock makes each call atomic, so a call is a function of the pool.
pub mod Laws
use cw_db.Prelude.{
  ℕ, ◌+◌, ◌-◌, ◌%◌, ◌^◌, ◌<◌, ◌≡◌, List, [], ◌∷◌, ◌++◌, Option, none, some, Bool, ◌||◌, arith,
  length, get_elem?, leb, ◌==◌, if◌then◌else◌,
}
use cw_db.Prelude.Bytes.{Bytes}
use cw_db.Prelude.Error.{Result, ok, throw, invalid_string_id}
use cw_db.Prelude.Map.{find, emplace, bytes_eq}

pub record StringPool : Type 0 where
  pub by_value : List (Bytes × ℕ)
  pub by_id : List Bytes

-- `StringPool::kInvalid`
abbrev pub invalid_id : ℕ
invalid_id = 0

-- the constructor
abbrev pub init : StringPool
init = record { by_value = []; by_id = [] ∷ [] }

-- `static_cast<Id>(by_id_.size())`, an id of 32 bits
abbrev pub next_id : StringPool → ℕ
next_id p = length p.by_id % 2 ^ 32

-- The pool after the call, and the id.
unfoldable pub intern : Bytes → StringPool → StringPool × ℕ
intern s p = elim (find s p.by_value) [
  | some id ↦ (p, id)
  | none ↦ (
    record { by_value = emplace s (next_id p) p.by_value; by_id = p.by_id ++ (s ∷ []) },
    next_id p,
  )
]

abbrev pub or_invalid : Option Bytes → Result Bytes
or_invalid none = throw invalid_string_id
or_invalid (some s) = ok s

unfoldable pub get : ℕ → StringPool → Result Bytes
get id p =
    if id == invalid_id || leb (length p.by_id) id
    then throw invalid_string_id
    else or_invalid (get_elem? p.by_id id)

-- The number of strings, less the sentinel.
pub size : StringPool → ℕ
size p = length p.by_id - 1
