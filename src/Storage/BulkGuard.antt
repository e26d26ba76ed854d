-- ===== src/Storage/BulkGuard.antt =====
-- The guard of a bulk build: src/storage/bulk_build_guard.cpp. What the environment variable and the
-- operating system say is an argument.
use cw_db.Prelude.{
  ℕ, ◌+◌, ◌*◌, ◌/◌, ◌%◌, ◌^◌, List, [], ◌∷◌, Option, none, some, ltb, ◌==◌, if◌then◌else◌, length,
}
use cw_db.Prelude.Error.{
  Result, ok, ◌>>=◌, ◌>>◌, throw_if, bulk_null_key, bulk_key_too_large, bulk_memory,
}
use cw_db.Core.Value.{Value, is_null}
use cw_db.Storage.ValueIo.{encoded_value_size, max_index_key_bytes}
use cw_db.Storage.Page.{page_size}
use cw_db.Storage.Pager.{default_page_cache_capacity}

-- `kPerEntryOverhead` and `sizeof(std::pair<Value, std::uint64_t>)`
abbrev pub per_entry_overhead : ℕ
per_entry_overhead = 96

abbrev pub pair_size : ℕ
pair_size = 24

-- The arithmetic is that of a 64-bit `std::size_t`.
unfoldable pub estimate_bulk_build_bytes : ℕ → ℕ → ℕ
estimate_bulk_build_bytes entry_count total_encoded_key_bytes =
    (entry_count * per_entry_overhead
      + total_encoded_key_bytes * 2
      + entry_count * pair_size
      + default_page_cache_capacity * page_size)
    % 2 ^ 64

-- The loop over the entries, with the bytes counted so far.
unfoldable pub count_key_bytes : ℕ → List (Value × ℕ) → Result ℕ
unfolding encoded_value_size
count_key_bytes total_key_bytes [] = ok total_key_bytes
count_key_bytes total_key_bytes ((key, rid) ∷ entries) = do
  throw_if (is_null key) (bulk_null_key rid)
  let enc = encoded_value_size key
  throw_if (ltb max_index_key_bytes enc) (bulk_key_too_large rid)
  count_key_bytes ((total_key_bytes + enc) % 2 ^ 64) entries

-- The budget, or `none` where there is no check. The product with 0.25 is exact for less than 2^53
-- bytes.
unfoldable pub memory_budget : Option ℕ → Option ℕ → Option ℕ
memory_budget (some budget) available = some budget
memory_budget none none = none
memory_budget none (some available) = if available == 0 then none else some (available / 4)

abbrev pub within : ℕ → Option ℕ → Result (Unit {0})
within need none = ok tt
within need (some budget) = throw_if (ltb budget need) (bulk_memory need budget)

unfoldable pub validate_bulk_build_input :
    Option ℕ → Option ℕ → List (Value × ℕ) → Result (Unit {0})
unfolding estimate_bulk_build_bytes count_key_bytes memory_budget
validate_bulk_build_input budget_override available entries = do
  total_key_bytes ← count_key_bytes 0 entries
  within (estimate_bulk_build_bytes (length entries) total_key_bytes)
      (memory_budget budget_override available)
