-- ===== src/Prelude/Error.antt =====
-- The exceptions that the code throws, and the monad of code that may throw.
use Prim.Native.Nat.{ℕ}
use cw_db.Prelude.Bytes.{Bytes}
use mathlib.Core.Path.{◌≡◌, refl}
use mathlib.Core.Logic.{◌⊎◌, inl, inr}
use mathlib.Core.Bool.{Bool, true, false}

-- One constructor for each message; the text that a message quotes is its argument.
pub data Error : Type 0 where
  -- core/string_pool.cpp
  invalid_string_id : Error
  -- include/storage/value_io.h
  key_too_large corrupt_value corrupt_int corrupt_string corrupt_payload unknown_tag : Error
  -- src/storage/table.cpp and src/sql/executor.cpp; `undefined` stands for a read or write past the
  -- end of a vector, which C++ leaves undefined
  unknown_column null_not_allowed type_mismatch duplicate_value column_twice : Bytes → Error
  count_mismatch record_arity record_not_found not_indexed path_not_bound undefined : Error
  invalid_atom like_operands bad_regex standalone_literal standalone_column : Error
  bad_magic unsupported_version unknown_value_tag out_of_range : Error
  -- src/storage/pager.cpp; `diverges` stands for a loop that does not end
  bad_page_size diverges : Error
  read_past_end read_failed write_failed cache_miss : ℕ → Error
  -- src/core/dbms.cpp and src/storage/database.cpp
  unknown_database database_exists unknown_table table_exists : Bytes → Error
  no_database : Error
  -- src/storage/disk_bsp_index.cpp
  leaf_page_overflow inner_page_overflow corrupt_index_page corrupt_inner_page : Error
  leaf_without_separators empty_internal_node empty_leaf_in_subtree separator_of_empty_leaf : Error
  leaf_cannot_be_parent root_not_single invalid_path_to_left parent_missing_child : Error
  parent_missing_left_child empty_split_leaf empty_right_node empty_right_child : Error
  leaf_siblings_do_not_fit internal_siblings_do_not_fit expected_leaf_sibling : Error
  expected_internal_sibling expected_internal_node invalid_path no_leaf_sibling : Error
  no_internal_sibling null_key duplicate_key keys_not_increasing separator_does_not_fit : Error
  -- src/storage/bulk_build_guard.cpp
  bulk_null_key bulk_key_too_large : ℕ → Error
  bulk_memory : ℕ → ℕ → Error

pub data Result {ℓ} (A : Type ℓ) : Type ℓ where
  ok : A → Result A
  throw : Error → Result A

infixl 5 ◌>>=◌ ◌>>◌
abbrev pub ◌>>=◌ {ℓ κ} : {A : Type ℓ} {B : Type κ} → Result A → (A → Result B) → Result B
ok a >>= f = f a
throw e >>= f = throw e

abbrev pub ◌>>◌ {ℓ} : {B : Type ℓ} → Result (Unit {0}) → Result B → Result B
m >> k = m >>= λ _. k

-- `if (bad) throw e;`
abbrev pub throw_if : Bool → Error → Result (Unit {0})
throw_if true e = throw e
throw_if false e = ok tt

pub Result-cases {ℓ} :
    {A : Type ℓ} (r : Result A) → ((a : A) × (r ≡ ok a)) ⊎ ((e : Error) × (r ≡ throw e))
Result-cases (ok a) = inl (a, refl)
Result-cases (throw e) = inr (e, refl)
