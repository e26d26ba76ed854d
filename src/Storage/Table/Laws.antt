-- ===== src/Storage/Table/Laws.antt =====
-- What src/storage/table.cpp relies on in a disk index: an abstract specification of `DiskBspIndex`, in
-- which an index is a function from keys to record ids. Storage.Table.Disk.Laws has them for that index
-- while its root is a leaf: a new key needs room there.
use cw_db.Prelude.{
  ℕ, ◌≡◌, ◌↔◌, ◌&&◌, ◌||◌, ◌==◌, Bool, true, false, Option, none, some, List, [], ◌∷◌,
  if◌then◌else◌, Ordering,
}
use cw_db.Prelude.Error.{Result, ok}
use cw_db.Core.Value.{Value, DataType, is_null, matches, eq_value, compare_value}
use cw_db.Storage.Table.{IndexOps}

-- The keys of a list of entries ascend: each compares, and is less than all that follow.
abbrev pub IsLeast : Value → List (Value × ℕ) → Type 0
IsLeast k [] = Unit {0}
IsLeast k ((v, id) ∷ es) = (compare_value k v ≡ (Ordering.lt, true)) × IsLeast k es

abbrev pub Ascends : List (Value × ℕ) → Type 0
Ascends [] = Unit {0}
Ascends ((v, id) ∷ es) = IsLeast v es × Ascends es

abbrev pub has_entry : Value → ℕ → List (Value × ℕ) → Bool
has_entry v id [] = false
has_entry v id ((w, i) ∷ es) = (eq_value w v && i == id) || has_entry v id es

-- `lower_bound` of a key, `upper_bound` of it, or `begin`: the test that an entry is not before it.
abbrev pub not_less : Bool → Ordering × Bool → Bool
not_less inclusive (Ordering.gt, true) = true
not_less inclusive (Ordering.eq, true) = inclusive
not_less inclusive _ = false

abbrev pub is_from : Option (Value × Bool) → Value → Bool
is_from none v = true
is_from (some (lo, inclusive)) v = not_less inclusive (compare_value v lo)

-- A key of a column of that type.
abbrev pub IsKey : DataType → Value → Type 0
IsKey ty v = (is_null v ≡ false) × (matches v ty ≡ true)

-- A place to iterate from: the beginning, or a key of the type.
abbrev pub IsStart : DataType → Option (Value × Bool) → Type 0
IsStart ty none = Unit {0}
IsStart ty (some (lo, inclusive)) = IsKey ty lo

-- The iteration reaches all entries that are not before the place, in the order of their keys, and ends.
pub record IsRange (ty : DataType) (view : Value → Option ℕ) (from : Option (Value × Bool))
    (range : List (Value × ℕ) × Result (Unit {0})) : Type 0 where
  pub ends : range.1 ≡ ok tt
  pub ascends : Ascends range.0
  pub holds :
      (v : Value) (id : ℕ)
      → IsKey ty v
      → (has_entry v id range.0 ≡ true) ↔ ((view v ≡ some id) × (is_from from v ≡ true))

pub record IndexLaws (ops : IndexOps) : Type 1 where
  -- the index is well formed, with keys of the type
  pub IsSound : DataType → ops.Index → Type 0
  pub view : ops.Index → Value → Option ℕ
  -- the index takes the entry without a page more
  pub HasRoom : ops.Index → Value → ℕ → Type 0
  pub sound_open : (ty : DataType) (idx : ops.Index) → IsSound ty idx → ops.is_open idx ≡ true
  pub lookup_view :
      (ty : DataType) (idx : ops.Index) (v : Value)
      → IsSound ty idx
      → IsKey ty v
      → ops.lookup idx v ≡ ok (view idx v)
  -- an insertion of a new key that returns
  pub add_sound :
      (ty : DataType) (idx : ops.Index) (v : Value) (id : ℕ)
      → IsSound ty idx
      → IsKey ty v
      → HasRoom idx v id
      → view idx v ≡ none
      → (ops.add v id idx).0 ≡ ok tt
      → IsSound ty (ops.add v id idx).1
  pub add_view :
      (ty : DataType) (idx : ops.Index) (v k : Value) (id : ℕ)
      → IsSound ty idx
      → IsKey ty v
      → HasRoom idx v id
      → view idx v ≡ none
      → (ops.add v id idx).0 ≡ ok tt
      → view (ops.add v id idx).1 k ≡ (if eq_value v k then some id else view idx k)
  -- an erasure of a key that is there and that returns
  pub drop_sound :
      (ty : DataType) (idx : ops.Index) (v : Value) (id : ℕ) (b : Bool)
      → IsSound ty idx
      → IsKey ty v
      → view idx v ≡ some id
      → (ops.drop_key v idx).0 ≡ ok b
      → IsSound ty (ops.drop_key v idx).1
  pub drop_view :
      (ty : DataType) (idx : ops.Index) (v k : Value) (id : ℕ) (b : Bool)
      → IsSound ty idx
      → IsKey ty v
      → view idx v ≡ some id
      → (ops.drop_key v idx).0 ≡ ok b
      → view (ops.drop_key v idx).1 k ≡ (if eq_value v k then none else view idx k)
  pub entries_range :
      (ty : DataType) (idx : ops.Index) (from : Option (Value × Bool))
      → IsSound ty idx
      → IsStart ty from
      → IsRange ty (view idx) from (ops.entries idx from)
