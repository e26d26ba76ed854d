-- ===== src/Storage/Table/Sorted.antt =====
-- An index as the list of its entries, by ascending keys: it keeps the laws that src/storage/table.cpp relies on.
use cw_db.Prelude.{
  ℕ, ◌≡◌, ◌≢◌, ◌↔◌, refl, Bool, true, false, List, [], ◌∷◌, Option, none, some, inl, inr,
  if◌then◌else◌, Ordering, arith, Bool-cases, ==_iff,
}
use cw_db.Prelude.Error.{ok}
use cw_db.Core.Value.{Value, DataType, int, str, null, matches, eq_value, compare_value}
use cw_db.Core.Value.Order.{eq_value_iff, compare_value-chain, compare_value-flip, compare_value-eq}
use cw_db.Storage.Table.{IndexOps}
use cw_db.Storage.Table.Laws.{IsRange, IndexLaws, IsKey, IsLeast, Ascends, has_entry, is_from}
use cw_db.Sql.Select.Range.{compared_valid}

abbrev pub Entries : Type 0
Entries = List (Value × ℕ)

unfoldable pub lookup_entry : Entries → Value → Option ℕ
lookup_entry [] v = none
lookup_entry ((w, id) ∷ es) v = if eq_value w v then some id else lookup_entry es v

unfoldable pub without : Value → Entries → Entries
without v [] = []
without v ((w, id) ∷ es) = let rest = without v es in if eq_value w v then rest else (w, id) ∷ rest

abbrev pub is_lt : Ordering × Bool → Bool
is_lt (Ordering.lt, valid) = true
is_lt _ = false

unfoldable pub with_entry : Value → ℕ → Entries → Entries
with_entry v id [] = (v, id) ∷ []
with_entry v id ((w, i) ∷ es) =
    let rest = with_entry v id es in
    if is_lt (compare_value v w) then (v, id) ∷ (w, i) ∷ es else (w, i) ∷ rest

unfoldable pub from_place : Option (Value × Bool) → Entries → Entries
from_place from [] = []
from_place from ((w, i) ∷ es) =
    let rest = from_place from es in if is_from from w then (w, i) ∷ rest else rest

abbrev pub list_ops : IndexOps
list_ops = record {
  Index = Entries;
  open_or_create = λ col. ok [];
  is_open = λ idx. true;
  lookup = λ idx v. ok (lookup_entry idx v);
  entries = λ idx from. (from_place from idx, ok tt);
  add = λ v id idx. (ok tt, with_entry v id idx);
  drop_key = λ v idx. (ok true, without v idx);
}

abbrev pub Keys : DataType → Entries → Type 0
Keys ty [] = Unit {0}
Keys ty ((v, id) ∷ es) = IsKey ty v × Keys ty es

pub keys-valid :
    (ty : DataType) (a b : Value) → IsKey ty a → IsKey ty b → (compare_value a b).1 ≡ true
unfolding compare_value matches
keys-valid ty (int a) (int b) k l = refl
keys-valid ty (str a) (str b) k l = refl
keys-valid DataType.int (int a) (str b) k l = ground (arith, l.1)
keys-valid DataType.str (int a) (str b) k l = ground (arith, k.1)
keys-valid DataType.int (str a) (int b) k l = ground (arith, k.1)
keys-valid DataType.str (str a) (int b) k l = ground (arith, l.1)
keys-valid ty null b k l = ground (arith, k.0)
keys-valid ty a null k l = ground (arith, l.0)

pub lt_trans :
    (a b c : Value)
    → compare_value a b ≡ (Ordering.lt, true)
    → compare_value b c ≡ (Ordering.lt, true)
    → compare_value a c ≡ (Ordering.lt, true)
lt_trans a b c h k = ground (arith, compare_value-chain a b c h, compared_valid a b c h)

IsLeast-below :
    (a b : Value) (es : Entries)
    → compare_value a b ≡ (Ordering.lt, true)
    → IsLeast b es
    → IsLeast a es
IsLeast-below a b [] h least = tt
IsLeast-below a b ((w, i) ∷ es) h least = (lt_trans a b w h least.0, IsLeast-below a b es h least.1)

with_entry-IsLeast :
    (k v : Value) (id : ℕ) (es : Entries)
    → compare_value k v ≡ (Ordering.lt, true)
    → IsLeast k es
    → IsLeast k (with_entry v id es)
unfolding with_entry
with_entry-IsLeast k v id [] h least = (h, tt)
with_entry-IsLeast k v id ((w, i) ∷ es) h least = elim (Bool-cases (is_lt (compare_value v w))) [
  | inl on ↦ rw on (h, least)
  | inr off ↦ rw off (least.0, with_entry-IsLeast k v id es h least.1)
]

pub with_entry-Keys :
    (ty : DataType) (v : Value) (id : ℕ) (es : Entries)
    → IsKey ty v
    → Keys ty es
    → Keys ty (with_entry v id es)
unfolding with_entry
with_entry-Keys ty v id [] key keys = (key, tt)
with_entry-Keys ty v id ((w, i) ∷ es) key keys = elim (Bool-cases (is_lt (compare_value v w))) [
  | inl on ↦ rw on (key, keys)
  | inr off ↦ rw off (keys.0, with_entry-Keys ty v id es key keys.1)
]

pub with_entry-Ascends :
    (ty : DataType) (v : Value) (id : ℕ) (es : Entries)
    → IsKey ty v
    → Keys ty es
    → lookup_entry es v ≡ none
    → Ascends es
    → Ascends (with_entry v id es)
unfolding with_entry lookup_entry
with_entry-Ascends ty v id [] key keys free up = (tt, tt)
with_entry-Ascends ty v id ((w, i) ∷ es) key keys free up =
    elim (Bool-cases (is_lt (compare_value v w))) [
      | inl on ↦
          let less : compare_value v w ≡ (Ordering.lt, true) =
            ground (arith, on, keys-valid ty v w key keys.0) in
          rw on ((less, IsLeast-below v w es less up.0), up)
      | inr off ↦
          let more : compare_value w v ≡ (Ordering.lt, true) = ground (
            arith,
            off,
            keys-valid ty v w key keys.0,
            compare_value-flip v w,
            compare_value-eq v w,
            eq_value_iff w v,
          ) in
          rw off (
            with_entry-IsLeast w v id es more up.0,
            with_entry-Ascends ty v id es key keys.1 (ground arith) up.1,
          )
    ]

pub lookup_entry-with_entry :
    (v k : Value) (id : ℕ) (es : Entries)
    → lookup_entry es v ≡ none
    → lookup_entry (with_entry v id es) k ≡ (if eq_value v k then some id else lookup_entry es k)
unfolding with_entry lookup_entry
lookup_entry-with_entry v k id [] free = refl
lookup_entry-with_entry v k id ((w, i) ∷ es) free =
    ground (
      arith,
      lookup_entry-with_entry v k id es,
      eq_value_iff w v,
      eq_value_iff w k,
      eq_value_iff v k,
    )

without-IsLeast : (k v : Value) (es : Entries) → IsLeast k es → IsLeast k (without v es)
unfolding without
without-IsLeast k v [] least = tt
without-IsLeast k v ((w, i) ∷ es) least = elim (Bool-cases (eq_value w v)) [
  | inl on ↦ rw on (without-IsLeast k v es least.1)
  | inr off ↦ rw off (least.0, without-IsLeast k v es least.1)
]

pub without-Keys : (ty : DataType) (v : Value) (es : Entries) → Keys ty es → Keys ty (without v es)
unfolding without
without-Keys ty v [] keys = tt
without-Keys ty v ((w, i) ∷ es) keys = elim (Bool-cases (eq_value w v)) [
  | inl on ↦ rw on (without-Keys ty v es keys.1)
  | inr off ↦ rw off (keys.0, without-Keys ty v es keys.1)
]

pub without-Ascends : (v : Value) (es : Entries) → Ascends es → Ascends (without v es)
unfolding without
without-Ascends v [] up = tt
without-Ascends v ((w, i) ∷ es) up = elim (Bool-cases (eq_value w v)) [
  | inl on ↦ rw on (without-Ascends v es up.1)
  | inr off ↦ rw off (without-IsLeast w v es up.0, without-Ascends v es up.1)
]

pub lookup_entry-without :
    (v k : Value) (es : Entries)
    → lookup_entry (without v es) k ≡ (if eq_value v k then none else lookup_entry es k)
unfolding without lookup_entry
lookup_entry-without v k [] = ground arith
lookup_entry-without v k ((w, i) ∷ es) =
    ground
      (arith, lookup_entry-without v k es, eq_value_iff w v, eq_value_iff w k, eq_value_iff v k)

from_place-IsLeast :
    (from : Option (Value × Bool)) (k : Value) (es : Entries)
    → IsLeast k es
    → IsLeast k (from_place from es)
unfolding from_place
from_place-IsLeast from k [] least = tt
from_place-IsLeast from k ((w, i) ∷ es) least = elim (Bool-cases (is_from from w)) [
  | inl on ↦ rw on (least.0, from_place-IsLeast from k es least.1)
  | inr off ↦ rw off (from_place-IsLeast from k es least.1)
]

pub from_place-Ascends :
    (from : Option (Value × Bool)) (es : Entries) → Ascends es → Ascends (from_place from es)
unfolding from_place
from_place-Ascends from [] up = tt
from_place-Ascends from ((w, i) ∷ es) up = elim (Bool-cases (is_from from w)) [
  | inl on ↦ rw on (from_place-IsLeast from w es up.0, from_place-Ascends from es up.1)
  | inr off ↦ rw off (from_place-Ascends from es up.1)
]

not_self : (v : Value) → compare_value v v ≢ (Ordering.lt, true)
not_self v h = ground (arith, compare_value-flip v v)

pub lookup_entry-least : (v : Value) (es : Entries) → IsLeast v es → lookup_entry es v ≡ none
unfolding lookup_entry
lookup_entry-least v [] least = refl
lookup_entry-least v ((w, i) ∷ es) least =
    ground (arith, lookup_entry-least v es least.1, eq_value_iff w v, not_self v, least.0)

pub has_entry-from_place :
    (from : Option (Value × Bool)) (v : Value) (id : ℕ) (es : Entries)
    → Ascends es
    → (has_entry v id (from_place from es) ≡ true)
      ↔ ((lookup_entry es v ≡ some id) × (is_from from v ≡ true))
unfolding from_place lookup_entry
has_entry-from_place from v id [] up = (λ h. ground arith, λ h. ground (arith, h.0))
has_entry-from_place from v id ((w, i) ∷ es) up =
    let rest = has_entry-from_place from v id es up.1 in
    elim (Bool-cases (eq_value w v)) [
      | inl same ↦
          let e : w ≡ v = (eq_value_iff w v).0 same in
          let later : lookup_entry es v ≡ none = lookup_entry-least v es (rw e at up.0) in
          (
            λ h. ground (arith, rest, same, e, later, ==_iff i id),
            λ h. ground (arith, rest, same, e, h, ==_iff i id),
          )
      | inr other ↦ (λ h. ground (arith, rest, other), λ h. ground (arith, rest, other, h))
    ]

pub from_place-IsRange :
    (ty : DataType) (from : Option (Value × Bool)) (es : Entries)
    → Ascends es
    → IsRange ty (lookup_entry es) from (from_place from es, ok tt)
from_place-IsRange ty from es up = record {
  ends = refl;
  ascends = from_place-Ascends from es up;
  holds = λ v id key. has_entry-from_place from v id es up;
}

abbrev pub list_laws : IndexLaws list_ops
list_laws = record {
  IsSound = λ ty idx. Ascends idx × Keys ty idx;
  view = lookup_entry;
  HasRoom = λ idx v id. Unit {0};
  sound_open = λ ty idx sound. refl;
  lookup_view = λ ty idx v sound key. refl;
  add_sound = λ ty idx v id sound key room free returns. (
    with_entry-Ascends ty v id idx key sound.1 free sound.0,
    with_entry-Keys ty v id idx key sound.1,
  );
  add_view = λ ty idx v k id sound key room free returns. lookup_entry-with_entry v k id idx free;
  drop_sound = λ ty idx v id b sound key there returns.
      (without-Ascends v idx sound.0, without-Keys ty v idx sound.1);
  drop_view = λ ty idx v k id b sound key there returns. lookup_entry-without v k idx;
  entries_range = λ ty idx from sound start. from_place-IsRange ty from idx sound.0;
}
