-- ===== src/Core/Value/Interned.antt =====
-- The union of the source, src/core/value.cpp: a string value is the id of a string of the pool.
-- A read through the pool may throw at an id that the pool did not give out.
use cw_db.Prelude.{
  ℕ, Bool, true, false, ◌==◌, Ordering, ◌≡◌, refl, ◌^◌, ◌<◌, length, if◌then◌else◌, arith, ap,
  Bool-cases, inl, inr, ==_iff,
}
use cw_db.Prelude.Int.{ℤ, eq_ℤ, compare_ℤ}
use cw_db.Prelude.Error.{Result, ok, ◌>>=◌}
use cw_db.Prelude.Bytes.{Bytes, compare_bytes, compare_bytes_refl, eq_bytes_iff}
use cw_db.Core.StringPool.{StringPool, intern, get}
use cw_db.Core.StringPool.Laws.{IsValid, same_id_iff, get-intern}
use cw_db.Core.Value.{Value, compare_value, eq_value}

pub data Interned : Type 0 where
  null : Interned
  int : ℤ → Interned
  str : ℕ → Interned

unfoldable pub of_str : Bytes → StringPool → StringPool × Interned
of_str s p = let (p', id) = intern s p in (p', str id)

abbrev pub compare_strings : Bytes → Bytes → Ordering × Bool
compare_strings a b = (compare_bytes a b, true)

-- `Value::compare`, which looks at the strings only if the ids differ.
unfoldable pub compare_interned : StringPool → Interned → Interned → Result (Ordering × Bool)
compare_interned p (int a) (int b) = ok (compare_ℤ a b, true)
compare_interned p (str a) (str b) =
    if a == b
    then ok (Ordering.eq, true)
    else (get a p >>= λ s. get b p >>= λ t. ok (compare_strings s t))
compare_interned p _ _ = ok (Ordering.eq, false)

-- `operator==`, which compares ids.
unfoldable pub eq_interned : Interned → Interned → Bool
eq_interned null null = true
eq_interned (int a) (int b) = eq_ℤ a b
eq_interned (str a) (str b) = a == b
eq_interned _ _ = false

-- `Shows p x v`: in the pool `p` the union `x` holds the value `v`.
pub data Shows (p : StringPool) : Interned → Value → Type 0 where
  null : Shows p Interned.null Value.null
  int : (a : ℤ) → Shows p (Interned.int a) (Value.int a)
  str : (id : ℕ) (s : Bytes) → get id p ≡ ok s → Shows p (Interned.str id) (Value.str s)

-- `of_str` makes a value that holds the given string, in a valid pool with room for its id.
pub of_str-Shows :
    (s : Bytes) (p : StringPool)
    → IsValid p
    → length p.by_id < 2 ^ 32
    → Shows (of_str s p).0 (of_str s p).1 (Value.str s)
unfolding of_str
of_str-Shows s p v small = Shows.str (intern s p).1 s (get-intern s p v small)

-- In a valid pool the comparison of unions, with its shortcut on equal ids, does not throw and is
-- the comparison of what they hold.
pub compare_interned-Shows :
    (p : StringPool) {x y : Interned} {v w : Value}
    → IsValid p
    → Shows p x v
    → Shows p y w
    → compare_interned p x y ≡ ok (compare_value v w)
unfolding compare_interned compare_value
compare_interned-Shows p ok_p (str a s h) (str b t k) = elim (Bool-cases (a == b)) [
  | inl same ↦ rw same (
      ap (λ o. ok (o, true))
        (ground
          (arith, compare_bytes_refl s, (same_id_iff p a b s t ok_p h k).0 ((==_iff a b).0 same))))
  | inr other ↦ rw (other, h, k) refl
]
compare_interned-Shows p ok_p (int a) (int b) = refl
compare_interned-Shows p ok_p null null = refl
compare_interned-Shows p ok_p null (int b) = refl
compare_interned-Shows p ok_p null (str b t k) = refl
compare_interned-Shows p ok_p (int a) null = refl
compare_interned-Shows p ok_p (int a) (str b t k) = refl
compare_interned-Shows p ok_p (str a s h) null = refl
compare_interned-Shows p ok_p (str a s h) (int b) = refl

-- In a valid pool the equality of unions, which for strings is that of ids, is the equality of what
-- they hold.
pub eq_interned-Shows :
    (p : StringPool) {x y : Interned} {v w : Value}
    → IsValid p
    → Shows p x v
    → Shows p y w
    → eq_interned x y ≡ eq_value v w
unfolding eq_interned eq_value
eq_interned-Shows p ok_p (str a s h) (str b t k) =
    ground (arith, same_id_iff p a b s t ok_p h k, eq_bytes_iff s t)
eq_interned-Shows p ok_p (int a) (int b) = refl
eq_interned-Shows p ok_p null null = refl
eq_interned-Shows p ok_p null (int b) = refl
eq_interned-Shows p ok_p null (str b t k) = refl
eq_interned-Shows p ok_p (int a) null = refl
eq_interned-Shows p ok_p (int a) (str b t k) = refl
eq_interned-Shows p ok_p (str a s h) null = refl
eq_interned-Shows p ok_p (str a s h) (int b) = refl
