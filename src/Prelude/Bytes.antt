-- ===== src/Prelude/Bytes.antt =====
-- Byte strings: a `std::string` or a page is a list of numbers below 256. Their order and equality
-- are those of `std::string`, and numbers go to and from little-endian bytes as `memcpy` does.
use Prim.Native.Nat.{ℕ, zero, suc, ◌+◌, ◌*◌, ◌/◌, ◌%◌, ◌^◌, ◌<◌, compare, Ordering}
use Prim.Native.Char.{code}
use Prim.Native.String.{String}
use mathlib.Core.Path.{◌≡◌, refl, ap, ◌∙◌}
use mathlib.Core.Logic.{◌↔◌}
use mathlib.Core.Bool.{Bool, true, false}
use mathlib.Core.List.{List, [], ◌∷◌, ◌++◌}
use native.Mathlib.Omega.{arith}
use cw_db.Prelude.Lists.{length, take, drop}

abbrev pub Bytes : Type 0
Bytes = List ℕ

-- The bytes of an ASCII text.
abbrev pub codes : String → Bytes
codes String.[] = []
codes (String.◌∷◌ c s) = code c ∷ codes s

-- `a < b`, `a == b` and `a > b` of `std::string`: the bytes in lexicographic order.
unfoldable pub compare_bytes : Bytes → Bytes → Ordering
compare_bytes [] [] = Ordering.eq
compare_bytes [] (y ∷ ys) = Ordering.lt
compare_bytes (x ∷ xs) [] = Ordering.gt
compare_bytes (x ∷ xs) (y ∷ ys) =
    let rest = compare_bytes xs ys in
    elim (compare x y) [
      | Ordering.lt ↦ Ordering.lt
      | Ordering.eq ↦ rest
      | Ordering.gt ↦ Ordering.gt
    ]

abbrev pub eq_bytes : Bytes → Bytes → Bool
eq_bytes a b = elim (compare_bytes a b) [ Ordering.eq ↦ true | _ ↦ false ]

pub compare_bytes_refl : (a : Bytes) → compare_bytes a a ≡ Ordering.eq
unfolding compare_bytes
compare_bytes_refl [] = refl
compare_bytes_refl (x ∷ xs) = ground (arith, compare_bytes_refl xs)

pub compare_bytes-eq : (a b : Bytes) → compare_bytes a b ≡ Ordering.eq → a ≡ b
unfolding compare_bytes
compare_bytes-eq [] [] h = refl
compare_bytes-eq [] (y ∷ ys) h = ground arith
compare_bytes-eq (x ∷ xs) [] h = ground arith
compare_bytes-eq (x ∷ xs) (y ∷ ys) h = ground (arith, compare_bytes-eq xs ys)

pub eq_bytes_iff : (a b : Bytes) → (eq_bytes a b ≡ true) ↔ (a ≡ b)
eq_bytes_iff a b =
    (λ h. compare_bytes-eq a b (ground arith), λ e. ground (arith, compare_bytes_refl a))

-- `memcpy(dst, &v, n)` on a little-endian machine: the low `n` bytes, lowest first.
unfoldable pub le_bytes : ℕ → ℕ → Bytes
le_bytes zero v = []
le_bytes (suc n) v = (v % 256) ∷ le_bytes n (v / 256)

-- `memcpy(&v, src, n)`
unfoldable pub of_le : Bytes → ℕ
of_le [] = 0
of_le (b ∷ bs) = b + 256 * of_le bs

pub length-le_bytes : (n v : ℕ) → length (le_bytes n v) ≡ n
unfolding le_bytes
length-le_bytes zero v = refl
length-le_bytes (suc n) v = ap suc (length-le_bytes n (v / 256))

pub of_le-le_bytes : (n v : ℕ) → v < 256 ^ n → of_le (le_bytes n v) ≡ v
unfolding le_bytes of_le
of_le-le_bytes zero v h = omega arith
of_le-le_bytes (suc n) v h = omega (arith, of_le-le_bytes n (v / 256) (omega arith))

-- A field of `n` bytes at the front of a buffer, and what follows it.
pub take-le_bytes : (n v : ℕ) (rest : Bytes) → take n (le_bytes n v ++ rest) ≡ le_bytes n v
unfolding le_bytes
take-le_bytes zero v rest = refl
take-le_bytes (suc n) v rest = ap (◌∷◌ (v % 256)) (take-le_bytes n (v / 256) rest)

pub drop-le_bytes : (n v : ℕ) (rest : Bytes) → drop n (le_bytes n v ++ rest) ≡ rest
unfolding le_bytes
drop-le_bytes zero v rest = refl
drop-le_bytes (suc n) v rest = drop-le_bytes n (v / 256) rest

pub of_le-take-le_bytes :
    (n v : ℕ) (rest : Bytes) → v < 256 ^ n → of_le (take n (le_bytes n v ++ rest)) ≡ v
of_le-take-le_bytes n v rest h = ap of_le (take-le_bytes n v rest) ∙ of_le-le_bytes n v h
