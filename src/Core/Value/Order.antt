-- ===== src/Core/Value/Order.antt =====
-- The comparison of values, `Value::compare` of src/core/value.cpp, as an order.
use cw_db.Prelude.{true, Ordering, ◌↔◌, ◌≡◌, ◌≢◌, refl, [], ◌∷◌, arith, ap}
use cw_db.Prelude.Int.{ℤ, compare_ℤ, compare_ℤ-eq, eq_ℤ_iff}
use cw_db.Prelude.Bytes.{Bytes, compare_bytes, compare_bytes-eq, eq_bytes_iff}
use cw_db.Core.Value.{Value, null, int, str, compare_value, eq_value}

abbrev pub flip_ordering : Ordering → Ordering
flip_ordering Ordering.lt = Ordering.gt
flip_ordering Ordering.eq = Ordering.eq
flip_ordering Ordering.gt = Ordering.lt

compare_bytes-flip : (a b : Bytes) → compare_bytes b a ≡ flip_ordering (compare_bytes a b)
unfolding compare_bytes
compare_bytes-flip [] [] = refl
compare_bytes-flip [] (y ∷ ys) = refl
compare_bytes-flip (x ∷ xs) [] = refl
compare_bytes-flip (x ∷ xs) (y ∷ ys) = ground (arith, compare_bytes-flip xs ys)

compare_ℤ-flip : (a b : ℤ) → compare_ℤ b a ≡ flip_ordering (compare_ℤ a b)
compare_ℤ-flip a b = ground arith

-- With the operands swapped the comparison is as valid, and its result is turned round.
pub compare_value-flip :
    (a b : Value) → compare_value b a ≡ (flip_ordering (compare_value a b).0, (compare_value a b).1)
unfolding compare_value
compare_value-flip (int a) (int b) = ap (λ o. (o, true)) (compare_ℤ-flip a b)
compare_value-flip (str a) (str b) = ap (λ o. (o, true)) (compare_bytes-flip a b)
compare_value-flip null null = refl
compare_value-flip null (int b) = refl
compare_value-flip null (str b) = refl
compare_value-flip (int a) null = refl
compare_value-flip (int a) (str b) = refl
compare_value-flip (str a) null = refl
compare_value-flip (str a) (int b) = refl

-- Values that compare as equal, validly, are equal.
pub compare_value-eq : (a b : Value) → compare_value a b ≡ (Ordering.eq, true) → a ≡ b
unfolding compare_value
compare_value-eq (int a) (int b) h = ap int (compare_ℤ-eq a b (ground arith))
compare_value-eq (str a) (str b) h = ap str (compare_bytes-eq a b (ground arith))
compare_value-eq null null h = ground arith
compare_value-eq null (int b) h = ground arith
compare_value-eq null (str b) h = ground arith
compare_value-eq (int a) null h = ground arith
compare_value-eq (int a) (str b) h = ground arith
compare_value-eq (str a) null h = ground arith
compare_value-eq (str a) (int b) h = ground arith

-- `operator==` holds exactly for equal values.
pub eq_value_iff : (a b : Value) → (eq_value a b ≡ true) ↔ (a ≡ b)
unfolding eq_value
eq_value_iff null null = (λ h. refl, λ h. refl)
eq_value_iff (int a) (int b) =
    (λ h. ap int ((eq_ℤ_iff a b).0 h), λ h. (eq_ℤ_iff a b).1 (ground arith))
eq_value_iff (str a) (str b) =
    (λ h. ap str ((eq_bytes_iff a b).0 h), λ h. (eq_bytes_iff a b).1 (ground arith))
eq_value_iff null (int b) = (λ h. ground arith, λ h. ground arith)
eq_value_iff null (str b) = (λ h. ground arith, λ h. ground arith)
eq_value_iff (int a) null = (λ h. ground arith, λ h. ground arith)
eq_value_iff (int a) (str b) = (λ h. ground arith, λ h. ground arith)
eq_value_iff (str a) null = (λ h. ground arith, λ h. ground arith)
eq_value_iff (str a) (int b) = (λ h. ground arith, λ h. ground arith)

compare_bytes-chain :
    (a b c : Bytes)
    → compare_bytes a b ≡ Ordering.lt
    → compare_bytes a c ≢ Ordering.lt
    → compare_bytes b c ≡ Ordering.gt
unfolding compare_bytes
compare_bytes-chain [] [] c h k = ground arith
compare_bytes-chain [] (y ∷ ys) [] h k = refl
compare_bytes-chain [] (y ∷ ys) (z ∷ zs) h k = absurd (k refl)
compare_bytes-chain (x ∷ xs) [] c h k = ground arith
compare_bytes-chain (x ∷ xs) (y ∷ ys) [] h k = refl
compare_bytes-chain (x ∷ xs) (y ∷ ys) (z ∷ zs) h k = ground (arith, compare_bytes-chain xs ys zs)

-- A value that is behind another, which is not before a third, is behind the third.
pub compare_value-chain :
    (a b c : Value)
    → compare_value a b ≡ (Ordering.lt, true)
    → compare_value a c ≢ (Ordering.lt, true)
    → (compare_value a c).1 ≡ true
    → compare_value b c ≡ (Ordering.gt, true)
unfolding compare_value
compare_value-chain (int a) (int b) (int c) h k valid = ground arith
compare_value-chain (str a) (str b) (str c) h k valid =
    ap (λ o. (o, true)) (compare_bytes-chain a b c (ground arith) (λ e. k (ap (λ o. (o, true)) e)))
compare_value-chain a null c h k valid = ground arith
compare_value-chain null b c h k valid = ground arith
compare_value-chain a b null h k valid = ground arith
compare_value-chain (int a) (str b) c h k valid = ground arith
compare_value-chain (str a) (int b) c h k valid = ground arith
compare_value-chain (int a) b (str c) h k valid = ground arith
compare_value-chain (str a) b (int c) h k valid = ground arith
