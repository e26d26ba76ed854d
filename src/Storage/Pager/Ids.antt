-- ===== src/Storage/Pager/Ids.antt =====
-- Lists of page ids and the keys of the cache: what the LRU list of src/storage/pager.cpp needs.
use cw_db.Prelude.{
  ℕ, ◌+◌, ◌-◌, ◌<◌, ◌≡◌, refl, Bool, true, false, ◌||◌, List, [], ◌∷◌, Option, none, some, ◌==◌,
  if◌then◌else◌, length, arith,
}
use cw_db.Prelude.Map.{find, emplace, assign, erase, nat_eq}
use cw_db.Storage.Pager.{pop_back, back?, remove}

unfoldable pub mem : ℕ → List ℕ → Bool
mem id [] = false
mem id (x ∷ xs) = x == id || mem id xs

abbrev pub Distinct : List ℕ → Type 0
Distinct [] = Unit {0}
Distinct (x ∷ xs) = (mem x xs ≡ false) × Distinct xs

pub back?-some : (xs : List ℕ) → 0 < length xs → (v : ℕ) × (back? xs ≡ some v)
unfolding back?
back?-some [] h = absurd (omega arith)
back?-some (x ∷ []) h = (x, refl)
back?-some (x ∷ y ∷ xs) h = back?-some (y ∷ xs) (omega arith)

pub mem-back? : (xs : List ℕ) (v : ℕ) → back? xs ≡ some v → mem v xs ≡ true
unfolding back? mem
mem-back? [] v h = ground arith
mem-back? (x ∷ []) v h = ground arith
mem-back? (x ∷ y ∷ xs) v h = ground (arith, mem-back? (y ∷ xs) v h)

pub mem-pop_back :
    (xs : List ℕ) (v j : ℕ)
    → Distinct xs
    → back? xs ≡ some v
    → mem j (pop_back xs) ≡ (if v == j then false else mem j xs)
unfolding back? mem pop_back
mem-pop_back [] v j d h = ground arith
mem-pop_back (x ∷ []) v j d h = ground arith
mem-pop_back (x ∷ y ∷ xs) v j d h =
    ground (arith, mem-pop_back (y ∷ xs) v j d.1 h, mem-back? (y ∷ xs) v h)

pub length-pop_back : (xs : List ℕ) → length (pop_back xs) ≡ length xs - 1
unfolding pop_back
length-pop_back [] = omega arith
length-pop_back (x ∷ []) = omega arith
length-pop_back (x ∷ y ∷ xs) = omega (arith, length-pop_back (y ∷ xs))

pub pop_back-Distinct :
    (xs : List ℕ) (v : ℕ) → Distinct xs → back? xs ≡ some v → Distinct (pop_back xs)
unfolding back? pop_back
pop_back-Distinct [] v d h = tt
pop_back-Distinct (x ∷ []) v d h = tt
pop_back-Distinct (x ∷ y ∷ xs) v d h =
    (ground (arith, mem-pop_back (y ∷ xs) v x d.1 h), pop_back-Distinct (y ∷ xs) v d.1 h)

pub mem-remove :
    (xs : List ℕ) (v j : ℕ)
    → Distinct xs
    → mem j (remove v xs) ≡ (if v == j then false else mem j xs)
unfolding mem remove
mem-remove [] v j d = ground arith
mem-remove (x ∷ xs) v j d = ground (arith, mem-remove xs v j d.1)

pub length-remove : (xs : List ℕ) (v : ℕ) → mem v xs ≡ true → length (remove v xs) + 1 ≡ length xs
unfolding mem remove
length-remove [] v h = ground arith
length-remove (x ∷ xs) v h = ground (arith, length-remove xs v)

pub remove-Distinct : (xs : List ℕ) (v : ℕ) → Distinct xs → Distinct (remove v xs)
unfolding remove
remove-Distinct [] v d = tt
remove-Distinct (x ∷ xs) v d = ground (arith, mem-remove xs v x d.1, remove-Distinct xs v d.1)

module _ {ℓ} {V : Type ℓ} where
  abbrev pub keys : List (ℕ × V) → List ℕ
  keys [] = []
  keys ((k, v) ∷ m) = k ∷ keys m

  abbrev pub is_some : Option V → Bool
  is_some none = false
  is_some (some v) = true

  pub mem-keys : (j : ℕ) (m : List (ℕ × V)) → mem j (keys m) ≡ is_some (find j m)
  unfolding mem find
  mem-keys j [] = refl
  mem-keys j ((k, v) ∷ m) = ground (arith, mem-keys j m)

  mem-erase :
      (v j : ℕ) (m : List (ℕ × V))
      → mem j (keys (erase v m)) ≡ (if v == j then false else mem j (keys m))
  unfolding mem erase
  mem-erase v j [] = ground arith
  mem-erase v j ((k, x) ∷ m) = ground (arith, mem-erase v j m)

  pub erase-Distinct : (v : ℕ) (m : List (ℕ × V)) → Distinct (keys m) → Distinct (keys (erase v m))
  unfolding erase
  erase-Distinct v [] d = tt
  erase-Distinct v ((k, x) ∷ m) d = ground (arith, mem-erase v k m, erase-Distinct v m d.1)

  erase_absent : (v : ℕ) (m : List (ℕ × V)) → mem v (keys m) ≡ false → erase v m ≡ m
  unfolding mem erase
  erase_absent v [] h = refl
  erase_absent v ((k, x) ∷ m) h = ground (arith, erase_absent v m)

  pub length-erase :
      (v : ℕ) (m : List (ℕ × V))
      → Distinct (keys m)
      → mem v (keys m) ≡ true
      → length (erase v m) + 1 ≡ length m
  unfolding mem erase
  length-erase v [] d h = ground arith
  length-erase v ((k, x) ∷ m) d h = ground (arith, length-erase v m d.1, erase_absent v m)

  pub keys-assign : (k : ℕ) (v : V) (m : List (ℕ × V)) → keys (assign k v m) ≡ keys m
  unfolding assign
  keys-assign k v [] = refl
  keys-assign k v ((j, x) ∷ m) = ground (arith, keys-assign k v m)

  pub length-assign : (k : ℕ) (v : V) (m : List (ℕ × V)) → length (assign k v m) ≡ length m
  unfolding assign
  length-assign k v [] = refl
  length-assign k v ((j, x) ∷ m) = ground (arith, length-assign k v m)

  mem-emplace :
      (k j : ℕ) (v : V) (m : List (ℕ × V))
      → mem j (keys (emplace k v m)) ≡ (k == j || mem j (keys m))
  unfolding mem emplace
  mem-emplace k j v [] = ground arith
  mem-emplace k j v ((i, x) ∷ m) = ground (arith, mem-emplace k j v m)

  pub emplace-Distinct :
      (k : ℕ) (v : V) (m : List (ℕ × V)) → Distinct (keys m) → Distinct (keys (emplace k v m))
  unfolding emplace
  emplace-Distinct k v [] d = (unfold mem in refl, tt)
  emplace-Distinct k v ((i, x) ∷ m) d =
      ground (arith, mem-emplace k i v m, emplace-Distinct k v m d.1)

  pub length-emplace :
      (k : ℕ) (v : V) (m : List (ℕ × V)) → find k m ≡ none → length (emplace k v m) ≡ length m + 1
  unfolding emplace find
  length-emplace k v [] h = omega arith
  length-emplace k v ((i, x) ∷ m) h = ground (arith, length-emplace k v m)
