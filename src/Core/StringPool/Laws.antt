-- ===== src/Core/StringPool/Laws.antt =====
-- Interning is one to one: equal ids stand for equal strings and the other way round.
use cw_db.Prelude.{
  ℕ, zero, suc, ◌^◌, ◌<◌, ◌≡◌, refl, List, [], ◌∷◌, ◌++◌, some, none, ◌↔◌, inl, inr, ◌⊎◌, ap, ◌∙◌,
  arith, Bool-cases, length, get_elem?, length-append, Option-cases,
}
use cw_db.Prelude.Bytes.{Bytes, eq_bytes, eq_bytes_iff}
use cw_db.Prelude.Error.{ok}
use cw_db.Prelude.Map.{find, emplace, bytes_eq, find-emplace}
use cw_db.Core.StringPool.{StringPool, init, intern, get, next_id}

-- The map and the vector say the same, and the sentinel is in place.
pub record IsValid (p : StringPool) : Type 0 where
  pub nonempty : 0 < length p.by_id
  pub forward :
      (s : Bytes) (id : ℕ)
      → find s p.by_value ≡ some id
      → (0 < id) × (get_elem? p.by_id id ≡ some s)
  pub backward :
      (s : Bytes) (id : ℕ) → 0 < id → get_elem? p.by_id id ≡ some s → find s p.by_value ≡ some id

pub get_elem?-lt {ℓ} :
    {A : Type ℓ} (xs : List A) (i : ℕ) {x : A} → get_elem? xs i ≡ some x → i < length xs
get_elem?-lt [] i h = ground arith
get_elem?-lt (x ∷ xs) zero h = omega arith
get_elem?-lt (x ∷ xs) (suc i) h = omega (arith, get_elem?-lt xs i h)

get_elem?-append {ℓ} :
    {A : Type ℓ} (xs : List A) (y : A) (i : ℕ)
    → i < length xs
    → get_elem? (xs ++ (y ∷ [])) i ≡ get_elem? xs i
get_elem?-append [] y i h = absurd (omega arith)
get_elem?-append (x ∷ xs) y zero h = refl
get_elem?-append (x ∷ xs) y (suc i) h = get_elem?-append xs y i (omega arith)

get_elem?-last {ℓ} :
    {A : Type ℓ} (xs : List A) (y : A) → get_elem? (xs ++ (y ∷ [])) (length xs) ≡ some y
get_elem?-last [] y = refl
get_elem?-last (x ∷ xs) y = get_elem?-last xs y

-- `get` succeeds exactly at the ids of the vector past the sentinel.
get-inv :
    (id : ℕ) (p : StringPool) {s : Bytes}
    → get id p ≡ ok s
    → (0 < id) × (get_elem? p.by_id id ≡ some s)
unfolding get
get-inv id p h = ground arith

get_of_elem :
    (id : ℕ) (p : StringPool) {s : Bytes} → 0 < id → get_elem? p.by_id id ≡ some s → get id p ≡ ok s
unfolding get
get_of_elem id p pos h = ground (arith, get_elem?-lt p.by_id id h)

-- The pool with a string added at the end.
abbrev added : Bytes → StringPool → StringPool
added s p = record { by_value = emplace s (next_id p) p.by_value; by_id = p.by_id ++ (s ∷ []) }

elem-added :
    (s t : Bytes) (id : ℕ) (p : StringPool)
    → get_elem? (added s p).by_id id ≡ some t
    → (get_elem? p.by_id id ≡ some t) ⊎ ((id ≡ length p.by_id) × (s ≡ t))
elem-added s t id p h = elem-append p.by_id id h
  where
    elem-append :
        (xs : List Bytes) (i : ℕ)
        → get_elem? (xs ++ (s ∷ [])) i ≡ some t
        → (get_elem? xs i ≡ some t) ⊎ ((i ≡ length xs) × (s ≡ t))
    elem-append [] zero e = inr (refl, ground arith)
    elem-append [] (suc i) e = absurd (ground arith)
    elem-append (x ∷ xs) zero e = inl e
    elem-append (x ∷ xs) (suc i) e = elim (elem-append xs i e) [
      | inl a ↦ inl a
      | inr (a, b) ↦ inr (ap suc a, b)
    ]

module _ (s : Bytes) (p : StringPool) (v : IsValid p) (small : length p.by_id < 2 ^ 32) where
  next_id-eq : next_id p ≡ length p.by_id
  next_id-eq = omega arith

  added-forward :
      find s p.by_value ≡ none
      → (t : Bytes) (id : ℕ) → find t (added s p).by_value ≡ some id
      → (0 < id) × (get_elem? (added s p).by_id id ≡ some t)
  added-forward miss t id h =
      let law = find-emplace s t (next_id p) p.by_value miss in
      elim (Bool-cases (eq_bytes s t)) [
        | inl same ↦
            let e : id ≡ length p.by_id = ground (arith, law, next_id-eq) in
            (
              omega (arith, v.nonempty),
              rw e (rw ((eq_bytes_iff s t).0 same) (get_elem?-last p.by_id t)),
            )
        | inr other ↦
            let old = v.forward t id (ground (arith, law)) in
            (old.0, get_elem?-append p.by_id s id (get_elem?-lt p.by_id id old.1) ∙ old.1)
      ]

  added-backward :
      find s p.by_value ≡ none
      → (t : Bytes) (id : ℕ) → 0 < id
      → get_elem? (added s p).by_id id ≡ some t
      → find t (added s p).by_value ≡ some id
  added-backward miss t id pos h =
      let law = find-emplace s t (next_id p) p.by_value miss in
      elim (elem-added s t id p h) [
        | inl old ↦ ground (arith, law, v.backward t id pos old, eq_bytes_iff s t)
        | inr (e, same) ↦ ground (arith, law, next_id-eq, eq_bytes_iff s t)
      ]

-- The pool starts valid.
pub init-IsValid : IsValid init
unfolding find
init-IsValid = record {
  nonempty = omega arith;
  forward = λ s id h. absurd (ground arith);
  backward = λ s id pos h. absurd (sentinel id pos h);
}
  where
    sentinel : (id : ℕ) {s : Bytes} → 0 < id → get_elem? {A = Bytes} ([] ∷ []) id ≡ some s → ⊥
    sentinel zero pos h = omega arith
    sentinel (suc id) pos h = ground arith

-- Interning any string keeps the map and the vector in agreement, while ids fit in 32 bits.
pub intern-IsValid :
    (s : Bytes) (p : StringPool) → IsValid p → length p.by_id < 2 ^ 32 → IsValid (intern s p).0
unfolding intern
intern-IsValid s p v small = elim (Option-cases (find s p.by_value)) [
  | inr (id, hit) ↦ rw (hit, intern) v
  | inl miss ↦
      rw (miss, intern)
        (record {
          nonempty = omega (arith, length-append p.by_id (s ∷ []));
          forward = added-forward s p v small miss;
          backward = added-backward s p v small miss;
        })
]

-- In a valid pool with room for its id, the id that `intern` returns reads back as the string given.
pub get-intern :
    (s : Bytes) (p : StringPool)
    → IsValid p
    → length p.by_id < 2 ^ 32
    → get (intern s p).1 (intern s p).0 ≡ ok s
unfolding intern get
get-intern s p v small = elim (Option-cases (find s p.by_value)) [
  | inr (id, hit) ↦ rw (hit, intern) (let old = v.forward s id hit in get_of_elem id p old.0 old.1)
  | inl miss ↦
      rw (miss, intern)
        (rw (next_id-eq s p v small)
          (get_of_elem (length p.by_id) (added s p) v.nonempty (get_elem?-last p.by_id s)))
]

-- Ids that read back before a call of `intern` read back the same string after it.
pub get-intern_stable :
    (s t : Bytes) (id : ℕ) (p : StringPool) → get id p ≡ ok t → get id (intern s p).0 ≡ ok t
unfolding intern
get-intern_stable s t id p h = elim (Option-cases (find s p.by_value)) [
  | inr (i, hit) ↦ rw (hit, intern) h
  | inl miss ↦
      rw (miss, intern)
        (let old = get-inv id p h in
          get_of_elem id (added s p) old.0
            (get_elem?-append p.by_id s id (get_elem?-lt p.by_id id old.1) ∙ old.1))
]

-- In a valid pool two ids that read back are equal exactly when their strings are.
pub same_id_iff :
    (p : StringPool) (a b : ℕ) (s t : Bytes)
    → IsValid p
    → get a p ≡ ok s
    → get b p ≡ ok t
    → (a ≡ b) ↔ (s ≡ t)
same_id_iff p a b s t v h k =
    let u = get-inv a p h in
    let w = get-inv b p k in
    (λ e. ground arith, λ e. ground (arith, v.backward s a u.0 u.1, v.backward t b w.0 w.1))
