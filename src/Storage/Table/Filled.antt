-- ===== src/Storage/Table/Filled.antt =====
-- The rows that `materialize` of src/storage/table.cpp builds.
use cw_db.Prelude.{
  ℕ, zero, suc, ◌<◌, ◌≡◌, refl, Bool, true, false, List, [], ◌∷◌, Option, none, some, inl, inr,
  ◌==◌, if◌then◌else◌, length, get_elem?, set, length-set, replicate, length-replicate, arith, ap,
  ap₂, sym, ◌∙◌, ◌+◌, Option-cases, ==_iff,
}
use cw_db.Prelude.Error.{ok}
use cw_db.Core.Value.{Value, null}
use cw_db.Sql.Schema.{ColumnDef, TableSchema}
use cw_db.Sql.Where.{Row}
use cw_db.Storage.Pager.Ids.{mem, Distinct}
use cw_db.Storage.Table.{fill_given, fill_rest, materialize}

-- The value that the statement gives to a column, by its position.
unfoldable pub given : ℕ → List ℕ → List Value → Option Value
given i (pos ∷ ps) (v ∷ vs) = if pos == i then some v else given i ps vs
given i _ _ = none

-- The value of a column: the one given, else the default, else NULL.
abbrev pub cell : ColumnDef → Option Value → Value
cell c none = elim c.has_default [ true ↦ c.default_value | false ↦ null ]
cell c (some v) = v

unfoldable pub filled : (ℕ → Option Value) → ℕ → TableSchema → Row
filled f i [] = []
filled f i (c ∷ cs) = cell c (f i) ∷ filled f (suc i) cs

pub get_elem?-set {ℓ} :
    {A : Type ℓ} (xs : List A) (i j : ℕ) (v : A)
    → get_elem? (set xs i v) j ≡ (
        if i == j
        then (elim (get_elem? xs j) [ none ↦ none | some _ ↦ some v ])
        else get_elem? xs j)
get_elem?-set [] i j v = ground arith
get_elem?-set (x ∷ xs) zero zero v = refl
get_elem?-set (x ∷ xs) zero (suc j) v = ground arith
get_elem?-set (x ∷ xs) (suc i) zero v = ground arith
get_elem?-set (x ∷ xs) (suc i) (suc j) v =
    ground (arith, get_elem?-set xs i j v, ==_iff i j, ==_iff (suc i) (suc j))

get_elem?-some {ℓ} :
    {A : Type ℓ} (xs : List A) (i : ℕ) → i < length xs → (a : A) × (get_elem? xs i ≡ some a)
get_elem?-some [] i h = absurd (omega arith)
get_elem?-some (x ∷ xs) zero h = (x, refl)
get_elem?-some (x ∷ xs) (suc i) h = get_elem?-some xs i (omega arith)

get_elem?-bound {ℓ} :
    {A : Type ℓ} (xs : List A) (i : ℕ) (a : A) → get_elem? xs i ≡ some a → i < length xs
get_elem?-bound [] i a h = absurd (ground arith)
get_elem?-bound (x ∷ xs) zero a h = omega arith
get_elem?-bound (x ∷ xs) (suc i) a h = omega (arith, get_elem?-bound xs i a h)

get_elem?-replicate {ℓ} :
    {A : Type ℓ} (n i : ℕ) (a : A) → i < n → get_elem? (replicate n a) i ≡ some a
get_elem?-replicate zero i a h = absurd (omega arith)
get_elem?-replicate (suc n) zero a h = refl
get_elem?-replicate (suc n) (suc i) a h = get_elem?-replicate n i a (omega arith)

-- What the state of the first loop has for a column.
abbrev where_taken : Option Bool → Option Value → Option Value
where_taken none v = none
where_taken (some false) v = none
where_taken (some true) v = v

abbrev seen : List Bool → Row → ℕ → Option Value
seen assigned row i = where_taken (get_elem? assigned i) (get_elem? row i)

abbrev or_given : Option Value → Option Value → Option Value
or_given none later = later
or_given (some v) later = some v

seen-set :
    (assigned : List Bool) (row : Row) (pos i : ℕ) (v : Value)
    → length assigned ≡ length row
    → get_elem? assigned pos ≡ some false
    → seen (set assigned pos true) (set row pos v) i
      ≡ (if pos == i then some v else seen assigned row i)
seen-set assigned row pos i v same free =
    let (old, there) =
      get_elem?-some row pos (omega (arith, get_elem?-bound assigned pos false free)) in
    ground (arith, get_elem?-set assigned pos i true, get_elem?-set row pos i v, ==_iff pos i)

fill_given-seen :
    (schema : TableSchema) (ps : List ℕ) (vs : List Value) (assigned : List Bool) (row : Row)
    → length ps ≡ length vs
    → length assigned ≡ length row
    → Distinct ps
    → ((p : ℕ) → mem p ps ≡ true → get_elem? assigned p ≡ some false)
    → (assigned' : List Bool) × (row' : Row) × (fill_given schema ps vs (assigned, row)
        ≡ ok (assigned', row'))
      × ((i : ℕ) → seen assigned' row' i ≡ or_given (seen assigned row i) (given i ps vs))
      × (length assigned' ≡ length assigned)
      × (length row' ≡ length row)
unfolding fill_given given mem
fill_given-seen schema [] vs assigned row lens same d free =
    (assigned, row, refl, λ i. ground arith, refl, refl)
fill_given-seen schema (p ∷ ps) [] assigned row lens same d free = absurd (omega arith)
fill_given-seen schema (p ∷ ps) (v ∷ vs) assigned row lens same d free =
    let here : get_elem? assigned p ≡ some false = free p (ground (arith, ==_iff p p)) in
    let next_assigned = set assigned p true in
    let next_row = set row p v in
    let (a, r, e, all, la, lr) =
      fill_given-seen schema ps vs next_assigned next_row (omega arith)
        (omega (arith, length-set assigned p true, length-set row p v)) d.1
        (λ q h. ground (arith, get_elem?-set assigned p q true, free q, ==_iff p q)) in
    (
      a,
      r,
      rw here e,
      λ i. ground (arith, all i, seen-set assigned row p i v same here, here, ==_iff p i),
      la ∙ length-set assigned p true,
      lr ∙ length-set row p v,
    )

fill_rest-filled :
    (cs : TableSchema) (assigned : List Bool) (row : Row) (f : ℕ → Option Value) (i : ℕ)
    → length assigned ≡ length cs
    → length row ≡ length cs
    → ((j : ℕ) → seen assigned row j ≡ f (i + j))
    → fill_rest cs assigned row ≡ filled f i cs
unfolding fill_rest filled
fill_rest-filled [] assigned [] f i la lr all = refl
fill_rest-filled [] assigned (v ∷ vs) f i la lr all = absurd (omega arith)
fill_rest-filled (c ∷ cs) [] row f i la lr all = absurd (omega arith)
fill_rest-filled (c ∷ cs) (a ∷ as_) [] f i la lr all = absurd (omega arith)
fill_rest-filled (c ∷ cs) (a ∷ as_) (v ∷ vs) f i la lr all =
    let first : where_taken (some a) (some v) ≡ f i = all 0 ∙ ap f (omega arith) in
    let tail =
      fill_rest-filled cs as_ vs f (suc i) (omega arith) (omega arith)
        (λ j. all (suc j) ∙ ap f (omega arith)) in
    ap₂ (λ x xs. x ∷ xs) (ground (arith, first)) tail

-- Columns given once each and inside the schema, with as many values: `materialize` returns the row
-- in which a column has the value given for it, else its default, else NULL.
pub materialize-filled :
    (schema : TableSchema) (positions : List ℕ) (values : List Value)
    → length positions ≡ length values
    → Distinct positions
    → ((p : ℕ) → mem p positions ≡ true → p < length schema)
    → materialize schema positions values ≡ ok (filled (λ i. given i positions values) 0 schema)
unfolding materialize
materialize-filled schema ps vs lens d inside =
    let n = length schema in
    let start = replicate n false in
    let nulls : Row = replicate n null in
    let (a, r, e, all, la, lr) =
      fill_given-seen schema ps vs start nulls lens
        (length-replicate n false ∙ sym (length-replicate {A = Value} n null)) d
        (λ p h. get_elem?-replicate n p false (inside p h)) in
    let empty : (i : ℕ) → seen start nulls i ≡ none = λ i. elim (Option-cases (get_elem? start i)) [
      | inl absent ↦ rw absent refl
      | inr (b, there) ↦
          let bound : i < n =
            omega (arith, get_elem?-bound start i b there, length-replicate n false) in
          rw (get_elem?-replicate n i false bound) refl
    ] in
    let zero_add : (j : ℕ) → given j ps vs ≡ given (0 + j) ps vs =
      λ j. ap (λ x. given x ps vs) (omega arith) in
    rw (lens, e)
      (ground (
        arith,
        ap ok (
            fill_rest-filled schema a r (λ i. given i ps vs) 0 (la ∙ length-replicate n false)
              (lr ∙ length-replicate {A = Value} n null)
              (λ j. all j ∙ ap (λ x. or_given x (given j ps vs)) (empty j) ∙ zero_add j)),
      ))
