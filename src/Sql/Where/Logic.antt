-- ===== src/Sql/Where/Logic.antt =====
-- The three-valued logic of `tri_and` and `tri_or` against Kleene's.
use cw_db.Prelude.{
  Option, none, some, Ordering, Bool, true, false, ◌&&◌, ◌≡◌, refl, arith, if◌then◌else◌,
}
use cw_db.Prelude.Error.{Error, Result, ok, throw, ◌>>=◌}
use cw_db.Core.Value.{Value, null, int, str, compare_value}
use cw_db.Sql.Ast.{Expr, CompareOp, LogicalOp, column_ref, literal, compare, between, like, logical}
use cw_db.Sql.Schema.{TableSchema}
use cw_db.Sql.Where.{
  TriBool, tri, tri_and, tri_or, combine, accepts, compared, in_between, or_bad_regex, eval_like,
  eval_atom, eval_where, RegexMatch, Row,
}

-- The truth values of SQL, and Kleene's connectives.
pub data Truth : Type 0 where
  is_true is_false is_unknown : Truth

unfoldable pub kleene_and : Truth → Truth → Truth
kleene_and is_false _ = is_false
kleene_and is_true b = b
kleene_and is_unknown is_false = is_false
kleene_and is_unknown is_true = is_unknown
kleene_and is_unknown is_unknown = is_unknown

unfoldable pub kleene_or : Truth → Truth → Truth
kleene_or is_true _ = is_true
kleene_or is_false b = b
kleene_or is_unknown is_true = is_true
kleene_or is_unknown is_false = is_unknown
kleene_or is_unknown is_unknown = is_unknown

-- How the code stores a truth value.
abbrev pub stored : Truth → TriBool
stored is_true = tri true false
stored is_false = tri false false
stored is_unknown = tri false true

-- `tri_or` is Kleene's disjunction.
tri_or-kleene_or : (a b : Truth) → tri_or (stored a) (stored b) ≡ stored (kleene_or a b)
unfolding tri_or kleene_or
tri_or-kleene_or is_true b = refl
tri_or-kleene_or is_false is_true = refl
tri_or-kleene_or is_false is_false = refl
tri_or-kleene_or is_false is_unknown = refl
tri_or-kleene_or is_unknown is_true = refl
tri_or-kleene_or is_unknown is_false = refl
tri_or-kleene_or is_unknown is_unknown = refl

-- One operand is unknown and the other false.
unfoldable pub is_mixed : Truth → Truth → Bool
is_mixed is_unknown is_false = true
is_mixed is_false is_unknown = true
is_mixed _ _ = false

tri_and-kleene_and :
    (a b : Truth)
    → tri_and (stored a) (stored b) ≡ stored (if is_mixed a b then is_unknown else kleene_and a b)
unfolding tri_and kleene_and is_mixed
tri_and-kleene_and is_true is_true = refl
tri_and-kleene_and is_true is_false = refl
tri_and-kleene_and is_true is_unknown = refl
tri_and-kleene_and is_false is_true = refl
tri_and-kleene_and is_false is_false = refl
tri_and-kleene_and is_false is_unknown = refl
tri_and-kleene_and is_unknown is_true = refl
tri_and-kleene_and is_unknown is_false = refl
tri_and-kleene_and is_unknown is_unknown = refl

-- `tri_and` is Kleene's conjunction but where one operand is unknown and the other false: there
-- Kleene has false and the code has unknown. `tri_or` is Kleene's disjunction.
pub tri-kleene :
    (a b : Truth)
    → (tri_and (stored a) (stored b) ≡ stored (if is_mixed a b then is_unknown else kleene_and a b))
      × (tri_or (stored a) (stored b) ≡ stored (kleene_or a b))
tri-kleene a b = (tri_and-kleene_and a b, tri_or-kleene_or a b)

-- The WHERE clause by Kleene's logic, its atoms as in the code.
abbrev pub truth_of : TriBool → Truth
truth_of t = if t.value then is_true else if t.unknown then is_unknown else is_false

abbrev pub kleene : LogicalOp → Truth → Truth → Truth
kleene LogicalOp.and a b = kleene_and a b
kleene LogicalOp.or a b = kleene_or a b

abbrev pub map_truth : Result TriBool → Result Truth
map_truth r = r >>= λ t. ok (truth_of t)

module _ (regex_match : RegexMatch) (schema : TableSchema) (row : Row) where
  unfoldable pub truth_where : Expr → Result Truth
  truth_where (logical op lhs rhs) = do a ← truth_where lhs; b ← truth_where rhs; ok (kleene op a b)
  truth_where (compare op lhs rhs) =
      map_truth (eval_where regex_match schema row (compare op lhs rhs))
  truth_where (between v lo hi) = map_truth (eval_where regex_match schema row (between v lo hi))
  truth_where (like v p) = map_truth (eval_where regex_match schema row (like v p))
  truth_where (literal v) = map_truth (eval_where regex_match schema row (literal v))
  truth_where (column_ref name) = map_truth (eval_where regex_match schema row (column_ref name))

abbrev pub keeps : Truth → Bool
keeps is_true = true
keeps _ = false

-- The two evaluations throw alike, and agree on whether the row is kept.
pub data Agree : Result TriBool → Result Truth → Type 0 where
  agree :
      (t : TriBool) (k : Truth)
      → (t.value && t.unknown) ≡ false
      → accepts t ≡ keeps k
      → Agree (ok t) (ok k)
  both_throw : (e : Error) → Agree (throw e) (throw e)

-- A truth value with its flags exclusive.
abbrev IsProper : Result TriBool → Type 0
IsProper (ok t) = (t.value && t.unknown) ≡ false
IsProper (throw e) = Unit {0}

Agree-map : (r : Result TriBool) → IsProper r → Agree r (map_truth r)
Agree-map (ok t) h = agree t (truth_of t) h (ground arith)
Agree-map (throw e) h = both_throw e

compared-IsProper : (c : Ordering × Bool) (op : CompareOp) → IsProper (ok (compared c op))
compared-IsProper (r, true) op = ground arith
compared-IsProper (r, false) op = refl

in_between-IsProper : (c d : Ordering × Bool) → IsProper (ok (in_between c d))
unfolding in_between
in_between-IsProper (r, true) (s, true) = ground arith
in_between-IsProper (r, true) (s, false) = refl
in_between-IsProper (r, false) (s, v) = refl

or_bad_regex-IsProper : (o : Option Bool) → IsProper (or_bad_regex o)
or_bad_regex-IsProper none = tt
or_bad_regex-IsProper (some b) = ground arith

combine-keeps :
    (op : LogicalOp) (t u : TriBool) (k l : Truth)
    → (t.value && t.unknown) ≡ false
    → accepts t ≡ keeps k
    → (u.value && u.unknown) ≡ false
    → accepts u ≡ keeps l
    → Agree (ok (combine op t u)) (ok (kleene op k l))
unfolding tri_and tri_or kleene_and kleene_or
combine-keeps LogicalOp.and t u k l pt et pu eu = agree _ _ (ground arith) (ground arith)
combine-keeps LogicalOp.or t u k l pt et pu eu = agree _ _ (ground arith) (ground arith)

combine-Agree :
    (op : LogicalOp) {r s : Result TriBool} {m n : Result Truth}
    → Agree r m
    → Agree s n
    → Agree (r >>= λ a. s >>= λ b. ok (combine op a b)) (m >>= λ a. n >>= λ b. ok (kleene op a b))
combine-Agree op (agree t k pt et) (agree u l pu eu) = combine-keeps op t u k l pt et pu eu
combine-Agree op (agree t k pt et) (both_throw e) = both_throw e
combine-Agree op (both_throw e) g = both_throw e

IsProper-bind :
    {A : Type 0} (m : Result A) (f : A → Result TriBool)
    → ((a : A) → IsProper (f a))
    → IsProper (m >>= f)
IsProper-bind (ok a) f h = h a
IsProper-bind (throw e) f h = tt

module _ (regex_match : RegexMatch) (schema : TableSchema) (row : Row) where
  like-IsProper : (v p : Value) → IsProper (eval_like regex_match v p)
  unfolding eval_like
  like-IsProper null p = refl
  like-IsProper (int a) null = refl
  like-IsProper (int a) (int b) = tt
  like-IsProper (int a) (str s) = tt
  like-IsProper (str s) null = refl
  like-IsProper (str s) (int b) = tt
  like-IsProper (str s) (str p) = or_bad_regex-IsProper (regex_match p s)

  compare-IsProper :
      (op : CompareOp) (a b : Expr) → IsProper (eval_where regex_match schema row (compare op a b))
  unfolding eval_where
  compare-IsProper op a b =
      IsProper-bind (eval_atom schema row a) _
        λ l. IsProper-bind (eval_atom schema row b) _ λ r. compared-IsProper (compare_value l r) op

  between-IsProper :
      (v lo hi : Expr) → IsProper (eval_where regex_match schema row (between v lo hi))
  unfolding eval_where
  between-IsProper v lo hi = IsProper-bind (eval_atom schema row v) _ λ x.
      IsProper-bind (eval_atom schema row lo) _ λ l.
        IsProper-bind (eval_atom schema row hi) _
          λ h. in_between-IsProper (compare_value x l) (compare_value x h)

  like_where-IsProper : (v p : Expr) → IsProper (eval_where regex_match schema row (like v p))
  unfolding eval_where
  like_where-IsProper v p =
      IsProper-bind (eval_atom schema row v) _
        λ x. IsProper-bind (eval_atom schema row p) _ λ y. like-IsProper x y

  logical-Agree :
      (op : LogicalOp) (lhs rhs : Expr)
      → Agree (eval_where regex_match schema row lhs) (truth_where regex_match schema row lhs)
      → Agree (eval_where regex_match schema row rhs) (truth_where regex_match schema row rhs)
      → Agree
          (eval_where regex_match schema row (logical op lhs rhs))
          (truth_where regex_match schema row (logical op lhs rhs))
  unfolding eval_where truth_where
  logical-Agree op lhs rhs a b = combine-Agree op a b

  -- For every WHERE clause and row the evaluation of the code and that by Kleene's logic throw the
  -- same error, or both give a value; then the code's flags `value` and `unknown` are not both set,
  -- and the code keeps the row exactly when Kleene's value is true.
  pub eval_where-Agree :
      (e : Expr)
      → Agree (eval_where regex_match schema row e) (truth_where regex_match schema row e)
  unfolding truth_where
  eval_where-Agree (logical op lhs rhs) =
      logical-Agree op lhs rhs (eval_where-Agree lhs) (eval_where-Agree rhs)
  eval_where-Agree (compare op a b) = Agree-map _ (compare-IsProper op a b)
  eval_where-Agree (between v lo hi) = Agree-map _ (between-IsProper v lo hi)
  eval_where-Agree (like v p) = Agree-map _ (like_where-IsProper v p)
  eval_where-Agree (literal v) = unfold eval_where in both_throw _
  eval_where-Agree (column_ref name) = unfold eval_where in both_throw _
