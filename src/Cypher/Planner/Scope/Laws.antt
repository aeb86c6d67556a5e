-- ===== src/Cypher/Planner/Scope/Laws.antt =====
-- What the checks of variables accept and refuse.
use graphdblite.Base.{
  All, true, false, ◌||◌, List, [], ◌∷◌, ◌++◌, Bytes, ◌≡◌, ◌⊎◌, refl, sym, ap, ◌∙◌, arith, inl, inr,
  Bool-cases,
}
use graphdblite.Types.Error.{
  Result, ok, err, query, syntax_error, parse, undefined_variable, Result-cases,
}
use graphdblite.Cypher.Ast.{
  Expr, Exprs, MaybeExpr, Alternatives, Entries, literal, property, variable, parameter, binary_op,
  not_of, is_null, is_not_null, function_call, case_of, list_of, list_comprehension,
  pattern_comprehension, exists, exists_subquery, map_literal, index, dot_access, slice, quantifier,
  has_label, pattern_predicate, star, no_exprs, expr, no_expr, an_expr, no_alternatives,
  alternative, no_entries, entry,
}
use graphdblite.Cypher.Planner.Scope.{
  in_scope, check_variable, ◌next◌, check_expr_variables_inner, check_each, check_maybe,
  check_alternatives, check_pairs, collect_variables_from_expr, collect_each, expr_references_var,
  any_references, validate_expr_in_scope, validate_each_in_scope,
}
use graphdblite.Cypher.Planner.Scope.Names.{
  outer_variables, variables_of_each, variables_of_maybe, variables_of_alternatives,
  variables_of_pairs,
}

next-ok : (a b : Result (Unit {0})) → (a next b) ≡ ok tt → (a ≡ ok tt) × (b ≡ ok tt)
next-ok (ok u) b h = (refl, h)
next-ok (err e) b h = cc

in_scope-append :
    (name : Bytes) (xs ys : List Bytes)
    → in_scope name (xs ++ ys) ≡ (in_scope name xs || in_scope name ys)
in_scope-append name [] ys = refl
in_scope-append name (x ∷ xs) ys = ground (arith, in_scope-append name xs ys)

mutual
  unfolding collect_variables_from_expr collect_each expr_references_var any_references

  references :
      (e : Expr) (name : Bytes)
      → expr_references_var e name ≡ in_scope name (collect_variables_from_expr e)
  references (variable v) name = ground arith
  references (property v p) name = ground arith
  references (binary_op left op right) name =
      rw (references left name, references right name)
        (sym (
          in_scope-append name (collect_variables_from_expr left)
            (collect_variables_from_expr right)))
  references (not_of e) name = references e name
  references (is_null e) name = references e name
  references (is_not_null e) name = references e name
  references (function_call f args distinct written) name = references_each args name
  references e name = refl

  references_each :
      (es : Exprs) (name : Bytes) → any_references es name ≡ in_scope name (collect_each es)
  references_each no_exprs name = refl
  references_each (expr e es) name =
      rw (references e name, references_each es name)
        (sym (in_scope-append name (collect_variables_from_expr e) (collect_each es)))

-- expr_references_var finds exactly the variables that collect_variables_from_expr collects.
pub expr_references_var_lem :
    (e : Expr) (name : Bytes)
    → expr_references_var e name ≡ in_scope name (collect_variables_from_expr e)
expr_references_var_lem e name = references e name

mutual
  unfolding check_expr_variables_inner check_each validate_expr_in_scope validate_each_in_scope

  stricter :
      (e : Expr) (scope : List Bytes)
      → check_expr_variables_inner e scope ≡ ok tt
      → validate_expr_in_scope e scope ≡ ok tt
  stricter (variable v) scope h = h
  stricter (property v p) scope h = h
  stricter (binary_op left op right) scope h =
      let (a, b) =
        next-ok (check_expr_variables_inner left scope) (check_expr_variables_inner right scope)
          h in
      rw (stricter left scope a) (stricter right scope b)
  stricter (function_call name args distinct written) scope h = stricter_each args scope h
  stricter (not_of e) scope h = stricter e scope h
  stricter (is_null e) scope h = stricter e scope h
  stricter (is_not_null e) scope h = stricter e scope h
  stricter (list_of items) scope h = stricter_each items scope h
  stricter e scope h = refl

  stricter_each :
      (es : Exprs) (scope : List Bytes)
      → check_each es scope ≡ ok tt
      → validate_each_in_scope es scope ≡ ok tt
  stricter_each no_exprs scope h = refl
  stricter_each (expr e es) scope h =
      let (a, b) = next-ok (check_expr_variables_inner e scope) (check_each es scope) h in
      rw (stricter e scope a) (stricter_each es scope b)

-- The check of one name after the other.
abbrev check_names : List Bytes → List Bytes → Result (Unit {0})
check_names [] scope = ok tt
check_names (v ∷ vs) scope = check_variable v scope next check_names vs scope

next_assoc : (a b c : Result (Unit {0})) → (a next (b next c)) ≡ (a next b next c)
next_assoc (ok u) b c = refl
next_assoc (err e) b c = refl

next_end : (a : Result (Unit {0})) → (a next ok tt) ≡ a
next_end (ok u) = refl
next_end (err e) = refl

check_names-append :
    (xs ys scope : List Bytes)
    → check_names (xs ++ ys) scope ≡ (check_names xs scope next check_names ys scope)
check_names-append [] ys scope = refl
check_names-append (x ∷ xs) ys scope =
    rw (check_names-append xs ys scope)
      (next_assoc (check_variable x scope) (check_names xs scope) (check_names ys scope))

-- Two checks in a row are the check of both lists.
joined :
    (a b : Result (Unit {0})) (xs ys scope : List Bytes)
    → a ≡ check_names xs scope
    → b ≡ check_names ys scope
    → (a next b) ≡ check_names (xs ++ ys) scope
joined a b xs ys scope e f = rw (e, f) (sym (check_names-append xs ys scope))

joined_three :
    (a b c : Result (Unit {0})) (xs ys zs scope : List Bytes)
    → a ≡ check_names xs scope
    → b ≡ check_names ys scope
    → c ≡ check_names zs scope
    → (a next b next c) ≡ check_names (xs ++ (ys ++ zs)) scope
joined_three a b c xs ys zs scope e f g =
    rw (sym (next_assoc a b c))
      (joined a (b next c) xs (ys ++ zs) scope e (joined b c ys zs scope f g))

mutual
  unfolding check_expr_variables_inner check_each check_maybe check_alternatives check_pairs
      outer_variables variables_of_each variables_of_maybe variables_of_alternatives
      variables_of_pairs

  checked :
      (e : Expr) (scope : List Bytes)
      → check_expr_variables_inner e scope ≡ check_names (outer_variables e) scope
  checked (variable v) scope = sym (next_end (check_variable v scope))
  checked (property v p) scope = sym (next_end (check_variable v scope))
  checked (has_label v labels) scope = sym (next_end (check_variable v scope))
  checked (binary_op left op right) scope =
      joined _ _ (outer_variables left) (outer_variables right) scope (checked left scope)
        (checked right scope)
  checked (not_of e) scope = checked e scope
  checked (is_null e) scope = checked e scope
  checked (is_not_null e) scope = checked e scope
  checked (function_call name args distinct written) scope = checked_each args scope
  checked (case_of operand alternatives default) scope =
      joined_three _ _ _ (variables_of_maybe operand) (variables_of_alternatives alternatives)
        (variables_of_maybe default) scope (checked_maybe operand scope)
        (checked_alternatives alternatives scope) (checked_maybe default scope)
  checked (list_of items) scope = checked_each items scope
  checked (map_literal pairs) scope = checked_pairs pairs scope
  checked (index e i) scope =
      joined _ _ (outer_variables e) (outer_variables i) scope (checked e scope) (checked i scope)
  checked (slice e start end) scope =
      joined_three _ _ _ (outer_variables e) (variables_of_maybe start) (variables_of_maybe end)
        scope (checked e scope) (checked_maybe start scope) (checked_maybe end scope)
  checked (dot_access e key) scope = checked e scope
  checked (list_comprehension v list_expr filter map_expr) scope = checked list_expr scope
  checked (quantifier kind v list_expr predicate) scope = checked list_expr scope
  checked (literal v) scope = refl
  checked (parameter name) scope = refl
  checked star scope = refl
  checked (exists pats where_expr) scope = refl
  checked (exists_subquery stmt) scope = refl
  checked (pattern_predicate pat) scope = refl
  checked (pattern_comprehension path pat where_expr map_expr) scope = refl

  checked_each :
      (es : Exprs) (scope : List Bytes)
      → check_each es scope ≡ check_names (variables_of_each es) scope
  checked_each no_exprs scope = refl
  checked_each (expr e es) scope =
      joined _ _ (outer_variables e) (variables_of_each es) scope (checked e scope)
        (checked_each es scope)

  checked_maybe :
      (e : MaybeExpr) (scope : List Bytes)
      → check_maybe e scope ≡ check_names (variables_of_maybe e) scope
  checked_maybe no_expr scope = refl
  checked_maybe (an_expr e) scope = checked e scope

  checked_alternatives :
      (alternatives : Alternatives) (scope : List Bytes)
      → check_alternatives alternatives scope
        ≡ check_names (variables_of_alternatives alternatives) scope
  checked_alternatives no_alternatives scope = refl
  checked_alternatives (alternative cond result more) scope =
      joined_three _ _ _ (outer_variables cond) (outer_variables result)
        (variables_of_alternatives more) scope (checked cond scope) (checked result scope)
        (checked_alternatives more scope)

  checked_pairs :
      (pairs : Entries) (scope : List Bytes)
      → check_pairs pairs scope ≡ check_names (variables_of_pairs pairs) scope
  checked_pairs no_entries scope = refl
  checked_pairs (entry key e more) scope =
      joined _ _ (outer_variables e) (variables_of_pairs more) scope (checked e scope)
        (checked_pairs more scope)

-- The names are all in scope, or the first that is not stops the check.
abbrev pub Verdict : List Bytes → List Bytes → Result (Unit {0}) → Type 0
Verdict vs scope r =
    ((r ≡ ok tt) × All (λ v. in_scope v scope ≡ true) vs)
    ⊎ ((before : List Bytes) × (v : Bytes) × (after : List Bytes) × (vs ≡ before ++ v ∷ after)
        × All (λ w. in_scope w scope ≡ true) before
        × (in_scope v scope ≡ false)
        × (r ≡ err (query (syntax_error parse undefined_variable v))))

check_names-Verdict : (vs scope : List Bytes) → Verdict vs scope (check_names vs scope)
check_names-Verdict [] scope = inl (refl, tt)
check_names-Verdict (v ∷ vs) scope = elim (Bool-cases (in_scope v scope)) [
  | inr outside ↦ inr ([], v, vs, refl, tt, outside, rw outside)
  | inl inside ↦
      let step : check_names (v ∷ vs) scope ≡ check_names vs scope = rw inside refl in
      elim (check_names-Verdict vs scope) [
        | inl (done, all) ↦ inl (step ∙ done, (inside, all))
        | inr (before, w, after, found, all, outside, stopped) ↦
            inr
              (v ∷ before, w, after, ap (λ l. v ∷ l) found, (inside, all), outside, step ∙ stopped)
      ]
]

-- check_expr_variables accepts an expression, and all variables that the expression reads outside
-- the bodies of comprehensions and quantifiers, patterns and subqueries are in scope, or it fails
-- with the error that names the first of them from the left that is not in scope. What it accepts
-- validate_expr_in_scope accepts as well.
pub check_expr_variables_lem :
    (e : Expr) (scope : List Bytes)
    → Verdict (outer_variables e) scope (check_expr_variables_inner e scope)
      × ((check_expr_variables_inner e scope next validate_expr_in_scope e scope)
          ≡ check_expr_variables_inner e scope)
check_expr_variables_lem e scope =
    (rw (checked e scope) (check_names-Verdict (outer_variables e) scope), second)
  where
    second :
        (check_expr_variables_inner e scope next validate_expr_in_scope e scope)
        ≡ check_expr_variables_inner e scope
    second = elim (Result-cases (check_expr_variables_inner e scope)) [
      | inl (x, failed) ↦ rw failed
      | inr (u, done) ↦ rw (done, stricter e scope done)
    ]
