-- ===== src/Cypher/Cacheable/Laws.antt =====
-- When a plan is cacheable.
use graphdblite.Base.{
  Bool, true, false, not, ◌&&◌, ◌||◌, ◌≡◌, refl, sym, ◌⊎◌, inl, inr, Bool-cases, ◌↔◌, List, [], ◌∷◌,
  ◌++◌, All, arith, Bytes,
}
use graphdblite.Cypher.Ast.{
  Expr, Exprs, MaybeExpr, Alternatives, Entries, Patterns, WithClause, IntermediateClauses, Clauses,
  Tail, Ending, Statement, Statements, literal, property, variable, parameter, binary_op, not_of,
  is_null, is_not_null, function_call, case_of, list_of, list_comprehension, pattern_comprehension,
  exists, exists_subquery, map_literal, index, dot_access, slice, quantifier, has_label,
  pattern_predicate, star, no_exprs, expr, no_expr, an_expr, no_alternatives, alternative,
  no_entries, entry, pattern_of, no_patterns, pattern_in, with_clause, with_between, unwind_between,
  match_between, no_intermediate, intermediate, match_step, create_step, merge_step, with_step,
  unwind_step, set_step, remove_step, call_step, delete_step, no_clauses, clause, tail_of,
  ending_of, match_all_of, create_all_of, match_and_create, match_and_merge, delete_all_of,
  set_all_of, remove_all_of, merge_all_of, unwind_return, unwind_create, unwind_each, return_all_of,
  clauses_of, match_statement, create_statement, match_create, match_merge, delete_statement,
  set_statement, remove_statement, merge_statement, unwind_statement, return_statement,
  multi_clause, explain, union, create_index, drop_index, call, no_statements, statement,
}
use graphdblite.Cypher.Params.References.{
  expr_params, exprs_params, maybe_params, alternatives_params, props_params, patterns_params,
}
use graphdblite.Cypher.Cacheable.{
  expr_has_param, any_has_param, expr_opt_has_param, alternatives_have_param, pairs_have_param,
  skip_limit_has_param, with_has_param, no_clause_blocks, intermediates_block_caching,
  is_plan_cacheable, all_cacheable, free_tail, free_ending,
}
use graphdblite.Cypher.Cacheable.Flat.{is_flat, flat_params}
use graphdblite.Cypher.Cacheable.Paging.{
  pages, with_pages, tail_pages, ending_pages, between_pages, clauses_pages, calls_in,
  statement_pages, union_pages, calls, any_calls,
}

abbrev is_some : List Bytes → Bool
is_some [] = false
is_some (x ∷ xs) = true

is_some-append : (xs ys : List Bytes) → is_some (xs ++ ys) ≡ (is_some xs || is_some ys)
is_some-append [] ys = refl
is_some-append (x ∷ xs) ys = refl

-- Whether an expression has a parameter is whether its references are any.
record Finds (b : Bool) (names : List Bytes) : Type 0 where
  same : b ≡ is_some names

none_found : Finds false []
none_found = record { same = refl }

infixl 20 ◌or_in◌
◌or_in◌ : {a b : Bool} {xs ys : List Bytes} → Finds a xs → Finds b ys → Finds (a || b) (xs ++ ys)
◌or_in◌ {xs = xs} {ys = ys} p q = record { same = rw (p.same, q.same) (sym (is_some-append xs ys)) }

patterns-none : (pats : Patterns) → patterns_params false pats ≡ []
unfolding patterns_params
patterns-none no_patterns = refl
patterns-none (pattern_in (pattern_of els path mode) more) = patterns-none more

unseen_patterns : (pats : Patterns) → Finds false (patterns_params false pats)
unseen_patterns pats = record { same = rw (patterns-none pats) refl }

mutual
  unfolding expr_has_param any_has_param expr_opt_has_param alternatives_have_param pairs_have_param
      expr_params exprs_params maybe_params alternatives_params props_params
      graphdblite.Cypher.Params.References.pattern_params

  expr-Finds : (x : Expr) → Finds (expr_has_param x) (expr_params false x)
  expr-Finds (parameter name) = record { same = refl }
  expr-Finds (binary_op left op right) = expr-Finds left or_in expr-Finds right
  expr-Finds (not_of e) = expr-Finds e
  expr-Finds (is_null e) = expr-Finds e
  expr-Finds (is_not_null e) = expr-Finds e
  expr-Finds (function_call name args distinct written) = exprs-Finds args
  expr-Finds (case_of operand alternatives default) =
      maybe-Finds operand or_in alternatives-Finds alternatives or_in maybe-Finds default
  expr-Finds (list_of items) = exprs-Finds items
  expr-Finds (list_comprehension v list_expr filter map_expr) =
      expr-Finds list_expr or_in maybe-Finds filter or_in maybe-Finds map_expr
  expr-Finds (pattern_comprehension path (pattern_of els p mode) where_expr map_expr) =
      none_found or_in maybe-Finds where_expr or_in expr-Finds map_expr
  expr-Finds (quantifier kind v list_expr predicate) =
      expr-Finds list_expr or_in expr-Finds predicate
  expr-Finds (exists pats where_expr) = unseen_patterns pats or_in maybe-Finds where_expr
  expr-Finds (exists_subquery stmt) = none_found
  expr-Finds (map_literal pairs) = pairs-Finds pairs
  expr-Finds (index e i) = expr-Finds e or_in expr-Finds i
  expr-Finds (dot_access e key) = expr-Finds e
  expr-Finds (slice e start end) = expr-Finds e or_in maybe-Finds start or_in maybe-Finds end
  expr-Finds (literal v) = none_found
  expr-Finds (property v p) = none_found
  expr-Finds (variable v) = none_found
  expr-Finds (has_label v labels) = none_found
  expr-Finds (pattern_predicate pat) = none_found
  expr-Finds star = none_found

  exprs-Finds : (x : Exprs) → Finds (any_has_param x) (exprs_params false x)
  exprs-Finds no_exprs = none_found
  exprs-Finds (expr e es) = expr-Finds e or_in exprs-Finds es

  maybe-Finds : (x : MaybeExpr) → Finds (expr_opt_has_param x) (maybe_params false x)
  maybe-Finds no_expr = none_found
  maybe-Finds (an_expr e) = expr-Finds e

  alternatives-Finds :
      (x : Alternatives) → Finds (alternatives_have_param x) (alternatives_params false x)
  alternatives-Finds no_alternatives = none_found
  alternatives-Finds (alternative cond result more) =
      expr-Finds cond or_in expr-Finds result or_in alternatives-Finds more

  pairs-Finds : (x : Entries) → Finds (pairs_have_param x) (props_params false x)
  pairs-Finds no_entries = none_found
  pairs-Finds (entry key e more) = expr-Finds e or_in pairs-Finds more

-- No expression of the list has a parameter
abbrev free : List Expr → Bool
free [] = true
free (e ∷ es) = not (expr_has_param e) && free es

free-append : (xs ys : List Expr) → free (xs ++ ys) ≡ (free xs && free ys)
free-append [] ys = refl
free-append (x ∷ xs) ys = ground (arith, free-append xs ys)

pages-free :
    (skip limit : MaybeExpr) → not (skip_limit_has_param skip limit) ≡ free (pages skip limit)
unfolding skip_limit_has_param
pages-free no_expr no_expr = refl
pages-free no_expr (an_expr e) = ground arith
pages-free (an_expr e) no_expr = ground arith
pages-free (an_expr e) (an_expr f) = ground arith

tail-free : (t : Tail) → free_tail t ≡ free (tail_pages t)
tail-free (tail_of order_by skip limit) = pages-free skip limit

ending-free : (t : Ending) → free_ending t ≡ free (ending_pages t)
ending-free (ending_of r order_by skip limit) = pages-free skip limit

with-free : (w : WithClause) → not (with_has_param w) ≡ free (with_pages w)
unfolding with_has_param
with-free (with_clause items distinct order_by skip limit where_expr) = pages-free skip limit

between-free :
    (between : IntermediateClauses)
    → not (intermediates_block_caching between) ≡ free (between_pages between)
unfolding intermediates_block_caching
between-free no_intermediate = refl
between-free (intermediate (with_between w) more) =
    ground (arith, with-free w, between-free more, free-append (with_pages w) (between_pages more))
between-free (intermediate (unwind_between u) more) = between-free more
between-free (intermediate (match_between m) more) = between-free more

clauses-free : (cs : Clauses) → no_clause_blocks cs ≡ (not (calls_in cs) && free (clauses_pages cs))
unfolding no_clause_blocks
clauses-free no_clauses = refl
clauses-free (clause (with_step w) more) =
    ground (arith, with-free w, clauses-free more, free-append (with_pages w) (clauses_pages more))
clauses-free (clause (match_step pats os where_expr) more) = clauses-free more
clauses-free (clause (create_step pats) more) = clauses-free more
clauses-free (clause (merge_step pat on_create on_match) more) = clauses-free more
clauses-free (clause (unwind_step u) more) = clauses-free more
clauses-free (clause (set_step items) more) = clauses-free more
clauses-free (clause (remove_step items) more) = clauses-free more
clauses-free (clause (call_step name args implicit yields all) more) = refl
clauses-free (clause (delete_step es detach) more) = clauses-free more

tail_between :
    (t : Tail) (between : IntermediateClauses)
    → (free_tail t && not (intermediates_block_caching between))
      ≡ free (tail_pages t ++ between_pages between)
tail_between t between =
    rw (tail-free t, between-free between)
      (sym (free-append (tail_pages t) (between_pages between)))

ending_between :
    (t : Ending) (between : IntermediateClauses)
    → (free_ending t && not (intermediates_block_caching between))
      ≡ free (ending_pages t ++ between_pages between)
ending_between t between =
    rw (ending-free t, between-free between)
      (sym (free-append (ending_pages t) (between_pages between)))

mutual
  unfolding is_plan_cacheable all_cacheable statement_pages union_pages calls any_calls

  statement_cacheable :
      (stmt : Statement)
      → is_plan_cacheable stmt ≡ (not (calls stmt) && free (statement_pages stmt))
  statement_cacheable (call name args implicit yields all t) = refl
  statement_cacheable (create_index label properties) = refl
  statement_cacheable (drop_index label properties) = refl
  statement_cacheable (explain stmt) = statement_cacheable stmt
  statement_cacheable (union stmts all) = union_cacheable stmts
  statement_cacheable (match_statement (match_all_of pats os w between r t)) =
      tail_between t between
  statement_cacheable (create_statement (create_all_of pats t)) = ending-free t
  statement_cacheable (match_create (match_and_create pats w created t)) = ending-free t
  statement_cacheable (match_merge (match_and_merge pats w merged on_create on_match t)) =
      ending-free t
  statement_cacheable (delete_statement (delete_all_of pats os w detach es t)) = ending-free t
  statement_cacheable (set_statement (set_all_of pats os w items between t)) =
      ending_between t between
  statement_cacheable (remove_statement (remove_all_of pats os w items t)) = ending-free t
  statement_cacheable (merge_statement (merge_all_of pat on_create on_match t)) = ending-free t
  statement_cacheable (unwind_statement (unwind_each e v (unwind_return w between r t))) =
      tail_between t between
  statement_cacheable (unwind_statement (unwind_each e v (unwind_create pats between t))) =
      ending_between t between
  statement_cacheable (return_statement (return_all_of r t)) = tail-free t
  statement_cacheable (multi_clause (clauses_of cs t)) =
      ground
        (arith, ending-free t, clauses-free cs, free-append (ending_pages t) (clauses_pages cs))

  union_cacheable :
      (stmts : Statements)
      → all_cacheable stmts ≡ (not (any_calls stmts) && free (union_pages stmts))
  union_cacheable no_statements = refl
  union_cacheable (statement s more) = ground (
    arith,
    statement_cacheable s,
    union_cacheable more,
    free-append (statement_pages s) (union_pages more),
  )

free-All : (es : List Expr) → (free es ≡ true) ↔ All (λ e. expr_params false e ≡ []) es
free-All [] = (λ h. tt, λ h. refl)
free-All (e ∷ es) = (
  λ h. (
    not_found (expr_params false e) (ground (arith, (expr-Finds e).same)),
    (free-All es).0 (ground arith),
  ),
  λ (a, rest).
      ground (arith, found_not (expr_params false e) a, (expr-Finds e).same, (free-All es).1 rest),
)
  where
    not_found : (xs : List Bytes) → is_some xs ≡ false → xs ≡ []
    not_found [] h = refl
    not_found (x ∷ xs) h = cc

    found_not : (xs : List Bytes) → xs ≡ [] → is_some xs ≡ false
    found_not [] h = refl
    found_not (x ∷ xs) h = cc

plain_cacheable :
    (stmt : Statement)
    → (is_plan_cacheable stmt ≡ true)
      ↔ ((calls stmt ≡ false) × All (λ e. expr_params false e ≡ []) (statement_pages stmt))
plain_cacheable stmt =
    let same = statement_cacheable stmt in
    let pages_free = free-All (statement_pages stmt) in
    (
      λ h. (ground (arith, same), pages_free.0 (ground (arith, same))),
      λ (quiet, none). ground (arith, same, pages_free.1 none),
    )

flat-All :
    (es : List Expr)
    → All (λ e. (is_flat e ≡ false) ⊎ (expr_params false e ≡ expr_params true e)) es
flat-All [] = tt
flat-All (e ∷ es) = (
  elim (Bool-cases (is_flat e)) [
    | inl flat ↦ inr (sym (flat_params e flat))
    | inr nested ↦ inl nested
  ],
  flat-All es,
)

-- A plan is cacheable exactly when the statement neither calls a procedure nor changes an index, in
-- itself or a branch of it, and no SKIP or LIMIT of the statement, its WITH clauses or its branches
-- refers to a parameter outside patterns, pattern predicates and subqueries. Calls and parameters
-- in those do not count: for a SKIP or LIMIT without any of them the parameters are all that it has.
pub is_plan_cacheable_lem :
    (stmt : Statement)
    → ((is_plan_cacheable stmt ≡ true)
        ↔ ((calls stmt ≡ false) × All (λ e. expr_params false e ≡ []) (statement_pages stmt)))
      × All
          (λ e. (is_flat e ≡ false) ⊎ (expr_params false e ≡ expr_params true e))
          (statement_pages stmt)
is_plan_cacheable_lem stmt = (plain_cacheable stmt, flat-All (statement_pages stmt))
