-- ===== src/Cypher/Params/Agrees.antt =====
-- `validate_params` checks the references of a statement from left to right.
use graphdblite.Base.{◌≡◌, refl, sym, true, List, [], ◌∷◌, ◌++◌, Bytes, if◌then◌else◌}
use graphdblite.Types.Error.{Result, ok, err}
use graphdblite.Types.Value.{Fields}
use graphdblite.Cypher.Params.{
  check_param, ◌then◌, validate_expr, validate_exprs, validate_maybe, validate_alternatives,
  validate_props, validate_elements, validate_pattern, validate_patterns, validate_optional_matches,
  validate_set_items, validate_return_items, validate_sort_items, validate_return, validate_tail,
  validate_maybe_return, validate_return_tail, validate_with, validate_intermediate_clauses,
  validate_clause, validate_clauses, validate_params, validate_statements,
}
use graphdblite.Cypher.Params.References.{
  expr_params, exprs_params, maybe_params, alternatives_params, props_params, elements_params,
  pattern_params, patterns_params, optional_matches_params, set_items_params, return_items_params,
  sort_items_params, return_params, tail_params, maybe_return_params, ending_params, with_params,
  intermediate_clauses_params, clause_params, clauses_params, statement_params, statements_params,
}
use graphdblite.Cypher.Ast.{
  Expr, literal, property, variable, parameter, binary_op, not_of, is_null, is_not_null,
  function_call, case_of, list_of, list_comprehension, pattern_comprehension, exists,
  exists_subquery, map_literal, index, dot_access, slice, quantifier, has_label, pattern_predicate,
  star, Exprs, no_exprs, expr, MaybeExpr, no_expr, an_expr, Alternatives, no_alternatives,
  alternative, Entries, no_entries, entry, node_pattern, rel_pattern, PatternElements, node_element,
  relationship_element, no_elements, element, Pattern, pattern_of, Patterns, no_patterns,
  pattern_in, OptionalMatches, optional_match, no_optional, optional, assignment, SetItems,
  set_property, set_label, set_map_overwrite, set_map_merge, no_set_items, set_item, ReturnItems,
  return_item, no_return_items, returned, SortItems, sort_item, no_sort_items, sorted_by,
  ReturnClause, return_clause, MaybeReturn, no_return, a_return, WithClause, with_clause,
  unwind_clause, intermediate_match, IntermediateClauses, with_between, unwind_between,
  match_between, no_intermediate, intermediate, Clause, match_step, create_step, merge_step,
  with_step, unwind_step, set_step, remove_step, call_step, delete_step, Clauses, no_clauses,
  clause, Tail, tail_of, Ending, ending_of, match_all_of, create_all_of, match_and_create,
  match_and_merge, delete_all_of, set_all_of, remove_all_of, merge_all_of, unwind_return,
  unwind_create, unwind_each, return_all_of, clauses_of, Statement, match_statement,
  create_statement, match_create, match_merge, delete_statement, set_statement, remove_statement,
  merge_statement, unwind_statement, return_statement, multi_clause, explain, union, create_index,
  drop_index, call, Statements, no_statements, statement,
}

-- One reference after another.
unfoldable pub check_all : List Bytes → Fields → Result (Unit {0})
check_all [] ps = ok tt
check_all (name ∷ names) ps = check_param name ps then check_all names ps

check_all-nil : (ps : Fields) → check_all [] ps ≡ ok tt
unfolding check_all
check_all-nil ps = refl

then-ok : (r : Result (Unit {0})) → (r then ok tt) ≡ r
then-ok (ok tt) = refl
then-ok (err e) = refl

then_assoc : (a b c : Result (Unit {0})) → ((a then b) then c) ≡ (a then (b then c))
then_assoc (ok u) b c = refl
then_assoc (err e) b c = refl

check_all-one : (name : Bytes) (ps : Fields) → check_all (name ∷ []) ps ≡ check_param name ps
unfolding check_all
check_all-one name ps = then-ok (check_param name ps)

pub check_all-append :
    (xs ys : List Bytes) (ps : Fields)
    → check_all (xs ++ ys) ps ≡ (check_all xs ps then check_all ys ps)
unfolding check_all
check_all-append [] ys ps = refl
check_all-append (x ∷ xs) ys ps =
    rw (check_all-append xs ys ps)
      (sym (then_assoc (check_param x ps) (check_all xs ps) (check_all ys ps)))

-- The result is that of checking the references.
pub record Agrees (r : Result (Unit {0})) (names : List Bytes) (ps : Fields) : Type 0 where
  pub same : r ≡ check_all names ps

nothing : (ps : Fields) → Agrees (ok tt) [] ps
nothing ps = record { same = sym (check_all-nil ps) }

here : (name : Bytes) (ps : Fields) → Agrees (check_param name ps) (name ∷ []) ps
here name ps = record { same = sym (check_all-one name ps) }

infixl 20 ◌also◌
◌also◌ :
    {a b : Result (Unit {0})} {xs ys : List Bytes} {ps : Fields}
    → Agrees a xs ps
    → Agrees b ys ps
    → Agrees (a then b) (xs ++ ys) ps
◌also◌ {xs = xs} {ys = ys} {ps = ps} p q = record {
  same = rw (p.same, q.same) (sym (check_all-append xs ys ps));
}

mutual
  unfolding expr_params exprs_params maybe_params alternatives_params props_params elements_params
      pattern_params patterns_params optional_matches_params set_items_params return_items_params
      sort_items_params return_params tail_params maybe_return_params ending_params with_params
      intermediate_clauses_params clause_params clauses_params statement_params statements_params
      validate_expr validate_exprs validate_maybe validate_alternatives validate_props
      validate_elements validate_pattern validate_patterns validate_optional_matches
      validate_set_items validate_return_items validate_sort_items validate_return validate_tail
      validate_maybe_return validate_return_tail validate_with validate_intermediate_clauses
      validate_clause validate_clauses validate_params validate_statements

  expr-Agrees : (x : Expr) (ps : Fields) → Agrees (validate_expr x ps) (expr_params true x) ps
  expr-Agrees (parameter name) ps = here name ps
  expr-Agrees (binary_op left op right) ps = expr-Agrees left ps also expr-Agrees right ps
  expr-Agrees (not_of e) ps = expr-Agrees e ps
  expr-Agrees (is_null e) ps = expr-Agrees e ps
  expr-Agrees (is_not_null e) ps = expr-Agrees e ps
  expr-Agrees (function_call name args distinct written) ps = exprs-Agrees args ps
  expr-Agrees (case_of operand alternatives default) ps =
      maybe-Agrees operand ps also alternatives-Agrees alternatives ps also maybe-Agrees default ps
  expr-Agrees (list_of items) ps = exprs-Agrees items ps
  expr-Agrees (list_comprehension v list_expr filter map_expr) ps =
      expr-Agrees list_expr ps also maybe-Agrees filter ps also maybe-Agrees map_expr ps
  expr-Agrees (pattern_comprehension path pat where_expr map_expr) ps =
      pattern-Agrees pat ps also maybe-Agrees where_expr ps also expr-Agrees map_expr ps
  expr-Agrees (quantifier kind v list_expr predicate) ps =
      expr-Agrees list_expr ps also expr-Agrees predicate ps
  expr-Agrees (exists pats where_expr) ps = patterns-Agrees pats ps also maybe-Agrees where_expr ps
  expr-Agrees (exists_subquery stmt) ps = statement-Agrees stmt ps
  expr-Agrees (map_literal pairs) ps = props-Agrees pairs ps
  expr-Agrees (index e i) ps = expr-Agrees e ps also expr-Agrees i ps
  expr-Agrees (dot_access e key) ps = expr-Agrees e ps
  expr-Agrees (slice e start end) ps =
      expr-Agrees e ps also maybe-Agrees start ps also maybe-Agrees end ps
  expr-Agrees (literal v) ps = nothing ps
  expr-Agrees (property v p) ps = nothing ps
  expr-Agrees (variable v) ps = nothing ps
  expr-Agrees (has_label v labels) ps = nothing ps
  expr-Agrees (pattern_predicate pat) ps = nothing ps
  expr-Agrees star ps = nothing ps

  exprs-Agrees : (x : Exprs) (ps : Fields) → Agrees (validate_exprs x ps) (exprs_params true x) ps
  exprs-Agrees no_exprs ps = nothing ps
  exprs-Agrees (expr e es) ps = expr-Agrees e ps also exprs-Agrees es ps

  maybe-Agrees :
      (x : MaybeExpr) (ps : Fields) → Agrees (validate_maybe x ps) (maybe_params true x) ps
  maybe-Agrees no_expr ps = nothing ps
  maybe-Agrees (an_expr e) ps = expr-Agrees e ps

  alternatives-Agrees :
      (x : Alternatives) (ps : Fields)
      → Agrees (validate_alternatives x ps) (alternatives_params true x) ps
  alternatives-Agrees no_alternatives ps = nothing ps
  alternatives-Agrees (alternative cond result more) ps =
      expr-Agrees cond ps also expr-Agrees result ps also alternatives-Agrees more ps

  -- Also the loop over the pairs of a map literal.
  props-Agrees : (x : Entries) (ps : Fields) → Agrees (validate_props x ps) (props_params true x) ps
  props-Agrees no_entries ps = nothing ps
  props-Agrees (entry key e more) ps = expr-Agrees e ps also props-Agrees more ps

  elements-Agrees :
      (x : PatternElements) (ps : Fields)
      → Agrees (validate_elements x ps) (elements_params true x) ps
  elements-Agrees no_elements ps = nothing ps
  elements-Agrees (element (node_element (node_pattern v labels props)) more) ps =
      props-Agrees props ps also elements-Agrees more ps
  elements-Agrees (element (relationship_element (rel_pattern v types props direction hops)) more)
        ps =
      props-Agrees props ps also elements-Agrees more ps

  pattern-Agrees :
      (x : Pattern) (ps : Fields) → Agrees (validate_pattern x ps) (pattern_params true x) ps
  pattern-Agrees (pattern_of elements path mode) ps = elements-Agrees elements ps

  patterns-Agrees :
      (x : Patterns) (ps : Fields) → Agrees (validate_patterns x ps) (patterns_params true x) ps
  patterns-Agrees no_patterns ps = nothing ps
  patterns-Agrees (pattern_in p more) ps = pattern-Agrees p ps also patterns-Agrees more ps

  optional_matches-Agrees :
      (x : OptionalMatches) (ps : Fields)
      → Agrees (validate_optional_matches x ps) (optional_matches_params true x) ps
  optional_matches-Agrees no_optional ps = nothing ps
  optional_matches-Agrees (optional (optional_match pats where_expr) more) ps =
      (patterns-Agrees pats ps also maybe-Agrees where_expr ps) also optional_matches-Agrees more ps

  set_items-Agrees :
      (x : SetItems) (ps : Fields) → Agrees (validate_set_items x ps) (set_items_params true x) ps
  set_items-Agrees no_set_items ps = nothing ps
  set_items-Agrees (set_item (set_property (assignment v p e)) more) ps =
      expr-Agrees e ps also set_items-Agrees more ps
  set_items-Agrees (set_item (set_label v labels) more) ps = set_items-Agrees more ps
  set_items-Agrees (set_item (set_map_overwrite v e) more) ps =
      expr-Agrees e ps also set_items-Agrees more ps
  set_items-Agrees (set_item (set_map_merge v e) more) ps =
      expr-Agrees e ps also set_items-Agrees more ps

  return_items-Agrees :
      (x : ReturnItems) (ps : Fields)
      → Agrees (validate_return_items x ps) (return_items_params true x) ps
  return_items-Agrees no_return_items ps = nothing ps
  return_items-Agrees (returned (return_item e alias) more) ps =
      expr-Agrees e ps also return_items-Agrees more ps

  sort_items-Agrees :
      (x : SortItems) (ps : Fields)
      → Agrees (validate_sort_items x ps) (sort_items_params true x) ps
  sort_items-Agrees no_sort_items ps = nothing ps
  sort_items-Agrees (sorted_by (sort_item e descending) more) ps =
      expr-Agrees e ps also sort_items-Agrees more ps

  return-Agrees :
      (x : ReturnClause) (ps : Fields) → Agrees (validate_return x ps) (return_params true x) ps
  return-Agrees (return_clause items distinct) ps = return_items-Agrees items ps

  -- ORDER BY, SKIP and LIMIT.
  tail-Agrees : (x : Tail) (ps : Fields) → Agrees (validate_tail x ps) (tail_params true x) ps
  tail-Agrees (tail_of order_by skip limit) ps =
      sort_items-Agrees order_by ps also maybe-Agrees skip ps also maybe-Agrees limit ps

  maybe_return-Agrees :
      (x : MaybeReturn) (ps : Fields)
      → Agrees (validate_maybe_return x ps) (maybe_return_params true x) ps
  maybe_return-Agrees no_return ps = nothing ps
  maybe_return-Agrees (a_return r) ps = return-Agrees r ps

  ending-Agrees :
      (x : Ending) (ps : Fields) → Agrees (validate_return_tail x ps) (ending_params true x) ps
  ending-Agrees (ending_of r order_by skip limit) ps =
      maybe_return-Agrees r ps
      also sort_items-Agrees order_by ps
      also maybe-Agrees skip ps
      also maybe-Agrees limit ps

  with-Agrees : (x : WithClause) (ps : Fields) → Agrees (validate_with x ps) (with_params true x) ps
  with-Agrees (with_clause items distinct order_by skip limit where_expr) ps =
      return_items-Agrees items ps
      also sort_items-Agrees order_by ps
      also maybe-Agrees skip ps
      also maybe-Agrees limit ps
      also maybe-Agrees where_expr ps

  intermediate_clauses-Agrees :
      (x : IntermediateClauses) (ps : Fields)
      → Agrees (validate_intermediate_clauses x ps) (intermediate_clauses_params true x) ps
  intermediate_clauses-Agrees no_intermediate ps = nothing ps
  intermediate_clauses-Agrees (intermediate (with_between w) more) ps =
      with-Agrees w ps also intermediate_clauses-Agrees more ps
  intermediate_clauses-Agrees (intermediate (unwind_between (unwind_clause e v)) more) ps =
      expr-Agrees e ps also intermediate_clauses-Agrees more ps
  intermediate_clauses-Agrees
        (intermediate (match_between (intermediate_match pats os where_expr)) more) ps =
      (patterns-Agrees pats ps also optional_matches-Agrees os ps also maybe-Agrees where_expr ps)
      also intermediate_clauses-Agrees more ps

  clause-Agrees :
      (x : Clause) (ps : Fields) → Agrees (validate_clause x ps) (clause_params true x) ps
  clause-Agrees (match_step pats os where_expr) ps =
      patterns-Agrees pats ps also optional_matches-Agrees os ps also maybe-Agrees where_expr ps
  clause-Agrees (create_step pats) ps = patterns-Agrees pats ps
  clause-Agrees (merge_step pat on_create on_match) ps =
      pattern-Agrees pat ps also set_items-Agrees on_create ps also set_items-Agrees on_match ps
  clause-Agrees (with_step w) ps = with-Agrees w ps
  clause-Agrees (unwind_step (unwind_clause e v)) ps = expr-Agrees e ps
  clause-Agrees (set_step items) ps = set_items-Agrees items ps
  clause-Agrees (remove_step items) ps = nothing ps
  clause-Agrees (call_step name args implicit yields all) ps = exprs-Agrees args ps
  clause-Agrees (delete_step es detach) ps = exprs-Agrees es ps

  clauses-Agrees :
      (x : Clauses) (ps : Fields) → Agrees (validate_clauses x ps) (clauses_params true x) ps
  clauses-Agrees no_clauses ps = nothing ps
  clauses-Agrees (clause c more) ps = clause-Agrees c ps also clauses-Agrees more ps

  pub statement-Agrees :
      (x : Statement) (ps : Fields) → Agrees (validate_params x ps) (statement_params true x) ps
  statement-Agrees (match_statement (match_all_of pats os where_expr between r t)) ps =
      patterns-Agrees pats ps
      also optional_matches-Agrees os ps
      also maybe-Agrees where_expr ps
      also intermediate_clauses-Agrees between ps
      also return-Agrees r ps
      also tail-Agrees t ps
  statement-Agrees (create_statement (create_all_of pats t)) ps =
      patterns-Agrees pats ps also ending-Agrees t ps
  statement-Agrees (match_create (match_and_create pats where_expr created t)) ps =
      patterns-Agrees pats ps
      also maybe-Agrees where_expr ps
      also patterns-Agrees created ps
      also ending-Agrees t ps
  statement-Agrees (match_merge (match_and_merge pats where_expr merged on_create on_match t)) ps =
      patterns-Agrees pats ps
      also maybe-Agrees where_expr ps
      also pattern-Agrees merged ps
      also set_items-Agrees on_create ps
      also set_items-Agrees on_match ps
      also ending-Agrees t ps
  statement-Agrees (delete_statement (delete_all_of pats os where_expr detach es t)) ps =
      patterns-Agrees pats ps
      also optional_matches-Agrees os ps
      also maybe-Agrees where_expr ps
      also exprs-Agrees es ps
      also ending-Agrees t ps
  statement-Agrees (set_statement (set_all_of pats os where_expr items between t)) ps =
      patterns-Agrees pats ps
      also optional_matches-Agrees os ps
      also maybe-Agrees where_expr ps
      also set_items-Agrees items ps
      also intermediate_clauses-Agrees between ps
      also ending-Agrees t ps
  statement-Agrees (remove_statement (remove_all_of pats os where_expr items t)) ps =
      patterns-Agrees pats ps
      also optional_matches-Agrees os ps
      also maybe-Agrees where_expr ps
      also ending-Agrees t ps
  statement-Agrees (merge_statement (merge_all_of pat on_create on_match t)) ps =
      pattern-Agrees pat ps
      also set_items-Agrees on_create ps
      also set_items-Agrees on_match ps
      also ending-Agrees t ps
  statement-Agrees (unwind_statement (unwind_each e v (unwind_return where_expr between r t))) ps =
      expr-Agrees e ps
      also maybe-Agrees where_expr ps
      also intermediate_clauses-Agrees between ps
      also return-Agrees r ps
      also tail-Agrees t ps
  statement-Agrees (unwind_statement (unwind_each e v (unwind_create pats between t))) ps =
      expr-Agrees e ps
      also patterns-Agrees pats ps
      also intermediate_clauses-Agrees between ps
      also ending-Agrees t ps
  statement-Agrees (return_statement (return_all_of r t)) ps =
      return-Agrees r ps also tail-Agrees t ps
  statement-Agrees (multi_clause (clauses_of cs t)) ps =
      clauses-Agrees cs ps also ending-Agrees t ps
  statement-Agrees (explain stmt) ps = statement-Agrees stmt ps
  statement-Agrees (union stmts all) ps = statements-Agrees stmts ps
  statement-Agrees (call name args implicit yields all t) ps =
      exprs-Agrees args ps also ending-Agrees t ps
  statement-Agrees (create_index label properties) ps = nothing ps
  statement-Agrees (drop_index label properties) ps = nothing ps

  statements-Agrees :
      (x : Statements) (ps : Fields)
      → Agrees (validate_statements x ps) (statements_params true x) ps
  statements-Agrees no_statements ps = nothing ps
  statements-Agrees (statement s more) ps = statement-Agrees s ps also statements-Agrees more ps
