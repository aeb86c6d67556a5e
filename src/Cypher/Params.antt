-- ===== src/Cypher/Params.antt =====
-- cypher/parser/resolve.rs: `validate_params` and its walkers. The parameters are the entries of the
-- map of the caller; a walk stops at its first error.
pub mod References
pub mod Agrees
pub mod Laws
use graphdblite.Base.{none, some, ◌++◌, Bytes, text}
use graphdblite.Types.Error.{Result, ok, err, query, argument_error, semantic_analysis, other}
use graphdblite.Types.Value.{Fields, get_field}
use graphdblite.Cypher.Ast.{
  Expr, literal, property, variable, parameter, binary_op, not_of, is_null, is_not_null,
  function_call, case_of, list_of, list_comprehension, pattern_comprehension, exists,
  exists_subquery, map_literal, index, dot_access, slice, quantifier, has_label, pattern_predicate,
  star, Exprs, no_exprs, expr, MaybeExpr, no_expr, an_expr, Alternatives, no_alternatives,
  alternative, Entries, no_entries, entry, node_pattern, rel_pattern, PatternElements, node_element,
  relationship_element, no_elements, element, Pattern, pattern_of, Patterns, no_patterns,
  pattern_in, OptionalMatches, optional_match, no_optional, optional, assignment, SetItems,
  set_property, set_label, set_map_overwrite, set_map_merge, no_set_items, set_item, ReturnItems,
  return_item, no_return_items, returned, SortItems, sort_item, no_sort_items, sorted_by,
  ReturnClause, return_clause, MaybeReturn, no_return, a_return, WithClause, with_clause,
  unwind_clause, intermediate_match, IntermediateClauses, with_between, unwind_between,
  match_between, no_intermediate, intermediate, Clause, match_step, create_step, merge_step,
  with_step, unwind_step, set_step, remove_step, call_step, delete_step, Clauses, no_clauses,
  clause, Tail, tail_of, Ending, ending_of, match_all_of, create_all_of, match_and_create,
  match_and_merge, delete_all_of, set_all_of, remove_all_of, merge_all_of, unwind_return,
  unwind_create, unwind_each, return_all_of, clauses_of, Statement, match_statement,
  create_statement, match_create, match_merge, delete_statement, set_statement, remove_statement,
  merge_statement, unwind_statement, return_statement, multi_clause, explain, union, create_index,
  drop_index, call, Statements, no_statements, statement,
}

-- One check after another, which `?` cuts short.
infixl 20 ◌then◌
abbrev pub ◌then◌ : Result (Unit {0}) → Result (Unit {0}) → Result (Unit {0})
ok u then next = next
err e then next = err e

abbrev pub missing : Bytes → Result (Unit {0})
missing name =
    err (query (argument_error semantic_analysis other (text "missing parameter: $" ++ name)))

abbrev pub check_param : Bytes → Fields → Result (Unit {0})
check_param name params = elim (get_field name params) [ none ↦ missing name | some v ↦ ok tt ]

unfoldable mutual
  pub validate_expr : Expr → Fields → Result (Unit {0})
  validate_expr (parameter name) ps = check_param name ps
  validate_expr (binary_op left op right) ps = validate_expr left ps then validate_expr right ps
  validate_expr (not_of e) ps = validate_expr e ps
  validate_expr (is_null e) ps = validate_expr e ps
  validate_expr (is_not_null e) ps = validate_expr e ps
  validate_expr (function_call name args distinct written) ps = validate_exprs args ps
  validate_expr (case_of operand alternatives default) ps =
      validate_maybe operand ps
      then validate_alternatives alternatives ps
      then validate_maybe default ps
  validate_expr (list_of items) ps = validate_exprs items ps
  validate_expr (list_comprehension v list_expr filter map_expr) ps =
      validate_expr list_expr ps then validate_maybe filter ps then validate_maybe map_expr ps
  validate_expr (pattern_comprehension path pat where_expr map_expr) ps =
      validate_pattern pat ps then validate_maybe where_expr ps then validate_expr map_expr ps
  validate_expr (quantifier kind v list_expr predicate) ps =
      validate_expr list_expr ps then validate_expr predicate ps
  validate_expr (exists pats where_expr) ps =
      validate_patterns pats ps then validate_maybe where_expr ps
  validate_expr (exists_subquery stmt) ps = validate_params stmt ps
  validate_expr (map_literal pairs) ps = validate_props pairs ps
  validate_expr (index e i) ps = validate_expr e ps then validate_expr i ps
  validate_expr (dot_access e key) ps = validate_expr e ps
  validate_expr (slice e start end) ps =
      validate_expr e ps then validate_maybe start ps then validate_maybe end ps
  validate_expr (literal v) ps = ok tt
  validate_expr (property v p) ps = ok tt
  validate_expr (variable v) ps = ok tt
  validate_expr (has_label v labels) ps = ok tt
  validate_expr (pattern_predicate pat) ps = ok tt
  validate_expr star ps = ok tt

  pub validate_exprs : Exprs → Fields → Result (Unit {0})
  validate_exprs no_exprs ps = ok tt
  validate_exprs (expr e es) ps = validate_expr e ps then validate_exprs es ps

  pub validate_maybe : MaybeExpr → Fields → Result (Unit {0})
  validate_maybe no_expr ps = ok tt
  validate_maybe (an_expr e) ps = validate_expr e ps

  pub validate_alternatives : Alternatives → Fields → Result (Unit {0})
  validate_alternatives no_alternatives ps = ok tt
  validate_alternatives (alternative cond result more) ps =
      validate_expr cond ps then validate_expr result ps then validate_alternatives more ps

  -- Also the loop over the pairs of a map literal.
  pub validate_props : Entries → Fields → Result (Unit {0})
  validate_props no_entries ps = ok tt
  validate_props (entry key e more) ps = validate_expr e ps then validate_props more ps

  pub validate_elements : PatternElements → Fields → Result (Unit {0})
  validate_elements no_elements ps = ok tt
  validate_elements (element (node_element (node_pattern v labels props)) more) ps =
      validate_props props ps then validate_elements more ps
  validate_elements (element (relationship_element (rel_pattern v types props direction hops)) more)
        ps =
      validate_props props ps then validate_elements more ps

  pub validate_pattern : Pattern → Fields → Result (Unit {0})
  validate_pattern (pattern_of elements path mode) ps = validate_elements elements ps

  pub validate_patterns : Patterns → Fields → Result (Unit {0})
  validate_patterns no_patterns ps = ok tt
  validate_patterns (pattern_in p more) ps = validate_pattern p ps then validate_patterns more ps

  pub validate_optional_matches : OptionalMatches → Fields → Result (Unit {0})
  validate_optional_matches no_optional ps = ok tt
  validate_optional_matches (optional (optional_match pats where_expr) more) ps =
      (validate_patterns pats ps then validate_maybe where_expr ps)
      then validate_optional_matches more ps

  pub validate_set_items : SetItems → Fields → Result (Unit {0})
  validate_set_items no_set_items ps = ok tt
  validate_set_items (set_item (set_property (assignment v p e)) more) ps =
      validate_expr e ps then validate_set_items more ps
  validate_set_items (set_item (set_label v labels) more) ps = validate_set_items more ps
  validate_set_items (set_item (set_map_overwrite v e) more) ps =
      validate_expr e ps then validate_set_items more ps
  validate_set_items (set_item (set_map_merge v e) more) ps =
      validate_expr e ps then validate_set_items more ps

  pub validate_return_items : ReturnItems → Fields → Result (Unit {0})
  validate_return_items no_return_items ps = ok tt
  validate_return_items (returned (return_item e alias) more) ps =
      validate_expr e ps then validate_return_items more ps

  pub validate_sort_items : SortItems → Fields → Result (Unit {0})
  validate_sort_items no_sort_items ps = ok tt
  validate_sort_items (sorted_by (sort_item e descending) more) ps =
      validate_expr e ps then validate_sort_items more ps

  pub validate_return : ReturnClause → Fields → Result (Unit {0})
  validate_return (return_clause items distinct) ps = validate_return_items items ps

  -- ORDER BY, SKIP and LIMIT.
  pub validate_tail : Tail → Fields → Result (Unit {0})
  validate_tail (tail_of order_by skip limit) ps =
      validate_sort_items order_by ps then validate_maybe skip ps then validate_maybe limit ps

  pub validate_maybe_return : MaybeReturn → Fields → Result (Unit {0})
  validate_maybe_return no_return ps = ok tt
  validate_maybe_return (a_return r) ps = validate_return r ps

  pub validate_return_tail : Ending → Fields → Result (Unit {0})
  validate_return_tail (ending_of r order_by skip limit) ps =
      validate_maybe_return r ps
      then validate_sort_items order_by ps
      then validate_maybe skip ps
      then validate_maybe limit ps

  pub validate_with : WithClause → Fields → Result (Unit {0})
  validate_with (with_clause items distinct order_by skip limit where_expr) ps =
      validate_return_items items ps
      then validate_sort_items order_by ps
      then validate_maybe skip ps
      then validate_maybe limit ps
      then validate_maybe where_expr ps

  pub validate_intermediate_clauses : IntermediateClauses → Fields → Result (Unit {0})
  validate_intermediate_clauses no_intermediate ps = ok tt
  validate_intermediate_clauses (intermediate (with_between w) more) ps =
      validate_with w ps then validate_intermediate_clauses more ps
  validate_intermediate_clauses (intermediate (unwind_between (unwind_clause e v)) more) ps =
      validate_expr e ps then validate_intermediate_clauses more ps
  validate_intermediate_clauses
        (intermediate (match_between (intermediate_match pats os where_expr)) more) ps =
      (validate_patterns pats ps
        then validate_optional_matches os ps
        then validate_maybe where_expr ps)
      then validate_intermediate_clauses more ps

  pub validate_clause : Clause → Fields → Result (Unit {0})
  validate_clause (match_step pats os where_expr) ps =
      validate_patterns pats ps
      then validate_optional_matches os ps
      then validate_maybe where_expr ps
  validate_clause (create_step pats) ps = validate_patterns pats ps
  validate_clause (merge_step pat on_create on_match) ps =
      validate_pattern pat ps
      then validate_set_items on_create ps
      then validate_set_items on_match ps
  validate_clause (with_step w) ps = validate_with w ps
  validate_clause (unwind_step (unwind_clause e v)) ps = validate_expr e ps
  validate_clause (set_step items) ps = validate_set_items items ps
  validate_clause (remove_step items) ps = ok tt
  validate_clause (call_step name args implicit yields all) ps = validate_exprs args ps
  validate_clause (delete_step es detach) ps = validate_exprs es ps

  pub validate_clauses : Clauses → Fields → Result (Unit {0})
  validate_clauses no_clauses ps = ok tt
  validate_clauses (clause c more) ps = validate_clause c ps then validate_clauses more ps

  pub validate_params : Statement → Fields → Result (Unit {0})
  validate_params (match_statement (match_all_of pats os where_expr between r t)) ps =
      validate_patterns pats ps
      then validate_optional_matches os ps
      then validate_maybe where_expr ps
      then validate_intermediate_clauses between ps
      then validate_return r ps
      then validate_tail t ps
  validate_params (create_statement (create_all_of pats t)) ps =
      validate_patterns pats ps then validate_return_tail t ps
  validate_params (match_create (match_and_create pats where_expr created t)) ps =
      validate_patterns pats ps
      then validate_maybe where_expr ps
      then validate_patterns created ps
      then validate_return_tail t ps
  validate_params (match_merge (match_and_merge pats where_expr merged on_create on_match t)) ps =
      validate_patterns pats ps
      then validate_maybe where_expr ps
      then validate_pattern merged ps
      then validate_set_items on_create ps
      then validate_set_items on_match ps
      then validate_return_tail t ps
  validate_params (delete_statement (delete_all_of pats os where_expr detach es t)) ps =
      validate_patterns pats ps
      then validate_optional_matches os ps
      then validate_maybe where_expr ps
      then validate_exprs es ps
      then validate_return_tail t ps
  validate_params (set_statement (set_all_of pats os where_expr items between t)) ps =
      validate_patterns pats ps
      then validate_optional_matches os ps
      then validate_maybe where_expr ps
      then validate_set_items items ps
      then validate_intermediate_clauses between ps
      then validate_return_tail t ps
  validate_params (remove_statement (remove_all_of pats os where_expr items t)) ps =
      validate_patterns pats ps
      then validate_optional_matches os ps
      then validate_maybe where_expr ps
      then validate_return_tail t ps
  validate_params (merge_statement (merge_all_of pat on_create on_match t)) ps =
      validate_pattern pat ps
      then validate_set_items on_create ps
      then validate_set_items on_match ps
      then validate_return_tail t ps
  validate_params (unwind_statement (unwind_each e v (unwind_return where_expr between r t))) ps =
      validate_expr e ps
      then validate_maybe where_expr ps
      then validate_intermediate_clauses between ps
      then validate_return r ps
      then validate_tail t ps
  validate_params (unwind_statement (unwind_each e v (unwind_create pats between t))) ps =
      validate_expr e ps
      then validate_patterns pats ps
      then validate_intermediate_clauses between ps
      then validate_return_tail t ps
  validate_params (return_statement (return_all_of r t)) ps =
      validate_return r ps then validate_tail t ps
  validate_params (multi_clause (clauses_of cs t)) ps =
      validate_clauses cs ps then validate_return_tail t ps
  validate_params (explain stmt) ps = validate_params stmt ps
  validate_params (union stmts all) ps = validate_statements stmts ps
  validate_params (call name args implicit yields all t) ps =
      validate_exprs args ps then validate_return_tail t ps
  validate_params (create_index label properties) ps = ok tt
  validate_params (drop_index label properties) ps = ok tt

  pub validate_statements : Statements → Fields → Result (Unit {0})
  validate_statements no_statements ps = ok tt
  validate_statements (statement s more) ps = validate_params s ps then validate_statements more ps
