-- ===== src/Cypher/Params/References.antt =====
-- The parameters that a statement refers to, from left to right, but for those in a pattern
-- predicate; with the flag unset, only those outside patterns and subqueries.
use graphdblite.Base.{Bool, List, [], ◌∷◌, ◌++◌, if◌then◌else◌, Bytes}
use graphdblite.Cypher.Ast.{
  Expr, literal, property, variable, parameter, binary_op, not_of, is_null, is_not_null,
  function_call, case_of, list_of, list_comprehension, pattern_comprehension, exists,
  exists_subquery, map_literal, index, dot_access, slice, quantifier, has_label, pattern_predicate,
  star, Exprs, no_exprs, expr, MaybeExpr, no_expr, an_expr, Alternatives, no_alternatives,
  alternative, Entries, no_entries, entry, node_pattern, rel_pattern, PatternElements, node_element,
  relationship_element, no_elements, element, Pattern, pattern_of, Patterns, no_patterns,
  pattern_in, OptionalMatches, optional_match, no_optional, optional, assignment, SetItems,
  set_property, set_label, set_map_overwrite, set_map_merge, no_set_items, set_item, ReturnItems,
  return_item, no_return_items, returned, SortItems, sort_item, no_sort_items, sorted_by,
  ReturnClause, return_clause, MaybeReturn, no_return, a_return, WithClause, with_clause,
  unwind_clause, intermediate_match, IntermediateClauses, with_between, unwind_between,
  match_between, no_intermediate, intermediate, Clause, match_step, create_step, merge_step,
  with_step, unwind_step, set_step, remove_step, call_step, delete_step, Clauses, no_clauses,
  clause, Tail, tail_of, Ending, ending_of, match_all_of, create_all_of, match_and_create,
  match_and_merge, delete_all_of, set_all_of, remove_all_of, merge_all_of, unwind_return,
  unwind_create, unwind_each, return_all_of, clauses_of, Statement, match_statement,
  create_statement, match_create, match_merge, delete_statement, set_statement, remove_statement,
  merge_statement, unwind_statement, return_statement, multi_clause, explain, union, create_index,
  drop_index, call, Statements, no_statements, statement,
}

unfoldable mutual
  pub expr_params : Bool → Expr → List Bytes
  expr_params inner (parameter name) = name ∷ []
  expr_params inner (binary_op left op right) = expr_params inner left ++ expr_params inner right
  expr_params inner (not_of e) = expr_params inner e
  expr_params inner (is_null e) = expr_params inner e
  expr_params inner (is_not_null e) = expr_params inner e
  expr_params inner (function_call name args distinct written) = exprs_params inner args
  expr_params inner (case_of operand alternatives default) =
      maybe_params inner operand
      ++ alternatives_params inner alternatives
      ++ maybe_params inner default
  expr_params inner (list_of items) = exprs_params inner items
  expr_params inner (list_comprehension v list_expr filter map_expr) =
      expr_params inner list_expr ++ maybe_params inner filter ++ maybe_params inner map_expr
  expr_params inner (pattern_comprehension path pat where_expr map_expr) =
      pattern_params inner pat ++ maybe_params inner where_expr ++ expr_params inner map_expr
  expr_params inner (quantifier kind v list_expr predicate) =
      expr_params inner list_expr ++ expr_params inner predicate
  expr_params inner (exists pats where_expr) =
      patterns_params inner pats ++ maybe_params inner where_expr
  expr_params inner (exists_subquery stmt) = if inner then statement_params inner stmt else []
  expr_params inner (map_literal pairs) = props_params inner pairs
  expr_params inner (index e i) = expr_params inner e ++ expr_params inner i
  expr_params inner (dot_access e key) = expr_params inner e
  expr_params inner (slice e start end) =
      expr_params inner e ++ maybe_params inner start ++ maybe_params inner end
  expr_params inner (literal v) = []
  expr_params inner (property v p) = []
  expr_params inner (variable v) = []
  expr_params inner (has_label v labels) = []
  expr_params inner (pattern_predicate pat) = []
  expr_params inner star = []

  pub exprs_params : Bool → Exprs → List Bytes
  exprs_params inner no_exprs = []
  exprs_params inner (expr e es) = expr_params inner e ++ exprs_params inner es

  pub maybe_params : Bool → MaybeExpr → List Bytes
  maybe_params inner no_expr = []
  maybe_params inner (an_expr e) = expr_params inner e

  pub alternatives_params : Bool → Alternatives → List Bytes
  alternatives_params inner no_alternatives = []
  alternatives_params inner (alternative cond result more) =
      expr_params inner cond ++ expr_params inner result ++ alternatives_params inner more

  -- Also the loop over the pairs of a map literal.
  pub props_params : Bool → Entries → List Bytes
  props_params inner no_entries = []
  props_params inner (entry key e more) = expr_params inner e ++ props_params inner more

  pub elements_params : Bool → PatternElements → List Bytes
  elements_params inner no_elements = []
  elements_params inner (element (node_element (node_pattern v labels props)) more) =
      props_params inner props ++ elements_params inner more
  elements_params inner
        (element (relationship_element (rel_pattern v types props direction hops)) more) =
      props_params inner props ++ elements_params inner more

  pub pattern_params : Bool → Pattern → List Bytes
  pattern_params inner (pattern_of elements path mode) =
      if inner then elements_params inner elements else []

  pub patterns_params : Bool → Patterns → List Bytes
  patterns_params inner no_patterns = []
  patterns_params inner (pattern_in p more) = pattern_params inner p ++ patterns_params inner more

  pub optional_matches_params : Bool → OptionalMatches → List Bytes
  optional_matches_params inner no_optional = []
  optional_matches_params inner (optional (optional_match pats where_expr) more) =
      (patterns_params inner pats ++ maybe_params inner where_expr)
      ++ optional_matches_params inner more

  pub set_items_params : Bool → SetItems → List Bytes
  set_items_params inner no_set_items = []
  set_items_params inner (set_item (set_property (assignment v p e)) more) =
      expr_params inner e ++ set_items_params inner more
  set_items_params inner (set_item (set_label v labels) more) = set_items_params inner more
  set_items_params inner (set_item (set_map_overwrite v e) more) =
      expr_params inner e ++ set_items_params inner more
  set_items_params inner (set_item (set_map_merge v e) more) =
      expr_params inner e ++ set_items_params inner more

  pub return_items_params : Bool → ReturnItems → List Bytes
  return_items_params inner no_return_items = []
  return_items_params inner (returned (return_item e alias) more) =
      expr_params inner e ++ return_items_params inner more

  pub sort_items_params : Bool → SortItems → List Bytes
  sort_items_params inner no_sort_items = []
  sort_items_params inner (sorted_by (sort_item e descending) more) =
      expr_params inner e ++ sort_items_params inner more

  pub return_params : Bool → ReturnClause → List Bytes
  return_params inner (return_clause items distinct) = return_items_params inner items

  -- ORDER BY, SKIP and LIMIT.
  pub tail_params : Bool → Tail → List Bytes
  tail_params inner (tail_of order_by skip limit) =
      sort_items_params inner order_by ++ maybe_params inner skip ++ maybe_params inner limit

  pub maybe_return_params : Bool → MaybeReturn → List Bytes
  maybe_return_params inner no_return = []
  maybe_return_params inner (a_return r) = return_params inner r

  pub ending_params : Bool → Ending → List Bytes
  ending_params inner (ending_of r order_by skip limit) =
      maybe_return_params inner r
      ++ sort_items_params inner order_by
      ++ maybe_params inner skip
      ++ maybe_params inner limit

  pub with_params : Bool → WithClause → List Bytes
  with_params inner (with_clause items distinct order_by skip limit where_expr) =
      return_items_params inner items
      ++ sort_items_params inner order_by
      ++ maybe_params inner skip
      ++ maybe_params inner limit
      ++ maybe_params inner where_expr

  pub intermediate_clauses_params : Bool → IntermediateClauses → List Bytes
  intermediate_clauses_params inner no_intermediate = []
  intermediate_clauses_params inner (intermediate (with_between w) more) =
      with_params inner w ++ intermediate_clauses_params inner more
  intermediate_clauses_params inner (intermediate (unwind_between (unwind_clause e v)) more) =
      expr_params inner e ++ intermediate_clauses_params inner more
  intermediate_clauses_params inner
        (intermediate (match_between (intermediate_match pats os where_expr)) more) =
      (patterns_params inner pats
        ++ optional_matches_params inner os
        ++ maybe_params inner where_expr)
      ++ intermediate_clauses_params inner more

  pub clause_params : Bool → Clause → List Bytes
  clause_params inner (match_step pats os where_expr) =
      patterns_params inner pats
      ++ optional_matches_params inner os
      ++ maybe_params inner where_expr
  clause_params inner (create_step pats) = patterns_params inner pats
  clause_params inner (merge_step pat on_create on_match) =
      pattern_params inner pat
      ++ set_items_params inner on_create
      ++ set_items_params inner on_match
  clause_params inner (with_step w) = with_params inner w
  clause_params inner (unwind_step (unwind_clause e v)) = expr_params inner e
  clause_params inner (set_step items) = set_items_params inner items
  clause_params inner (remove_step items) = []
  clause_params inner (call_step name args implicit yields all) = exprs_params inner args
  clause_params inner (delete_step es detach) = exprs_params inner es

  pub clauses_params : Bool → Clauses → List Bytes
  clauses_params inner no_clauses = []
  clauses_params inner (clause c more) = clause_params inner c ++ clauses_params inner more

  pub statement_params : Bool → Statement → List Bytes
  statement_params inner (match_statement (match_all_of pats os where_expr between r t)) =
      patterns_params inner pats
      ++ optional_matches_params inner os
      ++ maybe_params inner where_expr
      ++ intermediate_clauses_params inner between
      ++ return_params inner r
      ++ tail_params inner t
  statement_params inner (create_statement (create_all_of pats t)) =
      patterns_params inner pats ++ ending_params inner t
  statement_params inner (match_create (match_and_create pats where_expr created t)) =
      patterns_params inner pats
      ++ maybe_params inner where_expr
      ++ patterns_params inner created
      ++ ending_params inner t
  statement_params inner
        (match_merge (match_and_merge pats where_expr merged on_create on_match t)) =
      patterns_params inner pats
      ++ maybe_params inner where_expr
      ++ pattern_params inner merged
      ++ set_items_params inner on_create
      ++ set_items_params inner on_match
      ++ ending_params inner t
  statement_params inner (delete_statement (delete_all_of pats os where_expr detach es t)) =
      patterns_params inner pats
      ++ optional_matches_params inner os
      ++ maybe_params inner where_expr
      ++ exprs_params inner es
      ++ ending_params inner t
  statement_params inner (set_statement (set_all_of pats os where_expr items between t)) =
      patterns_params inner pats
      ++ optional_matches_params inner os
      ++ maybe_params inner where_expr
      ++ set_items_params inner items
      ++ intermediate_clauses_params inner between
      ++ ending_params inner t
  statement_params inner (remove_statement (remove_all_of pats os where_expr items t)) =
      patterns_params inner pats
      ++ optional_matches_params inner os
      ++ maybe_params inner where_expr
      ++ ending_params inner t
  statement_params inner (merge_statement (merge_all_of pat on_create on_match t)) =
      pattern_params inner pat
      ++ set_items_params inner on_create
      ++ set_items_params inner on_match
      ++ ending_params inner t
  statement_params inner
        (unwind_statement (unwind_each e v (unwind_return where_expr between r t))) =
      expr_params inner e
      ++ maybe_params inner where_expr
      ++ intermediate_clauses_params inner between
      ++ return_params inner r
      ++ tail_params inner t
  statement_params inner (unwind_statement (unwind_each e v (unwind_create pats between t))) =
      expr_params inner e
      ++ patterns_params inner pats
      ++ intermediate_clauses_params inner between
      ++ ending_params inner t
  statement_params inner (return_statement (return_all_of r t)) =
      return_params inner r ++ tail_params inner t
  statement_params inner (multi_clause (clauses_of cs t)) =
      clauses_params inner cs ++ ending_params inner t
  statement_params inner (explain stmt) = statement_params inner stmt
  statement_params inner (union stmts all) = statements_params inner stmts
  statement_params inner (call name args implicit yields all t) =
      exprs_params inner args ++ ending_params inner t
  statement_params inner (create_index label properties) = []
  statement_params inner (drop_index label properties) = []

  pub statements_params : Bool → Statements → List Bytes
  statements_params inner no_statements = []
  statements_params inner (statement s more) =
      statement_params inner s ++ statements_params inner more
