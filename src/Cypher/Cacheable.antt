-- ===== src/Cypher/Cacheable.antt =====
-- cypher/plan_cache.rs: which statements the plan cache may hold.
pub mod Paging
pub mod Flat
pub mod Laws
use graphdblite.Base.{Bool, true, false, not, ◌&&◌, ◌||◌}
use graphdblite.Cypher.Ast.{
  Expr, Exprs, MaybeExpr, Alternatives, Entries, WithClause, IntermediateClauses, Clause, Clauses,
  Tail, Ending, Statement, Statements, literal, property, variable, parameter, binary_op, not_of,
  is_null, is_not_null, function_call, case_of, list_of, list_comprehension, pattern_comprehension,
  exists, exists_subquery, map_literal, index, dot_access, slice, quantifier, has_label,
  pattern_predicate, star, no_exprs, expr, no_expr, an_expr, no_alternatives, alternative,
  no_entries, entry, with_clause, with_between, unwind_between, match_between, no_intermediate,
  intermediate, match_step, create_step, merge_step, with_step, unwind_step, set_step, remove_step,
  call_step, delete_step, no_clauses, clause, tail_of, ending_of, match_all_of, create_all_of,
  match_and_create, match_and_merge, delete_all_of, set_all_of, remove_all_of, merge_all_of,
  unwind_return, unwind_create, unwind_each, return_all_of, clauses_of, match_statement,
  create_statement, match_create, match_merge, delete_statement, set_statement, remove_statement,
  merge_statement, unwind_statement, return_statement, multi_clause, explain, union, create_index,
  drop_index, call, no_statements, statement,
}

unfoldable mutual
  pub expr_has_param : Expr → Bool
  expr_has_param (parameter name) = true
  expr_has_param (binary_op left op right) = expr_has_param left || expr_has_param right
  expr_has_param (not_of e) = expr_has_param e
  expr_has_param (is_null e) = expr_has_param e
  expr_has_param (is_not_null e) = expr_has_param e
  expr_has_param (function_call name args distinct written) = any_has_param args
  expr_has_param (case_of operand alternatives default) =
      expr_opt_has_param operand
      || alternatives_have_param alternatives
      || expr_opt_has_param default
  expr_has_param (list_of items) = any_has_param items
  expr_has_param (list_comprehension v list_expr filter map_expr) =
      expr_has_param list_expr || expr_opt_has_param filter || expr_opt_has_param map_expr
  expr_has_param (pattern_comprehension path pat where_expr map_expr) =
      expr_opt_has_param where_expr || expr_has_param map_expr
  expr_has_param (quantifier kind v list_expr predicate) =
      expr_has_param list_expr || expr_has_param predicate
  expr_has_param (exists pats where_expr) = expr_opt_has_param where_expr
  expr_has_param (exists_subquery stmt) = false
  expr_has_param (map_literal pairs) = pairs_have_param pairs
  expr_has_param (index e i) = expr_has_param e || expr_has_param i
  expr_has_param (dot_access e key) = expr_has_param e
  expr_has_param (slice e start end) =
      expr_has_param e || expr_opt_has_param start || expr_opt_has_param end
  expr_has_param (literal v) = false
  expr_has_param (property v p) = false
  expr_has_param (variable v) = false
  expr_has_param (has_label v labels) = false
  expr_has_param (pattern_predicate pat) = false
  expr_has_param star = false

  pub any_has_param : Exprs → Bool
  any_has_param no_exprs = false
  any_has_param (expr e es) = expr_has_param e || any_has_param es

  pub expr_opt_has_param : MaybeExpr → Bool
  expr_opt_has_param no_expr = false
  expr_opt_has_param (an_expr e) = expr_has_param e

  pub alternatives_have_param : Alternatives → Bool
  alternatives_have_param no_alternatives = false
  alternatives_have_param (alternative cond result more) =
      expr_has_param cond || expr_has_param result || alternatives_have_param more

  pub pairs_have_param : Entries → Bool
  pairs_have_param no_entries = false
  pairs_have_param (entry key e more) = expr_has_param e || pairs_have_param more

unfoldable pub skip_limit_has_param : MaybeExpr → MaybeExpr → Bool
unfolding expr_opt_has_param
skip_limit_has_param skip limit = expr_opt_has_param skip || expr_opt_has_param limit

unfoldable pub with_has_param : WithClause → Bool
unfolding skip_limit_has_param
with_has_param (with_clause items distinct order_by skip limit where_expr) =
    skip_limit_has_param skip limit

unfoldable pub clause_blocks_caching : Clause → Bool
unfolding with_has_param
clause_blocks_caching (call_step name args implicit yields all) = true
clause_blocks_caching (with_step w) = with_has_param w
clause_blocks_caching (match_step pats os where_expr) = false
clause_blocks_caching (create_step pats) = false
clause_blocks_caching (merge_step pat on_create on_match) = false
clause_blocks_caching (unwind_step u) = false
clause_blocks_caching (set_step items) = false
clause_blocks_caching (remove_step items) = false
clause_blocks_caching (delete_step es detach) = false

unfoldable pub no_clause_blocks : Clauses → Bool
unfolding clause_blocks_caching
no_clause_blocks no_clauses = true
no_clause_blocks (clause c more) = not (clause_blocks_caching c) && no_clause_blocks more

unfoldable pub intermediates_block_caching : IntermediateClauses → Bool
unfolding with_has_param
intermediates_block_caching no_intermediate = false
intermediates_block_caching (intermediate (with_between w) more) =
    with_has_param w || intermediates_block_caching more
intermediates_block_caching (intermediate (unwind_between u) more) =
    intermediates_block_caching more
intermediates_block_caching (intermediate (match_between m) more) = intermediates_block_caching more

-- The negation of `skip_limit_has_param` on the last fields of a statement.
abbrev pub free_tail : Tail → Bool
free_tail (tail_of order_by skip limit) = not (skip_limit_has_param skip limit)

abbrev pub free_ending : Ending → Bool
free_ending (ending_of r order_by skip limit) = not (skip_limit_has_param skip limit)

unfoldable mutual
  unfolding skip_limit_has_param no_clause_blocks intermediates_block_caching

  pub is_plan_cacheable : Statement → Bool
  is_plan_cacheable (call name args implicit yields all t) = false
  is_plan_cacheable (create_index label properties) = false
  is_plan_cacheable (drop_index label properties) = false
  is_plan_cacheable (explain stmt) = is_plan_cacheable stmt
  is_plan_cacheable (union stmts all) = all_cacheable stmts
  is_plan_cacheable (match_statement (match_all_of pats os where_expr between r t)) =
      free_tail t && not (intermediates_block_caching between)
  is_plan_cacheable (create_statement (create_all_of pats t)) = free_ending t
  is_plan_cacheable (match_create (match_and_create pats where_expr created t)) = free_ending t
  is_plan_cacheable (match_merge (match_and_merge pats where_expr merged on_create on_match t)) =
      free_ending t
  is_plan_cacheable (delete_statement (delete_all_of pats os where_expr detach es t)) =
      free_ending t
  is_plan_cacheable (set_statement (set_all_of pats os where_expr items between t)) =
      free_ending t && not (intermediates_block_caching between)
  is_plan_cacheable (remove_statement (remove_all_of pats os where_expr items t)) = free_ending t
  is_plan_cacheable (merge_statement (merge_all_of pat on_create on_match t)) = free_ending t
  is_plan_cacheable (unwind_statement (unwind_each e v (unwind_return where_expr between r t))) =
      free_tail t && not (intermediates_block_caching between)
  is_plan_cacheable (unwind_statement (unwind_each e v (unwind_create pats between t))) =
      free_ending t && not (intermediates_block_caching between)
  is_plan_cacheable (return_statement (return_all_of r t)) = free_tail t
  is_plan_cacheable (multi_clause (clauses_of cs t)) = free_ending t && no_clause_blocks cs

  pub all_cacheable : Statements → Bool
  all_cacheable no_statements = true
  all_cacheable (statement s more) = is_plan_cacheable s && all_cacheable more
