-- ===== src/Cypher/Cacheable/Paging.antt =====
-- The expressions of SKIP and LIMIT in a statement, its WITH clauses and the branches of a union, and
-- which statements call a procedure or change an index.
use graphdblite.Base.{Bool, true, false, ◌||◌, List, [], ◌∷◌, ◌++◌}
use graphdblite.Cypher.Ast.{
  Expr, MaybeExpr, WithClause, IntermediateClauses, Clause, Clauses, Tail, Ending, Statement,
  Statements, no_expr, an_expr, with_clause, with_between, unwind_between, match_between,
  no_intermediate, intermediate, match_step, create_step, merge_step, with_step, unwind_step,
  set_step, remove_step, call_step, delete_step, no_clauses, clause, tail_of, ending_of,
  match_all_of, create_all_of, match_and_create, match_and_merge, delete_all_of, set_all_of,
  remove_all_of, merge_all_of, unwind_return, unwind_create, unwind_each, return_all_of, clauses_of,
  match_statement, create_statement, match_create, match_merge, delete_statement, set_statement,
  remove_statement, merge_statement, unwind_statement, return_statement, multi_clause, explain,
  union, create_index, drop_index, call, no_statements, statement,
}

abbrev pub maybe_page : MaybeExpr → List Expr
maybe_page no_expr = []
maybe_page (an_expr e) = e ∷ []

abbrev pub pages : MaybeExpr → MaybeExpr → List Expr
pages skip limit = maybe_page skip ++ maybe_page limit

abbrev pub with_pages : WithClause → List Expr
with_pages (with_clause items distinct order_by skip limit where_expr) = pages skip limit

abbrev pub tail_pages : Tail → List Expr
tail_pages (tail_of order_by skip limit) = pages skip limit

abbrev pub ending_pages : Ending → List Expr
ending_pages (ending_of r order_by skip limit) = pages skip limit

abbrev pub between_pages : IntermediateClauses → List Expr
between_pages no_intermediate = []
between_pages (intermediate (with_between w) more) = with_pages w ++ between_pages more
between_pages (intermediate (unwind_between u) more) = between_pages more
between_pages (intermediate (match_between m) more) = between_pages more

abbrev pub clause_pages : Clause → List Expr
clause_pages (with_step w) = with_pages w
clause_pages (match_step pats os where_expr) = []
clause_pages (create_step pats) = []
clause_pages (merge_step pat on_create on_match) = []
clause_pages (unwind_step u) = []
clause_pages (set_step items) = []
clause_pages (remove_step items) = []
clause_pages (call_step name args implicit yields all) = []
clause_pages (delete_step es detach) = []

abbrev pub clauses_pages : Clauses → List Expr
clauses_pages no_clauses = []
clauses_pages (clause c more) = clause_pages c ++ clauses_pages more

abbrev pub calls_in : Clauses → Bool
calls_in no_clauses = false
calls_in (clause (call_step name args implicit yields all) more) = true
calls_in (clause (with_step w) more) = calls_in more
calls_in (clause (match_step pats os where_expr) more) = calls_in more
calls_in (clause (create_step pats) more) = calls_in more
calls_in (clause (merge_step pat on_create on_match) more) = calls_in more
calls_in (clause (unwind_step u) more) = calls_in more
calls_in (clause (set_step items) more) = calls_in more
calls_in (clause (remove_step items) more) = calls_in more
calls_in (clause (delete_step es detach) more) = calls_in more

unfoldable mutual
  pub statement_pages : Statement → List Expr
  statement_pages (match_statement (match_all_of pats os w between r t)) =
      tail_pages t ++ between_pages between
  statement_pages (create_statement (create_all_of pats t)) = ending_pages t
  statement_pages (match_create (match_and_create pats w created t)) = ending_pages t
  statement_pages (match_merge (match_and_merge pats w merged on_create on_match t)) =
      ending_pages t
  statement_pages (delete_statement (delete_all_of pats os w detach es t)) = ending_pages t
  statement_pages (set_statement (set_all_of pats os w items between t)) =
      ending_pages t ++ between_pages between
  statement_pages (remove_statement (remove_all_of pats os w items t)) = ending_pages t
  statement_pages (merge_statement (merge_all_of pat on_create on_match t)) = ending_pages t
  statement_pages (unwind_statement (unwind_each e v (unwind_return w between r t))) =
      tail_pages t ++ between_pages between
  statement_pages (unwind_statement (unwind_each e v (unwind_create pats between t))) =
      ending_pages t ++ between_pages between
  statement_pages (return_statement (return_all_of r t)) = tail_pages t
  statement_pages (multi_clause (clauses_of cs t)) = ending_pages t ++ clauses_pages cs
  statement_pages (explain stmt) = statement_pages stmt
  statement_pages (union stmts all) = union_pages stmts
  statement_pages (call name args implicit yields all t) = ending_pages t
  statement_pages (create_index label properties) = []
  statement_pages (drop_index label properties) = []

  pub union_pages : Statements → List Expr
  union_pages no_statements = []
  union_pages (statement s more) = statement_pages s ++ union_pages more

-- A CALL or a statement on an index, in the statement or a branch of it.
unfoldable mutual
  pub calls : Statement → Bool
  calls (call name args implicit yields all t) = true
  calls (create_index label properties) = true
  calls (drop_index label properties) = true
  calls (multi_clause (clauses_of cs t)) = calls_in cs
  calls (explain stmt) = calls stmt
  calls (union stmts all) = any_calls stmts
  calls (match_statement s) = false
  calls (create_statement s) = false
  calls (match_create s) = false
  calls (match_merge s) = false
  calls (delete_statement s) = false
  calls (set_statement s) = false
  calls (remove_statement s) = false
  calls (merge_statement s) = false
  calls (unwind_statement s) = false
  calls (return_statement s) = false

  pub any_calls : Statements → Bool
  any_calls no_statements = false
  any_calls (statement s more) = calls s || any_calls more
