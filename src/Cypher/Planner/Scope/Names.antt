-- ===== src/Cypher/Planner/Scope/Names.antt =====
-- cypher/planner/validation.rs: the variables that an expression reads outside the bodies of
-- comprehensions and quantifiers, patterns and subqueries, from left to right.
use graphdblite.Base.{List, [], ◌∷◌, ◌++◌, Bytes}
use graphdblite.Cypher.Ast.{
  Expr, Exprs, MaybeExpr, Alternatives, Entries, literal, property, variable, parameter, binary_op,
  not_of, is_null, is_not_null, function_call, case_of, list_of, list_comprehension,
  pattern_comprehension, exists, exists_subquery, map_literal, index, dot_access, slice, quantifier,
  has_label, pattern_predicate, star, no_exprs, expr, no_expr, an_expr, no_alternatives,
  alternative, no_entries, entry,
}

unfoldable mutual
  pub outer_variables : Expr → List Bytes
  outer_variables (variable v) = v ∷ []
  outer_variables (property v p) = v ∷ []
  outer_variables (has_label v labels) = v ∷ []
  outer_variables (binary_op left op right) = outer_variables left ++ outer_variables right
  outer_variables (not_of e) = outer_variables e
  outer_variables (is_null e) = outer_variables e
  outer_variables (is_not_null e) = outer_variables e
  outer_variables (function_call name args distinct written) = variables_of_each args
  outer_variables (case_of operand alternatives default) =
      variables_of_maybe operand
      ++ (variables_of_alternatives alternatives ++ variables_of_maybe default)
  outer_variables (list_of items) = variables_of_each items
  outer_variables (map_literal pairs) = variables_of_pairs pairs
  outer_variables (index e i) = outer_variables e ++ outer_variables i
  outer_variables (slice e start end) =
      outer_variables e ++ (variables_of_maybe start ++ variables_of_maybe end)
  outer_variables (dot_access e key) = outer_variables e
  outer_variables (list_comprehension v list_expr filter map_expr) = outer_variables list_expr
  outer_variables (quantifier kind v list_expr predicate) = outer_variables list_expr
  outer_variables (literal v) = []
  outer_variables (parameter name) = []
  outer_variables star = []
  outer_variables (exists pats where_expr) = []
  outer_variables (exists_subquery stmt) = []
  outer_variables (pattern_predicate pat) = []
  outer_variables (pattern_comprehension path pat where_expr map_expr) = []

  pub variables_of_each : Exprs → List Bytes
  variables_of_each no_exprs = []
  variables_of_each (expr e es) = outer_variables e ++ variables_of_each es

  pub variables_of_maybe : MaybeExpr → List Bytes
  variables_of_maybe no_expr = []
  variables_of_maybe (an_expr e) = outer_variables e

  pub variables_of_alternatives : Alternatives → List Bytes
  variables_of_alternatives no_alternatives = []
  variables_of_alternatives (alternative cond result more) =
      outer_variables cond ++ (outer_variables result ++ variables_of_alternatives more)

  pub variables_of_pairs : Entries → List Bytes
  variables_of_pairs no_entries = []
  variables_of_pairs (entry key e more) = outer_variables e ++ variables_of_pairs more
