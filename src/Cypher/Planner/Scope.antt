-- ===== src/Cypher/Planner/Scope.antt =====
-- cypher/planner/validation.rs: the variables of an expression against those in scope. A scope is the
-- list of its names.
pub mod Names
pub mod Laws
use graphdblite.Base.{Bool, false, ◌||◌, List, [], ◌∷◌, ◌++◌, if◌then◌else◌, Bytes, bytes_eq}
use graphdblite.Types.Error.{Result, ok, err, query, syntax_error, parse, undefined_variable}
use graphdblite.Cypher.Ast.{
  Expr, Exprs, MaybeExpr, Alternatives, Entries, literal, property, variable, parameter, binary_op,
  not_of, is_null, is_not_null, function_call, case_of, list_of, list_comprehension,
  pattern_comprehension, exists, exists_subquery, map_literal, index, dot_access, slice, quantifier,
  has_label, pattern_predicate, star, no_exprs, expr, no_expr, an_expr, no_alternatives,
  alternative, no_entries, entry,
}

abbrev pub in_scope : Bytes → List Bytes → Bool
in_scope name [] = false
in_scope name (v ∷ vs) = bytes_eq v name || in_scope name vs

abbrev pub undefined : Bytes → Result (Unit {0})
undefined name = err (query (syntax_error parse undefined_variable name))

abbrev pub check_variable : Bytes → List Bytes → Result (Unit {0})
check_variable name scope = if in_scope name scope then ok tt else undefined name

infixl 20 ◌next◌
abbrev pub ◌next◌ : Result (Unit {0}) → Result (Unit {0}) → Result (Unit {0})
ok u next more = more
err e next more = err e

unfoldable mutual
  pub check_expr_variables_inner : Expr → List Bytes → Result (Unit {0})
  check_expr_variables_inner (variable v) scope = check_variable v scope
  check_expr_variables_inner (property v p) scope = check_variable v scope
  check_expr_variables_inner (binary_op left op right) scope =
      check_expr_variables_inner left scope next check_expr_variables_inner right scope
  check_expr_variables_inner (not_of e) scope = check_expr_variables_inner e scope
  check_expr_variables_inner (is_null e) scope = check_expr_variables_inner e scope
  check_expr_variables_inner (is_not_null e) scope = check_expr_variables_inner e scope
  check_expr_variables_inner (function_call name args distinct written) scope =
      check_each args scope
  check_expr_variables_inner (case_of operand alternatives default) scope =
      check_maybe operand scope
      next check_alternatives alternatives scope
      next check_maybe default scope
  check_expr_variables_inner (list_of items) scope = check_each items scope
  check_expr_variables_inner (map_literal pairs) scope = check_pairs pairs scope
  check_expr_variables_inner (index e i) scope =
      check_expr_variables_inner e scope next check_expr_variables_inner i scope
  check_expr_variables_inner (slice e start end) scope =
      check_expr_variables_inner e scope next check_maybe start scope next check_maybe end scope
  check_expr_variables_inner (literal v) scope = ok tt
  check_expr_variables_inner (parameter name) scope = ok tt
  check_expr_variables_inner star scope = ok tt
  check_expr_variables_inner (list_comprehension v list_expr filter map_expr) scope =
      check_expr_variables_inner list_expr scope
  check_expr_variables_inner (quantifier kind v list_expr predicate) scope =
      check_expr_variables_inner list_expr scope
  check_expr_variables_inner (exists pats where_expr) scope = ok tt
  check_expr_variables_inner (exists_subquery stmt) scope = ok tt
  check_expr_variables_inner (pattern_predicate pat) scope = ok tt
  check_expr_variables_inner (pattern_comprehension path pat where_expr map_expr) scope = ok tt
  check_expr_variables_inner (dot_access e key) scope = check_expr_variables_inner e scope
  check_expr_variables_inner (has_label v labels) scope = check_variable v scope

  pub check_each : Exprs → List Bytes → Result (Unit {0})
  check_each no_exprs scope = ok tt
  check_each (expr e es) scope = check_expr_variables_inner e scope next check_each es scope

  pub check_maybe : MaybeExpr → List Bytes → Result (Unit {0})
  check_maybe no_expr scope = ok tt
  check_maybe (an_expr e) scope = check_expr_variables_inner e scope

  pub check_alternatives : Alternatives → List Bytes → Result (Unit {0})
  check_alternatives no_alternatives scope = ok tt
  check_alternatives (alternative cond result more) scope =
      check_expr_variables_inner cond scope
      next check_expr_variables_inner result scope
      next check_alternatives more scope

  pub check_pairs : Entries → List Bytes → Result (Unit {0})
  check_pairs no_entries scope = ok tt
  check_pairs (entry key e more) scope =
      check_expr_variables_inner e scope next check_pairs more scope

-- The names from left to right; the source collects them in a set.
unfoldable mutual
  pub collect_variables_from_expr : Expr → List Bytes
  collect_variables_from_expr (variable v) = v ∷ []
  collect_variables_from_expr (property v p) = v ∷ []
  collect_variables_from_expr (binary_op left op right) =
      collect_variables_from_expr left ++ collect_variables_from_expr right
  collect_variables_from_expr (function_call name args distinct written) = collect_each args
  collect_variables_from_expr (not_of e) = collect_variables_from_expr e
  collect_variables_from_expr (is_null e) = collect_variables_from_expr e
  collect_variables_from_expr (is_not_null e) = collect_variables_from_expr e
  collect_variables_from_expr e = []

  pub collect_each : Exprs → List Bytes
  collect_each no_exprs = []
  collect_each (expr e es) = collect_variables_from_expr e ++ collect_each es

unfoldable mutual
  pub expr_references_var : Expr → Bytes → Bool
  expr_references_var (variable v) name = bytes_eq v name
  expr_references_var (property v p) name = bytes_eq v name
  expr_references_var (binary_op left op right) name =
      expr_references_var left name || expr_references_var right name
  expr_references_var (not_of e) name = expr_references_var e name
  expr_references_var (is_null e) name = expr_references_var e name
  expr_references_var (is_not_null e) name = expr_references_var e name
  expr_references_var (function_call f args distinct written) name = any_references args name
  expr_references_var e name = false

  pub any_references : Exprs → Bytes → Bool
  any_references no_exprs name = false
  any_references (expr e es) name = expr_references_var e name || any_references es name

-- The walk of `validate_expr_in_scope`.
unfoldable mutual
  pub validate_expr_in_scope : Expr → List Bytes → Result (Unit {0})
  validate_expr_in_scope (variable v) scope = check_variable v scope
  validate_expr_in_scope (property v p) scope = check_variable v scope
  validate_expr_in_scope (binary_op left op right) scope =
      validate_expr_in_scope left scope next validate_expr_in_scope right scope
  validate_expr_in_scope (function_call name args distinct written) scope =
      validate_each_in_scope args scope
  validate_expr_in_scope (not_of e) scope = validate_expr_in_scope e scope
  validate_expr_in_scope (is_null e) scope = validate_expr_in_scope e scope
  validate_expr_in_scope (is_not_null e) scope = validate_expr_in_scope e scope
  validate_expr_in_scope (list_of items) scope = validate_each_in_scope items scope
  validate_expr_in_scope e scope = ok tt

  pub validate_each_in_scope : Exprs → List Bytes → Result (Unit {0})
  validate_each_in_scope no_exprs scope = ok tt
  validate_each_in_scope (expr e es) scope =
      validate_expr_in_scope e scope next validate_each_in_scope es scope
