-- ===== src/Cypher/Cacheable/Flat.antt =====
-- Expressions without patterns and subqueries, whose parameters all stand outside them.
use graphdblite.Base.{Bool, true, false, ◌&&◌, ◌≡◌, refl}
use graphdblite.Cypher.Ast.{
  Expr, Exprs, MaybeExpr, Alternatives, Entries, literal, property, variable, parameter, binary_op,
  not_of, is_null, is_not_null, function_call, case_of, list_of, list_comprehension,
  pattern_comprehension, exists, exists_subquery, map_literal, index, dot_access, slice, quantifier,
  has_label, pattern_predicate, star, no_exprs, expr, no_expr, an_expr, no_alternatives,
  alternative, no_entries, entry,
}
use graphdblite.Cypher.Params.References.{
  expr_params, exprs_params, maybe_params, alternatives_params, props_params,
}

unfoldable mutual
  pub is_flat : Expr → Bool
  is_flat (binary_op left op right) = is_flat left && is_flat right
  is_flat (not_of e) = is_flat e
  is_flat (is_null e) = is_flat e
  is_flat (is_not_null e) = is_flat e
  is_flat (function_call name args distinct written) = are_flat args
  is_flat (case_of operand alternatives default) =
      maybe_flat operand && (alternatives_flat alternatives && maybe_flat default)
  is_flat (list_of items) = are_flat items
  is_flat (list_comprehension v list_expr filter map_expr) =
      is_flat list_expr && (maybe_flat filter && maybe_flat map_expr)
  is_flat (quantifier kind v list_expr predicate) = is_flat list_expr && is_flat predicate
  is_flat (map_literal pairs) = pairs_flat pairs
  is_flat (index e i) = is_flat e && is_flat i
  is_flat (dot_access e key) = is_flat e
  is_flat (slice e start end) = is_flat e && (maybe_flat start && maybe_flat end)
  is_flat (parameter name) = true
  is_flat (literal v) = true
  is_flat (property v p) = true
  is_flat (variable v) = true
  is_flat (has_label v labels) = true
  is_flat star = true
  is_flat (pattern_comprehension path pat where_expr map_expr) = false
  is_flat (exists pats where_expr) = false
  is_flat (exists_subquery stmt) = false
  is_flat (pattern_predicate pat) = false

  pub are_flat : Exprs → Bool
  are_flat no_exprs = true
  are_flat (expr e es) = is_flat e && are_flat es

  pub maybe_flat : MaybeExpr → Bool
  maybe_flat no_expr = true
  maybe_flat (an_expr e) = is_flat e

  pub alternatives_flat : Alternatives → Bool
  alternatives_flat no_alternatives = true
  alternatives_flat (alternative cond result more) =
      is_flat cond && (is_flat result && alternatives_flat more)

  pub pairs_flat : Entries → Bool
  pairs_flat no_entries = true
  pairs_flat (entry key e more) = is_flat e && pairs_flat more

two : (a b : Bool) → (a && b) ≡ true → (a ≡ true) × (b ≡ true)
two true b h = (refl, h)
two false b h = cc

three : (a b c : Bool) → (a && (b && c)) ≡ true → (a ≡ true) × (b ≡ true) × (c ≡ true)
three true true c h = (refl, refl, h)
three true false c h = cc
three false b c h = cc

mutual
  unfolding expr_params exprs_params maybe_params alternatives_params props_params is_flat are_flat
      maybe_flat alternatives_flat pairs_flat

  pub flat_params : (e : Expr) → is_flat e ≡ true → expr_params true e ≡ expr_params false e
  flat_params (binary_op left op right) h =
      let (a, b) = two (is_flat left) (is_flat right) h in
      rw (flat_params left a, flat_params right b) refl
  flat_params (not_of e) h = flat_params e h
  flat_params (is_null e) h = flat_params e h
  flat_params (is_not_null e) h = flat_params e h
  flat_params (function_call name args distinct written) h = flat_each args h
  flat_params (case_of operand alternatives default) h =
      let (a, b, c) =
        three (maybe_flat operand) (alternatives_flat alternatives) (maybe_flat default) h in
      rw (flat_maybe operand a, flat_alternatives alternatives b, flat_maybe default c) refl
  flat_params (list_of items) h = flat_each items h
  flat_params (list_comprehension v list_expr filter map_expr) h =
      let (a, b, c) = three (is_flat list_expr) (maybe_flat filter) (maybe_flat map_expr) h in
      rw (flat_params list_expr a, flat_maybe filter b, flat_maybe map_expr c) refl
  flat_params (quantifier kind v list_expr predicate) h =
      let (a, b) = two (is_flat list_expr) (is_flat predicate) h in
      rw (flat_params list_expr a, flat_params predicate b) refl
  flat_params (map_literal pairs) h = flat_pairs pairs h
  flat_params (index e i) h =
      let (a, b) = two (is_flat e) (is_flat i) h in rw (flat_params e a, flat_params i b) refl
  flat_params (dot_access e key) h = flat_params e h
  flat_params (slice e start end) h =
      let (a, b, c) = three (is_flat e) (maybe_flat start) (maybe_flat end) h in
      rw (flat_params e a, flat_maybe start b, flat_maybe end c) refl
  flat_params (parameter name) h = refl
  flat_params (literal v) h = refl
  flat_params (property v p) h = refl
  flat_params (variable v) h = refl
  flat_params (has_label v labels) h = refl
  flat_params star h = refl
  flat_params (pattern_comprehension path pat where_expr map_expr) h = cc
  flat_params (exists pats where_expr) h = cc
  flat_params (exists_subquery stmt) h = cc
  flat_params (pattern_predicate pat) h = cc

  flat_each : (es : Exprs) → are_flat es ≡ true → exprs_params true es ≡ exprs_params false es
  flat_each no_exprs h = refl
  flat_each (expr e es) h =
      let (a, b) = two (is_flat e) (are_flat es) h in rw (flat_params e a, flat_each es b) refl

  flat_maybe : (e : MaybeExpr) → maybe_flat e ≡ true → maybe_params true e ≡ maybe_params false e
  flat_maybe no_expr h = refl
  flat_maybe (an_expr e) h = flat_params e h

  flat_alternatives :
      (alternatives : Alternatives)
      → alternatives_flat alternatives ≡ true
      → alternatives_params true alternatives ≡ alternatives_params false alternatives
  flat_alternatives no_alternatives h = refl
  flat_alternatives (alternative cond result more) h =
      let (a, b, c) = three (is_flat cond) (is_flat result) (alternatives_flat more) h in
      rw (flat_params cond a, flat_params result b, flat_alternatives more c) refl

  flat_pairs :
      (pairs : Entries)
      → pairs_flat pairs ≡ true
      → props_params true pairs ≡ props_params false pairs
  flat_pairs no_entries h = refl
  flat_pairs (entry key e more) h =
      let (a, b) = two (is_flat e) (pairs_flat more) h in
      rw (flat_params e a, flat_pairs more b) refl
