-- ===== src/Checks/Statements.antt =====
-- MATCH (n:Person {name: $name}) RETURN n SKIP $from LIMIT 10, with and without its parameters.
use graphdblite.Base.{◌⊎◌, ◌≡◌, refl, ◌↔◌, false, true, none, some, [], ◌∷◌, ◌++◌, All, text}
use graphdblite.Base.Int.{pos}
use graphdblite.Types.Error.{
  ok, err, query, argument_error, semantic_analysis, other, syntax_error, parse, undefined_variable,
}
use graphdblite.Types.Value.{Fields, string, no_fields, field, get_field}
use graphdblite.Cypher.Planner.Scope.{check_expr_variables_inner, validate_expr_in_scope, ◌next◌}
use graphdblite.Cypher.Planner.Scope.Names.{outer_variables}
use graphdblite.Cypher.Planner.Scope.Laws.{Verdict, check_expr_variables_lem}
use graphdblite.Cypher.Ast.{
  binary_op, property, op_eq, Statement, Expr, literal, i64_literal, variable, parameter, an_expr,
  no_expr, no_entries, entry, node_pattern, node_element, no_elements, element, pattern_of,
  no_shortest, no_patterns, pattern_in, no_optional, return_item, no_return_items, returned,
  no_sort_items, return_clause, no_intermediate, tail_of, match_all_of, match_statement,
}
use graphdblite.Cypher.Params.{validate_params}
use graphdblite.Cypher.Params.References.{expr_params, statement_params}
use graphdblite.Cypher.Params.Laws.{IsGiven, validate_params-ok, validate_params-missing}
use graphdblite.Cypher.Cacheable.{is_plan_cacheable}
use graphdblite.Cypher.Cacheable.Paging.{calls, statement_pages}
use graphdblite.Cypher.Cacheable.Flat.{is_flat}
use graphdblite.Cypher.Cacheable.Laws.{is_plan_cacheable_lem}

abbrev query_with : Expr → Statement
query_with skip = match_statement (
    match_all_of
      (pattern_in
        (pattern_of
          (element
            (node_element (
              node_pattern (some (text "n")) (text "Person" ∷ [])
                (entry (text "name") (parameter (text "name")) no_entries)))
            no_elements)
          none no_shortest)
        no_patterns)
      no_optional no_expr no_intermediate
      (return_clause (returned (return_item (variable (text "n")) none) no_return_items) false)
      (tail_of no_sort_items (an_expr skip) (an_expr (literal (i64_literal (pos 10))))))

abbrev some_given : Fields
some_given = field (text "name") (string (text "Alice")) no_fields

references :
    statement_params true (query_with (parameter (text "from"))) ≡ text "name" ∷ text "from" ∷ []
unfolding statement_params
references = refl

name-IsGiven : IsGiven some_given (text "name")
unfolding get_field
name-IsGiven = (string (text "Alice"), refl)

from_absent : get_field (text "from") some_given ≡ none
unfolding get_field
from_absent = refl

validate_params-ok_example :
    (validate_params (query_with (parameter (text "name"))) some_given ≡ ok tt)
    ↔ All (IsGiven some_given) (statement_params true (query_with (parameter (text "name"))))
validate_params-ok_example = validate_params-ok (query_with (parameter (text "name"))) some_given

validate_params-missing_example :
    validate_params (query_with (parameter (text "from"))) some_given
    ≡ err (
        query (argument_error semantic_analysis other (text "missing parameter: $" ++ text "from")))
validate_params-missing_example =
    validate_params-missing (query_with (parameter (text "from"))) some_given (text "name" ∷ []) []
      (text "from") references (name-IsGiven, tt) from_absent

is_plan_cacheable_lem_example :
    ((is_plan_cacheable (query_with (parameter (text "from"))) ≡ true) ↔ (
      (calls (query_with (parameter (text "from"))) ≡ false)
      × All
          (λ e. expr_params false e ≡ [])
          (statement_pages (query_with (parameter (text "from"))))))
    × All
        (λ e. (is_flat e ≡ false) ⊎ (expr_params false e ≡ expr_params true e))
        (statement_pages (query_with (parameter (text "from"))))
is_plan_cacheable_lem_example = is_plan_cacheable_lem (query_with (parameter (text "from")))

-- n.age = m
abbrev older : Expr
older = binary_op (property (text "n") (text "age")) op_eq (variable (text "m"))

check_expr_variables_lem_example :
    Verdict
      (outer_variables older)
      (text "n" ∷ [])
      (check_expr_variables_inner older (text "n" ∷ []))
    × ((check_expr_variables_inner older (text "n" ∷ [])
          next validate_expr_in_scope older (text "n" ∷ []))
        ≡ check_expr_variables_inner older (text "n" ∷ []))
check_expr_variables_lem_example = check_expr_variables_lem older (text "n" ∷ [])

-- The variable that is not in scope is named.
older_refused :
    check_expr_variables_inner older (text "n" ∷ [])
    ≡ err (query (syntax_error parse undefined_variable (text "m")))
unfolding check_expr_variables_inner
older_refused = refl
