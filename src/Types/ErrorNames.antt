-- ===== src/Types/ErrorNames.antt =====
-- types.rs: how errors name their code and phase.
use graphdblite.Base.{Bytes, text}
use graphdblite.Types.Error.{
  ErrorCode, QueryPhase, parse, semantic_analysis, runtime, other, ambiguous_aggregation_expression,
  creating_var_length, delete_connected_node, deleted_entity_access, different_columns_in_union,
  invalid_aggregation, invalid_argument_passing_mode, invalid_argument_type, invalid_argument_value,
  invalid_clause_composition, invalid_delete, invalid_number_of_arguments, invalid_property_type,
  invalid_unicode_literal, map_element_access_by_non_string, merge_read_own_writes,
  missing_parameter, negative_integer_argument, no_expression_alias, no_single_relationship_type,
  non_constant_expression, number_out_of_range, procedure_not_found, requires_directed_relationship,
  undefined_variable, unknown_function, unexpected_syntax, variable_already_bound,
  variable_type_conflict,
}

unfoldable pub as_str : ErrorCode → Bytes
as_str other = text "Other"
as_str ambiguous_aggregation_expression = text "AmbiguousAggregationExpression"
as_str creating_var_length = text "CreatingVarLength"
as_str delete_connected_node = text "DeleteConnectedNode"
as_str deleted_entity_access = text "DeletedEntityAccess"
as_str different_columns_in_union = text "DifferentColumnsInUnion"
as_str invalid_aggregation = text "InvalidAggregation"
as_str invalid_argument_passing_mode = text "InvalidArgumentPassingMode"
as_str invalid_argument_type = text "InvalidArgumentType"
as_str invalid_argument_value = text "InvalidArgumentValue"
as_str invalid_clause_composition = text "InvalidClauseComposition"
as_str invalid_delete = text "InvalidDelete"
as_str invalid_number_of_arguments = text "InvalidNumberOfArguments"
as_str invalid_property_type = text "InvalidPropertyType"
as_str invalid_unicode_literal = text "InvalidUnicodeLiteral"
as_str map_element_access_by_non_string = text "MapElementAccessByNonString"
as_str merge_read_own_writes = text "MergeReadOwnWrites"
as_str missing_parameter = text "MissingParameter"
as_str negative_integer_argument = text "NegativeIntegerArgument"
as_str no_expression_alias = text "NoExpressionAlias"
as_str no_single_relationship_type = text "NoSingleRelationshipType"
as_str non_constant_expression = text "NonConstantExpression"
as_str number_out_of_range = text "NumberOutOfRange"
as_str procedure_not_found = text "ProcedureNotFound"
as_str requires_directed_relationship = text "RequiresDirectedRelationship"
as_str undefined_variable = text "UndefinedVariable"
as_str unknown_function = text "UnknownFunction"
as_str unexpected_syntax = text "UnexpectedSyntax"
as_str variable_already_bound = text "VariableAlreadyBound"
as_str variable_type_conflict = text "VariableTypeConflict"

unfoldable pub phase_name : QueryPhase → Bytes
phase_name parse = text "parse"
phase_name semantic_analysis = text "semantic analysis"
phase_name runtime = text "runtime"
