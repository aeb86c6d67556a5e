-- ===== src/Types/Error.antt =====
-- types.rs: the error types. The hints and source spans, which only change how an error is shown,
-- are left out; the message of another library's error is a byte string.
use graphdblite.Base.{ℕ, Bytes, List, ◌≡◌, refl, ◌⊎◌, inl, inr}

pub data QueryPhase : Type 0 where
  parse semantic_analysis runtime : QueryPhase

pub data ErrorCode : Type 0 where
  other ambiguous_aggregation_expression creating_var_length delete_connected_node : ErrorCode
  deleted_entity_access different_columns_in_union invalid_aggregation : ErrorCode
  invalid_argument_passing_mode invalid_argument_type invalid_argument_value : ErrorCode
  invalid_clause_composition invalid_delete invalid_number_of_arguments : ErrorCode
  invalid_property_type invalid_unicode_literal map_element_access_by_non_string : ErrorCode
  merge_read_own_writes missing_parameter negative_integer_argument no_expression_alias : ErrorCode
  no_single_relationship_type non_constant_expression number_out_of_range : ErrorCode
  procedure_not_found requires_directed_relationship undefined_variable unknown_function : ErrorCode
  unexpected_syntax variable_already_bound variable_type_conflict : ErrorCode

pub data QueryError : Type 0 where
  syntax_error type_error semantic_error entity_not_found :
      QueryPhase → ErrorCode → Bytes → QueryError
  argument_error arithmetic_error : QueryPhase → ErrorCode → Bytes → QueryError
  constraint_violation procedure_error : QueryPhase → ErrorCode → Bytes → QueryError

pub data GraphError : Type 0 where
  storage : Bytes → GraphError
  serialization : Bytes → GraphError
  query : QueryError → GraphError
  node_not_found : ℕ → GraphError
  edge_not_found : ℕ → Bytes → ℕ → GraphError
  has_edges : ℕ → GraphError
  transaction : Bytes → GraphError
  index_already_exists index_not_found : Bytes → List Bytes → GraphError
  invalid_index_definition : Bytes → GraphError
  invalid_name : Bytes → GraphError
  size_limit : Bytes → ℕ → ℕ → GraphError
  schema_mismatch : ℕ → ℕ → GraphError

-- `Result<T, GraphError>`.
pub data Result {ℓ} (A : Type ℓ) : Type ℓ where
  ok : A → Result A
  err : GraphError → Result A

pub Result-cases {ℓ} :
    {A : Type ℓ} (r : Result A) → ((e : GraphError) × (r ≡ err e)) ⊎ ((a : A) × (r ≡ ok a))
Result-cases (ok a) = inr (a, refl)
Result-cases (err e) = inl (e, refl)
