-- ===== src/Cypher/Ast.antt =====
-- cypher/ast.rs: statements, clauses, patterns and expressions, constructor by constructor and field
-- by field. A span, which equality passes over, is left out: an `Expr` is its kind. A map of
-- properties is the list of its entries in the order of its iteration. Lists and options of the
-- types that are defined together are types of the same block.
use graphdblite.Base.{ℕ, Bool, Option, List, Bytes}
use graphdblite.Base.Int.{ℤ}

pub data BinOp : Type 0 where
  op_eq op_neq op_lt op_gt op_lte op_gte op_and op_or op_xor op_starts_with op_ends_with : BinOp
  op_contains op_regex_match op_in op_add op_sub op_mul op_div op_mod op_pow : BinOp

pub data RelDirection : Type 0 where
  rel_outgoing rel_incoming rel_undirected : RelDirection

pub data ShortestPathMode : Type 0 where
  no_shortest single_shortest all_shortest : ShortestPathMode

pub data QuantifierKind : Type 0 where
  none_of single_of any_of all_of : QuantifierKind

pub data LiteralValue : Type 0 where
  null_literal : LiteralValue
  bool_literal : Bool → LiteralValue
  i64_literal : ℤ → LiteralValue
  f64_literal : ℕ → LiteralValue
  string_literal : Bytes → LiteralValue

-- The columns that YIELD names, with their aliases.
abbrev pub YieldItems : Type 0
YieldItems = Option (List (Bytes × Option Bytes))

pub data RemoveItem : Type 0 where
  remove_property : Bytes → Bytes → RemoveItem
  remove_label : Bytes → List Bytes → RemoveItem

mutual
  pub data Expr : Type 0 where
    literal : LiteralValue → Expr
    property : Bytes → Bytes → Expr
    variable parameter : Bytes → Expr
    binary_op : Expr → BinOp → Expr → Expr
    not_of is_null is_not_null : Expr → Expr
    function_call : Bytes → Exprs → Bool → Option Bytes → Expr
    case_of : MaybeExpr → Alternatives → MaybeExpr → Expr
    list_of : Exprs → Expr
    list_comprehension : Bytes → Expr → MaybeExpr → MaybeExpr → Expr
    pattern_comprehension : Option Bytes → Pattern → MaybeExpr → Expr → Expr
    exists : Patterns → MaybeExpr → Expr
    exists_subquery : Statement → Expr
    map_literal : Entries → Expr
    index : Expr → Expr → Expr
    dot_access : Expr → Bytes → Expr
    slice : Expr → MaybeExpr → MaybeExpr → Expr
    quantifier : QuantifierKind → Bytes → Expr → Expr → Expr
    has_label : Bytes → List Bytes → Expr
    pattern_predicate : Pattern → Expr
    star : Expr

  pub data Exprs : Type 0 where
    no_exprs : Exprs
    expr : Expr → Exprs → Exprs

  pub data MaybeExpr : Type 0 where
    no_expr : MaybeExpr
    an_expr : Expr → MaybeExpr

  -- The WHEN and THEN parts of CASE.
  pub data Alternatives : Type 0 where
    no_alternatives : Alternatives
    alternative : Expr → Expr → Alternatives → Alternatives

  pub data Entries : Type 0 where
    no_entries : Entries
    entry : Bytes → Expr → Entries → Entries

  pub data NodePattern : Type 0 where
    node_pattern : Option Bytes → List Bytes → Entries → NodePattern

  pub data RelPattern : Type 0 where
    rel_pattern : Option Bytes → List Bytes → Entries → RelDirection → Option (ℕ × ℕ) → RelPattern

  pub data PatternElement : Type 0 where
    node_element : NodePattern → PatternElement
    relationship_element : RelPattern → PatternElement

  pub data PatternElements : Type 0 where
    no_elements : PatternElements
    element : PatternElement → PatternElements → PatternElements

  pub data Pattern : Type 0 where
    pattern_of : PatternElements → Option Bytes → ShortestPathMode → Pattern

  pub data Patterns : Type 0 where
    no_patterns : Patterns
    pattern_in : Pattern → Patterns → Patterns

  pub data OptionalMatch : Type 0 where
    optional_match : Patterns → MaybeExpr → OptionalMatch

  pub data OptionalMatches : Type 0 where
    no_optional : OptionalMatches
    optional : OptionalMatch → OptionalMatches → OptionalMatches

  -- Variable, property, value.
  pub data Assignment : Type 0 where
    assignment : Bytes → Bytes → Expr → Assignment

  pub data SetItem : Type 0 where
    set_property : Assignment → SetItem
    set_label : Bytes → List Bytes → SetItem
    set_map_overwrite set_map_merge : Bytes → Expr → SetItem

  pub data SetItems : Type 0 where
    no_set_items : SetItems
    set_item : SetItem → SetItems → SetItems

  -- The expression and its alias.
  pub data ReturnItem : Type 0 where
    return_item : Expr → Option Bytes → ReturnItem

  pub data ReturnItems : Type 0 where
    no_return_items : ReturnItems
    returned : ReturnItem → ReturnItems → ReturnItems

  -- The flag is DESC.
  pub data SortItem : Type 0 where
    sort_item : Expr → Bool → SortItem

  pub data SortItems : Type 0 where
    no_sort_items : SortItems
    sorted_by : SortItem → SortItems → SortItems

  pub data ReturnClause : Type 0 where
    return_clause : ReturnItems → Bool → ReturnClause

  pub data MaybeReturn : Type 0 where
    no_return : MaybeReturn
    a_return : ReturnClause → MaybeReturn

  -- Items, DISTINCT, ORDER BY, SKIP, LIMIT, WHERE.
  pub data WithClause : Type 0 where
    with_clause : ReturnItems → Bool → SortItems → MaybeExpr → MaybeExpr → MaybeExpr → WithClause

  pub data UnwindClause : Type 0 where
    unwind_clause : Expr → Bytes → UnwindClause

  pub data IntermediateMatch : Type 0 where
    intermediate_match : Patterns → OptionalMatches → MaybeExpr → IntermediateMatch

  pub data IntermediateClause : Type 0 where
    with_between : WithClause → IntermediateClause
    unwind_between : UnwindClause → IntermediateClause
    match_between : IntermediateMatch → IntermediateClause

  pub data IntermediateClauses : Type 0 where
    no_intermediate : IntermediateClauses
    intermediate : IntermediateClause → IntermediateClauses → IntermediateClauses

  pub data Clause : Type 0 where
    match_step : Patterns → OptionalMatches → MaybeExpr → Clause
    create_step : Patterns → Clause
    merge_step : Pattern → SetItems → SetItems → Clause
    with_step : WithClause → Clause
    unwind_step : UnwindClause → Clause
    set_step : SetItems → Clause
    remove_step : List RemoveItem → Clause
    call_step : Bytes → Exprs → Bool → YieldItems → Bool → Clause
    delete_step : Exprs → Bool → Clause

  pub data Clauses : Type 0 where
    no_clauses : Clauses
    clause : Clause → Clauses → Clauses

  -- The fields that a statement ends with after RETURN: ORDER BY, SKIP, LIMIT.
  pub data Tail : Type 0 where
    tail_of : SortItems → MaybeExpr → MaybeExpr → Tail

  -- The same, with RETURN before them where the statement need not return.
  pub data Ending : Type 0 where
    ending_of : MaybeReturn → SortItems → MaybeExpr → MaybeExpr → Ending

  pub data MatchStatement : Type 0 where
    match_all_of :
        Patterns
        → OptionalMatches
        → MaybeExpr
        → IntermediateClauses
        → ReturnClause
        → Tail
        → MatchStatement

  pub data CreateStatement : Type 0 where
    create_all_of : Patterns → Ending → CreateStatement

  -- The second patterns are those created.
  pub data MatchCreateStatement : Type 0 where
    match_and_create : Patterns → MaybeExpr → Patterns → Ending → MatchCreateStatement

  -- ON CREATE, then ON MATCH.
  pub data MatchMergeStatement : Type 0 where
    match_and_merge :
        Patterns → MaybeExpr → Pattern → SetItems → SetItems → Ending → MatchMergeStatement

  -- The flag is DETACH.
  pub data DeleteStatement : Type 0 where
    delete_all_of : Patterns → OptionalMatches → MaybeExpr → Bool → Exprs → Ending → DeleteStatement

  pub data SetStatement : Type 0 where
    set_all_of :
        Patterns
        → OptionalMatches
        → MaybeExpr
        → SetItems
        → IntermediateClauses
        → Ending
        → SetStatement

  pub data RemoveStatement : Type 0 where
    remove_all_of :
        Patterns → OptionalMatches → MaybeExpr → List RemoveItem → Ending → RemoveStatement

  pub data MergeStatement : Type 0 where
    merge_all_of : Pattern → SetItems → SetItems → Ending → MergeStatement

  pub data UnwindBody : Type 0 where
    unwind_return : MaybeExpr → IntermediateClauses → ReturnClause → Tail → UnwindBody
    unwind_create : Patterns → IntermediateClauses → Ending → UnwindBody

  pub data UnwindStatement : Type 0 where
    unwind_each : Expr → Bytes → UnwindBody → UnwindStatement

  pub data ReturnStatement : Type 0 where
    return_all_of : ReturnClause → Tail → ReturnStatement

  pub data MultiClauseStatement : Type 0 where
    clauses_of : Clauses → Ending → MultiClauseStatement

  pub data Statement : Type 0 where
    match_statement : MatchStatement → Statement
    create_statement : CreateStatement → Statement
    match_create : MatchCreateStatement → Statement
    match_merge : MatchMergeStatement → Statement
    delete_statement : DeleteStatement → Statement
    set_statement : SetStatement → Statement
    remove_statement : RemoveStatement → Statement
    merge_statement : MergeStatement → Statement
    unwind_statement : UnwindStatement → Statement
    return_statement : ReturnStatement → Statement
    multi_clause : MultiClauseStatement → Statement
    explain : Statement → Statement
    -- The flag is ALL.
    union : Statements → Bool → Statement
    create_index drop_index : Bytes → List Bytes → Statement
    -- Name, arguments, whether they are implicit, YIELD, YIELD *.
    call : Bytes → Exprs → Bool → YieldItems → Bool → Ending → Statement

  pub data Statements : Type 0 where
    no_statements : Statements
    statement : Statement → Statements → Statements
