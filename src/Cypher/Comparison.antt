-- ===== src/Cypher/Comparison.antt =====
-- cypher/eval/comparison.rs: equality and order of values. The casts and comparisons of floats, and
-- the subtraction of an offset in chrono, are parameters.
pub mod Flip
pub mod Equal
pub mod Sort
use graphdblite.Base.{
  ℕ, ◌+◌, Bool, true, false, not, ◌&&◌, ◌||◌, Option, none, some, List, [], ◌∷◌, ◌++◌,
  if◌then◌else◌, ◌==◌, ltb, Bytes, bytes_eq, bytes_lt, text,
}
use graphdblite.Base.Int.{ℤ, int_eq, ltb_ℤ}
use graphdblite.Types.Error.{Result, ok, err, query, syntax_error, runtime, other}
use graphdblite.Types.Value.{
  Value, null, bool, i64, f64, string, list, node, edge, path, map, date, local_time, time,
  local_date_time, date_time, duration, Values, no_values, value, Fields, no_fields, field, Nodes,
  no_nodes, node_of, Edges, no_edges, edge_of, get_field, value_eq,
}
use graphdblite.Cypher.Ast.{
  LiteralValue, null_literal, bool_literal, i64_literal, f64_literal, string_literal,
}

-- `std::cmp::Ordering`.
pub data Ordering : Type 0 where
  less equal greater : Ordering

-- What the code takes from elsewhere: a float is its bits, a time its second and nanosecond.
pub record Scalars : Type 0 where
  pub of_i64 : ℤ → ℕ
  pub is_nan : ℕ → Bool
  pub float_eq : ℕ → ℕ → Bool
  pub float_cmp : ℕ → ℕ → Option Ordering
  -- The local time, or date and time, less the offset.
  pub time_utc : ℕ → ℕ → ℤ → ℕ × ℕ
  pub date_time_utc : ℤ → ℕ → ℕ → ℤ → ℤ × ℕ × ℕ

-- `Ord::cmp` of the scalars.
abbrev pub ordering_of : Bool → Bool → Ordering
ordering_of is_less is_equal = if is_less then less else if is_equal then equal else greater

abbrev pub cmp_nat : ℕ → ℕ → Ordering
cmp_nat a b = ordering_of (ltb a b) (a == b)

abbrev pub cmp_int : ℤ → ℤ → Ordering
cmp_int a b = ordering_of (ltb_ℤ a b) (int_eq a b)

abbrev pub cmp_string : Bytes → Bytes → Ordering
cmp_string a b = ordering_of (bytes_lt a b) (bytes_eq a b)

abbrev pub cmp_bool : Bool → Bool → Ordering
cmp_bool false false = equal
cmp_bool false true = less
cmp_bool true false = greater
cmp_bool true true = equal

-- The first that differs decides.
abbrev pub or_then : Ordering → Ordering → Ordering
or_then less next = less
or_then equal next = next
or_then greater next = greater

abbrev pub cmp_time : ℕ × ℕ → ℕ × ℕ → Ordering
cmp_time (s, n) (s', n') = or_then (cmp_nat s s') (cmp_nat n n')

abbrev pub cmp_date_time : ℤ × ℕ × ℕ → ℤ × ℕ × ℕ → Ordering
cmp_date_time (d, s, n) (d', s', n') = or_then (cmp_int d d') (cmp_time (s, n) (s', n'))

abbrev pub count_values : Values → ℕ
count_values no_values = 0
count_values (value v vs) = 1 + count_values vs

abbrev pub count_nodes : Nodes → ℕ
count_nodes no_nodes = 0
count_nodes (node_of i ls ps ns) = 1 + count_nodes ns

abbrev pub count_edges : Edges → ℕ
count_edges no_edges = 0
count_edges (edge_of s d l ps es) = 1 + count_edges es

-- The identifiers, as far as both go.
abbrev pub zip_nodes : Nodes → Nodes → Bool
zip_nodes (node_of i ls ps ns) (node_of j ms qs more) = i == j && zip_nodes ns more
zip_nodes a b = true

abbrev pub zip_edges : Edges → Edges → Bool
zip_edges (edge_of s d l ps es) (edge_of s' d' l' qs more) =
    (s == s' && (d == d' && bytes_eq l l')) && zip_edges es more
zip_edges a b = true

unfoldable pub paths_equal : Nodes → Edges → Nodes → Edges → Value
paths_equal ns es ms fs =
    if not (count_nodes ns == count_nodes ms) || not (count_edges es == count_edges fs)
    then bool false
    else bool (zip_nodes ns ms && zip_edges es fs)

-- The keys of a map, in order.
abbrev pub keys : Fields → List Bytes
keys no_fields = []
keys (field k v rest) = k ∷ keys rest

abbrev pub same_keys : List Bytes → List Bytes → Bool
same_keys [] [] = true
same_keys [] (y ∷ ys) = false
same_keys (x ∷ xs) [] = false
same_keys (x ∷ xs) (y ∷ ys) = bytes_eq x y && same_keys xs ys

-- One turn of the loops below: false ends it, null is kept in mind.
abbrev pub turn : Value → Value → Value → Value
turn (bool false) with_null same = bool false
turn null with_null same = with_null
turn v with_null same = same

abbrev pub verdict : Bool → Value
verdict has_null = if has_null then null else bool true

module _ (F : Scalars) where
  unfoldable mutual
    pub values_equal : Value → Value → Value
    values_equal null b = null
    values_equal (bool a) (bool b) = bool (value_eq (bool a) (bool b))
    values_equal (i64 a) (i64 b) = bool (int_eq a b)
    values_equal (f64 a) (f64 b) = bool (F.float_eq a b)
    values_equal (i64 a) (f64 b) = bool (F.float_eq (F.of_i64 a) b)
    values_equal (f64 a) (i64 b) = bool (F.float_eq a (F.of_i64 b))
    values_equal (string a) (string b) = bool (bytes_eq a b)
    values_equal (list a) (list b) =
        if count_values a == count_values b then lists_loop false a b else bool false
    values_equal (map a) (map b) =
        if same_keys (keys a) (keys b) then maps_loop false a b else bool false
    values_equal (node i ls ps) (node j ms qs) = bool (i == j)
    values_equal (edge s d l ps) (edge s' d' l' qs) =
        bool (value_eq (edge s d l ps) (edge s' d' l' qs))
    values_equal (date a) (date b) = bool (int_eq a b)
    values_equal (local_time s n) (local_time s' n') =
        bool (value_eq (local_time s n) (local_time s' n'))
    values_equal (time s n o) (time s' n' o') = bool (value_eq (time s n o) (time s' n' o'))
    values_equal (local_date_time d s n) (local_date_time d' s' n') =
        bool (value_eq (local_date_time d s n) (local_date_time d' s' n'))
    values_equal (date_time d s n o z) (date_time d' s' n' o' z') =
        bool (value_eq (date_time d s n o z) (date_time d' s' n' o' z'))
    values_equal (duration m d s n) (duration m' d' s' n') =
        bool (value_eq (duration m d s n) (duration m' d' s' n'))
    values_equal (path ns es) (path ms fs) = paths_equal ns es ms fs
    values_equal a null = null
    values_equal a b = bool false

    pub lists_loop : Bool → Values → Values → Value
    lists_loop has_null (value v vs) (value w ws) =
        turn (values_equal v w) (lists_loop true vs ws) (lists_loop has_null vs ws)
    lists_loop has_null a b = verdict has_null

    pub maps_loop : Bool → Fields → Fields → Value
    maps_loop has_null no_fields b = verdict has_null
    maps_loop has_null (field k v rest) b = elim (get_field k b) [
      | none ↦ maps_loop has_null rest b
      | some w ↦ turn (values_equal v w) (maps_loop true rest b) (maps_loop has_null rest b)
    ]

  -- The functions that the clauses of a list and of a map call.
  unfoldable pub lists_equal : Values → Values → Value
  unfolding values_equal lists_loop
  lists_equal a b = if count_values a == count_values b then lists_loop false a b else bool false

  unfoldable pub maps_equal : Fields → Fields → Value
  unfolding values_equal maps_loop
  maps_equal a b = if same_keys (keys a) (keys b) then maps_loop false a b else bool false

  unfoldable mutual
    pub compare_values : Value → Value → Option Ordering
    compare_values (bool a) (bool b) = some (cmp_bool a b)
    compare_values (i64 a) (i64 b) = some (cmp_int a b)
    compare_values (f64 a) (f64 b) = F.float_cmp a b
    compare_values (i64 a) (f64 b) = F.float_cmp (F.of_i64 a) b
    compare_values (f64 a) (i64 b) = F.float_cmp a (F.of_i64 b)
    compare_values (string a) (string b) = some (cmp_string a b)
    compare_values (date a) (date b) = some (cmp_int a b)
    compare_values (local_time s n) (local_time s' n') = some (cmp_time (s, n) (s', n'))
    compare_values (time s n o) (time s' n' o') =
        some (cmp_time (F.time_utc s n o) (F.time_utc s' n' o'))
    compare_values (local_date_time d s n) (local_date_time d' s' n') =
        some (cmp_date_time (d, s, n) (d', s', n'))
    compare_values (date_time d s n o z) (date_time d' s' n' o' z') =
        some (cmp_date_time (F.date_time_utc d s n o) (F.date_time_utc d' s' n' o'))
    compare_values (list a) (list b) = compare_lists a b
    compare_values a b = none

    -- The lengths decide when one list has run out, which compares them as a whole does.
    pub compare_lists : Values → Values → Option Ordering
    compare_lists (value v vs) (value w ws) =
        let rest = compare_lists vs ws in
        elim (compare_values v w) [
          | some equal ↦ rest
          | some less ↦ some less
          | some greater ↦ some greater
          | none ↦ none
        ]
    compare_lists a b = some (cmp_nat (count_values a) (count_values b))

  abbrev pub is_numeric : Value → Bool
  is_numeric (i64 a) = true
  is_numeric (f64 a) = true
  is_numeric v = false

  abbrev pub is_null_value : Value → Bool
  is_null_value null = true
  is_null_value v = false

  abbrev pub compared : Bool → Option Ordering → (Ordering → Bool) → Value
  compared both_numeric (some ord) pred = bool (pred ord)
  compared true none pred = bool false
  compared false none pred = null

  unfoldable pub compare_to_value : Value → Value → (Ordering → Bool) → Value
  unfolding compare_values
  compare_to_value a b pred =
      if is_null_value a || is_null_value b
      then null
      else compared (is_numeric a && is_numeric b) (compare_values a b) pred

unfoldable pub value_type_name : Value → Bytes
value_type_name (bool b) = text "Boolean"
value_type_name (i64 n) = text "Integer"
value_type_name (f64 x) = text "Float"
value_type_name (string s) = text "String"
value_type_name (list vs) = text "List"
value_type_name (map fs) = text "Map"
value_type_name null = text "Null"
value_type_name (node i ls ps) = text "Node"
value_type_name (edge s d l ps) = text "Relationship"
value_type_name (path ns es) = text "Path"
value_type_name (date d) = text "Date"
value_type_name (local_time s n) = text "LocalTime"
value_type_name (time s n o) = text "Time"
value_type_name (local_date_time d s n) = text "LocalDateTime"
value_type_name (date_time d s n o z) = text "DateTime"
value_type_name (duration m d s n) = text "Duration"

unfoldable pub to_tribool : Value → Result (Option Bool)
unfolding value_type_name
to_tribool (bool b) = ok (some b)
to_tribool null = ok none
to_tribool v = err (
    query (
      syntax_error runtime other
        (text "Type mismatch: expected Boolean but was " ++ value_type_name v)))

abbrev pub literal_to_value : LiteralValue → Value
literal_to_value null_literal = null
literal_to_value (bool_literal b) = bool b
literal_to_value (i64_literal n) = i64 n
literal_to_value (f64_literal x) = f64 x
literal_to_value (string_literal s) = string s
