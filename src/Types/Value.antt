-- ===== src/Types/Value.antt =====
-- types.rs: `Value`, `Node`, `Edge`, `PathValue`, `Properties` and their equality. A float stands by
-- its bits, which is what `==` compares. A value of chrono stands by the numbers that name it: a
-- date by its day number, a time by its second of the day and nanosecond, an offset by its seconds.
-- A string-keyed map is the list of its entries, each key once; a `BTreeMap` keeps them in key order.
use graphdblite.Base.{
  ℕ, suc, Bool, true, false, ◌&&◌, Option, none, some, List, [], ◌∷◌, ◌==◌, if◌then◌else◌, Bytes,
  bytes_eq,
}
use graphdblite.Base.Int.{ℤ, int_eq}

mutual
  pub data Value : Type 0 where
    null : Value
    bool : Bool → Value
    i64 : ℤ → Value
    f64 : ℕ → Value
    string : Bytes → Value
    list : Values → Value
    -- Identifier, labels, properties.
    node : ℕ → List Bytes → Fields → Value
    -- Source, destination, label, properties.
    edge : ℕ → ℕ → Bytes → Fields → Value
    path : Nodes → Edges → Value
    map : Fields → Value
    date : ℤ → Value
    local_time : ℕ → ℕ → Value
    time : ℕ → ℕ → ℤ → Value
    local_date_time : ℤ → ℕ → ℕ → Value
    date_time : ℤ → ℕ → ℕ → ℤ → Option Bytes → Value
    -- Months, days, seconds, nanoseconds.
    duration : ℤ → ℤ → ℤ → ℤ → Value

  pub data Values : Type 0 where
    no_values : Values
    value : Value → Values → Values

  pub data Fields : Type 0 where
    no_fields : Fields
    field : Bytes → Value → Fields → Fields

  pub data Nodes : Type 0 where
    no_nodes : Nodes
    node_of : ℕ → List Bytes → Fields → Nodes → Nodes

  pub data Edges : Type 0 where
    no_edges : Edges
    edge_of : ℕ → ℕ → Bytes → Fields → Edges → Edges

abbrev pub Properties : Type 0
Properties = Fields

unfoldable pub get_field : Bytes → Fields → Option Value
get_field k no_fields = none
get_field k (field j v rest) = if bytes_eq j k then some v else get_field k rest

unfoldable pub remove_field : Bytes → Fields → Fields
remove_field k no_fields = no_fields
remove_field k (field j v rest) =
    let kept = remove_field k rest in if bytes_eq j k then kept else field j v kept

unfoldable pub insert_field : Bytes → Value → Fields → Fields
insert_field k w no_fields = field k w no_fields
insert_field k w (field j v rest) =
    let more = insert_field k w rest in if bytes_eq j k then field k w rest else field j v more

abbrev pub count_fields : Fields → ℕ
count_fields no_fields = 0
count_fields (field k v rest) = suc (count_fields rest)

abbrev pub labels_eq : List Bytes → List Bytes → Bool
labels_eq [] [] = true
labels_eq [] (y ∷ ys) = false
labels_eq (x ∷ xs) [] = false
labels_eq (x ∷ xs) (y ∷ ys) = bytes_eq x y && labels_eq xs ys

abbrev pub bool_eq : Bool → Bool → Bool
bool_eq true b = b
bool_eq false true = false
bool_eq false false = true

abbrev zone_eq : Option Bytes → Option Bytes → Bool
zone_eq none none = true
zone_eq none (some b) = false
zone_eq (some a) none = false
zone_eq (some a) (some b) = bytes_eq a b

-- `==` of `Value`.
unfoldable mutual
  pub value_eq : Value → Value → Bool
  value_eq null null = true
  value_eq (bool a) (bool b) = bool_eq a b
  value_eq (i64 a) (i64 b) = int_eq a b
  value_eq (f64 a) (f64 b) = a == b
  value_eq (string a) (string b) = bytes_eq a b
  value_eq (list a) (list b) = values_eq a b
  value_eq (node i ls ps) (node j ms qs) =
      i == j && (labels_eq ls ms && (count_fields ps == count_fields qs && fields_within ps qs))
  value_eq (edge s d l ps) (edge s' d' l' qs) =
      s == s'
      && (d == d' && (bytes_eq l l' && (count_fields ps == count_fields qs && fields_within ps qs)))
  value_eq (path ns es) (path ms fs) = nodes_eq ns ms && edges_eq es fs
  value_eq (map a) (map b) = count_fields a == count_fields b && fields_within a b
  value_eq (date a) (date b) = int_eq a b
  value_eq (local_time s n) (local_time s' n') = s == s' && n == n'
  value_eq (time s n o) (time s' n' o') = s == s' && (n == n' && int_eq o o')
  value_eq (local_date_time d s n) (local_date_time d' s' n') = int_eq d d' && (s == s' && n == n')
  value_eq (date_time d s n o z) (date_time d' s' n' o' z') =
      int_eq d d' && (s == s' && (n == n' && (int_eq o o' && zone_eq z z')))
  value_eq (duration m d s n) (duration m' d' s' n') =
      int_eq m m' && (int_eq d d' && (int_eq s s' && int_eq n n'))
  value_eq a b = false

  pub values_eq : Values → Values → Bool
  values_eq no_values no_values = true
  values_eq (value a as') (value b bs) = value_eq a b && values_eq as' bs
  values_eq a b = false

  pub fields_within : Fields → Fields → Bool
  fields_within no_fields b = true
  fields_within (field k v rest) b =
      elim (get_field k b) [ none ↦ false | some w ↦ value_eq v w ] && fields_within rest b

  pub nodes_eq : Nodes → Nodes → Bool
  nodes_eq no_nodes no_nodes = true
  nodes_eq (node_of i ls ps ns) (node_of j ms qs more) =
      i == j
      && (labels_eq ls ms && (count_fields ps == count_fields qs && fields_within ps qs))
      && nodes_eq ns more
  nodes_eq a b = false

  pub edges_eq : Edges → Edges → Bool
  edges_eq no_edges no_edges = true
  edges_eq (edge_of s d l ps es) (edge_of s' d' l' qs more) =
      s == s'
      && (d == d' && (bytes_eq l l' && (count_fields ps == count_fields qs && fields_within ps qs)))
      && edges_eq es more
  edges_eq a b = false
