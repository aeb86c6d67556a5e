-- ===== src/Storage/Index.antt =====
-- storage/index.rs: the names of the tables that hold secondary indexes, and the keys in them.
pub mod Names
pub mod Entries
use graphdblite.Base.{
  ℕ, Bool, true, false, ◌||◌, Option, none, some, List, [], ◌∷◌, ◌++◌, length, drop, leb, ◌-◌, ◌+◌,
  ltb, ◌==◌, if◌then◌else◌, starts_with, Bytes, bytes_eq, text, u64_to_be, u64_from_be, ◌⊎◌,
}
use graphdblite.Types.Error.{Result, ok, err, invalid_index_definition}
use graphdblite.Types.Name.{validate_name}
use graphdblite.Types.Value.{Value, Fields, get_field}
use graphdblite.Storage.Codec.{serialized}

abbrev pub and_then : Result (Unit {0}) → Result (Unit {0}) → Result (Unit {0})
and_then (ok u) next = next
and_then (err e) next = err e

abbrev pub was_seen : Bytes → List Bytes → Bool
was_seen p [] = false
was_seen p (q ∷ qs) = bytes_eq q p || was_seen p qs

abbrev duplicate : Bytes → Result (Unit {0})
duplicate p = err (invalid_index_definition (text "duplicate property in composite index: " ++ p))

-- The loop over the properties.
abbrev pub check_properties : List Bytes → List Bytes → Result (Unit {0})
check_properties seen [] = ok tt
check_properties seen (p ∷ ps) =
    let rest = check_properties (p ∷ seen) ps in
    and_then (validate_name p) (if was_seen p seen then duplicate p else rest)

-- `join("$")`.
abbrev pub join : List Bytes → Bytes
join [] = []
join (p ∷ []) = p
join (p ∷ (q ∷ ps)) = p ++ b'$' ∷ join (q ∷ ps)

abbrev pub if_ok : Result (Unit {0}) → Bytes → Result Bytes
if_ok (ok u) name = ok name
if_ok (err e) name = err e

unfoldable pub composite_index_table_name : Bytes → List Bytes → Result Bytes
composite_index_table_name label [] =
    err (invalid_index_definition (text "property list cannot be empty"))
composite_index_table_name label (p ∷ ps) =
    if_ok (and_then (validate_name label) (check_properties [] (p ∷ ps)))
      (text "node_idx$" ++ (label ++ b'$' ∷ join (p ∷ ps)))

unfoldable pub legacy_single_index_table_name : Bytes → Bytes → Result Bytes
legacy_single_index_table_name label property =
    if_ok (and_then (validate_name label) (validate_name property))
      (text "node_idx_" ++ (label ++ b'_' ∷ property))

-- The table when it exists, or else what comes after.
abbrev pub choose : Result Bool → Bytes → Result Bytes → Result Bytes
choose (err e) table more = err e
choose (ok true) table more = ok table
choose (ok false) table more = more

abbrev look_legacy : (Bytes → Result Bool) → Result Bytes → Bytes → Result Bytes
look_legacy table_exists (err e) canonical = err e
look_legacy table_exists (ok legacy) canonical = choose (table_exists legacy) legacy (ok canonical)

-- `properties.len() == 1` asks for the legacy table.
abbrev pub fall_back : (Bytes → Result Bool) → Bytes → List Bytes → Bytes → Result Bytes
fall_back table_exists label [] canonical = ok canonical
fall_back table_exists label (p ∷ []) canonical =
    look_legacy table_exists (legacy_single_index_table_name label p) canonical
fall_back table_exists label (p ∷ (q ∷ ps)) canonical = ok canonical

abbrev prefer_canonical : (Bytes → Result Bool) → Bytes → List Bytes → Result Bytes → Result Bytes
prefer_canonical table_exists label properties (err e) = err e
prefer_canonical table_exists label properties (ok canonical) =
    choose (table_exists canonical) canonical (fall_back table_exists label properties canonical)

-- `table_exists`, a query on the connection, is a parameter.
unfoldable pub resolve_index_table : (Bytes → Result Bool) → Bytes → List Bytes → Result Bytes
unfolding composite_index_table_name legacy_single_index_table_name
resolve_index_table table_exists label properties =
    prefer_canonical table_exists label properties (composite_index_table_name label properties)

abbrev pub strip_prefix : Bytes → Bytes → Option Bytes
strip_prefix prefix name =
    if starts_with prefix name then some (drop (length prefix) name) else none

abbrev pub push_front : ℕ → List Bytes → List Bytes
push_front c [] = (c ∷ []) ∷ []
push_front c (p ∷ ps) = (c ∷ p) ∷ ps

-- `split('$')`.
abbrev pub split : Bytes → List Bytes
split [] = [] ∷ []
split (c ∷ cs) = let rest = split cs in if c == b'$' then [] ∷ rest else push_front c rest

abbrev split_some : Option Bytes → Option (List Bytes)
split_some none = none
split_some (some after_label) = some (split after_label)

-- A split has at least one part, so that the check for none never applies.
abbrev after_index : Bytes → Option Bytes → Option (List Bytes)
after_index expected_label none = none
after_index expected_label (some rest) =
    split_some (strip_prefix (expected_label ++ b'$' ∷ []) rest)

unfoldable pub parse_composite_table_name : Bytes → Bytes → Option (List Bytes)
parse_composite_table_name name expected_label =
    after_index expected_label (strip_prefix (text "node_idx$") name)

abbrev pub append_frame : Result Bytes → Result Bytes → Result Bytes
append_frame (ok frame) (ok more) = ok (frame ++ more)
append_frame (ok frame) (err e) = err e
append_frame (err e) more = err e

-- The serialiser of values is a parameter.
unfoldable pub composite_index_key : (Value → Bytes ⊎ Bytes) → List Value → ℕ → Result Bytes
composite_index_key value_to_vec [] node_id = ok (u64_to_be node_id)
composite_index_key value_to_vec (v ∷ vs) node_id =
    let more = composite_index_key value_to_vec vs node_id in
    append_frame (serialized (value_to_vec v)) more

-- The frames of the values that a look-up gives.
unfoldable pub prefix_bytes : (Value → Bytes ⊎ Bytes) → List Value → Result Bytes
prefix_bytes value_to_vec [] = ok []
prefix_bytes value_to_vec (v ∷ vs) =
    let more = prefix_bytes value_to_vec vs in append_frame (serialized (value_to_vec v)) more

abbrev pub raise : ℕ → Option Bytes → Option Bytes
raise b (some rest) = some (b ∷ rest)
raise b none = if ltb b 0xff then some ((b + 1) ∷ []) else none

-- The loop goes from the last byte to the first: a byte is raised when all behind it are 0xFF.
unfoldable pub next_prefix : Bytes → Option Bytes
next_prefix [] = none
next_prefix (b ∷ bs) = raise b (next_prefix bs)

-- The last 8 bytes of each key that has them.
unfoldable pub ids_of_keys : List Bytes → List ℕ
ids_of_keys [] = []
ids_of_keys (key ∷ keys) =
    let rest = ids_of_keys keys in
    if leb 8 (length key) then u64_from_be (drop (length key - 8) key) ∷ rest else rest

unfoldable pub collect_values : Fields → List Bytes → Option (List Value)
unfolding get_field
collect_values props [] = some []
collect_values props (p ∷ ps) =
    let rest = collect_values props ps in
    elim (get_field p props) [
      | none ↦ none
      | some v ↦ elim rest [ none ↦ none | some vs ↦ some (v ∷ vs) ]
    ]
