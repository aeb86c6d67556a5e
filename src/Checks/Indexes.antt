-- ===== src/Checks/Indexes.antt =====
-- The names of the tables of an index on two properties.
use graphdblite.Base.{
  ◌⊎◌, inl, inr, true, false, if◌then◌else◌, All, IsByte, u64_to_be, u64_to_be-IsByte, arith, ◌≡◌,
  refl, sym, ◌++◌, Bool, bytes_eq, List, [], ◌∷◌, Bytes, text,
}
use graphdblite.Types.Error.{Result, ok}
use graphdblite.Types.Value.{Value, bool}
use graphdblite.Storage.Sql.{in_range}
use graphdblite.Storage.Index.Entries.{composite_index_key_lem}
use graphdblite.Storage.Index.{
  composite_index_key, prefix_bytes, next_prefix, ids_of_keys, composite_index_table_name,
  legacy_single_index_table_name, resolve_index_table, and_then,
}
use graphdblite.Storage.Index.Names.{HasNoLegacy, if_ok-ok, resolve_index_table-IsUnique}
use graphdblite.Types.Name.{validate_name}

abbrev columns : List Bytes
columns = text "name" ∷ text "age" ∷ []

abbrev table : Bytes
table = text "node_idx$Person$name$age"

named : composite_index_table_name (text "Person") columns ≡ ok table
unfolding composite_index_table_name graphdblite.Types.Name.validate_name
named = refl

-- The table of this index alone is there.
abbrev only_table : Bytes → Result Bool
only_table t = ok (bytes_eq t table)

only_table-HasNoLegacy : HasNoLegacy only_table
unfolding legacy_single_index_table_name
only_table-HasNoLegacy label property legacy h =
    let (_, shape) =
      if_ok-ok (and_then (validate_name label) (validate_name property))
        (text "node_idx_" ++ (label ++ b'_' ∷ property)) legacy h in
    rw (sym shape) refl

resolves : resolve_index_table only_table (text "Person") columns ≡ ok table
unfolding resolve_index_table
resolves = rw named refl

resolve_index_table-IsUnique_example : (text "Person" ≡ text "Person") × (columns ≡ columns)
resolve_index_table-IsUnique_example =
    resolve_index_table-IsUnique only_table (text "Person") (text "Person") columns columns table
      only_table-HasNoLegacy resolves resolves

-- A serialiser of Booleans alone.
abbrev one_byte : Value → Bytes ⊎ Bytes
one_byte (bool b) = inr (if b then 195 ∷ [] else 194 ∷ [])
one_byte v = inl (text "unsupported")

abbrev entry_key : Bytes
entry_key = 195 ∷ 194 ∷ u64_to_be 7

entry_key-IsByte : All IsByte entry_key
entry_key-IsByte = (ground arith, (ground arith, u64_to_be-IsByte 7))

composite_index_key_lem_example :
    (in_range (195 ∷ []) (next_prefix (195 ∷ [])) entry_key ≡ true)
    × (ids_of_keys (entry_key ∷ []) ≡ 7 ∷ [])
unfolding composite_index_key prefix_bytes
composite_index_key_lem_example =
    composite_index_key_lem one_byte (bool true ∷ []) (bool false ∷ []) 7 (195 ∷ []) entry_key
      (ground arith) refl refl (ground arith, tt) entry_key-IsByte
