-- ===== src/Checks/Tables.antt =====
-- Encodings, keys, scans and counters on small inputs.
use graphdblite.Base.{
  ℕ, ◌≡◌, ◌||◌, refl, arith, some, [], ◌∷◌, ◌++◌, List, length, contains, ◌==◌, starts_with,
  u64_to_be,
}
use graphdblite.Types.Error.{ok}
use graphdblite.Types.Name.{validate_name}
use graphdblite.Storage.Encoding.{
  encode_varint, decode_varint, encode_id_list, decode_id_list, insert_into_sorted,
}
use graphdblite.Storage.Encoding.Varint.{decode_varint-encode_varint}
use graphdblite.Storage.Encoding.Idlist.{Climbs, decode_id_list-encode_id_list}
use graphdblite.Storage.Encoding.Sorted.{Rises, insert_into_sorted_lem}
use graphdblite.Storage.Sql.{in_range}
use graphdblite.Storage.Sql.Memory.{Write}
use graphdblite.Storage.Kv.{check_table, prefix_upper_bound, table_edge_props}
use graphdblite.Storage.Kv.Prefix.{in_range-prefix_upper_bound}
use graphdblite.Storage.Keys.{NoNul}
use graphdblite.Storage.Ids.{table_metadata, key_next_node_id}
use graphdblite.Checks.{knows}

decode_varint-encode_varint_example :
    decode_varint (encode_varint 300 [] ++ 7 ∷ []) ≡ some (300, length (encode_varint 300 []))
decode_varint-encode_varint_example = decode_varint-encode_varint 300 (7 ∷ []) (ground arith)

abbrev three_ids : List ℕ
three_ids = 3 ∷ 200 ∷ 70000 ∷ []

three_ids-Climbs : Climbs 0 three_ids
three_ids-Climbs = ground arith

three_ids-Rises : Rises 0 three_ids
three_ids-Rises = ground arith

decode_id_list-encode_id_list_example : decode_id_list (encode_id_list three_ids) ≡ three_ids
decode_id_list-encode_id_list_example = decode_id_list-encode_id_list three_ids three_ids-Climbs

insert_into_sorted_lem_example :
    Rises 0 (insert_into_sorted three_ids 5)
    × ((y : ℕ) → contains (insert_into_sorted three_ids 5) y ≡ (5 == y || contains three_ids y))
insert_into_sorted_lem_example = insert_into_sorted_lem three_ids 5 three_ids-Rises (ground arith)

in_range-prefix_upper_bound_example :
    in_range (1 ∷ 255 ∷ []) (prefix_upper_bound (1 ∷ 255 ∷ [])) (1 ∷ 255 ∷ 9 ∷ [])
    ≡ starts_with (1 ∷ 255 ∷ []) (1 ∷ 255 ∷ 9 ∷ [])
in_range-prefix_upper_bound_example =
    in_range-prefix_upper_bound (1 ∷ 255 ∷ []) (1 ∷ 255 ∷ 9 ∷ []) (ground arith) (ground arith)

-- Two rows under one prefix, one beside it.
abbrev three_rows : List Write
three_rows =
    (table_edge_props, 1 ∷ 4 ∷ [], some (10 ∷ []))
    ∷ (table_edge_props, 1 ∷ 9 ∷ [], some (11 ∷ []))
    ∷ (table_edge_props, 2 ∷ [], some (12 ∷ []))
    ∷ []

edge_props_is_a_table : check_table table_edge_props ≡ ok tt
unfolding check_table
edge_props_is_a_table = refl

knows-NoNul : NoNul knows
knows-NoNul = ground arith

abbrev last_id : List Write
last_id = (table_metadata, key_next_node_id, some (u64_to_be 18446744073709551615)) ∷ []

knows_passes : validate_name knows ≡ ok tt
unfolding validate_name
knows_passes = refl
