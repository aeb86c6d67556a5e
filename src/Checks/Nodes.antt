-- ===== src/Checks/Nodes.antt =====
-- A node's properties in a small store.
use graphdblite.Base.{◌≡◌, refl, some, [], ◌∷◌, List, Bytes, text, u64_to_be}
use graphdblite.Types.Error.{ok}
use graphdblite.Types.Name.{validate_name}
use graphdblite.Types.Value.{Properties, null, value_eq, remove_field}
use graphdblite.Storage.Sql.Memory.{memory, memory_laws, Write}
use graphdblite.Storage.Kv.{table_nodes, check_table}
use graphdblite.Storage.Kv.Laws.{get_ok}
use graphdblite.Storage.Node.{read_record, set_node_property}
use graphdblite.Storage.Node.Laws.{IsChanged, Recorded, set_node_property_lem}
use graphdblite.Checks.{fresh, small_format, small_format-CodecLaws, bare_record}

abbrev one_node : List Write
one_node = (table_nodes, u64_to_be 1, some (144 ∷ [])) ∷ fresh

abbrev name : Bytes
name = text "name"

name_passes : validate_name name ≡ ok tt
unfolding validate_name
name_passes = refl

one_node_reads : read_record memory small_format 1 one_node ≡ (ok bare_record, one_node)
unfolding read_record u64_to_be check_table
one_node_reads = rw (get_ok memory memory_laws table_nodes refl one_node tt (u64_to_be 1)) refl

set_node_property_lem_example :
    (set_node_property memory small_format 1 name null one_node
      ≡ (ok tt, (set_node_property memory small_format 1 name null one_node).1))
    × ((props : Properties) × IsChanged memory memory_laws small_format small_format-CodecLaws
          one_node tt 1 name null bare_record.properties props
        × Recorded memory memory_laws small_format small_format-CodecLaws one_node tt 1
            (record { labels = bare_record.labels; properties = props })
            (set_node_property memory small_format 1 name null one_node).1)
unfolding value_eq remove_field
set_node_property_lem_example =
    set_node_property_lem memory memory_laws small_format small_format-CodecLaws one_node tt 1 name
      null bare_record (144 ∷ []) name_passes one_node_reads refl
