-- ===== src/Checks.antt =====
-- Runs of the model on concrete stores, and what the tests share.
pub mod Edges
pub mod Tables
pub mod Caches
pub mod Nodes
pub mod Traversals
pub mod Comparisons
pub mod Suggestions
pub mod Schemas
pub mod Indexes
pub mod Statements
pub mod Dates
pub mod EvenCalendar
pub mod Durations
pub mod Truncations
use graphdblite.Base.{
  subst, ◌≡◌, refl, inl, inr, ◌⊎◌, some, List, [], ◌∷◌, if◌then◌else◌, Bytes, text, u64_to_be,
  bytes_eq,
}
use graphdblite.Types.Value.{Properties, no_fields, field}
use graphdblite.Storage.Codec.{Codec, CodecLaws, NodeRecord}
use graphdblite.Storage.Sql.Memory.{memory, memory_laws, Write}
use graphdblite.Storage.Ids.{table_metadata, key_next_node_id, key_next_edge_seq}
use graphdblite.Storage.Edge.View.{listed}
use graphdblite.Storage.Edge.Ends.{IsStore}
use graphdblite.Storage.Edge.Invariant.{IsGraph}

-- A store as `create_schema` and a first edge number leave it.
abbrev pub fresh : List Write
fresh =
    (table_metadata, key_next_node_id, some (u64_to_be 1))
    ∷ ((table_metadata, key_next_edge_seq, some (u64_to_be 0)) ∷ [])

abbrev pub knows : Bytes
knows = text "KNOWS"

-- A format that holds the empty property map and the node record without labels alone.
abbrev pack : Properties → Bytes ⊎ Bytes
pack no_fields = inr (128 ∷ [])
pack (field k v rest) = inl (text "unsupported")

abbrev unpack : Bytes → Bytes ⊎ Properties
unpack bytes = if bytes_eq bytes (128 ∷ []) then inr no_fields else inl (text "unsupported")

abbrev pub bare_record : NodeRecord
bare_record = record { labels = []; properties = no_fields }

abbrev pub pack_node : List Bytes → Properties → Bytes ⊎ Bytes
pack_node [] no_fields = inr (144 ∷ [])
pack_node [] (field k v rest) = inl (text "unsupported")
pack_node (l ∷ ls) properties = inl (text "unsupported")

abbrev pub unpack_node : Bytes → Bytes ⊎ NodeRecord
unpack_node bytes = if bytes_eq bytes (144 ∷ []) then inr bare_record else inl (text "unsupported")

abbrev pub small_format : Codec
small_format = record {
  props_to_vec = pack;
  props_from_slice = unpack;
  node_to_vec = λ r. pack_node r.labels r.properties;
  node_from_slice = unpack_node;
}

-- What was packed is unpacked.
pub small_format-CodecLaws : CodecLaws small_format
small_format-CodecLaws = record {
  props_round = props;
  node_round = λ r bytes e. node r.labels r.properties bytes e;
}
  where
    props : (p : Properties) (bytes : Bytes) → pack p ≡ inr bytes → unpack bytes ≡ inr p
    props no_fields bytes e =
        subst
          (λ (b : Bytes ⊎ Bytes). elim b [
            | inl m ↦ unpack bytes ≡ inr no_fields
            | inr x ↦ unpack x ≡ inr no_fields
          ])
          e refl
    props (field k v rest) bytes e = cc

    node :
        (labels : List Bytes) (p : Properties) (bytes : Bytes)
        → pack_node labels p ≡ inr bytes
        → unpack_node bytes ≡ inr (record { labels = labels; properties = p })
    node [] no_fields bytes e =
        subst
          (λ (b : Bytes ⊎ Bytes). elim b [
            | inl m ↦ unpack_node bytes ≡ inr bare_record
            | inr x ↦ unpack_node x ≡ inr bare_record
          ])
          e refl
    node [] (field k v rest) bytes e = cc
    node (l ∷ ls) p bytes e = cc

pub fresh-IsStore : IsStore memory memory_laws fresh
fresh-IsStore = record {
  has_out = tt;
  has_in = tt;
  has_props = tt;
  has_metadata = tt;
  out_filed = record { at_key = λ k bytes e. cc };
  in_filed = record { at_key = λ k bytes e. cc };
}

pub fresh-IsGraph : IsGraph memory memory_laws fresh
unfolding listed
fresh-IsGraph = record {
  store = fresh-IsStore;
  mirror = λ s l d h h'. refl;
  backed = λ s l d h h' hn. (λ e. cc, λ (k, v, row, p, b). cc);
}
