-- ===== src/Storage/Edge.antt =====
-- storage/edge.rs: edges as two adjacency tables and a table of properties.
pub mod Links
pub mod View
pub mod Ends
pub mod Create
pub mod Delete
pub mod Invariant
pub mod Keeps
pub mod Neighbors
pub mod DeleteSingle
use graphdblite.Base.{
  ℕ, Bool, true, false, ◌&&◌, ◌||◌, Option, none, some, List, [], ◌∷◌, ◌++◌, length, drop, contains,
  ltb, if◌then◌else◌, Bytes, text, bytes_eq, u64_to_be,
}
use graphdblite.Types.Error.{Result, ok, err, serialization}
use graphdblite.Types.Exec.{Exec, pure, lift, for_each, ◌>>=◌, ◌>>◌}
use graphdblite.Types.Name.{validate_name, is_empty}
use graphdblite.Types.Utf8.{is_utf8}
use graphdblite.Types.Value.{
  Value, null, Properties, no_fields, field, insert_field, remove_field, value_eq,
}
use graphdblite.Storage.Encoding.{
  is_found, binary_search, encode_id_list, decode_id_list, insert_into_sorted, remove_from_sorted,
}
use graphdblite.Storage.Sql.{Sqlite, Row}
use graphdblite.Storage.Codec.{Codec, serialized}
use graphdblite.Storage.Ids.{next_edge_seq}
use graphdblite.Storage.Stats.{increment_edge_type_count, decrement_edge_type_count_by}
use graphdblite.Storage.Kv
use graphdblite.Storage.Kv.{table_adj_out, table_adj_in, table_edge_props}
use graphdblite.Storage.Keys.{adj_key, edge_props_key, edge_props_prefix, edge_seq_from_key}

-- types.rs.
pub data Direction : Type 0 where
  outgoing incoming both : Direction

-- The list of a row, or the empty list where there is no row.
abbrev pub decoded : Option Bytes → List ℕ
decoded none = []
decoded (some bytes) = decode_id_list bytes

abbrev pub property_names : Properties → List Bytes
property_names no_fields = []
property_names (field k v rest) = k ∷ property_names rest

module _ (S : Sqlite) (M : Codec) where
  -- The update of one adjacency row in `create_edge`.
  unfoldable pub link : Bytes → Bytes → ℕ → Exec S.Conn (Unit {0})
  link table key id = do
    row ← Kv.get S table key
    Kv.put S table key (encode_id_list (insert_into_sorted (decoded row) id))

  -- The update of one adjacency row in `delete_edge`: what is left goes back, an empty list goes.
  abbrev put_back : Bytes → Bytes → List ℕ × Bool → Exec S.Conn (Unit {0})
  put_back table key (ids, false) = pure tt
  put_back table key (ids, true) =
      if is_empty ids
      then (Kv.delete S table key >> pure tt)
      else Kv.put S table key (encode_id_list ids)

  abbrev unlink_row : Bytes → Bytes → ℕ → Option Bytes → Exec S.Conn (Unit {0})
  unlink_row table key id none = pure tt
  unlink_row table key id (some bytes) =
      put_back table key (remove_from_sorted (decode_id_list bytes) id)

  unfoldable pub unlink : Bytes → Bytes → ℕ → Exec S.Conn (Unit {0})
  unlink table key id = do row ← Kv.get S table key; unlink_row table key id row

  unfoldable pub create_edge : ℕ → ℕ → Bytes → Properties → Exec S.Conn (Unit {0})
  create_edge src dst label properties = do
    lift (validate_name label)
    for_each (property_names properties) (λ key. lift (validate_name key))
    link table_adj_out (adj_key src label) dst
    link table_adj_in (adj_key dst label) src
    next_seq ← next_edge_seq S
    bytes ← lift (serialized (M.props_to_vec properties))
    Kv.put S table_edge_props (edge_props_key src dst label next_seq) bytes
    increment_edge_type_count S label

  unfoldable pub delete_edge : ℕ → ℕ → Bytes → Exec S.Conn (Unit {0})
  delete_edge src dst label = do
    unlink table_adj_out (adj_key src label) dst
    unlink table_adj_in (adj_key dst label) src
    entries ← Kv.scan_prefix S table_edge_props (edge_props_prefix src dst label)
    for_each entries (λ entry. Kv.delete S table_edge_props entry.0 >> pure tt)
    if ltb 0 (length entries)
        then decrement_edge_type_count_by S label (length entries)
        else pure tt

  unfoldable pub delete_single_edge : ℕ → ℕ → Bytes → ℕ → Exec S.Conn (Unit {0})
  delete_single_edge src dst label seq = do
    removed ← Kv.delete S table_edge_props (edge_props_key src dst label seq)
    if removed then decrement_edge_type_count_by S label 1 else pure tt
    remaining ← Kv.scan_prefix S table_edge_props (edge_props_prefix src dst label)
    if is_empty remaining
        then (do
          unlink table_adj_out (adj_key src label) dst
          unlink table_adj_in (adj_key dst label) src)
        else pure tt

  -- The incoming part of `get_neighbors`: an item already there is left out for `Both`.
  abbrev extend_incoming : Bool → List ℕ → List ℕ → List ℕ
  extend_incoming distinct result [] = result
  extend_incoming distinct result (id ∷ ids) =
      extend_incoming distinct
        (if distinct && contains result id then result else result ++ (id ∷ [])) ids

  unfoldable pub get_neighbors : ℕ → Bytes → Direction → Exec S.Conn (List ℕ)
  get_neighbors id label outgoing = do
    row ← Kv.get S table_adj_out (adj_key id label)
    pure (decoded row)
  get_neighbors id label incoming = do
    row ← Kv.get S table_adj_in (adj_key id label)
    pure (extend_incoming false [] (decoded row))
  get_neighbors id label both = do
    out_row ← Kv.get S table_adj_out (adj_key id label)
    in_row ← Kv.get S table_adj_in (adj_key id label)
    pure (extend_incoming true (decoded out_row) (decoded in_row))

  abbrev first_props : List Row → Result Properties
  first_props [] = ok no_fields
  first_props ((key, bytes) ∷ rest) = serialized (M.props_from_slice bytes)

  unfoldable pub get_edge_properties : ℕ → ℕ → Bytes → Exec S.Conn Properties
  get_edge_properties src dst label = do
    entries ← Kv.scan_prefix S table_edge_props (edge_props_prefix src dst label)
    lift (first_props entries)

  abbrev props_at : Option Bytes → Result Properties
  props_at none = ok no_fields
  props_at (some bytes) = serialized (M.props_from_slice bytes)

  unfoldable pub get_edge_properties_at : ℕ → ℕ → Bytes → ℕ → Exec S.Conn Properties
  get_edge_properties_at src dst label seq = do
    row ← Kv.get S table_edge_props (edge_props_key src dst label seq)
    lift (props_at row)

  abbrev all_props : ℕ → List Row → Exec S.Conn (List (ℕ × Properties))
  all_props prefix_len [] = pure []
  all_props prefix_len ((key, bytes) ∷ rest) = do
    props ← lift (serialized (M.props_from_slice bytes))
    more ← all_props prefix_len rest
    pure ((edge_seq_from_key key prefix_len, props) ∷ more)

  unfoldable pub get_all_edge_props : ℕ → ℕ → Bytes → Exec S.Conn (List (ℕ × Properties))
  get_all_edge_props src dst label = do
    let prefix = edge_props_prefix src dst label
    entries ← Kv.scan_prefix S table_edge_props prefix
    all_props (length prefix) entries

  -- `value == Value::Null` removes the property.
  abbrev pub changed : Bytes → Value → Properties → Properties
  changed key value props =
      if value_eq value null then remove_field key props else insert_field key value props

  unfoldable pub set_edge_property_at : ℕ → ℕ → Bytes → ℕ → Bytes → Value → Exec S.Conn (Unit {0})
  unfolding get_edge_properties_at
  set_edge_property_at src dst label seq key value = do
    props ← get_edge_properties_at src dst label seq
    bytes ← lift (serialized (M.props_to_vec (changed key value props)))
    Kv.put S table_edge_props (edge_props_key src dst label seq) bytes

  abbrev first_seq : ℕ → List Row → ℕ
  first_seq prefix_len [] = 0
  first_seq prefix_len ((key, bytes) ∷ rest) = edge_seq_from_key key prefix_len

  unfoldable pub set_edge_property : ℕ → ℕ → Bytes → Bytes → Value → Exec S.Conn (Unit {0})
  unfolding set_edge_property_at
  set_edge_property src dst label key value = do
    let prefix = edge_props_prefix src dst label
    entries ← Kv.scan_prefix S table_edge_props prefix
    set_edge_property_at src dst label (first_seq (length prefix) entries) key value

  unfoldable pub set_all_edge_properties_at :
      ℕ → ℕ → Bytes → ℕ → Properties → Exec S.Conn (Unit {0})
  set_all_edge_properties_at src dst label seq properties = do
    bytes ← lift (serialized (M.props_to_vec properties))
    Kv.put S table_edge_props (edge_props_key src dst label seq) bytes

  unfoldable pub edge_exists : ℕ → ℕ → Bytes → Exec S.Conn Bool
  edge_exists src dst label = do
    row ← Kv.get S table_adj_out (adj_key src label)
    pure (elim row [
      | none ↦ false
      | some bytes ↦ is_found (binary_search (decode_id_list bytes) dst)
    ])

  abbrev labelled_ids : List Row → Result (List (Bytes × List ℕ))
  labelled_ids [] = ok []
  labelled_ids ((key, bytes) ∷ rows) =
      let more = labelled_ids rows in
      if ltb 8 (length key)
      then (if is_utf8 (drop 8 key)
          then (elim more [ ok l ↦ ok ((drop 8 key, decode_id_list bytes) ∷ l) | err e ↦ err e ])
          else err (serialization (text "invalid UTF-8 in edge label")))
      else more

  abbrev labels_in : Bytes → ℕ → Exec S.Conn (List (Bytes × List ℕ))
  labels_in table id = do
    entries ← Kv.scan_prefix S table (u64_to_be id)
    lift (labelled_ids entries)

  abbrev has_label : Bytes → List (Bytes × List ℕ) → Bool
  has_label label [] = false
  has_label label ((l, ids) ∷ rest) = bytes_eq l label || has_label label rest

  -- The labels of the second list that the first has not.
  abbrev only_new : List (Bytes × List ℕ) → List (Bytes × List ℕ) → List (Bytes × List ℕ)
  only_new existing [] = []
  only_new existing ((l, ids) ∷ rest) =
      let more = only_new existing rest in if has_label l existing then more else (l, ids) ∷ more

  unfoldable pub get_all_edge_labels : ℕ → Direction → Exec S.Conn (List (Bytes × List ℕ))
  get_all_edge_labels id outgoing = labels_in table_adj_out id
  get_all_edge_labels id incoming = labels_in table_adj_in id
  get_all_edge_labels id both = do
    result ← labels_in table_adj_out id
    more ← labels_in table_adj_in id
    pure (result ++ only_new result more)
