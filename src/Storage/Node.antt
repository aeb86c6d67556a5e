-- ===== src/Storage/Node.antt =====
-- storage/node.rs: nodes as rows of the `nodes` table.
pub mod Laws
use graphdblite.Base.{
  ℕ, Bool, true, false, not, ◌||◌, Option, none, some, List, [], ◌∷◌, ◌++◌, if◌then◌else◌, Bytes,
  bytes_eq, bytes_le, u64_to_be,
}
use graphdblite.Types.Error.{Result, ok, err, node_not_found}
use graphdblite.Types.Exec.{Exec, pure, lift, asks, for_each, ◌>>=◌, ◌>>◌}
use graphdblite.Types.Name.{validate_name, is_empty}
use graphdblite.Types.Value.{Value, Properties, remove_field}
use graphdblite.Storage.Sql.{Sqlite}
use graphdblite.Storage.Codec.{Codec, NodeRecord, serialized}
use graphdblite.Storage.Ids.{next_node_id}
use graphdblite.Storage.Stats.{increment_label_count, decrement_label_count}
use graphdblite.Storage.Kv
use graphdblite.Storage.Kv.{table_nodes}
use graphdblite.Storage.Edge.{
  outgoing, incoming, property_names, changed, get_all_edge_labels, delete_edge,
}

-- types.rs.
pub record Node : Type 0 where
  pub id : ℕ
  pub labels : List Bytes
  pub properties : Properties

-- `sort` and `join(":")`.
abbrev insert_label : Bytes → List Bytes → List Bytes
insert_label label [] = label ∷ []
insert_label label (l ∷ ls) =
    let more = insert_label label ls in if bytes_le label l then label ∷ l ∷ ls else l ∷ more

abbrev pub sort_labels : List Bytes → List Bytes
sort_labels [] = []
sort_labels (l ∷ ls) = insert_label l (sort_labels ls)

abbrev pub join_labels : List Bytes → Bytes
join_labels [] = []
join_labels (l ∷ []) = l
join_labels (l ∷ (m ∷ ls)) = l ++ (b':' ∷ join_labels (m ∷ ls))

abbrev pub has_name : Bytes → List Bytes → Bool
has_name label [] = false
has_name label (l ∷ ls) = bytes_eq l label || has_name label ls

-- `retain(|l| l != label)`.
abbrev pub without : Bytes → List Bytes → List Bytes
without label [] = []
without label (l ∷ ls) = let rest = without label ls in if bytes_eq l label then rest else l ∷ rest

abbrev pub found_row : ℕ → Option Bytes → Result Bytes
found_row id none = err (node_not_found id)
found_row id (some bytes) = ok bytes

module _ (S : Sqlite) (M : Codec) where
  unfoldable pub put_node : Bytes → Bytes → Bytes → Exec S.Conn (Unit {0})
  put_node key label value = do asks (S.prepare table_nodes); S.replace_node key label value

  -- The record of a node, and its write, as the operations share them.
  unfoldable pub read_record : ℕ → Exec S.Conn NodeRecord
  read_record id = do
    row ← Kv.get S table_nodes (u64_to_be id)
    bytes ← lift (found_row id row)
    lift (serialized (M.node_from_slice bytes))

  unfoldable pub write_record : ℕ → NodeRecord → Exec S.Conn (Unit {0})
  unfolding put_node
  write_record id r = do
    bytes ← lift (serialized (M.node_to_vec r))
    put_node (u64_to_be id) (join_labels r.labels) bytes

  unfoldable pub create_node : List Bytes → Properties → Exec S.Conn ℕ
  unfolding write_record
  create_node labels properties = do
    for_each labels (λ label. lift (validate_name label))
    for_each (property_names properties) (λ key. lift (validate_name key))
    id ← next_node_id S
    write_record id (record { labels = sort_labels labels; properties = properties })
    for_each (sort_labels labels) (λ label. increment_label_count S label)
    pure id

  unfoldable pub get_node : ℕ → Exec S.Conn Node
  unfolding read_record
  get_node id = do
    r ← read_record id
    pure (record { id = id; labels = r.labels; properties = r.properties })

  abbrev is_present : Result (Option Bytes) → Bool
  is_present (ok (some v)) = true
  is_present (ok none) = false
  is_present (err e) = false

  unfoldable pub node_exists : ℕ → Exec S.Conn Bool
  node_exists id = do
    asks (S.prepare table_nodes)
    asks (λ c. ok (is_present (S.select_value table_nodes (u64_to_be id) c)))

  unfoldable pub node_has_edges : ℕ → Exec S.Conn Bool
  node_has_edges id = do
    out ← get_all_edge_labels S M id outgoing
    if not (is_empty out)
        then pure true
        else (do inc ← get_all_edge_labels S M id incoming; pure (not (is_empty inc)))

  unfoldable pub delete_node : ℕ → Exec S.Conn (Unit {0})
  unfolding get_node
  delete_node id = do
    node ← get_node id
    out_edges ← get_all_edge_labels S M id outgoing
    for_each out_edges (λ entry. for_each entry.1 (λ dst. delete_edge S M id dst entry.0))
    in_edges ← get_all_edge_labels S M id incoming
    for_each in_edges (λ entry. for_each entry.1 (λ src. delete_edge S M src id entry.0))
    Kv.delete S table_nodes (u64_to_be id)
    for_each node.labels (λ label. decrement_label_count S label)

  unfoldable pub set_node_property : ℕ → Bytes → Value → Exec S.Conn (Unit {0})
  unfolding read_record write_record
  set_node_property id key value = do
    lift (validate_name key)
    r ← read_record id
    write_record id (record { labels = r.labels; properties = changed S M key value r.properties })

  unfoldable pub remove_node_property : ℕ → Bytes → Exec S.Conn (Unit {0})
  unfolding read_record write_record
  remove_node_property id key = do
    r ← read_record id
    write_record id (record { labels = r.labels; properties = remove_field key r.properties })

  unfoldable pub remove_node_label : ℕ → Bytes → Exec S.Conn (Unit {0})
  unfolding read_record write_record
  remove_node_label id label = do
    r ← read_record id
    if not (has_name label r.labels) then pure tt else (do
      write_record id (record { labels = without label r.labels; properties = r.properties })
      decrement_label_count S label)

  unfoldable pub add_node_label : ℕ → Bytes → Exec S.Conn (Unit {0})
  unfolding read_record write_record
  add_node_label id label = do
    r ← read_record id
    if has_name label r.labels then pure tt else (do
      write_record id
          (record { labels = sort_labels (r.labels ++ (label ∷ [])); properties = r.properties })
      increment_label_count S label)

  unfoldable pub set_all_node_properties : ℕ → Properties → Exec S.Conn (Unit {0})
  unfolding read_record write_record
  set_all_node_properties id properties = do
    r ← read_record id
    write_record id (record { labels = r.labels; properties = properties })
