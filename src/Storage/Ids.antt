-- ===== src/Storage/Ids.antt =====
-- id.rs: the counters of nodes and edges in the metadata table.
pub mod Laws
use graphdblite.Base.{
  ℕ, ◌+◌, Option, none, some, length, take, ltb, leb, ◌==◌, if◌then◌else◌, Bytes, text, u64_to_be,
  u64_from_be,
}
use graphdblite.Types.Error.{Result, ok, err, storage, serialization, transaction}
use graphdblite.Types.Exec.{Exec, pure, lift, asks, ◌>>=◌, ◌>>◌}
use graphdblite.Storage.Encoding.{u64_mod}
use graphdblite.Storage.Sql.{Sqlite}

abbrev pub table_metadata : Bytes
table_metadata = text "metadata"

abbrev pub key_next_node_id : Bytes
key_next_node_id = text "next_node_id"

abbrev pub key_next_edge_seq : Bytes
key_next_edge_seq = text "next_edge_seq"

-- `raw.get(..8)` as a `u64`, or the error for a value that is too short.
abbrev pub counter_value : Bytes → Bytes → Result ℕ
counter_value corrupt raw =
    if leb 8 (length raw) then ok (u64_from_be (take 8 raw)) else err (serialization corrupt)

-- `checked_add(1)`.
abbrev pub checked_next : Bytes → ℕ → Result ℕ
checked_next exhausted n = if ltb (n + 1) u64_mod then ok (n + 1) else err (transaction exhausted)

-- `query_row` where a missing row is an error.
abbrev present : Option Bytes → Result Bytes
present none = err (storage (text "Query returned no rows"))
present (some raw) = ok raw

module _ (S : Sqlite) where
  abbrev swapped : ℕ → Result (Unit {0})
  swapped rows =
      if rows == 0 then err (transaction (text "node ID conflict — concurrent writer")) else ok tt

  unfoldable pub next_node_id : Exec S.Conn ℕ
  next_node_id = do
    asks (S.prepare table_metadata)
    row ← asks (S.select_value table_metadata key_next_node_id)
    raw ← lift (present row)
    current ← lift (counter_value (text "corrupt node ID bytes") raw)
    next ← lift (checked_next (text "node ID space exhausted") current)
    rows ← S.update_row table_metadata key_next_node_id (u64_to_be next) raw
    lift (swapped rows)
    pure current

  -- The counter's bytes; a read that fails, as for a missing row, starts the counter.
  abbrev edge_seq_bytes : Result (Option Bytes) → Exec S.Conn Bytes
  edge_seq_bytes (ok (some raw)) = pure raw
  edge_seq_bytes (ok none) = do
    S.insert_row table_metadata key_next_edge_seq (u64_to_be 0)
    pure (u64_to_be 0)
  edge_seq_bytes (err e) = do
    S.insert_row table_metadata key_next_edge_seq (u64_to_be 0)
    pure (u64_to_be 0)

  unfoldable pub next_edge_seq : Exec S.Conn ℕ
  next_edge_seq = do
    asks (S.prepare table_metadata)
    read ← asks (λ c. ok (S.select_value table_metadata key_next_edge_seq c))
    raw ← edge_seq_bytes read
    current ← lift (counter_value (text "corrupt edge seq bytes") raw)
    next ← lift (checked_next (text "edge sequence space exhausted") current)
    S.update_row table_metadata key_next_edge_seq (u64_to_be next) raw
    pure current
