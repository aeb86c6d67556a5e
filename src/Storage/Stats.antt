-- ===== src/Storage/Stats.antt =====
-- stats.rs: the counts of nodes by label and of edges by type, in the metadata table.
pub mod Laws
use graphdblite.Base.{
  ℕ, ◌+◌, ◌-◌, ◌%◌, Option, none, some, List, [], ◌∷◌, ◌++◌, length, drop, ◌==◌, if◌then◌else◌,
  Bytes, text, starts_with, u64_to_be, u64_from_be,
}
use graphdblite.Types.Error.{Result, ok, err}
use graphdblite.Types.Exec.{Exec, pure, asks, ◌>>=◌, ◌>>◌}
use graphdblite.Storage.Encoding.{u64_mod}
use graphdblite.Storage.Sql.{Sqlite, Row}
use graphdblite.Storage.Ids.{table_metadata}

abbrev pub label_count_prefix : Bytes
label_count_prefix = text "stats:label_count:"

abbrev pub edge_type_count_prefix : Bytes
edge_type_count_prefix = text "stats:edge_type_count:"

-- A count of eight bytes; anything else, a failed read too, is 0.
abbrev pub count_of : Result (Option Bytes) → ℕ
count_of (ok (some bytes)) = if length bytes == 8 then u64_from_be bytes else 0
count_of (ok none) = 0
count_of (err e) = 0

-- `strip_prefix(prefix).unwrap_or(key)`.
abbrev stripped : Bytes → Bytes → Bytes
stripped prefix key = if starts_with prefix key then drop (length prefix) key else key

abbrev counts_of : Bytes → List Row → List (Bytes × ℕ)
counts_of prefix [] = []
counts_of prefix ((key, bytes) ∷ rows) =
    let more = counts_of prefix rows in
    if length bytes == 8 then (stripped prefix key, u64_from_be bytes) ∷ more else more

module _ (S : Sqlite) where
  unfoldable pub get_label_count : Bytes → Exec S.Conn ℕ
  get_label_count label = do
    asks (S.prepare table_metadata)
    read ← asks (λ c. ok (S.select_value table_metadata (label_count_prefix ++ label) c))
    pure (count_of read)

  unfoldable pub set_label_count : Bytes → ℕ → Exec S.Conn (Unit {0})
  set_label_count label count =
      S.replace_row table_metadata (label_count_prefix ++ label) (u64_to_be count)

  unfoldable pub increment_label_count : Bytes → Exec S.Conn (Unit {0})
  unfolding get_label_count set_label_count
  increment_label_count label = do
    count ← get_label_count label
    set_label_count label ((count + 1) % u64_mod)

  unfoldable pub decrement_label_count : Bytes → Exec S.Conn (Unit {0})
  unfolding get_label_count set_label_count
  decrement_label_count label = do
    count ← get_label_count label
    let new_count = count - 1
    if new_count == 0
        then (do S.delete_row table_metadata (label_count_prefix ++ label); pure tt)
        else set_label_count label new_count

  unfoldable pub get_edge_type_count : Bytes → Exec S.Conn ℕ
  get_edge_type_count type_name = do
    asks (S.prepare table_metadata)
    read ← asks (λ c. ok (S.select_value table_metadata (edge_type_count_prefix ++ type_name) c))
    pure (count_of read)

  unfoldable pub set_edge_type_count : Bytes → ℕ → Exec S.Conn (Unit {0})
  set_edge_type_count type_name count =
      S.replace_row table_metadata (edge_type_count_prefix ++ type_name) (u64_to_be count)

  unfoldable pub increment_edge_type_count : Bytes → Exec S.Conn (Unit {0})
  unfolding get_edge_type_count set_edge_type_count
  increment_edge_type_count type_name = do
    count ← get_edge_type_count type_name
    set_edge_type_count type_name ((count + 1) % u64_mod)

  unfoldable pub decrement_edge_type_count_by : Bytes → ℕ → Exec S.Conn (Unit {0})
  unfolding get_edge_type_count set_edge_type_count
  decrement_edge_type_count_by type_name n = do
    count ← get_edge_type_count type_name
    let new_count = count - n
    if new_count == 0
        then (do S.delete_row table_metadata (edge_type_count_prefix ++ type_name); pure tt)
        else set_edge_type_count type_name new_count

  unfoldable pub collect_counts : Bytes → Exec S.Conn (List (Bytes × ℕ))
  collect_counts prefix = do
    asks (S.prepare table_metadata)
    rows ← asks (S.select_like prefix)
    pure (counts_of prefix rows)

  unfoldable pub get_all_label_counts : Exec S.Conn (List (Bytes × ℕ))
  unfolding collect_counts
  get_all_label_counts = collect_counts label_count_prefix

  unfoldable pub get_all_edge_type_counts : Exec S.Conn (List (Bytes × ℕ))
  unfolding collect_counts
  get_all_edge_type_counts = collect_counts edge_type_count_prefix
