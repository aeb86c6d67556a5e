-- ===== src/Storage/Kv.antt =====
-- storage/kv.rs: key-value tables over SQLite.
pub mod Prefix
pub mod Laws
use mathlib.Core.Option
use mathlib.Core.List.{reverse}
use graphdblite.Base.{
  ℕ, ◌+◌, Bool, not, ◌||◌, Option, none, some, List, [], ◌∷◌, ltb, ◌==◌, if◌then◌else◌, Bytes, text,
}
use graphdblite.Types.Error.{Result, ok, err, invalid_name}
use graphdblite.Types.Exec.{Exec, lift, asks, pure, ◌>>=◌, ◌>>◌}
use graphdblite.Types.Name.{is_empty, all_bytes, is_ascii_alphanumeric}
use graphdblite.Storage.Sql.{Sqlite, Row}

abbrev pub table_nodes : Bytes
table_nodes = text "nodes"

abbrev pub table_adj_out : Bytes
table_adj_out = text "adj_out"

abbrev pub table_adj_in : Bytes
table_adj_in = text "adj_in"

abbrev pub table_edge_props : Bytes
table_edge_props = text "edge_props"

abbrev is_table_byte : ℕ → Bool
is_table_byte b = is_ascii_alphanumeric b || (b == b'_' || b == b'$')

unfoldable pub check_table : Bytes → Result (Unit {0})
check_table table =
    if is_empty table || not (all_bytes is_table_byte table)
    then err (invalid_name table)
    else ok tt

-- The loop of `prefix_upper_bound`, on the bytes from the last to the first: the last byte is
-- raised if it is below 0xFF, and popped otherwise.
raise_last : Bytes → Option Bytes
raise_last [] = none
raise_last (last ∷ rest) =
    let popped = raise_last rest in if ltb last 0xff then some ((last + 1) ∷ rest) else popped

unfoldable pub prefix_upper_bound : Bytes → Option Bytes
unfolding raise_last
prefix_upper_bound prefix = Option.map reverse (raise_last (reverse prefix))

module _ (S : Sqlite) where
  unfoldable pub get : Bytes → Bytes → Exec S.Conn (Option Bytes)
  get table key = do
    lift (check_table table)
    asks (S.prepare table)
    asks (S.select_value table key)

  unfoldable pub put : Bytes → Bytes → Bytes → Exec S.Conn (Unit {0})
  put table key value = do
    lift (check_table table)
    asks (S.prepare table)
    S.replace_row table key value

  unfoldable pub delete : Bytes → Bytes → Exec S.Conn Bool
  delete table key = do
    lift (check_table table)
    asks (S.prepare table)
    count ← S.delete_row table key
    pure (ltb 0 count)

  unfoldable pub scan_prefix : Bytes → Bytes → Exec S.Conn (List Row)
  scan_prefix table prefix = do
    lift (check_table table)
    let upper = prefix_upper_bound prefix
    asks (S.prepare table)
    asks (S.select_range table prefix upper)
