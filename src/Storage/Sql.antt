-- ===== src/Storage/Sql.antt =====
-- SQLite as the storage layer uses it, through rusqlite: a parameter of the model. A record holds
-- the statements that the source runs, another what SQLite's documentation says of them.
pub mod Rows
pub mod Memory
use graphdblite.Base.{
  ℕ, All, IsByte, ◌≡◌, ◌↔◌, ◌⊎◌, Bool, true, false, ◌&&◌, ◌||◌, Option, none, some, List, [], ◌∷◌,
  Bytes, text, bytes_eq, bytes_le, bytes_lt, if◌then◌else◌,
}
use graphdblite.Types.Error.{Result, ok}
use graphdblite.Types.Exec.{Exec}

abbrev pub Row : Type 0
Row = Bytes × Bytes

-- A table has a key and a value for each row. The table comes first, then the key.
pub record Sqlite : Type 1 where
  pub Conn : Type 0
  -- `prepare_cached` of a statement on the table.
  pub prepare : Bytes → Conn → Result (Unit {0})
  -- SELECT value … WHERE key = ?; no row is `none`.
  pub select_value : Bytes → Bytes → Conn → Result (Option Bytes)
  -- SELECT key, value … WHERE key >= ? [AND key < ?] ORDER BY key.
  pub select_range : Bytes → Bytes → Option Bytes → Conn → Result (List Row)
  -- INSERT OR REPLACE INTO … (key, value).
  pub replace_row : Bytes → Bytes → Bytes → Exec Conn (Unit {0})
  -- INSERT INTO … (key, value).
  pub insert_row : Bytes → Bytes → Bytes → Exec Conn (Unit {0})
  -- DELETE … WHERE key = ?, with the count of rows.
  pub delete_row : Bytes → Bytes → Exec Conn ℕ
  -- UPDATE … SET value = new WHERE key = ? AND value = old: the key, new and old.
  pub update_row : Bytes → Bytes → Bytes → Bytes → Exec Conn ℕ
  -- INSERT OR REPLACE INTO nodes (key, label, value).
  pub replace_node : Bytes → Bytes → Bytes → Exec Conn (Unit {0})
  -- SELECT key, value FROM metadata WHERE key LIKE prefix% ORDER BY key.
  pub select_like : Bytes → Conn → Result (List Row)

abbrev pub Among : Row → List Row → Type 0
Among r [] = ⊥
Among r (x ∷ xs) = (r ≡ x) ⊎ Among r xs

-- Whether a row has the key.
abbrev pub has_key : Bytes → List Row → Bool
has_key k [] = false
has_key k ((key, v) ∷ rows) = bytes_eq key k || has_key k rows

-- No two rows have one key.
abbrev pub IsKeyed : List Row → Type 0
IsKeyed [] = Unit {0}
IsKeyed ((k, v) ∷ rows) = (has_key k rows ≡ false) × IsKeyed rows

-- The bounds of a range: from the first key on, below the second if there is one.
abbrev pub in_range : Bytes → Option Bytes → Bytes → Bool
in_range lo none k = bytes_le lo k
in_range lo (some hi) k = bytes_le lo k && bytes_lt k hi

abbrev pub one_if_equal : Option Bytes → Bytes → ℕ
one_if_equal none v = 0
one_if_equal (some w) v = if bytes_eq w v then 1 else 0

abbrev pub one_if_some : Option Bytes → ℕ
one_if_some none = 0
one_if_some (some w) = 1

abbrev pub table_of_nodes : Bytes
table_of_nodes = text "nodes"

-- A statement on a table that exists succeeds, short of a fault of the disk, and has the effect
-- that SQL gives it; no statement drops a table.
pub record SqliteLaws (S : Sqlite) : Type 1 where
  pub Exists : Bytes → S.Conn → Type 0
  pub row : Bytes → Bytes → S.Conn → Option Bytes
  pub prepare_ok : (t : Bytes) (c : S.Conn) → Exists t c → S.prepare t c ≡ ok tt
  pub select_value_ok :
      (t k : Bytes) (c : S.Conn) → Exists t c → S.select_value t k c ≡ ok (row t k c)
  pub select_range_ok :
      (t lo : Bytes) (hi : Option Bytes) (c : S.Conn)
      → Exists t c
      → (es : List Row) × (S.select_range t lo hi c ≡ ok es)
        × ((k v : Bytes)
            → Among (k, v) es ↔ ((row t k c ≡ some v) × (in_range lo hi k ≡ true) × All IsByte k))
  -- The key is the primary key.
  pub select_range_keyed :
      (t lo : Bytes) (hi : Option Bytes) (c : S.Conn) (es : List Row)
      → Exists t c
      → S.select_range t lo hi c ≡ ok es
      → IsKeyed es
  pub replace_row_ok : (t k v : Bytes) (c : S.Conn) → Exists t c → (S.replace_row t k v c).0 ≡ ok tt
  pub replace_row_row :
      (t k v : Bytes) (c : S.Conn)
      → Exists t c
      → (t' k' : Bytes)
      → row t' k' (S.replace_row t k v c).1
        ≡ (if bytes_eq t t' && bytes_eq k k' then some v else row t' k' c)
  pub replace_row_exists :
      (t k v : Bytes) (c : S.Conn) (t' : Bytes) → Exists t' c → Exists t' (S.replace_row t k v c).1
  pub insert_row_ok :
      (t k v : Bytes) (c : S.Conn)
      → Exists t c
      → row t k c ≡ none
      → (S.insert_row t k v c).0 ≡ ok tt
  pub insert_row_row :
      (t k v : Bytes) (c : S.Conn)
      → Exists t c
      → row t k c ≡ none
      → (t' k' : Bytes)
      → row t' k' (S.insert_row t k v c).1
        ≡ (if bytes_eq t t' && bytes_eq k k' then some v else row t' k' c)
  pub insert_row_exists :
      (t k v : Bytes) (c : S.Conn) (t' : Bytes) → Exists t' c → Exists t' (S.insert_row t k v c).1
  pub delete_row_ok :
      (t k : Bytes) (c : S.Conn)
      → Exists t c
      → (S.delete_row t k c).0 ≡ ok (one_if_some (row t k c))
  pub delete_row_row :
      (t k : Bytes) (c : S.Conn)
      → Exists t c
      → (t' k' : Bytes)
      → row t' k' (S.delete_row t k c).1
        ≡ (if bytes_eq t t' && bytes_eq k k' then none else row t' k' c)
  pub delete_row_exists :
      (t k : Bytes) (c : S.Conn) (t' : Bytes) → Exists t' c → Exists t' (S.delete_row t k c).1
  pub update_row_ok :
      (t k new old : Bytes) (c : S.Conn)
      → Exists t c
      → (S.update_row t k new old c).0 ≡ ok (one_if_equal (row t k c) old)
  pub update_row_row :
      (t k new old : Bytes) (c : S.Conn)
      → Exists t c
      → row t k c ≡ some old
      → (t' k' : Bytes)
      → row t' k' (S.update_row t k new old c).1
        ≡ (if bytes_eq t t' && bytes_eq k k' then some new else row t' k' c)
  pub update_row_exists :
      (t k new old : Bytes) (c : S.Conn) (t' : Bytes)
      → Exists t' c
      → Exists t' (S.update_row t k new old c).1
  pub replace_node_ok :
      (k label v : Bytes) (c : S.Conn)
      → Exists table_of_nodes c
      → (S.replace_node k label v c).0 ≡ ok tt
  pub replace_node_row :
      (k label v : Bytes) (c : S.Conn)
      → Exists table_of_nodes c
      → (t' k' : Bytes)
      → row t' k' (S.replace_node k label v c).1
        ≡ (if bytes_eq table_of_nodes t' && bytes_eq k k' then some v else row t' k' c)
  pub replace_node_exists :
      (k label v : Bytes) (c : S.Conn) (t' : Bytes)
      → Exists t' c
      → Exists t' (S.replace_node k label v c).1
