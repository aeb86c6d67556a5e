-- ===== src/Storage/Edge/View.antt =====
-- What the adjacency tables say of an edge, and how single steps change it.
use graphdblite.Base.{
  ℕ, ◌≡◌, Bool, true, false, ◌&&◌, arith, contains, ◌==◌, if◌then◌else◌, Bytes, bytes_eq,
  bytes_eq_iff,
}
use graphdblite.Storage.Encoding.{IsU64, insert_into_sorted, remove_from_sorted}
use graphdblite.Storage.Encoding.Sorted.{insert_into_sorted_lem, remove_from_sorted_lem}
use graphdblite.Storage.Sql.{Sqlite, SqliteLaws}
use graphdblite.Storage.Edge.Links.{ids_at, Filed, Relisted, Rises-ids_at}
use graphdblite.Storage.Keys.{adj_key, bytes_eq-adj_key}

module _ (S : Sqlite) (L : SqliteLaws S) where
  -- The row of `node` and `label` in an adjacency table lists `other`.
  unfoldable pub listed : Bytes → ℕ → Bytes → ℕ → S.Conn → Bool
  listed t node label other c = contains (ids_at S L t (adj_key node label) c) other

  -- From `c` to `c'` the table changed at most in whether `other` is listed under `node` and `label`.
  pub record Entered (t : Bytes) (node : ℕ) (label : Bytes) (other : ℕ) (now : Bool) (c c' : S.Conn)
      : Type 0 where
    pub entry :
        (n : ℕ) (l : Bytes) (o : ℕ)
        → IsU64 n
        → listed t n l o c'
          ≡ (if node == n && (bytes_eq label l && other == o) then now else listed t n l o c)
    pub filed : Filed S L t c'
    pub elsewhere : (t' k : Bytes) → bytes_eq t t' ≡ false → L.row t' k c' ≡ L.row t' k c
    pub exists : (t' : Bytes) → L.Exists t' c → L.Exists t' c'

  pub Entered-insert :
      (t : Bytes) (node : ℕ) (label : Bytes) (other : ℕ) (c c' : S.Conn)
      → IsU64 node
      → IsU64 other
      → Filed S L t c
      → Relisted S L t
          (adj_key node label)
          (insert_into_sorted (ids_at S L t (adj_key node label) c) other)
          c
          c'
      → Entered t node label other true c c'
  unfolding listed
  Entered-insert t node label other c c' hn ho f r = record {
    entry = λ n l o h. rw (r.ids (adj_key n l), bytes_eq-adj_key node n label l hn h) (pick n l o);
    filed = r.filed;
    elsewhere = r.elsewhere;
    exists = r.exists;
  }
    where
      pick :
          (n : ℕ) (l : Bytes) (o : ℕ)
          → contains
              (if node == n && bytes_eq label l
                then insert_into_sorted (ids_at S L t (adj_key node label) c) other
                else ids_at S L t (adj_key n l) c)
              o
            ≡ (if node == n && (bytes_eq label l && other == o)
                then true
                else contains (ids_at S L t (adj_key n l) c) o)
      pick n l o = ground (
        arith,
        bytes_eq_iff label l,
        (insert_into_sorted_lem (ids_at S L t (adj_key node label) c) other
              (Rises-ids_at S L t c f (adj_key node label)) ho).1
            o,
      )

  pub Entered-remove :
      (t : Bytes) (node : ℕ) (label : Bytes) (other : ℕ) (c c' : S.Conn)
      → IsU64 node
      → Filed S L t c
      → Relisted S L t
          (adj_key node label)
          (remove_from_sorted (ids_at S L t (adj_key node label) c) other).0
          c
          c'
      → Entered t node label other false c c'
  unfolding listed
  Entered-remove t node label other c c' hn f r = record {
    entry = λ n l o h. rw (r.ids (adj_key n l), bytes_eq-adj_key node n label l hn h) (pick n l o);
    filed = r.filed;
    elsewhere = r.elsewhere;
    exists = r.exists;
  }
    where
      pick :
          (n : ℕ) (l : Bytes) (o : ℕ)
          → contains
              (if node == n && bytes_eq label l
                then (remove_from_sorted (ids_at S L t (adj_key node label) c) other).0
                else ids_at S L t (adj_key n l) c)
              o
            ≡ (if node == n && (bytes_eq label l && other == o)
                then false
                else contains (ids_at S L t (adj_key n l) c) o)
      pick n l o = ground (
        arith,
        bytes_eq_iff label l,
        (remove_from_sorted_lem (ids_at S L t (adj_key node label) c) other
              (Rises-ids_at S L t c f (adj_key node label))).1
            o,
      )

  -- A table whose rows did not change.
  pub record Kept (t : Bytes) (c c' : S.Conn) : Type 0 where
    pub rows : (k : Bytes) → L.row t k c' ≡ L.row t k c

  pub listed-Kept :
      (t : Bytes) (c c' : S.Conn)
      → Kept t c c'
      → (n : ℕ) (l : Bytes) (o : ℕ) → listed t n l o c' ≡ listed t n l o c
  unfolding listed
  listed-Kept t c c' h n l o = rw (h.rows (adj_key n l))

  pub Filed-Kept : (t : Bytes) (c c' : S.Conn) → Kept t c c' → Filed S L t c → Filed S L t c'
  Filed-Kept t c c' h f = record { at_key = λ k bytes e. f.at_key k bytes (rw (h.rows k) at e) }
