-- ===== src/Storage/Edge/Neighbors.antt =====
-- `get_neighbors` against the adjacency tables.
use graphdblite.Base.{
  ℕ, ◌≡◌, refl, Bool, true, false, ◌||◌, List, [], ◌∷◌, ◌++◌, arith, contains, contains-append,
  Bytes,
}
use graphdblite.Types.Error.{Result, ok, err}
use graphdblite.Storage.Sql.{Sqlite, SqliteLaws}
use graphdblite.Storage.Codec.{Codec}
use graphdblite.Storage.Kv.{check_table, table_adj_out, table_adj_in}
use graphdblite.Storage.Kv.Laws.{get_ok}
use graphdblite.Storage.Keys.{adj_key}
use graphdblite.Storage.Edge.{outgoing, incoming, both, extend_incoming, get_neighbors}
use graphdblite.Storage.Edge.View.{listed}
use graphdblite.Storage.Edge.Ends.{IsStore}

-- Whether an answer lists the node.
abbrev pub answers : ℕ → Result (List ℕ) → Bool
answers y (ok ids) = contains ids y
answers y (err e) = false

module _ (S : Sqlite) (M : Codec) where
  contains-extend_incoming :
      (distinct : Bool) (result ids : List ℕ) (y : ℕ)
      → contains (extend_incoming S M distinct result ids) y ≡ (contains result y || contains ids y)
  contains-extend_incoming distinct result [] y = ground arith
  contains-extend_incoming distinct result (id ∷ ids) y = ground (
    arith,
    contains-extend_incoming distinct result ids y,
    contains-extend_incoming distinct (result ++ (id ∷ [])) ids y,
    contains-append result (id ∷ []) y,
  )

-- On well-formed tables `get_neighbors` lists, for each direction, exactly the nodes that the
-- outgoing table lists, those that the incoming table lists, or those of either.
pub get_neighbors_lem :
    (S : Sqlite) (L : SqliteLaws S) (M : Codec) (id : ℕ) (label : Bytes) (y : ℕ) (c : S.Conn)
    → IsStore S L c
    → (answers y (get_neighbors S M id label outgoing c).0 ≡ listed S L table_adj_out id label y c)
      × (answers y (get_neighbors S M id label incoming c).0 ≡ listed S L table_adj_in id label y c)
      × (answers y (get_neighbors S M id label both c).0
          ≡ (listed S L table_adj_out id label y c || listed S L table_adj_in id label y c))
unfolding get_neighbors listed check_table
get_neighbors_lem S L M id label y c st =
    let out = get_ok S L table_adj_out refl c st.has_out (adj_key id label) in
    let in_ = get_ok S L table_adj_in refl c st.has_in (adj_key id label) in
    (
      rw out refl,
      rw in_ (contains-extend_incoming S M false [] _ y),
      rw (out, in_) (contains-extend_incoming S M true _ _ y),
    )
