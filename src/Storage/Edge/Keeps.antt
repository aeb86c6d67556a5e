-- ===== src/Storage/Edge/Keeps.antt =====
-- The edge operations keep the graph's invariant, and the lookups read it.
use graphdblite.Base.{
  ℕ, ◌≡◌, refl, inl, inr, [], ◌∷◌, ◌++◌, arith, Bytes, All, IsByte, u64_to_be, u64_to_be-IsByte,
  Option-cases,
}
use graphdblite.Types.Error.{ok}
use graphdblite.Types.Name.{IsPlain, validate_name-IsPlain}
use graphdblite.Types.Value.{Properties}
use graphdblite.Storage.Encoding.{IsU64, decode_id_list}
use graphdblite.Storage.Sql.{Sqlite, SqliteLaws}
use graphdblite.Storage.Codec.{Codec}
use graphdblite.Storage.Kv.{check_table, table_adj_out}
use graphdblite.Storage.Kv.Laws.{get_ok}
use graphdblite.Storage.Stats.Laws.{edge_count}
use graphdblite.Storage.Keys.{adj_key, edge_props_key, edge_props_prefix, NoNul}
use graphdblite.Storage.Edge.{
  create_edge, delete_edge, delete_single_edge, edge_exists, property_names,
}
use graphdblite.Storage.Encoding.Sorted.{binary_search_lem}
use graphdblite.Storage.Edge.View.{listed}
use graphdblite.Storage.Edge.Links.{Rises-ids_at}
use graphdblite.Storage.Edge.Ends.{IsStore}
use graphdblite.Storage.Edge.Create.{CanCreate, IsValidName, create_edge_lem}
use graphdblite.Storage.Edge.Delete.{delete_edge_lem}
use graphdblite.Storage.Edge.DeleteSingle.{delete_single_edge_lem}
use graphdblite.Storage.Edge.Invariant.{
  IsGraph, Created-IsGraph, Deleted-IsGraph, DeletedSingle-IsGraph,
}

bytes_append : (xs ys : Bytes) → All IsByte xs → All IsByte ys → All IsByte (xs ++ ys)
bytes_append [] ys h h' = h'
bytes_append (x ∷ xs) ys (a, h) h' = (a, bytes_append xs ys h h')

IsPlain-NoNul : (l : Bytes) → IsPlain l → NoNul l
IsPlain-NoNul [] h = tt
IsPlain-NoNul (b ∷ l) ((lt, pos, ne), h) = (pos, IsPlain-NoNul l h)

IsPlain-IsByte : (l : Bytes) → IsPlain l → All IsByte l
IsPlain-IsByte [] h = tt
IsPlain-IsByte (b ∷ l) ((lt, pos, ne), h) = (omega arith, IsPlain-IsByte l h)

valid_NoNul : (label : Bytes) → IsValidName label → NoNul label
valid_NoNul label h = IsPlain-NoNul label (validate_name-IsPlain label h)

pub edge_props_prefix-IsByte :
    (s d : ℕ) (l : Bytes) → IsValidName l → All IsByte (edge_props_prefix s d l)
unfolding edge_props_prefix
edge_props_prefix-IsByte s d l h = bytes_append (u64_to_be s) _ (u64_to_be-IsByte s) (
    bytes_append (u64_to_be d) _ (u64_to_be-IsByte d)
      (bytes_append l _ (IsPlain-IsByte l (validate_name-IsPlain l h)) (omega arith, tt)))

edge_props_key-IsByte :
    (s d : ℕ) (l : Bytes) (seq : ℕ) → IsValidName l → All IsByte (edge_props_key s d l seq)
unfolding edge_props_key
edge_props_key-IsByte s d l seq h = bytes_append (u64_to_be s) _ (u64_to_be-IsByte s) (
    bytes_append (u64_to_be d) _ (u64_to_be-IsByte d) (
      bytes_append l _ (IsPlain-IsByte l (validate_name-IsPlain l h))
        (omega arith, u64_to_be-IsByte seq)))

-- On well-formed tables `edge_exists` changes nothing and answers whether the source lists the
-- destination among its outgoing ends.
pub edge_exists_lem :
    (S : Sqlite) (L : SqliteLaws S) (M : Codec) (src dst : ℕ) (label : Bytes) (c : S.Conn)
    → IsStore S L c
    → edge_exists S M src dst label c ≡ (ok (listed S L table_adj_out src label dst c), c)
unfolding edge_exists listed check_table
edge_exists_lem S L M src dst label c st =
    rw (get_ok S L table_adj_out refl c st.has_out (adj_key src label))
      (elim (Option-cases (L.row table_adj_out (adj_key src label) c)) [
        | inl e ↦ rw e
        | inr (bytes, e) ↦ rw (
          e,
          binary_search_lem (decode_id_list bytes) dst
              (rw e at (Rises-ids_at S L table_adj_out c st.out_filed (adj_key src label))),
        )
      ])

module _ (S : Sqlite) (L : SqliteLaws S) (M : Codec) (src dst : ℕ) (label : Bytes) (c : S.Conn)
    (hs : IsU64 src) (hd : IsU64 dst) (hl : IsValidName label) (g : IsGraph S L c) where
  -- On a graph, with `u64` identifiers, valid names, properties that serialise and room in its
  -- counters, `create_edge` succeeds and leaves a graph: the two adjacency tables mirror each
  -- other, and two nodes are listed under one another just when a property row of an edge between
  -- them is there.
  pub create_edge-IsGraph :
      (properties : Properties) (bytes : Bytes) (seq : ℕ)
      → CanCreate S L label seq c
      → All IsValidName (property_names properties)
      → M.props_to_vec properties ≡ inr bytes
      → (create_edge S M src dst label properties c
          ≡ (ok tt, (create_edge S M src dst label properties c).1))
        × IsGraph S L (create_edge S M src dst label properties c).1
  create_edge-IsGraph properties bytes seq can hp packs =
      let (e, created) =
        create_edge_lem S L M src dst label properties bytes seq c hs hd can hl hp packs in
      (
        e,
        Created-IsGraph S L src dst label c _ hs hd (valid_NoNul label hl) g seq bytes
            (edge_props_key-IsByte src dst label seq hl) created,
      )

  -- On a graph, with `u64` identifiers, a valid label and a count that is a `u64`, `delete_edge`
  -- succeeds and leaves a graph: the two adjacency tables mirror each other, and two nodes are
  -- listed under one another just when a property row of an edge between them is there.
  pub delete_edge-IsGraph :
      IsU64 (edge_count S L label c)
      → (delete_edge S M src dst label c ≡ (ok tt, (delete_edge S M src dst label c).1))
        × IsGraph S L (delete_edge S M src dst label c).1
  delete_edge-IsGraph fits =
      let (e, deleted) =
        delete_edge_lem S L M src dst label c hs hd (edge_props_prefix-IsByte src dst label hl)
          g.store fits in
      (e, Deleted-IsGraph S L src dst label c _ hs hd (valid_NoNul label hl) g deleted)

  -- On a graph, with `u64` identifiers, a valid label and a count that is a `u64`,
  -- `delete_single_edge` succeeds and leaves a graph: adjacency tables that mirror each other,
  -- and two nodes listed just when a property row of an edge between them is there.
  pub delete_single_edge-IsGraph :
      (seq : ℕ)
      → IsU64 (edge_count S L label c)
      → (delete_single_edge S M src dst label seq c
          ≡ (ok tt, (delete_single_edge S M src dst label seq c).1))
        × IsGraph S L (delete_single_edge S M src dst label seq c).1
  delete_single_edge-IsGraph seq fits =
      let (e, deleted) =
        delete_single_edge_lem S L M src dst label seq c hs hd
          (edge_props_prefix-IsByte src dst label hl) g.store fits in
      (e, DeletedSingle-IsGraph S L src dst label c _ hs hd (valid_NoNul label hl) g seq deleted)
