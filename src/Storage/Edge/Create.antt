-- ===== src/Storage/Edge/Create.antt =====
-- `create_edge`: what it leaves in the tables.
use graphdblite.Base.{
  ℕ, ◌+◌, ◌≡◌, refl, ◌∙◌, inr, true, false, ◌&&◌, some, List, [], ◌∷◌, ◌++◌, ◌==◌, if◌then◌else◌,
  Bytes, All, bytes_eq, u64_to_be,
}
use graphdblite.Types.Error.{ok}
use graphdblite.Types.Exec.{for_each, lift}
use graphdblite.Types.Name.{validate_name}
use graphdblite.Types.Value.{Properties}
use graphdblite.Storage.Encoding.{IsU64}
use graphdblite.Storage.Sql.{Sqlite, SqliteLaws}
use graphdblite.Storage.Codec.{Codec}
use graphdblite.Storage.Kv.{check_table, table_adj_out, table_adj_in, table_edge_props}
use graphdblite.Storage.Kv.Laws.{put_ok}
use graphdblite.Storage.Ids.{table_metadata, key_next_edge_seq, next_edge_seq}
use graphdblite.Storage.Ids.Laws.{Stored, next_edge_seq_lem}
use graphdblite.Storage.Stats.{increment_edge_type_count, edge_type_count_prefix}
use graphdblite.Storage.Stats.Laws.{edge_count, Counted, increment_edge_type_count_lem}
use graphdblite.Storage.Keys.{edge_props_key}
use graphdblite.Storage.Edge.{create_edge, property_names}
use graphdblite.Storage.Edge.View.{listed, Kept, listed-Kept, Filed-Kept}
use graphdblite.Storage.Edge.Ends.{IsStore, Ends, linked, link_both}

abbrev pub IsValidName : Bytes → Type 0
IsValidName name = validate_name name ≡ ok tt

names_pass :
    {C : Type 0} (keys : List Bytes) (c : C)
    → All IsValidName keys
    → for_each keys (λ key. lift (validate_name key)) c ≡ (ok tt, c)
names_pass [] c h = refl
names_pass (k ∷ keys) c (hk, h) = rw hk (names_pass keys c h)

module _ (S : Sqlite) (L : SqliteLaws S) where
  -- The store after a change outside the adjacency tables.
  pub IsStore-Kept :
      (c c' : S.Conn)
      → Kept S L table_adj_out c c'
      → Kept S L table_adj_in c c'
      → ((t : Bytes) → L.Exists t c → L.Exists t c')
      → IsStore S L c
      → IsStore S L c'
  IsStore-Kept c c' out in_ exists st = record {
    has_out = exists table_adj_out st.has_out;
    has_in = exists table_adj_in st.has_in;
    has_props = exists table_edge_props st.has_props;
    has_metadata = exists table_metadata st.has_metadata;
    out_filed = Filed-Kept S L table_adj_out c c' out st.out_filed;
    in_filed = Filed-Kept S L table_adj_in c c' in_ st.in_filed;
  }

  -- From `c` to `c'` one edge came in, with its sequence number and the bytes of its properties.
  pub record Created (src dst : ℕ) (label : Bytes) (seq : ℕ) (bytes : Bytes) (c c' : S.Conn)
      : Type 0 where
    pub store : IsStore S L c'
    pub out :
        (s : ℕ) (l : Bytes) (d : ℕ)
        → IsU64 s
        → listed S L table_adj_out s l d c' ≡ (
            if src == s && (bytes_eq label l && dst == d)
            then true
            else listed S L table_adj_out s l d c)
    pub in_list :
        (d : ℕ) (l : Bytes) (s : ℕ)
        → IsU64 d
        → listed S L table_adj_in d l s c' ≡ (
            if dst == d && (bytes_eq label l && src == s)
            then true
            else listed S L table_adj_in d l s c)
    pub props :
        (k : Bytes)
        → L.row table_edge_props k c' ≡ (
            if bytes_eq (edge_props_key src dst label seq) k
            then some bytes
            else L.row table_edge_props k c)
    pub count :
        (m : Bytes)
        → edge_count S L m c'
          ≡ (if bytes_eq label m then edge_count S L label c + 1 else edge_count S L m c)
    pub counter : L.row table_metadata key_next_edge_seq c' ≡ some (u64_to_be (seq + 1))
    -- The other tables, and of the metadata every row but the counter and the count of the type.
    pub others :
        (t k : Bytes)
        → bytes_eq table_adj_out t ≡ false
        → bytes_eq table_adj_in t ≡ false
        → bytes_eq table_edge_props t ≡ false
        → (bytes_eq table_metadata t && bytes_eq key_next_edge_seq k) ≡ false
        → (bytes_eq table_metadata t && bytes_eq (edge_type_count_prefix ++ label) k) ≡ false
        → L.row t k c' ≡ L.row t k c

  -- What `create_edge` needs: the store, a counter below the last `u64`, and room in the count.
  pub record CanCreate (label : Bytes) (seq : ℕ) (c : S.Conn) : Type 0 where
    pub store : IsStore S L c
    pub counter : L.row table_metadata key_next_edge_seq c ≡ some (u64_to_be seq)
    pub seq_room : IsU64 (seq + 1)
    pub count_room : IsU64 (edge_count S L label c + 1)

module _ (S : Sqlite) (L : SqliteLaws S) (M : Codec) (src dst : ℕ) (label : Bytes)
    (properties : Properties) (bytes : Bytes) (seq : ℕ) (c : S.Conn) (hs : IsU64 src)
    (hd : IsU64 dst) (can : CanCreate S L label seq c) where
  abbrev c2 : S.Conn
  c2 = linked S L M src dst label c hs hd can.store

  abbrev c3 : S.Conn
  c3 = (next_edge_seq S c2).1

  abbrev c4 : S.Conn
  c4 = (S.replace_row table_edge_props (edge_props_key src dst label seq) bytes c3).1

  abbrev c5 : S.Conn
  c5 = (increment_edge_type_count S label c4).1

  ends : Ends S L src dst label true c c2
  ends = (link_both S L M src dst label c hs hd can.store).2

  count_kept : (m : Bytes) → edge_count S L m c2 ≡ edge_count S L m c
  count_kept m = rw (ends.elsewhere table_metadata (edge_type_count_prefix ++ m) refl refl)

  seq_step :
      (next_edge_seq S c2 ≡ (ok seq, c3)) × Stored S L key_next_edge_seq (u64_to_be (seq + 1)) c2 c3
  seq_step =
      next_edge_seq_lem S L c2 ends.store.has_metadata seq
        (ends.elsewhere table_metadata key_next_edge_seq refl refl ∙ can.counter) can.seq_room

  other_key : (m : Bytes) → bytes_eq key_next_edge_seq (edge_type_count_prefix ++ m) ≡ false
  other_key m = refl

  count3 : (m : Bytes) → edge_count S L m c3 ≡ edge_count S L m c
  count3 m =
      rw (seq_step.1.others table_metadata (edge_type_count_prefix ++ m) (other_key m))
        (count_kept m)

  -- The row of the properties, and all others, after the write.
  write :
      (t k : Bytes)
      → L.row t k c4 ≡ (
          if bytes_eq table_edge_props t && bytes_eq (edge_props_key src dst label seq) k
          then some bytes
          else L.row t k c3)
  write =
      L.replace_row_row table_edge_props (edge_props_key src dst label seq) bytes c3
        (seq_step.1.exists table_edge_props ends.store.has_props)

  exists4 : (t : Bytes) → L.Exists t c2 → L.Exists t c4
  exists4 t h =
      L.replace_row_exists table_edge_props (edge_props_key src dst label seq) bytes c3 t
        (seq_step.1.exists t h)

  count4 : (m : Bytes) → edge_count S L m c4 ≡ edge_count S L m c
  count4 m = rw (write table_metadata (edge_type_count_prefix ++ m)) (count3 m)

  count_step :
      (increment_edge_type_count S label c4 ≡ (ok tt, c5))
      × Counted S L label (edge_count S L label c4 + 1) c4 c5
  count_step =
      increment_edge_type_count_lem S L c4 (exists4 table_metadata ends.store.has_metadata) label
        (rw (count4 label) can.count_room)

  -- A table that no step behind the links writes to.
  kept :
      (t : Bytes)
      → bytes_eq table_metadata t ≡ false
      → bytes_eq table_edge_props t ≡ false
      → Kept S L t c2 c5
  kept t no_meta no_props = record {
    rows = λ k.
        count_step.1.only.rows t k no_meta
        ∙ (rw (write t k, no_props) (seq_step.1.others t k (rw no_meta)));
  }

  created : Created S L src dst label seq bytes c c5
  created = record {
    store =
        IsStore-Kept S L c2 c5 (kept table_adj_out refl refl) (kept table_adj_in refl refl)
          (λ t h. count_step.1.only.exists t (exists4 t h)) ends.store;
    out = λ s l d h.
        listed-Kept S L table_adj_out c2 c5 (kept table_adj_out refl refl) s l d ∙ ends.out s l d h;
    in_list = λ d l s h.
        listed-Kept S L table_adj_in c2 c5 (kept table_adj_in refl refl) d l s
        ∙ ends.in_list d l s h;
    props = λ k.
        count_step.1.only.rows table_edge_props k refl
        ∙ rw (
          write table_edge_props k,
          seq_step.1.others table_edge_props k refl,
          ends.elsewhere table_edge_props k refl refl,
        );
    count = λ m. rw (count_step.1.counts m, count4 m, count4 label);
    counter =
        count_step.1.others table_metadata key_next_edge_seq refl
        ∙ (write table_metadata key_next_edge_seq ∙ seq_step.1.here);
    others = λ t k no_out no_in no_props no_seq no_count.
        count_step.1.others t k no_count
        ∙ (rw (write t k, no_props) (seq_step.1.others t k no_seq)
            ∙ ends.elsewhere t k no_out no_in);
  }

  -- On well-formed tables, with `u64` identifiers, a sequence counter and a count of the type
  -- below the last `u64`, valid names and properties that serialise, `create_edge` succeeds. It
  -- lists the two ends under one another, stores the properties under the counter's number,
  -- raises the counter and the count of the type by one, and changes no other list, property row
  -- or count of a type, no other row of the metadata, and no other table.
  pub create_edge_lem :
      IsValidName label
      → All IsValidName (property_names properties)
      → M.props_to_vec properties ≡ inr bytes
      → (create_edge S M src dst label properties c
          ≡ (ok tt, (create_edge S M src dst label properties c).1))
        × Created S L src dst label seq bytes c (create_edge S M src dst label properties c).1
  unfolding create_edge check_table
  create_edge_lem hl hp packs =
      let (e1, e2, _) = link_both S L M src dst label c hs hd can.store in
      rw
        (
          hl,
          names_pass (property_names properties) c hp,
          e1,
          e2,
          seq_step.0,
          packs,
          put_ok S L table_edge_props refl c3
              (seq_step.1.exists table_edge_props ends.store.has_props)
              (edge_props_key src dst label seq) bytes,
          count_step.0,
        )
        (refl, created)
