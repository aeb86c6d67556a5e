-- ===== src/Storage/Node/Laws.antt =====
-- What the updates of a node leave to read.
use graphdblite.Base.{
  ℕ, ◌≡◌, refl, inl, inr, false, none, some, if◌then◌else◌, Bool-cases, ◌&&◌, Bytes, bytes_eq,
  bytes_eq_refl, u64_to_be,
}
use graphdblite.Types.Error.{ok}
use graphdblite.Types.Name.{validate_name}
use graphdblite.Types.Value.{Value, Properties, null, value_eq, get_field}
use graphdblite.Types.Fields.{
  get_field-insert_field, get_field-insert_field_other, get_field-remove_field,
  get_field-remove_field_other,
}
use graphdblite.Storage.Sql.{Sqlite, SqliteLaws}
use graphdblite.Storage.Codec.{Codec, CodecLaws, NodeRecord}
use graphdblite.Storage.Kv.{check_table, table_nodes}
use graphdblite.Storage.Kv.Laws.{get_ok, pair_eq}
use graphdblite.Storage.Edge.{changed}
use graphdblite.Storage.Node.{
  join_labels, put_node, read_record, write_record, get_node, set_node_property,
}

module _ (S : Sqlite) (L : SqliteLaws S) (M : Codec) (K : CodecLaws M) (c : S.Conn)
    (here : L.Exists table_nodes c) (id : ℕ) where
  -- From `c` to `c'` the node's row came to hold the record, and no other row changed.
  pub record Recorded (r : NodeRecord) (c' : S.Conn) : Type 0 where
    pub readable :
        get_node S M id c'
        ≡ (ok (record { id = id; labels = r.labels; properties = r.properties }), c')
    pub others :
        (t k : Bytes)
        → (bytes_eq table_nodes t && bytes_eq (u64_to_be id) k) ≡ false
        → L.row t k c' ≡ L.row t k c

  write_record_lem :
      (r : NodeRecord) (bytes : Bytes)
      → M.node_to_vec r ≡ inr bytes
      → (write_record S M id r c ≡ (ok tt, (write_record S M id r c).1))
        × Recorded r (write_record S M id r c).1
  unfolding write_record put_node get_node read_record check_table
  write_record_lem r bytes packs =
      rw
        (
          packs,
          L.prepare_ok table_nodes c here,
          pair_eq (S.replace_node (u64_to_be id) (join_labels r.labels) bytes c) (ok tt)
              (L.replace_node_ok (u64_to_be id) (join_labels r.labels) bytes c here),
        )
        (
          refl,
          record {
            readable = rw (
              get_ok S L table_nodes refl
                  (S.replace_node (u64_to_be id) (join_labels r.labels) bytes c).1
                  (L.replace_node_exists (u64_to_be id) (join_labels r.labels) bytes c table_nodes
                    here)
                  (u64_to_be id),
              L.replace_node_row (u64_to_be id) (join_labels r.labels) bytes c here table_nodes
                  (u64_to_be id),
              bytes_eq_refl (u64_to_be id),
              K.node_round r bytes packs,
            );
            others = λ t k ne.
                rw (L.replace_node_row (u64_to_be id) (join_labels r.labels) bytes c here t k, ne);
          },
        )

  -- What the properties read as after a change: the key has the value, or none where it is null, and
  -- every other key has what it had.
  pub record IsChanged (key : Bytes) (value : Value) (before after : Properties) : Type 0 where
    pub at_key : get_field key after ≡ (if value_eq value null then none else some value)
    pub elsewhere : (k : Bytes) → bytes_eq key k ≡ false → get_field k after ≡ get_field k before

  changed-IsChanged :
      (key : Bytes) (value : Value) (props : Properties)
      → IsChanged key value props (changed S M key value props)
  changed-IsChanged key value props = elim (Bool-cases (value_eq value null)) [
    | inl gone ↦ rw gone (record {
      at_key = rw gone (get_field-remove_field key props);
      elsewhere = λ k other. get_field-remove_field_other key k props other;
    })
    | inr there ↦ rw there (record {
      at_key = rw there (get_field-insert_field key value props);
      elsewhere = λ k other. get_field-insert_field_other key k value props other;
    })
  ]

  -- Setting a property of a node that can be read, under a valid name and with a record that
  -- serialises, succeeds. The node then reads with its labels and with properties where the key has
  -- the value, or nothing when the value is null, and every other key has what it had; no other row
  -- changed.
  pub set_node_property_lem :
      (key : Bytes) (value : Value) (r : NodeRecord) (bytes : Bytes)
      → validate_name key ≡ ok tt
      → read_record S M id c ≡ (ok r, c)
      → M.node_to_vec
          (record { labels = r.labels; properties = changed S M key value r.properties })
        ≡ inr bytes
      → (set_node_property S M id key value c ≡ (ok tt, (set_node_property S M id key value c).1))
        × ((props : Properties) × IsChanged key value r.properties props
            × Recorded
                (record { labels = r.labels; properties = props })
                (set_node_property S M id key value c).1)
  unfolding set_node_property
  set_node_property_lem key value r bytes valid reads packs =
      let (done, recorded) =
        write_record_lem
          (record { labels = r.labels; properties = changed S M key value r.properties }) bytes
          packs in
      rw (valid, reads)
        (
          done,
          (changed S M key value r.properties, changed-IsChanged key value r.properties, recorded),
        )
