-- ===== src/Storage/Edge/Ends.antt =====
-- The two ends of an edge, entered or taken out together.
use graphdblite.Base.{
  ℕ, ◌≡◌, refl, ◌∙◌, Bool, true, false, ◌&&◌, ◌==◌, if◌then◌else◌, Bytes, bytes_eq,
}
use graphdblite.Types.Error.{ok}
use graphdblite.Storage.Encoding.{IsU64}
use graphdblite.Storage.Sql.{Sqlite, SqliteLaws}
use graphdblite.Storage.Codec.{Codec}
use graphdblite.Storage.Kv.{check_table, table_adj_out, table_adj_in, table_edge_props}
use graphdblite.Storage.Ids.{table_metadata}
use graphdblite.Storage.Keys.{adj_key}
use graphdblite.Storage.Edge.{link, unlink}
use graphdblite.Storage.Edge.Links.{Filed, link_lem, unlink_lem}
use graphdblite.Storage.Edge.View.{
  listed, Entered, Entered-insert, Entered-remove, listed-Kept, Filed-Kept,
}

module _ (S : Sqlite) (L : SqliteLaws S) where
  -- The tables of the schema are there, and the adjacency rows are well formed.
  pub record IsStore (c : S.Conn) : Type 0 where
    pub has_out : L.Exists table_adj_out c
    pub has_in : L.Exists table_adj_in c
    pub has_props : L.Exists table_edge_props c
    pub has_metadata : L.Exists table_metadata c
    pub out_filed : Filed S L table_adj_out c
    pub in_filed : Filed S L table_adj_in c

  -- From `c` to `c'` the edge's two entries came to be `now`, and nothing else changed.
  pub record Ends (src dst : ℕ) (label : Bytes) (now : Bool) (c c' : S.Conn) : Type 0 where
    pub store : IsStore c'
    pub out :
        (s : ℕ) (l : Bytes) (d : ℕ)
        → IsU64 s
        → listed S L table_adj_out s l d c' ≡ (
            if src == s && (bytes_eq label l && dst == d)
            then now
            else listed S L table_adj_out s l d c)
    pub in_list :
        (d : ℕ) (l : Bytes) (s : ℕ)
        → IsU64 d
        → listed S L table_adj_in d l s c' ≡ (
            if dst == d && (bytes_eq label l && src == s)
            then now
            else listed S L table_adj_in d l s c)
    pub elsewhere :
        (t k : Bytes)
        → bytes_eq table_adj_out t ≡ false
        → bytes_eq table_adj_in t ≡ false
        → L.row t k c' ≡ L.row t k c

  -- One entry in each of the two tables makes both ends.
  Ends-Entered :
      (src dst : ℕ) (label : Bytes) (now : Bool) (c c1 c2 : S.Conn)
      → IsStore c
      → Entered S L table_adj_out src label dst now c c1
      → Entered S L table_adj_in dst label src now c1 c2
      → Ends src dst label now c c2
  Ends-Entered src dst label now c c1 c2 st n1 n2 = record {
    store = record {
      has_out = n2.exists table_adj_out (n1.exists table_adj_out st.has_out);
      has_in = n2.exists table_adj_in (n1.exists table_adj_in st.has_in);
      has_props = n2.exists table_edge_props (n1.exists table_edge_props st.has_props);
      has_metadata = n2.exists table_metadata (n1.exists table_metadata st.has_metadata);
      out_filed =
          Filed-Kept S L table_adj_out c1 c2
            (record { rows = λ k. n2.elsewhere table_adj_out k refl }) n1.filed;
      in_filed = n2.filed;
    };
    out = λ s l d h.
        listed-Kept S L table_adj_out c1 c2
          (record { rows = λ k. n2.elsewhere table_adj_out k refl }) s l d
        ∙ n1.entry s l d h;
    in_list = λ d l s h. rw (
      n2.entry d l s h,
      listed-Kept S L table_adj_in c c1 (record { rows = λ k. n1.elsewhere table_adj_in k refl }) d
          l s,
    );
    elsewhere = λ t k no_out no_in. n2.elsewhere t k no_in ∙ n1.elsewhere t k no_out;
  }

module _ (S : Sqlite) (L : SqliteLaws S) (M : Codec) (src dst : ℕ) (label : Bytes) (c : S.Conn)
    (hs : IsU64 src) (hd : IsU64 dst) (st : IsStore S L c) where
  Filed-Entered :
      (c1 : S.Conn) (now : Bool)
      → Entered S L table_adj_out src label dst now c c1
      → Filed S L table_adj_in c1
  Filed-Entered c1 now n =
      Filed-Kept S L table_adj_in c c1 (record { rows = λ k. n.elsewhere table_adj_in k refl })
        st.in_filed

  abbrev pub linked : S.Conn
  linked =
      (link S M table_adj_in (adj_key dst label) src
        (link S M table_adj_out (adj_key src label) dst c).1).1

  -- Both links of `create_edge` succeed.
  pub link_both :
      (link S M table_adj_out (adj_key src label) dst c
        ≡ (ok tt, (link S M table_adj_out (adj_key src label) dst c).1))
      × (link S M table_adj_in
            (adj_key dst label)
            src
            (link S M table_adj_out (adj_key src label) dst c).1
          ≡ (ok tt, linked))
      × Ends S L src dst label true c linked
  unfolding check_table
  link_both =
      let c1 = (link S M table_adj_out (adj_key src label) dst c).1 in
      let (e1, r1) =
        link_lem S M L table_adj_out refl c st.has_out st.out_filed (adj_key src label) dst hd in
      let n1 = Entered-insert S L table_adj_out src label dst c c1 hs hd st.out_filed r1 in
      let f1 = Filed-Entered c1 true n1 in
      let (e2, r2) =
        link_lem S M L table_adj_in refl c1 (n1.exists table_adj_in st.has_in) f1
          (adj_key dst label) src hs in
      (
        e1,
        e2,
        Ends-Entered S L src dst label true c c1 linked st n1
            (Entered-insert S L table_adj_in dst label src c1 linked hd hs f1 r2),
      )

  abbrev pub unlinked : S.Conn
  unlinked =
      (unlink S M table_adj_in (adj_key dst label) src
        (unlink S M table_adj_out (adj_key src label) dst c).1).1

  -- Both unlinks of `delete_edge` succeed.
  pub unlink_both :
      (unlink S M table_adj_out (adj_key src label) dst c
        ≡ (ok tt, (unlink S M table_adj_out (adj_key src label) dst c).1))
      × (unlink S M table_adj_in
            (adj_key dst label)
            src
            (unlink S M table_adj_out (adj_key src label) dst c).1
          ≡ (ok tt, unlinked))
      × Ends S L src dst label false c unlinked
  unfolding check_table
  unlink_both =
      let c1 = (unlink S M table_adj_out (adj_key src label) dst c).1 in
      let (e1, r1) =
        unlink_lem S M L table_adj_out refl c st.has_out st.out_filed (adj_key src label) dst in
      let n1 = Entered-remove S L table_adj_out src label dst c c1 hs st.out_filed r1 in
      let f1 = Filed-Entered c1 false n1 in
      let (e2, r2) =
        unlink_lem S M L table_adj_in refl c1 (n1.exists table_adj_in st.has_in) f1
          (adj_key dst label) src in
      (
        e1,
        e2,
        Ends-Entered S L src dst label false c c1 unlinked st n1
            (Entered-remove S L table_adj_in dst label src c1 unlinked hd f1 r2),
      )
