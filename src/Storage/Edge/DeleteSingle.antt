-- ===== src/Storage/Edge/DeleteSingle.antt =====
-- `delete_single_edge`: what it leaves in the tables.
use graphdblite.Base.{
  ℕ, ◌-◌, ◌≡◌, ◌↔◌, refl, sym, ◌∙◌, inl, Bool, true, false, ◌&&◌, Option, none, some, List, [], ◌∷◌,
  ◌++◌, ◌==◌, if◌then◌else◌, Bytes, All, IsByte, bytes_eq, starts_with,
}
use graphdblite.Types.Error.{ok}
use graphdblite.Types.Exec.{Exec, pure, ◌>>◌}
use graphdblite.Types.Name.{is_empty}
use graphdblite.Storage.Encoding.{IsU64}
use graphdblite.Storage.Sql.{Sqlite, SqliteLaws, Row, Among, one_if_some}
use graphdblite.Storage.Codec.{Codec}
use graphdblite.Storage.Kv
use graphdblite.Storage.Kv.{check_table, table_adj_out, table_adj_in, table_edge_props}
use graphdblite.Storage.Kv.Laws.{delete_ok, scan_prefix_ok, is_some}
use graphdblite.Storage.Ids.{table_metadata}
use graphdblite.Storage.Stats.{edge_type_count_prefix}
use graphdblite.Storage.Stats.Laws.{edge_count}
use graphdblite.Storage.Keys.{adj_key, edge_props_key, edge_props_prefix}
use graphdblite.Storage.Edge.{unlink, delete_single_edge}
use graphdblite.Storage.Edge.View.{listed, Kept, listed-Kept}
use graphdblite.Storage.Edge.Ends.{IsStore, unlinked, unlink_both}
use graphdblite.Storage.Edge.Create.{IsStore-Kept}
use graphdblite.Storage.Edge.Delete.{lower, lower_lem, Lowered}

module _ (S : Sqlite) (L : SqliteLaws S) where
  -- A property row under the prefix is left.
  abbrev pub Remaining : ℕ → ℕ → Bytes → S.Conn → Type 0
  Remaining src dst label c =
      (k : Bytes) × (v : Bytes) × (L.row table_edge_props k c ≡ some v)
      × (starts_with (edge_props_prefix src dst label) k ≡ true)
      × All IsByte k

  -- From `c` to `c'` one edge went; its two ends went where it was the last.
  pub record DeletedSingle (src dst : ℕ) (label : Bytes) (seq : ℕ) (c c' : S.Conn) : Type 0 where
    pub store : IsStore S L c'
    pub props :
        (k : Bytes)
        → L.row table_edge_props k c' ≡ (
            if bytes_eq (edge_props_key src dst label seq) k
            then none
            else L.row table_edge_props k c)
    pub last : Bool
    pub last_iff : (last ≡ false) ↔ Remaining src dst label c'
    pub out :
        (s : ℕ) (l : Bytes) (d : ℕ)
        → IsU64 s
        → listed S L table_adj_out s l d c' ≡ (
            if last && (src == s && (bytes_eq label l && dst == d))
            then false
            else listed S L table_adj_out s l d c)
    pub in_list :
        (d : ℕ) (l : Bytes) (s : ℕ)
        → IsU64 d
        → listed S L table_adj_in d l s c' ≡ (
            if last && (dst == d && (bytes_eq label l && src == s))
            then false
            else listed S L table_adj_in d l s c)
    pub count :
        (m : Bytes)
        → edge_count S L m c' ≡ (
            if bytes_eq label m
            then edge_count S L label c
              - one_if_some (L.row table_edge_props (edge_props_key src dst label seq) c)
            else edge_count S L m c)

  Remaining-kept :
      (src dst : ℕ) (label : Bytes) (c c' : S.Conn)
      → ((k : Bytes) → L.row table_edge_props k c' ≡ L.row table_edge_props k c)
      → Remaining src dst label c ↔ Remaining src dst label c'
  Remaining-kept src dst label c c' same = (
    λ (k, v, r, p, b). (k, v, same k ∙ r, p, b),
    λ (k, v, r, p, b). (k, v, sym (same k) ∙ r, p, b),
  )

  -- The scan is empty just when no row is left.
  scan-Remaining :
      (src dst : ℕ) (label : Bytes) (c : S.Conn) (es : List Row)
      → ((k v : Bytes)
          → Among (k, v) es ↔ (
              (L.row table_edge_props k c ≡ some v)
              × (starts_with (edge_props_prefix src dst label) k ≡ true)
              × All IsByte k))
      → (is_empty es ≡ false) ↔ Remaining src dst label c
  scan-Remaining src dst label c [] mem =
      (λ h. cc, λ (k, v, h1, h2, h3). elim ((mem k v).1 (h1, h2, h3)) [ ])
  scan-Remaining src dst label c ((k, v) ∷ es) mem =
      (λ h. let (r, p, b) = (mem k v).0 (inl refl) in (k, v, r, p, b), λ h. refl)

module _ (S : Sqlite) (L : SqliteLaws S) (M : Codec) (src dst : ℕ) (label : Bytes) (seq : ℕ)
    (c : S.Conn) (hs : IsU64 src) (hd : IsU64 dst)
    (hp : All IsByte (edge_props_prefix src dst label)) (st : IsStore S L c)
    (count_ok : IsU64 (edge_count S L label c)) where
  abbrev key : Bytes
  key = edge_props_key src dst label seq

  abbrev c1 : S.Conn
  c1 = (S.delete_row table_edge_props key c).1

  write :
      (t k : Bytes)
      → L.row t k c1 ≡ (if bytes_eq table_edge_props t && bytes_eq key k then none else L.row t k c)
  write = L.delete_row_row table_edge_props key c st.has_props

  exists1 : (t : Bytes) → L.Exists t c → L.Exists t c1
  exists1 = L.delete_row_exists table_edge_props key c

  count1 : (m : Bytes) → edge_count S L m c1 ≡ edge_count S L m c
  count1 m = rw (write table_metadata (edge_type_count_prefix ++ m))

  abbrev gone : Bool
  gone = is_some (L.row table_edge_props key c)

  abbrev c2 : S.Conn
  c2 = (lower S L gone label 1 c1).1

  lowered :
      (lower S L gone label 1 c1 ≡ (ok tt, c2)) × Lowered S L label (if gone then 1 else 0) c1 c2
  lowered =
      lower_lem S L gone label 1 c1 (exists1 table_metadata st.has_metadata)
        (rw (count1 label) count_ok)

  kept :
      (t : Bytes)
      → bytes_eq table_metadata t ≡ false
      → bytes_eq table_edge_props t ≡ false
      → Kept S L t c c2
  kept t no_meta no_props = record {
    rows = λ k. lowered.1.rows t k no_meta ∙ rw (write t k, no_props);
  }

  store2 : IsStore S L c2
  store2 =
      IsStore-Kept S L c c2 (kept table_adj_out refl refl) (kept table_adj_in refl refl)
        (λ t h. lowered.1.exists t (exists1 t h)) st

  props2 :
      (k : Bytes)
      → L.row table_edge_props k c2 ≡ (if bytes_eq key k then none else L.row table_edge_props k c)
  props2 k = lowered.1.rows table_edge_props k refl ∙ write table_edge_props k

  amount_lem : (o : Option Bytes) → (if is_some o then 1 else 0) ≡ one_if_some o
  amount_lem none = refl
  amount_lem (some v) = refl

  count2 :
      (m : Bytes)
      → edge_count S L m c2 ≡ (
          if bytes_eq label m
          then edge_count S L label c - one_if_some (L.row table_edge_props key c)
          else edge_count S L m c)
  count2 m =
      rw (lowered.1.counts m, count1 m, count1 label, amount_lem (L.row table_edge_props key c))

  scan :
      (es : List Row) × (Kv.scan_prefix S table_edge_props (edge_props_prefix src dst label) c2
        ≡ (ok es, c2))
      × ((k v : Bytes)
          → Among (k, v) es ↔ (
              (L.row table_edge_props k c2 ≡ some v)
              × (starts_with (edge_props_prefix src dst label) k ≡ true)
              × All IsByte k))
  unfolding check_table
  scan =
      scan_prefix_ok S L table_edge_props refl c2 store2.has_props (edge_props_prefix src dst label)
        hp

  -- The ends, taken off where no row was left.
  abbrev finish : Bool → Exec S.Conn (Unit {0})
  finish b =
      if b
      then (do
        unlink S M table_adj_out (adj_key src label) dst
        unlink S M table_adj_in (adj_key dst label) src)
      else pure tt

  finish_lem :
      (b : Bool)
      → (b ≡ false) ↔ Remaining S L src dst label c2
      → (finish b c2 ≡ (ok tt, (finish b c2).1))
        × DeletedSingle S L src dst label seq c (finish b c2).1
  finish_lem false h = (
    refl,
    record {
      store = store2;
      props = props2;
      last = false;
      last_iff = h;
      out = λ s l d hs'. listed-Kept S L table_adj_out c c2 (kept table_adj_out refl refl) s l d;
      in_list = λ d l s hd'. listed-Kept S L table_adj_in c c2 (kept table_adj_in refl refl) d l s;
      count = count2;
    },
  )
  finish_lem true h =
      let (e1, e2, ends) = unlink_both S L M src dst label c2 hs hd store2 in
      rw (e1, e2)
        (
          refl,
          record {
            store = ends.store;
            props = λ k. ends.elsewhere table_edge_props k refl refl ∙ props2 k;
            last = true;
            last_iff = (
              λ e. cc,
              λ r. h.1 (
                  (Remaining-kept S L src dst label c2
                      (unlinked S L M src dst label c2 hs hd store2)
                      (λ k. ends.elsewhere table_edge_props k refl refl)).1
                    r),
            );
            out = λ s l d hs'. rw (
              ends.out s l d hs',
              listed-Kept S L table_adj_out c c2 (kept table_adj_out refl refl) s l d,
            );
            in_list = λ d l s hd'. rw (
              ends.in_list d l s hd',
              listed-Kept S L table_adj_in c c2 (kept table_adj_in refl refl) d l s,
            );
            count = λ m.
                rw (ends.elsewhere table_metadata (edge_type_count_prefix ++ m) refl refl)
                  (count2 m);
          },
        )

  -- On well-formed tables, with `u64` identifiers, a label of bytes and a count that is a `u64`,
  -- `delete_single_edge` succeeds. It deletes the edge's property row and no other, lowers the
  -- count of the type by one just when that row was there, and takes the two ends off one
  -- another's lists just when no property row of them and the label is left.
  pub delete_single_edge_lem :
      (delete_single_edge S M src dst label seq c
        ≡ (ok tt, (delete_single_edge S M src dst label seq c).1))
      × DeletedSingle S L src dst label seq c (delete_single_edge S M src dst label seq c).1
  unfolding delete_single_edge check_table
  delete_single_edge_lem =
      rw (delete_ok S L table_edge_props refl c st.has_props key, lowered.0, scan.1)
        (finish_lem (is_empty scan.0) (scan-Remaining S L src dst label c2 scan.0 scan.2))
