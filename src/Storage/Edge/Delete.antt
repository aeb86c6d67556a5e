-- ===== src/Storage/Edge/Delete.antt =====
-- `delete_edge`: what it leaves in the tables.
use graphdblite.Base.{
  ℕ, ◌-◌, ◌≡◌, ◌↔◌, refl, ◌∙◌, inl, inr, Bool, true, false, ◌&&◌, none, some, List, [], ◌∷◌, ◌++◌,
  arith, length, ltb, ◌==◌, if◌then◌else◌, Bytes, All, IsByte, bytes_eq, bytes_eq_iff, starts_with,
  Bool-cases, Option-cases,
}
use graphdblite.Types.Error.{ok}
use graphdblite.Types.Exec.{Exec, for_each, pure, ◌>>◌}
use graphdblite.Storage.Encoding.{IsU64}
use graphdblite.Storage.Sql.{Sqlite, SqliteLaws, Row, Among, has_key, IsKeyed}
use graphdblite.Storage.Sql.Rows.{has_key-Among}
use graphdblite.Storage.Codec.{Codec}
use graphdblite.Storage.Kv
use graphdblite.Storage.Kv.{check_table, table_adj_out, table_adj_in, table_edge_props}
use graphdblite.Storage.Kv.Laws.{delete_ok, scan_prefix_ok, scan_prefix-IsKeyed}
use graphdblite.Storage.Ids.{table_metadata}
use graphdblite.Storage.Stats.{decrement_edge_type_count_by, edge_type_count_prefix}
use graphdblite.Storage.Stats.Laws.{edge_count, decrement_edge_type_count_by_lem}
use graphdblite.Storage.Keys.{edge_props_prefix}
use graphdblite.Storage.Edge.{delete_edge}
use graphdblite.Storage.Edge.View.{listed, Kept, listed-Kept}
use graphdblite.Storage.Edge.Ends.{IsStore, Ends, unlinked, unlink_both}
use graphdblite.Storage.Edge.Create.{IsStore-Kept}

module _ (S : Sqlite) (L : SqliteLaws S) where
  -- From `c` to `c'` the rows of the table with those keys went, and nothing else changed.
  pub record Removed (t : Bytes) (rows : List Row) (c c' : S.Conn) : Type 0 where
    pub after :
        (t' k : Bytes)
        → L.row t' k c' ≡ (if bytes_eq t t' && has_key k rows then none else L.row t' k c)
    pub exists : (t' : Bytes) → L.Exists t' c → L.Exists t' c'

  -- The loop over the entries of a scan.
  abbrev pub delete_rows : Bytes → List Row → Exec S.Conn (Unit {0})
  delete_rows t rows = for_each rows (λ entry. Kv.delete S t entry.0 >> pure tt)

  delete_rows_lem :
      (t : Bytes)
      → check_table t ≡ ok tt
      → (rows : List Row) (c : S.Conn) → L.Exists t c
      → (delete_rows t rows c ≡ (ok tt, (delete_rows t rows c).1))
        × Removed t rows c (delete_rows t rows c).1
  delete_rows_lem t named [] c here =
      (refl, record { after = λ t' k. ground arith; exists = λ t' h. h })
  delete_rows_lem t named ((key, v) ∷ rows) c here =
      let c1 = (S.delete_row t key c).1 in
      let law = L.delete_row_row t key c here in
      let (e, r) = delete_rows_lem t named rows c1 (L.delete_row_exists t key c t here) in
      rw (delete_ok S L t named c here key) (
        e,
        record {
          after = λ t' k. ground (arith, r.after t' k, law t' k);
          exists = λ t' h. r.exists t' (L.delete_row_exists t key c t' h);
        },
      )

  -- From `c` to `c'` every edge of the two nodes and the label went.
  pub record Deleted (src dst : ℕ) (label : Bytes) (c c' : S.Conn) : Type 0 where
    pub store : IsStore S L c'
    pub out :
        (s : ℕ) (l : Bytes) (d : ℕ)
        → IsU64 s
        → listed S L table_adj_out s l d c' ≡ (
            if src == s && (bytes_eq label l && dst == d)
            then false
            else listed S L table_adj_out s l d c)
    pub in_list :
        (d : ℕ) (l : Bytes) (s : ℕ)
        → IsU64 d
        → listed S L table_adj_in d l s c' ≡ (
            if dst == d && (bytes_eq label l && src == s)
            then false
            else listed S L table_adj_in d l s c)
    pub props :
        (k : Bytes)
        → All IsByte k
        → L.row table_edge_props k c' ≡ (
            if starts_with (edge_props_prefix src dst label) k
            then none
            else L.row table_edge_props k c)
    -- The rows that the scan finds, each once: those with the prefix of the edges.
    pub found : List Row
    pub keyed : IsKeyed found
    pub found_iff :
        (k v : Bytes)
        → Among (k, v) found ↔ (
            (L.row table_edge_props k c ≡ some v)
            × (starts_with (edge_props_prefix src dst label) k ≡ true)
            × All IsByte k)
    pub count :
        (m : Bytes)
        → edge_count S L m c'
          ≡ (if bytes_eq label m then edge_count S L label c - length found else edge_count S L m c)
    -- The other tables, and of the metadata every row but the count of the type.
    pub others :
        (t k : Bytes)
        → bytes_eq table_adj_out t ≡ false
        → bytes_eq table_adj_in t ≡ false
        → bytes_eq table_edge_props t ≡ false
        → (bytes_eq table_metadata t && bytes_eq (edge_type_count_prefix ++ label) k) ≡ false
        → L.row t k c' ≡ L.row t k c

  -- What the last step of `delete_edge` does to the counts, and to no table but metadata.
  pub record Lowered (label : Bytes) (amount : ℕ) (c c' : S.Conn) : Type 0 where
    pub counts :
        (m : Bytes)
        → edge_count S L m c'
          ≡ (if bytes_eq label m then edge_count S L label c - amount else edge_count S L m c)
    pub rows : (t k : Bytes) → bytes_eq table_metadata t ≡ false → L.row t k c' ≡ L.row t k c
    pub others :
        (t k : Bytes)
        → (bytes_eq table_metadata t && bytes_eq (edge_type_count_prefix ++ label) k) ≡ false
        → L.row t k c' ≡ L.row t k c
    pub exists : (t : Bytes) → L.Exists t c → L.Exists t c'

  abbrev pub lower : Bool → Bytes → ℕ → Exec S.Conn (Unit {0})
  lower some_gone label n = if some_gone then decrement_edge_type_count_by S label n else pure tt

  pub lower_lem :
      (some_gone : Bool) (label : Bytes) (n : ℕ) (c : S.Conn)
      → L.Exists table_metadata c
      → IsU64 (edge_count S L label c)
      → (lower some_gone label n c ≡ (ok tt, (lower some_gone label n c).1))
        × Lowered label (if some_gone then n else 0) c (lower some_gone label n c).1
  lower_lem false label n c here h = (
    refl,
    record {
      counts = λ m. ground (arith, bytes_eq_iff label m);
      rows = λ t k e. refl;
      others = λ t k e. refl;
      exists = λ t x. x;
    },
  )
  lower_lem true label n c here h =
      let (e, counted) = decrement_edge_type_count_by_lem S L c here label n h in
      (
        e,
        record {
          counts = counted.counts;
          rows = counted.only.rows;
          others = counted.others;
          exists = counted.only.exists;
        },
      )

  -- The rows that a scan of the prefix found are gone: no row under the prefix is left.
  no_row_left :
      (prefix : Bytes) (es : List Row) (c c' : S.Conn)
      → ((k v : Bytes)
          → Among (k, v) es ↔ (
              (L.row table_edge_props k c ≡ some v) × (starts_with prefix k ≡ true) × All IsByte k))
      → Removed table_edge_props es c c'
      → (k : Bytes) → All IsByte k
      → L.row table_edge_props k c'
        ≡ (if starts_with prefix k then none else L.row table_edge_props k c)
  no_row_left prefix es c c' mem r k hk =
      rw (r.after table_edge_props k) (elim (Bool-cases (has_key k es)) [
        | inl e ↦
            let (v, a) = (has_key-Among k es).0 e in let (_, p, _) = (mem k v).0 a in rw (e, p)
        | inr ne ↦ rw ne (elim (Bool-cases (starts_with prefix k)) [
          | inl p ↦ rw p (elim (Option-cases (L.row table_edge_props k c)) [
            | inl gone ↦ gone
            | inr (v, row) ↦ cc (ne, (has_key-Among k es).1 (v, (mem k v).1 (row, p, hk)))
          ])
          | inr np ↦ rw np
        ])
      ])

none_short : (n : ℕ) → (if ltb 0 n then n else 0) ≡ n
none_short n = ground arith

module _ (S : Sqlite) (L : SqliteLaws S) (M : Codec) (src dst : ℕ) (label : Bytes) (c : S.Conn)
    (hs : IsU64 src) (hd : IsU64 dst) (hp : All IsByte (edge_props_prefix src dst label))
    (st : IsStore S L c) (count_ok : IsU64 (edge_count S L label c)) where
  abbrev c2 : S.Conn
  c2 = unlinked S L M src dst label c hs hd st

  ends : Ends S L src dst label false c c2
  ends = (unlink_both S L M src dst label c hs hd st).2

  scan :
      (es : List Row) × (Kv.scan_prefix S table_edge_props (edge_props_prefix src dst label) c2
        ≡ (ok es, c2))
      × ((k v : Bytes)
          → Among (k, v) es ↔ (
              (L.row table_edge_props k c2 ≡ some v)
              × (starts_with (edge_props_prefix src dst label) k ≡ true)
              × All IsByte k))
  unfolding check_table
  scan =
      scan_prefix_ok S L table_edge_props refl c2 ends.store.has_props
        (edge_props_prefix src dst label) hp

  abbrev c3 : S.Conn
  c3 = (delete_rows S L table_edge_props scan.0 c2).1

  rows_gone :
      (delete_rows S L table_edge_props scan.0 c2 ≡ (ok tt, c3))
      × Removed S L table_edge_props scan.0 c2 c3
  unfolding check_table
  rows_gone = delete_rows_lem S L table_edge_props refl scan.0 c2 ends.store.has_props

  count3 : (m : Bytes) → edge_count S L m c3 ≡ edge_count S L m c
  count3 m = rw (
    rows_gone.1.after table_metadata (edge_type_count_prefix ++ m),
    ends.elsewhere table_metadata (edge_type_count_prefix ++ m) refl refl,
  )

  abbrev c4 : S.Conn
  c4 = (lower S L (ltb 0 (length scan.0)) label (length scan.0) c3).1

  lowered :
      (lower S L (ltb 0 (length scan.0)) label (length scan.0) c3 ≡ (ok tt, c4))
      × Lowered S L label (if ltb 0 (length scan.0) then length scan.0 else 0) c3 c4
  lowered =
      lower_lem S L (ltb 0 (length scan.0)) label (length scan.0) c3
        (rows_gone.1.exists table_metadata ends.store.has_metadata) (rw (count3 label) count_ok)

  kept :
      (t : Bytes)
      → bytes_eq table_metadata t ≡ false
      → bytes_eq table_edge_props t ≡ false
      → Kept S L t c2 c4
  kept t no_meta no_props = record {
    rows = λ k. lowered.1.rows t k no_meta ∙ rw (rows_gone.1.after t k, no_props);
  }

  named_props : check_table table_edge_props ≡ ok tt
  unfolding check_table
  named_props = refl

  deleted : Deleted S L src dst label c c4
  deleted = record {
    store =
        IsStore-Kept S L c2 c4 (kept table_adj_out refl refl) (kept table_adj_in refl refl)
          (λ t h. lowered.1.exists t (rows_gone.1.exists t h)) ends.store;
    out = λ s l d h.
        listed-Kept S L table_adj_out c2 c4 (kept table_adj_out refl refl) s l d ∙ ends.out s l d h;
    in_list = λ d l s h.
        listed-Kept S L table_adj_in c2 c4 (kept table_adj_in refl refl) d l s
        ∙ ends.in_list d l s h;
    props = λ k hk.
        lowered.1.rows table_edge_props k refl
        ∙ (no_row_left S L (edge_props_prefix src dst label) scan.0 c2 c3 scan.2 rows_gone.1 k hk
            ∙ rw (ends.elsewhere table_edge_props k refl refl));
    found = scan.0;
    keyed =
        scan_prefix-IsKeyed S L table_edge_props named_props c2 ends.store.has_props
          (edge_props_prefix src dst label) hp scan.0 scan.1;
    found_iff = λ k v. rw (← ends.elsewhere table_edge_props k refl refl) (scan.2 k v);
    count = λ m. rw (lowered.1.counts m, count3 m, count3 label, none_short (length scan.0));
    others = λ t k no_out no_in no_props no_count.
        lowered.1.others t k no_count
        ∙ (rw (rows_gone.1.after t k, no_props) (ends.elsewhere t k no_out no_in));
  }

  -- On well-formed tables, with `u64` identifiers, a label of bytes and a count that is a `u64`,
  -- `delete_edge` succeeds. It takes the two ends off one another's lists, deletes every property
  -- row under the prefix of the two nodes and the label, lowers the count of the type by the
  -- number of those rows, and changes no other list, property row or count of a type, no other row
  -- of the metadata, and no other table.
  pub delete_edge_lem :
      (delete_edge S M src dst label c ≡ (ok tt, (delete_edge S M src dst label c).1))
      × Deleted S L src dst label c (delete_edge S M src dst label c).1
  unfolding delete_edge
  delete_edge_lem =
      let (e1, e2, _) = unlink_both S L M src dst label c hs hd st in
      rw (e1, e2, scan.1, rows_gone.0, lowered.0) (refl, deleted)
