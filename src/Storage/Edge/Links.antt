-- ===== src/Storage/Edge/Links.antt =====
-- `link` and `unlink`: one adjacency row.
use graphdblite.Base.{
  ℕ, ◌≡◌, refl, inl, inr, Bool, true, false, Option, none, some, List, [], ◌∷◌, if◌then◌else◌,
  Bytes, bytes_eq, bytes_eq_iff, bytes_eq_refl, Option-cases, Bool-cases,
}
use graphdblite.Types.Error.{ok}
use graphdblite.Storage.Encoding.{
  IsU64, encode_id_list, decode_id_list, insert_into_sorted, remove_from_sorted,
}
use graphdblite.Storage.Encoding.Idlist.{decode_id_list-encode_id_list}
use graphdblite.Storage.Encoding.Sorted.{
  Rises, Rises-Climbs, insert_into_sorted_lem, remove_from_sorted_lem, remove_unchanged,
}
use graphdblite.Storage.Sql.{Sqlite, SqliteLaws}
use graphdblite.Storage.Codec.{Codec}
use graphdblite.Storage.Kv.{check_table}
use graphdblite.Storage.Kv.Laws.{get_ok, put_ok, delete_ok}
use graphdblite.Storage.Edge.{decoded, link, unlink, unlink_row, put_back}

decode_encode : (ids : List ℕ) → Rises 0 ids → decode_id_list (encode_id_list ids) ≡ ids
decode_encode ids h = decode_id_list-encode_id_list ids (Rises-Climbs 0 ids h)

module _ (S : Sqlite) (L : SqliteLaws S) where
  -- The identifiers that a row lists.
  abbrev pub ids_at : Bytes → Bytes → S.Conn → List ℕ
  ids_at t k c = decoded (L.row t k c)

  -- Every row of the table holds the encoding of a sorted list without duplicates.
  pub record Filed (t : Bytes) (c : S.Conn) : Type 0 where
    pub at_key :
        (k bytes : Bytes)
        → L.row t k c ≡ some bytes
        → (ids : List ℕ) × (bytes ≡ encode_id_list ids) × Rises 0 ids

  -- From `c` to `c'` the table's row at `k` came to list `new`, and no other row changed.
  pub record Relisted (t k : Bytes) (new : List ℕ) (c c' : S.Conn) : Type 0 where
    pub ids : (k' : Bytes) → ids_at t k' c' ≡ (if bytes_eq k k' then new else ids_at t k' c)
    pub elsewhere : (t' k' : Bytes) → bytes_eq t t' ≡ false → L.row t' k' c' ≡ L.row t' k' c
    pub exists : (t' : Bytes) → L.Exists t' c → L.Exists t' c'
    pub filed : Filed t c'

  pub Rises-ids_at : (t : Bytes) (c : S.Conn) → Filed t c → (k : Bytes) → Rises 0 (ids_at t k c)
  Rises-ids_at t c f k = elim (Option-cases (L.row t k c)) [
    | inl e ↦ rw e tt
    | inr (bytes, e) ↦ let (ids, b, r) = f.at_key k bytes e in rw (e, b, decode_encode ids r) r
  ]

  -- A row written with the encoding of a sorted list.
  Relisted-replace :
      (t k : Bytes) (new : List ℕ) (c : S.Conn)
      → L.Exists t c
      → Filed t c
      → Rises 0 new
      → Relisted t k new c (S.replace_row t k (encode_id_list new) c).1
  Relisted-replace t k new c here f r = record {
    ids = λ k'.
        rw (L.replace_row_row t k (encode_id_list new) c here t k', bytes_eq_refl t) (pick k');
    elsewhere = λ t' k' ne. rw (L.replace_row_row t k (encode_id_list new) c here t' k', ne);
    exists = L.replace_row_exists t k (encode_id_list new) c;
    filed = record {
      at_key = λ k' bytes e.
          kept k' bytes
            (rw (L.replace_row_row t k (encode_id_list new) c here t k', bytes_eq_refl t) at e);
    };
  }
    where
      pick :
          (k' : Bytes)
          → decoded (if bytes_eq k k' then some (encode_id_list new) else L.row t k' c)
            ≡ (if bytes_eq k k' then new else ids_at t k' c)
      pick k' = elim (Bool-cases (bytes_eq k k')) [
        | inl e ↦ rw e (decode_encode new r)
        | inr e ↦ rw e
      ]

      kept :
          (k' bytes : Bytes)
          → (if bytes_eq k k' then some (encode_id_list new) else L.row t k' c) ≡ some bytes
          → (ids : List ℕ) × (bytes ≡ encode_id_list ids) × Rises 0 ids
      kept k' bytes e = elim (Bool-cases (bytes_eq k k')) [
        | inl same ↦ (new, cc (rw same at e), r)
        | inr other ↦ f.at_key k' bytes (rw other at e)
      ]

  Relisted-delete :
      (t k : Bytes) (c : S.Conn)
      → L.Exists t c
      → Filed t c
      → Relisted t k [] c (S.delete_row t k c).1
  Relisted-delete t k c here f = record {
    ids = λ k'. rw (L.delete_row_row t k c here t k', bytes_eq_refl t) (pick k');
    elsewhere = λ t' k' ne. rw (L.delete_row_row t k c here t' k', ne);
    exists = L.delete_row_exists t k c;
    filed = record {
      at_key =
          λ k' bytes e. kept k' bytes (rw (L.delete_row_row t k c here t k', bytes_eq_refl t) at e);
    };
  }
    where
      pick :
          (k' : Bytes)
          → decoded (if bytes_eq k k' then none else L.row t k' c)
            ≡ (if bytes_eq k k' then [] else ids_at t k' c)
      pick k' = elim (Bool-cases (bytes_eq k k')) [ inl e ↦ rw e | inr e ↦ rw e ]

      kept :
          (k' bytes : Bytes)
          → (if bytes_eq k k' then none else L.row t k' c) ≡ some bytes
          → (ids : List ℕ) × (bytes ≡ encode_id_list ids) × Rises 0 ids
      kept k' bytes e = elim (Bool-cases (bytes_eq k k')) [
        | inl same ↦ cc (rw same at e)
        | inr other ↦ f.at_key k' bytes (rw other at e)
      ]

  Relisted-same :
      (t k : Bytes) (c : S.Conn) (new : List ℕ)
      → Filed t c
      → new ≡ ids_at t k c
      → Relisted t k new c c
  Relisted-same t k c new f e = record {
    ids = λ k'. elim (Bool-cases (bytes_eq k k')) [
      | inl same ↦ rw (same, e, (bytes_eq_iff k k').0 same)
      | inr other ↦ rw other
    ];
    elsewhere = λ t' k' ne. refl;
    exists = λ t' h. h;
    filed = f;
  }

module _ (S : Sqlite) (M : Codec) (L : SqliteLaws S) (t : Bytes) (named : check_table t ≡ ok tt)
    (c : S.Conn) (here : L.Exists t c) (f : Filed S L t c) (k : Bytes) (id : ℕ) where
  -- `link` succeeds and adds the identifier to its row.
  pub link_lem :
      IsU64 id
      → (link S M t k id c ≡ (ok tt, (link S M t k id c).1))
        × Relisted S L t k (insert_into_sorted (ids_at S L t k c) id) c (link S M t k id c).1
  unfolding link
  link_lem fits =
      rw (get_ok S L t named c here, put_ok S L t named c here)
        (
          refl,
          Relisted-replace S L t k _ c here f
              (insert_into_sorted_lem _ id (Rises-ids_at S L t c f k) fits).0,
        )

  -- Writing back what `remove_from_sorted` left.
  put_back_lem :
      (ids : List ℕ) (removed : Bool)
      → Rises 0 ids
      → (removed ≡ false → ids ≡ ids_at S L t k c)
      → (put_back S M t k (ids, removed) c ≡ (ok tt, (put_back S M t k (ids, removed) c).1))
        × Relisted S L t k ids c (put_back S M t k (ids, removed) c).1
  put_back_lem ids false r same = (refl, Relisted-same S L t k c ids f (same refl))
  put_back_lem [] true r same =
      rw (delete_ok S L t named c here k) (refl, Relisted-delete S L t k c here f)
  put_back_lem (x ∷ xs) true r same =
      rw (put_ok S L t named c here k (encode_id_list (x ∷ xs)))
        (refl, Relisted-replace S L t k (x ∷ xs) c here f r)

  unlink_row_lem :
      (row : Option Bytes)
      → L.row t k c ≡ row
      → (unlink_row S M t k id row c ≡ (ok tt, (unlink_row S M t k id row c).1))
        × Relisted S L t k (remove_from_sorted (decoded row) id).0 c (unlink_row S M t k id row c).1
  unlink_row_lem none e = (refl, Relisted-same S L t k c _ f (unfold remove_from_sorted in rw e))
  unlink_row_lem (some bytes) e =
      let rises : Rises 0 (decode_id_list bytes) = rw e at (Rises-ids_at S L t c f k) in
      put_back_lem _ _ (remove_from_sorted_lem (decode_id_list bytes) id rises).0
        (λ kept. rw e (remove_unchanged (decode_id_list bytes) id kept))

  -- `unlink` succeeds and takes the identifier out of its row.
  pub unlink_lem :
      (unlink S M t k id c ≡ (ok tt, (unlink S M t k id c).1))
      × Relisted S L t k (remove_from_sorted (ids_at S L t k c) id).0 c (unlink S M t k id c).1
  unfolding unlink
  unlink_lem = rw (get_ok S L t named c here) (unlink_row_lem (L.row t k c) refl)
