-- ===== src/Storage/Ids/Laws.antt =====
-- The counters: what an allocation returns, and what it leaves.
use graphdblite.Base.{
  ℕ, zero, suc, ◌+◌, ◌≡◌, refl, ap, ◌∙◌, false, ◌&&◌, some, List, [], ◌∷◌, arith, length, take,
  if◌then◌else◌, Bytes, text, bytes_eq, bytes_eq_refl, u64_to_be, length-u64_to_be,
  u64_from_be-u64_to_be,
}
use graphdblite.Types.Error.{ok, err, transaction}
use graphdblite.Types.Exec.{Exec, ◌>>=◌, pure}
use graphdblite.Storage.Encoding.{IsU64, u64_mod}
use graphdblite.Storage.Sql.{Sqlite, SqliteLaws}
use graphdblite.Storage.Kv.Laws.{pair_eq}
use graphdblite.Storage.Ids.{
  table_metadata, key_next_node_id, key_next_edge_seq, counter_value, checked_next, next_node_id,
  next_edge_seq,
}

take_eight : (xs : Bytes) (n : ℕ) → length xs ≡ n → take n xs ≡ xs
take_eight [] zero h = refl
take_eight [] (suc n) h = refl
take_eight (x ∷ xs) zero h = absurd (omega arith)
take_eight (x ∷ xs) (suc n) h = ap (λ (l : Bytes). x ∷ l) (take_eight xs n (omega arith))

pub counter_value-u64_to_be :
    (corrupt : Bytes) (n : ℕ) → IsU64 n → counter_value corrupt (u64_to_be n) ≡ ok n
counter_value-u64_to_be corrupt n h =
    rw
      (length-u64_to_be, take_eight (u64_to_be n) 8 (length-u64_to_be n), u64_from_be-u64_to_be n h)

checked_next_lem :
    (exhausted : Bytes) (n : ℕ) → IsU64 (n + 1) → checked_next exhausted n ≡ ok (n + 1)
checked_next_lem exhausted n h = ground arith

module _ (S : Sqlite) (L : SqliteLaws S) where
  -- Nothing outside the metadata table changed, and no table is gone.
  pub record OnlyMetadata (c c' : S.Conn) : Type 0 where
    pub rows : (t k : Bytes) → bytes_eq table_metadata t ≡ false → L.row t k c' ≡ L.row t k c
    pub exists : (t : Bytes) → L.Exists t c → L.Exists t c'

  -- One metadata row came to hold `v`, and all other rows are as they were.
  pub record Stored (k v : Bytes) (c c' : S.Conn) : Type 0 where
    pub here : L.row table_metadata k c' ≡ some v
    pub others :
        (t k' : Bytes)
        → (bytes_eq table_metadata t && bytes_eq k k') ≡ false
        → L.row t k' c' ≡ L.row t k' c
    pub exists : (t : Bytes) → L.Exists t c → L.Exists t c'

  pub Stored-OnlyMetadata : (k v : Bytes) (c c' : S.Conn) → Stored k v c c' → OnlyMetadata c c'
  Stored-OnlyMetadata k v c c' st = record {
    rows = λ t k' ne. st.others t k' (rw ne);
    exists = st.exists;
  }

  Stored-rows :
      (k v : Bytes) (c c' : S.Conn)
      → ((t k' : Bytes)
          → L.row t k' c'
            ≡ (if bytes_eq table_metadata t && bytes_eq k k' then some v else L.row t k' c))
      → ((t : Bytes) → L.Exists t c → L.Exists t c')
      → Stored k v c c'
  Stored-rows k v c c' rows exists = record {
    here = rw (rows table_metadata k, bytes_eq_refl k);
    others = λ t k' ne. rw (rows t k', ne);
    exists = exists;
  }

  module _ (c : S.Conn) (there : L.Exists table_metadata c) where
    update_lem :
        (k new old : Bytes)
        → L.row table_metadata k c ≡ some old
        → (S.update_row table_metadata k new old c
            ≡ (ok 1, (S.update_row table_metadata k new old c).1))
          × Stored k new c (S.update_row table_metadata k new old c).1
    update_lem k new old e = (
      pair_eq (S.update_row table_metadata k new old c) (ok 1)
          (L.update_row_ok table_metadata k new old c there ∙ rw (e, bytes_eq_refl)),
      Stored-rows k new c (S.update_row table_metadata k new old c).1
          (L.update_row_row table_metadata k new old c there e)
          (L.update_row_exists table_metadata k new old c),
    )

    -- Where the metadata table exists and the counter `n` is below the last `u64`, `next_node_id`
    -- returns `n`, stores `n + 1`, and changes no other row.
    pub next_node_id_lem :
        (n : ℕ)
        → L.row table_metadata key_next_node_id c ≡ some (u64_to_be n)
        → IsU64 (n + 1)
        → (next_node_id S c ≡ (ok n, (next_node_id S c).1))
          × Stored key_next_node_id (u64_to_be (n + 1)) c (next_node_id S c).1
    unfolding next_node_id
    next_node_id_lem n e h =
        let (u, st) = update_lem key_next_node_id (u64_to_be (n + 1)) (u64_to_be n) e in
        rw
          (
            L.prepare_ok table_metadata c there,
            L.select_value_ok table_metadata key_next_node_id c there,
            e,
            counter_value-u64_to_be (text "corrupt node ID bytes") n (omega arith),
            checked_next_lem (text "node ID space exhausted") n h,
            u,
          )
          (refl, st)

    -- Where the metadata table exists and the counter is the last `u64`, `next_node_id` fails and
    -- writes nothing.
    pub next_node_id_exhausted :
        (n : ℕ)
        → L.row table_metadata key_next_node_id c ≡ some (u64_to_be n)
        → n + 1 ≡ u64_mod
        → next_node_id S c ≡ (err (transaction (text "node ID space exhausted")), c)
    unfolding next_node_id
    next_node_id_exhausted n e h =
        rw
          (
            L.prepare_ok table_metadata c there,
            L.select_value_ok table_metadata key_next_node_id c there,
            e,
            counter_value-u64_to_be (text "corrupt node ID bytes") n (omega arith),
            h,
          )
          refl

    pub next_edge_seq_lem :
        (n : ℕ)
        → L.row table_metadata key_next_edge_seq c ≡ some (u64_to_be n)
        → IsU64 (n + 1)
        → (next_edge_seq S c ≡ (ok n, (next_edge_seq S c).1))
          × Stored key_next_edge_seq (u64_to_be (n + 1)) c (next_edge_seq S c).1
    unfolding next_edge_seq
    next_edge_seq_lem n e h =
        let (u, st) = update_lem key_next_edge_seq (u64_to_be (n + 1)) (u64_to_be n) e in
        rw
          (
            L.prepare_ok table_metadata c there,
            L.select_value_ok table_metadata key_next_edge_seq c there,
            e,
            counter_value-u64_to_be (text "corrupt edge seq bytes") n (omega arith),
            checked_next_lem (text "edge sequence space exhausted") n h,
            u,
          )
          (refl, st)

-- `count` allocations in a row.
abbrev take_seqs : (S : Sqlite) → ℕ → Exec S.Conn (List ℕ)
take_seqs S zero = pure []
take_seqs S (suc count) = do seq ← next_edge_seq S; more ← take_seqs S count; pure (seq ∷ more)

-- The numbers from `n` on.
abbrev upwards : ℕ → ℕ → List ℕ
upwards n zero = []
upwards n (suc count) = n ∷ upwards (n + 1) count

-- Where the metadata table exists and the counter and the allocations fit a `u64`, allocations in
-- a row return the numbers from the counter on, rising by one.
take_seqs-upwards :
    (S : Sqlite) (L : SqliteLaws S) (count n : ℕ) (c : S.Conn)
    → L.Exists table_metadata c
    → L.row table_metadata key_next_edge_seq c ≡ some (u64_to_be n)
    → IsU64 (n + count)
    → (take_seqs S count c).0 ≡ ok (upwards n count)
take_seqs-upwards S L zero n c there e h = refl
take_seqs-upwards S L (suc count) n c there e h =
    let (returns, st) = next_edge_seq_lem S L c there n e (omega arith) in
    let rest =
      take_seqs-upwards S L count (n + 1) (next_edge_seq S c).1 (st.exists table_metadata there)
        st.here (omega arith) in
    rw (returns, rest)
