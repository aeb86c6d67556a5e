-- ===== src/Storage/Stats/Laws.antt =====
-- The counts, as an increment or decrement leaves them.
use graphdblite.Base.{
  ℕ, ◌+◌, ◌-◌, ◌%◌, ◌≡◌, refl, inl, inr, false, ◌&&◌, none, some, [], ◌∷◌, ◌++◌, arith, ◌==◌,
  ==_iff, if◌then◌else◌, Bytes, bytes_eq, Bool-cases, u64_to_be, length-u64_to_be,
  u64_from_be-u64_to_be,
}
use graphdblite.Types.Error.{ok}
use graphdblite.Storage.Encoding.{IsU64, u64_mod}
use graphdblite.Storage.Sql.{Sqlite, SqliteLaws}
use graphdblite.Storage.Kv.Laws.{pair_eq}
use graphdblite.Storage.Ids.{table_metadata}
use graphdblite.Storage.Ids.Laws.{OnlyMetadata}
use graphdblite.Storage.Stats.{
  edge_type_count_prefix, count_of, get_edge_type_count, set_edge_type_count,
  increment_edge_type_count, decrement_edge_type_count_by,
}

same_label : (prefix l m : Bytes) → bytes_eq (prefix ++ l) (prefix ++ m) ≡ bytes_eq l m
same_label [] l m = refl
same_label (x ∷ prefix) l m = ground (arith, same_label prefix l m)

count_of-u64_to_be : (n : ℕ) → IsU64 n → count_of (ok (some (u64_to_be n))) ≡ n
count_of-u64_to_be n h = rw (length-u64_to_be, u64_from_be-u64_to_be n h)

module _ (S : Sqlite) (L : SqliteLaws S) where
  -- The count that is stored for a relationship type.
  abbrev pub edge_count : Bytes → S.Conn → ℕ
  edge_count type_name c =
      count_of (ok (L.row table_metadata (edge_type_count_prefix ++ type_name) c))

  -- The count of one type came to be `n`, every other type has its old one, and no other row changed.
  pub record Counted (type_name : Bytes) (n : ℕ) (c c' : S.Conn) : Type 0 where
    pub counts :
        (m : Bytes) → edge_count m c' ≡ (if bytes_eq type_name m then n else edge_count m c)
    pub others :
        (t k : Bytes)
        → (bytes_eq table_metadata t && bytes_eq (edge_type_count_prefix ++ type_name) k) ≡ false
        → L.row t k c' ≡ L.row t k c
    pub only : OnlyMetadata S L c c'

  module _ (c : S.Conn) (there : L.Exists table_metadata c) where
    Counted-set :
        (l : Bytes) (n : ℕ)
        → IsU64 n
        → (set_edge_type_count S l n c ≡ (ok tt, (set_edge_type_count S l n c).1))
          × Counted l n c (set_edge_type_count S l n c).1
    unfolding set_edge_type_count
    Counted-set l n h =
        let k = edge_type_count_prefix ++ l in
        let law = L.replace_row_row table_metadata k (u64_to_be n) c there in
        (
          pair_eq (S.replace_row table_metadata k (u64_to_be n) c) (ok tt)
              (L.replace_row_ok table_metadata k (u64_to_be n) c there),
          record {
            counts = λ m.
                rw
                  (
                    law table_metadata (edge_type_count_prefix ++ m),
                    same_label edge_type_count_prefix l m,
                  )
                  (pick m);
            others = λ t k' ne. rw (law t k', ne);
            only = record {
              rows = λ t k' ne. rw (law t k', ne);
              exists = L.replace_row_exists table_metadata k (u64_to_be n) c;
            };
          },
        )
      where
        pick :
            (m : Bytes)
            → count_of (
                ok (
                  if bytes_eq l m
                  then some (u64_to_be n)
                  else L.row table_metadata (edge_type_count_prefix ++ m) c))
              ≡ (if bytes_eq l m then n else edge_count m c)
        pick m = elim (Bool-cases (bytes_eq l m)) [
          | inl e ↦ rw e (count_of-u64_to_be n h)
          | inr e ↦ rw e
        ]

    Counted-delete :
        (l : Bytes) → Counted l 0 c (S.delete_row table_metadata (edge_type_count_prefix ++ l) c).1
    Counted-delete l =
        let k = edge_type_count_prefix ++ l in
        let law = L.delete_row_row table_metadata k c there in
        record {
          counts = λ m.
              rw
                (
                  law table_metadata (edge_type_count_prefix ++ m),
                  same_label edge_type_count_prefix l m,
                )
                (pick m);
          others = λ t k' ne. rw (law t k', ne);
          only = record {
            rows = λ t k' ne. rw (law t k', ne);
            exists = L.delete_row_exists table_metadata k c;
          };
        }
      where
        pick :
            (m : Bytes)
            → count_of (
                ok (
                  if bytes_eq l m
                  then none
                  else L.row table_metadata (edge_type_count_prefix ++ m) c))
              ≡ (if bytes_eq l m then 0 else edge_count m c)
        pick m = elim (Bool-cases (bytes_eq l m)) [ inl e ↦ rw e | inr e ↦ rw e ]

    get_edge_type_count_lem : (l : Bytes) → get_edge_type_count S l c ≡ (ok (edge_count l c), c)
    unfolding get_edge_type_count
    get_edge_type_count_lem l = rw (
      L.prepare_ok table_metadata c there,
      L.select_value_ok table_metadata (edge_type_count_prefix ++ l) c there,
    )

    -- Where the metadata table exists and the count is below the last `u64`, an increment
    -- succeeds, raises the count of its type by one, and changes no other row.
    pub increment_edge_type_count_lem :
        (l : Bytes)
        → IsU64 (edge_count l c + 1)
        → (increment_edge_type_count S l c ≡ (ok tt, (increment_edge_type_count S l c).1))
          × Counted l (edge_count l c + 1) c (increment_edge_type_count S l c).1
    unfolding increment_edge_type_count
    increment_edge_type_count_lem l h =
        let wraps : (edge_count l c + 1) % u64_mod ≡ edge_count l c + 1 = omega arith in
        rw (get_edge_type_count_lem l, wraps) (Counted-set l (edge_count l c + 1) h)

    -- Where the metadata table exists and the count is a `u64`, a decrement succeeds, lowers the
    -- count of its type, to 0 at least, and changes no other row.
    pub decrement_edge_type_count_by_lem :
        (l : Bytes) (n : ℕ)
        → IsU64 (edge_count l c)
        → (decrement_edge_type_count_by S l n c ≡ (ok tt, (decrement_edge_type_count_by S l n c).1))
          × Counted l (edge_count l c - n) c (decrement_edge_type_count_by S l n c).1
    unfolding decrement_edge_type_count_by
    decrement_edge_type_count_by_lem l n h = elim (Bool-cases (edge_count l c - n == 0)) [
      | inl e ↦
          let none_left : edge_count l c - n ≡ 0 = (==_iff (edge_count l c - n) 0).0 e in
          rw
            (
              get_edge_type_count_lem l,
              e,
              L.delete_row_ok table_metadata (edge_type_count_prefix ++ l) c there,
              none_left,
            )
            (refl, Counted-delete l)
      | inr e ↦ rw (get_edge_type_count_lem l, e) (Counted-set l (edge_count l c - n) (omega arith))
    ]
