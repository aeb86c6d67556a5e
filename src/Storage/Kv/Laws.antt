-- ===== src/Storage/Kv/Laws.antt =====
-- The key-value operations on a table that exists.
use graphdblite.Base.{
  ◌≡◌, ◌↔◌, subst, inl, inr, Bool, true, false, Option, none, some, List, Bytes, IsByte, All,
  starts_with, Option-cases,
}
use graphdblite.Types.Error.{ok}
use graphdblite.Storage.Sql.{Sqlite, SqliteLaws, Row, Among, IsKeyed}
use graphdblite.Storage.Kv.{check_table, prefix_upper_bound, get, put, delete, scan_prefix}
use graphdblite.Storage.Kv.Prefix.{in_range-prefix_upper_bound}

abbrev pub is_some : Option Bytes → Bool
is_some none = false
is_some (some v) = true

pub pair_eq : {A B : Type 0} (p : A × B) (a : A) → p.0 ≡ a → p ≡ (a, p.1)
pair_eq p a e = cc

module _ (S : Sqlite) (L : SqliteLaws S) (t : Bytes) (named : check_table t ≡ ok tt) (c : S.Conn)
    (here : L.Exists t c) where
  pub get_ok : (k : Bytes) → get S t k c ≡ (ok (L.row t k c), c)
  unfolding get
  get_ok k = rw (named, L.prepare_ok t c here, L.select_value_ok t k c here)

  pub put_ok : (k v : Bytes) → put S t k v c ≡ (ok tt, (S.replace_row t k v c).1)
  unfolding put
  put_ok k v =
      rw (named, L.prepare_ok t c here)
        (pair_eq (S.replace_row t k v c) (ok tt) (L.replace_row_ok t k v c here))

  pub delete_ok :
      (k : Bytes) → delete S t k c ≡ (ok (is_some (L.row t k c)), (S.delete_row t k c).1)
  unfolding delete
  delete_ok k =
      rw (named, L.prepare_ok t c here, L.delete_row_ok t k c here)
        (elim (Option-cases (L.row t k c)) [ inl e ↦ rw e | inr (v, e) ↦ rw e ])

  -- On a table that exists and a prefix of bytes, a scan succeeds, changes nothing, and finds exactly
  -- the rows whose keys are bytes that start with the prefix.
  pub scan_prefix_ok :
      (prefix : Bytes)
      → All IsByte prefix
      → (es : List Row) × (scan_prefix S t prefix c ≡ (ok es, c))
        × ((k v : Bytes)
            → Among (k, v) es
              ↔ ((L.row t k c ≡ some v) × (starts_with prefix k ≡ true) × All IsByte k))
  unfolding scan_prefix
  scan_prefix_ok prefix hp =
      let (es, e, mem) = L.select_range_ok t prefix (prefix_upper_bound prefix) c here in
      (
        es,
        rw (named, L.prepare_ok t c here, e),
        λ k v. (
          λ a.
              let (r, i, b) = (mem k v).0 a in
              (r, rw (in_range-prefix_upper_bound prefix k hp b) at i, b),
          λ (r, i, b). (mem k v).1 (r, rw (in_range-prefix_upper_bound prefix k hp b) i, b),
        ),
      )

  -- No two rows of a scan have one key.
  pub scan_prefix-IsKeyed :
      (prefix : Bytes)
      → All IsByte prefix
      → (es : List Row) → scan_prefix S t prefix c ≡ (ok es, c)
      → IsKeyed es
  unfolding scan_prefix
  scan_prefix-IsKeyed prefix hp es scanned =
      let (es0, e, mem) = L.select_range_ok t prefix (prefix_upper_bound prefix) c here in
      let both = rw (named, L.prepare_ok t c here, e) at scanned in
      let same : es0 ≡ es = cc both in
      subst IsKeyed same (L.select_range_keyed t prefix (prefix_upper_bound prefix) c es0 here e)
