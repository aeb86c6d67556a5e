-- ===== src/Storage/Sql/Rows.antt =====
-- Keys among the rows that SQLite gives.
use graphdblite.Base.{
  ◌≡◌, ◌↔◌, sym, ap, inl, inr, true, List, [], ◌∷◌, arith, Bytes, bytes_eq, bytes_eq_iff,
  Bool-cases,
}
use graphdblite.Storage.Sql.{Row, Among, has_key}

pub has_key-Among :
    (k : Bytes) (rows : List Row) → (has_key k rows ≡ true) ↔ ((v : Bytes) × Among (k, v) rows)
has_key-Among k [] = (λ h. cc, λ (v, a). elim a [ ])
has_key-Among k ((key, w) ∷ rows) =
    let ih = has_key-Among k rows in
    let same = bytes_eq_iff key k in
    (
      λ h. elim (Bool-cases (bytes_eq key k)) [
        | inl e ↦ (w, inl (rw (same.0 e)))
        | inr e ↦ let (v, a) = ih.0 (rw e at h) in (v, inr a)
      ],
      λ (v, a). elim a [
        | inl e ↦ rw (same.1 (ap (λ r. r.0) (sym e)))
        | inr b ↦ ground (arith, ih.1 (v, b))
      ],
    )
