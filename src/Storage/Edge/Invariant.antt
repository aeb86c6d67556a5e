-- ===== src/Storage/Edge/Invariant.antt =====
-- What every edge operation keeps: the two adjacency tables mirror each other, and two nodes are on
-- one another's lists just when an edge between them has its property row.
use graphdblite.Base.{
  ℕ, ◌≡◌, ◌↔◌, refl, sym, subst, ◌∙◌, inl, inr, Bool, true, false, ◌&&◌, none, some, [], ◌∷◌, ◌++◌,
  arith, ◌==◌, ==_iff, if◌then◌else◌, Bytes, All, IsByte, bytes_eq, bytes_eq_iff, bytes_eq_refl,
  starts_with, Bool-cases,
}
use graphdblite.Storage.Encoding.{IsU64}
use graphdblite.Storage.Sql.{Sqlite, SqliteLaws}
use graphdblite.Storage.Kv.{table_adj_out, table_adj_in, table_edge_props}
use graphdblite.Storage.Keys.{
  edge_props_key, edge_props_prefix, NoNul, starts_with-edge_props_prefix,
  starts_with-edge_props_prefix-append,
}
use graphdblite.Storage.Edge.View.{listed}
use graphdblite.Storage.Edge.Ends.{IsStore}
use graphdblite.Storage.Edge.Create.{Created}
use graphdblite.Storage.Edge.Delete.{Deleted}
use graphdblite.Storage.Edge.DeleteSingle.{Remaining, DeletedSingle}

starts_with-rest : (p k : Bytes) → starts_with p k ≡ true → (rest : Bytes) × (k ≡ p ++ rest)
starts_with-rest [] k h = (k, refl)
starts_with-rest (x ∷ p) [] h = cc
starts_with-rest (x ∷ p) (y ∷ k) h = elim (Bool-cases (x == y)) [
  | inl e ↦ let (rest, e') = starts_with-rest p k (rw e at h) in (rest, rw ((==_iff x y).0 e, e'))
  | inr e ↦ cc (rw e at h)
]

-- A key under the prefixes of two edges: they have the same nodes and label.
one_prefix :
    (s d s' d' : ℕ) (l m : Bytes) (k : Bytes)
    → IsU64 s
    → IsU64 d
    → IsU64 s'
    → IsU64 d'
    → NoNul l
    → NoNul m
    → starts_with (edge_props_prefix s' d' m) k ≡ true
    → starts_with (edge_props_prefix s d l) k ≡ (s == s' && (bytes_eq l m && d == d'))
one_prefix s d s' d' l m k hs hd hs' hd' hl hm p =
    let (rest, e) = starts_with-rest (edge_props_prefix s' d' m) k p in
    rw (e, starts_with-edge_props_prefix-append s d s' d' l m rest hs hd hs' hd' hl hm)
      (ground (arith, bytes_eq_iff l m, bytes_eq_iff m l))

mirror_set :
    (now a b e : Bool) (x y : Bool)
    → x ≡ y
    → (if a && (b && e) then now else x) ≡ (if e && (b && a) then now else y)
mirror_set now a b e x y h = ground arith

mirror_last :
    (last a b e : Bool) (x y : Bool)
    → x ≡ y
    → (if last && (a && (b && e)) then false else x)
      ≡ (if last && (e && (b && a)) then false else y)
mirror_last last a b e x y h = ground arith

module _ (S : Sqlite) (L : SqliteLaws S) where
  -- A node lists another among its outgoing ends just when that lists it among its incoming ones,
  -- and just when a property row of such an edge is there.
  pub record IsGraph (c : S.Conn) : Type 0 where
    pub store : IsStore S L c
    pub mirror :
        (s : ℕ) (l : Bytes) (d : ℕ)
        → IsU64 s
        → IsU64 d
        → listed S L table_adj_out s l d c ≡ listed S L table_adj_in d l s c
    pub backed :
        (s : ℕ) (l : Bytes) (d : ℕ)
        → IsU64 s
        → IsU64 d
        → NoNul l
        → (listed S L table_adj_out s l d c ≡ true) ↔ Remaining S L s d l c

  module _ (src dst : ℕ) (label : Bytes) (c c' : S.Conn) (hs : IsU64 src) (hd : IsU64 dst)
      (hl : NoNul label) (g : IsGraph c) where
    -- What `create_edge` leaves is a graph.
    pub Created-IsGraph :
        (seq : ℕ) (bytes : Bytes)
        → All IsByte (edge_props_key src dst label seq)
        → Created S L src dst label seq bytes c c'
        → IsGraph c'
    Created-IsGraph seq bytes hb r = record {
      store = r.store;
      mirror = λ s l d h h'.
          rw (r.out s l d h, r.in_list d l s h')
            (mirror_set true (src == s) (bytes_eq label l) (dst == d) _ _ (g.mirror s l d h h'));
      backed = λ s l d h h' hn.
          let under = starts_with-edge_props_prefix s d src dst l label seq h h' hs hd hn hl in
          let key = edge_props_key src dst label seq in
          (
            λ e. elim (Bool-cases (src == s && (bytes_eq label l && dst == d))) [
              | inl same ↦ (
                key,
                bytes,
                rw (r.props key, bytes_eq_refl key),
                under ∙ ground (arith, bytes_eq_iff l label, bytes_eq_iff label l, same),
                hb,
              )
              | inr other ↦
                  let (k, v, row, p, b) =
                    (g.backed s l d h h' hn).0 (rw (r.out s l d h, other) at e) in
                  elim (Bool-cases (bytes_eq key k)) [
                    | inl ek ↦ (k, bytes, rw (r.props k, ek), p, b)
                    | inr ne ↦ (k, v, rw (r.props k, ne) row, p, b)
                  ]
            ],
            λ (k, v, row, p, b).
                rw (r.out s l d h) (elim (Bool-cases (src == s && (bytes_eq label l && dst == d))) [
                  | inl same ↦ rw same
                  | inr other ↦ rw other (elim (Bool-cases (bytes_eq key k)) [
                    | inl ek ↦
                        let p' =
                          subst (λ (x : Bytes). starts_with (edge_props_prefix s d l) x ≡ true)
                            (sym ((bytes_eq_iff key k).0 ek)) p in
                        absurd (
                          ground
                            (arith, under, p', other, bytes_eq_iff l label, bytes_eq_iff label l))
                    | inr ne ↦ (g.backed s l d h h' hn).1 (k, v, rw (r.props k, ne) at row, p, b)
                  ])
                ]),
          );
    }

    -- What `delete_edge` leaves is a graph.
    pub Deleted-IsGraph : Deleted S L src dst label c c' → IsGraph c'
    Deleted-IsGraph r = record {
      store = r.store;
      mirror = λ s l d h h'.
          rw (r.out s l d h, r.in_list d l s h')
            (mirror_set false (src == s) (bytes_eq label l) (dst == d) _ _ (g.mirror s l d h h'));
      backed = λ s l d h h' hn. (
        λ e. elim (Bool-cases (src == s && (bytes_eq label l && dst == d))) [
          | inl same ↦ cc (rw (r.out s l d h, same) at e)
          | inr other ↦
              let (k, v, row, p, b) = (g.backed s l d h h' hn).0 (rw (r.out s l d h, other) at e) in
              (
                k,
                v,
                rw (r.props k b, one_prefix src dst s d label l k hs hd h h' hl hn p)
                    (rw other row),
                p,
                b,
              )
        ],
        λ (k, v, row, p, b). rw (r.out s l d h) (
            let kept : (if src == s && (bytes_eq label l && dst == d)
                  then none
                  else L.row table_edge_props k c)
                ≡ some v =
              rw (r.props k b, one_prefix src dst s d label l k hs hd h h' hl hn p) at row in
            elim (Bool-cases (src == s && (bytes_eq label l && dst == d))) [
              | inl same ↦ cc (rw same at kept)
              | inr other ↦ rw other ((g.backed s l d h h' hn).1 (k, v, rw other at kept, p, b))
            ]),
      );
    }

    -- What `delete_single_edge` leaves is a graph.
    pub DeletedSingle-IsGraph : (seq : ℕ) → DeletedSingle S L src dst label seq c c' → IsGraph c'
    DeletedSingle-IsGraph seq r = record {
      store = r.store;
      mirror = λ s l d h h'.
          rw (r.out s l d h, r.in_list d l s h')
            (mirror_last r.last (src == s) (bytes_eq label l) (dst == d) _ _ (g.mirror s l d h h'));
      backed = λ s l d h h' hn.
          let under = starts_with-edge_props_prefix s d src dst l label seq h h' hs hd hn hl in
          let key = edge_props_key src dst label seq in
          let gone : (k : Bytes)
              → starts_with (edge_props_prefix s d l) k ≡ true
              → bytes_eq key k ≡ true
              → (src == s && (bytes_eq label l && dst == d)) ≡ true =
            λ k p ek.
              let p' =
                subst (λ (x : Bytes). starts_with (edge_props_prefix s d l) x ≡ true)
                  (sym ((bytes_eq_iff key k).0 ek)) p in
              ground (arith, under, p', bytes_eq_iff l label, bytes_eq_iff label l) in
          (
            λ e. elim (Bool-cases (src == s && (bytes_eq label l && dst == d))) [
              | inl same ↦ elim (Bool-cases r.last) [
                | inl last ↦ cc (rw (r.out s l d h, last, same) at e)
                | inr more ↦
                    let (k, v, row, p, b) = r.last_iff.0 more in
                    (
                      k,
                      v,
                      row,
                      one_prefix s d src dst l label k h h' hs hd hn hl p
                          ∙ ground (arith, bytes_eq_iff l label, bytes_eq_iff label l, same),
                      b,
                    )
              ]
              | inr other ↦
                  let (k, v, row, p, b) =
                    (g.backed s l d h h' hn).0 (ground (arith, r.out s l d h, e, other)) in
                  elim (Bool-cases (bytes_eq key k)) [
                    | inl ek ↦ cc (other, gone k p ek)
                    | inr ne ↦ (k, v, rw (r.props k, ne) row, p, b)
                  ]
            ],
            λ (k, v, row, p, b). elim (Bool-cases (bytes_eq key k)) [
              | inl ek ↦ cc (rw (r.props k, ek) at row)
              | inr ne ↦
                  let was = (g.backed s l d h h' hn).1 (k, v, rw (r.props k, ne) at row, p, b) in
                  elim (Bool-cases (src == s && (bytes_eq label l && dst == d))) [
                    | inl same ↦
                        let more = r.last_iff.1 (
                          k,
                          v,
                          row,
                          one_prefix src dst s d label l k hs hd h h' hl hn p ∙ same,
                          b,
                        ) in
                        rw (r.out s l d h, more) was
                    | inr other ↦ ground (arith, r.out s l d h, was, other)
                  ]
            ],
          );
    }
