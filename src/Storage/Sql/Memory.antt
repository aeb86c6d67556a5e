-- ===== src/Storage/Sql/Memory.antt =====
-- A store in memory for the statements of the storage layer: a list of writes, the last one first.
use graphdblite.Base.{
  ◌≡◌, ◌↔◌, refl, sym, ◌⊎◌, inl, inr, Bool, true, false, not, ◌&&◌, ◌||◌, Option, none, some, List,
  [], ◌∷◌, arith, ltb, if◌then◌else◌, Bytes, IsByte, All, text, bytes_eq, bytes_eq_iff,
  bytes_eq_refl, starts_with, Bool-cases, Option-cases, subst, ltb→lt, lt→ltb,
}
use graphdblite.Types.Error.{ok, err, storage}
use graphdblite.Storage.Sql.Rows.{has_key-Among}
use graphdblite.Storage.Sql.{
  has_key, IsKeyed, Sqlite, SqliteLaws, Row, Among, in_range, one_if_equal, one_if_some,
}

-- A write to a table's key; `none` deletes the row.
abbrev pub Write : Type 0
Write = Bytes × Bytes × Option Bytes

abbrev hits : Bytes → Bytes → Write → Bool
hits t k (t', k', v) = bytes_eq t' t && bytes_eq k' k

abbrev value_at : Bytes → Bytes → List Write → Option Bytes
value_at t k [] = none
value_at t k ((t', k', v) ∷ ws) =
    let older = value_at t k ws in if bytes_eq t' t && bytes_eq k' k then v else older

abbrev written : Bytes → Bytes → List Write → Bool
written t k [] = false
written t k ((t', k', v) ∷ ws) = (bytes_eq t' t && bytes_eq k' k) || written t k ws

abbrev is_bytes : Bytes → Bool
is_bytes [] = true
is_bytes (b ∷ bs) = ltb b 256 && is_bytes bs

abbrev row_if : Bytes → Option Bytes → List Row → List Row
row_if k none more = more
row_if k (some v) more = (k, v) ∷ more

-- The rows of a table whose keys pass the test, each once.
abbrev rows_where : (Bytes → Bool) → (Bytes → Option Bytes) → Bytes → List Write → List Row
rows_where p look t [] = []
rows_where p look t ((t', k, v) ∷ ws) =
    let more = rows_where p look t ws in
    if bytes_eq t' t && (p k && (is_bytes k && not (written t k ws)))
    then row_if k (look k) more
    else more

is_bytes_iff : (k : Bytes) → (is_bytes k ≡ true) ↔ All IsByte k
is_bytes_iff [] = (λ h. tt, λ h. refl)
is_bytes_iff (b ∷ k) = (
  λ h. elim (Bool-cases (ltb b 256)) [
    | inl e ↦ (ltb→lt b 256 e, (is_bytes_iff k).0 (rw e at h))
    | inr e ↦ cc (rw e at h)
  ],
  λ (hb, hk). rw (lt→ltb b 256 hb) ((is_bytes_iff k).1 hk),
)

written_value : (t k v : Bytes) (ws : List Write) → value_at t k ws ≡ some v → written t k ws ≡ true
written_value t k v [] h = cc
written_value t k v ((t', k', w) ∷ ws) h = ground (arith, written_value t k v ws)

Among_row_if :
    (k v k' : Bytes) (o : Option Bytes) (more : List Row)
    → Among (k, v) (row_if k' o more) ↔ (((k ≡ k') × (o ≡ some v)) ⊎ Among (k, v) more)
Among_row_if k v k' none more = (λ a. inr a, λ a. elim a [ inl (e, e') ↦ cc | inr b ↦ b ])
Among_row_if k v k' (some w) more = (
  λ a. elim a [ inl e ↦ inl (cc, cc) | inr b ↦ inr b ],
  λ a. elim a [ inl (e, e') ↦ inl cc | inr b ↦ inr b ],
)

-- What the test lets through, and nothing else.
Listed : (Bytes → Bool) → (Bytes → Option Bytes) → Bytes → List Write → Bytes → Bytes → Type 0
Listed p look t ws k v =
    (look k ≡ some v) × (p k ≡ true) × (is_bytes k ≡ true) × (written t k ws ≡ true)

Among-rows_where :
    (p : Bytes → Bool) (look : Bytes → Option Bytes) (t : Bytes) (ws : List Write) (k v : Bytes)
    → Among (k, v) (rows_where p look t ws) ↔ Listed p look t ws k v
unfolding Listed
Among-rows_where p look t [] k v = (λ a. elim a [ ], λ (e, hp, hb, h). cc)
Among-rows_where p look t ((t', k', w) ∷ ws) k v =
    let ih = Among-rows_where p look t ws k v in
    let here = Among_row_if k v k' (look k') (rows_where p look t ws) in
    let same = bytes_eq_iff k' k in
    elim (Bool-cases (bytes_eq t' t && (p k' && (is_bytes k' && not (written t k' ws))))) [
      | inl e ↦ rw e (
        λ a. elim (here.0 a) [
          | inl (ek, ev) ↦ rw ek (ev, ground arith, ground arith, ground (arith, bytes_eq_refl k'))
          | inr b ↦ let (ev, hp, hb, hw) = ih.0 b in (ev, hp, hb, ground arith)
        ],
        λ (ev, hp, hb, hw). here.1 (elim (Bool-cases (bytes_eq k' k)) [
          | inl ek ↦ inl (sym (same.0 ek), rw (same.0 ek) ev)
          | inr ne ↦ inr (ih.1 (ev, hp, hb, ground arith))
        ]),
      )
      | inr e ↦ rw e (
        λ a. let (ev, hp, hb, hw) = ih.0 a in (ev, hp, hb, ground arith),
        λ (ev, hp, hb, hw). ih.1 (ev, hp, hb, ground arith),
      )
    ]

rows_where-IsKeyed :
    (p : Bytes → Bool) (look : Bytes → Option Bytes) (t : Bytes) (ws : List Write)
    → IsKeyed (rows_where p look t ws)
unfolding Listed
rows_where-IsKeyed p look t [] = tt
rows_where-IsKeyed p look t ((t', k, w) ∷ ws) =
    let ih = rows_where-IsKeyed p look t ws in
    elim (Bool-cases (bytes_eq t' t && (p k && (is_bytes k && not (written t k ws))))) [
      | inr e ↦ rw e ih
      | inl e ↦ rw e (elim (Option-cases (look k)) [
        | inl gone ↦ rw gone ih
        | inr (v, there) ↦ rw there (elim (Bool-cases (has_key k (rows_where p look t ws))) [
          | inr new ↦ (new, ih)
          | inl old ↦
              let (v', a) = (has_key-Among k (rows_where p look t ws)).0 old in
              let (_, _, _, again) = (Among-rows_where p look t ws k v').0 a in
              absurd (ground arith)
        ])
      ])
    ]

pub ok-IsKeyed :
    (p : Bytes → Bool) (look : Bytes → Option Bytes) (t : Bytes) (ws : List Write) (es : List Row)
    → ok (rows_where p look t ws) ≡ ok es
    → IsKeyed es
ok-IsKeyed p look t ws es e =
    let same : rows_where p look t ws ≡ es = cc e in
    subst IsKeyed same (rows_where-IsKeyed p look t ws)

abbrev is_equal : Option Bytes → Bytes → Bool
is_equal none v = false
is_equal (some w) v = bytes_eq w v

abbrev pub memory : Sqlite
memory = record {
  Conn = List Write;
  prepare = λ t c. ok tt;
  select_value = λ t k c. ok (value_at t k c);
  select_range = λ t lo hi c. ok (rows_where (in_range lo hi) (λ k. value_at t k c) t c);
  replace_row = λ t k v c. (ok tt, (t, k, some v) ∷ c);
  insert_row = λ t k v c. elim (value_at t k c) [
    | none ↦ (ok tt, (t, k, some v) ∷ c)
    | some w ↦ (err (storage (text "UNIQUE constraint failed")), c)
  ];
  delete_row = λ t k c. (ok (one_if_some (value_at t k c)), (t, k, none) ∷ c);
  update_row = λ t k new old c. (
    ok (one_if_equal (value_at t k c) old),
    if is_equal (value_at t k c) old then (t, k, some new) ∷ c else c,
  );
  replace_node = λ k label v c. (ok tt, (text "nodes", k, some v) ∷ c);
  select_like = λ prefix c.
      ok
        (rows_where (starts_with prefix) (λ k. value_at (text "metadata") k c) (text "metadata") c);
}

pub among :
    (t lo : Bytes) (hi : Option Bytes) (c : List Write) (k v : Bytes)
    → Among (k, v) (rows_where (in_range lo hi) (λ k'. value_at t k' c) t c)
      ↔ ((value_at t k c ≡ some v) × (in_range lo hi k ≡ true) × All IsByte k)
unfolding Listed
among t lo hi c k v =
    let by = Among-rows_where (in_range lo hi) (λ k'. value_at t k' c) t c k v in
    (
      λ a. let (e, i, b, w) = by.0 a in (e, i, (is_bytes_iff k).0 b),
      λ (e, i, b). by.1 (e, i, (is_bytes_iff k).1 b, written_value t k v c e),
    )

-- Every table exists in memory.
abbrev pub memory_laws : SqliteLaws memory
memory_laws = record {
  Exists = λ t c. Unit {0};
  row = value_at;
  prepare_ok = λ t c h. refl;
  select_value_ok = λ t k c h. refl;
  select_range_ok = λ t lo hi c h.
      (rows_where (in_range lo hi) (λ k. value_at t k c) t c, refl, λ k v. among t lo hi c k v);
  select_range_keyed =
      λ t lo hi c es h e. ok-IsKeyed (in_range lo hi) (λ k. value_at t k c) t c es e;
  replace_row_ok = λ t k v c h. refl;
  replace_row_row = λ t k v c h t' k'. refl;
  replace_row_exists = λ t k v c t' h. tt;
  insert_row_ok = λ t k v c h e. rw (memory, e);
  insert_row_row = λ t k v c h e t' k'. rw (memory, e);
  insert_row_exists = λ t k v c t' h. tt;
  delete_row_ok = λ t k c h. refl;
  delete_row_row = λ t k c h t' k'. refl;
  delete_row_exists = λ t k c t' h. tt;
  update_row_ok = λ t k new old c h. refl;
  update_row_row = λ t k new old c h e t' k'. rw (memory, e, bytes_eq_refl old);
  update_row_exists = λ t k new old c t' h. tt;
  replace_node_ok = λ k label v c h. refl;
  replace_node_row = λ k label v c h t' k'. refl;
  replace_node_exists = λ k label v c t' h. tt;
}
