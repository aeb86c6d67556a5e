-- ===== src/Cypher/Cache/Fifo.antt =====
-- The cache's map and queue stay in step, and the map stays within its capacity, or one entry where
-- the capacity is 0.
use graphdblite.Base.{
  ℕ, suc, ◌+◌, ◌≤◌, ◌≡◌, ◌↔◌, refl, sym, ap, inl, inr, Bool, true, false, ◌||◌, List, [], ◌∷◌, ◌++◌,
  arith, length, length-append, leb, ◌==◌, if◌then◌else◌, Bool-cases,
}
use graphdblite.Cypher.Cache.{Inner, contains_key, remove_key, evict, insert}

module _ {K V : Type 0} where
  abbrev pub keys : List (K × V) → List K
  keys [] = []
  keys ((k, v) ∷ entries) = k ∷ keys entries

  keys-append : (xs ys : List (K × V)) → keys (xs ++ ys) ≡ keys xs ++ keys ys
  keys-append [] ys = refl
  keys-append ((k, v) ∷ xs) ys = ap (λ l. k ∷ l) (keys-append xs ys)

  length-keys : (xs : List (K × V)) → length (keys xs) ≡ length xs
  length-keys [] = refl
  length-keys ((k, v) ∷ xs) = ap suc (length-keys xs)

-- The room of a cache: one entry where the capacity is 0.
abbrev pub room : ℕ → ℕ
room capacity = if capacity == 0 then 1 else capacity

module _ {K : Type 0} (same : K → K → Bool) where
  abbrev pub member : K → List K → Bool
  member key [] = false
  member key (k ∷ ks) = same k key || member key ks

  abbrev pub IsDistinct : List K → Type 0
  IsDistinct [] = Unit {0}
  IsDistinct (k ∷ ks) = (member k ks ≡ false) × IsDistinct ks

  IsDistinct-append :
      ((a b : K) → (same a b ≡ true) ↔ (a ≡ b))
      → (ks : List K) (key : K) → IsDistinct ks
      → member key ks ≡ false
      → IsDistinct (ks ++ key ∷ [])
  IsDistinct-append iff [] key h ne = (refl, tt)
  IsDistinct-append iff (k ∷ ks) key (a, h) ne =
      (apart ks a, IsDistinct-append iff ks key h (ground arith))
    where
      turned : same key k ≡ false
      turned = elim (Bool-cases (same key k)) [
        | inl e ↦
            let back : same k key ≡ true = (iff k key).1 (sym ((iff key k).0 e)) in
            ground (arith, back, ne)
        | inr e ↦ e
      ]

      apart : (l : List K) → member k l ≡ false → member k (l ++ key ∷ []) ≡ false
      apart [] h' = rw turned
      apart (x ∷ l) h' = ground (arith, apart l)

module _ {K V : Type 0} (same : K → K → Bool) where
  contains_key-member :
      (key : K) (es : List (K × V)) → contains_key same key es ≡ member same key (keys es)
  unfolding contains_key
  contains_key-member key [] = refl
  contains_key-member key ((k, v) ∷ es) = rw (contains_key-member key es)

  remove_absent :
      (key : K) (es : List (K × V))
      → member same key (keys es) ≡ false
      → remove_key same key es ≡ es
  unfolding remove_key
  remove_absent key [] h = refl
  remove_absent key ((k, v) ∷ es) h = elim (Bool-cases (same k key)) [
    | inl e ↦ cc (rw e at h)
    | inr e ↦ rw (e, remove_absent key es (rw e at h))
  ]

  -- The queue is the map's keys in the order of insertion, each once; the map has at most its
  -- capacity of entries, and one where the capacity is 0.
  pub record IsFifo (inner : Inner K V) : Type 0 where
    pub in_step : inner.order ≡ keys inner.entries
    pub distinct : IsDistinct same inner.order
    pub bounded : length inner.entries ≤ room inner.capacity

  module _ (same_iff : (a b : K) → (same a b ≡ true) ↔ (a ≡ b)) where
    -- Entries and their keys, with one less than the room.
    abbrev Ready : K → ℕ → List (K × V) → List K → Type 0
    Ready key capacity es ks =
        (ks ≡ keys es)
        × IsDistinct same ks
        × (length es + 1 ≤ room capacity)
        × (member same key ks ≡ false)

    evict_lem :
        (key : K) (capacity : ℕ) (es : List (K × V))
        → IsDistinct same (keys es)
        → length es ≤ room capacity
        → member same key (keys es) ≡ false
        → Ready key capacity (evict same es (keys es)).0 (evict same es (keys es)).1
    unfolding evict remove_key
    evict_lem key capacity [] d b ne = (refl, tt, ground arith, refl)
    evict_lem key capacity ((k, v) ∷ es) (a, d) b ne =
        rw ((same_iff k k).1 refl, remove_absent k es a) (refl, d, omega arith, ground arith)

    append_Ready :
        (key : K) (value : V) (capacity : ℕ) (es : List (K × V)) (ks : List K)
        → Ready key capacity es ks
        → IsFifo (record {
          entries = es ++ (key, value) ∷ [];
          order = ks ++ key ∷ [];
          capacity = capacity;
        })
    append_Ready key value capacity es ks (e, d, b, ne) = record {
      in_step = rw (e, keys-append es ((key, value) ∷ []));
      distinct = IsDistinct-append same same_iff ks key d ne;
      bounded = omega (arith, length-append es ((key, value) ∷ []));
    }

    -- An insertion keeps the map and the queue in step and the map within its room.
    pub insert-IsFifo :
        (key : K) (value : V) (inner : Inner K V)
        → IsFifo inner
        → IsFifo (insert same key value inner)
    unfolding insert
    insert-IsFifo key value inner f = elim (Bool-cases (contains_key same key inner.entries)) [
      | inl e ↦ rw e f
      | inr e ↦ rw e (elim (Bool-cases (leb inner.capacity (length inner.entries))) [
        | inl full ↦
            rw (full, f.in_step)
              (append_Ready key value inner.capacity _ _ (
                evict_lem key inner.capacity inner.entries (rw f.in_step at f.distinct) f.bounded
                  (rw contains_key-member at e)))
        | inr open_ ↦ rw open_ (
            append_Ready key value inner.capacity inner.entries inner.order (
              f.in_step,
              f.distinct,
              ground arith,
              rw (f.in_step, ← contains_key-member key inner.entries) e,
            ))
      ])
    ]
