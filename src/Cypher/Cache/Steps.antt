-- ===== src/Cypher/Cache/Steps.antt =====
-- The cache as concurrent calls leave it, and what a call answers.
use graphdblite.Base.{
  ℕ, ◌≡◌, ◌↔◌, refl, sym, ap, ◌∙◌, inl, inr, Bool, true, false, none, some, List, [], ◌∷◌, ◌++◌,
  arith, length, leb, if◌then◌else◌, Bool-cases, Option-cases, All,
}
use graphdblite.Types.Error.{Result, ok, err}
use graphdblite.Cypher.Cache.{
  Inner, find, contains_key, remove_key, evict, insert, look_up, store, built, get_or_build,
}
use graphdblite.Cypher.Cache.Fifo.{IsFifo, insert-IsFifo}

module _ {K V : Type 0} (same : K → K → Bool) (same_iff : (a b : K) → (same a b ≡ true) ↔ (a ≡ b))
    (build : K → Result V) where
  -- Every entry holds what building its key gives.
  abbrev pub IsSound : List (K × V) → Type 0
  IsSound = All (λ entry. build entry.0 ≡ ok entry.1)

  -- The states that concurrent calls reach: an insertion of a built value is one step, at any time
  -- after its build, so that other steps may come between the two.
  pub data Reachable (capacity : ℕ) : Inner K V → Type 0 where
    empty : Reachable capacity (record { entries = []; order = []; capacity = capacity })
    inserted :
        {inner : Inner K V} (key : K) (value : V)
        → build key ≡ ok value
        → Reachable capacity inner
        → Reachable capacity (insert same key value inner)

  remove-IsSound : (key : K) (es : List (K × V)) → IsSound es → IsSound (remove_key same key es)
  unfolding remove_key
  remove-IsSound key [] h = tt
  remove-IsSound key ((k, v) ∷ es) (a, h) = elim (Bool-cases (same k key)) [
    | inl e ↦ rw e (remove-IsSound key es h)
    | inr e ↦ rw e (a, remove-IsSound key es h)
  ]

  append-IsSound :
      (key : K) (value : V) (es : List (K × V))
      → build key ≡ ok value
      → IsSound es
      → IsSound (es ++ (key, value) ∷ [])
  append-IsSound key value [] b h = (b, tt)
  append-IsSound key value (e ∷ es) b (a, h) = (a, append-IsSound key value es b h)

  evict-IsSound : (es : List (K × V)) (ks : List K) → IsSound es → IsSound (evict same es ks).0
  unfolding evict
  evict-IsSound es [] h = h
  evict-IsSound es (k ∷ ks) h = remove-IsSound k es h

  insert-IsSound :
      (key : K) (value : V) (inner : Inner K V)
      → build key ≡ ok value
      → IsSound inner.entries
      → IsSound (insert same key value inner).entries
  unfolding insert
  insert-IsSound key value inner b h = elim (Bool-cases (contains_key same key inner.entries)) [
    | inl e ↦ rw e h
    | inr e ↦ rw e (
        append-IsSound key value _ b
          (elim (Bool-cases (leb inner.capacity (length inner.entries))) [
            | inl full ↦ rw full (evict-IsSound inner.entries inner.order h)
            | inr open_ ↦ rw open_ h
          ]))
  ]

  -- In every state that concurrent calls reach, the map and the queue are in step, no key is in the
  -- queue twice, the map has at most its capacity of entries, or one where the capacity is 0, and
  -- every entry holds what building its key gives.
  pub Reachable-IsFifo :
      (capacity : ℕ) (inner : Inner K V)
      → Reachable capacity inner
      → IsFifo same inner × IsSound inner.entries
  Reachable-IsFifo capacity _ empty =
      (record { in_step = refl; distinct = tt; bounded = ground arith }, tt)
  Reachable-IsFifo capacity _ (inserted key value b r) =
      let (f, h) = Reachable-IsFifo capacity _ r in
      (insert-IsFifo same same_iff key value _ f, insert-IsSound key value _ b h)

  find-IsSound :
      (key : K) (es : List (K × V)) (value : V)
      → IsSound es
      → find same key es ≡ some value
      → build key ≡ ok value
  unfolding find
  find-IsSound key [] value h e = cc
  find-IsSound key ((k, v) ∷ es) value (a, h) e = elim (Bool-cases (same k key)) [
    | inl hit ↦ let there = rw hit at e in let kk = (same_iff k key).0 hit in cc
    | inr miss ↦ find-IsSound key es value h (rw miss at e)
  ]

  -- A call on a reachable cache answers what building answers, errors included, poisoned or not, and
  -- leaves a reachable cache.
  pub get_or_build_lem :
      (capacity : ℕ) (key : K) (poisoned : Bool) (inner : Inner K V)
      → Reachable capacity inner
      → ((get_or_build same key (build key) (record { poisoned = poisoned; inner = inner })).0
          ≡ build key)
        × Reachable capacity
            (get_or_build same key
              (build key)
              (record { poisoned = poisoned; inner = inner })).1.inner
  unfolding get_or_build look_up store
  get_or_build_lem capacity key true inner r = missed (build key) refl
    where
      missed :
          (b : Result V)
          → build key ≡ b
          → ((built same key b (record { poisoned = true; inner = inner })).0 ≡ b)
            × Reachable capacity
                (built same key b (record { poisoned = true; inner = inner })).1.inner
      missed (ok v) e = (refl, r)
      missed (err x) e = (refl, r)
  get_or_build_lem capacity key false inner r = elim (Option-cases (find same key inner.entries)) [
    | inl e ↦ rw (get_or_build, e) (missed (build key) refl)
    | inr (v, e) ↦
        rw (get_or_build, e)
          (sym (find-IsSound key inner.entries v (Reachable-IsFifo capacity inner r).1 e), r)
  ]
    where
      missed :
          (b : Result V)
          → build key ≡ b
          → ((built same key b (record { poisoned = false; inner = inner })).0 ≡ b)
            × Reachable capacity
                (built same key b (record { poisoned = false; inner = inner })).1.inner
      missed (ok v) e = (refl, inserted key v e r)
      missed (err x) e = (refl, r)

  contains_remove :
      (key k : K) (es : List (K × V))
      → contains_key same key es ≡ false
      → contains_key same key (remove_key same k es) ≡ false
  unfolding contains_key remove_key
  contains_remove key k [] h = refl
  contains_remove key k ((x, v) ∷ es) h = ground (arith, contains_remove key k es)

  contains_evict :
      (key : K) (es : List (K × V)) (ks : List K)
      → contains_key same key es ≡ false
      → contains_key same key (evict same es ks).0 ≡ false
  unfolding evict
  contains_evict key es [] h = h
  contains_evict key es (k ∷ ks) h = contains_remove key k es h

  find_append :
      (key : K) (value : V) (es : List (K × V))
      → contains_key same key es ≡ false
      → find same key (es ++ (key, value) ∷ []) ≡ some value
  unfolding contains_key find
  find_append key value [] h = rw ((same_iff key key).1 refl)
  find_append key value ((k, v) ∷ es) h = elim (Bool-cases (same k key)) [
    | inl e ↦ cc (rw e at h)
    | inr e ↦ rw e (find_append key value es (rw e at h))
  ]

  contains_key-find :
      (key : K) (es : List (K × V)) → find same key es ≡ none → contains_key same key es ≡ false
  unfolding contains_key find
  contains_key-find key [] h = refl
  contains_key-find key ((k, v) ∷ es) h = elim (Bool-cases (same k key)) [
    | inl e ↦ cc (rw e at h)
    | inr e ↦ rw e (contains_key-find key es (rw e at h))
  ]

  -- After a call that succeeds on a cache that is not poisoned, the next one finds its answer.
  pub get_or_build-look_up :
      (key : K) (value : V) (inner : Inner K V)
      → (get_or_build same key (build key) (record { poisoned = false; inner = inner })).0
        ≡ ok value
      → look_up same key
          (get_or_build same key (build key) (record { poisoned = false; inner = inner })).1
        ≡ some value
  unfolding get_or_build look_up store insert
  get_or_build-look_up key value inner h = elim (Option-cases (find same key inner.entries)) [
    | inl e ↦ rw (get_or_build, e) (missed e (build key) (rw (get_or_build, e) at h))
    | inr (v, e) ↦
        let answer : ok v ≡ ok value = rw (get_or_build, e) at h in
        rw (get_or_build, e) (e ∙ ap (λ r. elim r [ ok x ↦ some x | err x ↦ none ]) answer)
  ]
    where
      fresh :
          contains_key same key inner.entries ≡ false
          → contains_key same key
              (if leb inner.capacity (length inner.entries)
                then evict same inner.entries inner.order
                else (inner.entries, inner.order)).0
            ≡ false
      fresh n = elim (Bool-cases (leb inner.capacity (length inner.entries))) [
        | inl full ↦ rw full (contains_evict key inner.entries inner.order n)
        | inr open_ ↦ rw open_ n
      ]

      missed :
          find same key inner.entries ≡ none
          → (b : Result V)
          → (built same key b (record { poisoned = false; inner = inner })).0 ≡ ok value
          → look_up same key (built same key b (record { poisoned = false; inner = inner })).1
            ≡ some value
      missed e (err x) h' = cc
      missed e (ok v) h' = rw (contains_key-find key inner.entries e) (
          find_append key v _ (fresh (contains_key-find key inner.entries e))
          ∙ ap (λ r. elim r [ ok x ↦ some x | err x ↦ none ]) h')
