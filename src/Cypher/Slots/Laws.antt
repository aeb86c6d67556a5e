-- ===== src/Cypher/Slots/Laws.antt =====
-- Slots and names are one to one.
use graphdblite.Base.{
  ◌^◌, ℕ, zero, suc, ◌+◌, ◌<◌, ◌≤◌, true, Option, none, some, List, [], ◌∷◌, ◌++◌, length,
  length-append, get_elem?, ltb, Bytes, bytes_eq, bytes_eq_iff, ◌≡◌, ◌↔◌, refl, ap, inl, inr, ◌⊎◌,
  arith, Bool-cases,
}
use graphdblite.Cypher.Slots.{RecordSchema, slot_of, name_at, append_name, add}

-- A name has a slot exactly when the slot has that name.
abbrev pub IsSchema : RecordSchema → Type 0
IsSchema s = (name : Bytes) (i : ℕ) → (slot_of s name ≡ some i) ↔ (name_at s i ≡ some name)

get_elem-append_old :
    (xs : List Bytes) (x n : Bytes) (i : ℕ)
    → get_elem? xs i ≡ some n
    → get_elem? (xs ++ x ∷ []) i ≡ some n
get_elem-append_old [] x n i h = cc
get_elem-append_old (y ∷ ys) x n zero h = h
get_elem-append_old (y ∷ ys) x n (suc i) h = get_elem-append_old ys x n i h

get_elem-append_new : (xs : List Bytes) (x : Bytes) → get_elem? (xs ++ x ∷ []) (length xs) ≡ some x
get_elem-append_new [] x = refl
get_elem-append_new (y ∷ ys) x = get_elem-append_new ys x

get_elem-append_cases :
    (xs : List Bytes) (x n : Bytes) (i : ℕ)
    → get_elem? (xs ++ x ∷ []) i ≡ some n
    → (get_elem? xs i ≡ some n) ⊎ ((i ≡ length xs) × (x ≡ n))
get_elem-append_cases [] x n zero h = inr (refl, cc)
get_elem-append_cases [] x n (suc i) h = cc
get_elem-append_cases (y ∷ ys) x n zero h = inl h
get_elem-append_cases (y ∷ ys) x n (suc i) h = elim (get_elem-append_cases ys x n i h) [
  | inl old ↦ inl old
  | inr (e, same) ↦ inr (ap suc e, same)
]

module _ (s : RecordSchema) (name : Bytes) (well : IsSchema s)
    (absent : slot_of s name ≡ none) where
  forth :
      (n : Bytes) (i : ℕ)
      → slot_of (append_name s name (length s.names)) n ≡ some i
      → name_at (append_name s name (length s.names)) i ≡ some n
  forth n i h = elim (Bool-cases (bytes_eq name n)) [
    | inl same ↦
        let e : length s.names ≡ i = cc (rw same at h) in
        rw (← e, ← (bytes_eq_iff name n).0 same) (get_elem-append_new s.names name)
    | inr other ↦ get_elem-append_old s.names name n i ((well n i).0 (rw other at h))
  ]

  back :
      (n : Bytes) (i : ℕ)
      → name_at (append_name s name (length s.names)) i ≡ some n
      → slot_of (append_name s name (length s.names)) n ≡ some i
  back n i h = elim (get_elem-append_cases s.names name n i h) [
    | inl old ↦ elim (Bool-cases (bytes_eq name n)) [
      | inl same ↦ cc (absent, (well n i).1 old, (bytes_eq_iff name n).0 same)
      | inr other ↦ rw other ((well n i).1 old)
    ]
    | inr (e, same) ↦ rw ((bytes_eq_iff name n).1 same, e) refl
  ]

Slot-cases : (o : Option ℕ) → (o ≡ none) ⊎ ((i : ℕ) × (o ≡ some i))
Slot-cases none = inl refl
Slot-cases (some i) = inr (i, refl)

-- What adding a name promises: one to one still, the name has the slot that is returned, each other
-- name keeps its slot, and there is at most one slot more.
pub record IsAdded (s : RecordSchema) (name : Bytes) (s' : RecordSchema) (slot : ℕ) : Type 0 where
  pub well : IsSchema s'
  pub found : slot_of s' name ≡ some slot
  pub kept : (n : Bytes) (i : ℕ) → slot_of s n ≡ some i → slot_of s' n ≡ some i
  pub grown : length s'.names ≤ length s.names + 1

-- While there are fewer than 2^32 names, RecordSchema::add on a schema with names and slots one to one
-- succeeds, and keeps them so: the name has the slot that is returned, each name that had a slot keeps
-- it, and at most one slot is new.
pub add_lem :
    (s : RecordSchema) (name : Bytes)
    → IsSchema s
    → length s.names < 2 ^ 32
    → (s' : RecordSchema) × (slot : ℕ) × (add s name ≡ some (s', slot)) × IsAdded s name s' slot
unfolding add
add_lem s name well room = elim (Slot-cases (slot_of s name)) [
  | inr (slot, e) ↦ (
    s,
    slot,
    rw (add, e) refl,
    record { well = well; found = e; kept = λ n i h. h; grown = omega arith },
  )
  | inl absent ↦
      let last = length s.names in
      let fits : ltb last (2 ^ 32) ≡ true = ground arith in
      let self : bytes_eq name name ≡ true = (bytes_eq_iff name name).1 refl in
      (
        append_name s name last,
        last,
        rw (add, absent, fits) refl,
        record {
          well = λ n i. (forth s name well absent n i, back s name well absent n i);
          found = rw self refl;
          kept = λ n i h. elim (Bool-cases (bytes_eq name n)) [
            | inl same ↦ cc (absent, h, (bytes_eq_iff name n).0 same)
            | inr other ↦ rw other h
          ];
          grown = omega (arith, length-append s.names (name ∷ []));
        },
      )
]
