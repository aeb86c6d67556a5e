-- ===== src/Storage/AllPaths/Depths.antt =====
-- storage/edge.rs: the depths, the parents and the queue of all_shortest_paths.
use graphdblite.Base.{
  ℕ, ◌≡◌, ◌⊎◌, inl, inr, refl, subst, true, none, some, List, [], ◌∷◌, ◌++◌, contains, ◌==◌, ==_iff,
  if◌then◌else◌, All, Bool-cases, arith,
}
use graphdblite.Storage.AllPaths.{
  Levels, depth_at, parents_at, push_parent, first_visit, again, level,
}

-- A depth that was known stays when another node gets one.
pub depth_at-cons :
    (n k m d : ℕ) (depths : List (ℕ × ℕ))
    → depth_at n depths ≡ none
    → depth_at m depths ≡ some d
    → depth_at m ((n, k) ∷ depths) ≡ some d
depth_at-cons n k m d depths fresh known = elim (Bool-cases (n == m)) [
  | inl same ↦
      let e : n ≡ m = (==_iff n m).0 same in
      let clash : depth_at m depths ≡ none = subst (λ x. depth_at x depths ≡ none) e fresh in cc
  | inr other ↦ rw other known
]

pub depth_at_self : (n k : ℕ) (depths : List (ℕ × ℕ)) → depth_at n ((n, k) ∷ depths) ≡ some k
depth_at_self n k depths = rw ((==_iff n n).1 refl)

pub parents_at-push_parent :
    (n c m : ℕ) (parents : List (ℕ × List ℕ))
    → parents_at m (push_parent n c parents)
      ≡ (if n == m then parents_at m parents ++ c ∷ [] else parents_at m parents)
parents_at-push_parent n c m [] = refl
parents_at-push_parent n c m ((k, ps) ∷ rest) = ground (arith, parents_at-push_parent n c m rest)

pub contains-snoc :
    (c p : ℕ) (xs : List ℕ) → contains (xs ++ c ∷ []) p ≡ true → (contains xs p ≡ true) ⊎ (c ≡ p)
contains-snoc c p [] h = inr (ground (arith, ==_iff c p))
contains-snoc c p (x ∷ xs) h = elim (Bool-cases (x == p)) [
  | inl same ↦ inl (rw same refl)
  | inr other ↦ elim (contains-snoc c p xs (rw other at h)) [
    | inl old ↦ inl (rw other old)
    | inr new ↦ inr new
  ]
]

pub only : (c p : ℕ) → contains (c ∷ []) p ≡ true → c ≡ p
only c p h = ground (arith, ==_iff c p)

pub level-fresh :
    (end current depth n : ℕ) (ns : List ℕ) (st : Levels)
    → depth_at n st.depth_of ≡ none
    → level end current depth (n ∷ ns) st
      ≡ level end current depth ns (first_visit end current depth n st)
unfolding level
level-fresh end current depth n ns st fresh = rw (fresh, level) refl

pub level-again :
    (end current depth n existing : ℕ) (ns : List ℕ) (st : Levels)
    → depth_at n st.depth_of ≡ some existing
    → level end current depth (n ∷ ns) st
      ≡ level end current depth ns (again current depth n existing st)
unfolding level
level-again end current depth n existing ns st there = rw (there, level) refl

-- The queue holds nodes with their depths.
abbrev pub IsQueued : List (ℕ × ℕ) → List (ℕ × ℕ) → Type 0
IsQueued depths queue = All (λ e. depth_at e.0 depths ≡ some e.1) queue

pub IsQueued-cons :
    (n k : ℕ) (depths queue : List (ℕ × ℕ))
    → depth_at n depths ≡ none
    → IsQueued depths queue
    → IsQueued ((n, k) ∷ depths) queue
IsQueued-cons n k depths [] fresh h = tt
IsQueued-cons n k depths ((m, d) ∷ queue) fresh (e, h) =
    (depth_at-cons n k m d depths fresh e, IsQueued-cons n k depths queue fresh h)

pub IsQueued-snoc :
    (n k : ℕ) (depths queue : List (ℕ × ℕ))
    → depth_at n depths ≡ some k
    → IsQueued depths queue
    → IsQueued depths (queue ++ (n, k) ∷ [])
IsQueued-snoc n k depths [] known h = (known, tt)
IsQueued-snoc n k depths ((m, d) ∷ queue) known (e, h) = (e, IsQueued-snoc n k depths queue known h)
