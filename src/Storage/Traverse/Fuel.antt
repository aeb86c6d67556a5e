-- ===== src/Storage/Traverse/Fuel.antt =====
-- The breadth-first loop ends: fuel for each node there is, and one more, is enough.
use graphdblite.Base.{
  ℕ, zero, suc, ◌+◌, ◌≤◌, ◌<◌, ◌≡◌, refl, inl, inr, Bool, true, false, Option, some, List, [], ◌∷◌,
  ◌++◌, arith, length, length-append, contains, leb, if◌then◌else◌, All, Bool-cases,
}
use graphdblite.Types.Error.{Result, ok, err, Result-cases}
use graphdblite.Storage.Traverse.{
  Bfs, visit, visit_all, bfs_loop, enqueue, add_result, is_new_result, reached,
}

-- How many of the nodes were not visited.
abbrev pub unseen : List ℕ → List ℕ → ℕ
unseen visited [] = 0
unseen visited (u ∷ us) = if contains visited u then unseen visited us else suc (unseen visited us)

unseen-add-le : (v : ℕ) (visited us : List ℕ) → unseen (v ∷ visited) us ≤ unseen visited us
unseen-add-le v visited [] = omega arith
unseen-add-le v visited (u ∷ us) = ground (arith, unseen-add-le v visited us)

-- Visiting a node of the list that was not visited lowers the number.
pub unseen-add :
    (v : ℕ) (visited us : List ℕ)
    → contains us v ≡ true
    → contains visited v ≡ false
    → unseen (v ∷ visited) us < unseen visited us
unseen-add v visited [] m fresh = cc
unseen-add v visited (u ∷ us) m fresh =
    ground (arith, unseen-add-le v visited us, unseen-add v visited us)

-- What is left to do: the nodes in the queue, and those that may still enter it.
abbrev left : List ℕ → Bfs → ℕ
left us st = unseen st.visited us + length st.queue

enqueue-left :
    (us : List ℕ) (n depth : ℕ) (st : Bfs)
    → contains us n ≡ true
    → left us (enqueue n depth st) ≤ left us st
enqueue-left us n depth st m =
    ground (arith, unseen-add n st.visited us, length-append st.queue ((n, depth) ∷ []))

-- The queue holds nodes of the list only.
abbrev pub IsInside : List ℕ → List (ℕ × ℕ) → Type 0
IsInside us queue = All (λ e. contains us e.0 ≡ true) queue

pub IsInside-append :
    (us : List ℕ) (n d : ℕ) (queue : List (ℕ × ℕ))
    → contains us n ≡ true
    → IsInside us queue
    → IsInside us (queue ++ (n, d) ∷ [])
IsInside-append us n d [] m h = (m, tt)
IsInside-append us n d (e ∷ queue) m (a, h) = (a, IsInside-append us n d queue m h)

enqueue-IsInside :
    (us : List ℕ) (n depth : ℕ) (st : Bfs)
    → contains us n ≡ true
    → IsInside us st.queue
    → IsInside us (enqueue n depth st).queue
enqueue-IsInside us n depth st m h = elim (Bool-cases (contains st.visited n)) [
  | inl old ↦ rw old h
  | inr new ↦ rw new (IsInside-append us n depth st.queue m h)
]

-- No more is left to do, and the queue holds nodes of the list only.
abbrev Shrinks : List ℕ → Bfs → Bfs → Type 0
Shrinks us st st' = (left us st' ≤ left us st) × IsInside us st'.queue

module _ (start min_hops : ℕ) (cap : Option ℕ) (us : List ℕ) where
  visit-Shrinks :
      (depth n : ℕ) (st : Bfs)
      → contains us n ≡ true
      → IsInside us st.queue
      → Shrinks us st (visit start min_hops cap depth n st).0
  unfolding visit
  visit-Shrinks depth n st m h = elim (Bool-cases (is_new_result start min_hops depth n st)) [
    | inl new ↦ elim (Bool-cases (reached cap (st.result ++ ((n, depth) ∷ [])))) [
      | inl full ↦ rw (new, full) (omega arith, h)
      | inr room ↦
          rw (new, room)
            (
              enqueue-left us n depth (add_result n depth st) m,
              enqueue-IsInside us n depth (add_result n depth st) m h,
            )
    ]
    | inr old ↦ rw old (enqueue-left us n depth st m, enqueue-IsInside us n depth st m h)
  ]

  visit_all-Shrinks :
      (depth : ℕ) (ns : List ℕ) (st : Bfs)
      → All (λ n. contains us n ≡ true) ns
      → IsInside us st.queue
      → Shrinks us st (visit_all start min_hops cap depth ns st).0
  unfolding visit_all
  visit_all-Shrinks depth [] st h i = (omega arith, i)
  visit_all-Shrinks depth (n ∷ ns) st (m, h) i =
      let (first, i1) = visit-Shrinks depth n st m i in
      let (more, i2) = visit_all-Shrinks depth ns (visit start min_hops cap depth n st).0 h i1 in
      elim (Bool-cases (visit start min_hops cap depth n st).1) [
        | inl stop ↦ rw stop (first, i1)
        | inr on ↦ rw on (omega (arith, first, more), i2)
      ]

-- Every neighbour of every node of the list is in the list.
abbrev pub IsClosed : (ℕ → Result (List ℕ)) → List ℕ → Type 0
IsClosed near us =
    (n : ℕ) (ns : List ℕ)
    → contains us n ≡ true
    → near n ≡ ok ns
    → All (λ m. contains us m ≡ true) ns

-- With more fuel than nodes left, the loop ends.
module _ (near : ℕ → Result (List ℕ)) (start min_hops max_hops : ℕ) (cap : Option ℕ)
    (us : List ℕ) where
  pub bfs_loop-ends :
      IsClosed near us
      → (fuel : ℕ) (visited in_result : List ℕ) (result queue : List (ℕ × ℕ)) → IsInside us queue
      → unseen visited us + length queue < fuel
      → (r : Result (List (ℕ × ℕ))) × (bfs_loop near start min_hops max_hops cap fuel visited
            in_result result queue
          ≡ some r)
  unfolding bfs_loop
  bfs_loop-ends closed zero visited in_result result queue i h = absurd (omega arith)
  bfs_loop-ends closed (suc fuel) visited in_result result [] i h = (ok result, refl)
  bfs_loop-ends closed (suc fuel) visited in_result result ((current, depth) ∷ queue) (m, i) h =
      elim (Bool-cases (leb max_hops depth)) [
        | inl far ↦
            rw far (bfs_loop-ends closed fuel visited in_result result queue i (omega arith))
        | inr inside ↦ elim (Result-cases (near current)) [
          | inl (e, same) ↦ (err e, rw (inside, same))
          | inr (ns, same) ↦
              let here : Bfs = record {
                visited = visited;
                in_result = in_result;
                result = result;
                queue = queue;
              } in
              let after : Bfs × Bool = visit_all start min_hops cap (depth + 1) ns here in
              let (less, i1) =
                visit_all-Shrinks start min_hops cap us (depth + 1) ns here
                  (closed current ns m same) i in
              elim (Bool-cases after.1) [
                | inl stop ↦ (ok after.0.result, rw (inside, same, stop))
                | inr on ↦
                    rw (inside, same, on)
                      (bfs_loop-ends closed fuel after.0.visited after.0.in_result after.0.result
                        after.0.queue i1 (omega (arith, less)))
              ]
        ]
      ]

pub unseen-le : (visited us : List ℕ) → unseen visited us ≤ length us
unseen-le visited [] = omega arith
unseen-le visited (u ∷ us) = ground (arith, unseen-le visited us)
