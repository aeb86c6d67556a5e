-- ===== src/Storage/AllPaths/Ends.antt =====
-- storage/edge.rs: the breadth-first loop of all_shortest_paths ends, and leaves a graded state.
use graphdblite.Base.{
  ℕ, zero, suc, ◌+◌, ◌≤◌, ◌<◌, ◌≡◌, refl, inl, inr, true, false, not, ◌&&◌, ◌||◌, Option, none,
  some, List, [], ◌∷◌, length, length-append, contains, leb, ◌==◌, ==_iff, All, Bool-cases,
  Option-cases, arith,
}
use graphdblite.Types.Error.{Result, ok, err, Result-cases}
use graphdblite.Storage.Traverse.Walks.{firsts}
use graphdblite.Storage.Traverse.Fuel.{unseen, unseen-add, IsInside, IsInside-append, IsClosed}
use graphdblite.Storage.AllPaths.{
  Levels, depth_at, first_visit, again, level, level_loop, is_none, is_past,
}
use graphdblite.Storage.AllPaths.Depths.{IsQueued, level-fresh, level-again}
use graphdblite.Storage.AllPaths.Graded.{IsGraded, level-IsLevel}

depth_at-none :
    (n : ℕ) (depths : List (ℕ × ℕ)) → depth_at n depths ≡ none → contains (firsts depths) n ≡ false
depth_at-none n [] h = refl
depth_at-none n ((m, d) ∷ depths) h = elim (Bool-cases (m == n)) [
  | inl same ↦ let clash : some d ≡ none = rw same at h in cc
  | inr other ↦ rw other (depth_at-none n depths (rw other at h))
]

-- The nodes without a depth, and those in the queue.
abbrev pub left : List ℕ → Levels → ℕ
left us st = unseen (firsts st.depth_of) us + length st.queue

-- No more is left to do, and the queue holds nodes of the list only.
abbrev Shrinks : List ℕ → Levels → Levels → Type 0
Shrinks us st st' = (left us st' ≤ left us st) × IsInside us st'.queue

module _ (end : ℕ) (us : List ℕ) where
  fresh-Shrinks :
      (current depth n : ℕ) (st : Levels)
      → contains us n ≡ true
      → depth_at n st.depth_of ≡ none
      → IsInside us st.queue
      → Shrinks us st (first_visit end current depth n st)
  fresh-Shrinks current depth n st m fresh i =
      let fewer = unseen-add n (firsts st.depth_of) us m (depth_at-none n st.depth_of fresh) in
      elim (Bool-cases (not (n == end) && is_none st.found_depth)) [
        | inl on ↦ rw on (
          omega (arith, fewer, length-append st.queue ((n, depth) ∷ [])),
          IsInside-append us n depth st.queue m i,
        )
        | inr off ↦ rw off (omega (arith, fewer), i)
      ]

  again-Shrinks :
      (current depth n existing : ℕ) (st : Levels)
      → IsInside us st.queue
      → Shrinks us st (again current depth n existing st)
  again-Shrinks current depth n existing st i = elim (Bool-cases (existing == depth)) [
    | inl same ↦ rw same (omega arith, i)
    | inr other ↦ rw other (omega arith, i)
  ]

  level-Shrinks :
      (current depth : ℕ) (ns : List ℕ) (st : Levels)
      → All (λ n. contains us n ≡ true) ns
      → IsInside us st.queue
      → Shrinks us st (level end current depth ns st)
  level-Shrinks current depth [] st h i = unfold level in (omega arith, i)
  level-Shrinks current depth (n ∷ ns) st (m, h) i = elim (Option-cases (depth_at n st.depth_of)) [
    | inl fresh ↦
        let after = first_visit end current depth n st in
        let (less, i1) = fresh-Shrinks current depth n st m fresh i in
        let (more, i2) = level-Shrinks current depth ns after h i1 in
        rw (level-fresh end current depth n ns st fresh) (omega (arith, less, more), i2)
    | inr (existing, there) ↦
        let after = again current depth n existing st in
        let (less, i1) = again-Shrinks current depth n existing st i in
        let (more, i2) = level-Shrinks current depth ns after h i1 in
        rw (level-again end current depth n existing ns st there) (omega (arith, less, more), i2)
  ]

-- A claim about all fuel that is large enough, where there is some.
pub with_fuel :
    (P : ℕ → Type 0) (k : ℕ)
    → ((fuel : ℕ) → k ≤ fuel → P (suc fuel))
    → (fuel : ℕ) → suc k ≤ fuel
    → P fuel
with_fuel P k h zero enough = absurd (omega arith)
with_fuel P k h (suc fuel) enough = h fuel (omega arith)

-- The state that the loop ends with is graded, and an error is one of the store's.
abbrev pub IsSearched : (ℕ → Result (List ℕ)) → ℕ → ℕ → Result Levels → Type 0
IsSearched near start max_hops (err e) = (n : ℕ) × (near n ≡ err e)
IsSearched near start max_hops (ok st) = IsGraded near start max_hops st.parents st.depth_of

all_in : (ns : List ℕ) → All (λ n. contains ns n ≡ true) ns
all_in [] = tt
all_in (n ∷ ns) = (ground (arith, ==_iff n n), all_more n ns ns (all_in ns))
  where
    all_more :
        (x : ℕ) (all ns : List ℕ)
        → All (λ n. contains all n ≡ true) ns
        → All (λ n. contains (x ∷ all) n ≡ true) ns
    all_more x all [] h = tt
    all_more x all (n ∷ ns) (m, h) = (ground arith, all_more x all ns h)

module _ (near : ℕ → Result (List ℕ)) (start end max_hops : ℕ) (us : List ℕ)
    (closed : IsClosed near us) where
  -- With more fuel than nodes left, the loop ends, with one result whatever the fuel.
  pub level_loop-ends :
      (k : ℕ) (parents : List (ℕ × List ℕ)) (depths queue : List (ℕ × ℕ)) (found : Option ℕ)
      → IsGraded near start max_hops parents depths
      → IsQueued depths queue
      → IsInside us queue
      → unseen (firsts depths) us + length queue < k
      → (r : Result Levels) × IsSearched near start max_hops r
        × ((fuel : ℕ)
            → k ≤ fuel
            → level_loop near end max_hops fuel parents depths found queue ≡ some r)
  unfolding level_loop
  level_loop-ends zero parents depths queue found g q i h = absurd (omega arith)
  level_loop-ends (suc k) parents depths [] found g q i h =
      let r : Result Levels =
        ok (record { parents = parents; depth_of = depths; queue = []; found_depth = found }) in
      (
        r,
        g,
        with_fuel (λ fuel. level_loop near end max_hops fuel parents depths found [] ≡ some r) k
            (λ fuel enough. refl),
      )
  level_loop-ends (suc k) parents depths ((current, depth) ∷ queue) found g (known, q) (m, i) h =
      let claim = λ (r : Result Levels) (fuel : ℕ).
        level_loop near end max_hops fuel parents depths found ((current, depth) ∷ queue)
        ≡ some r in
      elim (Bool-cases (is_past found depth || leb max_hops depth)) [
        | inl far ↦
            let (r, good, same) =
              level_loop-ends k parents depths queue found g q i (omega arith) in
            (r, good, with_fuel (claim r) k (λ fuel enough. rw far (same fuel enough)))
        | inr inside ↦ elim (Result-cases (near current)) [
          | inl (e, failed) ↦ (
            err e,
            (current, failed),
            with_fuel (claim (err e)) k (λ fuel enough. rw (inside, failed) refl),
          )
          | inr (ns, answer) ↦
              let here : Levels = record {
                parents = parents;
                depth_of = depths;
                queue = queue;
                found_depth = found;
              } in
              let next : depth + 1 ≡ suc depth = omega arith in
              let shallow : suc depth ≤ max_hops = ground arith in
              let after = level end current (suc depth) ns here in
              let (less, i1) =
                level-Shrinks end us current (suc depth) ns here (closed current ns m answer) i in
              let (g1, q1) =
                level-IsLevel near start end max_hops current depth ns ns here answer (all_in ns)
                  shallow known (g, q) in
              let (r, good, same) =
                level_loop-ends k after.parents after.depth_of after.queue after.found_depth g1 q1
                  i1 (omega (arith, less)) in
              (
                r,
                good,
                with_fuel (claim r) k (λ fuel enough. rw (inside, answer, next) (same fuel enough)),
              )
        ]
      ]
