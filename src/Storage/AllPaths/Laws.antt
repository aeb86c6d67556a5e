-- ===== src/Storage/AllPaths/Laws.antt =====
-- storage/edge.rs: the answer of all_shortest_paths.
use graphdblite.Base.{
  ℕ, suc, ◌+◌, ◌≤◌, ◌≡◌, refl, sym, subst, ◌∙◌, ◌↔◌, leb, inl, inr, true, false, none, some, List,
  [], ◌∷◌, ==_iff, contains, ◌==◌, All, Bool-cases, Option-cases, arith, Bytes,
}
use graphdblite.Types.Error.{Result, ok, err}
use graphdblite.Storage.Sql.{Sqlite}
use graphdblite.Storage.Codec.{Codec}
use graphdblite.Storage.Edge.{Direction}
use graphdblite.Storage.Traverse.{near_in}
use graphdblite.Storage.Traverse.Walks.{Walk, Has}
use graphdblite.Storage.Traverse.Fuel.{IsClosed, unseen}
use graphdblite.Storage.AllPaths.{Levels, depth_at, rebuild, paths_of, all_shortest_paths}
use graphdblite.Storage.AllPaths.Graded.{IsGraded}
use graphdblite.Storage.AllPaths.Ends.{IsSearched, level_loop-ends, with_fuel}
use graphdblite.Storage.AllPaths.Growth.{IsFront}
use graphdblite.Storage.AllPaths.Complete.{IsFinished, level_loop-IsFinished}
use graphdblite.Storage.AllPaths.Shortest.{IsShortest, Walk-IsRoute, end_depth, climbs}
use graphdblite.Storage.AllPaths.Rebuild.{IsRoute, IsMember, Climbs, ExpandsAt-every}

-- An error is one of the store's, and the paths are the shortest routes.
abbrev pub IsAnswer : (ℕ → Result (List ℕ)) → ℕ → ℕ → ℕ → Result (List (List ℕ)) → Type 0
IsAnswer near start end max_hops (err e) = (n : ℕ) × (near n ≡ err e)
IsAnswer near start end max_hops (ok paths) =
    (path : List ℕ) → IsMember path paths ↔ IsShortest near start end max_hops path

All-IsMember :
    (P : List ℕ → Type 0) (path : List ℕ) (paths : List (List ℕ))
    → All P paths
    → IsMember path paths
    → P path
All-IsMember P path [] h m = elim m [ ]
All-IsMember P path (x ∷ paths) (p, h) (inl e) = subst P e p
All-IsMember P path (x ∷ paths) (p, h) (inr m) = All-IsMember P path paths h m

start_IsGraded :
    (near : ℕ → Result (List ℕ)) (start max_hops : ℕ)
    → IsGraded near start max_hops ((start, []) ∷ []) ((start, 0) ∷ [])
start_IsGraded near start max_hops = record {
  rooted = rw ((==_iff start start).1 refl);
  root = λ n e. elim (Bool-cases (start == n)) [
    | inl same ↦ ground (arith, (==_iff start n).0 same)
    | inr other ↦ let clash : none ≡ some 0 = rw other at e in cc
  ];
  reached = λ n d e. elim (Bool-cases (start == n)) [
    | inl same ↦
        let here : some 0 ≡ some d = rw same at e in
        let depth : 0 ≡ d = ground arith in
        subst (λ v. Walk near start v n) depth ((==_iff start n).0 same)
    | inr other ↦ let clash : none ≡ some d = rw other at e in cc
  ];
  bounded = λ n d e. elim (Bool-cases (start == n)) [
    | inl same ↦ let here : some 0 ≡ some d = rw same at e in ground arith
    | inr other ↦ let clash : none ≡ some d = rw other at e in cc
  ];
  parent = λ n p e. elim (Bool-cases (start == n)) [
    | inl same ↦ let clash : contains [] p ≡ true = rw same at e in cc
    | inr other ↦ let clash : contains [] p ≡ true = rw other at e in cc
  ];
}

rebuild_end :
    (f start : ℕ) (parents : List (ℕ × List ℕ)) (outs : List (List ℕ))
    → rebuild (suc f) start parents outs [] ≡ some outs
unfolding rebuild
rebuild_end f start parents outs = refl

module _ (near : ℕ → Result (List ℕ)) (start end max_hops : ℕ) where
  -- No path is answered when the end has no depth.
  unseen-IsAnswer :
      (st : Levels)
      → IsGraded near start max_hops st.parents st.depth_of
      → IsFinished near end max_hops (ok st)
      → depth_at end st.depth_of ≡ none
      → IsAnswer near start end max_hops (ok [])
  unseen-IsAnswer st g finished unseen path = (
    λ m. elim m [ ],
    λ (k, le, route, least).
        let (e, known, before) =
          end_depth near start end max_hops st finished k start 0 path g.rooted route
            (omega (arith, le)) in
        let clash : some e ≡ none = sym known ∙ unseen in absurd cc,
  )

  -- The paths that climb the parents of the end are the shortest.
  seen-IsAnswer :
      (st : Levels) (h : ℕ) (outs : List (List ℕ))
      → IsGraded near start max_hops st.parents st.depth_of
      → IsFinished near end max_hops (ok st)
      → depth_at end st.depth_of ≡ some h
      → All (IsRoute near start end h) outs
      → ((whole : List ℕ) → Climbs start st.parents h end (end ∷ []) whole → IsMember whole outs)
      → IsAnswer near start end max_hops (ok outs)
  seen-IsAnswer st h outs g finished known routes full path = (
    λ m. (h, shallow, All-IsMember (IsRoute near start end h) path outs routes m, below),
    λ (k, le, route, least).
        let long =
          Walk-IsRoute near start end max_hops h 0 end (end ∷ []) (g.reached end h known)
            (refl, refl) in
        let at_least = least (h + 0) long.0 long.1 in
        let at_most = below k path route in
        let exact : k ≡ h = omega (arith, at_least, at_most) in
        full path (
          climbs near start end max_hops st finished h known shallow k start 0 path path g.rooted
            route (omega (arith, exact)) (refl, refl)),
  )
    where
      shallow : h ≤ max_hops
      shallow = g.bounded end h known

      below : (j : ℕ) (other : List ℕ) → IsRoute near start end j other → h ≤ j
      below j other route = elim (Bool-cases (leb j max_hops)) [
        | inr long ↦ ground (arith, shallow)
        | inl short ↦
            let (e, there, before) =
              end_depth near start end max_hops st finished j start 0 other g.rooted route
                (ground arith) in
            let same : some e ≡ some h = sym there ∙ known in
            let depth : e ≡ h = ground arith in omega (arith, before, depth)
      ]

  -- From a searched state on, the paths are rebuilt with fuel enough.
  paths_of-ends :
      (r : Result Levels)
      → IsSearched near start max_hops r
      → IsFinished near end max_hops r
      → (N : ℕ) × (a : Result (List (List ℕ))) × IsAnswer near start end max_hops a
        × ((fuel : ℕ) → N ≤ fuel → paths_of fuel start end (some r) ≡ some a)
  paths_of-ends (err e) (n, failed) finished = (0, err e, (n, failed), λ fuel enough. refl)
  paths_of-ends (ok st) g finished = elim (Option-cases (depth_at end st.depth_of)) [
    | inl unseen ↦ (0, ok [], unseen-IsAnswer st g finished unseen, λ fuel enough. rw unseen)
    | inr (d, known) ↦
        let (cost, outs, routes, full, run) =
          ExpandsAt-every near start end max_hops st.parents st.depth_of g d end 0 d (end ∷ [])
            (omega arith) known (refl, refl) in
        (
          cost + 1,
          ok outs,
          seen-IsAnswer st d outs g finished known routes full,
          λ fuel enough.
              let done =
                run 1 [] [] outs
                  (with_fuel (λ f. rebuild f start st.parents outs [] ≡ some outs) 0
                    (λ f more. rebuild_end f start st.parents outs))
                  fuel enough in
              rw (known, done) refl,
        )
  ]

  -- The only shortest path from a node to itself is the node.
  same-IsAnswer : start ≡ end → IsAnswer near start end max_hops (ok ((start ∷ []) ∷ []))
  same-IsAnswer e path = (
    (λ m. elim m [
      | inl here ↦ (0, omega arith, (sym here, e), λ j other route. omega arith)
      | inr more ↦ elim more [ ]
    ]),
    λ (k, le, route, least).
        let none_shorter = least 0 (start ∷ []) (refl, e) in
        let zero_hops : k ≡ 0 = omega (arith, none_shorter) in
        inl (sym (subst (λ v. IsRoute near start end v path) zero_hops route).0),
  )

  -- The state that the search starts with.
  start_IsFront :
      (start == end) ≡ false
      → IsFront end 0 (record {
        parents = (start, []) ∷ [];
        depth_of = (start, 0) ∷ [];
        queue = (start, 0) ∷ [];
        found_depth = none;
      })
  start_IsFront other = record {
    sorted = (omega arith, omega arith, tt);
    top =
        λ m e known. let le = (start_IsGraded near start 0).bounded m e known in omega (arith, le);
    found_is = rw other;
  }

  start_waits : (n d : ℕ) → depth_at n ((start, 0) ∷ []) ≡ some d → Has n d ((start, 0) ∷ [])
  start_waits n d e = elim (Bool-cases (start == n)) [
    | inl same ↦
        let here : some 0 ≡ some d = rw same at e in inl ((==_iff start n).0 same, ground arith)
    | inr other ↦ let clash : none ≡ some d = rw other at e in cc
  ]

-- When the start is in a finite list of nodes that holds the neighbours of its nodes, there is an
-- amount of fuel from which on all_shortest_paths ends with one result, whatever the fuel. The result
-- is an error of get_neighbors, or the paths: a path is answered just when it is a route from the start
-- to the end, over at most max_hops hops, and no route is shorter.
pub all_shortest_paths-IsAnswer :
    (S : Sqlite) (M : Codec) (start end : ℕ) (label : Bytes) (direction : Direction) (max_hops : ℕ)
    (c : S.Conn) (us : List ℕ)
    → contains us start ≡ true
    → IsClosed (near_in S M c label direction) us
    → (N : ℕ) × (a : Result (List (List ℕ))) × IsAnswer
        (near_in S M c label direction)
        start
        end
        max_hops
        a
      × ((fuel : ℕ)
          → N ≤ fuel
          → all_shortest_paths S M fuel start end label direction max_hops c ≡ some a)
unfolding all_shortest_paths
all_shortest_paths-IsAnswer S M start end label direction max_hops c us m closed =
    let near = near_in S M c label direction in
    elim (Bool-cases (start == end)) [
      | inl same ↦ (
        0,
        ok ((start ∷ []) ∷ []),
        same-IsAnswer near start end max_hops ((==_iff start end).0 same),
        λ fuel enough. rw same,
      )
      | inr other ↦
          let k = suc (unseen (start ∷ []) us + 1) in
          let (r, searched, loop) =
            level_loop-ends near start end max_hops us closed k ((start, []) ∷ []) ((start, 0) ∷ [])
              ((start, 0) ∷ []) none (start_IsGraded near start max_hops)
              (rw ((==_iff start start).1 refl), tt) (m, tt) (omega arith) in
          let finished =
            level_loop-IsFinished near end max_hops k 0 ((start, []) ∷ []) ((start, 0) ∷ [])
              ((start, 0) ∷ []) none r (start_IsFront near start end max_hops other)
              (λ n d known. inl (start_waits near start end max_hops n d known))
              (loop k (omega arith)) in
          let (N, a, answered, done) = paths_of-ends near start end max_hops r searched finished in
          (
            k + N,
            a,
            answered,
            λ fuel enough. rw (other, loop fuel (omega arith)) (done fuel (omega arith)),
          )
    ]
