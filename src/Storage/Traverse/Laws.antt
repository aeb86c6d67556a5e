-- ===== src/Storage/Traverse/Laws.antt =====
-- `traverse_with_depth` and `traverse` on a database.
use graphdblite.Base.{
  ℕ, ◌+◌, ◌≤◌, ◌<◌, ◌↔◌, ◌≡◌, refl, sym, ◌∙◌, true, false, Option, none, some, List, [], ◌∷◌, arith,
  length, map, contains, ◌==◌, Bytes, leb, inl, inr, Bool-cases,
}
use graphdblite.Types.Error.{Result, ok, err}
use graphdblite.Storage.Sql.{Sqlite}
use graphdblite.Storage.Codec.{Codec}
use graphdblite.Storage.Edge.{Direction}
use graphdblite.Storage.Traverse.{near_in, traverse_with_depth, traverse, only_nodes}
use graphdblite.Storage.Traverse.Fuel.{IsClosed, bfs_loop-ends, unseen-le}
use graphdblite.Storage.Traverse.Walks.{Walk, Has, firsts, contains-firsts, Has-firsts, Has-once}
use graphdblite.Storage.Traverse.Sound.{
  IsReport, IsCapped, bfs_loop-IsReport, start-IsSound, start-IsOpen,
}
use graphdblite.Storage.Traverse.Complete.{bfs_loop-IsComplete}

module _ (S : Sqlite) (M : Codec) (fuel start : ℕ) (label : Bytes) (direction : Direction)
    (min_hops max_hops : ℕ) (c : S.Conn) where
  -- In a finite list that holds the start and the neighbours of each of its nodes,
  -- traverse_with_depth ends with an answer or an error when the fuel is larger than the list's
  -- length plus one, whatever the cap.
  pub traverse_with_depth-ends :
      (max_results : Option ℕ) (us : List ℕ)
      → contains us start ≡ true
      → IsClosed (near_in S M c label direction) us
      → length us + 1 < fuel
      → (r : Result (List (ℕ × ℕ))) × (traverse_with_depth S M fuel start label direction min_hops
            max_hops max_results c
          ≡ some r)
  unfolding traverse_with_depth
  traverse_with_depth-ends max_results us m closed enough =
      bfs_loop-ends (near_in S M c label direction) start min_hops max_hops max_results us closed
        fuel (start ∷ []) [] [] ((start, 0) ∷ []) (m, tt) (omega (arith, unseen-le (start ∷ []) us))

  -- Each entry of a result of traverse_with_depth is a node other than the start with a depth
  -- between the bounds, at the end of a walk of as many hops; no node is listed twice; and with a
  -- cap the result has at most as many entries as the cap, or one where the cap is 0.
  pub traverse_with_depth-IsReport :
      (max_results : Option ℕ) (result : List (ℕ × ℕ))
      → traverse_with_depth S M fuel start label direction min_hops max_hops max_results c
        ≡ some (ok result)
      → IsReport (near_in S M c label direction) start min_hops max_hops result
        × IsCapped max_results result
  unfolding traverse_with_depth
  traverse_with_depth-IsReport max_results result h =
      bfs_loop-IsReport (near_in S M c label direction) start min_hops max_hops max_results fuel
        (start ∷ []) [] [] ((start, 0) ∷ []) result
        (start-IsSound (near_in S M c label direction) start min_hops max_hops)
        (start-IsOpen max_results) h

  -- Without a cap and with at most one hop to begin with, each node other than the start at the end
  -- of a walk of at most max_hops hops is in the result of traverse_with_depth, once, with the least
  -- number of hops of a walk to it.
  pub traverse_with_depth-IsShortest :
      (result : List (ℕ × ℕ)) (k n : ℕ)
      → min_hops ≤ 1
      → traverse_with_depth S M fuel start label direction min_hops max_hops none c
        ≡ some (ok result)
      → Walk (near_in S M c label direction) start k n
      → k ≤ max_hops
      → (n == start) ≡ false
      → (d : ℕ) × Has n d result
        × ((e : ℕ) → Has n e result → e ≡ d)
        × Walk (near_in S M c label direction) start d n
        × ((j : ℕ) → Walk (near_in S M c label direction) start j n → d ≤ j)
  unfolding traverse_with_depth
  traverse_with_depth-IsShortest result k n few h w le away =
      let near = near_in S M c label direction in
      let (report, small) = traverse_with_depth-IsReport none result h in
      let listed : (j : ℕ)
          → Walk near start j n
          → j ≤ max_hops
          → (d : ℕ) × Has n d result × (d ≤ j) =
        λ j walk short.
          bfs_loop-IsComplete near start min_hops max_hops few fuel result j n h walk short away in
      let (d, there, less) = listed k w le in
      let (_, _, bound, walk) = report.entries n d there in
      (
        d,
        there,
        λ e other. Has-once n e d result report.distinct other there,
        walk,
        λ j shorter. elim (Bool-cases (leb j max_hops)) [
          | inr far ↦ ground (arith, bound)
          | inl short ↦
              let (e, other, best) = listed j shorter (ground arith) in
              let same : e ≡ d = Has-once n e d result report.distinct other there in
              omega (arith, same, best)
        ],
      )

firsts-map : (result : List (ℕ × ℕ)) → map (λ r. r.0) result ≡ firsts result
firsts-map [] = refl
firsts-map ((n, d) ∷ result) = rw (firsts-map result)

only_nodes-ok :
    (r : Option (Result (List (ℕ × ℕ)))) (nodes : List ℕ)
    → only_nodes r ≡ some (ok nodes)
    → (result : List (ℕ × ℕ)) × (r ≡ some (ok result)) × (nodes ≡ firsts result)
only_nodes-ok none nodes h = cc
only_nodes-ok (some (ok result)) nodes h =
    let e : map (λ r. r.0) result ≡ nodes = cc h in (result, refl, sym e ∙ firsts-map result)
only_nodes-ok (some (err e)) nodes h = cc

-- Without a cap and with at most one hop to begin with, traverse lists exactly the nodes other than
-- the start that a walk of at most max_hops hops reaches.
pub traverse_lem :
    (S : Sqlite) (M : Codec) (fuel start : ℕ) (label : Bytes) (direction : Direction)
    (min_hops max_hops : ℕ) (c : S.Conn) (nodes : List ℕ) (n : ℕ)
    → min_hops ≤ 1
    → traverse S M fuel start label direction min_hops max_hops none c ≡ some (ok nodes)
    → (contains nodes n ≡ true) ↔ (
        ((n == start) ≡ false)
        × ((k : ℕ) × (k ≤ max_hops) × Walk (near_in S M c label direction) start k n))
unfolding traverse
traverse_lem S M fuel start label direction min_hops max_hops c nodes n few h =
    let near = near_in S M c label direction in
    let (result, e, same) =
      only_nodes-ok (traverse_with_depth S M fuel start label direction min_hops max_hops none c)
        nodes h in
    let (report, small) =
      traverse_with_depth-IsReport S M fuel start label direction min_hops max_hops c none result
        e in
    let there : contains nodes n ≡ true
        → ((n == start) ≡ false) × ((k : ℕ) × (k ≤ max_hops) × Walk near start k n) =
      λ m.
        let (d, x) = contains-firsts n result (rw same at m) in
        let entry = report.entries n d x in (entry.0, (d, entry.2, entry.3)) in
    let back : ((n == start) ≡ false) × ((k : ℕ) × (k ≤ max_hops) × Walk near start k n)
        → contains nodes n ≡ true =
      λ w.
        let (away, reach) = w in
        let (k, le, walk) = reach in
        let (d, x, only, path, less) =
          traverse_with_depth-IsShortest S M fuel start label direction min_hops max_hops c result k
            n few e walk le away in
        rw same (Has-firsts n d result x) in
    (there, back)
