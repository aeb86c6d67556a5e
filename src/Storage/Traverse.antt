-- ===== src/Storage/Traverse.antt =====
-- storage/edge.rs: the breadth-first searches. The queue loop runs on fuel, one unit for each node
-- taken from the queue; `none` is a loop that is cut short. A hash set or map is a list.
pub mod Fuel
pub mod Walks
pub mod Sound
pub mod Seen
pub mod Wide
pub mod Complete
pub mod Laws
use graphdblite.Base.{
  ℕ, zero, suc, ◌+◌, Bool, true, false, not, ◌&&◌, Option, none, some, List, [], ◌∷◌, ◌++◌, map,
  length, contains, leb, ◌==◌, if◌then◌else◌, Bytes,
}
use graphdblite.Types.Error.{Result, ok, err}
use graphdblite.Storage.Sql.{Sqlite}
use graphdblite.Storage.Codec.{Codec}
use graphdblite.Storage.Edge.{Direction, get_neighbors}

-- The locals of `traverse_with_depth`; a result is a node and its depth.
pub record Bfs : Type 0 where
  pub visited : List ℕ
  pub in_result : List ℕ
  pub result : List (ℕ × ℕ)
  pub queue : List (ℕ × ℕ)

abbrev pub reached : Option ℕ → List (ℕ × ℕ) → Bool
reached none result = false
reached (some cap) result = leb cap (length result)

-- `visited.insert` and the push to the queue.
abbrev pub enqueue : ℕ → ℕ → Bfs → Bfs
enqueue neighbor depth st = if contains st.visited neighbor then st else record {
  visited = neighbor ∷ st.visited;
  in_result = st.in_result;
  result = st.result;
  queue = st.queue ++ ((neighbor, depth) ∷ []);
}

abbrev pub is_new_result : ℕ → ℕ → ℕ → ℕ → Bfs → Bool
is_new_result start min_hops next_depth neighbor st =
    leb min_hops next_depth && (not (neighbor == start) && not (contains st.in_result neighbor))

abbrev pub add_result : ℕ → ℕ → Bfs → Bfs
add_result neighbor depth st = record {
  visited = st.visited;
  in_result = neighbor ∷ st.in_result;
  result = st.result ++ ((neighbor, depth) ∷ []);
  queue = st.queue;
}

-- The body of the loop over the neighbours, with whether the cap ended the search.
unfoldable pub visit : ℕ → ℕ → Option ℕ → ℕ → ℕ → Bfs → Bfs × Bool
visit start min_hops max_results next_depth neighbor st =
    let st1 =
      if is_new_result start min_hops next_depth neighbor st
      then add_result neighbor next_depth st
      else st in
    if is_new_result start min_hops next_depth neighbor st && reached max_results st1.result
    then (st1, true)
    else (enqueue neighbor next_depth st1, false)

unfoldable pub visit_all : ℕ → ℕ → Option ℕ → ℕ → List ℕ → Bfs → Bfs × Bool
unfolding visit
visit_all start min_hops max_results next_depth [] st = (st, false)
visit_all start min_hops max_results next_depth (n ∷ ns) st =
    let (st1, stop) = visit start min_hops max_results next_depth n st in
    let rest = visit_all start min_hops max_results next_depth ns st1 in
    if stop then (st1, true) else rest

unfoldable pub bfs_loop :
    (ℕ → Result (List ℕ))
    → ℕ
    → ℕ
    → ℕ
    → Option ℕ
    → ℕ
    → List ℕ
    → List ℕ
    → List (ℕ × ℕ)
    → List (ℕ × ℕ)
    → Option (Result (List (ℕ × ℕ)))
unfolding visit_all
bfs_loop near start min_hops max_hops max_results zero visited in_result result queue = none
bfs_loop near start min_hops max_hops max_results (suc fuel) visited in_result result [] =
    some (ok result)
bfs_loop near start min_hops max_hops max_results (suc fuel) visited in_result result
      ((current, depth) ∷ queue) =
    let skipped =
      bfs_loop near start min_hops max_hops max_results fuel visited in_result result queue in
    if leb max_hops depth then skipped else elim (near current) [
      | err e ↦ some (err e)
      | ok ns ↦
          let (st, stop) =
            visit_all start min_hops max_results (depth + 1) ns (record {
              visited = visited;
              in_result = in_result;
              result = result;
              queue = queue;
            }) in
          let rest =
            bfs_loop near start min_hops max_hops max_results fuel st.visited st.in_result st.result
              st.queue in
          if stop then some (ok st.result) else rest
    ]

abbrev only_nodes : Option (Result (List (ℕ × ℕ))) → Option (Result (List ℕ))
only_nodes none = none
only_nodes (some (ok found)) = some (ok (map (λ r. r.0) found))
only_nodes (some (err e)) = some (err e)

-- `shortest_path`: the parent of each node that was reached.
abbrev parent_of : ℕ → List (ℕ × ℕ) → Option ℕ
parent_of node [] = none
parent_of node ((n, p) ∷ parents) = if n == node then some p else parent_of node parents

abbrev is_known : Option ℕ → Bool
is_known none = false
is_known (some p) = true

-- From the end back to the start: one unit of fuel for each parent.
unfoldable pub walk_back : ℕ → ℕ → ℕ → List (ℕ × ℕ) → List ℕ → List ℕ
walk_back zero start cur parents path = path
walk_back (suc fuel) start cur parents path =
    if cur == start then path else elim (parent_of cur parents) [
      | none ↦ path
      | some p ↦ walk_back fuel start p parents (p ∷ path)
    ]

-- The loop over the neighbours: the parents and the queue, with whether the end was met.
unfoldable pub meet :
    ℕ → ℕ → ℕ → List ℕ → List (ℕ × ℕ) → List (ℕ × ℕ) → List (ℕ × ℕ) × List (ℕ × ℕ) × Bool
meet end current depth [] parents queue = (parents, queue, false)
meet end current depth (n ∷ ns) parents queue =
    let skipped = meet end current depth ns parents queue in
    let rest =
      meet end current depth ns ((n, current) ∷ parents) (queue ++ ((n, depth + 1) ∷ [])) in
    if is_known (parent_of n parents)
    then skipped
    else if n == end
    then ((n, current) ∷ parents, queue, true)
    else rest

unfoldable pub path_loop :
    (ℕ → Result (List ℕ))
    → ℕ
    → ℕ
    → ℕ
    → ℕ
    → List (ℕ × ℕ)
    → List (ℕ × ℕ)
    → Option (Result (Option (List ℕ)))
unfolding meet walk_back
path_loop near start end max_hops zero parents queue = none
path_loop near start end max_hops (suc fuel) parents [] = some (ok none)
path_loop near start end max_hops (suc fuel) parents ((current, depth) ∷ queue) =
    let skipped = path_loop near start end max_hops fuel parents queue in
    if leb max_hops depth then skipped else elim (near current) [
      | err e ↦ some (err e)
      | ok ns ↦
          let (parents', queue', met) = meet end current depth ns parents queue in
          let rest = path_loop near start end max_hops fuel parents' queue' in
          if met
          then some (ok (some (walk_back (length parents') start end parents' (end ∷ []))))
          else rest
    ]

module _ (S : Sqlite) (M : Codec) where
  abbrev pub near_in : S.Conn → Bytes → Direction → ℕ → Result (List ℕ)
  near_in c label direction n = (get_neighbors S M n label direction c).0

  unfoldable pub traverse_with_depth :
      ℕ → ℕ → Bytes → Direction → ℕ → ℕ → Option ℕ → S.Conn → Option (Result (List (ℕ × ℕ)))
  unfolding bfs_loop
  traverse_with_depth fuel start label direction min_hops max_hops max_results c =
      bfs_loop (near_in c label direction) start min_hops max_hops max_results fuel (start ∷ []) []
        [] ((start, 0) ∷ [])

  unfoldable pub traverse :
      ℕ → ℕ → Bytes → Direction → ℕ → ℕ → Option ℕ → S.Conn → Option (Result (List ℕ))
  unfolding traverse_with_depth
  traverse fuel start label direction min_hops max_hops max_results c =
      only_nodes (traverse_with_depth fuel start label direction min_hops max_hops max_results c)

  unfoldable pub shortest_path :
      ℕ → ℕ → ℕ → Bytes → Direction → ℕ → S.Conn → Option (Result (Option (List ℕ)))
  unfolding path_loop
  shortest_path fuel start end label direction max_hops c =
      if start == end
      then some (ok (some (start ∷ [])))
      else path_loop (near_in c label direction) start end max_hops fuel ((start, start) ∷ [])
          ((start, 0) ∷ [])
