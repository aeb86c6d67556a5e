-- ===== src/Storage/AllPaths.antt =====
-- storage/edge.rs: `all_shortest_paths`. Both loops run on fuel, one unit for each item taken from the
-- queue or the stack; `none` is a loop that is cut short. A path is kept from its last node on, the
-- other way round than in the source, so that the final `reverse` falls away.
pub mod Depths
pub mod Graded
pub mod Ends
pub mod Rebuild
pub mod Growth
pub mod Steps
pub mod Complete
pub mod Shortest
pub mod Laws
use graphdblite.Base.{
  ℕ, zero, suc, ◌+◌, Bool, true, false, not, ◌&&◌, ◌||◌, Option, none, some, List, [], ◌∷◌, ◌++◌,
  leb, ◌==◌, if◌then◌else◌, Bytes,
}
use graphdblite.Types.Error.{Result, ok, err}
use graphdblite.Storage.Sql.{Sqlite}
use graphdblite.Storage.Codec.{Codec}
use graphdblite.Storage.Edge.{Direction, get_neighbors}

-- `parents`, `depth_of`, the queue and `found_depth`.
pub record Levels : Type 0 where
  pub parents : List (ℕ × List ℕ)
  pub depth_of : List (ℕ × ℕ)
  pub queue : List (ℕ × ℕ)
  pub found_depth : Option ℕ

abbrev depth_at : ℕ → List (ℕ × ℕ) → Option ℕ
depth_at node [] = none
depth_at node ((n, d) ∷ depths) = if n == node then some d else depth_at node depths

abbrev parents_at : ℕ → List (ℕ × List ℕ) → List ℕ
parents_at node [] = []
parents_at node ((n, ps) ∷ rest) = if n == node then ps else parents_at node rest

-- `entry(node).or_default().push(parent)`.
abbrev push_parent : ℕ → ℕ → List (ℕ × List ℕ) → List (ℕ × List ℕ)
push_parent node parent [] = (node, parent ∷ []) ∷ []
push_parent node parent ((n, ps) ∷ rest) =
    let more = push_parent node parent rest in
    if n == node then (n, ps ++ (parent ∷ [])) ∷ rest else (n, ps) ∷ more

abbrev is_none : Option ℕ → Bool
is_none none = true
is_none (some d) = false

abbrev first_visit : ℕ → ℕ → ℕ → ℕ → Levels → Levels
first_visit end current next_depth n st = record {
  parents = (n, current ∷ []) ∷ st.parents;
  depth_of = (n, next_depth) ∷ st.depth_of;
  queue =
      if not (n == end) && is_none st.found_depth
      then st.queue ++ ((n, next_depth) ∷ [])
      else st.queue;
  found_depth = if n == end then some next_depth else st.found_depth;
}

abbrev again : ℕ → ℕ → ℕ → ℕ → Levels → Levels
again current next_depth n existing st =
    if existing == next_depth
    then record {
      parents = push_parent n current st.parents;
      depth_of = st.depth_of;
      queue = st.queue;
      found_depth = st.found_depth;
    }
    else st

unfoldable pub level : ℕ → ℕ → ℕ → List ℕ → Levels → Levels
level end current next_depth [] st = st
level end current next_depth (n ∷ ns) st =
    level end current next_depth ns (elim (depth_at n st.depth_of) [
      | none ↦ first_visit end current next_depth n st
      | some existing ↦ again current next_depth n existing st
    ])

abbrev is_past : Option ℕ → ℕ → Bool
is_past none depth = false
is_past (some found) depth = leb found depth

unfoldable pub level_loop :
    (ℕ → Result (List ℕ))
    → ℕ
    → ℕ
    → ℕ
    → List (ℕ × List ℕ)
    → List (ℕ × ℕ)
    → Option ℕ
    → List (ℕ × ℕ)
    → Option (Result Levels)
unfolding level
level_loop near end max_hops zero parents depth_of found queue = none
level_loop near end max_hops (suc fuel) parents depth_of found [] =
    some (ok (record { parents = parents; depth_of = depth_of; queue = []; found_depth = found }))
level_loop near end max_hops (suc fuel) parents depth_of found ((current, depth) ∷ queue) =
    let skipped = level_loop near end max_hops fuel parents depth_of found queue in
    if is_past found depth || leb max_hops depth then skipped else elim (near current) [
      | err e ↦ some (err e)
      | ok ns ↦
          let st = level end current (depth + 1) ns (record {
            parents = parents;
            depth_of = depth_of;
            queue = queue;
            found_depth = found;
          }) in
          level_loop near end max_hops fuel st.parents st.depth_of st.found_depth st.queue
    ]

-- The parents of a node go on the stack in order, so that the last comes off first.
abbrev push_all : List ℕ → List ℕ → List (ℕ × List ℕ) → List (ℕ × List ℕ)
push_all [] path stack = stack
push_all (p ∷ ps) path stack = push_all ps path ((p, p ∷ path) ∷ stack)

unfoldable pub rebuild :
    ℕ → ℕ → List (ℕ × List ℕ) → List (List ℕ) → List (ℕ × List ℕ) → Option (List (List ℕ))
rebuild zero start parents all_paths stack = none
rebuild (suc fuel) start parents all_paths [] = some all_paths
rebuild (suc fuel) start parents all_paths ((node, path) ∷ stack) =
    let complete = rebuild fuel start parents (all_paths ++ (path ∷ [])) stack in
    let further =
      rebuild fuel start parents all_paths (push_all (parents_at node parents) path stack) in
    if node == start then complete else further

abbrev answer : Option (List (List ℕ)) → Option (Result (List (List ℕ)))
answer none = none
answer (some paths) = some (ok paths)

abbrev paths_of : ℕ → ℕ → ℕ → Option (Result Levels) → Option (Result (List (List ℕ)))
paths_of fuel start end none = none
paths_of fuel start end (some (err e)) = some (err e)
paths_of fuel start end (some (ok st)) =
    if is_none (depth_at end st.depth_of)
    then some (ok [])
    else answer (rebuild fuel start st.parents [] ((end, end ∷ []) ∷ []))

module _ (S : Sqlite) (M : Codec) where
  unfoldable pub all_shortest_paths :
      ℕ → ℕ → ℕ → Bytes → Direction → ℕ → S.Conn → Option (Result (List (List ℕ)))
  unfolding level_loop rebuild
  all_shortest_paths fuel start end label direction max_hops c =
      if start == end
      then some (ok ((start ∷ []) ∷ []))
      else paths_of fuel start end (
          level_loop (λ n. (get_neighbors S M n label direction c).0) end max_hops fuel
            ((start, []) ∷ []) ((start, 0) ∷ []) none ((start, 0) ∷ []))
