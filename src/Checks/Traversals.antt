-- ===== src/Checks/Traversals.antt =====
-- Searches of a store with one edge.
use graphdblite.Base.{
  ℕ, ◌+◌, ◌≡◌, ◌≤◌, ◌<◌, ◌↔◌, refl, sym, ◌∙◌, Bool, true, false, inl, inr, List, [], ◌∷◌, none,
  some, arith, All, contains, ◌==◌, ==_iff, Bool-cases, length,
}
use graphdblite.Types.Error.{Result, ok}
use graphdblite.Storage.Sql.Memory.{memory}
use graphdblite.Storage.Edge.{outgoing, create_edge, get_neighbors}
use graphdblite.Storage.Traverse.{near_in, traverse_with_depth, traverse}
use graphdblite.Storage.Traverse.Fuel.{IsClosed}
use graphdblite.Storage.Traverse.Walks.{Walk, Has}
use graphdblite.Storage.Traverse.Sound.{IsReport, IsCapped}
use graphdblite.Storage.Traverse.Laws.{
  traverse_with_depth-ends, traverse_with_depth-IsReport, traverse_with_depth-IsShortest,
  traverse_lem,
}
use graphdblite.Storage.AllPaths.{all_shortest_paths}
use graphdblite.Storage.AllPaths.Laws.{IsAnswer, all_shortest_paths-IsAnswer}
use graphdblite.Checks.{knows, small_format}
use graphdblite.Checks.Edges.{one_edge}

abbrev near : ℕ → Result (List ℕ)
near = near_in memory small_format one_edge knows outgoing

first_answer : near 1 ≡ ok (2 ∷ [])
unfolding create_edge get_neighbors graphdblite.Storage.Kv.get graphdblite.Storage.Kv.check_table
    graphdblite.Types.Name.validate_name graphdblite.Storage.Edge.link graphdblite.Storage.Kv.put
    graphdblite.Storage.Ids.next_edge_seq graphdblite.Base.u64_to_be graphdblite.Base.u64_from_be
    graphdblite.Storage.Stats.increment_edge_type_count graphdblite.Storage.Keys.adj_key
    graphdblite.Storage.Encoding.decode_id_list graphdblite.Storage.Encoding.encode_id_list
    graphdblite.Storage.Encoding.insert_into_sorted
first_answer = refl

second_answer : near 2 ≡ ok []
unfolding create_edge get_neighbors graphdblite.Storage.Kv.get graphdblite.Storage.Kv.check_table
    graphdblite.Types.Name.validate_name graphdblite.Storage.Edge.link graphdblite.Storage.Kv.put
    graphdblite.Storage.Ids.next_edge_seq graphdblite.Base.u64_to_be graphdblite.Base.u64_from_be
    graphdblite.Storage.Stats.increment_edge_type_count graphdblite.Storage.Keys.adj_key
second_answer = refl

near-IsClosed : IsClosed near (1 ∷ 2 ∷ [])
near-IsClosed n ns m h = elim (Bool-cases (1 == n)) [
  | inl same ↦ let e : ns ≡ 2 ∷ [] = cc (h, first_answer, (==_iff 1 n).0 same) in rw e (refl, tt)
  | inr other ↦ elim (Bool-cases (2 == n)) [
    | inl same ↦ let e : ns ≡ [] = cc (h, second_answer, (==_iff 2 n).0 same) in rw e tt
    | inr neither ↦ cc (rw (other, neither) at m)
  ]
]

found :
    traverse_with_depth memory small_format 4 1 knows outgoing 1 3 none one_edge
    ≡ some (ok ((2, 1) ∷ []))
unfolding traverse_with_depth
found = rw (first_answer, second_answer) refl

found_nodes : traverse memory small_format 4 1 knows outgoing 1 3 none one_edge ≡ some (ok (2 ∷ []))
unfolding traverse
found_nodes = rw found refl

one_hop : Walk near 1 1 2
one_hop = (1, refl, (2 ∷ [], first_answer, refl))

traverse_with_depth-ends_example :
    (r : Result (List (ℕ × ℕ))) × (traverse_with_depth memory small_format 4 1 knows outgoing 1 3
        none one_edge
      ≡ some r)
traverse_with_depth-ends_example =
    traverse_with_depth-ends memory small_format 4 1 knows outgoing 1 3 one_edge none (1 ∷ 2 ∷ [])
      refl near-IsClosed (omega arith)

traverse_with_depth-IsReport_example :
    IsReport near 1 1 3 ((2, 1) ∷ []) × IsCapped none ((2, 1) ∷ [])
traverse_with_depth-IsReport_example =
    traverse_with_depth-IsReport memory small_format 4 1 knows outgoing 1 3 one_edge none
      ((2, 1) ∷ []) found

traverse_with_depth-IsShortest_example :
    (d : ℕ) × Has 2 d ((2, 1) ∷ [])
    × ((e : ℕ) → Has 2 e ((2, 1) ∷ []) → e ≡ d)
    × Walk near 1 d 2
    × ((j : ℕ) → Walk near 1 j 2 → d ≤ j)
traverse_with_depth-IsShortest_example =
    traverse_with_depth-IsShortest memory small_format 4 1 knows outgoing 1 3 one_edge ((2, 1) ∷ [])
      1 2 (omega arith) found one_hop (omega arith) refl

traverse_lem_example :
    (contains (2 ∷ []) 2 ≡ true) ↔ (((2 == 1) ≡ false) × ((k : ℕ) × (k ≤ 3) × Walk near 1 k 2))
traverse_lem_example =
    traverse_lem memory small_format 4 1 knows outgoing 1 3 one_edge (2 ∷ []) 2 (omega arith)
      found_nodes

all_shortest_paths-IsAnswer_example :
    (N : ℕ) × (a : Result (List (List ℕ))) × IsAnswer near 1 2 3 a
    × ((fuel : ℕ)
        → N ≤ fuel
        → all_shortest_paths memory small_format fuel 1 2 knows outgoing 3 one_edge ≡ some a)
all_shortest_paths-IsAnswer_example =
    all_shortest_paths-IsAnswer memory small_format 1 2 knows outgoing 3 one_edge (1 ∷ 2 ∷ []) refl
      near-IsClosed

-- The path of one hop is found.
found_paths :
    all_shortest_paths memory small_format 8 1 2 knows outgoing 3 one_edge
    ≡ some (ok ((1 ∷ 2 ∷ []) ∷ []))
unfolding all_shortest_paths graphdblite.Storage.AllPaths.level_loop
    graphdblite.Storage.AllPaths.level graphdblite.Storage.AllPaths.rebuild
found_paths = rw first_answer refl
