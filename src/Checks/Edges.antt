-- ===== src/Checks/Edges.antt =====
-- Edges created and deleted in a small store.
use graphdblite.Base.{◌≡◌, refl, arith, [], ◌∷◌, List}
use graphdblite.Types.Error.{ok}
use graphdblite.Types.Name.{validate_name}
use graphdblite.Types.Value.{no_fields}
use graphdblite.Storage.Encoding.{IsU64}
use graphdblite.Storage.Sql.Memory.{memory, memory_laws, Write}
use graphdblite.Storage.Stats.Laws.{edge_count}
use graphdblite.Storage.Edge.{create_edge, delete_edge, delete_single_edge}
use graphdblite.Storage.Edge.Create.{IsValidName, CanCreate, Created, create_edge_lem}
use graphdblite.Storage.Edge.Delete.{Deleted, delete_edge_lem}
use graphdblite.Storage.Edge.DeleteSingle.{DeletedSingle, delete_single_edge_lem}
use graphdblite.Storage.Edge.Invariant.{IsGraph}
use graphdblite.Storage.Edge.Keeps.{
  edge_props_prefix-IsByte, create_edge-IsGraph, delete_edge-IsGraph, delete_single_edge-IsGraph,
}
use graphdblite.Checks.{fresh, fresh-IsStore, fresh-IsGraph, knows, small_format}

knows-IsValidName : IsValidName knows
unfolding validate_name
knows-IsValidName = refl

one-IsU64 : IsU64 1
one-IsU64 = ground arith

two-IsU64 : IsU64 2
two-IsU64 = ground arith

can_create : CanCreate memory memory_laws knows 0 fresh
can_create = record {
  store = fresh-IsStore;
  counter = refl;
  seq_room = ground arith;
  count_room = ground arith;
}

abbrev pub one_edge : List Write
one_edge = (create_edge memory small_format 1 2 knows no_fields fresh).1

one_edge-Created : Created memory memory_laws 1 2 knows 0 (128 ∷ []) fresh one_edge
one_edge-Created =
    (create_edge_lem memory memory_laws small_format 1 2 knows no_fields (128 ∷ []) 0 fresh
      one-IsU64 two-IsU64 can_create knows-IsValidName tt refl).1

one_edge-IsGraph : IsGraph memory memory_laws one_edge
one_edge-IsGraph =
    (create_edge-IsGraph memory memory_laws small_format 1 2 knows fresh one-IsU64 two-IsU64
      knows-IsValidName fresh-IsGraph no_fields (128 ∷ []) 0 can_create tt refl).1

one_edge_count : IsU64 (edge_count memory memory_laws knows one_edge)
one_edge_count = rw (one_edge-Created.count knows) one-IsU64

create_edge_lem_example :
    (create_edge memory small_format 1 2 knows no_fields fresh ≡ (ok tt, one_edge))
    × Created memory memory_laws 1 2 knows 0 (128 ∷ []) fresh one_edge
create_edge_lem_example =
    create_edge_lem memory memory_laws small_format 1 2 knows no_fields (128 ∷ []) 0 fresh one-IsU64
      two-IsU64 can_create knows-IsValidName tt refl

create_edge-IsGraph_example :
    (create_edge memory small_format 1 2 knows no_fields fresh ≡ (ok tt, one_edge))
    × IsGraph memory memory_laws one_edge
create_edge-IsGraph_example =
    create_edge-IsGraph memory memory_laws small_format 1 2 knows fresh one-IsU64 two-IsU64
      knows-IsValidName fresh-IsGraph no_fields (128 ∷ []) 0 can_create tt refl

delete_edge_lem_example :
    (delete_edge memory small_format 1 2 knows one_edge
      ≡ (ok tt, (delete_edge memory small_format 1 2 knows one_edge).1))
    × Deleted memory memory_laws 1 2 knows one_edge
        (delete_edge memory small_format 1 2 knows one_edge).1
delete_edge_lem_example =
    delete_edge_lem memory memory_laws small_format 1 2 knows one_edge one-IsU64 two-IsU64
      (edge_props_prefix-IsByte 1 2 knows knows-IsValidName) one_edge-Created.store one_edge_count

delete_edge-IsGraph_example :
    (delete_edge memory small_format 1 2 knows one_edge
      ≡ (ok tt, (delete_edge memory small_format 1 2 knows one_edge).1))
    × IsGraph memory memory_laws (delete_edge memory small_format 1 2 knows one_edge).1
delete_edge-IsGraph_example =
    delete_edge-IsGraph memory memory_laws small_format 1 2 knows one_edge one-IsU64 two-IsU64
      knows-IsValidName one_edge-IsGraph one_edge_count

delete_single_edge_lem_example :
    (delete_single_edge memory small_format 1 2 knows 0 one_edge
      ≡ (ok tt, (delete_single_edge memory small_format 1 2 knows 0 one_edge).1))
    × DeletedSingle memory memory_laws 1 2 knows 0 one_edge
        (delete_single_edge memory small_format 1 2 knows 0 one_edge).1
delete_single_edge_lem_example =
    delete_single_edge_lem memory memory_laws small_format 1 2 knows 0 one_edge one-IsU64 two-IsU64
      (edge_props_prefix-IsByte 1 2 knows knows-IsValidName) one_edge-Created.store one_edge_count

delete_single_edge-IsGraph_example :
    (delete_single_edge memory small_format 1 2 knows 0 one_edge
      ≡ (ok tt, (delete_single_edge memory small_format 1 2 knows 0 one_edge).1))
    × IsGraph memory memory_laws (delete_single_edge memory small_format 1 2 knows 0 one_edge).1
delete_single_edge-IsGraph_example =
    delete_single_edge-IsGraph memory memory_laws small_format 1 2 knows one_edge one-IsU64
      two-IsU64 knows-IsValidName one_edge-IsGraph 0 one_edge_count
