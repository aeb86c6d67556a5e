-- ===== src/Checks/Caches.antt =====
-- A cache of one entry, asked for two queries.
use graphdblite.Base.{ℕ, ◌≡◌, refl, false, arith, [], length, Bytes, text, bytes_eq, bytes_eq_iff}
use graphdblite.Types.Error.{Result, ok}
use graphdblite.Cypher.Cache.{Inner, get_or_build, insert}
use graphdblite.Cypher.Cache.Fifo.{IsFifo}
use graphdblite.Cypher.Cache.Steps.{
  IsSound, Reachable, empty, inserted, Reachable-IsFifo, get_or_build_lem,
}

-- A parser for the tests: the length of the query.
abbrev measure : Bytes → Result ℕ
measure query = ok (length query)

abbrev bare : Inner Bytes ℕ
bare = record { entries = []; order = []; capacity = 1 }

abbrev one_query : Inner Bytes ℕ
one_query = insert bytes_eq (text "RETURN 1") 8 bare

abbrev two_queries : Inner Bytes ℕ
two_queries = insert bytes_eq (text "RETURN 22") 9 one_query

two_queries-Reachable : Reachable bytes_eq bytes_eq_iff measure 1 two_queries
two_queries-Reachable = inserted (text "RETURN 22") 9 refl (inserted (text "RETURN 1") 8 refl empty)

bare-IsFifo : IsFifo bytes_eq bare
bare-IsFifo = record { in_step = refl; distinct = tt; bounded = ground arith }

Reachable-IsFifo_example :
    IsFifo bytes_eq two_queries × IsSound bytes_eq bytes_eq_iff measure two_queries.entries
Reachable-IsFifo_example =
    Reachable-IsFifo bytes_eq bytes_eq_iff measure 1 two_queries two_queries-Reachable

get_or_build_lem_example :
    ((get_or_build bytes_eq
        (text "RETURN 1")
        (measure (text "RETURN 1"))
        (record { poisoned = false; inner = two_queries })).0
      ≡ measure (text "RETURN 1"))
    × Reachable bytes_eq bytes_eq_iff measure 1
        (get_or_build bytes_eq
          (text "RETURN 1")
          (measure (text "RETURN 1"))
          (record { poisoned = false; inner = two_queries })).1.inner
get_or_build_lem_example =
    get_or_build_lem bytes_eq bytes_eq_iff measure 1 (text "RETURN 1") false two_queries
      two_queries-Reachable

answered :
    (get_or_build bytes_eq
      (text "RETURN 1")
      (measure (text "RETURN 1"))
      (record { poisoned = false; inner = two_queries })).0
    ≡ ok 8
answered =
    (get_or_build_lem bytes_eq bytes_eq_iff measure 1 (text "RETURN 1") false two_queries
      two_queries-Reachable).0
