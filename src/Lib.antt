-- ===== src/Lib.antt =====
-- graphdblite: an embedded property-graph database over SQLite, queried in openCypher.
--
-- A query text goes through the parser, whose results cypher/parse_cache.rs keeps, and the planner,
-- whose plans cypher/plan_cache.rs keeps under the query and the schema's epoch. The executor reads
-- and writes the graph through storage/: node.rs and edge.rs map nodes and edges to rows of
-- key-value tables (storage/kv.rs), with identifiers from id.rs, counts from stats.rs and adjacency
-- lists in the encoding of storage/encoding.rs. This library models the storage layer, statements
-- with the check of their parameters, the comparison of values, dates and times, checks of the planner,
-- and the two caches; paths are below the crate's src/.
--
-- Base        lists, byte strings, order and bits on the natural numbers
-- Types       types.rs: errors, values, names; Exec is `Result` with the state beside it
-- Storage/Sql         rusqlite and SQLite: the statements are a record, their documented effect
--                     another (SqliteLaws); Sql/Memory is a concrete store for the checks
-- Storage/Codec       rmp_serde: a record of functions, and the round trip that it documents
-- Storage/Encoding    storage/encoding.rs: varints, delta-encoded lists, sorted insertion
-- Storage/Kv          storage/kv.rs: get, put, delete, scan_prefix, prefix_upper_bound
-- Storage/Keys        the key functions of storage/edge.rs
-- Storage/Ids         id.rs: next_node_id, next_edge_seq
-- Storage/Stats       stats.rs: the counts in the metadata table
-- Storage/Edge        storage/edge.rs: creation, deletion, properties and look-ups of edges
-- Storage/Node        storage/node.rs: nodes, their labels and properties
-- Storage/Index       storage/index.rs: table names, keys and scan bounds of indexes
-- Storage/Traverse    traverse, traverse_with_depth and shortest_path of storage/edge.rs
-- Storage/AllPaths    all_shortest_paths of storage/edge.rs
-- Cypher/Ast          cypher/ast.rs: statements, clauses, patterns and expressions
-- Cypher/Params       cypher/parser/resolve.rs: the check that each parameter was given
-- Cypher/Cacheable    cypher/plan_cache.rs: which statements a plan is kept for
-- Cypher/Comparison   cypher/eval/comparison.rs, and the order of ORDER BY in cypher/executor/util.rs;
--                     floats and the offsets of chrono are a record
-- Cypher/Planner      the suggestion of a close name in cypher/planner/helpers.rs, and the checks of
--                     variables in cypher/planner/validation.rs
-- Cypher/Slots        cypher/record_v2.rs: rows by slot and the names of the slots
-- Cypher/Cache        cypher/plan_cache.rs and cypher/parse_cache.rs
-- Temporal/Chrono     the chrono crate: dates, times and offsets are a record, and its laws another
-- Temporal/Text       what temporal.rs uses of `str`: slices, cuts, integers and padding
-- Temporal/Parse, ParseDate, Format, Iso
--                     temporal.rs: the parsers and the text of dates, times, offsets and date-times
-- Temporal/Stored     temporal.rs: the visitors and serialisers of serde
-- Temporal/Between    temporal.rs: durations between two values, on the calendar of chrono
-- Temporal/Truncate   temporal.rs: the truncation of dates and times
-- Checks              the theorems at concrete inputs
--
-- Conventions. A function on the connection has the type of an action: it takes the connection and
-- gives a result and the connection after it, so that writes before an error stay. A `u64` is a
-- natural number, below 2^64 where a statement says so (IsU64), and wraps where the source's does. A
-- string is its UTF-8 bytes. The hints and spans of errors are left out. A hash map is a list of
-- entries. A `while` loop over bytes or items is recursion on the list; `decode_varint` and
-- `encode_varint` are recursion on the bytes and on the value. The searches of Storage/Traverse and
-- Storage/AllPaths run on fuel that the caller gives, one unit for each item taken off a queue or a
-- stack; for traverse_with_depth more than the number of nodes plus one is enough, and for
-- all_shortest_paths, whose two loops get the same fuel, enough is shown to exist. A walk over
-- statements is one function for each type of cypher/ast.rs, with the loops over lists and options as
-- functions of their own.
--
-- Not modelled: find_nodes_by_label and traverse_paths of storage/edge.rs, the rest of the parser, of
-- the planner and of the executor, full-text search, the statements on indexes, transactions, the
-- database handle, the command line and the language bindings; of temporal.rs, `from_map` and the text
-- of durations, which compute with floats.
pub mod Base
pub mod Checks
pub mod Cypher
pub mod Storage
pub mod Temporal
pub mod Types
