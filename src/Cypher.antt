-- ===== src/Cypher.antt =====
-- cypher/: the statements, what the engine asks of them, and the caches in front of the parser and
-- the planner.
pub mod Ast
pub mod Params
pub mod Cacheable
pub mod Comparison
pub mod Planner
pub mod Slots
pub mod Cache
