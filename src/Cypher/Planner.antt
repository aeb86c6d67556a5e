-- ===== src/Cypher/Planner.antt =====
-- cypher/planner/: what the planner asks of names and variables.
pub mod Distance
pub mod Suggest
pub mod Scope
