-- ===== src/Storage.antt =====
-- The storage layer, storage/*.rs.
pub mod Encoding
pub mod Sql
pub mod Kv
pub mod Keys
pub mod Codec
pub mod Ids
pub mod Stats
pub mod Edge
pub mod Node
pub mod Index
pub mod Traverse
pub mod AllPaths
