-- ===== src/Types.antt =====
-- types.rs: identifiers, errors, results and the checks on names.
pub mod Error
pub mod ErrorNames
pub mod Exec
pub mod Name
pub mod Utf8
pub mod Value
pub mod Fields
