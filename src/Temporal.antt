-- ===== src/Temporal.antt =====
-- temporal.rs: dates, times and durations, as text and as stored fields.
pub mod Outcome
pub mod Text
pub mod Chrono
pub mod Parse
pub mod ParseDate
pub mod Format
pub mod OffsetText
pub mod TimeText
pub mod DateText
pub mod Iso
pub mod IsoText
pub mod DateTimeText
pub mod Between
pub mod Settles
pub mod SettlesDate
pub mod SettlesDateTime
pub mod Stored
pub mod Truncate
