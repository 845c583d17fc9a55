-- ===== src/Parser.antt =====
-- The parts of crates/ga-parser that decide what is out of date.
pub mod Staleness
pub mod Freshness
pub mod ChangeDetect
pub mod Buckets
mod Examples
