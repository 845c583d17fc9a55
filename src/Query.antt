-- ===== src/Query.antt =====
-- The impact analysis of crates/ga-query.
pub mod Impact
pub mod TextFilter
pub mod Incremental
pub mod Brandes
pub mod Bridges
pub mod Diff
pub mod Distance
pub mod Degrees
pub mod Hubs
pub mod Tool
pub mod MultiFile
pub mod Response
pub mod FillSymbol
pub mod AffectedTests
pub mod TestPath
pub mod Seed
pub mod BreakPoints
mod Examples
