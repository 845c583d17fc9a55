-- ===== src/Index.antt =====
-- crates/ga-index: the on-disk cache of one repository and its lifecycle.
pub mod Disk
pub mod CacheDir
pub mod Metadata
pub mod LangSet
pub mod Lock
pub mod Flock
pub mod Generation
pub mod Wait
mod Examples
pub mod Waiting
pub mod Store
