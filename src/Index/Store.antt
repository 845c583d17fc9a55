-- ===== src/Index/Store.antt =====
-- crates/ga-index/src/store.rs: one process's view of a cache. A `&mut self` method returns the
-- store beside its result; the layout is the one cache directory of the disk.
pub mod Open
pub mod Prepared
pub mod Calm
pub mod Opening
pub mod Recovery
pub mod Committed
pub mod Readers
pub mod Mirror
pub mod Rebuilding
pub mod Refusals
pub mod Commit
pub mod Reindex
