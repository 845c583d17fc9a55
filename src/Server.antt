-- ===== src/Server.antt =====
-- crates/ga-server: the jobs and handlers behind the reindex and delete endpoints.
pub mod Jobs
pub mod Registry
pub mod Tokens
pub mod Progress
pub mod Cache
pub mod Handlers
pub mod Paths
mod Examples
