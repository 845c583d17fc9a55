-- ===== src/Mcp.antt =====
-- crates/ga-mcp: the server that assistants talk to, which keeps one store and rebuilds it.
pub mod Text
pub mod Watcher
pub mod Context
pub mod Reindex
pub mod Gate
mod Examples
