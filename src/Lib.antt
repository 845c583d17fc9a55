-- ===== src/Lib.antt =====
-- GraphAtlas, a code graph served to assistants and to a web page. An index of a repository is
-- kept in a cache directory (metadata.json, graph.db, lock.pid); processes open it as a writer,
-- under the lock, or attach as readers; queries run on the graph; a server starts reindex jobs.
--
-- Index models crates/ga-index. The state is one cache directory (Index/Disk.antt); what the
-- operating system and lbug answer during an operation is an argument `env`. CacheDir, Metadata,
-- Lock and Generation follow cache.rs, metadata.rs, lock.rs, and generation.rs with nuke.rs and
-- root_hash.rs; LangSet is the comparison of language sets in metadata.rs. Store/Open,
-- Store/Commit and Store/Reindex follow the methods of `Store` in store.rs, and the other modules
-- of Store hold proofs about them. Flock has several processes on one lock.pid as a step
-- relation. Parser models the staleness checker (crates/ga-parser/src/staleness.rs) and the
-- change detection (change_detect.rs).
--
-- Query models crates/ga-query; what the database answers is a function from the text of a query
-- (`GraphDb`). The tool `ga_impact` is impact/: Tool is `impact` of mod.rs, which resolves the
-- name asked for (Seed, seed.rs), or takes the paths of a diff (Diff, diff.rs), and cuts the
-- answer. For one symbol FillSymbol (`fill_from_symbol`) composes the search (Impact, bfs.rs),
-- the filter on the text of files (TextFilter, text_filter.rs), the calls (BreakPoints,
-- break_points.rs) and the tests (AffectedTests, affected_tests.rs, with TestPath); for changed
-- files MultiFile (multi.rs) joins the answers for their symbols. Response has the types and the
-- validation of the request (types.rs, validate.rs). Beside it stand the hubs (Degrees and Hubs,
-- hubs.rs), the bridges (Brandes and Bridges, bridges.rs), the dirty paths and the switched-off
-- plan of an incremental reindex (Incremental, incremental.rs), and the nearest names (Distance,
-- `levenshtein` and `suggest_similar` of common.rs).
--
-- Server models jobs.rs of crates/ga-server: the registry of jobs (Jobs), the confirmation tokens
-- (Tokens) and the threads that follow a job's output (Progress). Its Cache follows recovery.rs
-- and cache_state.rs, on the directories of the cache root, its Handlers the handlers that change
-- something (handlers/reindex.rs and handlers/projects.rs), and its Paths the validation of a
-- repository's path. Mcp models crates/ga-mcp: the cell with the one store (Context, context.rs),
-- the tool ga_reindex and the watcher's reindex (Reindex, tools/reindex.rs), the watch loop
-- (Watcher, watcher.rs), and the staleness gate before the tool calls (Gate, handlers.rs). Core
-- has the types of crates/ga-core that metadata.json holds. Prelude has the lists, texts, sorts
-- and association lists that they share.
--
-- The wait of a reader (Index/Wait.antt) runs on fuel, one unit for each attempt: as many as the
-- budget has milliseconds, and one more, since every sleep takes 100 ms or longer. The queue of
-- Brandes' search (Query/Brandes.antt) runs on fuel too, and Query/Bridges/Total.antt has that it
-- is enough. All other loops are structural recursion. Times are natural numbers; the counters,
-- degrees and ranks of the source keep their width (`% 2 ^ 64`, `% 2 ^ 32`, or saturation for the
-- generation).
--
-- Not modelled: lbug, the file system beyond the cache directory, BLAKE3, serde, tree-sitter and
-- the languages of crates/ga-parser, the indexer, the remaining queries of crates/ga-query, the
-- other requests of the MCP server, and the watcher and pages of the web server. They are
-- parameters where the modelled code calls them; so are, in the tool `ga_impact`, the routes, the
-- configurations, the importers that change together with a file, and whether the explanations
-- succeed (routes.rs, configs.rs, self_explain.rs). The risk of an answer is left out, which is a
-- float computed last from the rest, and so are the fields that the explanations fill.
mod Prelude
pub mod Core
pub mod Index
pub mod Parser
pub mod Query
pub mod Server
pub mod Mcp
