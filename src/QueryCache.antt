-- ===== src/QueryCache.antt =====
-- query_cache.go: the query embedding cache, a `container/list` and a map from keys to its
-- elements. An element and the entry that it points to are one record with a reference, and the
-- map holds references. The mutex makes each method one step.
pub mod Model
pub mod Valid
pub mod Refine
pub mod Window
mod Tests
unfoldable pub use Model.*
