-- ===== src/Documents.antt =====
-- store.go: the writing of documents.
pub mod Snapshot
pub mod Prepare
pub mod Transactions
pub mod Write
pub mod Failures
pub mod Effect
pub mod Linear
pub mod Commit
pub mod Restart
pub mod Chunking
pub mod Counted
pub mod Rows
pub mod Filled
pub mod Settled
pub mod Refreshed
pub mod Rebuilt
pub mod Repeat
pub mod Twice
pub mod Tests
