-- ===== src/Database.antt =====
-- The tables of schema.go and the SQL statements of store.go and collection.go, as functions on the
-- rows. A statement is `none` where a UNIQUE constraint refuses it.
pub mod Rows
pub mod Statements
pub mod Session
pub mod Post
pub mod Calls
pub mod Alone
pub mod Counts
pub mod Cascade
pub mod Removed
