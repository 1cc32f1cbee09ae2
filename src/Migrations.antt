-- ===== src/Migrations.antt =====
-- store.go, schema.go, internal/sdkmeta: the migrations of the database.
pub mod Dimensions
pub mod Versions
pub mod Migrate
pub mod Parsed
pub mod Recorded
pub mod Migrated
pub mod Loop
pub mod Refusals
pub mod Again
pub mod Fresh
pub mod Completes
mod Tests
