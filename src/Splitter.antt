-- ===== src/Splitter.antt =====
-- splitter.go: the default splitter.
pub mod Model
pub mod Spells
pub mod Progress
pub mod Loop
pub mod Solid
pub mod Correct
mod Tests
unfoldable pub use Model.*
