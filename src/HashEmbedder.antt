-- ===== src/HashEmbedder.antt =====
-- embedder_hash.go
pub mod Features
pub mod Embed
pub mod Counting
pub mod Prepares
mod Tests
