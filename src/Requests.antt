-- ===== src/Requests.antt =====
-- store.go: the normalisation of requests.
pub mod Tags
pub mod TagLaws
pub mod Names
pub mod Idempotent
pub mod Tests
