-- ===== src/Search.antt =====
-- store.go: searches, as far as they are modelled: their requests and the vector of a query.
pub mod Modes
pub mod Requests
pub mod QueryVector
pub mod Cached
pub mod Checked
pub mod Defaults
pub mod Hits
pub mod Fusion
pub mod Detailed
pub mod Keys
pub mod Ranking
pub mod Fused
pub mod Scores
pub mod Entries
pub mod Determined
pub mod Queries
pub mod Answers
pub mod Searched
pub mod Response
pub mod AtRest
pub mod Top
pub mod OneDatabase
mod Tests
mod FusionTests
