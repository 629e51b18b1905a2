-- ===== src/Graph.antt =====
-- backend/graph/src/graph.rs: the build graph, its state and its operations. The nodes live in
-- the crate `lru`, which is a parameter, `LruCache`; `Instant::now()` is an argument.
pub mod Cache
pub mod State
pub mod Search
pub mod Failures
pub mod Index
pub mod Eviction
pub mod Candidates
pub mod Samples
mod Tests
