-- ===== src/Service.antt =====
-- backend/graph/src/service: the service that owns the build graph, its mirror for other threads,
-- and its bookkeeping for the cache.
pub mod State
pub mod Operations
pub mod Commands
pub mod Mirror
pub mod Startup
mod Tests
