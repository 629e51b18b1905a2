-- ===== src/Scheduler.antt =====
-- backend/server/src/scheduler: the services that carry a derivation from the graph to a builder
-- and its result back.
pub mod Features
pub mod Routing
pub mod Builders
pub mod BuilderThread
pub mod Pending
pub mod Polling
pub mod Recorder
pub mod Substitution
pub mod Evaluation
pub mod Ingress
mod Tests
