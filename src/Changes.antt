-- ===== src/Changes.antt =====
-- backend/change_summary: what a pull request changes in the packages of a jobset.
mod Tests
pub mod Names
pub mod Labels
pub mod Classify
pub mod Summary
pub mod Impact
pub mod Render
