-- ===== src/Rest.antt =====
-- The REST clients of packages/js/client/src/rest.
pub mod Uri
pub mod Calls
pub mod Processes
pub mod Decisions
pub mod Tasks
pub mod Events
mod Tests
