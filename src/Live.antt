-- ===== src/Live.antt =====
-- src/app/live: the runtime that trades contracts, as its processes share it through Redis.
pub mod Backend
pub mod Leases
pub mod Controls
pub mod Assignments
pub mod Worker
pub mod Session
pub mod Controller
pub mod Executor
pub mod Contracts
mod Tests
mod Runs
