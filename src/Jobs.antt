-- ===== src/Jobs.antt =====
-- services/api/src/routers/jobs.py: the durable job and event API. The children hold its parts.
pub mod Schema
pub mod Create
pub mod Transitions
pub mod Valid
pub mod Machine
pub mod Moves
pub mod Lifecycle
pub mod Claims
pub mod Failures
pub mod Races
pub mod Reaping
pub mod Events
pub mod Idempotence
pub mod Uniqueness
pub mod Listing
mod Tests
