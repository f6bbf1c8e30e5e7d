-- ===== src/Jobs.antt =====
-- Durable jobs: contracts, the runtime's state and its operations, and what they guarantee.
pub mod Contracts
pub mod Failures
pub mod State
pub mod Submit
pub mod Lease
pub mod Outcome
pub mod Relay
pub mod Schedule
pub mod Invariant
pub mod Steps
pub mod Guarantees
mod Tests
