-- ===== src/Objects.antt =====
-- Immutable object versions: metadata and bytes that are brought together
-- (src/umbral/application/objects).
pub mod Contracts
pub mod Repository
pub mod Service
pub mod Reconcile
pub mod View
pub mod Replies
pub mod Publishing
pub mod Puts
pub mod Runs
pub mod Guarantees
mod Tests
