-- ===== src/Identity/Guarantees.antt =====
-- What the identity services promise: who is let through, what a refusal leaves behind, and what the
-- administration of roles keeps.
pub mod Access
pub mod Administration
pub mod Kept
pub mod Confirmed
pub mod Single
pub mod Runs
pub mod Links
pub mod Sessions
pub mod Alive
pub mod Denials
pub mod Limits
pub mod Webhooks
pub mod Purge
