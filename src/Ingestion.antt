-- ===== src/Ingestion.antt =====
-- Controlled imports of listings (src/umbral/application/ingestion).
pub mod Contracts
pub mod Capture
pub mod Process
pub mod Guarantees
mod Tests
