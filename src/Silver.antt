-- ===== src/Silver.antt =====
-- Silver: deduplication of the listings of different sources (src/umbral/application/silver).
pub mod Dedupe
pub mod Guarantees
mod Tests
