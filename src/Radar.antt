-- ===== src/Radar.antt =====
-- The structured search radar: profiles, their validation, and the filters that choose candidates
-- (src/umbral/application/radar).
pub mod Profile
pub mod Filters
pub mod Policy
pub mod Guarantees
mod Tests
