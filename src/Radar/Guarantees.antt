-- ===== src/Radar/Guarantees.antt =====
-- What the radar promises of the candidates it lets through, and of the profiles it accepts.
pub mod Filtering
pub mod Validation
