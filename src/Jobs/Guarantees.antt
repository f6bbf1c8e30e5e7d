-- ===== src/Jobs/Guarantees.antt =====
-- What a caller of the runtime may rely on, and where it may not
-- (src/umbral/application/jobs/service.py).
pub mod Attempts
pub mod Outcomes
pub mod Identity
pub mod Delivery
pub mod Faults
