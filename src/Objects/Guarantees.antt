-- ===== src/Objects/Guarantees.antt =====
-- What a caller of `VersionedObjects` may rely on (src/umbral/application/objects/service.py).
pub mod Repeated
pub mod Opening
pub mod Counting
