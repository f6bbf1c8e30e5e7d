-- ===== src/Identity/Evolution.antt =====
-- What the services of magic links do to the table of attempts
-- (src/umbral/application/identity/access.py).
pub mod Request
pub mod Begin
pub mod Accept
pub mod Issue
pub mod Confirm
