-- ===== src/Identity/Links.antt =====
-- Magic links and the sessions that they start (src/umbral/application/identity/access.py).
pub mod Ports
pub mod Request
pub mod Attempt
pub mod Issue
pub mod Check
pub mod Confirm
pub mod Sessions
pub mod Webhook
