-- ===== src/Identity.antt =====
-- Identity and access: the role policy, the store with its transactions, the authorization of
-- requests and the administration of users and roles (src/umbral/domain/identity,
-- src/umbral/application/identity, src/umbral/infrastructure/db/repositories/identity.py).
pub mod Policy
pub mod Models
pub mod Store
pub mod Events
pub mod LinkStore
pub mod Email
pub mod Links
pub mod Attempts
pub mod Evolution
pub mod Transactions
pub mod Authorization
pub mod Guarantees
pub mod Administration
pub mod Invitations
pub mod Roles
mod Tests
mod LinkTests
