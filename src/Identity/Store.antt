-- ===== src/Identity/Store.antt =====
-- `InMemoryIdentityStore` (src/umbral/infrastructure/db/repositories/identity.py): its tables, and the
-- operations on users, role assignments, sessions and audit events. The others are in Identity/LinkStore.
use umbral.Prelude.{
  ℕ, String, Bool, ◌&&◌, ◌∷◌, [], ◌++◌, List, Option, none, some, ◌==◌, nat_eq, string_eq, any,
  contains, if◌then◌else◌,
}
use umbral.Prelude.Dict
use umbral.Prelude.Dict.{Dict}
use umbral.Identity.Models.{
  ProductUser, RoleAssignment, is_active, ProductSession, AccessAuditEvent, Reply, replied, raised,
  Invitation, ExternalIdentityLink, MagicLinkRequest, MagicLinkAttempt,
}

pub record IdentityStore : Type 0 where
  pub users : Dict ℕ ProductUser
  pub roles : Dict ℕ RoleAssignment
  pub sessions : Dict ℕ ProductSession
  pub audits : List AccessAuditEvent
  pub invitations : Dict ℕ Invitation
  pub links : Dict ℕ ExternalIdentityLink
  pub requests : Dict ℕ MagicLinkRequest
  pub attempts : Dict ℕ MagicLinkAttempt
  pub provider_events : List (String × String)

unfoldable pub find_user : ℕ → IdentityStore → Option ProductUser
find_user id s = Dict.get id s.users

unfoldable pub save_user : ProductUser → IdentityStore → IdentityStore
save_user user s = record s { users = Dict.set user.id user s.users }

-- The test of `active_role` on one assignment.
unfoldable pub grants : ℕ → String → RoleAssignment → Bool
grants user_id role a = (a.product_user_id == user_id && a.role == role) && is_active a

unfoldable pub first_grant : ℕ → String → List (ℕ × RoleAssignment) → Option RoleAssignment
unfolding grants
first_grant user_id role [] = none
first_grant user_id role ((i, a) ∷ rest) =
    if grants user_id role a then some a else first_grant user_id role rest

unfoldable pub active_role : ℕ → String → IdentityStore → Option RoleAssignment
active_role user_id role s = first_grant user_id role s.roles

-- The set comprehension of `active_roles`, as a list without repetition.
unfoldable pub roles_of : ℕ → List (ℕ × RoleAssignment) → List String
roles_of user_id [] = []
roles_of user_id ((i, a) ∷ rest) =
    let others = roles_of user_id rest in
    if a.product_user_id == user_id && is_active a
    then (if contains a.role others then others else a.role ∷ others)
    else others

unfoldable pub active_roles : ℕ → IdentityStore → List String
active_roles user_id s = roles_of user_id s.roles

unfoldable pub has_active_administrator : IdentityStore → Bool
has_active_administrator s =
    any (λ entry. entry.1.role == "administrator" && is_active entry.1) s.roles

unfoldable pub save_role : RoleAssignment → IdentityStore → IdentityStore
save_role a s = record s { roles = Dict.set a.id a s.roles }

unfoldable pub first_session : ℕ → List (ℕ × ProductSession) → Option ProductSession
first_session digest [] = none
first_session digest ((i, session) ∷ rest) =
    if session.token_digest == digest then some session else first_session digest rest

unfoldable pub session_by_digest : ℕ → IdentityStore → Option ProductSession
session_by_digest digest s = first_session digest s.sessions

unfoldable pub save_session : ProductSession → IdentityStore → IdentityStore
save_session session s = record s { sessions = Dict.set session.id session s.sessions }

unfoldable pub append_audit : AccessAuditEvent → IdentityStore → IdentityStore
append_audit event s = record s { audits = s.audits ++ event ∷ [] }

-- What a transaction leaves behind: an exception that leaves it restores the store.
unfoldable pub committed {ℓ} :
    {A : Type ℓ} → IdentityStore → IdentityStore × Reply A → IdentityStore × Reply A
committed s (t, replied a) = (t, replied a)
committed s (t, raised fault) = (s, raised fault)

unfoldable pub transaction {ℓ} :
    {A : Type ℓ}
    → (IdentityStore → IdentityStore × Reply A)
    → IdentityStore
    → IdentityStore × Reply A
unfolding committed
transaction body s = committed s (body s)
