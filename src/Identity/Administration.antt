-- ===== src/Identity/Administration.antt =====
-- `AccessAdministration` (src/umbral/application/identity/administration.py): the status of users and
-- their roles. The identifier of a new assignment, the current time and the stamp of an event are
-- arguments.
use umbral.Prelude.{
  ℕ, String, Bool, true, false, not, ◌||◌, Option, none, some, ◌==◌, string_eq, ltb, length,
  contains, if◌then◌else◌,
}
use umbral.Text.{codes}
use umbral.Identity.Policy.{known_roles}
use umbral.Identity.Models.{
  UserStatus, ProductUser, RoleAssignment, AccessAuditEvent, access_denied, invalid_value, Reply,
  replied, raised, Stamp,
}
use umbral.Identity.Events.{validate_event}
use umbral.Identity.Store.{
  IdentityStore, find_user, save_user, active_role, active_roles, has_active_administrator,
  save_role, append_audit, transaction,
}
use umbral.Identity.Authorization.{is_enabled}

-- `_audit`: the event, and what follows it when its type, result and reason are registered.
unfoldable pub admin_event : Stamp → String → String → Option ℕ → ℕ → Option ℕ → AccessAuditEvent
admin_event stamp event_type reason actor_user_id subject_user_id role_assignment_id = record {
  id = stamp.event_id;
  event_type = event_type;
  result = "accepted";
  reason = reason;
  correlation_id = stamp.correlation_id;
  occurred_at = stamp.occurred_at;
  actor_user_id = actor_user_id;
  subject_user_id = some subject_user_id;
  invitation_id = none;
  request_id = none;
  attempt_id = none;
  session_id = none;
  role_assignment_id = role_assignment_id;
  action = none;
  policy_version = none;
  provider = none;
  provider_event_id = none;
}

unfoldable pub audited {ℓ} :
    {A : Type ℓ} → AccessAuditEvent → A → IdentityStore → IdentityStore × Reply A
unfolding validate_event append_audit
audited event a s = elim (validate_event event.event_type event.result event.reason) [
  | raised f ↦ (s, raised f)
  | replied u ↦ (append_audit event s, replied a)
]

unfoldable pub is_administrator : ℕ → IdentityStore → Bool
unfolding find_user is_enabled active_roles
is_administrator actor_user_id s = elim (find_user actor_user_id s) [
  | none ↦ false
  | some actor ↦
      if is_enabled actor.status
      then contains "administrator" (active_roles actor_user_id s)
      else false
]

-- `_require_administrator` lets a call without an actor pass.
unfoldable pub may_administer : Option ℕ → IdentityStore → Bool
unfolding is_administrator
may_administer none s = true
may_administer (some actor_user_id) s = is_administrator actor_user_id s

-- `ProductUser.disable` and `ProductUser.enable`
unfoldable pub disable : String → ℕ → ProductUser → Reply ProductUser
disable reason now user =
    if reason == "" || ltb 100 (length (codes reason))
    then raised invalid_value
    else replied (record user {
      status = UserStatus.disabled;
      disabled_reason = some reason;
      status_changed_at = now;
    })

unfoldable pub enable : ℕ → ProductUser → ProductUser
enable now user = record user {
  status = UserStatus.active;
  disabled_reason = none;
  status_changed_at = now;
}

unfoldable pub with_status : String → String → ℕ → ProductUser → Reply ProductUser
unfolding disable enable
with_status status reason now user =
    if status == "disabled"
    then disable reason now user
    else if status == "active"
    then replied (enable now user)
    else raised invalid_value

unfoldable pub status_set :
    Stamp → Option ℕ → ℕ → Reply ProductUser → IdentityStore → IdentityStore × Reply (Unit {0})
unfolding audited admin_event save_user
status_set stamp actor_user_id user_id (raised f) s = (s, raised f)
status_set stamp actor_user_id user_id (replied user) s =
    audited
      (admin_event stamp "user.status_changed.v1" "administrator_change" actor_user_id user_id none)
      tt (save_user user s)

unfoldable pub set_user_status :
    Stamp → ℕ → String → String → ℕ → Option ℕ → IdentityStore → IdentityStore × Reply (Unit {0})
unfolding transaction may_administer find_user with_status status_set
set_user_status stamp user_id status reason now actor_user_id = transaction λ s.
    if not (may_administer actor_user_id s)
    then (s, raised access_denied)
    else elim (find_user user_id s) [
      | none ↦ (s, raised access_denied)
      | some user ↦ status_set stamp actor_user_id user_id (with_status status reason now user) s
    ]

unfoldable pub new_assignment : ℕ → ℕ → String → ℕ → String → RoleAssignment
new_assignment fresh user_id role now reason = record {
  id = fresh;
  product_user_id = user_id;
  role = role;
  granted_at = now;
  revoked_at = none;
  reason = reason;
}

unfoldable pub revoked : ℕ → RoleAssignment → RoleAssignment
revoked now a = record a { revoked_at = some now }

-- The branch `if grant`.
unfoldable pub grant_role :
    Stamp
    → ℕ
    → ℕ
    → String
    → String
    → ℕ
    → Option ℕ
    → Option RoleAssignment
    → IdentityStore
    → IdentityStore × Reply ℕ
unfolding audited admin_event save_role new_assignment
grant_role stamp fresh user_id role reason now actor_user_id (some current) s =
    (s, replied current.id)
grant_role stamp fresh user_id role reason now actor_user_id none s =
    audited
      (admin_event stamp "role.granted.v1" "administrator_change" actor_user_id user_id
        (some fresh))
      fresh (save_role (new_assignment fresh user_id role now reason) s)

-- The other branch.
unfoldable pub revoke_role :
    Stamp → ℕ → ℕ → ℕ → Option ℕ → Option RoleAssignment → IdentityStore → IdentityStore × Reply ℕ
unfolding audited admin_event save_role revoked
revoke_role stamp fresh user_id now actor_user_id (some current) s =
    audited
      (admin_event stamp "role.revoked.v1" "administrator_change" actor_user_id user_id
        (some current.id))
      current.id (save_role (revoked now current) s)
revoke_role stamp fresh user_id now actor_user_id none s = (s, replied fresh)

unfoldable pub change_role :
    Stamp → ℕ → ℕ → String → Bool → String → ℕ → Option ℕ → IdentityStore → IdentityStore × Reply ℕ
unfolding transaction may_administer active_role grant_role revoke_role
change_role stamp fresh user_id role grant reason now actor_user_id s =
    if not (contains role known_roles)
    then (s, raised invalid_value)
    else transaction
        (λ t.
          if not (may_administer actor_user_id t)
          then (t, raised access_denied)
          else if grant
          then grant_role stamp fresh user_id role reason now actor_user_id
              (active_role user_id role t) t
          else revoke_role stamp fresh user_id now actor_user_id (active_role user_id role t) t)
        s

unfoldable pub bootstrap_for :
    Stamp → ℕ → ℕ → ℕ → Option ProductUser → IdentityStore → IdentityStore × Reply ℕ
unfolding is_enabled audited admin_event save_role new_assignment
bootstrap_for stamp fresh user_id now none s = (s, raised access_denied)
bootstrap_for stamp fresh user_id now (some user) s =
    if not (is_enabled user.status)
    then (s, raised access_denied)
    else audited
        (admin_event stamp "role.granted.v1" "zero_admin_bootstrap" none user_id (some fresh)) fresh
        (save_role (new_assignment fresh user_id "administrator" now "zero_admin_bootstrap") s)

unfoldable pub bootstrap_administrator : Stamp → ℕ → ℕ → ℕ → IdentityStore → IdentityStore × Reply ℕ
unfolding transaction has_active_administrator find_user bootstrap_for
bootstrap_administrator stamp fresh user_id now = transaction λ s.
    if has_active_administrator s
    then (s, raised access_denied)
    else bootstrap_for stamp fresh user_id now (find_user user_id s) s
