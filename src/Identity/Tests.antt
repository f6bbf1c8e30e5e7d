-- ===== src/Identity/Tests.antt =====
-- A small store with an administrator and a session, and each guarantee on it.
use mathlib.Core.Logic.{◌↔◌}
use umbral.Prelude.{
  ℕ, ◌+◌, String, true, false, [], ◌∷◌, none, some, ◌≡◌, refl, ap, nat_eq, string_eq, arith, length,
  contains, any,
}
use umbral.Prelude.Dict
use umbral.Prelude.Dict.{Dict}
use umbral.Text.{codes}
use umbral.Identity.Policy.{names_unknown, intersects, authorize_roles}
use umbral.Identity.Models.{
  UserStatus, ProductUser, RoleAssignment, ProductSession, CurrentPrincipal, Stamp, replied, raised,
  access_denied, session_required, is_unset, is_active, is_idle_expired, idle_period,
}
use umbral.Identity.Store.{
  IdentityStore, session_by_digest, first_session, find_user, active_roles, roles_of, grants,
  first_grant, active_role, committed, transaction, has_active_administrator,
}
use umbral.Identity.Events.{is_registered, validate_event}
use umbral.Identity.Authorization.{
  AccessRequest, is_enabled, sorted_roles, idle_revoked, authorized, authorize,
}
use umbral.Identity.Administration.{
  new_assignment, change_role, bootstrap_administrator, bootstrap_for, may_administer,
  is_administrator, grant_role, audited, admin_event,
}
use umbral.Identity.Roles.{IsSingle, IsSingle-set}
use umbral.Identity.Guarantees.Access.{
  IsPermitted, IsAdmitted, authorize_roles-IsPermitted_iff, authorize-allows, authorize-IsAdmitted,
  idle_revocation_is_lost,
}
use umbral.Identity.Guarantees.Administration.{change_role-takes_effect}
use umbral.Identity.Guarantees.Single.{bootstrap_only_once}
use umbral.Identity.Guarantees.Runs.{authorize-roles}
use umbral.Identity.Guarantees.Sessions.{IsSessionTable}
use umbral.Identity.Guarantees.Denials.{IsNoted, denial_is_lost}
use umbral.Identity.Guarantees.Alive.{authorize-keeps_alive}

abbrev stamp : Stamp
stamp = record { event_id = 90; correlation_id = 91; occurred_at = 92 }

abbrev digest : String → ℕ
digest token = length (codes token)

abbrev ana : ProductUser
ana = record {
  id = 1;
  normalized_email = "ana@example.org";
  status = UserStatus.active;
  disabled_reason = none;
  created_at = 0;
  status_changed_at = 0;
}

abbrev ana_session : ProductSession
ana_session = record {
  id = 20;
  product_user_id = 1;
  magic_link_attempt_id = 30;
  token_digest = 5;
  last_activity_at = 100;
  revoked_at = none;
  revocation_reason = none;
}

abbrev admin : RoleAssignment
admin = new_assignment 10 1 "administrator" 0 "activation"

abbrev empty_store : IdentityStore
empty_store = record {
  users = (1, ana) ∷ [];
  roles = [];
  sessions = [];
  audits = [];
  invitations = [];
  links = [];
  requests = [];
  attempts = [];
  provider_events = [];
}

abbrev store : IdentityStore
store = record {
  users = (1, ana) ∷ [];
  roles = (10, admin) ∷ [];
  sessions = (20, ana_session) ∷ [];
  audits = [];
  invitations = [];
  links = [];
  requests = [];
  attempts = [];
  provider_events = [];
}

abbrev role_request : AccessRequest
role_request = record {
  action = "admin.identity.role.change";
  resource_owner_id = none;
  now = 200;
  correlation_id = none;
}

abbrev late_request : AccessRequest
late_request = record role_request { now = 100 + idle_period }

no_roles-IsSingle : IsSingle []
unfolding Dict.get
no_roles-IsSingle = record {
  distinct = tt;
  keyed = λ i a at. absurd (ground (arith, at));
  single = λ u r i j a b at_i at_j g_a g_b. absurd (ground (arith, at_i));
}

store-IsSingle : IsSingle store.roles
unfolding new_assignment Dict.set
store-IsSingle = IsSingle-set 10 admin [] no_roles-IsSingle refl λ u r g. unfold first_grant in refl

ana-IsPermitted : IsPermitted ("administrator" ∷ []) "admin.identity.role.change" 1 none
unfolding Dict.get names_unknown intersects contains any
ana-IsPermitted = record {
  rule = record {
    action = "admin.identity.role.change";
    allowed_roles = "administrator" ∷ [];
    owner_required = false;
  };
  listed = refl;
  known = refl;
  owner = λ asked. absurd (ground (arith, asked));
  shared = refl;
}

authorize_roles-IsPermitted_iff_example :
    ((authorize_roles ("administrator" ∷ []) "admin.identity.role.change" 1 none).allowed ≡ true)
    ↔ IsPermitted ("administrator" ∷ []) "admin.identity.role.change" 1 none
authorize_roles-IsPermitted_iff_example =
    authorize_roles-IsPermitted_iff ("administrator" ∷ []) "admin.identity.role.change" 1 none

ana_access : IsAdmitted role_request (digest "token") store
unfolding session_by_digest first_session find_user Dict.get is_unset is_enabled active_roles
    roles_of new_assignment is_active contains any
ana_access = record {
  session = ana_session;
  user = ana;
  found = refl;
  unrevoked = refl;
  fresh = omega arith;
  owned = refl;
  enabled = refl;
  permitted = ana-IsPermitted;
}

abbrev principal : ℕ → CurrentPrincipal
principal now = record {
  user_id = 1;
  roles = sorted_roles (active_roles 1 store);
  last_activity_at = now;
}

role_request-returns :
    (authorize digest stamp role_request "token" store).1 ≡ replied (principal 200)
unfolding ana_access
role_request-returns =
    ap (λ x. x.1) (authorize-allows digest stamp role_request "token" store ana_access)

authorize-IsAdmitted_example : IsAdmitted role_request (digest "token") store
authorize-IsAdmitted_example =
    authorize-IsAdmitted digest stamp role_request "token" store (principal 200)
      role_request-returns

store-IsSessionTable : IsSessionTable store.sessions
unfolding Dict.get
store-IsSessionTable = record {
  distinct = (refl, tt);
  keyed = λ i a at. ground (arith, at, nat_eq.same_iff 20 i);
}

-- The late request is refused on its own, and let through after the first one.
authorize-keeps_alive_example :
    (authorize digest stamp late_request "token"
      (authorize digest stamp role_request "token" store).0).1
    ≡ replied (principal (100 + idle_period))
unfolding ana_access
authorize-keeps_alive_example =
    authorize-keeps_alive digest stamp role_request "token" store stamp late_request (principal 200)
      store-IsSessionTable role_request-returns refl refl (omega arith)

idle_revocation_is_lost_example :
    (Dict.get 20 (authorized stamp late_request 5 store).0.sessions
      ≡ some (idle_revoked stamp late_request ana_session))
    × (length (authorized stamp late_request 5 store).0.audits ≡ 1)
    × (authorize digest stamp late_request "token" store ≡ (store, raised session_required))
idle_revocation_is_lost_example =
    idle_revocation_is_lost digest stamp late_request "token" store ana_session
      (unfold session_by_digest first_session in refl) (unfold is_unset in refl)
      (unfold is_idle_expired in ground arith)

denial_is_lost_example :
    IsNoted stamp late_request ana_session store (authorized stamp late_request 5 store).0
    × (authorize digest stamp late_request "token" store ≡ (store, raised session_required))
denial_is_lost_example =
    denial_is_lost digest stamp late_request "token" store ana_session session_required
      (unfold session_by_digest first_session in refl)
      (ap (λ x. x.1) idle_revocation_is_lost_example.2)

granted_operator :
    (change_role stamp 11 1 "operator" true "on call" 300 (some 1) store).1 ≡ replied 11
unfolding change_role transaction may_administer is_administrator find_user Dict.get is_enabled
    active_roles roles_of new_assignment is_active is_unset contains any active_role first_grant
    grants grant_role audited admin_event validate_event is_registered committed
granted_operator = refl

change_role-takes_effect_example :
    contains "operator"
      (active_roles 1 (change_role stamp 11 1 "operator" true "on call" 300 (some 1) store).0)
    ≡ true
change_role-takes_effect_example =
    change_role-takes_effect stamp 11 1 "operator" true "on call" 300 (some 1) store 11
      store-IsSingle (unfold Dict.get in refl) granted_operator 1 "operator"

first_administrator : (bootstrap_administrator stamp 10 1 0 empty_store).1 ≡ replied 10
unfolding bootstrap_administrator transaction has_active_administrator any find_user Dict.get
    bootstrap_for is_enabled audited admin_event validate_event is_registered contains committed
first_administrator = refl

-- Afterwards the session of Ana is used.
abbrev administrated : IdentityStore
administrated =
    (authorize digest stamp role_request "token"
      (bootstrap_administrator stamp 10 1 0 empty_store).0).0

bootstrap_only_once_example :
    (has_active_administrator empty_store ≡ false)
    × ((has_active_administrator (bootstrap_administrator stamp 10 1 0 empty_store).0 ≡ true)
        × (bootstrap_administrator stamp 12 2 400 administrated
            ≡ (administrated, raised access_denied)))
bootstrap_only_once_example =
    bootstrap_only_once stamp stamp 10 1 0 12 2 400 empty_store administrated 10 first_administrator
      (ap (Dict.get 10) (
        authorize-roles digest stamp role_request "token"
          (bootstrap_administrator stamp 10 1 0 empty_store).0))
