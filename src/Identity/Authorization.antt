-- ===== src/Identity/Authorization.antt =====
-- `AccessControl.authorize` (src/umbral/application/identity/authorization.py). The SHA-256 of the
-- token is an argument.
use umbral.Prelude.{
  ℕ, String, Bool, true, false, not, List, [], ◌∷◌, Option, none, some, string_eq, keep, contains,
  if◌then◌else◌,
}
use umbral.Identity.Policy.{authorize_roles}
use umbral.Identity.Models.{
  UserStatus, ProductUser, is_unset, ProductSession, is_idle_expired, AccessAuditEvent,
  CurrentPrincipal, session_required, access_denied, Reply, replied, raised, Stamp,
}
use umbral.Identity.Store.{
  IdentityStore, find_user, active_roles, session_by_digest, save_session, append_audit,
  transaction,
}

unfoldable pub or_fresh : Option ℕ → ℕ → ℕ
or_fresh none fresh = fresh
or_fresh (some correlation_id) fresh = correlation_id

-- `_audit`: the event.
unfoldable pub access_event :
    Stamp → Bool → String → String → Option ℕ → ℕ → Option ℕ → AccessAuditEvent
unfolding or_fresh
access_event stamp allowed reason action user_id session_id correlation_id = record {
  id = stamp.event_id;
  event_type = if allowed then "authorization.allowed.v1" else "authorization.denied.v1";
  result = if allowed then "allowed" else "denied";
  reason = reason;
  correlation_id = or_fresh correlation_id stamp.correlation_id;
  occurred_at = stamp.occurred_at;
  actor_user_id = user_id;
  subject_user_id = user_id;
  invitation_id = none;
  request_id = none;
  attempt_id = none;
  session_id = some session_id;
  role_assignment_id = none;
  action = some action;
  policy_version = some "identity-policy.v1";
  provider = none;
  provider_event_id = none;
}

unfoldable pub is_enabled : UserStatus → Bool
is_enabled UserStatus.active = true
is_enabled UserStatus.disabled = false

-- `tuple(sorted(roles))` for the roles of a request that was allowed, which are all known.
unfoldable pub sorted_roles : List String → List String
sorted_roles roles = keep (λ role. contains role roles) ("administrator" ∷ "operator" ∷ "user" ∷ [])

-- A request of the process: its action, the owner of its resource, its time and its correlation.
pub record AccessRequest : Type 0 where
  pub action : String
  pub resource_owner_id : Option ℕ
  pub now : ℕ
  pub correlation_id : Option ℕ

module _ (stamp : Stamp) (q : AccessRequest) where
  unfoldable pub denied : String → Option ℕ → ℕ → IdentityStore → IdentityStore
  unfolding access_event append_audit
  denied reason user_id session_id s =
      append_audit (access_event stamp false reason q.action user_id session_id q.correlation_id) s

  unfoldable pub idle_revoked : ProductSession → ProductSession
  idle_revoked session = record session {
    revoked_at = some q.now;
    revocation_reason = some "idle_timeout";
  }

  unfoldable pub touched : ProductSession → ProductSession
  touched session = record session { last_activity_at = q.now }

  unfoldable pub allow :
      ProductUser
      → List String
      → ProductSession
      → IdentityStore
      → IdentityStore × Reply CurrentPrincipal
  unfolding touched access_event append_audit save_session sorted_roles
  allow user roles session s = (
    append_audit
        (access_event stamp true "eligible" q.action (some user.id) session.id q.correlation_id)
        (save_session (touched session) s),
    replied (record { user_id = user.id; roles = sorted_roles roles; last_activity_at = q.now }),
  )

  unfoldable pub for_user :
      ProductUser → ProductSession → IdentityStore → IdentityStore × Reply CurrentPrincipal
  unfolding denied is_enabled active_roles allow
  for_user user session s =
      let roles = active_roles user.id s in
      let decision = authorize_roles roles q.action user.id q.resource_owner_id in
      if not (is_enabled user.status)
      then (denied "user_inactive" (some user.id) session.id s, raised access_denied)
      else if not decision.allowed
      then (denied decision.reason (some user.id) session.id s, raised access_denied)
      else allow user roles session s

  -- `user.id if user else None`
  unfoldable pub user_id_of : Option ProductUser → Option ℕ
  user_id_of none = none
  user_id_of (some user) = some user.id

  unfoldable pub for_session :
      Option ProductUser → ProductSession → IdentityStore → IdentityStore × Reply CurrentPrincipal
  unfolding denied is_unset is_idle_expired idle_revoked save_session for_user user_id_of
  for_session user session s =
      if not (is_unset session.revoked_at)
      then (denied "session_revoked" (user_id_of user) session.id s, raised session_required)
      else if is_idle_expired q.now session
      then (
        denied "session_idle_expired" (user_id_of user) session.id
            (save_session (idle_revoked session) s),
        raised session_required,
      )
      else elim user [
        | none ↦ (denied "user_inactive" none session.id s, raised access_denied)
        | some u ↦ for_user u session s
      ]

  -- The body of the transaction.
  unfoldable pub authorized : ℕ → IdentityStore → IdentityStore × Reply CurrentPrincipal
  unfolding session_by_digest find_user for_session
  authorized digest s = elim (session_by_digest digest s) [
    | none ↦ (s, raised session_required)
    | some session ↦ for_session (find_user session.product_user_id s) session s
  ]

unfoldable pub authorize :
    (String → ℕ)
    → Stamp
    → AccessRequest
    → String
    → IdentityStore
    → IdentityStore × Reply CurrentPrincipal
unfolding transaction authorized
authorize sha256 stamp q token s = transaction (authorized stamp q (sha256 token)) s
