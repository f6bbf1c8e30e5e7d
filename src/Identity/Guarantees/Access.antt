-- ===== src/Identity/Guarantees/Access.antt =====
-- `authorize_roles` (src/umbral/domain/identity/policy.py) and `AccessControl.authorize`
-- (src/umbral/application/identity/authorization.py).
use umbral.Prelude.{
  ℕ, ◌+◌, ◌<◌, String, true, false, List, [], ◌∷◌, Option, none, some, ◌≡◌, refl, ap, ◌↔◌, nat_eq,
  string_eq, inl, inr, Option-cases, arith, length, length-append,
}
use umbral.Prelude.Dict
use umbral.Prelude.Dict.{get-set_self}
use umbral.Identity.Policy.{
  ActionRule, action_rules, names_unknown, owned_by, intersects, is_given, by_rule, authorize_roles,
}
use umbral.Identity.Models.{
  AccessAuditEvent, ProductUser, is_unset, ProductSession, idle_period, is_idle_expired,
  CurrentPrincipal, session_required, replied, raised, IdentityFault, Stamp,
}
use umbral.Identity.Store.{
  IdentityStore, find_user, active_roles, session_by_digest, save_session, append_audit, committed,
  transaction,
}
use umbral.Identity.Transactions.{committed-replied, committed-raised, committed-restores}
use umbral.Identity.Authorization.{
  access_event, is_enabled, sorted_roles, AccessRequest, idle_revoked, touched, allow, for_user,
  denied, user_id_of, for_session, authorized, authorize,
}

-- The matrix permits the action: it has a rule, every role is known, the actor owns the resource where
-- the rule asks for it, and one of the roles is among the rule's.
pub record IsPermitted (roles : List String) (action : String) (actor_id : ℕ) (owner_id : Option ℕ)
    : Type 0 where
  pub rule : ActionRule
  pub listed : Dict.get action action_rules ≡ some rule
  pub known : names_unknown roles ≡ false
  pub owner : rule.owner_required ≡ true → owner_id ≡ some actor_id
  pub shared : intersects roles rule.allowed_roles ≡ true

by_rule-allowed :
    (rule : ActionRule) (roles : List String) (actor_id : ℕ) (owner_id : Option ℕ)
    → ((by_rule rule roles actor_id owner_id).allowed ≡ true) ↔ (
        (names_unknown roles ≡ false)
        × ((rule.owner_required ≡ true → owner_id ≡ some actor_id)
            × (intersects roles rule.allowed_roles ≡ true)))
unfolding by_rule is_given owned_by
by_rule-allowed rule roles actor_id none = ground arith
by_rule-allowed rule roles actor_id (some owner_id) = ground arith

-- An action is allowed exactly when the matrix permits it: everything else is denied.
pub authorize_roles-IsPermitted_iff :
    (roles : List String) (action : String) (actor_id : ℕ) (owner_id : Option ℕ)
    → ((authorize_roles roles action actor_id owner_id).allowed ≡ true)
      ↔ IsPermitted roles action actor_id owner_id
unfolding authorize_roles
authorize_roles-IsPermitted_iff roles action actor_id owner_id =
    elim (Option-cases (Dict.get action action_rules)) [
      | inl missing ↦ (
        λ h. absurd (ground (arith, rw (missing, authorize_roles) at h)),
        λ p. absurd (cc (p.listed, missing)),
      )
      | inr (rule, found) ↦
          let (to, back) = by_rule-allowed rule roles actor_id owner_id in
          (
            λ h.
                let (known, (owner, shared)) = to (rw (found, authorize_roles) at h) in
                record {
                  rule = rule;
                  listed = found;
                  known = known;
                  owner = owner;
                  shared = shared;
                },
            λ p.
                let same : p.rule ≡ rule = ground (arith, p.listed, found) in
                rw (found, authorize_roles)
                  (back (p.known, ((λ asked. p.owner (rw same asked)), rw same at p.shared))),
          )
    ]

-- A session lets its user through: it is the one of the token's digest, neither revoked nor idle for
-- seven days, its user exists and is active, and the matrix permits the action for the roles that
-- the user has now.
pub record IsAdmitted (q : AccessRequest) (digest : ℕ) (s : IdentityStore) : Type 0 where
  pub session : ProductSession
  pub user : ProductUser
  pub found : session_by_digest digest s ≡ some session
  pub unrevoked : is_unset session.revoked_at ≡ true
  pub fresh : q.now < session.last_activity_at + idle_period
  pub owned : find_user session.product_user_id s ≡ some user
  pub enabled : is_enabled user.status ≡ true
  pub permitted : IsPermitted (active_roles user.id s) q.action user.id q.resource_owner_id

for_user-allow :
    (stamp : Stamp) (q : AccessRequest) (user : ProductUser) (session : ProductSession)
    (s : IdentityStore)
    → is_enabled user.status ≡ true
    → IsPermitted (active_roles user.id s) q.action user.id q.resource_owner_id
    → for_user stamp q user session s ≡ allow stamp q user (active_roles user.id s) session s
unfolding for_user
for_user-allow stamp q user session s on permitted =
    let allowed =
      (authorize_roles-IsPermitted_iff (active_roles user.id s) q.action user.id
          q.resource_owner_id).1
        permitted in
    rw (on, allowed, for_user) refl

-- What a request that its session lets through returns and writes.
pub authorize-allows :
    (sha256 : String → ℕ) (stamp : Stamp) (q : AccessRequest) (token : String) (s : IdentityStore)
    → (a : IsAdmitted q (sha256 token) s)
    → authorize sha256 stamp q token s ≡ (
      append_audit
          (access_event stamp true "eligible" q.action
            (some a.user.id)
            a.session.id
            q.correlation_id)
          (save_session (touched stamp q a.session) s),
      replied (record {
        user_id = a.user.id;
        roles = sorted_roles (active_roles a.user.id s);
        last_activity_at = q.now;
      }),
    )
unfolding authorize transaction committed authorized for_session is_idle_expired
authorize-allows sha256 stamp q token s a =
    let on_time : is_idle_expired q.now a.session ≡ false =
      unfold is_idle_expired in ground (arith, a.fresh) in
    rw (a.found, authorized)
      (rw (a.owned, for_session)
        (rw (a.unrevoked, on_time, for_session)
          (rw (for_user-allow stamp q a.user a.session s a.enabled a.permitted)
            (unfold allow in refl))))

for_user-IsPermitted :
    (stamp : Stamp) (q : AccessRequest) (user : ProductUser) (session : ProductSession)
    (s : IdentityStore) (p : CurrentPrincipal)
    → (for_user stamp q user session s).1 ≡ replied p
    → (is_enabled user.status ≡ true)
      × IsPermitted (active_roles user.id s) q.action user.id q.resource_owner_id
unfolding for_user
for_user-IsPermitted stamp q user session s p h =
    let roles = active_roles user.id s in
    (
      ground arith,
      (authorize_roles-IsPermitted_iff roles q.action user.id q.resource_owner_id).0 (ground arith),
    )

for_session-IsAdmitted :
    (stamp : Stamp) (q : AccessRequest) (digest : ℕ) (session : ProductSession) (s : IdentityStore)
    (p : CurrentPrincipal)
    → session_by_digest digest s ≡ some session
    → (for_session stamp q (find_user session.product_user_id s) session s).1 ≡ replied p
    → IsAdmitted q digest s
unfolding for_session is_idle_expired
for_session-IsAdmitted stamp q digest session s p found h =
    elim (Option-cases (find_user session.product_user_id s)) [
      | inl missing ↦ absurd (ground (arith, rw (missing, for_session) at h))
      | inr (user, there) ↦
          let h' = rw (there, for_session) at h in
          let (enabled, permitted) =
            for_user-IsPermitted stamp q user session s p (ground (arith, h')) in
          record {
            session = session;
            user = user;
            found = found;
            unrevoked = ground (arith, h');
            fresh = ground (arith, h');
            owned = there;
            enabled = enabled;
            permitted = permitted;
          }
    ]

-- A request that is answered with a principal has a session that lets it through: the one of its
-- token's digest, neither revoked nor idle for seven days, of a user who exists and is active, and for
-- the roles that the user has now the matrix permits the action.
pub authorize-IsAdmitted :
    (sha256 : String → ℕ) (stamp : Stamp) (q : AccessRequest) (token : String) (s : IdentityStore)
    (p : CurrentPrincipal)
    → (authorize sha256 stamp q token s).1 ≡ replied p
    → IsAdmitted q (sha256 token) s
unfolding authorize transaction committed authorized
authorize-IsAdmitted sha256 stamp q token s p h =
    elim (Option-cases (session_by_digest (sha256 token) s)) [
      | inl missing ↦ absurd (ground (arith, rw (missing, authorized) at h))
      | inr (session, found) ↦ for_session-IsAdmitted stamp q (sha256 token) session s p found (
          committed-replied s (for_session stamp q (find_user session.product_user_id s) session s)
            p (rw (found, authorized) at h))
    ]

idle_event : Stamp → AccessRequest → IdentityStore → ProductSession → AccessAuditEvent
idle_event stamp q s session =
    access_event stamp false "session_idle_expired" q.action
      (user_id_of stamp q (find_user session.product_user_id s)) session.id q.correlation_id

idle_body :
    (stamp : Stamp) (q : AccessRequest) (digest : ℕ) (s : IdentityStore) (session : ProductSession)
    → session_by_digest digest s ≡ some session
    → is_unset session.revoked_at ≡ true
    → is_idle_expired q.now session ≡ true
    → authorized stamp q digest s ≡ (
      append_audit (idle_event stamp q s session) (save_session (idle_revoked stamp q session) s),
      raised session_required,
    )
unfolding authorized for_session idle_event denied
idle_body stamp q digest s session found unrevoked idle =
    rw (found, authorized) (rw (unrevoked, idle, for_session) refl)

-- A session that is not revoked and was idle for seven days is refused, and stays as it is: the body of the transaction
-- revokes the session and records the refusal, but the exception that leaves the
-- transaction restores the store, so that neither is kept.
pub idle_revocation_is_lost :
    (sha256 : String → ℕ) (stamp : Stamp) (q : AccessRequest) (token : String) (s : IdentityStore)
    (session : ProductSession)
    → session_by_digest (sha256 token) s ≡ some session
    → is_unset session.revoked_at ≡ true
    → is_idle_expired q.now session ≡ true
    → (Dict.get session.id (authorized stamp q (sha256 token) s).0.sessions
        ≡ some (idle_revoked stamp q session))
      × (length (authorized stamp q (sha256 token) s).0.audits ≡ length s.audits + 1)
      × (authorize sha256 stamp q token s ≡ (s, raised session_required))
unfolding authorize transaction
idle_revocation_is_lost sha256 stamp q token s session found unrevoked idle =
    let body = idle_body stamp q (sha256 token) s session found unrevoked idle in
    (
      unfold append_audit save_session in
          rw body (get-set_self session.id (idle_revoked stamp q session) s.sessions),
      unfold append_audit save_session in
          rw body (omega (arith, length-append s.audits (idle_event stamp q s session ∷ []))),
      committed-raised s (authorized stamp q (sha256 token) s) session_required
          (ap (λ x. x.1) body),
    )

-- A refusal leaves the store as it was.
pub refusal_is_not_recorded :
    (sha256 : String → ℕ) (stamp : Stamp) (q : AccessRequest) (token : String) (s : IdentityStore)
    (f : IdentityFault)
    → (authorize sha256 stamp q token s).1 ≡ raised f
    → (authorize sha256 stamp q token s).0 ≡ s
unfolding authorize transaction
refusal_is_not_recorded sha256 stamp q token s f h =
    committed-restores s (authorized stamp q (sha256 token) s) f h
