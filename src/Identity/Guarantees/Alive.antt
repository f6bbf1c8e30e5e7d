-- ===== src/Identity/Guarantees/Alive.antt =====
-- A session that is used (`AccessControl.authorize`,
-- src/umbral/application/identity/authorization.py).
use umbral.Prelude.{ℕ, ◌+◌, ◌<◌, String, ◌≡◌, refl, ap, arith, ◌∙◌, sym, nat_eq}
use umbral.Identity.Models.{idle_period, CurrentPrincipal, replied, Stamp}
use umbral.Identity.Store.{
  IdentityStore, find_user, active_roles, session_by_digest, save_session, append_audit,
}
use umbral.Identity.Authorization.{AccessRequest, sorted_roles, touched, authorize}
use umbral.Identity.Guarantees.Access.{IsAdmitted, authorize-IsAdmitted, authorize-allows}
use umbral.Identity.Guarantees.Sessions.{IsSessionTable, first_session-set}

module _ (sha256 : String → ℕ) (stamp : Stamp) (q : AccessRequest) (token : String)
    (s : IdentityStore) where
  -- An admitted request is made again.
  again-IsAdmitted :
      (again : AccessRequest) (a : IsAdmitted q (sha256 token) s)
      → IsSessionTable s.sessions
      → again.action ≡ q.action
      → again.resource_owner_id ≡ q.resource_owner_id
      → again.now < q.now + idle_period
      → (b : IsAdmitted again (sha256 token) (authorize sha256 stamp q token s).0) × (b.user
          ≡ a.user)
  unfolding find_user active_roles session_by_digest append_audit save_session touched
  again-IsAdmitted again a table action owner soon =
      let session = record a.session { last_activity_at = q.now } in
      let left = ap (λ r. r.0) (authorize-allows sha256 stamp q token s a) in
      rw left (
        record {
          session = session;
          user = a.user;
          found = first_session-set (sha256 token) s.sessions a.session session table a.found refl;
          unrevoked = a.unrevoked;
          fresh = soon;
          owned = a.owned;
          enabled = a.enabled;
          permitted = rw (action, owner) a.permitted;
        },
        refl,
      )

  authorize-active_roles :
      (a : IsAdmitted q (sha256 token) s) (user_id : ℕ)
      → active_roles user_id (authorize sha256 stamp q token s).0 ≡ active_roles user_id s
  unfolding active_roles append_audit save_session
  authorize-active_roles a user_id = rw (authorize-allows sha256 stamp q token s a) refl

  abbrev principal : ℕ → ℕ → IdentityStore → CurrentPrincipal
  principal user_id now t = record {
    user_id = user_id;
    roles = sorted_roles (active_roles user_id t);
    last_activity_at = now;
  }

  -- A request renews its session: in a store whose sessions each stand under their own identifier, after a
  -- request that is answered with a principal, the next call, if it is of the same action on the
  -- same owner's resource with the same token, at a time before the end of seven days from the
  -- request's, is answered with the same user and roles, and with its own time.
  pub authorize-keeps_alive :
      (other : Stamp) (again : AccessRequest) (p : CurrentPrincipal)
      → IsSessionTable s.sessions
      → (authorize sha256 stamp q token s).1 ≡ replied p
      → again.action ≡ q.action
      → again.resource_owner_id ≡ q.resource_owner_id
      → again.now < q.now + idle_period
      → (authorize sha256 other again token (authorize sha256 stamp q token s).0).1
        ≡ replied (record p { last_activity_at = again.now })
  authorize-keeps_alive other again p table returned action owner soon =
      let a = authorize-IsAdmitted sha256 stamp q token s p returned in
      let t = (authorize sha256 stamp q token s).0 in
      let (b, same) = again-IsAdmitted again a table action owner soon in
      let first : replied (principal a.user.id q.now s) ≡ replied p =
        sym (ap (λ r. r.1) (authorize-allows sha256 stamp q token s a)) ∙ returned in
      let named : principal a.user.id q.now s ≡ p = ground (arith, first) in
      ap (λ r. r.1) (authorize-allows sha256 other again token t b)
      ∙ rw (same, authorize-active_roles a a.user.id)
          (ap (λ (c : CurrentPrincipal). replied (record c { last_activity_at = again.now })) named)
