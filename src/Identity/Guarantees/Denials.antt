-- ===== src/Identity/Guarantees/Denials.antt =====
-- What is written of a denied request (`AccessControl.authorize`,
-- src/umbral/application/identity/authorization.py).
use umbral.Prelude.{
  ℕ, String, false, ◌∙◌, sym, ◌++◌, [], ◌∷◌, Option, none, some, ◌≡◌, refl, ap, inl, inr,
  Option-cases, Bool-cases, arith,
}
use umbral.Identity.Policy.{authorize_roles}
use umbral.Identity.Models.{
  AccessAuditEvent, ProductUser, ProductSession, is_unset, is_idle_expired, IdentityFault, Reply,
  CurrentPrincipal, replied, raised, Stamp,
}
use umbral.Identity.Store.{
  IdentityStore, find_user, active_roles, session_by_digest, save_session, append_audit,
  transaction,
}
use umbral.Identity.Transactions.{committed-raised, committed-made, Reply-cases}
use umbral.Identity.Authorization.{
  access_event, is_enabled, AccessRequest, idle_revoked, denied, allow, for_user, user_id_of,
  for_session, authorized, authorize,
}

module _ (stamp : Stamp) (q : AccessRequest) (session : ProductSession) where
  -- One event is appended, and it says that the request of the session is denied.
  pub record IsNoted (s t : IdentityStore) : Type 0 where
    pub event : AccessAuditEvent
    pub appended : t.audits ≡ s.audits ++ event ∷ []
    pub event_type : event.event_type ≡ "authorization.denied.v1"
    pub result : event.result ≡ "denied"
    pub of_session : event.session_id ≡ some session.id
    pub of_action : event.action ≡ some q.action

  -- Whatever is raised, the denial is noted.
  abbrev NotesDenials : IdentityStore → IdentityStore × Reply CurrentPrincipal → Type 0
  NotesDenials s (t, r) = (f : IdentityFault) → r ≡ raised f → IsNoted s t

  denied-IsNoted :
      (reason : String) (user_id : Option ℕ) (s t : IdentityStore)
      → t.audits ≡ s.audits
      → IsNoted s (denied stamp q reason user_id session.id t)
  unfolding denied append_audit access_event
  denied-IsNoted reason user_id s t same = record {
    event = access_event stamp false reason q.action user_id session.id q.correlation_id;
    appended =
        ap
          (λ l.
            l ++ access_event stamp false reason q.action user_id session.id q.correlation_id ∷ [])
          same;
    event_type = refl;
    result = refl;
    of_session = refl;
    of_action = refl;
  }

  for_user-NotesDenials :
      (user : ProductUser) (s : IdentityStore) → NotesDenials s (for_user stamp q user session s)
  unfolding for_user allow
  for_user-NotesDenials user s =
      let roles = active_roles user.id s in
      let decision = authorize_roles roles q.action user.id q.resource_owner_id in
      elim (Bool-cases (is_enabled user.status)) [
        | inr off ↦ rw (off, for_user) λ f h. denied-IsNoted "user_inactive" (some user.id) s s refl
        | inl on ↦ elim (Bool-cases decision.allowed) [
          | inr barred ↦
              rw (on, barred, for_user)
                λ f h. denied-IsNoted decision.reason (some user.id) s s refl
          | inl free ↦ rw (on, free, for_user) λ f h. absurd (ground (arith, h))
        ]
      ]

  for_session-NotesDenials :
      (user : Option ProductUser) (s : IdentityStore)
      → NotesDenials s (for_session stamp q user session s)
  unfolding for_session save_session
  for_session-NotesDenials user s = elim (Bool-cases (is_unset session.revoked_at)) [
    | inr e ↦
        rw (e, for_session)
          λ f h. denied-IsNoted "session_revoked" (user_id_of stamp q user) s s refl
    | inl e ↦ elim (Bool-cases (is_idle_expired q.now session)) [
      | inl k ↦
          rw (e, k, for_session)
            λ f h.
              denied-IsNoted "session_idle_expired" (user_id_of stamp q user) s
                (save_session (idle_revoked stamp q session) s) refl
      | inr k ↦ elim (Option-cases user) [
        | inl m ↦ rw (e, k, m, for_session) λ f h. denied-IsNoted "user_inactive" none s s refl
        | inr (u, m) ↦ rw (e, k, m, for_session) (for_user-NotesDenials u s)
      ]
    ]
  ]

-- A denial is not recorded: when a request whose token has a session is refused, for whatever reason, the
-- body of the transaction has appended one event `authorization.denied.v1` of the session and the
-- action, but the store is afterwards as it was.
pub denial_is_lost :
    (sha256 : String → ℕ) (stamp : Stamp) (q : AccessRequest) (token : String) (s : IdentityStore)
    (session : ProductSession) (f : IdentityFault)
    → session_by_digest (sha256 token) s ≡ some session
    → (authorize sha256 stamp q token s).1 ≡ raised f
    → IsNoted stamp q session s (authorized stamp q (sha256 token) s).0
      × (authorize sha256 stamp q token s ≡ (s, raised f))
unfolding authorize transaction
denial_is_lost sha256 stamp q token s session f found refused =
    let body = authorized stamp q (sha256 token) s in
    elim (Reply-cases body.1) [
      | inl (p, e) ↦
          let kept : replied p ≡ raised f =
            sym e ∙ sym (ap (λ r. r.1) (committed-made s body p e)) ∙ refused in
          absurd (ground (arith, kept))
      | inr (g, e) ↦
          let left : authorized stamp q (sha256 token) s
              ≡ for_session stamp q (find_user session.product_user_id s) session s =
            rw (found, authorized) refl in
          let gone = committed-raised s body g e in
          let same : g ≡ f = ground (arith, gone, refused) in
          let user = find_user session.product_user_id s in
          (
            rw left
                (for_session-NotesDenials stamp q session user s g (sym (ap (λ r. r.1) left) ∙ e)),
            rw same at gone,
          )
    ]
