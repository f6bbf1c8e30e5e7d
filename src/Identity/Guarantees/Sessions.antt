-- ===== src/Identity/Guarantees/Sessions.antt =====
-- What a logout and a request of a link do (src/umbral/application/identity/access.py).
use umbral.Prelude.{
  ℕ, String, false, [], ◌∷◌, Option, none, some, ◌≡◌, refl, ap, ◌∙◌, sym, nat_eq, string_eq, ◌==◌,
  arith, contains, ◌⊎◌, inl, inr, Bool-cases, Option-cases,
}
use umbral.Prelude.Dict
use umbral.Prelude.Dict.{Dict, IsDict}
use umbral.Identity.Models.{
  ProductSession, is_unset, session_required, AccessAuditEvent, Reply, replied, raised, Stamp,
}
use umbral.Identity.Store.{
  IdentityStore, first_session, session_by_digest, save_session, append_audit, transaction,
}
use umbral.Identity.Events.{validate_event, is_registered}
use umbral.Identity.Transactions.{committed-raised, committed-made}
use umbral.Identity.LinkStore.{audited_then, link_event}
use umbral.Identity.Authorization.{AccessRequest, authorize, authorized, for_session}
use umbral.Identity.Links.Sessions.{logout, ended, logged_out, logout_event}

-- Each session stands under its own identifier.
pub record IsSessionTable (d : Dict ℕ ProductSession) : Type 0 where
  pub distinct : IsDict d
  pub keyed : (i : ℕ) (a : ProductSession) → Dict.get i d ≡ some a → a.id ≡ i

tail-IsSessionTable :
    (j : ℕ) (c : ProductSession) (d : Dict ℕ ProductSession)
    → IsSessionTable ((j, c) ∷ d)
    → (c.id ≡ j) × IsSessionTable d
unfolding Dict.get
tail-IsSessionTable j c d t = (
  t.keyed j c (ground (arith, nat_eq.same_iff j j)),
  record {
    distinct = t.distinct.1;
    keyed = λ i b at. t.keyed i b (elim (Bool-cases (j == i)) [
      | inl e ↦ absurd (ground (arith, at, t.distinct.0, nat_eq.same_iff j i, e))
      | inr e ↦ rw (e) at
    ]);
  },
)

-- What is found by its digest stands under its identifier.
first_session-stored :
    (digest : ℕ) (d : Dict ℕ ProductSession) (a : ProductSession)
    → IsSessionTable d
    → first_session digest d ≡ some a
    → (Dict.get a.id d ≡ some a) × (a.token_digest ≡ digest)
unfolding first_session Dict.get
first_session-stored digest [] a t h = absurd (ground (arith, h))
first_session-stored digest ((j, c) ∷ d) a t h =
    let (key, tail) = tail-IsSessionTable j c d t in
    elim (Bool-cases (c.token_digest == digest)) [
      | inl e ↦ ground (
        arith,
        rw (e, first_session) at h,
        key,
        nat_eq.same_iff c.token_digest digest,
        e,
        nat_eq.same_iff j c.id,
      )
      | inr e ↦
          let (at, same) = first_session-stored digest d a tail (rw (e, first_session) at h) in
          (ground (arith, at, t.distinct.0, nat_eq.same_iff j a.id), same)
    ]

-- The first session of a digest is still found when it is saved with the same digest.
pub first_session-set :
    (digest : ℕ) (d : Dict ℕ ProductSession) (a b : ProductSession)
    → IsSessionTable d
    → first_session digest d ≡ some a
    → b.token_digest ≡ a.token_digest
    → first_session digest (Dict.set a.id b d) ≡ some b
unfolding first_session Dict.set
first_session-set digest [] a b t h same = absurd (ground (arith, h))
first_session-set digest ((j, c) ∷ d) a b t h same =
    let (key, tail) = tail-IsSessionTable j c d t in
    let (stored, named) = first_session-stored digest ((j, c) ∷ d) a t h in
    let hit = (nat_eq.same_iff b.token_digest digest).1 (same ∙ named) in
    elim (Bool-cases (c.token_digest == digest)) [
      | inl e ↦
          let first : c ≡ a = ground (arith, rw (e, first_session) at h) in
          let here = (nat_eq.same_iff j a.id).1 (sym key ∙ ap (λ y. y.id) first) in
          rw (here, hit) refl
      | inr e ↦
          let later = rw (e, first_session) at h in
          let (at, k) = first_session-stored digest d a tail later in
          elim (Bool-cases (j == a.id)) [
            | inl m ↦ absurd (ground (arith, at, t.distinct.0, nat_eq.same_iff j a.id, m))
            | inr m ↦ rw (m, e) (first_session-set digest d a b tail later same)
          ]
    ]

authorize-unknown :
    (sha256 : String → ℕ) (stamp : Stamp) (q : AccessRequest) (token : String) (s : IdentityStore)
    → session_by_digest (sha256 token) s ≡ none
    → authorize sha256 stamp q token s ≡ (s, raised session_required)
unfolding authorize transaction authorized
authorize-unknown sha256 stamp q token s e =
    committed-raised s (authorized stamp q (sha256 token) s) session_required
      (rw (e, authorized) refl)

authorize-revoked :
    (sha256 : String → ℕ) (stamp : Stamp) (q : AccessRequest) (token : String) (s : IdentityStore)
    (b : ProductSession)
    → session_by_digest (sha256 token) s ≡ some b
    → is_unset b.revoked_at ≡ false
    → authorize sha256 stamp q token s ≡ (s, raised session_required)
unfolding authorize transaction authorized
authorize-revoked sha256 stamp q token s b e k =
    committed-raised s (authorized stamp q (sha256 token) s) session_required
      (rw (e, authorized) (unfold for_session in rw (k) refl))

-- A valid event is appended.
pub audited_then-valid {ℓ} :
    {A : Type ℓ} (event : AccessAuditEvent) (next : IdentityStore → IdentityStore × Reply A)
    (s : IdentityStore)
    → validate_event event.event_type event.result event.reason ≡ replied tt
    → audited_then event next s ≡ next (append_audit event s)
unfolding audited_then
audited_then-valid event next s h = rw (h, audited_then) refl

logout_is_valid : validate_event "session.ended.v1" "accepted" "logout" ≡ replied tt
unfolding validate_event is_registered Dict.get contains
logout_is_valid = refl

-- What a logout leaves: the session of the token is revoked, if there is one.
abbrev IsRefusable : (String → ℕ) → String → IdentityStore × Reply (Unit {0}) → Type 0
IsRefusable sha256 token (t, r) =
    (r ≡ replied tt)
    × ((session_by_digest (sha256 token) t ≡ none)
        ⊎ ((b : ProductSession) × (session_by_digest (sha256 token) t ≡ some b)
            × (is_unset b.revoked_at ≡ false)))

ended-IsRefusable :
    (sha256 : String → ℕ) (stamp : Stamp) (correlation_id : Option ℕ) (now : ℕ) (token : String)
    (s : IdentityStore)
    → IsSessionTable s.sessions
    → IsRefusable sha256 token (ended stamp correlation_id now (sha256 token) s)
unfolding ended
ended-IsRefusable sha256 stamp correlation_id now token s table =
    elim (Option-cases (session_by_digest (sha256 token) s)) [
      | inl e ↦
          let left : ended stamp correlation_id now (sha256 token) s ≡ (s, replied tt) =
            rw (e, ended) refl in
          rw (left) (refl, inl e)
      | inr (a, e) ↦ elim (Bool-cases (is_unset a.revoked_at)) [
        | inr k ↦
            let left : ended stamp correlation_id now (sha256 token) s ≡ (s, replied tt) =
              rw (e, k, ended) refl in
            rw (left) (refl, inr (a, e, k))
        | inl k ↦
            let b = logged_out now a in
            let t = append_audit (logout_event stamp correlation_id a) (save_session b s) in
            let left : ended stamp correlation_id now (sha256 token) s ≡ (t, replied tt) =
              rw (e, k, ended)
                (audited_then-valid (logout_event stamp correlation_id a) (λ u. (u, replied tt))
                  (save_session b s) (unfold logout_event link_event in logout_is_valid)) in
            rw (left) (
              refl,
              inr (
                b,
                unfold session_by_digest append_audit save_session logged_out in
                    first_session-set (sha256 token) s.sessions a b table
                      (unfold session_by_digest in e) refl,
                unfold logged_out is_unset in refl,
              ),
            )
      ]
    ]

-- A logout always returns, and after it the token is refused: every request with it needs a new session.
pub logout_ends_session :
    (sha256 : String → ℕ) (stamp other : Stamp) (correlation_id : Option ℕ) (now : ℕ)
    (q : AccessRequest) (token : String) (s : IdentityStore)
    → IsSessionTable s.sessions
    → ((logout sha256 stamp correlation_id now token s).1 ≡ replied tt)
      × ((authorize sha256 other q token (logout sha256 stamp correlation_id now token s).0).1
          ≡ raised session_required)
unfolding logout transaction
logout_ends_session sha256 stamp other correlation_id now q token s table =
    let body = ended stamp correlation_id now (sha256 token) s in
    let (returned, left) = ended-IsRefusable sha256 stamp correlation_id now token s table in
    let same : logout sha256 stamp correlation_id now token s ≡ body =
      committed-made s body tt returned in
    rw (same) (
      returned,
      elim left [
        | inl e ↦ ap (λ r. r.1) (authorize-unknown sha256 other q token body.0 e)
        | inr (b, e, k) ↦ ap (λ r. r.1) (authorize-revoked sha256 other q token body.0 b e k)
      ],
    )
