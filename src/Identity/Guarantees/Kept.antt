-- ===== src/Identity/Guarantees/Kept.antt =====
-- The role assignments around a transaction and an audit event, and `logout` on them
-- (src/umbral/application/identity/access.py).
use umbral.Prelude.{ℕ, String, Option, nat_eq, string_eq, inl, inr, Bool-cases, Option-cases}
use umbral.Identity.Models.{AccessAuditEvent, is_unset, Reply, replied, raised, Stamp}
use umbral.Identity.Store.{
  IdentityStore, append_audit, committed, transaction, save_session, session_by_digest,
}
use umbral.Identity.Events.{validate_event}
use umbral.Identity.Transactions.{Reply-cases}
use umbral.Identity.LinkStore.{audited_then}
use umbral.Identity.Links.Sessions.{logout, ended, logged_out, logout_event}
use umbral.Identity.Roles.{IsSingle}

-- What a call leaves has single assignments.
abbrev pub IsFine {ℓ} : {A : Type ℓ} → IdentityStore × Reply A → Type 0
IsFine (t, r) = IsSingle t.roles

pub audited-IsFine {ℓ} :
    {A : Type ℓ} (event : AccessAuditEvent) (next : IdentityStore → IdentityStore × Reply A)
    (s : IdentityStore)
    → IsSingle s.roles
    → ((t : IdentityStore) → IsSingle t.roles → IsFine (next t))
    → IsFine (audited_then event next s)
unfolding audited_then append_audit
audited-IsFine event next s h later =
    elim (Reply-cases (validate_event event.event_type event.result event.reason)) [
      | inr (f, e) ↦ rw (e, audited_then) h
      | inl (u, e) ↦ rw (e, audited_then) (later (append_audit event s) h)
    ]

pub committed-IsFine {ℓ} :
    {A : Type ℓ} (s : IdentityStore) (r : IdentityStore × Reply A)
    → IsSingle s.roles
    → IsFine r
    → IsFine (committed s r)
unfolding committed
committed-IsFine s (t, replied a) h k = k
committed-IsFine s (t, raised f) h k = h

pub logout-IsFine :
    (sha256 : String → ℕ) (stamp : Stamp) (correlation_id : Option ℕ) (now : ℕ) (token : String)
    (s : IdentityStore)
    → IsSingle s.roles
    → IsSingle (logout sha256 stamp correlation_id now token s).0.roles
unfolding logout transaction ended save_session
logout-IsFine sha256 stamp correlation_id now token s h =
    committed-IsFine s (ended stamp correlation_id now (sha256 token) s) h
      (elim (Option-cases (session_by_digest (sha256 token) s)) [
        | inl e ↦ rw (e, ended) h
        | inr (a, e) ↦ elim (Bool-cases (is_unset a.revoked_at)) [
          | inr k ↦ rw (e, k, ended) h
          | inl k ↦
              rw (e, k, ended)
                (audited-IsFine (logout_event stamp correlation_id a) (λ t. (t, replied tt))
                  (save_session (logged_out now a) s) h (λ t m. m))
        ]
      ])
