-- ===== src/Identity/Links/Sessions.antt =====
-- `IdentityAccess.logout` (src/umbral/application/identity/access.py).
use umbral.Prelude.{ℕ, String, Option, none, some, if◌then◌else◌}
use umbral.Identity.Models.{ProductSession, is_unset, AccessAuditEvent, Reply, replied, Stamp}
use umbral.Identity.Store.{IdentityStore, session_by_digest, save_session, transaction}
use umbral.Identity.LinkStore.{link_event, audited_then}
use umbral.Identity.Authorization.{or_fresh}

unfoldable pub logged_out : ℕ → ProductSession → ProductSession
logged_out now session = record session { revoked_at = some now; revocation_reason = some "logout" }

unfoldable pub logout_event : Stamp → Option ℕ → ProductSession → AccessAuditEvent
unfolding link_event or_fresh
logout_event stamp correlation_id session =
    record (link_event stamp "session.ended.v1" "accepted" "logout"
      (or_fresh correlation_id stamp.correlation_id)) {
        subject_user_id = some session.product_user_id;
        session_id = some session.id;
      }

unfoldable pub ended : Stamp → Option ℕ → ℕ → ℕ → IdentityStore → IdentityStore × Reply (Unit {0})
unfolding session_by_digest save_session is_unset logged_out logout_event audited_then
ended stamp correlation_id now digest s = elim (session_by_digest digest s) [
  | none ↦ (s, replied tt)
  | some session ↦
      if is_unset session.revoked_at
      then audited_then (logout_event stamp correlation_id session) (λ t. (t, replied tt))
          (save_session (logged_out now session) s)
      else (s, replied tt)
]

unfoldable pub logout :
    (String → ℕ) → Stamp → Option ℕ → ℕ → String → IdentityStore → IdentityStore × Reply (Unit {0})
unfolding transaction ended
logout sha256 stamp correlation_id now token s =
    transaction (ended stamp correlation_id now (sha256 token)) s
