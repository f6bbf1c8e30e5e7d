-- ===== src/Identity/Invitations.antt =====
-- `AccessAdministration.preload_invitation` (src/umbral/application/identity/administration.py), and the purge
-- of requests (src/umbral/application/identity/retention.py).
use umbral.Prelude.{ℕ, String, not, none, some, nat_eq, leb, length, keep}
use umbral.Text.{PyText}
use umbral.Identity.Models.{
  InvitationStatus, Invitation, AccessAuditEvent, invalid_value, Reply, replied, raised, Stamp,
}
use umbral.Identity.Store.{IdentityStore, transaction}
use umbral.Identity.LinkStore.{invitation_for_email, save_invitation, link_event}
use umbral.Identity.Email.{normalize_email}
use umbral.Identity.Administration.{audited}

-- `Invitation.new`
unfoldable pub new_invitation : ℕ → ℕ → String → String → Invitation
new_invitation fresh now email source = record {
  id = fresh;
  normalized_email = email;
  status = InvitationStatus.active;
  accepted_user_id = none;
  preload_source = source;
  created_at = now;
  accepted_at = none;
}

unfoldable pub preloaded_event : Stamp → Invitation → AccessAuditEvent
unfolding link_event
preloaded_event stamp i =
    record (link_event stamp "invitation.preloaded.v1" "accepted" "eligible" stamp.correlation_id) {
      invitation_id = some i.id;
    }

-- The body of the transaction.
unfoldable pub preloaded :
    Stamp → ℕ → ℕ → String → String → IdentityStore → IdentityStore × Reply Invitation
unfolding invitation_for_email new_invitation save_invitation preloaded_event audited
preloaded stamp fresh now email source s = elim (invitation_for_email email s) [
  | some existing ↦ (s, replied existing)
  | none ↦
      let i = new_invitation fresh now email source in
      audited (preloaded_event stamp i) i (save_invitation i s)
]

unfoldable pub preload_invitation :
    PyText → Stamp → ℕ → ℕ → String → String → IdentityStore → IdentityStore × Reply Invitation
unfolding normalize_email transaction preloaded
preload_invitation t stamp fresh now email source s = elim (normalize_email t email) [
  | none ↦ (s, raised invalid_value)
  | some normalized ↦ transaction (preloaded stamp fresh now normalized source) s
]

-- `purge_requests_before`, and the number of requests that it deletes.
unfoldable pub purge_requests_before : ℕ → IdentityStore → IdentityStore × ℕ
unfolding keep
purge_requests_before cutoff s = (
  record s { requests = keep (λ entry. not (leb entry.1.purge_after cutoff)) s.requests },
  length (keep (λ entry. leb entry.1.purge_after cutoff) s.requests),
)

unfoldable pub purge_request_fingerprints : ℕ → IdentityStore → IdentityStore × Reply ℕ
unfolding purge_requests_before transaction
purge_request_fingerprints now =
    transaction λ s. let (t, n) = purge_requests_before now s in (t, replied n)
