-- ===== src/Identity/Links/Check.antt =====
-- The refusals of `IdentityAccess.confirm_magic_link` (src/umbral/application/identity/access.py): its first
-- transaction, and what it writes before it raises.
use umbral.Prelude.{
  ℕ, String, Bool, true, false, ◌&&◌, not, Option, none, some, ◌==◌, nat_eq, string_eq,
  if◌then◌else◌,
}
use umbral.Text.{PyText}
use umbral.Identity.Models.{
  InvitationStatus, Invitation, AttemptState, MagicLinkAttempt, is_issued, current_and_valid,
  IdentityFault, link_unavailable, access_denied, Reply, replied, raised, Stamp,
}
use umbral.Identity.Store.{IdentityStore}
use umbral.Identity.LinkStore.{
  save_invitation, find_request, save_attempt, find_attempt, link_event, audited_then,
}

-- The code outside of the services: the methods of `str` and `hashlib.sha256`.
pub record Outside : Type 0 where
  pub py_text : PyText
  pub sha256 : String → ℕ

-- What `uuid4()` and `secrets.token_urlsafe` return in one confirmation, and the stamps of its events.
pub record Fresh : Type 0 where
  pub user_id : ℕ
  pub assignment_id : ℕ
  pub link_id : ℕ
  pub session_id : ℕ
  pub token : String
  pub stamp : ℕ → Stamp

-- `f(id) if id else None`
unfoldable pub find_by {ℓ} :
    {A : Type ℓ} → (ℕ → IdentityStore → Option A) → Option ℕ → IdentityStore → Option A
find_by find none s = none
find_by find (some id) s = find id s

unfoldable pub unavailable_reason : AttemptState → String
unavailable_reason AttemptState.consumed = "link_consumed"
unavailable_reason AttemptState.superseded = "link_superseded"
unavailable_reason _ = "link_invalid"

-- An audit event of an attempt, where its request is known.
unfoldable pub noted_then {ℓ} :
    {A : Type ℓ}
    → Stamp
    → String
    → String
    → MagicLinkAttempt
    → (IdentityStore → IdentityStore × Reply A)
    → IdentityStore
    → IdentityStore × Reply A
unfolding find_request link_event audited_then
noted_then stamp event_type reason attempt next s = elim (find_request attempt.request_id s) [
  | none ↦ next s
  | some request ↦
      audited_then
        (record (link_event stamp event_type "denied" reason request.correlation_id) {
          attempt_id = some attempt.id;
        })
        next s
]

abbrev pub refuse {ℓ} : {A : Type ℓ} → IdentityFault → IdentityStore → IdentityStore × Reply A
refuse f s = (s, raised f)

-- The first transaction.
unfoldable pub checked : Stamp → ℕ → ℕ → IdentityStore → IdentityStore × Reply (Unit {0})
unfolding find_attempt unavailable_reason noted_then save_attempt
checked stamp attempt_id now s = elim (find_attempt attempt_id s) [
  | none ↦ (s, raised (link_unavailable "link_invalid"))
  | some attempt ↦
      let reason = unavailable_reason attempt.state in
      if not (is_issued attempt.state)
      then noted_then stamp "magic_link.reused.v1" reason attempt (refuse (link_unavailable reason))
          s
      else if not (current_and_valid now attempt)
      then noted_then stamp "magic_link.expired.v1" "link_expired" attempt
          (refuse (link_unavailable "link_expired"))
          (save_attempt (record attempt { state = AttemptState.expired }) s)
      else (s, replied tt)
]

-- `identity.conflict.v1`, and the refusal that follows.
unfoldable pub conflict {ℓ} :
    {A : Type ℓ} → Stamp → String → ℕ → ℕ → IdentityStore → IdentityStore × Reply A
unfolding link_event audited_then
conflict stamp reason correlation_id attempt_id s =
    audited_then
      (record (link_event stamp "identity.conflict.v1" "denied" reason correlation_id) {
        attempt_id = some attempt_id;
      })
      (refuse access_denied) s

unfoldable pub is_active_for : String → Invitation → Bool
is_active_for email i =
    (elim i.status [ InvitationStatus.active ↦ true | InvitationStatus.accepted ↦ false ])
    && i.normalized_email == email

unfoldable pub accepted_by : ℕ → ℕ → Invitation → Invitation
accepted_by user_id now i = record i {
  status = InvitationStatus.accepted;
  accepted_user_id = some user_id;
  accepted_at = some now;
}

unfoldable pub accept_invitation : Option Invitation → ℕ → ℕ → IdentityStore → IdentityStore
unfolding save_invitation accepted_by
accept_invitation none user_id now s = s
accept_invitation (some i) user_id now s = save_invitation (accepted_by user_id now i) s
