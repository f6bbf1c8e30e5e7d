-- ===== src/Identity/Links/Confirm.antt =====
-- `IdentityAccess.confirm_magic_link` (src/umbral/application/identity/access.py). The results of
-- `uuid4()` and of `token_urlsafe`, the stamps of the audit events and the SHA-256 are arguments.
use umbral.Prelude.{
  ℕ, String, Bool, true, false, ◌&&◌, not, Option, none, some, ◌==◌, nat_eq, string_eq,
  if◌then◌else◌,
}
use umbral.Identity.Models.{
  UserStatus, ProductUser, RoleAssignment, ProductSession, Invitation, ExternalIdentityLink,
  MagicLinkRequest, AttemptState, MagicLinkAttempt, current_and_valid, AccessAuditEvent,
  identity_error, link_unavailable, access_denied, Reply, replied, raised,
}
use umbral.Identity.Store.{
  IdentityStore, find_user, save_user, save_role, save_session, transaction,
}
use umbral.Identity.LinkStore.{
  find_invitation, link_for_subject, save_link, find_request, save_attempt, find_attempt,
  link_event, audited_then,
}
use umbral.Identity.Email.{normalize_email}
use umbral.Identity.Links.Ports.{ProviderProof, IdentityProofPort, SessionResult}
use umbral.Identity.Links.Check.{
  Outside, Fresh, find_by, checked, conflict, is_active_for, accept_invitation,
}

module _ (x : Outside) (provider : IdentityProofPort) (fresh : Fresh) (attempt_id now : ℕ) where
  unfoldable pub subject_event : ℕ → String → String → ℕ → MagicLinkRequest → AccessAuditEvent
  unfolding link_event
  subject_event n event_type reason user_id request =
      record (link_event (fresh.stamp n) event_type "accepted" reason request.correlation_id) {
        subject_user_id = some user_id;
        attempt_id = some attempt_id;
      }

  unfoldable pub consumed : MagicLinkAttempt → MagicLinkAttempt
  consumed attempt = record attempt { state = AttemptState.consumed; consumed_at = some now }

  unfoldable pub new_session : ℕ → MagicLinkAttempt → ProductSession
  new_session user_id attempt = record {
    id = fresh.session_id;
    product_user_id = user_id;
    magic_link_attempt_id = attempt.id;
    token_digest = x.sha256 fresh.token;
    last_activity_at = now;
    revoked_at = none;
    revocation_reason = none;
  }

  unfoldable pub session_event : ℕ → String → String → ℕ → MagicLinkRequest → AccessAuditEvent
  unfolding subject_event
  session_event n event_type reason user_id request =
      record (subject_event n event_type reason user_id request) {
        session_id = some fresh.session_id;
      }

  abbrev pub session_result : ℕ → SessionResult
  session_result user_id = record {
    session_id = fresh.session_id;
    user_id = user_id;
    token = fresh.token;
    last_activity_at = now;
  }

  -- From `attempt.state = "consumed"` on.
  unfoldable pub start_session :
      MagicLinkAttempt → MagicLinkRequest → ℕ → IdentityStore → IdentityStore × Reply SessionResult
  unfolding session_event consumed new_session save_attempt save_session audited_then
  start_session attempt request user_id s =
      audited_then (session_event 2 "magic_link.consumed.v1" "link_consumed" user_id request)
        (audited_then (session_event 3 "session.started.v1" "eligible" user_id request)
          (λ t. (t, replied (session_result user_id))))
        (save_session (new_session user_id attempt) (save_attempt (consumed attempt) s))

  unfoldable pub new_link : ProviderProof → String → ℕ → ExternalIdentityLink
  new_link proof email user_id = record {
    id = fresh.link_id;
    product_user_id = user_id;
    provider = proof.provider;
    provider_issuer = proof.issuer;
    provider_subject = proof.subject;
    verified_normalized_email = email;
    verified_at = proof.verified_at;
  }

  -- From `if existing_link is None` on.
  unfoldable pub link_user :
      Option ExternalIdentityLink
      → ProviderProof
      → String
      → MagicLinkAttempt
      → MagicLinkRequest
      → ℕ
      → IdentityStore
      → IdentityStore × Reply SessionResult
  unfolding start_session new_link save_link subject_event audited_then
  link_user (some link) proof email attempt request user_id s =
      start_session attempt request user_id s
  link_user none proof email attempt request user_id s =
      audited_then (subject_event 1 "identity.linked.v1" "eligible" user_id request)
        (start_session attempt request user_id) (save_link (new_link proof email user_id) s)

  unfoldable pub new_user : String → ProductUser
  new_user email = record {
    id = fresh.user_id;
    normalized_email = email;
    status = UserStatus.active;
    disabled_reason = none;
    created_at = now;
    status_changed_at = now;
  }

  unfoldable pub activation : RoleAssignment
  activation = record {
    id = fresh.assignment_id;
    product_user_id = fresh.user_id;
    role = "user";
    granted_at = now;
    revoked_at = none;
    reason = "activation";
  }

  -- From `if user is None` on.
  unfoldable pub admit :
      Option ProductUser
      → Option Invitation
      → Option ExternalIdentityLink
      → ProviderProof
      → String
      → MagicLinkAttempt
      → MagicLinkRequest
      → IdentityStore
      → IdentityStore × Reply SessionResult
  unfolding new_user activation save_user save_role accept_invitation subject_event link_user
  admit (some user) invitation link proof email attempt request s =
      link_user link proof email attempt request user.id s
  admit none invitation link proof email attempt request s =
      audited_then (subject_event 0 "user.activated.v1" "eligible" fresh.user_id request)
        (link_user link proof email attempt request fresh.user_id)
        (accept_invitation invitation fresh.user_id now
          (save_role activation (save_user (new_user email) s)))

  -- `existing_link and (user is None or existing_link.product_user_id != user.id)`
  unfoldable pub is_of_other : Option ExternalIdentityLink → Option ProductUser → Bool
  is_of_other none user = false
  is_of_other (some link) none = true
  is_of_other (some link) (some user) = not (link.product_user_id == user.id)

  unfoldable pub has_other_email : Option ProductUser → String → Bool
  has_other_email none email = false
  has_other_email (some user) email = not (user.normalized_email == email)

  unfoldable pub is_refused : Option Invitation → String → Bool
  unfolding is_active_for
  is_refused none email = false
  is_refused (some invitation) email = not (is_active_for email invitation)

  unfoldable pub settle_claims :
      ProviderProof
      → String
      → MagicLinkAttempt
      → MagicLinkRequest
      → IdentityStore
      → IdentityStore × Reply SessionResult
  unfolding find_by find_user find_invitation link_for_subject is_of_other has_other_email
      is_refused conflict admit
  settle_claims proof email attempt request s =
      let user = find_by find_user attempt.product_user_id s in
      let invitation = find_by find_invitation attempt.invitation_id s in
      let link = link_for_subject proof.provider proof.issuer proof.subject s in
      if is_of_other link user
      then conflict (fresh.stamp 0) "subject_conflict" request.correlation_id attempt_id s
      else if has_other_email user email
      then conflict (fresh.stamp 0) "email_mismatch" request.correlation_id attempt_id s
      else if is_refused invitation email
      then conflict (fresh.stamp 0) "not_eligible" request.correlation_id attempt_id s
      else admit user invitation link proof email attempt request s

  -- The last transaction.
  unfoldable pub confirmed :
      ProviderProof → String → IdentityStore → IdentityStore × Reply SessionResult
  unfolding find_attempt find_request current_and_valid settle_claims
  confirmed proof email s = elim (find_attempt attempt_id s) [
    | none ↦ (s, raised (link_unavailable "link_invalid"))
    | some attempt ↦ elim (find_request attempt.request_id s) [
      | none ↦ (s, raised (link_unavailable "link_invalid"))
      | some request ↦
          if not (current_and_valid now attempt)
          then (s, raised (link_unavailable "link_consumed"))
          else settle_claims proof email attempt request s
    ]
  ]

  unfoldable pub is_issuer : ProviderProof → Bool
  is_issuer proof = proof.provider == provider.provider && proof.issuer == provider.issuer

  unfoldable pub is_complete : ProviderProof → Bool
  is_complete proof = not (proof.subject == "") && not (proof.verified_email == "")

  -- The transaction of a proof that is not accepted.
  unfoldable pub rejected : ProviderProof → IdentityStore → IdentityStore × Reply (Unit {0})
  unfolding find_attempt find_request is_issuer link_event audited_then
  rejected proof s = elim (find_attempt attempt_id s) [
    | none ↦ (s, replied tt)
    | some attempt ↦ elim (find_request attempt.request_id s) [
      | none ↦ (s, raised (link_unavailable "link_invalid"))
      | some request ↦
          audited_then
            (record (link_event (fresh.stamp 0) "identity.conflict.v1" "denied"
              (if not (is_issuer proof) then "issuer_mismatch" else "missing_verified_attribute")
              request.correlation_id) { attempt_id = some attempt_id })
            (λ t. (t, replied tt)) s
    ]
  ]

  unfoldable pub is_revoked : Option String → Bool
  is_revoked none = true
  is_revoked (some handle) = provider.revokes handle

  -- From the proof on.
  unfoldable pub with_proof : ProviderProof → IdentityStore → IdentityStore × Reply SessionResult
  unfolding is_issuer is_complete transaction rejected normalize_email is_revoked confirmed
  with_proof proof s =
      let (t, r) = transaction (rejected proof) s in
      if not (is_issuer proof && is_complete proof)
      then elim r [ raised f ↦ (t, raised f) | replied u ↦ (t, raised access_denied) ]
      else elim (normalize_email x.py_text proof.verified_email) [
        | none ↦ (s, raised access_denied)
        | some email ↦
            if not (is_revoked proof.revocation_handle)
            then (s, raised (identity_error "auth.provider_unavailable" 503 "retry_later"))
            else transaction (confirmed proof email) s
      ]

  unfoldable pub confirm_magic_link : String → IdentityStore → IdentityStore × Reply SessionResult
  unfolding transaction checked with_proof
  confirm_magic_link token_hash s =
      let (t, r) = transaction (checked (fresh.stamp 0) attempt_id now) s in
      elim r [
        | raised f ↦ (t, raised f)
        | replied u ↦ elim (provider.verify_magic_link attempt_id token_hash now) [
          | raised f ↦ (t, raised f)
          | replied proof ↦ with_proof proof t
        ]
      ]
