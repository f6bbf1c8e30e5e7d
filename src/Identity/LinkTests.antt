-- ===== src/Identity/LinkTests.antt =====
-- A link for an invited address, and each guarantee on magic links with it.
use umbral.Prelude.{
  ℕ, ◌+◌, String, true, false, [], ◌∷◌, Option, none, some, ◌≡◌, refl, nat_eq, string_eq, arith,
  length, contains, all, ◌==◌,
}
use umbral.Prelude.Dict
use umbral.Prelude.Dict.{Dict}
use umbral.Text.{PyText, codes, is_graphic}
use umbral.Identity.Models.{
  InvitationStatus, Invitation, MagicLinkRequest, AttemptState, SubjectKind, MagicLinkAttempt,
  ProductSession, Reply, replied, raised, Stamp, session_required, other_exception, is_issued,
  current_and_valid, is_before, is_unset, IdentityFault,
}
use umbral.Identity.Store.{
  IdentityStore, committed, transaction, save_user, save_role, save_session, append_audit,
  find_user, first_grant,
}
use umbral.Identity.Events.{validate_event, is_registered}
use umbral.Identity.LinkStore.{
  first_where, find_invitation, save_invitation, link_for_subject, save_link, find_request,
  save_attempt, find_attempt, link_event, audited_then,
}
use umbral.Identity.Authorization.{AccessRequest, authorize}
use umbral.Identity.Email.{normalize_email, is_email, is_plain, is_ascii_space}
use umbral.Identity.Links.Ports.{ProviderProof, IdentityProofPort, SessionResult}
use umbral.Identity.Links.Check.{
  Outside, Fresh, find_by, checked, accept_invitation, accepted_by, is_active_for,
}
use umbral.Identity.Links.Confirm.{
  subject_event, consumed, new_session, session_event, start_session, new_link, link_user, new_user,
  activation, admit, is_of_other, has_other_email, is_refused, settle_claims, confirmed, is_issuer,
  is_complete, is_revoked, with_proof, confirm_magic_link,
}
use umbral.Identity.Links.Request.{LinkRequest, request_magic_link}
use umbral.Identity.Links.Sessions.{logout}
use umbral.Identity.Attempts.{IsTable}
use umbral.Identity.Roles.{IsSingle}
use umbral.Identity.Guarantees.Runs.{
  start, after, link_confirmed, session_ended, IdentityRun-IsSingle,
}
use umbral.Identity.Guarantees.Links.{
  started, then_called, logged_out, confirm_only_once, check_is_not_recorded,
}
use umbral.Identity.Guarantees.Sessions.{IsSessionTable, logout_ends_session}
use umbral.Identity.LinkStore.{
  attempt_for_provider_message, is_message, append_provider_audit_once, recent_requests,
}
use umbral.Identity.Invitations.{purge_requests_before}
use umbral.Identity.Links.Webhook.{
  WebhookEvent, field_or_empty, new_audit, observed_attempt, webhook_audit, observed,
  process_email_webhook,
}
use umbral.Identity.Guarantees.Webhooks.{process_email_webhook-twice}
use umbral.Identity.Guarantees.Purge.{purge_requests_before-recent_requests}
use umbral.Identity.Guarantees.Limits.{IsAnswered, request_magic_link-IsAnswered}

plain_graphic : (c : ℕ) → is_graphic c ≡ true → (c == 32) ≡ false
unfolding is_graphic
plain_graphic c h = ground arith

abbrev plain : PyText
plain = record {
  strip = λ s. s;
  lower = λ s. s;
  is_space = λ c. c == 32;
  strip_of_no_space = λ s h. refl;
  lower_of_no_upper = λ s h k. refl;
  graphic_no_space = plain_graphic;
}

abbrev address : String
address = "ana@example.org"

abbrev digest : String → ℕ
digest token = length (codes token)

abbrev outside : Outside
outside = record { py_text = plain; sha256 = digest }

abbrev good_proof : ProviderProof
good_proof = record {
  provider = "supabase";
  issuer = "issuer";
  subject = "subject";
  verified_email = address;
  verified_at = 50;
  revocation_handle = none;
}

abbrev provider : IdentityProofPort
provider = record {
  provider = "supabase";
  issuer = "issuer";
  generate_magic_link = λ attempt_id email now. raised other_exception;
  verify_magic_link = λ attempt_id token_hash now. replied good_proof;
  revokes = λ handle. true;
}

abbrev stamp : ℕ → Stamp
stamp n = record { event_id = 900 + n; correlation_id = 91; occurred_at = 92 }

abbrev fresh : Fresh
fresh = record {
  user_id = 41;
  assignment_id = 42;
  link_id = 43;
  session_id = 44;
  token = "token";
  stamp = stamp;
}

abbrev invitation : Invitation
invitation = record {
  id = 5;
  normalized_email = address;
  status = InvitationStatus.active;
  accepted_user_id = none;
  preload_source = "controlled_preload";
  created_at = 0;
  accepted_at = none;
}

abbrev link_request : MagicLinkRequest
link_request = record {
  id = 6;
  email_fingerprint = 15;
  origin_fingerprint = 9;
  decision = "eligible";
  requested_at = 40;
  purge_after = 86400000040;
  correlation_id = 91;
}

abbrev link_attempt : MagicLinkAttempt
link_attempt = record {
  id = 7;
  request_id = 6;
  subject_kind = SubjectKind.invitation;
  invitation_id = some 5;
  product_user_id = none;
  job_execution_id = none;
  state = AttemptState.issued;
  provider_generated_at = some 45;
  issued_at = some 46;
  expires_at = some 1000;
  consumed_at = none;
  superseded_at = none;
  superseded_by_id = none;
  provider_message_id = some "message";
  failure_reason = none;
}

abbrev invited : IdentityStore
invited = record {
  users = [];
  roles = [];
  sessions = [];
  audits = [];
  invitations = (5, invitation) ∷ [];
  links = [];
  requests = (6, link_request) ∷ [];
  attempts = (7, link_attempt) ∷ [];
  provider_events = [];
}

abbrev session : SessionResult
session = record { session_id = 44; user_id = 41; token = "token"; last_activity_at = 60 }

invited-IsTable : IsTable invited.attempts
unfolding Dict.get
invited-IsTable = record {
  distinct = (refl, tt);
  keyed = λ i a at. ground (arith, at, nat_eq.same_iff 7 i);
}

confirm_returns :
    (confirm_magic_link outside provider fresh 7 60 "hash" invited).1 ≡ replied session
unfolding confirm_magic_link transaction committed checked find_attempt is_issued current_and_valid
    is_before is_unset with_proof is_issuer is_complete normalize_email is_email is_plain
    is_ascii_space is_revoked confirmed find_request settle_claims find_by find_user find_invitation
    link_for_subject first_where is_of_other has_other_email is_refused is_active_for admit new_user
    activation save_user save_role accept_invitation save_invitation accepted_by subject_event
    link_event audited_then append_audit validate_event is_registered contains link_user new_link
    save_link start_session session_event consumed new_session save_attempt save_session Dict.get
    Dict.set all
confirm_returns = refl

abbrev done : IdentityStore
done = (confirm_magic_link outside provider fresh 7 60 "hash" invited).0

-- The session ends, and the link is tried again.
confirm_only_once_example :
    (f : IdentityFault) × (confirm_magic_link outside provider fresh 7 70 "hash"
        (logout digest (stamp 0) none 65 "token" done).0
      ≡ ((logout digest (stamp 0) none 65 "token" done).0, raised f))
confirm_only_once_example =
    confirm_only_once outside outside provider provider fresh fresh 7 60 70 "hash" "hash" invited
      (logout digest (stamp 0) none 65 "token" done).0 session invited-IsTable confirm_returns
      (then_called started (logged_out digest (stamp 0) none 65 "token"))

no_roles-IsSingle : IsSingle invited.roles
unfolding Dict.get
no_roles-IsSingle = record {
  distinct = tt;
  keyed = λ i a at. absurd (ground (arith, at));
  single = λ u r i j a b at_i at_j g_a g_b. absurd (ground (arith, at_i));
}

-- The invited user gets a role, and the session ends.
IdentityRun-IsSingle_example : IsSingle (logout digest (stamp 0) none 65 "token" done).0.roles
IdentityRun-IsSingle_example =
    IdentityRun-IsSingle digest invited _
      (after
        (after start
          (link_confirmed outside provider fresh 7 60 "hash" (unfold first_grant in refl)))
        (session_ended (stamp 0) none 65 "token"))
      no_roles-IsSingle

-- The link is out of date.
check_is_not_recorded_example : (transaction (checked (stamp 0) 7 1000) invited).0 ≡ invited
check_is_not_recorded_example = check_is_not_recorded (stamp 0) 7 1000 invited

abbrev ana_session : ProductSession
ana_session = record {
  id = 44;
  product_user_id = 41;
  magic_link_attempt_id = 7;
  token_digest = 5;
  last_activity_at = 60;
  revoked_at = none;
  revocation_reason = none;
}

abbrev signed_in : IdentityStore
signed_in = record invited { sessions = (44, ana_session) ∷ [] }

signed_in-IsSessionTable : IsSessionTable signed_in.sessions
unfolding Dict.get
signed_in-IsSessionTable = record {
  distinct = (refl, tt);
  keyed = λ i a at. ground (arith, at, nat_eq.same_iff 44 i);
}

abbrev session_read : AccessRequest
session_read = record {
  action = "auth.session.read";
  resource_owner_id = none;
  now = 70;
  correlation_id = none;
}

logout_ends_session_example :
    ((logout digest (stamp 0) none 65 "token" signed_in).1 ≡ replied tt)
    × ((authorize digest
          (stamp 1)
          session_read
          "token"
          (logout digest (stamp 0) none 65 "token" signed_in).0).1
        ≡ raised session_required)
logout_ends_session_example =
    logout_ends_session digest (stamp 0) (stamp 1) none 65 session_read "token" signed_in
      signed_in-IsSessionTable

abbrev second_request : LinkRequest
second_request = record {
  email = address;
  origin_fingerprint = "127.0.0.1";
  correlation_id = 91;
  now = 100;
  request_id = 61;
  attempt_id = 71;
  stamp = stamp;
}

request_magic_link-IsAnswered_example :
    IsAnswered plain digest second_request invited
      (request_magic_link plain digest none second_request invited)
request_magic_link-IsAnswered_example =
    request_magic_link-IsAnswered plain digest none second_request invited

abbrev delivered : Reply (Option WebhookEvent)
delivered =
    replied (some (("id", "evt") ∷ ("type", "email.delivered") ∷ ("email_id", "message") ∷ []))

abbrev no_uuid : String → Option ℕ
no_uuid s = none

delivered_is_recorded :
    (process_email_webhook "resend" no_uuid (stamp 0) delivered invited).1 ≡ replied true
unfolding process_email_webhook transaction committed observed webhook_audit field_or_empty
    observed_attempt attempt_for_provider_message first_where is_message find_request new_audit
    validate_event is_registered append_provider_audit_once contains Dict.get
delivered_is_recorded = refl

process_email_webhook-twice_example :
    process_email_webhook "resend" no_uuid
      (stamp 1)
      delivered
      (process_email_webhook "resend" no_uuid (stamp 0) delivered invited).0
    ≡ ((process_email_webhook "resend" no_uuid (stamp 0) delivered invited).0, replied false)
process_email_webhook-twice_example =
    process_email_webhook-twice "resend" no_uuid (stamp 0) (stamp 1) delivered invited
      delivered_is_recorded

-- A second request, which is old enough to be deleted.
abbrev crowded : IdentityStore
crowded = record invited {
  requests =
      (6, link_request)
      ∷ (8, record link_request { id = 8; requested_at = 86400000000; purge_after = 172800000000 })
      ∷ [];
}

purge_requests_before-recent_requests_example :
    recent_requests
      (λ r. r.email_fingerprint)
      15
      86500000000
      (purge_requests_before 86400000050 crowded).0
    ≡ recent_requests (λ r. r.email_fingerprint) 15 86500000000 crowded
purge_requests_before-recent_requests_example =
    purge_requests_before-recent_requests (λ r. r.email_fingerprint) 15 86500000000 86400000050
      crowded (omega arith) (omega arith, (omega arith, tt))
