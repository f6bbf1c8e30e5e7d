-- ===== src/Identity/Links/Request.antt =====
-- `IdentityAccess.request_magic_link` (src/umbral/application/identity/access.py): the limiter, and what a
-- request leaves. Every request that does not raise returns the same neutral result.
use Prim.Native.String.{String}
use umbral.Prelude.{
  ℕ, zero, suc, ◌+◌, ◌*◌, Bool, true, false, ◌&&◌, ◌||◌, not, Option, none, some, ◌==◌, nat_eq,
  string_eq, leb, if◌then◌else◌,
}
use umbral.Text.{PyText}
use umbral.Jobs.Failures.{second}
use umbral.Identity.Models.{
  ProductUser, InvitationStatus, Invitation, MagicLinkRequest, AttemptState, SubjectKind,
  MagicLinkAttempt, AccessAuditEvent, Reply, replied, Stamp,
}
use umbral.Identity.Store.{IdentityStore, transaction}
use umbral.Identity.LinkStore.{
  invitation_for_email, user_for_email, recent_requests, save_request, save_attempt, link_event,
  audited_then,
}
use umbral.Identity.Email.{normalize_email}
use umbral.Identity.Authorization.{is_enabled}

-- A call: its arguments, what `uuid4()` and the store's keyed hash return, and the stamps of its events.
pub record LinkRequest : Type 0 where
  pub email : String
  pub origin_fingerprint : String
  pub correlation_id : ℕ
  pub now : ℕ
  pub request_id : ℕ
  pub attempt_id : ℕ
  pub stamp : ℕ → Stamp

-- The first characters of a text.
truncated : ℕ → String → String
truncated zero s = String.[]
truncated (suc n) String.[] = String.[]
truncated (suc n) (String.◌∷◌ c s) = String.◌∷◌ c (truncated n s)

unfoldable pub normalized_or_raw : PyText → String → String
unfolding normalize_email truncated
normalized_or_raw t email = elim (normalize_email t email) [
  | some value ↦ value
  | none ↦ truncated 320 (t.lower (t.strip email))
]

unfoldable pub is_open : Option Invitation → Bool
is_open none = false
is_open (some i) = elim i.status [
  | InvitationStatus.active ↦ true
  | InvitationStatus.accepted ↦ false
]

unfoldable pub is_member : Option ProductUser → Bool
unfolding is_enabled
is_member none = false
is_member (some user) = is_enabled user.status

unfoldable pub decide : Bool → Bool → Bool → String
decide email_limited origin_limited eligible =
    if email_limited && origin_limited
    then "both_limited"
    else if email_limited
    then "email_limited"
    else if origin_limited
    then "origin_limited"
    else if eligible
    then "eligible"
    else "not_eligible"

unfoldable pub decision_reason : String → String
decision_reason decision =
    if decision == "eligible"
    then "eligible"
    else if decision == "email_limited"
    then "email_rate_limited"
    else if decision == "origin_limited"
    then "origin_rate_limited"
    else if decision == "both_limited"
    then "both_rate_limited"
    else "not_eligible"

unfoldable pub invitation_id_of : Option Invitation → Option ℕ
invitation_id_of none = none
invitation_id_of (some i) = some i.id

unfoldable pub member_id_of : Option ProductUser → Option ℕ
member_id_of none = none
member_id_of (some user) = some user.id

unfoldable pub new_attempt : LinkRequest → Option Invitation → Option ProductUser → MagicLinkAttempt
unfolding is_open invitation_id_of member_id_of
new_attempt q invitation user = record {
  id = q.attempt_id;
  request_id = q.request_id;
  subject_kind = if is_open invitation then SubjectKind.invitation else SubjectKind.product_user;
  invitation_id = if is_open invitation then invitation_id_of invitation else none;
  product_user_id = if is_open invitation then none else member_id_of user;
  job_execution_id = none;
  state = AttemptState.pending;
  provider_generated_at = none;
  issued_at = none;
  expires_at = none;
  consumed_at = none;
  superseded_at = none;
  superseded_by_id = none;
  provider_message_id = none;
  failure_reason = none;
}

module _ (t : PyText) (fingerprint : String → ℕ) where
  -- The job runtime: nothing, or a function that submits the attempt's job and says its execution, if
  -- it does not raise.
  abbrev pub Submission : Type 0
  Submission = Option (ℕ → ℕ → Option ℕ)

  unfoldable pub submit_attempt :
      Submission → LinkRequest → MagicLinkAttempt → IdentityStore → IdentityStore × Reply (Unit {0})
  unfolding save_attempt link_event audited_then
  submit_attempt none q attempt s = (s, replied tt)
  submit_attempt (some submit) q attempt s = elim (submit attempt.id q.correlation_id) [
    | some execution_id ↦
        (save_attempt (record attempt { job_execution_id = some execution_id }) s, replied tt)
    | none ↦
        audited_then
          (record (link_event (q.stamp 1) "magic_link.issue_failed.v1" "failed"
            "provider_unavailable" q.correlation_id) { attempt_id = some attempt.id })
          (λ u. (u, replied tt))
          (save_attempt
            (record attempt {
              state = AttemptState.failed;
              failure_reason = some "job_submission_failed";
            })
            s)
  ]

  unfoldable pub decision_of : LinkRequest → IdentityStore → String
  unfolding normalized_or_raw recent_requests invitation_for_email user_for_email is_open is_member
      decide
  decision_of q s =
      let email = normalized_or_raw t q.email in
      decide (leb 3 (recent_requests (λ r. r.email_fingerprint) (fingerprint email) q.now s))
        (leb 20
          (recent_requests (λ r. r.origin_fingerprint) (fingerprint q.origin_fingerprint) q.now s))
        (is_open (invitation_for_email email s) || is_member (user_for_email email s))

  unfoldable pub new_request : LinkRequest → String → MagicLinkRequest
  unfolding normalized_or_raw
  new_request q decision = record {
    id = q.request_id;
    email_fingerprint = fingerprint (normalized_or_raw t q.email);
    origin_fingerprint = fingerprint q.origin_fingerprint;
    decision = decision;
    requested_at = q.now;
    purge_after = q.now + 24 * 3600 * second;
    correlation_id = q.correlation_id;
  }

  unfoldable pub requested_event : LinkRequest → String → AccessAuditEvent
  unfolding link_event decision_reason
  requested_event q decision =
      record (link_event (q.stamp 0) "magic_link.requested.v1"
        (if decision == "eligible" then "accepted" else "denied") (decision_reason decision)
        q.correlation_id) { request_id = some q.request_id }

  -- From `if decision != "eligible"` on.
  unfoldable pub start_attempt :
      Submission
      → LinkRequest
      → String
      → Option Invitation
      → Option ProductUser
      → IdentityStore
      → IdentityStore × Reply (Unit {0})
  unfolding new_attempt save_attempt submit_attempt
  start_attempt runtime q decision invitation user s =
      if not (decision == "eligible")
      then (s, replied tt)
      else submit_attempt runtime q (new_attempt q invitation user)
          (save_attempt (new_attempt q invitation user) s)

  -- From the save of the request on.
  unfoldable pub record_request :
      Submission
      → LinkRequest
      → String
      → Option Invitation
      → Option ProductUser
      → IdentityStore
      → IdentityStore × Reply (Unit {0})
  unfolding save_request new_request requested_event audited_then start_attempt
  record_request runtime q decision invitation user s =
      audited_then (requested_event q decision) (start_attempt runtime q decision invitation user)
        (save_request (new_request q decision) s)

  unfoldable pub request_magic_link :
      Submission → LinkRequest → IdentityStore → IdentityStore × Reply (Unit {0})
  unfolding transaction decision_of normalized_or_raw invitation_for_email user_for_email
      record_request
  request_magic_link runtime q = transaction λ s.
      let email = normalized_or_raw t q.email in
      record_request runtime q (decision_of q s) (invitation_for_email email s)
        (user_for_email email s) s
