-- ===== src/Identity/LinkStore.antt =====
-- `InMemoryIdentityStore` (src/umbral/infrastructure/db/repositories/identity.py): invitations, links to
-- providers, requests and attempts of magic links, and the events of providers.
use umbral.Prelude.{
  ℕ, ◌+◌, ◌*◌, String, Bool, true, false, ◌&&◌, List, [], ◌∷◌, Option, none, some, ◌==◌, nat_eq,
  string_eq, pair_eq, ltb, length, keep, contains, if◌then◌else◌,
}
use umbral.Prelude.Dict
use umbral.Jobs.Failures.{second}
use umbral.Identity.Models.{
  ProductUser, Invitation, ExternalIdentityLink, MagicLinkRequest, MagicLinkAttempt, is_issued,
  AccessAuditEvent, Reply, replied, raised, Stamp,
}
use umbral.Identity.Events.{validate_event}
use umbral.Identity.Store.{IdentityStore, append_audit}

-- `next(... for item in table.values() if test(item), None)`
unfoldable pub first_where {ℓ} : {A : Type ℓ} → (A → Bool) → List (ℕ × A) → Option A
first_where test [] = none
first_where test ((i, a) ∷ rest) = if test a then some a else first_where test rest

unfoldable pub invitation_for_email : String → IdentityStore → Option Invitation
unfolding first_where
invitation_for_email email s = first_where (λ item. item.normalized_email == email) s.invitations

unfoldable pub find_invitation : ℕ → IdentityStore → Option Invitation
find_invitation id s = Dict.get id s.invitations

unfoldable pub save_invitation : Invitation → IdentityStore → IdentityStore
save_invitation item s = record s { invitations = Dict.set item.id item s.invitations }

unfoldable pub user_for_email : String → IdentityStore → Option ProductUser
unfolding first_where
user_for_email email s = first_where (λ item. item.normalized_email == email) s.users

unfoldable pub link_for_subject :
    String → String → String → IdentityStore → Option ExternalIdentityLink
unfolding first_where
link_for_subject provider issuer subject s =
    first_where
      (λ item.
        (item.provider == provider && item.provider_issuer == issuer)
        && item.provider_subject == subject)
      s.links

unfoldable pub save_link : ExternalIdentityLink → IdentityStore → IdentityStore
save_link item s = record s { links = Dict.set item.id item s.links }

unfoldable pub save_request : MagicLinkRequest → IdentityStore → IdentityStore
save_request item s = record s { requests = Dict.set item.id item s.requests }

unfoldable pub find_request : ℕ → IdentityStore → Option MagicLinkRequest
find_request id s = Dict.get id s.requests

unfoldable pub save_attempt : MagicLinkAttempt → IdentityStore → IdentityStore
save_attempt item s = record s { attempts = Dict.set item.id item s.attempts }

unfoldable pub find_attempt : ℕ → IdentityStore → Option MagicLinkAttempt
find_attempt id s = Dict.get id s.attempts

-- An id that is not asked for matches.
unfoldable pub is_asked : Option ℕ → Option ℕ → Bool
is_asked none id = true
is_asked (some wanted) none = false
is_asked (some wanted) (some id) = id == wanted

-- `item.issued_at or datetime.min`
unfoldable pub issued_key : MagicLinkAttempt → ℕ
issued_key item = elim item.issued_at [ none ↦ 0 | some t ↦ t ]

-- `max(candidates, key=..., default=None)`: the first of the greatest.
unfoldable pub latest :
    Option MagicLinkAttempt → List (ℕ × MagicLinkAttempt) → Option MagicLinkAttempt
unfolding issued_key
latest best [] = best
latest none ((i, a) ∷ rest) = latest (some a) rest
latest (some b) ((i, a) ∷ rest) =
    latest (some (if ltb (issued_key b) (issued_key a) then a else b)) rest

unfoldable pub current_attempt : Option ℕ → Option ℕ → IdentityStore → Option MagicLinkAttempt
unfolding is_issued is_asked latest
current_attempt invitation_id product_user_id s = latest none (
    keep
      (λ entry.
        (is_issued entry.1.state && is_asked invitation_id entry.1.invitation_id)
        && is_asked product_user_id entry.1.product_user_id)
      s.attempts)

-- A quarter of an hour.
abbrev pub limiter_window : ℕ
limiter_window = 15 * 60 * second

-- The requests of a fingerprint that are not older than the window.
unfoldable pub recent_requests : (MagicLinkRequest → ℕ) → ℕ → ℕ → IdentityStore → ℕ
recent_requests field fingerprint now s = length (
    keep (λ entry. field entry.1 == fingerprint && ltb now (entry.1.requested_at + limiter_window))
      s.requests)

unfoldable pub is_message : String → Option String → Bool
is_message message_id none = false
is_message message_id (some m) = m == message_id

unfoldable pub attempt_for_provider_message : String → IdentityStore → Option MagicLinkAttempt
unfolding first_where is_message
attempt_for_provider_message message_id s =
    first_where (λ item. is_message message_id item.provider_message_id) s.attempts

unfoldable pub append_provider_audit_once :
    String → String → Option AccessAuditEvent → IdentityStore → IdentityStore × Bool
unfolding append_audit
append_provider_audit_once provider event_id audit_event s =
    if contains (provider, event_id) s.provider_events
    then (s, false)
    else let noted = record s { provider_events = (provider, event_id) ∷ s.provider_events } in
      elim audit_event [ none ↦ (noted, true) | some event ↦ (append_audit event noted, true) ]

-- `_new_audit` of src/umbral/application/identity/access.py without its optional fields.
unfoldable pub link_event : Stamp → String → String → String → ℕ → AccessAuditEvent
link_event stamp event_type result reason correlation_id = record {
  id = stamp.event_id;
  event_type = event_type;
  result = result;
  reason = reason;
  correlation_id = correlation_id;
  occurred_at = stamp.occurred_at;
  actor_user_id = none;
  subject_user_id = none;
  invitation_id = none;
  request_id = none;
  attempt_id = none;
  session_id = none;
  role_assignment_id = none;
  action = none;
  policy_version = none;
  provider = none;
  provider_event_id = none;
}

-- `_audit`, and what follows it.
unfoldable pub audited_then {ℓ} :
    {A : Type ℓ}
    → AccessAuditEvent
    → (IdentityStore → IdentityStore × Reply A)
    → IdentityStore
    → IdentityStore × Reply A
unfolding append_audit validate_event
audited_then event next s = elim (validate_event event.event_type event.result event.reason) [
  | raised f ↦ (s, raised f)
  | replied u ↦ next (append_audit event s)
]
