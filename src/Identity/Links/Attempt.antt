-- ===== src/Identity/Links/Attempt.antt =====
-- What the issue of a link says and writes of an attempt (src/umbral/application/identity/access.py,
-- `issue_attempt`).
use Prim.Native.String.{String}
use umbral.Prelude.{
  ℕ, ◌+◌, ◌*◌, min, Bool, true, false, ◌&&◌, ◌||◌, not, Option, none, some, ◌==◌, nat_eq, string_eq,
  ltb, leb, if◌then◌else◌,
}
use umbral.Jobs.Failures.{second}
use umbral.Identity.Models.{
  ProductUser, Invitation, MagicLinkRequest, AttemptState, MagicLinkAttempt, AccessAuditEvent,
  Stamp,
}
use umbral.Identity.LinkStore.{link_event}
use umbral.Identity.Links.Ports.{GeneratedMagicLink, EmailAcceptance}
use umbral.Identity.Links.Request.{is_open, is_member}

unfoldable pub is_pending_state : AttemptState → Bool
is_pending_state AttemptState.pending = true
is_pending_state _ = false

-- `value.endswith(suffix)`
ends_with : String → String → Bool
ends_with suffix String.[] = suffix == ""
ends_with suffix (String.◌∷◌ c s) =
    let later = ends_with suffix s in String.◌∷◌ c s == suffix || later

-- The reason of an attempt whose calls raised an `IdentityError`.
unfoldable pub sending_reason : String → String
unfolding ends_with
sending_reason code =
    if ends_with "provider_unavailable" code then "provider_unavailable" else "provider_rejected"

-- `invitation.normalized_email if invitation else user.normalized_email if user else None`
unfoldable pub address_of : Option Invitation → Option ProductUser → Option String
address_of (some i) user = some i.normalized_email
address_of none (some user) = some user.normalized_email
address_of none none = none

-- `(invitation and invitation.status != "active") or (user and user.status != "active")`
unfoldable pub is_withdrawn : Option Invitation → Option ProductUser → Bool
unfolding is_open is_member
is_withdrawn none none = false
is_withdrawn none (some user) = not (is_member (some user))
is_withdrawn (some i) none = not (is_open (some i))
is_withdrawn (some i) (some user) = not (is_open (some i)) || not (is_member (some user))

unfoldable pub failed_with : String → MagicLinkAttempt → MagicLinkAttempt
failed_with reason attempt = record attempt {
  state = AttemptState.failed;
  failure_reason = some reason;
}

unfoldable pub issuing : MagicLinkAttempt → MagicLinkAttempt
issuing attempt = record attempt { state = AttemptState.issuing }

unfoldable pub superseded_by : ℕ → ℕ → MagicLinkAttempt → MagicLinkAttempt
superseded_by other accepted_at attempt = record attempt {
  state = AttemptState.superseded;
  superseded_at = some accepted_at;
  superseded_by_id = some other;
}

unfoldable pub issued : GeneratedMagicLink → EmailAcceptance → MagicLinkAttempt → MagicLinkAttempt
issued generated acceptance attempt = record attempt {
  state = AttemptState.issued;
  provider_generated_at = some generated.generated_at;
  issued_at = some acceptance.accepted_at;
  expires_at = some (min generated.expires_at (generated.generated_at + 15 * 60 * second));
  provider_message_id = some acceptance.message_id;
}

-- `current_key >= attempt_key`
unfoldable pub is_not_older : MagicLinkRequest → MagicLinkRequest → Bool
is_not_older current attempt =
    ltb attempt.requested_at current.requested_at
    || (current.requested_at == attempt.requested_at && leb attempt.id current.id)

-- An event of an attempt.
unfoldable pub attempt_event :
    Stamp → String → String → String → ℕ → MagicLinkRequest → AccessAuditEvent
unfolding link_event
attempt_event stamp event_type result reason attempt_id request =
    record (link_event stamp event_type result reason request.correlation_id) {
      attempt_id = some attempt_id;
    }

-- `correlation_id is None or request.correlation_id == correlation_id`
unfoldable pub is_correlated : Option ℕ → ℕ → Bool
is_correlated none id = true
is_correlated (some wanted) id = id == wanted
