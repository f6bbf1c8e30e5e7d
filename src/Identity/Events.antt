-- ===== src/Identity/Events.antt =====
-- The registry of identity events (src/umbral/domain/identity/events.py). The test of the names of an
-- event's fields is left out: the callers that are modelled pass fixed names.
use umbral.Prelude.{
  String, Bool, false, List, [], ◌∷◌, none, some, string_eq, not, contains, if◌then◌else◌,
}
use umbral.Prelude.Dict
use umbral.Prelude.Dict.{Dict}
use umbral.Identity.Models.{Reply, replied, raised, invalid_value}

abbrev accepted_only : List String
accepted_only = "accepted" ∷ []

abbrev denied_only : List String
denied_only = "denied" ∷ []

abbrev accepted_or_denied : List String
accepted_or_denied = "accepted" ∷ "denied" ∷ []

abbrev pub event_results : Dict String (List String)
event_results =
    ("invitation.preloaded.v1", accepted_or_denied)
    ∷ ("magic_link.requested.v1", accepted_or_denied)
    ∷ ("magic_link.issue_started.v1", accepted_only)
    ∷ ("magic_link.issued.v1", accepted_only)
    ∷ ("magic_link.issue_failed.v1", "failed" ∷ [])
    ∷ ("magic_link.delivery_observed.v1", "observed" ∷ [])
    ∷ ("provider.event_ignored.v1", "observed" ∷ [])
    ∷ ("magic_link.expired.v1", denied_only)
    ∷ ("magic_link.superseded.v1", denied_only)
    ∷ ("magic_link.consumed.v1", accepted_only)
    ∷ ("magic_link.reused.v1", denied_only)
    ∷ ("identity.linked.v1", accepted_only)
    ∷ ("identity.conflict.v1", denied_only)
    ∷ ("user.activated.v1", accepted_only)
    ∷ ("user.status_changed.v1", accepted_or_denied)
    ∷ ("role.granted.v1", accepted_or_denied)
    ∷ ("role.revoked.v1", accepted_or_denied)
    ∷ ("session.started.v1", accepted_only)
    ∷ ("session.ended.v1", "accepted" ∷ "observed" ∷ [])
    ∷ ("authorization.allowed.v1", "allowed" ∷ [])
    ∷ ("authorization.denied.v1", denied_only)
    ∷ []

abbrev pub reasons : List String
reasons =
    "eligible" ∷ "not_eligible" ∷ "email_rate_limited" ∷ "origin_rate_limited" ∷ "both_rate_limited"
    ∷ "provider_accepted" ∷ "provider_rejected" ∷ "provider_unavailable" ∷ "provider_result_unknown"
    ∷ "email_accepted" ∷ "email_delivered" ∷ "email_delayed" ∷ "email_bounced" ∷ "email_complained"
    ∷ "email_rejected" ∷ "email_unavailable" ∷ "link_invalid" ∷ "link_expired" ∷ "link_consumed"
    ∷ "link_superseded" ∷ "issuer_mismatch" ∷ "email_mismatch" ∷ "subject_conflict"
    ∷ "product_email_conflict" ∷ "missing_verified_attribute" ∷ "user_inactive" ∷ "session_missing"
    ∷ "session_revoked" ∷ "session_idle_expired" ∷ "action_unknown" ∷ "role_unknown"
    ∷ "role_not_allowed" ∷ "owner_missing" ∷ "owner_ambiguous" ∷ "owner_mismatch" ∷ "logout"
    ∷ "administrator_change" ∷ "zero_admin_bootstrap" ∷ "provider_signature_invalid" ∷ "ignored"
    ∷ []

-- `event_type in EVENT_RESULTS and result in EVENT_RESULTS[event_type]`
unfoldable pub is_registered : String → String → Bool
is_registered event_type result = elim (Dict.get event_type event_results) [
  | none ↦ false
  | some results ↦ contains result results
]

unfoldable pub validate_event : String → String → String → Reply (Unit {0})
unfolding is_registered
validate_event event_type result reason =
    if not (is_registered event_type result)
    then raised invalid_value
    else if not (contains reason reasons)
    then raised invalid_value
    else replied tt
