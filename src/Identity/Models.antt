-- ===== src/Identity/Models.antt =====
-- The identity records (src/umbral/domain/identity/models.py), and the failures of the identity services
-- (src/umbral/application/identity/contracts.py). Times are microseconds, identifiers, digests and
-- fingerprints numbers.
use umbral.Prelude.{
  ℕ, ◌+◌, ◌*◌, String, Bool, true, false, List, Option, none, some, ◌&&◌, leb, ltb,
}
use umbral.Jobs.Failures.{second}

pub data UserStatus : Type 0 where
  active disabled : UserStatus

pub record ProductUser : Type 0 where
  pub id : ℕ
  pub normalized_email : String
  pub status : UserStatus
  pub disabled_reason : Option String
  pub created_at : ℕ
  pub status_changed_at : ℕ

pub record RoleAssignment : Type 0 where
  pub id : ℕ
  pub product_user_id : ℕ
  pub role : String
  pub granted_at : ℕ
  pub revoked_at : Option ℕ
  pub reason : String

unfoldable pub is_unset : Option ℕ → Bool
is_unset none = true
is_unset (some t) = false

-- `RoleAssignment.active`
unfoldable pub is_active : RoleAssignment → Bool
unfolding is_unset
is_active a = is_unset a.revoked_at

pub record ProductSession : Type 0 where
  pub id : ℕ
  pub product_user_id : ℕ
  pub magic_link_attempt_id : ℕ
  pub token_digest : ℕ
  pub last_activity_at : ℕ
  pub revoked_at : Option ℕ
  pub revocation_reason : Option String

abbrev pub idle_period : ℕ
idle_period = 7 * 86400 * second

unfoldable pub is_idle_expired : ℕ → ProductSession → Bool
is_idle_expired now session = leb (session.last_activity_at + idle_period) now

pub data InvitationStatus : Type 0 where
  active accepted : InvitationStatus

pub record Invitation : Type 0 where
  pub id : ℕ
  pub normalized_email : String
  pub status : InvitationStatus
  pub accepted_user_id : Option ℕ
  pub preload_source : String
  pub created_at : ℕ
  pub accepted_at : Option ℕ

pub record ExternalIdentityLink : Type 0 where
  pub id : ℕ
  pub product_user_id : ℕ
  pub provider : String
  pub provider_issuer : String
  pub provider_subject : String
  pub verified_normalized_email : String
  pub verified_at : ℕ

pub record MagicLinkRequest : Type 0 where
  pub id : ℕ
  pub email_fingerprint : ℕ
  pub origin_fingerprint : ℕ
  pub decision : String
  pub requested_at : ℕ
  pub purge_after : ℕ
  pub correlation_id : ℕ

pub data AttemptState : Type 0 where
  pending issuing issued consumed superseded expired failed : AttemptState

pub data SubjectKind : Type 0 where
  invitation product_user : SubjectKind

pub record MagicLinkAttempt : Type 0 where
  pub id : ℕ
  pub request_id : ℕ
  pub subject_kind : SubjectKind
  pub invitation_id : Option ℕ
  pub product_user_id : Option ℕ
  pub job_execution_id : Option ℕ
  pub state : AttemptState
  pub provider_generated_at : Option ℕ
  pub issued_at : Option ℕ
  pub expires_at : Option ℕ
  pub consumed_at : Option ℕ
  pub superseded_at : Option ℕ
  pub superseded_by_id : Option ℕ
  pub provider_message_id : Option String
  pub failure_reason : Option String

unfoldable pub is_issued : AttemptState → Bool
is_issued AttemptState.issued = true
is_issued _ = false

-- `utc(now) < utc(self.expires_at)`, with a missing time refused.
unfoldable pub is_before : ℕ → Option ℕ → Bool
is_before now none = false
is_before now (some t) = ltb now t

unfoldable pub current_and_valid : ℕ → MagicLinkAttempt → Bool
unfolding is_issued is_before is_unset
current_and_valid now a =
    is_issued a.state
    && is_before now a.expires_at
    && is_unset a.consumed_at
    && is_unset a.superseded_at

pub record AccessAuditEvent : Type 0 where
  pub id : ℕ
  pub event_type : String
  pub result : String
  pub reason : String
  pub correlation_id : ℕ
  pub occurred_at : ℕ
  pub actor_user_id : Option ℕ
  pub subject_user_id : Option ℕ
  pub invitation_id : Option ℕ
  pub request_id : Option ℕ
  pub attempt_id : Option ℕ
  pub session_id : Option ℕ
  pub role_assignment_id : Option ℕ
  pub action : Option String
  pub policy_version : Option String
  pub provider : Option String
  pub provider_event_id : Option String

pub record CurrentPrincipal : Type 0 where
  pub user_id : ℕ
  pub roles : List String
  pub last_activity_at : ℕ

-- What an identity service raises: an `IdentityError` (with the detail of `link_unavailable` apart), a
-- `ValueError`, or what else a provider raises.
pub data IdentityFault : Type 0 where
  identity_error : String → ℕ → String → IdentityFault
  link_unavailable : String → IdentityFault
  other_exception : IdentityFault
  invalid_value : IdentityFault

abbrev pub session_required : IdentityFault
session_required = identity_error "auth.session_required" 401 "sign_in"

abbrev pub access_denied : IdentityFault
access_denied = identity_error "auth.access_denied" 403 "contact_support"

pub data Reply {ℓ} (A : Type ℓ) : Type ℓ where
  replied : A → Reply A
  raised : IdentityFault → Reply A

-- What `uuid4()` and `datetime.now()` give to the writer of an audit event.
pub record Stamp : Type 0 where
  pub event_id : ℕ
  pub correlation_id : ℕ
  pub occurred_at : ℕ
