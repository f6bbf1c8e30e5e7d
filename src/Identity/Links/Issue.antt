-- ===== src/Identity/Links/Issue.antt =====
-- `IdentityAccess.issue_attempt` (src/umbral/application/identity/access.py). `urlparse` and the port of the
-- emails are arguments. The texts of UUIDs are in the order of their numbers.
use Prim.Native.String.{String}
use umbral.Prelude.{ℕ, Bool, ◌&&◌, not, Option, none, some, ◌==◌, nat_eq, string_eq, if◌then◌else◌}
use umbral.Identity.Models.{
  MagicLinkRequest, MagicLinkAttempt, identity_error, link_unavailable, Reply, replied, raised,
  Stamp,
}
use umbral.Identity.Store.{IdentityStore, find_user, transaction}
use umbral.Identity.LinkStore.{
  find_invitation, find_request, save_attempt, find_attempt, current_attempt, audited_then,
}
use umbral.Identity.Links.Ports.{GeneratedMagicLink, EmailAcceptance, IdentityProofPort, EmailPort}
use umbral.Identity.Links.Check.{find_by}
use umbral.Identity.Links.Attempt.{
  is_pending_state, sending_reason, address_of, is_withdrawn, failed_with, issuing, superseded_by,
  issued, is_not_older, attempt_event, is_correlated,
}

pub record Url : Type 0 where
  pub scheme : String
  pub netloc : String
  pub path : String

-- The code outside of the service, and its configuration.
pub record Issuer : Type 0 where
  pub urlparse : String → Url
  pub capture_origin : String
  pub provider : IdentityProofPort
  pub email : EmailPort

unfoldable pub is_capture : Issuer → String → Bool
is_capture c url =
    let expected = c.urlparse c.capture_origin in
    let actual = c.urlparse url in
    (actual.scheme == expected.scheme && actual.netloc == expected.netloc)
    && actual.path == "/auth/capture"

module _ (c : Issuer) (stamp : ℕ → Stamp) (attempt_id now : ℕ) where
  unfoldable pub not_eligible :
      MagicLinkAttempt
      → MagicLinkRequest
      → IdentityStore
      → IdentityStore × Reply (Option (String × MagicLinkRequest))
  unfolding failed_with save_attempt attempt_event audited_then
  not_eligible attempt request s =
      audited_then
        (attempt_event (stamp 0) "magic_link.issue_failed.v1" "failed" "not_eligible" attempt_id
          request)
        (λ t. (t, replied none)) (save_attempt (failed_with "not_eligible" attempt) s)

  -- From the test of the correlation on.
  unfoldable pub begin :
      Option ℕ
      → MagicLinkAttempt
      → MagicLinkRequest
      → IdentityStore
      → IdentityStore × Reply (Option (String × MagicLinkRequest))
  unfolding find_by find_user find_invitation address_of is_withdrawn is_correlated not_eligible
      issuing save_attempt
  begin correlation_id attempt request s =
      let invitation = find_by find_invitation attempt.invitation_id s in
      let user = find_by find_user attempt.product_user_id s in
      if not (is_correlated correlation_id request.correlation_id)
      then (s, raised (identity_error "auth.request_invalid" 400 "none"))
      else if is_withdrawn invitation user
      then not_eligible attempt request s
      else elim (address_of invitation user) [
        | none ↦ not_eligible attempt request s
        | some address ↦ (save_attempt (issuing attempt) s, replied (some (address, request)))
      ]

  -- The first transaction: the address that the link is for and the request, if the attempt goes on.
  unfoldable pub begun :
      Option ℕ → IdentityStore → IdentityStore × Reply (Option (String × MagicLinkRequest))
  unfolding find_attempt find_request is_pending_state begin
  begun correlation_id s = elim (find_attempt attempt_id s) [
    | none ↦ (s, replied none)
    | some attempt ↦
        if not (is_pending_state attempt.state)
        then (s, replied none)
        else elim (find_request attempt.request_id s) [
          | none ↦ (s, replied none)
          | some request ↦ begin correlation_id attempt request s
        ]
  ]

  -- The calls of the providers.
  unfoldable pub sent : String → Reply (GeneratedMagicLink × EmailAcceptance)
  unfolding is_capture
  sent address = elim (c.provider.generate_magic_link attempt_id address now) [
    | raised f ↦ raised f
    | replied generated ↦
        if not (is_capture c generated.capture_url)
        then raised (identity_error "auth.link_unavailable" 503 "retry_later")
        else elim (c.email.send_magic_link attempt_id address generated now) [
          | raised f ↦ raised f
          | replied acceptance ↦ replied (generated, acceptance)
        ]
  ]

  -- The transaction after an `IdentityError`.
  unfoldable pub not_sent : String → IdentityStore → IdentityStore × Reply (Unit {0})
  unfolding find_attempt find_request failed_with save_attempt attempt_event audited_then
      sending_reason
  not_sent code s = elim (find_attempt attempt_id s) [
    | none ↦ (s, replied tt)
    | some attempt ↦
        let reason = sending_reason code in
        let saved = save_attempt (failed_with reason attempt) s in
        elim (find_request attempt.request_id s) [
          | none ↦ (saved, replied tt)
          | some request ↦
              audited_then
                (attempt_event (stamp 0) "magic_link.issue_failed.v1" "failed" reason attempt_id
                  request)
                (λ t. (t, replied tt)) saved
        ]
  ]

  unfoldable pub issue :
      GeneratedMagicLink
      → EmailAcceptance
      → MagicLinkAttempt
      → IdentityStore
      → IdentityStore × Reply (Unit {0})
  unfolding issued save_attempt find_request attempt_event audited_then
  issue generated acceptance attempt s =
      let saved = save_attempt (issued generated acceptance attempt) s in
      elim (find_request attempt.request_id s) [
        | none ↦ (saved, replied tt)
        | some request ↦
            audited_then
              (attempt_event (stamp 1) "magic_link.issued.v1" "accepted" "email_accepted" attempt_id
                request)
              (λ t. (t, replied tt)) saved
      ]

  -- Another attempt of the subject is issued: the later of their requests keeps its link.
  unfoldable pub replace :
      GeneratedMagicLink
      → EmailAcceptance
      → MagicLinkAttempt
      → MagicLinkAttempt
      → IdentityStore
      → IdentityStore × Reply (Unit {0})
  unfolding find_request is_not_older superseded_by save_attempt attempt_event audited_then issue
  replace generated acceptance attempt current s = elim (find_request current.request_id s) [
    | none ↦ (s, replied tt)
    | some current_request ↦ elim (find_request attempt.request_id s) [
      | none ↦ (s, replied tt)
      | some attempt_request ↦
          let supersede = λ (id : ℕ) (request : MagicLinkRequest).
            attempt_event (stamp 0) "magic_link.superseded.v1" "denied" "link_superseded" id
              request in
          if is_not_older current_request attempt_request
          then audited_then (supersede attempt.id attempt_request) (λ t. (t, replied tt))
              (save_attempt (superseded_by current.id acceptance.accepted_at attempt) s)
          else audited_then (supersede current.id current_request)
              (issue generated acceptance attempt)
              (save_attempt (superseded_by attempt.id acceptance.accepted_at current) s)
    ]
  ]

  -- The last transaction.
  unfoldable pub accepted :
      GeneratedMagicLink × EmailAcceptance → IdentityStore → IdentityStore × Reply (Unit {0})
  unfolding find_attempt current_attempt replace issue
  accepted (generated, acceptance) s = elim (find_attempt attempt_id s) [
    | none ↦ (s, replied tt)
    | some attempt ↦ elim (current_attempt attempt.invitation_id attempt.product_user_id s) [
      | none ↦ issue generated acceptance attempt s
      | some current ↦
          if current.id == attempt.id
          then issue generated acceptance attempt s
          else replace generated acceptance attempt current s
    ]
  ]

  -- After the calls: an exception that is no `IdentityError` leaves the service.
  unfoldable pub after_calls :
      Reply (GeneratedMagicLink × EmailAcceptance)
      → IdentityStore
      → IdentityStore × Reply (Unit {0})
  unfolding transaction not_sent accepted
  after_calls (replied r) s = transaction (accepted r) s
  after_calls (raised (identity_error code status recovery)) s = transaction (not_sent code) s
  after_calls (raised (link_unavailable detail)) s =
      transaction (not_sent "auth.link_unavailable") s
  after_calls (raised f) s = (s, raised f)

  unfoldable pub issue_attempt : Option ℕ → IdentityStore → IdentityStore × Reply (Unit {0})
  unfolding transaction begun sent after_calls
  issue_attempt correlation_id s =
      let (t, r) = transaction (begun correlation_id) s in
      elim r [
        | raised f ↦ (t, raised f)
        | replied none ↦ (t, replied tt)
        | replied (some (address, request)) ↦ after_calls (sent address) t
      ]
