-- ===== src/Identity/Links/Webhook.antt =====
-- `IdentityAccess.process_email_webhook` (src/umbral/application/identity/access.py). What the sender of the
-- emails makes of a request, the parser of UUIDs and the stamp of the audit event are arguments.
use umbral.Prelude.{
  ℕ, String, Bool, false, [], ◌∷◌, Option, none, some, ◌==◌, string_eq, if◌then◌else◌,
}
use umbral.Prelude.Dict
use umbral.Prelude.Dict.{Dict}
use umbral.Identity.Models.{
  MagicLinkAttempt, AccessAuditEvent, identity_error, Reply, replied, raised, Stamp,
}
use umbral.Identity.Events.{validate_event}
use umbral.Identity.Store.{IdentityStore, transaction}
use umbral.Identity.LinkStore.{
  find_request, attempt_for_provider_message, append_provider_audit_once, link_event,
}

abbrev pub WebhookEvent : Type 0
WebhookEvent = Dict String String

-- `reason_by_type`
abbrev pub reason_by_type : Dict String String
reason_by_type =
    ("email.delivered", "email_delivered")
    ∷ ("email.delivery_delayed", "email_delayed")
    ∷ ("email.bounced", "email_bounced")
    ∷ ("email.complained", "email_complained")
    ∷ ("email.failed", "email_rejected")
    ∷ []

-- `event.get(name) or ""`
unfoldable pub field_or_empty : String → WebhookEvent → String
field_or_empty name event = elim (Dict.get name event) [ none ↦ "" | some value ↦ value ]

module _ (provider : String) (parse_uuid : String → Option ℕ) (stamp : Stamp) where
  -- `_provider_correlation`
  unfoldable pub provider_correlation : WebhookEvent → ℕ
  unfolding field_or_empty
  provider_correlation event = elim (parse_uuid (field_or_empty "correlation_id" event)) [
    | none ↦ stamp.correlation_id
    | some id ↦ id
  ]

  -- `_new_audit`
  unfoldable pub new_audit :
      String → String → ℕ → Option ℕ → String → Reply (Option AccessAuditEvent)
  unfolding validate_event link_event
  new_audit event_type reason correlation_id attempt_id event_id =
      elim (validate_event event_type "observed" reason) [
        | raised f ↦ raised f
        | replied u ↦ replied (
            some (record (link_event stamp event_type "observed" reason correlation_id) {
              attempt_id = attempt_id;
              provider = some provider;
              provider_event_id = some event_id;
            }))
      ]

  -- The attempt of the message that the event names.
  unfoldable pub observed_attempt : WebhookEvent → IdentityStore → Option MagicLinkAttempt
  unfolding attempt_for_provider_message
  observed_attempt event s = elim (Dict.get "email_id" event) [
    | none ↦ none
    | some message_id ↦ attempt_for_provider_message message_id s
  ]

  -- The audit event of a webhook, if it has one.
  unfoldable pub webhook_audit :
      WebhookEvent → String → IdentityStore → Reply (Option AccessAuditEvent)
  unfolding field_or_empty observed_attempt find_request new_audit provider_correlation
  webhook_audit event event_id s = elim (Dict.get (field_or_empty "type" event) reason_by_type) [
    | none ↦ replied none
    | some reason ↦ elim (observed_attempt event s) [
      | none ↦
          new_audit "provider.event_ignored.v1" "ignored" (provider_correlation event) none event_id
      | some attempt ↦ elim (find_request attempt.request_id s) [
        | none ↦ replied none
        | some request ↦
            new_audit "magic_link.delivery_observed.v1" reason request.correlation_id
              (some attempt.id) event_id
      ]
    ]
  ]

  unfoldable pub observed : WebhookEvent → String → IdentityStore → IdentityStore × Reply Bool
  unfolding webhook_audit append_provider_audit_once
  observed event event_id s = elim (webhook_audit event event_id s) [
    | raised f ↦ (s, raised f)
    | replied audit ↦
        let (t, added) = append_provider_audit_once provider event_id audit s in (t, replied added)
  ]

  -- What `verify_webhook` returned, or raised.
  unfoldable pub process_email_webhook :
      Reply (Option WebhookEvent) → IdentityStore → IdentityStore × Reply Bool
  unfolding field_or_empty transaction observed
  process_email_webhook (raised f) s = (s, raised f)
  process_email_webhook (replied none) s = (s, replied false)
  process_email_webhook (replied (some [])) s = (s, replied false)
  process_email_webhook (replied (some (entry ∷ rest))) s =
      let event_id = field_or_empty "id" (entry ∷ rest) in
      if event_id == ""
      then (s, raised (identity_error "auth.webhook_invalid" 400 "none"))
      else transaction (observed (entry ∷ rest) event_id) s
