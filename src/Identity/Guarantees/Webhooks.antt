-- ===== src/Identity/Guarantees/Webhooks.antt =====
-- An event of the sender of emails is recorded once (src/umbral/application/identity/access.py,
-- `process_email_webhook`).
use umbral.Prelude.{
  ℕ, String, true, false, [], ◌∷◌, Option, none, some, ◌≡◌, refl, ap, ◌∙◌, sym, ◌==◌, string_eq,
  pair_eq, inl, inr, Bool-cases, Option-cases, arith, contains, beq_refl, All,
}
use umbral.Prelude.Dict
use umbral.Prelude.Dict.{Dict}
use umbral.Identity.Models.{AccessAuditEvent, Reply, replied, raised, Stamp}
use umbral.Identity.Events.{validate_event, is_registered}
use umbral.Identity.Store.{IdentityStore, append_audit, committed, transaction}
use umbral.Identity.Transactions.{committed-made, committed-replied}
use umbral.Identity.LinkStore.{append_provider_audit_once, find_request, link_event}
use umbral.Identity.Links.Webhook.{
  WebhookEvent, reason_by_type, field_or_empty, provider_correlation, new_audit, observed_attempt,
  webhook_audit, observed, process_email_webhook,
}

-- An event that was added is noted, and one that is noted is not added again.
append_once-notes :
    (provider event_id : String) (a b : Option AccessAuditEvent) (s : IdentityStore)
    → (append_provider_audit_once provider event_id a s).1 ≡ true
    → append_provider_audit_once provider event_id b
        (append_provider_audit_once provider event_id a s).0
      ≡ ((append_provider_audit_once provider event_id a s).0, false)
unfolding append_provider_audit_once append_audit contains
append_once-notes provider event_id a b s h =
    ground (arith, h, beq_refl provider, beq_refl event_id)

-- What a dictionary has satisfies what all its values do.
get-All :
    (P : String → Type 0) (k v : String) (m : Dict String String)
    → All (λ entry. P entry.1) m
    → Dict.get k m ≡ some v
    → P v
unfolding Dict.get
get-All P k v [] all h = absurd (ground (arith, h))
get-All P k v ((j, w) ∷ m) all h = elim (Bool-cases (j == k)) [
  | inl e ↦ let same : w ≡ v = ground (arith, rw (e) at h) in rw⁻¹ same all.0
  | inr e ↦ get-All P k v m all.1 (rw (e) at h)
]

abbrev IsRegistered : String → Type 0
IsRegistered reason =
    validate_event "magic_link.delivery_observed.v1" "observed" reason ≡ replied tt

reasons_are_valid : All (λ entry. IsRegistered entry.1) reason_by_type
unfolding validate_event is_registered Dict.get contains
reasons_are_valid = (refl, (refl, (refl, (refl, (refl, tt)))))

ignored_is_valid : validate_event "provider.event_ignored.v1" "observed" "ignored" ≡ replied tt
unfolding validate_event is_registered Dict.get contains
ignored_is_valid = refl

module _ (provider : String) (parse_uuid : String → Option ℕ) where
  new_audit-replied :
      (stamp : Stamp) (event_type reason : String) (correlation_id : ℕ) (attempt_id : Option ℕ)
      (event_id : String)
      → validate_event event_type "observed" reason ≡ replied tt
      → (a : Option AccessAuditEvent) × (new_audit provider parse_uuid stamp event_type reason
            correlation_id attempt_id event_id
          ≡ replied a)
  unfolding new_audit
  new_audit-replied stamp event_type reason correlation_id attempt_id event_id h = (
    some (record (link_event stamp event_type "observed" reason correlation_id) {
      attempt_id = attempt_id;
      provider = some provider;
      provider_event_id = some event_id;
    }),
    rw (h, new_audit) refl,
  )

  -- The audit event of a webhook is always valid.
  webhook_audit-replied :
      (stamp : Stamp) (event : WebhookEvent) (event_id : String) (s : IdentityStore)
      → (a : Option AccessAuditEvent) × (webhook_audit provider parse_uuid stamp event event_id s
          ≡ replied a)
  unfolding webhook_audit
  webhook_audit-replied stamp event event_id s =
      elim (Option-cases (Dict.get (field_or_empty "type" event) reason_by_type)) [
        | inl e ↦ (none, rw (e, webhook_audit) refl)
        | inr (reason, e) ↦
            let registered : IsRegistered reason =
              get-All IsRegistered (field_or_empty "type" event) reason reason_by_type
                reasons_are_valid e in
            elim (Option-cases (observed_attempt provider parse_uuid stamp event s)) [
              | inl k ↦
                  let (b, eq) =
                    new_audit-replied stamp "provider.event_ignored.v1" "ignored"
                      (provider_correlation provider parse_uuid stamp event) none event_id
                      ignored_is_valid in
                  (b, rw (e, k, webhook_audit) eq)
              | inr (a, k) ↦ elim (Option-cases (find_request a.request_id s)) [
                | inl m ↦ (none, rw (e, k, m, webhook_audit) refl)
                | inr (q, m) ↦
                    let (b, eq) =
                      new_audit-replied stamp "magic_link.delivery_observed.v1" reason
                        q.correlation_id (some a.id) event_id registered in
                    (b, rw (e, k, m, webhook_audit) eq)
              ]
            ]
      ]

  observed-twice :
      (stamp again : Stamp) (event : WebhookEvent) (event_id : String) (s : IdentityStore)
      → (observed provider parse_uuid stamp event event_id s).1 ≡ replied true
      → observed provider parse_uuid again event event_id
          (observed provider parse_uuid stamp event event_id s).0
        ≡ ((observed provider parse_uuid stamp event event_id s).0, replied false)
  unfolding observed
  observed-twice stamp again event event_id s h =
      let (a, e) = webhook_audit-replied stamp event event_id s in
      let first = append_provider_audit_once provider event_id a s in
      let left : observed provider parse_uuid stamp event event_id s ≡ (first.0, replied first.1) =
        rw (e, observed) refl in
      let (b, k) = webhook_audit-replied again event event_id first.0 in
      let added : first.1 ≡ true = ground (arith, h, ap (λ r. r.1) left) in
      let noted = append_once-notes provider event_id a b s added in
      rw (left) (rw (k, observed) (ap (λ r. (r.0, replied r.1)) noted))

  -- A webhook that was recorded is recorded once: when the same event comes again, the call says so
  -- and changes nothing.
  pub process_email_webhook-twice :
      (stamp again : Stamp) (verified : Reply (Option WebhookEvent)) (s : IdentityStore)
      → (process_email_webhook provider parse_uuid stamp verified s).1 ≡ replied true
      → process_email_webhook provider parse_uuid again verified
          (process_email_webhook provider parse_uuid stamp verified s).0
        ≡ ((process_email_webhook provider parse_uuid stamp verified s).0, replied false)
  unfolding process_email_webhook transaction
  process_email_webhook-twice stamp again (raised f) s h = absurd (ground (arith, h))
  process_email_webhook-twice stamp again (replied none) s h = absurd (ground (arith, h))
  process_email_webhook-twice stamp again (replied (some [])) s h = absurd (ground (arith, h))
  process_email_webhook-twice stamp again (replied (some (entry ∷ rest))) s h =
      let event = entry ∷ rest in
      let id = field_or_empty "id" event in
      elim (Bool-cases (id == "")) [
        | inl e ↦ absurd (ground (arith, rw (e, process_email_webhook) at h))
        | inr e ↦
            let body = observed provider parse_uuid stamp event id s in
            let left : process_email_webhook provider parse_uuid stamp (replied (some event)) s
                ≡ committed s body =
              rw (e, process_email_webhook) refl in
            let returned : body.1 ≡ replied true =
              committed-replied s body true (ap (λ r. r.1) (sym left) ∙ h) in
            let same = left ∙ committed-made s body true returned in
            let twice = observed-twice stamp again event id s returned in
            let right : process_email_webhook provider parse_uuid again (replied (some event))
                  body.0
                ≡ (body.0, replied false) =
              rw (e, process_email_webhook)
                (ap (committed body.0) twice ∙ (unfold committed in refl)) in
            rw (same) right
      ]
