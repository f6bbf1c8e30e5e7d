-- ===== src/Identity/Evolution/Confirm.antt =====
-- `confirm_magic_link` on the attempts (src/umbral/application/identity/access.py).
use umbral.Prelude.{
  ℕ, String, true, false, not, ◌&&◌, Option, none, some, ◌≡◌, refl, ◌∙◌, sym, nat_eq, string_eq,
  arith, inl, inr, Bool-cases, Option-cases, if◌then◌else◌,
}
use umbral.Prelude.Dict
use umbral.Prelude.Dict.{get-set, get-set_self}
use umbral.Identity.Models.{
  ProductUser, Invitation, ExternalIdentityLink, MagicLinkRequest, MagicLinkAttempt,
  AccessAuditEvent, IdentityFault, identity_error, link_unavailable, access_denied, is_issued,
  current_and_valid, Reply, replied, raised, Stamp,
}
use umbral.Identity.Store.{
  IdentityStore, append_audit, committed, transaction, find_user, save_session, save_user,
  save_role,
}
use umbral.Identity.Events.{validate_event}
use umbral.Identity.Transactions.{Reply-cases}
use umbral.Identity.LinkStore.{
  find_invitation, find_request, save_attempt, find_attempt, audited_then, link_event, save_link,
  link_for_subject, save_invitation,
}
use umbral.Identity.Email.{normalize_email}
use umbral.Identity.Links.Ports.{ProviderProof, IdentityProofPort, SessionResult}
use umbral.Identity.Links.Check.{Outside, Fresh, find_by, refuse, conflict, accept_invitation}
use umbral.Identity.Links.Confirm.{
  subject_event, consumed, new_session, session_event, session_result, start_session, new_link,
  link_user, new_user, activation, admit, is_of_other, has_other_email, is_refused, settle_claims,
  confirmed, is_issuer, is_complete, rejected, is_revoked, with_proof,
}
use umbral.Identity.Attempts.{
  Attempts, IsTable, Evolves, Evolves-refl, is_consumed, committed-Evolves,
}
use umbral.Identity.Evolution.Begin.{update-Evolves, audited-Evolves}

-- What holds of a refusal, and of what follows the event, holds after an event is written.
audited_then-any {ℓ κ} :
    {A : Type ℓ} (Q : IdentityStore × Reply A → Type κ) (event : AccessAuditEvent)
    (next : IdentityStore → IdentityStore × Reply A) (s : IdentityStore)
    → ((f : IdentityFault) → Q (s, raised f))
    → ((t : IdentityStore) → t.attempts ≡ s.attempts → Q (next t))
    → Q (audited_then event next s)
unfolding audited_then append_audit
audited_then-any Q event next s refusal later =
    elim (Reply-cases (validate_event event.event_type event.result event.reason)) [
      | inr (f, e) ↦ rw (e, audited_then) (refusal f)
      | inl (u, e) ↦ rw (e, audited_then) (later (append_audit event s) refl)
    ]

-- The table has evolved, and a call that returns has consumed the attempt.
abbrev pub IsDone {ℓ} : {A : Type ℓ} → Attempts → ℕ → IdentityStore × Reply A → Type ℓ
IsDone {A = A} d id (t, r) =
    Evolves d t.attempts
    × ((a : A)
        → r ≡ replied a
        → (b : MagicLinkAttempt) × (Dict.get id t.attempts ≡ some b) × (is_consumed b.state ≡ true))

refused-IsDone {ℓ} :
    {A : Type ℓ} (d : Attempts) (id : ℕ) (f : IdentityFault) (t : IdentityStore)
    → Evolves d t.attempts
    → IsDone {A = A} d id (t, raised f)
refused-IsDone d id f t h = (h, λ a r. absurd (ground (arith, r)))

pub refused_here {ℓ} :
    {A : Type ℓ} (id : ℕ) (s : IdentityStore) (f : IdentityFault)
    → IsTable s.attempts
    → IsDone {A = A} s.attempts id (s, raised f)
refused_here id s f table = refused-IsDone s.attempts id f s (Evolves-refl s.attempts table)

module _ (x : Outside) (provider : IdentityProofPort) (fresh : Fresh) (attempt_id now : ℕ) where
  module _ (s : IdentityStore) (a : MagicLinkAttempt) (table : IsTable s.attempts)
      (at : find_attempt attempt_id s ≡ some a) (unused : is_consumed a.state ≡ false) where
    abbrev Done : IdentityStore × Reply SessionResult → Type 0
    Done = IsDone s.attempts attempt_id

    start_session-IsDone :
        (request : MagicLinkRequest) (user_id : ℕ) (t : IdentityStore)
        → t.attempts ≡ s.attempts
        → Done (start_session x provider fresh attempt_id now a request user_id t)
    unfolding start_session save_session save_attempt find_attempt consumed
    start_session-IsDone request user_id t same =
        let b = consumed x provider fresh attempt_id now a in
        let u =
          save_session (new_session x provider fresh attempt_id now user_id a) (save_attempt b t) in
        let grown : Evolves s.attempts u.attempts =
          rw (same) (update-Evolves attempt_id a b s table at unused refl) in
        let has : Dict.get attempt_id u.attempts ≡ some b =
          rw (sym (table.keyed attempt_id a at)) (get-set_self a.id b t.attempts) in
        let result = replied (session_result x provider fresh attempt_id now user_id) in
        let event = session_event x provider fresh attempt_id now in
        let started = event 3 "session.started.v1" "eligible" user_id request in
        audited_then-any Done (event 2 "magic_link.consumed.v1" "link_consumed" user_id request)
          (audited_then started (λ v. (v, result))) u
          (λ f. refused-IsDone s.attempts attempt_id f u grown)
          (λ v there.
            audited_then-any Done started (λ w. (w, result)) v
              (λ f. refused-IsDone s.attempts attempt_id f v (rw (there) grown))
              (λ w again. (
                rw (again ∙ there) grown,
                λ r h. (b, rw (again ∙ there) has, unfold is_consumed in refl),
              )))

    link_user-IsDone :
        (link : Option ExternalIdentityLink) (proof : ProviderProof) (email : String)
        (request : MagicLinkRequest) (user_id : ℕ) (t : IdentityStore)
        → t.attempts ≡ s.attempts
        → Done (link_user x provider fresh attempt_id now link proof email a request user_id t)
    unfolding link_user save_link
    link_user-IsDone (some link) proof email request user_id t same =
        start_session-IsDone request user_id t same
    link_user-IsDone none proof email request user_id t same =
        audited_then-any Done
          (subject_event x provider fresh attempt_id now 1 "identity.linked.v1" "eligible" user_id
            request)
          (start_session x provider fresh attempt_id now a request user_id)
          (save_link (new_link x provider fresh attempt_id now proof email user_id) t)
          (λ f.
            refused-IsDone s.attempts attempt_id f t (rw (same) (Evolves-refl s.attempts table)))
          (λ u there. start_session-IsDone request user_id u (there ∙ same))

    accept_invitation-attempts :
        (i : Option Invitation) (user_id : ℕ) (t : IdentityStore)
        → (accept_invitation i user_id now t).attempts ≡ t.attempts
    unfolding accept_invitation save_invitation
    accept_invitation-attempts none user_id t = refl
    accept_invitation-attempts (some i) user_id t = refl

    admit-IsDone :
        (user : Option ProductUser) (i : Option Invitation) (link : Option ExternalIdentityLink)
        (proof : ProviderProof) (email : String) (request : MagicLinkRequest)
        → Done (admit x provider fresh attempt_id now user i link proof email a request s)
    unfolding admit save_user save_role
    admit-IsDone (some user) i link proof email request =
        link_user-IsDone link proof email request user.id s refl
    admit-IsDone none i link proof email request =
        let t =
          save_role (activation x provider fresh attempt_id now)
            (save_user (new_user x provider fresh attempt_id now email) s) in
        let u = accept_invitation i fresh.user_id now t in
        let same : u.attempts ≡ s.attempts = accept_invitation-attempts i fresh.user_id t in
        audited_then-any Done
          (subject_event x provider fresh attempt_id now 0 "user.activated.v1" "eligible"
            fresh.user_id request)
          (link_user x provider fresh attempt_id now link proof email a request fresh.user_id) u
          (λ f.
            refused-IsDone s.attempts attempt_id f u (rw (same) (Evolves-refl s.attempts table)))
          (λ v there. link_user-IsDone link proof email request fresh.user_id v (there ∙ same))

    conflict-IsDone :
        (stamp : Stamp) (reason : String) (correlation_id : ℕ)
        → Done (conflict stamp reason correlation_id attempt_id s)
    unfolding conflict
    conflict-IsDone stamp reason correlation_id =
        let event =
          record (link_event stamp "identity.conflict.v1" "denied" reason correlation_id) {
            attempt_id = some attempt_id;
          } in
        audited_then-any Done event (refuse access_denied) s
          (λ f. refused-IsDone s.attempts attempt_id f s (Evolves-refl s.attempts table))
          (λ t same.
            refused-IsDone s.attempts attempt_id access_denied t
              (rw (same) (Evolves-refl s.attempts table)))

    settle_claims-IsDone :
        (proof : ProviderProof) (email : String) (request : MagicLinkRequest)
        → Done (settle_claims x provider fresh attempt_id now proof email a request s)
    unfolding settle_claims
    settle_claims-IsDone proof email request =
        let user = find_by find_user a.product_user_id s in
        let i = find_by find_invitation a.invitation_id s in
        let link = link_for_subject proof.provider proof.issuer proof.subject s in
        let barred =
          λ (reason : String). conflict-IsDone (fresh.stamp 0) reason request.correlation_id in
        elim (Bool-cases (is_of_other x provider fresh attempt_id now link user)) [
          | inl e ↦ rw (e, settle_claims) (barred "subject_conflict")
          | inr e ↦ elim (Bool-cases (has_other_email x provider fresh attempt_id now user email)) [
            | inl k ↦ rw (e, k, settle_claims) (barred "email_mismatch")
            | inr k ↦ elim (Bool-cases (is_refused x provider fresh attempt_id now i email)) [
              | inl m ↦ rw (e, k, m, settle_claims) (barred "not_eligible")
              | inr m ↦ rw (e, k, m, settle_claims) (admit-IsDone user i link proof email request)
            ]
          ]
        ]

  pub valid_is_unused :
      (a : MagicLinkAttempt) → current_and_valid now a ≡ true → is_consumed a.state ≡ false
  unfolding current_and_valid is_issued is_consumed
  valid_is_unused a h = ground (arith, h)

  confirmed-IsDone :
      (proof : ProviderProof) (email : String) (s : IdentityStore)
      → IsTable s.attempts
      → IsDone s.attempts attempt_id (confirmed x provider fresh attempt_id now proof email s)
  unfolding confirmed
  confirmed-IsDone proof email s table = elim (Option-cases (find_attempt attempt_id s)) [
    | inl e ↦ rw (e, confirmed) (refused_here attempt_id s (link_unavailable "link_invalid") table)
    | inr (a, e) ↦ elim (Option-cases (find_request a.request_id s)) [
      | inl k ↦
          rw (e, k, confirmed) (refused_here attempt_id s (link_unavailable "link_invalid") table)
      | inr (q, k) ↦ elim (Bool-cases (current_and_valid now a)) [
        | inr m ↦
            rw (e, k, m, confirmed)
              (refused_here attempt_id s (link_unavailable "link_consumed") table)
        | inl m ↦
            let left : confirmed x provider fresh attempt_id now proof email s
                ≡ settle_claims x provider fresh attempt_id now proof email a q s =
              rw (e, k, m, confirmed) refl in
            rw (left) (settle_claims-IsDone s a table e (valid_is_unused a m) proof email q)
      ]
    ]
  ]

  rejected-Evolves :
      (proof : ProviderProof) (s : IdentityStore)
      → IsTable s.attempts
      → Evolves s.attempts (rejected x provider fresh attempt_id now proof s).0.attempts
  unfolding rejected
  rejected-Evolves proof s table = elim (Option-cases (find_attempt attempt_id s)) [
    | inl e ↦ rw (e, rejected) (Evolves-refl s.attempts table)
    | inr (a, e) ↦ elim (Option-cases (find_request a.request_id s)) [
      | inl k ↦ rw (e, k, rejected) (Evolves-refl s.attempts table)
      | inr (q, k) ↦
          let reason =
            if not (is_issuer x provider fresh attempt_id now proof)
            then "issuer_mismatch"
            else "missing_verified_attribute" in
          rw (e, k, rejected)
            (audited-Evolves s.attempts
              (record (link_event (fresh.stamp 0) "identity.conflict.v1" "denied" reason
                q.correlation_id) { attempt_id = some attempt_id })
              (replied tt) s (Evolves-refl s.attempts table))
    ]
  ]

  committed-IsDone {ℓ} :
      {A : Type ℓ} (s : IdentityStore) (r : IdentityStore × Reply A)
      → IsTable s.attempts
      → IsDone s.attempts attempt_id r
      → IsDone s.attempts attempt_id (committed s r)
  unfolding committed
  committed-IsDone s (t, replied a) table h = h
  committed-IsDone s (t, raised f) table h = refused_here attempt_id s f table

  pub with_proof-IsDone :
      (proof : ProviderProof) (s : IdentityStore)
      → IsTable s.attempts
      → IsDone s.attempts attempt_id (with_proof x provider fresh attempt_id now proof s)
  unfolding with_proof transaction
  with_proof-IsDone proof s table =
      let test =
        is_issuer x provider fresh attempt_id now proof
        && is_complete x provider fresh attempt_id now proof in
      let turned = rejected x provider fresh attempt_id now proof s in
      let grown : Evolves s.attempts (committed s turned).0.attempts =
        committed-Evolves s turned table (rejected-Evolves proof s table) in
      elim (Bool-cases test) [
        | inr e ↦ elim (Reply-cases (committed s turned).1) [
          | inl (u, k) ↦
              rw (e, k, with_proof)
                (refused-IsDone s.attempts attempt_id access_denied (committed s turned).0 grown)
          | inr (f, k) ↦
              rw (e, k, with_proof)
                (refused-IsDone s.attempts attempt_id f (committed s turned).0 grown)
        ]
        | inl e ↦ elim (Option-cases (normalize_email x.py_text proof.verified_email)) [
          | inl k ↦ rw (e, k, with_proof) (refused_here attempt_id s access_denied table)
          | inr (email, k) ↦
              elim (Bool-cases
                (is_revoked x provider fresh attempt_id now proof.revocation_handle)) [
                  | inr m ↦
                      rw (e, k, m, with_proof)
                        (refused_here attempt_id s
                          (identity_error "auth.provider_unavailable" 503 "retry_later") table)
                  | inl m ↦
                      let left : with_proof x provider fresh attempt_id now proof s
                          ≡ committed s (confirmed x provider fresh attempt_id now proof email s) =
                        rw (e, k, m, with_proof) refl in
                      rw (left) (
                        committed-IsDone s (confirmed x provider fresh attempt_id now proof email s)
                          table (confirmed-IsDone proof email s table))
                ]
        ]
      ]
