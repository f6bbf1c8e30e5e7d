-- ===== src/Identity/Guarantees/Confirmed.antt =====
-- `confirm_magic_link` on the role assignments (src/umbral/application/identity/access.py).
use umbral.Prelude.{
  ℕ, String, not, ◌&&◌, Option, none, some, ◌≡◌, refl, nat_eq, string_eq, arith, inl, inr,
  Bool-cases, Option-cases, if◌then◌else◌,
}
use umbral.Prelude.Dict
use umbral.Prelude.Dict.{Dict}
use umbral.Identity.Models.{
  ProductUser, Invitation, ExternalIdentityLink, MagicLinkRequest, MagicLinkAttempt, RoleAssignment,
  AccessAuditEvent, access_denied, current_and_valid, replied,
}
use umbral.Identity.Store.{
  IdentityStore, committed, transaction, find_user, save_session, save_user, save_role, grants,
  first_grant,
}
use umbral.Identity.Transactions.{Reply-cases}
use umbral.Identity.LinkStore.{
  find_invitation, find_request, save_attempt, find_attempt, audited_then, link_event, save_link,
  link_for_subject, save_invitation,
}
use umbral.Identity.Email.{normalize_email}
use umbral.Identity.Links.Ports.{ProviderProof, IdentityProofPort, SessionResult}
use umbral.Identity.Links.Check.{
  Outside, Fresh, find_by, refuse, conflict, accept_invitation, checked,
}
use umbral.Identity.Links.Confirm.{
  subject_event, consumed, new_session, session_event, session_result, start_session, new_link,
  link_user, new_user, activation, admit, is_of_other, has_other_email, is_refused, settle_claims,
  confirmed, is_issuer, is_complete, rejected, is_revoked, with_proof, confirm_magic_link,
}
use umbral.Identity.Roles.{IsSingle, IsSingle-set}
use umbral.Identity.Guarantees.Links.{check_is_not_recorded}
use umbral.Identity.Guarantees.Kept.{IsFine, audited-IsFine, committed-IsFine}

module _ (x : Outside) (provider : IdentityProofPort) (fresh : Fresh) (attempt_id now : ℕ) where
  -- `identity.conflict.v1`
  abbrev conflict_event : String → ℕ → AccessAuditEvent
  conflict_event reason correlation_id =
      record (link_event (fresh.stamp 0) "identity.conflict.v1" "denied" reason correlation_id) {
        attempt_id = some attempt_id;
      }

  start_session-IsFine :
      (a : MagicLinkAttempt) (request : MagicLinkRequest) (user_id : ℕ) (t : IdentityStore)
      → IsSingle t.roles
      → IsFine (start_session x provider fresh attempt_id now a request user_id t)
  unfolding start_session save_session save_attempt
  start_session-IsFine a request user_id t h =
      let b = consumed x provider fresh attempt_id now a in
      let u =
        save_session (new_session x provider fresh attempt_id now user_id a) (save_attempt b t) in
      let result = replied (session_result x provider fresh attempt_id now user_id) in
      let event = session_event x provider fresh attempt_id now in
      let started = event 3 "session.started.v1" "eligible" user_id request in
      audited-IsFine (event 2 "magic_link.consumed.v1" "link_consumed" user_id request)
        (audited_then started (λ v. (v, result))) u h
        (λ v k. audited-IsFine started (λ w. (w, result)) v k (λ w m. m))

  link_user-IsFine :
      (link : Option ExternalIdentityLink) (proof : ProviderProof) (email : String)
      (a : MagicLinkAttempt) (request : MagicLinkRequest) (user_id : ℕ) (t : IdentityStore)
      → IsSingle t.roles
      → IsFine (link_user x provider fresh attempt_id now link proof email a request user_id t)
  unfolding link_user save_link
  link_user-IsFine (some link) proof email a request user_id t h =
      start_session-IsFine a request user_id t h
  link_user-IsFine none proof email a request user_id t h =
      audited-IsFine
        (subject_event x provider fresh attempt_id now 1 "identity.linked.v1" "eligible" user_id
          request)
        (start_session x provider fresh attempt_id now a request user_id)
        (save_link (new_link x provider fresh attempt_id now proof email user_id) t) h
        (start_session-IsFine a request user_id)

  accept_invitation-roles :
      (i : Option Invitation) (user_id : ℕ) (t : IdentityStore)
      → (accept_invitation i user_id now t).roles ≡ t.roles
  unfolding accept_invitation save_invitation
  accept_invitation-roles none user_id t = refl
  accept_invitation-roles (some i) user_id t = refl

  -- The role of a new user is the first that the user has.
  activation-IsSingle :
      (l : Dict ℕ RoleAssignment)
      → IsSingle l
      → first_grant fresh.user_id "user" l ≡ none
      → IsSingle (Dict.set fresh.assignment_id (activation x provider fresh attempt_id now) l)
  unfolding activation
  activation-IsSingle l h new =
      IsSingle-set fresh.assignment_id (activation x provider fresh attempt_id now) l h refl
        λ u r g.
          let user : u ≡ fresh.user_id =
            unfold grants in ground (arith, g, nat_eq.same_iff fresh.user_id u) in
          let name : r ≡ "user" = unfold grants in ground (arith, g, string_eq.same_iff "user" r) in
          rw (user, name) new

  module _ (s : IdentityStore) (h : IsSingle s.roles)
      (new : first_grant fresh.user_id "user" s.roles ≡ none) where
    admit-IsFine :
        (user : Option ProductUser) (i : Option Invitation) (link : Option ExternalIdentityLink)
        (proof : ProviderProof) (email : String) (a : MagicLinkAttempt) (request : MagicLinkRequest)
        → IsFine (admit x provider fresh attempt_id now user i link proof email a request s)
    unfolding admit save_user save_role activation
    admit-IsFine (some user) i link proof email a request =
        link_user-IsFine link proof email a request user.id s h
    admit-IsFine none i link proof email a request =
        let t =
          save_role (activation x provider fresh attempt_id now)
            (save_user (new_user x provider fresh attempt_id now email) s) in
        let u = accept_invitation i fresh.user_id now t in
        audited-IsFine
          (subject_event x provider fresh attempt_id now 0 "user.activated.v1" "eligible"
            fresh.user_id request)
          (link_user x provider fresh attempt_id now link proof email a request fresh.user_id) u
          (rw (accept_invitation-roles i fresh.user_id t) (activation-IsSingle s.roles h new))
          (link_user-IsFine link proof email a request fresh.user_id)

    settle_claims-IsFine :
        (proof : ProviderProof) (email : String) (a : MagicLinkAttempt) (request : MagicLinkRequest)
        → IsFine (settle_claims x provider fresh attempt_id now proof email a request s)
    unfolding settle_claims conflict
    settle_claims-IsFine proof email a request =
        let user = find_by find_user a.product_user_id s in
        let i = find_by find_invitation a.invitation_id s in
        let link = link_for_subject proof.provider proof.issuer proof.subject s in
        let barred : (reason : String)
            → IsFine {A = SessionResult}
                (conflict (fresh.stamp 0) reason request.correlation_id attempt_id s) =
          λ reason.
            audited-IsFine (conflict_event reason request.correlation_id) (refuse access_denied) s h
              (λ t k. k) in
        elim (Bool-cases (is_of_other x provider fresh attempt_id now link user)) [
          | inl e ↦ rw (e, settle_claims) (barred "subject_conflict")
          | inr e ↦ elim (Bool-cases (has_other_email x provider fresh attempt_id now user email)) [
            | inl k ↦ rw (e, k, settle_claims) (barred "email_mismatch")
            | inr k ↦ elim (Bool-cases (is_refused x provider fresh attempt_id now i email)) [
              | inl m ↦ rw (e, k, m, settle_claims) (barred "not_eligible")
              | inr m ↦ rw (e, k, m, settle_claims) (admit-IsFine user i link proof email a request)
            ]
          ]
        ]

    confirmed-IsFine :
        (proof : ProviderProof) (email : String)
        → IsFine (confirmed x provider fresh attempt_id now proof email s)
    unfolding confirmed
    confirmed-IsFine proof email = elim (Option-cases (find_attempt attempt_id s)) [
      | inl e ↦ rw (e, confirmed) h
      | inr (a, e) ↦ elim (Option-cases (find_request a.request_id s)) [
        | inl k ↦ rw (e, k, confirmed) h
        | inr (q, k) ↦ elim (Bool-cases (current_and_valid now a)) [
          | inr m ↦ rw (e, k, m, confirmed) h
          | inl m ↦
              let left : confirmed x provider fresh attempt_id now proof email s
                  ≡ settle_claims x provider fresh attempt_id now proof email a q s =
                rw (e, k, m, confirmed) refl in
              rw (left) (settle_claims-IsFine proof email a q)
        ]
      ]
    ]

    rejected-IsFine :
        (proof : ProviderProof) → IsFine (rejected x provider fresh attempt_id now proof s)
    unfolding rejected
    rejected-IsFine proof = elim (Option-cases (find_attempt attempt_id s)) [
      | inl e ↦ rw (e, rejected) h
      | inr (a, e) ↦ elim (Option-cases (find_request a.request_id s)) [
        | inl k ↦ rw (e, k, rejected) h
        | inr (q, k) ↦
            let reason =
              if not (is_issuer x provider fresh attempt_id now proof)
              then "issuer_mismatch"
              else "missing_verified_attribute" in
            rw (e, k, rejected)
              (audited-IsFine (conflict_event reason q.correlation_id) (λ t. (t, replied tt)) s h
                (λ t m. m))
      ]
    ]

    with_proof-IsFine :
        (proof : ProviderProof) → IsFine (with_proof x provider fresh attempt_id now proof s)
    unfolding with_proof transaction
    with_proof-IsFine proof =
        let test =
          is_issuer x provider fresh attempt_id now proof
          && is_complete x provider fresh attempt_id now proof in
        let turned = committed s (rejected x provider fresh attempt_id now proof s) in
        let kept =
          committed-IsFine s (rejected x provider fresh attempt_id now proof s) h
            (rejected-IsFine proof) in
        elim (Bool-cases test) [
          | inr e ↦ elim (Reply-cases turned.1) [
            | inl (u, k) ↦ rw (e, k, with_proof) kept
            | inr (f, k) ↦ rw (e, k, with_proof) kept
          ]
          | inl e ↦ elim (Option-cases (normalize_email x.py_text proof.verified_email)) [
            | inl k ↦ rw (e, k, with_proof) h
            | inr (email, k) ↦
                elim (Bool-cases
                  (is_revoked x provider fresh attempt_id now proof.revocation_handle)) [
                    | inr m ↦ rw (e, k, m, with_proof) h
                    | inl m ↦
                        let left : with_proof x provider fresh attempt_id now proof s
                            ≡ committed s
                                (confirmed x provider fresh attempt_id now proof email s) =
                          rw (e, k, m, with_proof) refl in
                        rw (left) (
                          committed-IsFine s
                            (confirmed x provider fresh attempt_id now proof email s) h
                            (confirmed-IsFine proof email))
                  ]
          ]
        ]

  pub confirm_magic_link-IsFine :
      (token_hash : String) (s : IdentityStore)
      → IsSingle s.roles
      → first_grant fresh.user_id "user" s.roles ≡ none
      → IsSingle (confirm_magic_link x provider fresh attempt_id now token_hash s).0.roles
  unfolding confirm_magic_link
  confirm_magic_link-IsFine token_hash s h new =
      let check = transaction (checked (fresh.stamp 0) attempt_id now) s in
      let same = check_is_not_recorded (fresh.stamp 0) attempt_id now s in
      let kept : IsSingle check.0.roles = rw (same) h in
      elim (Reply-cases check.1) [
        | inr (f, e) ↦ rw (e, confirm_magic_link) kept
        | inl (u, e) ↦ elim (Reply-cases (provider.verify_magic_link attempt_id token_hash now)) [
          | inr (f, k) ↦ rw (e, k, confirm_magic_link) kept
          | inl (proof, k) ↦
              let left : confirm_magic_link x provider fresh attempt_id now token_hash s
                  ≡ with_proof x provider fresh attempt_id now proof check.0 =
                rw (e, k, confirm_magic_link) refl in
              rw (left) (with_proof-IsFine check.0 kept (rw (same) new) proof)
        ]
      ]
