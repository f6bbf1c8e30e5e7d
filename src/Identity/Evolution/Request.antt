-- ===== src/Identity/Evolution/Request.antt =====
-- `request_magic_link` and `logout` on the attempts (src/umbral/application/identity/access.py).
use umbral.Prelude.{
  ℕ, String, false, Option, none, some, ◌≡◌, refl, ap, ◌∙◌, sym, nat_eq, string_eq, ◌==◌, arith,
  inl, inr, Bool-cases, Option-cases,
}
use umbral.Prelude.Dict
use umbral.Prelude.Dict.{get-set_self}
use umbral.Text.{PyText}
use umbral.Identity.Models.{
  ProductUser, Invitation, MagicLinkAttempt, AttemptState, is_unset, replied, Stamp,
}
use umbral.Identity.Store.{IdentityStore, transaction, session_by_digest, save_session}
use umbral.Identity.LinkStore.{save_request, save_attempt, invitation_for_email, user_for_email}
use umbral.Identity.Links.Request.{
  LinkRequest, new_attempt, Submission, submit_attempt, new_request, requested_event,
  record_request, start_attempt, request_magic_link, decision_of, normalized_or_raw,
}
use umbral.Identity.Links.Sessions.{logout, ended, logged_out, logout_event}
use umbral.Identity.Attempts.{
  IsTable, Evolves, Evolves-refl, Evolves-trans, Evolves-set, is_consumed, audited_then-Evolves,
  committed-Evolves,
}

-- A pending attempt, saved where there is none or one like it, and whatever is saved over it unconsumed.
fresh-Evolves :
    (a : MagicLinkAttempt) (s t : IdentityStore)
    → IsTable s.attempts
    → Dict.get a.id s.attempts ≡ none
    → t.attempts ≡ s.attempts
    → Evolves s.attempts (save_attempt a t).attempts
unfolding save_attempt
fresh-Evolves a s t table new same =
    rw (same) (Evolves-set a s.attempts table (λ old at. absurd (ground (arith, at, new))))

again-Evolves :
    (a b : MagicLinkAttempt) (s t : IdentityStore)
    → b.id ≡ a.id
    → is_consumed a.state ≡ false
    → Evolves s.attempts t.attempts
    → Dict.get a.id t.attempts ≡ some a
    → Evolves s.attempts (save_attempt b t).attempts
unfolding save_attempt
again-Evolves a b s t same unused h at =
    Evolves-trans s.attempts t.attempts (Dict.set b.id b t.attempts) h (
      Evolves-set b t.attempts h.table
        (λ old k. ground (arith, at, unused, ap (λ i. Dict.get i t.attempts) (sym same) ∙ k)))

module _ (x : PyText) (fingerprint : String → ℕ) where
  submit_attempt-Evolves :
      (runtime : Submission x fingerprint) (q : LinkRequest) (a : MagicLinkAttempt)
      (s t : IdentityStore)
      → is_consumed a.state ≡ false
      → Evolves s.attempts t.attempts
      → Dict.get a.id t.attempts ≡ some a
      → Evolves s.attempts (submit_attempt x fingerprint runtime q a t).0.attempts
  unfolding submit_attempt
  submit_attempt-Evolves none q a s t unused h at = h
  submit_attempt-Evolves (some submit) q a s t unused h at =
      elim (Option-cases (submit a.id q.correlation_id)) [
        | inr (e, eq) ↦
            rw (eq, submit_attempt)
              (again-Evolves a (record a { job_execution_id = some e }) s t refl unused h at)
        | inl eq ↦
            let b : MagicLinkAttempt = record a {
              state = AttemptState.failed;
              failure_reason = some "job_submission_failed";
            } in
            rw (eq, submit_attempt)
              (audited_then-Evolves s.attempts _ (λ u. (u, replied tt)) (save_attempt b t)
                (again-Evolves a b s t refl unused h at)
                (λ u same. rw (same) (again-Evolves a b s t refl unused h at)))
      ]

  start_attempt-Evolves :
      (runtime : Submission x fingerprint) (q : LinkRequest) (decision : String)
      (i : Option Invitation) (user : Option ProductUser) (s u : IdentityStore)
      → IsTable s.attempts
      → Dict.get q.attempt_id s.attempts ≡ none
      → u.attempts ≡ s.attempts
      → Evolves s.attempts (start_attempt x fingerprint runtime q decision i user u).0.attempts
  unfolding start_attempt
  start_attempt-Evolves runtime q decision i user s u table new same =
      elim (Bool-cases (decision == "eligible")) [
        | inr e ↦ rw (e, start_attempt, same) (Evolves-refl s.attempts table)
        | inl e ↦
            let a = new_attempt q i user in
            rw (e, start_attempt)
              (submit_attempt-Evolves runtime q a s (save_attempt a u)
                (unfold new_attempt is_consumed in refl)
                (fresh-Evolves a s u table (unfold new_attempt in new) same)
                (unfold save_attempt in get-set_self a.id a u.attempts))
      ]

  record_request-Evolves :
      (runtime : Submission x fingerprint) (q : LinkRequest) (decision : String)
      (i : Option Invitation) (user : Option ProductUser) (s : IdentityStore)
      → IsTable s.attempts
      → Dict.get q.attempt_id s.attempts ≡ none
      → Evolves s.attempts (record_request x fingerprint runtime q decision i user s).0.attempts
  unfolding record_request save_request
  record_request-Evolves runtime q decision i user s table new =
      audited_then-Evolves s.attempts (requested_event x fingerprint q decision)
        (start_attempt x fingerprint runtime q decision i user)
        (save_request (new_request x fingerprint q decision) s) (Evolves-refl s.attempts table)
        (λ u same. start_attempt-Evolves runtime q decision i user s u table new same)

  pub request_magic_link-Evolves :
      (runtime : Submission x fingerprint) (q : LinkRequest) (s : IdentityStore)
      → IsTable s.attempts
      → Dict.get q.attempt_id s.attempts ≡ none
      → Evolves s.attempts (request_magic_link x fingerprint runtime q s).0.attempts
  unfolding request_magic_link transaction
  request_magic_link-Evolves runtime q s table new =
      let email = normalized_or_raw x q.email in
      let body =
        record_request x fingerprint runtime q (decision_of x fingerprint q s)
          (invitation_for_email email s) (user_for_email email s) s in
      committed-Evolves s body table (
        record_request-Evolves runtime q (decision_of x fingerprint q s)
          (invitation_for_email email s) (user_for_email email s) s table new)

pub logout-Evolves :
    (sha256 : String → ℕ) (stamp : Stamp) (correlation_id : Option ℕ) (now : ℕ) (token : String)
    (s : IdentityStore)
    → IsTable s.attempts
    → Evolves s.attempts (logout sha256 stamp correlation_id now token s).0.attempts
unfolding logout transaction ended
logout-Evolves sha256 stamp correlation_id now token s table =
    committed-Evolves s (ended stamp correlation_id now (sha256 token) s) table
      (elim (Option-cases (session_by_digest (sha256 token) s)) [
        | inl e ↦ rw (e, ended) (Evolves-refl s.attempts table)
        | inr (session, e) ↦ elim (Bool-cases (is_unset session.revoked_at)) [
          | inr k ↦ rw (e, k, ended) (Evolves-refl s.attempts table)
          | inl k ↦
              rw (e, k, ended)
                (audited_then-Evolves s.attempts (logout_event stamp correlation_id session)
                  (λ t. (t, replied tt)) (save_session (logged_out now session) s)
                  (unfold save_session in Evolves-refl s.attempts table)
                  (λ t same. rw (same) (unfold save_session in Evolves-refl s.attempts table)))
        ]
      ])
