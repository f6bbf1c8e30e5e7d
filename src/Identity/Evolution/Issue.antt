-- ===== src/Identity/Evolution/Issue.antt =====
-- `issue_attempt` on the attempts (src/umbral/application/identity/access.py).
use umbral.Prelude.{
  ℕ, String, Option, none, some, ◌≡◌, refl, ap, ◌∙◌, nat_eq, string_eq, inl, inr, Option-cases,
}
use umbral.Identity.Models.{
  MagicLinkRequest, identity_error, link_unavailable, invalid_value, other_exception, Reply,
  replied, raised, Stamp,
}
use umbral.Identity.Store.{IdentityStore, transaction}
use umbral.Identity.Transactions.{Reply-cases, committed-raised, committed-made}
use umbral.Identity.LinkStore.{find_request, save_attempt, find_attempt}
use umbral.Identity.Links.Ports.{GeneratedMagicLink, EmailAcceptance}
use umbral.Identity.Links.Attempt.{failed_with, attempt_event, sending_reason}
use umbral.Identity.Links.Issue.{
  Issuer, begun, sent, not_sent, accepted, after_calls, issue_attempt,
}
use umbral.Identity.Attempts.{IsTable, Evolves, Evolves-refl, Evolves-trans, committed-Evolves}
use umbral.Identity.Evolution.Begin.{update-Evolves, audited-Evolves, IsUnused, begun-IsOpening}
use umbral.Identity.Evolution.Accept.{accepted-Evolves}

module _ (c : Issuer) (stamp : ℕ → Stamp) (attempt_id now : ℕ) where
  not_sent-Evolves :
      (code : String) (s : IdentityStore)
      → IsTable s.attempts
      → IsUnused c stamp attempt_id now s
      → Evolves s.attempts (not_sent c stamp attempt_id now code s).0.attempts
  unfolding not_sent
  not_sent-Evolves code s table unused = elim (Option-cases (find_attempt attempt_id s)) [
    | inl e ↦ rw (e, not_sent) (Evolves-refl s.attempts table)
    | inr (a, e) ↦
        let reason = sending_reason code in
        let b = failed_with reason a in
        let saved : Evolves s.attempts (save_attempt b s).attempts =
          update-Evolves attempt_id a b s table e (unused a e) (unfold failed_with in refl) in
        elim (Option-cases (find_request a.request_id s)) [
          | inl k ↦ rw (e, k, not_sent) saved
          | inr (q, k) ↦
              rw (e, k, not_sent)
                (audited-Evolves s.attempts
                  (attempt_event (stamp 0) "magic_link.issue_failed.v1" "failed" reason attempt_id
                    q)
                  (replied tt) (save_attempt b s) saved)
        ]
  ]

  after_calls-Evolves :
      (r : Reply (GeneratedMagicLink × EmailAcceptance)) (s : IdentityStore)
      → IsTable s.attempts
      → IsUnused c stamp attempt_id now s
      → Evolves s.attempts (after_calls c stamp attempt_id now r s).0.attempts
  unfolding after_calls transaction
  after_calls-Evolves (replied r) s table unused =
      committed-Evolves s (accepted c stamp attempt_id now r s) table
        (accepted-Evolves c stamp attempt_id now r s table unused)
  after_calls-Evolves (raised (identity_error code status recovery)) s table unused =
      committed-Evolves s (not_sent c stamp attempt_id now code s) table
        (not_sent-Evolves code s table unused)
  after_calls-Evolves (raised (link_unavailable detail)) s table unused =
      committed-Evolves s (not_sent c stamp attempt_id now "auth.link_unavailable" s) table
        (not_sent-Evolves "auth.link_unavailable" s table unused)
  after_calls-Evolves (raised invalid_value) s table unused = Evolves-refl s.attempts table
  after_calls-Evolves (raised other_exception) s table unused = Evolves-refl s.attempts table

  -- What follows the first transaction.
  abbrev continued :
      IdentityStore × Reply (Option (String × MagicLinkRequest)) → IdentityStore × Reply (Unit {0})
  continued (t, raised f) = (t, raised f)
  continued (t, replied none) = (t, replied tt)
  continued (t, replied (some (address, request))) =
      after_calls c stamp attempt_id now (sent c stamp attempt_id now address) t

  pub issue_attempt-Evolves :
      (correlation_id : Option ℕ) (s : IdentityStore)
      → IsTable s.attempts
      → Evolves s.attempts (issue_attempt c stamp attempt_id now correlation_id s).0.attempts
  unfolding issue_attempt transaction
  issue_attempt-Evolves correlation_id s table =
      let body = begun c stamp attempt_id now correlation_id s in
      let (grown, open_attempt) = begun-IsOpening c stamp attempt_id now correlation_id s table in
      elim (Reply-cases body.1) [
        | inr (f, e) ↦
            let left : issue_attempt c stamp attempt_id now correlation_id s ≡ (s, raised f) =
              ap continued (committed-raised s body f e) in
            rw (left) (Evolves-refl s.attempts table)
        | inl (none, e) ↦
            let left : issue_attempt c stamp attempt_id now correlation_id s
                ≡ (body.0, replied tt) =
              ap continued (committed-made s body none e ∙ ap (λ r. (body.0, r)) e) in
            rw (left) grown
        | inl (some (address, q), e) ↦
            let calls = sent c stamp attempt_id now address in
            let left : issue_attempt c stamp attempt_id now correlation_id s
                ≡ after_calls c stamp attempt_id now calls body.0 =
              ap continued
                (committed-made s body (some (address, q)) e ∙ ap (λ r. (body.0, r)) e) in
            rw (left) (
              Evolves-trans s.attempts body.0.attempts
                (after_calls c stamp attempt_id now calls body.0).0.attempts grown
                (after_calls-Evolves calls body.0 grown.table (open_attempt (address, q) e)))
      ]
