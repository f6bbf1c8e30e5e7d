-- ===== src/Identity/Evolution/Accept.antt =====
-- The last transaction of `issue_attempt` on the attempts (src/umbral/application/identity/access.py).
use umbral.Prelude.{
  ℕ, false, some, ◌≡◌, refl, ap, ◌∙◌, nat_eq, string_eq, ◌==◌, inl, inr, Bool-cases, Option-cases,
}
use umbral.Prelude.Dict
use umbral.Prelude.Dict.{get-set, get-set_self}
use umbral.Identity.Models.{MagicLinkAttempt, AccessAuditEvent, replied, Stamp}
use umbral.Identity.Store.{IdentityStore}
use umbral.Identity.LinkStore.{
  find_request, save_attempt, find_attempt, current_attempt, audited_then,
}
use umbral.Identity.Links.Ports.{GeneratedMagicLink, EmailAcceptance}
use umbral.Identity.Links.Attempt.{attempt_event, superseded_by, issued, is_not_older}
use umbral.Identity.Links.Issue.{Issuer, issue, replace, accepted}
use umbral.Identity.Attempts.{
  IsTable, Evolves, Evolves-refl, Evolves-trans, is_consumed, issued_is_unused,
  current_attempt-IsCurrent, audited_then-Evolves,
}
use umbral.Identity.Evolution.Begin.{update-Evolves, audited-Evolves, IsUnused}

module _ (c : Issuer) (stamp : ℕ → Stamp) (attempt_id now : ℕ) where
  issue-Evolves :
      (generated : GeneratedMagicLink) (acceptance : EmailAcceptance) (a : MagicLinkAttempt)
      (s : IdentityStore)
      → IsTable s.attempts
      → find_attempt a.id s ≡ some a
      → is_consumed a.state ≡ false
      → Evolves s.attempts (issue c stamp attempt_id now generated acceptance a s).0.attempts
  unfolding issue
  issue-Evolves generated acceptance a s table at unused =
      let b = issued generated acceptance a in
      let saved : Evolves s.attempts (save_attempt b s).attempts =
        update-Evolves a.id a b s table at unused (unfold issued in refl) in
      elim (Option-cases (find_request a.request_id s)) [
        | inl e ↦ unfold save_attempt find_request in rw (e, issue) saved
        | inr (request, e) ↦
            unfold find_request in
            rw (e, issue)
              (audited-Evolves s.attempts
                (attempt_event (stamp 1) "magic_link.issued.v1" "accepted" "email_accepted"
                  attempt_id request)
                (replied tt) (save_attempt b s) saved)
      ]

  replaced-Evolves :
      (generated : GeneratedMagicLink) (acceptance : EmailAcceptance) (a current : MagicLinkAttempt)
      (event : AccessAuditEvent) (s : IdentityStore)
      → IsTable s.attempts
      → find_attempt a.id s ≡ some a
      → is_consumed a.state ≡ false
      → find_attempt current.id s ≡ some current
      → is_consumed current.state ≡ false
      → (current.id == a.id) ≡ false
      → Evolves s.attempts
          (audited_then event
            (issue c stamp attempt_id now generated acceptance a)
            (save_attempt (superseded_by a.id acceptance.accepted_at current) s)).0.attempts
  replaced-Evolves generated acceptance a current event s table at unused found open_link apart =
      let b = superseded_by a.id acceptance.accepted_at current in
      let saved : Evolves s.attempts (save_attempt b s).attempts =
        update-Evolves current.id current b s table found open_link
          (unfold superseded_by in refl) in
      let beside : Dict.get a.id (save_attempt b s).attempts ≡ some a =
        unfold save_attempt superseded_by find_attempt in
        rw (get-set current.id a.id b s.attempts, apart) at in
      audited_then-Evolves s.attempts event (issue c stamp attempt_id now generated acceptance a)
        (save_attempt b s) saved
        (λ t same.
          let before : Evolves s.attempts t.attempts = rw (same) saved in
          let there : find_attempt a.id t ≡ some a = unfold find_attempt in (rw (same) beside) in
          Evolves-trans s.attempts t.attempts
            (issue c stamp attempt_id now generated acceptance a t).0.attempts before
            (issue-Evolves generated acceptance a t before.table there unused))

  replace-Evolves :
      (generated : GeneratedMagicLink) (acceptance : EmailAcceptance) (a current : MagicLinkAttempt)
      (s : IdentityStore)
      → IsTable s.attempts
      → find_attempt a.id s ≡ some a
      → is_consumed a.state ≡ false
      → find_attempt current.id s ≡ some current
      → is_consumed current.state ≡ false
      → (current.id == a.id) ≡ false
      → Evolves s.attempts
          (replace c stamp attempt_id now generated acceptance a current s).0.attempts
  unfolding replace
  replace-Evolves generated acceptance a current s table at unused found open_link apart =
      elim (Option-cases (find_request current.request_id s)) [
        | inl e ↦ rw (e, replace) (Evolves-refl s.attempts table)
        | inr (r, e) ↦ elim (Option-cases (find_request a.request_id s)) [
          | inl k ↦ rw (e, k, replace) (Evolves-refl s.attempts table)
          | inr (q, k) ↦ elim (Bool-cases (is_not_older r q)) [
            | inl m ↦
                let b = superseded_by current.id acceptance.accepted_at a in
                let event =
                  attempt_event (stamp 0) "magic_link.superseded.v1" "denied" "link_superseded" a.id
                    q in
                let left : replace c stamp attempt_id now generated acceptance a current s
                    ≡ audited_then event (λ t. (t, replied tt)) (save_attempt b s) =
                  rw (e, k, m, replace) refl in
                rw (left) (
                  audited-Evolves s.attempts event (replied tt) (save_attempt b s)
                    (update-Evolves a.id a b s table at unused (unfold superseded_by in refl)))
            | inr m ↦
                let event =
                  attempt_event (stamp 0) "magic_link.superseded.v1" "denied" "link_superseded"
                    current.id r in
                let left : replace c stamp attempt_id now generated acceptance a current s
                    ≡ audited_then event (issue c stamp attempt_id now generated acceptance a)
                        (save_attempt (superseded_by a.id acceptance.accepted_at current) s) =
                  rw (e, k, m, replace) refl in
                rw (left) (
                  replaced-Evolves generated acceptance a current event s table at unused found
                    open_link apart)
          ]
        ]
      ]

  pub accepted-Evolves :
      (r : GeneratedMagicLink × EmailAcceptance) (s : IdentityStore)
      → IsTable s.attempts
      → IsUnused c stamp attempt_id now s
      → Evolves s.attempts (accepted c stamp attempt_id now r s).0.attempts
  unfolding accepted
  accepted-Evolves (generated, acceptance) s table unused =
      elim (Option-cases (find_attempt attempt_id s)) [
        | inl e ↦ rw (e, accepted) (Evolves-refl s.attempts table)
        | inr (a, e) ↦
            let at : find_attempt a.id s ≡ some a =
              unfold find_attempt in
              (ap (λ i. Dict.get i s.attempts) (table.keyed attempt_id a (unfold find_attempt in e))
                ∙ (unfold find_attempt in e)) in
            let issues = issue-Evolves generated acceptance a s table at (unused a e) in
            elim (Option-cases (current_attempt a.invitation_id a.product_user_id s)) [
              | inl k ↦ rw (e, k, accepted) issues
              | inr (current, k) ↦ elim (Bool-cases (current.id == a.id)) [
                | inl m ↦ rw (e, k, m, accepted) issues
                | inr m ↦
                    let (on, found) =
                      current_attempt-IsCurrent a.invitation_id a.product_user_id s current table
                        k in
                    rw (e, k, m, accepted)
                      (replace-Evolves generated acceptance a current s table at (unused a e)
                        (unfold find_attempt in found) (issued_is_unused current.state on) m)
              ]
            ]
      ]
