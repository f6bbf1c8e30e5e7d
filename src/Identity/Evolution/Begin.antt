-- ===== src/Identity/Evolution/Begin.antt =====
-- The first transaction of `issue_attempt` on the attempts (src/umbral/application/identity/access.py).
use umbral.Prelude.{
  ℕ, String, true, false, Option, none, some, ◌≡◌, refl, ap, ◌∙◌, sym, nat_eq, string_eq, arith,
  inl, inr, Bool-cases, Option-cases,
}
use umbral.Prelude.Dict
use umbral.Prelude.Dict.{get-set, get-set_self}
use umbral.Identity.Models.{
  MagicLinkRequest, MagicLinkAttempt, AttemptState, AccessAuditEvent, Reply, replied, Stamp,
}
use umbral.Identity.Store.{IdentityStore, find_user}
use umbral.Identity.Events.{validate_event}
use umbral.Identity.Transactions.{Reply-cases}
use umbral.Identity.LinkStore.{
  find_invitation, find_request, save_attempt, find_attempt, audited_then,
}
use umbral.Identity.Links.Check.{find_by}
use umbral.Identity.Links.Attempt.{
  is_pending_state, address_of, is_withdrawn, failed_with, attempt_event, is_correlated, issuing,
}
use umbral.Identity.Links.Issue.{Issuer, begin, not_eligible, begun}
use umbral.Identity.Attempts.{
  Attempts, IsTable, Evolves, Evolves-refl, Evolves-set, is_consumed, audited_then-Evolves,
}

-- A write over an attempt that was not consumed.
pub update-Evolves :
    (id : ℕ) (a b : MagicLinkAttempt) (s : IdentityStore)
    → IsTable s.attempts
    → find_attempt id s ≡ some a
    → is_consumed a.state ≡ false
    → b.id ≡ a.id
    → Evolves s.attempts (save_attempt b s).attempts
unfolding find_attempt save_attempt
update-Evolves id a b s table at unused same = Evolves-set b s.attempts table (λ old k.
    ground
      (arith, at, unused, ap (λ i. Dict.get i s.attempts) (sym (same ∙ table.keyed id a at)) ∙ k))

pub audited-Evolves {ℓ} :
    {A : Type ℓ} (d : Attempts) (event : AccessAuditEvent) (r : Reply A) (s : IdentityStore)
    → Evolves d s.attempts
    → Evolves d (audited_then event (λ t. (t, r)) s).0.attempts
audited-Evolves d event r s h =
    audited_then-Evolves d event (λ t. (t, r)) s h (λ t same. rw (same) h)

pending_is_unused :
    (state : AttemptState) → is_pending_state state ≡ true → is_consumed state ≡ false
unfolding is_pending_state is_consumed
pending_is_unused state h = ground (arith, h)

module _ (c : Issuer) (stamp : ℕ → Stamp) (attempt_id now : ℕ) where
  -- The attempt of a call goes on unconsumed.
  abbrev pub IsUnused : IdentityStore → Type 0
  IsUnused s =
      (a : MagicLinkAttempt) → find_attempt attempt_id s ≡ some a → is_consumed a.state ≡ false

  abbrev pub IsOpening :
      IdentityStore → IdentityStore × Reply (Option (String × MagicLinkRequest)) → Type 0
  IsOpening s (t, r) =
      Evolves s.attempts t.attempts
      × ((p : String × MagicLinkRequest) → r ≡ replied (some p) → IsUnused t)

  not_eligible-IsOpening :
      (a : MagicLinkAttempt) (request : MagicLinkRequest) (s : IdentityStore)
      → IsTable s.attempts
      → find_attempt attempt_id s ≡ some a
      → is_consumed a.state ≡ false
      → IsOpening s (not_eligible c stamp attempt_id now a request s)
  unfolding not_eligible audited_then
  not_eligible-IsOpening a request s table at unused = (
    audited-Evolves s.attempts
        (attempt_event (stamp 0) "magic_link.issue_failed.v1" "failed" "not_eligible" attempt_id
          request)
        (replied none) (save_attempt (failed_with "not_eligible" a) s)
        (update-Evolves attempt_id a (failed_with "not_eligible" a) s table at unused
          (unfold failed_with in refl)),
    λ p h.
        elim (Reply-cases (validate_event "magic_link.issue_failed.v1" "failed" "not_eligible")) [
          | inl (u, e) ↦ absurd (ground (arith, rw (e, not_eligible, audited_then) at h))
          | inr (f, e) ↦ absurd (ground (arith, rw (e, not_eligible, audited_then) at h))
        ],
  )

  begin-IsOpening :
      (correlation_id : Option ℕ) (a : MagicLinkAttempt) (request : MagicLinkRequest)
      (s : IdentityStore)
      → IsTable s.attempts
      → find_attempt attempt_id s ≡ some a
      → is_consumed a.state ≡ false
      → IsOpening s (begin c stamp attempt_id now correlation_id a request s)
  unfolding begin
  begin-IsOpening correlation_id a request s table at unused =
      let invitation = find_by find_invitation a.invitation_id s in
      let user = find_by find_user a.product_user_id s in
      let refused = not_eligible-IsOpening a request s table at unused in
      elim (Bool-cases (is_correlated correlation_id request.correlation_id)) [
        | inr e ↦ rw (e, begin) (Evolves-refl s.attempts table, λ p h. absurd (ground (arith, h)))
        | inl e ↦ elim (Bool-cases (is_withdrawn invitation user)) [
          | inl k ↦ rw (e, k, begin) refused
          | inr k ↦ elim (Option-cases (address_of invitation user)) [
            | inl m ↦ rw (e, k, m, begin) refused
            | inr (address, m) ↦
                rw (e, k, m, begin)
                  (
                    update-Evolves attempt_id a (issuing a) s table at unused
                        (unfold issuing in refl),
                    λ p h b found.
                        unfold save_attempt issuing find_attempt is_consumed in
                        ground (
                          arith,
                          found,
                          get-set_self a.id (issuing a) s.attempts,
                          table.keyed attempt_id a at,
                        ),
                  )
          ]
        ]
      ]

  pub begun-IsOpening :
      (correlation_id : Option ℕ) (s : IdentityStore)
      → IsTable s.attempts
      → IsOpening s (begun c stamp attempt_id now correlation_id s)
  unfolding begun
  begun-IsOpening correlation_id s table = elim (Option-cases (find_attempt attempt_id s)) [
    | inl e ↦ rw (e, begun) (Evolves-refl s.attempts table, λ p h. absurd (ground (arith, h)))
    | inr (a, e) ↦ elim (Bool-cases (is_pending_state a.state)) [
      | inr k ↦ rw (e, k, begun) (Evolves-refl s.attempts table, λ p h. absurd (ground (arith, h)))
      | inl k ↦ elim (Option-cases (find_request a.request_id s)) [
        | inl m ↦
            rw (e, k, m, begun) (Evolves-refl s.attempts table, λ p h. absurd (ground (arith, h)))
        | inr (request, m) ↦
            let left : begun c stamp attempt_id now correlation_id s
                ≡ begin c stamp attempt_id now correlation_id a request s =
              rw (e, k, m, begun) refl in
            rw (left)
              (begin-IsOpening correlation_id a request s table e (pending_is_unused a.state k))
      ]
    ]
  ]
