-- ===== src/Identity/Guarantees/Limits.antt =====
-- Who is sent a magic link (src/umbral/application/identity/access.py, `request_magic_link`).
use umbral.Prelude.{
  ℕ, ◌<◌, String, Bool, true, false, ◌||◌, Option, none, some, ◌≡◌, refl, ◌↔◌, nat_eq, string_eq,
  ◌==◌, leb, arith, ◌⊎◌, inl, inr, Bool-cases, Option-cases, if◌then◌else◌, contains,
}
use umbral.Prelude.Dict
use umbral.Prelude.Dict.{get-set_self}
use umbral.Text.{PyText}
use umbral.Identity.Models.{ProductUser, Invitation, MagicLinkAttempt, AttemptState, Reply, replied}
use umbral.Identity.Store.{IdentityStore, append_audit, transaction}
use umbral.Identity.Events.{validate_event, is_registered}
use umbral.Identity.Transactions.{committed-made}
use umbral.Identity.LinkStore.{
  recent_requests, invitation_for_email, user_for_email, link_event, save_request, save_attempt,
}
use umbral.Identity.Links.Request.{
  LinkRequest, normalized_or_raw, is_open, is_member, decide, decision_reason, decision_of,
  Submission, new_attempt, new_request, requested_event, submit_attempt, start_attempt,
  record_request, request_magic_link,
}
use umbral.Identity.Guarantees.Sessions.{audited_then-valid}

decide-eligible :
    (email_limited origin_limited eligible : Bool)
    → ((decide email_limited origin_limited eligible == "eligible") ≡ true)
      ↔ ((email_limited ≡ false) × ((origin_limited ≡ false) × (eligible ≡ true)))
unfolding decide
decide-eligible true true eligible = ground arith
decide-eligible true false eligible = ground arith
decide-eligible false true eligible = ground arith
decide-eligible false false true = ground arith
decide-eligible false false false = ground arith

requested_is_valid :
    (e o k : Bool)
    → validate_event "magic_link.requested.v1"
        (if decide e o k == "eligible" then "accepted" else "denied")
        (decision_reason (decide e o k))
      ≡ replied tt
unfolding decide decision_reason validate_event is_registered Dict.get contains
requested_is_valid true true true = refl
requested_is_valid true true false = refl
requested_is_valid true false true = refl
requested_is_valid true false false = refl
requested_is_valid false true true = refl
requested_is_valid false true false = refl
requested_is_valid false false true = refl
requested_is_valid false false false = refl

issue_failed_is_valid :
    validate_event "magic_link.issue_failed.v1" "failed" "provider_unavailable" ≡ replied tt
unfolding validate_event is_registered Dict.get contains
issue_failed_is_valid = refl

module _ (t : PyText) (fingerprint : String → ℕ) where
  -- The address is invited or a member's, and neither it nor the origin has reached its limit in the
  -- last quarter of an hour.
  pub record IsEligible (q : LinkRequest) (s : IdentityStore) : Type 0 where
    pub known :
        (is_open (invitation_for_email (normalized_or_raw t q.email) s)
          || is_member (user_for_email (normalized_or_raw t q.email) s))
        ≡ true
    pub below_email :
        recent_requests
          (λ r. r.email_fingerprint)
          (fingerprint (normalized_or_raw t q.email))
          q.now
          s
        < 3
    pub below_origin :
        recent_requests (λ r. r.origin_fingerprint) (fingerprint q.origin_fingerprint) q.now s < 20

  decision_of-IsEligible :
      (q : LinkRequest) (s : IdentityStore)
      → ((decision_of t fingerprint q s == "eligible") ≡ true) ↔ IsEligible q s
  unfolding decision_of
  decision_of-IsEligible q s =
      let email = normalized_or_raw t q.email in
      let m = recent_requests (λ r. r.email_fingerprint) (fingerprint email) q.now s in
      let n =
        recent_requests (λ r. r.origin_fingerprint) (fingerprint q.origin_fingerprint) q.now s in
      let (to, back) =
        decide-eligible (leb 3 m) (leb 20 n)
          (is_open (invitation_for_email email s) || is_member (user_for_email email s)) in
      (
        λ h.
            let (a, (b, k)) = to h in
            record { known = k; below_email = ground (arith, a); below_origin = ground (arith, b) },
        λ e. back (ground (arith, e.below_email), (ground (arith, e.below_origin), e.known)),
      )

  -- What a started attempt leaves.
  abbrev IsStarted : ℕ → IdentityStore × Reply (Unit {0}) → Type 0
  IsStarted id (u, r) =
      (r ≡ replied tt) × ((a : MagicLinkAttempt) × (Dict.get id u.attempts ≡ some a))

  submit_attempt-IsStarted :
      (runtime : Submission t fingerprint) (q : LinkRequest) (a : MagicLinkAttempt)
      (s : IdentityStore)
      → Dict.get a.id s.attempts ≡ some a
      → IsStarted a.id (submit_attempt t fingerprint runtime q a s)
  unfolding submit_attempt save_attempt
  submit_attempt-IsStarted none q a s at = (refl, (a, at))
  submit_attempt-IsStarted (some submit) q a s at =
      elim (Option-cases (submit a.id q.correlation_id)) [
        | inr (e, k) ↦
            let b = record a { job_execution_id = some e } in
            rw (k, submit_attempt) (refl, (b, get-set_self a.id b s.attempts))
        | inl k ↦
            let b : MagicLinkAttempt = record a {
              state = AttemptState.failed;
              failure_reason = some "job_submission_failed";
            } in
            let event =
              record (link_event (q.stamp 1) "magic_link.issue_failed.v1" "failed"
                "provider_unavailable" q.correlation_id) { attempt_id = some a.id } in
            let left : submit_attempt t fingerprint (some submit) q a s
                ≡ (append_audit event (save_attempt b s), replied tt) =
              rw (k, submit_attempt)
                (audited_then-valid event (λ u. (u, replied tt)) (save_attempt b s)
                  (unfold link_event in issue_failed_is_valid)) in
            rw (left) (refl, (b, unfold append_audit in get-set_self a.id b s.attempts))
      ]

  -- The answer of a request, and the attempt that it makes exactly when it is eligible.
  abbrev pub IsAnswered : LinkRequest → IdentityStore → IdentityStore × Reply (Unit {0}) → Type 0
  IsAnswered q s (u, r) =
      (r ≡ replied tt)
      × ((IsEligible q s × ((a : MagicLinkAttempt) × (Dict.get q.attempt_id u.attempts ≡ some a)))
          ⊎ ((IsEligible q s → ⊥) × (u.attempts ≡ s.attempts)))

  start_attempt-IsAnswered :
      (runtime : Submission t fingerprint) (q : LinkRequest) (i : Option Invitation)
      (user : Option ProductUser) (s u : IdentityStore)
      → u.attempts ≡ s.attempts
      → IsAnswered q s
          (start_attempt t fingerprint runtime q (decision_of t fingerprint q s) i user u)
  unfolding start_attempt save_attempt
  start_attempt-IsAnswered runtime q i user s u same =
      let d = decision_of t fingerprint q s in
      let (to, back) = decision_of-IsEligible q s in
      elim (Bool-cases (d == "eligible")) [
        | inr e ↦
            let left : start_attempt t fingerprint runtime q d i user u ≡ (u, replied tt) =
              rw (e, start_attempt) refl in
            rw (left) (refl, inr (λ k. absurd (ground (arith, e, back k)), same))
        | inl e ↦
            let a = new_attempt q i user in
            let saved = save_attempt a u in
            let left : start_attempt t fingerprint runtime q d i user u
                ≡ submit_attempt t fingerprint runtime q a saved =
              rw (e, start_attempt) refl in
            let (returned, made) =
              submit_attempt-IsStarted runtime q a saved (get-set_self a.id a u.attempts) in
            rw (left) (returned, inl (to e, unfold new_attempt in made))
      ]

  recorded :
      (runtime : Submission t fingerprint) (q : LinkRequest) (i : Option Invitation)
      (user : Option ProductUser) (s : IdentityStore)
      → record_request t fingerprint runtime q (decision_of t fingerprint q s) i user s
        ≡ start_attempt t fingerprint runtime q (decision_of t fingerprint q s) i user (
            append_audit
              (requested_event t fingerprint q (decision_of t fingerprint q s))
              (save_request (new_request t fingerprint q (decision_of t fingerprint q s)) s))
  unfolding record_request
  recorded runtime q i user s =
      let d = decision_of t fingerprint q s in
      let email = normalized_or_raw t q.email in
      audited_then-valid (requested_event t fingerprint q d)
        (start_attempt t fingerprint runtime q d i user)
        (save_request (new_request t fingerprint q d) s)
        (unfold requested_event link_event decision_of in
          requested_is_valid
            (leb 3 (recent_requests (λ r. r.email_fingerprint) (fingerprint email) q.now s))
            (leb 20 (
              recent_requests (λ r. r.origin_fingerprint) (fingerprint q.origin_fingerprint) q.now
                s))
            (is_open (invitation_for_email email s) || is_member (user_for_email email s)))

  -- Every request gets the same answer. It makes an attempt exactly when the address is invited or a
  -- member's and both limits are kept: three requests of the address and twenty of the origin in a
  -- quarter of an hour. Otherwise the attempts are as they were.
  pub request_magic_link-IsAnswered :
      (runtime : Submission t fingerprint) (q : LinkRequest) (s : IdentityStore)
      → IsAnswered q s (request_magic_link t fingerprint runtime q s)
  unfolding request_magic_link transaction append_audit save_request
  request_magic_link-IsAnswered runtime q s =
      let email = normalized_or_raw t q.email in
      let i = invitation_for_email email s in
      let user = user_for_email email s in
      let d = decision_of t fingerprint q s in
      let u =
        append_audit (requested_event t fingerprint q d)
          (save_request (new_request t fingerprint q d) s) in
      let body = record_request t fingerprint runtime q d i user s in
      let answered : IsAnswered q s body =
        rw (recorded runtime q i user s) (start_attempt-IsAnswered runtime q i user s u refl) in
      let left : request_magic_link t fingerprint runtime q s ≡ body =
        committed-made s body tt answered.0 in
      rw (left) answered
