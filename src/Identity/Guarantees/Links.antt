-- ===== src/Identity/Guarantees/Links.antt =====
-- A magic link is used at most once (src/umbral/application/identity/access.py).
use umbral.Prelude.{
  ℕ, String, true, Option, none, some, ◌≡◌, refl, ap, nat_eq, arith, ◌⊎◌, inl, inr, Bool-cases,
  Option-cases,
}
use umbral.Prelude.Dict
use umbral.Text.{PyText}
use umbral.Identity.Models.{
  MagicLinkAttempt, AttemptState, IdentityFault, link_unavailable, is_issued, current_and_valid,
  Reply, replied, raised, Stamp,
}
use umbral.Identity.Store.{IdentityStore, committed, transaction}
use umbral.Identity.Events.{validate_event}
use umbral.Identity.Transactions.{Reply-cases, committed-raised}
use umbral.Identity.LinkStore.{find_attempt, find_request, save_attempt, audited_then}
use umbral.Identity.Links.Ports.{IdentityProofPort, SessionResult}
use umbral.Identity.Links.Check.{Outside, Fresh, unavailable_reason, noted_then, refuse, checked}
use umbral.Identity.Links.Confirm.{with_proof, confirm_magic_link}
use umbral.Identity.Links.Request.{LinkRequest, Submission, request_magic_link}
use umbral.Identity.Links.Issue.{Issuer, issue_attempt}
use umbral.Identity.Links.Sessions.{logout}
use umbral.Identity.Attempts.{IsTable, Evolves, Evolves-refl, Evolves-trans, is_consumed}
use umbral.Identity.Evolution.Request.{request_magic_link-Evolves, logout-Evolves}
use umbral.Identity.Evolution.Issue.{issue_attempt-Evolves}
use umbral.Identity.Evolution.Confirm.{IsDone, refused_here, with_proof-IsDone, valid_is_unused}

noted_then-raised {ℓ} :
    {A : Type ℓ} (stamp : Stamp) (event_type reason : String) (a : MagicLinkAttempt)
    (f : IdentityFault) (s : IdentityStore)
    → (g : IdentityFault) × ((noted_then {A = A} stamp event_type reason a (refuse f) s).1
        ≡ raised g)
unfolding noted_then audited_then
noted_then-raised stamp event_type reason a f s =
    elim (Option-cases (find_request a.request_id s)) [
      | inl e ↦ (f, rw (e, noted_then) refl)
      | inr (q, e) ↦ elim (Reply-cases (validate_event event_type "denied" reason)) [
        | inr (g, k) ↦ (g, rw (e, k, noted_then, audited_then) refl)
        | inl (u, k) ↦ (f, rw (e, k, noted_then, audited_then) refl)
      ]
    ]

-- What the first transaction says: it refuses the link, or the link is issued and good.
abbrev IsSettled : Stamp → ℕ → ℕ → IdentityStore → Type 0
IsSettled stamp attempt_id now s =
    ((f : IdentityFault) × ((checked stamp attempt_id now s).1 ≡ raised f))
    ⊎ ((a : MagicLinkAttempt) × (find_attempt attempt_id s ≡ some a)
        × (current_and_valid now a ≡ true)
        × (checked stamp attempt_id now s ≡ (s, replied tt)))

checked-IsSettled :
    (stamp : Stamp) (attempt_id now : ℕ) (s : IdentityStore) → IsSettled stamp attempt_id now s
unfolding checked
checked-IsSettled stamp attempt_id now s = elim (Option-cases (find_attempt attempt_id s)) [
  | inl e ↦ inl (link_unavailable "link_invalid", rw (e, checked) refl)
  | inr (a, e) ↦
      let reason = unavailable_reason a.state in
      elim (Bool-cases (is_issued a.state)) [
        | inr k ↦
            let (g, h) =
              noted_then-raised {A = Unit {0}} stamp "magic_link.reused.v1" reason a
                (link_unavailable reason) s in
            inl (g, rw (e, k, checked) h)
        | inl k ↦ elim (Bool-cases (current_and_valid now a)) [
          | inl m ↦ inr (a, e, m, rw (e, k, m, checked) refl)
          | inr m ↦
              let b = record a { state = AttemptState.expired } in
              let (g, h) =
                noted_then-raised {A = Unit {0}} stamp "magic_link.expired.v1" "link_expired" a
                  (link_unavailable "link_expired") (save_attempt b s) in
              inl (g, rw (e, k, m, checked) h)
        ]
      ]
]

-- The check of a link changes nothing, whatever it finds: a link is never stored as expired, and of
-- its reuse or its expiry no event is kept.
pub check_is_not_recorded :
    (stamp : Stamp) (attempt_id now : ℕ) (s : IdentityStore)
    → (transaction (checked stamp attempt_id now) s).0 ≡ s
unfolding transaction
check_is_not_recorded stamp attempt_id now s = elim (checked-IsSettled stamp attempt_id now s) [
  | inl (f, e) ↦ ap (λ r. r.0) (committed-raised s (checked stamp attempt_id now s) f e)
  | inr (a, found, good, e) ↦ unfold committed in ap (λ r. (committed s r).0) e
]

module _ (x : Outside) (provider : IdentityProofPort) (fresh : Fresh) (attempt_id now : ℕ) where
  -- What follows the first transaction.
  abbrev proven : String → IdentityStore × Reply (Unit {0}) → IdentityStore × Reply SessionResult
  proven token_hash (t, raised f) = (t, raised f)
  proven token_hash (t, replied u) = elim (provider.verify_magic_link attempt_id token_hash now) [
    | raised f ↦ (t, raised f)
    | replied proof ↦ with_proof x provider fresh attempt_id now proof t
  ]

  -- A confirmation that the check refuses.
  confirm-barred :
      (token_hash : String) (s : IdentityStore) (f : IdentityFault)
      → (checked (fresh.stamp 0) attempt_id now s).1 ≡ raised f
      → confirm_magic_link x provider fresh attempt_id now token_hash s ≡ (s, raised f)
  unfolding confirm_magic_link transaction
  confirm-barred token_hash s f e =
      ap (proven token_hash) (committed-raised s (checked (fresh.stamp 0) attempt_id now s) f e)

  confirm-proven :
      (token_hash : String) (s : IdentityStore)
      → checked (fresh.stamp 0) attempt_id now s ≡ (s, replied tt)
      → confirm_magic_link x provider fresh attempt_id now token_hash s
        ≡ proven token_hash (s, replied tt)
  unfolding confirm_magic_link transaction
  confirm-proven token_hash s e = ap (proven token_hash) (unfold committed in ap (committed s) e)

  pub confirm_magic_link-IsDone :
      (token_hash : String) (s : IdentityStore)
      → IsTable s.attempts
      → IsDone s.attempts attempt_id
          (confirm_magic_link x provider fresh attempt_id now token_hash s)
  confirm_magic_link-IsDone token_hash s table =
      elim (checked-IsSettled (fresh.stamp 0) attempt_id now s) [
        | inl (f, e) ↦ rw (confirm-barred token_hash s f e) (refused_here attempt_id s f table)
        | inr (a, found, good, e) ↦
            rw (confirm-proven token_hash s e)
              (elim (Reply-cases (provider.verify_magic_link attempt_id token_hash now)) [
                | inr (f, k) ↦ rw (k, proven) (refused_here attempt_id s f table)
                | inl (proof, k) ↦
                    rw (k, proven) (with_proof-IsDone x provider fresh attempt_id now proof s table)
              ])
      ]

  pub confirm-consumed :
      (token_hash : String) (s : IdentityStore) (b : MagicLinkAttempt)
      → find_attempt attempt_id s ≡ some b
      → is_consumed b.state ≡ true
      → (f : IdentityFault) × (confirm_magic_link x provider fresh attempt_id now token_hash s
          ≡ (s, raised f))
  confirm-consumed token_hash s b at used =
      elim (checked-IsSettled (fresh.stamp 0) attempt_id now s) [
        | inl (f, e) ↦ (f, confirm-barred token_hash s f e)
        | inr (a, found, good, e) ↦ absurd (
            ground (arith, found, at, used, valid_is_unused x provider fresh attempt_id now a good))
      ]

-- One call, with new identifiers for new attempts; a call of another service leaves the attempts.
pub data LinkStep (s : IdentityStore) : IdentityStore → Type 0 where
  link_requested :
      (t : PyText) (fingerprint : String → ℕ) (runtime : Submission t fingerprint) (q : LinkRequest)
      → Dict.get q.attempt_id s.attempts ≡ none
      → LinkStep s (request_magic_link t fingerprint runtime q s).0
  link_issued :
      (c : Issuer) (stamp : ℕ → Stamp) (attempt_id now : ℕ) (correlation_id : Option ℕ)
      → LinkStep s (issue_attempt c stamp attempt_id now correlation_id s).0
  link_confirmed :
      (x : Outside) (provider : IdentityProofPort) (fresh : Fresh) (attempt_id now : ℕ)
      (token_hash : String)
      → LinkStep s (confirm_magic_link x provider fresh attempt_id now token_hash s).0
  logged_out :
      (sha256 : String → ℕ) (stamp : Stamp) (correlation_id : Option ℕ) (now : ℕ) (token : String)
      → LinkStep s (logout sha256 stamp correlation_id now token s).0
  elsewhere : (t : IdentityStore) → t.attempts ≡ s.attempts → LinkStep s t

pub data LinkRun (s : IdentityStore) : IdentityStore → Type 0 where
  started : LinkRun s s
  then_called : {t u : IdentityStore} → LinkRun s t → LinkStep t u → LinkRun s u

LinkStep-Evolves :
    (s t : IdentityStore) → LinkStep s t → IsTable s.attempts → Evolves s.attempts t.attempts
LinkStep-Evolves s _ (link_requested t fingerprint runtime q new) table =
    request_magic_link-Evolves t fingerprint runtime q s table new
LinkStep-Evolves s _ (link_issued c stamp attempt_id now correlation_id) table =
    issue_attempt-Evolves c stamp attempt_id now correlation_id s table
LinkStep-Evolves s _ (link_confirmed x provider fresh attempt_id now token_hash) table =
    (confirm_magic_link-IsDone x provider fresh attempt_id now token_hash s table).0
LinkStep-Evolves s _ (logged_out sha256 stamp correlation_id now token) table =
    logout-Evolves sha256 stamp correlation_id now token s table
LinkStep-Evolves s t (elsewhere _ same) table = rw (same) (Evolves-refl s.attempts table)

LinkRun-Evolves :
    (s t : IdentityStore) → LinkRun s t → IsTable s.attempts → Evolves s.attempts t.attempts
LinkRun-Evolves s _ started table = Evolves-refl s.attempts table
LinkRun-Evolves s u (then_called {t} run step) table =
    let before = LinkRun-Evolves s t run table in
    Evolves-trans s.attempts t.attempts u.attempts before (LinkStep-Evolves t u step before.table)

-- A magic link starts at most one session: from a store whose attempts each stand under their own
-- identifier, once a confirmation of an attempt has returned, every confirmation of it after any
-- further run is refused and changes nothing, with whatever token, proof and time.
pub confirm_only_once :
    (x y : Outside) (p r : IdentityProofPort) (fresh again : Fresh) (attempt_id now later : ℕ)
    (token_hash other_hash : String) (s z : IdentityStore) (session : SessionResult)
    → IsTable s.attempts
    → (confirm_magic_link x p fresh attempt_id now token_hash s).1 ≡ replied session
    → LinkRun (confirm_magic_link x p fresh attempt_id now token_hash s).0 z
    → (f : IdentityFault) × (confirm_magic_link y r again attempt_id later other_hash z
        ≡ (z, raised f))
confirm_only_once x y p r fresh again attempt_id now later token_hash other_hash s z session table
      returned run =
    let (grown, done) = confirm_magic_link-IsDone x p fresh attempt_id now token_hash s table in
    let (b, at, used) = done session returned in
    let t = (confirm_magic_link x p fresh attempt_id now token_hash s).0 in
    let kept = (LinkRun-Evolves t z run grown.table).keeps attempt_id b at used in
    confirm-consumed y r again attempt_id later other_hash z b (unfold find_attempt in kept) used
