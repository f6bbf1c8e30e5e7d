-- ===== src/Jobs/Guarantees/Attempts.antt =====
-- Attempts and leases: when a claim is granted, and that an ended execution is never claimed again.
use umbral.Prelude.{
  ℕ, ◌+◌, ◌*◌, ◌≤◌, ◌<◌, ◌≡◌, ◌∙◌, ◌↔◌, refl, String, true, none, some, Option, arith, nat_eq, inl,
  inr, Option-cases,
}
use umbral.Prelude.Dict
use umbral.Prelude.Dict.{get-set_self}
use umbral.Jobs.Contracts.{is_terminal_state}
use umbral.Jobs.Failures.{second}
use umbral.Jobs.State.{Execution, JobClaim, Config, Runtime, init}
use umbral.Jobs.Submit.{put_execution}
use umbral.Jobs.Lease.{
  is_running, is_retry_wait, lease_expired, leased, job_claim, claim_execution, claim,
}
use umbral.Jobs.Invariant.{is_waiting}
use umbral.Jobs.Steps.{Reach}
use umbral.Jobs.Steps.Invariant.{Reach-IsConsistent}
use umbral.Jobs.Steps.Inert.{Reach-Stands}

-- From an empty runtime, once an execution has succeeded or failed, no calls of the port, however
-- many, change any field of it.
pub terminal_unchanged :
    (c : Config) (now id : ℕ) (r s : Runtime) (e : Execution)
    → Reach c (init now) r
    → Dict.get id r.executions ≡ some e
    → is_terminal_state e.state ≡ true
    → Reach c r s
    → Dict.get id s.executions ≡ some e
terminal_unchanged c now id r s e p at ended q =
    Reach-Stands id e (ground arith) (Reach-IsConsistent c now r p) q at

-- An attempt may be claimed: it is the next one of an execution that waits and is available.
pub record IsClaimable (id n : ℕ) (r : Runtime) (e : Execution) : Type 0 where
  pub present : Dict.get id r.executions ≡ some e
  pub is_next : n ≡ e.attempt_count + 1
  pub waiting : is_waiting e.state ≡ true
  pub available : e.available_at ≤ r.now

abbrev pub IsGranted : Runtime × Option JobClaim → Type 0
IsGranted (r, none) = ⊥
IsGranted (r, some k) = Unit

claim_execution-granted :
    (c : Config) (id n : ℕ) (w : String) (e : Execution) (r : Runtime)
    → IsGranted (claim_execution c id n w e r)
    → (n ≡ e.attempt_count + 1) × (is_waiting e.state ≡ true) × (e.available_at ≤ r.now)
unfolding claim_execution is_terminal_state is_running is_retry_wait
claim_execution-granted c id n w e r g = ground arith

claim_execution-grants :
    (c : Config) (id n : ℕ) (w : String) (e : Execution) (r : Runtime)
    → n ≡ e.attempt_count + 1
    → is_waiting e.state ≡ true
    → e.available_at ≤ r.now
    → claim_execution c id n w e r
      ≡ (put_execution id (leased c n w r.now e) r, some (job_claim c id n w e))
unfolding claim_execution is_terminal_state is_running is_retry_wait
claim_execution-grants c id n w e r h k a = ground arith

claim-granted :
    (c : Config) (id n : ℕ) (w : String) (r : Runtime)
    → IsGranted (claim c id n w r)
    → (e : Execution) × IsClaimable id n r e
unfolding claim
claim-granted c id n w r g = elim (Option-cases (Dict.get id r.executions)) [
  | inl none_there ↦ absurd (rw (none_there, claim) at g)
  | inr (e, at) ↦
      let (a, b, d) = claim_execution-granted c id n w e r (rw (at, claim) at g) in
      (e, record { present = at; is_next = a; waiting = b; available = d })
]

-- The next attempt of an execution that waits and is available is granted: the execution runs, its
-- attempt is counted, and the worker holds the lease until the configured time has passed.
pub claim-grants :
    (c : Config) (id n : ℕ) (w : String) (r : Runtime) (e : Execution)
    → IsClaimable id n r e
    → (Dict.get id (claim c id n w r).0.executions ≡ some (leased c n w r.now e))
      × ((claim c id n w r).1 ≡ some (job_claim c id n w e))
unfolding claim put_execution
claim-grants c id n w r e h =
    rw (h.present, claim)
      (rw (claim_execution-grants c id n w e r h.is_next h.waiting h.available)
        (get-set_self id (leased c n w r.now e) r.executions, refl))

-- A claim is granted exactly when it is for the next attempt of an execution that waits and is
-- available by the runtime's clock.
pub claim-IsGranted_iff :
    (c : Config) (id n : ℕ) (w : String) (r : Runtime)
    → IsGranted (claim c id n w r) ↔ ((e : Execution) × IsClaimable id n r e)
unfolding claim
claim-IsGranted_iff c id n w r = (
  claim-granted c id n w r,
  λ (e, h).
      rw (h.present, claim)
        (rw (claim_execution-grants c id n w e r h.is_next h.waiting h.available) tt),
)

-- A granted claim excludes every other until its lease ends: while the lease is good, a claim of the
-- same execution by anybody, for any attempt, is refused and changes nothing.
pub lease_excludes :
    (c : Config) (id n m : ℕ) (w v : String) (r s : Runtime) (e : Execution)
    → IsClaimable id n r e
    → Dict.get id s.executions ≡ Dict.get id (claim c id n w r).0.executions
    → s.now < r.now + c.lease_seconds * second
    → claim c id m v s ≡ (s, none)
unfolding claim claim_execution is_terminal_state is_running is_retry_wait lease_expired leased
lease_excludes c id n m w v r s e h same early =
    let at = same ∙ (claim-grants c id n w r e h).0 in rw (at, claim) (ground arith)
