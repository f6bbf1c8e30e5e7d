-- ===== src/Jobs/Invariant/Outcome.antt =====
-- Recorded outcomes keep the runtime consistent, also those whose result is refused.
use umbral.Prelude.{
  ℕ, ◌+◌, ◌*◌, ◌≡◌, ◌∙◌, refl, false, true, some, arith, nat_eq, inl, inr, String, Option-cases,
  Bool-cases, Result-cases, length,
}
use umbral.Prelude.Dict
use umbral.Prelude.Dict.{Dict}
use umbral.Jobs.Failures.{second, JobError, FailureClassification, classify_failure}
use umbral.Jobs.State.{JsonScalar, Execution, JobClaim, Config, Runtime}
use umbral.Jobs.Submit.{put_execution}
use umbral.Jobs.Lease.{is_running}
use umbral.Jobs.Outcome.{
  json_object, Outcome, returned, raised, is_stale, released, succeed, classified, retry_delay,
  settle_failure, settle, record_outcome,
}
use umbral.Jobs.Invariant.{IsConsistent, put_execution-IsConsistent}
use umbral.Jobs.Invariant.Lease.{
  length-update_last, schedule_retry-IsConsistent, fail_execution-IsConsistent,
}

length-released : (now : ℕ) (e : Execution) → length (released now e).attempts ≡ length e.attempts
unfolding released
length-released now e = length-update_last _ e.attempts

length-classified :
    (k : FailureClassification) (e : Execution)
    → length (classified k e).attempts ≡ length e.attempts
unfolding classified
length-classified k e = length-update_last _ e.attempts

length-succeed :
    (now : ℕ) (v : Dict String JsonScalar) (e : Execution)
    → length (succeed now v e).attempts ≡ length e.attempts
unfolding succeed
length-succeed now v e = length-update_last _ e.attempts

not_stale-running :
    (claim : JobClaim) (now : ℕ) (e : Execution)
    → is_stale claim now e ≡ false
    → is_running e.state ≡ true
unfolding is_stale
not_stale-running claim now e h = ground arith

module _ (c : Config) (r : Runtime) (h : IsConsistent r) (id : ℕ) (e : Execution)
    (at : Dict.get id r.executions ≡ some e) (busy : is_running e.state ≡ true) where
  settle_failure-IsConsistent :
      (failure : JobError) → IsConsistent (settle_failure id failure (released r.now e) r)
  unfolding settle_failure classified released
  settle_failure-IsConsistent failure =
      let k = classify_failure failure in
      let x = classified k (released r.now e) in
      let same = length-classified k (released r.now e) ∙ length-released r.now e in
      ground (
        arith,
        schedule_retry-IsConsistent r h id e x at busy refl refl refl same refl
            (r.now + retry_delay failure e.attempt_count * second),
        fail_execution-IsConsistent r h id e x at busy refl refl refl same refl,
      )

  released-IsConsistent : IsConsistent (put_execution id (released r.now e) r)
  unfolding released is_running
  released-IsConsistent =
      put_execution-IsConsistent r h id e (released r.now e) at
        (ground (arith, h.sound id e, length-released r.now e)) (λ n f. ground arith)
        (λ w. ground arith)

  succeed-IsConsistent :
      (v : Dict String JsonScalar)
      → IsConsistent (put_execution id (succeed r.now v (released r.now e)) r)
  unfolding released succeed is_running
  succeed-IsConsistent v =
      put_execution-IsConsistent r h id e (succeed r.now v (released r.now e)) at
        (ground
          (arith, h.sound id e, length-released r.now e, length-succeed r.now v (released r.now e)))
        (λ n f. ground arith) (λ w. ground arith)

  settle-IsConsistent : (o : Outcome) → IsConsistent (settle c id o (released r.now e) r).0
  unfolding settle
  settle-IsConsistent (raised failure) = settle_failure-IsConsistent failure
  settle-IsConsistent (returned value) = elim (Result-cases (json_object c value)) [
    | inl (v, eq) ↦ rw (eq, settle) (succeed-IsConsistent v)
    | inr (f, eq) ↦ rw (eq, settle) released-IsConsistent
  ]

-- The outcome of a claim, whatever it is, keeps the runtime consistent.
pub record_outcome-IsConsistent :
    (c : Config) (claim : JobClaim) (o : Outcome) (r : Runtime)
    → IsConsistent r
    → IsConsistent (record_outcome c claim o r).0
unfolding record_outcome
record_outcome-IsConsistent c claim o r h =
    elim (Option-cases (Dict.get claim.execution_id r.executions)) [
      | inl e ↦ rw (e, record_outcome) h
      | inr (x, e) ↦
          rw (e, record_outcome)
            (elim (Bool-cases (is_stale claim r.now x)) [
              | inl stale ↦ rw stale h
              | inr holds ↦ rw holds (
                  settle-IsConsistent c r h claim.execution_id x e
                    (not_stale-running claim r.now x holds) o)
            ])
    ]
