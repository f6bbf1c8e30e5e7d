-- ===== src/Jobs/Steps/Frame.antt =====
-- What the calls of the port leave of an execution that they are not about.
use umbral.Prelude.{
  ℕ, ◌+◌, ◌≡◌, refl, ◌&&◌, none, some, arith, ltb, ◌*◌, nat_eq, pair_eq, inl, inr, Option-cases,
  Result-cases, Bool-cases, String, String, string_eq,
}
use umbral.Prelude.Dict
use umbral.Prelude.Dict.{
  Dict, get-set, IsDict, Holds, Holds-set, Holds-refl, Holds-keep, Holds-take, IsDict-keep,
  IsDict-take, All-take, keep-All,
}
use umbral.Jobs.Contracts.{JobState, SubmitJob, key}
use umbral.Jobs.State.{Execution, JobClaim, Config, Runtime}
use umbral.Jobs.Submit.{
  new_execution, put_execution, put_outbox, enqueue, resolve, submit_resolved, submit,
}
use umbral.Jobs.Lease.{leased, schedule_retry, fail_execution, abandon, claim_execution, claim}
use umbral.Jobs.Outcome.{
  Outcome, returned, raised, json_object, succeed, classified, retry_delay, is_stale, is_transient,
  released, settle, settle_failure, record_outcome,
}
use umbral.Jobs.Schedule.{schedule_tick}
use umbral.Jobs.Invariant.Lease.{executions-abandon}
use umbral.Jobs.Failures.{JobError, classify_failure, second}
use umbral.Jobs.Steps.Invariant.{SameJobs, schedule_tick-cases}

-- The execution stands under its identifier.
abbrev pub Stands : ℕ → Execution → Runtime → Type 0
Stands id e r = Dict.get id r.executions ≡ some e

module _ (id : ℕ) (e : Execution) where
  pub enqueue-Stands :
      (fresh : ℕ) (command : SubmitJob) (r : Runtime)
      → Dict.get fresh r.executions ≡ none
      → Stands id e r
      → Stands id e (enqueue fresh command r).0
  unfolding enqueue
  enqueue-Stands fresh command r new at =
      ground (arith, get-set fresh id (new_execution fresh command r.now) r.executions)

  pub submit_resolved-Stands :
      (fresh : ℕ) (command : SubmitJob) (r : Runtime)
      → Dict.get fresh r.executions ≡ none
      → Stands id e r
      → Stands id e (submit_resolved fresh command r).0
  unfolding submit_resolved
  submit_resolved-Stands fresh command r new at =
      elim (Option-cases (Dict.get (key command.identity) r.identity_index)) [
        | inl eq ↦ rw (eq, submit_resolved) (enqueue-Stands fresh command r new at)
        | inr (i, eq) ↦ rw (eq, submit_resolved) at
      ]

  pub submit-Stands :
      (c : Config) (fresh : ℕ) (command : SubmitJob) (r : Runtime)
      → Dict.get fresh r.executions ≡ none
      → Stands id e r
      → Stands id e (submit c fresh command r).0
  unfolding submit
  submit-Stands c fresh command r new at = elim (Result-cases (resolve c command)) [
    | inl (k, eq) ↦ rw (eq, submit) (submit_resolved-Stands fresh k r new at)
    | inr (f, eq) ↦ rw (eq, submit) at
  ]

  pub SameJobs-Stands : (r r' : Runtime) → SameJobs r r' → Stands id e r → Stands id e r'
  SameJobs-Stands r r' same at = rw (same.0) at

  pub schedule_tick-Stands :
      (c : Config) (fresh correlation_id : ℕ) (r : Runtime)
      → Dict.get fresh r.executions ≡ none
      → Stands id e r
      → Stands id e (schedule_tick c fresh correlation_id r).0
  schedule_tick-Stands c fresh correlation_id r new at =
      elim (schedule_tick-cases c fresh correlation_id r) [
        | inl same ↦ SameJobs-Stands r (schedule_tick c fresh correlation_id r).0 same at
        | inr (command, b, same) ↦
            SameJobs-Stands (submit c fresh command r).0 (schedule_tick c fresh correlation_id r).0
              same (submit-Stands c fresh command r new at)
      ]

  -- A write to another execution.
  pub put_execution-Stands :
      (j : ℕ) (x : Execution) (r : Runtime)
      → (j ≡ id → ⊥)
      → Stands id e r
      → Stands id e (put_execution j x r)
  unfolding put_execution
  put_execution-Stands j x r ne at = ground (arith, get-set j id x r.executions)

  pub abandon-Stands :
      (j : ℕ) (x : Execution) (r : Runtime)
      → (j ≡ id → ⊥)
      → Stands id e r
      → Stands id e (abandon j x r)
  abandon-Stands j x r ne at =
      let (y, eq) = executions-abandon j x r in rw eq (ground (arith, get-set j id y r.executions))

  pub claim_other-Stands :
      (c : Config) (j n : ℕ) (w : String) (r : Runtime)
      → (j ≡ id → ⊥)
      → Stands id e r
      → Stands id e (claim c j n w r).0
  unfolding claim claim_execution
  claim_other-Stands c j n w r ne at = elim (Option-cases (Dict.get j r.executions)) [
    | inl eq ↦ rw (eq, claim) at
    | inr (x, eq) ↦
        rw (eq, claim)
          (ground (
            arith,
            put_execution-Stands j (leased c n w r.now x) r ne at,
            abandon-Stands j x r ne at,
          ))
  ]

-- What an outcome leaves of the other executions.
executions-settle_failure :
    (id : ℕ) (failure : JobError) (e : Execution) (r : Runtime)
    → (x : Execution) × ((settle_failure id failure e r).executions ≡ Dict.set id x r.executions)
unfolding settle_failure put_execution put_outbox schedule_retry fail_execution
executions-settle_failure id failure e r =
    let k = classify_failure failure in
    let e' = classified k e in
    elim (Bool-cases (is_transient k.kind && ltb e.attempt_count e.max_attempts)) [
      | inl again ↦ (
        record e' {
          state = JobState.retry_wait;
          available_at = r.now + retry_delay failure e.attempt_count * second;
        },
        rw (again, settle_failure) refl,
      )
      | inr final ↦ (
        record e' { state = JobState.failed; finished_at = some r.now },
        rw (final, settle_failure) refl,
      )
    ]

pub executions-settle :
    (c : Config) (id : ℕ) (o : Outcome) (e : Execution) (r : Runtime)
    → (x : Execution) × ((settle c id o e r).0.executions ≡ Dict.set id x r.executions)
unfolding settle put_execution
executions-settle c id (raised failure) e r = executions-settle_failure id failure e r
executions-settle c id (returned v) e r = elim (Result-cases (json_object c v)) [
  | inl (m, eq) ↦ (succeed r.now m e, rw (eq, settle) refl)
  | inr (f, eq) ↦ (e, rw (eq, settle) refl)
]

module _ (id : ℕ) (e : Execution) where
  pub record_other-Stands :
      (c : Config) (claim : JobClaim) (o : Outcome) (r : Runtime)
      → (claim.execution_id ≡ id → ⊥)
      → Stands id e r
      → Stands id e (record_outcome c claim o r).0
  unfolding record_outcome
  record_other-Stands c claim o r ne at =
      elim (Option-cases (Dict.get claim.execution_id r.executions)) [
        | inl eq ↦ rw (eq, record_outcome) at
        | inr (x, eq) ↦
            rw (eq, record_outcome)
              (elim (Bool-cases (is_stale claim r.now x)) [
                | inl late ↦ rw late at
                | inr holds ↦
                    let (y, set) = executions-settle c claim.execution_id o (released r.now x) r in
                    rw (holds, set) (ground (arith, get-set claim.execution_id id y r.executions))
              ])
      ]
