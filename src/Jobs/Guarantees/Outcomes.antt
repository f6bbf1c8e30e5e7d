-- ===== src/Jobs/Guarantees/Outcomes.antt =====
-- What the outcome of an attempt does to its execution.
use umbral.Prelude.{
  ℕ, ◌+◌, ◌*◌, ◌≤◌, ◌<◌, ◌≡◌, ◌⊎◌, refl, String, true, false, none, some, ok, arith, nat_eq,
  pair_eq,
}
use umbral.Prelude.Dict
use umbral.Prelude.Dict.{Dict, get-set_self}
use umbral.Jobs.Contracts.{JobState}
use umbral.Jobs.Failures.{second, JobError, classify_failure}
use umbral.Jobs.State.{Execution, JobClaim, JsonScalar, Config, Runtime, snapshot}
use umbral.Jobs.Submit.{new_outbox, put_execution, put_outbox, snapshot_of}
use umbral.Jobs.Lease.{is_running, schedule_retry, fail_execution}
use umbral.Jobs.Outcome.{
  Outcome, returned, raised, PyObject, json_object, is_owner, lease_over, is_stale, released,
  succeed, classified, is_transient, retry_delay, settle_failure, settle, record_outcome,
}

-- The claim still holds the lease of the execution.
pub record IsHeld (claim : JobClaim) (r : Runtime) (e : Execution) (t : ℕ) : Type 0 where
  pub present : Dict.get claim.execution_id r.executions ≡ some e
  pub running : e.state ≡ JobState.running
  pub attempt : e.attempt_count ≡ claim.attempt_number
  pub owner : is_owner claim.worker_id e.lease_owner ≡ true
  pub lease : e.lease_until ≡ some t
  pub in_time : r.now < t

pub IsHeld-not_stale :
    (claim : JobClaim) (r : Runtime) (e : Execution) (t : ℕ)
    → IsHeld claim r e t
    → is_stale claim r.now e ≡ false
unfolding is_stale is_running lease_over
IsHeld-not_stale claim r e t h = ground arith

-- A recorded outcome of a held claim is settled on the released execution.
pub runtime-record_outcome :
    (c : Config) (claim : JobClaim) (o : Outcome) (r : Runtime) (e : Execution) (t : ℕ)
    → IsHeld claim r e t
    → (record_outcome c claim o r).0 ≡ (settle c claim.execution_id o (released r.now e) r).0
unfolding record_outcome
runtime-record_outcome c claim o r e t h =
    rw (h.present, record_outcome) (rw (IsHeld-not_stale claim r e t h))

-- The delay before a retry never passes five minutes.
pub retry_delay-le : (failure : JobError) (n : ℕ) → retry_delay failure n ≤ 300
unfolding retry_delay
retry_delay-le failure n = ground arith

-- When a retry of the claim's execution becomes available.
abbrev pub retry_at : JobError → JobClaim → Runtime → ℕ
retry_at failure claim r = r.now + retry_delay failure claim.attempt_number * second

-- What is known of an execution that is retried: it waits without a lease until the retry is
-- available, at most 300 seconds from now, and the row of its next attempt is pending until then.
pub record IsRetried (failure : JobError) (claim : JobClaim) (r s : Runtime) (x : Execution)
    : Type 0 where
  pub present : Dict.get claim.execution_id s.executions ≡ some x
  pub state : x.state ≡ JobState.retry_wait
  pub lease : x.lease_until ≡ none
  pub count : x.attempt_count ≡ claim.attempt_number
  pub available : x.available_at ≡ retry_at failure claim r
  pub soon : retry_at failure claim r ≤ r.now + 300 * second
  pub row :
      Dict.get (claim.execution_id, claim.attempt_number + 1) s.outbox
      ≡ some (new_outbox claim.execution_id (claim.attempt_number + 1) (retry_at failure claim r))

retried : JobError → JobClaim → ℕ → Runtime → Execution → Execution
retried failure claim now r e = record (classified (classify_failure failure) (released now e)) {
  state = JobState.retry_wait;
  available_at = retry_at failure claim r;
}

settle-retried :
    (c : Config) (claim : JobClaim) (failure : JobError) (r : Runtime) (e : Execution) (t : ℕ)
    → IsHeld claim r e t
    → is_transient (classify_failure failure).kind ≡ true
    → e.attempt_count < e.max_attempts
    → (settle c claim.execution_id (raised failure) (released r.now e) r).0
      ≡ put_outbox claim.execution_id
          (claim.attempt_number + 1)
          (new_outbox claim.execution_id (claim.attempt_number + 1) (retry_at failure claim r))
          (put_execution claim.execution_id (retried failure claim r.now r e) r)
unfolding settle settle_failure schedule_retry classified released retried
settle-retried c claim failure r e t h tr room = ground (arith)

failed_execution : JobError → ℕ → Execution → Execution
failed_execution failure now e = record (classified (classify_failure failure) (released now e)) {
  state = JobState.failed;
  finished_at = some now;
}

settle-failed :
    (c : Config) (claim : JobClaim) (failure : JobError) (r : Runtime) (e : Execution)
    → (is_transient (classify_failure failure).kind ≡ false) ⊎ (e.max_attempts ≤ e.attempt_count)
    → (settle c claim.execution_id (raised failure) (released r.now e) r).0
      ≡ put_execution claim.execution_id (failed_execution failure r.now e) r
unfolding settle settle_failure fail_execution classified released failed_execution
settle-failed c claim failure r e final = ground arith

-- A transient failure of a held claim, with an attempt left, is retried: the execution waits, without
-- a lease, for a time that is at most five minutes away, and the row of its next attempt is pending
-- for that time.
pub record_outcome-IsRetried :
    (c : Config) (claim : JobClaim) (failure : JobError) (r : Runtime) (e : Execution) (t : ℕ)
    → IsHeld claim r e t
    → is_transient (classify_failure failure).kind ≡ true
    → e.attempt_count < e.max_attempts
    → (x : Execution) × IsRetried failure claim r (record_outcome c claim (raised failure) r).0 x
record_outcome-IsRetried c claim failure r e t h tr room =
    let x = retried failure claim r.now r e in
    let s = settle-retried c claim failure r e t h tr room in
    (
      x,
      rw (runtime-record_outcome c claim (raised failure) r e t h) (
          rw s (
            unfold retried classified released put_outbox put_execution in
            record {
              present = get-set_self claim.execution_id x r.executions;
              state = refl;
              lease = refl;
              count = h.attempt;
              available = refl;
              soon = omega (arith, retry_delay-le failure claim.attempt_number);
              row =
                  get-set_self (claim.execution_id, claim.attempt_number + 1)
                    (new_outbox claim.execution_id (claim.attempt_number + 1)
                      (retry_at failure claim r))
                    r.outbox;
            })),
    )

-- Any other failure of a held claim ends its execution as failed at once, without a lease and
-- without a new row.
pub record_outcome-failed :
    (c : Config) (claim : JobClaim) (failure : JobError) (r : Runtime) (e : Execution) (t : ℕ)
    → IsHeld claim r e t
    → (is_transient (classify_failure failure).kind ≡ false) ⊎ (e.max_attempts ≤ e.attempt_count)
    → let s = (record_outcome c claim (raised failure) r).0 in
      (s.outbox ≡ r.outbox)
      × ((x : Execution) × (Dict.get claim.execution_id s.executions ≡ some x)
          × (x.state ≡ JobState.failed)
          × (x.finished_at ≡ some r.now)
          × (x.error_code ≡ some (classify_failure failure).code)
          × (x.lease_until ≡ none))
record_outcome-failed c claim failure r e t h final =
    rw (runtime-record_outcome c claim (raised failure) r e t h) (
      rw (settle-failed c claim failure r e final) (
        unfold failed_execution classified released put_execution in
        (
          refl,
          (
            failed_execution failure r.now e,
            get-set_self claim.execution_id (failed_execution failure r.now e) r.executions,
            refl,
            refl,
            refl,
            refl,
          ),
        )))

-- A result of a held claim that is a small enough object of scalars is stored, and the execution has
-- succeeded.
pub record_outcome-succeeded :
    (c : Config) (claim : JobClaim) (value : PyObject) (v : Dict String JsonScalar) (r : Runtime)
    (e : Execution) (t : ℕ)
    → IsHeld claim r e t
    → json_object c value ≡ ok v
    → let x = succeed r.now v (released r.now e) in
      (x.state ≡ JobState.succeeded)
      × (x.result ≡ some v)
      × (x.lease_until ≡ none)
      × (Dict.get claim.execution_id (record_outcome c claim (returned value) r).0.executions
          ≡ some x)
      × ((record_outcome c claim (returned value) r).1 ≡ ok (snapshot x))
unfolding succeed released
record_outcome-succeeded c claim value v r e t h good =
    let x = succeed r.now v (released r.now e) in
    let at = get-set_self claim.execution_id x r.executions in
    unfold record_outcome settle put_execution in
    rw (h.present, record_outcome)
      (rw (IsHeld-not_stale claim r e t h)
        (rw (good, settle) (refl, refl, refl, at, rw at (unfold snapshot_of in refl))))
