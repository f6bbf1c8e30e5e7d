-- ===== src/Jobs/Lease.antt =====
-- Leases: `claim`, `_abandon_locked` and `reap_expired` of `InMemoryJobRuntime`
-- (src/umbral/application/jobs/service.py).
use umbral.Prelude.{
  ℕ, ◌+◌, ◌*◌, String, Bool, true, false, ◌&&◌, not, List, [], ◌∷◌, ◌++◌, Option, none, some, ltb,
  leb, ◌==◌, nat_eq, pair_eq, keep, length, take, if◌then◌else◌,
}
use umbral.Prelude.Dict
use umbral.Jobs.Contracts.{JobState, is_terminal_state}
use umbral.Jobs.Failures.{second}
use umbral.Jobs.State.{AttemptState, Execution, JobClaim, Config, Runtime, update_last}
use umbral.Jobs.Submit.{new_outbox, put_execution, put_outbox}

unfoldable pub is_running : JobState → Bool
is_running JobState.running = true
is_running _ = false

unfoldable pub is_retry_wait : JobState → Bool
is_retry_wait JobState.retry_wait = true
is_retry_wait _ = false

-- `lease_until is not None and lease_until <= now`
unfoldable pub lease_expired : ℕ → Option ℕ → Bool
lease_expired now none = false
lease_expired now (some t) = leb t now

-- What `_abandon_locked` writes to the execution before it decides on a retry.
unfoldable pub abandoned : ℕ → Execution → Execution
unfolding update_last
abandoned now e = record e {
  attempts =
      update_last
        (λ a. record a {
          state = AttemptState.abandoned;
          finished_at = some now;
          error_code = some "job.lease_expired";
        })
        e.attempts;
  lease_owner = none;
  lease_until = none;
  error_code = some "job.lease_expired";
}

-- A retry of the execution at the given time: the next attempt's row is pending then.
unfoldable pub schedule_retry : ℕ → Execution → ℕ → Runtime → Runtime
unfolding put_execution put_outbox new_outbox
schedule_retry id e available_at r =
    put_outbox id (e.attempt_count + 1) (new_outbox id (e.attempt_count + 1) available_at)
      (put_execution id (record e { state = JobState.retry_wait; available_at = available_at }) r)

unfoldable pub fail_execution : ℕ → Execution → Runtime → Runtime
unfolding put_execution
fail_execution id e r =
    put_execution id (record e { state = JobState.failed; finished_at = some r.now }) r

-- `_abandon_locked`
unfoldable pub abandon : ℕ → Execution → Runtime → Runtime
unfolding abandoned schedule_retry fail_execution
abandon id e r =
    if ltb e.attempt_count e.max_attempts
    then schedule_retry id (abandoned r.now e) r.now r
    else fail_execution id (abandoned r.now e) r

-- The execution of a granted claim.
unfoldable pub leased : Config → ℕ → String → ℕ → Execution → Execution
leased c n worker_id now e = record e {
  attempt_count = e.attempt_count + 1;
  state = JobState.running;
  lease_owner = some worker_id;
  lease_until = some (now + c.lease_seconds * second);
  attempts =
      e.attempts
      ++ record {
        ordinal = n;
        worker_id = worker_id;
        started_at = now;
        state = AttemptState.running;
        finished_at = none;
        error_code = none;
      }
        ∷ [];
}

unfoldable pub job_claim : Config → ℕ → ℕ → String → Execution → JobClaim
job_claim c id n worker_id e = record {
  execution_id = id;
  attempt_number = n;
  worker_id = worker_id;
  context = record {
    execution_id = id;
    attempt_number = n;
    correlation_id = e.correlation_id;
    release_id = c.release_id;
    logical_target = some e.identity.logical_target;
  };
}

unfoldable pub claim_execution :
    Config → ℕ → ℕ → String → Execution → Runtime → Runtime × Option JobClaim
unfolding abandon leased job_claim is_running is_retry_wait lease_expired is_terminal_state
claim_execution c id n worker_id e r =
    if not (n == e.attempt_count + 1)
    then (r, none)
    else if is_terminal_state e.state
    then (r, none)
    else if is_retry_wait e.state && ltb r.now e.available_at
    then (r, none)
    else if is_running e.state
    then (if lease_expired r.now e.lease_until then (abandon id e r, none) else (r, none))
    else if ltb r.now e.available_at
    then (r, none)
    else (put_execution id (leased c n worker_id r.now e) r, some (job_claim c id n worker_id e))

unfoldable pub claim : Config → ℕ → ℕ → String → Runtime → Runtime × Option JobClaim
unfolding claim_execution
claim c id n worker_id r = elim (Dict.get id r.executions) [
  | none ↦ (r, none)
  | some e ↦ claim_execution c id n worker_id e r
]

-- The test of `reap_expired` on one execution.
unfoldable pub is_reapable : ℕ → Execution → Bool
unfolding is_running lease_expired
is_reapable now e = is_running e.state && lease_expired now e.lease_until

-- The loop over the eligible executions.
unfoldable pub abandon_all : List (ℕ × Execution) → Runtime → Runtime
unfolding abandon
abandon_all [] r = r
abandon_all ((id, e) ∷ rest) r = abandon_all rest (abandon id e r)

unfoldable pub reap_expired : ℕ → Runtime → Runtime × ℕ
unfolding abandon_all keep is_reapable
reap_expired limit r =
    let eligible = take limit (keep (λ entry. is_reapable r.now entry.1) r.executions) in
    (abandon_all eligible r, length eligible)
