-- ===== src/Jobs/Outcome.antt =====
-- `record_outcome` and `complete` of `InMemoryJobRuntime`, and the check of a job's result
-- (src/umbral/application/jobs/service.py). What is written before an exception stays written.
use umbral.Prelude.{
  ℕ, ℤ, pos_part, ◌+◌, ◌-◌, ◌*◌, ◌/◌, ◌^◌, min, String, Bool, true, false, ◌&&◌, ◌||◌, not, List,
  [], ◌∷◌, Option, none, some, Result, ok, err, value_error, type_error, key_error, raise_if, ◌>>=◌,
  ◌>>◌, ltb, leb, ◌==◌, nat_eq, string_eq, pair_eq, if◌then◌else◌,
}
use umbral.Prelude.Dict
use umbral.Prelude.Dict.{Dict}
use umbral.Jobs.Contracts.{JobState}
use umbral.Jobs.Failures.{
  second, JobError, transient_job_error, FailureKind, transient, FailureClassification,
  classify_failure,
}
use umbral.Jobs.State.{
  AttemptState, JsonScalar, Execution, JobClaim, JobSnapshot, Config, Runtime, snapshot,
  update_last,
}
use umbral.Jobs.Submit.{put_execution, snapshot_of}
use umbral.Jobs.Lease.{is_running, schedule_retry, fail_execution}

-- A value that a handler returns: the items of a mapping, of which a key may be no text and a value
-- no scalar, or an object that is no mapping.
pub data ItemKey : Type 0 where
  str_key : String → ItemKey
  other_key : ItemKey

pub data ItemValue : Type 0 where
  scalar : JsonScalar → ItemValue
  compound : ItemValue

pub data PyObject : Type 0 where
  mapping : List (ItemKey × ItemValue) → PyObject
  not_mapping : PyObject

-- The loop of `_json_object`.
json_items : List (ItemKey × ItemValue) → Result (Dict String JsonScalar)
json_items [] = ok []
json_items ((str_key k, scalar v) ∷ rest) = do output ← json_items rest; ok ((k, v) ∷ output)
json_items (_ ∷ rest) = err value_error

-- `_json_object`
unfoldable pub json_object : Config → PyObject → Result (Dict String JsonScalar)
unfolding json_items
json_object c not_mapping = err type_error
json_object c (mapping items) = do
  output ← json_items items
  raise_if (ltb 8192 (c.dumps_length output)) value_error
  ok output

pub data Outcome : Type 0 where
  returned : PyObject → Outcome
  raised : JobError → Outcome

-- `lease_owner == worker_id`
unfoldable pub is_owner : String → Option String → Bool
is_owner worker_id none = false
is_owner worker_id (some owner) = owner == worker_id

-- `lease_until is None or lease_until <= now`, the last two tests of a stale claim.
unfoldable pub lease_over : ℕ → Option ℕ → Bool
lease_over now none = true
lease_over now (some t) = leb t now

-- The outcome of a claim that no longer holds the lease is ignored.
unfoldable pub is_stale : JobClaim → ℕ → Execution → Bool
unfolding is_running is_owner lease_over
is_stale claim now e =
    not (is_running e.state)
    || not (e.attempt_count == claim.attempt_number)
    || not (is_owner claim.worker_id e.lease_owner)
    || lease_over now e.lease_until

-- What is written before the outcome is looked at.
unfoldable pub released : ℕ → Execution → Execution
unfolding update_last
released now e = record e {
  attempts = update_last (λ a. record a { finished_at = some now }) e.attempts;
  lease_owner = none;
  lease_until = none;
}

unfoldable pub succeed : ℕ → Dict String JsonScalar → Execution → Execution
unfolding update_last
succeed now result e = record e {
  result = some result;
  error_code = none;
  state = JobState.succeeded;
  finished_at = some now;
  attempts = update_last (λ a. record a { state = AttemptState.succeeded }) e.attempts;
}

-- `_attempt_state`
attempt_state : FailureKind → AttemptState
attempt_state transient = AttemptState.transient_failure
attempt_state _ = AttemptState.permanent_failure

unfoldable pub classified : FailureClassification → Execution → Execution
unfolding attempt_state update_last
classified k e = record e {
  attempts =
      update_last (λ a. record a { error_code = some k.code; state = attempt_state k.kind })
        e.attempts;
  error_code = some k.code;
}

unfoldable pub is_transient : FailureKind → Bool
is_transient transient = true
is_transient _ = false

-- `retry_after` of the exception, where it has one.
retry_after : JobError → Option ℤ
retry_after (transient_job_error _ d) = d
retry_after _ = none

-- The delay before the next attempt, in seconds.
unfoldable pub retry_delay : JobError → ℕ → ℕ
unfolding retry_after
retry_delay failure attempt_count = elim (retry_after failure) [
  | none ↦ min 300 (2 ^ (attempt_count - 1))
  | some d ↦ min 300 (pos_part d / second)
]

unfoldable pub settle_failure : ℕ → JobError → Execution → Runtime → Runtime
unfolding classified is_transient retry_delay schedule_retry fail_execution classify_failure
settle_failure id failure e r =
    let k = classify_failure failure in
    let e' = classified k e in
    if is_transient k.kind && ltb e.attempt_count e.max_attempts
    then schedule_retry id e' (r.now + retry_delay failure e.attempt_count * second) r
    else fail_execution id e' r

unfoldable pub settle : Config → ℕ → Outcome → Execution → Runtime → Runtime × Result (Unit {0})
unfolding settle_failure succeed put_execution json_object
settle c id (raised failure) e r = (settle_failure id failure e r, ok tt)
settle c id (returned value) e r = elim (json_object c value) [
  | err fault ↦ (put_execution id e r, err fault)
  | ok result ↦ (put_execution id (succeed r.now result e) r, ok tt)
]

unfoldable pub record_outcome : Config → JobClaim → Outcome → Runtime → Runtime × Result JobSnapshot
unfolding settle released is_stale snapshot_of
record_outcome c claim outcome r = elim (Dict.get claim.execution_id r.executions) [
  | none ↦ (r, err key_error)
  | some e ↦
      if is_stale claim r.now e
      then (r, ok (snapshot e))
      else (let (r', done) = settle c claim.execution_id outcome (released r.now e) r in
          (r', (done >>= λ _. snapshot_of (Dict.get claim.execution_id r'.executions))))
]

unfoldable pub completed : ℕ → Dict String JsonScalar → Execution → Execution
completed now result e = record e {
  result = some result;
  state = JobState.succeeded;
  finished_at = some now;
  lease_owner = none;
  lease_until = none;
}

unfoldable pub complete : Config → ℕ → PyObject → Runtime → Runtime × Result JobSnapshot
unfolding completed json_object put_execution
complete c id value r = elim (Dict.get id r.executions) [
  | none ↦ (r, err key_error)
  | some e ↦ elim (json_object c value) [
    | err fault ↦ (r, err fault)
    | ok result ↦
        (put_execution id (completed r.now result e) r, ok (snapshot (completed r.now result e)))
  ]
]
