-- ===== src/Jobs/Submit.antt =====
-- `submit` and the readers of `InMemoryJobRuntime` (src/umbral/application/jobs/service.py). Each
-- `uuid4()` is an argument.
use umbral.Prelude.{
  ℕ, ℤ, pos, negsuc, ◌+◌, String, [], ◌∷◌, ◌++◌, Option, none, some, Result, ok, err, value_error,
  key_error, ◌>>=◌, ◌==◌, nat_eq, string_eq, pair_eq, if◌then◌else◌,
}
use umbral.Prelude.Dict
use umbral.Jobs.Contracts.{JobState, JobIdentity, create_identity, key, SubmitJob, submit_job}
use umbral.Jobs.State.{
  Outbox, OutboxState, Execution, JobSnapshot, Handler, Config, Runtime, snapshot,
}

unfoldable pub advance_time : ℤ → Runtime → Runtime × Result (Unit {0})
advance_time (pos n) r = (record r { now = r.now + n }, ok tt)
advance_time (negsuc n) r = (r, err value_error)

-- The normaliser of the handler, if it has one, replaces the target and builds the command anew.
renormalize : Config → SubmitJob → Option (String → Result String) → Result SubmitJob
renormalize c command none = ok command
renormalize c command (some normalizer) = do
  normalized_target ← normalizer command.identity.logical_target
  if normalized_target == command.identity.logical_target then ok command else do
    identity ←
        create_identity c.py_text command.identity.job_type normalized_target
          command.identity.idempotency_key
    submit_job identity command.correlation_id command.actor command.max_attempts

by_handler : Config → SubmitJob → Option Handler → Result SubmitJob
unfolding renormalize
by_handler c command none = err value_error
by_handler c command (some handler) = renormalize c command handler.normalize_target

-- The command that is looked up and stored.
unfoldable pub resolve : Config → SubmitJob → Result SubmitJob
unfolding by_handler
resolve c command = elim c.handlers [
  | none ↦ ok command
  | some handlers ↦ by_handler c command (Dict.get command.identity.job_type handlers)
]

unfoldable pub new_outbox : ℕ → ℕ → ℕ → Outbox
new_outbox execution_id attempt_number available_at = record {
  execution_id = execution_id;
  attempt_number = attempt_number;
  available_at = available_at;
  state = OutboxState.pending;
  publish_attempts = 0;
  error_code = none;
}

unfoldable pub new_execution : ℕ → SubmitJob → ℕ → Execution
new_execution fresh command now = record {
  execution_id = fresh;
  identity = command.identity;
  correlation_id = command.correlation_id;
  max_attempts = command.max_attempts;
  created_at = now;
  available_at = now;
  state = JobState.pending;
  attempt_count = 0;
  result = none;
  error_code = none;
  finished_at = none;
  lease_owner = none;
  lease_until = none;
  attempts = [];
}

unfoldable pub put_execution : ℕ → Execution → Runtime → Runtime
put_execution id e r = record r { executions = Dict.set id e r.executions }

unfoldable pub put_outbox : ℕ → ℕ → Outbox → Runtime → Runtime
put_outbox id n row r = record r { outbox = Dict.set (id, n) row r.outbox }

unfoldable pub enqueue : ℕ → SubmitJob → Runtime → Runtime × JobSnapshot
unfolding new_outbox new_execution put_execution put_outbox
enqueue fresh command r =
    let e = new_execution fresh command r.now in
    let r₁ = put_execution fresh e r in
    let r₂ = record r₁ {
      identity_index = Dict.set (key command.identity) fresh r₁.identity_index;
    } in
    let r₃ = put_outbox fresh 1 (new_outbox fresh 1 r.now) r₂ in
    (record r₃ { submissions = r₃.submissions ++ snapshot e ∷ [] }, snapshot e)

-- `self._snapshot(self._executions[id])`
unfoldable pub snapshot_of : Option Execution → Result JobSnapshot
snapshot_of none = err key_error
snapshot_of (some e) = ok (snapshot e)

-- `get`
unfoldable pub get_job : ℕ → Runtime → Result JobSnapshot
unfolding snapshot_of
get_job id r = snapshot_of (Dict.get id r.executions)

unfoldable pub submit_resolved : ℕ → SubmitJob → Runtime → Runtime × Result JobSnapshot
unfolding enqueue get_job
submit_resolved fresh command r = elim (Dict.get (key command.identity) r.identity_index) [
  | some existing_id ↦ (r, get_job existing_id r)
  | none ↦ let (r', s) = enqueue fresh command r in (r', ok s)
]

unfoldable pub submit : Config → ℕ → SubmitJob → Runtime → Runtime × Result JobSnapshot
unfolding resolve submit_resolved
submit c fresh command r = elim (resolve c command) [
  | err fault ↦ (r, err fault)
  | ok resolved ↦ submit_resolved fresh resolved r
]

-- `identity` and `correlation_id`
unfoldable pub identity : ℕ → Runtime → Result JobIdentity
identity id r = elim (Dict.get id r.executions) [ none ↦ err key_error | some e ↦ ok e.identity ]

unfoldable pub correlation_id : ℕ → Runtime → Result ℕ
correlation_id id r = elim (Dict.get id r.executions) [
  | none ↦ err key_error
  | some e ↦ ok e.correlation_id
]
