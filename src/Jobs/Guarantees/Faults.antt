-- ===== src/Jobs/Guarantees/Faults.antt =====
-- Where the runtime gives up more than its caller expects.
use umbral.Prelude.{
  ℕ, ◌+◌, ◌≤◌, ◌<◌, ◌≡◌, refl, true, [], ◌∷◌, none, some, Fault, ok, err, arith, nat_eq, pair_eq,
  value_error, Result-cases, inl, inr, ◌⊎◌, leb, String, ◌&&◌,
}
use umbral.Prelude.Dict
use umbral.Prelude.Dict.{Dict, get-set, get-set_self}
use umbral.Jobs.Contracts.{
  JobState, is_terminal_state, submit_job, create_submit_job, create_identity,
}
use umbral.Jobs.State.{
  Execution, Outbox, Schedule, JobClaim, JsonScalar, Config, Runtime, init, snapshot,
}
use umbral.Jobs.Submit.{put_execution}
use umbral.Jobs.Lease.{is_running}
use umbral.Jobs.Outcome.{
  returned, PyObject, json_object, released, settle, record_outcome, completed, complete,
}
use umbral.Jobs.Relay.{Queue, announced, write_row, relay_row, relay_rows, due_rows, relay_due}
use umbral.Jobs.Schedule.{
  is_due_schedule, first_due, schedule_key, planned_command, run_schedule, schedule_tick,
}
use umbral.Jobs.Invariant.{IsConsistent}
use umbral.Jobs.Invariant.Outcome.{record_outcome-IsConsistent}
use umbral.Jobs.Steps.{Reach}
use umbral.Jobs.Steps.Invariant.{Reach-IsConsistent}
use umbral.Jobs.Steps.Inert.{Reach-Stands}
use umbral.Jobs.Guarantees.Outcomes.{IsHeld, IsHeld-not_stale}

record_outcome-refused :
    (c : Config) (claim : JobClaim) (value : PyObject) (f : Fault) (r : Runtime) (e : Execution)
    (t : ℕ)
    → IsHeld claim r e t
    → json_object c value ≡ err f
    → ((record_outcome c claim (returned value) r).1 ≡ err f)
      × (Dict.get claim.execution_id (record_outcome c claim (returned value) r).0.executions
          ≡ some (released r.now e))
unfolding record_outcome settle put_execution
record_outcome-refused c claim value f r e t h bad =
    rw (h.present, record_outcome)
      (rw (IsHeld-not_stale claim r e t h)
        (rw (bad, settle) (refl, get-set_self claim.execution_id (released r.now e) r.executions)))

-- A result that `_json_object` refuses leaves the execution running without a lease for good: the
-- exception reaches the caller after the lease was cleared, and then no calls of the port, however
-- many, change the execution any more. No claim takes it, the reaper passes over it, and it never
-- succeeds, fails or is retried.
pub refused_result_wedges :
    (c : Config) (now : ℕ) (claim : JobClaim) (value : PyObject) (f : Fault) (r s : Runtime)
    (e : Execution) (t : ℕ)
    → Reach c (init now) r
    → IsHeld claim r e t
    → json_object c value ≡ err f
    → Reach c (record_outcome c claim (returned value) r).0 s
    → ((record_outcome c claim (returned value) r).1 ≡ err f)
      × ((x : Execution) × (Dict.get claim.execution_id s.executions ≡ some x)
          × (x.state ≡ JobState.running)
          × (x.lease_until ≡ none))
unfolding released
refused_result_wedges c now claim value f r s e t p h bad q =
    let (raised, at) = record_outcome-refused c claim value f r e t h bad in
    (
      raised,
      (
        released r.now e,
        Reach-Stands claim.execution_id (released r.now e)
            (unfold is_terminal_state is_running in ground (arith, h.running))
            (record_outcome-IsConsistent c claim (returned value) r (Reach-IsConsistent c now r p))
            q at,
        h.running,
        refl,
      ),
    )

-- A command with a number of attempts out of range is refused.
planned_command-refused :
    (c : Config) (correlation_id : ℕ) (s : Schedule)
    → (s.max_attempts < 1) ⊎ (10 < s.max_attempts)
    → (f : Fault) × (planned_command c correlation_id s ≡ err f)
unfolding planned_command create_submit_job submit_job
planned_command-refused c correlation_id s out =
    elim (Result-cases (create_identity c.py_text s.job_type s.logical_target (schedule_key c s))) [
      | inl (i, eq) ↦ (value_error, rw (eq, create_submit_job) (ground arith))
      | inr (f, eq) ↦ (f, rw (eq, create_submit_job) refl)
    ]

-- While a schedule whose number of attempts no submission may have stands first and is due, a tick at
-- that time or at any later one, with no other call in between, raises and changes nothing: it runs
-- no schedule behind that one.
pub bad_schedule_blocks :
    (c : Config) (fresh correlation_id d i : ℕ) (s : Schedule) (rest : Dict ℕ Schedule)
    (r : Runtime)
    → r.schedules ≡ (i, s) ∷ rest
    → is_due_schedule r.now s ≡ true
    → (s.max_attempts < 1) ⊎ (10 < s.max_attempts)
    → let later = record r { now = r.now + d } in
      (f : Fault) × (schedule_tick c fresh correlation_id later ≡ (later, err f))
unfolding schedule_tick run_schedule first_due is_due_schedule
bad_schedule_blocks c fresh correlation_id d i s rest r first due out =
    let later = record r { now = r.now + d } in
    let (f, eq) = planned_command-refused c correlation_id s out in
    let head : first_due later.now later.schedules ≡ some s =
      unfold first_due is_due_schedule in rw first (ground arith) in
    (f, rw (head, schedule_tick) (rw (eq, run_schedule) refl))

-- A relay of a single row that the queue takes.
relay_due-one :
    (publish : Queue) (limit id : ℕ) (at : ℕ × ℕ) (row : Outbox) (r : Runtime) (y : Execution)
    → Dict.get id r.executions ≡ some y
    → row.execution_id ≡ id
    → 1 ≤ limit
    → limit ≤ 1000
    → ((a b k : ℕ) → publish a b k ≡ true)
    → due_rows limit r ≡ (at, row) ∷ []
    → Dict.get id (relay_due publish limit r).0.executions ≡ some (announced row y)
unfolding relay_due relay_rows relay_row put_execution write_row
relay_due-one publish limit id at row r y there own lo hi sends due =
    let in_range : (leb 1 limit && leb limit 1000) ≡ true = ground arith in
    let owner : Dict.get row.execution_id r.executions ≡ some y = rw own there in
    rw (in_range, due, relay_due)
      (rw (owner, relay_rows)
        (rw (sends y.execution_id row.attempt_number y.correlation_id, relay_row)
          (ground (arith, get-set row.execution_id id (announced row y) r.executions))))

-- `complete` ends an execution that still waits for its next attempt, and the relay of that
-- attempt's row then takes the success back: the execution is queued again.
pub complete_is_undone :
    (c : Config) (publish : Queue) (limit id : ℕ) (value : PyObject) (v : Dict String JsonScalar)
    (row : Outbox) (r : Runtime) (e : Execution)
    → IsConsistent r
    → Dict.get id r.executions ≡ some e
    → Dict.get (id, e.attempt_count + 1) r.outbox ≡ some row
    → json_object c value ≡ ok v
    → 1 ≤ limit
    → limit ≤ 1000
    → ((a b k : ℕ) → publish a b k ≡ true)
    → due_rows limit r ≡ ((id, e.attempt_count + 1), row) ∷ []
    → ((complete c id value r).1 ≡ ok (snapshot (completed r.now v e)))
      × ((x : Execution) × (Dict.get id
              (relay_due publish limit (complete c id value r).0).0.executions
            ≡ some x)
          × (x.state ≡ JobState.queued))
unfolding complete
complete_is_undone c publish limit id value v row r e h at next good lo hi sends due =
    let x = announced row (completed r.now v e) in
    let s = h.row_sound id (e.attempt_count + 1) row next in
    let y = completed r.now v e in
    rw (at, complete)
      (rw (good, complete)
        (
          refl,
          (
            x,
            relay_due-one publish limit id (id, e.attempt_count + 1) row (put_execution id y r) y
                (unfold put_execution in get-set_self id y r.executions) s.own_execution lo hi sends
                (unfold due_rows put_execution in due),
            unfold announced completed in ground (arith, s),
          ),
        ))
