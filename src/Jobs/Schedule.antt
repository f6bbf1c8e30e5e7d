-- ===== src/Jobs/Schedule.antt =====
-- Schedules: `add_schedule` and `schedule_tick` of `InMemoryJobRuntime`
-- (src/umbral/application/jobs/service.py).
use Prim.Native.String.{◌++◌}
use umbral.Prelude.{
  ℕ, ◌+◌, ◌*◌, String, Bool, true, false, ◌&&◌, ◌||◌, not, List, [], ◌∷◌, Option, none, some,
  Result, ok, err, value_error, assertion_error, ltb, ◌==◌, nat_eq, string_eq, if◌then◌else◌,
}
use umbral.Prelude.Dict
use umbral.Audit.{system_actor}
use umbral.Jobs.Contracts.{SubmitJob, create_submit_job}
use umbral.Jobs.Failures.{second}
use umbral.Jobs.State.{Schedule, JobSnapshot, Config, Runtime}
use umbral.Jobs.Submit.{submit}

-- `interval_seconds is None or interval_seconds < 60`
too_short : Option ℕ → Bool
too_short none = true
too_short (some n) = ltb n 60

unfoldable pub new_schedule : ℕ → String → String → String → ℕ → Option ℕ → ℕ → Schedule
new_schedule id job_type logical_target schedule_kind next_run_at interval_seconds max_attempts =
    record {
      schedule_id = id;
      job_type = job_type;
      logical_target = logical_target;
      schedule_kind = schedule_kind;
      next_run_at = next_run_at;
      interval_seconds = interval_seconds;
      max_attempts = max_attempts;
      enabled = true;
      last_scheduled_at = none;
    }

-- The identifier is the one that is given, or a fresh one. A time zone is a matter of the caller's.
unfoldable pub add_schedule :
    ℕ → String → String → String → ℕ → Option ℕ → ℕ → Runtime → Runtime × Result ℕ
unfolding too_short new_schedule
add_schedule id job_type logical_target kind next_run_at interval_seconds max_attempts r =
    if not (kind == "one_shot" || kind == "fixed_interval")
    then (r, err value_error)
    else if kind == "fixed_interval" && too_short interval_seconds
    then (r, err value_error)
    else (
      record r {
        schedules =
            Dict.set id
              (new_schedule id job_type logical_target kind next_run_at interval_seconds
                max_attempts)
              r.schedules;
      },
      ok id,
    )

-- `not (not schedule.enabled or schedule.next_run_at > now)`
unfoldable pub is_due_schedule : ℕ → Schedule → Bool
is_due_schedule now s = s.enabled && not (ltb now s.next_run_at)

unfoldable pub first_due : ℕ → List (ℕ × Schedule) → Option Schedule
unfolding is_due_schedule
first_due now [] = none
first_due now ((id, s) ∷ rest) = if is_due_schedule now s then some s else first_due now rest

-- The idempotency key of a planned run.
unfoldable pub schedule_key : Config → Schedule → String
schedule_key c s =
    "schedule:" ++ (c.str_uuid s.schedule_id ++ (":" ++ c.canonical_utc s.next_run_at))

-- The command of a planned run.
unfoldable pub planned_command : Config → ℕ → Schedule → Result SubmitJob
unfolding schedule_key
planned_command c correlation_id s =
    create_submit_job c.py_text s.job_type s.logical_target (schedule_key c s) correlation_id
      system_actor s.max_attempts

write_schedule : Schedule → Runtime → Runtime
write_schedule s r = record r { schedules = Dict.set s.schedule_id s r.schedules }

-- What follows the submission.
unfoldable pub advance_schedule : Schedule → Runtime → Runtime × Result ℕ
unfolding write_schedule
advance_schedule s r =
    let s' = record s { last_scheduled_at = some s.next_run_at } in
    if s.schedule_kind == "one_shot"
    then (write_schedule (record s' { enabled = false }) r, ok 1)
    else (elim s.interval_seconds [
      | none ↦ (write_schedule s' r, err assertion_error)
      | some n ↦ (write_schedule (record s' { next_run_at = s.next_run_at + n * second }) r, ok 1)
    ])

unfoldable pub after_submit : Schedule → Runtime × Result JobSnapshot → Runtime × Result ℕ
unfolding advance_schedule
after_submit s (r, err fault) = (r, err fault)
after_submit s (r, ok submitted) = advance_schedule s r

unfoldable pub run_schedule : Config → ℕ → ℕ → Schedule → Runtime → Runtime × Result ℕ
unfolding planned_command after_submit
run_schedule c fresh correlation_id s r = elim (planned_command c correlation_id s) [
  | err fault ↦ (r, err fault)
  | ok command ↦ after_submit s (submit c fresh command r)
]

unfoldable pub schedule_tick : Config → ℕ → ℕ → Runtime → Runtime × Result ℕ
unfolding run_schedule first_due
schedule_tick c fresh correlation_id r = elim (first_due r.now r.schedules) [
  | none ↦ (r, ok 0)
  | some s ↦ run_schedule c fresh correlation_id s r
]
