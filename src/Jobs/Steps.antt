-- ===== src/Jobs/Steps.antt =====
-- Runs of the runtime: any sequence of calls of the port `JobRuntime`
-- (src/umbral/application/jobs/ports.py), by any callers. `complete` is not a call of the port.
pub mod Invariant
pub mod Frame
pub mod Inert
pub mod Growth
pub mod Keeping
use umbral.Prelude.{ℕ, ℤ, String, Option, none, ◌≡◌, nat_eq}
use umbral.Prelude.Dict
use umbral.Jobs.Contracts.{SubmitJob}
use umbral.Jobs.State.{JobClaim, Config, Runtime}
use umbral.Jobs.Submit.{advance_time, submit}
use umbral.Jobs.Lease.{claim, reap_expired}
use umbral.Jobs.Outcome.{Outcome, record_outcome}
use umbral.Jobs.Relay.{Queue, relay_due, rebuild_outbox}
use umbral.Jobs.Schedule.{add_schedule, schedule_tick}
use umbral.Jobs.Invariant.Submit.{IsBounded}

-- One call. `uuid4()` gives an identifier that no execution has.
pub data Step (c : Config) (r : Runtime) : Runtime → Type 0 where
  submitted :
      (fresh : ℕ) (command : SubmitJob)
      → IsBounded command
      → Dict.get fresh r.executions ≡ none
      → Step c r (submit c fresh command r).0
  claimed : (id n : ℕ) (worker_id : String) → Step c r (claim c id n worker_id r).0
  recorded : (claim : JobClaim) (o : Outcome) → Step c r (record_outcome c claim o r).0
  relayed : (publish : Queue) (limit : ℕ) → Step c r (relay_due publish limit r).0
  rebuilt : (limit : ℕ) → Step c r (rebuild_outbox limit r).0
  reaped : (limit : ℕ) → Step c r (reap_expired limit r).0
  scheduled :
      (id : ℕ) (job_type target kind : String) (at : ℕ) (interval : Option ℕ) (max_attempts : ℕ)
      → Step c r (add_schedule id job_type target kind at interval max_attempts r).0
  ticked :
      (fresh correlation_id : ℕ)
      → Dict.get fresh r.executions ≡ none
      → Step c r (schedule_tick c fresh correlation_id r).0
  advanced : (d : ℤ) → Step c r (advance_time d r).0

pub data Reach (c : Config) (r : Runtime) : Runtime → Type 0 where
  here : Reach c r r
  next : {s t : Runtime} → Reach c r s → Step c s t → Reach c r t
