-- ===== src/Jobs/Steps/Invariant.antt =====
-- Every runtime that is reached from an empty one is consistent.
use umbral.Prelude.{
  ℕ, String, Option, none, ◌≡◌, ◌⊎◌, refl, ok, err, arith, nat_eq, inl, inr, Option-cases,
  Result-cases, Result, string_eq,
}
use umbral.Prelude.Dict
use umbral.Jobs.Contracts.{SubmitJob}
use umbral.Jobs.State.{Schedule, JobSnapshot, Config, Runtime, init}
use umbral.Jobs.Submit.{submit}
use umbral.Jobs.Schedule.{
  add_schedule, first_due, planned_command, advance_schedule, after_submit, run_schedule,
  schedule_tick,
}
use umbral.Jobs.Invariant.{IsConsistent, same-IsConsistent}
use umbral.Jobs.Invariant.Submit.{
  IsBounded, advance_time-IsConsistent, create_submit_job-IsBounded, submit-IsConsistent,
  init-IsConsistent,
}
use umbral.Jobs.Invariant.Lease.{claim-IsConsistent, reap_expired-IsConsistent}
use umbral.Jobs.Invariant.Outcome.{record_outcome-IsConsistent}
use umbral.Jobs.Invariant.Relay.{relay_due-IsConsistent, rebuild_outbox-IsConsistent}
use umbral.Jobs.Steps.{
  Step, submitted, claimed, recorded, relayed, rebuilt, reaped, scheduled, ticked, advanced, Reach,
  here, next,
}

-- The executions and the outbox of two runtimes are the same.
abbrev pub SameJobs : Runtime → Runtime → Type 0
SameJobs r r' = (r'.executions ≡ r.executions) × (r'.outbox ≡ r.outbox)

pub add_schedule-SameJobs :
    (id : ℕ) (j t k : String) (at : ℕ) (i : Option ℕ) (m : ℕ) (r : Runtime)
    → SameJobs r (add_schedule id j t k at i m r).0
unfolding add_schedule
add_schedule-SameJobs id j t k at i m r = ground arith

advance_schedule-SameJobs : (s : Schedule) (r : Runtime) → SameJobs r (advance_schedule s r).0
unfolding advance_schedule
advance_schedule-SameJobs s r = ground arith

after_submit-SameJobs :
    (s : Schedule) (x : Runtime × Result JobSnapshot) → SameJobs x.0 (after_submit s x).0
unfolding after_submit
after_submit-SameJobs s (r, err f) = (refl, refl)
after_submit-SameJobs s (r, ok v) = advance_schedule-SameJobs s r

-- A tick leaves the jobs as they are, or submits one bounded command.
module _ (c : Config) (fresh correlation_id : ℕ) where
  abbrev pub TickCases : Runtime → Runtime → Type 0
  TickCases r r' =
      SameJobs r r'
      ⊎ ((command : SubmitJob) × IsBounded command × SameJobs (submit c fresh command r).0 r')

  run_schedule-cases :
      (s : Schedule) (r : Runtime) → TickCases r (run_schedule c fresh correlation_id s r).0
  unfolding run_schedule
  run_schedule-cases s r = elim (Result-cases (planned_command c correlation_id s)) [
    | inl (command, eq) ↦
        rw (eq, run_schedule)
          (inr (
            command,
            unfold planned_command in create_submit_job-IsBounded c _ _ _ _ _ _ command eq,
            after_submit-SameJobs s (submit c fresh command r),
          ))
    | inr (f, eq) ↦ rw (eq, run_schedule) (inl (refl, refl))
  ]

  pub schedule_tick-cases : (r : Runtime) → TickCases r (schedule_tick c fresh correlation_id r).0
  unfolding schedule_tick
  schedule_tick-cases r = elim (Option-cases (first_due r.now r.schedules)) [
    | inl eq ↦ rw (eq, schedule_tick) (inl (refl, refl))
    | inr (s, eq) ↦ rw (eq, schedule_tick) (run_schedule-cases s r)
  ]

  schedule_tick-IsConsistent :
      (r : Runtime)
      → IsConsistent r
      → Dict.get fresh r.executions ≡ none
      → IsConsistent (schedule_tick c fresh correlation_id r).0
  schedule_tick-IsConsistent r h new = elim (schedule_tick-cases r) [
    | inl (e, o) ↦ same-IsConsistent r _ e o h
    | inr (command, b, same) ↦
        same-IsConsistent (submit c fresh command r).0 _ same.0 same.1
          (submit-IsConsistent c fresh command r h b new)
  ]

pub Step-IsConsistent : {c : Config} {r s : Runtime} → Step c r s → IsConsistent r → IsConsistent s
Step-IsConsistent {c} {r} (submitted fresh command b new) h =
    submit-IsConsistent c fresh command r h b new
Step-IsConsistent {c} {r} (claimed id n w) h = claim-IsConsistent c id n w r h
Step-IsConsistent {c} {r} (recorded claim o) h = record_outcome-IsConsistent c claim o r h
Step-IsConsistent {c} {r} (relayed publish limit) h = relay_due-IsConsistent publish limit r h
Step-IsConsistent {c} {r} (rebuilt limit) h = rebuild_outbox-IsConsistent limit r h
Step-IsConsistent {c} {r} (reaped limit) h = reap_expired-IsConsistent limit r h
Step-IsConsistent {c} {r} (scheduled id j t k at i m) h =
    let same = add_schedule-SameJobs id j t k at i m r in same-IsConsistent r _ same.0 same.1 h
Step-IsConsistent {c} {r} (ticked fresh correlation_id new) h =
    schedule_tick-IsConsistent c fresh correlation_id r h new
Step-IsConsistent {c} {r} (advanced d) h = advance_time-IsConsistent d r h

pub Reach-IsConsistent_of :
    {c : Config} {r s : Runtime} → IsConsistent r → Reach c r s → IsConsistent s
Reach-IsConsistent_of h here = h
Reach-IsConsistent_of h (next p st) = Step-IsConsistent st (Reach-IsConsistent_of h p)

-- Whatever calls of the port are made on an empty runtime, in whatever order and by whomever, the
-- runtime stays consistent: no execution has made more attempts than it may, one that waits for
-- its next attempt may still make one and has the row of that attempt in the outbox, every
-- row belongs to an execution and its attempt was made or is the next of an execution that waits,
-- a row's count of tries to publish it that failed is at most a hundred, and less while the row is
-- pending, and only running executions hold a lease.
pub Reach-IsConsistent :
    (c : Config) (now : ℕ) (r : Runtime) → Reach c (init now) r → IsConsistent r
Reach-IsConsistent c now r p = Reach-IsConsistent_of (init-IsConsistent now) p
