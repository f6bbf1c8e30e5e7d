-- ===== src/Jobs/Steps/Keeping.antt =====
-- A submitted identity names its execution for good, whatever calls of the port follow.
use umbral.Prelude.{
  ℕ, ℤ, pos, negsuc, ◌+◌, ◌≡◌, refl, String, Option, none, ok, err, arith, nat_eq, pair_eq,
  string_eq, inl, inr, Option-cases, Result-cases, take, keep, pair_beq_iff, Result,
}
use umbral.Prelude.Dict
use umbral.Prelude.Dict.{get-set, get-set_self}
use umbral.Jobs.Contracts.{SubmitJob, key}
use umbral.Jobs.State.{Schedule, JobSnapshot, Config, Runtime}
use umbral.Jobs.Submit.{advance_time, new_execution, enqueue, resolve, submit_resolved, submit}
use umbral.Jobs.Lease.{is_reapable, reap_expired}
use umbral.Jobs.Relay.{is_published, rebuild_outbox}
use umbral.Jobs.Schedule.{
  add_schedule, first_due, planned_command, advance_schedule, after_submit, run_schedule,
  schedule_tick,
}
use umbral.Jobs.Steps.{
  Step, submitted, claimed, recorded, relayed, rebuilt, reaped, scheduled, ticked, advanced, Reach,
  here, next,
}
use umbral.Jobs.Steps.Growth.{
  Grows-refl, Grows-same, claim-Grows, record_outcome-Grows, abandon_all-Grows, relay_due-Grows,
  rebuild_rows-Grows, Keeps, Grows-Keeps,
}

Keeps-trans : {r s t : Runtime} → Keeps r s → Keeps s t → Keeps r t
Keeps-trans g h = record {
  entry = λ k id p. h.entry k id (g.entry k id p);
  kept = λ id p. h.kept id (g.kept id p);
}

Keeps-refl : (r : Runtime) → Keeps r r
Keeps-refl r = Grows-Keeps (Grows-refl r)

enqueue-Keeps :
    (fresh : ℕ) (command : SubmitJob) (r : Runtime)
    → Dict.get (key command.identity) r.identity_index ≡ none
    → Keeps r (enqueue fresh command r).0
unfolding enqueue
enqueue-Keeps fresh command r new = record {
  entry = λ k id p. ground (
    arith,
    get-set (key command.identity) k fresh r.identity_index,
    pair_beq_iff (key command.identity) k,
  );
  kept = λ id p. ground (arith, get-set fresh id (new_execution fresh command r.now) r.executions);
}

submit_resolved-Keeps :
    (fresh : ℕ) (command : SubmitJob) (r : Runtime) → Keeps r (submit_resolved fresh command r).0
unfolding submit_resolved
submit_resolved-Keeps fresh command r =
    elim (Option-cases (Dict.get (key command.identity) r.identity_index)) [
      | inl eq ↦ rw (eq, submit_resolved) (enqueue-Keeps fresh command r eq)
      | inr (i, eq) ↦ rw (eq, submit_resolved) (Keeps-refl r)
    ]

submit-Keeps :
    (c : Config) (fresh : ℕ) (command : SubmitJob) (r : Runtime)
    → Keeps r (submit c fresh command r).0
unfolding submit
submit-Keeps c fresh command r = elim (Result-cases (resolve c command)) [
  | inl (k, eq) ↦ rw (eq, submit) (submit_resolved-Keeps fresh k r)
  | inr (f, eq) ↦ rw (eq, submit) (Keeps-refl r)
]

advance_schedule-Keeps : (s : Schedule) (r : Runtime) → Keeps r (advance_schedule s r).0
unfolding advance_schedule
advance_schedule-Keeps s r =
    Grows-Keeps (Grows-same r (advance_schedule s r).0 (ground arith) (ground arith))

after_submit-Keeps :
    (s : Schedule) (x : Runtime × Result JobSnapshot) → Keeps x.0 (after_submit s x).0
unfolding after_submit
after_submit-Keeps s (r, err f) = Keeps-refl r
after_submit-Keeps s (r, ok v) = advance_schedule-Keeps s r

run_schedule-Keeps :
    (c : Config) (fresh correlation_id : ℕ) (s : Schedule) (r : Runtime)
    → Keeps r (run_schedule c fresh correlation_id s r).0
unfolding run_schedule
run_schedule-Keeps c fresh correlation_id s r =
    elim (Result-cases (planned_command c correlation_id s)) [
      | inl (k, eq) ↦
          rw (eq, run_schedule)
            (Keeps-trans (submit-Keeps c fresh k r) (after_submit-Keeps s (submit c fresh k r)))
      | inr (f, eq) ↦ rw (eq, run_schedule) (Keeps-refl r)
    ]

schedule_tick-Keeps :
    (c : Config) (fresh correlation_id : ℕ) (r : Runtime)
    → Keeps r (schedule_tick c fresh correlation_id r).0
unfolding schedule_tick
schedule_tick-Keeps c fresh correlation_id r = elim (Option-cases (first_due r.now r.schedules)) [
  | inl eq ↦ rw (eq, schedule_tick) (Keeps-refl r)
  | inr (s, eq) ↦ rw (eq, schedule_tick) (run_schedule-Keeps c fresh correlation_id s r)
]

add_schedule-Keeps :
    (id : ℕ) (j t k : String) (at : ℕ) (i : Option ℕ) (m : ℕ) (r : Runtime)
    → Keeps r (add_schedule id j t k at i m r).0
unfolding add_schedule
add_schedule-Keeps id j t k at i m r =
    Grows-Keeps (Grows-same r (add_schedule id j t k at i m r).0 (ground arith) (ground arith))

advance_time-Keeps : (d : ℤ) (r : Runtime) → Keeps r (advance_time d r).0
unfolding advance_time
advance_time-Keeps (pos n) r = Grows-Keeps (Grows-same r (record r { now = r.now + n }) refl refl)
advance_time-Keeps (negsuc n) r = Keeps-refl r

Step-Keeps : {c : Config} {r s : Runtime} → Step c r s → Keeps r s
unfolding reap_expired rebuild_outbox
Step-Keeps {c} {r} (submitted fresh command b new) = submit-Keeps c fresh command r
Step-Keeps {c} {r} (claimed id n w) = Grows-Keeps (claim-Grows c id n w r)
Step-Keeps {c} {r} (recorded k o) = Grows-Keeps (record_outcome-Grows c k o r)
Step-Keeps {c} {r} (relayed publish limit) = Grows-Keeps (relay_due-Grows publish limit r)
Step-Keeps {c} {r} (rebuilt limit) =
    Grows-Keeps
      (rebuild_rows-Grows (take limit (keep (λ entry. is_published entry.1.state) r.outbox)) r)
Step-Keeps {c} {r} (reaped limit) =
    Grows-Keeps
      (abandon_all-Grows (take limit (keep (λ entry. is_reapable r.now entry.1) r.executions)) r)
Step-Keeps {c} {r} (scheduled id j t k at i m) = add_schedule-Keeps id j t k at i m r
Step-Keeps {c} {r} (ticked fresh correlation_id new) = schedule_tick-Keeps c fresh correlation_id r
Step-Keeps {c} {r} (advanced d) = advance_time-Keeps d r

pub Reach-Keeps : {c : Config} {r s : Runtime} → Reach c r s → Keeps r s
Reach-Keeps {c} {r} here = Keeps-refl r
Reach-Keeps (next p st) = Keeps-trans (Reach-Keeps p) (Step-Keeps st)
