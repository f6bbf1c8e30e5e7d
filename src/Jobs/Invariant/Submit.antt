-- ===== src/Jobs/Invariant/Submit.antt =====
-- Submissions keep the runtime consistent.
use umbral.Prelude.{
  ℕ, ℤ, pos, negsuc, ◌+◌, ◌≤◌, ◌≡◌, refl, none, ok, arith, nat_eq, pair_eq, String, string_eq, inl,
  inr, Option-cases, Result-cases,
}
use umbral.Prelude.Dict
use umbral.Jobs.Contracts.{SubmitJob, key, submit_job, create_submit_job}
use umbral.Audit.{AuditActor}
use umbral.Jobs.State.{Config, Runtime, init}
use umbral.Jobs.Submit.{
  advance_time, resolve, new_outbox, new_execution, put_execution, put_outbox, enqueue,
  submit_resolved, submit,
}
use umbral.Jobs.Lease.{is_running}
use umbral.Jobs.Invariant.{
  IsSound, RowIsSound, IsConsistent, put_both-IsConsistent, same-IsConsistent,
}

-- What `SubmitJob.__post_init__` has checked.
abbrev pub IsBounded : SubmitJob → Type 0
IsBounded command = (1 ≤ command.max_attempts) × (command.max_attempts ≤ 10)

pub init-IsConsistent : (now : ℕ) → IsConsistent (init now)
unfolding Dict.get
init-IsConsistent now = record {
  distinct = tt;
  distinct_rows = tt;
  sound = λ id e p. cc;
  row_sound = λ id n row p. cc;
  row_fits = λ id n row p. cc;
  next_row = λ id e p w. cc;
}

pub advance_time-IsConsistent :
    (d : ℤ) (r : Runtime) → IsConsistent r → IsConsistent (advance_time d r).0
unfolding advance_time
advance_time-IsConsistent (pos n) r h =
    same-IsConsistent r (record r { now = r.now + n }) refl refl h
advance_time-IsConsistent (negsuc n) r h = h

new_execution-IsSound :
    (fresh : ℕ) (command : SubmitJob) (now : ℕ)
    → IsBounded command
    → IsSound fresh (new_execution fresh command now)
unfolding new_execution is_running
new_execution-IsSound fresh command now b = ground arith

pub new_outbox-RowIsSound : (id n now : ℕ) → RowIsSound id n (new_outbox id n now)
unfolding new_outbox
new_outbox-RowIsSound id n now = ground arith

enqueue-IsConsistent :
    (fresh : ℕ) (command : SubmitJob) (r : Runtime)
    → IsConsistent r
    → IsBounded command
    → Dict.get fresh r.executions ≡ none
    → IsConsistent (enqueue fresh command r).0
unfolding enqueue
enqueue-IsConsistent fresh command r h b new =
    let e = new_execution fresh command r.now in
    let row = new_outbox fresh 1 r.now in
    same-IsConsistent (put_outbox fresh 1 row (put_execution fresh e r)) (enqueue fresh command r).0
      refl refl
      (put_both-IsConsistent r h fresh 1 e row (new_execution-IsSound fresh command r.now b)
        (new_outbox-RowIsSound fresh 1 r.now) (ground arith) (λ n f. ground arith) refl)

resolve-IsBounded :
    (c : Config) (command resolved : SubmitJob)
    → resolve c command ≡ ok resolved
    → IsBounded command
    → IsBounded resolved
unfolding resolve submit_job
resolve-IsBounded c command resolved h b = ground arith

pub create_submit_job-IsBounded :
    (c : Config) (j l k : String) (id : ℕ) (a : AuditActor) (m : ℕ) (command : SubmitJob)
    → create_submit_job c.py_text j l k id a m ≡ ok command
    → IsBounded command
unfolding create_submit_job
create_submit_job-IsBounded c j l k id a m command h = ground arith

submit_resolved-IsConsistent :
    (fresh : ℕ) (command : SubmitJob) (r : Runtime)
    → IsConsistent r
    → IsBounded command
    → Dict.get fresh r.executions ≡ none
    → IsConsistent (submit_resolved fresh command r).0
unfolding submit_resolved
submit_resolved-IsConsistent fresh command r h b new =
    elim (Option-cases (Dict.get (key command.identity) r.identity_index)) [
      | inl e ↦ rw (e, submit_resolved) (enqueue-IsConsistent fresh command r h b new)
      | inr (i, e) ↦ rw (e, submit_resolved) h
    ]

-- A submission, accepted or not, keeps the runtime consistent.
pub submit-IsConsistent :
    (c : Config) (fresh : ℕ) (command : SubmitJob) (r : Runtime)
    → IsConsistent r
    → IsBounded command
    → Dict.get fresh r.executions ≡ none
    → IsConsistent (submit c fresh command r).0
unfolding submit
submit-IsConsistent c fresh command r h b new = elim (Result-cases (resolve c command)) [
  | inl (k, e) ↦
      rw (e, submit)
        (submit_resolved-IsConsistent fresh k r h (resolve-IsBounded c command k e b) new)
  | inr (f, e) ↦ rw (e, submit) h
]
