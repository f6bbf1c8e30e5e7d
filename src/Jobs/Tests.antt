-- ===== src/Jobs/Tests.antt =====
-- A small run of the runtime, and each guarantee at a point of it.
use mathlib.Core.Logic.{◌↔◌}
use umbral.Prelude.{
  ℕ, pos, ◌+◌, ◌*◌, ◌≤◌, ◌≡◌, refl, String, Bool, true, false, [], ◌∷◌, none, some, Fault,
  type_error, ◌⊎◌, ok, err, arith, nat_eq, pair_eq, string_eq, inl, ◌==◌, length, keep,
}
use umbral.Prelude.Dict
use umbral.Prelude.Dict.{Dict}
use umbral.Text.{PyText, is_graphic}
use umbral.Audit.{system_actor}
use umbral.Jobs.Contracts.{
  JobState, JobIdentity, SubmitJob, create_identity, is_terminal_state, normalize_job_type,
  normalize_target, normalize_idempotency_key,
}
use umbral.Jobs.Contracts.Normal.{create_identity_idem}
use umbral.Jobs.Failures.{
  second, JobError, transient_job_error, permanent_job_error, classify_failure,
}
use umbral.Jobs.State.{
  Execution, OutboxState, Schedule, JobClaim, JsonScalar, JobSnapshot, Config, Runtime, init,
  snapshot,
}
use umbral.Jobs.Submit.{submit, advance_time, new_outbox, new_execution}
use umbral.Jobs.Lease.{leased, job_claim, claim, is_reapable, reap_expired}
use umbral.Jobs.Outcome.{
  returned, raised, PyObject, mapping, not_mapping, str_key, scalar, json_object, is_owner,
  released, succeed, is_transient, completed, complete, record_outcome,
}
use umbral.Jobs.Relay.{Queue, RelayResult, is_due, due_rows, relay_due, not_published}
use umbral.Jobs.Schedule.{add_schedule, new_schedule, schedule_tick, is_due_schedule}
use umbral.Jobs.Invariant.{IsConsistent}
use umbral.Jobs.Steps.{Reach, here, next, submitted, claimed, recorded, reaped, advanced}
use umbral.Jobs.Steps.Invariant.{Reach-IsConsistent}
use umbral.Jobs.Guarantees.Attempts.{
  terminal_unchanged, IsClaimable, IsGranted, claim-IsGranted_iff, lease_excludes,
}
use umbral.Jobs.Guarantees.Outcomes.{
  IsHeld, IsRetried, record_outcome-IsRetried, record_outcome-failed, record_outcome-succeeded,
}
use umbral.Jobs.Guarantees.Faults.{refused_result_wedges, bad_schedule_blocks, complete_is_undone}
use umbral.Jobs.Guarantees.Identity.{resubmit_same}
use umbral.Jobs.Guarantees.Delivery.{relay_due-total, not_published_backs_off, reap_expired-clears}

plain_space : ℕ → Bool
plain_space c = c == 32

plain_graphic : (c : ℕ) → is_graphic c ≡ true → plain_space c ≡ false
unfolding plain_space is_graphic
plain_graphic c h = ground arith

-- Texts without white space at the ends and without capitals.
abbrev plain : PyText
plain = record {
  strip = λ s. s;
  lower = λ s. s;
  is_space = plain_space;
  strip_of_no_space = λ s h. refl;
  lower_of_no_upper = λ s h k. refl;
  graphic_no_space = plain_graphic;
}

abbrev config : Config
config = record {
  py_text = plain;
  release_id = "test";
  lease_seconds = 60;
  handlers = none;
  dumps_length = λ v. 2;
  str_uuid = λ n. "0";
  canonical_utc = λ n. "2026";
}

abbrev job_identity : JobIdentity
job_identity = record {
  job_type = "radar.run";
  logical_target = "profile/1";
  idempotency_key = "k1";
}

abbrev command : SubmitJob
command = record {
  identity = job_identity;
  correlation_id = 9;
  actor = system_actor;
  max_attempts = 2;
}

abbrev start : Runtime
start = init 0

abbrev waiting : Runtime
waiting = (submit config 7 command start).0

abbrev busy : Runtime
busy = (claim config 7 1 "w" waiting).0

to_waiting : Reach config start waiting
unfolding Dict.get
to_waiting = next here (submitted 7 command (omega arith) refl)

to_busy : Reach config start busy
to_busy = next to_waiting (claimed 7 1 "w")

create_identity_example : create_identity plain "radar.run" "profile/1" "k1" ≡ ok job_identity
unfolding create_identity normalize_job_type normalize_target normalize_idempotency_key plain_space
create_identity_example = refl

create_identity_idem_example : create_identity plain "radar.run" "profile/1" "k1" ≡ ok job_identity
create_identity_idem_example =
    create_identity_idem plain "radar.run" "profile/1" "k1" job_identity create_identity_example

Reach-IsConsistent_example : IsConsistent busy
Reach-IsConsistent_example = Reach-IsConsistent config 0 busy to_busy

abbrev new_one : Execution
new_one = new_execution 7 command 0

new_one-IsClaimable : IsClaimable 7 1 waiting new_one
unfolding submit Dict.get Dict.set new_execution
new_one-IsClaimable = record {
  present = refl;
  is_next = refl;
  waiting = refl;
  available = omega arith;
}

claim-IsGranted_iff_example :
    IsGranted (claim config 7 1 "w" waiting) ↔ ((e : Execution) × IsClaimable 7 1 waiting e)
claim-IsGranted_iff_example = claim-IsGranted_iff config 7 1 "w" waiting

lease_excludes_example : claim config 7 2 "v" busy ≡ (busy, none)
unfolding submit claim Dict.get Dict.set
lease_excludes_example =
    lease_excludes config 7 1 2 "w" "v" waiting busy new_one new_one-IsClaimable refl (omega arith)

abbrev running_one : Execution
running_one = leased config 1 "w" 0 new_one

abbrev ticket : JobClaim
ticket = job_claim config 7 1 "w" new_one

ticket-IsHeld : IsHeld ticket busy running_one 60000000
unfolding submit claim Dict.get Dict.set new_execution leased job_claim is_owner
ticket-IsHeld = record {
  present = refl;
  running = refl;
  attempt = refl;
  owner = refl;
  lease = refl;
  in_time = omega arith;
}

abbrev broken : JobError
broken = transient_job_error "queue.down" none

record_outcome-IsRetried_example :
    (x : Execution) × IsRetried broken ticket busy
      (record_outcome config ticket (raised broken) busy).0
      x
unfolding new_execution leased classify_failure is_transient
record_outcome-IsRetried_example =
    record_outcome-IsRetried config ticket broken busy running_one 60000000 ticket-IsHeld refl
      (omega arith)

abbrev fatal : JobError
fatal = permanent_job_error "input.invalid"

record_outcome-failed_example :
    let s = (record_outcome config ticket (raised fatal) busy).0 in
    (s.outbox ≡ busy.outbox)
    × ((x : Execution) × (Dict.get ticket.execution_id s.executions ≡ some x)
        × (x.state ≡ JobState.failed)
        × (x.finished_at ≡ some busy.now)
        × (x.error_code ≡ some (classify_failure fatal).code)
        × (x.lease_until ≡ none))
unfolding classify_failure is_transient
record_outcome-failed_example =
    record_outcome-failed config ticket fatal busy running_one 60000000 ticket-IsHeld (inl refl)

abbrev answer : PyObject
answer = mapping ((str_key "matches", scalar (JsonScalar.int (pos 3))) ∷ [])

abbrev answer_fields : Dict String JsonScalar
answer_fields = ("matches", JsonScalar.int (pos 3)) ∷ []

answer_accepted : json_object config answer ≡ ok answer_fields
unfolding json_object
answer_accepted = refl

answer_recorded :
    let x = succeed busy.now answer_fields (released busy.now running_one) in
    (x.state ≡ JobState.succeeded)
    × (x.result ≡ some answer_fields)
    × (x.lease_until ≡ none)
    × (Dict.get ticket.execution_id
          (record_outcome config ticket (returned answer) busy).0.executions
        ≡ some x)
    × ((record_outcome config ticket (returned answer) busy).1 ≡ ok (snapshot x))
answer_recorded =
    record_outcome-succeeded config ticket answer answer_fields busy running_one 60000000
      ticket-IsHeld answer_accepted

abbrev finished : Runtime
finished = (record_outcome config ticket (returned answer) busy).0

abbrev finished_one : Execution
finished_one = succeed busy.now answer_fields (released busy.now running_one)

terminal_unchanged_example :
    Dict.get 7 (claim config 7 2 "v" finished).0.executions ≡ some finished_one
unfolding job_claim succeed is_terminal_state
terminal_unchanged_example =
    terminal_unchanged config 0 7 finished (claim config 7 2 "v" finished).0 finished_one
      (next to_busy (recorded ticket (returned answer))) answer_recorded.3 refl
      (next here (claimed 7 2 "v"))

not_an_object : json_object config not_mapping ≡ err type_error
unfolding json_object
not_an_object = refl

refused_result_wedges_example :
    let r = (record_outcome config ticket (returned not_mapping) busy).0 in
    ((record_outcome config ticket (returned not_mapping) busy).1 ≡ err type_error)
    × ((x : Execution) × (Dict.get 7
            (reap_expired 100 (advance_time (pos 90000000) r).0).0.executions
          ≡ some x)
        × (x.state ≡ JobState.running)
        × (x.lease_until ≡ none))
unfolding job_claim
refused_result_wedges_example =
    let r = (record_outcome config ticket (returned not_mapping) busy).0 in
    refused_result_wedges config 0 ticket not_mapping type_error busy
      (reap_expired 100 (advance_time (pos 90000000) r).0).0 running_one 60000000 to_busy
      ticket-IsHeld not_an_object (next (next here (advanced (pos 90000000))) (reaped 100))

abbrev bad_one : Schedule
bad_one = new_schedule 4 "radar.run" "profile/2" "one_shot" 0 none 0

abbrev planned : Runtime
planned = (add_schedule 4 "radar.run" "profile/2" "one_shot" 0 none 0 start).0

bad_schedule_blocks_example :
    let later = record planned { now = planned.now + 5 } in
    (f : Fault) × (schedule_tick config 8 9 later ≡ (later, err f))
unfolding add_schedule Dict.set is_due_schedule new_schedule
bad_schedule_blocks_example =
    bad_schedule_blocks config 8 9 5 4 bad_one [] planned refl refl (inl (omega arith))

abbrev accepting : Queue
accepting = λ a b k. true

complete_is_undone_example :
    ((complete config 7 answer waiting).1
      ≡ ok (snapshot (completed waiting.now answer_fields new_one)))
    × ((x : Execution) × (Dict.get 7
            (relay_due accepting 10 (complete config 7 answer waiting).0).0.executions
          ≡ some x)
        × (x.state ≡ JobState.queued))
unfolding submit Dict.get Dict.set new_execution new_outbox due_rows is_due keep json_object
complete_is_undone_example =
    complete_is_undone config accepting 10 7 answer answer_fields (new_outbox 7 1 0) waiting new_one
      (Reach-IsConsistent config 0 waiting to_waiting) refl refl refl (omega arith) (omega arith)
      (λ a b k. refl) refl

resubmit_same_example :
    (s' : JobSnapshot) × (submit config 8 command busy ≡ (busy, ok s'))
    × (s'.execution_id ≡ (snapshot new_one).execution_id)
unfolding submit Dict.get new_execution
resubmit_same_example =
    resubmit_same config 0 7 8 command (snapshot new_one) start busy here (omega arith) refl refl
      (next here (claimed 7 1 "w"))

relay_due-total_example :
    (m : RelayResult) × ((relay_due accepting 10 waiting).1 ≡ ok m)
    × (m.published + m.failed ≡ length (due_rows 10 waiting))
    × (length (due_rows 10 waiting) ≤ 10)
relay_due-total_example =
    relay_due-total config 0 accepting 10 waiting to_waiting (omega arith) (omega arith)

not_published_backs_off_example :
    let row = new_outbox 7 1 0 in
    ((not_published 0 row).publish_attempts ≡ row.publish_attempts + 1)
    × (((not_published 0 row).state ≡ OutboxState.failed) × (row.publish_attempts ≡ 99)
        ⊎ ((not_published 0 row).state ≡ OutboxState.pending)
          × (0 ≤ (not_published 0 row).available_at)
          × ((not_published 0 row).available_at ≤ 0 + 300 * second))
unfolding is_due new_outbox
not_published_backs_off_example = not_published_backs_off 0 (new_outbox 7 1 0) refl

reap_expired-clears_example : is_reapable 0 running_one ≡ false
unfolding submit claim reap_expired Dict.get Dict.set new_execution leased keep is_reapable
reap_expired-clears_example =
    reap_expired-clears config 0 100 busy to_busy (omega arith) 7 running_one refl
