-- ===== src/Jobs/Steps/Inert.antt =====
-- Executions that no call of the port changes any more: those that have ended, and those that run
-- without a lease.
use umbral.Prelude.{
  ℤ, pos, negsuc, ℕ, ◌≡◌, refl, sym, Bool, true, false, ◌&&◌, ◌||◌, [], ◌∷◌, Option, none, some, ok,
  arith, nat_eq, pair_eq, inl, inr, Bool-cases, All, keep, take, String, String, string_eq, leb,
}
use mathlib.Core.Path.{subst}
use native.Mathlib.Decide.{ℕ_discrete}
use umbral.Prelude.Dict
use umbral.Prelude.Dict.{
  Dict, get-set, IsDict, Holds, Holds-set, Holds-refl, Holds-keep, Holds-take, IsDict-keep,
  IsDict-take, All-take, keep-All,
}
use umbral.Jobs.Contracts.{is_terminal_state}
use umbral.Jobs.State.{Outbox, Execution, JobClaim, Config, Runtime, snapshot}
use umbral.Jobs.Submit.{advance_time, put_execution}
use umbral.Jobs.Lease.{
  is_running, is_reapable, lease_expired, abandon, claim_execution, claim, abandon_all,
  reap_expired,
}
use umbral.Jobs.Outcome.{Outcome, lease_over, is_stale, record_outcome}
use umbral.Jobs.Relay
use umbral.Jobs.Relay.{
  Queue, RelayResult, is_due, is_published, due_rows, counted, announced, write_row, relay_row,
  relay_rows, relay_due, rebuild_rows, rebuild_outbox,
}
use umbral.Jobs.Invariant.Relay.{owner-of-row, outbox-relay_row, relay_row-IsConsistent}
use umbral.Jobs.Schedule.{add_schedule}
use umbral.Jobs.Invariant.{is_waiting, IsConsistent}
use umbral.Jobs.Invariant.Lease.{executions-abandon}
use umbral.Jobs.Steps.{
  Step, submitted, claimed, recorded, relayed, rebuilt, reaped, scheduled, ticked, advanced, Reach,
  here, next,
}
use umbral.Jobs.Steps.Frame.{
  Stands, submit-Stands, SameJobs-Stands, schedule_tick-Stands, abandon-Stands, claim_other-Stands,
  record_other-Stands,
}
use umbral.Jobs.Steps.Invariant.{add_schedule-SameJobs, Reach-IsConsistent_of}

abbrev no_lease : Option ℕ → Bool
no_lease none = true
no_lease (some t) = false

-- The execution has ended, or it runs without a lease.
abbrev pub is_inert : Execution → Bool
is_inert e = is_terminal_state e.state || is_running e.state && no_lease e.lease_until

module _ (id : ℕ) (e : Execution) (inert : is_inert e ≡ true) where
  claim_execution-inert :
      (c : Config) (n : ℕ) (w : String) (r : Runtime) → (claim_execution c id n w e r).0 ≡ r
  unfolding claim_execution is_terminal_state is_running
  claim_execution-inert c n w r = ground arith

  claim-inert :
      (c : Config) (n : ℕ) (w : String) (r : Runtime) → Stands id e r → (claim c id n w r).0 ≡ r
  unfolding claim
  claim-inert c n w r at = rw (at, claim) (claim_execution-inert c n w r)

  claim-Stands :
      (c : Config) (j n : ℕ) (w : String) (r : Runtime)
      → Stands id e r
      → Stands id e (claim c j n w r).0
  claim-Stands c j n w r at = elim (ℕ_discrete j id) [
    | yes p ↦ subst (λ k. Stands id e (claim c k n w r).0) (sym p) (rw (claim-inert c n w r at) at)
    | no ne ↦ claim_other-Stands id e c j n w r ne at
  ]

  stale : (claim : JobClaim) (now : ℕ) → is_stale claim now e ≡ true
  unfolding is_stale is_running is_terminal_state lease_over
  stale claim now = ground arith

  record_outcome-inert :
      (c : Config) (claim : JobClaim) (o : Outcome) (r : Runtime)
      → Stands claim.execution_id e r
      → record_outcome c claim o r ≡ (r, ok (snapshot e))
  unfolding record_outcome
  record_outcome-inert c claim o r at = rw (at, record_outcome) (rw (stale claim r.now))

  record_outcome-Stands :
      (c : Config) (claim : JobClaim) (o : Outcome) (r : Runtime)
      → Stands id e r
      → Stands id e (record_outcome c claim o r).0
  record_outcome-Stands c claim o r at = elim (ℕ_discrete claim.execution_id id) [
    | yes p ↦ rw (record_outcome-inert c claim o r (subst (λ k. Stands k e r) (sym p) at)) at
    | no ne ↦ record_other-Stands id e c claim o r ne at
  ]

  -- The reaper passes over it.
  not_reapable : (now : ℕ) → is_reapable now e ≡ false
  unfolding is_reapable is_running is_terminal_state lease_expired
  not_reapable now = ground arith

  abandon_all-Stands :
      (now : ℕ) (l : Dict ℕ Execution) (r : Runtime)
      → IsDict l
      → Holds l r.executions
      → All (λ entry. is_reapable now entry.1 ≡ true) l
      → Stands id e r
      → Stands id e (abandon_all l r)
  unfolding abandon_all
  abandon_all-Stands now [] r d held due at = at
  abandon_all-Stands now ((j, x) ∷ l) r d held due at =
      let (y, eq) = executions-abandon j x r in
      let other : (j ≡ id → ⊥) = λ p. ground (arith, not_reapable now, held.0, due.0) in
      abandon_all-Stands now l (abandon j x r) d.1 (rw eq (Holds-set j y l r.executions d.0 held.1))
        due.1 (abandon-Stands id e j x r other at)

  reap_expired-Stands :
      (limit : ℕ) (r : Runtime)
      → IsConsistent r
      → Stands id e r
      → Stands id e (reap_expired limit r).0
  unfolding reap_expired
  reap_expired-Stands limit r h at =
      let due = λ (entry : ℕ × Execution). is_reapable r.now entry.1 in
      abandon_all-Stands r.now (take limit (keep due r.executions)) r
        (IsDict-take limit (keep due r.executions) (IsDict-keep due r.executions h.distinct))
        (Holds-take limit (keep due r.executions) r.executions
          (Holds-keep due r.executions r.executions (Holds-refl r.executions h.distinct)))
        (All-take (λ entry. due entry ≡ true) limit (keep due r.executions)
          (keep-All due r.executions))
        at

  waits_not : is_waiting e.state ≡ false
  unfolding is_terminal_state is_running
  waits_not = ground arith

  relay_row-Stands :
      (publish : Queue) (j n : ℕ) (row : Outbox) (x : Execution) (r : Runtime)
      → IsConsistent r
      → Dict.get (j, n) r.outbox ≡ some row
      → Dict.get j r.executions ≡ some x
      → Stands id e r
      → Stands id e (relay_row publish (j, n) row x r)
  unfolding relay_row announced put_execution write_row
  relay_row-Stands publish j n row x r h held owner at = ground (
    arith,
    waits_not,
    get-set row.execution_id id (announced row x) r.executions,
    h.row_sound j n row,
    h.row_fits j n row,
  )

  relay_rows-Stands :
      (publish : Queue) (now : ℕ) (l : Dict (ℕ × ℕ) Outbox) (r : Runtime) (m : RelayResult)
      → IsConsistent r
      → IsDict l
      → Holds l r.outbox
      → All (λ entry. is_due now entry.1 ≡ true) l
      → Stands id e r
      → Stands id e (relay_rows publish l r m).0
  unfolding relay_rows is_due
  relay_rows-Stands publish now [] r m h d held due at = at
  relay_rows-Stands publish now (((j, n), row) ∷ l) r m h d held due at =
      let (x, owner) = owner-of-row r h j n row held.0 in
      let (y, eq) = outbox-relay_row publish (j, n) row x r in
      let b = publish x.execution_id row.attempt_number x.correlation_id in
      let own : Dict.get row.execution_id r.executions ≡ some x =
        rw ((h.row_sound j n row held.0).own_execution) owner in
      rw (own, relay_rows)
        (relay_rows-Stands publish now l (relay_row publish (j, n) row x r) (counted b m)
          (relay_row-IsConsistent r h j n row x held.0 owner publish (ground arith)) d.1
          (rw eq (Holds-set (j, n) y l r.outbox d.0 held.1)) due.1
          (relay_row-Stands publish j n row x r h held.0 owner at))

  relay_due-Stands :
      (publish : Queue) (limit : ℕ) (r : Runtime)
      → IsConsistent r
      → Stands id e r
      → Stands id e (relay_due publish limit r).0
  unfolding relay_due due_rows
  relay_due-Stands publish limit r h at = elim (Bool-cases (leb 1 limit && leb limit 1000)) [
    | inl good ↦
        let due = λ (entry : (ℕ × ℕ) × Outbox). is_due r.now entry.1 in
        rw (good, relay_due)
          (relay_rows-Stands publish r.now (take limit (keep due r.outbox)) r
            (record { published = 0; failed = 0 }) h
            (IsDict-take limit (keep due r.outbox) (IsDict-keep due r.outbox h.distinct_rows))
            (Holds-take limit (keep due r.outbox) r.outbox
              (Holds-keep due r.outbox r.outbox (Holds-refl r.outbox h.distinct_rows)))
            (All-take (λ entry. due entry ≡ true) limit (keep due r.outbox) (keep-All due r.outbox))
            at)
    | inr bad ↦ rw (bad, relay_due) at
  ]

  executions-rebuild_rows :
      (l : Dict (ℕ × ℕ) Outbox) (r : Runtime) → (rebuild_rows l r).executions ≡ r.executions
  unfolding rebuild_rows write_row
  executions-rebuild_rows [] r = refl
  executions-rebuild_rows ((at, row) ∷ l) r =
      executions-rebuild_rows l (write_row at (Relay.rebuilt row) r)

  rebuild_outbox-Stands :
      (limit : ℕ) (r : Runtime) → Stands id e r → Stands id e (rebuild_outbox limit r).0
  unfolding rebuild_outbox
  rebuild_outbox-Stands limit r at =
      rw
        (executions-rebuild_rows (take limit (keep (λ entry. is_published entry.1.state) r.outbox))
          r)
        at

  advance_time-Stands : (d : ℤ) (r : Runtime) → Stands id e r → Stands id e (advance_time d r).0
  unfolding advance_time
  advance_time-Stands (pos n) r at = at
  advance_time-Stands (negsuc n) r at = at

  Step-Stands :
      {c : Config} {r s : Runtime} → Step c r s → IsConsistent r → Stands id e r → Stands id e s
  Step-Stands {c} {r} (submitted fresh command b new) h at =
      submit-Stands id e c fresh command r new at
  Step-Stands {c} {r} (claimed j n w) h at = claim-Stands c j n w r at
  Step-Stands {c} {r} (recorded claim o) h at = record_outcome-Stands c claim o r at
  Step-Stands {c} {r} (relayed publish limit) h at = relay_due-Stands publish limit r h at
  Step-Stands {c} {r} (rebuilt limit) h at = rebuild_outbox-Stands limit r at
  Step-Stands {c} {r} (reaped limit) h at = reap_expired-Stands limit r h at
  Step-Stands {c} {r} (scheduled i j t k w n m) h at =
      SameJobs-Stands id e r (add_schedule i j t k w n m r).0
        (add_schedule-SameJobs i j t k w n m r) at
  Step-Stands {c} {r} (ticked fresh correlation_id new) h at =
      schedule_tick-Stands id e c fresh correlation_id r new at
  Step-Stands {c} {r} (advanced d) h at = advance_time-Stands d r at

  -- No calls of the port change an inert execution of a consistent runtime, in any field.
  pub Reach-Stands :
      {c : Config} {r s : Runtime} → IsConsistent r → Reach c r s → Stands id e r → Stands id e s
  Reach-Stands h here at = at
  Reach-Stands h (next p st) at = Step-Stands st (Reach-IsConsistent_of h p) (Reach-Stands h p at)
