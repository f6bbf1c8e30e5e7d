-- ===== src/Jobs/Guarantees/Delivery.antt =====
-- The relay handles every row that is due, and the reaper every lease that has run out.
use umbral.Prelude.{
  ℕ, ◌+◌, ◌*◌, ◌≤◌, ◌≡◌, refl, ◌⊎◌, true, false, [], ◌∷◌, some, ok, err, arith, nat_eq, pair_eq,
  inl, inr, Bool-cases, length, length-take, take, keep, ltb, Result,
}
use umbral.Prelude.Dict
use umbral.Prelude.Dict.{Dict, get-set, get-keep-some, length-keep-le, take-all}
use umbral.Jobs.Contracts.{JobState}
use umbral.Jobs.State.{Execution, Outbox, OutboxState, Config, Runtime, init}
use umbral.Jobs.Submit.{put_execution, put_outbox}
use umbral.Jobs.Lease.{
  is_running, is_reapable, abandoned, schedule_retry, fail_execution, abandon, abandon_all,
  reap_expired,
}
use umbral.Jobs.Relay.{Queue, RelayResult, is_due, due_rows, relay_due, not_published, is_pending}
use umbral.Jobs.Failures.{second}
use umbral.Jobs.Invariant.Relay.{Counts, relay_due-Counts}
use umbral.Jobs.Steps.{Reach}
use umbral.Jobs.Steps.Invariant.{Reach-IsConsistent}

Counts-ok :
    (n : RelayResult) (k : ℕ) (x : Runtime × Result RelayResult)
    → Counts n k x
    → (m : RelayResult) × (x.1 ≡ ok m) × (m.published + m.failed ≡ n.published + n.failed + k)
Counts-ok n k (r, ok m) h = (m, refl, h.1)
Counts-ok n k (r, err f) h = absurd h

-- From any runtime that calls of the port reach, a relay with a limit in range returns, and its two
-- counters add up to the number of rows that were due, of which it takes no more than the limit.
pub relay_due-total :
    (c : Config) (now : ℕ) (publish : Queue) (limit : ℕ) (r : Runtime)
    → Reach c (init now) r
    → 1 ≤ limit
    → limit ≤ 1000
    → (m : RelayResult) × ((relay_due publish limit r).1 ≡ ok m)
      × (m.published + m.failed ≡ length (due_rows limit r))
      × (length (due_rows limit r) ≤ limit)
relay_due-total c now publish limit r p lo hi =
    let (m, eq, sum) =
      Counts-ok (record { published = 0; failed = 0 }) (length (due_rows limit r))
        (relay_due publish limit r)
        (relay_due-Counts publish limit r (Reach-IsConsistent c now r p) lo hi) in
    (
      m,
      eq,
      omega (arith, sum),
      unfold due_rows in
          omega (arith, length-take {0} limit (keep (λ entry. is_due r.now entry.1) r.outbox)),
    )

-- What a publication that fails makes of a row that was due: it counts the try, and the row either
-- is pending again within five minutes, or has failed for good at its hundredth try.
pub not_published_backs_off :
    (now : ℕ) (row : Outbox)
    → is_due now row ≡ true
    → ((not_published now row).publish_attempts ≡ row.publish_attempts + 1)
      × (((not_published now row).state ≡ OutboxState.failed) × (row.publish_attempts ≡ 99)
          ⊎ ((not_published now row).state ≡ OutboxState.pending)
            × (now ≤ (not_published now row).available_at)
            × ((not_published now row).available_at ≤ now + 300 * second))
unfolding not_published is_due is_pending
not_published_backs_off now row due = ground arith

executions_abandoned :
    (id : ℕ) (e : Execution) (r : Runtime) (now : ℕ)
    → (x : Execution) × ((abandon id e r).executions ≡ Dict.set id x r.executions)
      × (is_reapable now x ≡ false)
unfolding abandon schedule_retry fail_execution put_execution put_outbox is_reapable is_running
executions_abandoned id e r now = elim (Bool-cases (ltb e.attempt_count e.max_attempts)) [
  | inl lt ↦ (
    record (abandoned r.now e) { state = JobState.retry_wait; available_at = r.now },
    rw (lt, abandon) refl,
    refl,
  )
  | inr no_more ↦ (
    record (abandoned r.now e) { state = JobState.failed; finished_at = some r.now },
    rw (no_more, abandon) refl,
    refl,
  )
]

abandon_all-clears :
    (now : ℕ) (l : Dict ℕ Execution) (r : Runtime)
    → ((id : ℕ) (e : Execution)
        → Dict.get id r.executions ≡ some e
        → is_reapable now e ≡ true
        → Dict.get id l ≡ some e)
    → (id : ℕ) (e : Execution) → Dict.get id (abandon_all l r).executions ≡ some e
    → is_reapable now e ≡ false
unfolding abandon_all Dict.get
abandon_all-clears now [] r left id e at = elim (Bool-cases (is_reapable now e)) [
  | inl yes' ↦ cc (left id e at yes')
  | inr no' ↦ no'
]
abandon_all-clears now ((j, x) ∷ l) r left id e at =
    let (y, eq, clear) = executions_abandoned j x r now in
    abandon_all-clears now l (abandon j x r)
      (λ i d there due. ground (arith, rw eq at there, get-set j i y r.executions, left i d)) id e
      at

-- From any runtime that calls of the port reach, a reaper whose limit covers the executions leaves no
-- running execution whose lease has run out.
pub reap_expired-clears :
    (c : Config) (now limit : ℕ) (r : Runtime)
    → Reach c (init now) r
    → length r.executions ≤ limit
    → (id : ℕ) (e : Execution) → Dict.get id (reap_expired limit r).0.executions ≡ some e
    → is_reapable r.now e ≡ false
unfolding reap_expired
reap_expired-clears c now limit r p enough =
    let due = λ (entry : ℕ × Execution). is_reapable r.now entry.1 in
    let h = Reach-IsConsistent c now r p in
    let whole =
      take-all limit (keep due r.executions) (omega (arith, length-keep-le {0} due r.executions)) in
    abandon_all-clears r.now (take limit (keep due r.executions)) r
      λ id e at t. rw whole (get-keep-some due id e r.executions h.distinct at t)
