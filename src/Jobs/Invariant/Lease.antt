-- ===== src/Jobs/Invariant/Lease.antt =====
-- Claims, abandoned leases and the reaper keep the runtime consistent.
use umbral.Prelude.{
  ℕ, suc, ◌+◌, ◌<◌, ◌≡◌, refl, ap, true, false, List, [], ◌∷◌, none, some, arith, nat_eq, pair_eq,
  inl, inr, Option-cases, Bool-cases, length, length-append, String, All, keep, take, ltb,
}
use umbral.Prelude.Dict
use umbral.Prelude.Dict.{
  Dict, IsDict, Holds, Holds-set, Holds-refl, Holds-keep, Holds-take, IsDict-keep, IsDict-take,
  All-take, keep-All,
}
use umbral.Jobs.Contracts.{JobState, is_terminal_state}
use umbral.Jobs.State.{Attempt, Execution, Config, Runtime, update_last}
use umbral.Jobs.Submit.{new_outbox, put_execution, put_outbox}
use umbral.Jobs.Lease.{
  is_running, is_reapable, abandoned, schedule_retry, fail_execution, abandon, leased,
  claim_execution, claim, abandon_all, reap_expired,
}
use umbral.Jobs.Invariant.{
  is_waiting, IsSound, IsConsistent, put_execution-IsConsistent, put_both-IsConsistent,
}
use umbral.Jobs.Invariant.Submit.{new_outbox-RowIsSound}

pub length-update_last :
    (f : Attempt → Attempt) (l : List Attempt) → length (update_last f l) ≡ length l
unfolding update_last
length-update_last f [] = refl
length-update_last f (a ∷ []) = refl
length-update_last f (a ∷ b ∷ l) = ap suc (length-update_last f (b ∷ l))

-- A running execution that gives up its attempt, to retry it or to fail.
module _ (r : Runtime) (h : IsConsistent r) (id : ℕ) (e e' : Execution)
    (at : Dict.get id r.executions ≡ some e) (busy : is_running e.state ≡ true)
    (same_id : e'.execution_id ≡ e.execution_id) (same_count : e'.attempt_count ≡ e.attempt_count)
    (same_max : e'.max_attempts ≡ e.max_attempts)
    (same_attempts : length e'.attempts ≡ length e.attempts)
    (no_lease : e'.lease_until ≡ none) where
  pub schedule_retry-IsConsistent :
      (t : ℕ) → e.attempt_count < e.max_attempts → IsConsistent (schedule_retry id e' t r)
  unfolding schedule_retry is_running
  schedule_retry-IsConsistent t lt =
      put_both-IsConsistent r h id (e'.attempt_count + 1)
        (record e' { state = JobState.retry_wait; available_at = t })
        (new_outbox id (e'.attempt_count + 1) t) (ground (arith, h.sound id e))
        (new_outbox-RowIsSound id (e'.attempt_count + 1) t) (ground (arith, h.sound id e))
        (λ n f. ground (arith, h.sound id e)) refl

  pub fail_execution-IsConsistent : IsConsistent (fail_execution id e' r)
  unfolding fail_execution is_running
  fail_execution-IsConsistent =
      put_execution-IsConsistent r h id e
        (record e' { state = JobState.failed; finished_at = some r.now }) at
        (ground (arith, h.sound id e)) (λ n f. ground arith) (λ w. cc)

pub abandon-IsConsistent :
    (r : Runtime)
    → IsConsistent r
    → (id : ℕ) (e : Execution) → Dict.get id r.executions ≡ some e
    → is_running e.state ≡ true
    → IsConsistent (abandon id e r)
unfolding abandon abandoned
abandon-IsConsistent r h id e at busy =
    let e' = abandoned r.now e in
    let same = length-update_last _ e.attempts in
    elim (Bool-cases (ltb e.attempt_count e.max_attempts)) [
      | inl lt ↦
          rw (lt, abandon)
            (schedule_retry-IsConsistent r h id e e' at busy refl refl refl same refl r.now
              (ground arith))
      | inr no_more ↦
          rw (no_more, abandon)
            (fail_execution-IsConsistent r h id e e' at busy refl refl refl same refl)
    ]

-- What giving up an attempt leaves of the other executions.
pub executions-abandon :
    (id : ℕ) (e : Execution) (r : Runtime)
    → (x : Execution) × ((abandon id e r).executions ≡ Dict.set id x r.executions)
unfolding abandon schedule_retry fail_execution put_execution put_outbox
executions-abandon id e r = elim (Bool-cases (ltb e.attempt_count e.max_attempts)) [
  | inl lt ↦ (
    record (abandoned r.now e) { state = JobState.retry_wait; available_at = r.now },
    rw (lt, abandon) refl,
  )
  | inr no_more ↦ (
    record (abandoned r.now e) { state = JobState.failed; finished_at = some r.now },
    rw (no_more, abandon) refl,
  )
]

length-leased :
    (c : Config) (n : ℕ) (w : String) (t : ℕ) (e : Execution)
    → length (leased c n w t e).attempts ≡ length e.attempts + 1
unfolding leased
length-leased c n w t e = length-append e.attempts (_ ∷ [])

leased-IsSound :
    (c : Config) (n : ℕ) (w : String) (t id : ℕ) (e : Execution)
    → IsSound id e
    → is_waiting e.state ≡ true
    → IsSound id (leased c n w t e)
unfolding leased is_running
leased-IsSound c n w t id e s wait = ground (arith, length-leased c n w t e)

-- The state of a claimable execution.
waits : (s : JobState) → is_terminal_state s ≡ false → is_running s ≡ false → is_waiting s ≡ true
unfolding is_terminal_state is_running
waits s t n = ground arith

pub grant-IsConsistent :
    (c : Config) (id n : ℕ) (w : String) (e : Execution) (r : Runtime)
    → IsConsistent r
    → Dict.get id r.executions ≡ some e
    → is_waiting e.state ≡ true
    → IsConsistent (put_execution id (leased c n w r.now e) r)
unfolding leased
grant-IsConsistent c id n w e r h at wait =
    put_execution-IsConsistent r h id e (leased c n w r.now e) at
      (leased-IsSound c n w r.now id e (h.sound id e at) wait) (λ m f. ground (arith, h.sound id e))
      (λ x. cc)

claim_execution-IsConsistent :
    (c : Config) (id n : ℕ) (w : String) (e : Execution) (r : Runtime)
    → IsConsistent r
    → Dict.get id r.executions ≡ some e
    → IsConsistent (claim_execution c id n w e r).0
unfolding claim_execution
claim_execution-IsConsistent c id n w e r h at =
    ground
      (arith, waits e.state, grant-IsConsistent c id n w e r h at, abandon-IsConsistent r h id e at)

-- A claim, granted or not, keeps the runtime consistent.
pub claim-IsConsistent :
    (c : Config) (id n : ℕ) (w : String) (r : Runtime)
    → IsConsistent r
    → IsConsistent (claim c id n w r).0
unfolding claim
claim-IsConsistent c id n w r h = elim (Option-cases (Dict.get id r.executions)) [
  | inl e ↦ rw (e, claim) h
  | inr (x, e) ↦ rw (e, claim) (claim_execution-IsConsistent c id n w x r h e)
]

pub abandon_all-IsConsistent :
    (now : ℕ) (l : Dict ℕ Execution) (r : Runtime)
    → IsConsistent r
    → IsDict l
    → Holds l r.executions
    → All (λ entry. is_reapable now entry.1 ≡ true) l
    → IsConsistent (abandon_all l r)
unfolding abandon_all is_reapable
abandon_all-IsConsistent now [] r h d held due = h
abandon_all-IsConsistent now ((id, e) ∷ l) r h d held due =
    let (x, eq) = executions-abandon id e r in
    abandon_all-IsConsistent now l (abandon id e r)
      (abandon-IsConsistent r h id e held.0 (ground arith)) d.1
      (rw eq (Holds-set id x l r.executions d.0 held.1)) due.1

-- The reaper keeps the runtime consistent.
pub reap_expired-IsConsistent :
    (limit : ℕ) (r : Runtime) → IsConsistent r → IsConsistent (reap_expired limit r).0
unfolding reap_expired
reap_expired-IsConsistent limit r h =
    let due = λ (entry : ℕ × Execution). is_reapable r.now entry.1 in
    abandon_all-IsConsistent r.now (take limit (keep due r.executions)) r h
      (IsDict-take limit (keep due r.executions) (IsDict-keep due r.executions h.distinct))
      (Holds-take limit (keep due r.executions) r.executions
        (Holds-keep due r.executions r.executions (Holds-refl r.executions h.distinct)))
      (All-take (λ entry. due entry ≡ true) limit (keep due r.executions)
        (keep-All due r.executions))
