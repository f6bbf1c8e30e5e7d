-- ===== src/Jobs/Relay.antt =====
-- The outbox: `relay_due`, `pending_outbox_count`, `rebuild_outbox` and `reclaim_expired_outbox` of
-- `InMemoryJobRuntime` (src/umbral/application/jobs/service.py), and the relay and the reaper that
-- call them (src/umbral/application/jobs/relay.py). The queue is an argument: whether `publish`
-- returns for an execution, an attempt number and a correlation id.
use umbral.Prelude.{
  ℕ, ◌+◌, ◌-◌, ◌*◌, ◌^◌, min, Bool, true, false, ◌&&◌, not, List, [], ◌∷◌, none, some, Result, ok,
  err, value_error, key_error, ltb, leb, ◌==◌, nat_eq, pair_eq, keep, length, take, if◌then◌else◌,
}
use umbral.Prelude.Dict
use umbral.Jobs.Contracts.{JobState}
use umbral.Jobs.Failures.{second}
use umbral.Jobs.State.{Outbox, OutboxState, Execution, Runtime}
use umbral.Jobs.Submit.{put_execution}
use umbral.Jobs.Lease.{reap_expired}

abbrev pub Queue : Type 0
Queue = ℕ → ℕ → ℕ → Bool

pub record RelayResult : Type 0 where
  pub published : ℕ
  pub failed : ℕ

unfoldable pub is_pending : OutboxState → Bool
is_pending OutboxState.pending = true
is_pending _ = false

unfoldable pub is_published : OutboxState → Bool
is_published OutboxState.published = true
is_published _ = false

-- The test of `relay_due` on a row.
unfoldable pub is_due : ℕ → Outbox → Bool
unfolding is_pending
is_due now row = is_pending row.state && leb row.available_at now && ltb row.publish_attempts 100

-- The row after a publication that failed.
unfoldable pub not_published : ℕ → Outbox → Outbox
not_published now row =
    let attempts = row.publish_attempts + 1 in
    let tried = record row {
      publish_attempts = attempts;
      error_code = some "queue.publish_failed";
    } in
    if leb 100 attempts
    then record tried { state = OutboxState.failed }
    else record tried { available_at = now + min 300 (2 ^ (attempts - 1)) * second }

unfoldable pub write_row : ℕ × ℕ → Outbox → Runtime → Runtime
write_row at row r = record r { outbox = Dict.set at row r.outbox }

-- The execution after a publication.
unfoldable pub announced : Outbox → Execution → Execution
announced row e = record e {
  state = if row.attempt_number == e.attempt_count + 1 then JobState.queued else e.state;
}

unfoldable pub relay_row : Queue → ℕ × ℕ → Outbox → Execution → Runtime → Runtime
unfolding not_published write_row announced put_execution
relay_row publish at row e r =
    if publish e.execution_id row.attempt_number e.correlation_id
    then put_execution row.execution_id (announced row e)
        (write_row at (record row { state = OutboxState.published }) r)
    else write_row at (not_published r.now row) r

-- The counters of the loop.
unfoldable pub counted : Bool → RelayResult → RelayResult
counted true n = record n { published = n.published + 1 }
counted false n = record n { failed = n.failed + 1 }

unfoldable pub relay_rows :
    Queue → List ((ℕ × ℕ) × Outbox) → Runtime → RelayResult → Runtime × Result RelayResult
unfolding relay_row counted
relay_rows publish [] r n = (r, ok n)
relay_rows publish ((at, row) ∷ rest) r n = elim (Dict.get row.execution_id r.executions) [
  | none ↦ (r, err key_error)
  | some e ↦
      relay_rows publish rest (relay_row publish at row e r)
        (counted (publish e.execution_id row.attempt_number e.correlation_id) n)
]

unfoldable pub due_rows : ℕ → Runtime → List ((ℕ × ℕ) × Outbox)
unfolding keep is_due
due_rows limit r = take limit (keep (λ entry. is_due r.now entry.1) r.outbox)

unfoldable pub relay_due : Queue → ℕ → Runtime → Runtime × Result RelayResult
unfolding due_rows relay_rows
relay_due publish limit r =
    if not (leb 1 limit && leb limit 1000)
    then (r, err value_error)
    else relay_rows publish (due_rows limit r) r (record { published = 0; failed = 0 })

unfoldable pub pending_outbox_count : Runtime → ℕ
unfolding keep is_pending
pending_outbox_count r = length (keep (λ entry. is_pending entry.1.state) r.outbox)

-- What `rebuild_outbox` makes of a published row.
unfoldable pub rebuilt : Outbox → Outbox
rebuilt row =
    if leb 100 row.publish_attempts
    then record row { state = OutboxState.failed; error_code = some "queue.publish_exhausted" }
    else record row { state = OutboxState.pending; error_code = none }

unfoldable pub rebuild_rows : List ((ℕ × ℕ) × Outbox) → Runtime → Runtime
unfolding rebuilt write_row
rebuild_rows [] r = r
rebuild_rows ((at, row) ∷ rest) r = rebuild_rows rest (write_row at (rebuilt row) r)

unfoldable pub rebuild_outbox : ℕ → Runtime → Runtime × ℕ
unfolding rebuild_rows keep is_published
rebuild_outbox limit r =
    let eligible = take limit (keep (λ entry. is_published entry.1.state) r.outbox) in
    (rebuild_rows eligible r, length eligible)

unfoldable pub reclaim_expired_outbox : ℕ → Runtime → Result ℕ
reclaim_expired_outbox limit r =
    if not (leb 1 limit && leb limit 1000) then err value_error else ok 0

-- `JobOutboxRelay.rebuild_after_transport_loss`
unfoldable pub rebuild_after_transport_loss : Queue → ℕ → Runtime → Runtime × Result RelayResult
unfolding rebuild_outbox relay_due
rebuild_after_transport_loss publish limit r = relay_due publish limit (rebuild_outbox limit r).0

-- `JobLeaseReaper.reap`
unfoldable pub reap : Runtime → Runtime × ℕ
unfolding reap_expired
reap r = reap_expired 100 r
