-- ===== src/Jobs/Invariant/Relay.antt =====
-- The relay and the rebuilding of the outbox keep the runtime consistent, and the relay never meets a
-- row without its execution.
use umbral.Prelude.{
  ℕ, ◌+◌, ◌≤◌, ◌<◌, ◌≡◌, refl, Bool, false, true, [], ◌∷◌, some, arith, nat_eq, pair_eq, Result,
  suc, inl, inr, sym, length, Option-cases, Bool-cases, ok, err, All, keep, take, leb, ◌&&◌,
}
use mathlib.Core.Path.{subst}
use umbral.Prelude.Dict
use umbral.Prelude.Dict.{
  Dict, IsDict, Holds, Holds-set, Holds-refl, Holds-keep, Holds-take, IsDict-keep, IsDict-take,
  All-take, keep-All,
}
use umbral.Jobs.State.{Outbox, OutboxState, Execution, Runtime}
use umbral.Jobs.Submit.{put_execution}
use umbral.Jobs.Lease.{is_running}
use umbral.Jobs.Relay.{
  Queue, RelayResult, is_published, is_due, not_published, write_row, announced, relay_row,
  relay_rows, due_rows, relay_due, counted, rebuilt, rebuild_rows, rebuild_outbox,
}
use umbral.Jobs.Invariant.{
  RowIsSound, IsConsistent, put_execution-IsConsistent, write_row-IsConsistent,
}

not_published-RowIsSound :
    (id n now : ℕ) (row : Outbox)
    → RowIsSound id n row
    → row.publish_attempts < 100
    → RowIsSound id n (not_published now row)
unfolding not_published
not_published-RowIsSound id n now row s lt = ground arith

rebuilt-RowIsSound : (id n : ℕ) (row : Outbox) → RowIsSound id n row → RowIsSound id n (rebuilt row)
unfolding rebuilt
rebuilt-RowIsSound id n row s = ground arith

-- A row of a consistent runtime, and its execution.
module _ (r : Runtime) (h : IsConsistent r) (id n : ℕ) (row : Outbox) (e : Execution)
    (at : Dict.get (id, n) r.outbox ≡ some row) (owner : Dict.get id r.executions ≡ some e) where
  published-IsConsistent :
      IsConsistent (write_row (id, n) (record row { state = OutboxState.published }) r)
  published-IsConsistent =
      write_row-IsConsistent r h id n row (record row { state = OutboxState.published }) at
        (ground (arith, h.row_sound id n row))

  announced-IsConsistent : IsConsistent (
      put_execution id
        (announced row e)
        (write_row (id, n) (record row { state = OutboxState.published }) r))
  unfolding announced is_running write_row
  announced-IsConsistent =
      put_execution-IsConsistent
        (write_row (id, n) (record row { state = OutboxState.published }) r) published-IsConsistent
        id e (announced row e) owner
        (ground (arith, h.sound id e, h.row_sound id n row, h.row_fits id n row))
        (λ m f. ground (arith, h.row_sound id n row, h.row_fits id n row))
        (λ w. ground (arith, h.row_sound id n row, h.row_fits id n row))

  pub relay_row-IsConsistent :
      (publish : Queue)
      → row.publish_attempts < 100
      → IsConsistent (relay_row publish (id, n) row e r)
  unfolding relay_row
  relay_row-IsConsistent publish lt =
      elim (Bool-cases (publish e.execution_id row.attempt_number e.correlation_id)) [
        | inl sent ↦
            rw (sent, relay_row)
              (subst
                (λ i. IsConsistent (
                  put_execution i (announced row e)
                    (write_row (id, n) (record row { state = OutboxState.published }) r)))
                (sym (h.row_sound id n row at).own_execution) announced-IsConsistent)
        | inr lost ↦
            rw (lost, relay_row)
              (write_row-IsConsistent r h id n row (not_published r.now row) at
                (not_published-RowIsSound id n r.now row (h.row_sound id n row at) lt))
      ]

-- What a publication leaves of the other rows.
pub outbox-relay_row :
    (publish : Queue) (at : ℕ × ℕ) (row : Outbox) (e : Execution) (r : Runtime)
    → (x : Outbox) × ((relay_row publish at row e r).outbox ≡ Dict.set at x r.outbox)
unfolding relay_row write_row put_execution
outbox-relay_row publish at row e r =
    elim (Bool-cases (publish e.execution_id row.attempt_number e.correlation_id)) [
      | inl sent ↦ (record row { state = OutboxState.published }, rw (sent, relay_row) refl)
      | inr lost ↦ (not_published r.now row, rw (lost, relay_row) refl)
    ]

pub owner-of-row :
    (r : Runtime) (h : IsConsistent r) (id n : ℕ) (row : Outbox)
    → Dict.get (id, n) r.outbox ≡ some row
    → (e : Execution) × (Dict.get id r.executions ≡ some e)
owner-of-row r h id n row at = elim (Option-cases (Dict.get id r.executions)) [
  | inl e ↦ absurd (rw e at (h.row_fits id n row at))
  | inr found ↦ found
]

-- The loop ended, in a consistent runtime, and counted so many rows.
abbrev pub Counts : RelayResult → ℕ → Runtime × Result RelayResult → Type 0
Counts n k (r, err f) = ⊥
Counts n k (r, ok m) = IsConsistent r × (m.published + m.failed ≡ n.published + n.failed + k)

Counts-counted :
    (b : Bool) (n : RelayResult) (k : ℕ) (x : Runtime × Result RelayResult)
    → Counts (counted b n) k x
    → Counts n (suc k) x
unfolding counted
Counts-counted true n k (r, ok m) h = (h.0, omega arith)
Counts-counted false n k (r, ok m) h = (h.0, omega arith)
Counts-counted true n k (r, err f) h = h
Counts-counted false n k (r, err f) h = h

relay_rows-Counts :
    (publish : Queue) (now : ℕ) (l : Dict (ℕ × ℕ) Outbox) (r : Runtime) (n : RelayResult)
    → IsConsistent r
    → IsDict l
    → Holds l r.outbox
    → All (λ entry. is_due now entry.1 ≡ true) l
    → Counts n (length l) (relay_rows publish l r n)
unfolding relay_rows is_due
relay_rows-Counts publish now [] r n h d held due = (h, omega arith)
relay_rows-Counts publish now (((id, k), row) ∷ l) r n h d held due =
    let (e, owner) = owner-of-row r h id k row held.0 in
    let (x, eq) = outbox-relay_row publish (id, k) row e r in
    let b = publish e.execution_id row.attempt_number e.correlation_id in
    let own : Dict.get row.execution_id r.executions ≡ some e =
      rw ((h.row_sound id k row held.0).own_execution) owner in
    rw (own, relay_rows)
      (Counts-counted b n (length l)
        (relay_rows publish l (relay_row publish (id, k) row e r) (counted b n))
        (relay_rows-Counts publish now l (relay_row publish (id, k) row e r) (counted b n)
          (relay_row-IsConsistent r h id k row e held.0 owner publish (ground arith)) d.1
          (rw eq (Holds-set (id, k) x l r.outbox d.0 held.1)) due.1))

pub relay_due-Counts :
    (publish : Queue) (limit : ℕ) (r : Runtime)
    → IsConsistent r
    → 1 ≤ limit
    → limit ≤ 1000
    → Counts
        (record { published = 0; failed = 0 })
        (length (due_rows limit r))
        (relay_due publish limit r)
unfolding relay_due due_rows
relay_due-Counts publish limit r h lo hi =
    let due = λ (entry : (ℕ × ℕ) × Outbox). is_due r.now entry.1 in
    let in_range : (leb 1 limit && leb limit 1000) ≡ true = ground arith in
    rw (in_range, relay_due)
      (relay_rows-Counts publish r.now (take limit (keep due r.outbox)) r
        (record { published = 0; failed = 0 }) h
        (IsDict-take limit (keep due r.outbox) (IsDict-keep due r.outbox h.distinct_rows))
        (Holds-take limit (keep due r.outbox) r.outbox
          (Holds-keep due r.outbox r.outbox (Holds-refl r.outbox h.distinct_rows)))
        (All-take (λ entry. due entry ≡ true) limit (keep due r.outbox) (keep-All due r.outbox)))

Counts-IsConsistent :
    (n : RelayResult) (k : ℕ) (x : Runtime × Result RelayResult) → Counts n k x → IsConsistent x.0
Counts-IsConsistent n k (r, ok m) h = h.0
Counts-IsConsistent n k (r, err f) h = absurd h

pub relay_due-IsConsistent :
    (publish : Queue) (limit : ℕ) (r : Runtime)
    → IsConsistent r
    → IsConsistent (relay_due publish limit r).0
unfolding relay_due
relay_due-IsConsistent publish limit r h = elim (Bool-cases (leb 1 limit && leb limit 1000)) [
  | inl good ↦
      Counts-IsConsistent (record { published = 0; failed = 0 }) (length (due_rows limit r))
        (relay_due publish limit r)
        (relay_due-Counts publish limit r h (ground arith) (ground arith))
  | inr bad ↦ rw (bad, relay_due) h
]

rebuild_rows-IsConsistent :
    (l : Dict (ℕ × ℕ) Outbox) (r : Runtime)
    → IsConsistent r
    → IsDict l
    → Holds l r.outbox
    → IsConsistent (rebuild_rows l r)
unfolding rebuild_rows write_row
rebuild_rows-IsConsistent [] r h d held = h
rebuild_rows-IsConsistent (((id, k), row) ∷ l) r h d held =
    rebuild_rows-IsConsistent l (write_row (id, k) (rebuilt row) r)
      (write_row-IsConsistent r h id k row (rebuilt row) held.0
        (rebuilt-RowIsSound id k row (h.row_sound id k row held.0)))
      d.1 (Holds-set (id, k) (rebuilt row) l r.outbox d.0 held.1)

-- Rebuilding the outbox keeps the runtime consistent.
pub rebuild_outbox-IsConsistent :
    (limit : ℕ) (r : Runtime) → IsConsistent r → IsConsistent (rebuild_outbox limit r).0
unfolding rebuild_outbox
rebuild_outbox-IsConsistent limit r h =
    let sent = λ (entry : (ℕ × ℕ) × Outbox). is_published entry.1.state in
    rebuild_rows-IsConsistent (take limit (keep sent r.outbox)) r h
      (IsDict-take limit (keep sent r.outbox) (IsDict-keep sent r.outbox h.distinct_rows))
      (Holds-take limit (keep sent r.outbox) r.outbox
        (Holds-keep sent r.outbox r.outbox (Holds-refl r.outbox h.distinct_rows)))
