-- ===== src/Jobs/Invariant.antt =====
-- What holds of the runtime between two calls of the port `JobRuntime`
-- (src/umbral/application/jobs/ports.py): its statement, and the two ways in which a call writes.
pub mod Submit
pub mod Lease
pub mod Outcome
pub mod Relay
use umbral.Prelude.{
  ℕ, ◌+◌, ◌≤◌, ◌<◌, ◌≡◌, Bool, true, false, Option, none, some, arith, length, nat_eq, pair_eq,
}
use umbral.Prelude.Dict
use umbral.Prelude.Dict.{IsDict, IsDict-set, get-set}
use umbral.Jobs.Contracts.{JobState}
use umbral.Jobs.State.{Outbox, OutboxState, Execution, Runtime}
use umbral.Jobs.Submit.{put_execution, put_outbox}
use umbral.Jobs.Lease.{is_running}
use umbral.Jobs.Relay.{write_row}

-- A state from which the next attempt may be claimed.
abbrev pub is_waiting : JobState → Bool
is_waiting JobState.pending = true
is_waiting JobState.queued = true
is_waiting JobState.retry_wait = true
is_waiting _ = false

-- An execution by itself.
pub record IsSound (id : ℕ) (e : Execution) : Type 0 where
  pub own_id : e.execution_id ≡ id
  pub count_le_max : e.attempt_count ≤ e.max_attempts
  pub room : is_waiting e.state ≡ true → e.attempt_count < e.max_attempts
  pub one_attempt_each : length e.attempts ≡ e.attempt_count
  pub lease_only_running : is_running e.state ≡ false → e.lease_until ≡ none

-- The attempt of a row is one that its execution has made, or the next of one that waits.
abbrev pub Fits : ℕ → Option Execution → Type 0
Fits n none = ⊥
Fits n (some e) =
    (n ≤ e.attempt_count + 1)
    × (n ≤ e.max_attempts)
    × (n ≡ e.attempt_count + 1 → is_waiting e.state ≡ true)

pub record RowIsSound (id n : ℕ) (row : Outbox) : Type 0 where
  pub own_execution : row.execution_id ≡ id
  pub own_number : row.attempt_number ≡ n
  pub tries : row.publish_attempts ≤ 100
  pub tries_left : row.state ≡ OutboxState.pending → row.publish_attempts < 100

abbrev pub HasRow : Option Outbox → Type 0
HasRow none = ⊥
HasRow (some row) = Unit

pub record IsConsistent (r : Runtime) : Type 0 where
  pub distinct : IsDict r.executions
  pub distinct_rows : IsDict r.outbox
  pub sound : (id : ℕ) (e : Execution) → Dict.get id r.executions ≡ some e → IsSound id e
  pub row_sound :
      (id n : ℕ) (row : Outbox) → Dict.get (id, n) r.outbox ≡ some row → RowIsSound id n row
  pub row_fits :
      (id n : ℕ) (row : Outbox)
      → Dict.get (id, n) r.outbox ≡ some row
      → Fits n (Dict.get id r.executions)
  pub next_row :
      (id : ℕ) (e : Execution)
      → Dict.get id r.executions ≡ some e
      → is_waiting e.state ≡ true
      → HasRow (Dict.get (id, e.attempt_count + 1) r.outbox)

-- A write to an execution that leaves its rows as they are.
module _ (r : Runtime) (h : IsConsistent r) (id : ℕ) (e e' : Execution) where
  pub put_execution-IsConsistent :
      Dict.get id r.executions ≡ some e
      → IsSound id e'
      → ((n : ℕ) → Fits n (some e) → Fits n (some e'))
      → (is_waiting e'.state ≡ true
          → (e'.attempt_count ≡ e.attempt_count) × (is_waiting e.state ≡ true))
      → IsConsistent (put_execution id e' r)
  unfolding put_execution
  put_execution-IsConsistent at s fits wait = record {
    distinct = IsDict-set id e' r.executions h.distinct;
    distinct_rows = h.distinct_rows;
    sound = λ i x p. ground (arith, get-set id i e' r.executions, h.sound i x);
    row_sound = h.row_sound;
    row_fits =
        λ i n row p. ground (arith, get-set id i e' r.executions, h.row_fits i n row, fits n);
    next_row =
        λ i x p w. ground (arith, get-set id i e' r.executions, h.next_row i x, h.next_row id e);
  }

-- A new row together with a write to its execution.
module _ (r : Runtime) (h : IsConsistent r) (id k : ℕ) (e' : Execution) (row : Outbox) where
  pub put_both-IsConsistent :
      IsSound id e'
      → RowIsSound id k row
      → Fits k (some e')
      → ((n : ℕ) → Fits n (Dict.get id r.executions) → Fits n (some e'))
      → k ≡ e'.attempt_count + 1
      → IsConsistent (put_outbox id k row (put_execution id e' r))
  unfolding put_execution put_outbox
  put_both-IsConsistent s rs f fits eq = record {
    distinct = IsDict-set id e' r.executions h.distinct;
    distinct_rows = IsDict-set (id, k) row r.outbox h.distinct_rows;
    sound = λ i x p. ground (arith, get-set id i e' r.executions, h.sound i x);
    row_sound = λ i n w p. ground (arith, get-set (id, k) (i, n) row r.outbox, h.row_sound i n w);
    row_fits = λ i n w p. ground (
      arith,
      get-set id i e' r.executions,
      get-set (id, k) (i, n) row r.outbox,
      h.row_fits i n w,
      fits n,
    );
    next_row = λ i x p w. ground (
      arith,
      get-set id i e' r.executions,
      get-set (id, k) (i, x.attempt_count + 1) row r.outbox,
      h.next_row i x,
    );
  }

-- A write to a row that is there.
module _ (r : Runtime) (h : IsConsistent r) (id n : ℕ) (row row' : Outbox) where
  pub write_row-IsConsistent :
      Dict.get (id, n) r.outbox ≡ some row
      → RowIsSound id n row'
      → IsConsistent (write_row (id, n) row' r)
  unfolding write_row
  write_row-IsConsistent at s = record {
    distinct = h.distinct;
    distinct_rows = IsDict-set (id, n) row' r.outbox h.distinct_rows;
    sound = h.sound;
    row_sound = λ i m w p. ground (arith, get-set (id, n) (i, m) row' r.outbox, h.row_sound i m w);
    row_fits = λ i m w p.
        ground (arith, get-set (id, n) (i, m) row' r.outbox, h.row_fits i m w, h.row_fits id n row);
    next_row = λ i x p w.
        ground (arith, get-set (id, n) (i, x.attempt_count + 1) row' r.outbox, h.next_row i x);
  }

-- A call that leaves the executions and the rows alone.
pub same-IsConsistent :
    (r r' : Runtime)
    → r'.executions ≡ r.executions
    → r'.outbox ≡ r.outbox
    → IsConsistent r
    → IsConsistent r'
same-IsConsistent r r' e o h = record {
  distinct = rw e h.distinct;
  distinct_rows = rw o h.distinct_rows;
  sound = λ i x p. ground (arith, h.sound i x);
  row_sound = λ i n w p. ground (arith, h.row_sound i n w);
  row_fits = λ i n w p. ground (arith, h.row_fits i n w);
  next_row = λ i x p w. ground (arith, h.next_row i x);
}
