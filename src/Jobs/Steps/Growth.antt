-- ===== src/Jobs/Steps/Growth.antt =====
-- No call of the port forgets an execution, or rewrites the index of identities.
use umbral.Prelude.{
  ℕ, ◌≡◌, ◌∙◌, refl, String, ◌&&◌, List, [], ◌∷◌, Option, none, some, arith, nat_eq, pair_eq,
  string_eq, inl, inr, Option-cases, Result-cases, Bool-cases, leb,
}
use umbral.Prelude.Dict
use umbral.Prelude.Dict.{Dict, get-set}
use umbral.Jobs.Contracts.{JobKey}
use umbral.Jobs.State.{Outbox, Execution, JobClaim, Config, Runtime}
use umbral.Jobs.Submit.{put_execution, put_outbox}
use umbral.Jobs.Lease.{
  leased, schedule_retry, fail_execution, abandon, claim_execution, claim, abandon_all,
}
use umbral.Jobs.Outcome.{
  Outcome, returned, raised, json_object, is_stale, released, settle_failure, settle,
  record_outcome,
}
use umbral.Jobs.Relay.{
  Queue, RelayResult, announced, write_row, relay_row, relay_rows, relay_due, counted, due_rows,
  rebuilt, rebuild_rows,
}
use umbral.Jobs.Invariant.Lease.{executions-abandon}
use umbral.Jobs.Steps.Frame.{executions-settle}

abbrev pub Present : Option Execution → Type 0
Present none = ⊥
Present (some e) = Unit

-- The second runtime has the index of the first and at least its executions.
pub record Grows (r s : Runtime) : Type 0 where
  pub index : s.identity_index ≡ r.identity_index
  pub kept : (id : ℕ) → Present (Dict.get id r.executions) → Present (Dict.get id s.executions)

pub Grows-refl : (r : Runtime) → Grows r r
Grows-refl r = record { index = refl; kept = λ id p. p }

pub Grows-trans : {r s t : Runtime} → Grows r s → Grows s t → Grows r t
Grows-trans g h = record { index = h.index ∙ g.index; kept = λ id p. h.kept id (g.kept id p) }

pub Grows-same :
    (r s : Runtime) → s.identity_index ≡ r.identity_index → s.executions ≡ r.executions → Grows r s
Grows-same r s i e = record { index = i; kept = λ id p. rw e p }

-- A write to an execution, with the index untouched.
pub Grows-set :
    (id : ℕ) (x : Execution) (r s : Runtime)
    → s.identity_index ≡ r.identity_index
    → s.executions ≡ Dict.set id x r.executions
    → Grows r s
Grows-set id x r s i e = record {
  index = i;
  kept = λ j p. rw e (ground (arith, get-set id j x r.executions));
}

index-abandon :
    (id : ℕ) (e : Execution) (r : Runtime) → (abandon id e r).identity_index ≡ r.identity_index
unfolding abandon schedule_retry fail_execution put_execution put_outbox
index-abandon id e r = ground arith

abandon-Grows : (id : ℕ) (e : Execution) (r : Runtime) → Grows r (abandon id e r)
abandon-Grows id e r =
    let (x, eq) = executions-abandon id e r in
    Grows-set id x r (abandon id e r) (index-abandon id e r) eq

claim_execution-Grows :
    (c : Config) (id n : ℕ) (w : String) (e : Execution) (r : Runtime)
    → Grows r (claim_execution c id n w e r).0
unfolding claim_execution put_execution
claim_execution-Grows c id n w e r = ground (
  arith,
  Grows-refl r,
  abandon-Grows id e r,
  Grows-set id (leased c n w r.now e) r (put_execution id (leased c n w r.now e) r) refl refl,
)

pub claim-Grows : (c : Config) (id n : ℕ) (w : String) (r : Runtime) → Grows r (claim c id n w r).0
unfolding claim
claim-Grows c id n w r = elim (Option-cases (Dict.get id r.executions)) [
  | inl eq ↦ rw (eq, claim) (Grows-refl r)
  | inr (e, eq) ↦ rw (eq, claim) (claim_execution-Grows c id n w e r)
]

index-settle :
    (c : Config) (id : ℕ) (o : Outcome) (e : Execution) (r : Runtime)
    → (settle c id o e r).0.identity_index ≡ r.identity_index
unfolding settle settle_failure schedule_retry fail_execution put_execution put_outbox
index-settle c id (raised failure) e r = ground arith
index-settle c id (returned v) e r = elim (Result-cases (json_object c v)) [
  | inl (m, eq) ↦ rw (eq, settle) refl
  | inr (f, eq) ↦ rw (eq, settle) refl
]

pub record_outcome-Grows :
    (c : Config) (k : JobClaim) (o : Outcome) (r : Runtime) → Grows r (record_outcome c k o r).0
unfolding record_outcome
record_outcome-Grows c k o r = elim (Option-cases (Dict.get k.execution_id r.executions)) [
  | inl eq ↦ rw (eq, record_outcome) (Grows-refl r)
  | inr (e, eq) ↦
      rw (eq, record_outcome)
        (elim (Bool-cases (is_stale k r.now e)) [
          | inl late ↦ rw late (Grows-refl r)
          | inr held ↦
              let (x, set) = executions-settle c k.execution_id o (released r.now e) r in
              rw held (
                Grows-set k.execution_id x r (settle c k.execution_id o (released r.now e) r).0
                  (index-settle c k.execution_id o (released r.now e) r) set)
        ])
]

pub abandon_all-Grows : (l : List (ℕ × Execution)) (r : Runtime) → Grows r (abandon_all l r)
unfolding abandon_all
abandon_all-Grows [] r = Grows-refl r
abandon_all-Grows ((id, e) ∷ l) r =
    Grows-trans (abandon-Grows id e r) (abandon_all-Grows l (abandon id e r))

relay_row-Grows :
    (publish : Queue) (at : ℕ × ℕ) (row : Outbox) (e : Execution) (r : Runtime)
    → Grows r (relay_row publish at row e r)
unfolding relay_row write_row put_execution
relay_row-Grows publish at row e r = ground (
  arith,
  Grows-set row.execution_id (announced row e) r (relay_row publish at row e r),
  Grows-same r (relay_row publish at row e r),
)

relay_rows-Grows :
    (publish : Queue) (l : List ((ℕ × ℕ) × Outbox)) (r : Runtime) (m : RelayResult)
    → Grows r (relay_rows publish l r m).0
unfolding relay_rows
relay_rows-Grows publish [] r m = Grows-refl r
relay_rows-Grows publish ((at, row) ∷ l) r m =
    elim (Option-cases (Dict.get row.execution_id r.executions)) [
      | inl eq ↦ rw (eq, relay_rows) (Grows-refl r)
      | inr (e, eq) ↦
          rw (eq, relay_rows)
            (Grows-trans (relay_row-Grows publish at row e r) (
              relay_rows-Grows publish l (relay_row publish at row e r)
                (counted (publish e.execution_id row.attempt_number e.correlation_id) m)))
    ]

pub relay_due-Grows :
    (publish : Queue) (limit : ℕ) (r : Runtime) → Grows r (relay_due publish limit r).0
unfolding relay_due
relay_due-Grows publish limit r = elim (Bool-cases (leb 1 limit && leb limit 1000)) [
  | inl good ↦
      rw (good, relay_due)
        (relay_rows-Grows publish (due_rows limit r) r (record { published = 0; failed = 0 }))
  | inr bad ↦ rw (bad, relay_due) (Grows-refl r)
]

pub rebuild_rows-Grows : (l : List ((ℕ × ℕ) × Outbox)) (r : Runtime) → Grows r (rebuild_rows l r)
unfolding rebuild_rows write_row
rebuild_rows-Grows [] r = Grows-refl r
rebuild_rows-Grows ((at, row) ∷ l) r =
    Grows-trans (Grows-same r (write_row at (rebuilt row) r) refl refl)
      (rebuild_rows-Grows l (write_row at (rebuilt row) r))

-- The index entry of a key that is there stays, and so does its execution.
pub record Keeps (r s : Runtime) : Type 0 where
  pub entry :
      (k : JobKey) (id : ℕ)
      → Dict.get k r.identity_index ≡ some id
      → Dict.get k s.identity_index ≡ some id
  pub kept : (id : ℕ) → Present (Dict.get id r.executions) → Present (Dict.get id s.executions)

pub Grows-Keeps : {r s : Runtime} → Grows r s → Keeps r s
Grows-Keeps g = record { entry = λ k id p. rw (g.index) p; kept = g.kept }
