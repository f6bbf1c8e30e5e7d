-- ===== src/Ingestion/Guarantees.antt =====
-- What every call of `process` keeps (src/umbral/application/ingestion/service.py).
use umbral.Prelude.{
  ℕ, ◌+◌, String, Bool, true, false, List, [], ◌∷◌, some, ◌≡◌, refl, ap, ◌∙◌, sym, ◌==◌, nat_eq,
  string_eq, pair_eq, length, any, contains, arith, ◌⊎◌, inl, inr, Bool-cases, Option-cases,
}
use umbral.Prelude.Dict
use umbral.Prelude.Dict.{Dict, get-set}
use umbral.Ingestion.Contracts.{
  ParsedRecord, ParsedError, ParsedBatch, batch_total, ValidationIssue, ValidationResult, valid,
  invalid, RunState, ImportRun, RawListingSnapshot, IngestionFault, transient_error,
  permanent_error, other_error, Returned, done, broken, ImportStore, is_snapshot_of,
  snapshot_exists, insert_snapshot, insert_quarantine, save_run,
}
use umbral.Ingestion.Capture.{
  Reader, Progress, external_id, new_snapshot, capture_record, capture_records, parse_failure,
  capture_errors, nothing_captured, capture_batch,
}
use umbral.Ingestion.Process.{
  Service, by_execution, is_final, parsed_batch, finished, capture, fail_run, failure_code_of,
  failure_detail, failed, settled, running, process,
}

unfoldable pub is_succeeded : RunState → Bool
is_succeeded RunState.succeeded = true
is_succeeded _ = false

-- A run that has succeeded accounts for every record of its batch.
abbrev pub IsAccounted : ImportRun → Type 0
IsAccounted run =
    is_succeeded run.state ≡ true
    → run.accepted + run.quarantined + run.duplicates ≡ run.total_records

-- The records that the counts of a batch account for.
abbrev records_counted : {Payload : Type 0} → Progress Payload → ℕ
records_counted p = p.accepted + p.quarantined + p.duplicates

Returned-cases {ℓ} :
    {A : Type ℓ} (o : Returned A)
    → ((a : A) × (o ≡ done a)) ⊎ ((f : IngestionFault) × (o ≡ broken f))
Returned-cases (done a) = inl (a, refl)
Returned-cases (broken f) = inr (f, refl)

validation-cases :
    (v : ValidationResult)
    → ((m : ℕ) × (v ≡ valid m))
      ⊎ ((i : ValidationIssue) × (l : List ValidationIssue) × (v ≡ invalid i l))
validation-cases (valid m) = inl (m, refl)
validation-cases (invalid i l) = inr (i, l, refl)

module _ {Payload : Type 0} where
  -- No two snapshots are of the same content of the same listing of a source.
  abbrev pub IsUnique : List (RawListingSnapshot Payload) → Type 0
  IsUnique [] = Unit
  IsUnique (s ∷ rest) =
      (any (is_snapshot_of s.source.source_id s.external_id s.content_sha256) rest ≡ false)
      × IsUnique rest

  pub record IsConserved (s : ImportStore Payload) : Type 0 where
    pub unique : IsUnique s.snapshots
    pub accounted : (i : ℕ) (run : ImportRun) → Dict.get i s.runs ≡ some run → IsAccounted run

  save_run-IsConserved :
      (run : ImportRun) (s : ImportStore Payload)
      → IsConserved s
      → IsAccounted run
      → IsConserved (save_run run s)
  unfolding save_run
  save_run-IsConserved run s h a = record {
    unique = h.unique;
    accounted = λ i r at. elim (Bool-cases (run.run_id == i)) [
      | inr e ↦ h.accounted i r (rw (get-set run.run_id i run s.runs, e) at at)
      | inl e ↦
          let same : run ≡ r = ground (arith, rw (get-set run.run_id i run s.runs, e) at at) in
          rw⁻¹ same a
    ];
  }

  module _ (r : Reader Payload) (fresh : ℕ → ℕ) (run : ImportRun) (captured_at : ℕ) where
    -- A turn of a loop counts its record, keeps the runs, and captures no content twice.
    abbrev IsCounting : ℕ → Progress Payload → Progress Payload → Type 0
    IsCounting n p q =
        (records_counted q ≡ records_counted p + n)
        × ((q.store.runs ≡ p.store.runs)
            × (IsUnique p.store.snapshots → IsUnique q.store.snapshots))

    capture_record-IsCounting :
        (index : ℕ) (i : ParsedRecord Payload) (p : Progress Payload)
        → IsCounting 1 p (capture_record r fresh run captured_at index i p)
    unfolding capture_record insert_snapshot insert_quarantine
    capture_record-IsCounting index i p =
        let id = external_id r fresh run captured_at i.payload index in
        let hash = r.canonical_hash i.payload in
        elim (Bool-cases (contains (id, hash) p.seen)) [
          | inl e ↦ rw (e, capture_record) (ground arith, (refl, λ u. u))
          | inr e ↦ elim (Bool-cases (snapshot_exists run.source.source_id id hash p.store)) [
            | inl k ↦ rw (e, k, capture_record) (ground arith, (refl, λ u. u))
            | inr k ↦ elim (validation-cases (r.validate_record i.payload)) [
              | inl (m, v) ↦
                  rw (e, k, v, capture_record)
                    (ground arith, (refl, λ u. (unfold new_snapshot snapshot_exists in k, u)))
              | inr (issue, l, v) ↦ rw (e, k, v, capture_record) (ground arith, (refl, λ u. u))
            ]
          ]
        ]

    capture_records-IsCounting :
        (index : ℕ) (l : List (ParsedRecord Payload)) (p : Progress Payload)
        → IsCounting (length l) p (capture_records r fresh run captured_at index l p)
    unfolding capture_records
    capture_records-IsCounting index [] p = (ground arith, (refl, λ u. u))
    capture_records-IsCounting index (i ∷ l) p =
        let q = capture_record r fresh run captured_at index i p in
        let (n, (same, keep_unique)) = capture_record-IsCounting index i p in
        let (m, (still, unique)) = capture_records-IsCounting (index + 1) l q in
        (ground (arith, n, m), (still ∙ same, λ u. unique (keep_unique u)))

    capture_errors-IsCounting :
        (index : ℕ) (l : List ParsedError) (p : Progress Payload)
        → IsCounting (length l) p (capture_errors r fresh run captured_at index l p)
    unfolding capture_errors insert_quarantine
    capture_errors-IsCounting index [] p = (ground arith, (refl, λ u. u))
    capture_errors-IsCounting index (e ∷ l) p =
        let q : Progress Payload = record p {
          quarantined = p.quarantined + 1;
          store = insert_quarantine (parse_failure r fresh run captured_at index e) p.store;
        } in
        let (m, (still, unique)) = capture_errors-IsCounting (index + 1) l q in
        (ground (arith, m), (still, unique))

    capture_batch-IsCounting :
        (b : ParsedBatch Payload) (s : ImportStore Payload)
        → IsCounting
            (batch_total b)
            (nothing_captured r fresh run captured_at s)
            (capture_batch r fresh run captured_at b s)
    unfolding capture_batch batch_total
    capture_batch-IsCounting b s =
        let p = nothing_captured r fresh run captured_at s in
        let (n, (same, keep_unique)) = capture_records-IsCounting 0 b.records p in
        let q = capture_records r fresh run captured_at 0 b.records p in
        let (m, (still, unique)) = capture_errors-IsCounting (length b.records) b.parse_errors q in
        (ground (arith, n, m), (still ∙ same, λ u. unique (keep_unique u)))

  module _ {P : Type 0} (x : Service Payload P) where
    capture-IsConserved :
        (run : ImportRun) (s : ImportStore Payload)
        → IsConserved s
        → IsConserved (capture x run s).0
    unfolding capture
    capture-IsConserved run s h = elim (Returned-cases (parsed_batch x run)) [
      | inr (f, e) ↦ rw (e, capture) h
      | inl (b, e) ↦
          let p = capture_batch x.reader x.fresh run x.captured_at b s in
          let (n, (same, unique)) =
            capture_batch-IsCounting x.reader x.fresh run x.captured_at b s in
          let ended = finished x (batch_total b) p run in
          let kept : IsConserved p.store = record {
            unique = unique h.unique;
            accounted = λ i r at. h.accounted i r (ap (λ d. Dict.get i d) (sym same) ∙ at);
          } in
          let left : (capture x run s).0 ≡ save_run ended p.store = rw (e, capture) refl in
          rw (left)
            (save_run-IsConserved ended p.store kept (λ on. unfold finished in ground (arith, n)))
    ]

    failed-IsConserved :
        (code detail : String) (run : ImportRun) (s : ImportStore Payload)
        → IsConserved s
        → IsConserved (failed x code detail run s).0
    unfolding failed
    failed-IsConserved code detail run s h =
        save_run-IsConserved (fail_run x code detail run) s h
          (unfold fail_run is_succeeded in λ on. absurd (ground (arith, on)))

    settled-IsConserved :
        (run : ImportRun) (s : ImportStore Payload) (o : Returned ImportRun)
        → IsConserved s
        → IsConserved (settled x run (s, o)).0
    unfolding settled
    settled-IsConserved run s (done ended) h = h
    settled-IsConserved run s (broken (transient_error code detail)) h = h
    settled-IsConserved run s (broken (permanent_error code detail)) h =
        failed-IsConserved code (failure_detail x detail) run s h
    settled-IsConserved run s (broken (other_error code detail)) h =
        failed-IsConserved (failure_code_of x code) (failure_detail x detail) run s h

    -- Every call of `process`, whether it captures, fails or has to be retried, keeps the tables sound:
    -- a run that has succeeded accounts for each record of its batch as accepted, quarantined or
    -- duplicate, and no content of a listing of a source is captured twice.
    pub process-IsConserved :
        (execution_id : ℕ) (s : ImportStore Payload)
        → IsConserved s
        → IsConserved (process x execution_id s).0
    unfolding process
    process-IsConserved execution_id s h = elim (Option-cases (by_execution execution_id s.runs)) [
      | inl e ↦ rw (e, process) h
      | inr (run, e) ↦ elim (Bool-cases (is_final run.state)) [
        | inl k ↦ rw (e, k, process) h
        | inr k ↦
            let began = running x run in
            let started = save_run began s in
            let sound : IsConserved started =
              save_run-IsConserved began s h
                (unfold running is_succeeded in λ on. absurd (ground (arith, on))) in
            let captured = capture x began started in
            let left : process x execution_id s ≡ settled x began captured =
              rw (e, k, process) refl in
            rw (left) (
              settled-IsConserved began captured.0 captured.1
                (capture-IsConserved began started sound))
      ]
    ]
