-- ===== src/Ingestion/Process.antt =====
-- `ImportRunService.process` (src/umbral/application/ingestion/service.py). The adapter of the objects is the
-- one of the object versions; the reader of batches, the text of an exception and the readings of the
-- clock are arguments. The snapshot of a run is the run.
use Prim.Native.String.{◌++◌ as text_append}
use umbral.Prelude.{
  ℕ, String, Bool, true, false, ◌&&◌, ◌||◌, not, List, [], ◌∷◌, Option, none, some, ◌==◌, nat_eq,
  string_eq, ltb, all, if◌then◌else◌,
}
use umbral.Prelude.Dict.{Dict}
use umbral.Text.{codes}
use umbral.Objects.Contracts.{
  ObjectFault, version_conflict, integrity_error, not_found, invalid_state, value_error, replied,
  raised, ObjectInfo, ObjectStore, other_error as other_object_error,
}
use umbral.Objects.Repository.{replace_space, is_code_char}
use umbral.Ingestion.Contracts.{
  ParsedBatch, batch_total, RunState, ImportRun, IngestionFault, transient_error, permanent_error,
  other_error, Returned, done, broken, ImportStore, save_run,
}
use umbral.Ingestion.Capture.{Reader, Progress, clipped, bounded, capture_batch}

-- What the service is made of, and the readings of its clock in one call.
pub record Service (Payload P : Type 0) : Type 0 where
  pub reader : Reader Payload
  pub objects : ObjectStore P
  pub provider : P
  pub read_batch : List ℕ → String → String → Returned (ParsedBatch Payload)
  pub max_records : ℕ
  pub describe : ObjectFault → String
  pub fresh : ℕ → ℕ
  pub started_at : ℕ
  pub captured_at : ℕ
  pub failed_at : ℕ

-- The `code` of an exception of the objects.
unfoldable pub code_of : ObjectFault → Option String
code_of version_conflict = some "object.version_conflict"
code_of integrity_error = some "object.integrity_error"
code_of not_found = some "object.not_found"
code_of invalid_state = some "object.invalid_state"
code_of value_error = none
code_of (other_object_error code) = code

unfoldable pub by_execution : ℕ → Dict ℕ ImportRun → Option ImportRun
by_execution execution_id [] = none
by_execution execution_id ((i, run) ∷ rest) = elim run.job_execution_id [
  | none ↦ by_execution execution_id rest
  | some e ↦ if e == execution_id then some run else by_execution execution_id rest
]

unfoldable pub is_final : RunState → Bool
is_final RunState.succeeded = true
is_final RunState.failed = true
is_final _ = false

module _ {Payload P : Type 0} (x : Service Payload P) where
  unfoldable pub is_whole : ImportRun → ObjectInfo → Bool
  is_whole run info = info.sha256 == run.file_sha256 && info.size_bytes == run.file_size_bytes

  -- The `except` clauses around the raw batch.
  unfoldable pub unavailable : ObjectFault → IngestionFault
  unfolding code_of
  unavailable not_found =
      transient_error "ingestion.raw_unavailable" "raw batch object is not available yet"
  unavailable invalid_state =
      transient_error "ingestion.raw_unavailable" "raw batch object is not available yet"
  unavailable integrity_error =
      permanent_error "object.integrity_error" "raw batch object integrity is broken"
  unavailable f = other_error (code_of f) (x.describe f)

  -- The raw batch.
  unfoldable pub raw_batch : ImportRun → Returned (List ℕ)
  unfolding code_of is_whole unavailable
  raw_batch run = elim (x.objects.ref_for_key run.raw_storage_key) [
    | raised f ↦ broken (other_error (code_of f) (x.describe f))
    | replied ref ↦ elim (x.objects.stat ref x.provider) [
      | raised f ↦ broken (unavailable f)
      | replied info ↦
          if not (is_whole run info)
          then broken
              (permanent_error "object.integrity_error" "raw batch object integrity does not match")
          else elim (x.objects.open_body ref x.provider) [
            | raised f ↦ broken (unavailable f)
            | replied raw ↦ done raw
          ]
    ]
  ]

  -- The batch that is captured, if it has at most the records of the contract.
  unfoldable pub parsed_batch : ImportRun → Returned (ParsedBatch Payload)
  unfolding raw_batch batch_total
  parsed_batch run = elim (raw_batch run) [
    | broken f ↦ broken f
    | done raw ↦ elim (x.read_batch raw run.file_format run.file_name) [
      | broken f ↦ broken f
      | done parsed ↦
          if ltb x.max_records (batch_total parsed)
          then broken (
              permanent_error "file.records_exceeded" (
                text_append "batch exceeds "
                  (text_append (x.reader.show x.max_records) " records")))
          else done parsed
    ]
  ]

  unfoldable pub finished : ℕ → Progress Payload → ImportRun → ImportRun
  finished total p run = record run {
    total_records = total;
    accepted = p.accepted;
    quarantined = p.quarantined;
    duplicates = p.duplicates;
    missing_fields = p.missing_total;
    state = RunState.succeeded;
    finished_at = some x.captured_at;
    updated_at = x.captured_at;
    error_code = none;
    error_detail = none;
  }

  -- `_capture`
  unfoldable pub capture :
      ImportRun → ImportStore Payload → ImportStore Payload × Returned ImportRun
  unfolding parsed_batch capture_batch batch_total finished save_run
  capture run s = elim (parsed_batch run) [
    | broken f ↦ (s, broken f)
    | done parsed ↦
        let p = capture_batch x.reader x.fresh run x.captured_at parsed s in
        let ended = finished (batch_total parsed) p run in (save_run ended p.store, done ended)
  ]

  -- `_normalized_code`
  unfoldable pub normalized_code : String → String
  normalized_code value =
      let t = x.reader.py_text in
      let candidate = replace_space (t.lower (t.strip value)) in
      if candidate == "" || not (all is_code_char (codes candidate))
      then "ingestion.processing_failed"
      else clipped 100 candidate

  -- `_fail`
  unfoldable pub fail_run : String → String → ImportRun → ImportRun
  unfolding bounded normalized_code
  fail_run code detail run = record run {
    state = RunState.failed;
    finished_at = some x.failed_at;
    updated_at = x.failed_at;
    error_code = some (normalized_code code);
    error_detail = some (bounded detail);
  }

  unfoldable pub failure_code_of : Option String → String
  failure_code_of none = "ingestion.processing_failed"
  failure_code_of (some code) = code

  -- `_bounded(detail or "processing failed")`
  unfoldable pub failure_detail : String → String
  unfolding bounded
  failure_detail detail = bounded (if detail == "" then "processing failed" else detail)

  -- The last `except` clause.
  unfoldable pub failed :
      String → String → ImportRun → ImportStore Payload → ImportStore Payload × Returned ImportRun
  unfolding fail_run save_run
  failed code detail run s =
      (save_run (fail_run code detail run) s, broken (permanent_error code detail))

  unfoldable pub settled :
      ImportRun
      → ImportStore Payload × Returned ImportRun
      → ImportStore Payload × Returned ImportRun
  unfolding failed failure_code_of failure_detail
  settled run (s, done ended) = (s, done ended)
  settled run (s, broken (transient_error code detail)) = (s, broken (transient_error code detail))
  settled run (s, broken (permanent_error code detail)) = failed code (failure_detail detail) run s
  settled run (s, broken (other_error code detail)) =
      failed (failure_code_of code) (failure_detail detail) run s

  unfoldable pub running : ImportRun → ImportRun
  running run = record run { state = RunState.running; updated_at = x.started_at }

  unfoldable pub process : ℕ → ImportStore Payload → ImportStore Payload × Returned ImportRun
  unfolding by_execution is_final running save_run capture settled
  process execution_id s = elim (by_execution execution_id s.runs) [
    | none ↦ (
      s,
      broken (transient_error "ingestion.run_not_ready" "run is not yet linked to this execution"),
    )
    | some run ↦
        if is_final run.state
        then (s, done run)
        else settled (running run) (capture (running run) (save_run (running run) s))
  ]
