-- ===== src/Ingestion/Tests.antt =====
-- A batch with a duplicate, an invalid record and a line that cannot be parsed.
use umbral.Prelude.{
  ℕ, ◌+◌, true, false, List, [], ◌∷◌, none, some, ◌≡◌, refl, ◌==◌, nat_eq, string_eq, pair_eq,
  arith, Bool-cases, inl, inr, length, any, contains, if◌then◌else◌,
}
use umbral.Prelude.Dict
use umbral.Text.{PyText, is_graphic}
use umbral.Objects.Contracts.{replied, ObjectStore}
use umbral.Ingestion.Contracts.{
  ParsedRecord, ParsedBatch, batch_total, ValidationResult, valid, invalid, RunState, ImportRun,
  done, ImportStore, is_snapshot_of, snapshot_exists, insert_snapshot, insert_quarantine, save_run,
}
use umbral.Ingestion.Capture.{
  Reader, external_id, new_snapshot, quarantined_record, capture_record, capture_records,
  parse_failure, capture_errors, capture_batch,
}
use umbral.Ingestion.Process.{
  Service, by_execution, is_final, is_whole, raw_batch, parsed_batch, finished, capture, settled,
  running, process,
}
use umbral.Ingestion.Guarantees.{IsConserved, is_succeeded, process-IsConserved}

plain_graphic : (c : ℕ) → is_graphic c ≡ true → (c == 32) ≡ false
unfolding is_graphic
plain_graphic c h = ground arith

abbrev plain : PyText
plain = record {
  strip = λ s. s;
  lower = λ s. s;
  is_space = λ c. c == 32;
  strip_of_no_space = λ s h. refl;
  lower_of_no_upper = λ s h k. refl;
  graphic_no_space = plain_graphic;
}

-- A payload is a price, and a listing without one is invalid.
abbrev checked : ℕ → ValidationResult
checked price =
    if price == 0
    then invalid (record { code = "field.missing"; rule = "price"; detail = "price is missing" }) []
    else valid 1

abbrev reader : Reader ℕ
reader = record {
  py_text = plain;
  declared_id = λ price. some "flat";
  published_at = λ price. none;
  canonical_hash = λ price. if price == 5 then "five" else "other";
  validate_record = checked;
  show = λ n. "n";
}

abbrev bytes : ObjectStore (List ℕ)
bytes = record {
  put_if_absent = λ key body sha256 size content_type p. (p, replied key);
  stat = λ ref p. replied (record {
    provider_ref = ref;
    sha256 = "digest";
    size_bytes = length p;
    content_type = "text/csv";
    provider_version = none;
  });
  open_body = λ ref p. replied p;
  ref_for_key = λ key. replied key;
}

abbrev row : ℕ → ParsedRecord ℕ
row price = record { payload = price; raw_bytes = price ∷ [] }

abbrev batch : ParsedBatch ℕ
batch = record {
  records = row 5 ∷ row 5 ∷ row 0 ∷ [];
  parse_errors = record { code = "csv.row"; detail = "bad row" } ∷ [];
}

abbrev service : Service ℕ (List ℕ)
service = record {
  reader = reader;
  objects = bytes;
  provider = 1 ∷ 2 ∷ [];
  read_batch = λ raw file_format file_name. done batch;
  max_records = 10;
  describe = λ f. "failure";
  fresh = λ n. 100 + n;
  started_at = 50;
  captured_at = 51;
  failed_at = 52;
}

abbrev pending_run : ImportRun
pending_run = record {
  run_id = 1;
  source = record { source_id = "portal"; source_version = "1"; contract_version = "1" };
  batch_key = "batch";
  file_format = "csv";
  file_name = "listings.csv";
  file_sha256 = "digest";
  file_size_bytes = 2;
  raw_storage_key = "objects/raw/digest";
  job_execution_id = some 9;
  state = RunState.pending;
  created_at = 40;
  updated_at = 40;
  finished_at = none;
  total_records = 0;
  accepted = 0;
  quarantined = 0;
  duplicates = 0;
  missing_fields = 0;
  error_code = none;
  error_detail = none;
}

abbrev queued : ImportStore ℕ
queued = record { runs = (1, pending_run) ∷ []; snapshots = []; quarantine = [] }

abbrev captured_run : ImportRun
captured_run = record pending_run {
  state = RunState.succeeded;
  updated_at = 51;
  finished_at = some 51;
  total_records = 4;
  accepted = 1;
  quarantined = 2;
  duplicates = 1;
  missing_fields = 1;
}

batch_is_captured : (process service 9 queued).1 ≡ done captured_run
unfolding process by_execution is_final running save_run capture parsed_batch raw_batch is_whole
    batch_total capture_batch capture_records capture_record external_id new_snapshot
    quarantined_record insert_snapshot insert_quarantine snapshot_exists is_snapshot_of
    capture_errors parse_failure finished settled Dict.set contains any
batch_is_captured = refl

queued-IsConserved : IsConserved queued
unfolding Dict.get is_succeeded
queued-IsConserved = record {
  unique = tt;
  accounted = λ i run at on. absurd (elim (Bool-cases (1 == i)) [
    | inl e ↦ ground (arith, rw (e) at at, on)
    | inr e ↦ ground (arith, rw (e) at at)
  ]);
}

process-IsConserved_example : IsConserved (process service 9 queued).0
process-IsConserved_example = process-IsConserved service 9 queued queued-IsConserved
