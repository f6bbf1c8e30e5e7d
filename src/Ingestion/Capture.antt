-- ===== src/Ingestion/Capture.antt =====
-- The capture of a batch's records (src/umbral/application/ingestion/service.py, the loops of `_capture`).
-- `uuid4()` is a function of the record's place; the methods of `str`, the canonical hash and the
-- validation of a payload are arguments.
use Prim.Native.String.{String, ◌++◌ as text_append}
use umbral.Prelude.{
  ℕ, zero, suc, ◌+◌, ◌||◌, List, [], ◌∷◌, Option, none, some, ◌==◌, string_eq, pair_eq, length,
  contains, if◌then◌else◌,
}
use umbral.Text.{PyText}
use umbral.Ingestion.Contracts.{
  ParsedRecord, ParsedError, ParsedBatch, ValidationIssue, ValidationResult, valid, invalid,
  ImportRun, RawListingSnapshot, QuarantineRecord, ImportStore, snapshot_exists, insert_snapshot,
  insert_quarantine,
}

-- What the loops ask of a payload and of the contract.
pub record Reader (Payload : Type 0) : Type 0 where
  pub py_text : PyText
  -- the text of `payload.get("external_id")`
  pub declared_id : Payload → Option String
  pub published_at : Payload → Option ℕ
  pub canonical_hash : Payload → String
  pub validate_record : Payload → ValidationResult
  pub show : ℕ → String

-- The counts, the keys that were captured in this batch, and the tables.
pub record Progress (Payload : Type 0) : Type 0 where
  pub accepted : ℕ
  pub quarantined : ℕ
  pub duplicates : ℕ
  pub missing_total : ℕ
  pub seen : List (String × String)
  pub store : ImportStore Payload

-- `value[:n]`
pub clipped : ℕ → String → String
clipped zero s = String.[]
clipped (suc n) String.[] = String.[]
clipped (suc n) (String.◌∷◌ c s) = String.◌∷◌ c (clipped n s)

unfoldable pub bounded : String → String
unfolding clipped
bounded value = clipped 500 value

-- `"; ".join(issue.detail for issue in issues)`
unfoldable pub joined_details : ValidationIssue → List ValidationIssue → String
joined_details issue [] = issue.detail
joined_details issue (next ∷ rest) =
    text_append issue.detail (text_append "; " (joined_details next rest))

module _ {Payload : Type 0} (r : Reader Payload) (fresh : ℕ → ℕ) (run : ImportRun)
    (captured_at : ℕ) where
  unfoldable pub external_id : Payload → ℕ → String
  external_id payload index = elim (r.declared_id payload) [
    | none ↦ text_append "record:" (r.show index)
    | some value ↦
        let stripped = r.py_text.strip value in
        if stripped == "" then text_append "record:" (r.show index) else stripped
  ]

  unfoldable pub new_snapshot : ℕ → ParsedRecord Payload → RawListingSnapshot Payload
  unfolding external_id
  new_snapshot index record_in = record {
    snapshot_id = fresh index;
    run_id = run.run_id;
    source = run.source;
    external_id = external_id record_in.payload index;
    payload = record_in.payload;
    content_sha256 = r.canonical_hash record_in.payload;
    content_type = "application/json";
    size_bytes = length record_in.raw_bytes;
    published_at = r.published_at record_in.payload;
    captured_at = captured_at;
  }

  unfoldable pub quarantined_record :
      ℕ → ParsedRecord Payload → ValidationIssue → List ValidationIssue → QuarantineRecord Payload
  unfolding external_id bounded joined_details
  quarantined_record index record_in issue issues = record {
    record_id = fresh index;
    run_id = run.run_id;
    source = run.source;
    external_id = some (external_id record_in.payload index);
    code = issue.code;
    rule = issue.rule;
    detail = bounded (joined_details issue issues);
    payload = some record_in.payload;
    created_at = captured_at;
  }

  -- One turn of the first loop.
  unfoldable pub capture_record : ℕ → ParsedRecord Payload → Progress Payload → Progress Payload
  unfolding new_snapshot quarantined_record insert_snapshot insert_quarantine
  capture_record index record_in p =
      let id = external_id record_in.payload index in
      let hash = r.canonical_hash record_in.payload in
      if contains (id, hash) p.seen || snapshot_exists run.source.source_id id hash p.store
      then record p { duplicates = p.duplicates + 1 }
      else elim (r.validate_record record_in.payload) [
        | invalid issue issues ↦ record p {
          quarantined = p.quarantined + 1;
          store = insert_quarantine (quarantined_record index record_in issue issues) p.store;
        }
        | valid missing_optional ↦ record p {
          accepted = p.accepted + 1;
          missing_total = p.missing_total + missing_optional;
          seen = (id, hash) ∷ p.seen;
          store = insert_snapshot (new_snapshot index record_in) p.store;
        }
      ]

  unfoldable pub capture_records :
      ℕ → List (ParsedRecord Payload) → Progress Payload → Progress Payload
  unfolding capture_record
  capture_records index [] p = p
  capture_records index (record_in ∷ rest) p =
      capture_records (index + 1) rest (capture_record index record_in p)

  unfoldable pub parse_failure : ℕ → ParsedError → QuarantineRecord Payload
  unfolding bounded
  parse_failure index e = record {
    record_id = fresh index;
    run_id = run.run_id;
    source = run.source;
    external_id = none;
    code = e.code;
    rule = "source.parse";
    detail = bounded e.detail;
    payload = none;
    created_at = captured_at;
  }

  unfoldable pub capture_errors : ℕ → List ParsedError → Progress Payload → Progress Payload
  unfolding parse_failure insert_quarantine
  capture_errors index [] p = p
  capture_errors index (e ∷ rest) p = capture_errors (index + 1) rest (record p {
    quarantined = p.quarantined + 1;
    store = insert_quarantine (parse_failure index e) p.store;
  })

  abbrev pub nothing_captured : ImportStore Payload → Progress Payload
  nothing_captured s = record {
    accepted = 0;
    quarantined = 0;
    duplicates = 0;
    missing_total = 0;
    seen = [];
    store = s;
  }

  -- Both loops.
  unfoldable pub capture_batch : ParsedBatch Payload → ImportStore Payload → Progress Payload
  unfolding capture_records capture_errors
  capture_batch parsed s =
      capture_errors (length parsed.records) parsed.parse_errors
        (capture_records 0 parsed.records (nothing_captured s))
