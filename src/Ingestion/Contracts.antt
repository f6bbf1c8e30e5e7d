-- ===== src/Ingestion/Contracts.antt =====
-- Values of an import (src/umbral/application/ingestion/contracts.py) and the tables that it writes
-- (src/umbral/infrastructure/db/repositories/imports.py). What a payload is, is left open.
use umbral.Prelude.{
  ℕ, ◌+◌, String, Bool, ◌&&◌, List, ◌∷◌, Option, ◌==◌, string_eq, nat_eq, length, any,
}
use umbral.Prelude.Dict
use umbral.Prelude.Dict.{Dict}

pub record SourceIdentity : Type 0 where
  pub source_id : String
  pub source_version : String
  pub contract_version : String

pub record ParsedRecord (Payload : Type 0) : Type 0 where
  pub payload : Payload
  pub raw_bytes : List ℕ

pub record ParsedError : Type 0 where
  pub code : String
  pub detail : String

pub record ParsedBatch (Payload : Type 0) : Type 0 where
  pub records : List (ParsedRecord Payload)
  pub parse_errors : List ParsedError

unfoldable pub batch_total : {Payload : Type 0} → ParsedBatch Payload → ℕ
batch_total b = length b.records + length b.parse_errors

pub record ValidationIssue : Type 0 where
  pub code : String
  pub rule : String
  pub detail : String

-- A result that is valid, or the first issue and the others.
pub data ValidationResult : Type 0 where
  valid : ℕ → ValidationResult
  invalid : ValidationIssue → List ValidationIssue → ValidationResult

pub data RunState : Type 0 where
  pending running succeeded failed : RunState

pub record ImportRun : Type 0 where
  pub run_id : ℕ
  pub source : SourceIdentity
  pub batch_key : String
  pub file_format : String
  pub file_name : String
  pub file_sha256 : String
  pub file_size_bytes : ℕ
  pub raw_storage_key : String
  pub job_execution_id : Option ℕ
  pub state : RunState
  pub created_at : ℕ
  pub updated_at : ℕ
  pub finished_at : Option ℕ
  pub total_records : ℕ
  pub accepted : ℕ
  pub quarantined : ℕ
  pub duplicates : ℕ
  pub missing_fields : ℕ
  pub error_code : Option String
  pub error_detail : Option String

pub record RawListingSnapshot (Payload : Type 0) : Type 0 where
  pub snapshot_id : ℕ
  pub run_id : ℕ
  pub source : SourceIdentity
  pub external_id : String
  pub payload : Payload
  pub content_sha256 : String
  pub content_type : String
  pub size_bytes : ℕ
  pub published_at : Option ℕ
  pub captured_at : ℕ

pub record QuarantineRecord (Payload : Type 0) : Type 0 where
  pub record_id : ℕ
  pub run_id : ℕ
  pub source : SourceIdentity
  pub external_id : Option String
  pub code : String
  pub rule : String
  pub detail : String
  pub payload : Option Payload
  pub created_at : ℕ

-- The classes of the exceptions that a run may meet: of another, its `code` where it has one, and its
-- text.
pub data IngestionFault : Type 0 where
  transient_error permanent_error : String → String → IngestionFault
  other_error : Option String → String → IngestionFault

pub data Returned {ℓ} (A : Type ℓ) : Type ℓ where
  done : A → Returned A
  broken : IngestionFault → Returned A

pub record ImportStore (Payload : Type 0) : Type 0 where
  pub runs : Dict ℕ ImportRun
  pub snapshots : List (RawListingSnapshot Payload)
  pub quarantine : List (QuarantineRecord Payload)

module _ {Payload : Type 0} where
  -- `exists`: the test on one snapshot.
  unfoldable pub is_snapshot_of : String → String → String → RawListingSnapshot Payload → Bool
  is_snapshot_of source_id external_id content_sha256 s =
      (s.source.source_id == source_id && s.external_id == external_id)
      && s.content_sha256 == content_sha256

  unfoldable pub snapshot_exists : String → String → String → ImportStore Payload → Bool
  unfolding is_snapshot_of
  snapshot_exists source_id external_id content_sha256 s =
      any (is_snapshot_of source_id external_id content_sha256) s.snapshots

  unfoldable pub insert_snapshot :
      RawListingSnapshot Payload → ImportStore Payload → ImportStore Payload
  insert_snapshot snapshot s = record s { snapshots = snapshot ∷ s.snapshots }

  unfoldable pub insert_quarantine :
      QuarantineRecord Payload → ImportStore Payload → ImportStore Payload
  insert_quarantine r s = record s { quarantine = r ∷ s.quarantine }

  unfoldable pub save_run : ImportRun → ImportStore Payload → ImportStore Payload
  save_run run s = record s { runs = Dict.set run.run_id run s.runs }
