-- ===== src/Jobs/State.antt =====
-- The state of `InMemoryJobRuntime` (src/umbral/application/jobs/service.py). Identifiers are the
-- numbers of their UUIDs, and a time is the microseconds since a fixed origin.
use umbral.Prelude.{ℕ, ℤ, String, Bool, List, [], ◌∷◌, Option, Result}
use umbral.Prelude.Dict.{Dict}
use umbral.Text.{PyText}
use umbral.Jobs.Contracts.{JobState, JobIdentity, JobKey}

pub data AttemptState : Type 0 where
  running succeeded transient_failure permanent_failure abandoned : AttemptState

-- `JsonScalar`; a float is the bit pattern of its double.
pub data JsonScalar : Type 0 where
  null : JsonScalar
  text : String → JsonScalar
  int : ℤ → JsonScalar
  float : ℕ → JsonScalar
  bool : Bool → JsonScalar

pub record Attempt : Type 0 where
  pub ordinal : ℕ
  pub worker_id : String
  pub started_at : ℕ
  pub state : AttemptState
  pub finished_at : Option ℕ
  pub error_code : Option String

pub data OutboxState : Type 0 where
  pending published failed : OutboxState

pub record Outbox : Type 0 where
  pub execution_id : ℕ
  pub attempt_number : ℕ
  pub available_at : ℕ
  pub state : OutboxState
  pub publish_attempts : ℕ
  pub error_code : Option String

pub record Execution : Type 0 where
  pub execution_id : ℕ
  pub identity : JobIdentity
  pub correlation_id : ℕ
  pub max_attempts : ℕ
  pub created_at : ℕ
  pub available_at : ℕ
  pub state : JobState
  pub attempt_count : ℕ
  pub result : Option (Dict String JsonScalar)
  pub error_code : Option String
  pub finished_at : Option ℕ
  pub lease_owner : Option String
  pub lease_until : Option ℕ
  pub attempts : List Attempt

pub record Schedule : Type 0 where
  pub schedule_id : ℕ
  pub job_type : String
  pub logical_target : String
  pub schedule_kind : String
  pub next_run_at : ℕ
  pub interval_seconds : Option ℕ
  pub max_attempts : ℕ
  pub enabled : Bool
  pub last_scheduled_at : Option ℕ

pub record JobSnapshot : Type 0 where
  pub execution_id : ℕ
  pub identity : JobIdentity
  pub state : JobState
  pub attempt_count : ℕ
  pub max_attempts : ℕ
  pub result : Option (Dict String JsonScalar)
  pub error_code : Option String
  pub available_at : ℕ

pub record JobContext : Type 0 where
  pub execution_id : ℕ
  pub attempt_number : ℕ
  pub correlation_id : ℕ
  pub release_id : String
  pub logical_target : Option String

pub record JobClaim : Type 0 where
  pub execution_id : ℕ
  pub attempt_number : ℕ
  pub worker_id : String
  pub context : JobContext

-- A registered handler; its `normalize_target` may be absent, and may raise.
pub record Handler : Type 0 where
  pub normalize_target : Option (String → Result String)

-- What the constructor fixes (`release_id`, `lease_seconds`, `handlers`), and what the library of
-- Python computes for the runtime: the length of an encoded JSON object, the text of a UUID and the
-- `isoformat` of `_canonical_utc`.
pub record Config : Type 0 where
  pub py_text : PyText
  pub release_id : String
  pub lease_seconds : ℕ
  pub handlers : Option (Dict String Handler)
  pub dumps_length : Dict String JsonScalar → ℕ
  pub str_uuid : ℕ → String
  pub canonical_utc : ℕ → String

-- The fields that the methods change.
pub record Runtime : Type 0 where
  pub now : ℕ
  pub executions : Dict ℕ Execution
  pub identity_index : Dict JobKey ℕ
  pub outbox : Dict (ℕ × ℕ) Outbox
  pub schedules : Dict ℕ Schedule
  pub submissions : List JobSnapshot

abbrev pub init : ℕ → Runtime
init now = record {
  now = now;
  executions = [];
  identity_index = [];
  outbox = [];
  schedules = [];
  submissions = [];
}

-- `_snapshot`
unfoldable pub snapshot : Execution → JobSnapshot
snapshot e = record {
  execution_id = e.execution_id;
  identity = e.identity;
  state = e.state;
  attempt_count = e.attempt_count;
  max_attempts = e.max_attempts;
  result = e.result;
  error_code = e.error_code;
  available_at = e.available_at;
}

-- A write through `attempts[-1]`.
unfoldable pub update_last : (Attempt → Attempt) → List Attempt → List Attempt
update_last f [] = []
update_last f (a ∷ []) = f a ∷ []
update_last f (a ∷ b ∷ l) = a ∷ update_last f (b ∷ l)
