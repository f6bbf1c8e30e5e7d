-- ===== src/Objects/Repository.antt =====
-- `InMemoryObjectMetadataRepository` (src/umbral/application/objects/service.py).
use Prim.Native.Char.{code}
use Prim.Native.String.{String}
use umbral.Prelude.{
  ℕ, zero, suc, Bool, true, false, ◌&&◌, ◌||◌, not, Option, none, some, ◌==◌, nat_eq, pair_eq,
  string_eq, all, if◌then◌else◌,
}
use umbral.Prelude.Dict
use umbral.Prelude.Dict.{Dict}
use umbral.Text.{PyText, codes, is_word}
use umbral.Objects.Contracts.{
  VersionState, ObjectVersionMetadata, Reply, replied, raised, version_conflict, not_found,
  invalid_state,
}

abbrev pub Versions : Type 0
Versions = Dict (ℕ × ℕ) ObjectVersionMetadata

unfoldable pub is_available : VersionState → Bool
is_available VersionState.available = true
is_available _ = false

unfoldable pub is_pending : VersionState → Bool
is_pending VersionState.pending = true
is_pending _ = false

unfoldable pub is_failed : VersionState → Bool
is_failed VersionState.failed = true
is_failed _ = false

-- The three properties that a version may not change.
unfoldable pub same_content : ObjectVersionMetadata → String → ℕ → String → Bool
same_content m sha256 size_bytes content_type =
    (m.sha256 == sha256 && m.size_bytes == size_bytes) && m.content_type == content_type

unfoldable pub pending_metadata :
    ℕ × ℕ → String → String → String → ℕ → String → ℕ → ℕ → ObjectVersionMetadata
pending_metadata (object_id, version_id) purpose storage_key sha256 size content_type now
      correlation_id =
    record {
      object_id = object_id;
      version_id = version_id;
      purpose = purpose;
      state = VersionState.pending;
      storage_key = storage_key;
      sha256 = sha256;
      size_bytes = size;
      content_type = content_type;
      created_at = now;
      correlation_id = correlation_id;
      provider_ref = none;
      provider_version = none;
      available_at = none;
      failure_code = none;
    }

-- `create_pending` for a version that is described by its metadata.
unfoldable pub create_pending : ℕ × ℕ → ObjectVersionMetadata → Versions → Reply Versions
unfolding same_content
create_pending key m versions = elim (Dict.get key versions) [
  | none ↦ replied (Dict.set key m versions)
  | some existing ↦
      if same_content existing m.sha256 m.size_bytes m.content_type
      then replied versions
      else raised version_conflict
]

unfoldable pub made_available :
    String → Option String → ℕ → ObjectVersionMetadata → ObjectVersionMetadata
made_available provider_ref provider_version now m = record m {
  state = VersionState.available;
  provider_ref = some provider_ref;
  provider_version = provider_version;
  available_at = some now;
}

unfoldable pub is_ref : String → Option String → Bool
is_ref provider_ref none = false
is_ref provider_ref (some r) = r == provider_ref

-- The metadata that `mark_available` leaves and returns.
unfoldable pub availability :
    String → Option String → ℕ → ObjectVersionMetadata → Reply ObjectVersionMetadata
unfolding is_available is_pending is_ref made_available
availability provider_ref provider_version now m =
    if is_available m.state
    then (if is_ref provider_ref m.provider_ref then replied m else raised version_conflict)
    else if not (is_pending m.state)
    then raised invalid_state
    else replied (made_available provider_ref provider_version now m)

unfoldable pub mark_available :
    ℕ × ℕ → String → Option String → ℕ → Versions → Versions × Reply ObjectVersionMetadata
unfolding availability
mark_available key provider_ref provider_version now versions = elim (Dict.get key versions) [
  | none ↦ (versions, raised not_found)
  | some m ↦ elim (availability provider_ref provider_version now m) [
    | raised f ↦ (versions, raised f)
    | replied m' ↦ (Dict.set key m' versions, replied m')
  ]
]

-- `value.replace(" ", "_")`
pub replace_space : String → String
replace_space String.[] = String.[]
replace_space (String.◌∷◌ c s) = String.◌∷◌ (if code c == 32 then "_" else c) (replace_space s)

-- `value[:n]`
first : ℕ → String → String
first zero s = String.[]
first (suc n) String.[] = String.[]
first (suc n) (String.◌∷◌ c s) = String.◌∷◌ c (first n s)

pub is_code_char : ℕ → Bool
is_code_char c = is_word c || (c == b'.' || c == b'_') || c == b'-'

unfoldable pub safe_failure_code : PyText → String → String
unfolding replace_space first is_code_char
safe_failure_code t value =
    let candidate = replace_space (t.lower value) in
    if candidate == "" || not (all is_code_char (codes candidate))
    then "object.write_failed"
    else first 100 candidate

unfoldable pub made_failed : PyText → String → ObjectVersionMetadata → ObjectVersionMetadata
unfolding is_available safe_failure_code
made_failed t failure_code m = if is_available m.state then m else record m {
  state = VersionState.failed;
  failure_code = some (safe_failure_code t failure_code);
  provider_ref = none;
  available_at = none;
}

unfoldable pub mark_failed : PyText → ℕ × ℕ → String → Versions → Reply Versions
unfolding made_failed
mark_failed t key failure_code versions = elim (Dict.get key versions) [
  | none ↦ raised not_found
  | some m ↦ replied (Dict.set key (made_failed t failure_code m) versions)
]
