-- ===== src/Objects/Contracts.antt =====
-- Values and errors of object versions (src/umbral/application/objects/contracts.py), and the port of
-- the adapters that keep the bytes (src/umbral/application/objects/ports.py). Bytes are numbers, and
-- the hexadecimal SHA-256 of a body is an argument.
use umbral.Prelude.{
  ℕ, String, Bool, ◌&&◌, ◌||◌, not, List, Option, ◌==◌, nat_eq, string_eq, leb, all, length,
  if◌then◌else◌,
}
use umbral.Text.{PyText, codes, is_digit}

-- The classes of ObjectError, a ValueError, and any other exception with the `code` that it may have.
pub data ObjectFault : Type 0 where
  version_conflict integrity_error not_found invalid_state value_error : ObjectFault
  other_error : Option String → ObjectFault

pub data Reply {ℓ} (A : Type ℓ) : Type ℓ where
  replied : A → Reply A
  raised : ObjectFault → Reply A

pub record ObjectVersionRef : Type 0 where
  pub object_id : ℕ
  pub version_id : ℕ
  pub sha256 : String
  pub size_bytes : ℕ
  pub content_type : String

pub record ObjectInfo : Type 0 where
  pub provider_ref : String
  pub sha256 : String
  pub size_bytes : ℕ
  pub content_type : String
  pub provider_version : Option String

pub data VersionState : Type 0 where
  pending available failed : VersionState

pub record ObjectVersionMetadata : Type 0 where
  pub object_id : ℕ
  pub version_id : ℕ
  pub purpose : String
  pub state : VersionState
  pub storage_key : String
  pub sha256 : String
  pub size_bytes : ℕ
  pub content_type : String
  pub created_at : ℕ
  pub correlation_id : ℕ
  pub provider_ref : Option String
  pub provider_version : Option String
  pub available_at : Option ℕ
  pub failure_code : Option String

-- An adapter over its state: what `put_if_absent` leaves and returns, and what the others return.
pub record ObjectStore (P : Type 0) : Type 0 where
  pub put_if_absent : String → List ℕ → String → ℕ → String → P → P × Reply String
  pub stat : String → P → Reply ObjectInfo
  pub open_body : String → P → Reply (List ℕ)
  pub ref_for_key : String → Reply String

-- `[0-9a-f]`
unfoldable pub is_hex : ℕ → Bool
is_hex c = is_digit c || leb b'a' c && leb c b'f'

unfoldable pub is_sha256 : String → Bool
unfolding is_hex
is_sha256 s = length (codes s) == 64 && all is_hex (codes s)

unfoldable pub has_char : ℕ → String → Bool
has_char c s = not (all (λ d. not (d == c)) (codes s))

-- `ObjectVersionRef(...)` with its normalisation.
unfoldable pub create_ref : PyText → ℕ → ℕ → String → ℕ → String → Reply ObjectVersionRef
unfolding is_sha256 has_char
create_ref t object_id version_id sha256 size_bytes content_type =
    let digest = t.lower sha256 in
    let media_type = t.lower (t.strip content_type) in
    if not (is_sha256 digest)
    then raised value_error
    else if media_type == "" || has_char b';' media_type
    then raised value_error
    else replied (record {
      object_id = object_id;
      version_id = version_id;
      sha256 = digest;
      size_bytes = size_bytes;
      content_type = media_type;
    })

-- `ObjectVersionMetadata.ref`
unfoldable pub metadata_ref : PyText → ObjectVersionMetadata → Reply ObjectVersionRef
unfolding create_ref
metadata_ref t m = create_ref t m.object_id m.version_id m.sha256 m.size_bytes m.content_type
