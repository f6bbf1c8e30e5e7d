-- ===== src/Objects/Service.antt =====
-- `VersionedObjects` (src/umbral/application/objects/service.py) over an adapter. The SHA-256 is an
-- argument, and so is what each call reads of the clock and generates; of a telemetry signal the correlation id is
-- kept, which is all that differs between two of them.
use Prim.Native.String.{◌++◌ as text_append}
use umbral.Prelude.{
  ℕ, String, Bool, true, false, ◌&&◌, ◌||◌, not, List, [], ◌∷◌, ◌++◌, Option, none, some, ◌==◌,
  nat_eq, pair_eq, string_eq, length, if◌then◌else◌,
}
use umbral.Prelude.Dict
use umbral.Text.{PyText}
use umbral.Objects.Contracts.{
  ObjectFault, version_conflict, integrity_error, not_found, invalid_state, value_error,
  other_error, Reply, replied, raised, ObjectVersionRef, ObjectInfo, ObjectVersionMetadata,
  ObjectStore, has_char, metadata_ref,
}
use umbral.Objects.Repository.{
  Versions, is_available, is_failed, same_content, pending_metadata, create_pending, mark_available,
  mark_failed,
}

-- The code outside of the service: the methods of `str`, `hashlib.sha256`, and `str` of a UUID.
pub record Outside : Type 0 where
  pub py_text : PyText
  pub sha256 : List ℕ → String
  pub show : ℕ → String

pub record VersionedObjects (P : Type 0) : Type 0 where
  pub versions : Versions
  pub provider : P
  pub signals : List ℕ

-- The arguments of `put`.
pub record PutRequest : Type 0 where
  pub object_id : ℕ
  pub version_id : ℕ
  pub body : List ℕ
  pub sha256 : Option String
  pub size_bytes : Option ℕ
  pub content_type : String
  pub purpose : String
  pub correlation_id : Option ℕ

-- What one call of `put` takes anew: the readings of `self.clock()` and the result of `uuid4()`.
pub record Readings : Type 0 where
  pub created_at : ℕ
  pub available_at : ℕ
  pub new_correlation_id : ℕ

pub record PutCall : Type 0 where
  pub request : PutRequest
  pub readings : Readings

pub record ReconciliationResult : Type 0 where
  pub completed : ℕ
  pub failed : ℕ
  pub pending : ℕ

abbrev pub put_key : PutCall → ℕ × ℕ
put_key q = (q.request.object_id, q.request.version_id)

-- `correlation_id or uuid4()`
unfoldable pub correlation_of : PutCall → ℕ
correlation_of q = elim q.request.correlation_id [
  | none ↦ q.readings.new_correlation_id
  | some id ↦ id
]

-- `getattr(error, "code", "object.write_failed")`
unfoldable pub failure_code : ObjectFault → String
failure_code version_conflict = "object.version_conflict"
failure_code integrity_error = "object.integrity_error"
failure_code not_found = "object.not_found"
failure_code invalid_state = "object.invalid_state"
failure_code value_error = "object.write_failed"
failure_code (other_error none) = "object.write_failed"
failure_code (other_error (some code)) = code

unfoldable pub is_conflict : ObjectFault → Bool
is_conflict version_conflict = true
is_conflict _ = false

-- `_ensure_info_match`
unfoldable pub info_matches : ObjectInfo → String → ℕ → String → Bool
info_matches info sha256 size_bytes content_type =
    (info.sha256 == sha256 && info.size_bytes == size_bytes) && info.content_type == content_type

unfoldable pub normalize_content_type : PyText → String → Reply String
normalize_content_type t value =
    let media_type = t.lower (t.strip value) in
    if has_char b';' media_type || not (has_char b'/' media_type)
    then raised value_error
    else replied media_type

module _ {P : Type 0} (x : Outside) (adapter : ObjectStore P) where
  -- `(sha256 or actual_digest).lower()`
  unfoldable pub declared_digest : PutCall → String
  declared_digest q = elim q.request.sha256 [
    | none ↦ x.py_text.lower (x.sha256 q.request.body)
    | some s ↦ x.py_text.lower (if s == "" then x.sha256 q.request.body else s)
  ]

  unfoldable pub declared_size : PutCall → ℕ
  declared_size q = elim q.request.size_bytes [ none ↦ length q.request.body | some n ↦ n ]

  -- The declared digest and size are those of the body.
  unfoldable pub is_honest : PutCall → Bool
  unfolding declared_digest declared_size
  is_honest q =
      declared_digest q == x.sha256 q.request.body && declared_size q == length q.request.body

  unfoldable pub storage_key : PutCall → String
  storage_key q =
      text_append "objects/"
        (text_append (x.show q.request.object_id) (text_append "/" (x.show q.request.version_id)))

  unfoldable pub new_version : String → PutCall → ObjectVersionMetadata
  unfolding declared_digest declared_size storage_key correlation_of pending_metadata
  new_version media q =
      pending_metadata (put_key q) q.request.purpose (storage_key q) (declared_digest q)
        (declared_size q) media q.readings.created_at (correlation_of q)

  -- What the provider does in the `try` block: its new state, and what it says of the stored bytes.
  unfoldable pub upload : String → PutCall → P → P × Reply (String × ObjectInfo)
  unfolding declared_digest declared_size storage_key info_matches
  upload media q p =
      let (p', r) =
        adapter.put_if_absent (storage_key q) q.request.body (declared_digest q) (declared_size q)
          media p in
      elim r [
        | raised f ↦ (p', raised f)
        | replied ref ↦ elim (adapter.stat ref p') [
          | raised f ↦ (p', raised f)
          | replied info ↦
              if info_matches info (declared_digest q) (declared_size q) media
              then (p', replied (ref, info))
              else (p', raised integrity_error)
        ]
      ]

  -- The `except` block.
  unfoldable pub upload_failed :
      PutCall → ObjectFault → VersionedObjects P → VersionedObjects P × Reply ObjectVersionRef
  unfolding is_conflict mark_failed failure_code
  upload_failed q f s =
      if is_conflict f
      then (s, raised f)
      else elim (mark_failed x.py_text (put_key q) (failure_code f) s.versions) [
        | raised g ↦ (s, raised g)
        | replied versions ↦ (record s { versions = versions }, raised f)
      ]

  -- After the upload.
  unfoldable pub uploaded :
      PutCall
      → String × ObjectInfo
      → VersionedObjects P
      → VersionedObjects P × Reply ObjectVersionRef
  unfolding mark_available metadata_ref
  uploaded q (ref, info) s =
      let (versions, r) =
        mark_available (put_key q) ref info.provider_version q.readings.available_at s.versions in
      elim r [
        | raised f ↦ (record s { versions = versions }, raised f)
        | replied m ↦ (
          record s { versions = versions; signals = s.signals ++ (m.correlation_id ∷ []) },
          metadata_ref x.py_text m,
        )
      ]

  unfoldable pub after_upload :
      PutCall
      → P × Reply (String × ObjectInfo)
      → VersionedObjects P
      → VersionedObjects P × Reply ObjectVersionRef
  unfolding upload_failed uploaded
  after_upload q (p, raised f) s = upload_failed q f (record s { provider = p })
  after_upload q (p, replied r) s = uploaded q r (record s { provider = p })

  -- From the test of the declared integrity on.
  unfoldable pub put_new :
      String → PutCall → VersionedObjects P → VersionedObjects P × Reply ObjectVersionRef
  unfolding is_honest create_pending new_version upload after_upload
  put_new media q s =
      if not (is_honest q)
      then (s, raised integrity_error)
      else elim (create_pending (put_key q) (new_version media q) s.versions) [
        | raised f ↦ (s, raised f)
        | replied versions ↦
            after_upload q (upload media q s.provider) (record s { versions = versions })
      ]

  unfoldable pub put_existing :
      String
      → PutCall
      → ObjectVersionMetadata
      → VersionedObjects P
      → VersionedObjects P × Reply ObjectVersionRef
  unfolding same_content is_honest is_available is_failed metadata_ref put_new
  put_existing media q existing s =
      if not (same_content existing (declared_digest q) (declared_size q) media)
      then (s, raised version_conflict)
      else if not (is_honest q)
      then (s, raised version_conflict)
      else if is_available existing.state
      then (s, metadata_ref x.py_text existing)
      else if is_failed existing.state
      then (s, raised invalid_state)
      else put_new media q s

  unfoldable pub put : PutCall → VersionedObjects P → VersionedObjects P × Reply ObjectVersionRef
  unfolding normalize_content_type put_existing put_new
  put q s = elim (normalize_content_type x.py_text q.request.content_type) [
    | raised f ↦ (s, raised f)
    | replied media ↦ elim (Dict.get (put_key q) s.versions) [
      | none ↦ put_new media q s
      | some existing ↦ put_existing media q existing s
    ]
  ]

  -- `_available`
  unfoldable pub available_version :
      ObjectVersionRef → VersionedObjects P → Reply ObjectVersionMetadata
  unfolding is_available same_content
  available_version ref s = elim (Dict.get (ref.object_id, ref.version_id) s.versions) [
    | none ↦ raised not_found
    | some m ↦
        if not (is_available m.state)
        then raised not_found
        else if not (same_content m ref.sha256 ref.size_bytes ref.content_type)
        then raised version_conflict
        else replied m
  ]

  -- The info of a provider's object, if it is that of the reference.
  unfoldable pub checked_info : String → ObjectVersionRef → P → Reply ObjectInfo
  unfolding info_matches
  checked_info provider_ref ref p = elim (adapter.stat provider_ref p) [
    | raised f ↦ raised f
    | replied info ↦
        if info_matches info ref.sha256 ref.size_bytes ref.content_type
        then replied info
        else raised integrity_error
  ]

  -- What `open` and `stat` both do first: the provider's reference, and its info.
  unfoldable pub located : ObjectVersionRef → VersionedObjects P → Reply (String × ObjectInfo)
  unfolding available_version checked_info
  located ref s = elim (available_version ref s) [
    | raised f ↦ raised f
    | replied m ↦ elim m.provider_ref [
      | none ↦ raised integrity_error
      | some provider_ref ↦ elim (checked_info provider_ref ref s.provider) [
        | raised f ↦ raised f
        | replied info ↦ replied (provider_ref, info)
      ]
    ]
  ]

  unfoldable pub stat : ObjectVersionRef → VersionedObjects P → Reply ObjectInfo
  unfolding located
  stat ref s = elim (located ref s) [ raised f ↦ raised f | replied r ↦ replied r.1 ]

  unfoldable pub open_object : ObjectVersionRef → VersionedObjects P → Reply (List ℕ)
  unfolding located
  open_object ref s = elim (located ref s) [
    | raised f ↦ raised f
    | replied r ↦ adapter.open_body r.0 s.provider
  ]
