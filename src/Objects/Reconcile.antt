-- ===== src/Objects/Reconcile.antt =====
-- `VersionedObjects.reconcile_pending` (src/umbral/application/objects/service.py).
use umbral.Prelude.{
  ℕ, ◌+◌, String, Bool, false, ◌&&◌, not, List, [], ◌∷◌, Option, none, some, nat_eq, pair_eq, leb,
  keep, if◌then◌else◌,
}
use umbral.Objects.Contracts.{
  ObjectFault, version_conflict, integrity_error, not_found, Reply, replied, raised, ObjectInfo,
  ObjectVersionMetadata, ObjectStore,
}
use umbral.Objects.Repository.{is_pending, mark_available, mark_failed}
use umbral.Objects.Service.{Outside, VersionedObjects, ReconciliationResult, info_matches}

-- `before is not None and created_at >= before`, with `before` the age before now.
unfoldable pub is_young : ℕ → Option ℕ → ObjectVersionMetadata → Bool
is_young now none m = false
is_young now (some age) m = leb now (m.created_at + age)

-- `max_age is not None and now - created_at >= max_age`
unfoldable pub is_overdue : ℕ → Option ℕ → ObjectVersionMetadata → Bool
is_overdue now none m = false
is_overdue now (some age) m = leb (m.created_at + age) now

-- The rows that `pending` yields.
unfoldable pub is_eligible : ℕ → Option ℕ → ObjectVersionMetadata → Bool
unfolding is_pending is_young
is_eligible now max_age m = is_pending m.state && not (is_young now max_age m)

abbrev pub none_yet : ReconciliationResult
none_yet = record { completed = 0; failed = 0; pending = 0 }

module _ {P : Type 0} (x : Outside) (adapter : ObjectStore P) (now : ℕ) (max_age : Option ℕ) where
  unfoldable pub provider_ref_of : ObjectVersionMetadata → Reply String
  provider_ref_of m = elim m.provider_ref [
    | none ↦ adapter.ref_for_key m.storage_key
    | some r ↦ replied r
  ]

  -- The `try` block.
  unfoldable pub provider_info : String → ObjectVersionMetadata → P → Reply ObjectInfo
  unfolding info_matches
  provider_info ref m p = elim (adapter.stat ref p) [
    | raised f ↦ raised f
    | replied info ↦
        if info_matches info m.sha256 m.size_bytes m.content_type
        then replied info
        else raised integrity_error
  ]

  unfoldable pub count_failed :
      ℕ × ℕ
      → String
      → ReconciliationResult
      → VersionedObjects P
      → VersionedObjects P × Reply ReconciliationResult
  unfolding mark_failed
  count_failed key code n s = elim (mark_failed x.py_text key code s.versions) [
    | raised f ↦ (s, raised f)
    | replied versions ↦
        (record s { versions = versions }, replied (record n { failed = n.failed + 1 }))
  ]

  -- The `except` clauses: any other exception leaves the loop.
  unfoldable pub refused :
      ℕ × ℕ
      → ObjectVersionMetadata
      → ObjectFault
      → ReconciliationResult
      → VersionedObjects P
      → VersionedObjects P × Reply ReconciliationResult
  unfolding count_failed is_overdue
  refused key m not_found n s =
      if is_overdue now max_age m
      then count_failed key "object.bytes_missing" n s
      else (s, replied (record n { pending = n.pending + 1 }))
  refused key m integrity_error n s = count_failed key "object.bytes_conflict" n s
  refused key m version_conflict n s = count_failed key "object.bytes_conflict" n s
  refused key m f n s = (s, raised f)

  unfoldable pub reconcile_row :
      ℕ × ℕ
      → ObjectVersionMetadata
      → ReconciliationResult
      → VersionedObjects P
      → VersionedObjects P × Reply ReconciliationResult
  unfolding provider_ref_of provider_info refused mark_available
  reconcile_row key m n s = elim (provider_ref_of m) [
    | raised f ↦ (s, raised f)
    | replied ref ↦ elim (provider_info ref m s.provider) [
      | raised f ↦ refused key m f n s
      | replied info ↦
          let (versions, r) = mark_available key ref info.provider_version now s.versions in
          elim r [
            | raised f ↦ (record s { versions = versions }, raised f)
            | replied m' ↦ (
              record s { versions = versions },
              replied (record n { completed = n.completed + 1 }),
            )
          ]
    ]
  ]

  unfoldable pub reconcile_rows :
      List ((ℕ × ℕ) × ObjectVersionMetadata)
      → ReconciliationResult
      → VersionedObjects P
      → VersionedObjects P × Reply ReconciliationResult
  unfolding reconcile_row
  reconcile_rows [] n s = (s, replied n)
  reconcile_rows ((key, m) ∷ rest) n s =
      let (s', r) = reconcile_row key m n s in
      elim r [ raised f ↦ (s', raised f) | replied n' ↦ reconcile_rows rest n' s' ]

  unfoldable pub reconcile_pending :
      VersionedObjects P → VersionedObjects P × Reply ReconciliationResult
  unfolding reconcile_rows is_eligible keep
  reconcile_pending s =
      reconcile_rows (keep (λ entry. is_eligible now max_age entry.1) s.versions) none_yet s
