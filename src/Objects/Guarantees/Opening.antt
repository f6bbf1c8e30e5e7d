-- ===== src/Objects/Guarantees/Opening.antt =====
-- Reading a version (src/umbral/application/objects/service.py, `open`, `stat` and `_available`).
use umbral.Prelude.{
  ℕ, String, List, some, ◌≡◌, ap, ◌∙◌, sym, nat_eq, pair_eq, string_eq, inl, inr, Option-cases,
  arith, length,
}
use umbral.Prelude.Dict
use umbral.Objects.Contracts.{
  ObjectVersionRef, ObjectVersionMetadata, ObjectInfo, replied, ObjectStore,
}
use umbral.Objects.Repository.{same_content}
use umbral.Objects.Service.{
  Outside, VersionedObjects, available_version, checked_info, located, open_object, info_matches,
}
use umbral.Objects.View.{Content, content_of, seen, published}
use umbral.Objects.Replies.{Reply-cases}

-- What a reference says of its version.
abbrev pub named_content : ObjectVersionRef → Content
named_content ref = record {
  sha256 = ref.sha256;
  size_bytes = ref.size_bytes;
  content_type = ref.content_type;
}

module _ {P : Type 0} (x : Outside) (adapter : ObjectStore P) where
  -- What the adapter says of an object is true of the bytes that it returns.
  abbrev pub IsTruthful : Type 0
  IsTruthful =
      (provider_ref : String) (p : P) (info : ObjectInfo) (body : List ℕ)
      → adapter.stat provider_ref p ≡ replied info
      → adapter.open_body provider_ref p ≡ replied body
      → (x.sha256 body ≡ info.sha256) × (length body ≡ info.size_bytes)

  available_version-published :
      (ref : ObjectVersionRef) (s : VersionedObjects P) (m : ObjectVersionMetadata)
      → available_version x adapter ref s ≡ replied m
      → published s.versions (ref.object_id, ref.version_id) ≡ some (named_content ref)
  unfolding available_version same_content
  available_version-published ref s m h =
      elim (Option-cases (Dict.get (ref.object_id, ref.version_id) s.versions)) [
        | inl absent ↦ absurd (ground (arith, rw (absent, available_version) at h))
        | inr (a, present) ↦
            ap seen present
            ∙ (unfold seen content_of in
                ground (
                  arith,
                  rw (present, available_version) at h,
                  string_eq.same_iff a.sha256 ref.sha256,
                  nat_eq.same_iff a.size_bytes ref.size_bytes,
                  string_eq.same_iff a.content_type ref.content_type,
                ))
      ]

  checked_info-matches :
      (provider_ref : String) (ref : ObjectVersionRef) (p : P) (info : ObjectInfo)
      → checked_info x adapter provider_ref ref p ≡ replied info
      → (adapter.stat provider_ref p ≡ replied info)
        × ((info.sha256 ≡ ref.sha256) × (info.size_bytes ≡ ref.size_bytes))
  unfolding checked_info info_matches
  checked_info-matches provider_ref ref p info h =
      elim (Reply-cases (adapter.stat provider_ref p)) [
        | inr (f, e) ↦ absurd (ground (arith, rw (e, checked_info) at h))
        | inl (i, e) ↦ ground (
          arith,
          e,
          rw (e, checked_info) at h,
          string_eq.same_iff i.sha256 ref.sha256,
          nat_eq.same_iff i.size_bytes ref.size_bytes,
        )
      ]

  located-finds :
      (ref : ObjectVersionRef) (s : VersionedObjects P) (provider_ref : String) (info : ObjectInfo)
      → located x adapter ref s ≡ replied (provider_ref, info)
      → ((m : ObjectVersionMetadata) × (available_version x adapter ref s ≡ replied m))
        × (checked_info x adapter provider_ref ref s.provider ≡ replied info)
  unfolding located
  located-finds ref s provider_ref info h = elim (Reply-cases (available_version x adapter ref s)) [
    | inr (f, e) ↦ absurd (ground (arith, rw (e, located) at h))
    | inl (m, e) ↦ elim (Option-cases m.provider_ref) [
      | inl missing ↦ absurd (ground (arith, rw (e, missing, located) at h))
      | inr (r, found) ↦ elim (Reply-cases (checked_info x adapter r ref s.provider)) [
        | inr (f, e') ↦ absurd (ground (arith, rw (e, found, e', located) at h))
        | inl (i, e') ↦
            let same : (r ≡ provider_ref) × (i ≡ info) =
              ground (arith, rw (e, found, e', located) at h) in
            (
              (m, e),
              (ap (λ k. checked_info x adapter k ref s.provider) (sym same.0) ∙ e')
                  ∙ ap replied same.1,
            )
      ]
    ]
  ]

  -- With an adapter that is truthful, the bytes that `open` returns have the digest and the size of
  -- the reference, and that content is published under it.
  pub open_object-verified :
      (ref : ObjectVersionRef) (s : VersionedObjects P) (body : List ℕ)
      → IsTruthful
      → open_object x adapter ref s ≡ replied body
      → (x.sha256 body ≡ ref.sha256)
        × ((length body ≡ ref.size_bytes)
            × (published s.versions (ref.object_id, ref.version_id) ≡ some (named_content ref)))
  unfolding open_object
  open_object-verified ref s body truthful h = elim (Reply-cases (located x adapter ref s)) [
    | inr (f, e) ↦ absurd (ground (arith, rw (e, open_object) at h))
    | inl (r, e) ↦
        let opened : adapter.open_body r.0 s.provider ≡ replied body =
          ground (arith, rw (e, open_object) at h) in
        let ((m, on), checked) = located-finds ref s r.0 r.1 e in
        let (said, (digest, size)) = checked_info-matches r.0 ref s.provider r.1 checked in
        let (true_digest, true_size) = truthful r.0 s.provider r.1 body said opened in
        (true_digest ∙ digest, (true_size ∙ size, available_version-published ref s m on))
  ]
