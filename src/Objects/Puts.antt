-- ===== src/Objects/Puts.antt =====
-- `VersionedObjects.put` (src/umbral/application/objects/service.py) as a step of the abstract store.
use umbral.Prelude.{
  String, true, Option, none, some, ◌≡◌, refl, ap, ◌∙◌, nat_eq, pair_eq, string_eq, inl, inr,
  Bool-cases, Option-cases, arith, length,
}
use umbral.Prelude.Dict
use umbral.Objects.Contracts.{
  ObjectFault, version_conflict, integrity_error, invalid_state, ObjectVersionRef, ObjectInfo,
  ObjectVersionMetadata, Reply, replied, raised, ObjectStore, metadata_ref,
}
use umbral.Objects.Repository.{
  is_available, is_failed, same_content, create_pending, mark_available, mark_failed,
}
use umbral.Objects.Service.{
  Outside, VersionedObjects, PutCall, put_key, is_conflict, failure_code, normalize_content_type,
  declared_digest, declared_size, is_honest, new_version, upload, upload_failed, uploaded,
  after_upload, put_new, put_existing, put,
}
use umbral.Objects.View.{Content, content_of, published, Publishes, Publishes-Same}
use umbral.Objects.Replies.{Reply-cases}
use umbral.Objects.Publishing.{
  HasContent, create_pending-Same, create_pending-HasContent, same_content-content_of,
  mark_available-Publishes, IsStored, mark_available-IsStored, mark_failed-Same,
}

module _ {P : Type 0} (x : Outside) (adapter : ObjectStore P) where
  -- What a request offers: the digest and the size of its body itself.
  abbrev pub offered : String → PutCall → Content
  offered media q = record {
    sha256 = x.sha256 q.request.body;
    size_bytes = length q.request.body;
    content_type = media;
  }

  -- A step that publishes at most what the request offers, and that has done so when it returns.
  abbrev pub IsPut :
      PutCall → Content → VersionedObjects P → VersionedObjects P × Reply ObjectVersionRef → Type 0
  IsPut q c s (s', r) =
      Publishes (put_key q) c (published s.versions) (published s'.versions)
      × ((ref : ObjectVersionRef)
          → r ≡ replied ref
          → (is_honest x adapter q ≡ true) × IsStored x.py_text (put_key q) c ref s'.versions)

  refusal-IsPut :
      (q : PutCall) (c : Content) (s : VersionedObjects P) (f : ObjectFault)
      (z : VersionedObjects P × Reply ObjectVersionRef)
      → z ≡ (s, raised f)
      → IsPut q c s z
  refusal-IsPut q c s f z e = rw (e) (inl (λ k. refl), λ ref h. absurd (ground (arith, h)))

  upload_failed-IsPut :
      (q : PutCall) (c : Content) (f : ObjectFault) (s : VersionedObjects P)
      → IsPut q c s (upload_failed x adapter q f s)
  unfolding upload_failed
  upload_failed-IsPut q c f s = elim (Bool-cases (is_conflict f)) [
    | inl e ↦ refusal-IsPut q c s f (upload_failed x adapter q f s) (rw (e, upload_failed) refl)
    | inr e ↦ elim (Reply-cases (mark_failed x.py_text (put_key q) (failure_code f) s.versions)) [
      | inr (g, eq) ↦
          refusal-IsPut q c s g (upload_failed x adapter q f s) (rw (e, eq, upload_failed) refl)
      | inl (w, eq) ↦
          rw (e, eq, upload_failed)
            (
              inl (mark_failed-Same x.py_text (put_key q) (failure_code f) s.versions w eq),
              λ ref h. absurd (ground (arith, h)),
            )
    ]
  ]

  uploaded-IsPut :
      (q : PutCall) (c : Content) (r : String × ObjectInfo) (s : VersionedObjects P)
      → is_honest x adapter q ≡ true
      → HasContent (put_key q) c s.versions
      → IsPut q c s (uploaded x adapter q r s)
  unfolding uploaded
  uploaded-IsPut q c (ref, info) s honest has =
      let marked =
        mark_available (put_key q) ref info.provider_version q.readings.available_at s.versions in
      let step : Publishes (put_key q) c (published s.versions) (published marked.0) =
        mark_available-Publishes (put_key q) ref info.provider_version q.readings.available_at c
          s.versions has in
      elim (Reply-cases marked.1) [
        | inr (f, eq) ↦ rw (eq, uploaded) (step, λ ref h. absurd (ground (arith, h)))
        | inl (m, eq) ↦
            rw (eq, uploaded)
              (
                step,
                λ named h. (
                  honest,
                  mark_available-IsStored x.py_text (put_key q) ref info.provider_version
                      q.readings.available_at c s.versions m named has eq h,
                ),
              )
      ]

  after_upload-IsPut :
      (q : PutCall) (c : Content) (p : P) (r : Reply (String × ObjectInfo)) (s : VersionedObjects P)
      → is_honest x adapter q ≡ true
      → HasContent (put_key q) c s.versions
      → IsPut q c s (after_upload x adapter q (p, r) s)
  unfolding after_upload
  after_upload-IsPut q c p (raised f) s honest has =
      upload_failed-IsPut q c f (record s { provider = p })
  after_upload-IsPut q c p (replied r) s honest has =
      uploaded-IsPut q c r (record s { provider = p }) honest has

  honest_content :
      (media : String) (q : PutCall)
      → is_honest x adapter q ≡ true
      → content_of (new_version x adapter media q) ≡ offered media q
  unfolding is_honest content_of new_version
  honest_content media q h = ground (
    arith,
    h,
    string_eq.same_iff (declared_digest x adapter q) (x.sha256 q.request.body),
    nat_eq.same_iff (declared_size x adapter q) (length q.request.body),
  )

  pub put_new-IsPut :
      (media : String) (q : PutCall) (s : VersionedObjects P)
      → IsPut q (offered media q) s (put_new x adapter media q s)
  unfolding put_new
  put_new-IsPut media q s = elim (Bool-cases (is_honest x adapter q)) [
    | inr e ↦
        refusal-IsPut q (offered media q) s integrity_error (put_new x adapter media q s)
          (rw (e, put_new) refl)
    | inl e ↦
        elim (Reply-cases (create_pending (put_key q) (new_version x adapter media q) s.versions)) [
          | inr (f, eq) ↦
              refusal-IsPut q (offered media q) s f (put_new x adapter media q s)
                (rw (e, eq, put_new) refl)
          | inl (w, eq) ↦
              let has : HasContent (put_key q) (offered media q) w =
                rw (honest_content media q e) at (
                  create_pending-HasContent (put_key q) (new_version x adapter media q) s.versions w
                    eq) in
              let u = upload x adapter media q s.provider in
              let step =
                after_upload-IsPut q (offered media q) u.0 u.1 (record s { versions = w }) e has in
              let left : put_new x adapter media q s
                  ≡ after_upload x adapter q u (record s { versions = w }) =
                rw (e, eq, put_new) refl in
              rw (left) (
                Publishes-Same (put_key q) (offered media q) (published s.versions) (published w)
                    (published (after_upload x adapter q u (record s { versions = w })).0.versions)
                    (create_pending-Same (put_key q) (new_version x adapter media q) s.versions w
                      refl eq)
                    step.0,
                step.1,
              )
        ]
  ]

  put_existing-IsPut :
      (media : String) (q : PutCall) (a : ObjectVersionMetadata) (s : VersionedObjects P)
      → Dict.get (put_key q) s.versions ≡ some a
      → IsPut q (offered media q) s (put_existing x adapter media q a s)
  unfolding put_existing
  put_existing-IsPut media q a s at =
      let key = put_key q in
      let c = offered media q in
      elim (Bool-cases
        (same_content a (declared_digest x adapter q) (declared_size x adapter q) media)) [
          | inr other ↦
              refusal-IsPut q c s version_conflict (put_existing x adapter media q a s)
                (rw (other, put_existing) refl)
          | inl same ↦ elim (Bool-cases (is_honest x adapter q)) [
            | inr dishonest ↦
                refusal-IsPut q c s version_conflict (put_existing x adapter media q a s)
                  (rw (same, dishonest, put_existing) refl)
            | inl honest ↦ elim (Bool-cases (is_available a.state)) [
              | inl on ↦
                  let content : content_of a ≡ c =
                    same_content-content_of a (new_version x adapter media q)
                      (unfold new_version in same)
                    ∙ honest_content media q honest in
                  let left : put_existing x adapter media q a s ≡ (s, metadata_ref x.py_text a) =
                    rw (same, honest, on, put_existing) refl in
                  rw (left) (
                    inl (λ k. refl),
                    λ ref h. (
                      honest,
                      record { row = a; stored = at; available = on; content = content; named = h },
                    ),
                  )
              | inr off ↦ elim (Bool-cases (is_failed a.state)) [
                | inl e ↦
                    refusal-IsPut q c s invalid_state (put_existing x adapter media q a s)
                      (rw (same, honest, off, e, put_existing) refl)
                | inr e ↦
                    let left : put_existing x adapter media q a s ≡ put_new x adapter media q s =
                      unfold put_new in rw (same, honest, off, e, put_existing) refl in
                    rw (left) (put_new-IsPut media q s)
              ]
            ]
          ]
        ]

  abbrev found_or_new :
      String
      → PutCall
      → VersionedObjects P
      → Option ObjectVersionMetadata
      → VersionedObjects P × Reply ObjectVersionRef
  found_or_new media q s none = put_new x adapter media q s
  found_or_new media q s (some a) = put_existing x adapter media q a s

  -- With an accepted content type `media`, a put publishes at most the content of its own body, under
  -- its own key and only where nothing is published; and when it returns, that content is published.
  pub put-IsPut :
      (media : String) (q : PutCall) (s : VersionedObjects P)
      → normalize_content_type x.py_text q.request.content_type ≡ replied media
      → IsPut q (offered media q) s (put x adapter q s)
  unfolding put
  put-IsPut media q s accepted = elim (Option-cases (Dict.get (put_key q) s.versions)) [
    | inl absent ↦
        let left : put x adapter q s ≡ put_new x adapter media q s =
          rw (accepted, put) (ap (found_or_new media q s) absent) in
        rw (left) (put_new-IsPut media q s)
    | inr (a, present) ↦
        let left : put x adapter q s ≡ put_existing x adapter media q a s =
          rw (accepted, put) (ap (found_or_new media q s) present) in
        rw (left) (put_existing-IsPut media q a s present)
  ]
