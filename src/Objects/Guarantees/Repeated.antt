-- ===== src/Objects/Guarantees/Repeated.antt =====
-- A put that is repeated (src/umbral/application/objects/service.py, `put`).
use umbral.Prelude.{
  ℕ, Option, String, true, ◌≡◌, ap, nat_eq, pair_eq, string_eq, inl, inr, arith, length,
}
use umbral.Objects.Contracts.{ObjectVersionRef, ObjectVersionMetadata, replied, ObjectStore}
use umbral.Objects.Repository.{same_content}
use umbral.Objects.Service.{
  Outside, VersionedObjects, PutCall, Readings, put_key, normalize_content_type, is_honest, put,
  put_existing, declared_digest, declared_size,
}
use umbral.Objects.View.{content_of}
use umbral.Objects.Replies.{Reply-cases}
use umbral.Objects.Publishing.{IsStored}
use umbral.Objects.Puts.{offered, put-IsPut}

module _ {P : Type 0} (x : Outside) (adapter : ObjectStore P) where
  offered-same_content :
      (media : String) (q : PutCall) (a : ObjectVersionMetadata)
      → is_honest x adapter q ≡ true
      → content_of a ≡ offered x adapter media q
      → same_content a (declared_digest x adapter q) (declared_size x adapter q) media ≡ true
  unfolding is_honest same_content content_of
  offered-same_content media q a honest content = ground (
    arith,
    honest,
    content,
    string_eq.same_iff (declared_digest x adapter q) (x.sha256 q.request.body),
    nat_eq.same_iff (declared_size x adapter q) (length q.request.body),
    string_eq.same_iff a.sha256 (declared_digest x adapter q),
    nat_eq.same_iff a.size_bytes (declared_size x adapter q),
    string_eq.same_iff a.content_type media,
  )

  stored-put :
      (media : String) (q : PutCall) (s : VersionedObjects P) (ref : ObjectVersionRef)
      → normalize_content_type x.py_text q.request.content_type ≡ replied media
      → is_honest x adapter q ≡ true
      → IsStored x.py_text (put_key q) (offered x adapter media q) ref s.versions
      → put x adapter q s ≡ (s, replied ref)
  unfolding put put_existing
  stored-put media q s ref accepted honest at =
      rw
        (
          accepted,
          at.stored,
          offered-same_content media q at.row honest at.content,
          honest,
          at.available,
          put,
          put_existing,
        )
        (ap (λ r. (s, r)) at.named)

  -- A put that has returned can be repeated: a second put of the same identifiers, body, declared digest
  -- and size, and content type returns the same reference and changes nothing, the provider's state
  -- included, whatever its purpose, its correlation id, its time and what it generates.
  pub put-repeated :
      (q : PutCall) (purpose : String) (correlation_id : Option ℕ) (readings : Readings)
      (s : VersionedObjects P) (ref : ObjectVersionRef)
      → (put x adapter q s).1 ≡ replied ref
      → let request = record q.request { purpose = purpose; correlation_id = correlation_id } in
        put x adapter (record { request = request; readings = readings }) (put x adapter q s).0
        ≡ ((put x adapter q s).0, replied ref)
  unfolding put
  put-repeated q purpose correlation_id readings s ref returned =
      let request = record q.request { purpose = purpose; correlation_id = correlation_id } in
      elim (Reply-cases (normalize_content_type x.py_text q.request.content_type)) [
        | inr (f, e) ↦ absurd (ground (arith, rw (e, put) at returned))
        | inl (media, e) ↦
            let (honest, at) = (put-IsPut x adapter media q s e).1 ref returned in
            stored-put media (record { request = request; readings = readings })
              (put x adapter q s).0 ref e (unfold is_honest declared_digest declared_size in honest)
              at
      ]
