-- ===== src/Objects/Runs.antt =====
-- Runs of `VersionedObjects` (src/umbral/application/objects/service.py): puts and reconciliations in
-- any order, over the same adapter.
use umbral.Prelude.{
  ℕ, String, List, [], ◌∷◌, Option, some, ◌≡◌, refl, nat_eq, pair_eq, string_eq, inl, inr,
  Bool-cases, Option-cases, keep,
}
use umbral.Prelude.Dict
use umbral.Objects.Contracts.{
  ObjectFault, version_conflict, integrity_error, not_found, invalid_state, value_error,
  other_error, ObjectVersionRef, ObjectVersionMetadata, Reply, replied, raised, ObjectStore,
}
use umbral.Objects.Repository.{Versions, mark_available, mark_failed}
use umbral.Objects.Service.{
  Outside, VersionedObjects, PutCall, put_key, normalize_content_type, ReconciliationResult, put,
}
use umbral.Objects.Reconcile.{
  none_yet, is_eligible, is_overdue, provider_ref_of, provider_info, count_failed, refused,
  reconcile_row, reconcile_rows, reconcile_pending,
}
use umbral.Objects.View.{
  Content, content_of, published, Published, Publications, nothing, and_then, Publications-keep,
}
use umbral.Objects.Replies.{Reply-cases}
use umbral.Objects.Publishing.{IsStored-published, mark_available-Publishes, mark_failed-Same}
use umbral.Objects.Puts.{offered, put-IsPut}

abbrev any_content : Content
any_content = record { sha256 = ""; size_bytes = 0; content_type = "" }

marked-Publications :
    (key : ℕ × ℕ) (ref : String) (version : Option String) (now : ℕ) (v : Versions)
    → Publications (published v) (published (mark_available key ref version now v).0)
unfolding mark_available
marked-Publications key ref version now v = elim (Option-cases (Dict.get key v)) [
  | inl absent ↦
      let left : (mark_available key ref version now v).0 ≡ v = rw (absent, mark_available) refl in
      rw (left) nothing
  | inr (a, present) ↦ and_then key (content_of a) nothing (
      mark_available-Publishes key ref version now (content_of a) v
        (record { row = a; stored = present; content = refl }))
]

appended : (u w z : Published) → Publications u w → Publications w z → Publications u z
appended u w _ run nothing = run
appended u w z run (and_then {w = y} key c before step) =
    and_then key c (appended u w y run before) step

module _ {P : Type 0} (x : Outside) (adapter : ObjectStore P) where
  module _ (now : ℕ) (max_age : Option ℕ) where
    abbrev IsRun : VersionedObjects P → VersionedObjects P × Reply ReconciliationResult → Type 0
    IsRun s (s', r) = Publications (published s.versions) (published s'.versions)

    count_failed-IsRun :
        (key : ℕ × ℕ) (code : String) (n : ReconciliationResult) (s : VersionedObjects P)
        → IsRun s (count_failed x adapter now max_age key code n s)
    unfolding count_failed
    count_failed-IsRun key code n s =
        elim (Reply-cases (mark_failed x.py_text key code s.versions)) [
          | inr (f, eq) ↦ rw (eq, count_failed) nothing
          | inl (w, eq) ↦
              rw (eq, count_failed)
                (and_then key any_content nothing
                  (inl (mark_failed-Same x.py_text key code s.versions w eq)))
        ]

    refused-IsRun :
        (key : ℕ × ℕ) (m : ObjectVersionMetadata) (f : ObjectFault) (n : ReconciliationResult)
        (s : VersionedObjects P)
        → IsRun s (refused x adapter now max_age key m f n s)
    unfolding refused
    refused-IsRun key m not_found n s = elim (Bool-cases (is_overdue now max_age m)) [
      | inl e ↦
          let left : refused x adapter now max_age key m not_found n s
              ≡ count_failed x adapter now max_age key "object.bytes_missing" n s =
            rw (e, refused) refl in
          rw (left) (count_failed-IsRun key "object.bytes_missing" n s)
      | inr e ↦ rw (e, refused) nothing
    ]
    refused-IsRun key m integrity_error n s = count_failed-IsRun key "object.bytes_conflict" n s
    refused-IsRun key m version_conflict n s = count_failed-IsRun key "object.bytes_conflict" n s
    refused-IsRun key m invalid_state n s = nothing
    refused-IsRun key m value_error n s = nothing
    refused-IsRun key m (other_error _) n s = nothing

    reconcile_row-IsRun :
        (key : ℕ × ℕ) (m : ObjectVersionMetadata) (n : ReconciliationResult)
        (s : VersionedObjects P)
        → IsRun s (reconcile_row x adapter now max_age key m n s)
    unfolding reconcile_row
    reconcile_row-IsRun key m n s = elim (Reply-cases (provider_ref_of x adapter now max_age m)) [
      | inr (f, eq) ↦ rw (eq, reconcile_row) nothing
      | inl (ref, eq) ↦ elim (Reply-cases (provider_info x adapter now max_age ref m s.provider)) [
        | inr (f, e) ↦
            let left : reconcile_row x adapter now max_age key m n s
                ≡ refused x adapter now max_age key m f n s =
              rw (eq, e, reconcile_row) refl in
            rw (left) (refused-IsRun key m f n s)
        | inl (info, e) ↦
            let run = marked-Publications key ref info.provider_version now s.versions in
            elim (Reply-cases (mark_available key ref info.provider_version now s.versions).1) [
              | inr (f, done) ↦ rw (eq, e, done, reconcile_row) run
              | inl (m', done) ↦ rw (eq, e, done, reconcile_row) run
            ]
      ]
    ]

    reconcile_rows-IsRun :
        (rows : List ((ℕ × ℕ) × ObjectVersionMetadata)) (n : ReconciliationResult)
        (s : VersionedObjects P)
        → IsRun s (reconcile_rows x adapter now max_age rows n s)
    unfolding reconcile_rows
    reconcile_rows-IsRun [] n s = nothing
    reconcile_rows-IsRun ((key, m) ∷ rest) n s =
        let row = reconcile_row x adapter now max_age key m n s in
        let run = reconcile_row-IsRun key m n s in
        elim (Reply-cases row.1) [
          | inr (f, e) ↦ rw (e, reconcile_rows) run
          | inl (n', e) ↦
              rw (e, reconcile_rows)
                (appended (published s.versions) (published row.0.versions)
                  (published (reconcile_rows x adapter now max_age rest n' row.0).0.versions) run
                  (reconcile_rows-IsRun rest n' row.0))
        ]

  put-IsRun :
      (q : PutCall) (s : VersionedObjects P)
      → Publications (published s.versions) (published (put x adapter q s).0.versions)
  unfolding put
  put-IsRun q s = elim (Reply-cases (normalize_content_type x.py_text q.request.content_type)) [
    | inr (f, e) ↦
        let left : put x adapter q s ≡ (s, raised f) = rw (e, put) refl in rw (left) nothing
    | inl (media, e) ↦
        and_then (put_key q) (offered x adapter media q) nothing (put-IsPut x adapter media q s e).0
  ]

  -- Puts, reconciliations, and whatever becomes of the provider's objects, in any order.
  pub data ObjectRun (s : VersionedObjects P) : VersionedObjects P → Type 0 where
    idle : ObjectRun s s
    provider_changed :
        {r : VersionedObjects P} (p : P) → ObjectRun s r → ObjectRun s (record r { provider = p })
    after_put :
        {r : VersionedObjects P} (q : PutCall) → ObjectRun s r → ObjectRun s (put x adapter q r).0
    after_reconciliation :
        {r : VersionedObjects P} (now : ℕ) (max_age : Option ℕ)
        → ObjectRun s r
        → ObjectRun s (reconcile_pending x adapter now max_age r).0

  -- Every run of the service is one of the abstract store, which only ever publishes contents where
  -- none is published: no put, reconciliation or loss of bytes changes or takes back a published
  -- content.
  pub ObjectRun-Publications :
      (s z : VersionedObjects P)
      → ObjectRun s z
      → Publications (published s.versions) (published z.versions)
  unfolding reconcile_pending
  ObjectRun-Publications s _ idle = nothing
  ObjectRun-Publications s _ (provider_changed {r} p run) = ObjectRun-Publications s r run
  ObjectRun-Publications s _ (after_put {r} q run) =
      appended (published s.versions) (published r.versions)
        (published (put x adapter q r).0.versions) (ObjectRun-Publications s r run) (put-IsRun q r)
  ObjectRun-Publications s _ (after_reconciliation {r} now max_age run) =
      appended (published s.versions) (published r.versions)
        (published (reconcile_pending x adapter now max_age r).0.versions)
        (ObjectRun-Publications s r run)
        (reconcile_rows-IsRun now max_age
          (keep (λ entry. is_eligible now max_age entry.1) r.versions) none_yet r)

  -- A put with an accepted content type that returns has published the digest and size of its own
  -- body, and they are what is published under its key after any further run.
  pub put-stays_published :
      (q : PutCall) (media : String) (s z : VersionedObjects P) (ref : ObjectVersionRef)
      → normalize_content_type x.py_text q.request.content_type ≡ replied media
      → (put x adapter q s).1 ≡ replied ref
      → ObjectRun (put x adapter q s).0 z
      → published z.versions (put_key q) ≡ some (offered x adapter media q)
  put-stays_published q media s z ref accepted returned run =
      let c = offered x adapter media q in
      let at = ((put-IsPut x adapter media q s accepted).1 ref returned).1 in
      Publications-keep (put_key q) c (published (put x adapter q s).0.versions)
        (published z.versions) (ObjectRun-Publications (put x adapter q s).0 z run)
        (IsStored-published x.py_text (put_key q) c ref (put x adapter q s).0.versions at)
