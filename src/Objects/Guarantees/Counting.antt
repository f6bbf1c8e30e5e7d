-- ===== src/Objects/Guarantees/Counting.antt =====
-- The counts that a reconciliation returns (src/umbral/application/objects/service.py,
-- `reconcile_pending`).
use umbral.Prelude.{
  ℕ, ◌+◌, String, true, List, [], ◌∷◌, Option, some, ◌≡◌, refl, ◌∙◌, nat_eq, pair_eq, string_eq,
  inl, inr, Bool-cases, arith, length, keep,
}
use umbral.Objects.Contracts.{
  ObjectFault, version_conflict, integrity_error, not_found, invalid_state, value_error,
  other_error, ObjectVersionMetadata, replied, ObjectStore,
}
use umbral.Objects.Repository.{mark_available, mark_failed}
use umbral.Objects.Service.{Outside, VersionedObjects, ReconciliationResult}
use umbral.Objects.Reconcile.{
  none_yet, is_eligible, is_young, is_overdue, provider_ref_of, provider_info, count_failed,
  refused, reconcile_row, reconcile_rows, reconcile_pending,
}
use umbral.Objects.Replies.{Reply-cases}

abbrev pub scanned : ReconciliationResult → ℕ
scanned n = n.completed + n.failed + n.pending

module _ {P : Type 0} (x : Outside) (adapter : ObjectStore P) (now : ℕ) (max_age : Option ℕ) where
  count_failed-scanned :
      (key : ℕ × ℕ) (code : String) (n n' : ReconciliationResult) (s : VersionedObjects P)
      → (count_failed x adapter now max_age key code n s).1 ≡ replied n'
      → (scanned n' ≡ scanned n + 1) × (n'.pending ≡ n.pending)
  unfolding count_failed
  count_failed-scanned key code n n' s h =
      elim (Reply-cases (mark_failed x.py_text key code s.versions)) [
        | inr (f, e) ↦ absurd (ground (arith, rw (e, count_failed) at h))
        | inl (w, e) ↦ ground (arith, rw (e, count_failed) at h)
      ]

  refused-scanned :
      (key : ℕ × ℕ) (m : ObjectVersionMetadata) (f : ObjectFault) (n n' : ReconciliationResult)
      (s : VersionedObjects P)
      → (refused x adapter now max_age key m f n s).1 ≡ replied n'
      → (scanned n' ≡ scanned n + 1) × (is_overdue now max_age m ≡ true → n'.pending ≡ n.pending)
  unfolding refused
  refused-scanned key m not_found n n' s h = elim (Bool-cases (is_overdue now max_age m)) [
    | inl e ↦
        let (t, p) =
          count_failed-scanned key "object.bytes_missing" n n' s (rw (e, refused) at h) in
        (t, λ _. p)
    | inr e ↦ ground (arith, e, rw (e, refused) at h)
  ]
  refused-scanned key m integrity_error n n' s h =
      let (t, p) = count_failed-scanned key "object.bytes_conflict" n n' s h in (t, λ _. p)
  refused-scanned key m version_conflict n n' s h =
      let (t, p) = count_failed-scanned key "object.bytes_conflict" n n' s h in (t, λ _. p)
  refused-scanned key m invalid_state n n' s h = absurd (ground (arith, h))
  refused-scanned key m value_error n n' s h = absurd (ground (arith, h))
  refused-scanned key m (other_error _) n n' s h = absurd (ground (arith, h))

  reconcile_row-scanned :
      (key : ℕ × ℕ) (m : ObjectVersionMetadata) (n n' : ReconciliationResult)
      (s : VersionedObjects P)
      → (reconcile_row x adapter now max_age key m n s).1 ≡ replied n'
      → (scanned n' ≡ scanned n + 1) × (is_overdue now max_age m ≡ true → n'.pending ≡ n.pending)
  unfolding reconcile_row
  reconcile_row-scanned key m n n' s h =
      elim (Reply-cases (provider_ref_of x adapter now max_age m)) [
        | inr (f, eq) ↦ absurd (ground (arith, rw (eq, reconcile_row) at h))
        | inl (ref, eq) ↦
            elim (Reply-cases (provider_info x adapter now max_age ref m s.provider)) [
              | inr (f, e) ↦ refused-scanned key m f n n' s (rw (eq, e, reconcile_row) at h)
              | inl (info, e) ↦
                  elim (Reply-cases
                    (mark_available key ref info.provider_version now s.versions).1) [
                      | inr (f, done) ↦
                          absurd (ground (arith, rw (eq, e, done, reconcile_row) at h))
                      | inl (m', done) ↦ ground (arith, rw (eq, e, done, reconcile_row) at h)
                    ]
            ]
      ]

  overdue_unless_young :
      (m : ObjectVersionMetadata) (age : ℕ)
      → max_age ≡ some age
      → is_eligible now max_age m ≡ true
      → is_overdue now max_age m ≡ true
  unfolding is_eligible is_young is_overdue
  overdue_unless_young m age given h =
      unfold is_eligible is_young is_overdue in
      rw (given) (ground (arith, rw (given, is_eligible, is_young) at h))

  reconcile_rows-scanned :
      (entries : List ((ℕ × ℕ) × ObjectVersionMetadata)) (n n' : ReconciliationResult)
      (s : VersionedObjects P)
      → (reconcile_rows x adapter now max_age
          (keep (λ e. is_eligible now max_age e.1) entries)
          n
          s).1
        ≡ replied n'
      → (scanned n' ≡ scanned n + length (keep (λ e. is_eligible now max_age e.1) entries))
        × ((age : ℕ) → max_age ≡ some age → n'.pending ≡ n.pending)
  unfolding reconcile_rows keep
  reconcile_rows-scanned [] n n' s h =
      let same : n ≡ n' = ground (arith, h) in
      (rw (same) (ground arith), λ age given. rw (same) refl)
  reconcile_rows-scanned ((key, m) ∷ rest) n n' s h =
      elim (Bool-cases (is_eligible now max_age m)) [
        | inr skipped ↦
            rw (skipped, keep) (reconcile_rows-scanned rest n n' s (rw (skipped, keep) at h))
        | inl taken ↦
            let row = reconcile_row x adapter now max_age key m n s in
            elim (Reply-cases row.1) [
              | inr (f, e) ↦ absurd (ground (arith, rw (taken, e, keep, reconcile_rows) at h))
              | inl (n1, e) ↦
                  let (t, p) = reconcile_row-scanned key m n n1 s e in
                  let (ts, ps) =
                    reconcile_rows-scanned rest n1 n' row.0
                      (rw (taken, e, keep, reconcile_rows) at h) in
                  (
                    rw (taken, keep) (ground (arith, t, ts)),
                    λ age given. ps age given ∙ p (overdue_unless_young m age given taken),
                  )
            ]
      ]

  -- A reconciliation that returns has counted each eligible version once, as completed, failed or
  -- pending; and with a maximal age it has decided all of them, so that it counts none as pending.
  pub reconcile_pending-counts :
      (s : VersionedObjects P) (n : ReconciliationResult)
      → (reconcile_pending x adapter now max_age s).1 ≡ replied n
      → (scanned n ≡ length (keep (λ e. is_eligible now max_age e.1) s.versions))
        × ((age : ℕ) → max_age ≡ some age → n.pending ≡ 0)
  unfolding reconcile_pending
  reconcile_pending-counts s n h =
      let (t, p) = reconcile_rows-scanned s.versions none_yet n s h in (ground (arith, t), p)
