-- ===== src/Objects/Publishing.antt =====
-- The operations of the repository as steps of the abstract store
-- (src/umbral/application/objects/service.py, `InMemoryObjectMetadataRepository`).
use umbral.Prelude.{
  ℕ, String, true, false, Option, none, some, ◌≡◌, refl, ap, ◌∙◌, sym, nat_eq, pair_eq, string_eq,
  inl, inr, Bool-cases, Option-cases, arith,
}
use umbral.Prelude.Dict
use umbral.Prelude.Dict.{Dict, get-set, get-set_self}
use umbral.Text.{PyText}
use umbral.Objects.Contracts.{ObjectVersionMetadata, replied, ObjectVersionRef, metadata_ref}
use umbral.Objects.Repository.{
  Versions, is_available, same_content, create_pending, made_available, availability,
  mark_available, made_failed, mark_failed,
}
use umbral.Objects.View.{
  Content, content_of, seen, published, Same, Publishes, Same-set, Publishes-set,
}
use umbral.Objects.Replies.{Reply-cases}

-- The row that a key has, whatever its state, and its content.
pub record HasContent (key : ℕ × ℕ) (c : Content) (v : Versions) : Type 0 where
  pub row : ObjectVersionMetadata
  pub stored : Dict.get key v ≡ some row
  pub content : content_of row ≡ c

pub create_pending-Same :
    (key : ℕ × ℕ) (m : ObjectVersionMetadata) (v w : Versions)
    → is_available m.state ≡ false
    → create_pending key m v ≡ replied w
    → Same (published v) (published w)
unfolding create_pending seen
create_pending-Same key m v w hidden h = elim (Option-cases (Dict.get key v)) [
  | inl absent ↦
      let e : Dict.set key m v ≡ w = ground (arith, rw (absent, create_pending) at h) in
      rw⁻¹ e (Same-set key m v (rw (absent, hidden, seen) refl))
  | inr (a, present) ↦
      let e : v ≡ w = ground (arith, rw (present, create_pending) at h) in rw⁻¹ e (λ k. refl)
]

pub same_content-content_of :
    (a m : ObjectVersionMetadata)
    → same_content a m.sha256 m.size_bytes m.content_type ≡ true
    → content_of a ≡ content_of m
unfolding same_content content_of
same_content-content_of a m h = ground (
  arith,
  h,
  string_eq.same_iff a.sha256 m.sha256,
  nat_eq.same_iff a.size_bytes m.size_bytes,
  string_eq.same_iff a.content_type m.content_type,
)

pub create_pending-HasContent :
    (key : ℕ × ℕ) (m : ObjectVersionMetadata) (v w : Versions)
    → create_pending key m v ≡ replied w
    → HasContent key (content_of m) w
unfolding create_pending
create_pending-HasContent key m v w h = elim (Option-cases (Dict.get key v)) [
  | inl absent ↦
      let e : Dict.set key m v ≡ w = ground (arith, rw (absent, create_pending) at h) in
      rw⁻¹ e (record { row = m; stored = get-set_self key m v; content = refl })
  | inr (a, present) ↦ elim (Bool-cases (same_content a m.sha256 m.size_bytes m.content_type)) [
    | inl same ↦
        let e : v ≡ w = ground (arith, rw (present, same, create_pending) at h) in
        rw⁻¹ e (record { row = a; stored = present; content = same_content-content_of a m same })
    | inr other ↦ absurd (ground (arith, rw (present, other, create_pending) at h))
  ]
]

availability-seen :
    (ref : String) (version : Option String) (now : ℕ) (m m' : ObjectVersionMetadata)
    → availability ref version now m ≡ replied m'
    → seen (some m') ≡ some (content_of m)
unfolding availability seen content_of made_available is_available
availability-seen ref version now m m' h = ground (arith, h)

-- Nothing becomes visible that the row did not say.
pub mark_available-Publishes :
    (key : ℕ × ℕ) (ref : String) (version : Option String) (now : ℕ) (c : Content) (v : Versions)
    → HasContent key c v
    → Publishes key c (published v) (published (mark_available key ref version now v).0)
unfolding mark_available
mark_available-Publishes key ref version now c v has =
    elim (Reply-cases (availability ref version now has.row)) [
      | inr (f, eq) ↦ rw (has.stored, eq, mark_available) (inl (λ k. refl))
      | inl (m', eq) ↦
          let left : (mark_available key ref version now v).0 ≡ Dict.set key m' v =
            rw (has.stored, eq, mark_available) refl in
          let visible : seen (some m') ≡ some c =
            availability-seen ref version now has.row m' eq ∙ ap some has.content in
          rw (left) (elim (Bool-cases (is_available has.row.state)) [
            | inl on ↦
                let before : published v key ≡ some c =
                  ap seen has.stored ∙ (unfold seen in rw (on) (ap some has.content)) in
                inl (Same-set key m' v (visible ∙ sym before))
            | inr off ↦
                let before : published v key ≡ none =
                  ap seen has.stored ∙ (unfold seen in rw (off) refl) in
                Publishes-set key m' c v before visible
          ])
    ]

-- The version is available with this content, and is what a reference names.
pub record IsStored (t : PyText) (key : ℕ × ℕ) (c : Content) (ref : ObjectVersionRef) (v : Versions)
    : Type 0 where
  pub row : ObjectVersionMetadata
  pub stored : Dict.get key v ≡ some row
  pub available : is_available row.state ≡ true
  pub content : content_of row ≡ c
  pub named : metadata_ref t row ≡ replied ref

pub IsStored-published :
    (t : PyText) (key : ℕ × ℕ) (c : Content) (ref : ObjectVersionRef) (v : Versions)
    → IsStored t key c ref v
    → published v key ≡ some c
unfolding seen
IsStored-published t key c ref v s = ap seen s.stored ∙ (rw (s.available, seen) (ap some s.content))

availability-row :
    (ref : String) (version : Option String) (now : ℕ) (m m' : ObjectVersionMetadata)
    → availability ref version now m ≡ replied m'
    → (is_available m'.state ≡ true) × (content_of m' ≡ content_of m)
unfolding availability content_of made_available is_available
availability-row ref version now m m' h = ground (arith, h)

pub mark_available-IsStored :
    (t : PyText) (key : ℕ × ℕ) (provider_ref : String) (version : Option String) (now : ℕ)
    (c : Content) (v : Versions) (m : ObjectVersionMetadata) (ref : ObjectVersionRef)
    → HasContent key c v
    → (mark_available key provider_ref version now v).1 ≡ replied m
    → metadata_ref t m ≡ replied ref
    → IsStored t key c ref (mark_available key provider_ref version now v).0
unfolding mark_available
mark_available-IsStored t key provider_ref version now c v m ref has h names =
    elim (Reply-cases (availability provider_ref version now has.row)) [
      | inr (f, eq) ↦ absurd (ground (arith, rw (has.stored, eq, mark_available) at h))
      | inl (m', eq) ↦
          let same : m' ≡ m = ground (arith, rw (has.stored, eq, mark_available) at h) in
          let left : (mark_available key provider_ref version now v).0 ≡ Dict.set key m' v =
            rw (has.stored, eq, mark_available) refl in
          let (on, kept) = availability-row provider_ref version now has.row m' eq in
          rw (left) (record {
            row = m';
            stored = get-set_self key m' v;
            available = on;
            content = kept ∙ has.content;
            named = rw (same) names;
          })
    ]

pub mark_failed-Same :
    (t : PyText) (key : ℕ × ℕ) (code : String) (v w : Versions)
    → mark_failed t key code v ≡ replied w
    → Same (published v) (published w)
unfolding mark_failed
mark_failed-Same t key code v w h = elim (Option-cases (Dict.get key v)) [
  | inl absent ↦ absurd (ground (arith, rw (absent, mark_failed) at h))
  | inr (m, present) ↦
      let e : Dict.set key (made_failed t code m) v ≡ w =
        ground (arith, rw (present, mark_failed) at h) in
      rw⁻¹ e (
        Same-set key (made_failed t code m) v
          (unfold made_failed seen is_available in rw (present) (ground arith)))
]
