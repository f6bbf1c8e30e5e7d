-- ===== src/Objects/View.antt =====
-- What a client of the objects may know: the content of each published version
-- (src/umbral/application/objects/service.py, `VersionedObjects`). This is the abstract store that the
-- metadata rows implement; a row that is pending or failed is not seen in it.
use umbral.Prelude.{
  ℕ, String, Option, none, some, ◌≡◌, refl, ap, ◌∙◌, sym, ◌==◌, nat_eq, pair_eq, ◌⊎◌, inl, inr,
  Bool-cases, pair_beq_iff, if◌then◌else◌, arith,
}
use umbral.Prelude.Dict
use umbral.Prelude.Dict.{Dict, get-set}
use umbral.Objects.Contracts.{ObjectVersionMetadata}
use umbral.Objects.Repository.{Versions, is_available}

-- The properties that a version has from its creation on.
pub record Content : Type 0 where
  pub sha256 : String
  pub size_bytes : ℕ
  pub content_type : String

unfoldable pub content_of : ObjectVersionMetadata → Content
content_of m = record {
  sha256 = m.sha256;
  size_bytes = m.size_bytes;
  content_type = m.content_type;
}

unfoldable pub seen : Option ObjectVersionMetadata → Option Content
unfolding is_available content_of
seen none = none
seen (some m) = if is_available m.state then some (content_of m) else none

abbrev pub Published : Type 0
Published = ℕ × ℕ → Option Content

abbrev pub published : Versions → Published
published versions key = seen (Dict.get key versions)

abbrev pub Same : Published → Published → Type 0
Same u w = (k : ℕ × ℕ) → w k ≡ u k

-- A step of the abstract store: nothing is seen of it, or one content is published where none was.
abbrev pub Publishes : ℕ × ℕ → Content → Published → Published → Type 0
Publishes key c u w =
    Same u w ⊎ ((u key ≡ none) × ((k : ℕ × ℕ) → w k ≡ (if key == k then some c else u k)))

-- Its runs.
pub data Publications (u : Published) : Published → Type 0 where
  nothing : Publications u u
  and_then :
      {w z : Published} (key : ℕ × ℕ) (c : Content)
      → Publications u w
      → Publishes key c w z
      → Publications u z

pub Publishes-Same :
    (key : ℕ × ℕ) (c : Content) (u w z : Published)
    → Same u w
    → Publishes key c w z
    → Publishes key c u z
Publishes-Same key c u w z same (inl stays) = inl (λ k. stays k ∙ same k)
Publishes-Same key c u w z same (inr (before, after)) = inr (
  sym (same key) ∙ before,
  λ k. elim (Bool-cases (key == k)) [
    | inl e ↦ rw (e) (rw (e) at (after k))
    | inr e ↦ rw (e) (rw (e) at (after k) ∙ same k)
  ],
)

-- What is published stays as it is.
pub Publishes-keeps :
    (key k : ℕ × ℕ) (c d : Content) (u w : Published)
    → Publishes key c u w
    → u k ≡ some d
    → w k ≡ some d
Publishes-keeps key k c d u w (inl stays) h = stays k ∙ h
Publishes-keeps key k c d u w (inr (before, after)) h = elim (Bool-cases (key == k)) [
  | inl e ↦
      let moved : u key ≡ u k = ap u ((pair_beq_iff key k).0 e) in
      absurd (ground (arith, before, moved, h))
  | inr e ↦ (rw (e) at (after k)) ∙ h
]

pub Publications-keep :
    (k : ℕ × ℕ) (d : Content) (u w : Published) → Publications u w → u k ≡ some d → w k ≡ some d
Publications-keep k d u _ nothing h = h
Publications-keep k d u z (and_then {w} key c before step) h =
    Publishes-keeps key k c d w z step (Publications-keep k d u w before h)

-- A write of a row that is not seen, where none is.
pub Same-set :
    (key : ℕ × ℕ) (m : ObjectVersionMetadata) (v : Versions)
    → seen (some m) ≡ published v key
    → Same (published v) (published (Dict.set key m v))
Same-set key m v h k = elim (Bool-cases (key == k)) [
  | inl e ↦ rw (get-set key k m v, e) (h ∙ ap (published v) ((pair_beq_iff key k).0 e))
  | inr e ↦ rw (get-set key k m v, e) refl
]

-- A write of an available row, where none is.
pub Publishes-set :
    (key : ℕ × ℕ) (m : ObjectVersionMetadata) (c : Content) (v : Versions)
    → published v key ≡ none
    → seen (some m) ≡ some c
    → Publishes key c (published v) (published (Dict.set key m v))
Publishes-set key m c v before after = inr (
  before,
  λ k. elim (Bool-cases (key == k)) [
    | inl e ↦ rw (get-set key k m v, e) after
    | inr e ↦ rw (get-set key k m v, e) refl
  ],
)
