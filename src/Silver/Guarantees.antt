-- ===== src/Silver/Guarantees.antt =====
-- What `evaluate_pair` decides (src/umbral/application/silver/dedupe_policy.py).
use umbral.Prelude.{
  ℕ, String, Bool, true, false, [], ◌∷◌, Option, none, some, ◌≡◌, refl, ap, ◌↔◌, ◌==◌, nat_eq,
  string_eq, inl, inr, Bool-cases, arith, beq_refl,
}
use umbral.Prelude.Dict.{Dict}
use umbral.Silver.Dedupe.{
  Floats, Texts, NormalizedListing, DedupePolicySpec, DedupeMethod, DedupeLinkState,
  strong_fingerprint, same_chain, relative_gap, price_score, surface_score, rooms_score,
  dimension_score, dimension_scores, total, weighted, nothing, proposed, by_fingerprints,
  evaluate_pair,
}

module _ (f : Floats) (t : Texts f) where
  -- The weighted mean of the scores.
  abbrev pub mean_score : Dict String (f.Number × f.Number) → f.Number
  mean_score m = f.div (weighted f t m f.zero) (total f t m f.zero)

  proposed-unconfirmed :
      (spec : DedupePolicySpec f) (m : Dict String (f.Number × f.Number))
      → (proposed f t spec m).state ≡ some DedupeLinkState.confirmed
      → ⊥
  unfolding proposed nothing
  proposed-unconfirmed spec [] h = ground (arith, h)
  proposed-unconfirmed spec (e ∷ m) h = ground (arith, h)

  by_fingerprints-confirmed_iff :
      (spec : DedupePolicySpec f) (a b : NormalizedListing f) (p q : Option String)
      → ((by_fingerprints f t spec a b p q).state ≡ some DedupeLinkState.confirmed)
        ↔ ((x : String) × (p ≡ some x) × (q ≡ some x))
  unfolding by_fingerprints nothing
  by_fingerprints-confirmed_iff spec a b none q =
      (λ h. absurd (ground (arith, h)), λ (x, e, k). absurd (ground (arith, e)))
  by_fingerprints-confirmed_iff spec a b (some p) none =
      (λ h. absurd (ground (arith, h)), λ (x, e, k). absurd (ground (arith, k)))
  by_fingerprints-confirmed_iff spec a b (some p) (some q) = (
    λ h. elim (Bool-cases (p == q)) [
      | inl same ↦ (p, refl, ground (arith, same, string_eq.same_iff p q))
      | inr apart ↦ absurd (
          proposed-unconfirmed spec (dimension_scores f t spec.dimensions a b [])
            (rw (apart, by_fingerprints) at h))
    ],
    λ (x, e, k).
        let same : (p == q) ≡ true = ground (arith, e, k, string_eq.same_iff p q) in
        rw (same, by_fingerprints) refl,
  )

  -- A pair is confirmed without a review exactly when it is of two chains and both listings have the same
  -- fingerprint: an ambiguous pair, or one with a strong field missing, is never merged.
  pub evaluate_pair-confirmed_iff :
      (spec : DedupePolicySpec f) (a b : NormalizedListing f)
      → ((evaluate_pair f t spec a b).state ≡ some DedupeLinkState.confirmed) ↔ (
          (same_chain f t a b ≡ false)
          × ((x : String) × (strong_fingerprint f t a spec.strong_fields ≡ some x)
              × (strong_fingerprint f t b spec.strong_fields ≡ some x)))
  unfolding evaluate_pair
  evaluate_pair-confirmed_iff spec a b =
      let p = strong_fingerprint f t a spec.strong_fields in
      let q = strong_fingerprint f t b spec.strong_fields in
      let (to, back) = by_fingerprints-confirmed_iff spec a b p q in
      elim (Bool-cases (same_chain f t a b)) [
        | inl same ↦ (
          λ h. absurd (unfold nothing in ground (arith, rw (same, evaluate_pair) at h)),
          λ (apart, k). absurd (ground (arith, same, apart)),
        )
        | inr apart ↦ (
          λ h. (apart, to (rw (apart, evaluate_pair) at h)),
          λ (_, k). rw (apart, evaluate_pair) (back k),
        )
      ]

  proposed-pending :
      (spec : DedupePolicySpec f) (m : Dict String (f.Number × f.Number))
      → (proposed f t spec m).state ≡ some DedupeLinkState.pending
      → ((proposed f t spec m).method ≡ some DedupeMethod.proposal)
        × ((proposed f t spec m).score ≡ some (f.round4 (mean_score m)))
        × (f.lt (mean_score m) spec.threshold ≡ false)
  unfolding proposed nothing
  proposed-pending spec [] h = absurd (ground (arith, h))
  proposed-pending spec (e ∷ m) h = elim (Bool-cases (f.lt (mean_score (e ∷ m)) spec.threshold)) [
    | inl low ↦ absurd (ground (arith, rw (low, proposed) at h))
    | inr high ↦ (rw (high, proposed) refl, rw (high, proposed) refl, high)
  ]

  by_fingerprints-pending :
      (spec : DedupePolicySpec f) (a b : NormalizedListing f) (p q : Option String)
      → (by_fingerprints f t spec a b p q).state ≡ some DedupeLinkState.pending
      → let m = dimension_scores f t spec.dimensions a b [] in
        ((by_fingerprints f t spec a b p q).method ≡ some DedupeMethod.proposal)
        × ((by_fingerprints f t spec a b p q).score ≡ some (f.round4 (mean_score m)))
        × (f.lt (mean_score m) spec.threshold ≡ false)
  unfolding by_fingerprints nothing
  by_fingerprints-pending spec a b none q h = absurd (ground (arith, h))
  by_fingerprints-pending spec a b (some p) none h = absurd (ground (arith, h))
  by_fingerprints-pending spec a b (some p) (some q) h = elim (Bool-cases (p == q)) [
    | inl same ↦ absurd (ground (arith, rw (same, by_fingerprints) at h))
    | inr apart ↦
        rw (apart, by_fingerprints)
          (proposed-pending spec (dimension_scores f t spec.dimensions a b [])
            (rw (apart, by_fingerprints) at h))
  ]

  -- A pair that is left for a review is of two chains, is a proposal, and the weighted mean of its
  -- dimensions reaches the threshold of the policy.
  pub evaluate_pair-pending :
      (spec : DedupePolicySpec f) (a b : NormalizedListing f)
      → (evaluate_pair f t spec a b).state ≡ some DedupeLinkState.pending
      → let m = dimension_scores f t spec.dimensions a b [] in
        (same_chain f t a b ≡ false)
        × (((evaluate_pair f t spec a b).method ≡ some DedupeMethod.proposal)
            × ((evaluate_pair f t spec a b).score ≡ some (f.round4 (mean_score m)))
            × (f.lt (mean_score m) spec.threshold ≡ false))
  unfolding evaluate_pair by_fingerprints nothing
  evaluate_pair-pending spec a b h = elim (Bool-cases (same_chain f t a b)) [
    | inl same ↦ absurd (ground (arith, rw (same, evaluate_pair) at h))
    | inr apart ↦ (
      apart,
      rw (apart, evaluate_pair)
          (by_fingerprints-pending spec a b (strong_fingerprint f t a spec.strong_fields)
            (strong_fingerprint f t b spec.strong_fields) (rw (apart, evaluate_pair) at h)),
    )
  ]

  -- What the policy relies on of finite floats (`math.isfinite`).
  pub record FloatLaws : Type 0 where
    pub is_finite : f.Number → Bool
    pub min_same : (x : f.Number) → is_finite x ≡ true → f.min_of x x ≡ x
    pub max_same : (x : f.Number) → is_finite x ≡ true → f.max_of x x ≡ x
    pub div_same : (x : f.Number) → is_finite x ≡ true → f.le x f.zero ≡ false → f.div x x ≡ f.one
    pub sub_one : f.sub f.one f.one ≡ f.zero

  relative_gap_same :
      (laws : FloatLaws) (x : f.Number)
      → laws.is_finite x ≡ true
      → f.le x f.zero ≡ false
      → relative_gap f t x x ≡ f.zero
  unfolding relative_gap
  relative_gap_same laws x k h =
      rw (laws.min_same x k, laws.max_same x k, laws.div_same x k h, relative_gap) laws.sub_one

  -- The dimensions of price and surface measure a distance and not a similarity: under the laws of
  -- finite floats, two listings with the same finite price and currency, the same finite surface
  -- and the same rooms, neither the price nor the surface at or below 0, score 0 for the price and for the surface, while they
  -- score 1 for the rooms.
  pub equal_listings_score_zero :
      (laws : FloatLaws) (a b : NormalizedListing f) (surface : f.Number) (rooms : ℕ)
      → a.price_value ≡ b.price_value
      → a.price_currency ≡ b.price_currency
      → laws.is_finite b.price_value ≡ true
      → f.le b.price_value f.zero ≡ false
      → a.surface_m2 ≡ some surface
      → b.surface_m2 ≡ some surface
      → laws.is_finite surface ≡ true
      → f.le surface f.zero ≡ false
      → a.rooms ≡ some rooms
      → b.rooms ≡ some rooms
      → (dimension_score f t "price" a b ≡ some f.zero)
        × (dimension_score f t "surface" a b ≡ some f.zero)
        × (dimension_score f t "rooms" a b ≡ some f.one)
  unfolding dimension_score
  equal_listings_score_zero laws a b surface rooms price currency fp dear sa sb fs wide ra rb =
      let gap = relative_gap_same laws in
      (
        unfold price_score in
            rw (price, currency, beq_refl b.price_currency, dear)
              (ap some (gap b.price_value fp dear)),
        unfold surface_score in rw (sa, sb, surface_score, wide) (ap some (gap surface fs wide)),
        unfold rooms_score in rw (ra, rb, rooms_score) (ground arith),
      )
