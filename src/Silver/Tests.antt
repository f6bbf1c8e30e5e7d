-- ===== src/Silver/Tests.antt =====
-- Two listings of different sources, and each guarantee on them.
use mathlib.Core.Logic.{◌↔◌}
use umbral.Prelude.{
  ℕ, ◌+◌, ◌-◌, ◌*◌, min, max, String, true, false, [], ◌∷◌, some, ◌≡◌, refl, ◌==◌, string_eq,
  nat_eq, ltb, leb, arith, if◌then◌else◌,
}
use umbral.Prelude.Dict
use umbral.Silver.Dedupe.{
  Floats, Texts, NormalizedListing, DedupePolicySpec, DedupeMethod, DedupeLinkState,
  strong_fingerprint, strong_values, strong_value, joined, same_chain, dimension_score,
  dimension_scores, total, weighted, only_scores, rooms_score, nothing, proposed, by_fingerprints,
  evaluate_pair,
}
use umbral.Silver.Guarantees.{
  FloatLaws, mean_score, evaluate_pair-confirmed_iff, evaluate_pair-pending,
  equal_listings_score_zero,
}

-- Halves, counted.
abbrev halves : Floats
halves = record {
  Number = ℕ;
  lt = ltb;
  le = leb;
  zero = 0;
  half = 1;
  one = 2;
  add = λ x y. x + y;
  sub = λ x y. x - y;
  mul = λ x y. x * y;
  div = λ x y. if y == 0 then 0 else (if x == y then 2 else 1);
  min_of = min;
  max_of = max;
  ratio = λ x y. if x == y then 2 else 1;
  round4 = λ x. x;
}

abbrev plain : Texts halves
plain = record {
  words = λ s. s ∷ [];
  folded = λ s. s;
  canonical_number = λ x. "n";
  decimal = λ x. "k";
  sha256 = λ s. s;
}

abbrev home : NormalizedListing halves
home = record {
  source_id = "one";
  external_id = "7";
  operation = "rental";
  property_type = "flat";
  price_value = 9;
  price_currency = "ARS";
  surface_m2 = some 40;
  rooms = some 3;
  bedrooms = some 2;
  location_text = "Palermo";
  neighborhood = some "palermo";
}

abbrev other_home : NormalizedListing halves
other_home = record home { source_id = "two"; property_type = "house" }

abbrev spec : DedupePolicySpec halves
spec = record {
  strong_fields = "operation" ∷ "property_type" ∷ [];
  threshold = 1;
  dimensions = record { name = "rooms"; weight = 2 } ∷ [];
}

halves_laws : FloatLaws halves plain
halves_laws = record {
  is_finite = λ x. true;
  min_same = λ x k. omega arith;
  max_same = λ x k. omega arith;
  div_same = λ x k h. ground (arith, h);
  sub_one = refl;
}

pending_pair :
    (evaluate_pair halves plain spec home other_home).state ≡ some DedupeLinkState.pending
unfolding evaluate_pair same_chain by_fingerprints strong_fingerprint strong_values strong_value
    joined proposed dimension_scores dimension_score rooms_score Dict.set total weighted only_scores
    nothing
pending_pair = refl

evaluate_pair-confirmed_iff_example :
    ((evaluate_pair halves plain spec home other_home).state ≡ some DedupeLinkState.confirmed) ↔ (
      (same_chain halves plain home other_home ≡ false)
      × ((x : String) × (strong_fingerprint halves plain home spec.strong_fields ≡ some x)
          × (strong_fingerprint halves plain other_home spec.strong_fields ≡ some x)))
evaluate_pair-confirmed_iff_example = evaluate_pair-confirmed_iff halves plain spec home other_home

pending_pair_is_proposed :
    let m = dimension_scores halves plain spec.dimensions home other_home [] in
    (same_chain halves plain home other_home ≡ false)
    × (((evaluate_pair halves plain spec home other_home).method ≡ some DedupeMethod.proposal)
        × ((evaluate_pair halves plain spec home other_home).score
            ≡ some (mean_score halves plain m))
        × (ltb (mean_score halves plain m) 1 ≡ false))
pending_pair_is_proposed = evaluate_pair-pending halves plain spec home other_home pending_pair

equal_listings_score_zero_example :
    (dimension_score halves plain "price" home other_home ≡ some 0)
    × (dimension_score halves plain "surface" home other_home ≡ some 0)
    × (dimension_score halves plain "rooms" home other_home ≡ some 2)
unfolding halves_laws
equal_listings_score_zero_example =
    equal_listings_score_zero halves plain halves_laws home other_home 40 3 refl refl refl refl refl
      refl refl refl refl refl
