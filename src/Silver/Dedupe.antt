-- ===== src/Silver/Dedupe.antt =====
-- The evaluation of a pair of listings by the dedupe policy
-- (src/umbral/application/silver/dedupe_policy.py). The evidence is kept as the parts that the
-- evaluation computes: the fingerprint, or the scores of the dimensions.
use Prim.Native.String.{◌++◌ as text_append}
use umbral.Prelude.{
  ℕ, ◌+◌, ◌-◌, String, Bool, ◌&&◌, ◌||◌, not, List, [], ◌∷◌, Option, none, some, ◌==◌, nat_eq,
  string_eq, contains, length, keep, if◌then◌else◌,
}
use umbral.Prelude.Dict
use umbral.Prelude.Dict.{Dict}

-- Python's floats, with the operations the policy uses. `ratio` divides two ints.
pub record Floats : Type 1 where
  pub Number : Type 0
  pub lt : Number → Number → Bool
  pub le : Number → Number → Bool
  pub zero : Number
  pub half : Number
  pub one : Number
  pub add : Number → Number → Number
  pub sub : Number → Number → Number
  pub mul : Number → Number → Number
  pub div : Number → Number → Number
  pub min_of : Number → Number → Number
  pub max_of : Number → Number → Number
  pub ratio : ℕ → ℕ → Number
  pub round4 : Number → Number

-- Python's texts: the words of the lower-cased text, the folded words joined by a space, the canonical
-- form of a number, the decimal form of an int, and the hexadecimal SHA-256.
pub record Texts (f : Floats) : Type 0 where
  pub words : String → List String
  pub folded : String → String
  pub canonical_number : f.Number → String
  pub decimal : ℕ → String
  pub sha256 : String → String

pub record NormalizedListing (f : Floats) : Type 0 where
  pub source_id : String
  pub external_id : String
  pub operation : String
  pub property_type : String
  pub price_value : f.Number
  pub price_currency : String
  pub surface_m2 : Option f.Number
  pub rooms : Option ℕ
  pub bedrooms : Option ℕ
  pub location_text : String
  pub neighborhood : Option String

pub record DimensionSpec (f : Floats) : Type 0 where
  pub name : String
  pub weight : f.Number

pub record DedupePolicySpec (f : Floats) : Type 0 where
  pub strong_fields : List String
  pub threshold : f.Number
  pub dimensions : List (DimensionSpec f)

pub data DedupeMethod : Type 0 where
  deterministic proposal : DedupeMethod

pub data DedupeLinkState : Type 0 where
  pending confirmed : DedupeLinkState

pub data Evidence (f : Floats) : Type 0 where
  no_evidence : Evidence f
  degraded : Evidence f
  same_fields : String → Evidence f
  scored : Dict String f.Number → f.Number → Evidence f

pub record PairEvaluation (f : Floats) : Type 0 where
  pub method : Option DedupeMethod
  pub state : Option DedupeLinkState
  pub fingerprint : Option String
  pub score : Option f.Number
  pub evidence : Evidence f

-- `"|".join(values)`
unfoldable pub joined : List String → String
joined [] = ""
joined (v ∷ []) = v
joined (v ∷ w ∷ rest) = text_append v (text_append "|" (joined (w ∷ rest)))

module _ (f : Floats) (t : Texts f) where
  unfoldable pub shown : Option ℕ → Option String
  shown none = none
  shown (some k) = some (t.decimal k)

  unfoldable pub number_shown : Option f.Number → Option String
  number_shown none = none
  number_shown (some x) = some (t.canonical_number x)

  unfoldable pub text_shown : Option String → Option String
  text_shown none = none
  text_shown (some s) = some (t.folded s)

  unfoldable pub strong_value : NormalizedListing f → String → Option String
  unfolding shown number_shown text_shown
  strong_value a field =
      if field == "operation"
      then some a.operation
      else if field == "property_type"
      then some a.property_type
      else if field == "price_value"
      then some (t.canonical_number a.price_value)
      else if field == "price_currency"
      then some a.price_currency
      else if field == "surface_m2"
      then number_shown a.surface_m2
      else if field == "rooms"
      then shown a.rooms
      else if field == "bedrooms"
      then shown a.bedrooms
      else if field == "neighborhood"
      then text_shown a.neighborhood
      else none

  -- The loop of `strong_fingerprint`: the values, if no field is missing.
  unfoldable pub strong_values : NormalizedListing f → List String → Option (List String)
  unfolding strong_value
  strong_values a [] = some []
  strong_values a (field ∷ rest) = elim (strong_value a field) [
    | none ↦ none
    | some v ↦ elim (strong_values a rest) [ none ↦ none | some vs ↦ some (v ∷ vs) ]
  ]

  -- No fingerprint means that a field is missing.
  unfoldable pub strong_fingerprint : NormalizedListing f → List String → Option String
  unfolding strong_values joined
  strong_fingerprint a fields = elim (strong_values a fields) [
    | none ↦ none
    | some vs ↦ some (t.sha256 (joined vs))
  ]

  unfoldable pub same_chain : NormalizedListing f → NormalizedListing f → Bool
  same_chain a b = a.source_id == b.source_id && a.external_id == b.external_id

  -- A set of words, as a list without repetition.
  unfoldable pub distinct : List String → List String
  distinct [] = []
  distinct (w ∷ rest) =
      let others = distinct rest in if contains w others then others else w ∷ others

  unfoldable pub jaccard : String → String → Option f.Number
  unfolding distinct contains keep
  jaccard a b =
      let tokens_a = distinct (t.words a) in
      let tokens_b = distinct (t.words b) in
      let common = length (keep (λ w. contains w tokens_b) tokens_a) in
      let union = length tokens_a + length tokens_b - common in
      if union == 0 then none else some (f.ratio common union)

  -- `1.0 - min(x, y) / max(x, y)`
  unfoldable pub relative_gap : f.Number → f.Number → f.Number
  relative_gap x y = f.sub f.one (f.div (f.min_of x y) (f.max_of x y))

  unfoldable pub price_score : NormalizedListing f → NormalizedListing f → Option f.Number
  unfolding relative_gap
  price_score a b =
      if not (a.price_currency == b.price_currency)
        || (f.le a.price_value f.zero || f.le b.price_value f.zero)
      then none
      else some (relative_gap a.price_value b.price_value)

  unfoldable pub surface_score : Option f.Number → Option f.Number → Option f.Number
  unfolding relative_gap
  surface_score (some x) (some y) =
      if f.le x f.zero || f.le y f.zero then none else some (relative_gap x y)
  surface_score _ _ = none

  unfoldable pub rooms_score : Option ℕ → Option ℕ → Option f.Number
  rooms_score (some x) (some y) =
      let diff = (x - y) + (y - x) in
      some (if diff == 0 then f.one else if diff == 1 then f.half else f.zero)
  rooms_score _ _ = none

  unfoldable pub dimension_score :
      String → NormalizedListing f → NormalizedListing f → Option f.Number
  unfolding jaccard price_score surface_score rooms_score
  dimension_score name a b =
      if name == "address_tokens"
      then jaccard a.location_text b.location_text
      else if name == "price"
      then price_score a b
      else if name == "surface"
      then surface_score a.surface_m2 b.surface_m2
      else if name == "rooms"
      then rooms_score a.rooms b.rooms
      else none

  -- The loop of `_proposal_score`: the two dictionaries it fills, as one of pairs.
  unfoldable pub dimension_scores :
      List (DimensionSpec f)
      → NormalizedListing f
      → NormalizedListing f
      → Dict String (f.Number × f.Number)
      → Dict String (f.Number × f.Number)
  unfolding dimension_score
  dimension_scores [] a b m = m
  dimension_scores (d ∷ rest) a b m = elim (dimension_score d.name a b) [
    | none ↦ dimension_scores rest a b m
    | some x ↦ dimension_scores rest a b (Dict.set d.name (f.round4 x, d.weight) m)
  ]

  unfoldable pub total : Dict String (f.Number × f.Number) → f.Number → f.Number
  total [] acc = acc
  total ((name, (x, w)) ∷ rest) acc = total rest (f.add acc w)

  unfoldable pub weighted : Dict String (f.Number × f.Number) → f.Number → f.Number
  weighted [] acc = acc
  weighted ((name, (x, w)) ∷ rest) acc = weighted rest (f.add acc (f.mul x w))

  unfoldable pub only_scores : Dict String (f.Number × f.Number) → Dict String f.Number
  only_scores [] = []
  only_scores ((name, (x, w)) ∷ rest) = (name, x) ∷ only_scores rest

  unfoldable pub nothing : Evidence f → PairEvaluation f
  nothing evidence = record {
    method = none;
    state = none;
    fingerprint = none;
    score = none;
    evidence = evidence;
  }

  -- From `_proposal_score` on: the dimensions that have a score, and their weighted mean.
  unfoldable pub proposed :
      DedupePolicySpec f → Dict String (f.Number × f.Number) → PairEvaluation f
  unfolding nothing total weighted only_scores
  proposed spec [] = nothing no_evidence
  proposed spec (entry ∷ rest) =
      let scores = entry ∷ rest in
      let score = f.div (weighted scores f.zero) (total scores f.zero) in
      if f.lt score spec.threshold then nothing (scored (only_scores scores) score) else record {
        method = some DedupeMethod.proposal;
        state = some DedupeLinkState.pending;
        fingerprint = none;
        score = some (f.round4 score);
        evidence = scored (only_scores scores) (f.round4 score);
      }

  unfoldable pub by_fingerprints :
      DedupePolicySpec f
      → NormalizedListing f
      → NormalizedListing f
      → Option String
      → Option String
      → PairEvaluation f
  unfolding nothing proposed dimension_scores
  by_fingerprints spec a b (some p) (some q) =
      if p == q
      then record {
        method = some DedupeMethod.deterministic;
        state = some DedupeLinkState.confirmed;
        fingerprint = some p;
        score = none;
        evidence = same_fields p;
      }
      else proposed spec (dimension_scores spec.dimensions a b [])
  by_fingerprints spec a b _ _ = nothing degraded

  unfoldable pub evaluate_pair :
      DedupePolicySpec f → NormalizedListing f → NormalizedListing f → PairEvaluation f
  unfolding same_chain strong_fingerprint by_fingerprints nothing
  evaluate_pair spec a b =
      if same_chain a b
      then nothing no_evidence
      else by_fingerprints spec a b (strong_fingerprint a spec.strong_fields)
          (strong_fingerprint b spec.strong_fields)
