-- ===== src/Radar/Tests.antt =====
-- A small profile, a listing and a draft, and each guarantee on them.
use umbral.Prelude.{
  ℕ, ℤ, pos, String, true, false, not, [], ◌∷◌, none, some, ◌≡◌, refl, ◌==◌, string_eq, contains,
  any, int_ltb, int_ltb_trans, nat_eq, arith,
}
use umbral.Prelude.Dict
use umbral.Prelude.Dict.{Dict}
use umbral.Text.{PyText, is_graphic}
use umbral.Radar.Profile.{Numbers, SearchProfileState, SearchProfile, CandidateListing}
use umbral.Radar.Filters.{
  strategy, excludes, zones_casefold, passes_price, passes_location, passes_rooms,
  apply_hard_filters,
}
use umbral.Radar.Policy.{
  DraftValue, str_value, list_value, int_value, str_item, SearchProfilePolicySpec, validate_profile,
  draft_errors, unique, value_or, limit_int, int_or, name_errors, zone_errors, unknown_zones,
  is_known_zone, required_errors, budget_min_errors, range_errors, rooms_errors, bound_errors,
  surface_errors, state_errors, strict_number, number_of, is_none,
}
use umbral.Radar.Guarantees.Filtering.{
  IsRelaxed, relaxing_keeps_candidates, included_price_is_unbounded, apply_hard_filters-within,
}
use umbral.Radar.Guarantees.Validation.{IsValid, validate_profile-IsValid}

abbrev whole : Numbers
whole = record { Number = ℤ; lt = int_ltb; le = λ a b. not (int_ltb b a); of_int = λ z. z }

plain_graphic : (c : ℕ) → is_graphic c ≡ true → (c == 32) ≡ false
unfolding is_graphic
plain_graphic c h = ground arith

abbrev plain : PyText
plain = record {
  strip = λ s. s;
  lower = λ s. s;
  is_space = λ c. c == 32;
  strip_of_no_space = λ s h. refl;
  lower_of_no_upper = λ s h k. refl;
  graphic_no_space = plain_graphic;
}

abbrev same_case : String → String
same_case s = s

abbrev flat : SearchProfile whole
flat = record {
  profile_id = 1;
  owner_id = 2;
  name = "flat";
  operation = "rental";
  zones = "palermo" ∷ [];
  budget_max = pos 500;
  budget_min = none;
  min_rooms = pos 2;
  surface_min = none;
  surface_max = none;
  status = SearchProfileState.active;
  unknown_strategy = ("price", "exclude") ∷ ("location", "exclude") ∷ ("rooms", "include") ∷ [];
  version = 1;
}

-- The profile with a higher budget.
abbrev generous : SearchProfile whole
generous = record flat { budget_max = pos 800 }

-- The profile that includes what has no known price.
abbrev unpriced : SearchProfile whole
unpriced = record flat { unknown_strategy = ("price", "include") ∷ [] }

abbrev home : CandidateListing whole
home = record {
  operation = "rental";
  total_cost = some (pos 450);
  neighborhood = some "palermo";
  rooms = some (pos 3);
}

generous-IsRelaxed : IsRelaxed whole same_case flat generous
generous-IsRelaxed = record {
  operation = refl;
  strategies = refl;
  budget = λ x h. int_ltb_trans (pos 800) (pos 500) x refl h;
  zones = λ z h. unfold zones_casefold in h;
  rooms = refl;
}

home_passes : apply_hard_filters whole same_case home flat ≡ true
unfolding apply_hard_filters excludes strategy Dict.get passes_price passes_location zones_casefold
    passes_rooms contains any
home_passes = refl

flat-excludes_price : excludes whole same_case flat "price" ≡ true
unfolding excludes strategy Dict.get
flat-excludes_price = refl

relaxing_keeps_candidates_example : apply_hard_filters whole same_case home generous ≡ true
relaxing_keeps_candidates_example =
    relaxing_keeps_candidates whole same_case home flat generous generous-IsRelaxed home_passes

included_price_is_unbounded_example :
    apply_hard_filters whole same_case (record home { total_cost = some (pos 9000) }) unpriced
    ≡ apply_hard_filters whole same_case home unpriced
included_price_is_unbounded_example =
    included_price_is_unbounded whole same_case home unpriced (pos 9000)
      (unfold excludes strategy Dict.get in refl)

apply_hard_filters-within_example :
    (home.operation ≡ flat.operation)
    × (((cost : ℤ) × (some (pos 450) ≡ some cost)
          × (not (int_ltb (pos 0) cost) ≡ false)
          × (int_ltb (pos 500) cost ≡ false))
        × (((z : String) × (home.neighborhood ≡ some z)
              × (contains z (zones_casefold whole same_case flat) ≡ true))
            × ((rooms : ℤ)
                → some (pos 3) ≡ some rooms
                → int_ltb (pos 0) (pos 2) ≡ true
                → int_ltb rooms (pos 2) ≡ false)))
apply_hard_filters-within_example =
    apply_hard_filters-within whole same_case home flat flat-excludes_price
      (unfold excludes strategy Dict.get in refl) home_passes

abbrev spec : SearchProfilePolicySpec whole
spec = record {
  contract_version = "1";
  policy_version = "search-profile-v1";
  operation = "rental" ∷ [];
  neighborhoods = "palermo" ∷ "recoleta" ∷ [];
  limits = ("name_max_length", int_value (pos 80)) ∷ [];
  states = "active" ∷ "paused" ∷ "archived" ∷ [];
  transitions = ("active", "paused" ∷ []) ∷ [];
  unknown_strategies = [];
  error_codes = [];
}

abbrev draft : Dict String (DraftValue whole)
draft =
    ("name", str_value "flat")
    ∷ ("zones", list_value (str_item "palermo" ∷ []))
    ∷ ("budget_max", int_value (pos 500))
    ∷ ("budget_min", int_value (pos 100))
    ∷ ("min_rooms", int_value (pos 2))
    ∷ []

draft_passes : validate_profile plain whole draft spec ≡ []
unfolding validate_profile draft_errors unique value_or limit_int int_or name_errors zone_errors
    unknown_zones is_known_zone required_errors budget_min_errors range_errors rooms_errors
    bound_errors surface_errors state_errors strict_number number_of is_none Dict.get contains any
draft_passes = refl

validate_profile-IsValid_example : IsValid plain whole draft spec
validate_profile-IsValid_example = validate_profile-IsValid plain whole draft spec draft_passes
