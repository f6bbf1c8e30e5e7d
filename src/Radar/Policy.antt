-- ===== src/Radar/Policy.antt =====
-- The validation of a profile draft and the transitions of its status
-- (src/umbral/application/radar/profile_policy.py).
use umbral.Prelude.{
  ℤ, pos, String, Bool, true, false, ◌||◌, not, List, [], ◌∷◌, ◌++◌, Option, none, some, ◌==◌,
  string_eq, contains, length, int_ltb, if◌then◌else◌,
}
use umbral.Prelude.Dict
use umbral.Prelude.Dict.{Dict}
use umbral.Text.{PyText, codes}
use umbral.Radar.Profile.{Numbers}

-- A value of a draft: the types that the validation tells apart.
pub data DraftItem : Type 0 where
  str_item : String → DraftItem
  other_item : DraftItem

pub data DraftValue (n : Numbers) : Type 0 where
  none_value : DraftValue n
  bool_value : Bool → DraftValue n
  int_value : ℤ → DraftValue n
  float_value : n.Number → DraftValue n
  str_value : String → DraftValue n
  list_value : List DraftItem → DraftValue n
  other_value : DraftValue n

pub record SearchProfilePolicySpec (n : Numbers) : Type 0 where
  pub contract_version : String
  pub policy_version : String
  pub operation : List String
  pub neighborhoods : List String
  pub limits : Dict String (DraftValue n)
  pub states : List String
  pub transitions : Dict String (List String)
  pub unknown_strategies : Dict String String
  pub error_codes : Dict String String

-- `dict.fromkeys(errors)`: the first of each.
unfoldable pub unique : List String → List String → List String
unique seen [] = []
unique seen (e ∷ rest) =
    let fresh = unique (e ∷ seen) rest in
    let known = unique seen rest in if contains e seen then known else e ∷ fresh

module _ (t : PyText) (n : Numbers) where
  -- `mapping.get(name, default)`
  unfoldable pub value_or : DraftValue n → String → Dict String (DraftValue n) → DraftValue n
  value_or default name m = elim (Dict.get name m) [ none ↦ default | some v ↦ v ]

  -- `value if isinstance(value, int) and not isinstance(value, bool) else default`
  unfoldable pub int_or : ℤ → DraftValue n → ℤ
  int_or default (int_value z) = z
  int_or default _ = default

  unfoldable pub limit_int : SearchProfilePolicySpec n → String → ℤ → ℤ
  unfolding int_or value_or
  limit_int spec name default = int_or default (value_or none_value name spec.limits)

  -- `isinstance(value, (int, float))`, of which a bool is one.
  unfoldable pub number_of : DraftValue n → Option n.Number
  number_of (int_value z) = some (n.of_int z)
  number_of (float_value x) = some x
  number_of (bool_value true) = some (n.of_int (pos 1))
  number_of (bool_value false) = some (n.of_int (pos 0))
  number_of _ = none

  -- The same, `and not isinstance(value, bool)`.
  unfoldable pub strict_number : DraftValue n → Option n.Number
  strict_number (int_value z) = some (n.of_int z)
  strict_number (float_value x) = some x
  strict_number _ = none

  unfoldable pub is_none : DraftValue n → Bool
  is_none none_value = true
  is_none _ = false

  unfoldable pub name_errors : ℤ → DraftValue n → List String
  name_errors name_max (str_value name) =
      if t.strip name == "" || int_ltb name_max (pos (length (codes (t.strip name))))
      then "radar.name_required" ∷ []
      else []
  name_errors name_max _ = "radar.name_required" ∷ []

  unfoldable pub is_known_zone : List String → DraftItem → Bool
  is_known_zone neighborhoods (str_item zone) = contains zone neighborhoods
  is_known_zone neighborhoods other_item = false

  unfoldable pub unknown_zones : List String → List DraftItem → List String
  unfolding is_known_zone
  unknown_zones neighborhoods [] = []
  unknown_zones neighborhoods (zone ∷ rest) =
      let others = unknown_zones neighborhoods rest in
      if is_known_zone neighborhoods zone then others else "radar.zone_unknown" ∷ others

  unfoldable pub zone_errors : ℤ → ℤ → List String → DraftValue n → List String
  unfolding unknown_zones
  zone_errors zones_min zones_max neighborhoods (list_value (zone ∷ rest)) =
      let count = pos (length (zone ∷ rest)) in
      (if int_ltb count zones_min || int_ltb zones_max count
        then "radar.zones_required" ∷ []
        else [])
      ++ unknown_zones neighborhoods (zone ∷ rest)
  zone_errors zones_min zones_max neighborhoods _ = "radar.zones_required" ∷ []

  unfoldable pub required_errors : Option n.Number → List String
  required_errors none = "radar.budget_required" ∷ []
  required_errors (some x) = if n.le x (n.of_int (pos 0)) then "radar.budget_required" ∷ [] else []

  -- `budget_min >= budget_max`, where both are numbers
  unfoldable pub range_errors : n.Number → Option n.Number → List String
  range_errors low none = []
  range_errors low (some high) = if n.le high low then "radar.budget_range" ∷ [] else []

  unfoldable pub budget_min_errors : DraftValue n → DraftValue n → List String
  unfolding is_none strict_number range_errors number_of
  budget_min_errors budget_min budget_max =
      if is_none budget_min then [] else elim (strict_number budget_min) [
        | none ↦ "radar.budget_range" ∷ []
        | some low ↦ range_errors low (number_of budget_max)
      ]

  unfoldable pub rooms_errors : ℤ → ℤ → DraftValue n → List String
  rooms_errors rooms_min rooms_max (int_value rooms) =
      if int_ltb rooms rooms_min || int_ltb rooms_max rooms then "radar.rooms_range" ∷ [] else []
  rooms_errors rooms_min rooms_max _ = "radar.rooms_range" ∷ []

  unfoldable pub bound_errors : DraftValue n → List String
  unfolding is_none strict_number
  bound_errors bound =
      if is_none bound
      then []
      else elim (strict_number bound) [ none ↦ "radar.surface_range" ∷ [] | some x ↦ [] ]

  unfoldable pub surface_errors : Option n.Number → Option n.Number → List String
  surface_errors (some low) (some high) = if n.le high low then "radar.surface_range" ∷ [] else []
  surface_errors _ _ = []

  unfoldable pub state_errors : List String → DraftValue n → List String
  state_errors states (str_value status) =
      if contains status states then [] else "radar.state_unknown" ∷ []
  state_errors states _ = "radar.state_unknown" ∷ []

  -- The list `errors` when it is returned.
  unfoldable pub draft_errors : Dict String (DraftValue n) → SearchProfilePolicySpec n → List String
  unfolding value_or limit_int name_errors zone_errors required_errors budget_min_errors
      rooms_errors bound_errors surface_errors state_errors strict_number
  draft_errors payload spec =
      let get : String → DraftValue n = λ name. value_or none_value name payload in
      name_errors (limit_int spec "name_max_length" (pos 80)) (get "name")
      ++ zone_errors (limit_int spec "zones_min" (pos 1)) (limit_int spec "zones_max" (pos 15))
          spec.neighborhoods (get "zones")
      ++ required_errors (strict_number (get "budget_max"))
      ++ budget_min_errors (get "budget_min") (get "budget_max")
      ++ rooms_errors (limit_int spec "min_rooms_min" (pos 0))
          (limit_int spec "min_rooms_max" (pos 200)) (get "min_rooms")
      ++ bound_errors (get "surface_min")
      ++ bound_errors (get "surface_max")
      ++ surface_errors (strict_number (get "surface_min")) (strict_number (get "surface_max"))
      ++ state_errors spec.states (value_or (str_value "active") "status" payload)

  unfoldable pub validate_profile :
      Dict String (DraftValue n) → SearchProfilePolicySpec n → List String
  unfolding draft_errors unique
  validate_profile payload spec = unique [] (draft_errors payload spec)

  unfoldable pub can_transition : SearchProfilePolicySpec n → String → String → Bool
  can_transition spec current target =
      if not (contains current spec.states) || not (contains target spec.states)
      then false
      else elim (Dict.get current spec.transitions) [
        | none ↦ false
        | some targets ↦ contains target targets
      ]
