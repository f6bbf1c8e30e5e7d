-- ===== src/Radar/Filters.antt =====
-- The hard filters over candidate listings (src/umbral/application/radar/hard_filters.py).
-- `str.casefold` is an argument.
use umbral.Prelude.{
  ℤ, pos, String, Bool, true, false, ◌&&◌, not, List, Option, none, some, ◌==◌, string_eq, contains,
  map, int_ltb, if◌then◌else◌,
}
use umbral.Prelude.Dict
use umbral.Radar.Profile.{Numbers, SearchProfile, CandidateListing}

module _ (n : Numbers) (casefold : String → String) where
  unfoldable pub strategy : SearchProfile n → String → String
  strategy profile filter_name = elim (Dict.get filter_name profile.unknown_strategy) [
    | none ↦ "exclude"
    | some s ↦ s
  ]

  unfoldable pub excludes : SearchProfile n → String → Bool
  unfolding strategy
  excludes profile filter_name = strategy profile filter_name == "exclude"

  unfoldable pub zones_casefold : SearchProfile n → List String
  zones_casefold profile = map casefold profile.zones

  unfoldable pub passes_price : n.Number → Option n.Number → Bool
  passes_price budget_max none = false
  passes_price budget_max (some cost) =
      if n.le cost (n.of_int (pos 0)) then false else not (n.lt budget_max cost)

  unfoldable pub passes_location : List String → Option String → Bool
  passes_location zones none = false
  passes_location zones (some neighborhood) = contains (casefold neighborhood) zones

  unfoldable pub passes_rooms : SearchProfile n → Option ℤ → Bool
  unfolding excludes
  passes_rooms profile none = not (excludes profile "rooms")
  passes_rooms profile (some rooms) = not (int_ltb rooms profile.min_rooms)

  unfoldable pub apply_hard_filters : CandidateListing n → SearchProfile n → Bool
  unfolding excludes passes_price passes_location zones_casefold passes_rooms
  apply_hard_filters listing profile =
      if not (listing.operation == profile.operation)
      then false
      else if excludes profile "price" && not (passes_price profile.budget_max listing.total_cost)
      then false
      else if excludes profile "location"
          && not (passes_location (zones_casefold profile) listing.neighborhood)
      then false
      else if int_ltb (pos 0) profile.min_rooms
      then passes_rooms profile listing.rooms
      else true
