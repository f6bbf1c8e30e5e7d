-- ===== src/Radar/Profile.antt =====
-- The state of a search profile (src/umbral/application/radar/contracts.py) and the listing that the
-- filters read. A price is a value of the parameter `Numbers`, Python's float with its tests.
use umbral.Prelude.{ℕ, ℤ, String, Bool, List, Option}
use umbral.Prelude.Dict.{Dict}

-- Python's numbers, with `<`, `<=` and the conversion of an int.
pub record Numbers : Type 1 where
  pub Number : Type 0
  pub lt : Number → Number → Bool
  pub le : Number → Number → Bool
  pub of_int : ℤ → Number

pub data SearchProfileState : Type 0 where
  active paused archived : SearchProfileState

pub record SearchProfile (n : Numbers) : Type 0 where
  pub profile_id : ℕ
  pub owner_id : ℕ
  pub name : String
  pub operation : String
  pub zones : List String
  pub budget_max : n.Number
  pub budget_min : Option n.Number
  pub min_rooms : ℤ
  pub surface_min : Option n.Number
  pub surface_max : Option n.Number
  pub status : SearchProfileState
  pub unknown_strategy : Dict String String
  pub version : ℕ

pub record CandidateListing (n : Numbers) : Type 0 where
  pub operation : String
  pub total_cost : Option n.Number
  pub neighborhood : Option String
  pub rooms : Option ℤ
