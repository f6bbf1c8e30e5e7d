-- ===== src/Radar/Guarantees/Validation.antt =====
-- `validate_profile` (src/umbral/application/radar/profile_policy.py).
use umbral.Prelude.{
  ℤ, pos, String, true, false, ◌||◌, List, [], ◌∷◌, ◌++◌, Option, none, some, ◌≡◌, refl, ◌==◌,
  string_eq, contains, any, length, All, int_ltb, if◌then◌else◌, arith, ◌⊎◌, inl, inr, Bool-cases,
  Option-cases,
}
use umbral.Prelude.Dict.{Dict}
use umbral.Text.{PyText, codes}
use umbral.Radar.Profile.{Numbers}
use umbral.Radar.Policy.{
  DraftItem, DraftValue, none_value, bool_value, int_value, float_value, str_value, list_value,
  other_value, SearchProfilePolicySpec, unique, value_or, limit_int, number_of, strict_number,
  is_none, name_errors, is_known_zone, unknown_zones, zone_errors, required_errors, range_errors,
  budget_min_errors, rooms_errors, bound_errors, surface_errors, state_errors, draft_errors,
  validate_profile,
}

append-nil {ℓ} : {A : Type ℓ} (xs ys : List A) → xs ++ ys ≡ [] → (xs ≡ []) × (ys ≡ [])
append-nil [] ys h = (refl, h)
append-nil (x ∷ xs) ys h = absurd (ground (arith, h))

unique-nil : (l : List String) → unique [] l ≡ [] → l ≡ []
unfolding unique contains any
unique-nil [] h = refl
unique-nil (e ∷ l) h = absurd (ground (arith, h))

module _ (t : PyText) (n : Numbers) where
  -- What a name, a list of zones, a number of rooms and a status must be.
  abbrev pub IsName : ℤ → DraftValue n → Type 0
  IsName name_max (str_value name) =
      ((t.strip name == "") ≡ false)
      × (int_ltb name_max (pos (length (codes (t.strip name)))) ≡ false)
  IsName name_max _ = ⊥

  abbrev pub AreZones : ℤ → ℤ → List String → DraftValue n → Type 0
  AreZones zones_min zones_max neighborhoods (list_value zones) =
      (int_ltb (pos (length zones)) zones_min ≡ false)
      × (int_ltb zones_max (pos (length zones)) ≡ false)
      × All (λ zone. is_known_zone t n neighborhoods zone ≡ true) zones
  AreZones zones_min zones_max neighborhoods _ = ⊥

  abbrev pub AreRooms : ℤ → ℤ → DraftValue n → Type 0
  AreRooms rooms_min rooms_max (int_value rooms) =
      (int_ltb rooms rooms_min ≡ false) × (int_ltb rooms_max rooms ≡ false)
  AreRooms rooms_min rooms_max _ = ⊥

  -- A bound that may be missing, and is a number otherwise.
  abbrev pub IsOptional : DraftValue n → Type 0
  IsOptional v = (is_none t n v ≡ true) ⊎ ((x : n.Number) × (strict_number t n v ≡ some x))

  -- A draft that a profile may be made of.
  pub record IsValid (payload : Dict String (DraftValue n)) (spec : SearchProfilePolicySpec n)
      : Type 0 where
    pub name :
        IsName
          (limit_int t n spec "name_max_length" (pos 80))
          (value_or t n none_value "name" payload)
    pub zones :
        AreZones
          (limit_int t n spec "zones_min" (pos 1))
          (limit_int t n spec "zones_max" (pos 15))
          spec.neighborhoods
          (value_or t n none_value "zones" payload)
    pub budget_max : n.Number
    pub budget : strict_number t n (value_or t n none_value "budget_max" payload) ≡ some budget_max
    pub positive : n.le budget_max (n.of_int (pos 0)) ≡ false
    pub optional_budget : IsOptional (value_or t n none_value "budget_min" payload)
    pub ordered_budget :
        (low : n.Number)
        → strict_number t n (value_or t n none_value "budget_min" payload) ≡ some low
        → n.le budget_max low ≡ false
    pub rooms :
        AreRooms
          (limit_int t n spec "min_rooms_min" (pos 0))
          (limit_int t n spec "min_rooms_max" (pos 200))
          (value_or t n none_value "min_rooms" payload)
    pub optional_surface_min : IsOptional (value_or t n none_value "surface_min" payload)
    pub optional_surface_max : IsOptional (value_or t n none_value "surface_max" payload)
    pub ordered_surface :
        (low high : n.Number)
        → strict_number t n (value_or t n none_value "surface_min" payload) ≡ some low
        → strict_number t n (value_or t n none_value "surface_max" payload) ≡ some high
        → n.le high low ≡ false
    pub status :
        (status : String) × (value_or t n (str_value "active") "status" payload ≡ str_value status)
        × (contains status spec.states ≡ true)

  name_errors-IsName : (m : ℤ) (v : DraftValue n) → name_errors t n m v ≡ [] → IsName m v
  unfolding name_errors
  name_errors-IsName m none_value h = ground (arith, h)
  name_errors-IsName m (bool_value b) h = ground (arith, h)
  name_errors-IsName m (int_value z) h = ground (arith, h)
  name_errors-IsName m (float_value x) h = ground (arith, h)
  name_errors-IsName m (str_value s) h = ground (arith, h)
  name_errors-IsName m (list_value l) h = ground (arith, h)
  name_errors-IsName m other_value h = ground (arith, h)

  unknown_zones-All :
      (known : List String) (l : List DraftItem)
      → unknown_zones t n known l ≡ []
      → All (λ zone. is_known_zone t n known zone ≡ true) l
  unfolding unknown_zones
  unknown_zones-All known [] h = tt
  unknown_zones-All known (z ∷ l) h = ground (arith, unknown_zones-All known l, h)

  zone_errors-AreZones :
      (lo hi : ℤ) (known : List String) (v : DraftValue n)
      → zone_errors t n lo hi known v ≡ []
      → AreZones lo hi known v
  unfolding zone_errors
  zone_errors-AreZones lo hi known none_value h = ground (arith, h)
  zone_errors-AreZones lo hi known (bool_value b) h = ground (arith, h)
  zone_errors-AreZones lo hi known (int_value z) h = ground (arith, h)
  zone_errors-AreZones lo hi known (float_value x) h = ground (arith, h)
  zone_errors-AreZones lo hi known (str_value s) h = ground (arith, h)
  zone_errors-AreZones lo hi known (list_value []) h = absurd (ground (arith, h))
  zone_errors-AreZones lo hi known (list_value (z ∷ l)) h =
      let count = pos (length (z ∷ l)) in
      let (range, listed) =
        append-nil
          (if int_ltb count lo || int_ltb hi count then "radar.zones_required" ∷ [] else [])
          (unknown_zones t n known (z ∷ l)) h in
      (ground (arith, range), ground (arith, range), unknown_zones-All known (z ∷ l) listed)
  zone_errors-AreZones lo hi known other_value h = ground (arith, h)

  rooms_errors-AreRooms :
      (lo hi : ℤ) (v : DraftValue n) → rooms_errors t n lo hi v ≡ [] → AreRooms lo hi v
  unfolding rooms_errors
  rooms_errors-AreRooms lo hi none_value h = ground (arith, h)
  rooms_errors-AreRooms lo hi (bool_value b) h = ground (arith, h)
  rooms_errors-AreRooms lo hi (int_value z) h = ground (arith, h)
  rooms_errors-AreRooms lo hi (float_value x) h = ground (arith, h)
  rooms_errors-AreRooms lo hi (str_value s) h = ground (arith, h)
  rooms_errors-AreRooms lo hi (list_value l) h = ground (arith, h)
  rooms_errors-AreRooms lo hi other_value h = ground (arith, h)

  bound_errors-IsOptional : (v : DraftValue n) → bound_errors t n v ≡ [] → IsOptional v
  unfolding bound_errors
  bound_errors-IsOptional v h = elim (Bool-cases (is_none t n v)) [
    | inl missing ↦ inl missing
    | inr given ↦ elim (Option-cases (strict_number t n v)) [
      | inr (x, eq) ↦ inr (x, eq)
      | inl bad ↦ absurd (ground (arith, rw (given, bad, bound_errors) at h))
    ]
  ]

  surface_errors-ordered :
      (a b : Option n.Number) (low high : n.Number)
      → surface_errors t n a b ≡ []
      → a ≡ some low
      → b ≡ some high
      → n.le high low ≡ false
  unfolding surface_errors
  surface_errors-ordered a b low high h p q =
      let e = rw (p, q, surface_errors) at h in ground (arith, e)

  required_errors-positive :
      (b : Option n.Number)
      → required_errors t n b ≡ []
      → (x : n.Number) × (b ≡ some x) × (n.le x (n.of_int (pos 0)) ≡ false)
  unfolding required_errors
  required_errors-positive none h = absurd (ground (arith, h))
  required_errors-positive (some x) h = (x, refl, ground (arith, h))

  strict_number-number_of :
      (v : DraftValue n) (x : n.Number) → strict_number t n v ≡ some x → number_of t n v ≡ some x
  unfolding strict_number number_of
  strict_number-number_of none_value x h = h
  strict_number-number_of (bool_value b) x h = absurd (ground (arith, h))
  strict_number-number_of (int_value z) x h = h
  strict_number-number_of (float_value y) x h = h
  strict_number-number_of (str_value s) x h = h
  strict_number-number_of (list_value l) x h = h
  strict_number-number_of other_value x h = h

  strict_number-given :
      (v : DraftValue n) (x : n.Number) → strict_number t n v ≡ some x → is_none t n v ≡ false
  unfolding strict_number is_none
  strict_number-given none_value x h = absurd (ground (arith, h))
  strict_number-given (bool_value b) x h = refl
  strict_number-given (int_value z) x h = refl
  strict_number-given (float_value y) x h = refl
  strict_number-given (str_value s) x h = refl
  strict_number-given (list_value l) x h = refl
  strict_number-given other_value x h = refl

  budget_min_errors-IsOptional :
      (v w : DraftValue n) → budget_min_errors t n v w ≡ [] → IsOptional v
  unfolding budget_min_errors
  budget_min_errors-IsOptional v w h = elim (Bool-cases (is_none t n v)) [
    | inl missing ↦ inl missing
    | inr given ↦ elim (Option-cases (strict_number t n v)) [
      | inr (x, eq) ↦ inr (x, eq)
      | inl bad ↦ absurd (ground (arith, rw (given, bad, budget_min_errors) at h))
    ]
  ]

  budget_min_errors-ordered :
      (v w : DraftValue n) (low high : n.Number)
      → budget_min_errors t n v w ≡ []
      → strict_number t n v ≡ some low
      → strict_number t n w ≡ some high
      → n.le high low ≡ false
  unfolding budget_min_errors range_errors
  budget_min_errors-ordered v w low high h p q = ground (
    arith,
    rw (strict_number-given v low p, p, strict_number-number_of w high q, budget_min_errors) at h,
  )

  state_errors-known :
      (states : List String) (v : DraftValue n)
      → state_errors t n states v ≡ []
      → (status : String) × (v ≡ str_value status) × (contains status states ≡ true)
  unfolding state_errors
  state_errors-known states none_value h = absurd (ground (arith, h))
  state_errors-known states (bool_value b) h = absurd (ground (arith, h))
  state_errors-known states (int_value z) h = absurd (ground (arith, h))
  state_errors-known states (float_value x) h = absurd (ground (arith, h))
  state_errors-known states (str_value s) h = (s, refl, ground (arith, h))
  state_errors-known states (list_value l) h = absurd (ground (arith, h))
  state_errors-known states other_value h = absurd (ground (arith, h))

  -- A draft without errors is valid: its name, zones, rooms and status are as the specification asks; its
  -- budget is a number for which `budget <= 0` does not hold, nor `budget <= budget_min` if the
  -- lower budget is a number; the lower budget and each bound of the surface is missing or a number;
  -- and `surface_max <= surface_min` does not hold if both are numbers. Of the comparisons no law
  -- is used, so that a NaN, for which none of them holds, is not excluded.
  pub validate_profile-IsValid :
      (payload : Dict String (DraftValue n)) (spec : SearchProfilePolicySpec n)
      → validate_profile t n payload spec ≡ []
      → IsValid payload spec
  unfolding validate_profile draft_errors
  validate_profile-IsValid payload spec h =
      let get : String → DraftValue n = λ name. value_or t n none_value name payload in
      let (r8, e9) =
        append-nil _
          (state_errors t n spec.states (value_or t n (str_value "active") "status" payload))
          (unique-nil (draft_errors t n payload spec) h) in
      let (r7, e8) =
        append-nil _
          (surface_errors t n (strict_number t n (get "surface_min"))
            (strict_number t n (get "surface_max")))
          r8 in
      let (r6, e7) = append-nil _ (bound_errors t n (get "surface_max")) r7 in
      let (r5, e6) = append-nil _ (bound_errors t n (get "surface_min")) r6 in
      let (r4, e5) =
        append-nil _
          (rooms_errors t n (limit_int t n spec "min_rooms_min" (pos 0))
            (limit_int t n spec "min_rooms_max" (pos 200)) (get "min_rooms"))
          r5 in
      let (r3, e4) =
        append-nil _ (budget_min_errors t n (get "budget_min") (get "budget_max")) r4 in
      let (r2, e3) = append-nil _ (required_errors t n (strict_number t n (get "budget_max"))) r3 in
      let (e1, e2) =
        append-nil (name_errors t n (limit_int t n spec "name_max_length" (pos 80)) (get "name"))
          (zone_errors t n (limit_int t n spec "zones_min" (pos 1))
            (limit_int t n spec "zones_max" (pos 15)) spec.neighborhoods (get "zones"))
          r2 in
      let (x, budget, positive) =
        required_errors-positive (strict_number t n (get "budget_max")) e3 in
      record {
        name = name_errors-IsName _ (get "name") e1;
        zones = zone_errors-AreZones _ _ _ (get "zones") e2;
        budget_max = x;
        budget = budget;
        positive = positive;
        optional_budget = budget_min_errors-IsOptional (get "budget_min") (get "budget_max") e4;
        ordered_budget = λ low p.
            budget_min_errors-ordered (get "budget_min") (get "budget_max") low x e4 p budget;
        rooms = rooms_errors-AreRooms _ _ (get "min_rooms") e5;
        optional_surface_min = bound_errors-IsOptional (get "surface_min") e6;
        optional_surface_max = bound_errors-IsOptional (get "surface_max") e7;
        ordered_surface = λ low high p q.
            surface_errors-ordered (strict_number t n (get "surface_min"))
              (strict_number t n (get "surface_max")) low high e8 p q;
        status =
            state_errors-known spec.states (value_or t n (str_value "active") "status" payload) e9;
      }
