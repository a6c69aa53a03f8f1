-- ===== src/Vehicle/Examples.antt =====
-- Vehicles whose methods are called: the theorems at concrete vehicles, and tests.
use fmms.Prelude.{◌≡◌, ◌⊎◌, refl, true, false, none, some, [], ◌∷◌, Text, strip, ok, err}
use fmms.Vehicle.Values.{validated_commissioning_date}
use fmms.Vehicle.Status.{
  VehicleStatus, active, inactive, under_repair, suspended, decommissioned, allows,
}
use fmms.Vehicle.Entity
use fmms.Vehicle.Entity.{Vehicle, transition_to}
use fmms.Vehicle.Lifecycle.{run, transition_to_lem, decommissioned_final}

abbrev truck : VehicleStatus → Vehicle
truck s = record {
  id = 1;
  vehicle_number = 52 ∷ 50 ∷ [];
  license_plate = 65 ∷ 49 ∷ [];
  status = s;
  created_at = 10;
  updated_at = 10;
  commissioning_date = none;
  driver1_customer_number = none;
  driver2_customer_number = none;
}

-- " A1 "
abbrev padded : Text
padded = 32 ∷ 65 ∷ 49 ∷ 32 ∷ []

abbrev short_plate : Text
short_plate = 65 ∷ 49 ∷ []

-- A date of blanks is no date.
blank_date : validated_commissioning_date (λ _. true) (some (32 ∷ 32 ∷ [])) ≡ ok none
unfolding validated_commissioning_date strip
blank_date = refl

transition_to_lem_example :
    ((allows suspended active ≡ true)
      × (transition_to active (truck suspended)
          ≡ (ok tt, record (truck suspended) { status = active })))
    ⊎ ((allows suspended active ≡ false)
        × ((transition_to active (truck suspended)).1 ≡ truck suspended)
        × ((transition_to active (truck suspended)).0
            ≡ err (Entity.invalid_transition suspended active)))
transition_to_lem_example = transition_to_lem active (truck suspended)

decommissioned_final_example :
    run (active ∷ under_repair ∷ inactive ∷ []) (truck decommissioned) ≡ truck decommissioned
decommissioned_final_example =
    decommissioned_final (active ∷ under_repair ∷ inactive ∷ []) (truck decommissioned) refl
