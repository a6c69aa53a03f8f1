-- ===== src/Vehicle/Entity.antt =====
-- The aggregate `Vehicle` (apps/vehicle/domain/entities.py): its construction and its methods.
use fmms.Prelude.{
  Bool, not, Option, none, some, Uuid, DateTime, Text, is, Result, ok, err, Update, ◌>>=◌, ◌>>◌,
  get, modify, raise, when,
}
use fmms.Vehicle.Values.{ValueError, missing, validated_commissioning_date}
use fmms.Vehicle.Status.{
  VehicleStatus, active, inactive, under_repair, under_external_repair, waiting_driver_confirmation,
  suspended, out_of_service, decommissioned, VehicleStatus-discrete, allows,
}

pub record Vehicle : Type 0 where
  pub id : Uuid
  pub vehicle_number : Text
  pub license_plate : Text
  pub status : VehicleStatus
  pub created_at : DateTime
  pub updated_at : DateTime
  pub commissioning_date : Option Text
  pub driver1_customer_number : Option Text
  pub driver2_customer_number : Option Text

-- `VehicleInvalidStateTransitionError`
pub data VehicleError : Type 0 where
  invalid_transition : VehicleStatus → VehicleStatus → VehicleError

-- The last step of `__init__`, with the validated date.
unfoldable pub build :
    Uuid
    → VehicleStatus
    → DateTime
    → DateTime
    → Text
    → Text
    → Option Text
    → Option Text
    → Result ValueError (Option Text)
    → Result ValueError Vehicle
build i s c u number plate d1 d2 (err e) = err e
build i s c u number plate d1 d2 (ok date) = ok (record {
  id = i;
  vehicle_number = number;
  license_plate = plate;
  status = s;
  created_at = c;
  updated_at = u;
  commissioning_date = date;
  driver1_customer_number = d1;
  driver2_customer_number = d2;
})

-- `__init__`
unfoldable pub init :
    (Text → Bool)
    → Uuid
    → VehicleStatus
    → DateTime
    → DateTime
    → Option Text
    → Option Text
    → Option Text
    → Option Text
    → Option Text
    → Result ValueError Vehicle
unfolding build
init digits i s c u none plate date d1 d2 = err missing
init digits i s c u (some number) none date d1 d2 = err missing
init digits i s c u (some number) (some plate) date d1 d2 =
    build i s c u number plate d1 d2 (validated_commissioning_date digits date)

unfoldable pub transition_to : VehicleStatus → Update Vehicle VehicleError
transition_to target = do
  v ← get
  when (not (allows v.status target)) (raise (invalid_transition v.status target))
  modify (λ w. record w { status = target })

unfoldable pub mark_under_repair : Update Vehicle VehicleError
unfolding transition_to
mark_under_repair = transition_to under_repair

unfoldable pub mark_out_of_service : Update Vehicle VehicleError
unfolding transition_to
mark_out_of_service = transition_to out_of_service

unfoldable pub complete_repair : Update Vehicle VehicleError
unfolding transition_to
complete_repair = transition_to active

unfoldable pub mark_waiting_driver_confirmation : Update Vehicle VehicleError
unfolding transition_to
mark_waiting_driver_confirmation = transition_to waiting_driver_confirmation

unfoldable pub mark_under_external_repair : Update Vehicle VehicleError
unfolding transition_to
mark_under_external_repair = transition_to under_external_repair

unfoldable pub activate : Update Vehicle VehicleError
unfolding transition_to
activate = transition_to active

unfoldable pub suspend : Update Vehicle VehicleError
unfolding transition_to
suspend = transition_to suspended

unfoldable pub deactivate : Update Vehicle VehicleError
unfolding transition_to
deactivate = transition_to inactive

unfoldable pub decommission : Update Vehicle VehicleError
unfolding transition_to
decommission = transition_to decommissioned

unfoldable pub is_available : Vehicle → Bool
unfolding VehicleStatus-discrete
is_available v = is VehicleStatus-discrete v.status active
