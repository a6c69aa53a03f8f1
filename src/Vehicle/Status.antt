-- ===== src/Vehicle/Status.antt =====
-- The statuses of a vehicle (apps/vehicle/domain/entities.py).
use fmms.Prelude.{Bool, List, [], ◌∷◌, member}

pub data VehicleStatus : Type 0 where
  active : VehicleStatus
  inactive : VehicleStatus
  under_repair : VehicleStatus
  under_external_repair : VehicleStatus
  waiting_driver_confirmation : VehicleStatus
  exited_center : VehicleStatus
  suspended : VehicleStatus
  out_of_service : VehicleStatus
  decommissioned : VehicleStatus

unfoldable pub VehicleStatus-discrete : Discrete VehicleStatus
VehicleStatus-discrete = hlevel

-- `_ALLOWED_TRANSITIONS`
unfoldable pub allowed_transitions : VehicleStatus → List VehicleStatus
allowed_transitions active =
    inactive ∷ under_repair ∷ under_external_repair ∷ waiting_driver_confirmation ∷ exited_center
    ∷ suspended ∷ out_of_service ∷ decommissioned ∷ []
allowed_transitions inactive = active ∷ under_repair ∷ under_external_repair ∷ decommissioned ∷ []
allowed_transitions under_repair =
    active ∷ inactive ∷ under_external_repair ∷ waiting_driver_confirmation ∷ suspended
    ∷ out_of_service ∷ decommissioned ∷ []
allowed_transitions under_external_repair =
    active ∷ under_repair ∷ waiting_driver_confirmation ∷ out_of_service ∷ suspended ∷ inactive
    ∷ decommissioned ∷ []
allowed_transitions waiting_driver_confirmation =
    active ∷ under_repair ∷ under_external_repair ∷ out_of_service ∷ suspended ∷ inactive
    ∷ decommissioned ∷ []
allowed_transitions exited_center =
    active ∷ inactive ∷ under_repair ∷ under_external_repair ∷ waiting_driver_confirmation
    ∷ suspended ∷ out_of_service ∷ decommissioned ∷ []
allowed_transitions suspended =
    active ∷ inactive ∷ under_repair ∷ under_external_repair ∷ waiting_driver_confirmation
    ∷ out_of_service ∷ decommissioned ∷ []
allowed_transitions out_of_service =
    active ∷ under_repair ∷ under_external_repair ∷ waiting_driver_confirmation ∷ inactive
    ∷ suspended ∷ decommissioned ∷ []
allowed_transitions decommissioned = []

-- `target in _ALLOWED_TRANSITIONS.get(status, frozenset())`
unfoldable pub allows : VehicleStatus → VehicleStatus → Bool
unfolding VehicleStatus-discrete allowed_transitions
allows status target = member VehicleStatus-discrete target (allowed_transitions status)
