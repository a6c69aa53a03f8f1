-- ===== src/Handover/Examples.antt =====
-- A hand-over that is decided twice: the theorem at a concrete one.
use fmms.Prelude.{◌≡◌, refl, true, false, none, some, [], ◌∷◌, ok, err}
use fmms.Handover.{
  VehicleHandover, waiting_driver_confirmation, accepted, rejected, invalid_state, confirm,
  confirm_once,
}

abbrev waiting : VehicleHandover
waiting = record {
  id = 1;
  repair_order_id = 2;
  vehicle_id = 3;
  status = waiting_driver_confirmation;
  created_at = 10;
  updated_at = 10;
  driver_id = none;
  comment = none;
  confirmed_at = none;
}

abbrev decided_once : VehicleHandover
decided_once = (confirm true (some (111 ∷ [])) (some 20) (some 4) waiting).1

confirm_once_example :
    ((confirm true (some (111 ∷ [])) (some 20) (some 4) waiting).0 ≡ ok tt)
    × (decided_once.status ≡ accepted)
    × (decided_once.comment ≡ some (111 ∷ []))
    × (decided_once.confirmed_at ≡ some 20)
    × (decided_once.driver_id ≡ some 4)
    × (confirm false none (some 30) none decided_once
        ≡ (err (invalid_state accepted rejected), decided_once))
confirm_once_example =
    confirm_once true false (some (111 ∷ [])) none (some 20) (some 30) (some 4) none waiting refl
