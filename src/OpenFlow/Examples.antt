-- ===== src/OpenFlow/Examples.antt =====
-- The guard on concrete tables: the theorems there, and what it answers.
use fmms.Prelude.{Uuid, ◌≡◌, ◌↔◌, true, false, List, [], ◌∷◌, All, ok}
use fmms.Repair.Status
use fmms.Repair.Status.{created}
use fmms.Repair.Order.{new_order}
use fmms.OpenFlow.{
  OrderRow, Finished, Closed, assert_vehicle_has_no_open_flow, assert_vehicle_has_no_open_flow_iff,
}

abbrev van : Uuid
van = 2

-- A deleted order of vehicle 2, a cancelled one, a new one and a new one of vehicle 9.
abbrev rows : List OrderRow
rows =
    record { entity = new_order 1 2 3 4 100; is_deleted = true }
    ∷ record {
      entity = record (new_order 5 2 3 4 100) { status = Status.cancelled };
      is_deleted = false;
    }
    ∷ record { entity = new_order 6 2 3 4 100; is_deleted = false }
    ∷ record { entity = new_order 7 9 3 4 100; is_deleted = false }
    ∷ []

assert_vehicle_has_no_open_flow_iff_example :
    (assert_vehicle_has_no_open_flow 2 [] rows ≡ ok tt)
    ↔ (All (Closed 2) [] × All (Finished 2) rows)
assert_vehicle_has_no_open_flow_iff_example = assert_vehicle_has_no_open_flow_iff 2 [] rows
