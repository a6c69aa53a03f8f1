-- ===== src/Workflow/Steps.antt =====
-- Steps that several services share: the guarded moves of a vehicle, the closing of a fault, the
-- component history and the follow-up order.
use fmms.Prelude.{
  Bool, false, not, ◌&&◌, ◌||◌, Option, none, some, List, [], ◌∷◌, ◌++◌, ◌==◌, Uuid, DateTime,
  Text-discrete, ℤ-discrete, is, Update, ◌>>=◌, ◌>>◌, pure, get, modify, when, if◌then◌else◌,
}
use fmms.Repair.Order.{RepairOrder, RepairError, RepairPart}
use fmms.Fault.Status.{FaultStatus-discrete, closed}
use fmms.Fault.Entity.{Fault, FaultError, close_open_fault}
use fmms.Vehicle.Status.{VehicleStatus, VehicleStatus-discrete}
use fmms.Vehicle.Entity.{Vehicle, VehicleError}
use fmms.Handover.{VehicleHandover, HandoverError}
use fmms.Workflow.Table.{find}
use fmms.Workflow.Database.{
  Database, ComponentEntry, ServiceError, repair_error, fault_error, vehicle_error, Call, on,
  fault_id, load_vehicle, save_order, save_vehicle, save_fault,
}

-- `order.updated_at = now`
abbrev pub touch_order : DateTime → Update RepairOrder RepairError
touch_order now = modify (λ o. record o { updated_at = now })

abbrev pub touch_fault : DateTime → Update Fault FaultError
touch_fault now = modify (λ f. record f { updated_at = now })

abbrev pub touch_vehicle : DateTime → Update Vehicle VehicleError
touch_vehicle now = modify (λ v. record v { updated_at = now })

abbrev pub touch_handover : DateTime → Update VehicleHandover HandoverError
touch_handover now = modify (λ h. record h { updated_at = now })

-- `completed_at=order.completed_at or now`
abbrev pub or_now : Option DateTime → DateTime → DateTime
or_now none now = now
or_now (some t) now = t

-- `vehicle.m(); vehicle.updated_at = now; repo.save(vehicle)`
unfoldable pub change_vehicle :
    Update Vehicle VehicleError → DateTime → Vehicle → Update Database ServiceError
change_vehicle m now v = do w ← on vehicle_error (m >> touch_vehicle now) v; save_vehicle now w

-- The load of a vehicle, and `if vehicle.status != s: ...`
unfoldable pub move_vehicle :
    VehicleStatus → Update Vehicle VehicleError → DateTime → Uuid → Update Database ServiceError
unfolding change_vehicle VehicleStatus-discrete
move_vehicle s m now i = do
  v ← load_vehicle i
  when (not (is VehicleStatus-discrete v.status s)) (change_vehicle m now v)

-- `order.m(); order.updated_at = now; repo.save(order)`
unfoldable pub change_order :
    Update RepairOrder RepairError → DateTime → RepairOrder → Call RepairOrder
change_order m now o = do p ← on repair_error (m >> touch_order now) o; save_order now p; pure p

-- The end of the closing of a fault that was found.
unfoldable pub close_fault : DateTime → Fault → Update Database ServiceError
close_fault now f = do g ← on fault_error (close_open_fault >> touch_fault now) f; save_fault now g

-- A fault that is missing or CLOSED is let be.
unfoldable pub close_found : DateTime → Option Fault → Update Database ServiceError
unfolding close_fault FaultStatus-discrete
close_found now none = pure tt
close_found now (some f) = when (not (is FaultStatus-discrete f.status closed)) (close_fault now f)

-- `_close_fault_for_completed_repair`, `_close_fault` and
-- `_close_fault_for_completed_external_repair`
unfoldable pub close_fault_for_completed_repair : DateTime → Uuid → Update Database ServiceError
unfolding close_found
close_fault_for_completed_repair now i = do db ← get; close_found now (find fault_id i db.faults)

-- An entry of the history has the key of a part.
unfoldable pub is_recorded : Uuid → RepairPart → List ComponentEntry → Bool
is_recorded order p [] = false
is_recorded order p (e ∷ l) =
    ((e.repair_order_id == order)
      && is Text-discrete e.material_number p.part_quantity.material_number
      && is ℤ-discrete e.quantity p.part_quantity.quantity
      && is Text-discrete e.unit_of_measure p.part_quantity.unit_of_measure)
    || is_recorded order p l

unfoldable pub entry_of_part : RepairOrder → Uuid → DateTime → RepairPart → ComponentEntry
entry_of_part o user now p = record {
  vehicle_id = o.vehicle_id;
  repair_order_id = o.id;
  material_number = p.part_quantity.material_number;
  quantity = p.part_quantity.quantity;
  unit_of_measure = p.part_quantity.unit_of_measure;
  installed_at = or_now o.completed_at now;
  recorded_by_id = user;
}

-- The entries of the parts that the history did not have before the loop.
unfoldable pub new_entries :
    RepairOrder → Uuid → DateTime → List ComponentEntry → List RepairPart → List ComponentEntry
unfolding is_recorded entry_of_part
new_entries o user now old [] = []
new_entries o user now old (p ∷ l) =
    let rest = new_entries o user now old l in
    if is_recorded o.id p old then rest else entry_of_part o user now p ∷ rest

-- `RecordComponentHistoryFromRepairService.execute`
unfoldable pub record_component_history :
    RepairOrder → Uuid → DateTime → Update Database ServiceError
unfolding new_entries
record_component_history o user now =
    modify (λ db. record db { history = db.history ++ new_entries o user now db.history o.parts })
