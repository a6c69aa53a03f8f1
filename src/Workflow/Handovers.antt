-- ===== src/Workflow/Handovers.antt =====
-- The hand-over of the vehicle to its driver (apps/handover/application/services/handover_service.py).
use fmms.Prelude.{
  Bool, true, false, Option, none, some, Uuid, DateTime, Text, Update, ◌>>=◌, ◌>>◌, pure,
  if◌then◌else◌,
}
use fmms.Repair.Status.{internal}
use fmms.Repair.Order
use fmms.Repair.Order.{RepairOrder, RepairError, new_order, workshop_is}
use fmms.Repair.Event.{
  driver_accepted, driver_rejected, waiting_transport_final_approval, transport_handover_approved,
}
use fmms.Vehicle.Status.{active}
use fmms.Vehicle.Entity as VehicleEntity
use fmms.Handover
use fmms.Handover.{VehicleHandover, VehicleHandoverStatus, HandoverError}
use fmms.Workflow.Database.{
  Database, Call, ServiceError, handover_error, on, load_order, load_handover, save_order,
  save_handover, record_event, handover_of_order,
}
use fmms.Workflow.Steps.{
  touch_handover, change_order, move_vehicle, or_now, close_fault_for_completed_repair,
  record_component_history,
}

-- A hand-over with a status, as the dataclass fills in its defaults.
unfoldable pub new_handover :
    Uuid → Uuid → Uuid → VehicleHandoverStatus → DateTime → VehicleHandover
new_handover fresh order vehicle s now = record {
  id = fresh;
  repair_order_id = order;
  vehicle_id = vehicle;
  status = s;
  created_at = now;
  updated_at = now;
  driver_id = none;
  comment = none;
  confirmed_at = none;
}

-- `if existing is None: repo.save(handover)`
unfoldable pub save_when_absent :
    DateTime → VehicleHandover → Option VehicleHandover → Update Database ServiceError
save_when_absent now h (some k) = pure tt
save_when_absent now h none = save_handover now h

-- `CreateVehicleHandoverService.execute`
unfoldable pub create_handover : Uuid → Uuid → Uuid → DateTime → Update Database ServiceError
unfolding new_handover save_when_absent
create_handover fresh order vehicle now = do
  found ← handover_of_order order
  save_when_absent now (new_handover fresh order vehicle Handover.waiting_driver_confirmation now)
      found

-- What the acceptance does to an order of the internal workshop before it is saved.
abbrev pub complete_accepted : DateTime → RepairOrder → Update RepairOrder RepairError
complete_accepted now o = do
  Order.confirm_handover true
  Order.complete_after_transport_handover (or_now o.completed_at now)

-- `_complete_internal_handover`
unfoldable pub complete_internal_handover :
    RepairOrder → Uuid → DateTime → Update Database ServiceError
complete_internal_handover o user now = do
  record_component_history o user now
  close_fault_for_completed_repair now o.fault_id
  move_vehicle active VehicleEntity.activate now o.vehicle_id
  record_event o.id transport_handover_approved (some user) now

-- The driver accepts a vehicle of the internal workshop.
unfoldable pub accept_internal : RepairOrder → Uuid → DateTime → Update Database ServiceError
accept_internal o user now = do
  record_event o.id driver_accepted (some user) now
  p ← change_order (complete_accepted now o) now o
  complete_internal_handover p user now

-- The driver accepts any other vehicle.
unfoldable pub accept_other : RepairOrder → Uuid → DateTime → Update Database ServiceError
accept_other o user now = do
  record_event o.id driver_accepted (some user) now
  p ← change_order (Order.confirm_handover true) now o
  record_event p.id waiting_transport_final_approval (some user) now

-- The driver rejects the vehicle; `fresh` is the id of the new order.
unfoldable pub reject_vehicle : Uuid → RepairOrder → Uuid → DateTime → Update Database ServiceError
reject_vehicle fresh o user now = do
  p ← change_order (Order.confirm_handover false) now o
  save_order now (new_order fresh p.vehicle_id p.fault_id user now)
  record_event p.id driver_rejected (some user) now

unfoldable pub decide_handover :
    Uuid → Bool → RepairOrder → Uuid → DateTime → Update Database ServiceError
unfolding accept_internal accept_other reject_vehicle
decide_handover fresh accepted o user now =
    if accepted
    then (if workshop_is internal o.workshop_type
        then accept_internal o user now
        else accept_other o user now)
    else reject_vehicle fresh o user now

-- `ConfirmVehicleHandoverService.execute`
unfoldable pub confirm_vehicle_handover :
    Uuid → Uuid → Bool → Option Text → Uuid → DateTime → Call VehicleHandover
unfolding decide_handover
confirm_vehicle_handover fresh i accepted comment user now = do
  h ← load_handover i
  o ← load_order h.repair_order_id
  k ←
      on handover_error
        (Handover.confirm accepted comment (some now) (some user) >> touch_handover now) h
  save_handover now k
  decide_handover fresh accepted o user now
  pure k
