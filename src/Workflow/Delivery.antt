-- ===== src/Workflow/Delivery.antt =====
-- The delivery of a vehicle to an external workshop and its pickup
-- (apps/repair/application/services/external_workshop_service.py).
use fmms.Prelude.{
  ℕ, not, some, Uuid, DateTime, Text, strip, is_some, Update, ◌>>=◌, ◌>>◌, pure, raise, when,
}
use fmms.Repair.Status.{waiting_external_delivery, external_repair_in_progress}
use fmms.Repair.Order
use fmms.Repair.Order.{RepairOrder, status_is}
use fmms.Repair.Event.{
  external_vehicle_delivered, external_repair_in_progress as repair_in_progress,
  external_vehicle_picked_up,
}
use fmms.Repair.External.{
  ExternalWorkshopAssignment, ExternalWorkshopDelivery, ExternalWorkshopPickup, ensure_active,
}
use fmms.Vehicle.Status
use fmms.Vehicle.Entity as VehicleEntity
use fmms.Workflow.Database.{
  Database, Call, ServiceError, atomic, rejected, delivery_already_confirmed,
  delivery_invalid_repair_state, pickup_requires_delivery, pickup_already_confirmed,
  pickup_invalid_repair_state, assignment_error, on, load_order, save_delivery, save_pickup,
  record_event,
}
use fmms.Workflow.Steps.{change_order, move_vehicle}
use fmms.Workflow.External.{load_assignment, delivery_of, pickup_of}

-- `ConfirmExternalWorkshopDeliveryDTO`, but for the assignment, the user and the request.
pub record DeliveryData : Type 0 where
  pub delivery_datetime : DateTime
  pub workshop_name : Text
  pub workshop_address : Text
  pub workshop_phone : Text
  pub vehicle_odometer : ℕ
  pub notes : Text

unfoldable pub new_delivery :
    Uuid
    → ExternalWorkshopAssignment
    → RepairOrder
    → DeliveryData
    → Uuid
    → DateTime
    → ExternalWorkshopDelivery
new_delivery fresh a o d user now = record {
  id = fresh;
  assignment_id = a.id;
  repair_order_id = o.id;
  vehicle_id = a.vehicle_id;
  delivery_datetime = d.delivery_datetime;
  workshop_name = strip d.workshop_name;
  workshop_address = strip d.workshop_address;
  workshop_phone = strip d.workshop_phone;
  vehicle_odometer = d.vehicle_odometer;
  notes = strip d.notes;
  delivered_by_id = user;
  created_at = now;
  updated_at = now;
}

-- The move of the order and of the vehicle, with its events.
unfoldable pub start_external_repair :
    RepairOrder → Uuid → Uuid → DateTime → Update Database ServiceError
start_external_repair o vehicle user now = do
  p ← change_order Order.confirm_external_delivery now o
  move_vehicle Status.under_external_repair VehicleEntity.mark_under_external_repair now vehicle
  record_event p.id external_vehicle_delivered (some user) now
  record_event p.id repair_in_progress (some user) now

-- `ConfirmExternalWorkshopDeliveryService.execute`
unfoldable pub confirm_delivery :
    Uuid → Uuid → DeliveryData → Uuid → DateTime → Call ExternalWorkshopAssignment
unfolding delivery_of new_delivery start_external_repair
confirm_delivery fresh i d user now = atomic (do
  a ← load_assignment i
  on assignment_error ensure_active a
  delivered ← delivery_of a.id
  when (is_some delivered) (raise (rejected delivery_already_confirmed))
  o ← load_order a.repair_order_id
  when (not (status_is waiting_external_delivery o))
      (raise (rejected delivery_invalid_repair_state))
  save_delivery now (new_delivery fresh a o d user now)
  start_external_repair o a.vehicle_id user now
  pure a)

-- `ConfirmExternalWorkshopPickupDTO`, but for the assignment, the user and the request.
pub record PickupData : Type 0 where
  pub pickup_datetime : DateTime
  pub vehicle_odometer : ℕ
  pub notes : Text

unfoldable pub new_pickup :
    Uuid
    → ExternalWorkshopAssignment
    → RepairOrder
    → PickupData
    → Uuid
    → DateTime
    → ExternalWorkshopPickup
new_pickup fresh a o d user now = record {
  id = fresh;
  assignment_id = a.id;
  repair_order_id = o.id;
  vehicle_id = a.vehicle_id;
  pickup_datetime = d.pickup_datetime;
  vehicle_odometer = d.vehicle_odometer;
  notes = strip d.notes;
  picked_up_by_id = user;
  created_at = now;
  updated_at = now;
}

unfoldable pub take_back : RepairOrder → Uuid → Uuid → DateTime → Update Database ServiceError
take_back o vehicle user now = do
  p ← change_order Order.confirm_external_pickup now o
  move_vehicle Status.active VehicleEntity.activate now vehicle
  record_event p.id external_vehicle_picked_up (some user) now

-- `ConfirmExternalWorkshopPickupService.execute`
unfoldable pub confirm_pickup :
    Uuid → Uuid → PickupData → Uuid → DateTime → Call ExternalWorkshopAssignment
unfolding delivery_of pickup_of new_pickup take_back
confirm_pickup fresh i d user now = atomic (do
  a ← load_assignment i
  on assignment_error ensure_active a
  delivered ← delivery_of a.id
  when (not (is_some delivered)) (raise (rejected pickup_requires_delivery))
  taken ← pickup_of a.id
  when (is_some taken) (raise (rejected pickup_already_confirmed))
  o ← load_order a.repair_order_id
  when (not (status_is external_repair_in_progress o))
      (raise (rejected pickup_invalid_repair_state))
  save_pickup now (new_pickup fresh a o d user now)
  take_back o a.vehicle_id user now
  pure a)
