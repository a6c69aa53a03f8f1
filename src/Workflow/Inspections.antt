-- ===== src/Workflow/Inspections.antt =====
-- The checklists of a vehicle and the fault that is reported from one
-- (apps/inspection/application/services).
use fmms.Prelude.{
  Bool, false, not, ◌||◌, Option, none, some, List, [], ◌∷◌, Uuid, DateTime, Text, ℤ, Text-discrete,
  Result, ok, err, is, blank_to_none, text_truthy, strip, codes, Update, ◌>>=◌, ◌>>◌, pure, get,
  modify, raise, when, if◌then◌else◌, map,
}
use fmms.Vehicle.Status.{VehicleStatus-discrete, active}
use fmms.Vehicle.Entity.{Vehicle}
use fmms.Driver.{Driver, find_by_personnel_number}
use fmms.Inspection
use fmms.Inspection.{
  Inspection, InspectionItem, InspectionType, InspectionError, OdometerReading, OdometerError,
  OdometerUnit, ChecklistResult, FailureSeverity, status_is, drafted, odometer_reading,
  failed_items,
}
use fmms.Workflow.Table.{Row, find, put}
use fmms.Workflow.Stored.{kept, kept_flag}
use fmms.Workflow.Database.{
  Database, Call, ServiceError, rejected, inspection_missing, inspection_error, odometer_error,
  vehicle_not_operational, personnel_number_required, driver_link_not_found,
  vehicle_not_assigned_to_driver, required, on, load_vehicle,
}

abbrev pub inspection_id : Inspection → Uuid
inspection_id i = i.id

-- The notes of an item are `item.notes or ""` in the column.
unfoldable pub stored_item : InspectionItem → InspectionItem
stored_item i = record i { notes = blank_to_none i.notes }

-- The columns that `DjangoInspectionRepository.save` writes; the items are deleted and inserted anew.
unfoldable pub stored_inspection : DateTime → Option (Row Inspection) → Inspection → Row Inspection
unfolding stored_item
stored_inspection now old i = record {
  entity = record i {
    created_at = kept (λ (j : Inspection). j.created_at) old i.created_at;
    updated_at = now;
    review_notes = blank_to_none i.review_notes;
    items = map stored_item i.items;
  };
  is_deleted = kept_flag old;
}

unfoldable pub load_inspection : Uuid → Call Inspection
load_inspection i = do
  db ← get
  required (inspection_missing i) (find inspection_id i db.inspections)

unfoldable pub save_inspection : DateTime → Inspection → Update Database ServiceError
save_inspection now i =
    modify
      (λ db. record db { inspections = put inspection_id (stored_inspection now) i db.inspections })

-- `assert_vehicle_is_operational_for_checklist`
unfoldable pub operational_vehicle : Uuid → Call Vehicle
operational_vehicle i = do
  v ← load_vehicle i
  when (not (is VehicleStatus-discrete v.status active)) (raise (rejected vehicle_not_operational))
  pure v

abbrev pub holds : Text → Option Text → Bool
holds number none = false
holds number (some n) = is Text-discrete number n

-- `driver.customer_number.value in assigned`
unfoldable pub is_assigned : Driver → Vehicle → Bool
unfolding Text-discrete
is_assigned d v =
    holds d.customer_number v.driver1_customer_number
    || holds d.customer_number v.driver2_customer_number

-- The end of `resolve_driver_actor_for_checklist`, with the driver of the personnel number.
unfoldable pub authorized : Vehicle → Option Driver → Call (Option Driver)
unfolding is_assigned
authorized v none = raise (rejected driver_link_not_found)
authorized v (some d) = do
  when (not (is_assigned d v)) (raise (rejected vehicle_not_assigned_to_driver))
  pure (some d)

unfoldable pub linked_driver : Text → Vehicle → Call (Option Driver)
unfolding authorized
linked_driver personnel v = do
  when (not (text_truthy personnel)) (raise (rejected personnel_number_required))
  db ← get
  authorized v (find_by_personnel_number personnel db.drivers)

-- `resolve_driver_actor_for_checklist`
unfoldable pub resolve_driver_actor : Text → Text → Vehicle → Call (Option Driver)
unfolding linked_driver
resolve_driver_actor role personnel v =
    if is Text-discrete role (codes "DRIVER") then linked_driver (strip personnel) v else pure none

-- `CreateInspectionDTO`, but for the request; its items have their ids.
pub record InspectionData : Type 0 where
  pub vehicle_id : Uuid
  pub driver_id : Option Uuid
  pub inspection_type : InspectionType
  pub odometer_value : ℤ
  pub odometer_unit : OdometerUnit
  pub inspected_at : DateTime
  pub actor_role : Text
  pub actor_personnel_number : Text
  pub items : List InspectionItem

abbrev pub driver_id_of : Option Driver → Option Uuid → Option Uuid
driver_id_of none given = given
driver_id_of (some d) given = some d.id

abbrev pub read : Result OdometerError OdometerReading → Call OdometerReading
read (ok r) = pure r
read (err e) = raise (odometer_error e)

unfoldable pub new_inspection :
    Uuid → InspectionData → Option Uuid → OdometerReading → DateTime → Inspection
new_inspection fresh d driver reading now = record {
  id = fresh;
  vehicle_id = d.vehicle_id;
  inspection_type = d.inspection_type;
  odometer_reading = reading;
  status = drafted;
  inspected_at = d.inspected_at;
  created_at = now;
  updated_at = now;
  driver_id = driver;
  reviewed_by_id = none;
  review_notes = none;
  items = [];
}

-- `for item_dto in dto.items: inspection.add_item(...)`
unfoldable pub add_items : List InspectionItem → Update Inspection InspectionError
add_items [] = pure tt
add_items (i ∷ l) = Inspection.add_item i >> add_items l

-- `CreateInspectionService.execute`
unfoldable pub create_inspection : Uuid → InspectionData → DateTime → Call Inspection
unfolding operational_vehicle resolve_driver_actor new_inspection add_items
create_inspection fresh d now = do
  v ← operational_vehicle d.vehicle_id
  driver ← resolve_driver_actor d.actor_role d.actor_personnel_number v
  reading ← read (odometer_reading d.odometer_value d.odometer_unit)
  i ←
      on inspection_error (add_items d.items)
        (new_inspection fresh d (driver_id_of driver d.driver_id) reading now)
  save_inspection now i
  pure i

-- `inspection.updated_at = now`
abbrev pub touch_inspection : DateTime → Update Inspection InspectionError
touch_inspection now = modify (λ i. record i { updated_at = now })

-- `AddInspectionItemService.execute`
unfoldable pub add_inspection_item : Uuid → InspectionItem → DateTime → Call Inspection
add_inspection_item i item now = do
  j ← load_inspection i
  k ← on inspection_error (Inspection.add_item item >> touch_inspection now) j
  save_inspection now k
  pure k

-- `SubmitInspectionService.execute`
unfoldable pub submit_inspection : Uuid → DateTime → Call Inspection
unfolding operational_vehicle
submit_inspection i now = do
  j ← load_inspection i
  operational_vehicle j.vehicle_id
  k ← on inspection_error (Inspection.submit >> touch_inspection now) j
  save_inspection now k
  pure k
