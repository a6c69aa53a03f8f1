-- ===== src/Workflow/Workshop.antt =====
-- The start, the technical completion and the cancellation of a repair
-- (apps/repair/application/services/update_repair_status_service.py).
use fmms.Prelude.{
  Bool, true, false, not, ◌&&◌, ◌||◌, Option, none, some, List, [], ◌∷◌, ◌==◌, Uuid, DateTime, Text,
  is, member, Update, ◌>>=◌, ◌>>◌, pure, get, raise, when, if◌then◌else◌,
}
use fmms.Repair.Order
use fmms.Repair.Order.{RepairOrder, RepairPart}
use fmms.Repair.Event.{
  repair_started, repair_completed, waiting_driver_confirmation,
  external_workshop_assignment_cancelled,
}
use fmms.Repair.External
use fmms.Repair.External.{
  ExternalWorkshopAssignment, AssignmentStatus-discrete, repair_order_cancelled,
}
use fmms.Vehicle.Status
use fmms.Vehicle.Status.{VehicleStatus-discrete}
use fmms.Vehicle.Entity as VehicleEntity
use fmms.Vehicle.Entity.{Vehicle, VehicleError}
use fmms.Material
use fmms.Material.{MaterialRequest, MaterialRequestStatus-discrete}
use fmms.Workflow.Table.{select, latest}
use fmms.Workflow.Database.{
  Database, Call, ServiceError, rejected, pending_material_requests, consumed_parts_required,
  assignment_error, vehicle_error, on, load_order, load_vehicle, save_vehicle, save_assignment,
  record_event,
}
use fmms.Workflow.Steps.{change_order, move_vehicle, touch_vehicle}
use fmms.Workflow.Handovers.{create_handover}

-- `StartRepairService.execute`
unfoldable pub start_repair : Uuid → Option Uuid → DateTime → Call RepairOrder
start_repair i user now = do
  o ← load_order i
  p ← change_order Order.start_work now o
  move_vehicle Status.under_repair VehicleEntity.mark_under_repair now p.vehicle_id
  record_event p.id repair_started user now
  pure p

-- `material_request_repository.list_by_repair_order`
unfoldable pub materials_of_order : Uuid → Call (List MaterialRequest)
materials_of_order i = do
  db ← get
  pure (select (λ (r : MaterialRequest). r.repair_order_id == i) db.materials)

-- The ids of `pending_material`.
unfoldable pub pending_material : List MaterialRequest → List Uuid
pending_material [] = []
pending_material (r ∷ l) =
    let rest = pending_material l in
    if member MaterialRequestStatus-discrete r.status (Material.rejected ∷ Material.received ∷ [])
    then rest
    else r.id ∷ rest

unfoldable pub has_received_parts : List MaterialRequest → Bool
has_received_parts [] = false
has_received_parts (r ∷ l) =
    is MaterialRequestStatus-discrete r.status Material.received || has_received_parts l

-- `if pending_material: raise ...`
unfoldable pub refuse_pending : List Uuid → Update Database ServiceError
refuse_pending [] = pure tt
refuse_pending (i ∷ l) = raise (rejected (pending_material_requests (i ∷ l)))

abbrev pub no_parts : List RepairPart → Bool
no_parts [] = true
no_parts (_ ∷ _) = false

-- The two checks on the material requests of the order.
unfoldable pub check_materials :
    RepairOrder → Bool → List MaterialRequest → Update Database ServiceError
unfolding pending_material has_received_parts refuse_pending
check_materials o no_parts_consumed l = do
  refuse_pending (pending_material l)
  when (has_received_parts l && no_parts o.parts && not no_parts_consumed)
      (raise (rejected consumed_parts_required))

-- `vehicle.m(); vehicle.updated_at = now; repo.save(vehicle)`, with the vehicle that is left.
unfoldable pub changed_vehicle : Update Vehicle VehicleError → DateTime → Vehicle → Call Vehicle
changed_vehicle m now v = do
  w ← on vehicle_error (m >> touch_vehicle now) v
  save_vehicle now w
  pure w

-- An INACTIVE vehicle goes to UNDER_REPAIR first.
unfoldable pub reactivate : DateTime → Vehicle → Call Vehicle
unfolding changed_vehicle
reactivate now v =
    if is VehicleStatus-discrete v.status Status.inactive
    then changed_vehicle VehicleEntity.mark_under_repair now v
    else pure v

unfoldable pub await_driver : DateTime → Uuid → Update Database ServiceError
unfolding reactivate changed_vehicle
await_driver now i = do
  v ← load_vehicle i
  w ← reactivate now v
  when (not (is VehicleStatus-discrete w.status Status.waiting_driver_confirmation))
      (changed_vehicle VehicleEntity.mark_waiting_driver_confirmation now w >> pure tt)

-- `CompleteRepairOrderService.execute`; `fresh` is the id of the hand-over.
unfoldable pub complete_repair_order :
    Uuid → Uuid → DateTime → Bool → Uuid → DateTime → Call RepairOrder
unfolding materials_of_order check_materials await_driver
complete_repair_order fresh i completed_at no_parts_consumed user now = do
  o ← load_order i
  l ← materials_of_order i
  check_materials o no_parts_consumed l
  p ← change_order (Order.complete_waiting_driver_confirmation completed_at) now o
  await_driver now p.vehicle_id
  create_handover fresh p.id p.vehicle_id now
  record_event p.id repair_completed (some user) now
  record_event p.id waiting_driver_confirmation (some user) now
  pure p

-- `get_active_assignment_by_repair_order`
unfoldable pub active_assignment : Uuid → Call (Option ExternalWorkshopAssignment)
active_assignment i = do
  db ← get
  pure (
      latest (λ (a : ExternalWorkshopAssignment). a.created_at)
        (λ (a : ExternalWorkshopAssignment).
          (a.repair_order_id == i) && is AssignmentStatus-discrete a.status External.active)
        db.assignments)

-- `"Repair order cancelled."`
abbrev pub cancellation_note : Text
cancellation_note =
    82 ∷ 101 ∷ 112 ∷ 97 ∷ 105 ∷ 114 ∷ 32 ∷ 111 ∷ 114 ∷ 100 ∷ 101 ∷ 114 ∷ 32 ∷ 99 ∷ 97 ∷ 110 ∷ 99
    ∷ 101 ∷ 108 ∷ 108 ∷ 101 ∷ 100 ∷ 46 ∷ []

unfoldable pub cancel_assignment :
    Uuid → Uuid → DateTime → Option ExternalWorkshopAssignment → Update Database ServiceError
cancel_assignment order user now none = pure tt
cancel_assignment order user now (some a) = do
  b ←
      on assignment_error (External.cancel repair_order_cancelled user now (some cancellation_note))
        a
  save_assignment now b
  record_event order external_workshop_assignment_cancelled (some user) now

-- `CancelRepairOrderService.execute`
unfoldable pub cancel_repair_order : Uuid → Uuid → DateTime → Call RepairOrder
unfolding active_assignment cancel_assignment
cancel_repair_order i user now = do
  o ← load_order i
  p ← change_order Order.cancel now o
  found ← active_assignment p.id
  cancel_assignment p.id user now found
  pure p
