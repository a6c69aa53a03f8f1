-- ===== src/Workflow/Decision.antt =====
-- The technical decision of the central workshop
-- (apps/repair/application/services/workshop_technical_decision_service.py) and the order in SAP that
-- it creates (sync_repair_to_sap_service.py there).
use fmms.Prelude.{
  Bool, not, Option, none, some, [], ◌∷◌, Uuid, DateTime, Text, text_truthy, truthy, blank_to_none,
  member, Result, ok, err, Update, ◌>>=◌, ◌>>◌, pure, raise, when, if◌then◌else◌,
}
use fmms.Repair.Status.{internal, workshop_assigned, waiting_workshop_confirmation}
use fmms.Repair.Order
use fmms.Repair.Order.{RepairOrder, workshop_is, status_in}
use fmms.Repair.Event.{repairable_confirmed, repair_started, no_repair_needed}
use fmms.Fault.Status.{FaultStatus-discrete, in_repair, closed}
use fmms.Fault.Entity
use fmms.Fault.Entity.{Fault, FaultError, already_closed, invalid_transition}
use fmms.Vehicle.Status
use fmms.Vehicle.Entity as VehicleEntity
use fmms.Vehicle.Entity.{Vehicle}
use fmms.Handover.{VehicleHandover, accepted}
use fmms.Workflow.Database.{
  Database, Call, ServiceError, SapError, idempotency, exhausted, integration, rejected,
  technical_decision_internal_only, technical_decision_invalid_status, already_synced,
  sap_in_progress, sap_exhausted, sap_failed, sap_empty_document, fault_error, load_order,
  load_fault, load_vehicle, save_fault, handover_of_order, record_event,
}
use fmms.Workflow.Steps.{change_order, move_vehicle, touch_fault}
use fmms.Workflow.Distribution.{close_fault_of}
use fmms.Workflow.Handovers.{new_handover, save_when_absent}

-- How `ISAPTransactionManager.execute` ends for an order and its vehicle: the number of the document
-- in SAP, or what it raises. Its rows are in the table of SAP transactions alone.
abbrev pub SapManager : Type 0
SapManager = RepairOrder → Vehicle → Result SapError Text

-- The document number, or the exception that the service makes of the failure.
unfoldable pub document_number : Result SapError Text → Call Text
document_number (ok []) = raise (rejected sap_empty_document)
document_number (ok (c ∷ t)) = pure (c ∷ t)
document_number (err idempotency) = raise (rejected sap_in_progress)
document_number (err exhausted) = raise (rejected sap_exhausted)
document_number (err integration) = raise (rejected sap_failed)

-- `SyncRepairToSAPService.execute`. `Vehicle.__init__` refuses a vehicle without a number, so that the
-- check for one is left out.
unfoldable pub sync_to_sap : SapManager → Uuid → DateTime → Call RepairOrder
unfolding document_number
sync_to_sap sap i now = do
  o ← load_order i
  when (truthy o.sap_order_number) (raise (rejected already_synced))
  v ← load_vehicle o.vehicle_id
  number ← document_number (sap o v)
  change_order (Order.link_sap_order number) now o

-- What the `try` around `fault.start_repair()` does: a refused transition is logged.
unfoldable pub started_fault :
    DateTime → Result FaultError (Unit {0}) × Fault → Update Database ServiceError
started_fault now (ok _, f) = save_fault now f
started_fault now (err (invalid_transition s t), f) = pure tt
started_fault now (err (already_closed i), f) = raise (fault_error (already_closed i))

unfoldable pub start_fault : DateTime → Fault → Update Database ServiceError
unfolding started_fault
start_fault now f =
    when (not (member FaultStatus-discrete f.status (in_repair ∷ closed ∷ [])))
      (started_fault now ((Entity.start_repair >> touch_fault now) f))

-- `_mark_repairable`
unfoldable pub mark_repairable :
    SapManager → Uuid → Option Text → Uuid → DateTime → Call RepairOrder
unfolding sync_to_sap start_fault
mark_repairable sap i note user now = do
  sync_to_sap sap i now
  o ← load_order i
  p ← change_order (Order.mark_repairable (blank_to_none note)) now o
  move_vehicle Status.under_repair VehicleEntity.mark_under_repair now p.vehicle_id
  f ← load_fault p.fault_id
  start_fault now f
  record_event p.id repairable_confirmed (some user) now
  record_event p.id repair_started (some user) now
  pure p

-- `dto.note or "..."`
abbrev pub note_or : Text → Option Text → Text
note_or default none = default
note_or default (some t) = if text_truthy t then t else default

-- The accepted hand-over of a vehicle that needs no repair.
unfoldable pub direct_handover : Uuid → RepairOrder → Text → Uuid → DateTime → VehicleHandover
unfolding new_handover
direct_handover fresh o note user now = record (new_handover fresh o.id o.vehicle_id accepted now) {
  confirmed_at = some now;
  comment = some note;
  driver_id = some user;
}

-- `_mark_no_repair_needed`; `default` is the sentence that stands for a note.
unfoldable pub mark_no_repair_needed :
    Text → Uuid → Uuid → Option Text → Uuid → DateTime → Call RepairOrder
unfolding direct_handover
mark_no_repair_needed default fresh i note user now = do
  o ← load_order i
  p ← change_order (Order.mark_no_repair_needed (blank_to_none note)) now o
  close_fault_of p.fault_id (some user) now
  move_vehicle Status.active VehicleEntity.activate now p.vehicle_id
  found ← handover_of_order p.id
  save_when_absent now (direct_handover fresh p (note_or default note) user now) found
  record_event p.id no_repair_needed (some user) now
  pure p

-- `WorkshopTechnicalDecisionService.execute`
unfoldable pub decide_technically :
    SapManager → Text → Uuid → Uuid → Bool → Option Text → Uuid → DateTime → Call RepairOrder
unfolding mark_repairable mark_no_repair_needed
decide_technically sap default fresh i repairable note user now = do
  o ← load_order i
  when (not (workshop_is internal o.workshop_type))
      (raise (rejected technical_decision_internal_only))
  when (not (status_in (workshop_assigned ∷ waiting_workshop_confirmation ∷ []) o))
      (raise (rejected technical_decision_invalid_status))
  if repairable
      then mark_repairable sap i note user now
      else mark_no_repair_needed default fresh i note user now
