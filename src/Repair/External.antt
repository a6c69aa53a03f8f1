-- ===== src/Repair/External.antt =====
-- The entities of a repair in an external workshop (apps/repair/domain/external_workshop_entities.py).
use fmms.Prelude.{
  ℕ, not, Option, some, List, Uuid, DateTime, Text, Decimal, is, Update, ◌>>=◌, ◌>>◌, get, modify,
  raise, when,
}
use fmms.Prelude.Json.{Payload}

pub data AssignmentStatus : Type 0 where
  active cancelled completed : AssignmentStatus

unfoldable pub AssignmentStatus-discrete : Discrete AssignmentStatus
AssignmentStatus-discrete = hlevel

pub data CancellationReason : Type 0 where
  workshop_changed repair_order_cancelled duplicate_assignment : CancellationReason
  administrative_decision other : CancellationReason

pub data ReviewStatus : Type 0 where
  draft reviewed : ReviewStatus

pub record ExternalWorkshopAssignment : Type 0 where
  pub id : Uuid
  pub repair_order_id : Uuid
  pub vehicle_id : Uuid
  pub fault_id : Uuid
  pub workshop_name : Text
  pub workshop_address : Text
  pub assignment_date : DateTime
  pub repair_reason : Text
  pub description : Text
  pub status : AssignmentStatus
  pub assigned_by_id : Uuid
  pub created_at : DateTime
  pub updated_at : DateTime
  pub workshop_id : Option Text
  pub cancellation_reason : Option CancellationReason
  pub cancellation_note : Option Text
  pub cancelled_by_id : Option Uuid
  pub cancelled_at : Option DateTime

-- `FMMSConflictError` with the code EXTERNAL_ASSIGNMENT_NOT_ACTIVE.
pub data AssignmentError : Type 0 where
  not_active : Uuid → AssignmentStatus → AssignmentError

unfoldable pub ensure_active : Update ExternalWorkshopAssignment AssignmentError
ensure_active = do
  a ← get
  when (not (is AssignmentStatus-discrete a.status active)) (raise (not_active a.id a.status))

unfoldable pub cancel :
    CancellationReason
    → Uuid
    → DateTime
    → Option Text
    → Update ExternalWorkshopAssignment AssignmentError
unfolding ensure_active
cancel reason user at note = do
  ensure_active
  modify (λ a. record a {
    status = cancelled;
    cancellation_reason = some reason;
    cancellation_note = note;
    cancelled_by_id = some user;
    cancelled_at = some at;
    updated_at = at;
  })

unfoldable pub complete : DateTime → Update ExternalWorkshopAssignment AssignmentError
unfolding ensure_active
complete at = do ensure_active; modify (λ a. record a { status = completed; updated_at = at })

pub record ExternalWorkshopDelivery : Type 0 where
  pub id : Uuid
  pub assignment_id : Uuid
  pub repair_order_id : Uuid
  pub vehicle_id : Uuid
  pub delivery_datetime : DateTime
  pub workshop_name : Text
  pub workshop_address : Text
  pub workshop_phone : Text
  pub vehicle_odometer : ℕ
  pub notes : Text
  pub delivered_by_id : Uuid
  pub created_at : DateTime
  pub updated_at : DateTime

pub record ExternalWorkshopPickup : Type 0 where
  pub id : Uuid
  pub assignment_id : Uuid
  pub repair_order_id : Uuid
  pub vehicle_id : Uuid
  pub pickup_datetime : DateTime
  pub vehicle_odometer : ℕ
  pub notes : Text
  pub picked_up_by_id : Uuid
  pub created_at : DateTime
  pub updated_at : DateTime

-- The items of `repair_services` and `replaced_parts` are JSON objects.
pub record ExternalRepairReview : Type 0 where
  pub id : Uuid
  pub assignment_id : Uuid
  pub repair_order_id : Uuid
  pub invoice_attachment : Option Text
  pub repair_services : List Payload
  pub replaced_parts : List Payload
  pub repair_cost : Option Decimal
  pub additional_notes : Text
  pub sap_purchase_order_number : Option Text
  pub sap_invoice_document_number : Option Text
  pub status : ReviewStatus
  pub reviewed_by_id : Uuid
  pub created_at : DateTime
  pub updated_at : DateTime

unfoldable pub mark_completed : ExternalRepairReview → ExternalRepairReview
mark_completed r = record r { status = reviewed }
