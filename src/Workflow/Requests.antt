-- ===== src/Workflow/Requests.antt =====
-- The requests that the services answer, and what a request leaves in the database. A request runs
-- in a transaction (`ATOMIC_REQUESTS` in config/settings/base.py) that is rolled back where an
-- exception leaves the handler of the framework. `fmms_exception_handler`
-- (core/exceptions/http_exception_handler.py) makes a response of most exceptions, and what was
-- written before one of those is committed, but for the four views that run in a transaction of
-- their own (`@transaction.atomic` in interfaces/api/v1/repair/views.py), which the exception leaves
-- first.
use fmms.Prelude.{
  ℕ, Bool, true, false, Option, List, [], ◌∷◌, Uuid, DateTime, Text, ℤ, Decimal, Result, ok, err,
  if◌then◌else◌,
}
use fmms.Repair.Status.{WorkshopType}
use fmms.Repair.Order.{activity_not_found, part_not_found}
use fmms.Repair.External.{CancellationReason}
use fmms.Fault.Entity.{Fault}
use fmms.Vehicle.Entity.{Vehicle}
use fmms.Workflow.Database.{
  Database, Call, ServiceError, repair_error, value_error, fault_value_error, purchase_value_error,
  odometer_error, sap_error, key_error, atomic,
}
use fmms.Workflow.Transport.{
  approve_repair_order, reject_repair_order, assign_workshop, approve_handover, reject_handover,
}
use fmms.Workflow.Handovers.{confirm_vehicle_handover}
use fmms.Workflow.Distribution.{close_fault_of, mark_usable, mark_unusable, create_repair_order}
use fmms.Workflow.Workshop.{start_repair, complete_repair_order, cancel_repair_order}
use fmms.Workflow.Decision.{SapManager, sync_to_sap, decide_technically}
use fmms.Workflow.Editing.{
  CostData, assign_technician, add_activity, update_activity, delete_activity, add_part,
  update_part, delete_part, register_cost,
}
use fmms.Workflow.External.{AssignmentData, assign_external_workshop, cancel_external_assignment}
use fmms.Workflow.Delivery.{DeliveryData, PickupData, confirm_delivery, confirm_pickup}
use fmms.Workflow.Review.{ReviewData, ItemReader, review_repair, close_external_repair}
use fmms.Workflow.Invoices.{InvoiceData, upload_invoice, approve_invoice}
use fmms.Workflow.Materials.{ItemData, request_materials, receive_materials}
use fmms.Fault.Report.{ReportData, Characters}
use fmms.Inspection.{InspectionItem}
use fmms.Procurement.Requisition.{PurchaseRequisition}
use fmms.Workflow.Database.{SapError}
use fmms.Workflow.Faults.{Notifier, report_fault, assign_fault}
use fmms.Workflow.Inspections.{
  InspectionData, create_inspection, add_inspection_item, submit_inspection,
}
use fmms.Workflow.Checklist.{report_inspection_fault}
use fmms.Workflow.Purchases.{Alphabet, LineData, create_requisition, add_line, submit_to_sap}
use fmms.Workflow.Receipts.{OrderData, receive_purchase_order}
use fmms.Workflow.Parts.{CentralStock, PartsDecision, decide_parts, issue_parts}

-- What the services take from outside: the transactions with SAP, how Python reads the items of a
-- review, two sentences in Persian, what Python knows of characters, the central stock, and the ids
-- that `uuid.uuid4()` makes for the parts of what is created.
pub record Outside : Type 0 where
  pub sap : SapManager
  pub replace : Vehicle → Fault → Result ServiceError (Unit {0})
  pub reader : ItemReader
  pub no_repair_note : Text
  pub change_note : Text
  pub notifier : Notifier
  pub characters : Characters
  pub alphabet : Alphabet
  pub stock : CentralStock
  pub purchasing : PurchaseRequisition → Result SapError Text
  pub fresh_of : Uuid → Uuid

-- A request: the ids that `uuid.uuid4()` makes for it, its arguments, the user, and the time.
pub data Request : Type 0 where
  approve : Uuid → Option Text → Uuid → DateTime → Request
  reject : Uuid → Text → Uuid → DateTime → Request
  assign : Uuid → Uuid → WorkshopType → Option Text → Text → Uuid → DateTime → Request
  approve_return : Uuid → Uuid → DateTime → Request
  reject_return : Uuid → Uuid → Uuid → DateTime → Request
  confirm : Uuid → Uuid → Bool → Option Text → Uuid → DateTime → Request
  close : Uuid → Option Uuid → DateTime → Request
  usable : Uuid → Option Text → Uuid → DateTime → Request
  unusable : Uuid → Uuid → Option Text → Uuid → DateTime → Request
  create : Request
  start : Uuid → Option Uuid → DateTime → Request
  complete : Uuid → Uuid → DateTime → Bool → Uuid → DateTime → Request
  cancel : Uuid → Uuid → DateTime → Request
  sync : Uuid → DateTime → Request
  decide : Uuid → Uuid → Bool → Option Text → Uuid → DateTime → Request
  technician : Uuid → Uuid → DateTime → Request
  new_activity : Uuid → Uuid → Text → Decimal → Uuid → DateTime → Option Text → DateTime → Request
  edit_activity : Uuid → Uuid → Text → Decimal → Option Text → DateTime → Request
  drop_activity : Uuid → Uuid → DateTime → Request
  new_part : Uuid → Uuid → Text → ℤ → Text → DateTime → Request
  edit_part : Uuid → Uuid → Text → ℤ → Text → DateTime → Request
  drop_part : Uuid → Uuid → DateTime → Request
  cost : Uuid → Uuid → CostData → Uuid → DateTime → Request
  external : Uuid → Uuid → AssignmentData → Uuid → DateTime → Request
  delivery : Uuid → Uuid → DeliveryData → Uuid → DateTime → Request
  pickup : Uuid → Uuid → PickupData → Uuid → DateTime → Request
  review : Uuid → Uuid → ReviewData → Uuid → DateTime → Request
  finish : (ℕ → Uuid) → Uuid → Uuid → DateTime → Request
  withdraw : Uuid → CancellationReason → Option Text → Uuid → DateTime → Request
  upload : Uuid → Uuid → InvoiceData → Uuid → DateTime → Request
  accept_invoice : Uuid → Uuid → DateTime → Request
  materials : Uuid → Uuid → List ItemData → Uuid → DateTime → Request
  receive : Uuid → Uuid → DateTime → Request
  report : Uuid → ReportData → Uuid → DateTime → Request
  repairer : Uuid → Uuid → DateTime → Request
  inspect : Uuid → InspectionData → DateTime → Request
  check : Uuid → InspectionItem → DateTime → Request
  hand_in : Uuid → DateTime → Request
  report_checklist : Uuid → Uuid → Uuid → DateTime → Request
  availability : Uuid → PartsDecision → DateTime → Request
  issue : Uuid → Uuid → DateTime → Request
  requisition : Uuid → Uuid → Uuid → Option Uuid → DateTime → Request
  line : Uuid → LineData → DateTime → Request
  send_requisition : Uuid → DateTime → Request
  receive_order : Uuid → OrderData → DateTime → Request

-- `fmms_exception_handler` makes a response of the exception. `RepairActivityNotFoundError`,
-- `RepairPartNotFoundError`, `ValueError`, `KeyError`, `SAPIdempotencyError` and `SAPRetryExhaustedError` are in
-- none of its classes.
unfoldable pub is_answered : ServiceError → Bool
is_answered (repair_error (activity_not_found _)) = false
is_answered (repair_error (part_not_found _)) = false
is_answered (value_error _) = false
is_answered (fault_value_error _) = false
is_answered (purchase_value_error _) = false
is_answered (odometer_error _) = false
is_answered (sap_error _) = false
is_answered (key_error _) = false
is_answered _ = true

-- The database after a request.
unfoldable pub concluded : {A : Type 0} → Database → Result ServiceError A × Database → Database
unfolding is_answered
concluded db (ok a, d) = d
concluded db (err e, d) = if is_answered e then d else db

-- A view without a transaction of its own, and one with `@transaction.atomic`.
abbrev pub respond : {A : Type 0} → Call A → Database → Database
respond m db = concluded db (m db)

abbrev pub respond_atomic : {A : Type 0} → Call A → Database → Database
respond_atomic m db = concluded db (atomic m db)

unfoldable pub serve : Outside → Request → Database → Database
unfolding concluded atomic
serve x (approve i n u t) = respond (approve_repair_order i n u t)
serve x (reject i r u t) = respond (reject_repair_order i r u t)
serve x (assign f i k w r u t) = respond (assign_workshop f i k w r u t)
serve x (approve_return i u t) = respond_atomic (approve_handover i u t)
serve x (reject_return f i u t) = respond_atomic (reject_handover f i u t)
serve x (confirm f i b c u t) = respond (confirm_vehicle_handover f i b c u t)
serve x (close i u t) = respond (close_fault_of i u t)
serve x (usable i n u t) = respond (mark_usable i n u t)
serve x (unusable f i n u t) = respond (mark_unusable x.replace f i n u t)
serve x create = respond create_repair_order
serve x (start i u t) = respond_atomic (start_repair i u t)
serve x (complete f i d b u t) = respond_atomic (complete_repair_order f i d b u t)
serve x (cancel i u t) = respond (cancel_repair_order i u t)
serve x (sync i t) = respond (sync_to_sap x.sap i t)
serve x (decide f i b n u t) = respond (decide_technically x.sap x.no_repair_note f i b n u t)
serve x (technician i p t) = respond (assign_technician i p t)
serve x (new_activity f i d h p at n t) = respond (add_activity f i d h p at n t)
serve x (edit_activity i a d h n t) = respond (update_activity i a d h n t)
serve x (drop_activity i a t) = respond (delete_activity i a t)
serve x (new_part f i m q e t) = respond (add_part f i m q e t)
serve x (edit_part i p m q e t) = respond (update_part i p m q e t)
serve x (drop_part i p t) = respond (delete_part i p t)
serve x (cost f i d u t) = respond (register_cost f i d u t)
serve x (external f i d u t) = respond (assign_external_workshop x.change_note f i d u t)
serve x (delivery f i d u t) = respond (confirm_delivery f i d u t)
serve x (pickup f i d u t) = respond (confirm_pickup f i d u t)
serve x (review f i d u t) = respond (review_repair f i d u t)
serve x (finish f i u t) = respond (close_external_repair x.reader f i u t)
serve x (withdraw i r n u t) = respond (cancel_external_assignment i r n u t)
serve x (upload f i d u t) = respond (upload_invoice f i d u t)
serve x (accept_invoice i u t) = respond (approve_invoice i u t)
serve x (materials f i l u t) = respond (request_materials f i l u t)
serve x (receive i u t) = respond (receive_materials i u t)
serve x (report f d u t) = respond (report_fault x.notifier x.characters f d u t)
serve x (repairer i u t) = respond (assign_fault i u t)
serve x (inspect f d t) = respond (create_inspection f d t)
serve x (check i a t) = respond (add_inspection_item i a t)
serve x (hand_in i t) = respond (submit_inspection i t)
serve x (report_checklist f i u t) =
    respond (report_inspection_fault x.fresh_of x.notifier x.characters f i u t)
serve x (availability f d t) = respond (decide_parts x.stock x.alphabet x.fresh_of f d t)
serve x (issue i u t) = respond (issue_parts i u t)
serve x (requisition f o u m t) = respond (create_requisition f o u m t)
serve x (line i d t) = respond (add_line x.alphabet i d t)
serve x (send_requisition i t) = respond (submit_to_sap x.purchasing i t)
serve x (receive_order f d t) = respond (receive_purchase_order x.alphabet f d t)

-- Requests, one after the other.
unfoldable pub serve_all : Outside → List Request → Database → Database
unfolding serve
serve_all x [] db = db
serve_all x (r ∷ l) db = serve_all x l (serve x r db)
