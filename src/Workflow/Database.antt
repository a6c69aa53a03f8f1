-- ===== src/Workflow/Database.antt =====
-- The database of the services: a table for each repository that they take, and the timeline. A
-- service is a method on the database that returns what the response is made from, or raises.
use fmms.Prelude.{
  Option, none, some, List, [], ◌∷◌, ◌++◌, ◌==◌, Uuid, DateTime, Text, ℤ, Result, ok, err, Method,
  Update, ◌>>=◌, pure, get, modify, raise,
}
use fmms.Repair.Order.{RepairOrder, RepairError}
use fmms.Repair.Event.{RepairOrderEvent, RepairOrderEventType}
use fmms.Repair.Referral.{ReferralRequest}
use fmms.Repair.Costs.{InternalRepairCost, ExternalRepairInvoice, InvoiceError}
use fmms.Repair.External.{
  ExternalWorkshopAssignment, AssignmentError, ExternalWorkshopDelivery, ExternalWorkshopPickup,
  ExternalRepairReview,
}
use fmms.Repair.Values.{ValueError}
use fmms.Fault.Entity.{Fault, FaultError}
use fmms.Vehicle.Entity.{Vehicle, VehicleError}
use fmms.Handover.{VehicleHandover, HandoverError}
use fmms.Material.{MaterialRequest, MaterialError}
use fmms.Fault.Values as FaultValues
use fmms.Driver.{Driver}
use fmms.Inspection.{Inspection, InspectionError, OdometerError}
use fmms.OpenFlow.{FlowError}
use fmms.Procurement.Values as PurchaseValues
use fmms.Procurement.Order.{PurchaseOrder}
use fmms.Procurement.Requisition.{PurchaseRequisition, PrError}
use fmms.Workflow.Table.{Row, row_of, find, put, first}
use fmms.Workflow.Stored.{
  stored_order, stored_fault, stored_vehicle, stored_handover, stored_referral, stored_assignment,
  stored_cost, stored_delivery, stored_pickup, stored_review, stored_invoice, stored_material,
}

-- A row of the component history of a vehicle, but for its id, its description and the type that
-- is guessed from the text of the material.
pub record ComponentEntry : Type 0 where
  pub vehicle_id : Uuid
  pub repair_order_id : Uuid
  pub material_number : Text
  pub quantity : ℤ
  pub unit_of_measure : Text
  pub installed_at : DateTime
  pub recorded_by_id : Uuid

pub record Database : Type 0 where
  pub orders : List (Row RepairOrder)
  pub faults : List (Row Fault)
  pub vehicles : List (Row Vehicle)
  pub handovers : List (Row VehicleHandover)
  pub referrals : List (Row ReferralRequest)
  pub materials : List (Row MaterialRequest)
  pub costs : List (Row InternalRepairCost)
  pub invoices : List (Row ExternalRepairInvoice)
  pub assignments : List (Row ExternalWorkshopAssignment)
  pub deliveries : List (Row ExternalWorkshopDelivery)
  pub pickups : List (Row ExternalWorkshopPickup)
  pub reviews : List (Row ExternalRepairReview)
  pub inspections : List (Row Inspection)
  pub drivers : List Driver
  pub requisitions : List (Row PurchaseRequisition)
  pub purchase_orders : List (Row PurchaseOrder)
  pub issues : List Uuid
  pub history : List ComponentEntry
  pub events : List RepairOrderEvent

-- The error codes of `FMMSConflictError`, `FMMSStateError` and `FMMSValidationError`.
pub data Code : Type 0 where
  internal_cost_not_registered : Code
  internal_cost_requires_internal_workshop internal_cost_already_registered : Code
  technical_decision_internal_only technical_decision_invalid_status : Code
  pending_material_requests : List Uuid → Code
  consumed_parts_required : Code
  fault_not_awaiting_distribution : Code
  create_via_distribution_only : Code
  assignment_read_only_after_delivery assignment_cancel_after_delivery : Code
  delivery_already_confirmed delivery_invalid_repair_state : Code
  pickup_requires_delivery pickup_already_confirmed pickup_invalid_repair_state : Code
  review_requires_pickup review_invalid_repair_state review_fields_missing : Code
  close_invalid_repair_state : Code
  already_synced sap_in_progress sap_exhausted sap_failed sap_empty_document : Code
  invoice_requires_external_repair invoice_requires_driver_confirmation : Code
  invoice_approval_requires_external_repair invoice_approval_invalid_repair_state : Code
  material_request_requires_in_progress material_receive_requires_stock_issued : Code
  material_request_invalid_state material_item_decisions_incomplete : Code
  material_item_decision_invalid material_not_in_central_catalog : Code
  insufficient_central_stock material_items_not_ready : Code
  material_pr_line_invalid estimated_price_incomplete pr_without_lines : Code
  pr_not_in_sap po_without_lines : Code
  po_exists : Uuid → Code
  vehicle_not_operational personnel_number_required driver_link_not_found : Code
  vehicle_not_assigned_to_driver : Code
  checklist_not_submitted checklist_has_no_failures : Code
  checklist_fault_already_reported : List Uuid → Code

-- `SAPIdempotencyError`, `SAPRetryExhaustedError` and `SAPIntegrationError`
pub data SapError : Type 0 where
  idempotency exhausted integration : SapError

-- What a service raises: `FMMSNotFoundError` for a row, an exception of an entity, or a code.
pub data ServiceError : Type 0 where
  order_missing fault_missing vehicle_missing handover_missing : Uuid → ServiceError
  assignment_missing invoice_missing material_missing : Uuid → ServiceError
  inspection_missing requisition_missing key_error : Uuid → ServiceError
  repair_error : RepairError → ServiceError
  fault_error : FaultError → ServiceError
  vehicle_error : VehicleError → ServiceError
  handover_error : HandoverError → ServiceError
  invoice_error : InvoiceError → ServiceError
  assignment_error : AssignmentError → ServiceError
  material_error : MaterialError → ServiceError
  value_error : ValueError → ServiceError
  fault_value_error : FaultValues.ValueError → ServiceError
  purchase_value_error : PurchaseValues.ValueError → ServiceError
  odometer_error : OdometerError → ServiceError
  inspection_error : InspectionError → ServiceError
  requisition_error : PrError → ServiceError
  flow_error : FlowError → ServiceError
  sap_error : SapError → ServiceError
  rejected : Code → ServiceError

abbrev pub Call : Type 0 → Type 0
Call A = Method Database ServiceError A

-- What is left of a transaction that began with a database.
abbrev pub restored :
    {A : Type 0} → Database → Result ServiceError A × Database → Result ServiceError A × Database
restored db (ok a, d) = (ok a, d)
restored db (err e, d) = (err e, db)

-- `@transaction.atomic`
unfoldable pub atomic : {A : Type 0} → Call A → Call A
atomic m db = restored db (m db)

-- `load_or_not_found`
abbrev pub required : {A : Type 0} → ServiceError → Option A → Call A
required e none = raise e
required e (some a) = pure a

-- A value object that is built, or the `ValueError` of its check.
abbrev pub built : {A : Type 0} → Result ValueError A → Call A
built (ok a) = pure a
built (err e) = raise (value_error e)

-- How a method of an entity ends, on an object that a service holds.
abbrev pub held : {S E : Type 0} → (E → ServiceError) → Result E (Unit {0}) × S → Call S
held wrap (ok _, s) = pure s
held wrap (err e, s) = raise (wrap e)

-- A call of a method of an entity.
abbrev pub on : {S E : Type 0} → (E → ServiceError) → Update S E → S → Call S
on wrap m s = held wrap (m s)

abbrev pub order_id : RepairOrder → Uuid
order_id o = o.id

abbrev pub fault_id : Fault → Uuid
fault_id f = f.id

abbrev pub vehicle_id : Vehicle → Uuid
vehicle_id v = v.id

abbrev pub handover_id : VehicleHandover → Uuid
handover_id h = h.id

abbrev pub referral_id : ReferralRequest → Uuid
referral_id r = r.id

abbrev pub cost_id : InternalRepairCost → Uuid
cost_id c = c.id

abbrev pub delivery_id : ExternalWorkshopDelivery → Uuid
delivery_id d = d.id

abbrev pub pickup_id : ExternalWorkshopPickup → Uuid
pickup_id p = p.id

abbrev pub review_id : ExternalRepairReview → Uuid
review_id r = r.id

abbrev pub invoice_id : ExternalRepairInvoice → Uuid
invoice_id i = i.id

abbrev pub material_id : MaterialRequest → Uuid
material_id r = r.id

abbrev pub assignment_id : ExternalWorkshopAssignment → Uuid
assignment_id a = a.id

unfoldable pub load_order : Uuid → Call RepairOrder
load_order i = do db ← get; required (order_missing i) (find order_id i db.orders)

unfoldable pub load_fault : Uuid → Call Fault
load_fault i = do db ← get; required (fault_missing i) (find fault_id i db.faults)

-- `objects.get(id=...)`, whose row may be deleted.
abbrev pub entity_of : {A : Type 0} → Option (Row A) → Option A
entity_of none = none
entity_of (some r) = some r.entity

unfoldable pub load_vehicle : Uuid → Call Vehicle
load_vehicle i = do
  db ← get
  required (vehicle_missing i) (entity_of (row_of vehicle_id i db.vehicles))

unfoldable pub load_handover : Uuid → Call VehicleHandover
load_handover i = do db ← get; required (handover_missing i) (find handover_id i db.handovers)

-- `save` returns the entity that it was given.
unfoldable pub save_order : DateTime → RepairOrder → Update Database ServiceError
save_order now o = modify (λ db. record db { orders = put order_id (stored_order now) o db.orders })

unfoldable pub save_fault : DateTime → Fault → Update Database ServiceError
save_fault now f = modify (λ db. record db { faults = put fault_id (stored_fault now) f db.faults })

unfoldable pub save_vehicle : DateTime → Vehicle → Update Database ServiceError
save_vehicle now v =
    modify (λ db. record db { vehicles = put vehicle_id (stored_vehicle now) v db.vehicles })

unfoldable pub save_handover : DateTime → VehicleHandover → Update Database ServiceError
save_handover now h =
    modify (λ db. record db { handovers = put handover_id (stored_handover now) h db.handovers })

unfoldable pub save_referral : DateTime → ReferralRequest → Update Database ServiceError
save_referral now r =
    modify (λ db. record db { referrals = put referral_id (stored_referral now) r db.referrals })

unfoldable pub save_assignment :
    DateTime → ExternalWorkshopAssignment → Update Database ServiceError
save_assignment now a =
    modify
      (λ db. record db { assignments = put assignment_id (stored_assignment now) a db.assignments })

unfoldable pub save_cost : DateTime → InternalRepairCost → Update Database ServiceError
save_cost now c = modify (λ db. record db { costs = put cost_id (stored_cost now) c db.costs })

unfoldable pub save_delivery : DateTime → ExternalWorkshopDelivery → Update Database ServiceError
save_delivery now d =
    modify (λ db. record db { deliveries = put delivery_id (stored_delivery now) d db.deliveries })

unfoldable pub save_pickup : DateTime → ExternalWorkshopPickup → Update Database ServiceError
save_pickup now p =
    modify (λ db. record db { pickups = put pickup_id (stored_pickup now) p db.pickups })

unfoldable pub save_review : DateTime → ExternalRepairReview → Update Database ServiceError
save_review now r =
    modify (λ db. record db { reviews = put review_id (stored_review now) r db.reviews })

unfoldable pub save_invoice : DateTime → ExternalRepairInvoice → Update Database ServiceError
save_invoice now i =
    modify (λ db. record db { invoices = put invoice_id (stored_invoice now) i db.invoices })

unfoldable pub save_material : DateTime → MaterialRequest → Update Database ServiceError
save_material now r =
    modify (λ db. record db { materials = put material_id (stored_material now) r db.materials })

-- `record_repair_timeline_event`, with the recorder that interfaces/api/v1/deps.py wires.
unfoldable pub record_event :
    Uuid → RepairOrderEventType → Option Uuid → DateTime → Update Database ServiceError
record_event order kind user now = modify (λ db. record db {
  events =
      db.events
      ++ record {
        repair_order_id = order;
        event_type = kind;
        created_at = now;
        created_by_id = user;
      }
        ∷ [];
})

-- `handover_repository.get_by_repair_order`
unfoldable pub handover_of_order : Uuid → Call (Option VehicleHandover)
handover_of_order i = do
  db ← get
  pure (first (λ (h : VehicleHandover). h.repair_order_id == i) db.handovers)
