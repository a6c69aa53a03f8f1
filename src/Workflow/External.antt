-- ===== src/Workflow/External.antt =====
-- The assignment of an external workshop and its cancellation
-- (apps/repair/application/services/external_workshop_service.py). A response is made from the
-- assignment that a service returns.
use fmms.Prelude.{
  Bool, true, false, ◌&&◌, Option, none, some, ◌==◌, Uuid, DateTime, Text, Text-discrete, strip, is,
  is_some, Update, ◌>>=◌, ◌>>◌, pure, get, raise, when, if◌then◌else◌,
}
use fmms.Repair.Order
use fmms.Repair.Order.{RepairOrder, status_is}
use fmms.Repair.Event.{external_workshop_assigned, external_workshop_assignment_cancelled}
use fmms.Repair.External
use fmms.Repair.External.{
  ExternalWorkshopAssignment, ExternalWorkshopDelivery, ExternalWorkshopPickup,
  ExternalRepairReview, CancellationReason, workshop_changed, draft, ensure_active,
}
use fmms.Workflow.Table.{find, first}
use fmms.Workflow.Database.{
  Database, Call, ServiceError, atomic, rejected, assignment_missing,
  assignment_read_only_after_delivery, assignment_cancel_after_delivery, assignment_error, required,
  on, assignment_id, load_order, save_assignment, record_event,
}
use fmms.Workflow.Steps.{change_order}
use fmms.Workflow.Workshop.{active_assignment}

-- `get_assignment_by_id`
unfoldable pub load_assignment : Uuid → Call ExternalWorkshopAssignment
load_assignment i = do
  db ← get
  required (assignment_missing i) (find assignment_id i db.assignments)

-- `get_delivery_by_assignment`
unfoldable pub delivery_of : Uuid → Call (Option ExternalWorkshopDelivery)
delivery_of i = do
  db ← get
  pure (first (λ (d : ExternalWorkshopDelivery). d.assignment_id == i) db.deliveries)

-- `get_pickup_by_assignment`
unfoldable pub pickup_of : Uuid → Call (Option ExternalWorkshopPickup)
pickup_of i = do
  db ← get
  pure (first (λ (p : ExternalWorkshopPickup). p.assignment_id == i) db.pickups)

-- `get_review_by_assignment`
unfoldable pub review_of : Uuid → Call (Option ExternalRepairReview)
review_of i = do
  db ← get
  pure (first (λ (r : ExternalRepairReview). r.assignment_id == i) db.reviews)

-- `AssignExternalWorkshopDTO`, but for the order, the user and the request.
pub record AssignmentData : Type 0 where
  pub workshop_id : Option Text
  pub workshop_name : Text
  pub workshop_address : Text
  pub assignment_date : DateTime
  pub repair_reason : Text
  pub description : Text

abbrev pub same_text : Option Text → Option Text → Bool
same_text none none = true
same_text (some t) (some u) = is Text-discrete t u
same_text _ _ = false

-- `_same_assignment`
unfoldable pub same_assignment : ExternalWorkshopAssignment → AssignmentData → Bool
same_assignment a d =
    same_text a.workshop_id d.workshop_id
    && is Text-discrete a.workshop_name (strip d.workshop_name)
    && is Text-discrete a.workshop_address (strip d.workshop_address)
    && is Text-discrete a.repair_reason (strip d.repair_reason)
    && is Text-discrete a.description (strip d.description)

unfoldable pub new_assignment :
    Uuid → RepairOrder → AssignmentData → Uuid → DateTime → ExternalWorkshopAssignment
new_assignment fresh o d user now = record {
  id = fresh;
  repair_order_id = o.id;
  vehicle_id = o.vehicle_id;
  fault_id = o.fault_id;
  workshop_name = strip d.workshop_name;
  workshop_address = strip d.workshop_address;
  assignment_date = d.assignment_date;
  repair_reason = strip d.repair_reason;
  description = strip d.description;
  status = External.active;
  assigned_by_id = user;
  created_at = now;
  updated_at = now;
  workshop_id = d.workshop_id;
  cancellation_reason = none;
  cancellation_note = none;
  cancelled_by_id = none;
  cancelled_at = none;
}

-- The end of `AssignExternalWorkshopService.execute`.
unfoldable pub assign_new :
    Uuid → RepairOrder → AssignmentData → Uuid → DateTime → Call ExternalWorkshopAssignment
unfolding new_assignment
assign_new fresh o d user now = do
  p ← change_order (Order.assign_external_workshop d.workshop_id) now o
  save_assignment now (new_assignment fresh p d user now)
  record_event p.id external_workshop_assigned (some user) now
  pure (new_assignment fresh p d user now)

-- An assignment that is replaced; `note` is the sentence that is stored with it.
unfoldable pub replace_assignment :
    Text → ExternalWorkshopAssignment → RepairOrder → Uuid → DateTime → Update Database ServiceError
replace_assignment note a o user now = do
  b ← on assignment_error (External.cancel workshop_changed user now (some note)) a
  save_assignment now b
  record_event o.id external_workshop_assignment_cancelled (some user) now

unfoldable pub assign_over :
    Text
    → Uuid
    → RepairOrder
    → AssignmentData
    → Uuid
    → DateTime
    → Option ExternalWorkshopAssignment
    → Call ExternalWorkshopAssignment
unfolding assign_new replace_assignment delivery_of same_assignment
assign_over note fresh o d user now none = assign_new fresh o d user now
assign_over note fresh o d user now (some a) = do
  delivered ← delivery_of a.id
  when (is_some delivered) (raise (rejected assignment_read_only_after_delivery))
  if same_assignment a d
      then pure a
      else (replace_assignment note a o user now >> assign_new fresh o d user now)

-- `AssignExternalWorkshopService.execute`
unfoldable pub assign_external_workshop :
    Text → Uuid → Uuid → AssignmentData → Uuid → DateTime → Call ExternalWorkshopAssignment
unfolding assign_over
assign_external_workshop note fresh i d user now =
    atomic (do
      o ← load_order i
      found ← active_assignment o.id
      assign_over note fresh o d user now found)

-- `CancelExternalWorkshopAssignmentService.execute`
unfoldable pub cancel_external_assignment :
    Uuid → CancellationReason → Option Text → Uuid → DateTime → Call ExternalWorkshopAssignment
unfolding delivery_of
cancel_external_assignment i reason note user now = atomic (do
  a ← load_assignment i
  on assignment_error ensure_active a
  delivered ← delivery_of a.id
  when (is_some delivered) (raise (rejected assignment_cancel_after_delivery))
  b ← on assignment_error (External.cancel reason user now note) a
  save_assignment now b
  o ← load_order b.repair_order_id
  p ← change_order Order.cancel now o
  record_event p.id external_workshop_assignment_cancelled (some user) now
  pure b)
