-- ===== src/Repair/Order.antt =====
-- The aggregate `RepairOrder` (apps/repair/domain/entities.py): its record and the methods that
-- move its status. The child `Items` has the methods on its activities and parts.
use fmms.Prelude.{
  ℕ, Bool, true, false, not, ◌&&◌, ◌||◌, Option, none, some, List, [], ◌∷◌, Uuid, DateTime, Text,
  Decimal, ℤ, truthy, is, is_some, member, Result, ok, err, Method, Update, ◌>>=◌, ◌>>◌, get,
  modify, raise, when, if◌then◌else◌,
}
use fmms.Repair.Status.{
  RepairOrderStatus, created, approved, workshop_assigned, waiting_external_referral_approval,
  waiting_external_delivery, external_repair_in_progress, waiting_external_pickup,
  waiting_external_admin_review, waiting_workshop_confirmation, waiting_parts, assigned,
  in_progress, waiting_driver_confirmation, waiting_transport_final_approval, rejected_by_driver,
  rejected_by_transport, no_repair_needed, completed, cancelled, RepairOrderStatus-discrete,
  WorkshopType, internal, external, WorkshopType-discrete, is_mutable, is_terminal, allows,
}
pub mod Items

pub record TechnicianAssignment : Type 0 where
  pub technician_id : Uuid
  pub assigned_at : DateTime

pub record PartQuantity : Type 0 where
  pub material_number : Text
  pub quantity : ℤ
  pub unit_of_measure : Text

pub record LaborHours : Type 0 where
  pub hours : Decimal

pub record RepairActivity : Type 0 where
  pub id : Uuid
  pub description : Text
  pub labor_hours : LaborHours
  pub performed_by_id : Uuid
  pub performed_at : DateTime
  pub notes : Option Text

pub record RepairPart : Type 0 where
  pub id : Uuid
  pub part_quantity : PartQuantity
  pub goods_issue_id : Option Uuid
  pub posted_at : Option DateTime

pub record RepairOrder : Type 0 where
  pub id : Uuid
  pub vehicle_id : Uuid
  pub fault_id : Uuid
  pub status : RepairOrderStatus
  pub created_by_id : Uuid
  pub created_at : DateTime
  pub updated_at : DateTime
  pub assignment : Option TechnicianAssignment
  pub activities : List RepairActivity
  pub parts : List RepairPart
  pub sap_order_number : Option Text
  pub workshop_type : Option WorkshopType
  pub workshop_id : Option Text
  pub transport_rejection_reason : Option Text
  pub transport_approval_note : Option Text
  pub workshop_decision_note : Option Text
  pub completed_at : Option DateTime

-- The `operation` argument of `_assert_mutable`.
pub data Operation : Type 0 where
  op_assign_technician op_add_activity op_update_activity op_delete_activity : Operation
  op_add_part op_update_part op_delete_part : Operation

-- The exceptions of apps/repair/domain/exceptions.py that the order raises.
pub data RepairError : Type 0 where
  invalid_state : Uuid → RepairOrderStatus → Operation → RepairError
  invalid_transition : RepairOrderStatus → RepairOrderStatus → RepairError
  activity_not_found : Uuid → RepairError
  part_not_found : Uuid → RepairError

-- A new order, as the dataclass fills in its defaults.
unfoldable pub new_order : Uuid → Uuid → Uuid → Uuid → DateTime → RepairOrder
new_order id vehicle_id fault_id created_by_id now = record {
  id = id;
  vehicle_id = vehicle_id;
  fault_id = fault_id;
  status = created;
  created_by_id = created_by_id;
  created_at = now;
  updated_at = now;
  assignment = none;
  activities = [];
  parts = [];
  sap_order_number = none;
  workshop_type = none;
  workshop_id = none;
  transport_rejection_reason = none;
  transport_approval_note = none;
  workshop_decision_note = none;
  completed_at = none;
}

-- `self.workshop_type == t`
abbrev pub workshop_is : WorkshopType → Option WorkshopType → Bool
workshop_is t none = false
workshop_is t (some u) = is WorkshopType-discrete u t

-- `self.status == s`
abbrev pub status_is : RepairOrderStatus → RepairOrder → Bool
status_is s o = is RepairOrderStatus-discrete o.status s

abbrev pub status_in : List RepairOrderStatus → RepairOrder → Bool
status_in l o = member RepairOrderStatus-discrete o.status l

-- `raise RepairOrderInvalidStateTransitionError(self.status, target)`
abbrev pub refuse : RepairOrderStatus → Update RepairOrder RepairError
refuse target o = (err (invalid_transition o.status target), o)

unfoldable pub assert_mutable : Operation → Update RepairOrder RepairError
assert_mutable op = do
  o ← get
  when (not (is_mutable o.status)) (raise (invalid_state o.id o.status op))

unfoldable pub transition_to : RepairOrderStatus → Update RepairOrder RepairError
transition_to target = do
  o ← get
  when (not (allows o.status target)) (refuse target)
  modify (λ p. record p { status = target })

unfoldable pub assign_technician : TechnicianAssignment → Update RepairOrder RepairError
unfolding transition_to assert_mutable
assign_technician a = do
  assert_mutable op_assign_technician
  transition_to assigned
  modify (λ o. record o { assignment = some a })

unfoldable pub approve : Option Text → Update RepairOrder RepairError
unfolding transition_to
approve note = do
  when (truthy note) (modify (λ o. record o { transport_approval_note = note }))
  transition_to approved

unfoldable pub reject_by_transport : Text → Update RepairOrder RepairError
reject_by_transport reason = do
  o ← get
  when (not (status_is created o)) (refuse rejected_by_transport)
  modify
      (λ p. record p { status = rejected_by_transport; transport_rejection_reason = some reason })

-- The target that both refusals of `assign_workshop` report.
abbrev pub assignment_target : WorkshopType → RepairOrderStatus
assignment_target t =
    if is WorkshopType-discrete t external
    then waiting_external_referral_approval
    else workshop_assigned

unfoldable pub assign_workshop : WorkshopType → Option Text → Update RepairOrder RepairError
unfolding transition_to
assign_workshop t wid = do
  o ← get
  when (not (status_is approved o)) (refuse (assignment_target t))
  when (is_some o.workshop_type) (refuse (assignment_target t))
  modify (λ p. record p { workshop_type = some t; workshop_id = wid })
  if is WorkshopType-discrete t external
      then transition_to waiting_external_referral_approval
      else transition_to workshop_assigned

unfoldable pub assign_external_workshop : Option Text → Update RepairOrder RepairError
unfolding transition_to
assign_external_workshop wid = do
  o ← get
  when (not (status_in (approved ∷ waiting_external_delivery ∷ []) o))
      (refuse waiting_external_delivery)
  modify (λ p. record p { workshop_type = some external; workshop_id = wid })
  transition_to waiting_external_delivery

-- `if self.workshop_type != t: raise ...(self.status, target)`
abbrev pub require_workshop : WorkshopType → RepairOrderStatus → Update RepairOrder RepairError
require_workshop t target = do o ← get; when (not (workshop_is t o.workshop_type)) (refuse target)

unfoldable pub confirm_external_delivery : Update RepairOrder RepairError
unfolding transition_to
confirm_external_delivery = do
  require_workshop external external_repair_in_progress
  transition_to external_repair_in_progress

unfoldable pub wait_for_external_pickup : Update RepairOrder RepairError
unfolding transition_to
wait_for_external_pickup = do
  require_workshop external waiting_external_pickup
  transition_to waiting_external_pickup

unfoldable pub confirm_external_pickup : Update RepairOrder RepairError
unfolding wait_for_external_pickup transition_to
confirm_external_pickup = do
  require_workshop external waiting_external_admin_review
  o ← get
  when (status_is external_repair_in_progress o) wait_for_external_pickup
  transition_to waiting_external_admin_review

unfoldable pub close_external_repair : DateTime → Update RepairOrder RepairError
unfolding transition_to
close_external_repair at = do
  require_workshop external completed
  transition_to completed
  modify (λ o. record o { completed_at = some at })

unfoldable pub accept_internal_workshop : Update RepairOrder RepairError
unfolding transition_to
accept_internal_workshop = do
  require_workshop internal waiting_workshop_confirmation
  transition_to waiting_workshop_confirmation

unfoldable pub mark_repairable : Option Text → Update RepairOrder RepairError
unfolding transition_to
mark_repairable note = do
  require_workshop internal in_progress
  o ← get
  when (not (status_in (workshop_assigned ∷ waiting_workshop_confirmation ∷ []) o))
      (refuse in_progress)
  when (truthy note) (modify (λ p. record p { workshop_decision_note = note }))
  transition_to in_progress

unfoldable pub mark_no_repair_needed : Option Text → Update RepairOrder RepairError
unfolding transition_to
mark_no_repair_needed note = do
  require_workshop internal no_repair_needed
  o ← get
  when (not (status_in (workshop_assigned ∷ waiting_workshop_confirmation ∷ []) o))
      (refuse no_repair_needed)
  when (truthy note) (modify (λ p. record p { workshop_decision_note = note }))
  transition_to no_repair_needed

unfoldable pub start_work : Update RepairOrder RepairError
unfolding transition_to
start_work = do
  o ← get
  when (workshop_is external o.workshop_type) (refuse in_progress)
  when (not (status_in (assigned ∷ workshop_assigned ∷ waiting_workshop_confirmation ∷ []) o))
      (refuse in_progress)
  transition_to in_progress

unfoldable pub complete : DateTime → Update RepairOrder RepairError
unfolding transition_to
complete at = do transition_to completed; modify (λ o. record o { completed_at = some at })

unfoldable pub complete_waiting_driver_confirmation : DateTime → Update RepairOrder RepairError
unfolding transition_to
complete_waiting_driver_confirmation at = do
  o ← get
  when (status_is workshop_assigned o && not (workshop_is external o.workshop_type))
      (refuse waiting_driver_confirmation)
  transition_to waiting_driver_confirmation
  modify (λ p. record p { completed_at = some at })

unfoldable pub wait_for_parts : Update RepairOrder RepairError
unfolding transition_to
wait_for_parts = transition_to waiting_parts

unfoldable pub resume_after_parts : Update RepairOrder RepairError
unfolding transition_to
resume_after_parts = transition_to in_progress

unfoldable pub confirm_handover : Bool → Update RepairOrder RepairError
unfolding transition_to
confirm_handover accepted =
    if accepted
    then transition_to waiting_transport_final_approval
    else transition_to rejected_by_driver

unfoldable pub complete_after_transport_handover : DateTime → Update RepairOrder RepairError
unfolding transition_to
complete_after_transport_handover at = do
  transition_to completed
  modify (λ o. record o { completed_at = some at })

unfoldable pub cancel : Update RepairOrder RepairError
unfolding transition_to
cancel = transition_to cancelled

unfoldable pub link_sap_order : Text → Update RepairOrder RepairError
link_sap_order n = modify (λ o. record o { sap_order_number = some n })

unfoldable pub is_active : RepairOrder → Bool
is_active o = not (is_terminal o.status)
