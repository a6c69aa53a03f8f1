-- ===== src/Workflow/Transport.antt =====
-- The decisions of transport: approval and rejection of a new order and the choice of the workshop
-- (apps/repair/application/services/approve_repair_order_service.py), and the decision after the
-- driver's acceptance (transport_handover_decision_service.py there).
use fmms.Prelude.{
  Bool, true, not, ◌&&◌, Option, none, some, ◌==◌, Uuid, DateTime, Text, strip, is, Update, ◌>>=◌,
  ◌>>◌, pure, get, raise, when, if◌then◌else◌, blank_to_none,
}
use fmms.Repair.Status.{WorkshopType, internal, external}
use fmms.Repair.Order
use fmms.Repair.Order.{RepairOrder, new_order, workshop_is}
use fmms.Repair.Event.{
  transport_approved, transport_rejected, workshop_assigned, external_referral_requested,
  transport_handover_approved, transport_handover_rejected,
}
use fmms.Repair.Referral
use fmms.Repair.Referral.{ReferralRequest, ReferralStatus-discrete}
use fmms.Repair.Costs.{InternalRepairCost, InternalRepairCostStatus-discrete, registered}
use fmms.Fault.Status.{FaultStatus-discrete, awaiting_transport, opened}
use fmms.Fault.Entity
use fmms.Fault.Entity.{Fault}
use fmms.Vehicle.Status
use fmms.Vehicle.Status.{VehicleStatus-discrete}
use fmms.Vehicle.Entity as VehicleEntity
use fmms.Workflow.Table.{first, latest}
use fmms.Workflow.Database.{
  Database, Call, ServiceError, rejected, internal_cost_not_registered, on, fault_error, load_order,
  load_fault, save_fault, save_order, save_referral, record_event,
}
use fmms.Workflow.Steps.{
  change_order, move_vehicle, touch_fault, or_now, close_fault_for_completed_repair,
  record_component_history,
}

-- `ApproveRepairOrderService.execute`
unfoldable pub approve_repair_order : Uuid → Option Text → Uuid → DateTime → Call RepairOrder
approve_repair_order i note user now = do
  o ← load_order i
  p ← change_order (Order.approve (blank_to_none note)) now o
  record_event p.id transport_approved (some user) now
  pure p

-- The move of the fault back to OPEN.
unfoldable pub reopen_fault : DateTime → Fault → Update Database ServiceError
reopen_fault now f = do
  g ← on fault_error (Entity.transition_to opened >> touch_fault now) f
  save_fault now g

-- `RejectRepairOrderByTransportService.execute`
unfoldable pub reject_repair_order : Uuid → Text → Uuid → DateTime → Call RepairOrder
unfolding reopen_fault
reject_repair_order i reason user now = do
  o ← load_order i
  p ← change_order (Order.reject_by_transport (strip reason)) now o
  f ← load_fault p.fault_id
  when (is FaultStatus-discrete f.status awaiting_transport) (reopen_fault now f)
  move_vehicle Status.active VehicleEntity.activate now p.vehicle_id
  record_event p.id transport_rejected (some user) now
  pure p

-- `get_open_by_repair_order` of the referrals: the newest that is REQUESTED.
unfoldable pub open_referral : Uuid → Call (Option ReferralRequest)
open_referral i = do
  db ← get
  pure (
      latest (λ (r : ReferralRequest). r.created_at)
        (λ (r : ReferralRequest).
          (r.repair_order_id == i) && is ReferralStatus-discrete r.status Referral.requested)
        db.referrals)

unfoldable pub new_referral : Uuid → RepairOrder → Text → Uuid → DateTime → ReferralRequest
new_referral fresh o reason user now = record {
  id = fresh;
  repair_order_id = o.id;
  vehicle_id = o.vehicle_id;
  fault_id = o.fault_id;
  status = Referral.requested;
  requested_by_id = user;
  requested_at = now;
  created_at = now;
  updated_at = now;
  workshop_id = o.workshop_id;
  reason = reason;
  approved_by_id = none;
  approved_at = none;
  rejected_by_id = none;
  rejected_at = none;
  rejection_reason = none;
}

-- The end of `_create_external_referral`.
unfoldable pub create_referral :
    Uuid → RepairOrder → Text → Uuid → DateTime → Option ReferralRequest → Call ReferralRequest
unfolding new_referral
create_referral fresh o reason user now (some r) = pure r
create_referral fresh o reason user now none = do
  save_referral now (new_referral fresh o reason user now)
  record_event o.id external_referral_requested (some user) now
  pure (new_referral fresh o reason user now)

-- `_create_external_referral`, for an order whose workshop is external.
unfoldable pub refer : Uuid → RepairOrder → Text → Uuid → DateTime → Call (Option ReferralRequest)
unfolding open_referral create_referral
refer fresh o reason user now = do
  found ← open_referral o.id
  r ← create_referral fresh o reason user now found
  pure (some r)

-- `AssignWorkshopService.execute`
unfoldable pub assign_workshop :
    Uuid
    → Uuid
    → WorkshopType
    → Option Text
    → Text
    → Uuid
    → DateTime
    → Call (RepairOrder × Option ReferralRequest)
unfolding refer
assign_workshop fresh i kind workshop reason user now = do
  o ← load_order i
  p ← change_order (Order.assign_workshop kind workshop) now o
  record_event p.id workshop_assigned (some user) now
  r ← if workshop_is external p.workshop_type then refer fresh p reason user now else pure none
  pure (p, r)

-- A cost document that is there is REGISTERED.
unfoldable pub is_registered : Option InternalRepairCost → Bool
is_registered none = true
is_registered (some c) = is InternalRepairCostStatus-discrete c.status registered

-- The soft gate on the costs of an internal repair.
unfoldable pub check_cost : RepairOrder → Update Database ServiceError
unfolding is_registered
check_cost o = do
  db ← get
  when
      (workshop_is internal o.workshop_type
        && not (
            is_registered (first (λ (c : InternalRepairCost). c.repair_order_id == o.id) db.costs)))
      (raise (rejected internal_cost_not_registered))

-- `ApproveTransportHandoverService.execute`
unfoldable pub approve_handover : Uuid → Uuid → DateTime → Call RepairOrder
approve_handover i user now = do
  o ← load_order i
  check_cost o
  p ← change_order (Order.complete_after_transport_handover (or_now o.completed_at now)) now o
  record_component_history p user now
  close_fault_for_completed_repair now p.fault_id
  move_vehicle Status.active VehicleEntity.activate now p.vehicle_id
  record_event p.id transport_handover_approved (some user) now
  pure p

-- `RejectTransportHandoverService.execute`; `fresh` is the id of the follow-up order of
-- `_create_follow_up_repair_order`.
unfoldable pub reject_handover : Uuid → Uuid → Uuid → DateTime → Call RepairOrder
reject_handover fresh i user now = do
  o ← load_order i
  p ← change_order (Order.complete_after_transport_handover (or_now o.completed_at now)) now o
  save_order now (new_order fresh p.vehicle_id p.fault_id user now)
  move_vehicle Status.under_repair VehicleEntity.mark_under_repair now p.vehicle_id
  record_event p.id transport_handover_rejected (some user) now
  pure p
