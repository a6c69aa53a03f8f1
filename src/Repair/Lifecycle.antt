-- ===== src/Repair/Lifecycle.antt =====
-- The calls of the methods of `RepairOrder`, and sequences of them.
use fmms.Prelude.{◌≡◌, Bool, Option, List, [], ◌∷◌, Uuid, DateTime, Text, Update}
use fmms.Repair.Status.{WorkshopType}
use fmms.Repair.Order
use fmms.Repair.Order.Items
use fmms.Repair.Order.{
  RepairOrder, RepairActivity, RepairPart, PartQuantity, LaborHours, TechnicianAssignment,
  RepairError,
}

-- A call of a method, with its arguments. `transition_to` is called by these methods alone.
pub data Call : Type 0 where
  assign_technician : TechnicianAssignment → Call
  approve : Option Text → Call
  reject_by_transport : Text → Call
  assign_workshop : WorkshopType → Option Text → Call
  assign_external_workshop : Option Text → Call
  confirm_external_delivery wait_for_external_pickup confirm_external_pickup : Call
  close_external_repair : DateTime → Call
  accept_internal_workshop : Call
  mark_repairable mark_no_repair_needed : Option Text → Call
  start_work : Call
  complete complete_waiting_driver_confirmation : DateTime → Call
  wait_for_parts resume_after_parts : Call
  confirm_handover : Bool → Call
  complete_after_transport_handover : DateTime → Call
  cancel : Call
  add_activity : RepairActivity → Call
  update_activity : Uuid → Text → LaborHours → Option Text → Call
  delete_activity : Uuid → Call
  add_part : RepairPart → Call
  update_part : Uuid → PartQuantity → Call
  delete_part : Uuid → Call
  link_sap_order : Text → Call

-- The method that a call names.
unfoldable pub apply : Call → Update RepairOrder RepairError
unfolding Order.assign_technician Order.approve Order.reject_by_transport Order.assign_workshop
    Order.assign_external_workshop Order.confirm_external_delivery Order.wait_for_external_pickup
    Order.confirm_external_pickup Order.close_external_repair Order.accept_internal_workshop
    Order.mark_repairable Order.mark_no_repair_needed Order.start_work Order.complete
    Order.complete_waiting_driver_confirmation Order.wait_for_parts Order.resume_after_parts
    Order.confirm_handover Order.complete_after_transport_handover Order.cancel Order.link_sap_order
    Items.add_activity Items.update_activity Items.delete_activity Items.add_part Items.update_part
    Items.delete_part
apply (assign_technician a) = Order.assign_technician a
apply (approve n) = Order.approve n
apply (reject_by_transport r) = Order.reject_by_transport r
apply (assign_workshop t w) = Order.assign_workshop t w
apply (assign_external_workshop w) = Order.assign_external_workshop w
apply confirm_external_delivery = Order.confirm_external_delivery
apply wait_for_external_pickup = Order.wait_for_external_pickup
apply confirm_external_pickup = Order.confirm_external_pickup
apply (close_external_repair d) = Order.close_external_repair d
apply accept_internal_workshop = Order.accept_internal_workshop
apply (mark_repairable n) = Order.mark_repairable n
apply (mark_no_repair_needed n) = Order.mark_no_repair_needed n
apply start_work = Order.start_work
apply (complete d) = Order.complete d
apply (complete_waiting_driver_confirmation d) = Order.complete_waiting_driver_confirmation d
apply wait_for_parts = Order.wait_for_parts
apply resume_after_parts = Order.resume_after_parts
apply (confirm_handover b) = Order.confirm_handover b
apply (complete_after_transport_handover d) = Order.complete_after_transport_handover d
apply cancel = Order.cancel
apply (link_sap_order n) = Order.link_sap_order n
apply (add_activity a) = Items.add_activity a
apply (update_activity i d h n) = Items.update_activity i d h n
apply (delete_activity i) = Items.delete_activity i
apply (add_part a) = Items.add_part a
apply (update_part i q) = Items.update_part i q
apply (delete_part i) = Items.delete_part i

-- The object after the calls, made one after the other, whether they raise or not.
unfoldable pub run : List Call → RepairOrder → RepairOrder
run [] o = o
run (c ∷ cs) o = run cs (apply c o).1

-- The fields that an order's work has written.
abbrev pub SameWork : RepairOrder → RepairOrder → Type 0
SameWork o p =
    (p.status ≡ o.status)
    × (p.workshop_type ≡ o.workshop_type)
    × (p.assignment ≡ o.assignment)
    × (p.activities ≡ o.activities)
    × (p.parts ≡ o.parts)
    × (p.completed_at ≡ o.completed_at)
    × (p.transport_rejection_reason ≡ o.transport_rejection_reason)
    × (p.workshop_decision_note ≡ o.workshop_decision_note)
