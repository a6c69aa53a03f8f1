-- ===== src/Repair/Consistent.antt =====
-- The data that an order holds agrees with its status, by the calls of its methods.
use fmms.Prelude.{
  raise, >>-keeps, when-keeps, Update, ◌>>◌, when, Option-cases, ok, Text, not, Bool, true, false,
  ◌≡◌, ◌≢◌, ◌⊎◌, inl, inr, refl, Option, none, some, List, [], ◌∷◌, Uuid, DateTime, arith, is_some,
}
use fmms.Repair.Status.{
  RepairOrderStatus-discrete, WorkshopType-discrete, RepairOrderStatus, approved, workshop_assigned,
  waiting_external_referral_approval, waiting_external_delivery, external_repair_in_progress,
  waiting_external_pickup, waiting_external_admin_review, waiting_workshop_confirmation,
  waiting_parts, in_progress, waiting_transport_final_approval, rejected_by_driver,
  no_repair_needed, cancelled, WorkshopType, internal, external, allows,
}
use fmms.Repair.Order
use fmms.Repair.Order.Items
use fmms.Repair.Order.{
  Operation, assert_mutable, op_delete_activity, op_delete_part, activity_not_found, part_not_found,
  RepairError, RepairOrder, new_order, transition_to,
}
use fmms.Repair.Lifecycle.{Call, apply, run}
use fmms.Repair.Fits.{fits, IsConsistent, new_order-IsConsistent, plain, fits-assigned, step}

-- The edges that follow a write of the workshop type.
assignment_edges :
    (allows approved workshop_assigned ≡ true)
    × (allows approved waiting_external_referral_approval ≡ true)
    × (allows approved waiting_external_delivery ≡ true)
    × (allows waiting_external_delivery waiting_external_delivery ≡ true)
unfolding allows
assignment_edges = (refl, refl, refl, refl)

-- From APPROVED with no workshop, the workshop and its status are set.
assign_workshop-approved :
    (t : WorkshopType) (w : Option Text) (o : RepairOrder)
    → o.status ≡ approved
    → o.workshop_type ≡ none
    → Order.assign_workshop t w o ≡ (
      ok tt,
      record o { workshop_type = some t; workshop_id = w; status = Order.assignment_target t },
    )
unfolding Order.assign_workshop WorkshopType-discrete
assign_workshop-approved internal w o p q = ground (arith, assignment_edges)
assign_workshop-approved external w o p q = ground (arith, assignment_edges)

-- Otherwise nothing is written.
assign_workshop-refused :
    (t : WorkshopType) (w : Option Text) (o : RepairOrder)
    → (o.status ≢ approved) ⊎ (o.workshop_type ≢ none)
    → (Order.assign_workshop t w o).1 ≡ o
unfolding Order.assign_workshop
assign_workshop-refused t w o (inl p) = ground (arith, assignment_edges)
assign_workshop-refused t w o (inr p) = ground (arith, assignment_edges)

fits-assignment :
    (t : WorkshopType) (d a r : Bool) → fits (Order.assignment_target t) (some t) d a r ≡ true
unfolding fits WorkshopType-discrete
fits-assignment internal d a r = refl
fits-assignment external d a r = refl

assign_workshop-IsConsistent :
    (t : WorkshopType) (w : Option Text) (o : RepairOrder)
    → IsConsistent o
    → IsConsistent (Order.assign_workshop t w o).1
assign_workshop-IsConsistent t w o h = elim (RepairOrderStatus-discrete o.status approved) [
  | no p ↦ rw (assign_workshop-refused t w o (inl p)) h
  | yes p ↦ elim (Option-cases o.workshop_type) [
    | inl q ↦ rw (assign_workshop-approved t w o p q) (fits-assignment t _ _ _)
    | inr (_, q) ↦ rw (assign_workshop-refused t w o (inr (λ e. cc))) h
  ]
]

abbrev Preserves : Update RepairOrder RepairError → Type 0
Preserves m = (o : RepairOrder) → IsConsistent o → IsConsistent (m o).1

transition_to-Preserves : (t : RepairOrderStatus) → plain t ≡ true → Preserves (transition_to t)
unfolding transition_to
transition_to-Preserves t k o h = ground (arith, step o t)

wait_for_external_pickup-Preserves : Preserves Order.wait_for_external_pickup
unfolding Order.wait_for_external_pickup
wait_for_external_pickup-Preserves o h = ground (arith, step o waiting_external_pickup)

-- The body of `confirm_external_pickup` after its guard.
picks_up : Update RepairOrder RepairError
picks_up o =
    (when (Order.status_is external_repair_in_progress o) Order.wait_for_external_pickup
        >> transition_to waiting_external_admin_review)
      o

picks_up-Preserves : Preserves picks_up
unfolding picks_up
picks_up-Preserves o =
    let wait =
      when (Order.status_is external_repair_in_progress o) Order.wait_for_external_pickup in
    >>-keeps {P = IsConsistent} wait (transition_to waiting_external_admin_review)
      (when-keeps {P = IsConsistent} (Order.status_is external_repair_in_progress o)
        Order.wait_for_external_pickup wait_for_external_pickup-Preserves)
      (transition_to-Preserves waiting_external_admin_review refl) o

confirm_external_pickup-Preserves : Preserves Order.confirm_external_pickup
unfolding Order.confirm_external_pickup picks_up
confirm_external_pickup-Preserves =
    >>-keeps {P = IsConsistent} (Order.require_workshop external waiting_external_admin_review)
      picks_up
      (λ o.
        when-keeps {P = IsConsistent} (not (Order.workshop_is external o.workshop_type))
          (Order.refuse waiting_external_admin_review) (λ p h. h) o)
      picks_up-Preserves

assert_mutable-Preserves : (op : Operation) → Preserves (assert_mutable op)
unfolding assert_mutable
assert_mutable-Preserves op o h = ground arith

delete_activity-Preserves : (i : Uuid) → Preserves (Items.delete_activity i)
unfolding Items.delete_activity
delete_activity-Preserves i =
    >>-keeps {P = IsConsistent} (assert_mutable op_delete_activity) _
      (assert_mutable-Preserves op_delete_activity)
      (λ o.
        >>-keeps {P = IsConsistent} (when _ (raise (activity_not_found i))) _
          (when-keeps {P = IsConsistent} _ (raise (activity_not_found i)) (λ p h. h)) (λ p h. h) o)

delete_part-Preserves : (i : Uuid) → Preserves (Items.delete_part i)
unfolding Items.delete_part
delete_part-Preserves i =
    >>-keeps {P = IsConsistent} (assert_mutable op_delete_part) _
      (assert_mutable-Preserves op_delete_part)
      (λ o.
        >>-keeps {P = IsConsistent} (when _ (raise (part_not_found i))) _
          (when-keeps {P = IsConsistent} _ (raise (part_not_found i)) (λ p h. h)) (λ p h. h) o)

apply-IsConsistent : (c : Call) (o : RepairOrder) → IsConsistent o → IsConsistent (apply c o).1
unfolding apply
apply-IsConsistent (Call.assign_technician n) o h =
    unfold fits in
    ground (
      arith,
      fits-assigned o.status o.workshop_type (is_some o.completed_at) (is_some o.assignment)
          (is_some o.transport_rejection_reason),
    )
apply-IsConsistent (Call.approve n) o h = ground (arith, step o approved)
apply-IsConsistent (Call.reject_by_transport n) o h = unfold fits in ground arith
apply-IsConsistent (Call.assign_workshop t w) o h = assign_workshop-IsConsistent t w o h
apply-IsConsistent (Call.mark_repairable none) o h = ground (arith, step o in_progress)
apply-IsConsistent (Call.mark_repairable (some [])) o h = ground (arith, step o in_progress)
apply-IsConsistent (Call.mark_repairable (some (_ ∷ _))) o h = ground (arith, step o in_progress)
apply-IsConsistent Call.confirm_external_pickup o h = confirm_external_pickup-Preserves o h
apply-IsConsistent (Call.delete_activity n) o h = delete_activity-Preserves n o h
apply-IsConsistent (Call.update_activity n d l k) o h = ground arith
apply-IsConsistent (Call.link_sap_order n) o h = ground arith
apply-IsConsistent (Call.delete_part i) o h = delete_part-Preserves i o h
apply-IsConsistent (Call.update_part i q) o h = ground arith
apply-IsConsistent (Call.add_part a) o h = ground arith
apply-IsConsistent (Call.add_activity a) o h = ground arith
apply-IsConsistent (Call.confirm_handover false) o h = ground (arith, step o rejected_by_driver)
apply-IsConsistent (Call.confirm_handover true) o h =
    ground (arith, step o waiting_transport_final_approval)
apply-IsConsistent Call.resume_after_parts o h = ground (arith, step o in_progress)
apply-IsConsistent Call.wait_for_parts o h = ground (arith, step o waiting_parts)
apply-IsConsistent Call.start_work o h = ground (arith, step o in_progress)
apply-IsConsistent (Call.mark_no_repair_needed none) o h = ground (arith, step o no_repair_needed)
apply-IsConsistent (Call.mark_no_repair_needed (some [])) o h =
    ground (arith, step o no_repair_needed)
apply-IsConsistent (Call.mark_no_repair_needed (some (_ ∷ _))) o h =
    ground (arith, step o no_repair_needed)
apply-IsConsistent Call.accept_internal_workshop o h =
    ground (arith, step o waiting_workshop_confirmation)
apply-IsConsistent Call.wait_for_external_pickup o h =
    ground (arith, step o waiting_external_pickup)
apply-IsConsistent Call.confirm_external_delivery o h =
    ground (arith, step o external_repair_in_progress)
apply-IsConsistent Call.cancel o h = ground (arith, step o cancelled)
apply-IsConsistent (Call.complete_after_transport_handover d) o h = unfold fits in ground arith
apply-IsConsistent (Call.complete_waiting_driver_confirmation d) o h = unfold fits in ground arith
apply-IsConsistent (Call.complete d) o h = unfold fits in ground arith
apply-IsConsistent (Call.close_external_repair d) o h = unfold fits in ground arith
apply-IsConsistent (Call.assign_external_workshop w) o h =
    unfold fits in ground (arith, assignment_edges)

run_keeps-IsConsistent :
    (cs : List Call) (o : RepairOrder) → IsConsistent o → IsConsistent (run cs o)
unfolding run
run_keeps-IsConsistent [] o h = h
run_keeps-IsConsistent (c ∷ cs) o h =
    run_keeps-IsConsistent cs (apply c o).1 (apply-IsConsistent c o h)

-- Whatever methods but a bare `transition_to` are called on a new order, raising or not, its data
-- goes on to fit its status: the workshop type is unset, internal or external as the status asks, a finished order has its
-- `completed_at`, an ASSIGNED one its technician, one that transport rejected its reason, and
-- ACCEPTED_BY_DRIVER, which the table allows, is never reached.
pub run-IsConsistent :
    (i v f u : Uuid) (t : DateTime) (cs : List Call) → IsConsistent (run cs (new_order i v f u t))
run-IsConsistent i v f u t cs =
    run_keeps-IsConsistent cs (new_order i v f u t) (new_order-IsConsistent i v f u t)
