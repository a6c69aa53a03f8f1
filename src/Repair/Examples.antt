-- ===== src/Repair/Examples.antt =====
-- Repair orders that are run, and a referral: tests of the methods, and the theorems at concrete
-- ones.
use fmms.Prelude.{◌≡◌, refl, true, none, some, List, [], ◌∷◌, ok, err}
use fmms.Repair.Status.{
  created, completed, in_progress, waiting_driver_confirmation, waiting_external_admin_review,
  internal, allows, is_terminal, RepairOrderStatus-discrete, WorkshopType-discrete,
}
use fmms.Repair.Order.{RepairOrder, new_order, invalid_transition, transition_to}
use fmms.Repair.Lifecycle.{Call, SameWork, apply, run}
use fmms.Repair.Fits.{IsConsistent}
use fmms.Repair.Consistent.{run-IsConsistent}
use fmms.Repair.Closing.{closing_call, closing_call_closes, run_terminal}
use fmms.Repair.Failure.{apply_error}
use fmms.Repair.Referral
use fmms.Repair.Referral.{ReferralRequest, decided_once}

abbrev first_order : RepairOrder
first_order = new_order 1 2 3 4 100

-- A repair in an internal workshop, from the approval to the hand-over.
abbrev internal_repair : List Call
internal_repair =
    Call.approve (some (111 ∷ 107 ∷ []))
    ∷ Call.assign_workshop internal none
    ∷ Call.accept_internal_workshop
    ∷ Call.mark_repairable none
    ∷ Call.wait_for_parts
    ∷ Call.resume_after_parts
    ∷ Call.complete_waiting_driver_confirmation 200
    ∷ Call.confirm_handover true
    ∷ Call.complete_after_transport_handover 300
    ∷ []

abbrev closed_order : RepairOrder
closed_order = run internal_repair first_order

abbrev waiting_order : RepairOrder
waiting_order = record closed_order { status = waiting_driver_confirmation }

-- A repair in an external workshop, up to the review.
abbrev external_repair : List Call
external_repair =
    Call.approve none
    ∷ Call.assign_external_workshop (some (87 ∷ []))
    ∷ Call.confirm_external_delivery
    ∷ Call.confirm_external_pickup
    ∷ []

internal_repair_completes :
    (closed_order.status ≡ completed) × (closed_order.completed_at ≡ some 300)
unfolding run apply transition_to allows new_order RepairOrderStatus-discrete WorkshopType-discrete
internal_repair_completes = (refl, refl)

external_repair_reviewed : (run external_repair first_order).status ≡ waiting_external_admin_review
unfolding run apply transition_to allows new_order RepairOrderStatus-discrete WorkshopType-discrete
external_repair_reviewed = refl

start_work_refused :
    apply Call.start_work first_order ≡ (err (invalid_transition created in_progress), first_order)
unfolding apply new_order RepairOrderStatus-discrete WorkshopType-discrete
start_work_refused = refl

run-IsConsistent_example : IsConsistent (run internal_repair (new_order 1 2 3 4 100))
run-IsConsistent_example = run-IsConsistent 1 2 3 4 100 internal_repair

run_terminal_example :
    SameWork closed_order
      (run (Call.cancel ∷ Call.complete 400 ∷ Call.start_work ∷ []) closed_order)
unfolding run apply transition_to allows new_order is_terminal RepairOrderStatus-discrete
    WorkshopType-discrete
run_terminal_example =
    run_terminal (Call.cancel ∷ Call.complete 400 ∷ Call.start_work ∷ []) closed_order refl

apply_error_example : SameWork first_order (apply Call.start_work first_order).1
unfolding apply new_order RepairOrderStatus-discrete WorkshopType-discrete
apply_error_example =
    apply_error Call.start_work first_order {e = invalid_transition created in_progress} refl

closing_call_closes_example :
    ((apply (closing_call waiting_order.status) waiting_order).0 ≡ ok tt)
    × (is_terminal (apply (closing_call waiting_order.status) waiting_order).1.status ≡ true)
unfolding is_terminal RepairOrderStatus-discrete
closing_call_closes_example = closing_call_closes waiting_order refl

abbrev referral : ReferralRequest
referral = record {
  id = 1;
  repair_order_id = 2;
  vehicle_id = 3;
  fault_id = 4;
  status = Referral.requested;
  requested_by_id = 5;
  requested_at = 10;
  created_at = 10;
  updated_at = 10;
  workshop_id = none;
  reason = [];
  approved_by_id = none;
  approved_at = none;
  rejected_by_id = none;
  rejected_at = none;
  rejection_reason = none;
}

decided_once_example :
    Referral.run
      (Referral.Call.reject_by 7 30 [] ∷ Referral.Call.move Referral.requested ∷ [])
      (Referral.apply (Referral.Call.approve_by 6 20) referral).1
    ≡ (Referral.apply (Referral.Call.approve_by 6 20) referral).1
unfolding Referral.apply Referral.approve Referral.transition_to Referral.allowed_transitions
    Referral.ReferralStatus-discrete
decided_once_example =
    decided_once (Referral.Call.approve_by 6 20)
      (Referral.Call.reject_by 7 30 [] ∷ Referral.Call.move Referral.requested ∷ []) referral refl
