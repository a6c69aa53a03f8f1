-- ===== src/Repair/Closing.antt =====
-- A closed order stays as it is, and every order can be closed.
use fmms.Prelude.{Bool, true, false, ◌≡◌, ◌≢◌, refl, ◌∙◌, none, some, List, [], ◌∷◌, arith, ok}
use fmms.Repair.Status.{
  RepairOrderStatus, created, approved, workshop_assigned, waiting_external_referral_approval,
  waiting_external_delivery, external_repair_in_progress, waiting_external_pickup,
  waiting_external_admin_review, waiting_workshop_confirmation, waiting_parts, assigned,
  in_progress, waiting_driver_confirmation, waiting_transport_final_approval, accepted_by_driver,
  rejected_by_driver, no_repair_needed, completed, cancelled, internal, external, allows,
  is_terminal, is_mutable,
}
use fmms.Repair.Order.{RepairOrder}
use fmms.Repair.Lifecycle.{Call, SameWork, apply, run}

terminal-allows : (s t : RepairOrderStatus) → is_terminal s ≡ true → allows s t ≡ false
unfolding is_terminal allows
terminal-allows created t h = ground arith
terminal-allows _ t h = ground arith

terminal-is_mutable : (s : RepairOrderStatus) → is_terminal s ≡ true → is_mutable s ≡ false
unfolding is_terminal is_mutable
terminal-is_mutable created h = ground arith
terminal-is_mutable _ h = ground arith

-- Statuses that a guard asks for are not terminal.
guards_open :
    (is_terminal created ≡ false)
    × (is_terminal approved ≡ false)
    × (is_terminal workshop_assigned ≡ false)
    × (is_terminal waiting_workshop_confirmation ≡ false)
    × (is_terminal waiting_external_delivery ≡ false)
unfolding is_terminal
guards_open = (refl, refl, refl, refl, refl)

abbrev pub links_sap : Call → Bool
links_sap (Call.link_sap_order n) = true
links_sap _ = false

-- What a method asks of the tables, at a terminal status.
terminal_facts :
    (s : RepairOrderStatus)
    → is_terminal s ≡ true
    → (is_mutable s ≡ false)
      × (allows s approved ≡ false)
      × (allows s workshop_assigned ≡ false)
      × (allows s waiting_external_referral_approval ≡ false)
      × (allows s waiting_external_delivery ≡ false)
      × (allows s external_repair_in_progress ≡ false)
      × (allows s waiting_external_pickup ≡ false)
      × (allows s waiting_external_admin_review ≡ false)
      × (allows s waiting_workshop_confirmation ≡ false)
      × (allows s waiting_parts ≡ false)
      × (allows s assigned ≡ false)
      × (allows s in_progress ≡ false)
      × (allows s waiting_driver_confirmation ≡ false)
      × (allows s waiting_transport_final_approval ≡ false)
      × (allows s rejected_by_driver ≡ false)
      × (allows s no_repair_needed ≡ false)
      × (allows s completed ≡ false)
      × (allows s cancelled ≡ false)
terminal_facts s h = (
  terminal-is_mutable s h,
  terminal-allows s approved h,
  terminal-allows s workshop_assigned h,
  terminal-allows s waiting_external_referral_approval h,
  terminal-allows s waiting_external_delivery h,
  terminal-allows s external_repair_in_progress h,
  terminal-allows s waiting_external_pickup h,
  terminal-allows s waiting_external_admin_review h,
  terminal-allows s waiting_workshop_confirmation h,
  terminal-allows s waiting_parts h,
  terminal-allows s assigned h,
  terminal-allows s in_progress h,
  terminal-allows s waiting_driver_confirmation h,
  terminal-allows s waiting_transport_final_approval h,
  terminal-allows s rejected_by_driver h,
  terminal-allows s no_repair_needed h,
  terminal-allows s completed h,
  terminal-allows s cancelled h,
)

-- On a terminal order a method other than `link_sap_order` raises, and the work stays as it is.
pub apply_terminal :
    (c : Call) (o : RepairOrder)
    → is_terminal o.status ≡ true
    → SameWork o (apply c o).1 × (links_sap c ≡ false → (apply c o).0 ≢ ok tt)
unfolding apply
apply_terminal (Call.assign_workshop internal w) o h =
    ground (arith, guards_open, terminal_facts o.status h)
apply_terminal (Call.assign_workshop external w) o h =
    ground (arith, guards_open, terminal_facts o.status h)
apply_terminal (Call.mark_repairable none) o h =
    ground (arith, guards_open, terminal_facts o.status h)
apply_terminal (Call.mark_repairable (some [])) o h =
    ground (arith, guards_open, terminal_facts o.status h)
apply_terminal (Call.mark_no_repair_needed none) o h =
    ground (arith, guards_open, terminal_facts o.status h)
apply_terminal (Call.mark_no_repair_needed (some [])) o h =
    ground (arith, guards_open, terminal_facts o.status h)
apply_terminal (Call.confirm_handover true) o h =
    ground (arith, guards_open, terminal_facts o.status h)
apply_terminal _ o h = ground (arith, guards_open, terminal_facts o.status h)

SameWork-trans : (o p q : RepairOrder) → SameWork o p → SameWork p q → SameWork o q
SameWork-trans o p q h k =
    (k.0 ∙ h.0, k.1 ∙ h.1, k.2 ∙ h.2, k.3 ∙ h.3, k.4 ∙ h.4, k.5 ∙ h.5, k.6 ∙ h.6, k.7 ∙ h.7)

-- Once an order is completed, cancelled, rejected or found to need no repair, no sequence of calls of
-- its methods changes its status, workshop type, technician, activities, parts, end of work, rejection
-- reason or workshop note.
pub run_terminal :
    (cs : List Call) (o : RepairOrder) → is_terminal o.status ≡ true → SameWork o (run cs o)
unfolding run
run_terminal [] o h = (refl, refl, refl, refl, refl, refl, refl, refl)
run_terminal (c ∷ cs) o h =
    let (same, _) = apply_terminal c o h in
    SameWork-trans o (apply c o).1 (run cs (apply c o).1) same
      (run_terminal cs (apply c o).1 (rw same.0 h))

-- The call that closes an order.
unfoldable pub closing_call : RepairOrderStatus → Call
closing_call waiting_driver_confirmation = Call.confirm_handover false
closing_call accepted_by_driver = Call.complete 0
closing_call s = Call.cancel

-- An order that is not terminal can be closed by one call, whatever its data: a driver's rejection
-- while it waits for the driver, a completion after a driver's acceptance, a cancellation otherwise.
pub closing_call_closes :
    (o : RepairOrder)
    → is_terminal o.status ≡ false
    → ((apply (closing_call o.status) o).0 ≡ ok tt)
      × (is_terminal (apply (closing_call o.status) o).1.status ≡ true)
unfolding closing_call apply is_terminal allows
closing_call_closes o h = ground arith
