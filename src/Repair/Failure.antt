-- ===== src/Repair/Failure.antt =====
-- What a call has done, by how it ended.
use fmms.Prelude.{Uuid, true, false, ◌≡◌, refl, ℕ, Option, none, some, [], ◌∷◌, arith, err, Text}
use fmms.Repair.Status.{
  approved, workshop_assigned, waiting_external_referral_approval, waiting_external_delivery,
  external_repair_in_progress, waiting_external_pickup, waiting_external_admin_review,
  waiting_workshop_confirmation, in_progress, no_repair_needed, internal, external, allows,
}
use fmms.Repair.Order.{RepairOrder, RepairError}
use fmms.Repair.Order
use fmms.Repair.Order.Items
use fmms.Repair.Lifecycle.{Call, SameWork, apply}

-- The edges that a method takes after it has written a field.
later_edges :
    (allows approved workshop_assigned ≡ true)
    × (allows approved waiting_external_referral_approval ≡ true)
    × (allows approved waiting_external_delivery ≡ true)
    × (allows waiting_external_delivery waiting_external_delivery ≡ true)
    × (allows external_repair_in_progress waiting_external_pickup ≡ true)
    × (allows waiting_external_pickup waiting_external_admin_review ≡ true)
    × (allows workshop_assigned in_progress ≡ true)
    × (allows waiting_workshop_confirmation in_progress ≡ true)
    × (allows workshop_assigned no_repair_needed ≡ true)
    × (allows waiting_workshop_confirmation no_repair_needed ≡ true)
unfolding allows
later_edges = (refl, refl, refl, refl, refl, refl, refl, refl, refl, refl)

mark_repairable_error_unset :
    (o : RepairOrder) {e : RepairError}
    → (Order.mark_repairable none o).0 ≡ err e
    → SameWork o (Order.mark_repairable none o).1
unfolding Order.mark_repairable
mark_repairable_error_unset o h = ground (arith, later_edges)

mark_repairable_error_empty :
    (o : RepairOrder) {e : RepairError}
    → (Order.mark_repairable (some []) o).0 ≡ err e
    → SameWork o (Order.mark_repairable (some []) o).1
unfolding Order.mark_repairable
mark_repairable_error_empty o h = ground (arith, later_edges)

mark_repairable_error_text :
    (x : ℕ) (xs : Text) (o : RepairOrder) {e : RepairError}
    → (Order.mark_repairable (some (x ∷ xs)) o).0 ≡ err e
    → SameWork o (Order.mark_repairable (some (x ∷ xs)) o).1
unfolding Order.mark_repairable
mark_repairable_error_text x xs o h = ground (arith, later_edges)

mark_no_repair_needed_error_unset :
    (o : RepairOrder) {e : RepairError}
    → (Order.mark_no_repair_needed none o).0 ≡ err e
    → SameWork o (Order.mark_no_repair_needed none o).1
unfolding Order.mark_no_repair_needed
mark_no_repair_needed_error_unset o h = ground (arith, later_edges)

mark_no_repair_needed_error_empty :
    (o : RepairOrder) {e : RepairError}
    → (Order.mark_no_repair_needed (some []) o).0 ≡ err e
    → SameWork o (Order.mark_no_repair_needed (some []) o).1
unfolding Order.mark_no_repair_needed
mark_no_repair_needed_error_empty o h = ground (arith, later_edges)

mark_no_repair_needed_error_text :
    (x : ℕ) (xs : Text) (o : RepairOrder) {e : RepairError}
    → (Order.mark_no_repair_needed (some (x ∷ xs)) o).0 ≡ err e
    → SameWork o (Order.mark_no_repair_needed (some (x ∷ xs)) o).1
unfolding Order.mark_no_repair_needed
mark_no_repair_needed_error_text x xs o h = ground (arith, later_edges)

delete_activity_error :
    (i : Uuid) (o : RepairOrder) {e : RepairError}
    → (Items.delete_activity i o).0 ≡ err e
    → SameWork o (Items.delete_activity i o).1
unfolding Items.delete_activity
delete_activity_error i o h = ground arith

delete_part_error :
    (i : Uuid) (o : RepairOrder) {e : RepairError}
    → (Items.delete_part i o).0 ≡ err e
    → SameWork o (Items.delete_part i o).1
unfolding Items.delete_part
delete_part_error i o h = ground arith

confirm_external_pickup_error :
    (o : RepairOrder) {e : RepairError}
    → (Order.confirm_external_pickup o).0 ≡ err e
    → SameWork o (Order.confirm_external_pickup o).1
unfolding Order.confirm_external_pickup
confirm_external_pickup_error o h = ground (arith, later_edges)

assign_external_workshop_error :
    (w : Option Text) (o : RepairOrder) {e : RepairError}
    → (Order.assign_external_workshop w o).0 ≡ err e
    → SameWork o (Order.assign_external_workshop w o).1
unfolding Order.assign_external_workshop
assign_external_workshop_error w o h = ground (arith, later_edges)

-- A method that raises leaves the order's status, workshop type, technician, activities, parts, end of
-- work, rejection reason and workshop note as they were.
pub apply_error :
    (c : Call) (o : RepairOrder) {e : RepairError}
    → (apply c o).0 ≡ err e
    → SameWork o (apply c o).1
unfolding apply
apply_error (Call.assign_workshop internal w) o h = ground (arith, later_edges)
apply_error (Call.assign_workshop external w) o h = ground (arith, later_edges)
apply_error (Call.assign_external_workshop w) o h = assign_external_workshop_error w o h
apply_error Call.confirm_external_pickup o h = confirm_external_pickup_error o h
apply_error (Call.mark_repairable none) o h = mark_repairable_error_unset o h
apply_error (Call.mark_repairable (some [])) o h = mark_repairable_error_empty o h
apply_error (Call.mark_repairable (some (x ∷ xs))) o h = mark_repairable_error_text x xs o h
apply_error (Call.mark_no_repair_needed none) o h = mark_no_repair_needed_error_unset o h
apply_error (Call.mark_no_repair_needed (some [])) o h = mark_no_repair_needed_error_empty o h
apply_error (Call.mark_no_repair_needed (some (x ∷ xs))) o h =
    mark_no_repair_needed_error_text x xs o h
apply_error (Call.confirm_handover true) o h = ground arith
apply_error (Call.confirm_handover false) o h = ground arith
apply_error (Call.delete_activity i) o h = delete_activity_error i o h
apply_error (Call.delete_part i) o h = delete_part_error i o h
apply_error _ o h = ground arith
