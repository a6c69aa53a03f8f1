-- ===== src/Repair/Identity.antt =====
-- What no method of a repair order changes.
use fmms.Prelude.{◌≡◌, true, none, some, [], arith}
use fmms.Repair.Status.{internal, external}
use fmms.Repair.Order.{RepairOrder}
use fmms.Repair.Lifecycle.{Call, apply}

-- The keys of an order.
abbrev pub SameKeys : RepairOrder → RepairOrder → Type 0
SameKeys o p = (p.id ≡ o.id) × (p.fault_id ≡ o.fault_id) × (p.vehicle_id ≡ o.vehicle_id)

pub apply-SameKeys : (c : Call) (o : RepairOrder) → SameKeys o (apply c o).1
unfolding apply
apply-SameKeys (Call.assign_workshop internal w) o = ground arith
apply-SameKeys (Call.assign_workshop external w) o = ground arith
apply-SameKeys (Call.mark_repairable none) o = ground arith
apply-SameKeys (Call.mark_repairable (some [])) o = ground arith
apply-SameKeys (Call.mark_no_repair_needed none) o = ground arith
apply-SameKeys (Call.mark_no_repair_needed (some [])) o = ground arith
apply-SameKeys (Call.confirm_handover true) o = ground arith
apply-SameKeys _ o = ground arith
