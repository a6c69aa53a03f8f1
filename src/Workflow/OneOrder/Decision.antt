-- ===== src/Workflow/OneOrder/Decision.antt =====
-- The technical decision and the edits of an order keep the rule of one order for each fault.
use fmms.Prelude.{
  Bool, Option, some, [], ◌∷◌, Uuid, DateTime, Text, ℤ, Decimal, blank_to_none, Result, ok, err,
}
use fmms.Repair.Order
use fmms.Repair.Order.{RepairOrder}
use fmms.Repair.Lifecycle.{Call as Action, apply}
use fmms.Workflow.Steps.{change_order}
use fmms.Fault.Entity.{Fault, FaultError, invalid_transition, already_closed}
use fmms.Workflow.Rules.{
  OneOrder, Quiet, Keeps, Loaded, Quiet-Keeps, Quiet-then, Keeps-bind, Keeps-load, keeps_rules,
}
use fmms.Workflow.Quiet.{quiet_rules, shared_rules, Quiet-built}
use fmms.Workflow.Change.{Keeps-change, Keeps-changed, Loaded-Keeps, apply-Advances}
use fmms.Workflow.Database.{SapError, idempotency, exhausted, integration}
use fmms.Workflow.Decision.{
  SapManager, document_number, sync_to_sap, started_fault, start_fault, mark_repairable,
  mark_no_repair_needed, decide_technically,
}
use fmms.Workflow.Editing.{
  assign_technician, add_activity, new_activity, update_activity, delete_activity, add_part,
  new_part, update_part, delete_part,
}
use fmms.Workflow.OneOrder.Handovers.{Quiet-save_when_absent}
use fmms.Workflow.OneOrder.Distribution.{close_fault-Keeps}

pub Quiet-document_number : (r : Result SapError Text) → Quiet (document_number r)
unfolding document_number
Quiet-document_number (ok []) = search quiet_rules
Quiet-document_number (ok (c ∷ t)) = search quiet_rules
Quiet-document_number (err idempotency) = search quiet_rules
Quiet-document_number (err exhausted) = search quiet_rules
Quiet-document_number (err integration) = search quiet_rules

link-Keeps :
    (n : Text) (now : DateTime) (o : RepairOrder)
    → Keeps (Loaded o) (change_order (Order.link_sap_order n) now o)
unfolding apply
link-Keeps n now o = Keeps-changed now o (apply-Advances (Action.link_sap_order n))

pub sync-Keeps :
    (sap : SapManager) (i : Uuid) (now : DateTime) → Keeps OneOrder (sync_to_sap sap i now)
unfolding sync_to_sap
sync-Keeps sap i now = search (quiet_rules, keeps_rules, Quiet-document_number, link-Keeps) depth 14

Quiet-started_fault :
    (now : DateTime) (x : Result FaultError (Unit {0}) × Fault) → Quiet (started_fault now x)
unfolding started_fault
Quiet-started_fault now (ok _, f) = search quiet_rules
Quiet-started_fault now (err (invalid_transition s t), f) = search quiet_rules
Quiet-started_fault now (err (already_closed i), f) = search quiet_rules

Quiet-start_fault : (now : DateTime) (f : Fault) → Quiet (start_fault now f)
unfolding start_fault
Quiet-start_fault now f = search (quiet_rules, Quiet-started_fault)

mark_repairable-Keeps :
    (sap : SapManager) (i : Uuid) (comment : Option Text) (user : Uuid) (now : DateTime)
    → Keeps OneOrder (mark_repairable sap i comment user now)
unfolding mark_repairable apply
mark_repairable-Keeps sap i comment user now = Keeps-bind (sync-Keeps sap i now) λ _.
    Keeps-load i λ o.
      Keeps-change now o (apply-Advances (Action.mark_repairable (blank_to_none comment)))
        λ p. Quiet-Keeps (search (shared_rules, Quiet-start_fault) depth 10)

mark_no_repair-Keeps :
    (default : Text) (fresh i : Uuid) (comment : Option Text) (user : Uuid) (now : DateTime)
    → Keeps OneOrder (mark_no_repair_needed default fresh i comment user now)
unfolding mark_no_repair_needed apply
mark_no_repair-Keeps default fresh i comment user now = Keeps-load i λ o.
    Keeps-change now o (apply-Advances (Action.mark_no_repair_needed (blank_to_none comment))) λ p.
      Keeps-bind (close_fault-Keeps p.fault_id (some user) now)
        λ _. Quiet-Keeps (search (shared_rules, Quiet-save_when_absent))

pub decide-Keeps :
    (sap : SapManager) (default : Text) (fresh i : Uuid) (b : Bool) (comment : Option Text)
    (user : Uuid) (now : DateTime)
    → Keeps OneOrder (decide_technically sap default fresh i b comment user now)
unfolding decide_technically
decide-Keeps sap default fresh i b comment user now = Keeps-load i λ o.
    Loaded-Keeps o
      (search (quiet_rules, keeps_rules, mark_repairable-Keeps, mark_no_repair-Keeps) depth 10)

pub assign_technician-Keeps :
    (i technician : Uuid) (now : DateTime) → Keeps OneOrder (assign_technician i technician now)
unfolding assign_technician apply
assign_technician-Keeps i technician now = Keeps-load i λ o. Keeps-changed now o (
    apply-Advances
      (Action.assign_technician record { technician_id = technician; assigned_at = now }))

pub add_activity-Keeps :
    (fresh i : Uuid) (text : Text) (hours : Decimal) (by : Uuid) (at : DateTime)
    (notes : Option Text) (now : DateTime)
    → Keeps OneOrder (add_activity fresh i text hours by at notes now)
unfolding add_activity apply
add_activity-Keeps fresh i text hours by at notes now = Keeps-load i λ o.
    Quiet-then (Quiet-built _) λ h.
      Keeps-changed now o
        (apply-Advances (Action.add_activity (new_activity fresh text h by at notes)))

pub update_activity-Keeps :
    (i activity : Uuid) (text : Text) (hours : Decimal) (notes : Option Text) (now : DateTime)
    → Keeps OneOrder (update_activity i activity text hours notes now)
unfolding update_activity apply
update_activity-Keeps i activity text hours notes now = Keeps-load i λ o.
    Quiet-then (Quiet-built _)
      λ h. Keeps-changed now o (apply-Advances (Action.update_activity activity text h notes))

pub delete_activity-Keeps :
    (i activity : Uuid) (now : DateTime) → Keeps OneOrder (delete_activity i activity now)
unfolding delete_activity apply
delete_activity-Keeps i activity now =
    Keeps-load i λ o. Keeps-changed now o (apply-Advances (Action.delete_activity activity))

pub add_part-Keeps :
    (fresh i : Uuid) (material : Text) (quantity : ℤ) (unit : Text) (now : DateTime)
    → Keeps OneOrder (add_part fresh i material quantity unit now)
unfolding add_part apply
add_part-Keeps fresh i material quantity unit now = Keeps-load i λ o.
    Quiet-then (Quiet-built _)
      λ q. Keeps-changed now o (apply-Advances (Action.add_part (new_part fresh q)))

pub update_part-Keeps :
    (i part : Uuid) (material : Text) (quantity : ℤ) (unit : Text) (now : DateTime)
    → Keeps OneOrder (update_part i part material quantity unit now)
unfolding update_part apply
update_part-Keeps i part material quantity unit now = Keeps-load i λ o.
    Quiet-then (Quiet-built _) λ q. Keeps-changed now o (apply-Advances (Action.update_part part q))

pub delete_part-Keeps : (i part : Uuid) (now : DateTime) → Keeps OneOrder (delete_part i part now)
unfolding delete_part apply
delete_part-Keeps i part now =
    Keeps-load i λ o. Keeps-changed now o (apply-Advances (Action.delete_part part))
