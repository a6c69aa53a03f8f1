-- ===== src/Workflow/OneOrder/Transport.antt =====
-- The services of transport keep the rule of one order for each fault.
use fmms.Prelude.{Option, none, some, Uuid, DateTime, Text, blank_to_none, strip}
use fmms.Repair.Status.{WorkshopType}
use fmms.Repair.Order.{RepairOrder}
use fmms.Repair.Lifecycle.{Call as Action, apply}
use fmms.Repair.Referral.{ReferralRequest}
use fmms.Fault.Entity.{Fault}
use fmms.Workflow.Steps.{or_now}
use fmms.Workflow.Rules.{OneOrder, Quiet, Keeps, Quiet-Keeps, Quiet-then, Keeps-load}
use fmms.Workflow.Quiet.{quiet_rules, shared_rules}
use fmms.Workflow.Change.{Keeps-change, Keeps-end, Keeps-new, apply-Advances, complete-Ends}
use fmms.Workflow.Transport.{
  approve_repair_order, reopen_fault, reject_repair_order, open_referral, create_referral, refer,
  assign_workshop, check_cost, approve_handover, reject_handover,
}

pub approve-Keeps :
    (i : Uuid) (note : Option Text) (user : Uuid) (now : DateTime)
    → Keeps OneOrder (approve_repair_order i note user now)
unfolding approve_repair_order apply
approve-Keeps i note user now = Keeps-load i λ o.
    Keeps-change now o (apply-Advances (Action.approve (blank_to_none note)))
      λ p. Quiet-Keeps (search shared_rules)

pub Quiet-reopen_fault : (now : DateTime) (f : Fault) → Quiet (reopen_fault now f)
unfolding reopen_fault
Quiet-reopen_fault now f = search quiet_rules

pub reject-Keeps :
    (i : Uuid) (reason : Text) (user : Uuid) (now : DateTime)
    → Keeps OneOrder (reject_repair_order i reason user now)
unfolding reject_repair_order apply
reject-Keeps i reason user now = Keeps-load i λ o.
    Keeps-change now o (apply-Advances (Action.reject_by_transport (strip reason)))
      λ p. Quiet-Keeps (search (shared_rules, Quiet-reopen_fault))

Quiet-open_referral : (i : Uuid) → Quiet (open_referral i)
unfolding open_referral
Quiet-open_referral i = search quiet_rules

Quiet-create_referral :
    (fresh : Uuid) (o : RepairOrder) (reason : Text) (user : Uuid) (now : DateTime)
    (r : Option ReferralRequest)
    → Quiet (create_referral fresh o reason user now r)
unfolding create_referral
Quiet-create_referral fresh o reason user now none = search quiet_rules
Quiet-create_referral fresh o reason user now (some r) = search quiet_rules

Quiet-refer :
    (fresh : Uuid) (o : RepairOrder) (reason : Text) (user : Uuid) (now : DateTime)
    → Quiet (refer fresh o reason user now)
unfolding refer
Quiet-refer fresh o reason user now =
    search (quiet_rules, Quiet-open_referral, Quiet-create_referral)

pub assign_workshop-Keeps :
    (fresh i : Uuid) (kind : WorkshopType) (workshop : Option Text) (reason : Text) (user : Uuid)
    (now : DateTime)
    → Keeps OneOrder (assign_workshop fresh i kind workshop reason user now)
unfolding assign_workshop apply
assign_workshop-Keeps fresh i kind workshop reason user now = Keeps-load i λ o.
    Keeps-change now o (apply-Advances (Action.assign_workshop kind workshop))
      λ p. Quiet-Keeps (search (shared_rules, Quiet-refer))

Quiet-check_cost : (o : RepairOrder) → Quiet (check_cost o)
unfolding check_cost
Quiet-check_cost o = search quiet_rules

pub approve_handover-Keeps :
    (i user : Uuid) (now : DateTime) → Keeps OneOrder (approve_handover i user now)
unfolding approve_handover apply
approve_handover-Keeps i user now = Keeps-load i λ o. Quiet-then (Quiet-check_cost o) λ _.
    Keeps-change now o
      (apply-Advances (Action.complete_after_transport_handover (or_now o.completed_at now)))
      λ p. Quiet-Keeps (search shared_rules)

pub reject_handover-Keeps :
    (fresh i user : Uuid) (now : DateTime) → Keeps OneOrder (reject_handover fresh i user now)
unfolding reject_handover apply
reject_handover-Keeps fresh i user now = Keeps-load i λ o.
    Keeps-end now o
      (apply-Advances (Action.complete_after_transport_handover (or_now o.completed_at now)))
      (complete-Ends (or_now o.completed_at now))
      λ p. Keeps-new now fresh p.vehicle_id p.fault_id user λ _. Quiet-Keeps (search shared_rules)
