-- ===== src/Workflow/OneOrder/Handovers.antt =====
-- The confirmation of a hand-over keeps the rule of one order for each fault.
use fmms.Prelude.{Bool, true, false, Option, none, some, Uuid, DateTime, Text}
use fmms.Repair.Status.{internal}
use fmms.Repair.Order.{RepairOrder, workshop_is}
use fmms.Repair.Lifecycle.{Call as Action, apply}
use fmms.Handover.{VehicleHandover}
use fmms.Workflow.Steps.{or_now}
use fmms.Workflow.Rules.{
  OneOrder, Quiet, Keeps, Loaded, Quiet-Keeps, Quiet-then, Keeps-if, keeps_rules,
}
use fmms.Workflow.Advance.{Advances}
use fmms.Workflow.Quiet.{quiet_rules, shared_rules, Quiet-record_event}
use fmms.Workflow.Change.{
  Keeps-change, Keeps-end, Keeps-new, Advances->>, apply-Advances, reject-Ends,
}
use fmms.Workflow.Handovers.{
  save_when_absent, create_handover, complete_accepted, complete_internal_handover, accept_internal,
  accept_other, reject_vehicle, decide_handover, confirm_vehicle_handover,
}

pub Quiet-save_when_absent :
    (now : DateTime) (h : VehicleHandover) (k : Option VehicleHandover)
    → Quiet (save_when_absent now h k)
unfolding save_when_absent
Quiet-save_when_absent now h none = search quiet_rules
Quiet-save_when_absent now h (some k) = search quiet_rules

pub Quiet-create_handover :
    (fresh order vehicle : Uuid) (now : DateTime) → Quiet (create_handover fresh order vehicle now)
unfolding create_handover
Quiet-create_handover fresh order vehicle now = search (quiet_rules, Quiet-save_when_absent)

complete_accepted-Advances : (now : DateTime) (o : RepairOrder) → Advances (complete_accepted now o)
unfolding apply
complete_accepted-Advances now o =
    Advances->> _ _ (apply-Advances (Action.confirm_handover true))
      (apply-Advances (Action.complete_after_transport_handover (or_now o.completed_at now)))

Quiet-complete_internal :
    (o : RepairOrder) (user : Uuid) (now : DateTime) → Quiet (complete_internal_handover o user now)
unfolding complete_internal_handover
Quiet-complete_internal o user now = search shared_rules

accept_internal-Keeps :
    (o : RepairOrder) (user : Uuid) (now : DateTime) → Keeps (Loaded o) (accept_internal o user now)
unfolding accept_internal
accept_internal-Keeps o user now = Quiet-then (Quiet-record_event _ _ _ now) λ _.
    Keeps-change now o (complete_accepted-Advances now o)
      λ p. Quiet-Keeps (Quiet-complete_internal p user now)

accept_other-Keeps :
    (o : RepairOrder) (user : Uuid) (now : DateTime) → Keeps (Loaded o) (accept_other o user now)
unfolding accept_other apply
accept_other-Keeps o user now = Quiet-then (Quiet-record_event _ _ _ now) λ _.
    Keeps-change now o (apply-Advances (Action.confirm_handover true))
      λ p. Quiet-Keeps (search quiet_rules)

reject_vehicle-Keeps :
    (fresh : Uuid) (o : RepairOrder) (user : Uuid) (now : DateTime)
    → Keeps (Loaded o) (reject_vehicle fresh o user now)
unfolding reject_vehicle apply
reject_vehicle-Keeps fresh o user now =
    Keeps-end now o (apply-Advances (Action.confirm_handover false)) reject-Ends
      λ p. Keeps-new now fresh p.vehicle_id p.fault_id user λ _. Quiet-Keeps (search quiet_rules)

decide_handover-Keeps :
    (fresh : Uuid) (accepted : Bool) (o : RepairOrder) (user : Uuid) (now : DateTime)
    → Keeps (Loaded o) (decide_handover fresh accepted o user now)
unfolding decide_handover
decide_handover-Keeps fresh true o user now =
    Keeps-if (workshop_is internal o.workshop_type) _ _ (accept_internal-Keeps o user now)
      (accept_other-Keeps o user now)
decide_handover-Keeps fresh false o user now = reject_vehicle-Keeps fresh o user now

pub confirm-Keeps :
    (fresh i : Uuid) (accepted : Bool) (comment : Option Text) (user : Uuid) (now : DateTime)
    → Keeps OneOrder (confirm_vehicle_handover fresh i accepted comment user now)
unfolding confirm_vehicle_handover
confirm-Keeps fresh i accepted comment user now =
    search (quiet_rules, keeps_rules, decide_handover-Keeps) depth 14
