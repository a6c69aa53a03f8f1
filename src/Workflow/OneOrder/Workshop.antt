-- ===== src/Workflow/OneOrder/Workshop.antt =====
-- The services of the workshop and the edits of an order keep the rule of one order for each fault.
use fmms.Prelude.{Bool, Option, none, some, List, [], ◌∷◌, Uuid, DateTime}
use fmms.Repair.Order
use fmms.Repair.Order.{RepairOrder}
use fmms.Repair.Lifecycle.{Call as Action, apply}
use fmms.Repair.External.{ExternalWorkshopAssignment}
use fmms.Vehicle.Entity.{Vehicle, VehicleError}
use fmms.Prelude.{Update}
use fmms.Material.{MaterialRequest}
use fmms.Workflow.Rules.{
  OneOrder, Quiet, Keeps, Quiet-bind, Quiet-pure, Quiet-Keeps, Quiet-then, Keeps-load,
}
use fmms.Workflow.Advance.{Advances}
use fmms.Workflow.Quiet.{Quiet-record_event, quiet_rules, shared_rules}
use fmms.Workflow.Change.{Keeps-change, apply-Advances}
use fmms.Workflow.Workshop.{
  start_repair, materials_of_order, refuse_pending, check_materials, changed_vehicle, reactivate,
  await_driver, complete_repair_order, active_assignment, cancel_assignment, cancel_repair_order,
}
use fmms.Workflow.OneOrder.Handovers.{Quiet-create_handover}

pub start-Keeps :
    (i : Uuid) (user : Option Uuid) (now : DateTime) → Keeps OneOrder (start_repair i user now)
unfolding start_repair apply
start-Keeps i user now = Keeps-load i λ o.
    Keeps-change now o (apply-Advances Action.start_work) λ p. Quiet-Keeps (search shared_rules)

Quiet-materials_of_order : (i : Uuid) → Quiet (materials_of_order i)
unfolding materials_of_order
Quiet-materials_of_order i = search quiet_rules

Quiet-refuse_pending : (l : List Uuid) → Quiet (refuse_pending l)
unfolding refuse_pending
Quiet-refuse_pending [] = search quiet_rules
Quiet-refuse_pending (i ∷ l) = search quiet_rules

Quiet-check_materials :
    (o : RepairOrder) (b : Bool) (l : List MaterialRequest) → Quiet (check_materials o b l)
unfolding check_materials
Quiet-check_materials o b l = search (quiet_rules, Quiet-refuse_pending)

Quiet-changed_vehicle :
    (m : Update Vehicle VehicleError) (now : DateTime) (v : Vehicle)
    → Quiet (changed_vehicle m now v)
unfolding changed_vehicle
Quiet-changed_vehicle m now v = search quiet_rules

Quiet-reactivate : (now : DateTime) (v : Vehicle) → Quiet (reactivate now v)
unfolding reactivate
Quiet-reactivate now v = search (quiet_rules, Quiet-changed_vehicle)

pub Quiet-await_driver : (now : DateTime) (i : Uuid) → Quiet (await_driver now i)
unfolding await_driver
Quiet-await_driver now i = search (quiet_rules, Quiet-reactivate, Quiet-changed_vehicle)

waiting-Advances : (at : DateTime) → Advances (Order.complete_waiting_driver_confirmation at)
unfolding apply
waiting-Advances at = apply-Advances (Action.complete_waiting_driver_confirmation at)

pub complete-Keeps :
    (fresh i : Uuid) (at : DateTime) (b : Bool) (user : Uuid) (now : DateTime)
    → Keeps OneOrder (complete_repair_order fresh i at b user now)
unfolding complete_repair_order
complete-Keeps fresh i at b user now =
    search
      (
        Keeps-load, Quiet-then, Quiet-materials_of_order, Quiet-check_materials, Keeps-change,
        waiting-Advances, Quiet-Keeps, Quiet-bind, Quiet-await_driver, Quiet-create_handover,
        Quiet-record_event, Quiet-pure,
      )
      depth 14

pub Quiet-active_assignment : (i : Uuid) → Quiet (active_assignment i)
unfolding active_assignment
Quiet-active_assignment i = search quiet_rules

pub Quiet-cancel_assignment :
    (i user : Uuid) (now : DateTime) (a : Option ExternalWorkshopAssignment)
    → Quiet (cancel_assignment i user now a)
unfolding cancel_assignment
Quiet-cancel_assignment i user now none = search quiet_rules
Quiet-cancel_assignment i user now (some a) = search quiet_rules

pub cancel-Keeps :
    (i user : Uuid) (now : DateTime) → Keeps OneOrder (cancel_repair_order i user now)
unfolding cancel_repair_order apply
cancel-Keeps i user now = Keeps-load i λ o.
    Keeps-change now o (apply-Advances Action.cancel)
      λ p. Quiet-Keeps (search (quiet_rules, Quiet-active_assignment, Quiet-cancel_assignment))
