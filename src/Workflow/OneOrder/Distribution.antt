-- ===== src/Workflow/OneOrder/Distribution.antt =====
-- The closing of a fault and the decisions of distribution keep the rule of one order for each fault.
use fmms.Prelude.{
  ◌≡◌, refl, true, Option, none, some, List, [], ◌∷◌, ◌==◌, Uuid, DateTime, Text, Result, ok, err,
  Post, arith,
}
use fmms.Repair.Status.{
  RepairOrderStatus-discrete, created, approved, waiting_transport_final_approval, is_terminal,
}
use fmms.Repair.Order.{RepairOrder, status_is, status_in}
use fmms.Fault.Entity.{Fault}
use fmms.Vehicle.Entity.{Vehicle}
use fmms.Workflow.Table.{Row, count, select}
use fmms.Workflow.Database.{Database, ServiceError}
use fmms.Workflow.Steps.{or_now}
use fmms.Workflow.Rules.{
  OneOrder, is_unfinished, Quiet, Keeps, Quiet-pure, Quiet-raise, Quiet-when, Quiet-Keeps,
  Quiet-then, Keeps-bind, Keeps-if, keeps_rules,
}
use fmms.Workflow.Quiet.{
  quiet_rules, shared_rules, Quiet-load_fault, Quiet-load_vehicle, Quiet-change_vehicle,
}
use fmms.Workflow.Change.{Keeps-ended, Keeps-new, complete-Ends, cancel-Ends}
use fmms.Workflow.Distribution.{
  orders_of_fault, complete_order, cancel_order, settle_order, settle_orders, close_fault_of,
  save_note, mark_usable, is_over, not_over, ensure_order, ensure_repair_order, take_out,
  mark_unusable,
}

Quiet-orders_of_fault : (i : Uuid) → Quiet (orders_of_fault i)
unfolding orders_of_fault
Quiet-orders_of_fault i = search quiet_rules

complete_order-Keeps :
    (o : RepairOrder) (user : Option Uuid) (now : DateTime)
    → Keeps OneOrder (complete_order o user now)
unfolding complete_order
complete_order-Keeps o user now =
    Keeps-bind (Keeps-ended now o (complete-Ends (or_now o.completed_at now)))
      λ p. Quiet-Keeps (search quiet_rules)

cancel_order-Keeps :
    (o : RepairOrder) (user : Option Uuid) (now : DateTime)
    → Keeps OneOrder (cancel_order o user now)
unfolding cancel_order
cancel_order-Keeps o user now =
    Keeps-bind (Keeps-ended now o cancel-Ends) λ p. Quiet-Keeps (search quiet_rules)

settle_order-Keeps :
    (o : RepairOrder) (user : Option Uuid) (now : DateTime)
    → Keeps OneOrder (settle_order o user now)
unfolding settle_order
settle_order-Keeps o user now =
    Keeps-if (status_is waiting_transport_final_approval o) _ _
      (Keeps-bind (complete_order-Keeps o user now) λ _. Quiet-Keeps (Quiet-pure 1))
      (Keeps-if (status_in (created ∷ approved ∷ []) o) _ _
        (Keeps-bind (cancel_order-Keeps o user now) λ _. Quiet-Keeps (Quiet-pure 1))
        (Quiet-Keeps (Quiet-pure 0)))

settle_orders-Keeps :
    (l : List RepairOrder) (user : Option Uuid) (now : DateTime)
    → Keeps OneOrder (settle_orders l user now)
unfolding settle_orders
settle_orders-Keeps [] user now = Quiet-Keeps (Quiet-pure 0)
settle_orders-Keeps (o ∷ l) user now =
    Keeps-bind (settle_order-Keeps o user now)
      λ n. Keeps-bind (settle_orders-Keeps l user now) λ m. Quiet-Keeps (Quiet-pure _)

pub close_fault-Keeps :
    (i : Uuid) (user : Option Uuid) (now : DateTime) → Keeps OneOrder (close_fault_of i user now)
unfolding close_fault_of
close_fault-Keeps i user now =
    search (quiet_rules, keeps_rules, Quiet-orders_of_fault, settle_orders-Keeps) depth 14

Quiet-save_note :
    (comment : Option Text) (now : DateTime) (f : Fault) → Quiet (save_note comment now f)
unfolding save_note
Quiet-save_note none now f = search quiet_rules
Quiet-save_note (some t) now f = search quiet_rules

pub mark_usable-Keeps :
    (i : Uuid) (comment : Option Text) (user : Uuid) (now : DateTime)
    → Keeps OneOrder (mark_usable i comment user now)
unfolding mark_usable
mark_usable-Keeps i comment user now =
    Keeps-bind (close_fault-Keeps i (some user) now)
      λ r. Quiet-Keeps (search (shared_rules, Quiet-save_note))

Quiet-take_out : (now : DateTime) (v : Vehicle) → Quiet (take_out now v)
unfolding take_out
Quiet-take_out now v = Quiet-when _ _ (Quiet-change_vehicle _ now v)

is_over-terminal : (o : RepairOrder) → is_over o ≡ true → is_terminal o.status ≡ true
unfolding is_terminal RepairOrderStatus-discrete
is_over-terminal o h = ground arith

-- Where the list of the orders that are not over is empty, no order of the fault goes on.
not_over_none :
    (f : Uuid) (rows : List (Row RepairOrder))
    → not_over (select (λ (o : RepairOrder). o.fault_id == f) rows) ≡ []
    → count (is_unfinished f) rows ≡ 0
unfolding not_over select count
not_over_none f [] h = refl
not_over_none f (r ∷ rows) h = ground (arith, not_over_none f rows, is_over-terminal r.entity)

ensure_order-Keeps :
    (fresh fault vehicle user : Uuid) (now : DateTime)
    → Keeps OneOrder (ensure_repair_order fresh fault vehicle user now)
unfolding ensure_repair_order ensure_order orders_of_fault
ensure_order-Keeps fresh fault vehicle user now = record {
  at = λ db one _.
      go db one (not_over (select (λ (o : RepairOrder). o.fault_id == fault) db.orders)) refl;
}
  where
    go :
        (db : Database)
        → OneOrder db.orders
        → (l : List RepairOrder)
        → not_over (select (λ (o : RepairOrder). o.fault_id == fault) db.orders) ≡ l
        → Post
            (λ (d : Database). OneOrder d.orders)
            (λ _ (d : Database). OneOrder d.orders)
            (ensure_order fresh fault vehicle user now l db)
    go db one (o ∷ l) e = one
    go db one [] e =
        (Keeps-new now fresh vehicle fault user λ _. Quiet-Keeps (search quiet_rules)).at db one
          (one, not_over_none fault db.orders e)

-- A step that does not touch the database.
Quiet-outcome : {A : Type 0} (x : Result ServiceError A) → Quiet (λ db. (x, db))
Quiet-outcome (ok a) = record { at = λ db. refl }
Quiet-outcome (err e) = record { at = λ db. refl }

pub mark_unusable-Keeps :
    (replace : Vehicle → Fault → Result ServiceError (Unit {0})) (fresh i : Uuid)
    (comment : Option Text) (user : Uuid) (now : DateTime)
    → Keeps OneOrder (mark_unusable replace fresh i comment user now)
unfolding mark_unusable
mark_unusable-Keeps replace fresh i comment user now = Quiet-then (Quiet-load_fault i) λ f.
    Quiet-then (Quiet-when _ _ (Quiet-raise _)) λ _.
      Quiet-then (Quiet-load_vehicle f.vehicle_id) λ v.
        Quiet-then (Quiet-take_out now v)
          λ _. search (quiet_rules, keeps_rules, ensure_order-Keeps, Quiet-outcome) depth 12
