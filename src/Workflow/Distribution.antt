-- ===== src/Workflow/Distribution.antt =====
-- The closing of a fault (apps/fault/application/services/close_fault_service.py) and the decision of
-- distribution on it (distribution_fault_decision_service.py there).
use fmms.Prelude.{
  ℕ, ◌+◌, Bool, not, Option, none, some, List, [], ◌∷◌, ◌==◌, Uuid, DateTime, Text, text_truthy, is,
  Result, Update, ◌>>=◌, ◌>>◌, pure, get, modify, raise, when, if◌then◌else◌,
}
use fmms.Repair.Status.{
  created, approved, waiting_transport_final_approval, completed, cancelled, rejected_by_transport,
  rejected_by_driver, RepairOrderStatus-discrete,
}
use fmms.Repair.Order
use fmms.Repair.Order.{RepairOrder, new_order, status_is, status_in}
use fmms.Repair.Event.{
  transport_handover_approved, distribution_approved_usable, distribution_approved,
}
use fmms.Fault.Status.{FaultStatus-discrete, opened}
use fmms.Fault.Entity
use fmms.Fault.Entity.{Fault}
use fmms.Vehicle.Status
use fmms.Vehicle.Entity as VehicleEntity
use fmms.Vehicle.Entity.{Vehicle}
use fmms.Workflow.Table.{select}
use fmms.Workflow.Database.{
  Database, Call, ServiceError, rejected, create_via_distribution_only,
  fault_not_awaiting_distribution, on, fault_error, load_fault, load_vehicle, save_fault,
  save_order, record_event,
}
use fmms.Workflow.Steps.{touch_fault, change_order, change_vehicle, move_vehicle, or_now}

-- `list_by_fault`
unfoldable pub orders_of_fault : Uuid → Call (List RepairOrder)
orders_of_fault i = do db ← get; pure (select (λ (o : RepairOrder). o.fault_id == i) db.orders)

unfoldable pub complete_order : RepairOrder → Option Uuid → DateTime → Update Database ServiceError
complete_order o user now = do
  p ← change_order (Order.complete_after_transport_handover (or_now o.completed_at now)) now o
  record_event p.id transport_handover_approved user now

unfoldable pub cancel_order : RepairOrder → Option Uuid → DateTime → Update Database ServiceError
cancel_order o user now = do
  p ← change_order Order.cancel now o
  record_event p.id distribution_approved_usable user now

-- One pass of the loop, and whether it counts.
unfoldable pub settle_order : RepairOrder → Option Uuid → DateTime → Call ℕ
unfolding complete_order cancel_order RepairOrderStatus-discrete
settle_order o user now =
    if status_is waiting_transport_final_approval o
    then (do complete_order o user now; pure 1)
    else if status_in (created ∷ approved ∷ []) o
    then (do cancel_order o user now; pure 1)
    else pure 0

-- `_cancel_distribution_usable_repair_orders`, on the orders that `list_by_fault` returned.
unfoldable pub settle_orders : List RepairOrder → Option Uuid → DateTime → Call ℕ
unfolding settle_order
settle_orders [] user now = pure 0
settle_orders (o ∷ l) user now = do
  n ← settle_order o user now
  m ← settle_orders l user now
  pure (n + m)

-- `CloseFaultService.execute`
unfoldable pub close_fault_of : Uuid → Option Uuid → DateTime → Call Fault
unfolding settle_orders
close_fault_of i user now = do
  f ← load_fault i
  g ← on fault_error (Entity.close >> touch_fault now) f
  save_fault now g
  l ← orders_of_fault i
  settle_orders l user now
  pure g

-- `fault.distribution_decision_note = note`
abbrev pub note_decision : Text → Fault → Fault
note_decision note f = record f { distribution_decision_note = some note }

-- The saved note of a decision: `if dto.note: ...`
unfoldable pub save_note : Option Text → DateTime → Fault → Update Database ServiceError
save_note none now f = pure tt
save_note (some note) now f =
    when (text_truthy note) (save_fault now (record (note_decision note f) { updated_at = now }))

-- `DistributionFaultDecisionService.mark_usable`
unfoldable pub mark_usable : Uuid → Option Text → Uuid → DateTime → Call Fault
unfolding close_fault_of save_note
mark_usable i note user now = do
  result ← close_fault_of i (some user) now
  f ← load_fault i
  save_note note now f
  move_vehicle Status.active (VehicleEntity.transition_to Status.active) now f.vehicle_id
  pure result

-- The statuses of an order that does not stand in the way of a new one.
abbrev pub is_over : RepairOrder → Bool
is_over o = status_in (completed ∷ cancelled ∷ rejected_by_transport ∷ rejected_by_driver ∷ []) o

unfoldable pub not_over : List RepairOrder → List RepairOrder
unfolding RepairOrderStatus-discrete
not_over [] = []
not_over (o ∷ l) = let rest = not_over l in if is_over o then rest else o ∷ rest

-- The end of `_ensure_repair_order_for_transport_queue`, on the orders that exist.
unfoldable pub ensure_order :
    Uuid → Uuid → Uuid → Uuid → DateTime → List RepairOrder → Call RepairOrder
ensure_order fresh fault vehicle user now (o ∷ l) = pure o
ensure_order fresh fault vehicle user now [] = do
  save_order now (new_order fresh vehicle fault user now)
  record_event fresh distribution_approved (some user) now
  pure (new_order fresh vehicle fault user now)

unfoldable pub ensure_repair_order : Uuid → Uuid → Uuid → Uuid → DateTime → Call RepairOrder
unfolding not_over ensure_order
ensure_repair_order fresh fault vehicle user now = do
  l ← orders_of_fault fault
  ensure_order fresh fault vehicle user now (not_over l)

-- `if dto.note: fault.distribution_decision_note = dto.note`
abbrev pub note_when_given : Option Text → Fault → Fault
note_when_given none f = f
note_when_given (some note) f = if text_truthy note then note_decision note f else f

-- `if vehicle.status != OUT_OF_SERVICE: ...`
unfoldable pub take_out : DateTime → Vehicle → Update Database ServiceError
take_out now v =
    when (not (is Status.VehicleStatus-discrete v.status Status.out_of_service))
      (change_vehicle (VehicleEntity.transition_to Status.out_of_service) now v)

-- `DistributionFaultDecisionService.mark_unusable`. `replace` is how the request to SAP for another
-- vehicle ends, whose rows are in the table of SAP transactions alone.
unfoldable pub mark_unusable :
    (Vehicle → Fault → Result ServiceError (Unit {0}))
    → Uuid
    → Uuid
    → Option Text
    → Uuid
    → DateTime
    → Call Fault
unfolding ensure_repair_order take_out
mark_unusable replace fresh i note user now = do
  f ← load_fault i
  when (not (is FaultStatus-discrete f.status opened))
      (raise (rejected fault_not_awaiting_distribution))
  v ← load_vehicle f.vehicle_id
  take_out now v
  g ←
      on fault_error
        (Entity.mark_awaiting_transport >> modify (note_when_given note) >> touch_fault now) f
  save_fault now g
  ensure_repair_order fresh g.id g.vehicle_id user now
  (λ db. (replace v g, db))
  pure g

-- `CreateRepairOrderService.execute`
unfoldable pub create_repair_order : Call RepairOrder
create_repair_order = raise (rejected create_via_distribution_only)
