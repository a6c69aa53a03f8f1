-- ===== src/Workflow/Commits.antt =====
-- What a request leaves that is answered by an error: nothing where its view runs in a transaction
-- of its own, what was saved before the error elsewhere.
use fmms.Prelude.{◌≡◌, refl, none, some, Uuid, DateTime, Text, strip, err}
use fmms.Repair.Status.{
  completed, created, rejected_by_transport, waiting_transport_final_approval, external,
  WorkshopType-discrete, RepairOrderStatus-discrete, allows,
}
use fmms.Repair.Order.{
  RepairOrder, complete_after_transport_handover, transition_to, reject_by_transport,
}
use fmms.Fault.Status as FaultStatus
use fmms.Fault.Status.{opened, awaiting_transport}
use fmms.Fault.Entity as FaultEntity
use fmms.Fault.Entity.{Fault}
use fmms.Vehicle.Status
use fmms.Vehicle.Status.{active, decommissioned}
use fmms.Vehicle.Entity as VehicleEntity
use fmms.Vehicle.Entity.{Vehicle, VehicleError, invalid_transition, activate}
use fmms.Workflow.Table.{Row, row_of, find, put}
use fmms.Workflow.Stored.{stored_order, stored_fault}
use fmms.Workflow.Database.{
  Database, vehicle_error, order_id, fault_id, vehicle_id, load_order, load_vehicle, save_order,
  save_fault, load_fault,
}
use fmms.Workflow.Steps.{
  or_now, change_order, change_vehicle, move_vehicle, close_found, close_fault_for_completed_repair,
  record_component_history,
}
use fmms.Workflow.Transport.{check_cost, approve_handover, reject_repair_order, reopen_fault}
use fmms.Workflow.Requests.{Outside, Request, is_answered, concluded, serve}

-- The order that the approval of the return saves.
abbrev pub ended : DateTime → RepairOrder → RepairOrder
ended now o = record o {
  status = completed;
  completed_at = some (or_now o.completed_at now);
  updated_at = now;
}

-- The approval of the return of an external repair is answered by an error where the vehicle may not
-- become ACTIVE, as a decommissioned one, and the fault is not there. The service has saved the order
-- as COMPLETED before, but the request leaves the database as it was.
pub approve_return-undone :
    (x : Outside) (i user : Uuid) (now : DateTime) (db : Database) {o : RepairOrder}
    {r : Row Vehicle}
    → find order_id i db.orders ≡ some o
    → o.status ≡ waiting_transport_final_approval
    → o.workshop_type ≡ some external
    → find fault_id o.fault_id db.faults ≡ none
    → row_of vehicle_id o.vehicle_id db.vehicles ≡ some r
    → r.entity.status ≡ decommissioned
    → ((approve_handover i user now db).0
        ≡ err (vehicle_error (invalid_transition decommissioned active)))
      × ((approve_handover i user now db).1.orders
          ≡ put order_id (stored_order now) (ended now o) db.orders)
      × (serve x (Request.approve_return i user now) db ≡ db)
unfolding approve_handover load_order check_cost change_order complete_after_transport_handover
    transition_to allows WorkshopType-discrete save_order record_component_history
    close_fault_for_completed_repair close_found move_vehicle load_vehicle change_vehicle activate
    VehicleEntity.transition_to Status.allows Status.VehicleStatus-discrete serve concluded
    is_answered
approve_return-undone x i user now db h w e f v s =
    (simp (h, w, e, f, v, s) refl, simp (h, w, e, f, v, s) refl, simp (h, w, e, f, v, s) refl)

-- The order that the rejection by transport saves.
abbrev pub turned_down : DateTime → Text → RepairOrder → RepairOrder
turned_down now reason o = record o {
  status = rejected_by_transport;
  transport_rejection_reason = some (strip reason);
  updated_at = now;
}

-- The rejection of a CREATED order by transport is answered by an error where its fault waits for
-- transport and its vehicle is decommissioned; yet the order is committed as REJECTED_BY_TRANSPORT
-- with the reason and the fault as OPEN, while the vehicle stays as it was and no event is recorded.
pub reject-commits :
    (x : Outside) (i user : Uuid) (reason : Text) (now : DateTime) (db : Database) {o : RepairOrder}
    {f : Fault} {r : Row Vehicle}
    → find order_id i db.orders ≡ some o
    → o.status ≡ created
    → find fault_id o.fault_id db.faults ≡ some f
    → f.status ≡ awaiting_transport
    → row_of vehicle_id o.vehicle_id db.vehicles ≡ some r
    → r.entity.status ≡ decommissioned
    → ((reject_repair_order i reason user now db).0
        ≡ err (vehicle_error (invalid_transition decommissioned active)))
      × (serve x (Request.reject i reason user now) db ≡ record db {
        orders = put order_id (stored_order now) (turned_down now reason o) db.orders;
        faults =
            put fault_id
              (stored_fault now)
              (record f { status = opened; updated_at = now })
              db.faults;
      })
unfolding reject_repair_order load_order load_fault change_order reject_by_transport save_order
    save_fault reopen_fault FaultEntity.transition_to FaultStatus.allows
    FaultStatus.FaultStatus-discrete RepairOrderStatus-discrete move_vehicle load_vehicle
    change_vehicle activate VehicleEntity.transition_to Status.allows Status.VehicleStatus-discrete
    serve concluded is_answered
reject-commits x i user reason now db h w e f v s =
    (simp (h, w, e, f, v, s) refl, simp (h, w, e, f, v, s) refl)
