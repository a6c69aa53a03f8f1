-- ===== src/Workflow/Success.antt =====
-- What the decisions of transport on a returned vehicle do where they are allowed.
use fmms.Prelude.{◌≡◌, refl, Bool, none, some, [], ◌∷◌, ◌++◌, ◌==◌, Uuid, DateTime, ok}
use fmms.Repair.Status as RepairStatus
use fmms.Repair.Status.{
  RepairOrderStatus-discrete, waiting_transport_final_approval, in_progress, allows,
}
use fmms.Repair.Order.{
  complete_waiting_driver_confirmation, RepairOrder, complete_after_transport_handover,
  transition_to, new_order,
}
use fmms.Repair.Event
use fmms.Repair.Event.{transport_handover_rejected, repair_completed}
use fmms.Handover
use fmms.Handover.{VehicleHandover}
use fmms.Material.{MaterialRequest}
use fmms.Vehicle.Status
use fmms.Vehicle.Status.{active, under_repair, waiting_driver_confirmation}
use fmms.Vehicle.Entity as VehicleEntity
use fmms.Vehicle.Entity.{Vehicle, activate, mark_under_repair}
use fmms.Workflow.Table.{Row, row_of, find, put, select, first}
use fmms.Workflow.Stored.{stored_order, stored_vehicle, stored_handover}
use fmms.Workflow.Database.{
  Database, order_id, vehicle_id, load_order, load_vehicle, save_order, save_vehicle, record_event,
  handover_id, handover_of_order, save_handover,
}
use fmms.Workflow.Steps.{change_order, change_vehicle, move_vehicle}
use fmms.Workflow.Transport.{reject_handover}
use fmms.Workflow.Handovers.{new_handover, save_when_absent, create_handover}
use fmms.Workflow.Workshop.{
  materials_of_order, pending_material, has_received_parts, refuse_pending, check_materials,
  changed_vehicle, reactivate, await_driver, complete_repair_order,
}
use fmms.Workflow.Commits.{ended}

-- The rejection of the return, with the vehicle waiting for the driver, ends the order and opens a new
-- one for the same fault and vehicle. The vehicle goes to UNDER_REPAIR, the fault stays as it is, and
-- the decision is on the timeline.
pub reject_handover_reopens :
    (fresh i user : Uuid) (now : DateTime) (db : Database) {o : RepairOrder} {r : Row Vehicle}
    → find order_id i db.orders ≡ some o
    → o.status ≡ waiting_transport_final_approval
    → row_of vehicle_id o.vehicle_id db.vehicles ≡ some r
    → r.entity.status ≡ waiting_driver_confirmation
    → reject_handover fresh i user now db ≡ (
      ok (ended now o),
      record db {
        orders =
            put order_id
              (stored_order now)
              (new_order fresh o.vehicle_id o.fault_id user now)
              (put order_id (stored_order now) (ended now o) db.orders);
        vehicles =
            put vehicle_id
              (stored_vehicle now)
              (record r.entity { status = under_repair; updated_at = now })
              db.vehicles;
        events =
            db.events
            ++ record {
              repair_order_id = o.id;
              event_type = transport_handover_rejected;
              created_at = now;
              created_by_id = some user;
            }
              ∷ [];
      },
    )
unfolding reject_handover load_order change_order complete_after_transport_handover transition_to
    allows save_order move_vehicle load_vehicle change_vehicle mark_under_repair save_vehicle
    VehicleEntity.transition_to Status.allows Status.VehicleStatus-discrete record_event
reject_handover_reopens fresh i user now db h w v t = simp (h, w, v, t) refl

-- The completion of a repair in progress, for an order without material requests and a vehicle under
-- repair, succeeds. The order waits for the driver with the time of the completion, the vehicle waits
-- for the driver too, a hand-over in that state is created for an order that has none, and both steps
-- are on the timeline.
pub complete_repair_order_hands_over :
    (fresh i user : Uuid) (at : DateTime) (b : Bool) (now : DateTime) (db : Database)
    {o : RepairOrder} {r : Row Vehicle}
    → find order_id i db.orders ≡ some o
    → o.status ≡ in_progress
    → select (λ (q : MaterialRequest). q.repair_order_id == i) db.materials ≡ []
    → row_of vehicle_id o.vehicle_id db.vehicles ≡ some r
    → r.entity.status ≡ under_repair
    → first (λ (h : VehicleHandover). h.repair_order_id == o.id) db.handovers ≡ none
    → complete_repair_order fresh i at b user now db ≡ (
      ok record o {
        status = RepairStatus.waiting_driver_confirmation;
        completed_at = some at;
        updated_at = now;
      },
      record db {
        orders =
            put order_id
              (stored_order now)
              (record o {
                status = RepairStatus.waiting_driver_confirmation;
                completed_at = some at;
                updated_at = now;
              })
              db.orders;
        vehicles =
            put vehicle_id
              (stored_vehicle now)
              (record r.entity { status = waiting_driver_confirmation; updated_at = now })
              db.vehicles;
        handovers =
            put handover_id
              (stored_handover now)
              (record {
                id = fresh;
                repair_order_id = o.id;
                vehicle_id = o.vehicle_id;
                status = Handover.waiting_driver_confirmation;
                created_at = now;
                updated_at = now;
                driver_id = none;
                comment = none;
                confirmed_at = none;
              })
              db.handovers;
        events =
            (db.events
              ++ record {
                repair_order_id = o.id;
                event_type = repair_completed;
                created_at = now;
                created_by_id = some user;
              }
                ∷ [])
            ++ record {
              repair_order_id = o.id;
              event_type = Event.waiting_driver_confirmation;
              created_at = now;
              created_by_id = some user;
            }
              ∷ [];
      },
    )
unfolding complete_repair_order load_order materials_of_order check_materials pending_material
    has_received_parts refuse_pending change_order complete_waiting_driver_confirmation
    transition_to RepairStatus.allows save_order await_driver reactivate changed_vehicle
    load_vehicle VehicleEntity.mark_waiting_driver_confirmation save_vehicle
    VehicleEntity.transition_to Status.allows Status.VehicleStatus-discrete create_handover
    handover_of_order new_handover save_when_absent save_handover record_event
    RepairOrderStatus-discrete
complete_repair_order_hands_over fresh i user at b now db h w m v t n = simp (h, w, m, v, t, n) refl
