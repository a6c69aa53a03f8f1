-- ===== src/Workflow/Examples.antt =====
-- The theorems on the services at a small database.
use fmms.Prelude.{◌≡◌, refl, true, false, none, some, [], ◌∷◌, ◌==◌, ok, err, Post, arith}
use fmms.Repair.Status
use fmms.Repair.Status.{external}
use fmms.Repair.Order.{new_order}
use fmms.Repair.Event.{transport_handover_rejected}
use fmms.Fault.Status.{opened, awaiting_transport}
use fmms.Fault.Entity.{Fault}
use fmms.Fault.Examples.{fault}
use fmms.Vehicle.Status as VehicleStatus
use fmms.Vehicle.Entity.{invalid_transition}
use fmms.Handover.{VehicleHandover, waiting_driver_confirmation}
use fmms.Material
use fmms.Material.{MaterialRequest}
use fmms.Workflow.Table.{count, row_of, find, put, select}
use fmms.Workflow.Stored.{stored_order, stored_fault, stored_vehicle, stored_handover}
use fmms.Workflow.Database.{
  rejected, vehicle_error, consumed_parts_required, order_id, save_order, Database, fault_id,
  load_order, load_vehicle, load_handover, save_vehicle, save_handover, vehicle_id, material_id,
}
use fmms.Workflow.Workshop.{pending_material, complete_repair_order}
use fmms.Workflow.Transport.{
  approve_repair_order, approve_handover, reject_handover, reject_repair_order,
}
use fmms.Workflow.Rules.{OneOrder}
use fmms.Workflow.Workshop.{start_repair, cancel_repair_order}
use fmms.Workflow.Requests.{Request, serve, serve_all}
use fmms.Workflow.OneOrder.Requests.{serve_all-OneOrder}
use fmms.Workflow.Saved.{Stands, returned_orders_saved}
use fmms.Workflow.Success.{reject_handover_reopens, complete_repair_order_hands_over}
use fmms.Repair.Event
use fmms.Repair.Event.{repair_completed}
use fmms.Workflow.Database.{handover_id}
use fmms.Workflow.Table.{first}
use fmms.Handover
use fmms.Workflow.Commits.{ended, turned_down, approve_return-undone, reject-commits}
use fmms.Workflow.Refusals.{complete_refused-parts}
use fmms.Workflow.Reload.{save-load, reloaded_order, reloaded_vehicle, reloaded_handover}
use fmms.Workflow.Samples.{
  returned, van, parts_request, waiting, outside, requests, repaired, at_work, handed, gone, no_ids,
  given,
}

waiting-OneOrder : OneOrder waiting.orders
unfolding OneOrder count new_order
waiting-OneOrder f = ground arith

serve_all-OneOrder_example : OneOrder (serve_all outside requests waiting).orders
serve_all-OneOrder_example = serve_all-OneOrder outside requests waiting waiting-OneOrder

returned_orders_saved_example :
    Post (λ _. Unit {0}) (Stands Status.approved) (approve_repair_order 6 none 9 200 waiting)
    × Post
        (λ _. Unit {0})
        (Stands Status.rejected_by_transport)
        (reject_repair_order 6 (78 ∷ []) 9 200 waiting)
    × Post (λ _. Unit {0}) (Stands Status.completed) (approve_handover 6 9 200 waiting)
    × Post (λ _. Unit {0}) (Stands Status.in_progress) (start_repair 6 (some 9) 200 waiting)
    × Post
        (λ _. Unit {0})
        (Stands Status.waiting_driver_confirmation)
        (complete_repair_order 8 6 190 true 9 200 waiting)
    × Post (λ _. Unit {0}) (Stands Status.cancelled) (cancel_repair_order 6 9 200 waiting)
returned_orders_saved_example =
    returned_orders_saved 8 6 9 none (78 ∷ []) (some 9) 190 true 200 waiting

found : find order_id 6 waiting.orders ≡ some returned
unfolding row_of new_order
found = refl

reject_handover_reopens_example : reject_handover 7 6 9 200 waiting ≡ (
  ok (ended 200 returned),
  record waiting {
    orders =
        put order_id
          (stored_order 200)
          (new_order 7 2 3 9 200)
          (put order_id (stored_order 200) (ended 200 returned) waiting.orders);
    vehicles =
        put vehicle_id
          (stored_vehicle 200)
          (record (van VehicleStatus.under_repair) { updated_at = 200 })
          waiting.vehicles;
    events =
        record {
          repair_order_id = 6;
          event_type = transport_handover_rejected;
          created_at = 200;
          created_by_id = some 9;
        }
        ∷ [];
  },
)
unfolding new_order row_of
reject_handover_reopens_example =
    reject_handover_reopens 7 6 9 200 waiting {o = returned}
      {r = record { entity = van VehicleStatus.waiting_driver_confirmation; is_deleted = false }}
      found refl refl refl

found_work : find order_id 6 at_work.orders ≡ some repaired
unfolding row_of new_order
found_work = refl

complete_repair_order_hands_over_example : complete_repair_order 8 6 190 true 9 200 at_work ≡ (
  ok handed,
  record at_work {
    orders = put order_id (stored_order 200) handed at_work.orders;
    vehicles =
        put vehicle_id
          (stored_vehicle 200)
          (record (van VehicleStatus.waiting_driver_confirmation) { updated_at = 200 })
          at_work.vehicles;
    handovers =
        put handover_id
          (stored_handover 200)
          (record {
            id = 8;
            repair_order_id = 6;
            vehicle_id = 2;
            status = Handover.waiting_driver_confirmation;
            created_at = 200;
            updated_at = 200;
            driver_id = none;
            comment = none;
            confirmed_at = none;
          })
          at_work.handovers;
    events =
        record {
          repair_order_id = 6;
          event_type = repair_completed;
          created_at = 200;
          created_by_id = some 9;
        }
        ∷ record {
          repair_order_id = 6;
          event_type = Event.waiting_driver_confirmation;
          created_at = 200;
          created_by_id = some 9;
        }
        ∷ [];
  },
)
unfolding new_order row_of select first
complete_repair_order_hands_over_example =
    complete_repair_order_hands_over 8 6 9 190 true 200 at_work {o = repaired}
      {r = record { entity = van VehicleStatus.under_repair; is_deleted = false }} found_work refl
      refl refl refl refl

found_gone : find order_id 6 gone.orders ≡ some returned
unfolding row_of new_order
found_gone = refl

approve_return-undone_example :
    ((approve_handover 6 9 200 gone).0
      ≡ err (vehicle_error (invalid_transition VehicleStatus.decommissioned VehicleStatus.active)))
    × ((approve_handover 6 9 200 gone).1.orders
        ≡ put order_id (stored_order 200) (ended 200 returned) gone.orders)
    × (serve outside (Request.approve_return 6 9 200) gone ≡ gone)
unfolding row_of new_order
approve_return-undone_example =
    approve_return-undone outside 6 9 200 gone {o = returned}
      {r = record { entity = van VehicleStatus.decommissioned; is_deleted = false }} found_gone refl
      refl refl refl refl

-- A fault that waits for transport, and a new order for it of a decommissioned vehicle.
abbrev waiting_fault : Fault
waiting_fault = record (fault awaiting_transport) { id = 3 }

abbrev stranded : Database
stranded = record gone {
  orders = record { entity = new_order 6 2 3 4 100; is_deleted = false } ∷ [];
  faults = record { entity = waiting_fault; is_deleted = false } ∷ [];
}

found_stranded :
    (find order_id 6 stranded.orders ≡ some (new_order 6 2 3 4 100))
    × (find fault_id 3 stranded.faults ≡ some waiting_fault)
unfolding row_of new_order
found_stranded = (refl, refl)

reject-commits_example :
    ((reject_repair_order 6 (78 ∷ []) 9 200 stranded).0
      ≡ err (vehicle_error (invalid_transition VehicleStatus.decommissioned VehicleStatus.active)))
    × (serve outside (Request.reject 6 (78 ∷ []) 9 200) stranded ≡ record stranded {
      orders =
          put order_id
            (stored_order 200)
            (turned_down 200 (78 ∷ []) (new_order 6 2 3 4 100))
            stranded.orders;
      faults =
          put fault_id
            (stored_fault 200)
            (record waiting_fault { status = opened; updated_at = 200 })
            stranded.faults;
    })
unfolding row_of new_order
reject-commits_example =
    reject-commits outside 6 9 (78 ∷ []) 200 stranded {o = new_order 6 2 3 4 100}
      {f = waiting_fault}
      {r = record { entity = van VehicleStatus.decommissioned; is_deleted = false }}
      found_stranded.0 refl found_stranded.1 refl refl refl

pending_gone :
    pending_material (select (λ (r : MaterialRequest). r.repair_order_id == 6) gone.materials)
    ≡ no_ids
unfolding pending_material select Material.MaterialRequestStatus-discrete
pending_gone = refl

parts_gone : find material_id 40 gone.materials ≡ some (parts_request Material.received)
unfolding row_of
parts_gone = refl

complete_refused-parts_example :
    complete_repair_order 8 6 190 false 9 200 gone ≡ (err (rejected consumed_parts_required), gone)
unfolding new_order
complete_refused-parts_example =
    complete_refused-parts 8 6 40 190 9 200 gone {o = returned}
      {r = parts_request Material.received} found_gone refl pending_gone parts_gone refl refl

abbrev confirmed : VehicleHandover
confirmed = record given { comment = some (79 ∷ []) }

save-load_example :
    ((load_order 6 (save_order 200 returned waiting).1).0
      ≡ ok (reloaded_order 200 (row_of order_id 6 waiting.orders) returned))
    × ((load_vehicle 2 (save_vehicle 200 (van VehicleStatus.active) waiting).1).0
        ≡ ok (
            reloaded_vehicle 200 (row_of vehicle_id 2 waiting.vehicles) (van VehicleStatus.active)))
    × ((load_handover confirmed.id (save_handover 200 confirmed waiting).1).0
        ≡ ok (reloaded_handover 200 (row_of handover_id confirmed.id waiting.handovers) confirmed))
unfolding new_order row_of
save-load_example =
    save-load 200 returned (van VehicleStatus.active) confirmed waiting
      (refl, refl, refl, refl, refl, tt) (refl, refl, refl) refl refl tt
