-- ===== src/Workflow/ReportExamples.antt =====
-- The theorems on reports, checklists and parts at a small database.
use fmms.Prelude.{
  ◌≡◌, sym, ◌∙◌, map, Bool, Option, List, Uuid, refl, true, false, none, some, [], ◌∷◌, ok, err,
  All, codes, strip, keep, lstrip, rstrip, is_space, ℕ_discrete, Text-discrete, arith,
  if◌then◌else◌,
}
use fmms.Repair.Order.{new_order}
use fmms.Fault.Values.{fault_code, fault_description, matches_code, all_code_chars, limited}
use fmms.Fault.Report.{resolve_items, safe_parent_code, cleaned, take}
use fmms.Fault.Examples.{brakes, report, upper, upper_code, ascii}
use fmms.Inspection.Examples.{lamp, approved_checklist}
use fmms.OpenFlow.{
  FlowError, open_flow, Closed, Finished, assert_vehicle_has_no_open_flow_iff,
  assert_vehicle_has_no_open_flow, has_open_fault_for_vehicle, has_open_repair_order_for_vehicle,
  list_active_by_vehicle, order_ids, is_finished, finished_statuses,
}
use fmms.Repair.Status.{RepairOrderStatus-discrete}
use fmms.Vehicle.Status as VehicleStatus
use fmms.Vehicle.Entity.{Vehicle}
use fmms.Workflow.Table.{Row, count, row_of, put, find}
use fmms.Workflow.Database.{
  Database, flow_error, vehicle_id, save_material, load_order, record_event,
}
use fmms.Workflow.Faults.{report_fault}
use fmms.Workflow.Checklist.{report_inspection_fault}
use fmms.Workflow.Reported.{numbered, saved, reported, report_refused, report_fault_saves}
use fmms.Workflow.OneFault.{OneFault}
use fmms.Workflow.OneFault.Reports.{reports-OneFault}
use fmms.Workflow.Samples.{waiting, van, outside, parts_request, five, is_number, all_digits}
use fmms.Prelude.Decimals.{decimal_pos, decimal_ltb, scaled, signed_ltb}
use fmms.Material
use fmms.Material.{
  MaterialRequest, MaterialRequestItem, pending, from_stock, purchase, ready, to_purchase,
}
use fmms.Procurement.Values.{material_number, quantity, not_positive}
use fmms.Workflow.Checklist.{build_fault}
use fmms.Workflow.Failures.{IsWorst, expected_fault, checklist_fault_built}
use fmms.Fault.Status.{FaultSeverity}
use fmms.Workflow.Lines.{line_fields_accepted}
use fmms.Workflow.Parts.{
  PartsDecision, line_fields, decide_parts, header_status, create_issue, add_lines, all_decide,
  all_decided, all_known, all_made, check_stock, conclude, create_lines, decide_item, decide_items,
  decided, decision_on, has_decision, has_item, items_with, line_caught, line_error, record_status,
  unit_or_each, validate_decisions,
}
use fmms.Workflow.Purchases.{
  create_requisition, save_requisition, add_line, stored_requisition, estimated_price,
  load_requisition, new_requisition,
}
use fmms.Workflow.Materials.{load_material}
use fmms.Workflow.Stored.{stored_material}
use fmms.Procurement.Requisition.{PrStatus-discrete, add_line_item}
use fmms.Workflow.Stock.{Settled, decide_parts-Settled}
use fmms.Workflow.Settled.{undecided, HasStatus}
use fmms.Workflow.Database.{material_id}

abbrev van_row : Row Vehicle
van_row = record { entity = van VehicleStatus.waiting_driver_confirmation; is_deleted = false }

abbrev open_order : FlowError
open_order = open_flow 2 false (some (6 ∷ []))

van_found : row_of vehicle_id 2 waiting.vehicles ≡ some van_row
unfolding row_of
van_found = refl

order_open : assert_vehicle_has_no_open_flow 2 waiting.faults waiting.orders ≡ err open_order
unfolding assert_vehicle_has_no_open_flow has_open_fault_for_vehicle
    has_open_repair_order_for_vehicle list_active_by_vehicle order_ids is_finished finished_statuses
    RepairOrderStatus-discrete new_order
order_open = refl

something_open : ¬ (All (Closed 2) waiting.faults × All (Finished 2) waiting.orders)
something_open h =
    cc (sym order_open ∙ (assert_vehicle_has_no_open_flow_iff 2 waiting.faults waiting.orders).1 h)

report_refused_example :
    (b : Bool) × (ids : Option (List Uuid)) × (report_fault outside.notifier ascii 9
        (report (brakes ∷ []))
        4
        200
        waiting
      ≡ (err (flow_error (open_flow 2 b ids)), waiting))
report_refused_example =
    report_refused outside.notifier ascii 9 (report (brakes ∷ [])) 4 200 waiting van_found
      something_open

-- The database without the order, and with a checklist.
abbrev idle : Database
idle = record waiting {
  orders = [];
  inspections = record { entity = approved_checklist; is_deleted = false } ∷ [];
}

nothing_open : assert_vehicle_has_no_open_flow 2 idle.faults idle.orders ≡ ok tt
unfolding assert_vehicle_has_no_open_flow has_open_fault_for_vehicle
    has_open_repair_order_for_vehicle
nothing_open = refl

code_accepted :
    fault_code upper (resolve_items ascii (report (brakes ∷ [])) 9 200 (brakes ∷ [])).code
    ≡ ok (codes "FL-01")
unfolding fault_code matches_code all_code_chars resolve_items safe_parent_code cleaned take upper
    strip lstrip rstrip keep is_space ℕ_discrete
code_accepted = refl

description_accepted :
    fault_description (resolve_items ascii (report (brakes ∷ [])) 9 200 (brakes ∷ [])).description
    ≡ ok (codes "brakes")
unfolding limited resolve_items strip lstrip rstrip keep is_space ℕ_discrete
description_accepted = refl

report_fault_saves_example :
    report_fault outside.notifier ascii 9 (report (brakes ∷ [])) 4 200 idle ≡ (
      ok (
          numbered 200
            (reported ascii 9 (report (brakes ∷ [])) (codes "FL-01") (codes "brakes") 4 200)
            (ok (54 ∷ []))),
      record idle {
        faults =
            saved 200
              (reported ascii 9 (report (brakes ∷ [])) (codes "FL-01") (codes "brakes") 4 200)
              (ok (54 ∷ []))
              [];
      },
    )
report_fault_saves_example =
    report_fault_saves outside.notifier ascii 9 (report (brakes ∷ [])) 4 200 idle van_found
      nothing_open code_accepted description_accepted refl refl (λ n km. refl)

idle-OneFault : OneFault idle.faults
unfolding OneFault count
idle-OneFault v = omega arith

reports-OneFault_example :
    OneFault (report_fault outside.notifier ascii 9 (report (brakes ∷ [])) 4 200 idle).1.faults
    × OneFault
        (report_inspection_fault outside.fresh_of outside.notifier ascii 9 10 4 200 idle).1.faults
reports-OneFault_example =
    reports-OneFault outside.fresh_of outside.notifier ascii 9 (report (brakes ∷ [])) 10 4 200 idle
      idle-OneFault

checklist_fault_built_example :
    (s : FaultSeverity) × (build_fault outside.fresh_of ascii 9 approved_checklist lamp [] 4 200
        idle
      ≡ (ok (expected_fault outside.fresh_of 9 approved_checklist lamp [] s 4 200), idle))
    × IsWorst s (lamp ∷ [])
checklist_fault_built_example =
    checklist_fault_built outside.fresh_of ascii 9 approved_checklist lamp [] 4 200 idle upper_code

-- An item of the catalog, and one that is not.
abbrev filter : MaterialRequestItem
filter = record {
  id = 90;
  material_number = codes "1001";
  quantity = five;
  unit_of_measure = codes "EA";
  from_catalog = true;
  decision = pending;
  item_status = Material.waiting;
  available_quantity_snapshot = none;
}

abbrev lamp_glass : MaterialRequestItem
lamp_glass = record filter {
  id = 91;
  material_number = codes "glass";
  unit_of_measure = codes "-";
  from_catalog = false;
}

zeros_number : is_number (codes "000000000000000000") ≡ true
unfolding all_digits
zeros_number = refl

line_fields_accepted_example :
    (material_number is_number
        (line_fields outside.alphabet outside.fresh_of lamp_glass).material_number
      ≡ ok (line_fields outside.alphabet outside.fresh_of lamp_glass).material_number)
    × (quantity
          (line_fields outside.alphabet outside.fresh_of lamp_glass).quantity
          (line_fields outside.alphabet outside.fresh_of lamp_glass).unit_of_measure
        ≡ (if decimal_pos five
            then ok record {
              value = five;
              unit_of_measure =
                  (line_fields outside.alphabet outside.fresh_of lamp_glass).unit_of_measure;
            }
            else err not_positive))
line_fields_accepted_example =
    line_fields_accepted outside.alphabet outside.fresh_of lamp_glass refl zeros_number

abbrev sent : PartsDecision
sent = record {
  material_request_id = 40;
  items =
      record { item_id = 91; decision = purchase }
      ∷ record { item_id = 90; decision = from_stock }
      ∷ [];
  decided_by = 4;
  enforce_stock_check = true;
}

abbrev asking : Database
asking = record waiting {
  materials =
      record {
        entity = record (parts_request Material.requested) { items = filter ∷ lamp_glass ∷ [] };
        is_deleted = false;
      }
      ∷ [];
}

abbrev decided_request : MaterialRequest
decided_request = record (parts_request Material.partially_issued) {
  updated_at = 200;
  items =
      record filter {
        decision = from_stock;
        item_status = ready;
        available_quantity_snapshot = some five;
      }
      ∷ record lamp_glass {
        decision = purchase;
        item_status = to_purchase;
        available_quantity_snapshot = some five;
      }
      ∷ [];
}

parts_decided : decide_parts outside.stock outside.alphabet outside.fresh_of 80 sent 200 asking ≡ (
  ok decided_request,
  (decide_parts outside.stock outside.alphabet outside.fresh_of 80 sent 200 asking).1,
)
unfolding decide_parts load_material row_of Material.approve save_material create_issue
    create_requisition load_order new_order save_requisition add_line put stored_requisition
    material_number strip all_digits quantity Material.MaterialItemDecision-discrete
    Material.MaterialRequestStatus-discrete Material.allowed_transitions Material.transition_to
    decimal_ltb decimal_pos scaled signed_ltb is_space keep lstrip rstrip Text-discrete
    PrStatus-discrete add_line_item record_event add_lines all_decide all_decided all_known all_made
    check_stock conclude create_lines decide_item decide_items decided decision_on has_decision
    has_item header_status items_with line_caught line_error line_fields record_status unit_or_each
    validate_decisions estimated_price load_requisition new_requisition stored_material ℕ_discrete
    RepairOrderStatus-discrete
parts_decided = refl

found_asking :
    find material_id 40 asking.materials
    ≡ some (record (parts_request Material.requested) { items = filter ∷ lamp_glass ∷ [] })
unfolding row_of
found_asking = refl

decide_parts-Settled_example :
    All (Settled outside.stock true sent.items) decided_request.items
    × (map undecided decided_request.items ≡ map undecided (filter ∷ lamp_glass ∷ []))
    × HasStatus decided_request.status decided_request.items
    × ((decide_parts outside.stock outside.alphabet outside.fresh_of 80 sent 200 asking).1.materials
        ≡ put material_id (stored_material 200) decided_request asking.materials)
decide_parts-Settled_example =
    decide_parts-Settled outside.stock outside.alphabet outside.fresh_of 80 sent 200 asking
      found_asking parts_decided
