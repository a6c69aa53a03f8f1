-- ===== src/Maintenance/Examples.antt =====
-- Work orders whose methods are called: the theorems at concrete work orders.
use fmms.Maintenance.Plan.{PmPlan, active, days, time_based}
use fmms.Maintenance.Services.{Store}
use fmms.Maintenance.OneActive.{OneActive}
use fmms.Maintenance.Requests.{Request, serve_all, serve_all-OneActive}
use fmms.Workflow.Table.{count}
use fmms.Prelude.{List, [], ◌∷◌, Uuid, false, arith, none, some, ok}
use fmms.Maintenance.{PmWorkOrder, PmWorkOrderStatus}

abbrev work : PmWorkOrderStatus → PmWorkOrder
work s = record {
  id = 1;
  plan_id = 2;
  vehicle_id = 3;
  status = s;
  scheduled_date = 10;
  created_at = 10;
  updated_at = 10;
  triggered_at = none;
  completed_at = none;
  notes = none;
  sap_order_number = none;
}

abbrev oil_change : PmPlan
oil_change = record {
  id = 2;
  vehicle_id = 3;
  name = 79 ∷ [];
  description = [];
  interval = record { value = 30; unit = days };
  trigger_condition = record { trigger_type = time_based; threshold = 30 };
  status = active;
  created_by_id = 4;
  created_at = 1;
  updated_at = 1;
  last_triggered_at = none;
  next_due_at = some 50;
}

abbrev store : Store
store = record {
  plans = record { entity = oil_change; is_deleted = false } ∷ [];
  work_orders = [];
  vehicles = [];
}

abbrev order_of : Uuid → Request
order_of i =
    Request.trigger_one i
      record { plan_id = 2; scheduled_date = 60; create_sap_notification = false; notes = none } 55

-- A work order, a second one that is refused, the end of the first, and a sweep.
abbrev requests : List Request
requests =
    order_of 7 ∷ order_of 8 ∷ Request.complete_one 7 70 none 71 ∷ Request.trigger_due false 80 ∷ []

store-OneActive : OneActive store.work_orders
unfolding OneActive count
store-OneActive p = omega arith

serve_all-OneActive_example :
    OneActive (serve_all (λ p v. ok (49 ∷ [])) (λ i. i) requests store).work_orders
serve_all-OneActive_example =
    serve_all-OneActive (λ p v. ok (49 ∷ [])) (λ i. i) requests store store-OneActive
