-- ===== src/Maintenance/Requests.antt =====
-- Requests to the services of preventive maintenance, one after the other.
use fmms.Prelude.{
  Bool, true, false, Option, List, [], ◌∷◌, Uuid, DateTime, Text, Result, ok, err, Post,
  if◌then◌else◌,
}
use fmms.Vehicle.Entity.{Vehicle}
use fmms.Maintenance.Plan.{PmPlan, is_active}
use fmms.Maintenance.Services.{
  Store, ServiceError, Call, PlanData, create_plan, TriggerData, trigger_work_order,
  complete_work_order, is_due, sweep, trigger_overdue,
}
use fmms.Workflow.Database.{SapError}
use fmms.Workflow.Table.{select}
use fmms.Maintenance.OneActive.{OneActive, Keeps, create-Keeps, trigger-Keeps, complete-Keeps}

left-OneActive :
    {A : Type 0} (x : Result ServiceError A × Store)
    → Post (λ (d : Store). OneActive d.work_orders) (λ _ (d : Store). OneActive d.work_orders) x
    → OneActive x.1.work_orders
left-OneActive (ok _, d) h = h
left-OneActive (err _, d) h = h

kept :
    {A : Type 0} {m : Call A} (s : Store)
    → Keeps OneActive m
    → OneActive s.work_orders
    → OneActive (m s).1.work_orders
kept {m = m} s q one = left-OneActive (m s) (q.at s one one)

chosen :
    (b : Bool) (x y : Store)
    → OneActive x.work_orders
    → OneActive y.work_orders
    → OneActive (if b then x else y).work_orders
chosen true x y h k = h
chosen false x y h k = k

sweep-OneActive :
    (sap : PmPlan → Vehicle → Result SapError Text) (fresh_of : Uuid → Uuid) (notify : Bool)
    (now : DateTime) (l : List PmPlan) (s : Store)
    → OneActive s.work_orders
    → OneActive (sweep sap fresh_of notify now l s).work_orders
unfolding sweep
sweep-OneActive sap fresh_of notify now [] s one = one
sweep-OneActive sap fresh_of notify now (p ∷ l) s one =
    sweep-OneActive sap fresh_of notify now l _ (
      chosen (is_due now p.next_due_at) _ s (kept s (trigger-Keeps sap (fresh_of p.id) _ now) one)
        one)

-- A request: the id of what it creates, its arguments and the time.
pub data Request : Type 0 where
  plan : Uuid → PlanData → DateTime → Request
  trigger_one : Uuid → TriggerData → DateTime → Request
  complete_one : Uuid → DateTime → Option Text → DateTime → Request
  trigger_due : Bool → DateTime → Request

-- The store after a request, whether it returns or raises.
unfoldable pub serve :
    (PmPlan → Vehicle → Result SapError Text) → (Uuid → Uuid) → Request → Store → Store
unfolding create_plan trigger_work_order complete_work_order trigger_overdue
serve sap fresh_of (plan f d t) s = (create_plan f d t s).1
serve sap fresh_of (trigger_one f d t) s = (trigger_work_order sap f d t s).1
serve sap fresh_of (complete_one i at n t) s = (complete_work_order i at n t s).1
serve sap fresh_of (trigger_due b t) s = trigger_overdue sap fresh_of b t s

unfoldable pub serve_all :
    (PmPlan → Vehicle → Result SapError Text) → (Uuid → Uuid) → List Request → Store → Store
unfolding serve
serve_all sap fresh_of [] s = s
serve_all sap fresh_of (r ∷ l) s = serve_all sap fresh_of l (serve sap fresh_of r s)

serve-OneActive :
    (sap : PmPlan → Vehicle → Result SapError Text) (fresh_of : Uuid → Uuid) (r : Request)
    (s : Store)
    → OneActive s.work_orders
    → OneActive (serve sap fresh_of r s).work_orders
unfolding serve trigger_overdue
serve-OneActive sap fresh_of (plan f d t) s one = kept s (create-Keeps f d t) one
serve-OneActive sap fresh_of (trigger_one f d t) s one = kept s (trigger-Keeps sap f d t) one
serve-OneActive sap fresh_of (complete_one i at n t) s one = kept s (complete-Keeps i at n t) one
serve-OneActive sap fresh_of (trigger_due b t) s one =
    sweep-OneActive sap fresh_of b t (select is_active s.plans) s one

-- Where each plan has one work order at most that has not ended, deleted rows aside, no sequence of
-- requests changes that: plans that are created, work orders that are triggered and completed, and
-- sweeps over the plans that are due, each returning or raising, whatever SAP answers and whichever
-- ids are made.
pub serve_all-OneActive :
    (sap : PmPlan → Vehicle → Result SapError Text) (fresh_of : Uuid → Uuid) (l : List Request)
    (s : Store)
    → OneActive s.work_orders
    → OneActive (serve_all sap fresh_of l s).work_orders
unfolding serve_all
serve_all-OneActive sap fresh_of [] s one = one
serve_all-OneActive sap fresh_of (r ∷ l) s one =
    serve_all-OneActive sap fresh_of l (serve sap fresh_of r s)
      (serve-OneActive sap fresh_of r s one)
