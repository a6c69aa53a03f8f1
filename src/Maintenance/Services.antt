-- ===== src/Maintenance/Services.antt =====
-- The services of preventive maintenance (apps/preventive_maintenance/application/services), over the
-- tables of its repositories.
use fmms.Prelude.{
  Bool, true, false, not, ◌||◌, Option, none, some, List, [], ◌∷◌, ◌==◌, Uuid, DateTime, Text, ℤ,
  member, ltb, blank_to_none, Result, ok, err, Method, Update, ◌>>=◌, ◌>>◌, pure, get, modify,
  raise, when, if◌then◌else◌,
}
use fmms.Vehicle.Entity.{Vehicle}
use fmms.Maintenance
use fmms.Maintenance.{
  PmWorkOrder, PmWorkOrderStatus, PmWorkOrderStatus-discrete, PmError, scheduled, triggered,
  in_progress, overdue,
}
use fmms.Maintenance.Plan as PmPlans
use fmms.Maintenance.Plan.{
  PmPlan, PmPlanStatus, IntervalUnit, TriggerType, ValueError, MaintenanceInterval,
  TriggerCondition, maintenance_interval, trigger_condition, record_trigger, is_active,
}
use fmms.Workflow.Table.{Row, find, row_of, put, select}
use fmms.Workflow.Stored.{kept, kept_flag}
use fmms.Workflow.Database.{SapError, idempotency, exhausted, integration, entity_of, vehicle_id}

-- The tables of the plans, the work orders and the vehicles.
pub record Store : Type 0 where
  pub plans : List (Row PmPlan)
  pub work_orders : List (Row PmWorkOrder)
  pub vehicles : List (Row Vehicle)

-- What a service raises; the last four are those of `_create_sap_notification`.
pub data ServiceError : Type 0 where
  plan_missing work_order_missing vehicle_missing already_triggered : Uuid → ServiceError
  plan_not_active : Uuid → PmPlanStatus → ServiceError
  pm_error : PmError → ServiceError
  value_error : ValueError → ServiceError
  sap_in_progress sap_exhausted sap_failed sap_empty_number : ServiceError

abbrev pub Call : Type 0 → Type 0
Call A = Method Store ServiceError A

abbrev pub plan_id : PmPlan → Uuid
plan_id p = p.id

abbrev pub work_order_id : PmWorkOrder → Uuid
work_order_id w = w.id

abbrev pub required : {A : Type 0} → ServiceError → Option A → Call A
required e none = raise e
required e (some a) = pure a

-- The columns that `DjangoPMPlanRepository.save` writes.
unfoldable pub stored_plan : DateTime → Option (Row PmPlan) → PmPlan → Row PmPlan
stored_plan now old p = record {
  entity = record p {
    created_at = kept (λ (q : PmPlan). q.created_at) old p.created_at;
    updated_at = now;
  };
  is_deleted = kept_flag old;
}

-- The columns that `DjangoPMWorkOrderRepository.save` writes.
unfoldable pub stored_work_order :
    DateTime → Option (Row PmWorkOrder) → PmWorkOrder → Row PmWorkOrder
stored_work_order now old w = record {
  entity = record w {
    created_at = kept (λ (v : PmWorkOrder). v.created_at) old w.created_at;
    updated_at = now;
    notes = blank_to_none w.notes;
    sap_order_number = blank_to_none w.sap_order_number;
  };
  is_deleted = kept_flag old;
}

unfoldable pub load_plan : Uuid → Call PmPlan
load_plan i = do s ← get; required (plan_missing i) (find plan_id i s.plans)

unfoldable pub load_work_order : Uuid → Call PmWorkOrder
load_work_order i = do s ← get; required (work_order_missing i) (find work_order_id i s.work_orders)

-- `objects.get(id=...)`, whose row may be deleted.
unfoldable pub load_vehicle : Uuid → Call Vehicle
load_vehicle i = do
  s ← get
  required (vehicle_missing i) (entity_of (row_of vehicle_id i s.vehicles))

unfoldable pub save_plan : DateTime → PmPlan → Update Store ServiceError
save_plan now p = modify (λ s. record s { plans = put plan_id (stored_plan now) p s.plans })

unfoldable pub save_work_order : DateTime → PmWorkOrder → Update Store ServiceError
save_work_order now w =
    modify
      (λ s. record s { work_orders = put work_order_id (stored_work_order now) w s.work_orders })

-- A value object, or its `ValueError`.
abbrev pub valid : {A : Type 0} → Result ValueError A → Call A
valid (ok a) = pure a
valid (err e) = raise (value_error e)

-- The work order that a method leaves, or its exception.
abbrev pub after : Result PmError (Unit {0}) × PmWorkOrder → Call PmWorkOrder
after (ok _, w) = pure w
after (err e, w) = raise (pm_error e)

-- `CreatePMPlanDTO`, but for the request.
pub record PlanData : Type 0 where
  pub vehicle_id : Uuid
  pub name : Text
  pub description : Text
  pub interval_value : ℤ
  pub interval_unit : IntervalUnit
  pub trigger_type : TriggerType
  pub trigger_threshold : ℤ
  pub created_by : Uuid

unfoldable pub new_plan :
    Uuid → PlanData → MaintenanceInterval → TriggerCondition → DateTime → PmPlan
new_plan fresh d interval condition now = record {
  id = fresh;
  vehicle_id = d.vehicle_id;
  name = d.name;
  description = d.description;
  interval = interval;
  trigger_condition = condition;
  status = PmPlans.active;
  created_by_id = d.created_by;
  created_at = now;
  updated_at = now;
  last_triggered_at = none;
  next_due_at = none;
}

-- `CreatePMPlanService.execute`; `fresh` is the id of the plan.
unfoldable pub create_plan : Uuid → PlanData → DateTime → Call PmPlan
unfolding load_vehicle maintenance_interval trigger_condition new_plan
create_plan fresh d now = do
  load_vehicle d.vehicle_id
  interval ← valid (maintenance_interval d.interval_value d.interval_unit)
  condition ← valid (trigger_condition d.trigger_type d.trigger_threshold)
  save_plan now (new_plan fresh d interval condition now)
  pure (new_plan fresh d interval condition now)

-- `_ACTIVE_WO_STATUSES`
unfoldable pub is_active_status : PmWorkOrderStatus → Bool
unfolding PmWorkOrderStatus-discrete
is_active_status s =
    member PmWorkOrderStatus-discrete s (scheduled ∷ triggered ∷ in_progress ∷ overdue ∷ [])

-- `any(wo.status in _ACTIVE_WO_STATUSES for wo in existing)`
unfoldable pub any_active : List PmWorkOrder → Bool
unfolding is_active_status
any_active [] = false
any_active (w ∷ l) = is_active_status w.status || any_active l

-- `list_by_plan`
abbrev pub list_by_plan : Uuid → List (Row PmWorkOrder) → List PmWorkOrder
list_by_plan i rows = select (λ (w : PmWorkOrder). w.plan_id == i) rows

-- `TriggerPMWorkOrderDTO`, but for the request and what goes to SAP alone.
pub record TriggerData : Type 0 where
  pub plan_id : Uuid
  pub scheduled_date : DateTime
  pub create_sap_notification : Bool
  pub notes : Option Text

unfoldable pub new_work_order : Uuid → PmPlan → TriggerData → DateTime → PmWorkOrder
new_work_order fresh p d now = record {
  id = fresh;
  plan_id = p.id;
  vehicle_id = p.vehicle_id;
  status = scheduled;
  scheduled_date = d.scheduled_date;
  created_at = now;
  updated_at = now;
  triggered_at = none;
  completed_at = none;
  notes = d.notes;
  sap_order_number = none;
}

-- The number of the notification, from the answer of the manager of SAP.
unfoldable pub notification_number : Result SapError Text → Call Text
notification_number (ok []) = raise sap_empty_number
notification_number (ok (c ∷ t)) = pure (c ∷ t)
notification_number (err idempotency) = raise sap_in_progress
notification_number (err exhausted) = raise sap_exhausted
notification_number (err integration) = raise sap_failed

-- `_create_sap_notification`, if it is asked for; every vehicle of the model has its number.
unfoldable pub create_notification :
    (PmPlan → Vehicle → Result SapError Text) → Bool → PmPlan → Call (Option Text)
unfolding notification_number load_vehicle
create_notification sap false p = pure none
create_notification sap true p = do
  v ← load_vehicle p.vehicle_id
  n ← notification_number (sap p v)
  pure (some n)

-- `if any(...): raise PMAlreadyTriggeredError`
unfoldable pub refuse_active : Uuid → Update Store ServiceError
unfolding any_active
refuse_active i = do
  s ← get
  when (any_active (list_by_plan i s.work_orders)) (raise (already_triggered i))

-- `TriggerPMWorkOrderService.execute`; `sap` is how the manager answers for the plan and its vehicle,
-- `fresh` the id of the work order.
unfoldable pub trigger_work_order :
    (PmPlan → Vehicle → Result SapError Text) → Uuid → TriggerData → DateTime → Call PmWorkOrder
unfolding refuse_active new_work_order create_notification
trigger_work_order sap fresh d now = do
  p ← load_plan d.plan_id
  when (not (is_active p)) (raise (plan_not_active d.plan_id p.status))
  refuse_active d.plan_id
  w ← after (Maintenance.trigger now (new_work_order fresh p d now))
  create_notification sap d.create_sap_notification p
  save_plan now (record (record_trigger now p) { updated_at = now })
  save_work_order now w
  pure w

-- `work_order.start()` from TRIGGERED and OVERDUE, then `complete()`.
unfoldable pub finish : DateTime → PmWorkOrder → Update PmWorkOrder PmError
unfolding PmWorkOrderStatus-discrete
finish at w = do
  when (member PmWorkOrderStatus-discrete w.status (triggered ∷ overdue ∷ [])) Maintenance.start
  Maintenance.complete at

abbrev pub noted : Option Text → PmWorkOrder → PmWorkOrder
noted none w = w
noted (some t) w = record w { notes = some t }

-- `CompletePMWorkOrderService.execute`
unfoldable pub complete_work_order : Uuid → DateTime → Option Text → DateTime → Call PmWorkOrder
unfolding load_work_order finish
complete_work_order i at notes now = do
  w ← load_work_order i
  v ← after (finish at w w)
  save_work_order now (record (noted notes v) { updated_at = now })
  pure (record (noted notes v) { updated_at = now })

-- A plan is due: `next_due_at` is set and not after `now`.
abbrev pub is_due : DateTime → Option DateTime → Bool
is_due now none = false
is_due now (some t) = not (ltb now t)

abbrev pub due_date : DateTime → Option DateTime → DateTime
due_date now none = now
due_date now (some t) = t

-- The loop over the plans that are due. Whatever `execute` raises is caught, and what was written
-- before stays; `fresh_of` makes the id of a work order from that of its plan.
unfoldable pub sweep :
    (PmPlan → Vehicle → Result SapError Text)
    → (Uuid → Uuid)
    → Bool
    → DateTime
    → List PmPlan
    → Store
    → Store
unfolding trigger_work_order
sweep sap fresh_of notify now [] s = s
sweep sap fresh_of notify now (p ∷ l) s =
    let d : TriggerData = record {
      plan_id = p.id;
      scheduled_date = due_date now p.next_due_at;
      create_sap_notification = notify;
      notes = none;
    } in
    sweep sap fresh_of notify now l
      (if is_due now p.next_due_at then (trigger_work_order sap (fresh_of p.id) d now s).1 else s)

-- `TriggerOverduePMWorkOrdersService.execute`, but for the list that it returns.
unfoldable pub trigger_overdue :
    (PmPlan → Vehicle → Result SapError Text) → (Uuid → Uuid) → Bool → DateTime → Store → Store
unfolding sweep
trigger_overdue sap fresh_of notify now s =
    sweep sap fresh_of notify now (select is_active s.plans) s
