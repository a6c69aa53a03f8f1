-- ===== src/Maintenance/OneActive.antt =====
-- The services of preventive maintenance keep the rule of one active work order for each plan.
use fmms.Prelude.{
  ◌≡◌, ◌≤◌, ◌+◌, refl, Bool, true, false, not, ◌&&◌, Option, none, some, List, [], ◌∷◌, ◌==◌, Uuid,
  DateTime, Text, Result, ok, err, ◌>>=◌, ◌>>◌, pure, get, Post, Bool-cases, Option-cases, inl, inr,
  arith,
}
use fmms.Vehicle.Entity.{Vehicle}
use fmms.Maintenance
use fmms.Maintenance.{PmWorkOrder, PmError, PmWorkOrderStatus-discrete}
use fmms.Maintenance.Plan.{PmPlan, ValueError}
use fmms.Maintenance.Services.{
  Store, ServiceError, Call, plan_id, plan_missing, plan_not_active, required, stored_work_order,
  load_plan, load_work_order, load_vehicle, save_plan, save_work_order, valid, after, PlanData,
  create_plan, is_active_status, any_active, list_by_plan, TriggerData, new_work_order,
  notification_number, create_notification, refuse_active, trigger_work_order, finish, noted,
  complete_work_order, work_order_id,
}
use fmms.Workflow.Database.{SapError, idempotency, exhausted, integration}
use fmms.Workflow.Table.{
  Row, count, tally, row_of, put, select, visible, row_of-id, count-put_old, count-put_new,
}
use fmms.Workflow.Frame.{
  Still, Holds, Still-pure, Still-raise, Still-if, Still-bind, Still-when, Still-then, Still-Holds,
}

-- A row that stands for a work order of the plan that has not ended.
abbrev pub is_active_row : Uuid → Row PmWorkOrder → Bool
is_active_row p r = (r.entity.plan_id == p) && not r.is_deleted && is_active_status r.entity.status

-- Each plan has one such work order at most.
unfoldable pub OneActive : List (Row PmWorkOrder) → Type 0
OneActive rows = (p : Uuid) → count (is_active_row p) rows ≤ 1

abbrev pub work_orders_of : Store → List (Row PmWorkOrder)
work_orders_of s = s.work_orders

abbrev Quiet : {A : Type 0} → Call A → Type 0
Quiet m = Still work_orders_of m

abbrev pub Keeps : {A : Type 0} → (List (Row PmWorkOrder) → Type 0) → Call A → Type 0
Keeps P m = Holds work_orders_of OneActive P m

-- The rule holds, and the plan has no such work order.
abbrev Idle : Uuid → List (Row PmWorkOrder) → Type 0
Idle p rows = OneActive rows × (count (is_active_row p) rows ≡ 0)

none_active :
    (p : Uuid) (rows : List (Row PmWorkOrder))
    → any_active (list_by_plan p rows) ≡ false
    → count (is_active_row p) rows ≡ 0
unfolding any_active select count
none_active p [] h = refl
none_active p (r ∷ rows) h = ground (arith, none_active p rows)

module _ (now : DateTime) (w : PmWorkOrder) where
  -- A save adds one active work order at most, and none for another plan or of one that has ended.
  count-save :
      (p : Uuid) (rows : List (Row PmWorkOrder))
      → count (is_active_row p) (put work_order_id (stored_work_order now) w rows)
        ≤ count (is_active_row p) rows + tally ((w.plan_id == p) && is_active_status w.status)
  unfolding stored_work_order
  count-save p rows = elim (Option-cases (row_of work_order_id w.id rows)) [
    | inl e ↦
        ground
          (arith, count-put_new work_order_id (stored_work_order now) (is_active_row p) w rows e)
    | inr (r, e) ↦
        ground
          (arith, count-put_old work_order_id (stored_work_order now) (is_active_row p) w rows e)
  ]

  saved_idle :
      (rows : List (Row PmWorkOrder))
      → Idle w.plan_id rows
      → OneActive (put work_order_id (stored_work_order now) w rows)
  unfolding OneActive
  saved_idle rows (one, idle) p = elim (Bool-cases (w.plan_id == p)) [
    | inl e ↦ ground (arith, idle, count-save p rows)
    | inr e ↦ ground (arith, one p, count-save p rows)
  ]

  saved_ended :
      (rows : List (Row PmWorkOrder))
      → is_active_status w.status ≡ false
      → OneActive rows
      → OneActive (put work_order_id (stored_work_order now) w rows)
  unfolding OneActive
  saved_ended rows e one p = ground (arith, one p, count-save p rows)

Quiet-get : Quiet get
Quiet-get = record { at = λ s. refl }

Quiet-required : {A : Type 0} (e : ServiceError) (x : Option A) → Quiet (required e x)
Quiet-required e none = Still-raise e
Quiet-required e (some a) = Still-pure a

ruleset still_rules =
    (Still-pure, Still-raise, Still-if, Still-when, Still-bind, Quiet-get, Quiet-required)

Quiet-load_plan : (i : Uuid) → Quiet (load_plan i)
unfolding load_plan
Quiet-load_plan i = search still_rules

Quiet-load_vehicle : (i : Uuid) → Quiet (load_vehicle i)
unfolding load_vehicle
Quiet-load_vehicle i = search still_rules

Quiet-save_plan : (now : DateTime) (p : PmPlan) → Quiet (save_plan now p)
unfolding save_plan
Quiet-save_plan now p = record { at = λ s. refl }

Quiet-number : (r : Result SapError Text) → Quiet (notification_number r)
unfolding notification_number
Quiet-number (ok []) = Still-raise _
Quiet-number (ok (c ∷ t)) = Still-pure _
Quiet-number (err idempotency) = Still-raise _
Quiet-number (err exhausted) = Still-raise _
Quiet-number (err integration) = Still-raise _

Quiet-notification :
    (sap : PmPlan → Vehicle → Result SapError Text) (b : Bool) (p : PmPlan)
    → Quiet (create_notification sap b p)
unfolding create_notification
Quiet-notification sap false p = Still-pure none
Quiet-notification sap true p = search (still_rules, Quiet-load_vehicle, Quiet-number)

-- Where the check passes, the plan has no active work order.
Keeps-refuse :
    {A : Type 0} (i : Uuid) {k : Unit {0} → Call A}
    → ((u : Unit {0}) → Keeps (Idle i) (k u))
    → Keeps OneActive (refuse_active i >>= k)
unfolding refuse_active
Keeps-refuse i {k} q = record {
  at = λ s one _. elim (Bool-cases (any_active (list_by_plan i s.work_orders))) [
    | inl e ↦ rw e one
    | inr e ↦ rw e ((q tt).at s one (one, none_active i s.work_orders e))
  ];
}

found_plan :
    {A : Type 0} {P : List (Row PmWorkOrder) → Type 0} (i : Uuid) {k : PmPlan → Call A}
    → ((p : PmPlan) → p.id ≡ i → Keeps P (k p))
    → (s : Store) → OneActive s.work_orders
    → P s.work_orders
    → (r : Option (Row PmPlan)) → row_of plan_id i s.plans ≡ r
    → Post
        (λ (d : Store). OneActive d.work_orders)
        (λ _ (d : Store). OneActive d.work_orders)
        ((required (plan_missing i) (visible r) >>= k) s)
found_plan i q s one h none e = one
found_plan i q s one h (some r) e = elim (Bool-cases r.is_deleted) [
  | inl d ↦ rw d one
  | inr d ↦ rw d ((q r.entity (row_of-id plan_id i s.plans e)).at s one h)
]

-- The plan that a service loads has the id that was asked for.
Keeps-load_plan :
    {A : Type 0} (i : Uuid) {k : PmPlan → Call A}
    → ((p : PmPlan) → p.id ≡ i → Keeps OneActive (k p))
    → Keeps OneActive (load_plan i >>= k)
unfolding load_plan
Keeps-load_plan i q = record {
  at = λ s one h. found_plan i q s one h (row_of plan_id i s.plans) refl;
}

Keeps-save :
    (p : Uuid) (now : DateTime) (w : PmWorkOrder)
    → w.plan_id ≡ p
    → Keeps (Idle p) (save_work_order now w >> pure w)
unfolding save_work_order
Keeps-save p now w e = record { at = λ s one h. saved_idle now w s.work_orders (rw e h) }

pub trigger-Keeps :
    (sap : PmPlan → Vehicle → Result SapError Text) (fresh : Uuid) (d : TriggerData)
    (now : DateTime)
    → Keeps OneActive (trigger_work_order sap fresh d now)
unfolding trigger_work_order new_work_order Maintenance.trigger Maintenance.transition_to
    Maintenance.allows Maintenance.allowed_transitions PmWorkOrderStatus-discrete
trigger-Keeps sap fresh d now = Keeps-load_plan d.plan_id λ p e.
    Still-then (Still-when _ _ (Still-raise (plan_not_active d.plan_id p.status))) λ _.
      Keeps-refuse d.plan_id λ _.
        Still-then (Quiet-notification sap d.create_sap_notification p)
          λ n. Still-then (Quiet-save_plan now _) λ _. Keeps-save d.plan_id now _ e

finish-ends :
    (at : DateTime) (w v : PmWorkOrder)
    → finish at w w ≡ (ok tt, v)
    → is_active_status v.status ≡ false
unfolding finish is_active_status Maintenance.start Maintenance.complete Maintenance.transition_to
    Maintenance.allows Maintenance.allowed_transitions PmWorkOrderStatus-discrete
finish-ends at w v h = ground arith

finished-Keeps :
    (at : DateTime) (notes : Option Text) (now : DateTime) (w : PmWorkOrder)
    (x : Result PmError (Unit {0}) × PmWorkOrder)
    → finish at w w ≡ x
    → Keeps OneActive (
        after x >>= λ v.
        save_work_order now (record (noted notes v) { updated_at = now })
        >> pure (record (noted notes v) { updated_at = now }))
unfolding save_work_order
finished-Keeps at none now w (ok u, v) e = record {
  at = λ s one _. saved_ended now _ s.work_orders (finish-ends at w v e) one;
}
finished-Keeps at (some t) now w (ok u, v) e = record {
  at = λ s one _. saved_ended now _ s.work_orders (finish-ends at w v e) one;
}
finished-Keeps at notes now w (err x, v) e = record { at = λ s one _. one }

Quiet-load_work_order : (i : Uuid) → Quiet (load_work_order i)
unfolding load_work_order
Quiet-load_work_order i = search still_rules

pub complete-Keeps :
    (i : Uuid) (at : DateTime) (notes : Option Text) (now : DateTime)
    → Keeps OneActive (complete_work_order i at notes now)
unfolding complete_work_order
complete-Keeps i at notes now =
    Still-then (Quiet-load_work_order i) λ w. finished-Keeps at notes now w (finish at w w) refl

Quiet-valid : {A : Type 0} (r : Result ValueError A) → Quiet (valid r)
Quiet-valid (ok a) = Still-pure a
Quiet-valid (err e) = Still-raise _

pub create-Keeps :
    (fresh : Uuid) (d : PlanData) (now : DateTime) → Keeps OneActive (create_plan fresh d now)
unfolding create_plan
create-Keeps fresh d now =
    Still-Holds (search (still_rules, Quiet-load_vehicle, Quiet-valid, Quiet-save_plan) depth 14)
