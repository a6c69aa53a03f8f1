-- ===== src/Workflow/OneFault.antt =====
-- The rule of one open fault for each vehicle, and what the steps of a report do to it.
pub mod Reports
use fmms.Prelude.{
  ℕ, ◌≡◌, ◌≤◌, ◌+◌, refl, sym, ap, ◌∙◌, Bool, true, false, not, ◌&&◌, Option, none, some, List, [],
  ◌∷◌, ◌==◌, Uuid, DateTime, Text, Result, ok, err, Update, ◌>>=◌, ◌>>◌, pure, get, Post, Post-bind,
  Bool-cases, Option-cases, inl, inr, arith, is,
}
use fmms.Fault.Status.{closed, FaultStatus-discrete}
use fmms.Fault.Entity as FaultEntity
use fmms.Fault.Entity.{Fault}
use fmms.Fault.Values.{ValueError, fault_code, fault_description}
use fmms.Fault.Report.{ReportData, Characters, Payload}
use fmms.Vehicle.Entity.{Vehicle}
use fmms.Inspection.{Inspection, InspectionItem, failed_items}
use fmms.OpenFlow.{
  FlowError, FaultRow, OrderRow, is_open_row, has_open_fault_for_vehicle,
  has_open_repair_order_for_vehicle, assert_vehicle_has_no_open_flow,
}
use fmms.Workflow.Table.{Row, count, tally, row_of, put, row_of-put, count-put_old, count-put_new}
use fmms.Workflow.Stored.{stored_fault}
use fmms.Workflow.Database.{
  Database, Call, ServiceError, SapError, idempotency, exhausted, integration, required, fault_id,
  load_vehicle, save_fault,
}
use fmms.Workflow.Frame.{
  Still, Holds, Still-pure, Still-raise, Still-if, Still-bind, Still-when, Still-then, Still-Holds,
  Holds-bind,
}
use fmms.Workflow.Faults.{
  Notifier, guarded, check_flow, valid, document, create_notification, measured, measure_notified,
  sync_fault, link_number, new_fault, build_fault as build_reported, report_fault,
}
use fmms.Workflow.Inspections.{load_inspection}
use fmms.Workflow.Checklist.{
  default_fault_code, summary, failed_fault, build_fault, faults_of_inspection, refuse_reported,
  notify_saved, report_failures, report_inspection_fault,
}

-- Each vehicle has one open fault at most, deleted rows aside.
unfoldable pub OneFault : List FaultRow → Type 0
OneFault rows = (v : Uuid) → count (is_open_row v) rows ≤ 1

abbrev pub faults_of : Database → List FaultRow
faults_of db = db.faults

abbrev pub Quiet : {A : Type 0} → Call A → Type 0
Quiet m = Still faults_of m

abbrev pub Keeps : {A : Type 0} → (List FaultRow → Type 0) → Call A → Type 0
Keeps P m = Holds faults_of OneFault P m

-- The rule holds, and the vehicle has no open fault.
abbrev pub Free : Uuid → List FaultRow → Type 0
Free v rows = OneFault rows × (count (is_open_row v) rows ≡ 0)

-- The rule holds, and f has the vehicle and the status that its row has.
abbrev pub Held : Fault → List FaultRow → Type 0
Held f rows =
    OneFault rows
    × ((r : FaultRow) × (row_of fault_id f.id rows ≡ some r)
        × (r.entity.vehicle_id ≡ f.vehicle_id)
        × (r.entity.status ≡ f.status))

none_open :
    (v : Uuid) (rows : List FaultRow)
    → has_open_fault_for_vehicle v rows ≡ false
    → count (is_open_row v) rows ≡ 0
unfolding has_open_fault_for_vehicle count
none_open v [] h = refl
none_open v (r ∷ rows) h = ground (arith, none_open v rows)

-- Where the guard passes, the vehicle has no open fault.
passed_Free :
    (v : Uuid) (faults : List FaultRow) (orders : List OrderRow)
    → assert_vehicle_has_no_open_flow v faults orders ≡ ok tt
    → count (is_open_row v) faults ≡ 0
unfolding assert_vehicle_has_no_open_flow
passed_Free v faults orders h = none_open v faults (ground arith)

stored-id :
    (now : DateTime) (old : Option FaultRow) (f : Fault)
    → fault_id (stored_fault now old f).entity ≡ fault_id f
unfolding stored_fault
stored-id now old f = refl

module _ (now : DateTime) (f : Fault) where
  row_saved :
      (rows : List FaultRow)
      → row_of fault_id f.id (put fault_id (stored_fault now) f rows)
        ≡ some (stored_fault now (row_of fault_id f.id rows) f)
  row_saved rows =
      ground (arith, row_of-put fault_id (stored_fault now) (stored-id now) f.id f rows)

  -- A save adds one open fault at most, and none for another vehicle.
  count-save_any :
      (v : Uuid) (rows : List FaultRow)
      → count (is_open_row v) (put fault_id (stored_fault now) f rows)
        ≤ count (is_open_row v) rows + tally (f.vehicle_id == v)
  unfolding stored_fault
  count-save_any v rows = elim (Option-cases (row_of fault_id f.id rows)) [
    | inl e ↦ ground (arith, count-put_new fault_id (stored_fault now) (is_open_row v) f rows e)
    | inr (r, e) ↦
        ground (arith, count-put_old fault_id (stored_fault now) (is_open_row v) f rows e)
  ]

  -- A save of a fault as its row has it adds none.
  count-save_same :
      (v : Uuid) (rows : List FaultRow) (r : FaultRow)
      → row_of fault_id f.id rows ≡ some r
      → r.entity.vehicle_id ≡ f.vehicle_id
      → r.entity.status ≡ f.status
      → count (is_open_row v) (put fault_id (stored_fault now) f rows) ≤ count (is_open_row v) rows
  unfolding stored_fault
  count-save_same v rows r e e₂ e₃ = ground (
    arith,
    count-put_old fault_id (stored_fault now) (is_open_row v) f rows e,
    e₂,
    ap (λ s. is FaultStatus-discrete s closed) e₃,
  )

  -- A fault of a vehicle without one.
  saved_Held :
      (rows : List FaultRow)
      → Free f.vehicle_id rows
      → Held f (put fault_id (stored_fault now) f rows)
  unfolding OneFault stored_fault
  saved_Held rows (one, free) = (
    λ v. elim (Bool-cases (f.vehicle_id == v)) [
      | inl e ↦ ground (arith, free, count-save_any v rows)
      | inr e ↦ ground (arith, one v, count-save_any v rows)
    ],
    (_, row_saved rows, refl, refl),
  )

pub Keeps-save :
    {A : Type 0} {k : Unit {0} → Call A} (v : Uuid) (now : DateTime) (f : Fault)
    → f.vehicle_id ≡ v
    → ((u : Unit {0}) → Keeps (Held f) (k u))
    → Keeps (Free v) (save_fault now f >>= k)
unfolding save_fault
Keeps-save v now f e q = record {
  at = λ db one h. let held = saved_Held now f db.faults (rw e h) in (q tt).at _ held.0 held;
}

guarded-Free :
    {A : Type 0} (v : Uuid) {k : Unit {0} → Call A}
    → ((u : Unit {0}) → Keeps (Free v) (k u))
    → (db : Database) → OneFault db.faults
    → (r : Result FlowError (Unit {0})) → assert_vehicle_has_no_open_flow v db.faults db.orders ≡ r
    → Post
        (λ (d : Database). OneFault d.faults)
        (λ _ (d : Database). OneFault d.faults)
        ((guarded r >>= k) db)
guarded-Free v q db one (ok u) e = (q u).at db one (one, passed_Free v db.faults db.orders e)
guarded-Free v q db one (err e₂) e = one

-- What follows the guard has a vehicle without an open fault.
pub Keeps-check :
    {A : Type 0} (v : Uuid) {k : Unit {0} → Call A}
    → ((u : Unit {0}) → Keeps (Free v) (k u))
    → Keeps OneFault (check_flow v >>= k)
unfolding check_flow
Keeps-check v q = record { at = λ db one _. guarded-Free v q db one _ refl }

pub Quiet-required : {A : Type 0} (e : ServiceError) (x : Option A) → Quiet (required e x)
Quiet-required e none = Still-raise e
Quiet-required e (some a) = Still-pure a

pub Quiet-get : Quiet get
Quiet-get = record { at = λ db. refl }

pub ruleset still_rules =
    (Still-pure, Still-raise, Still-if, Still-when, Still-bind, Quiet-get, Quiet-required)

pub Quiet-load_vehicle : (i : Uuid) → Quiet (load_vehicle i)
unfolding load_vehicle
Quiet-load_vehicle i = search still_rules

pub Quiet-valid : (r : Result ValueError Text) → Quiet (valid r)
Quiet-valid (ok t) = Still-pure t
Quiet-valid (err e) = Still-raise _

Quiet-document : (r : Result SapError Text) → Quiet (document r)
unfolding document
Quiet-document (ok t) = Still-pure _
Quiet-document (err integration) = Still-pure _
Quiet-document (err idempotency) = Still-raise _
Quiet-document (err exhausted) = Still-raise _

Quiet-measured :
    (x : Notifier) (f : Fault) (v : Vehicle) (n : Text) (o : Option ℕ) → Quiet (measured x f v n o)
unfolding measured
Quiet-measured x f v n none = Still-pure tt
Quiet-measured x f v n (some km) = Still-bind (Quiet-document _) λ _. Still-pure tt

pub Quiet-measure_notified :
    (x : Notifier) (f : Fault) (v : Vehicle) (n : Option Text) → Quiet (measure_notified x f v n)
unfolding measure_notified
Quiet-measure_notified x f v none = Still-pure tt
Quiet-measure_notified x f v (some []) = Still-pure tt
Quiet-measure_notified x f v (some (c ∷ t)) = Quiet-measured x f v (c ∷ t) _

pub Quiet-notification :
    (x : Notifier) (f : Fault) (v : Vehicle) → Quiet (create_notification x f v)
unfolding create_notification
Quiet-notification x f v = Quiet-document _

-- The number changes neither the vehicle nor the status of the fault.
pub link-Keeps :
    (now : DateTime) (f : Fault) (n : Option Text) → Keeps (Held f) (link_number now f n)
unfolding link_number FaultEntity.link_sap_notification save_fault OneFault
link-Keeps now f none = record { at = λ db one h. one }
link-Keeps now f (some []) = record { at = λ db one h. one }
link-Keeps now f (some (c ∷ t)) = record {
  at = λ db one (_, (r, e, e₂, e₃)) v.
      omega (arith, one v, count-save_same now _ v db.faults r e e₂ e₃);
}
